-- ===== src/Util/Size.antt =====
-- util/size.c: sizes with a unit, such as `64M`. A string is the list of its bytes, less the last
-- one, which is 0.
pub mod Units
use utils_kernel_ndctl_ndctl.Prelude.{
  ℕ, ◌*◌, ◌-◌, ◌%◌, ◌^◌, Bool, true, false, ◌||◌, not, Option, some, none, List, [], ◌∷◌, ltb, ◌==◌,
  if◌then◌else◌,
}

-- `ULLONG_MAX`
abbrev pub ullong_max : ℕ
ullong_max = 2 ^ 64 - 1

-- The `switch` on a character: `SZ_1K` to `SZ_1T`.
unfoldable pub unit_of : ℕ → Option ℕ
unit_of c =
    if c == b'k' || c == b'K'
    then some (2 ^ 10)
    else if c == b'm' || c == b'M'
    then some (2 ^ 20)
    else if c == b'g' || c == b'G'
    then some (2 ^ 30)
    else if c == b't' || c == b'T'
    then some (2 ^ 40)
    else none

-- The multiplication wraps; then the test of `val < check || *end != '\0'`.
unfoldable pub scaled : ℕ → ℕ → Bool → ℕ
scaled check unit at_end =
    let val = check * unit % 2 ^ 64 in if ltb val check || not at_end then ullong_max else val

abbrev pub is_nil : List ℕ → Bool
is_nil [] = true
is_nil (c ∷ cs) = false

abbrev pub with_unit : ℕ → Option ℕ → List ℕ → ℕ × Option ℕ
with_unit val none end = (scaled val 1 false, some 1)
with_unit val (some unit) end = (scaled val unit (is_nil end), some unit)

unfoldable pub after_number : ℕ → List ℕ → ℕ × Option ℕ
after_number val [] = (scaled val 1 true, some 1)
after_number val (c ∷ end) = with_unit val (unit_of c) end

-- `__parse_size64`: the value, and what is stored in `*units`, if anything. `strtoull` of the C
-- library gives the number (with the base 0) and what is behind it.
unfoldable pub parse_size64_units : (List ℕ → ℕ × List ℕ) → List ℕ → ℕ × Option ℕ
parse_size64_units strtoull str =
    let (val, end) = strtoull str in if val == ullong_max then (val, none) else after_number val end

-- `none` is the null pointer.
unfoldable pub parse_size64 : (List ℕ → ℕ × List ℕ) → Option (List ℕ) → ℕ
parse_size64 strtoull none = 0
parse_size64 strtoull (some str) = (parse_size64_units strtoull str).0
