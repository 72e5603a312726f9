-- ===== src/Util/Size/Units.antt =====
-- What `parse_size64` makes of a number and its unit.
use native.Mathlib.Nat.{mul-le-mul_left}
use utils_kernel_ndctl_ndctl.Prelude.{
  ℕ, ◌*◌, ◌^◌, ◌<◌, ◌≤◌, ◌≡◌, ◌≢◌, ◌⊎◌, refl, Bool, true, false, Option, some, none, if-cases, ◌==◌,
  List, [], ◌∷◌, arith, Option-cases, inl, inr,
}
use utils_kernel_ndctl_ndctl.Util.Size.{
  ullong_max, unit_of, scaled, after_number, parse_size64_units, parse_size64,
}

-- What may stand behind a number, and the unit that it stands for.
pub data Suffix : List ℕ → ℕ → Type 0 where
  bare : Suffix [] 1
  kibi : (c : ℕ) → (c ≡ b'k') ⊎ (c ≡ b'K') → Suffix (c ∷ []) 1024
  mebi : (c : ℕ) → (c ≡ b'm') ⊎ (c ≡ b'M') → Suffix (c ∷ []) 1048576
  gibi : (c : ℕ) → (c ≡ b'g') ⊎ (c ≡ b'G') → Suffix (c ∷ []) 1073741824
  tebi : (c : ℕ) → (c ≡ b't') ⊎ (c ≡ b'T') → Suffix (c ∷ []) 1099511627776

unit_pos : (c unit : ℕ) → unit_of c ≡ some unit → 0 < unit
unfolding unit_of
unit_pos c unit e = ground arith

scaled_exact : (val unit : ℕ) → 0 < unit → val * unit < 2 ^ 64 → scaled val unit true ≡ val * unit
unfolding scaled
scaled_exact val unit p fits =
    let grows : val * 1 ≤ val * unit = mul-le-mul_left val p in ground arith

letter_exact :
    (val c unit : ℕ)
    → unit_of c ≡ some unit
    → val * unit < 2 ^ 64
    → (after_number val (c ∷ [])).0 ≡ val * unit
unfolding after_number
letter_exact val c unit e fits = rw e (scaled_exact val unit (unit_pos c unit e) fits)

unit_kibi : (c : ℕ) → (c ≡ b'k') ⊎ (c ≡ b'K') → unit_of c ≡ some 1024
unfolding unit_of
unit_kibi c (inl e) = rw e refl
unit_kibi c (inr e) = rw e refl

unit_mebi : (c : ℕ) → (c ≡ b'm') ⊎ (c ≡ b'M') → unit_of c ≡ some 1048576
unfolding unit_of
unit_mebi c (inl e) = rw e refl
unit_mebi c (inr e) = rw e refl

unit_gibi : (c : ℕ) → (c ≡ b'g') ⊎ (c ≡ b'G') → unit_of c ≡ some 1073741824
unfolding unit_of
unit_gibi c (inl e) = rw e refl
unit_gibi c (inr e) = rw e refl

unit_tebi : (c : ℕ) → (c ≡ b't') ⊎ (c ≡ b'T') → unit_of c ≡ some 1099511627776
unfolding unit_of
unit_tebi c (inl e) = rw e refl
unit_tebi c (inr e) = rw e refl

-- `scaled` behind the number, at each suffix.
after_exact :
    (val unit : ℕ) (rest : List ℕ)
    → Suffix rest unit
    → val * unit < 2 ^ 64
    → (after_number val rest).0 ≡ val * unit
unfolding after_number
after_exact val unit rest bare fits = scaled_exact val 1 (omega arith) fits
after_exact val unit rest (kibi c e) fits = letter_exact val c 1024 (unit_kibi c e) fits
after_exact val unit rest (mebi c e) fits = letter_exact val c 1048576 (unit_mebi c e) fits
after_exact val unit rest (gibi c e) fits = letter_exact val c 1073741824 (unit_gibi c e) fits
after_exact val unit rest (tebi c e) fits = letter_exact val c 1099511627776 (unit_tebi c e) fits

-- For a string that `strtoull` reads as a number other than `ULLONG_MAX` with nothing or one unit
-- letter behind it, `parse_size64` gives the product of the number and the unit, if that fits 64
-- bits: the unit is 1 with no letter, 1024 for k, 1048576 for m, 1073741824 for g and
-- 1099511627776 for t, in lower or in upper case.
pub parse_size64_lem :
    (strtoull : List ℕ → ℕ × List ℕ) (str rest : List ℕ) (val unit : ℕ)
    → strtoull str ≡ (val, rest)
    → val ≢ ullong_max
    → Suffix rest unit
    → val * unit < 2 ^ 64
    → parse_size64 strtoull (some str) ≡ val * unit
unfolding parse_size64 parse_size64_units
parse_size64_lem strtoull str rest val unit number small suffix fits =
    rw (parse_size64, parse_size64_units, number)
      (ground (arith, after_exact val unit rest suffix fits))

-- What is behind the number is no unit, or the unit is not the last character.
unfoldable pub BadSuffix : List ℕ → Type 0
BadSuffix [] = ⊥
BadSuffix (c ∷ end) = (unit_of c ≡ none) ⊎ (end ≢ [])

after_bad : (val : ℕ) (rest : List ℕ) → BadSuffix rest → (after_number val rest).0 ≡ ullong_max
unfolding after_number scaled BadSuffix
after_bad val [] bad = elim bad [ ]
after_bad val (c ∷ end) (inl e) = rw e (ground arith)
after_bad val (c ∷ []) (inr ne) = absurd (ne refl)
after_bad val (c ∷ d ∷ end) (inr ne) = elim (Option-cases (unit_of c)) [
  | inl e ↦ rw e (ground arith)
  | inr (u, e) ↦ rw e (ground arith)
]

-- For a string that has something else behind its number, `parse_size64` gives `ULLONG_MAX`.
pub parse_size64_bad :
    (strtoull : List ℕ → ℕ × List ℕ) (str rest : List ℕ) (val : ℕ)
    → strtoull str ≡ (val, rest)
    → BadSuffix rest
    → parse_size64 strtoull (some str) ≡ ullong_max
unfolding parse_size64 parse_size64_units
parse_size64_bad strtoull str rest val number bad =
    rw (parse_size64, parse_size64_units, number) (ground (arith, after_bad val rest bad))

scaled-lt : (val unit : ℕ) (at_end : Bool) → scaled val unit at_end < 2 ^ 64
unfolding scaled
scaled-lt val unit at_end = ground arith

after_number-lt : (val : ℕ) (rest : List ℕ) → (after_number val rest).0 < 2 ^ 64
unfolding after_number
after_number-lt val [] = scaled-lt val 1 true
after_number-lt val (c ∷ end) = elim (Option-cases (unit_of c)) [
  | inl e ↦ rw e (scaled-lt val 1 false)
  | inr (u, e) ↦ rw e (scaled-lt val u _)
]

-- Whatever `strtoull` gives, the value is one of 64 bits.
pub parse_size64-lt :
    (strtoull : List ℕ → ℕ × List ℕ) (str : Option (List ℕ)) → parse_size64 strtoull str < 2 ^ 64
unfolding parse_size64 parse_size64_units
parse_size64-lt strtoull none = omega arith
parse_size64-lt strtoull (some str) =
    let (val, rest) = strtoull str in
    if-cases (λ (v : ℕ × Option ℕ). v.0 < 2 ^ 64) (val == ullong_max) {x = (val, none)}
      {y = after_number val rest} (λ e. ground arith) (λ e. after_number-lt val rest)
