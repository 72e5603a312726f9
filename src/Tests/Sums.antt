-- ===== src/Tests/Sums.antt =====
-- Tests of checksums and of sizes.
use utils_kernel_ndctl_ndctl.Prelude.{
  ℕ, inr, ◌+◌, ◌-◌, ◌*◌, ◌%◌, ◌^◌, ◌≡◌, ◌≢◌, refl, true, some, List, [], ◌∷◌, ◌++◌, leb, ◌&&◌,
  if◌then◌else◌, arith,
}
use utils_kernel_ndctl_ndctl.Util.Fletcher.{fletcher64}
use utils_kernel_ndctl_ndctl.Util.Fletcher.Sums.{weighted, total, fletcher64_lem, fletcher64-single}
use utils_kernel_ndctl_ndctl.Util.Size.{
  parse_size64, unit_of, parse_size64_units, after_number, scaled,
}
use utils_kernel_ndctl_ndctl.Util.Size.Units.{Suffix, parse_size64_lem}

abbrev same : ℕ → ℕ
same w = w

fletcher64_lem_example :
    fletcher64 same (7 ∷ 4294967295 ∷ 5 ∷ []) true
    ≡ weighted (7 ∷ 4294967295 ∷ 5 ∷ []) % 2 ^ 32 * 2 ^ 32
      + total (7 ∷ 4294967295 ∷ 5 ∷ []) % 2 ^ 32
fletcher64_lem_example = fletcher64_lem same (7 ∷ 4294967295 ∷ 5 ∷ []) true

fletcher64-single_example :
    fletcher64 same ((7 ∷ []) ++ 8 ∷ 5 ∷ []) true ≢ fletcher64 same ((7 ∷ []) ++ 9 ∷ 5 ∷ []) true
fletcher64-single_example =
    fletcher64-single same (7 ∷ []) (5 ∷ []) 8 9 (omega arith) (omega arith) (omega arith)

-- A stand-in for `strtoull`, which reads decimal digits.
abbrev pub decimal_from : ℕ → List ℕ → ℕ × List ℕ
decimal_from val [] = (val, [])
decimal_from val (c ∷ str) =
    let rest = decimal_from (val * 10 + (c - b'0')) str in
    if leb b'0' c && leb c b'9' then rest else (val, c ∷ str)

abbrev pub decimal : List ℕ → ℕ × List ℕ
decimal str = decimal_from 0 str

parse_size64_lem_example : parse_size64 decimal (some (b'6' ∷ b'4' ∷ b'M' ∷ [])) ≡ 64 * 1048576
parse_size64_lem_example =
    parse_size64_lem decimal (b'6' ∷ b'4' ∷ b'M' ∷ []) (b'M' ∷ []) 64 1048576 refl (omega arith)
      (Suffix.mebi b'M' (inr refl)) (omega arith)

-- 2 ^ 24 + 2 tebibytes overflow and are read as 2 tebibytes: the wrapped product is larger than the
-- number.
abbrev overflowing : List ℕ
overflowing = b'1' ∷ b'6' ∷ b'7' ∷ b'7' ∷ b'7' ∷ b'2' ∷ b'1' ∷ b'8' ∷ b'T' ∷ []

overflow_accepted : parse_size64 decimal (some overflowing) ≡ 2 ^ 41
unfolding parse_size64 parse_size64_units after_number unit_of scaled
overflow_accepted = refl
