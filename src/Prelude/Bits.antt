-- ===== src/Prelude/Bits.antt =====
-- The bits of a number: bit `i` of `a` is `a >> i & 1`, as the C code writes it. The laws that read
-- `&`, `|` and `^` of machine words bit by bit, whatever the position.
mod Low
pub mod Power
use mathlib.Core.Path.{◌≡◌, refl, ap}
use mathlib.Core.Bool.{Bool, true, false, ◌&&◌}
use native.Mathlib.Nat.{pow-succ', div-div-eq-div-mul, mul_left_comm}
use native.Mathlib.Omega.{arith}
use Prim.Native.Nat.{
  ℕ, zero, suc, ◌+◌, ◌-◌, ◌*◌, ◌/◌, ◌%◌, ◌^◌, ◌≤◌, ◌<◌, min, max, bit_and, bit_or, bit_xor,
  bit_and-bitwise,
}
use Low.{bit_and_low, bit_or_low, bit_xor_low, half-bit_and, half-bit_or, half-bit_xor}
use utils_kernel_ndctl_ndctl.Prelude.Tests.{◌==◌, if◌then◌else◌, Bool-cases}
use mathlib.Core.Logic.{◌≢◌, inl, inr}

unfoldable pub bit : ℕ → ℕ → ℕ
bit a i = a / 2 ^ i % 2

bit-suc : (a i : ℕ) → bit a (suc i) ≡ bit (a / 2) i
unfolding bit
bit-suc a i = rw (pow-succ', div-div-eq-div-mul)

pub bit-lt : (a i : ℕ) → bit a i < 2
unfolding bit
bit-lt a i = omega arith

-- `x & 1` is the lowest bit of `x`.
pub bit_and-zero : (b : ℕ) → bit_and 0 b ≡ 0
bit_and-zero b = simp bit_and-bitwise

pub bit-bit_and : (i a b : ℕ) → bit (bit_and a b) i ≡ min (bit a i) (bit b i)
bit-bit_and zero a b = unfold bit in omega (arith, bit_and_low a b)
bit-bit_and (suc i) a b = simp (bit-suc, half-bit_and) (bit-bit_and i (a / 2) (b / 2))

pub bit-bit_or : (i a b : ℕ) → bit (bit_or a b) i ≡ max (bit a i) (bit b i)
bit-bit_or zero a b = unfold bit in omega (arith, bit_or_low a b)
bit-bit_or (suc i) a b = simp (bit-suc, half-bit_or) (bit-bit_or i (a / 2) (b / 2))

pub bit-bit_xor : (i a b : ℕ) → bit (bit_xor a b) i ≡ (bit a i + bit b i) % 2
bit-bit_xor zero a b = unfold bit in omega (arith, bit_xor_low a b)
bit-bit_xor (suc i) a b = simp (bit-suc, half-bit_xor) (bit-bit_xor i (a / 2) (b / 2))

pub bit-of_zero : (i : ℕ) → bit 0 i ≡ 0
bit-of_zero zero = unfold bit in omega arith
bit-of_zero (suc i) = rw bit-suc (bit-of_zero i)

-- `__builtin_ffsl`, a compiler built-in: one more than the place of the lowest set bit of a word of
-- `w` bits, and 0 for the word 0.
unfoldable pub ffs : ℕ → ℕ → ℕ
ffs zero x = 0
ffs (suc w) x = let rest = ffs w (x / 2) in if x == 0 then 0 else if x % 2 == 1 then 1 else rest + 1

-- The bit before the result is set, and none below it is.
pub ffs_found :
    (w x : ℕ)
    → x < 2 ^ w
    → x ≢ 0
    → (k : ℕ) × (k < w) × (ffs w x ≡ k + 1) × (bit x k ≡ 1) × ((j : ℕ) → j < k → bit x j ≡ 0)
unfolding ffs
ffs_found zero x h ne = absurd (ne (omega arith))
ffs_found (suc w) x h ne = elim (Bool-cases (x % 2 == 1)) [
  | inl odd ↦ (0, omega arith, ground arith, unfold bit in ground arith, λ j l. elim l [ ])
  | inr even ↦
      let (k, l, e, s, low) = ffs_found w (x / 2) (omega (arith, pow-succ' 2 w)) (ground arith) in
      (suc k, omega arith, ground arith, rw bit-suc s, below k even low)
]
  where
    below :
        (k : ℕ)
        → (x % 2 == 1) ≡ false
        → ((j : ℕ) → j < k → bit (x / 2) j ≡ 0)
        → (j : ℕ) → j < suc k
        → bit x j ≡ 0
    below k even low zero l = unfold bit in ground arith
    below k even low (suc j) l = rw bit-suc (low j (omega arith))

-- A test that holds of every number below a bound, decided by running it on each.
abbrev pub holds_below : (ℕ → Bool) → ℕ → Bool
holds_below test zero = true
holds_below test (suc last) = if test last then holds_below test last else false

pub holds_below_lem :
    (test : ℕ → Bool) (bound i : ℕ) → i < bound → holds_below test bound ≡ true → test i ≡ true
holds_below_lem test zero i within all = elim within [ ]
holds_below_lem test (suc last) i within all = ground (arith, holds_below_lem test last i)

-- The operations stay within the width of their operands.
halved_fits : (w a : ℕ) → a < 2 ^ suc w → a / 2 < 2 ^ w
halved_fits w a h = omega (arith, pow-succ' 2 w)

doubled_fits : (w h d : ℕ) → h < 2 ^ w → d < 2 → 2 * h + d < 2 ^ suc w
doubled_fits w h d p q = omega (arith, pow-succ' 2 w)

pub bit_and-lt : (w a b : ℕ) → a < 2 ^ w → b < 2 ^ w → bit_and a b < 2 ^ w
bit_and-lt zero zero b p q = rw bit_and-zero (omega arith)
bit_and-lt zero (suc a) b p q = absurd (omega arith)
bit_and-lt (suc w) a b p q = rw bit_and_low (
    doubled_fits w _ _ (bit_and-lt w (a / 2) (b / 2) (halved_fits w a p) (halved_fits w b q))
      (omega arith))

pub bit_or-lt : (w a b : ℕ) → a < 2 ^ w → b < 2 ^ w → bit_or a b < 2 ^ w
bit_or-lt zero zero zero p q = omega arith
bit_or-lt zero zero (suc b) p q = absurd (omega arith)
bit_or-lt zero (suc a) b p q = absurd (omega arith)
bit_or-lt (suc w) a b p q = rw bit_or_low (
    doubled_fits w _ _ (bit_or-lt w (a / 2) (b / 2) (halved_fits w a p) (halved_fits w b q))
      (omega arith))

pub bit_xor-lt : (w a b : ℕ) → a < 2 ^ w → b < 2 ^ w → bit_xor a b < 2 ^ w
bit_xor-lt zero zero zero p q = omega arith
bit_xor-lt zero zero (suc b) p q = absurd (omega arith)
bit_xor-lt zero (suc a) b p q = absurd (omega arith)
bit_xor-lt (suc w) a b p q = rw bit_xor_low (
    doubled_fits w _ _ (bit_xor-lt w (a / 2) (b / 2) (halved_fits w a p) (halved_fits w b q))
      (omega arith))

-- The complement of a word of `w` bits.
pub bit_complement : (j w a : ℕ) → j < w → a < 2 ^ w → bit (2 ^ w - 1 - a) j ≡ 1 - bit a j
bit_complement j zero a l h = elim l [ ]
bit_complement zero (suc w) a l h = unfold bit in omega (arith, pow-succ' 2 w)
bit_complement (suc j) (suc w) a l h =
    let halved : (2 ^ suc w - 1 - a) / 2 ≡ 2 ^ w - 1 - a / 2 = omega (arith, pow-succ' 2 w) in
    simp bit-suc (rw halved (bit_complement j w (a / 2) (omega arith) (halved_fits w a h)))

-- `1 & (w >> j)` is bit `j`.
pub bit_and-one : (w j : ℕ) → bit_and 1 (w / 2 ^ j) ≡ bit w j
unfolding bit
bit_and-one w j = omega (arith, bit_and_low 1 (w / 2 ^ j), bit_and-zero (w / 2 ^ j / 2))

doubled_field : (k high : ℕ) → 2 * (high * 2 ^ k) ≡ high * 2 ^ suc k
doubled_field k high = rw pow-succ' (omega (arith, mul_left_comm high 2 (2 ^ k)))

-- The halves and the lowest digit of a number made of two fields.
half_fields : (k q r : ℕ) → (q * 2 ^ suc k + r) / 2 ≡ q * 2 ^ k + r / 2
half_fields k q r = omega (arith, doubled_field k q)

low_fields : (k q r : ℕ) → (q * 2 ^ suc k + r) % 2 ≡ r % 2
low_fields k q r = omega (arith, doubled_field k q)

-- Words cut at bit `k`: the operations work on the high and on the low parts apart.
pub bit_and_fields :
    (k q p r s : ℕ)
    → r < 2 ^ k
    → s < 2 ^ k
    → bit_and (q * 2 ^ k + r) (p * 2 ^ k + s) ≡ bit_and q p * 2 ^ k + bit_and r s
bit_and_fields zero q p r s h l =
    let a : q * 2 ^ 0 + r ≡ q = omega arith in
    let b : p * 2 ^ 0 + s ≡ p = omega arith in
    let c : r ≡ 0 = omega arith in rw (a, b, c) (omega (arith, bit_and-zero s))
bit_and_fields (suc k) q p r s h l =
    let ih = bit_and_fields k q p (r / 2) (s / 2) (halved_fits k r h) (halved_fits k s l) in
    let both =
      rw (half_fields k q r, half_fields k p s, low_fields k q r, low_fields k p s) at
        (bit_and_low (q * 2 ^ suc k + r) (p * 2 ^ suc k + s)) in
    omega (arith, both, ih, bit_and_low r s, doubled_field k (bit_and q p))

pub bit_or_fields :
    (k q p r s : ℕ)
    → r < 2 ^ k
    → s < 2 ^ k
    → bit_or (q * 2 ^ k + r) (p * 2 ^ k + s) ≡ bit_or q p * 2 ^ k + bit_or r s
bit_or_fields zero q p r s h l =
    let a : q * 2 ^ 0 + r ≡ q = omega arith in
    let b : p * 2 ^ 0 + s ≡ p = omega arith in
    let c : r ≡ 0 = omega arith in let d : s ≡ 0 = omega arith in rw (a, b, c, d) (omega arith)
bit_or_fields (suc k) q p r s h l =
    let ih = bit_or_fields k q p (r / 2) (s / 2) (halved_fits k r h) (halved_fits k s l) in
    let both =
      rw (half_fields k q r, half_fields k p s, low_fields k q r, low_fields k p s) at
        (bit_or_low (q * 2 ^ suc k + r) (p * 2 ^ suc k + s)) in
    omega (arith, both, ih, bit_or_low r s, doubled_field k (bit_or q p))

-- Against no ones and against all ones.
pub bit_and_none : (w a : ℕ) → a < 2 ^ w → bit_and a 0 ≡ 0
bit_and_none zero zero h = refl
bit_and_none zero (suc a) h = absurd (omega arith)
bit_and_none (suc w) a h =
    omega (arith, bit_and_low a 0, bit_and_none w (a / 2) (halved_fits w a h))

pub bit_or_none : (w a : ℕ) → a < 2 ^ w → bit_or a 0 ≡ a
bit_or_none zero zero h = refl
bit_or_none zero (suc a) h = absurd (omega arith)
bit_or_none (suc w) a h = omega (arith, bit_or_low a 0, bit_or_none w (a / 2) (halved_fits w a h))

pub bit_and_ones : (w a : ℕ) → a < 2 ^ w → bit_and a (2 ^ w - 1) ≡ a
bit_and_ones zero zero h = refl
bit_and_ones zero (suc a) h = absurd (omega arith)
bit_and_ones (suc w) a h =
    let half : (2 ^ suc w - 1) / 2 ≡ 2 ^ w - 1 = omega (arith, pow-succ' 2 w) in
    let step = rw half at (bit_and_low a (2 ^ suc w - 1)) in
    omega (arith, step, bit_and_ones w (a / 2) (halved_fits w a h), pow-succ' 2 w)

-- `a & 3`, for an `a` of 32 bits.
pub bit_and_three : (a : ℕ) → a < 2 ^ 32 → bit_and a 3 ≡ a % 4
bit_and_three a small =
    omega (arith, bit_and_low a 3, bit_and_low (a / 2) 1, bit_and_none 32 (a / 2 / 2) (omega arith))
