-- ===== src/Util/Fletcher/Sums.antt =====
-- The two halves of `fletcher64` as sums.
use Prim.Native.Nat.{bit_or-bitwise}
use native.Mathlib.Nat.{mul-add, mul_assoc}
use utils_kernel_ndctl_ndctl.Prelude.{
  ℕ, suc, ◌+◌, ◌*◌, ◌/◌, ◌%◌, ◌^◌, ◌<◌, ◌≡◌, ◌≢◌, ◌++◌, refl, ap, Bool, true, List, [], ◌∷◌, length,
  if◌then◌else◌, arith, bit_or,
}
use utils_kernel_ndctl_ndctl.Prelude.Bits.{bit_or_fields, bit_or_none}
use utils_kernel_ndctl_ndctl.Util.Fletcher.{fletcher64_loop, fletcher64}

-- The words as the loop reads them.
abbrev pub read_words : (ℕ → ℕ) → Bool → List ℕ → List ℕ
read_words conv le [] = []
read_words conv le (w ∷ buf) = (if le then conv w else w) ∷ read_words conv le buf

abbrev pub total : List ℕ → ℕ
total [] = 0
total (w ∷ ws) = w + total ws

-- Each word counts once for itself and once for every word behind it.
abbrev pub weighted : List ℕ → ℕ
weighted [] = 0
weighted (w ∷ ws) = suc (length ws) * w + weighted ws

lo_total :
    (conv : ℕ → ℕ) (le : Bool) (buf : List ℕ) (lo hi : ℕ)
    → lo < 2 ^ 32
    → (fletcher64_loop conv le buf lo hi).0 ≡ (lo + total (read_words conv le buf)) % 2 ^ 32
unfolding fletcher64_loop
lo_total conv le [] lo hi h = omega arith
lo_total conv le (w ∷ buf) lo hi h = omega (
  arith,
  lo_total conv le buf ((lo + (if le then conv w else w)) % 2 ^ 32)
      ((hi + (lo + (if le then conv w else w)) % 2 ^ 32) % 2 ^ 64) (omega arith),
)

length-read_words :
    (conv : ℕ → ℕ) (le : Bool) (buf : List ℕ) → length (read_words conv le buf) ≡ length buf
length-read_words conv le [] = refl
length-read_words conv le (w ∷ buf) = ap suc (length-read_words conv le buf)

-- A factor may be cut to 32 bits where the product is.
times_cut : (n s : ℕ) → n * s ≡ n * (s % 2 ^ 32) + n * (s / 2 ^ 32) * 2 ^ 32
times_cut n s =
    let parts : s ≡ s % 2 ^ 32 + s / 2 ^ 32 * 2 ^ 32 = omega arith in
    omega (
      arith,
      ap (λ (t : ℕ). n * t) parts,
      mul-add n (s % 2 ^ 32) (s / 2 ^ 32 * 2 ^ 32),
      mul_assoc n (s / 2 ^ 32) (2 ^ 32),
    )

-- One round: a word `v` in front of `n` others.
weighted_round :
    (n hi lo v ws r : ℕ)
    → r ≡ ((hi + (lo + v) % 2 ^ 32) % 2 ^ 64 + (n * ((lo + v) % 2 ^ 32) + ws)) % 2 ^ 32
    → r ≡ (hi + (suc n * lo + (suc n * v + ws))) % 2 ^ 32
weighted_round n hi lo v ws r h = omega (arith, times_cut n (lo + v), mul-add n lo v)

hi_weighted :
    (conv : ℕ → ℕ) (le : Bool) (buf : List ℕ) (lo hi : ℕ)
    → (fletcher64_loop conv le buf lo hi).1 % 2 ^ 32
      ≡ (hi + (length buf * lo + weighted (read_words conv le buf))) % 2 ^ 32
unfolding fletcher64_loop
hi_weighted conv le [] lo hi = omega arith
hi_weighted conv le (w ∷ buf) lo hi =
    let v = if le then conv w else w in
    let rest = hi_weighted conv le buf ((lo + v) % 2 ^ 32) ((hi + (lo + v) % 2 ^ 32) % 2 ^ 64) in
    rw (length-read_words conv le buf)
      (weighted_round (length buf) hi lo v (weighted (read_words conv le buf)) _ rest)

-- `hi << 32 | lo`
join_halves :
    (hi lo : ℕ) → lo < 2 ^ 32 → bit_or (hi * 2 ^ 32 % 2 ^ 64) lo ≡ hi % 2 ^ 32 * 2 ^ 32 + lo
join_halves hi lo small =
    let cut : hi * 2 ^ 32 % 2 ^ 64 ≡ hi % 2 ^ 32 * 2 ^ 32 + 0 = omega arith in
    let fields = bit_or_fields 32 (hi % 2 ^ 32) 0 0 lo (omega arith) small in
    let high = bit_or_none 32 (hi % 2 ^ 32) (omega arith) in
    let low : bit_or 0 lo ≡ lo = simp bit_or-bitwise refl in
    let drop : 0 * 2 ^ 32 + lo ≡ lo = omega arith in
    rw cut (omega (arith, rw drop at fields, high, low))

-- `fletcher64` has in its low half the sum of the words, and in its high half the sum in which each
-- word counts once more for every word behind it, both modulo 2 ^ 32.
pub fletcher64_lem :
    (conv : ℕ → ℕ) (buf : List ℕ) (le : Bool)
    → fletcher64 conv buf le
      ≡ weighted (read_words conv le buf) % 2 ^ 32 * 2 ^ 32
        + total (read_words conv le buf) % 2 ^ 32
unfolding fletcher64
fletcher64_lem conv buf le =
    let (lo, hi) = fletcher64_loop conv le buf 0 0 in
    ground (
      arith,
      join_halves hi lo (omega (arith, lo_total conv le buf 0 0)),
      lo_total conv le buf 0 0,
      hi_weighted conv le buf 0 0,
    )

total-append : (xs ys : List ℕ) → total (xs ++ ys) ≡ total xs + total ys
total-append [] ys = omega arith
total-append (x ∷ xs) ys = omega (arith, total-append xs ys)

read_words-append :
    (conv : ℕ → ℕ) (xs ys : List ℕ)
    → read_words conv true (xs ++ ys) ≡ read_words conv true xs ++ read_words conv true ys
read_words-append conv [] ys = refl
read_words-append conv (x ∷ xs) ys = ap (λ t. conv x ∷ t) (read_words-append conv xs ys)

-- The low half of the checksum of a buffer with the word `w` in it.
low_half :
    (conv : ℕ → ℕ) (xs ys : List ℕ) (w : ℕ)
    → fletcher64 conv (xs ++ w ∷ ys) true % 2 ^ 32
      ≡ (total (read_words conv true xs) + (conv w + total (read_words conv true ys))) % 2 ^ 32
low_half conv xs ys w = rw (fletcher64_lem, read_words-append, total-append) (omega arith)

-- Two little-endian buffers that differ in one word, as it is read, have different checksums.
pub fletcher64-single :
    (conv : ℕ → ℕ) (xs ys : List ℕ) (v w : ℕ)
    → conv v < 2 ^ 32
    → conv w < 2 ^ 32
    → conv v ≢ conv w
    → fletcher64 conv (xs ++ v ∷ ys) true ≢ fletcher64 conv (xs ++ w ∷ ys) true
fletcher64-single conv xs ys v w p q ne same =
    let halves = ap (λ (s : ℕ). s % 2 ^ 32) same in
    ne (omega (arith, halves, low_half conv xs ys v, low_half conv xs ys w))
