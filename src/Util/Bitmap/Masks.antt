-- ===== src/Util/Bitmap/Masks.antt =====
-- The bits of the two masks, by evaluation over all words.
use utils_kernel_ndctl_ndctl.Prelude.{
  ℕ, Bool, ◌%◌, ◌^◌, ◌<◌, ◌≡◌, refl, true, ltb, leb, ◌==◌, ==_iff, if◌then◌else◌, arith,
}
use utils_kernel_ndctl_ndctl.Prelude.Bits.{bit, holds_below, holds_below_lem}
use utils_kernel_ndctl_ndctl.Util.Bitmap.{u64_max, first_word_mask, last_word_mask}

first_row : ℕ → ℕ → Bool
first_row s j = bit (first_word_mask s) j == (if leb s j then 1 else 0)

last_row : ℕ → ℕ → Bool
last_row n j = bit (last_word_mask n) j == (if n == 0 then 1 else if ltb j n then 1 else 0)

first_rows : ℕ → Bool
first_rows s = holds_below (first_row s) 64

last_rows : ℕ → Bool
last_rows n = holds_below (last_row n) 64

first_table : holds_below first_rows 64 ≡ true
unfolding first_rows first_row first_word_mask bit
first_table = refl

last_table : holds_below last_rows 64 ≡ true
unfolding last_rows last_row last_word_mask bit
last_table = refl

-- The first mask has the bits from `s` on, the last mask those below `n`, or all of them.
pub bit-first_word_mask :
    (s j : ℕ) → s < 64 → j < 64 → bit (first_word_mask s) j ≡ (if leb s j then 1 else 0)
bit-first_word_mask s j p q =
    let row = holds_below_lem first_rows 64 s p first_table in
    (==_iff _ _).0
      (unfold first_row in holds_below_lem (first_row s) 64 j q (unfold first_rows in row))

pub bit-last_word_mask :
    (n j : ℕ)
    → n < 64
    → j < 64
    → bit (last_word_mask n) j ≡ (if n == 0 then 1 else if ltb j n then 1 else 0)
bit-last_word_mask n j p q =
    let row = holds_below_lem last_rows 64 n p last_table in
    (==_iff _ _).0
      (unfold last_row in holds_below_lem (last_row n) 64 j q (unfold last_rows in row))

pub first_word_mask-lt : (s : ℕ) → first_word_mask s < 2 ^ 64
unfolding first_word_mask
first_word_mask-lt s = omega arith

-- Only the place within a word matters.
pub first_word_mask-mod : (s : ℕ) → first_word_mask (s % 64) ≡ first_word_mask s
unfolding first_word_mask
first_word_mask-mod s = let e : s % 64 % 64 ≡ s % 64 = omega arith in rw e

pub last_word_mask-mod : (n : ℕ) → last_word_mask (n % 64) ≡ last_word_mask n
unfolding last_word_mask
last_word_mask-mod n = let e : n % 64 % 64 ≡ n % 64 = omega arith in rw e

pub first_word_mask-zero : first_word_mask 0 ≡ u64_max
unfolding first_word_mask
first_word_mask-zero = refl

pub last_word_mask-lt : (n : ℕ) → last_word_mask n < 2 ^ 64
unfolding last_word_mask
last_word_mask-lt n = grind arith
