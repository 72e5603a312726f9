-- ===== src/Tests/Bitmaps.antt =====
-- util/bitmap.c at concrete bitmaps.
use utils_kernel_ndctl_ndctl.Prelude.{
  ℕ, ◌+◌, ◌≤◌, ◌<◌, ◌≡◌, ◌⊎◌, ◌↔◌, refl, true, some, Bool, List, [], ◌∷◌, arith,
}
use utils_kernel_ndctl_ndctl.Util.Bitmap.{
  bitmap_set, bitmap_clear, find_next_zero_bit, bitmap_full, u64_max, fill, first_word_mask,
  last_word_mask, find_next, scan,
}
use utils_kernel_ndctl_ndctl.Prelude.Bits.{ffs}
use utils_kernel_ndctl_ndctl.Util.Bitmap.Words.{bit_at, IsWords}
use utils_kernel_ndctl_ndctl.Util.Bitmap.Fill.{Ranged, bitmap_set-Ranged, bitmap_clear-Ranged}
use utils_kernel_ndctl_ndctl.Util.Bitmap.Find.{AllAre, find_next_zero_bit_lem, bitmap_full_lem}

abbrev two_words : List ℕ
two_words = 0 ∷ u64_max ∷ []

two_words-IsWords : IsWords two_words
two_words-IsWords p w e = ground arith

bitmap_set-Ranged_example :
    (m' : List ℕ) × (bitmap_set two_words 60 10 ≡ some m') × Ranged 1 two_words 60 10 m'
bitmap_set-Ranged_example = bitmap_set-Ranged two_words 60 10 two_words-IsWords (omega arith)

bitmap_clear-Ranged_example :
    (m' : List ℕ) × (bitmap_clear two_words 60 10 ≡ some m') × Ranged 0 two_words 60 10 m'
bitmap_clear-Ranged_example = bitmap_clear-Ranged two_words 60 10 two_words-IsWords (omega arith)

find_next_zero_bit_lem_example :
    (r : ℕ) × (find_next_zero_bit two_words 100 3 ≡ some r)
    × (((r ≡ 100) × AllAre 1 two_words 3 100)
        ⊎ ((k : ℕ) × (3 ≤ k)
            × (k < 100)
            × (bit_at two_words k ≡ 0)
            × AllAre 1 two_words 3 k
            × (r ≡ k + 1)))
find_next_zero_bit_lem_example =
    find_next_zero_bit_lem two_words 100 3 two_words-IsWords (omega arith)

bitmap_full_lem_example :
    (b : Bool) × (bitmap_full two_words 128 ≡ some b)
    × ((b ≡ true) ↔ ((i : ℕ) → i + 1 < 128 → bit_at two_words i ≡ 1))
bitmap_full_lem_example = bitmap_full_lem two_words 128 two_words-IsWords (omega arith)

-- Four bits of one word and six of the next.
set_across : bitmap_set two_words 60 10 ≡ some (0xf000_0000_0000_0000 ∷ u64_max ∷ [])
unfolding bitmap_set fill first_word_mask last_word_mask
set_across = refl

-- The last bit is clear, and the bitmap passes as full.
full_without_last : bitmap_full (0x7fff_ffff_ffff_ffff ∷ []) 64 ≡ some true
unfolding bitmap_full find_next_zero_bit find_next scan first_word_mask ffs
full_without_last = refl
