-- ===== src/Util/Bitmap.antt =====
-- util/bitmap.c: bitmaps as arrays of 64-bit words. `none` is a read or write outside the array.
pub mod Masks
pub mod Words
pub mod Fill
pub mod Find
use utils_kernel_ndctl_ndctl.Prelude.{
  ℕ, zero, suc, ◌+◌, ◌-◌, ◌*◌, ◌/◌, ◌%◌, ◌^◌, min, bit_and, bit_or, bit_xor, Bool, true, false,
  Option, none, some, List, ◌>>=◌, ◌||◌, ltb, leb, ◌==◌, if◌then◌else◌, get_elem?, set, replicate,
}
use utils_kernel_ndctl_ndctl.Prelude.Bits.{ffs}

-- `~0UL`
abbrev pub u64_max : ℕ
u64_max = 2 ^ 64 - 1

-- `~0UL << (start & (BITS_PER_LONG - 1))`
unfoldable pub first_word_mask : ℕ → ℕ
first_word_mask start = u64_max * 2 ^ (start % 64) % 2 ^ 64

-- `~0UL >> (-nbits & (BITS_PER_LONG - 1))`: the low six bits of `-nbits` are those of
-- `64 - nbits % 64`.
unfoldable pub last_word_mask : ℕ → ℕ
last_word_mask nbits = u64_max / 2 ^ ((64 - nbits % 64) % 64)

-- `calloc` of `DIV_ROUND_UP(nbits, 64)` words, where memory allows it.
unfoldable pub bitmap_alloc : Bool → ℕ → Option (List ℕ)
bitmap_alloc memory nbits = if memory then some (replicate ((nbits + 63) / 64) 0) else none

-- The loop of `bitmap_set` and of `bitmap_clear`, from word `p` on: `write word mask` is what is
-- stored. Each round but the last takes at least one bit off `len`, hence the fuel of the callers.
unfoldable pub fill : (ℕ → ℕ → ℕ) → ℕ → List ℕ → ℕ → ℕ → ℕ → ℕ → ℕ → Option (List ℕ)
fill write zero m p len bits mask size = none
fill write (suc fuel) m p len bits mask size =
    let next = (do
      w ← get_elem? m p
      fill write fuel (set m p (write w mask)) (p + 1) (len - bits) 64 u64_max size) in
    let last = (do
      w ← get_elem? m p
      some (set m p (write w (bit_and mask (last_word_mask size))))) in
    if leb bits len then next else if len == 0 then some m else last

-- `*p |= mask` and `*p &= ~mask`
abbrev pub set_bits : ℕ → ℕ → ℕ
set_bits w mask = bit_or w mask

abbrev pub clear_bits : ℕ → ℕ → ℕ
clear_bits w mask = bit_and w (u64_max - mask)

-- `size` is an `unsigned int`.
unfoldable pub bitmap_set : List ℕ → ℕ → ℕ → Option (List ℕ)
bitmap_set m start len =
    fill set_bits (suc len) m (start / 64) len (64 - start % 64) (first_word_mask start)
      ((start + len) % 2 ^ 32)

unfoldable pub bitmap_clear : List ℕ → ℕ → ℕ → Option (List ℕ)
bitmap_clear m start len =
    fill clear_bits (suc len) m (start / 64) len (64 - start % 64) (first_word_mask start)
      ((start + len) % 2 ^ 32)

unfoldable pub test_bit : ℕ → List ℕ → Option ℕ
test_bit nr addr = do w ← get_elem? addr (nr / 64); some (bit_and 1 (w / 2 ^ (nr % 64)))

-- The `while (!tmp)` loop, and the return behind it.
unfoldable pub scan : ℕ → List ℕ → ℕ → ℕ → ℕ → ℕ → Option ℕ
scan zero addr nbits start invert tmp = none
scan (suc fuel) addr nbits start invert tmp =
    let next = (do
      w ← get_elem? addr ((start + 64) / 64)
      scan fuel addr nbits (start + 64) invert (bit_xor w invert)) in
    if tmp == 0
    then (if leb nbits (start + 64) then some nbits else next)
    else some (min (start + ffs 64 tmp) nbits)

unfoldable pub find_next : List ℕ → ℕ → ℕ → ℕ → Option ℕ
find_next addr nbits start invert = if nbits == 0 || leb nbits start then some nbits else do
  w ← get_elem? addr (start / 64)
  scan (nbits / 64 + 1) addr nbits (start / 64 * 64) invert
      (bit_and (bit_xor w invert) (first_word_mask start))

unfoldable pub find_next_bit : List ℕ → ℕ → ℕ → Option ℕ
find_next_bit addr size offset = find_next addr size offset 0

unfoldable pub find_next_zero_bit : List ℕ → ℕ → ℕ → Option ℕ
find_next_zero_bit addr size offset = find_next addr size offset u64_max

-- `nbits` is no compile-time constant in the library's object code, so `small_const_nbits` is false.
unfoldable pub bitmap_full : List ℕ → ℕ → Option Bool
bitmap_full src nbits = do r ← find_next_zero_bit src nbits 0; some (r == nbits)
