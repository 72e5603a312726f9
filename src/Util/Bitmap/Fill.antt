-- ===== src/Util/Bitmap/Fill.antt =====
-- What `bitmap_set` and `bitmap_clear` do to each bit, by one induction over their loop.
use utils_kernel_ndctl_ndctl.Prelude.{
  ℕ, zero, suc, ◌+◌, ◌-◌, ◌*◌, ◌/◌, ◌%◌, ◌^◌, ◌≤◌, ◌<◌, ◌≡◌, refl, some, List, ◌==◌, ltb, leb, ◌&&◌,
  if◌then◌else◌, arith, length, get_elem?, set, Bool-cases, inl, inr, bit_and, get_elem?_total,
  length-set, ◌∙◌,
}
use utils_kernel_ndctl_ndctl.Prelude.Bits.{
  bit, bit-bit_and, bit-bit_or, bit-lt, bit_complement, bit_and-lt, bit_or-lt,
}
use utils_kernel_ndctl_ndctl.Util.Bitmap.{
  u64_max, first_word_mask, last_word_mask, fill, set_bits, clear_bits, bitmap_set, bitmap_clear,
}
use utils_kernel_ndctl_ndctl.Util.Bitmap.Masks.{
  bit-first_word_mask, bit-last_word_mask, first_word_mask-lt, first_word_mask-mod,
  last_word_mask-mod, first_word_mask-zero, last_word_mask-lt,
}
use utils_kernel_ndctl_ndctl.Util.Bitmap.Words.{
  bit_at, bit_at-set, bit_at-word, IsWords, set-IsWords,
}

-- `write` puts `v` at the bits of the mask and leaves the others.
record Writes (v : ℕ) (write : ℕ → ℕ → ℕ) : Type 0 where
  at_bit :
      (w mask j : ℕ)
      → mask < 2 ^ 64
      → j < 64
      → bit (write w mask) j ≡ (if bit mask j == 1 then v else bit w j)
  fits : (w mask : ℕ) → w < 2 ^ 64 → mask < 2 ^ 64 → write w mask < 2 ^ 64

set_bits-Writes : Writes 1 set_bits
set_bits-Writes = record {
  at_bit = λ w mask j f l. ground (arith, bit-bit_or j w mask, bit-lt w j, bit-lt mask j);
  fits = λ w mask p q. bit_or-lt 64 w mask p q;
}

clear_bits-Writes : Writes 0 clear_bits
clear_bits-Writes = record {
  at_bit = λ w mask j f l. ground (
    arith,
    bit-bit_and j w (u64_max - mask),
    bit_complement j 64 mask l f,
    bit-lt w j,
    bit-lt mask j,
  );
  fits = λ w mask p q. bit_and-lt 64 w (u64_max - mask) p (omega arith);
}

-- The mask of a last, partial word.
last_mask : ℕ → ℕ → ℕ
last_mask off size = bit_and (first_word_mask off) (last_word_mask size)

last_mask-lt : (off size : ℕ) → last_mask off size < 2 ^ 64
unfolding last_mask
last_mask-lt off size = bit_and-lt 64 _ _ (first_word_mask-lt off) (last_word_mask-lt size)

bit-last_mask :
    (off len size j : ℕ)
    → 0 < len
    → off + len < 64
    → size % 64 ≡ off + len
    → j < 64
    → bit (last_mask off size) j ≡ (if leb off j && ltb j (off + len) then 1 else 0)
unfolding last_mask
bit-last_mask off len size j pos h e l =
    rw (bit-bit_and, ← last_word_mask-mod size, e)
      (ground
        (arith, bit-first_word_mask off j (omega arith) l, bit-last_word_mask (off + len) j h l))

module _ (v : ℕ) (write : ℕ → ℕ → ℕ) (ok : Writes v write) where
  -- One word rewritten under a mask that has the bits from `lo` to below `hi`.
  write_word :
      (m : List ℕ) (p w mask lo hi i : ℕ)
      → get_elem? m p ≡ some w
      → p < length m
      → mask < 2 ^ 64
      → ((j : ℕ) → j < 64 → bit mask j ≡ (if leb lo j && ltb j hi then 1 else 0))
      → hi ≤ 64
      → bit_at (set m p (write w mask)) i
        ≡ (if leb (64 * p + lo) i && ltb i (64 * p + hi) then v else bit_at m i)
  write_word m p w mask lo hi i e h f b top =
      bit_at-set m p (write w mask) i h ∙ elim (Bool-cases (i / 64 == p)) [
        | inl same ↦
            let word : i / 64 ≡ p = ground arith in
            ground (
              arith,
              ok.at_bit w mask (i % 64) f (omega arith),
              b (i % 64) (omega arith),
              bit_at-word m i w (rw word e),
            )
        | inr other ↦ ground arith
      ]

  -- The bits that the loop has written, from `start` on.
  record Filled (m : List ℕ) (start len : ℕ) (m' : List ℕ) : Type 0 where
    pub same_length : length m' ≡ length m
    pub words : IsWords m'
    pub bits :
        (i : ℕ) → bit_at m' i ≡ (if leb start i && ltb i (start + len) then v else bit_at m i)

  write_word-Filled :
      (m : List ℕ) (p w mask lo hi : ℕ)
      → IsWords m
      → get_elem? m p ≡ some w
      → p < length m
      → mask < 2 ^ 64
      → ((j : ℕ) → j < 64 → bit mask j ≡ (if leb lo j && ltb j hi then 1 else 0))
      → hi ≤ 64
      → lo ≤ hi
      → Filled m (64 * p + lo) (hi - lo) (set m p (write w mask))
  write_word-Filled m p w mask lo hi words e h f b top order = record {
    same_length = length-set m p _;
    words = set-IsWords m p _ words (ok.fits w mask (words p w e) f);
    bits = λ i. ground (arith, write_word m p w mask lo hi i e h f b top);
  }

  Filled-trans :
      (m m1 m2 : List ℕ) (s l k : ℕ)
      → Filled m s l m1
      → Filled m1 (s + l) k m2
      → Filled m s (l + k) m2
  Filled-trans m m1 m2 s l k f g = record {
    same_length = g.same_length ∙ f.same_length;
    words = g.words;
    bits = λ i. ground (arith, f.bits i, g.bits i);
  }

  first_mask_bits :
      (off j : ℕ)
      → off < 64
      → j < 64
      → bit (first_word_mask off) j ≡ (if leb off j && ltb j 64 then 1 else 0)
  first_mask_bits off j p q = ground (arith, bit-first_word_mask off j p q)

  -- A whole rest of a word, the words behind it.
  first_Filled :
      (m m' : List ℕ) (p w len off : ℕ)
      → off < 64
      → 64 - off ≤ len
      → IsWords m
      → p < length m
      → get_elem? m p ≡ some w
      → Filled (set m p (write w (first_word_mask off))) (64 * (p + 1) + 0) (len - (64 - off)) m'
      → Filled m (64 * p + off) len m'
  first_Filled m m' p w len off o more words h e f =
      let head =
        write_word-Filled m p w (first_word_mask off) off 64 words e h (first_word_mask-lt off)
          (λ j l. first_mask_bits off j o l) (omega arith) (omega arith) in
      let start : 64 * (p + 1) + 0 ≡ 64 * p + off + (64 - off) = omega arith in
      let total : 64 - off + (len - (64 - off)) ≡ len = omega arith in
      rw total at (Filled-trans m _ m' _ _ _ head (rw start at f))

  -- A part of a word, inside it.
  last_Filled :
      (m : List ℕ) (p w len off size : ℕ)
      → 0 < len
      → off + len < 64
      → size % 64 ≡ (off + len) % 64
      → IsWords m
      → p < length m
      → get_elem? m p ≡ some w
      → Filled m (64 * p + off) len (set m p (write w (last_mask off size)))
  last_Filled m p w len off size pos fit e words h we =
      let all =
        write_word-Filled m p w (last_mask off size) off (off + len) words we h
          (last_mask-lt off size) (λ j l. bit-last_mask off len size j pos fit (omega arith) l)
          (omega arith) (omega arith) in
      let count : off + len - off ≡ len = omega arith in rw count at all

  none_Filled : (m : List ℕ) (s : ℕ) → IsWords m → Filled m s 0 m
  none_Filled m s words = record { same_length = refl; words = words; bits = λ i. ground arith }

  fill_lem :
      (fuel : ℕ) (m : List ℕ) (p len off size : ℕ)
      → off < 64
      → len < fuel
      → 64 * p + off + len ≤ 64 * length m
      → size % 64 ≡ (off + len) % 64
      → IsWords m
      → (m' : List ℕ) × (fill write fuel m p len (64 - off) (first_word_mask off) size ≡ some m')
        × Filled m (64 * p + off) len m'
  unfolding fill last_mask
  fill_lem zero m p len off size o enough room e words = elim enough [ ]
  fill_lem (suc fuel) m p len off size o enough room e words =
      elim (Bool-cases (leb (64 - off) len)) [
        | inl more ↦
            let inside : p < length m = ground arith in
            let (w, we) = get_elem?_total m p inside in
            let m1 = set m p (write w (first_word_mask off)) in
            let (m', r, f) =
              fill_lem fuel m1 (p + 1) (len - (64 - off)) 0 size (omega arith) (ground arith)
                (ground (arith, length-set m p (write w (first_word_mask off)))) (ground arith)
                (set-IsWords m p _ words (ok.fits w _ (words p w we) (first_word_mask-lt off))) in
            (
              m',
              rw more (rw we (rw first_word_mask-zero at r)),
              first_Filled m m' p w len off o (ground arith) words inside we f,
            )
        | inr less ↦ elim (Bool-cases (len == 0)) [
          | inl empty ↦
              let zero_len : len ≡ 0 = ground arith in
              (m, rw less (rw empty), rw zero_len (none_Filled m _ words))
          | inr rest ↦
              let inside : p < length m = ground arith in
              let (w, we) = get_elem?_total m p inside in
              (
                set m p (write w (last_mask off size)),
                rw less (rw rest (rw we)),
                last_Filled m p w len off size (ground arith) (ground arith) e words inside we,
              )
        ]
      ]

-- Bits `start` to `start + len - 1` of `m'` are `v`, and the rest is as in `m`.
pub record Ranged (v : ℕ) (m : List ℕ) (start len : ℕ) (m' : List ℕ) : Type 0 where
  pub same_length : length m' ≡ length m
  pub words : IsWords m'
  pub bits : (i : ℕ) → bit_at m' i ≡ (if leb start i && ltb i (start + len) then v else bit_at m i)

module _ (v : ℕ) (write : ℕ → ℕ → ℕ) (ok : Writes v write) where
  fill_from_start :
      (m : List ℕ) (start len : ℕ)
      → IsWords m
      → start + len ≤ 64 * length m
      → (m' : List ℕ) × (fill write
            (suc len)
            m
            (start / 64)
            len
            (64 - start % 64)
            (first_word_mask start)
            ((start + len) % 2 ^ 32)
          ≡ some m')
        × Ranged v m start len m'
  fill_from_start m start len words room =
      let (m', r, f) =
        fill_lem v write ok (suc len) m (start / 64) len (start % 64) ((start + len) % 2 ^ 32)
          (omega arith) (omega arith) (omega arith) (omega arith) words in
      let place : 64 * (start / 64) + start % 64 ≡ start = omega arith in
      let g = rw place at f in
      (
        m',
        rw first_word_mask-mod at r,
        record { same_length = g.same_length; words = g.words; bits = g.bits },
      )

module _ (m : List ℕ) (start len : ℕ) (words : IsWords m) (room : start + len ≤ 64 * length m) where
  -- Within an array of 64-bit words, `bitmap_set` returns an array of the same length with bits
  -- `start` to `start + len - 1` set and every other bit as it was.
  pub bitmap_set-Ranged :
      (m' : List ℕ) × (bitmap_set m start len ≡ some m') × Ranged 1 m start len m'
  unfolding bitmap_set
  bitmap_set-Ranged = fill_from_start 1 set_bits set_bits-Writes m start len words room

  -- Within an array of 64-bit words, `bitmap_clear` returns an array of the same length with bits
  -- `start` to `start + len - 1` clear and every other bit as it was.
  pub bitmap_clear-Ranged :
      (m' : List ℕ) × (bitmap_clear m start len ≡ some m') × Ranged 0 m start len m'
  unfolding bitmap_clear
  bitmap_clear-Ranged = fill_from_start 0 clear_bits clear_bits-Writes m start len words room
