-- ===== src/Util/Bitmap/Find.antt =====
-- Where `_find_next_bit` stops, and so what `bitmap_full` decides.
use utils_kernel_ndctl_ndctl.Prelude.{
  ℕ, zero, suc, ◌+◌, ◌-◌, ◌*◌, ◌/◌, ◌%◌, ◌^◌, ◌≤◌, ◌<◌, ◌≡◌, ◌⊎◌, ◌↔◌, refl, true, some, List, ◌==◌,
  ltb, leb, ◌||◌, if◌then◌else◌, arith, length, get_elem?, Bool, Bool-cases, ==_iff, inl, inr,
  bit_and, bit_xor, get_elem?_total, min,
}
use utils_kernel_ndctl_ndctl.Prelude.Bits.{
  bit, bit-bit_and, bit-bit_xor, bit-lt, bit-of_zero, bit_and-lt, bit_xor-lt, ffs_found,
  holds_below, holds_below_lem,
}
use utils_kernel_ndctl_ndctl.Util.Bitmap.{
  u64_max, first_word_mask, scan, find_next, find_next_zero_bit, bitmap_full,
}
use utils_kernel_ndctl_ndctl.Util.Bitmap.Masks.{
  bit-first_word_mask, first_word_mask-lt, first_word_mask-mod,
}
use utils_kernel_ndctl_ndctl.Util.Bitmap.Words.{bit_at, bit_at-word, bit_at-lt, IsWords}

-- The search is for bits that differ from those of `invert`.
abbrev hit : List ℕ → ℕ → ℕ → ℕ
hit m invert i = (bit_at m i + bit invert (i % 64)) % 2

-- The places from `lo` to below `hi` are no hits.
abbrev Clear : List ℕ → ℕ → ℕ → ℕ → Type 0
Clear m invert lo hi = (i : ℕ) → lo ≤ i → i < hi → hit m invert i ≡ 0

-- The result: `nbits` if nothing is hit, and one more than the place of the first hit otherwise.
abbrev pub Outcome : List ℕ → ℕ → ℕ → ℕ → ℕ → Type 0
Outcome m invert start nbits r =
    ((r ≡ nbits) × ((i : ℕ) → start ≤ i → i < nbits → hit m invert i ≡ 0))
    ⊎ ((k : ℕ) × (start ≤ k)
        × (k < nbits)
        × (hit m invert k ≡ 1)
        × ((i : ℕ) → start ≤ i → i < k → hit m invert i ≡ 0)
        × (r ≡ k + 1))

-- `tmp` holds the hits of the word at `start` that lie from `lo` on.
abbrev Holds : List ℕ → ℕ → ℕ → ℕ → ℕ → Type 0
Holds m invert lo start tmp =
    (j : ℕ) → j < 64 → bit tmp j ≡ (if leb lo (start + j) then hit m invert (start + j) else 0)

module _ (m : List ℕ) (words : IsWords m) (nbits invert : ℕ) (narrow : invert < 2 ^ 64)
    (room : nbits ≤ 64 * length m) where
  -- A word with no hit.
  word_Clear :
      (lo start : ℕ)
      → Holds m invert lo start 0
      → Clear m invert lo start
      → Clear m invert lo (start + 64)
  word_Clear lo start holds clear i p q = elim (Bool-cases (ltb i start)) [
    | inl before ↦ clear i p (ground arith)
    | inr here ↦
        let place : start + (i - start) ≡ i = ground arith in
        let at_word = rw place at (holds (i - start) (ground arith)) in
        ground (arith, at_word, bit-of_zero (i - start))
  ]

  fresh_Holds :
      (lo start w : ℕ)
      → start % 64 ≡ 0
      → lo ≤ start
      → get_elem? m (start / 64) ≡ some w
      → Holds m invert lo start (bit_xor w invert)
  fresh_Holds lo start w whole le e j l =
      let word : (start + j) / 64 ≡ start / 64 = omega arith in
      let place : (start + j) % 64 ≡ j = omega arith in
      rw place (
        ground (
          arith,
          bit-bit_xor j w invert,
          place,
          rw place at (bit_at-word m (start + j) w (rw word e)),
        ))

  -- The first hit of a word that has one.
  hit_Outcome :
      (lo start tmp k : ℕ)
      → start % 64 ≡ 0
      → k < 64
      → Holds m invert lo start tmp
      → Clear m invert lo start
      → bit tmp k ≡ 1
      → ((j : ℕ) → j < k → bit tmp j ≡ 0)
      → Outcome m invert lo nbits (min (start + (k + 1)) nbits)
  hit_Outcome lo start tmp k whole l holds clear found below =
      elim (Bool-cases (ltb (start + k) nbits)) [
        | inl inside ↦ inr (
          start + k,
          ground (arith, holds k l),
          ground arith,
          ground (arith, holds k l),
          before,
          ground arith,
        )
        | inr outside ↦ inl (ground arith, λ i p q. before i p (ground arith))
      ]
    where
      before : (i : ℕ) → lo ≤ i → i < start + k → hit m invert i ≡ 0
      before i p q = elim (Bool-cases (ltb i start)) [
        | inl early ↦ clear i p (ground arith)
        | inr here ↦
            let place : start + (i - start) ≡ i = ground arith in
            let at_word = rw place at (holds (i - start) (ground arith)) in
            ground (arith, at_word, below (i - start) (ground arith))
      ]

  scan_lem :
      (fuel lo start tmp : ℕ)
      → start % 64 ≡ 0
      → start < nbits
      → nbits < start + 64 * fuel
      → tmp < 2 ^ 64
      → lo < start + 64
      → Holds m invert lo start tmp
      → Clear m invert lo start
      → (r : ℕ) × (scan fuel m nbits start invert tmp ≡ some r) × Outcome m invert lo nbits r
  unfolding scan
  scan_lem zero lo start tmp whole in_range enough fits l holds clear = absurd (omega arith)
  scan_lem (suc fuel) lo start tmp whole in_range enough fits l holds clear =
      elim (Bool-cases (tmp == 0)) [
        | inl none_here ↦
            let no_bits : tmp ≡ 0 = ground arith in
            let clear' = word_Clear lo start (rw no_bits at holds) clear in
            elim (Bool-cases (leb nbits (start + 64))) [
              | inl end ↦
                  (nbits, rw none_here (rw end), inl (refl, λ i p q. clear' i p (ground arith)))
              | inr more ↦
                  let (w, e) = get_elem?_total m ((start + 64) / 64) (ground arith) in
                  let (r, s, out) =
                    scan_lem fuel lo (start + 64) (bit_xor w invert) (omega arith) (ground arith)
                      (omega arith) (bit_xor-lt 64 w invert (words _ w e) narrow) (omega arith)
                      (fresh_Holds lo (start + 64) w (omega arith) (omega arith) e) clear' in
                  (r, rw none_here (rw more (rw e s)), out)
            ]
        | inr some_here ↦
            let (k, small, e, found, below) = ffs_found 64 tmp fits (ground arith) in
            (
              min (start + (k + 1)) nbits,
              rw some_here (rw e),
              hit_Outcome lo start tmp k whole small holds clear found below,
            )
      ]

  -- The word at `start`, masked.
  masked_Holds :
      (start w : ℕ)
      → get_elem? m (start / 64) ≡ some w
      → Holds m invert start (start / 64 * 64) (bit_and (bit_xor w invert) (first_word_mask start))
  masked_Holds start w e j l =
      let base = start / 64 * 64 in
      let word : base / 64 ≡ start / 64 = omega arith in
      let fresh = fresh_Holds base base w (omega arith) (omega arith) (rw word e) j l in
      rw (bit-bit_and, ← first_word_mask-mod start)
        (ground (
          arith,
          bit-first_word_mask (start % 64) j (omega arith) l,
          fresh,
          bit-lt (bit_xor w invert) j,
        ))

  find_next_lem :
      (start : ℕ)
      → (r : ℕ) × (find_next m nbits start invert ≡ some r) × Outcome m invert start nbits r
  unfolding find_next
  find_next_lem start = elim (Bool-cases (nbits == 0 || leb nbits start)) [
    | inl empty ↦ (nbits, rw empty, inl (refl, λ i p q. absurd (ground arith)))
    | inr some_bits ↦
        let (w, e) = get_elem?_total m (start / 64) (ground arith) in
        let (r, s, out) =
          scan_lem (nbits / 64 + 1) start (start / 64 * 64) _ (omega arith) (ground arith)
            (omega arith)
            (bit_and-lt 64 _ _ (bit_xor-lt 64 w invert (words _ w e) narrow)
              (first_word_mask-lt start))
            (omega arith) (masked_Holds start w e) (λ i p q. absurd (omega arith)) in
        (r, rw some_bits (rw e s), out)
  ]

ones_row : ℕ → Bool
ones_row j = bit u64_max j == 1

ones_table : holds_below ones_row 64 ≡ true
unfolding ones_row bit
ones_table = refl

bit-u64_max : (j : ℕ) → j < 64 → bit u64_max j ≡ 1
bit-u64_max j l = (==_iff _ _).0 (unfold ones_row in holds_below_lem ones_row 64 j l ones_table)

-- Bits `lo` to below `hi` all have the value `v`.
abbrev pub AllAre : ℕ → List ℕ → ℕ → ℕ → Type 0
AllAre v m lo hi = (i : ℕ) → lo ≤ i → i < hi → bit_at m i ≡ v

-- `find_next_zero_bit` on an array of 64-bit words that holds `size` bits returns either `size`,
-- when bits `offset` to `size - 1` are all set, or `k + 1` for the first clear bit `k` of them.
pub find_next_zero_bit_lem :
    (m : List ℕ) (size offset : ℕ)
    → IsWords m
    → size ≤ 64 * length m
    → (r : ℕ) × (find_next_zero_bit m size offset ≡ some r)
      × (((r ≡ size) × AllAre 1 m offset size)
          ⊎ ((k : ℕ) × (offset ≤ k)
              × (k < size)
              × (bit_at m k ≡ 0)
              × AllAre 1 m offset k
              × (r ≡ k + 1)))
unfolding find_next_zero_bit
find_next_zero_bit_lem m size offset words room =
    let (r, e, out) = find_next_lem m words size u64_max (omega arith) room offset in
    (r, e, read r out)
  where
    one : (i : ℕ) → hit m u64_max i ≡ 0 → bit_at m i ≡ 1
    one i h = ground (arith, bit-u64_max (i % 64) (omega arith), bit_at-lt m i)

    zero_bit : (i : ℕ) → hit m u64_max i ≡ 1 → bit_at m i ≡ 0
    zero_bit i h = ground (arith, bit-u64_max (i % 64) (omega arith), bit_at-lt m i)

    read :
        (r : ℕ)
        → Outcome m u64_max offset size r
        → ((r ≡ size) × AllAre 1 m offset size)
          ⊎ ((k : ℕ) × (offset ≤ k)
              × (k < size)
              × (bit_at m k ≡ 0)
              × AllAre 1 m offset k
              × (r ≡ k + 1))
    read r (inl (e, c)) = inl (e, λ i p q. one i (c i p q))
    read r (inr (k, p, q, h, c, e)) = inr (k, p, q, zero_bit k h, λ i l u. one i (c i l u), e)

-- `bitmap_full` on an array of 64-bit words that holds `nbits` bits is true exactly when every bit
-- but the last one is set: the last bit is not looked at.
pub bitmap_full_lem :
    (m : List ℕ) (nbits : ℕ)
    → IsWords m
    → nbits ≤ 64 * length m
    → (b : Bool) × (bitmap_full m nbits ≡ some b)
      × ((b ≡ true) ↔ ((i : ℕ) → i + 1 < nbits → bit_at m i ≡ 1))
unfolding bitmap_full
bitmap_full_lem m nbits words room =
    let (r, e, out) = find_next_zero_bit_lem m nbits 0 words room in
    (r == nbits, rw e, (full r out, back r out))
  where
    full :
        (r : ℕ)
        → ((r ≡ nbits) × AllAre 1 m 0 nbits)
          ⊎ ((k : ℕ) × (0 ≤ k) × (k < nbits) × (bit_at m k ≡ 0) × AllAre 1 m 0 k × (r ≡ k + 1))
        → (r == nbits) ≡ true
        → (i : ℕ) → i + 1 < nbits
        → bit_at m i ≡ 1
    full r (inl (e, c)) h i l = c i (omega arith) (omega arith)
    full r (inr (k, p, q, z, c, e)) h i l = c i (omega arith) (ground arith)

    back :
        (r : ℕ)
        → ((r ≡ nbits) × AllAre 1 m 0 nbits)
          ⊎ ((k : ℕ) × (0 ≤ k) × (k < nbits) × (bit_at m k ≡ 0) × AllAre 1 m 0 k × (r ≡ k + 1))
        → ((i : ℕ) → i + 1 < nbits → bit_at m i ≡ 1)
        → (r == nbits) ≡ true
    back r (inl (e, c)) all = ground arith
    back r (inr (k, p, q, z, c, e)) all = elim (Bool-cases (r == nbits)) [
      | inl same ↦ same
      | inr ne ↦ absurd (ground (arith, all k (ground arith)))
    ]
