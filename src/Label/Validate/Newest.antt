-- ===== src/Label/Validate/Newest.antt =====
-- Which index block `__label_validate` takes for the current one.
use utils_kernel_ndctl_ndctl.Prelude.{
  ℕ, zero, suc, ◌+◌, ◌-◌, ◌*◌, ◌/◌, ◌%◌, ◌^◌, ◌≤◌, ◌<◌, ◌≡◌, ◌≢◌, ◌⊎◌, refl, inl, inr, Bool, true,
  false, not, Option, some, none, List, [], ◌∷◌, ◌==◌, if◌then◌else◌, arith, bit_and, length,
  Bool-cases,
}
use utils_kernel_ndctl_ndctl.Prelude.Bits.{bit_and_three}
use utils_kernel_ndctl_ndctl.Check.Info.{same_words}
use utils_kernel_ndctl_ndctl.Label.{best_seq, inc_seq, nsindex_seq_mask, sizeof_namespace_index}
use utils_kernel_ndctl_ndctl.Label.Sequence.{best_seq_lem, inc_seq-differs}
use utils_kernel_ndctl_ndctl.Label.Layout.{sizeof_namespace_index-fits}
use utils_kernel_ndctl_ndctl.Label.Validate.{
  Fields, NamespaceIndex, as_index, zero_checksum, words_from, first_words, told_label_size,
  valid_index, pick_index, current_index,
}

words_from_total :
    (n : ℕ) (ws : List ℕ)
    → n ≤ length ws
    → (vs : List ℕ) × (words_from n ws ≡ some vs) × (length vs ≡ length ws - n)
unfolding words_from
words_from_total zero ws h = (ws, refl, omega arith)
words_from_total (suc n) [] h = elim h [ ]
words_from_total (suc n) (w ∷ ws) h =
    let (vs, e, l) = words_from_total n ws (omega arith) in (vs, e, omega arith)

first_words_total :
    (n : ℕ) (ws : List ℕ) → n ≤ length ws → (vs : List ℕ) × (first_words n ws ≡ some vs)
unfolding first_words
first_words_total zero ws h = ([], refl)
first_words_total (suc n) [] h = elim h [ ]
first_words_total (suc n) (w ∷ ws) h =
    let (vs, e) = first_words_total n ws (omega arith) in (w ∷ vs, rw e refl)

as_index_total : (ws : List ℕ) → 18 ≤ length ws → (x : NamespaceIndex) × (as_index ws ≡ some x)
as_index_total
      (s ∷ i ∷ g ∷ n ∷ fl ∷ sq ∷ my ∷ my' ∷ sz ∷ sz' ∷ ot ∷ ot' ∷ lo ∷ lo' ∷ ns ∷ ve ∷ su ∷ su'
        ∷ free)
      h =
    (_, refl)
as_index_total _ h = absurd (omega arith)

length-zero_checksum : (ws : List ℕ) → length (zero_checksum ws) ≡ length ws
unfolding zero_checksum
length-zero_checksum
      (s ∷ i ∷ g ∷ n ∷ fl ∷ sq ∷ my ∷ my' ∷ sz ∷ sz' ∷ ot ∷ ot' ∷ lo ∷ lo' ∷ ns ∷ ve ∷ su ∷ su'
        ∷ free) =
    refl
length-zero_checksum _ = refl

-- A label area as it is read into memory: of at least 512 bytes and below 4 GiB, all of it there.
pub record Area (config_size label_size : ℕ) (area : List ℕ) : Type 0 where
  pub least : 512 ≤ config_size
  pub below : config_size < 2 ^ 32
  pub known : (label_size ≡ 128) ⊎ (label_size ≡ 256)
  pub there : config_size ≤ 4 * length area

branch_total {ℓ} :
    {A : Type ℓ} (c : Bool) {o p : Option A}
    → ((v : A) × (o ≡ some v))
    → ((v : A) × (p ≡ some v))
    → (v : A) × ((if c then o else p) ≡ some v)
branch_total true found other = found
branch_total false found other = other

-- What the `switch` picks is valid.
pick_index_lem :
    (f : Fields) (v0 v1 : Bool × NamespaceIndex)
    → ((pick_index f v0 v1 ≡ some 0) × (v0.0 ≡ true))
      ⊎ ((pick_index f v0 v1 ≡ some 1) × (v1.0 ≡ true))
      ⊎ ((pick_index f v0 v1 ≡ none) × (v0.0 ≡ false) × (v1.0 ≡ false))
unfolding pick_index
pick_index_lem f (false, x0) (false, x1) = inr (inr (refl, refl, refl))
pick_index_lem f (true, x0) (false, x1) = inl (refl, refl)
pick_index_lem f (false, x0) (true, x1) = inr (inl (refl, refl))
pick_index_lem f (true, x0) (true, x1) =
    elim (Bool-cases (
      best_seq (f.le32_to_cpu x0.seq) (f.le32_to_cpu x1.seq)
      == bit_and (f.le32_to_cpu x1.seq) nsindex_seq_mask)) [
        | inl e ↦ inr (inl (rw e refl, refl))
        | inr e ↦ inl (rw e refl, refl)
      ]

-- Of two valid index blocks with 32-bit sequence numbers, the older of them set, the one whose number
-- comes right after the other's is picked, whichever of the two it is.
pub pick_index-newer :
    (f : Fields) (old new : NamespaceIndex)
    → f.le32_to_cpu old.seq < 2 ^ 32
    → f.le32_to_cpu new.seq < 2 ^ 32
    → f.le32_to_cpu old.seq % 4 ≢ 0
    → f.le32_to_cpu new.seq % 4 ≡ inc_seq (f.le32_to_cpu old.seq)
    → (pick_index f (true, old) (true, new) ≡ some 1)
      × (pick_index f (true, new) (true, old) ≡ some 0)
unfolding pick_index
pick_index-newer f old new p q set next =
    let (first, second) =
      best_seq_lem (f.le32_to_cpu old.seq) (f.le32_to_cpu new.seq) p q (inr next) in
    let differs = inc_seq-differs (f.le32_to_cpu old.seq) p set in
    let mask_old = bit_and_three (f.le32_to_cpu old.seq) p in
    let mask_new = bit_and_three (f.le32_to_cpu new.seq) q in
    (rw (first, mask_new) (ground arith), rw (second, mask_old) (ground arith))

module _ (f : Fields) (signature area : List ℕ) (config_size label_size : ℕ)
    (h : Area config_size label_size area) where
  -- Both blocks lie in the area, and have room for the structure where the size is 0.
  room :
      (2 * sizeof_namespace_index config_size label_size ≤ config_size)
      × ((sizeof_namespace_index config_size label_size ≡ 0)
          ⊎ (256 ≤ sizeof_namespace_index config_size label_size))
  room = elim (Bool-cases (sizeof_namespace_index config_size label_size == 0)) [
    | inl e ↦ (ground (arith, h.least), inl (ground arith))
    | inr e ↦
        let (fit, aligned, holds, two) =
          sizeof_namespace_index-fits config_size label_size h.least h.below h.known
            (ground arith) in
        (omega arith, inr (omega arith))
  ]

  reach :
      (i : ℕ)
      → i < 2
      → (i * sizeof_namespace_index config_size label_size
            + sizeof_namespace_index config_size label_size
          ≤ config_size)
        × (i * sizeof_namespace_index config_size label_size + 72 ≤ config_size)
  reach zero l = (omega (arith, room), ground (arith, room, h.least))
  reach (suc zero) l = (omega (arith, room), ground (arith, room, h.least))
  reach (suc (suc i)) l = absurd (omega arith)

  valid_index_total :
      (i : ℕ)
      → i < 2
      → (v : Bool × NamespaceIndex) × (valid_index f signature area config_size label_size i
          ≡ some v)
  unfolding valid_index
  valid_index_total i l =
      let size = sizeof_namespace_index config_size label_size in
      let (ends, least) = reach i l in
      let whole = h.there in
      let (words, e, len) = words_from_total (i * size / 4) area (omega arith) in
      let (x, e') = as_index_total words (omega arith) in
      let kept = length-zero_checksum words in
      let (block, e'') = first_words_total (size / 4) (zero_checksum words) (omega arith) in
      rw (e, e', e'')
        (branch_total (not (same_words x.sig signature)) (_, refl)
          (branch_total (not (told_label_size f x == label_size)) (_, refl) (_, refl)))

  -- In a label area of at least 512 bytes and below 4 GiB that is all there, with labels of 128 or of
  -- 256 bytes, `__label_validate` reads nothing outside the area, and the index block that it returns
  -- is a valid one; it returns none only if neither is valid.
  pub current_index_lem :
      (r : Option ℕ) × (v0 : Bool × NamespaceIndex) × (v1 : Bool × NamespaceIndex) × (current_index
          f signature area config_size label_size
        ≡ some r)
      × (valid_index f signature area config_size label_size 0 ≡ some v0)
      × (valid_index f signature area config_size label_size 1 ≡ some v1)
      × (((r ≡ some 0) × (v0.0 ≡ true))
          ⊎ ((r ≡ some 1) × (v1.0 ≡ true))
          ⊎ ((r ≡ none) × (v0.0 ≡ false) × (v1.0 ≡ false)))
  unfolding current_index
  current_index_lem =
      let (v0, e0) = valid_index_total 0 (omega arith) in
      let (v1, e1) = valid_index_total 1 (omega arith) in
      (pick_index f v0 v1, v0, v1, rw (e0, e1) refl, e0, e1, pick_index_lem f v0 v1)
