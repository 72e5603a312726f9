-- ===== src/Label/Write/Blocks.antt =====
-- The words that `write_label_index` leaves in the buffer: one of the two blocks is new.
use utils_kernel_ndctl_ndctl.Prelude.{
  ℕ, ◌+◌, ◌*◌, ◌/◌, ◌≤◌, ◌≡◌, refl, sym, ap, ◌∙◌, true, List, [], ◌∷◌, ◌++◌, some, length,
  length-append, arith,
}
use utils_kernel_ndctl_ndctl.Prelude.Buffers.{
  take, drop, write_at, take-append-drop, length-drop, length-take,
}
use utils_kernel_ndctl_ndctl.Prelude.Buffers.Between.{
  append_assoc, read_at-between, write_at-between,
}
use utils_kernel_ndctl_ndctl.Util.Fletcher.{fletcher64}
use utils_kernel_ndctl_ndctl.Label.{num_label_slots, sizeof_namespace_index}
use utils_kernel_ndctl_ndctl.Label.Validate.{Fields}
use utils_kernel_ndctl_ndctl.Label.Write.{Encoders, pair, index_header, free_words, fill_index}

regroup :
    (pre front c rest post : List ℕ)
    → pre ++ (((front ++ c) ++ rest) ++ post) ≡ (pre ++ front) ++ (c ++ (rest ++ post))
regroup pre front c rest post = simp append_assoc refl

regroup_free :
    (pre h free rest post : List ℕ)
    → pre ++ ((h ++ free) ++ (rest ++ post)) ≡ pre ++ ((h ++ (free ++ rest)) ++ post)
regroup_free pre h free rest post = simp append_assoc refl

-- A block that is filled, with a sum of 0, and summed then.
module _ (pre front free old post : List ℕ) (c : ℕ × ℕ) where
  abbrev rest : List ℕ
  rest = drop (18 + length free) old

  abbrev whole : ℕ × ℕ → List ℕ
  whole c = (front ++ pair c []) ++ (free ++ rest)

  length-whole :
      (c : ℕ × ℕ)
      → length front ≡ 16
      → 18 + length free ≤ length old
      → length (whole c) ≡ length old
  length-whole c six room =
      let first = length-append (front ++ pair c []) (free ++ rest) in
      let second = length-append front (pair c []) in
      let third = length-append free rest in
      let fourth = length-drop (18 + length free) old in omega arith

  block_filled :
      (at : ℕ)
      → at ≡ length pre
      → length front ≡ 16
      → 18 + length free ≤ length old
      → write_at at ((front ++ pair c []) ++ free) (pre ++ (old ++ post))
        ≡ some (pre ++ (whole c ++ post))
  block_filled at here six room =
      let k = 18 + length free in
      let first = length-append (front ++ pair c []) free in
      let second = length-append front (pair c []) in
      let taken = length-take k old room in
      let parts : pre ++ (old ++ post) ≡ pre ++ (take k old ++ (rest ++ post)) =
        ap (λ l. pre ++ l)
          (ap (λ l. l ++ post) (sym (take-append-drop k old))
            ∙ append_assoc (take k old) rest post) in
      let written =
        write_at-between at pre ((front ++ pair c []) ++ free) (take k old) (rest ++ post) here
          (omega arith) in
      rw (parts, written, regroup_free pre (front ++ pair c []) free rest post) refl

  summed :
      (at : ℕ) (c' : ℕ × ℕ)
      → at ≡ length pre
      → length front ≡ 16
      → write_at (at + 16) (pair c' []) (pre ++ (whole c ++ post))
        ≡ some (pre ++ (whole c' ++ post))
  summed at c' here six =
      let there = length-append pre front in
      let before = regroup pre front (pair c []) (free ++ rest) post in
      let after = regroup pre front (pair c' []) (free ++ rest) post in
      let written =
        write_at-between (at + 16) (pre ++ front) (pair c' []) (pair c []) ((free ++ rest) ++ post)
          (omega arith) refl in
      rw (before, written, after) refl

module _ (f : Fields) (e : Encoders) (s0 s1 s2 s3 config_size label_size index seq : ℕ) where
  abbrev pub size : ℕ
  size = sizeof_namespace_index config_size label_size

  abbrev pub free : List ℕ
  free = free_words (num_label_slots config_size label_size)

  -- The block, of which the words behind `free` are those that were there.
  abbrev pub block : List ℕ → ℕ × ℕ → List ℕ
  block old checksum =
      index_header e (s0 ∷ s1 ∷ s2 ∷ s3 ∷ []) config_size label_size index seq checksum
      ++ (free ++ drop (18 + length free) old)

  abbrev pub checksum : List ℕ → ℕ × ℕ
  checksum old = e.cpu_to_le64 (fletcher64 f.le32_to_cpu (block old (0, 0)) true)

  pub length-block :
      (old : List ℕ) (c : ℕ × ℕ) → 18 + length free ≤ length old → length (block old c) ≡ length old
  unfolding index_header
  length-block old c h =
      let first = length-append free (drop (18 + length free) old) in
      let rest = length-drop (18 + length free) old in omega arith

  front : List ℕ
  front = take 16 (index_header e (s0 ∷ s1 ∷ s2 ∷ s3 ∷ []) config_size label_size index seq (0, 0))

  length-front : length front ≡ 16
  unfolding index_header front
  length-front = refl

  pub fill_index-block :
      (pre old post : List ℕ)
      → size * index / 4 ≡ length pre
      → size / 4 ≡ length old
      → 18 + length free ≤ length old
      → fill_index f e
          (s0 ∷ s1 ∷ s2 ∷ s3 ∷ [])
          config_size
          label_size
          index
          seq
          (pre ++ (old ++ post))
        ≡ some (pre ++ (block old (checksum old) ++ post))
  unfolding fill_index index_header front
  fill_index-block pre old post at long room =
      let len = length-block old (0, 0) room in
      let fill =
        block_filled pre front free old post (0, 0) (size * index / 4) at length-front room in
      let read =
        read_at-between (size * index / 4) (size / 4) pre (block old (0, 0)) post at
          (omega arith) in
      let sum =
        summed pre front free old post (0, 0) (size * index / 4) (checksum old) at length-front in
      rw (fill, read) sum
