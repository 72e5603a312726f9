-- ===== src/Label/Write/Fresh.antt =====
-- A block that `write_label_index` leaves is one that `__label_validate` takes for valid.
use mathlib.Core.Path.{subst}
use utils_kernel_ndctl_ndctl.Prelude.{
  ℕ, zero, suc, ◌+◌, ◌-◌, ◌*◌, ◌/◌, ◌%◌, ◌^◌, ◌≤◌, ◌<◌, ◌≡◌, ◌≢◌, ◌⊎◌, inl, inr, refl, sym, ◌∙◌,
  true, false, List, [], ◌∷◌, ◌++◌, some, length, ◌==◌, ltb, if◌then◌else◌, arith,
}
use utils_kernel_ndctl_ndctl.Prelude.Buffers.{drop}
use utils_kernel_ndctl_ndctl.Prelude.Bits.{bit_and_three}
use utils_kernel_ndctl_ndctl.Check.Info.{same_words}
use utils_kernel_ndctl_ndctl.Util.Fletcher.{fletcher64}
use utils_kernel_ndctl_ndctl.Util.Fletcher.Sums.{fletcher64_lem}
use utils_kernel_ndctl_ndctl.Label.{num_label_slots, sizeof_namespace_index}
use utils_kernel_ndctl_ndctl.Label.Layout.{sizeof_namespace_index-fits}
use utils_kernel_ndctl_ndctl.Label.Validate.{
  Fields, NamespaceIndex, as_index, zero_checksum, words_from, first_words, told_label_size,
  index_sane, valid_index, le64,
}
use utils_kernel_ndctl_ndctl.Label.Write.{Encoders, index_header, label_next_nsindex}
use utils_kernel_ndctl_ndctl.Label.Write.Blocks.{free, block, checksum, length-block}

-- The conversions of one direction undo those of the other, for numbers of their width.
pub record RoundTrips (f : Fields) (e : Encoders) : Type 0 where
  pub le32 : (v : ℕ) → v < 2 ^ 32 → f.le32_to_cpu (e.cpu_to_le32 v) ≡ v
  pub le64 : (v : ℕ) → v < 2 ^ 64 → f.le64_to_cpu (e.cpu_to_le64 v).0 (e.cpu_to_le64 v).1 ≡ v
  pub major : (a b : ℕ) → a < 2 ^ 16 → b < 2 ^ 16 → f.le16_major (e.version_word a b) ≡ a
  pub minor : (a b : ℕ) → a < 2 ^ 16 → b < 2 ^ 16 → f.le16_minor (e.version_word a b) ≡ b
  pub labelsize : (v : ℕ) → v < 2 ^ 8 → f.labelsize (e.flags_word v) ≡ v
  pub words : (ws : List ℕ) → e.words_of (e.bytes_of ws) ≡ ws
  pub bytes : (ws : List ℕ) → length (e.bytes_of ws) ≡ 4 * length ws

words_from-append : (pre xs : List ℕ) → words_from (length pre) (pre ++ xs) ≡ some xs
unfolding words_from
words_from-append [] xs = refl
words_from-append (x ∷ pre) xs = words_from-append pre xs

first_words-append : (xs post : List ℕ) → first_words (length xs) (xs ++ post) ≡ some xs
unfolding first_words
first_words-append [] post = refl
first_words-append (x ∷ xs) post = rw (first_words-append xs post) refl

fletcher64-lt : (conv : ℕ → ℕ) (buf : List ℕ) → fletcher64 conv buf true < 2 ^ 64
fletcher64-lt conv buf = omega (arith, fletcher64_lem conv buf true)

same_words_refl : (ws : List ℕ) → same_words ws ws ≡ true
unfolding same_words
same_words_refl [] = refl
same_words_refl (w ∷ ws) =
    let same : (w == w) ≡ true = ground arith in rw (same, same_words_refl ws) refl

-- A block that passes each of the checks is valid.
valid_index-passed :
    (f : Fields) (signature area : List ℕ) (config_size label_size i : ℕ) (words summed : List ℕ)
    (x : NamespaceIndex)
    → words_from (i * sizeof_namespace_index config_size label_size / 4) area ≡ some words
    → as_index words ≡ some x
    → first_words (sizeof_namespace_index config_size label_size / 4) (zero_checksum words)
      ≡ some summed
    → same_words x.sig signature ≡ true
    → told_label_size f x ≡ label_size
    → fletcher64 f.le32_to_cpu summed true ≡ le64 f x.checksum
    → index_sane f config_size label_size i x ≡ true
    → valid_index f signature area config_size label_size i ≡ some (true, x)
unfolding valid_index
valid_index-passed f signature area config_size label_size i words summed x e1 e2 e3 same told sum
      sane =
    let told_same : (label_size == label_size) ≡ true = ground arith in
    let sum_same : (le64 f x.checksum == le64 f x.checksum) ≡ true = ground arith in
    rw (e1, e2, e3, same, told, told_same, sum, sum_same, sane) refl

-- The offsets of the two blocks.
offsets :
    (size index : ℕ)
    → index < 2
    → (size * index ≤ size)
      × (size * ((index + 1) % 2) ≤ size)
      × (index * size ≡ size * index)
      × ((1 - index) * size ≡ size * ((index + 1) % 2))
offsets size zero h = (omega arith, omega arith, omega arith, omega arith)
offsets size (suc zero) h = (omega arith, omega arith, omega arith, omega arith)
offsets size (suc (suc index)) h = absurd (omega arith)

module _ (f : Fields) (e : Encoders) (trips : RoundTrips f e)
    (s0 s1 s2 s3 config_size label_size index seq : ℕ) (least : 512 ≤ config_size)
    (below : config_size < 2 ^ 32) (known : (label_size ≡ 128) ⊎ (label_size ≡ 256))
    (sized : sizeof_namespace_index config_size label_size ≢ 0) (first : index < 2) (set : 0 < seq)
    (low : seq < 4) where
  abbrev size : ℕ
  size = sizeof_namespace_index config_size label_size

  abbrev nslot : ℕ
  nslot = num_label_slots config_size label_size

  abbrev signature : List ℕ
  signature = s0 ∷ s1 ∷ s2 ∷ s3 ∷ []

  abbrev made : ℕ × ℕ → List ℕ → NamespaceIndex
  made sum behind = record {
    sig = signature;
    flags = e.flags_word (label_size / 2 ^ 8);
    seq = e.cpu_to_le32 seq;
    myoff = e.cpu_to_le64 (size * index);
    mysize = e.cpu_to_le64 size;
    otheroff = e.cpu_to_le64 (size * ((index + 1) % 2));
    labeloff = e.cpu_to_le64 (2 * size);
    nslot = e.cpu_to_le32 nslot;
    version = e.version_word 1 (if ltb label_size 256 then 1 else 2);
    checksum = sum;
    free = behind;
  }

  told : (sum : ℕ × ℕ) (behind : List ℕ) → told_label_size f (made sum behind) ≡ label_size
  unfolding told_label_size
  told sum behind = elim known [
    | inl e1 ↦
        rw
          (
            e1,
            trips.major 1 1 (omega arith) (omega arith),
            trips.minor 1 1 (omega arith) (omega arith),
          )
          refl
    | inr e2 ↦
        rw
          (
            e2,
            trips.major 1 2 (omega arith) (omega arith),
            trips.minor 1 2 (omega arith) (omega arith),
            trips.labelsize 1 (omega arith),
          )
          refl
  ]

  sane :
      (sum : ℕ × ℕ) (behind : List ℕ)
      → index_sane f config_size label_size index (made sum behind) ≡ true
  unfolding index_sane
  sane sum behind =
      let (fit, aligned, holds, two) =
        sizeof_namespace_index-fits config_size label_size least below known sized in
      let (mine, other, here, there) = offsets size index first in
      let masked = bit_and_three seq (omega arith) in
      let marked : (seq % 4 == 0) ≡ false = ground arith in
      let small : nslot < 2 ^ 32 = elim known [
        | inl e1 ↦ omega (arith, subst (λ l. 2 * size + nslot * l ≤ config_size) e1 fit)
        | inr e2 ↦ omega (arith, subst (λ l. 2 * size + nslot * l ≤ config_size) e2 fit)
      ] in
      rw
        (
          trips.le32 seq (omega arith),
          masked,
          marked,
          trips.le64 (size * index) (omega arith),
          here,
          trips.le64 (size * ((index + 1) % 2)) (omega arith),
          there,
          trips.le64 size (omega arith),
          trips.le32 nslot small,
        )
        (ground arith)

  -- The block is valid, with the sequence number that it was given.
  pub valid_index-block :
      (pre old post : List ℕ)
      → size * index / 4 ≡ length pre
      → size / 4 ≡ length old
      → 18 + length (free f e s0 s1 s2 s3 config_size label_size index seq) ≤ length old
      → (x : NamespaceIndex) × (valid_index f signature
            (pre
              ++ (block f e s0 s1 s2 s3 config_size label_size index seq old
                    (checksum f e s0 s1 s2 s3 config_size label_size index seq old)
                  ++ post))
            config_size
            label_size
            index
          ≡ some (true, x))
        × (f.le32_to_cpu x.seq ≡ seq)
  unfolding index_header zero_checksum label_next_nsindex
  valid_index-block pre old post at long room =
      let b = block f e s0 s1 s2 s3 config_size label_size index seq old in
      let sum = checksum f e s0 s1 s2 s3 config_size label_size index seq old in
      let marks = free f e s0 s1 s2 s3 config_size label_size index seq in
      let behind = (marks ++ drop (18 + length marks) old) ++ post in
      let (mine, other, here, there) = offsets size index first in
      let len = length-block f e s0 s1 s2 s3 config_size label_size index seq old (0, 0) room in
      let (fit, aligned, holds, two) =
        sizeof_namespace_index-fits config_size label_size least below known sized in
      let start : words_from (index * size / 4) (pre ++ (b sum ++ post)) ≡ some (b sum ++ post) =
        rw (here, at) (words_from-append pre (b sum ++ post)) in
      let summed : first_words (size / 4) (b (0, 0) ++ post) ≡ some (b (0, 0)) =
        rw (long ∙ sym len) (first_words-append (b (0, 0)) post) in
      let sum_fits =
        trips.le64 (fletcher64 f.le32_to_cpu (b (0, 0)) true)
          (fletcher64-lt f.le32_to_cpu (b (0, 0))) in
      (
        made sum behind,
        valid_index-passed f signature (pre ++ (b sum ++ post)) config_size label_size index
            (b sum ++ post) (b (0, 0)) (made sum behind) start refl summed
            (same_words_refl signature) (told sum behind) (sym sum_fits) (sane sum behind),
        trips.le32 seq (omega arith),
      )
