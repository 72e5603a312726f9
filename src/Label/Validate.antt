-- ===== src/Label/Validate.antt =====
-- ndctl/lib/dimm.c: which of the two index blocks is the current one.
pub mod Newest
use mathlib.Core.Option
use utils_kernel_ndctl_ndctl.Prelude.{
  ℕ, zero, suc, ◌+◌, ◌-◌, ◌*◌, ◌/◌, ◌%◌, ◌^◌, Bool, true, false, ◌&&◌, ◌||◌, not, Option, some,
  none, List, [], ◌∷◌, ◌>>=◌, leb, ltb, ◌==◌, if◌then◌else◌, bit_and,
}
use utils_kernel_ndctl_ndctl.Util.Fletcher.{fletcher64}
use utils_kernel_ndctl_ndctl.Check.Info.{same_words}
use utils_kernel_ndctl_ndctl.Label.{
  nsindex_seq_mask, namespace_index_size, best_seq, num_label_slots, sizeof_namespace_index,
}

-- What the code takes from ccan/endian and from the layout of the host: fields of the label area,
-- which is a list of `u32` words.
pub record Fields : Type 0 where
  pub le32_to_cpu : ℕ → ℕ
  -- the `le64` of two neighbouring words
  pub le64_to_cpu : ℕ → ℕ → ℕ
  -- the fields `major` and `minor` of a word
  pub le16_major : ℕ → ℕ
  pub le16_minor : ℕ → ℕ
  -- the byte `labelsize` of the word that it shares with `flags`
  pub labelsize : ℕ → ℕ

-- `struct namespace_index`, as words: an `le64` is two of them, `flags` has `labelsize` in it, and
-- `version` is `major` and `minor`. `free` has all the words behind the others.
pub record NamespaceIndex : Type 0 where
  pub sig : List ℕ
  pub flags : ℕ
  pub seq : ℕ
  pub myoff : ℕ × ℕ
  pub mysize : ℕ × ℕ
  pub otheroff : ℕ × ℕ
  pub labeloff : ℕ × ℕ
  pub nslot : ℕ
  pub version : ℕ
  pub checksum : ℕ × ℕ
  pub free : List ℕ

-- The structure at the start of some words: `none` where they end before it does.
abbrev pub as_index : List ℕ → Option NamespaceIndex
as_index
      (s ∷ i ∷ g ∷ n ∷ fl ∷ sq ∷ my ∷ my' ∷ sz ∷ sz' ∷ ot ∷ ot' ∷ lo ∷ lo' ∷ ns ∷ ve ∷ su ∷ su'
        ∷ free) =
    some record {
      sig = s ∷ i ∷ g ∷ n ∷ [];
      flags = fl;
      seq = sq;
      myoff = (my, my');
      mysize = (sz, sz');
      otheroff = (ot, ot');
      labeloff = (lo, lo');
      nslot = ns;
      version = ve;
      checksum = (su, su');
      free = free;
    }
as_index _ = none

-- `nsindex->checksum = cpu_to_le64(0)`, as far as the words of the index block are concerned.
unfoldable pub zero_checksum : List ℕ → List ℕ
zero_checksum
      (s ∷ i ∷ g ∷ n ∷ fl ∷ sq ∷ my ∷ my' ∷ sz ∷ sz' ∷ ot ∷ ot' ∷ lo ∷ lo' ∷ ns ∷ ve ∷ su ∷ su'
        ∷ free) =
    s ∷ i ∷ g ∷ n ∷ fl ∷ sq ∷ my ∷ my' ∷ sz ∷ sz' ∷ ot ∷ ot' ∷ lo ∷ lo' ∷ ns ∷ ve ∷ 0 ∷ 0 ∷ free
zero_checksum ws = ws

-- The words from `n` on, and the first `n` words, where there are as many.
unfoldable pub words_from : ℕ → List ℕ → Option (List ℕ)
words_from zero ws = some ws
words_from (suc n) [] = none
words_from (suc n) (w ∷ ws) = words_from n ws

unfoldable pub first_words : ℕ → List ℕ → Option (List ℕ)
first_words zero ws = some []
first_words (suc n) [] = none
first_words (suc n) (w ∷ ws) = do rest ← first_words n ws; some (w ∷ rest)

-- The label size that the version and the block itself tell. A `labelsize` above 24 shifts by more
-- than 31, which C leaves open.
unfoldable pub told_label_size : Fields → NamespaceIndex → ℕ
told_label_size f x =
    let version = f.le16_major x.version * 100 + f.le16_minor x.version in
    if leb 102 version then 2 ^ (7 + f.labelsize x.flags) % 2 ^ 32 else 128

abbrev pub le64 : Fields → ℕ × ℕ → ℕ
le64 f (w, w') = f.le64_to_cpu w w'

-- The checks behind the checksum, of block `i`. The sums and products are of 32 bits.
unfoldable pub index_sane : Fields → ℕ → ℕ → ℕ → NamespaceIndex → Bool
index_sane f config_size label_size i x =
    let size = sizeof_namespace_index config_size label_size in
    not (bit_and (f.le32_to_cpu x.seq) nsindex_seq_mask == 0)
    && le64 f x.myoff == i * size
    && le64 f x.otheroff == (1 - i) * size
    && not (ltb size (le64 f x.mysize) || ltb (le64 f x.mysize) namespace_index_size)
    && not (
        ltb config_size
          ((f.le32_to_cpu x.nslot * label_size % 2 ^ 32 + 2 * size % 2 ^ 32) % 2 ^ 32))

-- A round of the loop over the two blocks: whether block `i` is valid. The checksum of the block is
-- put back after the sum, so that the buffer stays as it is.
unfoldable pub valid_index : Fields → List ℕ → List ℕ → ℕ → ℕ → ℕ → Option (Bool × NamespaceIndex)
valid_index f signature area config_size label_size i =
    let size = sizeof_namespace_index config_size label_size in
    do
      words ← words_from (i * size / 4) area
      x ← as_index words
      let summed = (do
        block ← first_words (size / 4) (zero_checksum words)
        let sum = fletcher64 f.le32_to_cpu block true
        some (sum == le64 f x.checksum && index_sane f config_size label_size i x, x))
      if not (same_words x.sig signature)
          then some (false, x)
          else if not (told_label_size f x == label_size)
          then some (false, x)
          else summed

-- The `switch` on the number of valid blocks; `none` is `-EINVAL`.
unfoldable pub pick_index : Fields → Bool × NamespaceIndex → Bool × NamespaceIndex → Option ℕ
pick_index f (false, x0) (false, x1) = none
pick_index f (true, x0) (false, x1) = some 0
pick_index f (false, x0) (true, x1) = some 1
pick_index f (true, x0) (true, x1) =
    let seq = best_seq (f.le32_to_cpu x0.seq) (f.le32_to_cpu x1.seq) in
    some (if seq == bit_and (f.le32_to_cpu x1.seq) nsindex_seq_mask then 1 else 0)

-- `__label_validate`: the current index block.
unfoldable pub current_index : Fields → List ℕ → List ℕ → ℕ → ℕ → Option (Option ℕ)
current_index f signature area config_size label_size = do
  v0 ← valid_index f signature area config_size label_size 0
  v1 ← valid_index f signature area config_size label_size 1
  some (pick_index f v0 v1)

-- `label_validate`: the label size that is left behind, and the number of slots; `none` is `-EINVAL`.
unfoldable pub label_validate : Fields → List ℕ → List ℕ → ℕ → Option (ℕ × Option ℕ)
label_validate f signature area config_size = do
  small ← current_index f signature area config_size 128
  let large = (do
    found ← current_index f signature area config_size 256
    some (256, Option.map (λ i. num_label_slots config_size 256) found))
  elim small [ none ↦ large | some i ↦ some (128, some (num_label_slots config_size 128)) ]
