-- ===== src/Tests/Labels.antt =====
-- ndctl/lib/dimm.c at a label area of 1024 bytes: two index blocks, and four labels of 128 bytes.
use utils_kernel_ndctl_ndctl.Prelude.{
  ℕ, ◌+◌, ◌*◌, ◌/◌, ◌%◌, ◌^◌, ◌≤◌, ◌≡◌, ◌⊎◌, refl, inl, Bool, true, false, some, none, Option, List,
  [], ◌∷◌, ◌++◌, arith, replicate,
}
use utils_kernel_ndctl_ndctl.Util.Fletcher.{fletcher64}
use utils_kernel_ndctl_ndctl.Check.Info.{same_words}
use utils_kernel_ndctl_ndctl.Label.{
  best_seq, inc_seq, next_seq, align, index_size, slots_behind, sizeof_namespace_index,
  num_label_slots,
}
use utils_kernel_ndctl_ndctl.Label.Layout.{sizeof_namespace_index-fits}
use utils_kernel_ndctl_ndctl.Label.Validate.{
  Fields, NamespaceIndex, valid_index, pick_index, current_index, words_from, first_words,
  zero_checksum, told_label_size, index_sane,
}
use utils_kernel_ndctl_ndctl.Label.Validate.Newest.{Area, current_index_lem, pick_index-newer}

abbrev fields : Fields
fields = record {
  le32_to_cpu = λ v. v;
  le64_to_cpu = λ v w. v + w * 2 ^ 32;
  le16_major = λ v. v % 2 ^ 16;
  le16_minor = λ v. v / 2 ^ 16;
  labelsize = λ v. v / 2 ^ 24;
}

-- `NAMESPACE_INDEX`
abbrev signature : List ℕ
signature = 0x4553414e ∷ 0x41505345 ∷ 0x495f4543 ∷ 0x5845444e ∷ []

abbrev block_words : ℕ → ℕ → ℕ → ℕ → ℕ → List ℕ
block_words seq myoff otheroff sum_low sum_high =
    signature
    ++ (0
        ∷ seq
        ∷ myoff
        ∷ 0
        ∷ 256
        ∷ 0
        ∷ otheroff
        ∷ 0
        ∷ 512
        ∷ 0
        ∷ 4
        ∷ 0x10001
        ∷ sum_low
        ∷ sum_high
        ∷ replicate 46 0)

abbrev summed_words : ℕ → ℕ → ℕ → List ℕ
summed_words seq myoff otheroff =
    let sum = fletcher64 (λ v. v) (block_words seq myoff otheroff 0 0) true in
    block_words seq myoff otheroff (sum % 2 ^ 32) (sum / 2 ^ 32)

abbrev area : List ℕ
area = summed_words 3 0 256 ++ (summed_words 1 256 0 ++ replicate 128 0)

area-Area : Area 1024 128 area
area-Area = record {
  least = omega arith;
  below = omega arith;
  known = inl refl;
  there = omega arith;
}

second_is_current : current_index fields signature area 1024 128 ≡ some (some 1)
unfolding current_index valid_index words_from first_words zero_checksum told_label_size index_sane
    pick_index same_words fletcher64 sizeof_namespace_index num_label_slots slots_behind index_size
    align best_seq inc_seq
second_is_current = refl

current_index_lem_example :
    (r : Option ℕ) × (v0 : Bool × NamespaceIndex) × (v1 : Bool × NamespaceIndex) × (current_index
        fields signature area 1024 128
      ≡ some r)
    × (valid_index fields signature area 1024 128 0 ≡ some v0)
    × (valid_index fields signature area 1024 128 1 ≡ some v1)
    × (((r ≡ some 0) × (v0.0 ≡ true))
        ⊎ ((r ≡ some 1) × (v1.0 ≡ true))
        ⊎ ((r ≡ none) × (v0.0 ≡ false) × (v1.0 ≡ false)))
current_index_lem_example = current_index_lem fields signature area 1024 128 area-Area

sized : sizeof_namespace_index 1024 128 ≡ 256
unfolding sizeof_namespace_index num_label_slots slots_behind index_size align
sized = refl

sizeof_namespace_index-fits_example :
    (2 * sizeof_namespace_index 1024 128 + num_label_slots 1024 128 * 128 ≤ 1024)
    × (sizeof_namespace_index 1024 128 % 256 ≡ 0)
    × (72 + (num_label_slots 1024 128 + 7) / 8 ≤ sizeof_namespace_index 1024 128)
    × (2 ≤ num_label_slots 1024 128)
sizeof_namespace_index-fits_example =
    sizeof_namespace_index-fits 1024 128 (omega arith) (omega arith) (inl refl)
      (omega (arith, sized))

-- No label area at all has room for an index block.
empty_area_accepted : sizeof_namespace_index 0 128 ≡ 256
unfolding sizeof_namespace_index num_label_slots slots_behind index_size align
empty_area_accepted = refl

abbrev index_of : ℕ → NamespaceIndex
index_of seq = record {
  sig = signature;
  flags = 0;
  seq = seq;
  myoff = (0, 0);
  mysize = (256, 0);
  otheroff = (256, 0);
  labeloff = (512, 0);
  nslot = 4;
  version = 0x10001;
  checksum = (0, 0);
  free = [];
}

pick_index-newer_example :
    (pick_index fields (true, index_of 3) (true, index_of 1) ≡ some 1)
    × (pick_index fields (true, index_of 1) (true, index_of 3) ≡ some 0)
pick_index-newer_example =
    pick_index-newer fields (index_of 3) (index_of 1) (omega arith) (omega arith) (omega arith)
      (unfold inc_seq in unfold next_seq in refl)
