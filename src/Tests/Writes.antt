-- ===== src/Tests/Writes.antt =====
-- ndctl/lib/dimm.c: the initialisation of a label area of 1024 bytes.
use utils_kernel_ndctl_ndctl.Prelude.{
  ℕ, ◌+◌, ◌*◌, ◌/◌, ◌%◌, ◌^◌, ◌≡◌, refl, some, List, [], ◌∷◌, ◌++◌, length, arith, replicate,
}
use utils_kernel_ndctl_ndctl.Prelude.Buffers.{drop, read_at}
use utils_kernel_ndctl_ndctl.Command.{ret_of, iter_access}
use utils_kernel_ndctl_ndctl.Command.Access.{cfg_read_get_data}
use utils_kernel_ndctl_ndctl.Command.Extent.Answers.{Answers}
use utils_kernel_ndctl_ndctl.Command.Extent.Zeroed.{read_cmd}
use utils_kernel_ndctl_ndctl.Label.{
  num_label_slots, sizeof_namespace_index, slots_behind, index_size, align,
}
use utils_kernel_ndctl_ndctl.Label.Guess.{sizeof_namespace_label, count_versions, count_version}
use utils_kernel_ndctl_ndctl.Label.Validate.{Fields, current_index}
use utils_kernel_ndctl_ndctl.Label.Write.{Encoders, v1_1, ndctl_dimm_init_labels}
use utils_kernel_ndctl_ndctl.Label.Write.Fresh.{RoundTrips}
use utils_kernel_ndctl_ndctl.Label.Write.Restored.{ndctl_dimm_init_labels-current_index}
use utils_kernel_ndctl_ndctl.Tests.Commands.{plain_dimm, plain_device-IsFaithful, area_of, stored}

abbrev little : Fields
little = record {
  le32_to_cpu = λ v. v;
  le64_to_cpu = λ v w. v + w * 2 ^ 32;
  le16_major = λ v. v % 2 ^ 16;
  le16_minor = λ v. v / 2 ^ 16;
  labelsize = λ v. v / 2 ^ 24;
}

-- The last byte of a word has all that is left of it.
abbrev bytes_of : List ℕ → List ℕ
bytes_of [] = []
bytes_of (w ∷ ws) = (w % 256) ∷ (w / 2 ^ 8 % 256) ∷ (w / 2 ^ 16 % 256) ∷ (w / 2 ^ 24) ∷ bytes_of ws

abbrev words_of : List ℕ → List ℕ
words_of (a ∷ b ∷ c ∷ d ∷ bs) = (a + b * 2 ^ 8 + c * 2 ^ 16 + d * 2 ^ 24) ∷ words_of bs
words_of _ = []

abbrev encoders : Encoders
encoders = record {
  cpu_to_le32 = λ v. v;
  cpu_to_le64 = λ v. (v % 2 ^ 32, v / 2 ^ 32);
  version_word = λ a b. a + b * 2 ^ 16;
  flags_word = λ v. v * 2 ^ 24;
  words_of = words_of;
  bytes_of = bytes_of;
}

words_of-bytes_of : (ws : List ℕ) → words_of (bytes_of ws) ≡ ws
words_of-bytes_of [] = refl
words_of-bytes_of (w ∷ ws) =
    let same : w % 256 + w / 2 ^ 8 % 256 * 2 ^ 8 + w / 2 ^ 16 % 256 * 2 ^ 16 + w / 2 ^ 24 * 2 ^ 24
        ≡ w =
      omega arith in
    rw (same, words_of-bytes_of ws) refl

length-bytes_of : (ws : List ℕ) → length (bytes_of ws) ≡ 4 * length ws
length-bytes_of [] = refl
length-bytes_of (w ∷ ws) = omega (arith, length-bytes_of ws)

encoders-RoundTrips : RoundTrips little encoders
encoders-RoundTrips = record {
  le32 = λ v h. refl;
  le64 = λ v h. omega arith;
  major = λ a b p q. omega arith;
  minor = λ a b p q. omega arith;
  labelsize = λ v h. omega arith;
  words = words_of-bytes_of;
  bytes = length-bytes_of;
}

abbrev blank : List ℕ
blank = replicate 1024 0

blank-Answers : Answers (plain_dimm 1024 100) area_of stored blank 1024 100
blank-Answers = record {
  faithful = plain_device-IsFaithful;
  whole = refl;
  some_area = omega arith;
  some_part = omega arith;
  below = omega arith;
  node = λ t. refl;
  xlat = λ t. refl;
}

sized : sizeof_namespace_index 1024 128 ≡ 256
unfolding sizeof_namespace_index num_label_slots slots_behind index_size align
sized = refl

-- `NAMESPACE_INDEX`
ndctl_dimm_init_labels-current_index_example :
    (ws : List ℕ) × (ndctl_dimm_init_labels
        (plain_dimm 1024 100)
        little
        encoders
        (0x4553414e ∷ 0x41505345 ∷ 0x495f4543 ∷ 0x5845444e ∷ [])
        1024
        (some (read_cmd 100 1024 0))
        v1_1
        blank
        blank
      ≡ some (ret_of (num_label_slots 1024 128), bytes_of ws, bytes_of ws))
    × (current_index little (0x4553414e ∷ 0x41505345 ∷ 0x495f4543 ∷ 0x5845444e ∷ []) ws 1024 128
        ≡ some (some 0))
    × (drop (sizeof_namespace_index 1024 128 / 4) (drop (sizeof_namespace_index 1024 128 / 4) ws)
        ≡ drop
            (sizeof_namespace_index 1024 128 / 4)
            (drop (sizeof_namespace_index 1024 128 / 4) (words_of blank)))
ndctl_dimm_init_labels-current_index_example =
    ndctl_dimm_init_labels-current_index (plain_dimm 1024 100) area_of stored little encoders
      encoders-RoundTrips 0x4553414e 0x41505345 0x495f4543 0x5845444e 1024 128 100 v1_1 blank blank
      refl blank-Answers refl (omega arith) (omega (arith, sized)) refl

-- One block of version 1.2 beside a blank one gives the label size of version 1.2.
one_block_is_enough :
    sizeof_namespace_label little encoders
      (read_cmd 100 512 0)
      (replicate 60 0 ++ (1 ∷ 0 ∷ 2 ∷ 0 ∷ replicate 448 0))
      0
    ≡ some 256
unfolding sizeof_namespace_label count_versions count_version cfg_read_get_data iter_access read_at
one_block_is_enough = refl
