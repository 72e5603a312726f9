-- ===== src/Label/Write.antt =====
-- ndctl/lib/dimm.c: the writing of the index blocks of an empty label area.
pub mod Blocks
pub mod Fresh
pub mod Device
pub mod Init
pub mod Restored
pub mod Action
use utils_kernel_ndctl_ndctl.Prelude.{
  ℕ, zero, suc, ◌+◌, ◌-◌, ◌*◌, ◌/◌, ◌%◌, ◌^◌, Bool, true, List, [], ◌∷◌, ◌++◌, Option, some, none,
  ◌>>=◌, replicate, ltb, if◌then◌else◌,
}
use utils_kernel_ndctl_ndctl.Prelude.Buffers.{read_at, write_at}
use utils_kernel_ndctl_ndctl.Util.Fletcher.{fletcher64}
use utils_kernel_ndctl_ndctl.Check.Defs.{einval, enxio}
use utils_kernel_ndctl_ndctl.Namespace.Control.{Ret, done, failed, positive}
use utils_kernel_ndctl_ndctl.Label.{align, num_label_slots, sizeof_namespace_index}
use utils_kernel_ndctl_ndctl.Label.Validate.{Fields}
use utils_kernel_ndctl_ndctl.Command.{Cmd, is_negative, ret_of, new_cfg_write}
use utils_kernel_ndctl_ndctl.Command.Access.{cfg_write_set_data}
use utils_kernel_ndctl_ndctl.Command.Extent.{Dimm, submitted}

-- The conversions of the other direction: `cpu_to_le64` gives two words, `version_word` is the
-- word of `major` and `minor`, and `flags_word` that of `labelsize` with the bytes of `flags` all
-- 0. The words of a buffer are its bytes as the host sees them.
pub record Encoders : Type 0 where
  pub cpu_to_le32 : ℕ → ℕ
  pub cpu_to_le64 : ℕ → ℕ × ℕ
  pub version_word : ℕ → ℕ → ℕ
  pub flags_word : ℕ → ℕ
  pub words_of : List ℕ → List ℕ
  pub bytes_of : List ℕ → List ℕ

-- `enum ndctl_namespace_version`
pub data NamespaceVersion : Type 0 where
  v1_1 v1_2 other : NamespaceVersion

-- The `switch` on the version; none is `-EINVAL`.
abbrev pub label_size_of : NamespaceVersion → Option ℕ
label_size_of v1_1 = some 128
label_size_of v1_2 = some 256
label_size_of other = none

-- `label_next_nsindex`, for an index that is not negative.
unfoldable pub label_next_nsindex : ℕ → ℕ
label_next_nsindex index = (index + 1) % 2

abbrev pub pair : ℕ × ℕ → List ℕ → List ℕ
pair (low, high) ws = low ∷ high ∷ ws

-- The fields of the index block in front of `free`, with the checksum.
unfoldable pub index_header : Encoders → List ℕ → ℕ → ℕ → ℕ → ℕ → ℕ × ℕ → List ℕ
unfolding label_next_nsindex
index_header e signature config_size label_size index seq checksum =
    let size = sizeof_namespace_index config_size label_size in
    signature
    ++ (e.flags_word (label_size / 2 ^ 8)
        ∷ e.cpu_to_le32 seq
        ∷ pair (e.cpu_to_le64 (size * index)) (
            pair (e.cpu_to_le64 size) (
              pair (e.cpu_to_le64 (size * label_next_nsindex index)) (
                pair (e.cpu_to_le64 (2 * size)) (
                  e.cpu_to_le32 (num_label_slots config_size label_size)
                  ∷ e.version_word 1 (if ltb label_size 256 then 1 else 2)
                  ∷ pair checksum [])))))

-- The bits of `free` are set for each label, in whole `unsigned long`s.
unfoldable pub free_words : ℕ → List ℕ
free_words nslot = replicate (align nslot 64 / 8 / 4) (2 ^ 32 - 1)

-- What `write_label_index` stores in the buffer, which has all of the area; `none` is an access
-- behind it.
unfoldable pub fill_index : Fields → Encoders → List ℕ → ℕ → ℕ → ℕ → ℕ → List ℕ → Option (List ℕ)
unfolding index_header free_words
fill_index f e signature config_size label_size index seq area =
    let size = sizeof_namespace_index config_size label_size in
    let nslot = num_label_slots config_size label_size in
    let nsindex = size * index / 4 in
    do
      filled ←
          write_at nsindex
            (index_header e signature config_size label_size index seq (0, 0) ++ free_words nslot)
            area
      block ← read_at nsindex (size / 4) filled
      write_at (nsindex + 16) (pair (e.cpu_to_le64 (fletcher64 f.le32_to_cpu block true)) []) filled

module _ {S : Type 0} (dimm : Dimm S) where
  abbrev pub submit_data : Cmd → Ret × List ℕ → S → Option (Ret × List ℕ × S)
  submit_data cmd_write (failed e, bytes) s = some (failed e, bytes, s)
  submit_data cmd_write (rc, bytes) s = do
    ((rc, bytes', s'), cmd') ← submitted dimm cmd_write bytes s
    some (if is_negative rc then failed enxio else rc, bytes', s')

  -- `nvdimm_set_config_data`: the command that read the area has `bytes` for its buffer.
  unfoldable pub nvdimm_set_config_data :
      Cmd → List ℕ → ℕ → List ℕ → ℕ → S → Option (Ret × List ℕ × S)
  nvdimm_set_config_data cmd_read bytes offset buf len s =
      elim (new_cfg_write dimm.set_supported cmd_read) [
        | none ↦ some (failed enxio, bytes, s)
        | some cmd_write ↦ (do
          set ← cfg_write_set_data cmd_write bytes buf len offset
          submit_data cmd_write set s)
      ]

  module _ (f : Fields) (e : Encoders) (signature : List ℕ) (config_size : ℕ) (cmd_read : Cmd) where
    -- `write_label_index`, for a label size.
    unfoldable pub write_index : ℕ → ℕ → ℕ → List ℕ → S → Option (Ret × List ℕ × S)
    unfolding fill_index nvdimm_set_config_data
    write_index label_size index seq bytes s =
        let size = sizeof_namespace_index config_size label_size in
        do
          words ← fill_index f e signature config_size label_size index seq (e.words_of bytes)
          let bytes' = e.bytes_of words
          nsindex ← read_at (size * index) size bytes'
          let (low, high) = e.cpu_to_le64 (size * index)
          nvdimm_set_config_data cmd_read bytes' (f.le64_to_cpu low high) nsindex size s

    unfoldable pub write_label_index :
        NamespaceVersion → ℕ → ℕ → List ℕ → S → Option (Ret × List ℕ × S)
    unfolding write_index
    write_label_index ver index seq bytes s = elim (label_size_of ver) [
      | none ↦ some (failed einval, bytes, s)
      | some label_size ↦ write_index label_size index seq bytes s
    ]

    abbrev pub slots_of : NamespaceVersion → Ret
    slots_of ver = elim (label_size_of ver) [
      | none ↦ failed einval
      | some label_size ↦ ret_of (num_label_slots config_size label_size)
    ]

    abbrev pub second_index : NamespaceVersion → Ret × List ℕ × S → Option (Ret × List ℕ × S)
    second_index v (rc, bytes, s) = if is_negative rc then some (rc, bytes, s) else do
      (rc', bytes', s') ← write_label_index v 1 2 bytes s
      some (if is_negative rc' then rc' else slots_of v, bytes', s')

    -- The loop of `ndctl_dimm_init_labels`, of which the second round is `second_index`, on an area
    -- that was read.
    unfoldable pub init_both : NamespaceVersion → List ℕ → S → Option (Ret × List ℕ × S)
    unfolding write_label_index
    init_both v bytes s = do first ← write_label_index v 0 3 bytes s; second_index v first

-- `ndctl_dimm_init_labels`: `none` for the command that read the area is an area that was not read.
unfoldable pub ndctl_dimm_init_labels :
    {S : Type 0}
    → Dimm S
    → Fields
    → Encoders
    → List ℕ
    → ℕ
    → Option Cmd
    → NamespaceVersion
    → List ℕ
    → S
    → Option (Ret × List ℕ × S)
unfolding init_both
ndctl_dimm_init_labels dimm f e signature config_size none v bytes s =
    some (failed einval, bytes, s)
ndctl_dimm_init_labels dimm f e signature config_size (some cmd_read) v bytes s =
    init_both dimm f e signature config_size cmd_read v bytes s
