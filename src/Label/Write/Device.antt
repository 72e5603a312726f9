-- ===== src/Label/Write/Device.antt =====
-- ndctl/lib/dimm.c: `nvdimm_set_config_data` writes the buffer of the command that read the area.
use utils_kernel_ndctl_ndctl.Prelude.{
  ℕ, zero, suc, ◌+◌, ◌^◌, ◌≤◌, ◌<◌, ◌≡◌, refl, true, List, some, length, ◌>>=◌, if◌then◌else◌,
  arith,
}
use utils_kernel_ndctl_ndctl.Prelude.Buffers.{take, drop, write_at_lem, read_at-whole, length-slice}
use utils_kernel_ndctl_ndctl.Prelude.Buffers.Between.{overwrite_same, copied_whole}
use utils_kernel_ndctl_ndctl.Check.Defs.{enxio}
use utils_kernel_ndctl_ndctl.Namespace.Control.{done, failed}
use utils_kernel_ndctl_ndctl.Command.{Cmd, is_negative, ret_of}
use utils_kernel_ndctl_ndctl.Command.Access.{copy_in, cfg_write_set_data, access_inside}
use utils_kernel_ndctl_ndctl.Command.Transfer.{moved}
use utils_kernel_ndctl_ndctl.Command.Extent.{Dimm, submitted}
use utils_kernel_ndctl_ndctl.Command.Extent.Answers.{Answers, submitted-moved}
use utils_kernel_ndctl_ndctl.Command.Extent.Zeroed.{read_cmd, write_cmd, new_cfg_write-read_cmd}
use utils_kernel_ndctl_ndctl.Label.Write.{nvdimm_set_config_data, submit_data}

-- What is in the buffer anyway.
copy_in_same :
    (offset len : ℕ) (bytes : List ℕ)
    → offset + len ≤ length bytes
    → copy_in (some len) bytes (take len (drop offset bytes)) offset ≡ some (ret_of len, bytes)
copy_in_same offset len bytes h =
    let n = length-slice offset len bytes h in
    let got = read_at-whole len (take len (drop offset bytes)) n in
    let kept = write_at_lem offset (take len (drop offset bytes)) bytes (omega arith) in
    rw (got, kept, overwrite_same offset len bytes h) refl

set_same :
    (max_xfer config_size offset len : ℕ) (bytes : List ℕ)
    → length bytes ≡ config_size
    → offset + len ≤ config_size
    → config_size < 2 ^ 32
    → cfg_write_set_data
        (write_cmd max_xfer config_size)
        bytes
        (take len (drop offset bytes))
        len
        offset
      ≡ some (ret_of len, bytes)
unfolding cfg_write_set_data
set_same max_xfer config_size offset len bytes n h l =
    let access = access_inside (write_cmd max_xfer config_size).iter len offset refl h l in
    rw access (copy_in_same offset len bytes (omega arith))

submit_set :
    {S : Type 0} (dimm : Dimm S) (cmd : Cmd) (bytes : List ℕ) (len : ℕ) (s : S)
    → submit_data dimm cmd (ret_of len, bytes) s ≡ (
        submitted dimm cmd bytes s
        >>= (λ r. some (if is_negative r.0.0 then failed enxio else r.0.0, r.0.1, r.0.2)))
submit_set dimm cmd bytes zero s = refl
submit_set dimm cmd bytes (suc len) s = refl

module _ {S : Type 0} (dimm : Dimm S) (area : S → List ℕ) (put : S → List ℕ → S) (s : S)
    (config_size max_xfer : ℕ) (answers : Answers dimm area put s config_size max_xfer)
    (supported : dimm.set_supported ≡ true) where
  -- A part of the buffer is copied onto itself, and all of the buffer is stored.
  pub nvdimm_set_config_data-stored :
      (bytes : List ℕ) (offset len : ℕ)
      → length bytes ≡ config_size
      → 0 < len
      → offset + len ≤ config_size
      → nvdimm_set_config_data dimm
          (read_cmd max_xfer config_size 0)
          bytes
          offset
          (take len (drop offset bytes))
          len
          s
        ≡ some (done, bytes, put s bytes)
  unfolding nvdimm_set_config_data moved
  nvdimm_set_config_data-stored bytes offset len n pos h =
      let some_part = answers.some_part in
      let some_area = answers.some_area in
      let below = answers.below in
      let wrote =
        submitted-moved dimm area put s config_size max_xfer answers
          (write_cmd max_xfer config_size) bytes refl some_area (omega arith) n in
      let all = copied_whole config_size bytes (area s) n answers.whole in
      rw
        (
          nvdimm_set_config_data,
          new_cfg_write-read_cmd dimm.set_supported max_xfer config_size supported some_part
              some_area,
          set_same max_xfer config_size offset len bytes n h (omega arith),
          submit_set dimm (write_cmd max_xfer config_size) bytes len s,
          wrote,
          all,
        )
        refl
