-- ===== src/Command/Binary.antt =====
-- ndctl/dimm.c: write-labels and read-labels, between a file and the label area.
pub mod Stored
use utils_kernel_ndctl_ndctl.Prelude.{
  ℕ, zero, suc, ◌+◌, ◌-◌, ◌/◌, ◌%◌, ◌^◌, min, ltb, leb, ◌==◌, Bool, true, false, not, Option, some,
  none, List, [], ◌∷◌, ◌++◌, ◌>>=◌, length, if◌then◌else◌,
}
use utils_kernel_ndctl_ndctl.Prelude.Buffers.{take, drop}
use utils_kernel_ndctl_ndctl.Check.Defs.{Errno, einval, enxio, ebusy}
use utils_kernel_ndctl_ndctl.Namespace.Control.{Ret, done, failed, positive}
use utils_kernel_ndctl_ndctl.Command.{Cmd, CmdIter, is_negative, new_cfg_write, submit}
use utils_kernel_ndctl_ndctl.Command.Access.{
  cfg_read_get_data, cfg_read_get_size, cfg_write_set_data,
}
use utils_kernel_ndctl_ndctl.Command.Extent.{Dimm, read_label_extent}

-- The size of the buffer of `rw_bin`.
abbrev pub part_size : ℕ
part_size = 4096

abbrev pub set_or_failed :
    (List ℕ → Option (Ret × ℕ × List ℕ)) → Ret × List ℕ → ℕ → Option (Ret × ℕ × List ℕ)
set_or_failed rest (rc, buf) write =
    if is_negative rc then some (failed enxio, write, buf) else rest buf

-- The loop of `rw_bin` to the device, with the bytes that were written and the buffer of the command.
-- `none` is a negative number of bytes, which `fread` takes for a huge one, or no fuel left.
unfoldable pub write_rounds : ℕ → Cmd → ℕ → ℕ → ℕ → List ℕ → ℕ → List ℕ → Option (Ret × ℕ × List ℕ)
write_rounds zero cmd size end offset file write buf = none
write_rounds (suc fuel) cmd size end offset file write buf =
    let len = min (min part_size (size - offset)) (length file) in
    let rest = λ (buf : List ℕ).
      write_rounds fuel cmd size end (offset + part_size) (drop len file) (write + len) buf in
    if leb end offset
    then some (done, write, buf)
    else if ltb size offset
    then none
    else if len == 0
    then some (done, write, buf)
    else do
      set ← cfg_write_set_data cmd buf (take len file) len (offset % 2 ^ 32)
      set_or_failed rest set write

abbrev pub got : Ret → ℕ
got (positive n) = n
got rc = 0

-- The loop from the device, where a negative number of bytes is cut to 32 bits, `fwrite` writes all
-- that it gets, with what it wrote.
unfoldable pub read_rounds : ℕ → Cmd → List ℕ → ℕ → ℕ → ℕ → List ℕ → Option (Ret × List ℕ)
read_rounds zero cmd buf size end offset out = none
read_rounds (suc fuel) cmd buf size end offset out =
    let len =
      if ltb size offset
      then (size + 2 ^ 32 - offset) % 2 ^ 32
      else min part_size (size - offset) in
    let rest = λ (out : List ℕ). read_rounds fuel cmd buf size end (offset + part_size) out in
    if leb end offset then some (done, out) else do
      (rc, bytes) ← cfg_read_get_data cmd buf len (offset % 2 ^ 32)
      if is_negative rc then some (rc, out) else rest (out ++ bytes)

module _ {S : Type 0} (dimm : Dimm S) where
  abbrev pub submit_written : Cmd → Ret × ℕ × List ℕ → S → Option (Ret × List ℕ × S)
  submit_written cmd (rc, write, buf) s =
      if is_negative rc
      then some (rc, buf, s)
      else if write == 0
      then some (done, buf, s)
      else submit dimm.device (dimm.node s) cmd buf s

  -- `rw_bin` with `WRITE`.
  unfoldable pub write_bin : List ℕ → Cmd → List ℕ → ℕ → ℕ → S → Option (Ret × List ℕ × S)
  unfolding write_rounds
  write_bin file cmd buf size start_offset s = do
    r ← write_rounds (size / part_size + 2) cmd size (start_offset + size) start_offset file 0 buf
    submit_written cmd r s

  unfoldable pub revalidate_labels : S → Ret × S
  revalidate_labels s =
      if not (dimm.is_enabled s)
      then (done, s)
      else let (rc, s) = dimm.disable s in
        elim rc [ done ↦ dimm.enable s | failed e ↦ (failed e, s) | positive n ↦ (positive n, s) ]

  -- `ndctl_cmd_cfg_read_get_size`, where it is not an error.
  abbrev pub size_of : Cmd → ℕ
  size_of cmd_read = got (cfg_read_get_size cmd_read)

  abbrev pub revalidated : Ret × List ℕ × S → Ret × S
  revalidated (done, buf, s) = revalidate_labels s
  revalidated (rc, buf, s) = (rc, s)

  abbrev pub write_read : List ℕ → ℕ → Option (Cmd × List ℕ) × S → Option (Ret × S)
  write_read file offset (none, s) = some (failed einval, s)
  write_read file offset (some (cmd_read, buf), s) =
      elim (new_cfg_write dimm.set_supported cmd_read) [
        | none ↦ some (failed enxio, s)
        | some cmd_write ↦ (do
          r ← write_bin file cmd_write buf (size_of cmd_read) offset s
          some (revalidated r))
      ]

  unfoldable pub action_write : ℕ → ℕ → List ℕ → S → Option (Ret × S)
  unfolding write_bin revalidate_labels
  action_write len offset file s =
      if dimm.is_active s
      then some (failed ebusy, s)
      else do r ← read_label_extent dimm len offset s; write_read file offset r

  abbrev pub read_out : ℕ → Option (Cmd × List ℕ) × S → Option (Ret × List ℕ × S)
  read_out offset (none, s) = some (failed einval, [], s)
  read_out offset (some (cmd_read, buf), s) = do
    let size = size_of cmd_read
    (rc, out) ← read_rounds (size / part_size + 2) cmd_read buf size (offset + size) offset []
    some (rc, out, s)

  -- `action_read` of an extent, into a file.
  unfoldable pub action_read : ℕ → ℕ → S → Option (Ret × List ℕ × S)
  unfolding read_rounds
  action_read len offset s = do r ← read_label_extent dimm len offset s; read_out offset r
