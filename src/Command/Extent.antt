-- ===== src/Command/Extent.antt =====
-- ndctl/lib/dimm.c: the reading and the zeroing of a part of the label area.
pub mod Answers
pub mod Zeroed
use utils_kernel_ndctl_ndctl.Prelude.{
  ℕ, Bool, List, Option, some, none, ◌>>=◌, ◌==◌, not, ◌||◌, if◌then◌else◌,
}
use utils_kernel_ndctl_ndctl.Check.Defs.{Errno, einval, enxio, ebusy, system}
use utils_kernel_ndctl_ndctl.Namespace.Control.{Ret, done, failed, positive}
use utils_kernel_ndctl_ndctl.Command.{
  Cmd, ConfigDevice, is_negative, new_cfg_read, cfg_set_extent, new_cfg_write, submit_xlat,
}
use utils_kernel_ndctl_ndctl.Command.Access.{cfg_write_zero_data}

-- What the host answers for the DIMM: `cfg_size` is the size of the area and that of the largest
-- part, once the command for them was submitted with the result 0, and `none` where it was not.
-- `node` is an error of opening the control node, and `xlat` that of the firmware's status.
pub record Dimm (S : Type 0) : Type 0 where
  pub device : ConfigDevice S
  pub wait_probe : S → Ret × S
  pub cfg_size : S → Option (ℕ × ℕ)
  pub get_supported : Bool
  pub set_supported : Bool
  pub node : S → Option Errno
  pub xlat : S → Option Errno
  pub is_active : S → Bool
  pub is_enabled : S → Bool
  pub disable : S → Ret × S
  pub enable : S → Ret × S

-- `-ENOTTY`
abbrev pub enotty : Errno
enotty = system 25

module _ {S : Type 0} (dimm : Dimm S) where
  abbrev pub submitted : Cmd → List ℕ → S → Option ((Ret × List ℕ × S) × Cmd)
  submitted cmd buf s = submit_xlat dimm.device (dimm.node s) dimm.xlat cmd buf s

  -- The command for the extent, submitted; `none` is the null pointer. There is memory for the
  -- command, and `init_ndd` is left out, which only keeps the command for later.
  abbrev pub read_extent : ℕ → ℕ → ℕ → ℕ → S → Option (Option (Cmd × List ℕ) × S)
  read_extent config_size max_xfer len offset s =
      if config_size == 0 || not dimm.get_supported
      then some (none, s)
      else let (cmd, buf) = new_cfg_read config_size max_xfer in
        elim (cfg_set_extent cmd config_size (if len == 0 then config_size else len) offset) [
          | none ↦ some (none, s)
          | some cmd ↦ (do
            ((rc, buf', s'), cmd') ← submitted cmd buf s
            some (if is_negative rc then none else some (cmd', buf'), s'))
        ]

  -- `ndctl_dimm_read_label_extent`
  unfoldable pub read_label_extent : ℕ → ℕ → S → Option (Option (Cmd × List ℕ) × S)
  read_label_extent len offset s =
      let (rc, s) = dimm.wait_probe s in
      if is_negative rc then some (none, s) else elim (dimm.cfg_size s) [
        | none ↦ some (none, s)
        | some (config_size, max_xfer) ↦ read_extent config_size max_xfer len offset s
      ]

  -- Behind the write: a DIMM that is enabled is disabled and enabled again, so that the kernel reads
  -- the labels anew.
  abbrev pub reload : Ret → S → Ret × S
  reload rc s =
      if is_negative rc || not (dimm.is_enabled s)
      then (rc, s)
      else let (rc, s) = dimm.disable s in
        elim rc [ done ↦ dimm.enable s | failed e ↦ (failed e, s) | positive n ↦ (positive n, s) ]

  abbrev pub zero_extent : Cmd → List ℕ → S → Option (Ret × S)
  zero_extent cmd_write buf s = do
    (zeroed, buf) ← cfg_write_zero_data cmd_write buf
    if is_negative zeroed
        then some (failed enxio, s)
        else do ((rc, buf', s'), cmd') ← submitted cmd_write buf s; some (reload rc s')

  abbrev pub zero_read : Option (Cmd × List ℕ) × S → Option (Ret × S)
  zero_read (none, s) = some (failed einval, s)
  zero_read (some (cmd_read, buf), s) =
      if dimm.is_active s
      then some (failed ebusy, s)
      else elim (new_cfg_write dimm.set_supported cmd_read) [
        | none ↦ some (failed enotty, s)
        | some cmd_write ↦ zero_extent cmd_write buf s
      ]

  -- `ndctl_dimm_zero_label_extent`
  unfoldable pub zero_label_extent : ℕ → ℕ → S → Option (Ret × S)
  unfolding read_label_extent
  zero_label_extent len offset s = do r ← read_label_extent len offset s; zero_read r
