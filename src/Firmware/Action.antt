-- ===== src/Firmware/Action.antt =====
-- ndctl/dimm.c: `action_update`, the checks in front of a firmware update.
use utils_kernel_ndctl_ndctl.Prelude.{
  ℕ, ◌⊎◌, inl, inr, ◌==◌, Bool, true, false, not, ◌&&◌, ◌||◌, Option, some, List, if◌then◌else◌,
}
use utils_kernel_ndctl_ndctl.Check.Defs.{Errno, einval, eio, ebusy, system}
use utils_kernel_ndctl_ndctl.Namespace.Control.{Ret, failed}
use utils_kernel_ndctl_ndctl.Command.{is_positive}
use utils_kernel_ndctl_ndctl.Firmware.{Firmware, UpdateOptions}
use utils_kernel_ndctl_ndctl.Firmware.Update.{fw_update_toggle_arm, update_firmware}

-- `update_verify_input`: what `fstat` answers is an error, or whether the file is a regular one, and
-- its size.
unfoldable pub update_verify_input : Errno ⊎ (Bool × ℕ) → Ret ⊎ ℕ
update_verify_input (inl e) = inl (failed e)
update_verify_input (inr (regular, size)) =
    if not regular || size == 0 then inl (failed einval) else inr size

-- `-ENOTTY`, `-EOPNOTSUPP` and `-EIO`
abbrev pub is_unsupported : Ret → Bool
is_unsupported (failed (system n)) = n == 25 || n == 95
is_unsupported (failed eio) = true
is_unsupported _ = false

module _ {S : Type 0} (dev : Firmware S) (options : UpdateOptions) where
  abbrev pub update_verified : Ret ⊎ ℕ → List ℕ → S → Option (Ret × S)
  update_verified (inl rc) file s = some (rc, s)
  update_verified (inr fw_size) file s = update_firmware dev options fw_size file s

  -- `infile` says whether there is a firmware file; `supported` and `scrub` are the answers of
  -- `ndctl_dimm_fw_update_supported` and `ndctl_bus_get_scrub_state`.
  unfoldable pub action_update :
      Bool → Ret → Ret → Errno ⊎ (Bool × ℕ) → List ℕ → S → Option (Ret × S)
  unfolding update_verify_input
  action_update infile supported scrub stat file s =
      if not infile
      then some (fw_update_toggle_arm dev options true s)
      else if is_unsupported supported
      then some (supported, s)
      else if is_positive scrub && not options.force
      then some (failed ebusy, s)
      else update_verified (update_verify_input stat) file s
