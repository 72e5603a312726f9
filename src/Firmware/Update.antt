-- ===== src/Firmware/Update.antt =====
-- ndctl/dimm.c: waiting for the end of a firmware update, its activation, and the steps of an update.
use utils_kernel_ndctl_ndctl.Prelude.{
  ℕ, zero, suc, ◌+◌, ◌-◌, ◌*◌, ◌/◌, ◌⊎◌, inl, inr, ltb, ◌==◌, Bool, true, false, not, ◌&&◌, ◌||◌,
  Option, some, none, List, ◌>>=◌, if◌then◌else◌,
}
use utils_kernel_ndctl_ndctl.Check.Defs.{Errno, enxio, einval, eio, system}
use utils_kernel_ndctl_ndctl.Namespace.Control.{Ret, done, failed}
use utils_kernel_ndctl_ndctl.Command.{is_negative}
use utils_kernel_ndctl_ndctl.Firmware.{
  FwStatus, fw_success, fw_ebadfw, fw_enores, FwaState, fwa_invalid, fwa_armed, fwa_arm_overflow,
  FwInfo, Firmware, UpdateOptions, etimedout, is_busy, is_again, submit_get_firmware_info,
  submit_abort_firmware, submit_start_firmware_upload, send_firmware, submit_finish_firmware,
}

abbrev pub is_overflow : FwaState → Bool
is_overflow fwa_arm_overflow = true
is_overflow _ = false

abbrev pub is_armed : FwaState → Bool
is_armed fwa_armed = true
is_armed _ = false

abbrev pub is_invalid : FwaState → Bool
is_invalid fwa_invalid = true
is_invalid _ = false

module _ {S : Type 0} (dev : Firmware S) (options : UpdateOptions) where
  -- Behind the arming, where it may have run over the limit.
  abbrev pub armed : FwaState × S → FwaState × S
  armed (state, s) =
      if not (is_armed state)
      then (fwa_invalid, s)
      else if options.force
      then (state, s)
      else if is_overflow (dev.bus_state s)
      then (fwa_invalid, (dev.disarm s).1)
      else (fwa_armed, s)

  unfoldable pub fw_update_arm : S → FwaState × S
  fw_update_arm s =
      let state = dev.bus_state s in
      if is_invalid state || is_overflow state && not options.force
      then (fwa_invalid, s)
      else armed (dev.arm s)

  -- `fw_update_toggle_arm` without the JSON output, and whether a failure is fatal.
  unfoldable pub fw_update_toggle_arm : Bool → S → Ret × S
  unfolding fw_update_arm
  fw_update_toggle_arm arm_fatal s =
      let (state, s') =
        if options.disarm
        then dev.disarm s
        else if options.arm
        then fw_update_arm s
        else (fwa_invalid, s) in
      if is_invalid state && arm_fatal then (failed enxio, s') else (done, s')

  -- The `switch` behind the loop.
  abbrev pub queried : FwStatus → ℕ → S → Ret × S
  queried fw_success ver s =
      if ver == 0 then (failed eio, s) else (done, (fw_update_toggle_arm false s).1)
  queried fw_ebadfw ver s = (failed einval, s)
  queried fw_enores ver s = (failed etimedout, s)
  queried _ ver s = (failed eio, s)

  abbrev pub slept : (S → Option (Ret × S)) → Option Errno × S → Option (Ret × S)
  slept again (some e, s) = some (failed e, s)
  slept again (none, s) = again s

  -- Where the DIMM is still busy: `after` is the time now.
  abbrev pub waited : (S → Option (Ret × S)) → FwInfo → ℕ → Errno ⊎ ℕ → S → Option (Ret × S)
  waited again fw before (inl e) s = some (failed e, s)
  waited again fw before (inr after) s =
      if ltb (fw.max_query / 1000000) (after - before)
      then some (failed etimedout, s)
      else slept again (dev.sleep (fw.query_interval / 1000) s)

  -- The loop from `again` on; `none` is no fuel left.
  unfoldable pub query_rounds : ℕ → FwInfo → ℕ → S → Option (Ret × S)
  query_rounds zero fw before s = none
  query_rounds (suc fuel) fw before s =
      let again = λ (s : S). query_rounds fuel fw before s in
      let ((rc, status, ver), s') = dev.query s in
      if is_negative rc
      then some (rc, s')
      else if is_busy status
      then waited again fw before (dev.clock s') s'
      else some (queried status ver s')

  -- The fuel is for rounds of a nanosecond. The first failure of `clock_gettime` gives its result -1.
  unfoldable pub query_fw_finish_status : FwInfo → S → Option (Ret × S)
  unfolding query_rounds
  query_fw_finish_status fw s =
      if not dev.query_made then some (failed enxio, s) else elim (dev.clock s) [
        | inl e ↦ some (failed (system 1), s)
        | inr before ↦ query_rounds (1000 * fw.max_query + 2000000001) fw before s
      ]

  -- The tries to start the update.
  unfoldable pub start_tries : ℕ → S → Ret × S
  start_tries zero s = (failed (system 11), s)
  start_tries (suc n) s =
      let rest = λ (s : S). start_tries n s in
      let (rc, s') = submit_start_firmware_upload dev options s in
      if is_again rc then rest s' else (rc, s')

  abbrev pub finish_or_abort : FwInfo → Ret × S → Option (Ret × S)
  finish_or_abort fw (rc, s) =
      if is_negative rc
      then some (submit_abort_firmware dev options s)
      else query_fw_finish_status fw s

  abbrev pub send_or_abort : FwInfo → Ret × S → Option (Ret × S)
  send_or_abort fw (rc, s) =
      if is_negative rc
      then some (submit_abort_firmware dev options s)
      else finish_or_abort fw (submit_finish_firmware dev options s)

  -- Behind the tries. Where each of them gave `-EAGAIN`, `none` is the use of the null pointer
  -- `uctx->start` in what follows.
  abbrev pub upload : FwInfo → ℕ → List ℕ → Ret × S → Option (Ret × S)
  upload fw fw_size file (rc, s) =
      if is_again rc
      then none
      else if is_negative rc
      then some (rc, s)
      else send_firmware dev options fw fw_size file s >>= send_or_abort fw

  unfoldable pub update_firmware : ℕ → List ℕ → S → Option (Ret × S)
  unfolding query_fw_finish_status start_tries
  update_firmware fw_size file s =
      let (info, s') = submit_get_firmware_info dev options fw_size s in
      elim info [ inl rc ↦ some (rc, s') | inr fw ↦ upload fw fw_size file (start_tries 3 s') ]
