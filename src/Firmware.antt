-- ===== src/Firmware.antt =====
-- ndctl/dimm.c: the update of the firmware of a DIMM, `update_firmware` and the functions that it
-- calls.
pub mod Sent
pub mod Update
pub mod Outcome
pub mod Ended
pub mod Action
use utils_kernel_ndctl_ndctl.Prelude.{
  ℕ, zero, suc, ◌+◌, ◌-◌, ◌/◌, ◌%◌, ◌^◌, ◌⊎◌, inl, inr, min, ltb, ◌==◌, Bool, true, false, not,
  ◌&&◌, ◌||◌, Option, some, none, List, length, ◌>>=◌, if◌then◌else◌,
}
use utils_kernel_ndctl_ndctl.Prelude.Buffers.{take, drop}
use utils_kernel_ndctl_ndctl.Check.Defs.{Errno, enxio, enomem, einval, eio, ebusy, system}
use utils_kernel_ndctl_ndctl.Namespace.Control.{Ret, done, failed, positive}
use utils_kernel_ndctl_ndctl.Command.{is_negative}

-- `enum ND_FW_STATUS`
pub data FwStatus : Type 0 where
  fw_success fw_enotsupp fw_enotexist fw_einval fw_ehwerr fw_eretry fw_eunknown fw_enores
        fw_enotready :
      FwStatus
  fw_ebusy fw_einval_ctx fw_already_done fw_ebadfw fw_aborted fw_esequence : FwStatus

-- `enum ndctl_fwa_state`
pub data FwaState : Type 0 where
  fwa_invalid fwa_idle fwa_armed fwa_busy fwa_arm_overflow : FwaState

-- `struct fw_info`, less `context`, which the start of the update gives to the commands.
pub record FwInfo : Type 0 where
  pub store_size : ℕ
  pub update_size : ℕ
  pub query_interval : ℕ
  pub max_query : ℕ
  pub run_version : ℕ

-- The firmware commands of a DIMM in states of a type `S`, each made and submitted: `none` is no
-- command, and a result comes with the firmware's status. `send` has the offset and the bytes,
-- `query` is with the revision, `start` with the context. `query_made` and `buffer` say whether
-- there is memory for them; `clock` is the time in seconds, and `sleep` that for `query_interval`.
pub record Firmware (S : Type 0) : Type 0 where
  pub get_info : S → Option (Ret × FwStatus × FwInfo) × S
  pub start : S → Option (Ret × FwStatus × ℕ) × S
  pub send : ℕ → List ℕ → S → Option (Ret × FwStatus) × S
  pub finish : S → Option (Ret × FwStatus) × S
  pub abort : S → Option (Ret × FwStatus) × S
  pub query : S → (Ret × FwStatus × ℕ) × S
  pub query_made : Bool
  pub buffer : Bool
  pub clock : S → Errno ⊎ ℕ
  pub sleep : ℕ → S → Option Errno × S
  pub bus_state : S → FwaState
  pub arm : S → FwaState × S
  pub disarm : S → FwaState × S

-- The options that an update reads.
pub record UpdateOptions : Type 0 where
  pub force : Bool
  pub arm : Bool
  pub disarm : Bool

abbrev pub eagain : Errno
eagain = system 11

abbrev pub etimedout : Errno
etimedout = system 110

abbrev pub is_success : FwStatus → Bool
is_success fw_success = true
is_success _ = false

abbrev pub is_busy : FwStatus → Bool
is_busy fw_ebusy = true
is_busy _ = false

abbrev pub is_aborted : FwStatus → Bool
is_aborted fw_aborted = true
is_aborted _ = false

-- `rc == -EAGAIN`
abbrev pub is_again : Ret → Bool
is_again (failed (system n)) = n == 11
is_again _ = false

-- `verify_fw_size`; the error is `ENOSPC`.
abbrev pub verify_fw_size : ℕ → FwInfo → Ret ⊎ FwInfo
verify_fw_size fw_size fw = if ltb fw.store_size fw_size then inl (failed (system 28)) else inr fw

abbrev pub info_missing : FwInfo → Bool
info_missing fw =
    fw.store_size == 2 ^ 32 - 1
    || fw.update_size == 2 ^ 32 - 1
    || fw.query_interval == 2 ^ 32 - 1
    || fw.max_query == 2 ^ 32 - 1
    || fw.run_version == 2 ^ 64 - 1

-- `get_fw_data_from_file`: `fread` of one item of `len` bytes; `none` is `-EBADF`.
unfoldable pub get_fw_data_from_file : List ℕ → ℕ → Option (List ℕ × List ℕ)
get_fw_data_from_file file len =
    if len == 0 || ltb (length file) len then none else some (take len file, drop len file)

-- A round of the loop: an error, or the result of the command.
abbrev pub transmitted : Option (Ret × FwStatus) → Ret
transmitted none = failed enomem
transmitted (some (rc, status)) =
    if is_negative rc then rc else if is_success status then rc else failed eio

module _ {S : Type 0} (dev : Firmware S) (options : UpdateOptions) where
  abbrev pub info_from : ℕ → Option (Ret × FwStatus × FwInfo) × S → (Ret ⊎ FwInfo) × S
  info_from fw_size (none, s) = (inl (failed enxio), s)
  info_from fw_size (some (rc, status, fw), s) =
      if is_negative rc
      then (inl rc, s)
      else if not (is_success status) || info_missing fw
      then (inl (failed enxio), s)
      else (verify_fw_size fw_size fw, s)

  unfoldable pub submit_get_firmware_info : ℕ → S → (Ret ⊎ FwInfo) × S
  submit_get_firmware_info fw_size s = info_from fw_size (dev.get_info s)

  abbrev pub aborted : Option (Ret × FwStatus) × S → Ret × S
  aborted (none, s) = (failed enxio, s)
  aborted (some (rc, status), s) =
      if is_negative rc then (rc, s) else if is_aborted status then (rc, s) else (failed enxio, s)

  unfoldable pub submit_abort_firmware : S → Ret × S
  submit_abort_firmware s = aborted (dev.abort s)

  -- Behind the abort of the update that kept the DIMM busy.
  abbrev pub retry : Ret × S → Ret × S
  retry (rc, s) = if is_negative rc then (failed ebusy, s) else (failed eagain, s)

  abbrev pub start_answer : Option (Ret × FwStatus × ℕ) × S → Ret × S
  start_answer (none, s) = (failed enxio, s)
  start_answer (some (rc, status, context), s) =
      if is_negative rc
      then (rc, s)
      else if is_busy status
      then (if options.force then retry (submit_abort_firmware s) else (failed ebusy, s))
      else if not (is_success status) || context == 2 ^ 32 - 1
      then (failed enxio, s)
      else (done, s)

  unfoldable pub submit_start_firmware_upload : S → Ret × S
  submit_start_firmware_upload s = start_answer (dev.start s)

  abbrev pub unless_failed : (Ret → S → Option (Ret × S)) → Ret → S → Option (Ret × S)
  unless_failed rest rc s = if is_negative rc then some (rc, s) else rest rc s

  -- The loop of `send_firmware`, with the result of the round before; `none` is no fuel left.
  unfoldable pub send_rounds : ℕ → ℕ → List ℕ → ℕ → ℕ → Ret → S → Option (Ret × S)
  unfolding get_fw_data_from_file
  send_rounds zero update_size file copied remain rc s = none
  send_rounds (suc fuel) update_size file copied remain rc s =
      let len = min update_size remain in
      let rest = λ (file : List ℕ) (rc : Ret) (s : S).
        send_rounds fuel update_size file ((copied + len) % 2 ^ 32) (remain - len) rc s in
      if remain == 0 then some (rc, s) else elim (get_fw_data_from_file file len) [
        | none ↦ some (failed (system 9), s)
        | some (bytes, file') ↦
            (let (answer, s') = dev.send copied bytes s in
              unless_failed (rest file') (transmitted answer) s')
      ]

  -- `fw_size` is cut to the 32 bits of `remain`.
  unfoldable pub send_firmware : FwInfo → ℕ → List ℕ → S → Option (Ret × S)
  unfolding send_rounds
  send_firmware fw fw_size file s =
      let remain = fw_size % 2 ^ 32 in
      if not dev.buffer
      then some (failed enomem, s)
      else send_rounds (remain + 1) fw.update_size file 0 remain (failed enxio) s

  -- A status that is no success leaves the result of `ndctl_cmd_submit`.
  abbrev pub finished : Option (Ret × FwStatus) × S → Ret × S
  finished (none, s) = (failed enxio, s)
  finished (some (rc, status), s) =
      if is_negative rc then (rc, s) else if is_success status then (done, s) else (rc, s)

  unfoldable pub submit_finish_firmware : S → Ret × S
  submit_finish_firmware s = finished (dev.finish s)
