-- ===== src/Tests/Updates.antt =====
-- ndctl/dimm.c: firmware updates of a DIMM whose state is what it has received and the time.
use utils_kernel_ndctl_ndctl.Prelude.{
  ℕ, ◌+◌, ◌≡◌, refl, inr, true, false, some, none, List, [], ◌∷◌, ◌++◌, arith, ◌/◌,
}
use utils_kernel_ndctl_ndctl.Prelude.Buffers.{take}
use utils_kernel_ndctl_ndctl.Namespace.Control.{done}
use utils_kernel_ndctl_ndctl.Firmware.{
  FwStatus, fw_success, fw_ehwerr, fw_aborted, FwInfo, fwa_idle, fwa_armed, Firmware, UpdateOptions,
  submit_get_firmware_info, send_firmware, send_rounds, get_fw_data_from_file,
  submit_abort_firmware, submit_start_firmware_upload,
}
use utils_kernel_ndctl_ndctl.Firmware.Update.{start_tries, update_firmware}
use utils_kernel_ndctl_ndctl.Firmware.Sent.{Receives, send_firmware-received}

abbrev State : Type 0
State = List ℕ × ℕ

abbrev info : FwInfo
info = record {
  store_size = 100;
  update_size = 4;
  query_interval = 1000;
  max_query = 1000000;
  run_version = 1;
}

-- With the status that each sending gets.
abbrev device : FwStatus → Firmware State
device sending = record {
  get_info = λ s. (some (done, fw_success, info), s);
  start = λ s. (some (done, fw_success, 7), s);
  send = λ offset bytes s. (some (done, sending), (s.0 ++ bytes, s.1));
  finish = λ s. (some (done, fw_success), s);
  abort = λ s. (some (done, fw_aborted), s);
  query = λ s. ((done, fw_success, 2), s);
  query_made = true;
  buffer = true;
  clock = λ s. inr (s.1 / 1000000000);
  sleep = λ n s. (none, (s.0, s.1 + n));
  bus_state = λ s. fwa_idle;
  arm = λ s. (fwa_armed, s);
  disarm = λ s. (fwa_idle, s);
}

abbrev plain : UpdateOptions
plain = record { force = false; arm = false; disarm = false }

abbrev firmware_file : List ℕ
firmware_file = 1 ∷ 2 ∷ 3 ∷ 4 ∷ 5 ∷ 6 ∷ []

abbrev received : State → List ℕ
received s = s.0

device-Receives : Receives (device fw_success) received
device-Receives = record { takes = λ s bytes. ((s.0 ++ bytes, s.1), refl, refl) }

send_firmware-received_example :
    (t : State) × (send_firmware (device fw_success) plain info 6 firmware_file ([], 0)
      ≡ some (done, t))
    × (received t ≡ take 6 firmware_file)
send_firmware-received_example =
    send_firmware-received (device fw_success) plain received device-Receives info 6 firmware_file
      ([], 0) refl (omega arith) (omega arith) (omega arith) (omega arith) refl

abbrev now : State → ℕ
now s = s.1

-- The first part is refused, the update aborted, and the answer 0.
failure_answers_success :
    update_firmware (device fw_ehwerr) plain 6 firmware_file ([], 0)
    ≡ some (done, (1 ∷ 2 ∷ 3 ∷ 4 ∷ [], 0))
unfolding update_firmware submit_get_firmware_info start_tries submit_start_firmware_upload
    send_firmware send_rounds get_fw_data_from_file submit_abort_firmware
failure_answers_success = refl
