-- ===== src/Firmware/Ended.antt =====
-- ndctl/dimm.c: what the answer of `update_firmware` comes from.
use utils_kernel_ndctl_ndctl.Prelude.{ℕ, ◌≡◌, ◌⊎◌, inl, inr, true, false, Option, some, List}
use utils_kernel_ndctl_ndctl.Namespace.Control.{Ret}
use utils_kernel_ndctl_ndctl.Command.{is_negative}
use utils_kernel_ndctl_ndctl.Firmware.{
  FwInfo, Firmware, UpdateOptions, is_again, send_firmware, submit_get_firmware_info,
  submit_abort_firmware, submit_finish_firmware,
}
use utils_kernel_ndctl_ndctl.Firmware.Update.{query_fw_finish_status, start_tries}
use utils_kernel_ndctl_ndctl.Firmware.Outcome.{Ticks}

module _ {S : Type 0} (dev : Firmware S) (options : UpdateOptions) (fw_size : ℕ)
    (file : List ℕ) where
  -- The firmware answered its sizes, and the update was started, which left the state `t`.
  abbrev pub StartedAs : S → FwInfo → S → Type 0
  StartedAs s fw t =
      (v : S) × (rc : Ret) × (submit_get_firmware_info dev options fw_size s ≡ (inr fw, v))
      × (start_tries dev options 3 v ≡ (rc, t))
      × (is_negative rc ≡ false)

  -- Nothing was sent: the question for the sizes has failed, or the start, other than with `-EAGAIN`.
  abbrev pub RefusedAs : S → Ret → S → Type 0
  RefusedAs s rc u =
      ((submit_get_firmware_info dev options fw_size s ≡ (inl rc, u)) × (is_negative rc ≡ true))
      ⊎ ((fw : FwInfo) × (v : S) × (submit_get_firmware_info dev options fw_size s ≡ (inr fw, v))
          × (start_tries dev options 3 v ≡ (rc, u))
          × (is_negative rc ≡ true)
          × (is_again rc ≡ false))

  -- The abort behind a failure of the sending or of the finish.
  abbrev pub AbortedAs : S → Ret → S → Type 0
  AbortedAs s rc u =
      (fw : FwInfo) × (e : Ret) × (t : S) × (v : S) × StartedAs s fw t
      × (is_negative e ≡ true)
      × ((send_firmware dev options fw fw_size file t ≡ some (e, v))
          ⊎ ((r : Ret) × (w : S) × (send_firmware dev options fw fw_size file t ≡ some (r, w))
              × (is_negative r ≡ false)
              × (submit_finish_firmware dev options w ≡ (e, v))))
      × (submit_abort_firmware dev options v ≡ (rc, u))

  -- The query behind a sending and a finish that did not fail.
  abbrev pub QueriedAs : S → Ret → S → Type 0
  QueriedAs s rc u =
      (fw : FwInfo) × (r : Ret) × (e : Ret) × (t : S) × (w : S) × (v : S) × StartedAs s fw t
      × (send_firmware dev options fw fw_size file t ≡ some (r, w))
      × (is_negative r ≡ false)
      × (submit_finish_firmware dev options w ≡ (e, v))
      × (is_negative e ≡ false)
      × (query_fw_finish_status dev options fw v ≡ some (rc, u))

  -- From `s`, the answer and the state are those of the query, or those of the abort behind a
  -- failure, or those of what failed before anything was sent.
  unfoldable pub EndedAs : S → Ret → S → Type 0
  EndedAs s rc u = QueriedAs s rc u ⊎ AbortedAs s rc u ⊎ RefusedAs s rc u

  -- An answer about the firmware is an error or the sizes.
  Informed : (Ret ⊎ FwInfo) × S → Type 0
  Informed r =
      ((rc : Ret) × (r.0 ≡ inl rc) × (is_negative rc ≡ true)) ⊎ ((fw : FwInfo) × (r.0 ≡ inr fw))

  module _ (ns : S → ℕ) (ticks : Ticks dev ns) (s : S) where
    Ended : Option (Ret × S) → Type 0
    Ended o = (rc : Ret) × (u : S) × (o ≡ some (rc, u)) × EndedAs s rc u
