-- ===== src/Firmware/Outcome.antt =====
-- ndctl/dimm.c: how `update_firmware` ends.
use utils_kernel_ndctl_ndctl.Prelude.{
  ℕ, zero, suc, ◌+◌, ◌-◌, ◌*◌, ◌/◌, ◌%◌, ◌^◌, ◌≤◌, ◌<◌, ◌≡◌, inl, inr, refl, min, ltb, ◌==◌, ◌||◌,
  Option, some, none, List, length, arith, Bool-cases,
}
use utils_kernel_ndctl_ndctl.Prelude.Buffers.{take, drop}
use utils_kernel_ndctl_ndctl.Check.Defs.{Errno, enxio}
use utils_kernel_ndctl_ndctl.Namespace.Control.{Ret, failed}
use utils_kernel_ndctl_ndctl.Command.{is_negative}
use utils_kernel_ndctl_ndctl.Firmware.{
  FwInfo, Firmware, UpdateOptions, is_busy, get_fw_data_from_file, transmitted, unless_failed,
  send_rounds, send_firmware,
}
use utils_kernel_ndctl_ndctl.Firmware.Update.{queried, slept, query_rounds, query_fw_finish_status}

-- The clock and the sleep: `ns` is the time of a state in nanoseconds, which `clock_gettime` reads in
-- seconds, a query does not set it back, and a `nanosleep` that succeeds takes at least as long as it
-- was asked to.
pub record Ticks {S : Type 0} (dev : Firmware S) (ns : S → ℕ) : Type 0 where
  pub read : (s : S) → dev.clock s ≡ inr (ns s / 1000000000)
  pub query_on : (s : S) → ns s ≤ ns (dev.query s).1
  pub sleep_on : (n : ℕ) (s : S) → (dev.sleep n s).0 ≡ none → ns s + n ≤ ns (dev.sleep n s).1

module _ {S : Type 0} (dev : Firmware S) (options : UpdateOptions) (ns : S → ℕ)
    (ticks : Ticks dev ns) where
  unfoldable pub Returns : Option (Ret × S) → Type 0
  Returns o = (rc : Ret) × (s : S) × (o ≡ some (rc, s))

  slept_total :
      (again : S → Option (Ret × S)) (r : Option Errno × S)
      → ((r.0 ≡ none) → Returns (again r.1))
      → Returns (slept dev options again r)
  unfolding Returns
  slept_total again (some e, s) h = (failed e, s, refl)
  slept_total again (none, s) h = h refl

  -- A round at the time `ns s` is the last one, or leaves enough fuel for the next.
  query_rounds_total :
      (fuel : ℕ) (fw : FwInfo) (start : ℕ) (s : S)
      → 1000 ≤ fw.query_interval
      → 0 < fuel
      → start + 1000 * fw.max_query + 2000000001 ≤ ns s + fuel
      → Returns (query_rounds dev options fuel fw (start / 1000000000) s)
  unfolding query_rounds Returns
  query_rounds_total zero fw start s waits h l = elim h [ ]
  query_rounds_total (suc fuel) fw start s waits h l =
      let (rc, status, ver) = (dev.query s).0 in
      let s' = (dev.query s).1 in
      let on = ticks.query_on s in
      elim (Bool-cases (is_negative rc)) [
        | inl bad ↦ rw bad (rc, s', refl)
        | inr good ↦ (elim (Bool-cases (is_busy status)) [
          | inl busy ↦
              (elim (Bool-cases
                (ltb (fw.max_query / 1000000) (ns s' / 1000000000 - start / 1000000000))) [
                  | inl late ↦ rw (good, busy, ticks.read s', late) (_, s', refl)
                  | inr early ↦
                      (let soon : ns s' < start + 1000 * fw.max_query + 2000000000 = ground arith in
                        rw (good, busy, ticks.read s', early)
                          (slept_total
                            (λ t. query_rounds dev options fuel fw (start / 1000000000) t)
                            (dev.sleep (fw.query_interval / 1000) s')
                            (λ e.
                              let slept_on = ticks.sleep_on (fw.query_interval / 1000) s' e in
                              query_rounds_total fuel fw start
                                (dev.sleep (fw.query_interval / 1000) s').1 waits (omega arith)
                                (omega arith))))
                ])
          | inr over ↦
              rw (good, over)
                ((queried dev options status ver s').0, (queried dev options status ver s').1, refl)
        ])
      ]

  pub query_total :
      (fw : FwInfo) (s : S)
      → 1000 ≤ fw.query_interval
      → Returns (query_fw_finish_status dev options fw s)
  unfolding query_fw_finish_status Returns
  query_total fw s waits = elim (Bool-cases dev.query_made) [
    | inl there ↦
        (let rounds =
            query_rounds_total (1000 * fw.max_query + 2000000001) fw (ns s) s waits (omega arith)
              (omega arith) in
          rw (there, ticks.read s) rounds)
    | inr missing ↦ rw missing (_, s, refl)
  ]

  unless_failed_total :
      (rest : Ret → S → Option (Ret × S)) (rc : Ret) (s : S)
      → ((rc : Ret) (s : S) → Returns (rest rc s))
      → Returns (unless_failed dev options rest rc s)
  unfolding Returns
  unless_failed_total rest rc s h = elim (Bool-cases (is_negative rc)) [
    | inl bad ↦ rw bad (rc, s, refl)
    | inr good ↦ rw good (h rc s)
  ]

  send_rounds_total :
      (fuel update_size : ℕ) (file : List ℕ) (copied remain : ℕ) (rc : Ret) (s : S)
      → remain < fuel
      → Returns (send_rounds dev options fuel update_size file copied remain rc s)
  unfolding send_rounds Returns get_fw_data_from_file
  send_rounds_total zero update_size file copied remain rc s h = elim h [ ]
  send_rounds_total (suc fuel) update_size file copied remain rc s h =
      let len = min update_size remain in
      elim (Bool-cases (remain == 0)) [
        | inl all ↦ rw all (rc, s, refl)
        | inr more ↦ (elim (Bool-cases (len == 0 || ltb (length file) len)) [
          | inl short ↦ rw (more, short) (_, s, refl)
          | inr read ↦
              (let less : remain - len < fuel = ground arith in
                let (answer, s') = dev.send copied (take len file) s in
                rw (more, read)
                  (unless_failed_total
                    (λ rc t.
                      send_rounds dev options fuel update_size (drop len file)
                        ((copied + len) % 2 ^ 32) (remain - len) rc t)
                    (transmitted answer) s'
                    (λ rc t.
                      send_rounds_total fuel update_size (drop len file) ((copied + len) % 2 ^ 32)
                        (remain - len) rc t less)))
        ])
      ]

  pub send_firmware_total :
      (fw : FwInfo) (fw_size : ℕ) (file : List ℕ) (s : S)
      → Returns (send_firmware dev options fw fw_size file s)
  unfolding send_firmware Returns
  send_firmware_total fw fw_size file s = elim (Bool-cases dev.buffer) [
    | inl there ↦ rw there (
        send_rounds_total (fw_size % 2 ^ 32 + 1) fw.update_size file 0 (fw_size % 2 ^ 32)
          (failed enxio) s (omega arith))
    | inr missing ↦ rw missing (_, s, refl)
  ]
