-- ===== src/Check/Log/Order.antt =====
-- Sequence numbers run 1, 2, 3, 1, …: which entry of a lane is the newer one.
use utils_kernel_ndctl_ndctl.Prelude.{
  ℕ, ◌+◌, ◌-◌, ◌≤◌, ◌<◌, ◌≡◌, ◌≢◌, ◌⊎◌, ◌==◌, some, if◌then◌else◌, arith, inl, inr, get_elem?_total,
  length, Bool-cases,
}
use utils_kernel_ndctl_ndctl.Check.Defs.{Host, LogGroup, LogEntry, Slot, ent, ArenaInfo}
use utils_kernel_ndctl_ndctl.Check.Log.{log_seq, btt_log_get_old, btt_log_read, log_index}

-- The number that the next write of a lane uses.
abbrev pub next_seq : ℕ → ℕ
next_seq s = if s == 3 then 1 else s + 1

module _ (host : Host) (i0 i1 : Slot) (log : LogGroup) where
  -- When the sequence numbers of the two slots lie from 1 to 3 and differ, the slot reported as old
  -- is the one whose number comes right before the other's, and the group is left as it is.
  pub btt_log_get_old-next :
      1 ≤ log_seq host log i0
      → log_seq host log i0 ≤ 3
      → 1 ≤ log_seq host log i1
      → log_seq host log i1 ≤ 3
      → log_seq host log i0 ≢ log_seq host log i1
      → ((btt_log_get_old host i0 i1 log ≡ (0, log))
          × (log_seq host log i1 ≡ next_seq (log_seq host log i0)))
        ⊎ ((btt_log_get_old host i0 i1 log ≡ (1, log))
            × (log_seq host log i0 ≡ next_seq (log_seq host log i1)))
  unfolding btt_log_get_old
  btt_log_get_old-next p q r s ne =
      elim (Bool-cases (log_seq host log i1 == next_seq (log_seq host log i0))) [
        | inl after ↦ inl (ground arith, ground arith)
        | inr before ↦ inr (ground arith, ground arith)
      ]

-- Within the mapped log every lane can be read.
pub btt_log_read_total :
    (host : Host) (a : ArenaInfo) (i : ℕ)
    → i < length a.map.log
    → (e : LogEntry) × (btt_log_read host a i ≡ some e)
unfolding btt_log_read
btt_log_read_total host a i l =
    let (log, at) = get_elem?_total a.map.log i l in
    let (old, log') = btt_log_get_old host a.log_index0 a.log_index1 log in
    (ent log' (log_index a (1 - old)), rw at)
