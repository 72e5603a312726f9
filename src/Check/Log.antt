-- ===== src/Check/Log.antt =====
-- The log of an arena: one group of four slots to each lane, two of them in use.
pub mod Order
use utils_kernel_ndctl_ndctl.Prelude.{
  ℕ, zero, suc, ◌+◌, ◌-◌, Bool, ◌&&◌, Option, some, none, List, ◌>>=◌, ltb, ◌==◌, if◌then◌else◌,
  get_elem?, set, length,
}
use utils_kernel_ndctl_ndctl.Check.Defs.{
  Host, LogEntry, LogGroup, Slot, s0, s1, s2, s3, ent, set_seq, ArenaInfo,
}

unfoldable pub log_seq : Host → LogGroup → Slot → ℕ
log_seq host log log_idx = host.le32_to_cpu (ent log log_idx).seq

-- Which of the two slots holds the older entry, 0 or 1, and the group: the caller's copy of a group
-- that was never used gets the sequence number 1 in its first slot.
unfoldable pub btt_log_get_old : Host → Slot → Slot → LogGroup → ℕ × LogGroup
unfolding log_seq
btt_log_get_old host idx0 idx1 log =
    let seq0 = log_seq host log idx0 in
    let seq1 = log_seq host log idx1 in
    if seq0 == 0
    then (0, set_seq log idx0 (host.cpu_to_le32 1))
    else if ltb seq0 seq1
    then (if seq1 - seq0 == 1 then 0 else 1, log)
    else (if seq0 - seq1 == 1 then 1 else 0, log)

-- `a->log_index[i]`, for an `i` of 0 or 1
abbrev pub log_index : ArenaInfo → ℕ → Slot
log_index a zero = a.log_index0
log_index a (suc i) = a.log_index1

-- The newer entry of a lane. `ent` is the address of a local variable in every caller, so the code
-- returns 0; `none` is a read past the mapped log.
unfoldable pub btt_log_read : Host → ArenaInfo → ℕ → Option LogEntry
btt_log_read host a lane = do
  group ← get_elem? a.map.log lane
  let (old, log) = btt_log_get_old host a.log_index0 a.log_index1 group
  some (ent log (log_index a (1 - old)))

-- `memcpy` into the mapped log
unfoldable pub btt_log_group_write : ArenaInfo → ℕ → LogGroup → Option ArenaInfo
btt_log_group_write a lane log =
    if ltb lane (length a.map.log)
    then some (record a { map = record a.map { log = set a.map.log lane log } })
    else none

unfoldable pub ent_is_padding : LogEntry → Bool
ent_is_padding e = e.lba == 0 && e.old_map == 0 && e.new_map == 0 && e.seq == 0
