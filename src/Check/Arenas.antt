-- ===== src/Check/Arenas.antt =====
-- The rest of the checks of an arena, the rewriting of its log, and the loop over the arenas.
pub mod Rewrite
pub mod ReadOnly
pub mod Safe
use utils_kernel_ndctl_ndctl.Prelude.{
  ℕ, zero, suc, ◌+◌, Bool, true, false, Option, some, none, List, [], ◌∷◌, ◌>>=◌, if◌then◌else◌,
}
use utils_kernel_ndctl_ndctl.Check.Defs.{
  Host, Rc, ok, errno, btt, enxio, BttSb, ArenaInfo, LogEntry, LogGroup,
}
use utils_kernel_ndctl_ndctl.Check.Log.{btt_log_read, btt_log_group_write}
use utils_kernel_ndctl_ndctl.Check.Map.{Env, synced}
use utils_kernel_ndctl_ndctl.Check.Info.{image, same_words}
use utils_kernel_ndctl_ndctl.Check.Arena.{
  btt_check_log_entries, btt_check_map_entries, btt_check_log_map,
}
use utils_kernel_ndctl_ndctl.Check.Blocks.{btt_check_bitmap}

-- Without --repair nothing is copied, and the message returns 0.
unfoldable pub btt_copy_to_info2 : Env → ArenaInfo → Rc × ArenaInfo
btt_copy_to_info2 env a =
    let a' = record a { map = record a.map { info2 = a.map.info } } in
    if env.opts.repair then (synced (env.sync_info2 a'), a') else (ok, a)

unfoldable pub btt_check_info2 : Env → ArenaInfo → Rc × ArenaInfo
unfolding btt_copy_to_info2
btt_check_info2 env a =
    if same_words (image env.host a.map.info2) (image env.host a.map.info)
    then (ok, a)
    else btt_copy_to_info2 env a

abbrev pub no_entry : LogEntry
no_entry = record { lba = 0; old_map = 0; new_map = 0; seq = 0 }

-- Slot 0 has the current entry with the sequence number 1, the other slots are zeroed.
abbrev pub rewritten : LogEntry → LogGroup
rewritten e = record {
  ent0 = record e { seq = 1 };
  ent1 = no_entry;
  ent2 = no_entry;
  ent3 = no_entry;
}

-- `btt_log_read` returns 0, so that `BTT_LOGFIX_ERR` is never returned.
unfoldable pub rewrite_lanes : Host → ℕ → ℕ → ArenaInfo → Option ArenaInfo
rewrite_lanes host zero i a = some a
rewrite_lanes host (suc n) i a = do
  e ← btt_log_read host a i
  a' ← btt_log_group_write a i (rewritten e)
  rewrite_lanes host n (i + 1) a'

unfoldable pub btt_rewrite_log : Host → ArenaInfo → Option (Rc × ArenaInfo)
btt_rewrite_log host a = do a' ← rewrite_lanes host a.nfree 0 a; some (ok, a')

-- `rc = check(a); if (rc) break;`
abbrev pub proceed : ArenaInfo → Option (Rc × ArenaInfo) → Rc → Option (Rc × ArenaInfo)
proceed a rest ok = rest
proceed a rest (errno e) = some (errno e, a)
proceed a rest (btt c) = some (btt c, a)

-- One round of `btt_check_arenas`, up to its `break`, in stages from the last one back: each stage
-- goes on where its check returned 0.
unfoldable pub bitmap_stage : Env → ArenaInfo → Option (Rc × ArenaInfo)
bitmap_stage env a = do
  rc ← btt_check_bitmap env a
  proceed a (if env.opts.logfix then btt_rewrite_log env.host a else some (ok, a)) rc

unfoldable pub info2_stage : Env → ArenaInfo → Option (Rc × ArenaInfo)
info2_stage env a = let (rc, a') = btt_check_info2 env a in proceed a' (bitmap_stage env a') rc

unfoldable pub log_map_stage : Env → ArenaInfo → Option (Rc × ArenaInfo)
log_map_stage env a = do (rc, a') ← btt_check_log_map env a; proceed a' (info2_stage env a') rc

unfoldable pub check_arena : Env → ArenaInfo → Option (Rc × ArenaInfo)
check_arena env a = do
  log_rc ← btt_check_log_entries env.host a
  let map_stage = (do
    map_rc ← btt_check_map_entries env.host a
    proceed a (log_map_stage env a) map_rc)
  proceed a map_stage log_rc

-- The arenas behind the first one that fails are left as they are.
abbrev pub or_stop :
    Rc × ArenaInfo → List ArenaInfo → Option (Rc × List ArenaInfo) → Option (Rc × List ArenaInfo)
or_stop (ok, a) rest checked = do (rc, rest') ← checked; some (rc, a ∷ rest')
or_stop (errno e, a) rest checked = some (errno enxio, a ∷ rest)
or_stop (btt c, a) rest checked = some (errno enxio, a ∷ rest)

unfoldable pub btt_check_arenas : Env → List ArenaInfo → Option (Rc × List ArenaInfo)
btt_check_arenas env [] = some (ok, [])
btt_check_arenas env (a ∷ rest) =
    let checked = btt_check_arenas env rest in
    do result ← check_arena env a; or_stop result rest checked
