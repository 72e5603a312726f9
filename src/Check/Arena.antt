-- ===== src/Check/Arena.antt =====
-- The checks of one arena, and of all of them.
pub mod Exact
use mathlib.Core.Option
use utils_kernel_ndctl_ndctl.Prelude.{
  ℕ, zero, suc, ◌+◌, Bool, true, false, ◌&&◌, ◌||◌, not, Option, some, none, List, [], ◌∷◌, ◌>>=◌,
  ltb, leb, ◌==◌, if◌then◌else◌, get_elem?, set, length,
}
use utils_kernel_ndctl_ndctl.Util.Bitmap.{bitmap_alloc, bitmap_set, test_bit, bitmap_full}
use utils_kernel_ndctl_ndctl.Check.Defs.{
  Host, Rc, ok, errno, btt, enomem, enxio, log_eql_seq, log_oob_seq, log_oob_lba, log_oob_old,
  log_oob_new, log_map_err, map_oob, bitmap_error, BttSb, ArenaInfo, LogEntry, LogGroup,
}
use utils_kernel_ndctl_ndctl.Check.Loop.{each, ◌>>ok◌}
use utils_kernel_ndctl_ndctl.Check.Log.{log_seq, btt_log_read, btt_log_group_write}
use utils_kernel_ndctl_ndctl.Check.Map.{Env, synced, btt_map_lookup, btt_map_write}

-- Both sequence numbers of one lane.
unfoldable pub check_lane_seq : Host → ArenaInfo → ℕ → Option Rc
check_lane_seq host a i = do
  log ← get_elem? a.map.log i
  let seq0 = log_seq host log a.log_index0
  let seq1 = log_seq host log a.log_index1
  some (
      if seq0 == seq1
      then btt log_eql_seq
      else if ltb 3 seq0 || ltb 3 seq1
      then btt log_oob_seq
      else ok)

-- The bounds of the newer entry of one lane.
unfoldable pub check_lane_bounds : Host → ArenaInfo → ℕ → Option Rc
check_lane_bounds host a i = do
  ent ← btt_log_read host a i
  some (
      if leb a.external_nlba ent.lba
      then btt log_oob_lba
      else if leb a.internal_nlba ent.old_map
      then btt log_oob_old
      else if leb a.internal_nlba ent.new_map
      then btt log_oob_new
      else ok)

unfoldable pub btt_check_log_entries : Host → ArenaInfo → Option Rc
btt_check_log_entries host a =
    each a.nfree 0 (check_lane_seq host a) >>ok each a.nfree 0 (check_lane_bounds host a)

-- One entry of the map.
unfoldable pub check_mapping : Host → ArenaInfo → ℕ → Option Rc
check_mapping host a i = do
  mapping ← btt_map_lookup host a i
  some (if leb a.internal_nlba mapping then btt map_oob else ok)

unfoldable pub btt_check_map_entries : Host → ArenaInfo → Option Rc
btt_check_map_entries host a = each a.external_nlba 0 (check_mapping host a)

abbrev pub is_error : Rc → Bool
is_error ok = false
is_error (errno e) = true
is_error (btt c) = true

-- One lane: the map entry that the log says was not updated. The flag is `rc_saved != 0`.
unfoldable pub update_lane : Env → ℕ → ArenaInfo → Bool → Option (Bool × ArenaInfo)
update_lane env i a saved = do
  ent ← btt_log_read env.host a i
  mapping ← btt_map_lookup env.host a ent.lba
  let write = (do
    (rc, a') ← btt_map_write env a ent.lba ent.new_map
    some (saved || is_error rc, a'))
  if not (ent.new_map == mapping) && ent.old_map == mapping then write else some (saved, a)

unfoldable pub update_lanes : Env → ℕ → ℕ → ArenaInfo → Bool → Option (Bool × ArenaInfo)
update_lanes env zero i a saved = some (saved, a)
update_lanes env (suc n) i a saved = do
  (saved', a') ← update_lane env i a saved
  update_lanes env n (i + 1) a' saved'

unfoldable pub btt_check_log_map : Env → ArenaInfo → Option (Rc × ArenaInfo)
btt_check_log_map env a = do
  (saved, a') ← update_lanes env a.nfree 0 a false
  some (if saved then btt log_map_err else ok, a')
