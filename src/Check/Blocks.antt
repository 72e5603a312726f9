-- ===== src/Check/Blocks.antt =====
-- `btt_check_bitmap`: every internal block is to be referenced exactly once, by the map or the log.
pub mod Marks
pub mod Once
pub mod Decide
use mathlib.Core.Option
use utils_kernel_ndctl_ndctl.Prelude.{
  ℕ, zero, suc, ◌+◌, Bool, true, false, Option, some, none, List, ◌>>=◌, ◌==◌, if◌then◌else◌,
}
use utils_kernel_ndctl_ndctl.Util.Bitmap.{bitmap_alloc, bitmap_set, test_bit, bitmap_full}
use utils_kernel_ndctl_ndctl.Check.Defs.{Host, Rc, ok, errno, btt, enomem, bitmap_error, ArenaInfo}
use utils_kernel_ndctl_ndctl.Check.Log.{btt_log_read}
use utils_kernel_ndctl_ndctl.Check.Map.{Env, btt_map_lookup}

-- A loop of `btt_check_bitmap`: `false` if a block was marked before.
unfoldable pub mark : (ℕ → Option ℕ) → ℕ → ℕ → List ℕ → Option (Bool × List ℕ)
mark block zero i bm = some (true, bm)
mark block (suc n) i bm = do
  b ← block i
  seen ← test_bit b bm
  let next = (do bm' ← bitmap_set bm b 1; mark block n (i + 1) bm')
  if seen == 0 then next else some (false, bm)

-- The block that a lane keeps free.
unfoldable pub free_block : Host → ArenaInfo → ℕ → Option ℕ
free_block host a i = do ent ← btt_log_read host a i; some ent.old_map

-- At `out:` the return code is `BTT_BITMAP_ERROR` unless the loop over the log has set it to 0, which
-- it does in its first round.
unfoldable pub after_log : ArenaInfo → Bool → Rc
after_log a full =
    if full then (if a.nfree == 0 then btt bitmap_error else ok) else btt bitmap_error

unfoldable pub mark_log : Env → ArenaInfo → Bool × List ℕ → Option Rc
mark_log env a (false, bm) = some (btt bitmap_error)
mark_log env a (true, bm) = do
  (fresh, bm') ← mark (free_block env.host a) a.nfree 0 bm
  let end = (do full ← bitmap_full bm' a.internal_nlba; some (after_log a full))
  if fresh then end else some (btt bitmap_error)

unfoldable pub mark_all : Env → ArenaInfo → Option (List ℕ) → Option Rc
mark_all env a none = some (errno enomem)
mark_all env a (some bm) = do
  marked ← mark (btt_map_lookup env.host a) a.external_nlba 0 bm
  mark_log env a marked

unfoldable pub btt_check_bitmap : Env → ArenaInfo → Option Rc
unfolding mark_all
btt_check_bitmap env a = mark_all env a (bitmap_alloc env.memory a.internal_nlba)
