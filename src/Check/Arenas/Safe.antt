-- ===== src/Check/Arenas/Safe.antt =====
-- The checks never leave the mappings: what is checked first keeps what is read later in bounds.
mod Sound
use mathlib.Core.Option
use Sound.{IsSound, update_lanes-IsSound, btt_check_info2-IsSound}
use utils_kernel_ndctl_ndctl.Prelude.{
  ℕ, zero, suc, ◌+◌, ◌-◌, ◌*◌, ◌/◌, ◌^◌, ◌≤◌, ◌<◌, ◌≡◌, ◌≢◌, ◌⊎◌, refl, true, false, some, none,
  ◌>>=◌, if◌then◌else◌, arith, Bool, Option, List, [], ◌∷◌, length, replicate, length-replicate,
  ltb, leb, Option-cases, Bool-cases, inl, inr, get_elem?, get_elem?_total, set, lt→ltb, length-set,
  ◌==◌,
}
use utils_kernel_ndctl_ndctl.Util.Bitmap.{bitmap_alloc, bitmap_full}
use utils_kernel_ndctl_ndctl.Util.Bitmap.Words.{replicate-IsWords, IsWords}
use utils_kernel_ndctl_ndctl.Util.Bitmap.Find.{bitmap_full_lem}
use utils_kernel_ndctl_ndctl.Check.Defs.{
  Host, Rc, ok, errno, btt, enomem, enxio, bitmap_error, ArenaInfo,
}
use utils_kernel_ndctl_ndctl.Check.Log.{btt_log_read, btt_log_group_write}
use utils_kernel_ndctl_ndctl.Check.Log.Order.{btt_log_read_total}
use utils_kernel_ndctl_ndctl.Check.Map.{Env, btt_map_lookup}
use utils_kernel_ndctl_ndctl.Check.Map.Entry.{RoundTrips32}
use utils_kernel_ndctl_ndctl.Check.Arena.Exact.{
  EntryOk, MappingOk, btt_check_log_entries_iff, btt_check_map_entries_iff,
  btt_check_log_entries_total, btt_check_map_entries_total,
}
use utils_kernel_ndctl_ndctl.Check.Arena.{
  btt_check_log_entries, btt_check_map_entries, btt_check_log_map,
}
use utils_kernel_ndctl_ndctl.Check.Blocks.{
  mark, free_block, after_log, mark_log, mark_all, btt_check_bitmap,
}
use utils_kernel_ndctl_ndctl.Check.Blocks.Marks.{mark_lem}
use utils_kernel_ndctl_ndctl.Check.Arenas.{
  rewritten, rewrite_lanes, btt_rewrite_log, btt_check_info2, btt_copy_to_info2, proceed, or_stop,
  bitmap_stage, info2_stage, log_map_stage, check_arena, btt_check_arenas,
}

-- The value of a read that does not fault.
abbrev value : Option ℕ → ℕ
value none = 0
value (some v) = v

-- A loop over blocks that are in bounds returns, with the bitmap still as long.
mark_total :
    (block : ℕ → Option ℕ) (size n : ℕ) (bm : List ℕ)
    → ((j : ℕ) → j < n → (b : ℕ) × (block j ≡ some b) × (b < size))
    → IsWords bm
    → size ≤ 64 * length bm
    → (t : Bool) × (bm' : List ℕ) × (mark block n 0 bm ≡ some (t, bm'))
      × IsWords bm'
      × (size ≤ 64 * length bm')
mark_total block size n bm good words room =
    let (t, bm', e, words', len, _) =
      mark_lem block (λ j. value (block j)) size n (λ j l. let (b, r, _) = good j l in rw r)
        (λ j l. let (b, r, s) = good j l in rw r s) n 0 bm (omega arith) words room in
    (t, bm', e, words', omega (arith, len))

module _ (env : Env) (a : ArenaInfo) (h : IsSound env.host a) where
  mark_log_total :
      (t : Bool) (bm : List ℕ)
      → IsWords bm
      → a.internal_nlba ≤ 64 * length bm
      → (r : Rc) × (mark_log env a (t, bm) ≡ some r)
  unfolding mark_log
  mark_log_total false bm words room = (btt bitmap_error, refl)
  mark_log_total true bm words room =
      let (t, bm', e, words', room') =
        mark_total (free_block env.host a) a.internal_nlba a.nfree bm
          (λ j l.
            let k = h.entries j l in (k.entry.old_map, unfold free_block in rw k.read, k.old_lt))
          words room in
      let (b, f, _) = bitmap_full_lem bm' a.internal_nlba words' room' in rw e (go t b bm' f)
    where
      go :
          (t b : Bool) (bm' : List ℕ)
          → bitmap_full bm' a.internal_nlba ≡ some b
          → (r : Rc) × ((if t
                then (do full ← bitmap_full bm' a.internal_nlba; some (after_log a full))
                else some (btt bitmap_error))
              ≡ some r)
      go false b bm' f = (btt bitmap_error, refl)
      go true b bm' f = (after_log a b, rw f)

  mark_all_total :
      (memory : Bool) → (r : Rc) × (mark_all env a (bitmap_alloc memory a.internal_nlba) ≡ some r)
  unfolding mark_all bitmap_alloc
  mark_all_total false = (errno enomem, refl)
  mark_all_total true =
      let count = (a.internal_nlba + 63) / 64 in
      let bm0 : List ℕ = replicate count 0 in
      let (t, bm1, e, words1, room1) =
        mark_total (btt_map_lookup env.host a) a.internal_nlba a.external_nlba bm0
          (λ j l. let k = h.mappings j l in (k.mapping, k.lookup, k.mapping_lt))
          (replicate-IsWords count) (omega (arith, length-replicate {A = ℕ} count 0)) in
      let (r, f) = mark_log_total t bm1 words1 room1 in (r, rw e f)

  btt_check_bitmap_total : (r : Rc) × (btt_check_bitmap env a ≡ some r)
  unfolding btt_check_bitmap
  btt_check_bitmap_total = mark_all_total env.memory

  rewrite_lanes_total :
      (n i : ℕ) (a1 : ArenaInfo)
      → i + n ≤ length a1.map.log
      → (a' : ArenaInfo) × (rewrite_lanes env.host n i a1 ≡ some a')
  unfolding rewrite_lanes btt_log_group_write
  rewrite_lanes_total zero i a1 l = (a1, refl)
  rewrite_lanes_total (suc n) i a1 l =
      let (e, r) = btt_log_read_total env.host a1 i (omega arith) in
      let log' = set a1.map.log i (rewritten e) in
      let a2 = record a1 { map = record a1.map { log = log' } } in
      let (a', f) =
        rewrite_lanes_total n (i + 1) a2 (omega (arith, length-set a1.map.log i (rewritten e))) in
      (a', rw r (rw (lt→ltb i (length a1.map.log) (omega arith)) f))

-- A stage returns.
abbrev Returns : Option (Rc × ArenaInfo) → Type 0
Returns o = (r : Rc × ArenaInfo) × (o ≡ some r)

proceed_total :
    (a : ArenaInfo) (rest : Option (Rc × ArenaInfo)) (rc : Rc)
    → Returns rest
    → Returns (proceed a rest rc)
proceed_total a rest ok h = h
proceed_total a rest (errno e) h = ((errno e, a), refl)
proceed_total a rest (btt c) h = ((btt c, a), refl)

module _ (env : Env) (trips : RoundTrips32 env.host) where
  bitmap_stage_total : (a : ArenaInfo) → IsSound env.host a → Returns (bitmap_stage env a)
  unfolding bitmap_stage btt_rewrite_log
  bitmap_stage_total a h =
      let (rc, e) = btt_check_bitmap_total env a h in
      let (a', f) = rewrite_lanes_total env a h a.nfree 0 a (omega (arith, h.lanes)) in
      rw e (
        proceed_total a _ rc (elim (Bool-cases env.opts.logfix) [
          | inl on ↦ ((ok, a'), simp (on, f))
          | inr off ↦ ((ok, a), simp off)
        ]))

  info2_stage_total : (a : ArenaInfo) → IsSound env.host a → Returns (info2_stage env a)
  unfolding info2_stage
  info2_stage_total a h =
      let (rc, a') = btt_check_info2 env a in
      proceed_total a' (bitmap_stage env a') rc
        (bitmap_stage_total a' (btt_check_info2-IsSound env a h))

  log_map_stage_total : (a : ArenaInfo) → IsSound env.host a → Returns (log_map_stage env a)
  unfolding log_map_stage btt_check_log_map
  log_map_stage_total a h =
      let (saved, a', e, sound) =
        update_lanes-IsSound env trips a.nfree 0 a false h (omega arith) in
      rw e (proceed_total a' (info2_stage env a') _ (info2_stage_total a' sound))

  map_stage_total :
      (a : ArenaInfo)
      → a.nfree ≤ length a.map.log
      → a.external_nlba ≤ length a.map.entries
      → a.internal_nlba ≤ 2 ^ 32
      → btt_check_log_entries env.host a ≡ some ok
      → Returns
          (do map_rc ← btt_check_map_entries env.host a; proceed a (log_map_stage env a) map_rc)
  map_stage_total a lanes mapped narrow logs =
      let (rc, e) = btt_check_map_entries_total env.host a mapped in rw e (go rc e)
    where
      go :
          (rc : Rc)
          → btt_check_map_entries env.host a ≡ some rc
          → Returns (proceed a (log_map_stage env a) rc)
      go (errno c) e = ((errno c, a), refl)
      go (btt c) e = ((btt c, a), refl)
      go ok e = log_map_stage_total a (record {
        lanes = lanes;
        mapped = mapped;
        narrow = narrow;
        entries = λ i l. ((btt_check_log_entries_iff env.host a).0 logs i l).1;
        mappings = λ i l. (btt_check_map_entries_iff env.host a).0 e i l;
      })

  check_arena_total :
      (a : ArenaInfo)
      → a.nfree ≤ length a.map.log
      → a.external_nlba ≤ length a.map.entries
      → a.internal_nlba ≤ 2 ^ 32
      → Returns (check_arena env a)
  unfolding check_arena
  check_arena_total a lanes mapped narrow =
      let (rc, e) = btt_check_log_entries_total env.host a lanes in rw e (go rc e)
    where
      go :
          (rc : Rc)
          → btt_check_log_entries env.host a ≡ some rc
          → Returns (
              proceed a
                (do
                  map_rc ← btt_check_map_entries env.host a
                  proceed a (log_map_stage env a) map_rc)
                rc)
      go (errno c) e = ((errno c, a), refl)
      go (btt c) e = ((btt c, a), refl)
      go ok e = map_stage_total a lanes mapped narrow e

-- The lanes and the map entries that an arena counts are mapped, and its blocks are numbered by 32
-- bits.
pub record IsMapped (a : ArenaInfo) : Type 0 where
  pub lanes : a.nfree ≤ length a.map.log
  pub entries : a.external_nlba ≤ length a.map.entries
  pub narrow : a.internal_nlba ≤ 2 ^ 32

-- Every arena of the list is mapped.
abbrev pub AllMapped : List ArenaInfo → Type 0
AllMapped [] = Unit
AllMapped (a ∷ rest) = IsMapped a × AllMapped rest

-- On a byte order that round trips, `btt_check_arenas` on mapped arenas returns: whatever the log,
-- the map and the info blocks hold, no check reads or writes outside a mapping or the bitmap, and
-- every loop ends.
pub btt_check_arenas_total :
    (env : Env) (arenas : List ArenaInfo)
    → RoundTrips32 env.host
    → AllMapped arenas
    → (rc : Rc) × (arenas' : List ArenaInfo) × (btt_check_arenas env arenas ≡ some (rc, arenas'))
unfolding btt_check_arenas
btt_check_arenas_total env [] trips h = (ok, [], refl)
btt_check_arenas_total env (a ∷ rest) trips h =
    let ((rc, a'), e) = check_arena_total env trips a h.0.lanes h.0.entries h.0.narrow in
    let (rc2, rest', f) = btt_check_arenas_total env rest trips h.1 in
    rw (e, f) (go rc a' rc2 rest')
  where
    go :
        (rc : Rc) (a' : ArenaInfo) (rc2 : Rc) (rest' : List ArenaInfo)
        → (r : Rc) × (out : List ArenaInfo) × (or_stop (rc, a') rest (some (rc2, rest'))
            ≡ some (r, out))
    go ok a' rc2 rest' = (rc2, a' ∷ rest', refl)
    go (errno c) a' rc2 rest' = (errno enxio, a' ∷ rest, refl)
    go (btt c) a' rc2 rest' = (errno enxio, a' ∷ rest, refl)
