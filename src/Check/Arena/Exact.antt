-- ===== src/Check/Arena/Exact.antt =====
-- When the checks of log and map return 0.
use utils_kernel_ndctl_ndctl.Prelude.{
  ℕ, ◌≤◌, ◌<◌, ◌≡◌, ◌≢◌, ◌↔◌, refl, some, none, ◌>>=◌, arith, Option, get_elem?, length,
  get_elem?_total, Option-cases, inl, inr,
}
use utils_kernel_ndctl_ndctl.Check.Defs.{Host, Rc, ok, errno, btt, ArenaInfo, LogGroup, LogEntry}
use utils_kernel_ndctl_ndctl.Check.Loop.{
  each, each-ok, ok-each, >>ok-eq-ok, each_total, unless_error,
}
use utils_kernel_ndctl_ndctl.Check.Log.Order.{btt_log_read_total}
use utils_kernel_ndctl_ndctl.Check.Log.{log_seq, btt_log_read}
use utils_kernel_ndctl_ndctl.Check.Map.{btt_map_lookup, decode}
use utils_kernel_ndctl_ndctl.Check.Arena.{
  check_lane_seq, check_lane_bounds, check_mapping, btt_check_log_entries, btt_check_map_entries,
}

-- The sequence numbers of the two slots of lane `i` differ, and none is above 3.
pub record SeqOk (host : Host) (a : ArenaInfo) (i : ℕ) : Type 0 where
  pub log : LogGroup
  pub present : get_elem? a.map.log i ≡ some log
  pub differ : log_seq host log a.log_index0 ≢ log_seq host log a.log_index1
  pub first_le : log_seq host log a.log_index0 ≤ 3
  pub second_le : log_seq host log a.log_index1 ≤ 3

-- The newer entry of lane `i` is for an external block, and names internal blocks.
pub record EntryOk (host : Host) (a : ArenaInfo) (i : ℕ) : Type 0 where
  pub entry : LogEntry
  pub read : btt_log_read host a i ≡ some entry
  pub lba_lt : entry.lba < a.external_nlba
  pub old_lt : entry.old_map < a.internal_nlba
  pub new_lt : entry.new_map < a.internal_nlba

-- The lookup of block `i` gives an internal block.
pub record MappingOk (host : Host) (a : ArenaInfo) (i : ℕ) : Type 0 where
  pub mapping : ℕ
  pub lookup : btt_map_lookup host a i ≡ some mapping
  pub mapping_lt : mapping < a.internal_nlba

module _ (host : Host) (a : ArenaInfo) (i : ℕ) where
  check_lane_seq-SeqOk : check_lane_seq host a i ≡ some ok → SeqOk host a i
  unfolding check_lane_seq
  check_lane_seq-SeqOk h = elim (Option-cases (get_elem? a.map.log i)) [
    | inl e ↦ ground arith
    | inr (log, e) ↦
        let h' = rw e at h in
        record {
          log = log;
          present = e;
          differ = ground arith;
          first_le = ground arith;
          second_le = ground arith;
        }
  ]

  SeqOk-check_lane_seq : SeqOk host a i → check_lane_seq host a i ≡ some ok
  unfolding check_lane_seq
  SeqOk-check_lane_seq s = rw s.present (ground (arith, s.differ, s.first_le, s.second_le))

  check_lane_bounds-EntryOk : check_lane_bounds host a i ≡ some ok → EntryOk host a i
  unfolding check_lane_bounds
  check_lane_bounds-EntryOk h = elim (Option-cases (btt_log_read host a i)) [
    | inl e ↦ ground arith
    | inr (entry, e) ↦
        let h' = rw e at h in
        record {
          entry = entry;
          read = e;
          lba_lt = ground arith;
          old_lt = ground arith;
          new_lt = ground arith;
        }
  ]

  EntryOk-check_lane_bounds : EntryOk host a i → check_lane_bounds host a i ≡ some ok
  unfolding check_lane_bounds
  EntryOk-check_lane_bounds s = rw s.read (ground (arith, s.lba_lt, s.old_lt, s.new_lt))

  check_mapping-MappingOk : check_mapping host a i ≡ some ok → MappingOk host a i
  unfolding check_mapping
  check_mapping-MappingOk h = elim (Option-cases (btt_map_lookup host a i)) [
    | inl e ↦ ground arith
    | inr (mapping, e) ↦
        let h' = rw e at h in record { mapping = mapping; lookup = e; mapping_lt = ground arith }
  ]

  MappingOk-check_mapping : MappingOk host a i → check_mapping host a i ≡ some ok
  unfolding check_mapping
  MappingOk-check_mapping s = rw s.lookup (ground (arith, s.mapping_lt))

-- `btt_check_log_entries` returns 0 exactly if in every lane the two sequence numbers differ and are
-- at most 3, and the newer entry is for an external block and names internal blocks, old and new.
pub btt_check_log_entries_iff :
    (host : Host) (a : ArenaInfo)
    → (btt_check_log_entries host a ≡ some ok)
      ↔ ((i : ℕ) → i < a.nfree → SeqOk host a i × EntryOk host a i)
unfolding btt_check_log_entries
btt_check_log_entries_iff host a = (
  λ h i l.
      let both = >>ok-eq-ok (each a.nfree 0 (check_lane_seq host a)) _ h in
      (
        check_lane_seq-SeqOk host a i (each-ok a.nfree 0 _ both.0 i (omega arith) (omega arith)),
        check_lane_bounds-EntryOk host a i
            (each-ok a.nfree 0 _ both.1 i (omega arith) (omega arith)),
      ),
  λ all.
      rw
        (ok-each a.nfree 0 (check_lane_seq host a)
          (λ j p q. SeqOk-check_lane_seq host a j (all j (omega arith)).0))
        (ok-each a.nfree 0 (check_lane_bounds host a)
          (λ j p q. EntryOk-check_lane_bounds host a j (all j (omega arith)).1)),
)

-- `btt_check_map_entries` returns 0 exactly if every external block is mapped to an internal block.
pub btt_check_map_entries_iff :
    (host : Host) (a : ArenaInfo)
    → (btt_check_map_entries host a ≡ some ok)
      ↔ ((i : ℕ) → i < a.external_nlba → MappingOk host a i)
unfolding btt_check_map_entries
btt_check_map_entries_iff host a = (
  λ h i l.
      check_mapping-MappingOk host a i
        (each-ok a.external_nlba 0 _ h i (omega arith) (omega arith)),
  λ all.
      ok-each a.external_nlba 0 (check_mapping host a)
        (λ j p q. MappingOk-check_mapping host a j (all j (omega arith))),
)

-- A step that cannot fail after one that did not.
then_returns :
    {A : Type 0} (m : Option A) (a : A) (f : A → Rc)
    → m ≡ some a
    → (r : Rc) × ((m >>= λ x. some (f x)) ≡ some r)
then_returns none a f e = ground arith
then_returns (some x) a f e = (f x, refl)

lookup_total :
    (host : Host) (a : ArenaInfo) (j : ℕ)
    → j < length a.map.entries
    → (m : ℕ) × (btt_map_lookup host a j ≡ some m)
unfolding btt_map_lookup
lookup_total host a j l =
    let (raw, e) = get_elem?_total a.map.entries j l in (decode (host.le32_to_cpu raw) j, rw e)

-- Where the log and the map are mapped, the two checks return.
pub btt_check_map_entries_total :
    (host : Host) (a : ArenaInfo)
    → a.external_nlba ≤ length a.map.entries
    → (r : Rc) × (btt_check_map_entries host a ≡ some r)
unfolding btt_check_map_entries check_mapping
btt_check_map_entries_total host a mapped =
    each_total a.external_nlba 0 (check_mapping host a)
      λ j p q. let (m, e) = lookup_total host a j (omega arith) in then_returns _ m _ e

log_lane_total :
    (host : Host) (a : ArenaInfo) (j : ℕ)
    → j < length a.map.log
    → (r : Rc) × (check_lane_seq host a j ≡ some r)
unfolding check_lane_seq
log_lane_total host a j l = let (log, e) = get_elem?_total a.map.log j l in then_returns _ log _ e

bounds_lane_total :
    (host : Host) (a : ArenaInfo) (j : ℕ)
    → j < length a.map.log
    → (r : Rc) × (check_lane_bounds host a j ≡ some r)
unfolding check_lane_bounds
bounds_lane_total host a j l =
    let (entry, e) = btt_log_read_total host a j l in then_returns _ entry _ e

pub btt_check_log_entries_total :
    (host : Host) (a : ArenaInfo)
    → a.nfree ≤ length a.map.log
    → (r : Rc) × (btt_check_log_entries host a ≡ some r)
unfolding btt_check_log_entries
btt_check_log_entries_total host a lanes =
    let (r, e) =
      each_total a.nfree 0 (check_lane_seq host a)
        (λ j p q. log_lane_total host a j (omega arith)) in
    let (t, f) =
      each_total a.nfree 0 (check_lane_bounds host a)
        (λ j p q. bounds_lane_total host a j (omega arith)) in
    rw (e, f) (go r t)
  where
    go : (r t : Rc) → (u : Rc) × (unless_error r (some t) ≡ some u)
    go ok t = (t, refl)
    go (errno c) t = (errno c, refl)
    go (btt c) t = (btt c, refl)
