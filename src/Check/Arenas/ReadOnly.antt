-- ===== src/Check/Arenas/ReadOnly.antt =====
-- Without `--repair` the checks write nothing.
use utils_kernel_ndctl_ndctl.Prelude.{
  ℕ, zero, suc, ◌+◌, ◌≡◌, refl, false, not, ◌&&◌, some, none, ◌>>=◌, if◌then◌else◌, arith, Bool,
  Option, List, [], ◌∷◌, ◌==◌, Option-cases, inl, inr, Bool-cases,
}
use utils_kernel_ndctl_ndctl.Check.Defs.{Rc, ok, errno, btt, log_map_err, ArenaInfo}
use utils_kernel_ndctl_ndctl.Check.Log.{btt_log_read}
use utils_kernel_ndctl_ndctl.Check.Map.{Env, btt_map_lookup, btt_map_write}
use utils_kernel_ndctl_ndctl.Check.Arena.{
  update_lane, update_lanes, btt_check_log_entries, btt_check_map_entries, btt_check_log_map,
}
use utils_kernel_ndctl_ndctl.Check.Blocks.{btt_check_bitmap}
use utils_kernel_ndctl_ndctl.Check.Arenas.{
  btt_check_info2, proceed, or_stop, check_arena, bitmap_stage, info2_stage, log_map_stage,
  btt_check_arenas,
}

-- Every result leaves the arena as it is.
abbrev Keeps : {R : Type 0} → ArenaInfo → Option (R × ArenaInfo) → Type 0
Keeps a none = Unit
Keeps a (some (r, a')) = a' ≡ a

proceed-Keeps :
    (a : ArenaInfo) (rest : Option (Rc × ArenaInfo)) (rc : Rc)
    → Keeps a rest
    → Keeps a (proceed a rest rc)
proceed-Keeps a rest ok h = h
proceed-Keeps a rest (errno e) h = refl
proceed-Keeps a rest (btt c) h = refl

bind-Keeps :
    {R : Type 0} (a : ArenaInfo) (m : Option R) (f : R → Option (Rc × ArenaInfo))
    → ((r : R) → Keeps a (f r))
    → Keeps a (m >>= f)
bind-Keeps a none f h = tt
bind-Keeps a (some r) f h = h r

module _ (env : Env) (read_only : env.opts.repair ≡ false) where
  update_lane-Keeps : (i : ℕ) (a : ArenaInfo) (saved : Bool) → Keeps a (update_lane env i a saved)
  unfolding update_lane btt_map_write
  update_lane-Keeps i a saved = elim (Option-cases (btt_log_read env.host a i)) [
    | inl e ↦ rw e tt
    | inr (entry, e) ↦ elim (Option-cases (btt_map_lookup env.host a entry.lba)) [
      | inl f ↦ rw e (rw f tt)
      | inr (mapping, f) ↦
          elim (Bool-cases (not (entry.new_map == mapping) && entry.old_map == mapping)) [
            | inl t ↦ rw e (rw f (rw t (rw read_only refl)))
            | inr t ↦ rw e (rw f (rw t refl))
          ]
    ]
  ]

  update_lanes-Keeps :
      (n i : ℕ) (a : ArenaInfo) (saved : Bool) → Keeps a (update_lanes env n i a saved)
  unfolding update_lanes
  update_lanes-Keeps zero i a saved = refl
  update_lanes-Keeps (suc n) i a saved =
      go (update_lane env i a saved) (update_lane-Keeps i a saved) (update_lanes-Keeps n (i + 1) a)
    where
      go :
          (o : Option (Bool × ArenaInfo))
          → Keeps a o
          → ((s : Bool) → Keeps a (update_lanes env n (i + 1) a s))
          → Keeps a (o >>= λ r. update_lanes env n (i + 1) r.1 r.0)
      go none h rest = tt
      go (some (s, a')) h rest = rw h (rest s)

  check_log_map-Keeps : (a : ArenaInfo) → Keeps a (btt_check_log_map env a)
  unfolding btt_check_log_map
  check_log_map-Keeps a =
      go (update_lanes env a.nfree 0 a false) (update_lanes-Keeps a.nfree 0 a false)
    where
      go :
          (o : Option (Bool × ArenaInfo))
          → Keeps a o
          → Keeps a (o >>= λ r. some (if r.0 then btt log_map_err else ok, r.1))
      go none h = tt
      go (some (s, a')) h = h

  check_info2_same : (a : ArenaInfo) → (btt_check_info2 env a).1 ≡ a
  unfolding btt_check_info2
  check_info2_same a = ground arith

  module _ (no_fix : env.opts.logfix ≡ false) where
    bitmap_stage-Keeps : (a : ArenaInfo) → Keeps a (bitmap_stage env a)
    unfolding bitmap_stage
    bitmap_stage-Keeps a =
        bind-Keeps a (btt_check_bitmap env a) _ λ r. proceed-Keeps a _ r (rw no_fix refl)

    info2_stage-Keeps : (a : ArenaInfo) → Keeps a (info2_stage env a)
    unfolding info2_stage
    info2_stage-Keeps a =
        rw (check_info2_same a)
          (proceed-Keeps a (bitmap_stage env a) (btt_check_info2 env a).0 (bitmap_stage-Keeps a))

    log_map_stage-Keeps : (a : ArenaInfo) → Keeps a (log_map_stage env a)
    unfolding log_map_stage
    log_map_stage-Keeps a = go (btt_check_log_map env a) (check_log_map-Keeps a)
      where
        go :
            (o : Option (Rc × ArenaInfo))
            → Keeps a o
            → Keeps a (o >>= λ r. proceed r.1 (info2_stage env r.1) r.0)
        go none h = tt
        go (some (rc, a')) h = rw h (proceed-Keeps a (info2_stage env a) rc (info2_stage-Keeps a))

    check_arena-Keeps : (a : ArenaInfo) → Keeps a (check_arena env a)
    unfolding check_arena
    check_arena-Keeps a = bind-Keeps a (btt_check_log_entries env.host a) _ λ r.
        proceed-Keeps a _ r (
          bind-Keeps a (btt_check_map_entries env.host a) _
            λ q. proceed-Keeps a _ q (log_map_stage-Keeps a))

    check_arenas_same :
        (arenas : List ArenaInfo) (rc : Rc) (arenas' : List ArenaInfo)
        → btt_check_arenas env arenas ≡ some (rc, arenas')
        → arenas' ≡ arenas
    unfolding btt_check_arenas
    check_arenas_same [] rc arenas' h = ground arith
    check_arenas_same (a ∷ rest) rc arenas' h =
        go (check_arena env a) (check_arena-Keeps a) (btt_check_arenas env rest)
          (check_arenas_same rest) h
      where
        go :
            (o : Option (Rc × ArenaInfo))
            → Keeps a o
            → (p : Option (Rc × List ArenaInfo))
            → ((rc : Rc) (arenas' : List ArenaInfo) → p ≡ some (rc, arenas') → arenas' ≡ rest)
            → (o >>= λ r. or_stop r rest p) ≡ some (rc, arenas')
            → arenas' ≡ a ∷ rest
        go none k p ih e = ground arith
        go (some (ok, a1)) k none ih e = ground arith
        go (some (ok, a1)) k (some (rc1, arenas1)) ih e = ground (arith, ih rc1 arenas1 refl)
        go (some (errno c, a1)) k p ih e = ground arith
        go (some (btt c, a1)) k p ih e = ground arith

-- With neither --repair nor --rewrite-log, whatever `btt_check_arenas` returns, the arenas are as
-- they were.
pub btt_check_arenas_read_only :
    (env : Env) (arenas : List ArenaInfo) (rc : Rc) (arenas' : List ArenaInfo)
    → env.opts.repair ≡ false
    → env.opts.logfix ≡ false
    → btt_check_arenas env arenas ≡ some (rc, arenas')
    → arenas' ≡ arenas
btt_check_arenas_read_only env arenas rc arenas' read_only no_fix h =
    check_arenas_same env read_only no_fix arenas rc arenas' h
