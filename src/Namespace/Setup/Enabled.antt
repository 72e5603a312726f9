-- ===== src/Namespace/Setup/Enabled.antt =====
-- What `setup_namespace` has enabled when it returns 0.
use utils_kernel_ndctl_ndctl.Prelude.{
  ℕ, ◌≡◌, ◌≢◌, ◌⊎◌, inl, inr, refl, Bool, true, false, not, ◌||◌, Option, some, none, List,
  if-cases,
}
use utils_kernel_ndctl_ndctl.Namespace.Params.{
  Mode, fsdax, sector, raw, devdax, unknown, PfnLoc, ParsedParameters,
}
use utils_kernel_ndctl_ndctl.Namespace.Attributes.{same_mode}
use utils_kernel_ndctl_ndctl.Namespace.Checks.{do_setup_pfn, is_pmem}
use utils_kernel_ndctl_ndctl.Namespace.Control.{
  Ret, done, failed, positive, SeedDevice, BttDevice, Control,
}
use utils_kernel_ndctl_ndctl.Namespace.Setup.{
  passed, recover_seed, setup_seed, setup_if, setup_btt, setup_mode, setup_namespace,
}

-- Where the pfn seed is used, and where not.
placed :
    (m : Mode) (loc : PfnLoc)
    → (not (same_mode m fsdax) || is_pmem loc) ≡ true
    → (m ≢ fsdax) ⊎ (loc ≡ PfnLoc.pmem)
placed fsdax PfnLoc.no_loc h = cc
placed fsdax PfnLoc.ram h = cc
placed fsdax PfnLoc.pmem h = inr refl
placed sector loc h = inl (λ e. cc)
placed raw loc h = inl (λ e. cc)
placed devdax loc h = inl (λ e. cc)
placed unknown loc h = inl (λ e. cc)

unplaced :
    (m : Mode) (loc : PfnLoc)
    → (not (same_mode m fsdax) || is_pmem loc) ≡ false
    → (m ≡ fsdax) × (loc ≢ PfnLoc.pmem)
unplaced fsdax PfnLoc.no_loc h = (refl, λ e. cc)
unplaced fsdax PfnLoc.ram h = (refl, λ e. cc)
unplaced fsdax PfnLoc.pmem h = cc
unplaced sector loc h = cc
unplaced raw loc h = cc
unplaced devdax loc h = cc
unplaced unknown loc h = cc

module _ {S : Type 0} where
  -- Behind a call that returned 0, what holds of the rest.
  passed-done :
      (P : Ret × S → Type 0) (g : S → Ret × S) (r : Ret × S)
      → ((t : S) → r ≡ (done, t) → (g t).0 ≡ done → P (g t))
      → (passed g r).0 ≡ done
      → P (passed g r)
  unfolding passed
  passed-done P g (done, t) rest h = rest t refl h
  passed-done P g (failed e, t) rest h = cc
  passed-done P g (positive n, t) rest h = cc

module _ {S N : Type 0} (ctl : Control S N) (force : Bool) (uuid : List ℕ) where
  -- The seed took the namespace, and then its enable was the last call.
  abbrev pub SeededAs : Option (SeedDevice S N) → N → Ret × S → Type 0
  SeededAs o ndns r =
      (dev : SeedDevice S N) × (u : S) × (t : S) × (o ≡ some dev)
      × (dev.set_namespace (some ndns) u ≡ (done, t))
      × (r ≡ dev.enable t)

  -- From the state `v` on, the last call enabled the device that goes with the mode.
  abbrev pub EnabledIn : N → Mode → PfnLoc → S → Ret × S → Type 0
  EnabledIn ndns fsdax loc v r =
      ((((ctl.attributes v ndns).mode ≢ fsdax) ⊎ (loc ≡ PfnLoc.pmem))
        × SeededAs (ctl.pfn_seed v) ndns r)
      ⊎ (((ctl.attributes v ndns).mode ≡ fsdax) × (loc ≢ PfnLoc.pmem) × (r ≡ ctl.enable ndns v))
  EnabledIn ndns devdax loc v r = SeededAs (ctl.dax_seed v) ndns r
  EnabledIn ndns sector loc v r =
      (btt : BttDevice S N) × (u : S) × (t : S) × (ctl.btt_seed v ≡ some btt)
      × (btt.set_namespace ndns u ≡ (done, t))
      × (r ≡ btt.enable t)
  EnabledIn ndns raw loc v r = r ≡ ctl.enable ndns v
  EnabledIn ndns unknown loc v r = r ≡ ctl.enable ndns v

  -- The enforced mode is set before.
  abbrev pub EnabledAs : N → ParsedParameters → Ret × S → Type 0
  EnabledAs ndns p r = (u : S) × EnabledIn ndns p.mode p.loc (ctl.set_enforce_mode ndns p.mode u) r

  recover_seed-done :
      (auto : Bool) (dev : SeedDevice S N) (r : Ret × S)
      → (recover_seed auto dev r).0 ≡ done
      → recover_seed auto dev r ≡ r
  recover_seed-done auto dev (done, t) h = refl
  recover_seed-done true dev (failed e, t) h = cc
  recover_seed-done false dev (failed e, t) h = cc
  recover_seed-done true dev (positive n, t) h = cc
  recover_seed-done false dev (positive n, t) h = cc

  setup_seed-done :
      (always : Bool) (dev : SeedDevice S N) (ndns : N) (p : ParsedParameters) (s : S)
      → (setup_seed ctl force uuid always dev ndns p s).0 ≡ done
      → SeededAs (some dev) ndns (setup_seed ctl force uuid always dev ndns p s)
  unfolding setup_seed
  setup_seed-done always dev ndns p s =
      let P = SeededAs (some dev) ndns in
      passed-done P _ _ (λ t1 e1. passed-done P _ _ (λ t2 e2. passed-done P _ _ (λ t3 e3.
        passed-done P _ _ (λ t4 e4. passed-done P _ _ (λ t5 e5 h.
          (dev, t4, t5, refl, e5, recover_seed-done p.autorecover dev (dev.enable t5) h))))))

  setup_btt-done :
      (o : Option (BttDevice S N)) (ndns : N) (p : ParsedParameters) (v s : S)
      → ctl.btt_seed v ≡ o
      → (setup_btt ctl force uuid o ndns p s).0 ≡ done
      → EnabledIn ndns sector p.loc v (setup_btt ctl force uuid o ndns p s)
  setup_btt-done none ndns p v s e = λ h. cc
  setup_btt-done (some btt) ndns p v s e =
      let P = EnabledIn ndns sector p.loc v in
      passed-done P _ _ (λ t1 e1.
        passed-done P _ _ (λ t2 e2. passed-done P _ _ (λ t e3 h. (btt, t2, t, e, e3, refl))))

  setup_if-done :
      (always : Bool) (o : Option (SeedDevice S N)) (ndns : N) (p : ParsedParameters) (s : S)
      → (setup_if ctl force uuid always o ndns p s).0 ≡ done
      → SeededAs o ndns (setup_if ctl force uuid always o ndns p s)
  setup_if-done always none ndns p s h = cc
  setup_if-done always (some dev) ndns p s h = setup_seed-done always dev ndns p s h

  setup_mode-done :
      (m : Mode) (ndns : N) (p : ParsedParameters) (s : S)
      → (setup_mode ctl force uuid m ndns p s).0 ≡ done
      → EnabledIn ndns m p.loc s (setup_mode ctl force uuid m ndns p s)
  unfolding setup_mode do_setup_pfn
  setup_mode-done fsdax ndns p s =
      if-cases (λ r. r.0 ≡ done → EnabledIn ndns fsdax p.loc s r)
        (not (same_mode (ctl.attributes s ndns).mode fsdax) || is_pmem p.loc)
        {x = setup_if ctl force uuid false (ctl.pfn_seed s) ndns p s} {y = ctl.enable ndns s}
        (λ c h. inl (placed _ p.loc c, setup_if-done false (ctl.pfn_seed s) ndns p s h))
        (λ c h. let (plain, off) = unplaced _ p.loc c in inr (plain, off, refl))
  setup_mode-done devdax ndns p s = setup_if-done true (ctl.dax_seed s) ndns p s
  setup_mode-done sector ndns p s = setup_btt-done (ctl.btt_seed s) ndns p s s refl
  setup_mode-done raw ndns p s = λ h. refl
  setup_mode-done unknown ndns p s = λ h. refl

  -- Where `setup_namespace` returns 0, the enforced mode was set to the one of the parameters, and
  -- the last call has enabled what goes with it. For device-dax it is the dax seed of the region
  -- and for a BTT the BTT seed, which had taken the namespace just before, and the namespace
  -- itself in raw mode. In fsdax mode it is the pfn seed, which had taken the namespace, where the
  -- namespace is in another mode or the memory map is to be placed on the device, and the
  -- namespace itself where neither is so.
  pub setup_namespace-EnabledAs :
      (ndns : N) (p : ParsedParameters) (s : S)
      → (setup_namespace ctl force uuid ndns p s).0 ≡ done
      → EnabledAs ndns p (setup_namespace ctl force uuid ndns p s)
  unfolding setup_namespace
  setup_namespace-EnabledAs ndns p s =
      let P = EnabledAs ndns p in
      passed-done P _ _ (λ t1 e1.
        passed-done P _ _
          (λ t e h. (t, setup_mode-done p.mode ndns p (ctl.set_enforce_mode ndns p.mode t) h)))
