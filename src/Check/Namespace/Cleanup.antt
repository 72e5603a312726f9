-- ===== src/Check/Namespace/Cleanup.antt =====
-- `namespace_check` ends, and puts the raw mode of the namespace back.
use mathlib.Core.Option
use utils_kernel_ndctl_ndctl.Prelude.{
  ℕ, zero, suc, ◌≡◌, ◌⊎◌, inl, inr, refl, ◌∙◌, Bool, true, false, not, ◌&&◌, Option, some, none,
  if-cases,
}
use utils_kernel_ndctl_ndctl.Check.Defs.{Errno, Rc, ok, errno, btt, einval, ebusy, BttSb}
use utils_kernel_ndctl_ndctl.Check.Map.{Env}
use utils_kernel_ndctl_ndctl.Check.Media.{Result, err, got, Device, BttChk, btt_info_read_verify}
use utils_kernel_ndctl_ndctl.Check.Recover.{
  btt1_start_offset, btt2_start_offset, recover_at, second_answer, after_first,
  btt_recover_first_sb,
}
use utils_kernel_ndctl_ndctl.Check.Recover.Search.{recover_at-P}
use utils_kernel_ndctl_ndctl.Check.Discover.Usable.{Bounded}
use utils_kernel_ndctl_ndctl.Check.Discover.Chain.{btt_discover_arenas-Chained}
use utils_kernel_ndctl_ndctl.Check.Namespace.{
  Answer, done, failure, positive, Library, Limits, discovered_stage, check_from, reread, recovered,
  second_start, first_start, opened, enabled, in_raw_mode, put_back, with_raw_mode, disabled,
  signalled, namespace_check,
}

-- A computation that ends.
abbrev Ends : {A : Type 0} → Option A → Type 0
Ends {A} o = (a : A) × (o ≡ some a)

-- `!!n`
abbrev pub truth : ℕ → ℕ
truth zero = 0
truth (suc n) = 1

abbrev pub IsFailure : Answer → Type 0
IsFailure a = (rc : Rc) × (a ≡ failure rc)

-- What is asked of the library: that the flag of the raw mode is 0 or 1, that setting it stores the
-- truth of the number or fails and leaves it, and that the other calls leave it.
pub record KeepsMode {S : Type 0} (lib : Library S) : Type 0 where
  pub is_flag : (s : S) → truth (lib.get_raw_mode s) ≡ lib.get_raw_mode s
  pub sets :
      (n : ℕ) (s : S)
      → (lib.get_raw_mode (lib.set_raw_mode n s).1 ≡ truth n)
        ⊎ (IsFailure (lib.set_raw_mode n s).0
            × (lib.get_raw_mode (lib.set_raw_mode n s).1 ≡ lib.get_raw_mode s))
  pub enable_keeps : (s : S) → lib.get_raw_mode (lib.enable s).1 ≡ lib.get_raw_mode s
  pub invalidate_keeps : (s : S) → lib.get_raw_mode (lib.disable_invalidate s) ≡ lib.get_raw_mode s
  pub disable_keeps : (s : S) → lib.get_raw_mode (lib.disable_safe s).1 ≡ lib.get_raw_mode s

-- The raw mode `mode` is there, or setting it has failed.
abbrev pub Restored : {S : Type 0} → Library S → ℕ → S → Type 0
Restored {S} lib mode t =
    (lib.get_raw_mode t ≡ mode)
    ⊎ ((u : S) × IsFailure (lib.set_raw_mode mode u).0 × (lib.get_raw_mode t ≡ lib.get_raw_mode u))

module _ {M : Type 0} (dev : Device M) (bttc : BttChk) (memory : Bool) where
  second-Ends :
      (m : M)
      → Ends (
          Option.map
            (second_answer dev bttc memory)
            (recover_at dev bttc btt2_start_offset memory m))
  second-Ends m =
      let (r, e, t) =
        recover_at-P dev bttc btt2_start_offset m (λ r. Unit {0}) (λ rc ne. tt) (λ sb v. tt)
          memory in
      (second_answer dev bttc memory r, rw e refl)

  after_first-Ends :
      (r : Rc × M)
      → Ends (after_first dev bttc memory r (recover_at dev bttc btt2_start_offset memory))
  after_first-Ends (ok, m) = (_, refl)
  after_first-Ends (errno e, m) = second-Ends m
  after_first-Ends (btt c, m) = second-Ends m

  recover-Ends : (m : M) → Ends (btt_recover_first_sb dev bttc memory m)
  unfolding btt_recover_first_sb
  recover-Ends m =
      let (r, e, t) =
        recover_at-P dev bttc btt1_start_offset m (λ r. Unit {0}) (λ rc ne. tt) (λ sb v. tt)
          memory in
      rw (btt_recover_first_sb, e) (after_first-Ends r)

module _ {S : Type 0} (lib : Library S) (limits : Limits) (env : Env) (bttc : BttChk)
    (bounded : Bounded lib.device bttc) where
  check_from-Ends : (start_off : ℕ) (s : S) → Ends (check_from lib limits env bttc start_off s)
  unfolding check_from
  check_from-Ends start_off s =
      let same : Bounded lib.device (record bttc { start_off = start_off }) = record {
        fits = bounded.fits;
        near = bounded.near;
        small = bounded.small;
        zero_only = bounded.zero_only;
      } in
      let (r, e, t) =
        btt_discover_arenas-Chained lib.device (record bttc { start_off = start_off }) limits.arena
          same limits.discover s in
      (discovered_stage lib limits env r, rw e refl)

  recovered-Ends : (r : Rc × ℕ × S) → Ends (recovered lib limits env bttc r)
  recovered-Ends (ok, start_off, s) = read (btt_info_read_verify lib.device bttc s start_off)
    where
      read : (r : Result BttSb) → Ends (reread lib limits env bttc start_off s r)
      read (err rc) = (_, refl)
      read (got sb) = check_from-Ends start_off s
  recovered-Ends (errno e, start_off, s) = (_, refl)
  recovered-Ends (btt c, start_off, s) = (_, refl)

  second_start-Ends : (s : S) (r : Result BttSb) → Ends (second_start lib limits env bttc s r)
  second_start-Ends s (got sb) = check_from-Ends btt2_start_offset s
  second_start-Ends s (err rc) =
      let (found, e) = recover-Ends lib.device bttc limits.recover s in rw e (recovered-Ends found)

  first_start-Ends : (s : S) (r : Result BttSb) → Ends (first_start lib limits env bttc s r)
  first_start-Ends s (got sb) = check_from-Ends btt1_start_offset s
  first_start-Ends s (err rc) = second_start-Ends s _

  opened-Ends : (s : S) (o : Option Errno) → Ends (opened lib limits env bttc s o)
  opened-Ends s (some e) = (_, refl)
  opened-Ends s none = first_start-Ends s _

  enabled-Ends : (r : Answer × S) → Ends (enabled lib limits env bttc r)
  enabled-Ends (failure rc, s) = (_, refl)
  enabled-Ends (positive n, s) = (_, refl)
  enabled-Ends (done, s) = if-cases Ends limits.sb (λ e. opened-Ends s _) (λ e. (_, refl))

  in_raw_mode-Ends : (r : Answer × S) → Ends (in_raw_mode lib limits env bttc r)
  in_raw_mode-Ends (failure rc, s) = (_, refl)
  in_raw_mode-Ends (positive n, s) = enabled-Ends _
  in_raw_mode-Ends (done, s) = enabled-Ends _

  module _ (keeps : KeepsMode lib) where
    put_back-mode :
        (raw_mode : ℕ) (disabled_flag : Bool) (s : S)
        → truth raw_mode ≡ raw_mode
        → Restored lib raw_mode (put_back lib limits env raw_mode disabled_flag s)
    unfolding put_back
    put_back-mode raw_mode disabled_flag s flag =
        let behind =
          if-cases (λ t. lib.get_raw_mode t ≡ lib.get_raw_mode (lib.set_raw_mode raw_mode s).1)
            disabled_flag
            {x = (lib.enable (lib.disable_invalidate (lib.set_raw_mode raw_mode s).1)).1}
            {y = lib.disable_invalidate (lib.set_raw_mode raw_mode s).1}
            (λ e. keeps.enable_keeps _ ∙ keeps.invalidate_keeps _)
            (λ e. keeps.invalidate_keeps _) in
        elim (keeps.sets raw_mode s) [
          | inl set ↦ inl (behind ∙ set ∙ flag)
          | inr (refused, same) ↦ inr (s, refused, behind ∙ same)
        ]

    -- It ends, and puts the raw mode `mode` back.
    abbrev EndsIn : ℕ → Option (Answer × S) → Type 0
    EndsIn mode o = (r : Answer × S) × (o ≡ some r) × Restored lib mode r.1

    with_raw_mode-EndsIn :
        (disabled_flag : Bool) (s : S)
        → EndsIn (lib.get_raw_mode s) (with_raw_mode lib limits env bttc disabled_flag s)
    unfolding with_raw_mode
    with_raw_mode-EndsIn disabled_flag s =
        let (r, e) = in_raw_mode-Ends (lib.set_raw_mode 1 s) in
        (
          (r.0, put_back lib limits env (lib.get_raw_mode s) disabled_flag r.1),
          rw e refl,
          put_back-mode (lib.get_raw_mode s) disabled_flag r.1 (keeps.is_flag s),
        )

    disabled-EndsIn :
        (mode : ℕ) (r : Answer × S)
        → lib.get_raw_mode r.1 ≡ mode
        → EndsIn mode (disabled lib limits env bttc r)
    disabled-EndsIn mode (done, s) e = rw (← e) (with_raw_mode-EndsIn true s)
    disabled-EndsIn mode (failure rc, s) e = (_, refl, inl e)
    disabled-EndsIn mode (positive n, s) e = (_, refl, inl e)

    signalled-EndsIn :
        (s : S) (o : Option Errno) → EndsIn (lib.get_raw_mode s) (signalled lib limits env bttc s o)
    signalled-EndsIn s (some e) = (_, refl, inl refl)
    signalled-EndsIn s none =
        if-cases (EndsIn (lib.get_raw_mode s)) (bttc.opts.logfix && not bttc.opts.repair)
          (λ e. ((failure (errno einval), s), refl, inl refl))
          (λ e.
            if-cases (EndsIn (lib.get_raw_mode s)) (not (lib.is_active s))
              (λ e. with_raw_mode-EndsIn false s)
              (λ e.
                if-cases (EndsIn (lib.get_raw_mode s)) bttc.opts.force
                  (λ e.
                    disabled-EndsIn (lib.get_raw_mode s) (lib.disable_safe s)
                      (keeps.disable_keeps s))
                  (λ e. ((failure (errno ebusy), s), refl, inl refl))))

    -- On a device as `btt_discover_arenas` wants it, and with a library where the raw mode is a
    -- flag of 0 or 1, setting it stores whether the number is not 0 or fails and leaves it, and
    -- the other calls leave it, `namespace_check` ends, whatever the calls answer. The raw mode of
    -- the namespace is then as it was before, or the call that was to put it back has failed and
    -- the mode is the one before that call.
    pub namespace_check-raw_mode :
        (s : S)
        → (r : Answer × S) × (namespace_check lib limits env bttc s ≡ some r)
          × Restored lib (lib.get_raw_mode s) r.1
    unfolding namespace_check
    namespace_check-raw_mode s =
        if-cases (EndsIn (lib.get_raw_mode s)) limits.bttc (λ e. signalled-EndsIn s _)
          (λ e. (_, refl, inl refl))
