-- ===== src/Namespace/Reconfig/Refused.antt =====
-- What a refused or failed command leaves of the state.
use mathlib.Core.Option.{some-injective}
use mathlib.Core.Path.{subst}
use utils_kernel_ndctl_ndctl.Prelude.{
  ℕ, ◌≡◌, ◌⊎◌, inl, inr, refl, sym, Bool, true, false, not, Option, some, none, List, Bool-cases,
  if-cases, ◌∙◌,
}
use utils_kernel_ndctl_ndctl.Check.Defs.{Errno, enxio, ebusy}
use utils_kernel_ndctl_ndctl.Namespace.Params.{Libc, raw, Parameters, ParsedParameters}
use utils_kernel_ndctl_ndctl.Namespace.Attributes.{
  Outcome, refused, retry_with, fault, accepted, eagain,
}
use utils_kernel_ndctl_ndctl.Namespace.Validate.{validate_namespace_options}
use utils_kernel_ndctl_ndctl.Namespace.Validate.Accepted.{autorecover_kept}
use utils_kernel_ndctl_ndctl.Namespace.Control.{Ret, done, failed, positive, Control}
use utils_kernel_ndctl_ndctl.Namespace.Labels.{Labels}
use utils_kernel_ndctl_ndctl.Namespace.Setup.{setup_namespace}
use utils_kernel_ndctl_ndctl.Namespace.Reconfig.{
  namespace_prep_reconfig, namespace_destroy, namespace_create, create_with, create_at,
  create_recover, region_get_namespace, namespace_reconfig, reconfig_valid,
}

module _ {S N : Type 0} (ctl : Control S N) (force : Bool) (uuid : List ℕ) where
  -- What a command that returns something else than 0 leaves: what was there, or, where the setup of
  -- the namespace that was found gave that answer, this namespace was deleted last.
  abbrev pub Undone : Outcome ParsedParameters → S → Ret × S → Type 0
  Undone m s r =
      (r.0 ≡ done)
      ⊎ (r.1 ≡ s)
      ⊎ ((ndns : N) × (p : ParsedParameters) × (t : S) × (m ≡ accepted p)
          × (region_get_namespace ctl force uuid s ≡ some ndns)
          × (setup_namespace ctl force uuid ndns p s ≡ (r.0, t))
          × (r.1 ≡ (ctl.delete ndns (ctl.set_enforce_mode ndns raw t)).1))

  create_recover-Undone :
      (ndns : N) (p : ParsedParameters) (s : S) (auto : Bool) (r : Ret × S)
      → auto ≡ true
      → region_get_namespace ctl force uuid s ≡ some ndns
      → setup_namespace ctl force uuid ndns p s ≡ r
      → Undone (accepted p) s (create_recover ctl force uuid ndns auto r)
  create_recover-Undone ndns p s true (done, t) e found set = inl refl
  create_recover-Undone ndns p s true (failed c, t) e found set =
      inr (inr (ndns, p, t, refl, found, set, refl))
  create_recover-Undone ndns p s true (positive n, t) e found set =
      inr (inr (ndns, p, t, refl, found, set, refl))
  create_recover-Undone ndns p s false r e found set = cc

  create_at-Undone :
      (p : ParsedParameters) (o : Option N) (s : S)
      → p.autorecover ≡ true
      → region_get_namespace ctl force uuid s ≡ o
      → Undone (accepted p) s (create_at ctl force uuid p o s)
  create_at-Undone p none s auto found = inr (inl refl)
  create_at-Undone p (some ndns) s auto found =
      let set = setup_namespace ctl force uuid ndns p s in
      if-cases (Undone (accepted p) s) (not (ctl.is_configuration_idle s ndns))
        {x = (failed eagain, s)} {y = create_recover ctl force uuid ndns p.autorecover set}
        (λ c. inr (inl refl))
        (λ c. create_recover-Undone ndns p s p.autorecover set auto found refl)

  create_with-Undone :
      (s : S) (m : Outcome ParsedParameters) (r : Ret × S)
      → ((p : ParsedParameters) → m ≡ accepted p → p.autorecover ≡ true)
      → create_with ctl force uuid s m ≡ some r
      → Undone m s r
  create_with-Undone s (refused e) r auto h = rw (sym (some-injective _ _ h)) (inr (inl refl))
  create_with-Undone s (retry_with e n) r auto h = rw (sym (some-injective _ _ h)) (inr (inl refl))
  create_with-Undone s fault r auto h = cc
  create_with-Undone s (accepted p) r auto h =
      let made = create_at ctl force uuid p (region_get_namespace ctl force uuid s) s in
      subst (Undone (accepted p) s) (some-injective _ _ h) (
        if-cases (Undone (accepted p) s) (ctl.is_ro s) {x = (failed eagain, s)} {y = made}
          (λ c. inr (inl refl))
          (λ c. create_at-Undone p (region_get_namespace ctl force uuid s) s (auto p refl) refl))

  -- With autorecover, which is the default: where `namespace_create` returns something else than
  -- 0, it has changed nothing, or that is what the setup of the namespace found for the valid
  -- parameters returned, and what was done last is to put this namespace into the raw mode and to
  -- delete it.
  pub namespace_create-Undone :
      (libc : Libc) (param : Parameters) (s : S) (r : Ret × S)
      → param.autorecover ≡ true
      → namespace_create ctl force uuid libc param s ≡ some r
      → Undone (validate_namespace_options libc param (ctl.region s) none) s r
  unfolding namespace_create
  namespace_create-Undone libc param s r auto h =
      create_with-Undone s (validate_namespace_options libc param (ctl.region s) none) r
        (λ p e. (autorecover_kept libc param (ctl.region s) none p e) ∙ auto) h

  abbrev pub Guarded : N → S → Type 0
  Guarded ndns s = (ctl.is_ro s ≡ true) ⊎ ((ctl.is_active s ndns ≡ true) × (force ≡ false))

  prep-Guarded :
      (ndns : N) (s : S)
      → Guarded ndns s
      → (e : Errno) × (namespace_prep_reconfig ctl force uuid ndns s ≡ (failed e, s))
  unfolding namespace_prep_reconfig
  prep-Guarded ndns s (inl ro) = (enxio, rw ro refl)
  prep-Guarded ndns s (inr (active, careful)) = elim (Bool-cases (ctl.is_ro s)) [
    | inl ro ↦ (enxio, rw ro refl)
    | inr writable ↦ (ebusy, rw (writable, active, careful) refl)
  ]

  destroy-Guarded :
      (ndns : N) (s : S)
      → Guarded ndns s
      → (e : Errno) × (namespace_destroy ctl force uuid ndns s ≡ (failed e, s))
  unfolding namespace_destroy
  destroy-Guarded ndns s guarded =
      let (e, stops) = prep-Guarded ndns s guarded in (e, rw stops refl)

  -- A command that fails without a change; `none` is a fault before any.
  abbrev pub Unchanged : S → Option (Ret × S) → Type 0
  Unchanged s o = (o ≡ none) ⊎ ((e : Errno) × (o ≡ some (failed e, s)))

module _ {S N D : Type 0} (ctl : Control S N) (labels : Labels S D) (force : Bool)
    (uuid : List ℕ) where
  reconfig_valid-Unchanged :
      (ndns : N) (s : S) (m : Outcome ParsedParameters)
      → Guarded ctl force uuid ndns s
      → Unchanged ctl force uuid s (reconfig_valid ctl labels force uuid ndns s m)
  reconfig_valid-Unchanged ndns s (refused e) guarded = inr (e, refl)
  reconfig_valid-Unchanged ndns s (retry_with e n) guarded = inr (e, refl)
  reconfig_valid-Unchanged ndns s fault guarded = inl refl
  reconfig_valid-Unchanged ndns s (accepted p) guarded =
      let (e, stops) = prep-Guarded ctl force uuid ndns s guarded in inr (e, rw stops refl)

  -- Of a region that is read-only, or where the namespace is active and --force is not given,
  -- `namespace_destroy` fails and changes nothing, and so does `namespace_reconfig`, whatever its
  -- options, unless it divides by 0 before.
  pub namespace_destroy-namespace_reconfig-Guarded :
      (libc : Libc) (param : Parameters) (ndns : N) (s : S)
      → Guarded ctl force uuid ndns s
      → ((e : Errno) × (namespace_destroy ctl force uuid ndns s ≡ (failed e, s)))
        × Unchanged ctl force uuid s (namespace_reconfig ctl labels force uuid libc param ndns s)
  unfolding namespace_reconfig
  namespace_destroy-namespace_reconfig-Guarded libc param ndns s guarded =
      (destroy-Guarded ctl force uuid ndns s guarded, reconfig_valid-Unchanged ndns s _ guarded)
