-- ===== src/Namespace/Reconfig.antt =====
-- Creation, destruction and reconfiguration of a namespace in ndctl/namespace.c.
pub mod Zeroed
pub mod Refused
use utils_kernel_ndctl_ndctl.Prelude.{
  ℕ, ◌==◌, Bool, true, false, not, ◌&&◌, Option, some, none, List, [], ◌∷◌, if◌then◌else◌,
}
use utils_kernel_ndctl_ndctl.Check.Defs.{enxio, enomem, ebusy, system}
use utils_kernel_ndctl_ndctl.Namespace.Params.{Libc, Mode, raw, Parameters, ParsedParameters}
use utils_kernel_ndctl_ndctl.Namespace.Attributes.{
  NamespaceType, io, pmem, blk, Ndns, Outcome, refused, retry_with, fault, accepted, eagain, enodev,
}
use utils_kernel_ndctl_ndctl.Namespace.Checks.{is_io}
use utils_kernel_ndctl_ndctl.Namespace.Validate.{validate_namespace_options}
use utils_kernel_ndctl_ndctl.Namespace.Control.{Ret, done, failed, positive, Control}
use utils_kernel_ndctl_ndctl.Namespace.Labels.{Labels, enable_labels}
use utils_kernel_ndctl_ndctl.Namespace.Setup.{is_done, is_labelled, setup_namespace}

-- `memcmp(buf, read_buf, info_size) == 0`
abbrev pub all_zero : List ℕ → Bool
all_zero [] = true
all_zero (b ∷ bs) = let rest = all_zero bs in if b == 0 then rest else false

module _ {S N : Type 0} (ctl : Control S N) (force : Bool) (uuid : List ℕ) where
  -- `region_get_namespace`: the 0th namespace if it is idle, else the seed.
  unfoldable pub first_idle : S → List N → Option N
  first_idle s [] = ctl.namespace_seed s
  first_idle s (n ∷ ns) =
      let rest = first_idle s ns in
      if ctl.id n == 0 && ctl.is_configuration_idle s n then some n else rest

  abbrev pub region_get_namespace : S → Option N
  region_get_namespace s = first_idle s (ctl.namespaces s)

  -- From `pread` to `out_close`. A `pread` that fails or is short is only reported.
  unfoldable pub zero_if_needed : N → S → Ret × S
  zero_if_needed ndns s =
      if all_zero (ctl.read_info ndns s).1
      then (positive 1, s)
      else let (written, s') = ctl.write_zeros ndns s in
        (if written then done else failed enxio, s')

  -- A failed `open` leaves `rc` as the enable has set it.
  abbrev pub zero_enabled : N → Ret → S → Ret × S
  zero_enabled ndns rc s =
      if not (ctl.memory.0 && ctl.memory.1)
      then (failed enomem, s)
      else if ctl.open_exclusive ndns s
      then zero_if_needed ndns s
      else (rc, s)

  abbrev pub zero_behind : N → Ret × S → Ret × S
  zero_behind ndns (failed e, s) = (positive 1, s)
  zero_behind ndns (done, s) = zero_enabled ndns done s
  zero_behind ndns (positive n, s) = zero_enabled ndns (positive n) s

  -- `out:`
  abbrev pub zero_out : N → Ret × S → Ret × S
  zero_out ndns (rc, s) = (rc, ctl.disable_invalidate ndns (ctl.set_raw_mode ndns 0 s))

  unfoldable pub zero_info_block : N → S → Ret × S
  unfolding zero_if_needed
  zero_info_block ndns s =
      zero_out ndns (zero_behind ndns (ctl.enable ndns (ctl.set_raw_mode ndns 1 s)))

  -- The `switch` on the type of the namespace
  abbrev pub prepared : N → Ret × S → Ret × S
  prepared ndns (failed e, s) = (failed e, s)
  prepared ndns (done, s) = (if is_labelled (ctl.nstype s ndns) then positive 2 else done, s)
  prepared ndns (positive n, s) =
      (if is_labelled (ctl.nstype s ndns) then positive 2 else positive 1, s)

  abbrev pub prep_disabled : N → Ret × S → Ret × S
  prep_disabled ndns (done, s) =
      prepared ndns (zero_info_block ndns (ctl.set_enforce_mode ndns raw s))
  prep_disabled ndns (failed e, s) = (failed e, s)
  prep_disabled ndns (positive n, s) = (positive n, s)

  unfoldable pub namespace_prep_reconfig : N → S → Ret × S
  unfolding zero_info_block
  namespace_prep_reconfig ndns s =
      if ctl.is_ro s
      then (failed enxio, s)
      else if ctl.is_active s ndns && not force
      then (failed ebusy, s)
      else prep_disabled ndns (ctl.disable_safe ndns s)

  -- Labeled namespace, destroy label / allocation
  abbrev pub destroy_prepared : N → Ret × S → Ret × S
  destroy_prepared ndns (done, s) = (done, s)
  destroy_prepared ndns (failed e, s) = (failed e, s)
  destroy_prepared ndns (positive n, s) = if n == 2 then ctl.delete ndns s else (positive n, s)

  unfoldable pub namespace_destroy : N → S → Ret × S
  unfolding namespace_prep_reconfig
  namespace_destroy ndns s = destroy_prepared ndns (namespace_prep_reconfig ndns s)

  -- A namespace that was not set up is deleted again.
  abbrev pub create_recover : N → Bool → Ret × S → Ret × S
  create_recover ndns autorecover (rc, s) =
      if not (is_done rc) && autorecover
      then (rc, (ctl.delete ndns (ctl.set_enforce_mode ndns raw s)).1)
      else (rc, s)

  abbrev pub create_at : ParsedParameters → Option N → S → Ret × S
  create_at p none s = (failed eagain, s)
  create_at p (some ndns) s =
      if not (ctl.is_configuration_idle s ndns)
      then (failed eagain, s)
      else create_recover ndns p.autorecover (setup_namespace ctl force uuid ndns p s)

  -- A `none` of the results is a division by 0 in `validate_namespace_options`.
  abbrev pub create_with : S → Outcome ParsedParameters → Option (Ret × S)
  create_with s (refused e) = some (failed e, s)
  create_with s (retry_with e n) = some (failed e, s)
  create_with s fault = none
  create_with s (accepted p) =
      some (if ctl.is_ro s then (failed eagain, s) else create_at p (region_get_namespace s) s)

  unfoldable pub namespace_create : Libc → Parameters → S → Option (Ret × S)
  unfolding first_idle
  namespace_create libc param s =
      create_with s (validate_namespace_options libc param (ctl.region s) none)

-- `rc != -ENODEV`
abbrev pub is_enodev : Ret → Bool
is_enodev (failed (system n)) = n == 19
is_enodev rc = false

module _ {S N D : Type 0} (ctl : Control S N) (labels : Labels S D) (force : Bool)
    (uuid : List ℕ) where
  abbrev pub setup_idle : ParsedParameters → Option N → S → Ret × S
  setup_idle p none s = (failed enodev, s)
  setup_idle p (some ndns) s =
      if ctl.is_configuration_idle s ndns
      then setup_namespace ctl force uuid ndns p s
      else (failed enodev, s)

  -- Where labels were written, the namespace is another one.
  abbrev pub relabelled : N → ParsedParameters → Ret × S → Ret × S
  relabelled ndns p (rc, s) =
      if is_enodev rc
      then setup_namespace ctl force uuid ndns p s
      else setup_idle p (region_get_namespace ctl force uuid s) s

  abbrev pub reconfig_prepared : N → ParsedParameters → S → Ret × S
  reconfig_prepared ndns p s =
      if is_io (ctl.region s).nstype && p.autolabel
      then relabelled ndns p (enable_labels labels s)
      else setup_namespace ctl force uuid ndns p s

  abbrev pub reconfig_with : N → ParsedParameters → Ret × S → Ret × S
  reconfig_with ndns p (failed e, s) = (failed e, s)
  reconfig_with ndns p (done, s) = reconfig_prepared ndns p s
  reconfig_with ndns p (positive n, s) = reconfig_prepared ndns p s

  abbrev pub reconfig_valid : N → S → Outcome ParsedParameters → Option (Ret × S)
  reconfig_valid ndns s (refused e) = some (failed e, s)
  reconfig_valid ndns s (retry_with e n) = some (failed e, s)
  reconfig_valid ndns s fault = none
  reconfig_valid ndns s (accepted p) =
      some (reconfig_with ndns p (namespace_prep_reconfig ctl force uuid ndns s))

  unfoldable pub namespace_reconfig : Libc → Parameters → N → S → Option (Ret × S)
  namespace_reconfig libc param ndns s =
      reconfig_valid ndns s
        (validate_namespace_options libc param (ctl.region s) (some (ctl.attributes s ndns)))
