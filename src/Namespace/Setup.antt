-- ===== src/Namespace/Setup.antt =====
-- `setup_namespace` of ndctl/namespace.c: the calls that give a namespace its parameters.
pub mod Enabled
use utils_kernel_ndctl_ndctl.Prelude.{
  ℕ, ◌-◌, ltb, ◌==◌, bit_and, Bool, true, false, not, ◌&&◌, ◌||◌, Option, some, none, List,
  if◌then◌else◌,
}
use utils_kernel_ndctl_ndctl.Util.Size.{ullong_max}
use utils_kernel_ndctl_ndctl.Check.Defs.{enxio, einval}
use utils_kernel_ndctl_ndctl.Namespace.Params.{
  Mode, fsdax, sector, raw, devdax, unknown, ParsedParameters,
}
use utils_kernel_ndctl_ndctl.Namespace.Attributes.{
  NamespaceType, io, pmem, blk, Ndns, same_mode, supports,
}
use utils_kernel_ndctl_ndctl.Namespace.Checks.{sz_16m, uint_max, is_io, do_setup_pfn}
use utils_kernel_ndctl_ndctl.Namespace.Control.{
  Ret, done, failed, positive, SeedDevice, BttDevice, Control,
}

abbrev pub is_done : Ret → Bool
is_done done = true
is_done (failed e) = false
is_done (positive n) = false

abbrev pub is_labelled : NamespaceType → Bool
is_labelled io = false
is_labelled pmem = true
is_labelled blk = true

module _ {S : Type 0} where
  -- The macro `try`: what is behind it runs where the call returned 0.
  unfoldable pub passed : (S → Ret × S) → Ret × S → Ret × S
  passed g (done, s) = g s
  passed g (failed e, s) = (failed e, s)
  passed g (positive n, s) = (positive n, s)

  infixr 4 ◌then_try◌
  abbrev pub ◌then_try◌ : (S → Ret × S) → (S → Ret × S) → S → Ret × S
  ◌then_try◌ f g = λ s. passed g (f s)

module _ {S N : Type 0} where
  -- A failed enable of a pfn or dax device: the namespace is taken from it again.
  abbrev pub recover_seed : Bool → SeedDevice S N → Ret × S → Ret × S
  recover_seed autorecover dev (rc, s) =
      if not (is_done rc) && autorecover then (rc, (dev.set_namespace none s).1) else (rc, s)

  abbrev pub enable_seed : Bool → SeedDevice S N → S → Ret × S
  enable_seed autorecover dev s = recover_seed autorecover dev (dev.enable s)

  -- The pfn device asks for `ndctl_pfn_has_align`, the dax device does not.
  abbrev pub align_seed : Bool → SeedDevice S N → ℕ → S → Ret × S
  align_seed always dev align s =
      if always || dev.has_align s then dev.set_align align s else (done, s)

  module _ (ctl : Control S N) (force : Bool) (uuid : List ℕ) where
    unfoldable pub check_dax_align : N → S → Ret
    check_dax_align ndns s =
        let resource = ctl.resource s ndns in
        if resource == ullong_max
        then done
        else if bit_and resource (sz_16m - 1) == 0 || force
        then done
        else failed einval

    unfoldable pub setup_seed : Bool → SeedDevice S N → N → ParsedParameters → S → Ret × S
    unfolding check_dax_align
    setup_seed always dev ndns p =
        ((λ s. (check_dax_align ndns s, s))
          then_try dev.set_uuid uuid
          then_try dev.set_location p.loc
          then_try align_seed always dev p.align
          then_try dev.set_namespace (some ndns)
          then_try enable_seed p.autorecover dev)

    abbrev pub setup_if : Bool → Option (SeedDevice S N) → N → ParsedParameters → S → Ret × S
    setup_if always none ndns p s = (failed enxio, s)
    setup_if always (some dev) ndns p s = setup_seed always dev ndns p s

    abbrev pub setup_btt : Option (BttDevice S N) → N → ParsedParameters → S → Ret × S
    setup_btt none ndns p s = (failed enxio, s)
    setup_btt (some btt) ndns p s =
        (btt.set_uuid uuid
            then_try btt.set_sector_size (if p.sector_size == uint_max then 4096 else p.sector_size)
            then_try btt.set_namespace ndns
            then_try btt.enable)
          s

    -- From `do_setup_pfn` to the last `rc`.
    unfoldable pub setup_mode : Mode → N → ParsedParameters → S → Ret × S
    setup_mode mode ndns p s =
        if do_setup_pfn (some (ctl.attributes s ndns)) mode p.loc
        then setup_if false (ctl.pfn_seed s) ndns p s
        else if same_mode mode devdax
        then setup_if true (ctl.dax_seed s) ndns p s
        else if same_mode mode sector
        then setup_btt (ctl.btt_seed s) ndns p s
        else ctl.enable ndns s

    abbrev pub setup_label : N → ParsedParameters → S → Ret × S
    setup_label ndns p s =
        if is_labelled (ctl.nstype s ndns)
        then (ctl.set_uuid ndns p.uuid
              then_try ctl.set_alt_name ndns p.name
              then_try ctl.set_size ndns p.size)
            s
        else (done, s)

    unfoldable pub setup_sector_size : N → ParsedParameters → S → Ret × S
    setup_sector_size ndns p s =
        if not (p.sector_size == 0) && ltb p.sector_size uint_max
        then (if supports (ctl.attributes s ndns).supported_sector_sizes p.sector_size
            then ctl.set_sector_size ndns p.sector_size s
            else if same_mode p.mode sector || p.sector_size == 512
            then (done, s)
            else (failed einval, s))
        else (done, s)

    unfoldable pub setup_namespace : N → ParsedParameters → S → Ret × S
    unfolding setup_sector_size setup_mode setup_seed
    setup_namespace ndns p =
        (setup_label ndns p
          then_try setup_sector_size ndns p
          then_try (λ s. setup_mode p.mode ndns p (ctl.set_enforce_mode ndns p.mode s)))
