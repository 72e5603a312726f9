-- ===== src/Namespace/Defaults/Checked.antt =====
-- What the options meet once `set_defaults` has returned 0.
use utils_kernel_ndctl_ndctl.Prelude.{◌≡◌, refl, true, Option, none, [], ◌∷◌}
use utils_kernel_ndctl_ndctl.Check.Defs.{Errno}
use utils_kernel_ndctl_ndctl.Namespace.Params.{String, Libc, DeviceAction, Parameters}
use utils_kernel_ndctl_ndctl.Namespace.Defaults.{
  size_error, align_error, uuid_error, default_type, default_mode, default_map, default_sector_size,
  set_defaults,
}
use utils_kernel_ndctl_ndctl.Namespace.Defaults.Stages.{
  Given, SectorOnly, blk_dax-SectorOnly, KnownType, KnownMode, NamedMode, KnownMode-NamedMode,
  KnownMap, SizeParses, UuidParses, PowerAlign, AllNone, last_error-AllNone, default_type-KnownType,
  default_mode-KnownMode, default_map-KnownMap, size_error-SizeParses, uuid_error-UuidParses,
  align_error-PowerAlign, default_mode-keeps, default_map-keeps, default_sector_size-keeps,
}

module _ (libc : Libc) where
  -- The options that no stage fills in.
  abbrev pub ParsedOptions : Parameters → Type 0
  ParsedOptions p =
      Given (SizeParses libc) p.size
      × Given (SizeParses libc) p.offset
      × Given (PowerAlign libc) p.align
      × Given (UuidParses libc) p.uuid
      × Given (UuidParses libc) p.parent_uuid

  abbrev pub CheckedOptions : Parameters → Type 0
  CheckedOptions p =
      Given (KnownType libc) p.type
      × Given (NamedMode libc) p.mode
      × Given (KnownMap libc) p.map
      × SectorOnly libc p.type p.mode
      × ParsedOptions p

  sector_size-CheckedOptions :
      (p : Parameters)
      → CheckedOptions p
      → CheckedOptions (default_sector_size libc p p.sector_size).1
  sector_size-CheckedOptions p h = default_sector_size-keeps libc CheckedOptions p p.sector_size h h

  later_errors :
      (p : Parameters) (rc : Option Errno)
      → AllNone (
          size_error libc p.size
          ∷ size_error libc p.offset
          ∷ align_error libc p.align
          ∷ size_error libc p.size
          ∷ uuid_error libc p.uuid
          ∷ uuid_error libc p.parent_uuid
          ∷ rc
          ∷ [])
      → ParsedOptions p
  later_errors p rc h =
      let (size_ok, (offset_ok, (align_ok, (_, (uuid_ok, (parent_ok, _)))))) = h in
      (
        size_error-SizeParses libc p.size size_ok,
        size_error-SizeParses libc p.offset offset_ok,
        align_error-PowerAlign libc p.align align_ok,
        uuid_error-UuidParses libc p.uuid uuid_ok,
        uuid_error-UuidParses libc p.parent_uuid parent_ok,
      )

  -- Where `strcmp` and `strcasecmp` take a string for equal to itself: when `set_defaults` returns
  -- 0, then, of the options as it leaves them, a type is `pmem` or `blk`, a mode is one of
  -- `memory`, `fsdax`, `sector`, `safe`, `dax`, `devdax` and `raw` up to case, a map is `mem` or
  -- `dev`, a type that `strcmp` takes for `blk` is not with a mode that it takes for `fsdax` or
  -- `devdax`, a size and an offset parse, an alignment is a power of two and not below the size of
  -- a page, and the uuids parse.
  pub set_defaults-CheckedOptions :
      ((s : String) → libc.strcmp s s ≡ true)
      → ((s : String) → libc.strcasecmp s s ≡ true)
      → (action : DeviceAction) (p : Parameters) → (set_defaults libc action p).0 ≡ none
      → CheckedOptions (set_defaults libc action p).1
  unfolding set_defaults
  set_defaults-CheckedOptions same same_case action p h =
      let typed = default_type libc action p p.type in
      let moded = default_mode libc action typed.1 typed.1.mode in
      let mapped = default_map libc moded.1 moded.1.map in
      let (typed_ok, (moded_ok, (mapped_ok, (blk_ok, later)))) = last_error-AllNone _ h in
      let a_type : Given (KnownType libc) typed.1.type =
        default_type-KnownType libc same action p p.type refl typed_ok in
      let a_mode : Given (KnownMode libc) moded.1.mode =
        default_mode-KnownMode libc same_case action typed.1 typed.1.mode refl moded_ok in
      let a_map : Given (KnownMap libc) mapped.1.map =
        default_map-KnownMap libc same moded.1 moded.1.map refl mapped_ok in
      let a_type' : Given (KnownType libc) moded.1.type =
        default_mode-keeps libc (λ q. Given (KnownType libc) q.type) action typed.1 typed.1.mode
          a_type a_type a_type in
      let kept_type =
        default_map-keeps libc (λ q. Given (KnownType libc) q.type) moded.1 moded.1.map a_type'
          a_type' in
      let kept_mode =
        default_map-keeps libc (λ q. Given (KnownMode libc) q.mode) moded.1 moded.1.map a_mode
          a_mode in
      sector_size-CheckedOptions mapped.1 (
        kept_type,
        KnownMode-NamedMode libc mapped.1.mode kept_mode,
        a_map,
        blk_dax-SectorOnly libc mapped.1 _ _ refl refl blk_ok,
        later_errors mapped.1 _ later,
      )
