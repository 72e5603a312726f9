-- ===== src/Namespace/Validate/Accepted.antt =====
-- The parameters that `validate_namespace_options` accepts.
use utils_kernel_ndctl_ndctl.Prelude.{
  ℕ, ◌*◌, ◌%◌, ◌^◌, ◌≤◌, ◌<◌, ◌≡◌, ◌⊎◌, inl, inr, refl, true, false, Option, some, none, length,
  arith,
}
use utils_kernel_ndctl_ndctl.Util.Size.{ullong_max, parse_size64}
use utils_kernel_ndctl_ndctl.Namespace.Params.{
  String, Libc, Mode, raw, PfnLoc, Parameters, ParsedParameters,
}
use utils_kernel_ndctl_ndctl.Namespace.Attributes.{
  Pfn, Ndns, Region, accepted, Accepts, Accepts->>=, Accepts-accepted,
}
use utils_kernel_ndctl_ndctl.Namespace.Defaults.Stages.{Given}
use utils_kernel_ndctl_ndctl.Namespace.Checks.{
  sz_16m, is_io, available_capacity, do_setup_pfn, Chosen, fsdax_on, devdax_on, plain, chosen_mode,
  check_region_align, check_size_align, check_minimum,
}
use utils_kernel_ndctl_ndctl.Namespace.Validate.{
  check_pfn, check_enabled, check_legacy_size, with_capacity, size_from, default_size, parsed_uuid,
  name_from, checked_name, chosen_from, seeded, align_from, sector_size_from, loc_from,
  validate_namespace_options,
}
use utils_kernel_ndctl_ndctl.Namespace.Validate.Alignment.{
  check_size_align-accepted, check_region_align-accepted, check_minimum-accepted,
  checked_name-accepted, validate_available_capacity-accepted, AlignSupported, SectorSupported,
  Seeded, seeded-Seeded, requested_align-AlignSupported, requested_sector_size-SectorSupported,
}

-- A namespace to create has a size, and the region room for it.
abbrev pub InCapacity : Region → Option Ndns → ℕ → Type 0
InCapacity r none size = (0 < size) × (size ≤ available_capacity r)
InCapacity r (some n) size = Unit

-- A pfn device that `setup_namespace` is going to ask for is there.
abbrev pub HasSeed : Region → Option Ndns → Mode → PfnLoc → Type 0
HasSeed r ndns mode loc =
    (do_setup_pfn ndns mode loc ≡ false) ⊎ ((pfn : Pfn) × (r.pfn_seed ≡ some pfn))

module _ (libc : Libc) (param : Parameters) (r : Region) where
  abbrev pub ValidParameters : Option Ndns → ParsedParameters → Type 0
  ValidParameters ndns q =
      (r.is_enabled ≡ true)
      × InCapacity r ndns q.size
      × ((is_io r.nstype ≡ false) ⊎ (q.size ≡ r.size))
      × (length q.name < 64)
      × Given
          (λ s. (q.align ≡ parse_size64 libc.strtoull (some s)) × AlignSupported r q.mode q.align)
          param.align
      × ((ullong_max ≤ r.align) ⊎ (q.size % r.align ≡ 0))
      × ((2 ^ 64 ≤ q.align * r.interleave_ways) ⊎ (q.size % (q.align * r.interleave_ways) ≡ 0))
      × ((q.mode ≡ raw) ⊎ (sz_16m ≤ q.size))
      × Given
          (λ s.
            (q.sector_size ≡ parse_size64 libc.strtoull (some s))
            × SectorSupported r ndns q.mode q.sector_size)
          param.sector_size
      × HasSeed r ndns q.mode q.loc
      × (q.autorecover ≡ param.autorecover)

  with_capacity-InCapacity :
      (ndns : Option Ndns) (size size' : ℕ)
      → with_capacity libc param r ndns size ≡ accepted size'
      → InCapacity r ndns size'
  with_capacity-InCapacity none size size' h = validate_available_capacity-accepted r size size' h
  with_capacity-InCapacity (some n) size size' h = _

  align_from-supported :
      (o : Option String) (chosen : Chosen) (ndns : Option Ndns) (a : ℕ)
      → Seeded r chosen
      → align_from libc param r o chosen ndns ≡ accepted a
      → Given
          (λ s. (a ≡ parse_size64 libc.strtoull (some s)) × AlignSupported r (chosen_mode chosen) a)
          o
  align_from-supported none chosen ndns a s h = _
  align_from-supported (some str) chosen ndns a s h =
      Accepts-accepted _ _ (requested_align-AlignSupported libc param r chosen _ s) h

  sector_size_from-supported :
      (o : Option String) (mode : Mode) (ndns : Option Ndns) (a : ℕ)
      → sector_size_from libc param r o mode ndns ≡ accepted a
      → Given (λ s. (a ≡ parse_size64 libc.strtoull (some s)) × SectorSupported r ndns mode a) o
  sector_size_from-supported none mode ndns a h = _
  sector_size_from-supported (some str) mode ndns a h =
      Accepts-accepted _ _ (requested_sector_size-SectorSupported libc param r mode ndns _) h

  check_pfn-HasSeed :
      (chosen : Chosen) (ndns : Option Ndns) (loc : PfnLoc) (u : Unit)
      → Seeded r chosen
      → check_pfn libc param r chosen ndns loc ≡ accepted u
      → HasSeed r ndns (chosen_mode chosen) loc
  unfolding check_pfn
  check_pfn-HasSeed (fsdax_on (some pfn)) ndns loc u s h = inr (pfn, s)
  check_pfn-HasSeed (fsdax_on none) ndns loc u s h = inl (ground arith)
  check_pfn-HasSeed (devdax_on dax) ndns loc u s h = inl (ground arith)
  check_pfn-HasSeed (plain mode) ndns loc u s h = inl (ground arith)

  check_legacy_size-accepted :
      (size : ℕ) (u : Unit)
      → check_legacy_size libc param r size ≡ accepted u
      → (is_io r.nstype ≡ false) ⊎ (size ≡ r.size)
  unfolding check_legacy_size
  check_legacy_size-accepted size u h = ground arith

  check_enabled-accepted :
      (u : Unit) → check_enabled libc param r ≡ accepted u → r.is_enabled ≡ true
  unfolding check_enabled
  check_enabled-accepted u h = ground arith

  validated :
      (ndns : Option Ndns)
      → Accepts (ValidParameters ndns) (validate_namespace_options libc param r ndns)
  unfolding validate_namespace_options
  validated ndns = Accepts->>= _ (check_enabled libc param r) _ (λ u1 enabled.
      Accepts->>= _ (with_capacity libc param r ndns (size_from libc param r param.size ndns).0) _
        (λ size capacity. Accepts->>= _ (check_legacy_size libc param r size) _ (λ u2 legacy.
          Accepts->>= _ (parsed_uuid libc param r param.uuid) _ (λ uuid _.
            Accepts->>= _ (checked_name libc param r (name_from libc param r param.name ndns)) _
              (λ name named. Accepts->>= _ (chosen_from libc param r param.mode ndns) _ (λ mode _.
                Accepts->>= _ (seeded libc param r mode) _ (λ chosen seeds.
                  let from_seed =
                    Accepts-accepted (Seeded r) _ (seeded-Seeded libc param r mode) seeds in
                  Accepts->>= _ (align_from libc param r param.align chosen ndns) _
                    (λ align aligned.
                      Accepts->>= _ (check_region_align size r.align) _ (λ u3 in_region.
                        Accepts->>= _
                          (check_size_align size align r.interleave_ways
                            (size_from libc param r param.size ndns).1)
                          _
                          (λ u4 in_ways.
                            Accepts->>= _
                              (check_minimum size (chosen_mode chosen)
                                (default_size libc param r param.size ndns))
                              _
                              (λ u5 minimal.
                                Accepts->>= _
                                  (sector_size_from libc param r param.sector_size
                                    (chosen_mode chosen) ndns)
                                  _
                                  (λ sector_size sectored.
                                    Accepts->>= _
                                      (loc_from libc param r param.map (chosen_mode chosen) ndns) _
                                      (λ loc _.
                                        Accepts->>= _ (check_pfn libc param r chosen ndns loc) _
                                          (λ u6 seeded_pfn. (
                                            check_enabled-accepted u1 enabled,
                                            with_capacity-InCapacity ndns _ size capacity,
                                            check_legacy_size-accepted size u2 legacy,
                                            checked_name-accepted libc param r _ name named,
                                            align_from-supported param.align chosen ndns align
                                                from_seed aligned,
                                            check_region_align-accepted size r.align u3 in_region,
                                            check_size_align-accepted size align r.interleave_ways _
                                                u4 in_ways,
                                            check_minimum-accepted size (chosen_mode chosen) _ u5
                                                minimal,
                                            sector_size_from-supported param.sector_size
                                                (chosen_mode chosen) ndns sector_size sectored,
                                            check_pfn-HasSeed chosen ndns loc u6 from_seed
                                                seeded_pfn,
                                            refl,
                                          )))))))))))))))

  -- For the parameters that `validate_namespace_options` accepts, with or without a namespace to
  -- reconfigure: the region is enabled; the size of a namespace to create is above 0 and not above
  -- the capacity of the region, and without labels it is the size of the region; the name and its
  -- last byte fit `NSLABEL_NAME_LEN`; an alignment or a sector size that is asked for is taken
  -- over and is one of those that the seed device of the mode (or the namespace) supports; the
  -- size is a multiple of the alignment of the region, if that has one, and, if their product fits
  -- 64 bits, of the alignment times the interleave ways; it is not below 16 MiB but in raw mode;
  -- and where a pfn device is to be set up, the region has one. `autorecover` is that of the
  -- options.
  pub validate_namespace_options-ValidParameters :
      (ndns : Option Ndns) (q : ParsedParameters)
      → validate_namespace_options libc param r ndns ≡ accepted q
      → ValidParameters ndns q
  validate_namespace_options-ValidParameters ndns q h =
      Accepts-accepted (ValidParameters ndns) _ (validated ndns) h

  pub autorecover_kept :
      (ndns : Option Ndns) (q : ParsedParameters)
      → validate_namespace_options libc param r ndns ≡ accepted q
      → q.autorecover ≡ param.autorecover
  autorecover_kept ndns q h = (validate_namespace_options-ValidParameters ndns q h).10
