-- ===== src/Namespace/Validate.antt =====
-- `validate_namespace_options` of ndctl/namespace.c: the parameters of a namespace from the options,
-- the region and, where one is reconfigured, the namespace.
pub mod Hint
pub mod Alignment
pub mod Accepted
use utils_kernel_ndctl_ndctl.Prelude.{
  ℕ, ◌+◌, ◌-◌, ◌*◌, ◌/◌, ◌%◌, ◌^◌, max, bit_and, ltb, leb, ◌==◌, Bool, true, false, not, ◌&&◌, ◌||◌,
  Option, some, none, List, [], ◌∷◌, length, if◌then◌else◌,
}
use utils_kernel_ndctl_ndctl.Util.Size.{ullong_max, parse_size64, parse_size64_units}
use utils_kernel_ndctl_ndctl.Check.Defs.{Errno, enxio, einval}
use utils_kernel_ndctl_ndctl.Namespace.Params.{
  String, Libc, Mode, fsdax, sector, raw, devdax, unknown, PfnLoc, no_loc, ram, Parameters,
  ParsedParameters, s_mem, util_nsmode,
}
use utils_kernel_ndctl_ndctl.Namespace.Attributes.{
  NamespaceType, io, Pfn, Dax, Btt, Ndns, Region, Outcome, refused, retry_with, fault, accepted,
  ◌>>=◌, same_mode, supports, eagain, enodev,
}
use utils_kernel_ndctl_ndctl.Namespace.Checks.{
  Chosen, available_capacity, check_minimum, check_region_align, check_size_align, chosen_mode,
  devdax_on, do_setup_pfn, fsdax_on, hinted_size, is_io, is_pmem, plain, sz_16m, sz_2m, uint_max,
  validate_available_capacity,
}

module _ (libc : Libc) (param : Parameters) (r : Region) where
  -- The size and the units of --size; a size of 0 is to be filled in.
  abbrev pub size_from : Option String → Option Ndns → ℕ × ℕ
  size_from (some str) ndns =
      let (size, units) = parse_size64_units libc.strtoull str in
      (size, elim units [ none ↦ 1 | some u ↦ u ])
  size_from none (some n) = (n.size, 1)
  size_from none none = (0, 1)

  abbrev pub default_size : Option String → Option Ndns → Bool
  default_size none none = true
  default_size size ndns = false

  abbrev pub with_capacity : Option Ndns → ℕ → Outcome ℕ
  with_capacity (some n) size = accepted size
  with_capacity none size = validate_available_capacity r size

  -- No custom size on a legacy namespace.
  unfoldable pub check_legacy_size : ℕ → Outcome Unit
  check_legacy_size size =
      if is_io r.nstype && not (size == r.size) then refused einval else accepted _

  unfoldable pub parsed_uuid : Option String → Outcome (List ℕ)
  parsed_uuid none = accepted libc.uuid_generate
  parsed_uuid (some str) = elim (libc.uuid_parse str) [
    | none ↦ refused einval
    | some uuid ↦ accepted uuid
  ]

  abbrev pub name_from : Option String → Option Ndns → String
  name_from (some name) ndns = name
  name_from none (some n) = n.alt_name
  name_from none none = []

  -- `NSLABEL_NAME_LEN` bytes, with the last one.
  unfoldable pub checked_name : String → Outcome String
  checked_name name = if leb 64 (length name) then refused einval else accepted name

  abbrev pub needs_pmem : Mode → Bool
  needs_pmem mode = same_mode mode fsdax || same_mode mode devdax

  -- With neither --mode nor a namespace the mode is what `memset` leaves: 0, fsdax.
  unfoldable pub chosen_from : Option String → Option Ndns → Outcome Mode
  chosen_from (some str) ndns =
      let mode = util_nsmode libc (some str) in
      if not r.is_pmem && needs_pmem mode then refused eagain else accepted mode
  chosen_from none (some n) = accepted n.mode
  chosen_from none none = accepted fsdax

  abbrev pub fsdax_seed : Option Pfn → Chosen
  fsdax_seed none = if param.mode_default then plain raw else fsdax_on none
  fsdax_seed (some pfn) = fsdax_on (some pfn)

  abbrev pub devdax_seed : Option Dax → Outcome Chosen
  devdax_seed none = refused enodev
  devdax_seed (some dax) = accepted (devdax_on dax)

  unfoldable pub seeded : Mode → Outcome Chosen
  seeded fsdax = accepted (fsdax_seed r.pfn_seed)
  seeded devdax = devdax_seed r.dax_seed
  seeded sector = accepted (plain sector)
  seeded raw = accepted (plain raw)
  seeded unknown = accepted (plain unknown)

  -- `if (param.align)`
  abbrev pub among : List ℕ → ℕ → Outcome ℕ
  among alignments align = if supports alignments align then accepted align else refused enxio

  unfoldable pub requested_align : Chosen → ℕ → Outcome ℕ
  requested_align (fsdax_on none) align = refused einval
  requested_align (fsdax_on (some pfn)) align = among pfn.supported_alignments align
  requested_align (devdax_on dax) align = among dax.supported_alignments align
  requested_align (plain mode) align = refused enxio

  abbrev pub original_align : Option Pfn → Option Dax → ℕ
  original_align (some pfn) dax = pfn.align
  original_align none (some dax) = dax.align
  original_align none none = libc.page_size

  abbrev pub seed_align : Chosen → ℕ
  seed_align (fsdax_on none) = sz_2m
  seed_align (fsdax_on (some pfn)) = if pfn.has_align then pfn.align else sz_2m
  seed_align (devdax_on dax) = dax.align
  seed_align (plain mode) = libc.page_size

  abbrev pub original_or_seed : Chosen → Option Ndns → ℕ
  original_or_seed chosen none = seed_align chosen
  original_or_seed chosen (some n) =
      if same_mode (chosen_mode chosen) n.mode
      then original_align n.pfn n.dax
      else seed_align chosen

  -- Fallback to a page alignment if the region is not aligned to the default.
  unfoldable pub fallback_align : ℕ → ℕ
  fallback_align align =
      if ltb r.resource ullong_max
        && not (bit_and r.resource ((align + (2 ^ 64 - 1)) % 2 ^ 64) == 0)
      then libc.page_size
      else align

  abbrev pub align_from : Option String → Chosen → Option Ndns → Outcome ℕ
  align_from (some str) chosen ndns = requested_align chosen (parse_size64 libc.strtoull (some str))
  align_from none chosen ndns = accepted (fallback_align (original_or_seed chosen ndns))

  -- `if (param.sector_size)`
  abbrev pub btt_sector_size : Option Btt → ℕ → Outcome ℕ
  btt_sector_size none size = refused einval
  btt_sector_size (some btt) size =
      if supports btt.supported_sector_sizes size then accepted size else refused einval

  abbrev pub seed_sector_size : Option Ndns → ℕ → Outcome ℕ
  seed_sector_size none size = refused enxio
  seed_sector_size (some seed) size =
      if supports seed.supported_sector_sizes size then accepted size else refused einval

  abbrev pub seed_or : Option Ndns → Option Ndns → Option Ndns
  seed_or none seed = seed
  seed_or (some n) seed = some n

  unfoldable pub requested_sector_size : Mode → Option Ndns → ℕ → Outcome ℕ
  requested_sector_size mode ndns size =
      if same_mode mode sector
      then btt_sector_size r.btt_seed size
      else seed_sector_size (seed_or ndns r.namespace_seed) size

  abbrev pub kept_sector_size : Mode → Ndns → ℕ
  kept_sector_size mode n = elim n.btt [
    | none ↦ n.sector_size
    | some btt ↦ if same_mode mode sector then btt.sector_size else n.sector_size
  ]

  abbrev pub seed_default : Option Ndns → Outcome ℕ
  seed_default none = refused enxio
  seed_default (some seed) =
      accepted (elim seed.supported_sector_sizes [ [] ↦ uint_max | s ∷ ss ↦ 512 ])

  abbrev pub sector_size_from : Option String → Mode → Option Ndns → Outcome ℕ
  sector_size_from (some str) mode ndns =
      requested_sector_size mode ndns (parse_size64 libc.strtoull (some str))
  sector_size_from none mode (some n) = accepted (kept_sector_size mode n)
  sector_size_from none mode none = seed_default r.namespace_seed

  -- `if (param.map)`
  abbrev pub is_dax : Mode → Bool
  is_dax mode = same_mode mode fsdax || same_mode mode devdax

  abbrev pub is_reconfig : Option Ndns → Bool
  is_reconfig none = false
  is_reconfig (some n) = true

  unfoldable pub loc_from : Option String → Mode → Option Ndns → Outcome PfnLoc
  loc_from (some map) mode ndns =
      if is_reconfig ndns && not (is_dax mode)
      then refused einval
      else accepted (if libc.strcmp map s_mem then ram else PfnLoc.pmem)
  loc_from none mode ndns = accepted (if is_dax mode then PfnLoc.pmem else no_loc)

  abbrev pub has_pfn : Chosen → Bool
  has_pfn (fsdax_on (some pfn)) = true
  has_pfn chosen = false

  unfoldable pub check_pfn : Chosen → Option Ndns → PfnLoc → Outcome Unit
  check_pfn chosen ndns loc =
      if not (has_pfn chosen) && do_setup_pfn ndns (chosen_mode chosen) loc
      then refused einval
      else accepted _

  unfoldable pub check_enabled : Outcome Unit
  check_enabled = if not r.is_enabled then refused eagain else accepted _

  unfoldable pub validate_namespace_options : Option Ndns → Outcome ParsedParameters
  validate_namespace_options ndns = do
    _ ← check_enabled
    size ← with_capacity ndns (size_from param.size ndns).0
    _ ← check_legacy_size size
    uuid ← parsed_uuid param.uuid
    name ← checked_name (name_from param.name ndns)
    mode ← chosen_from param.mode ndns
    chosen ← seeded mode
    align ← align_from param.align chosen ndns
    _ ← check_region_align size r.align
    _ ← check_size_align size align r.interleave_ways (size_from param.size ndns).1
    _ ← check_minimum size (chosen_mode chosen) (default_size param.size ndns)
    sector_size ← sector_size_from param.sector_size (chosen_mode chosen) ndns
    loc ← loc_from param.map (chosen_mode chosen) ndns
    _ ← check_pfn chosen ndns loc
    accepted (record {
      loc = loc;
      uuid = uuid;
      name = name;
      mode = chosen_mode chosen;
      size = size;
      sector_size = sector_size;
      align = align;
      autolabel = param.autolabel;
      autorecover = param.autorecover;
    })
