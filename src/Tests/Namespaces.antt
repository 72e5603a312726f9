-- ===== src/Tests/Namespaces.antt =====
-- A region of 1 GiB with one namespace, and the options that create another.
use utils_kernel_ndctl_ndctl.Prelude.{
  ◌^◌, ◌==◌, ◌≡◌, refl, Bool, true, false, some, none, [], ◌∷◌, if◌then◌else◌, ==_iff,
}
use utils_kernel_ndctl_ndctl.Util.Size.{
  parse_size64, parse_size64_units, unit_of, scaled, after_number,
}
use utils_kernel_ndctl_ndctl.Namespace.Params.{
  String, Libc, fsdax, raw, PfnLoc, create, Parameters, ParsedParameters, s_fsdax, mode_of,
  util_nsmode, is_power_of_2,
}
use utils_kernel_ndctl_ndctl.Namespace.Defaults.{last_error, set_defaults}
use utils_kernel_ndctl_ndctl.Namespace.Defaults.Checked.{
  CheckedOptions, set_defaults-CheckedOptions,
}
use utils_kernel_ndctl_ndctl.Namespace.Attributes.{pmem, Ndns, Region, supports}
use utils_kernel_ndctl_ndctl.Namespace.Checks.{
  available_capacity, validate_available_capacity, do_setup_pfn, check_size_align,
  check_region_align, check_minimum,
}
use utils_kernel_ndctl_ndctl.Namespace.Validate.{
  check_legacy_size, parsed_uuid, checked_name, chosen_from, seeded, requested_align, loc_from,
  check_pfn, check_enabled, validate_namespace_options,
}
use utils_kernel_ndctl_ndctl.Namespace.Validate.Accepted.{
  ValidParameters, validate_namespace_options-ValidParameters,
}
use utils_kernel_ndctl_ndctl.Tests.Sums.{decimal}

abbrev pub same_string : String → String → Bool
same_string [] [] = true
same_string [] (d ∷ ds) = false
same_string (c ∷ cs) [] = false
same_string (c ∷ cs) (d ∷ ds) = let rest = same_string cs ds in if c == d then rest else false

same_string_refl : (s : String) → same_string s s ≡ true
same_string_refl [] = refl
same_string_refl (c ∷ cs) =
    let rest = same_string_refl cs in let e = (==_iff c c).1 refl in rw (e) rest

abbrev pub libc : Libc
libc = record {
  strtoull = decimal;
  strcmp = same_string;
  strcasecmp = same_string;
  uuid_parse = λ s. some s;
  uuid_generate = 1 ∷ [];
  page_size = 4096;
}

-- `--mode=fsdax --size=64M --align=2M`
abbrev pub options : Parameters
options = record {
  mode_default = false;
  autolabel = true;
  autorecover = true;
  map = none;
  type = none;
  uuid = none;
  name = none;
  size = some (b'6' ∷ b'4' ∷ b'M' ∷ []);
  mode = some s_fsdax;
  reconfig = none;
  sector_size = none;
  align = some (b'2' ∷ b'M' ∷ []);
  offset = none;
  parent_uuid = none;
}

set_defaults-CheckedOptions_example : CheckedOptions libc (set_defaults libc create options).1
unfolding set_defaults last_error util_nsmode mode_of is_power_of_2 parse_size64 parse_size64_units
    unit_of scaled after_number
set_defaults-CheckedOptions_example =
    set_defaults-CheckedOptions libc same_string_refl same_string_refl create options refl

abbrev pub idle : Ndns
idle = record {
  size = 0;
  alt_name = [];
  mode = raw;
  pfn = none;
  dax = none;
  btt = none;
  sector_size = 512;
  supported_sector_sizes = 512 ∷ [];
}

abbrev pub region : Region
region = record {
  is_enabled = true;
  is_pmem = true;
  nstype = pmem;
  size = 2 ^ 30;
  max_available_extent = 2 ^ 28;
  available_size = 2 ^ 28;
  resource = 2 ^ 32;
  align = 2 ^ 24;
  interleave_ways = 2;
  pfn_seed =
      some (record { has_align = true; align = 2 ^ 21; supported_alignments = 4096 ∷ 2 ^ 21 ∷ [] });
  dax_seed = none;
  btt_seed = none;
  namespace_seed = some idle;
}

abbrev pub parsed : ParsedParameters
parsed = record {
  loc = PfnLoc.pmem;
  uuid = 1 ∷ [];
  name = [];
  mode = fsdax;
  size = 2 ^ 26;
  sector_size = 512;
  align = 2 ^ 21;
  autolabel = true;
  autorecover = true;
}

validate_namespace_options-ValidParameters_example : ValidParameters libc options region none parsed
unfolding validate_namespace_options check_enabled validate_available_capacity available_capacity
    check_legacy_size parsed_uuid checked_name chosen_from seeded requested_align supports
    check_region_align check_size_align check_minimum loc_from check_pfn do_setup_pfn mode_of
    util_nsmode parse_size64 parse_size64_units unit_of scaled after_number
validate_namespace_options-ValidParameters_example =
    validate_namespace_options-ValidParameters libc options region none parsed refl
