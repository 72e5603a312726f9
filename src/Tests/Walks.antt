-- ===== src/Tests/Walks.antt =====
-- Two regions: the first one gets the namespace.
use utils_kernel_ndctl_ndctl.Prelude.{ℕ, refl, true, false, [], ◌∷◌}
use utils_kernel_ndctl_ndctl.Util.Size.{
  parse_size64, parse_size64_units, unit_of, scaled, after_number,
}
use utils_kernel_ndctl_ndctl.Namespace.Params.{mode_of, util_nsmode}
use utils_kernel_ndctl_ndctl.Namespace.Attributes.{supports}
use utils_kernel_ndctl_ndctl.Namespace.Checks.{
  available_capacity, validate_available_capacity, do_setup_pfn, check_size_align,
  check_region_align, check_minimum,
}
use utils_kernel_ndctl_ndctl.Namespace.Validate.{
  check_legacy_size, parsed_uuid, checked_name, chosen_from, seeded, requested_align, loc_from,
  check_pfn, check_enabled, validate_namespace_options,
}
use utils_kernel_ndctl_ndctl.Namespace.Control.{done}
use utils_kernel_ndctl_ndctl.Namespace.Setup.{
  passed, check_dax_align, setup_seed, setup_mode, setup_sector_size, setup_namespace,
}
use utils_kernel_ndctl_ndctl.Namespace.Reconfig.{first_idle, namespace_create}
use utils_kernel_ndctl_ndctl.Namespace.Walk.{Walk, create_regions, create_namespaces}
use utils_kernel_ndctl_ndctl.Namespace.Walk.Made.{Creations}
use utils_kernel_ndctl_ndctl.Namespace.Walk.Counted.{Counted, create_namespaces-Counted}
use utils_kernel_ndctl_ndctl.Tests.Regions.{State, control_of, start}
use utils_kernel_ndctl_ndctl.Tests.Namespaces.{libc, options}

abbrev created : Walk State
created = record { rc = done; processed = 1; saved_rc = done; state = start }

create_namespaces-Counted_example :
    Creations {R = ℕ} (λ r. control_of done) (λ r. true) false (2 ∷ []) libc options start start 1
    × Counted false created
unfolding create_namespaces create_regions namespace_create first_idle validate_namespace_options
    check_enabled validate_available_capacity available_capacity check_legacy_size parsed_uuid
    checked_name chosen_from seeded requested_align supports check_region_align check_size_align
    check_minimum loc_from check_pfn do_setup_pfn mode_of util_nsmode parse_size64
    parse_size64_units unit_of scaled after_number setup_namespace setup_sector_size setup_mode
    setup_seed check_dax_align passed
create_namespaces-Counted_example =
    create_namespaces-Counted {R = ℕ} (λ r. control_of done) (λ r. true) false false (2 ∷ []) libc
      options (0 ∷ 1 ∷ []) start created refl
