-- ===== src/Tests/Regions.antt =====
-- The region of the sample with its namespace: how many namespaces there are, and the info block.
use utils_kernel_ndctl_ndctl.Prelude.{
  ℕ, ◌^◌, ◌≡◌, ◌≢◌, ◌⊎◌, refl, true, false, some, none, List, [], ◌∷◌,
}
use utils_kernel_ndctl_ndctl.Util.Size.{
  parse_size64, parse_size64_units, unit_of, scaled, after_number,
}
use utils_kernel_ndctl_ndctl.Check.Defs.{system}
use utils_kernel_ndctl_ndctl.Namespace.Params.{mode_of, util_nsmode}
use utils_kernel_ndctl_ndctl.Namespace.Attributes.{pmem, supports}
use utils_kernel_ndctl_ndctl.Namespace.Checks.{
  available_capacity, validate_available_capacity, do_setup_pfn, check_size_align,
  check_region_align, check_minimum,
}
use utils_kernel_ndctl_ndctl.Namespace.Validate.{
  check_legacy_size, parsed_uuid, checked_name, chosen_from, seeded, requested_align, loc_from,
  check_pfn, check_enabled, validate_namespace_options,
}
use utils_kernel_ndctl_ndctl.Namespace.Control.{Ret, done, failed, SeedDevice, Control}
use utils_kernel_ndctl_ndctl.Namespace.Labels.{Labels, enable_labels}
use utils_kernel_ndctl_ndctl.Namespace.Labels.Untouched.{AllSupport, Enabled, enable_labels-Enabled}
use utils_kernel_ndctl_ndctl.Namespace.Setup.{
  passed, check_dax_align, setup_seed, setup_mode, setup_sector_size, setup_namespace,
}
use utils_kernel_ndctl_ndctl.Namespace.Setup.Enabled.{EnabledAs, setup_namespace-EnabledAs}
use utils_kernel_ndctl_ndctl.Namespace.Reconfig.{first_idle, namespace_create, zero_info_block}
use utils_kernel_ndctl_ndctl.Namespace.Reconfig.Zeroed.{
  FailedOrZeroed, zero_info_block-FailedOrZeroed,
}
use utils_kernel_ndctl_ndctl.Namespace.Reconfig.Refused.{Undone, namespace_create-Undone}
use utils_kernel_ndctl_ndctl.Tests.Namespaces.{libc, options, idle, region, parsed}

abbrev pub State : Type 0
State = ℕ × List ℕ

-- The pfn device, with the answer to its enable.
abbrev seed_of : Ret → SeedDevice State ℕ
seed_of rc = record {
  set_uuid = λ u s. (done, s);
  set_location = λ l s. (done, s);
  has_align = λ s. true;
  set_align = λ a s. (done, s);
  set_namespace = λ n s. (done, s);
  enable = λ s. (rc, s);
}

abbrev pub control_of : Ret → Control State ℕ
control_of rc = record {
  is_ro = λ s. false;
  region = λ s. region;
  attributes = λ s n. idle;
  nstype = λ s n. pmem;
  resource = λ s n. 2 ^ 32;
  namespaces = λ s. 0 ∷ [];
  namespace_seed = λ s. none;
  id = λ n. n;
  is_configuration_idle = λ s n. true;
  is_active = λ s n. true;
  set_uuid = λ n u s. (done, s);
  set_alt_name = λ n a s. (done, s);
  set_size = λ n z s. (done, s);
  set_sector_size = λ n z s. (done, s);
  set_enforce_mode = λ n m s. s;
  set_raw_mode = λ n m s. s;
  enable = λ n s. (done, s);
  disable_safe = λ n s. (done, s);
  disable_invalidate = λ n s. s;
  delete = λ n s. (done, (0, s.1));
  pfn_seed = λ s. some (seed_of rc);
  dax_seed = λ s. none;
  btt_seed = λ s. none;
  memory = (true, true);
  open_exclusive = λ n s. true;
  read_info = λ n s. (true, s.1);
  write_zeros = λ n s. (true, (s.0, 0 ∷ []));
}

-- An info block is there.
abbrev pub start : State
start = (1, 7 ∷ [])

abbrev info_block : ℕ → State → List ℕ
info_block n s = s.1

zero_info_block-FailedOrZeroed_example :
    FailedOrZeroed
      (control_of done)
      false
      (2 ∷ [])
      info_block
      0
      start
      (zero_info_block (control_of done) false (2 ∷ []) 0 start)
zero_info_block-FailedOrZeroed_example =
    zero_info_block-FailedOrZeroed (control_of done) false (2 ∷ []) info_block 0 start start
      (λ n u h. refl) (λ n u h. (refl, _)) (λ u. refl) (λ u. refl) refl refl

setup_namespace-EnabledAs_example :
    EnabledAs
      (control_of done)
      false
      (2 ∷ [])
      0
      parsed
      (setup_namespace (control_of done) false (2 ∷ []) 0 parsed start)
unfolding setup_namespace setup_sector_size setup_mode setup_seed check_dax_align passed supports
    do_setup_pfn
setup_namespace-EnabledAs_example =
    setup_namespace-EnabledAs (control_of done) false (2 ∷ []) 0 parsed start refl

-- The pfn device is not enabled: the namespace is deleted.
namespace_create-Undone_example :
    Undone
      (control_of (failed (system 5)))
      false
      (2 ∷ [])
      (validate_namespace_options libc options region none)
      start
      (failed (system 5), (0, 7 ∷ []))
unfolding namespace_create first_idle validate_namespace_options check_enabled
    validate_available_capacity available_capacity check_legacy_size parsed_uuid checked_name
    chosen_from seeded requested_align supports check_region_align check_size_align check_minimum
    loc_from check_pfn do_setup_pfn mode_of util_nsmode parse_size64 parse_size64_units unit_of
    scaled after_number setup_namespace setup_sector_size setup_mode setup_seed check_dax_align
    passed
namespace_create-Undone_example =
    namespace_create-Undone (control_of (failed (system 5))) false (2 ∷ []) libc options start
      (failed (system 5), (0, 7 ∷ [])) refl refl

-- A region with one DIMM.
abbrev labels : Labels State ℕ
labels = record {
  mappings = λ s. 1;
  dimms = λ s. 0 ∷ [];
  supports = λ d. (true, true, true);
  is_active = λ s d. false;
  nstype = λ s. pmem;
  disable_invalidate = λ s. s;
  enable = λ s. s;
  read_label_index = λ d s. (true, s);
  init_labels = λ d v s. (some 4, s);
  disable_dimm = λ d s. s;
  enable_dimm = λ d s. s;
  available_labels = λ s d. 3;
}

enable_labels-Enabled_example :
    (enable_labels labels start ≡ (failed (system 19), start))
    ⊎ ((labels.dimms start ≢ [])
        × AllSupport labels (labels.dimms start)
        × Enabled labels (enable_labels labels start))
enable_labels-Enabled_example = enable_labels-Enabled labels start refl
