-- ===== src/Namespace/Defaults.antt =====
-- `set_defaults` of ndctl/namespace.c: the checks of the options before any device is looked at, and
-- the options that are filled in.
pub mod Stages
pub mod Checked
use utils_kernel_ndctl_ndctl.Prelude.{
  ℕ, ltb, ◌==◌, Bool, true, false, not, ◌&&◌, ◌||◌, Option, some, none, List, [], ◌∷◌,
  if◌then◌else◌,
}
use utils_kernel_ndctl_ndctl.Util.Size.{ullong_max, parse_size64}
use utils_kernel_ndctl_ndctl.Check.Defs.{Errno, enxio, einval}
use utils_kernel_ndctl_ndctl.Namespace.Params.{
  String, Libc, Mode, fsdax, sector, raw, devdax, unknown, DeviceAction, create, write_infoblock,
  Parameters, s_fsdax, s_sector, s_devdax, s_pmem, s_blk, s_mem, s_dev, s_4096, is_power_of_2,
  util_nsmode, is_str,
}

abbrev pub is_some : Option String → Bool
is_some none = false
is_some (some s) = true

abbrev pub is_create : DeviceAction → Bool
is_create create = true
is_create action = false

abbrev pub is_write_infoblock : DeviceAction → Bool
is_write_infoblock write_infoblock = true
is_write_infoblock action = false

-- Each `rc = -E;` replaces what was there.
unfoldable pub last_error : List (Option Errno) → Option Errno
last_error [] = none
last_error (rc ∷ rcs) = elim (last_error rcs) [ none ↦ rc | some e ↦ some e ]

abbrev pub error_if : Bool → Errno → Option Errno
error_if c e = if c then some e else none

abbrev pub mode_error : DeviceAction → Mode → Option Errno
mode_error action unknown = some einval
mode_error action fsdax = none
mode_error action devdax = none
mode_error action sector = error_if (is_write_infoblock action) einval
mode_error action raw = error_if (is_write_infoblock action) einval

abbrev pub is_sector : Mode → Bool
is_sector sector = true
is_sector mode = false

module _ (libc : Libc) where
  -- `if (param.type)`
  abbrev pub default_type : DeviceAction → Parameters → Option String → Option Errno × Parameters
  default_type action p (some type) =
      (error_if (not (libc.strcmp type s_pmem) && not (libc.strcmp type s_blk)) einval, p)
  default_type action p none = (
    none,
    if not (is_some p.reconfig) && is_create action then record p { type = some s_pmem } else p,
  )

  -- `if (param.mode)`
  abbrev pub default_mode : DeviceAction → Parameters → Option String → Option Errno × Parameters
  default_mode action p (some mode) = (mode_error action (util_nsmode libc (some mode)), p)
  default_mode action p none = (
    none,
    if is_write_infoblock action
        then record p { mode = some s_fsdax }
        else if not (is_some p.reconfig) && is_some p.type
        then record p {
          mode = some (if is_str libc p.type s_pmem then s_fsdax else s_sector);
          mode_default = true;
        }
        else p,
  )

  -- `if (param.map)`
  abbrev pub default_map : Parameters → Option String → Option Errno × Parameters
  default_map p (some map) = (
    last_error (
        error_if (not (libc.strcmp map s_mem) && not (libc.strcmp map s_dev)) einval
        ∷ error_if
            (not (is_some p.reconfig)
              && is_some p.mode
              && not (is_str libc p.mode s_fsdax)
              && not (is_str libc p.mode s_devdax))
            einval
        ∷ []),
    p,
  )
  default_map p none = (none, if not (is_some p.reconfig) then record p { map = some s_dev } else p)

  abbrev pub blk_dax : Parameters → Option Errno
  blk_dax p =
      error_if
        (is_str libc p.type s_blk && (is_str libc p.mode s_fsdax || is_str libc p.mode s_devdax))
        enxio

  abbrev pub size_error : Option String → Option Errno
  size_error none = none
  size_error (some size) = error_if (parse_size64 libc.strtoull (some size) == ullong_max) einval

  abbrev pub align_error : Option String → Option Errno
  align_error none = none
  align_error (some str) =
      let align = parse_size64 libc.strtoull (some str) in
      if align == ullong_max
      then some einval
      else error_if (not (is_power_of_2 align) || ltb align libc.page_size) einval

  abbrev pub uuid_error : Option String → Option Errno
  uuid_error none = none
  uuid_error (some uuid) = elim (libc.uuid_parse uuid) [ none ↦ some einval | some u ↦ none ]

  -- The last `if (param.sector_size)`
  abbrev pub default_sector_size : Parameters → Option String → Option Errno × Parameters
  default_sector_size p (some str) = (size_error (some str), p)
  default_sector_size p none = (
    none,
    if is_str libc p.type s_blk || is_sector (util_nsmode libc p.mode)
        then record p { sector_size = some s_4096 }
        else p,
  )

  -- The return code, `none` for 0, and the options after the call.
  unfoldable pub set_defaults : DeviceAction → Parameters → Option Errno × Parameters
  set_defaults action p =
      let typed = default_type action p p.type in
      let moded = default_mode action typed.1 typed.1.mode in
      let mapped = default_map moded.1 moded.1.map in
      let sized = default_sector_size mapped.1 mapped.1.sector_size in
      (
        last_error (
            typed.0
            ∷ moded.0
            ∷ mapped.0
            ∷ blk_dax mapped.1
            ∷ size_error mapped.1.size
            ∷ size_error mapped.1.offset
            ∷ align_error mapped.1.align
            ∷ size_error mapped.1.size
            ∷ uuid_error mapped.1.uuid
            ∷ uuid_error mapped.1.parent_uuid
            ∷ sized.0
            ∷ []),
        sized.1,
      )
