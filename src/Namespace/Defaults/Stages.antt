-- ===== src/Namespace/Defaults/Stages.antt =====
-- What each stage of `set_defaults` leaves in the options.
use utils_kernel_ndctl_ndctl.Prelude.{
  ℕ, ◌+◌, ◌-◌, ◌%◌, ◌^◌, ◌<◌, bit_and, false, ◌≤◌, ◌≡◌, ◌≢◌, ◌⊎◌, inl, inr, Bool, true, Option,
  some, none, List, [], ◌∷◌, arith, if-cases, not, ◌&&◌, ◌||◌, if◌then◌else◌,
}
use utils_kernel_ndctl_ndctl.Util.Size.{ullong_max, parse_size64}
use utils_kernel_ndctl_ndctl.Util.Size.Units.{parse_size64-lt}
use utils_kernel_ndctl_ndctl.Prelude.Bits.Power.{power_of_two}
use utils_kernel_ndctl_ndctl.Check.Defs.{Errno, enxio}
use utils_kernel_ndctl_ndctl.Namespace.Params.{
  String, Libc, Mode, unknown, DeviceAction, Parameters, s_memory, s_safe, s_dax, s_raw, s_fsdax,
  s_sector, s_devdax, s_pmem, s_blk, s_mem, s_dev, s_4096, is_power_of_2, util_nsmode, mode_of,
  is_str,
}
use utils_kernel_ndctl_ndctl.Namespace.Defaults.{
  last_error, mode_error, size_error, uuid_error, default_type, default_mode, default_map,
  default_sector_size, align_error, blk_dax, is_some, is_create, is_write_infoblock, is_sector,
}

-- Of an option that is given.
abbrev pub Given : (String → Type 0) → Option String → Type 0
Given P none = Unit
Given P (some s) = P s

abbrev pub AllNone : List (Option Errno) → Type 0
AllNone [] = Unit
AllNone (rc ∷ rcs) = (rc ≡ none) × AllNone rcs

pub last_error-AllNone : (rcs : List (Option Errno)) → last_error rcs ≡ none → AllNone rcs
unfolding last_error
last_error-AllNone [] h = _
last_error-AllNone (rc ∷ rcs) h =
    let rest : last_error rcs ≡ none = ground arith in (ground arith, last_error-AllNone rcs rest)

either {ℓ} :
    (P : Parameters → Type ℓ) (c : Bool) (x y : Parameters) → P x → P y → P (if c then x else y)
either P c x y h g = if-cases P c (λ e. h) (λ e. g)

is_power_of_2_lem : (v : ℕ) → v < 2 ^ 64 → is_power_of_2 v ≡ true → (k : ℕ) × (v ≡ 2 ^ k)
unfolding is_power_of_2
is_power_of_2_lem v small h =
    let set : v ≢ 0 = ground arith in
    let before : (v + (2 ^ 64 - 1)) % 2 ^ 64 ≡ v - 1 = ground arith in
    let none_shared : bit_and v ((v + (2 ^ 64 - 1)) % 2 ^ 64) ≡ 0 = ground arith in
    power_of_two 64 v small set (rw before at none_shared)

module _ (libc : Libc) where
  abbrev pub KnownType : String → Type 0
  KnownType s = (libc.strcmp s s_pmem ≡ true) ⊎ (libc.strcmp s s_blk ≡ true)

  abbrev pub KnownMap : String → Type 0
  KnownMap s = (libc.strcmp s s_mem ≡ true) ⊎ (libc.strcmp s s_dev ≡ true)

  abbrev pub KnownMode : String → Type 0
  KnownMode s = util_nsmode libc (some s) ≢ unknown

  -- One of the names of a mode, in any case.
  abbrev pub NamedMode : String → Type 0
  NamedMode s =
      (libc.strcasecmp s s_memory ≡ true)
      ⊎ (libc.strcasecmp s s_fsdax ≡ true)
      ⊎ (libc.strcasecmp s s_sector ≡ true)
      ⊎ (libc.strcasecmp s s_safe ≡ true)
      ⊎ (libc.strcasecmp s s_dax ≡ true)
      ⊎ (libc.strcasecmp s s_devdax ≡ true)
      ⊎ (libc.strcasecmp s s_raw ≡ true)

  pub KnownMode-NamedMode : (o : Option String) → Given KnownMode o → Given NamedMode o
  unfolding util_nsmode mode_of
  KnownMode-NamedMode none h = _
  KnownMode-NamedMode (some s) h = ground arith

  abbrev pub SizeParses : String → Type 0
  SizeParses s = parse_size64 libc.strtoull (some s) ≢ ullong_max

  abbrev pub UuidParses : String → Type 0
  UuidParses s = libc.uuid_parse s ≢ none

  abbrev pub PowerAlign : String → Type 0
  PowerAlign s =
      ((k : ℕ) × (parse_size64 libc.strtoull (some s) ≡ 2 ^ k))
      × (libc.page_size ≤ parse_size64 libc.strtoull (some s))

  -- The options with the mode that goes with the type.
  abbrev pub guessed : Parameters → Parameters
  guessed p = record p {
    mode = some (if is_str libc p.type s_pmem then s_fsdax else s_sector);
    mode_default = true;
  }

  pub default_type-KnownType :
      ((s : String) → libc.strcmp s s ≡ true)
      → (action : DeviceAction) (p : Parameters) (o : Option String) → p.type ≡ o
      → (default_type libc action p o).0 ≡ none
      → Given KnownType (default_type libc action p o).1.type
  default_type-KnownType same action p none e h =
      either (λ q. Given KnownType q.type) (not (is_some p.reconfig) && is_create action)
        (record p { type = some s_pmem }) p (inl (same s_pmem)) (rw e _)
  default_type-KnownType same action p (some t) e h = rw e (ground arith)

  known_fsdax : ((s : String) → libc.strcasecmp s s ≡ true) → KnownMode s_fsdax
  unfolding util_nsmode mode_of
  known_fsdax same = ground (arith, same s_fsdax)

  known_sector : ((s : String) → libc.strcasecmp s s ≡ true) → KnownMode s_sector
  unfolding util_nsmode mode_of
  known_sector same = ground (arith, same s_sector)

  mode_error-none : (action : DeviceAction) (m : Mode) → mode_error action m ≡ none → m ≢ unknown
  mode_error-none action m h = ground arith

  pub default_mode-keeps {ℓ} :
      (P : Parameters → Type ℓ) (action : DeviceAction) (p : Parameters) (o : Option String)
      → P p
      → P (record p { mode = some s_fsdax })
      → P (guessed p)
      → P (default_mode libc action p o).1
  default_mode-keeps P action p (some t) h g k = h
  default_mode-keeps P action p none h g k =
      either P (is_write_infoblock action) (record p { mode = some s_fsdax })
        (if not (is_some p.reconfig) && is_some p.type then guessed p else p) g
        (either P (not (is_some p.reconfig) && is_some p.type) (guessed p) p k h)

  pub default_mode-KnownMode :
      ((s : String) → libc.strcasecmp s s ≡ true)
      → (action : DeviceAction) (p : Parameters) (o : Option String) → p.mode ≡ o
      → (default_mode libc action p o).0 ≡ none
      → Given KnownMode (default_mode libc action p o).1.mode
  default_mode-KnownMode same action p none e h =
      default_mode-keeps (λ q. Given KnownMode q.mode) action p none (rw e _) (known_fsdax same)
        (if-cases KnownMode (is_str libc p.type s_pmem) (λ f. known_fsdax same)
          (λ f. known_sector same))
  default_mode-KnownMode same action p (some t) e h =
      rw e (mode_error-none action (util_nsmode libc (some t)) h)

  pub default_map-KnownMap :
      ((s : String) → libc.strcmp s s ≡ true)
      → (p : Parameters) (o : Option String) → p.map ≡ o
      → (default_map libc p o).0 ≡ none
      → Given KnownMap (default_map libc p o).1.map
  unfolding last_error
  default_map-KnownMap same p none e h =
      either (λ q. Given KnownMap q.map) (not (is_some p.reconfig)) (record p { map = some s_dev })
        p (inr (same s_dev)) (rw e _)
  default_map-KnownMap same p (some t) e h = rw e (ground arith)

  pub size_error-SizeParses : (o : Option String) → size_error libc o ≡ none → Given SizeParses o
  size_error-SizeParses none h = _
  size_error-SizeParses (some s) h = ground arith

  pub uuid_error-UuidParses : (o : Option String) → uuid_error libc o ≡ none → Given UuidParses o
  uuid_error-UuidParses none h = _
  uuid_error-UuidParses (some s) h = ground arith

  pub align_error-PowerAlign : (o : Option String) → align_error libc o ≡ none → Given PowerAlign o
  align_error-PowerAlign none h = _
  align_error-PowerAlign (some s) h =
      let align = parse_size64 libc.strtoull (some s) in
      let power : is_power_of_2 align ≡ true = ground arith in
      (is_power_of_2_lem align (parse_size64-lt libc.strtoull (some s)) power, ground arith)

  -- The type is not `blk`, or the mode neither `fsdax` nor `devdax`.
  abbrev pub SectorOnly : Option String → Option String → Type 0
  SectorOnly (some type) (some mode) =
      (libc.strcmp type s_blk ≡ false)
      ⊎ ((libc.strcmp mode s_fsdax ≡ false) × (libc.strcmp mode s_devdax ≡ false))
  SectorOnly _ _ = Unit

  pub blk_dax-SectorOnly :
      (p : Parameters) (type mode : Option String)
      → p.type ≡ type
      → p.mode ≡ mode
      → blk_dax libc p ≡ none
      → SectorOnly type mode
  blk_dax-SectorOnly p none mode e e' h = _
  blk_dax-SectorOnly p (some t) none e e' h = _
  blk_dax-SectorOnly p (some t) (some m) e e' h =
      let h' : (if libc.strcmp t s_blk && (libc.strcmp m s_fsdax || libc.strcmp m s_devdax)
            then some enxio
            else none)
          ≡ none =
        rw (e, e') at h in
      ground arith

  -- A stage changes its own option only.
  pub default_map-keeps {ℓ} :
      (P : Parameters → Type ℓ) (p : Parameters) (o : Option String)
      → P p
      → P (record p { map = some s_dev })
      → P (default_map libc p o).1
  default_map-keeps P p (some t) h g = h
  default_map-keeps P p none h g =
      either P (not (is_some p.reconfig)) (record p { map = some s_dev }) p g h

  pub default_sector_size-keeps {ℓ} :
      (P : Parameters → Type ℓ) (p : Parameters) (o : Option String)
      → P p
      → P (record p { sector_size = some s_4096 })
      → P (default_sector_size libc p o).1
  default_sector_size-keeps P p (some t) h g = h
  default_sector_size-keeps P p none h g =
      either P (is_str libc p.type s_blk || is_sector (util_nsmode libc p.mode))
        (record p { sector_size = some s_4096 }) p g h
