-- ===== src/Namespace/Params.antt =====
-- The options of the namespace commands: `struct parameters` and `struct parsed_parameters` of
-- ndctl/namespace.c, and the modes of ndctl/libndctl.h.
use utils_kernel_ndctl_ndctl.Prelude.{
  ℕ, ◌+◌, ◌-◌, ◌%◌, ◌^◌, bit_and, ◌==◌, Bool, false, not, ◌&&◌, Option, some, none, List, [], ◌∷◌,
  if◌then◌else◌,
}

-- A string is the list of its bytes, less the last one, which is 0.
abbrev pub String : Type 0
String = List ℕ

-- The functions of the C library and of libuuid: `strtoull` gives the number and the rest;
-- `strcmp` and `strcasecmp` say whether the answer is 0; `uuid_parse` is `none` where it fails.
pub record Libc : Type 0 where
  pub strtoull : String → ℕ × String
  pub strcmp : String → String → Bool
  pub strcasecmp : String → String → Bool
  pub uuid_parse : String → Option (List ℕ)
  pub uuid_generate : List ℕ
  pub page_size : ℕ

-- `enum ndctl_namespace_mode`
pub data Mode : Type 0 where
  fsdax sector raw devdax unknown : Mode

-- `enum ndctl_pfn_loc`
pub data PfnLoc : Type 0 where
  no_loc ram pmem : PfnLoc

-- `enum device_action`
pub data DeviceAction : Type 0 where
  enable disable create destroy check wait start clear activate : DeviceAction
  read_infoblock write_infoblock : DeviceAction

-- `struct parameters`: an option that is not given is the null pointer, `none`.
pub record Parameters : Type 0 where
  pub mode_default : Bool
  pub autolabel : Bool
  pub autorecover : Bool
  pub map : Option String
  pub type : Option String
  pub uuid : Option String
  pub name : Option String
  pub size : Option String
  pub mode : Option String
  pub reconfig : Option String
  pub sector_size : Option String
  pub align : Option String
  pub offset : Option String
  pub parent_uuid : Option String

-- `struct parsed_parameters`
pub record ParsedParameters : Type 0 where
  pub loc : PfnLoc
  pub uuid : List ℕ
  pub name : String
  pub mode : Mode
  pub size : ℕ
  pub sector_size : ℕ
  pub align : ℕ
  pub autolabel : Bool
  pub autorecover : Bool

abbrev pub s_memory : String
s_memory = b'm' ∷ b'e' ∷ b'm' ∷ b'o' ∷ b'r' ∷ b'y' ∷ []

abbrev pub s_fsdax : String
s_fsdax = b'f' ∷ b's' ∷ b'd' ∷ b'a' ∷ b'x' ∷ []

abbrev pub s_sector : String
s_sector = b's' ∷ b'e' ∷ b'c' ∷ b't' ∷ b'o' ∷ b'r' ∷ []

abbrev pub s_safe : String
s_safe = b's' ∷ b'a' ∷ b'f' ∷ b'e' ∷ []

abbrev pub s_dax : String
s_dax = b'd' ∷ b'a' ∷ b'x' ∷ []

abbrev pub s_devdax : String
s_devdax = b'd' ∷ b'e' ∷ b'v' ∷ b'd' ∷ b'a' ∷ b'x' ∷ []

abbrev pub s_raw : String
s_raw = b'r' ∷ b'a' ∷ b'w' ∷ []

abbrev pub s_pmem : String
s_pmem = b'p' ∷ b'm' ∷ b'e' ∷ b'm' ∷ []

abbrev pub s_blk : String
s_blk = b'b' ∷ b'l' ∷ b'k' ∷ []

abbrev pub s_mem : String
s_mem = b'm' ∷ b'e' ∷ b'm' ∷ []

abbrev pub s_dev : String
s_dev = b'd' ∷ b'e' ∷ b'v' ∷ []

abbrev pub s_4096 : String
s_4096 = b'4' ∷ b'0' ∷ b'9' ∷ b'6' ∷ []

-- `is_power_of_2` of util/size.h, on 64 bits
unfoldable pub is_power_of_2 : ℕ → Bool
is_power_of_2 v = not (v == 0) && (bit_and v ((v + (2 ^ 64 - 1)) % 2 ^ 64) == 0)

module _ (libc : Libc) where
  -- `util_nsmode` of ndctl/filter.c
  unfoldable pub mode_of : String → Mode
  mode_of mode =
      if libc.strcasecmp mode s_memory
      then fsdax
      else if libc.strcasecmp mode s_fsdax
      then fsdax
      else if libc.strcasecmp mode s_sector
      then sector
      else if libc.strcasecmp mode s_safe
      then sector
      else if libc.strcasecmp mode s_dax
      then devdax
      else if libc.strcasecmp mode s_devdax
      then devdax
      else if libc.strcasecmp mode s_raw
      then raw
      else unknown

  unfoldable pub util_nsmode : Option String → Mode
  util_nsmode none = unknown
  util_nsmode (some mode) = mode_of mode

  -- A test `s && strcmp(s, lit) == 0`
  abbrev pub is_str : Option String → String → Bool
  is_str none lit = false
  is_str (some s) lit = libc.strcmp s lit
