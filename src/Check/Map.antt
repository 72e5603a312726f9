-- ===== src/Check/Map.antt =====
-- The map of an arena: from external to internal blocks. `none` is an access past the mapped map.
pub mod Entry
use utils_kernel_ndctl_ndctl.Prelude.{
  ℕ, Bool, Option, some, none, List, ◌>>=◌, ltb, ◌==◌, if◌then◌else◌, get_elem?, set, length,
  bit_and, bit_or,
}
use utils_kernel_ndctl_ndctl.Check.Defs.{
  Host, Errno, Rc, ok, errno, CheckOpts, BttSb, ArenaMap, ArenaInfo,
}

-- `MAP_ENT_NORMAL` and `MAP_LBA_MASK`
abbrev pub map_ent_normal : ℕ
map_ent_normal = 0xc000_0000

abbrev pub map_lba_mask : ℕ
map_lba_mask = 0x3fff_ffff

-- The host, the options, whether memory can be had, and what `msync` answers after a store to map
-- entry `lba` or to the backup info block, given the arena as the store left it.
pub record Env : Type 0 where
  pub host : Host
  pub opts : CheckOpts
  pub memory : Bool
  pub sync_map : ArenaInfo → ℕ → Option Errno
  pub sync_info2 : ArenaInfo → Option Errno

-- `if (msync(...) < 0) return -errno; return 0;`
abbrev pub synced : Option Errno → Rc
synced none = ok
synced (some e) = errno e

-- What an entry of the map says of block `lba`: a block never written maps to itself.
unfoldable pub decode : ℕ → ℕ → ℕ
decode raw_mapping lba =
    if bit_and raw_mapping map_ent_normal == 0 then lba else bit_and raw_mapping map_lba_mask

unfoldable pub btt_map_lookup : Host → ArenaInfo → ℕ → Option ℕ
btt_map_lookup host a lba = do
  raw ← get_elem? a.map.entries lba
  some (decode (host.le32_to_cpu raw) lba)

-- Without --repair nothing is written, and the message returns 0.
unfoldable pub btt_map_write : Env → ArenaInfo → ℕ → ℕ → Option (Rc × ArenaInfo)
btt_map_write env a lba mapping =
    let stored = env.host.cpu_to_le32 (bit_or mapping map_ent_normal) in
    let a' = record a { map = record a.map { entries = set a.map.entries lba stored } } in
    if env.opts.repair
    then (if ltb lba (length a.map.entries) then some (synced (env.sync_map a' lba), a') else none)
    else some (ok, a)
