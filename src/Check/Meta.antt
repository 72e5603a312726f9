-- ===== src/Check/Meta.antt =====
-- `btt_parse_meta`: an arena from its info block.
pub mod Counts
use utils_kernel_ndctl_ndctl.Prelude.{
  ℕ, ◌+◌, ◌-◌, ◌%◌, ◌^◌, Bool, true, false, not, ltb, ◌==◌, if◌then◌else◌, bit_and,
}
use utils_kernel_ndctl_ndctl.Check.Defs.{Host, Rc, ok, errno, enxio, BttSb, ArenaInfo}

abbrev pub btt_info_size : ℕ
btt_info_size = 4096

-- The difference of two `u32`.
unfoldable pub sub32 : ℕ → ℕ → ℕ
sub32 a b = (a + 2 ^ 32 - b) % 2 ^ 32

-- The counts and sizes of blocks, which are set before they are checked.
unfoldable pub parse_counts : Host → BttSb → ArenaInfo → ArenaInfo
parse_counts host sb a = record a {
  internal_nlba = host.le32_to_cpu sb.internal_nlba;
  internal_lbasize = host.le32_to_cpu sb.internal_lbasize;
  external_nlba = host.le32_to_cpu sb.external_nlba;
  external_lbasize = host.le32_to_cpu sb.external_lbasize;
  nfree = host.le32_to_cpu sb.nfree;
}

-- The version, the offsets, which are of 64 bits, the size and the flags.
unfoldable pub parse_offsets : Host → BttSb → ℕ → ArenaInfo → ArenaInfo
parse_offsets host sb arena_off a =
    let info2off = (arena_off + host.le64_to_cpu sb.info2off) % 2 ^ 64 in
    record a {
      version_major = host.le16_to_cpu sb.version_major;
      version_minor = host.le16_to_cpu sb.version_minor;
      nextoff = if sb.nextoff == 0 then 0 else (arena_off + host.le64_to_cpu sb.nextoff) % 2 ^ 64;
      infooff = arena_off;
      dataoff = (arena_off + host.le64_to_cpu sb.dataoff) % 2 ^ 64;
      mapoff = (arena_off + host.le64_to_cpu sb.mapoff) % 2 ^ 64;
      logoff = (arena_off + host.le64_to_cpu sb.logoff) % 2 ^ 64;
      info2off = info2off;
      size =
          if ltb 0 (host.le64_to_cpu sb.nextoff)
          then host.le64_to_cpu sb.nextoff
          else (info2off + 2 ^ 64 - arena_off + btt_info_size) % 2 ^ 64;
      flags = host.le32_to_cpu sb.flags;
    }

-- `IB_FLAG_ERROR_MASK` is 1.
unfoldable pub btt_parse_meta : Host → ArenaInfo → BttSb → ℕ → Rc × ArenaInfo
btt_parse_meta host arena sb arena_off =
    let a = parse_counts host sb arena in
    let b = parse_offsets host sb arena_off a in
    if not (sub32 a.internal_nlba a.external_nlba == a.nfree)
    then (errno enxio, a)
    else if not (a.internal_lbasize == a.external_lbasize)
    then (errno enxio, a)
    else if not (bit_and sb.flags 1 == 0)
    then (errno enxio, b)
    else (ok, b)
