-- ===== src/Tests/Sample.antt =====
-- A little-endian host and a small arena: four internal blocks, two of them external, two lanes.
use utils_kernel_ndctl_ndctl.Prelude.{
  ℕ, ◌+◌, ◌*◌, ◌/◌, ◌%◌, ◌^◌, true, false, [], ◌∷◌, none, replicate,
}
use utils_kernel_ndctl_ndctl.Check.Defs.{
  Host, CheckOpts, LogEntry, LogGroup, s0, s1, BttSb, ArenaInfo,
}
use utils_kernel_ndctl_ndctl.Check.Map.{Env}

abbrev pub little : Host
little = record {
  le16_to_cpu = λ v. v;
  le32_to_cpu = λ v. v;
  le64_to_cpu = λ v. v;
  cpu_to_le32 = λ v. v;
  join16 = λ a b. a + b * 2 ^ 16;
  split64 = λ v. (v % 2 ^ 32, v / 2 ^ 32);
}

abbrev pub repairing : CheckOpts
repairing = record { verbose = false; force = false; repair = true; logfix = true }

abbrev pub reading : CheckOpts
reading = record { verbose = false; force = false; repair = false; logfix = false }

abbrev pub env_of : CheckOpts → Env
env_of opts = record {
  host = little;
  opts = opts;
  memory = true;
  sync_map = λ a lba. none;
  sync_info2 = λ a. none;
}

abbrev pub padding : LogEntry
padding = record { lba = 0; old_map = 0; new_map = 0; seq = 0 }

-- A lane of a log that was never written to.
abbrev pub lane : ℕ → ℕ → LogGroup
lane block free = record {
  ent0 = record { lba = block; old_map = free; new_map = free; seq = 1 };
  ent1 = padding;
  ent2 = padding;
  ent3 = padding;
}

abbrev pub block : BttSb
block = record {
  signature = 0x5f54_5442 ∷ 0x4e45_5241 ∷ 0x4e49_5f41 ∷ 0x4f46 ∷ [];
  uuid = replicate 4 7;
  parent_uuid = replicate 4 9;
  flags = 0;
  version_major = 1;
  version_minor = 1;
  external_lbasize = 512;
  external_nlba = 2;
  internal_lbasize = 512;
  internal_nlba = 4;
  nfree = 2;
  infosize = 4096;
  nextoff = 0;
  dataoff = 4096;
  mapoff = 6144;
  logoff = 8192;
  info2off = 12288;
  padding = [];
  checksum = 0;
}

abbrev pub arena : ArenaInfo
arena = record {
  map = record {
    info = block;
    entries = 0xc000_0000 ∷ 0xc000_0001 ∷ [];
    log = lane 0 2 ∷ lane 1 3 ∷ [];
    info2 = block;
  };
  size = 16384;
  external_lba_start = 0;
  internal_nlba = 4;
  internal_lbasize = 512;
  external_nlba = 2;
  external_lbasize = 512;
  nfree = 2;
  version_major = 1;
  version_minor = 1;
  nextoff = 0;
  infooff = 4096;
  dataoff = 8192;
  mapoff = 10240;
  logoff = 12288;
  info2off = 16384;
  flags = 0;
  num = 0;
  log_index0 = s0;
  log_index1 = s1;
}
