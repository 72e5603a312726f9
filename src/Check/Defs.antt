-- ===== src/Check/Defs.antt =====
-- The data of ndctl/check.c and of ndctl/namespace.h, and the byte order of the host.
use utils_kernel_ndctl_ndctl.Prelude.{ℕ, Bool, List}

-- What the code takes from ccan/endian and from the layout of the host: the conversions of
-- little-endian fields, the `u32` that two neighbouring `le16` fields make, and the two `u32` that an
-- `le64` field makes.
pub record Host : Type 0 where
  pub le16_to_cpu : ℕ → ℕ
  pub le32_to_cpu : ℕ → ℕ
  pub le64_to_cpu : ℕ → ℕ
  pub cpu_to_le32 : ℕ → ℕ
  pub join16 : ℕ → ℕ → ℕ
  pub split64 : ℕ → ℕ × ℕ

-- The error numbers that the checker returns itself, and any other that a system call sets.
pub data Errno : Type 0 where
  enxio enomem einval eio ebusy efault : Errno
  system : ℕ → Errno

-- `enum btt_errcodes`, less `BTT_OK`.
pub data BttErrcode : Type 0 where
  log_eql_seq log_oob_seq log_oob_lba log_oob_old log_oob_new : BttErrcode
  log_map_err map_oob bitmap_error logfix_err : BttErrcode

-- The `int rc` of the checker: 0, a negated error number, or a `BTT_` code.
pub data Rc : Type 0 where
  ok : Rc
  errno : Errno → Rc
  btt : BttErrcode → Rc

pub record CheckOpts : Type 0 where
  pub verbose : Bool
  pub force : Bool
  pub repair : Bool
  pub logfix : Bool

-- The fields hold what is stored, little-endian.
pub record LogEntry : Type 0 where
  pub lba : ℕ
  pub old_map : ℕ
  pub new_map : ℕ
  pub seq : ℕ

-- An index into `ent[4]`.
pub data Slot : Type 0 where
  s0 s1 s2 s3 : Slot

pub record LogGroup : Type 0 where
  pub ent0 : LogEntry
  pub ent1 : LogEntry
  pub ent2 : LogEntry
  pub ent3 : LogEntry

-- `log->ent[i]`
abbrev pub ent : LogGroup → Slot → LogEntry
ent log s0 = log.ent0
ent log s1 = log.ent1
ent log s2 = log.ent2
ent log s3 = log.ent3

-- `log->ent[i].seq = v`
abbrev pub set_seq : LogGroup → Slot → ℕ → LogGroup
set_seq log s0 v = record log { ent0 = record log.ent0 { seq = v } }
set_seq log s1 v = record log { ent1 = record log.ent1 { seq = v } }
set_seq log s2 v = record log { ent2 = record log.ent2 { seq = v } }
set_seq log s3 v = record log { ent3 = record log.ent3 { seq = v } }

-- `struct btt_sb`; the byte arrays are lists of the `u32` words that they make.
pub record BttSb : Type 0 where
  pub signature : List ℕ
  pub uuid : List ℕ
  pub parent_uuid : List ℕ
  pub flags : ℕ
  pub version_major : ℕ
  pub version_minor : ℕ
  pub external_lbasize : ℕ
  pub external_nlba : ℕ
  pub internal_lbasize : ℕ
  pub internal_nlba : ℕ
  pub nfree : ℕ
  pub infosize : ℕ
  pub nextoff : ℕ
  pub dataoff : ℕ
  pub mapoff : ℕ
  pub logoff : ℕ
  pub info2off : ℕ
  pub padding : List ℕ
  pub checksum : ℕ

-- `struct arena_map`: what is mapped. The data area is mapped and never read.
pub record ArenaMap : Type 0 where
  pub info : BttSb
  pub entries : List ℕ
  pub log : List LogGroup
  pub info2 : BttSb

-- `struct arena_info`
pub record ArenaInfo : Type 0 where
  pub map : ArenaMap
  pub size : ℕ
  pub external_lba_start : ℕ
  pub internal_nlba : ℕ
  pub internal_lbasize : ℕ
  pub external_nlba : ℕ
  pub external_lbasize : ℕ
  pub nfree : ℕ
  pub version_major : ℕ
  pub version_minor : ℕ
  pub nextoff : ℕ
  pub infooff : ℕ
  pub dataoff : ℕ
  pub mapoff : ℕ
  pub logoff : ℕ
  pub info2off : ℕ
  pub flags : ℕ
  pub num : ℕ
  pub log_index0 : Slot
  pub log_index1 : Slot
