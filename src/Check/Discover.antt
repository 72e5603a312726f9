-- ===== src/Check/Discover.antt =====
-- `btt_discover_arenas`: the arenas, one behind the other, each from its info block.
pub mod Usable
pub mod Chain
use utils_kernel_ndctl_ndctl.Prelude.{
  ℕ, zero, suc, ◌+◌, ◌-◌, ◌%◌, ◌^◌, Bool, true, false, not, Option, some, none, List, [], ◌∷◌, ltb,
  leb, ◌==◌, if◌then◌else◌, length,
}
use utils_kernel_ndctl_ndctl.Check.Defs.{
  Host, Rc, ok, errno, btt, enomem, BttSb, ArenaMap, ArenaInfo, s0,
}
use utils_kernel_ndctl_ndctl.Check.Info.{btt_info_verify}
use utils_kernel_ndctl_ndctl.Check.Meta.{btt_info_size, btt_parse_meta}
use utils_kernel_ndctl_ndctl.Check.Media.{
  Result, err, got, Device, BttChk, arena_max_size, sz_4k, rounddown, btt_read_info, btt_write_info,
  btt_info_read_verify,
}
use utils_kernel_ndctl_ndctl.Check.Recover.{sub64}

-- The zeroed memory of an arena. Nothing is mapped yet.
abbrev pub no_block : BttSb
no_block = record {
  signature = [];
  uuid = [];
  parent_uuid = [];
  flags = 0;
  version_major = 0;
  version_minor = 0;
  external_lbasize = 0;
  external_nlba = 0;
  internal_lbasize = 0;
  internal_nlba = 0;
  nfree = 0;
  infosize = 0;
  nextoff = 0;
  dataoff = 0;
  mapoff = 0;
  logoff = 0;
  info2off = 0;
  padding = [];
  checksum = 0;
}

abbrev pub no_map : ArenaMap
no_map = record { info = no_block; entries = []; log = []; info2 = no_block }

abbrev pub zeroed_arena : ArenaInfo
zeroed_arena = record {
  map = no_map;
  size = 0;
  external_lba_start = 0;
  internal_nlba = 0;
  internal_lbasize = 0;
  external_nlba = 0;
  external_lbasize = 0;
  nfree = 0;
  version_major = 0;
  version_minor = 0;
  nextoff = 0;
  infooff = 0;
  dataoff = 0;
  mapoff = 0;
  logoff = 0;
  info2off = 0;
  flags = 0;
  num = 0;
  log_index0 = s0;
  log_index1 = s0;
}

module _ {M : Type 0} (dev : Device M) (bttc : BttChk) where
  abbrev pub restored_block : BttSb → Rc × M → Result BttSb × M
  restored_block sb (ok, m) = (got sb, m)
  restored_block sb (errno e, m) = (err (errno e), m)
  restored_block sb (btt c, m) = (err (btt c), m)

  abbrev pub backup : ℕ → M → Result BttSb → Result BttSb × M
  backup cur_off m (err rc) = (err rc, m)
  backup cur_off m (got sb) = restored_block sb (btt_write_info dev bttc m sb cur_off)

  -- Where the backup info block of the arena at `cur_off` should be.
  unfoldable pub backup_offset : ℕ → ℕ → ℕ
  backup_offset remaining cur_off =
      if leb remaining arena_max_size
      then sub64 (rounddown bttc.rawsize sz_4k) btt_info_size
      else (cur_off + arena_max_size - btt_info_size) % 2 ^ 64

  -- A block that fails the verification is replaced by the backup.
  abbrev pub verified_or_backup : ℕ → ℕ → M → Rc × BttSb → Result BttSb × M
  verified_or_backup remaining cur_off m (ok, sb) = (got sb, m)
  verified_or_backup remaining cur_off m (errno e, sb) =
      backup cur_off m (btt_info_read_verify dev bttc m (backup_offset remaining cur_off))
  verified_or_backup remaining cur_off m (btt c, sb) =
      backup cur_off m (btt_info_read_verify dev bttc m (backup_offset remaining cur_off))

  abbrev pub read_or_backup : ℕ → ℕ → M → Result BttSb → Result BttSb × M
  read_or_backup remaining cur_off m (err rc) = (err rc, m)
  read_or_backup remaining cur_off m (got sb) =
      verified_or_backup remaining cur_off m
        (btt_info_verify bttc.host bttc.signature bttc.parent_uuid sb)

  unfoldable pub arena_block : ℕ → ℕ → M → Result BttSb × M
  arena_block remaining cur_off m = read_or_backup remaining cur_off m (btt_read_info dev m cur_off)

-- The arenas found, and the number of blocks of all.
abbrev pub Found : Type 0 → Type 0
Found M = Result (List ArenaInfo × ℕ) × M

-- The arenas behind `a`, with `a` in front.
abbrev pub cons_arena : {M : Type 0} → ArenaInfo → Option (Found M) → Option (Found M)
cons_arena a none = none
cons_arena a (some (err rc, m)) = some (err rc, m)
cons_arena a (some (got (arenas, nlba), m)) = some (got (a ∷ arenas, nlba), m)

abbrev pub add64 : ℕ → ℕ → ℕ
add64 a b = (a + b) % 2 ^ 64

abbrev pub with_arena :
    {M : Type 0} → ℕ → M → Rc × ArenaInfo → (ArenaInfo → M → Option (Found M)) → Option (Found M)
with_arena cur_nlba m (errno e, a) next = some (err (errno e), m)
with_arena cur_nlba m (btt c, a) next = some (err (btt c), m)
with_arena cur_nlba m (ok, a) next =
    if a.nextoff == 0
    then some (got (a ∷ [], add64 cur_nlba a.external_nlba), m)
    else cons_arena a (next a m)

abbrev pub with_block :
    {M : Type 0}
    → Host
    → ℕ
    → ℕ
    → ℕ
    → Result BttSb × M
    → (ArenaInfo → M → Option (Found M))
    → Option (Found M)
with_block host cur_off cur_nlba i (err rc, m) next = some (err rc, m)
with_block host cur_off cur_nlba i (got sb, m) next =
    let arena = record zeroed_arena { infooff = cur_off; num = i; external_lba_start = cur_nlba } in
    with_arena cur_nlba m (btt_parse_meta host arena sb cur_off) next

module _ {M : Type 0} (dev : Device M) (bttc : BttChk) (memory : ℕ → Bool) where
  -- The `while (remaining)` loop. `memory i` says whether `realloc` has memory for arena `i`.
  unfoldable pub discover : ℕ → ℕ → ℕ → ℕ → ℕ → M → Option (Found M)
  discover zero remaining cur_off cur_nlba i m = none
  discover (suc fuel) remaining cur_off cur_nlba i m =
      let round =
        with_block bttc.host cur_off cur_nlba i (arena_block dev bttc remaining cur_off m) (λ a m'.
          discover fuel (sub64 remaining a.size) (add64 cur_off a.size)
            (add64 cur_nlba a.external_nlba) (i + 1) m') in
      if remaining == 0
      then some (got ([], cur_nlba), m)
      else if memory i
      then round
      else some (err (errno enomem), m)

  -- What is left in `struct btt_chk`. On an error the arenas are freed.
  abbrev pub recorded : Found M → Rc × BttChk × M
  recorded (err rc, m) = (rc, record bttc { arena = [] }, m)
  recorded (got (arenas, nlba), m) =
      (ok, record bttc { num_arenas = length arenas; nlba = nlba; arena = arenas }, m)

  -- A round that goes on moves forward on the device, so that `rawsize + 2` rounds are enough.
  unfoldable pub btt_discover_arenas : Bool → M → Option (Rc × BttChk × M)
  btt_discover_arenas sb_memory m =
      if sb_memory
      then elim (discover (bttc.rawsize + 2) bttc.rawsize bttc.start_off 0 0 m) [
        | none ↦ none
        | some found ↦ some (recorded found)
      ]
      else some (errno enomem, bttc, m)
