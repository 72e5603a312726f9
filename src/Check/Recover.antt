-- ===== src/Check/Recover.antt =====
-- `btt_recover_first_sb`: the first info block, restored from where a backup may be.
pub mod Estimate
pub mod Answers
pub mod Search
pub mod Restored
pub mod ReadOnly
use mathlib.Core.Option
use utils_kernel_ndctl_ndctl.Prelude.{
  ℕ, zero, suc, ◌+◌, ◌-◌, ◌/◌, ◌%◌, ◌^◌, min, Bool, true, false, ◌&&◌, not, Option, some, none,
  ◌>>=◌, ltb, ◌==◌, if◌then◌else◌,
}
use utils_kernel_ndctl_ndctl.Check.Defs.{Host, Rc, ok, errno, btt, enxio, enomem, einval, BttSb}
use utils_kernel_ndctl_ndctl.Check.Info.{btt_info_verify}
use utils_kernel_ndctl_ndctl.Check.Meta.{btt_info_size}
use utils_kernel_ndctl_ndctl.Check.Media.{
  Result, err, got, Device, BttChk, arena_min_size, arena_max_size, sz_4k, rounddown, btt_read_info,
  btt_write_info, btt_info_read_verify,
}

-- `BTT1_START_OFFSET` and `BTT2_START_OFFSET`
abbrev pub btt1_start_offset : ℕ
btt1_start_offset = 4096

abbrev pub btt2_start_offset : ℕ
btt2_start_offset = 0

-- `none` is the negative answer.
unfoldable pub btt_sb_get_expected_offset : Host → BttSb → Option ℕ
btt_sb_get_expected_offset host sb =
    let major = host.le16_to_cpu sb.version_major in
    let minor = host.le16_to_cpu sb.version_minor in
    if major == 1 && minor == 1
    then some btt1_start_offset
    else if major == 2 && minor == 0
    then some btt2_start_offset
    else none

-- The loop that estimates the number of arenas: `err` is its `return -EINVAL`, and the pair is
-- `est_arenas` and what is left in `remaining`. `none` is no fuel: each round that goes on takes
-- `ARENA_MAX_SIZE` off `remaining`.
unfoldable pub estimate : ℕ → ℕ → ℕ → Option (Result (ℕ × ℕ))
estimate zero remaining est_arenas = none
estimate (suc fuel) remaining est_arenas =
    let full = estimate fuel (remaining - arena_max_size) (est_arenas + 1) in
    if remaining == 0
    then some (got (est_arenas, remaining))
    else if ltb remaining arena_min_size && est_arenas == 0
    then some (err (errno einval))
    else if ltb arena_max_size remaining
    then full
    else if ltb remaining arena_min_size
    then some (got (est_arenas, remaining))
    else some (got (est_arenas + 1, 0))

-- `rawsize - off`, in 64 bits
abbrev pub sub64 : ℕ → ℕ → ℕ
sub64 a b = (a + 2 ^ 64 - b) % 2 ^ 64

-- `rounddown(rawsize - remaining, SZ_4K) - BTT_INFO_SIZE`
unfoldable pub end_offset : BttChk → ℕ → ℕ
end_offset bttc remaining = sub64 (rounddown (sub64 bttc.rawsize remaining) sz_4k) btt_info_size

-- The fields of the first info block that attempt 2 keeps.
unfoldable pub copy_fields : BttSb → BttSb → BttSb
copy_fields from sb = record sb {
  flags = from.flags;
  external_nlba = from.external_nlba;
  internal_nlba = from.internal_nlba;
  nextoff = from.nextoff;
  dataoff = from.dataoff;
  mapoff = from.mapoff;
  logoff = from.logoff;
  info2off = from.info2off;
  checksum = from.checksum;
}

module _ {M : Type 0} (dev : Device M) (bttc : BttChk) (off : ℕ) where
  -- A valid info block is written to the start, a failed search leaves all as it is.
  abbrev pub restore : M → Result BttSb → Rc × M
  restore m (err rc) = (rc, m)
  restore m (got sb) = btt_write_info dev bttc m sb off

  -- Attempt 3: at `info2off`. The little-endian 64-bit field is read by `le32_to_cpu`, of which the
  -- argument is the low half of the field.
  unfoldable pub attempt3 : M → BttSb → Rc × M
  attempt3 m first =
      let offset = bttc.host.le32_to_cpu (first.info2off % 2 ^ 32) in
      let last = min (sub64 bttc.rawsize btt_info_size) (arena_max_size - btt_info_size + off) in
      if ltb last offset
      then (errno enxio, m)
      else if offset == 0
      then (errno enxio, m)
      else restore m (btt_info_read_verify dev bttc m ((offset + off) % 2 ^ 64))

  -- A second verification that fails goes on to the next attempt.
  abbrev pub restore_or : M → Rc × BttSb → Rc × M → Rc × M
  restore_or m (ok, sb) rest = btt_write_info dev bttc m sb off
  restore_or m (errno e, sb) rest = rest
  restore_or m (btt c, sb) rest = rest

  abbrev pub patched : M → BttSb → Result BttSb → Rc × M
  patched m first (err rc) = (rc, m)
  patched m first (got sb) =
      restore_or m
        (btt_info_verify bttc.host bttc.signature bttc.parent_uuid (copy_fields first sb))
        (attempt3 m first)

  -- Attempt 2: with more than one arena, from the end of the namespace.
  unfoldable pub attempt2 : M → BttSb → ℕ → ℕ → Rc × M
  attempt2 m first est_arenas remaining =
      if ltb 1 est_arenas
      then patched m first (btt_info_read_verify dev bttc m (end_offset bttc remaining))
      else attempt3 m first

  abbrev pub expected : M → BttSb → Option ℕ → Rc × M
  expected m sb none = (errno enxio, m)
  expected m sb (some expected_offset) =
      if expected_offset == off then btt_write_info dev bttc m sb off else (errno enxio, m)

  abbrev pub found_or : M → Result BttSb → Rc × M → Rc × M
  found_or m (err rc) rest = rest
  found_or m (got sb) rest = expected m sb (btt_sb_get_expected_offset bttc.host sb)

  -- Attempt 1: from the expected end of the first arena.
  unfoldable pub attempt1 : M → ℕ → ℕ → BttSb → Rc × M
  unfolding end_offset attempt2
  attempt1 m est_arenas remaining first =
      let offset =
        if est_arenas == 1
        then end_offset bttc remaining
        else (arena_max_size - btt_info_size + off) % 2 ^ 64 in
      found_or m (btt_info_read_verify dev bttc m offset) (attempt2 m first est_arenas remaining)

  abbrev pub attempts : M → ℕ × ℕ → Result BttSb → Rc × M
  attempts m est (err rc) = (rc, m)
  attempts m (est_arenas, remaining) (got first) = attempt1 m est_arenas remaining first

  abbrev pub estimated : Bool → M → Result (ℕ × ℕ) → Rc × M
  estimated memory m (err rc) = (rc, m)
  estimated memory m (got est) =
      if memory then attempts m est (btt_read_info dev m off) else (errno enomem, m)

  -- `__btt_recover_first_sb`, where `malloc` succeeds if `memory` is true.
  unfoldable pub recover_at : Bool → M → Option (Rc × M)
  recover_at memory m =
      let remaining = sub64 bttc.rawsize off in
      elim (estimate (remaining / arena_max_size + 2) remaining 0) [
        | none ↦ none
        | some est ↦ some (estimated memory m est)
      ]

module _ {M : Type 0} (dev : Device M) (bttc : BttChk) (memory : Bool) where
  -- The number is `start_off`, which is set where a block was restored.
  abbrev pub second_answer : Rc × M → Rc × ℕ × M
  second_answer (ok, m) = (ok, btt2_start_offset, m)
  second_answer (errno e, m) = (errno e, bttc.start_off, m)
  second_answer (btt c, m) = (btt c, bttc.start_off, m)

  abbrev pub after_first : Rc × M → (M → Option (Rc × M)) → Option (Rc × ℕ × M)
  after_first (ok, m) second = some (ok, btt1_start_offset, m)
  after_first (errno e, m) second = Option.map second_answer (second m)
  after_first (btt c, m) second = Option.map second_answer (second m)

  -- The two start offsets in turn.
  unfoldable pub btt_recover_first_sb : M → Option (Rc × ℕ × M)
  btt_recover_first_sb m = do
    first ← recover_at dev bttc btt1_start_offset memory m
    after_first first (recover_at dev bttc btt2_start_offset memory)
