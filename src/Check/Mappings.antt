-- ===== src/Check/Mappings.antt =====
-- Mapping the areas of the arenas: `mmap` wants an offset at the start of a page.
pub mod Pages
use utils_kernel_ndctl_ndctl.Prelude.{
  ltb, if◌then◌else◌, ℕ, ◌+◌, ◌-◌, ◌%◌, ◌^◌, Bool, List, [], ◌∷◌,
}
use utils_kernel_ndctl_ndctl.Check.Defs.{Errno, Rc, ok, errno, BttSb, LogGroup, ArenaMap, ArenaInfo}
use utils_kernel_ndctl_ndctl.Check.Meta.{btt_info_size}
use utils_kernel_ndctl_ndctl.Check.Media.{Result, err, got, ◌>>=◌, BttChk, rounddown}
use utils_kernel_ndctl_ndctl.Check.Recover.{sub64}

-- The answer of `mmap`.
pub data Mmap : Type 0 where
  map_failed : Errno → Mmap
  mapped : ℕ → Mmap

-- The system call, given a length, an offset and whether the pages may be written, and what is seen
-- at an address that it gives: an info block, and the map and the log of some bytes.
pub record Memory : Type 0 where
  pub mmap : ℕ → ℕ → Bool → Mmap
  pub info_at : ℕ → BttSb
  pub map_at : ℕ → ℕ → List ℕ
  pub log_at : ℕ → ℕ → List LogGroup

-- The part of a page in front of an address.
unfoldable pub page_offset : BttChk → ℕ → ℕ
page_offset bttc offset = offset - rounddown offset bttc.sys_page_size

-- The same of an `off_t` in two's complement: the division truncates, and what is in front of a
-- negative offset is not positive.
unfoldable pub off_page_offset : BttChk → ℕ → ℕ
unfolding page_offset
off_page_offset bttc offset =
    if ltb offset (2 ^ 63)
    then page_offset bttc offset
    else (2 ^ 64 - page_offset bttc (2 ^ 64 - offset)) % 2 ^ 64

-- The length, a `size_t`, and the offset of a request.
abbrev pub request : BttChk → ℕ → ℕ → ℕ × ℕ
request bttc length offset =
    let part = off_page_offset bttc offset in
    ((length + part) % 2 ^ 64, (offset + (2 ^ 64 - part)) % 2 ^ 64)

abbrev pub fixed_up : ℕ → Mmap → Result ℕ
fixed_up page_offset (map_failed e) = err (errno e)
fixed_up page_offset (mapped addr) = got ((addr + page_offset) % 2 ^ 64)

-- The null pointer stands for an error, of which `errno` is what the callers return.
unfoldable pub btt_mmap : Memory → BttChk → ℕ → ℕ → Result ℕ
btt_mmap mem bttc length offset =
    let (length', offset') = request bttc length offset in
    fixed_up (off_page_offset bttc offset) (mem.mmap length' offset' bttc.opts.repair)

-- The address and the length that `munmap` is called with.
unfoldable pub btt_unmap : BttChk → ℕ → ℕ → ℕ × ℕ
btt_unmap bttc ptr length =
    let part = page_offset bttc ptr in (ptr - part, (length + part) % 2 ^ 64)

-- An arena whose five areas are mapped, with where and how long they are.
pub record Areas : Type 0 where
  pub info : ℕ × ℕ
  pub area : ℕ × ℕ
  pub map : ℕ × ℕ
  pub log : ℕ × ℕ
  pub info2 : ℕ × ℕ

unfoldable pub map_arena : Memory → BttChk → ArenaInfo → Result (Areas × ArenaInfo)
map_arena mem bttc a = do
  info ← btt_mmap mem bttc btt_info_size a.infooff
  let data_len = sub64 a.mapoff a.dataoff
  area ← btt_mmap mem bttc data_len a.dataoff
  let map_len = sub64 a.logoff a.mapoff
  entries ← btt_mmap mem bttc map_len a.mapoff
  let log_len = sub64 a.info2off a.logoff
  log ← btt_mmap mem bttc log_len a.logoff
  info2 ← btt_mmap mem bttc btt_info_size a.info2off
  got (
    record {
      info = (info, btt_info_size);
      area = (area, data_len);
      map = (entries, map_len);
      log = (log, log_len);
      info2 = (info2, btt_info_size);
    },
    record a {
      map = record {
        info = mem.info_at info;
        entries = mem.map_at entries map_len;
        log = mem.log_at log log_len;
        info2 = mem.info_at info2;
      };
    },
  )

unfoldable pub btt_create_mappings :
    Memory → BttChk → List ArenaInfo → Result (List Areas × List ArenaInfo)
btt_create_mappings mem bttc [] = got ([], [])
btt_create_mappings mem bttc (a ∷ arenas) = do
  (areas, a') ← map_arena mem bttc a
  (rest, arenas') ← btt_create_mappings mem bttc arenas
  got (areas ∷ rest, a' ∷ arenas')

-- The calls of `munmap`.
unfoldable pub btt_remove_mappings : BttChk → List Areas → List (ℕ × ℕ)
btt_remove_mappings bttc [] = []
btt_remove_mappings bttc (a ∷ areas) =
    btt_unmap bttc a.info.0 a.info.1
    ∷ btt_unmap bttc a.area.0 a.area.1
    ∷ btt_unmap bttc a.map.0 a.map.1
    ∷ btt_unmap bttc a.log.0 a.log.1
    ∷ btt_unmap bttc a.info2.0 a.info2.1
    ∷ btt_remove_mappings bttc areas
