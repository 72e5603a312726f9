-- ===== src/Check/Media.antt =====
-- Reading and writing info blocks with `pread` and `pwrite`, before anything is mapped.
use utils_kernel_ndctl_ndctl.Prelude.{ℕ, ◌-◌, ◌%◌, Option, some, none, List, if◌then◌else◌}
use utils_kernel_ndctl_ndctl.Check.Defs.{
  Host, Errno, Rc, ok, errno, btt, enxio, eio, CheckOpts, BttSb, ArenaInfo,
}
use utils_kernel_ndctl_ndctl.Check.Info.{btt_info_verify}

-- What a function that fills a buffer answers: the return code that is not 0, or the buffer.
pub data Result (A : Type 0) : Type 0 where
  err : Rc → Result A
  got : A → Result A

infixl 5 ◌>>=◌
abbrev pub ◌>>=◌ : {A B : Type 0} → Result A → (A → Result B) → Result B
err r >>= f = err r
got a >>= f = f a

-- `if (rc) return rc;` behind a call that has filled the buffer.
abbrev pub filled : Rc × BttSb → Result BttSb
filled (ok, sb) = got sb
filled (errno e, sb) = err (errno e)
filled (btt c, sb) = err (btt c)

-- What `pread` and `pwrite` of a whole info block do.
pub data Pread : Type 0 where
  failed : Errno → Pread
  short : Pread
  whole : BttSb → Pread

pub data Pwrite : Type 0 where
  failed : Errno → Pwrite
  short : Pwrite
  whole : Pwrite

-- The open block device, in a state of a type `M` of its own.
pub record Device (M : Type 0) : Type 0 where
  pub pread : M → ℕ → Pread
  pub pwrite : M → ℕ → BttSb → Pwrite × M
  pub fsync : M → Option Errno × M

-- `struct btt_chk`, less the path and the descriptor of the device, and with the options, the byte
-- order of the host and the words of `BTT_SIG`.
pub record BttChk : Type 0 where
  pub host : Host
  pub signature : List ℕ
  pub parent_uuid : List ℕ
  pub rawsize : ℕ
  pub nlba : ℕ
  pub start_off : ℕ
  pub num_arenas : ℕ
  pub sys_page_size : ℕ
  pub arena : List ArenaInfo
  pub opts : CheckOpts

-- `ARENA_MIN_SIZE`, `ARENA_MAX_SIZE`, `SZ_4K`
abbrev pub arena_min_size : ℕ
arena_min_size = 0x100_0000

abbrev pub arena_max_size : ℕ
arena_max_size = 0x80_0000_0000

abbrev pub sz_4k : ℕ
sz_4k = 4096

-- The macro `rounddown`.
unfoldable pub rounddown : ℕ → ℕ → ℕ
rounddown x y = x - x % y

module _ {M : Type 0} (dev : Device M) where
  unfoldable pub btt_read_info : M → ℕ → Result BttSb
  btt_read_info m off = elim (dev.pread m off) [
    | failed e ↦ err (errno e)
    | short ↦ err (errno enxio)
    | whole sb ↦ got sb
  ]

  abbrev pub fsynced : Option Errno × M → Rc × M
  fsynced (none, m) = (ok, m)
  fsynced (some e, m) = (errno e, m)

  abbrev pub written : Pwrite × M → Rc × M
  written (failed e, m) = (errno e, m)
  written (short, m) = (errno enxio, m)
  written (whole, m) = fsynced (dev.fsync m)

  -- Without --repair nothing is written.
  unfoldable pub btt_write_info : BttChk → M → BttSb → ℕ → Rc × M
  btt_write_info bttc m sb off =
      if bttc.opts.repair then written (dev.pwrite m off sb) else (errno eio, m)

  unfoldable pub btt_info_read_verify : BttChk → M → ℕ → Result BttSb
  btt_info_read_verify bttc m off = do
    sb ← btt_read_info m off
    filled (btt_info_verify bttc.host bttc.signature bttc.parent_uuid sb)
