-- ===== src/Command/Access.antt =====
-- ndctl/lib/libndctl.c: the accesses of a program to the buffer of a config-data command.
use utils_kernel_ndctl_ndctl.Prelude.{
  ℕ, ◌+◌, ◌-◌, ◌^◌, ◌≤◌, ◌<◌, ◌≡◌, refl, List, [], Option, some, none, length, min, replicate,
  ◌>>=◌, ltb, ◌||◌, if◌then◌else◌, arith, Bool-cases, inl, inr,
}
use utils_kernel_ndctl_ndctl.Prelude.Buffers.{take, drop, read_at, write_at, read_at_lem}
use utils_kernel_ndctl_ndctl.Check.Defs.{einval}
use utils_kernel_ndctl_ndctl.Namespace.Control.{Ret, done, failed, positive}
use utils_kernel_ndctl_ndctl.Command.{CmdIter, Cmd, ret_of, iter_access}

-- `memcpy` out of `total_buf`, where `iter_access` lets it.
abbrev pub copy_out : Option ℕ → List ℕ → ℕ → Option (Ret × List ℕ)
copy_out none total_buf offset = some (failed einval, [])
copy_out (some len) total_buf offset = do
  bytes ← read_at offset len total_buf
  some (ret_of len, bytes)

-- `ndctl_cmd_cfg_read_get_data`, with the bytes that it copies; `none` is a copy from outside
-- `total_buf`.
unfoldable pub cfg_read_get_data : Cmd → List ℕ → ℕ → ℕ → Option (Ret × List ℕ)
cfg_read_get_data cfg_read total_buf len offset = elim cfg_read.status [
  | positive n ↦ some (failed einval, [])
  | failed e ↦ some (failed e, [])
  | done ↦ copy_out (iter_access cfg_read.iter len offset) total_buf offset
]

unfoldable pub cfg_read_get_size : Cmd → Ret
cfg_read_get_size cfg_read = elim cfg_read.status [
  | positive n ↦ failed einval
  | failed e ↦ failed e
  | done ↦ ret_of cfg_read.iter.total_xfer
]

abbrev pub copy_in : Option ℕ → List ℕ → List ℕ → ℕ → Option (Ret × List ℕ)
copy_in none total_buf buf offset = some (failed einval, total_buf)
copy_in (some len) total_buf buf offset = do
  bytes ← read_at 0 len buf
  total_buf' ← write_at offset bytes total_buf
  some (ret_of len, total_buf')

-- `ndctl_cmd_cfg_write_set_data` and `ndctl_cmd_cfg_write_zero_data`, with `total_buf` behind them.
unfoldable pub cfg_write_set_data : Cmd → List ℕ → List ℕ → ℕ → ℕ → Option (Ret × List ℕ)
cfg_write_set_data cfg_write total_buf buf len offset = elim cfg_write.status [
  | positive n ↦ copy_in (iter_access cfg_write.iter len offset) total_buf buf offset
  | _ ↦ some (failed einval, total_buf)
]

unfoldable pub cfg_write_zero_data : Cmd → List ℕ → Option (Ret × List ℕ)
cfg_write_zero_data cfg_write total_buf = elim cfg_write.status [
  | positive n ↦ (do
    total_buf' ←
        write_at cfg_write.iter.init_offset (replicate cfg_write.iter.total_xfer 0) total_buf
    some (ret_of cfg_write.iter.total_xfer, total_buf'))
  | _ ↦ some (failed einval, total_buf)
]

iter_access_lem :
    (iter : CmdIter) (n len offset : ℕ)
    → iter.init_offset ≡ 0
    → iter.total_xfer ≡ n
    → n < 2 ^ 32
    → len < 2 ^ 32
    → offset < 2 ^ 32
    → iter_access iter len offset ≡ (
        if ltb n offset || ltb (2 ^ 32 - 1) (len + offset)
        then none
        else some (min len (n - offset)))
unfolding iter_access
iter_access_lem iter n len offset start total below l o = rw (start, total) (ground arith)

copied_out :
    (len offset : ℕ) (total_buf : List ℕ)
    → offset + len ≤ length total_buf
    → copy_out (some len) total_buf offset ≡ some (ret_of len, take len (drop offset total_buf))
copied_out len offset total_buf h = rw (read_at_lem offset len total_buf h) refl

-- A read command that was submitted for a whole label area below 4 GiB copies only bytes of the
-- buffer, whatever the 32-bit length and offset: behind the end of the area, or with a sum that wraps
-- around, it fails with `EINVAL`, and else it copies the bytes from the offset on, as many as asked
-- for or as there are, and returns how many.
pub cfg_read_get_data_lem :
    (cfg_read : Cmd) (total_buf : List ℕ) (len offset : ℕ)
    → cfg_read.status ≡ done
    → cfg_read.iter.init_offset ≡ 0
    → cfg_read.iter.total_xfer ≡ length total_buf
    → length total_buf < 2 ^ 32
    → len < 2 ^ 32
    → offset < 2 ^ 32
    → cfg_read_get_data cfg_read total_buf len offset
      ≡ some (
          if ltb (length total_buf) offset || ltb (2 ^ 32 - 1) (len + offset)
          then (failed einval, [])
          else (
            ret_of (min len (length total_buf - offset)),
            take (min len (length total_buf - offset)) (drop offset total_buf),
          ))
unfolding cfg_read_get_data
cfg_read_get_data_lem cfg_read total_buf len offset e start total below l o =
    let n = length total_buf in
    let accessed = iter_access_lem cfg_read.iter n len offset start total below l o in
    elim (Bool-cases (ltb n offset || ltb (2 ^ 32 - 1) (len + offset))) [
      | inl refused ↦ rw (e, accessed, refused) refl
      | inr served ↦
          (let inside : offset + min len (n - offset) ≤ n = ground arith in
            rw (e, accessed, served) (copied_out (min len (n - offset)) offset total_buf inside))
    ]

-- An access to an extent at the start that is inside it.
pub access_inside :
    (iter : CmdIter) (len offset : ℕ)
    → iter.init_offset ≡ 0
    → offset + len ≤ iter.total_xfer
    → iter.total_xfer < 2 ^ 32
    → iter_access iter len offset ≡ some len
unfolding iter_access
access_inside iter len offset e h l = rw e (ground arith)
