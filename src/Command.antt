-- ===== src/Command.antt =====
-- ndctl/lib/libndctl.c: the commands that read and write the label area of a DIMM in parts.
pub mod Access
pub mod Extent
pub mod Binary
pub mod Transfer
use utils_kernel_ndctl_ndctl.Prelude.{
  ℕ, ◌+◌, ◌-◌, ◌%◌, ◌^◌, min, ltb, leb, ◌==◌, Bool, true, false, not, ◌&&◌, ◌||◌, Option, some,
  none, List, [], ◌∷◌, ◌>>=◌, length, replicate, if◌then◌else◌, zero, suc,
}
use utils_kernel_ndctl_ndctl.Prelude.Buffers.{read_at, write_at}
use utils_kernel_ndctl_ndctl.Check.Defs.{Errno, system}
use utils_kernel_ndctl_ndctl.Namespace.Control.{Ret, done, failed, positive}

-- `ND_CMD_GET_CONFIG_DATA` and `ND_CMD_SET_CONFIG_DATA`, and `READ` and `WRITE` of the iterator.
pub data Direction : Type 0 where
  reading writing : Direction

-- `struct ndctl_cmd_iter`, less the two buffers.
pub record CmdIter : Type 0 where
  pub init_offset : ℕ
  pub max_xfer : ℕ
  pub total_xfer : ℕ
  pub dir : Direction

-- `struct ndctl_cmd` for config data: the header in `cmd_buf` is `in_offset` and `in_length`. A
-- status of 1 says that the command was not submitted.
pub record Cmd : Type 0 where
  pub status : Ret
  pub in_offset : ℕ
  pub in_length : ℕ
  pub iter : CmdIter

-- What an `ioctl` does: an error, or its value above or equal to 0 with the firmware status.
pub data Reply : Type 0 where
  error : Errno → Reply
  answered : ℕ → ℕ → Reply

-- The DIMM behind `/dev/nmem`, in states of a type `S`: `get_data` at an offset and a length, with
-- the bytes that are in `out_buf` after it, and `set_data` with the bytes in `in_buf`.
pub record ConfigDevice (S : Type 0) : Type 0 where
  pub get_data : S → ℕ → ℕ → Reply × List ℕ × S
  pub set_data : S → ℕ → List ℕ → Reply × S

abbrev pub is_negative : Ret → Bool
is_negative (failed e) = true
is_negative rc = false

abbrev pub is_positive : Ret → Bool
is_positive (positive n) = true
is_positive rc = false

-- An `int` that is not negative.
abbrev pub ret_of : ℕ → Ret
ret_of zero = done
ret_of (suc n) = positive (suc n)

-- `ndctl_dimm_cmd_new_cfg_read` behind its checks, with the buffer that `calloc` gives.
unfoldable pub new_cfg_read : ℕ → ℕ → Cmd × List ℕ
new_cfg_read config_size max_xfer = (
  record {
    status = positive 1;
    in_offset = 0;
    in_length = max_xfer;
    iter = record { init_offset = 0; max_xfer = max_xfer; total_xfer = config_size; dir = reading };
  },
  replicate config_size 0,
)

-- `iter_set_extent`
unfoldable pub iter_set_extent : Cmd → ℕ → ℕ → Cmd
iter_set_extent cmd len offset = record cmd {
  in_offset = offset;
  in_length = min cmd.in_length len;
  iter = record (cmd.iter) { init_offset = offset; total_xfer = len };
}

-- `ndctl_cmd_cfg_read_set_extent` and, with the same body, `ndctl_cmd_cfg_write_set_extent`; the sum
-- is of 32 bits. `none` is `-EINVAL`.
unfoldable pub cfg_set_extent : Cmd → ℕ → ℕ → ℕ → Option Cmd
unfolding iter_set_extent
cfg_set_extent cmd config_size len offset =
    if not (is_positive cmd.status)
    then none
    else if ltb config_size ((offset + len) % 2 ^ 32)
    then none
    else some (iter_set_extent cmd len offset)

-- `ndctl_dimm_cmd_new_cfg_write`: the new command has the buffer of the one that read. `none` is the
-- null pointer.
unfoldable pub new_cfg_write : Bool → Cmd → Option Cmd
new_cfg_write supported cfg_read = elim cfg_read.status [
  | done ↦
      if cfg_read.in_length == 0 || not supported
      then none
      else some (record {
        status = positive 1;
        in_offset = cfg_read.iter.init_offset;
        in_length = cfg_read.iter.max_xfer;
        iter = record (cfg_read.iter) { dir = writing };
      })
  | _ ↦ none
]

-- `iter_access`: the sums and the difference are of 32 bits.
unfoldable pub iter_access : CmdIter → ℕ → ℕ → Option ℕ
iter_access iter len offset =
    let end = (iter.init_offset + iter.total_xfer) % 2 ^ 32 in
    let last = (len + offset) % 2 ^ 32 in
    if ltb offset iter.init_offset || ltb end offset || ltb last len
    then none
    else some (if ltb end last then (iter.total_xfer + 2 ^ 32 - offset) % 2 ^ 32 else len)

-- An unsigned number of 32 bits as an `int`.
unfoldable pub int_of : ℕ → Ret
int_of v = if ltb v (2 ^ 31) then ret_of v else failed (system (2 ^ 32 - v))

-- What a round of the loop comes to: the end of the loop, or the buffer and the device for the next
-- one.
pub data Round (S : Type 0) : Type 0 where
  stop : Ret → List ℕ → S → Round S
  next : List ℕ → S → Round S

module _ {S : Type 0} (dev : ConfigDevice S) where
  -- Behind the `ioctl`, where `buf` has what was read.
  unfoldable pub settled : ℕ → ℕ → ℕ → ℕ → List ℕ → S → Round S
  unfolding int_of
  settled offset xfer rc fw buf s =
      if not (fw == 0) || not (rc == 0)
      then stop (int_of ((offset + xfer + 2 ^ 32 - rc) % 2 ^ 32)) buf s
      else next buf s

  abbrev pub read_reply : ℕ → ℕ → List ℕ → Reply × List ℕ × S → Option (Round S)
  read_reply offset xfer buf (error e, out, s) = some (stop (failed e) buf s)
  read_reply offset xfer buf (answered rc fw, out, s) = do
    bytes ← read_at 0 ((xfer + 2 ^ 32 - rc) % 2 ^ 32) out
    buf' ← write_at offset bytes buf
    some (settled offset xfer rc fw buf' s)

  abbrev pub write_reply : ℕ → ℕ → List ℕ → Reply × S → Option (Round S)
  write_reply offset xfer buf (error e, s) = some (stop (failed e) buf s)
  write_reply offset xfer buf (answered rc fw, s) = some (settled offset xfer rc fw buf s)

  -- A round of the loop of `do_cmd`; `none` is an access outside a buffer.
  unfoldable pub transfer : CmdIter → ℕ → List ℕ → S → Option (Round S)
  unfolding settled
  transfer iter offset buf s =
      let xfer = min (iter.total_xfer - offset) iter.max_xfer in
      elim iter.dir [
        | reading ↦ read_reply offset xfer buf (dev.get_data s offset xfer)
        | writing ↦ (do
          bytes ← read_at offset xfer buf
          write_reply offset xfer buf (dev.set_data s offset bytes))
      ]

  abbrev pub behind : (List ℕ → S → Option (Ret × List ℕ × S)) → Round S → Option (Ret × List ℕ × S)
  behind rest (stop rc buf s) = some (rc, buf, s)
  behind rest (next buf s) = rest buf s

  -- The loop of `do_cmd`, from an offset on; `none` also stands for no fuel left.
  unfoldable pub transfers : ℕ → CmdIter → ℕ → List ℕ → S → Option (Ret × List ℕ × S)
  transfers zero iter offset buf s = none
  transfers (suc fuel) iter offset buf s =
      let rest =
        λ (buf : List ℕ) (s : S). transfers fuel iter ((offset + iter.max_xfer) % 2 ^ 32) buf s in
      if ltb offset iter.total_xfer
      then (do round ← transfer iter offset buf s; behind rest round)
      else some (done, buf, s)

  -- One `ioctl` where there is nothing to iterate over: the buffer of the header is all 0, and
  -- nothing is copied.
  abbrev pub plain_reply : List ℕ → Reply × S → Ret × List ℕ × S
  plain_reply buf (error e, s) = (failed e, buf, s)
  plain_reply buf (answered rc fw, s) = (ret_of rc, buf, s)

  unfoldable pub do_cmd : Cmd → List ℕ → S → Option (Ret × List ℕ × S)
  unfolding transfers
  do_cmd cmd buf s =
      if cmd.iter.total_xfer == 0
      then some (
          plain_reply buf (elim cmd.iter.dir [
            | reading ↦
                (let (reply, out, s') = dev.get_data s cmd.in_offset cmd.in_length in (reply, s'))
            | writing ↦ dev.set_data s cmd.in_offset (replicate cmd.in_length 0)
          ]))
      else transfers (cmd.iter.total_xfer + 1) cmd.iter 0 buf s

  -- `ndctl_cmd_submit`, with the answer to opening the control node, and `ndctl_cmd_submit_xlat`,
  -- with the family's translation of the firmware status, which the device has; 0 is `none`.
  abbrev pub submit : Option Errno → Cmd → List ℕ → S → Option (Ret × List ℕ × S)
  submit (some e) cmd buf s = some (failed e, buf, s)
  submit none cmd buf s = do_cmd cmd buf s

  abbrev pub translated : Option Errno → Ret × List ℕ × S → Ret × List ℕ × S
  translated xlat (failed e, buf, s) = (failed e, buf, s)
  translated none r = r
  translated (some e) (rc, buf, s) = (failed e, buf, s)

  -- The header that the loop leaves behind is not kept: only whether its length is 0 is read later.
  unfoldable pub submit_xlat :
      Option Errno → (S → Option Errno) → Cmd → List ℕ → S → Option ((Ret × List ℕ × S) × Cmd)
  unfolding do_cmd
  submit_xlat node xlat cmd buf s = do
    (rc, buf', s') ← submit node cmd buf s
    some (translated (xlat s') (rc, buf', s'), record cmd { status = rc })
