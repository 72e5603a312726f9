-- ===== src/Command/Extent/Zeroed.antt =====
-- ndctl/lib/dimm.c: which bytes the zeroing of a part of the label area changes.
use utils_kernel_ndctl_ndctl.Prelude.{
  Bool, ℕ, zero, suc, ◌∙◌, ◌-◌, ◌+◌, ◌^◌, ◌%◌, ◌≤◌, ◌<◌, ◌≡◌, refl, List, Option, some, length, min,
  replicate, length-replicate, get_elem?-replicate, get_elem?, true, false, leb, ltb, ◌&&◌, ◌==◌,
  if◌then◌else◌, arith, Bool-cases, inl, inr,
}
use utils_kernel_ndctl_ndctl.Prelude.Buffers.{
  copied, overwrite, length-copied, length-overwrite, get_elem?-copied, get_elem?-overwrite,
  write_at_lem,
}
use utils_kernel_ndctl_ndctl.Namespace.Control.{done, positive}
use utils_kernel_ndctl_ndctl.Command.{
  Cmd, is_negative, ret_of, reading, writing, new_cfg_read, cfg_set_extent, iter_set_extent,
  new_cfg_write,
}
use utils_kernel_ndctl_ndctl.Command.Access.{cfg_write_zero_data}
use utils_kernel_ndctl_ndctl.Command.Transfer.{moved}
use utils_kernel_ndctl_ndctl.Command.Extent.Answers.{Answers, submitted-moved}
use utils_kernel_ndctl_ndctl.Command.Extent.{Dimm, read_label_extent, zero_label_extent}

-- A disabled DIMM that serves each request.
pub record Serves {S : Type 0} (dimm : Dimm S) (area : S → List ℕ) (put : S → List ℕ → S) (s : S)
    (config_size max_xfer : ℕ) : Type 0 where
  pub answers : Answers dimm area put s config_size max_xfer
  pub probed : dimm.wait_probe s ≡ (done, s)
  pub sized : dimm.cfg_size s ≡ some (config_size, max_xfer)
  pub reads : dimm.get_supported ≡ true
  pub writes : dimm.set_supported ≡ true
  pub inactive : dimm.is_active s ≡ false
  pub disabled : (t : S) → dimm.is_enabled t ≡ false

pub ret_of-positive : (n : ℕ) → is_negative (ret_of n) ≡ false
ret_of-positive zero = refl
ret_of-positive (suc n) = refl

-- The length that is meant: 0 is all of the area.
abbrev pub meant : ℕ → ℕ → ℕ
meant config_size len = if len == 0 then config_size else len

-- The command that `read_label_extent` returns.
abbrev pub read_cmd : ℕ → ℕ → ℕ → Cmd
read_cmd max_xfer len offset = record {
  status = done;
  in_offset = offset;
  in_length = min max_xfer len;
  iter = record { init_offset = offset; max_xfer = max_xfer; total_xfer = len; dir = reading };
}

-- The command that writes all of what it read.
abbrev pub write_cmd : ℕ → ℕ → Cmd
write_cmd max_xfer config_size = record {
  status = positive 1;
  in_offset = 0;
  in_length = max_xfer;
  iter = record { init_offset = 0; max_xfer = max_xfer; total_xfer = config_size; dir = writing };
}

pub new_cfg_write-read_cmd :
    (supported : Bool) (max_xfer config_size : ℕ)
    → supported ≡ true
    → 0 < max_xfer
    → 0 < config_size
    → new_cfg_write supported (read_cmd max_xfer config_size 0)
      ≡ some (write_cmd max_xfer config_size)
unfolding new_cfg_write
new_cfg_write-read_cmd supported max_xfer config_size e p q =
    let part : (min max_xfer config_size == 0) ≡ false = ground arith in rw (part, e) refl

chosen :
    (n offset i : ℕ) (z a b : Option ℕ)
    → (i - offset < n → z ≡ some 0)
    → (if ltb i n
        then (if leb offset i && ltb i (offset + n) then z else if ltb i n then a else b)
        else a)
      ≡ (if leb offset i && ltb i n then some 0 else a)
chosen n offset i z a b h = elim (Bool-cases (ltb i n)) [
  | inl low ↦ (let e = h (ground arith) in rw (low, e) (ground arith))
  | inr high ↦ rw high (ground arith)
]

module _ {S : Type 0} (dimm : Dimm S) (area : S → List ℕ) (put : S → List ℕ → S) (s : S)
    (config_size max_xfer : ℕ) (serves : Serves dimm area put s config_size max_xfer) where
  -- What is read of an extent is at the start of the buffer, and is the start of the area.
  pub read_label_extent-copied :
      (len offset n : ℕ)
      → meant config_size len ≡ n
      → offset + n ≤ config_size
      → 0 < n
      → read_label_extent dimm len offset s
        ≡ some (some (read_cmd max_xfer n offset, copied n (area s) (replicate config_size 0)), s)
  unfolding read_label_extent new_cfg_read cfg_set_extent iter_set_extent moved
  read_label_extent-copied len offset n e h pos =
      let some_area = serves.answers.some_area in
      let below = serves.answers.below in
      let some_part = serves.answers.some_part in
      let some_size : (config_size == 0) ≡ false = ground arith in
      let fits : ltb config_size ((offset + n) % 2 ^ 32) ≡ false = ground arith in
      let cmd : Cmd = record (read_cmd max_xfer n offset) { status = positive 1 } in
      let read =
        submitted-moved dimm area put s config_size max_xfer serves.answers cmd
          (replicate config_size 0) refl pos (omega arith) (length-replicate config_size 0) in
      rw
        (
          serves.probed,
          serves.sized,
          some_size,
          serves.reads,
          e,
          fits,
          serves.probed,
          read,
          serves.answers.faithful.put-area s,
        )
        refl

  -- The area that the zeroing leaves: what was read, zeroed at the offset, is written to its start.
  zeroed : ℕ → ℕ → List ℕ
  zeroed n offset =
      copied n (overwrite offset (replicate n 0) (copied n (area s) (replicate config_size 0)))
        (area s)

  zero_label_extent-zeroed :
      (len offset n : ℕ)
      → meant config_size len ≡ n
      → offset + n ≤ config_size
      → 0 < n
      → zero_label_extent dimm len offset s ≡ some (done, put s (zeroed n offset))
  unfolding zero_label_extent new_cfg_write cfg_write_zero_data zeroed moved
  zero_label_extent-zeroed len offset n e h pos =
      let some_part = serves.answers.some_part in
      let whole = serves.answers.whole in
      let buf = copied n (area s) (replicate config_size 0) in
      let zeros = length-replicate {A = ℕ} n 0 in
      let room = length-replicate {A = ℕ} config_size 0 in
      let len_buf =
        length-copied n (area s) (replicate config_size 0) (omega arith) (omega arith) in
      let len_zeroed = length-overwrite offset (replicate n 0) buf in
      let part : (min max_xfer n == 0) ≡ false = ground arith in
      let write : Cmd = record {
        status = positive 1;
        in_offset = offset;
        in_length = max_xfer;
        iter = record { init_offset = offset; max_xfer = max_xfer; total_xfer = n; dir = writing };
      } in
      let wrote =
        submitted-moved dimm area put s config_size max_xfer serves.answers write
          (overwrite offset (replicate n 0) buf) refl pos (omega arith) (omega arith) in
      let cleared = write_at_lem offset (replicate n 0) buf (omega arith) in
      rw
        (
          read_label_extent-copied len offset n e h pos,
          serves.inactive,
          part,
          serves.writes,
          cleared,
          ret_of-positive n,
          wrote,
          serves.disabled (put s (zeroed n offset)),
        )
        refl

  get_elem?-zeroed :
      (n offset i : ℕ)
      → offset + n ≤ config_size
      → get_elem? (zeroed n offset) i
        ≡ (if leb offset i && ltb i n then some 0 else get_elem? (area s) i)
  unfolding zeroed
  get_elem?-zeroed n offset i h =
      let whole = serves.answers.whole in
      let zeros = length-replicate {A = ℕ} n 0 in
      let room = length-replicate {A = ℕ} config_size 0 in
      let buf = copied n (area s) (replicate config_size 0) in
      let len_buf =
        length-copied n (area s) (replicate config_size 0) (omega arith) (omega arith) in
      let len_zeroed = length-overwrite offset (replicate n 0) buf in
      let first =
        get_elem?-copied n (overwrite offset (replicate n 0) buf) (area s) i (omega arith)
          (omega arith) in
      let second = get_elem?-overwrite offset (replicate n 0) buf i (omega arith) in
      let third =
        get_elem?-copied n (area s) (replicate config_size 0) i (omega arith) (omega arith) in
      let zero_there =
        λ (below : i - offset < n). get_elem?-replicate {A = ℕ} n 0 (i - offset) below in
      rw (first, second, third, zeros)
        (chosen n offset i (get_elem? (replicate n 0) (i - offset)) (get_elem? (area s) i)
          (get_elem? (replicate config_size 0) i) zero_there)

  -- For a disabled DIMM that serves each request, and an extent of the area that is not empty,
  -- where the length 0 is that of all the area, the zeroing returns 0 and leaves an area of the
  -- same length. It zeroes the bytes from the offset on that lie below the length, counted from
  -- the start of the area, and changes no other: behind the length, where the rest of the extent
  -- is, every byte is kept.
  pub zero_label_extent_lem :
      (len offset : ℕ)
      → offset + meant config_size len ≤ config_size
      → (l : List ℕ) × (zero_label_extent dimm len offset s ≡ some (done, put s l))
        × (length l ≡ config_size)
        × ((i : ℕ)
            → get_elem? l i ≡ (
                if leb offset i && ltb i (meant config_size len)
                then some 0
                else get_elem? (area s) i))
  unfolding zeroed
  zero_label_extent_lem len offset h =
      let n = meant config_size len in
      let whole = serves.answers.whole in
      let some_area = serves.answers.some_area in
      let zeros = length-replicate {A = ℕ} n 0 in
      let room = length-replicate {A = ℕ} config_size 0 in
      let buf = copied n (area s) (replicate config_size 0) in
      let len_buf =
        length-copied n (area s) (replicate config_size 0) (omega arith) (omega arith) in
      let len_zeroed = length-overwrite offset (replicate n 0) buf in
      let pos : 0 < n = ground arith in
      (
        zeroed n offset,
        zero_label_extent-zeroed len offset n refl h pos,
        length-copied n (overwrite offset (replicate n 0) buf) (area s) (omega arith) (omega arith)
            ∙ whole,
        λ i. get_elem?-zeroed n offset i h,
      )
