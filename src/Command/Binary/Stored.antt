-- ===== src/Command/Binary/Stored.antt =====
-- ndctl/dimm.c: write-labels stores the file in the label area.
use utils_kernel_ndctl_ndctl.Prelude.{
  ℕ, zero, suc, ◌+◌, ◌-◌, ◌*◌, ◌/◌, ◌%◌, ◌^◌, ◌≤◌, ◌<◌, ◌≡◌, refl, min, ltb, leb, ◌==◌, true, false,
  List, some, length, length-replicate, replicate, arith, Bool-cases, inl, inr,
}
use utils_kernel_ndctl_ndctl.Prelude.Buffers.{
  take, drop, copied, write_at_lem, read_at-whole, length-slice, length-copied, length-drop,
  overwrite-copied,
}
use utils_kernel_ndctl_ndctl.Prelude.Buffers.Between.{copied_whole, copied_start, drop-drop}
use utils_kernel_ndctl_ndctl.Namespace.Control.{done}
use utils_kernel_ndctl_ndctl.Command.{Cmd, ret_of, new_cfg_write}
use utils_kernel_ndctl_ndctl.Command.Access.{cfg_write_set_data, cfg_read_get_size, access_inside}
use utils_kernel_ndctl_ndctl.Command.Transfer.{moved, do_cmd-moved}
use utils_kernel_ndctl_ndctl.Command.Extent.{Dimm}
use utils_kernel_ndctl_ndctl.Command.Extent.Zeroed.{
  ret_of-positive, write_cmd, new_cfg_write-read_cmd, Serves, read_label_extent-copied,
}
use utils_kernel_ndctl_ndctl.Command.Binary.{
  part_size, got, write_rounds, write_bin, revalidate_labels, write_read, action_write,
}

write_rounds-end :
    (fuel : ℕ) (cmd : Cmd) (n offset : ℕ) (file : List ℕ) (write : ℕ) (buf : List ℕ)
    → 0 < fuel
    → n ≤ offset
    → write_rounds fuel cmd n n offset file write buf ≡ some (done, write, buf)
unfolding write_rounds
write_rounds-end zero cmd n offset file write buf h p = elim h [ ]
write_rounds-end (suc fuel) cmd n offset file write buf h p =
    let over : leb n offset ≡ true = ground arith in rw over refl

module _ (max_xfer n : ℕ) (small : n < 2 ^ 32) (file old : List ℕ) (long : n ≤ length file)
    (room : length old ≡ n) where
  -- A round of the loop copies the next bytes of the file.
  set_next :
      (c k : ℕ)
      → c + k ≤ n
      → cfg_write_set_data
          (write_cmd max_xfer n)
          (copied c file old)
          (take k (drop c file))
          k
          (c % 2 ^ 32)
        ≡ some (ret_of k, copied (c + k) file old)
  unfolding cfg_write_set_data
  set_next c k h =
      let offset : c % 2 ^ 32 ≡ c = omega arith in
      let access = access_inside (write_cmd max_xfer n).iter k c refl h small in
      let len = length-slice c k file (omega arith) in
      let read = read_at-whole k (take k (drop c file)) len in
      let had = length-copied c file old (omega arith) (omega arith) in
      let wrote = write_at_lem c (take k (drop c file)) (copied c file old) (omega arith) in
      rw (offset, access, read, wrote, overwrite-copied c k file old (omega arith) (omega arith))
        refl

  write_rounds-copied :
      (fuel c : ℕ)
      → c ≤ n
      → n + 4096 ≤ c + 4096 * fuel
      → write_rounds fuel (write_cmd max_xfer n) n n c (drop c file) c (copied c file old)
        ≡ some (done, n, copied n file old)
  unfolding write_rounds
  write_rounds-copied zero c le h = absurd (omega arith)
  write_rounds-copied (suc fuel) c le h =
      let k = min (min part_size (n - c)) (length (drop c file)) in
      let left = length-drop c file in
      elim (Bool-cases (leb n c)) [
        | inl all ↦ (let same : c ≡ n = ground arith in rw (all, same) refl)
        | inr more ↦
            (let fits : ltb n c ≡ false = ground arith in
              let some_bytes : (k == 0) ≡ false = ground arith in
              let set = set_next c k (omega arith) in
              elim (Bool-cases (leb (c + part_size) n)) [
                | inl full ↦
                    (let part : k ≡ 4096 = ground arith in
                      let rest = write_rounds-copied fuel (c + 4096) (ground arith) (omega arith) in
                      rw (more, fits, some_bytes, set, ret_of-positive k, drop-drop c k file, part)
                        rest)
                | inr last ↦
                    (let sum : c + k ≡ n = ground arith in
                      rw (more, fits, some_bytes, set, ret_of-positive k, sum)
                        (write_rounds-end fuel (write_cmd max_xfer n) n (c + part_size)
                          (drop k (drop c file)) n (copied n file old) (ground arith)
                          (ground arith)))
              ])
      ]

got-ret_of : (n : ℕ) → got (ret_of n) ≡ n
got-ret_of zero = refl
got-ret_of (suc n) = refl

module _ {S : Type 0} (dimm : Dimm S) (area : S → List ℕ) (put : S → List ℕ → S) (s : S)
    (config_size max_xfer : ℕ) (serves : Serves dimm area put s config_size max_xfer) where
  write_bin-stored :
      (file buf : List ℕ)
      → config_size ≤ length file
      → length buf ≡ config_size
      → write_bin dimm file (write_cmd max_xfer config_size) buf config_size 0 s
        ≡ some (done, copied config_size file buf, put s (copied config_size file buf))
  unfolding write_bin moved
  write_bin-stored file buf long room =
      let a = serves.answers in
      let below = a.below in
      let some_area = a.some_area in
      let some_part = a.some_part in
      let whole = a.whole in
      let n = config_size in
      let rounds =
        write_rounds-copied max_xfer n (omega arith) file buf long room (n / part_size + 2) 0
          (omega arith) (omega arith) in
      let len = length-copied n file buf long (omega arith) in
      let sent =
        do_cmd-moved dimm.device area put a.faithful (write_cmd max_xfer n) (copied n file buf) s
          some_part some_area below (omega arith) (omega arith) in
      let all = copied_whole n (copied n file buf) (area s) (omega arith) whole in
      let end : 0 + n ≡ n = omega arith in
      let many : (n == 0) ≡ false = ground arith in rw (end, rounds, many, a.node s, sent, all) refl

  -- For a disabled DIMM that serves each request, and a file of at least the size of its label area,
  -- `write-labels` of all the area returns 0, and the area is then the start of the file.
  pub action_write-stored :
      (file : List ℕ)
      → config_size ≤ length file
      → action_write dimm 0 0 file s ≡ some (done, put s (take config_size file))
  unfolding action_write new_cfg_write cfg_read_get_size revalidate_labels
  action_write-stored file long =
      let a = serves.answers in
      let some_area = a.some_area in
      let some_part = a.some_part in
      let n = config_size in
      let buf = copied n (area s) (replicate n 0) in
      let read =
        read_label_extent-copied dimm area put s n max_xfer serves 0 0 n refl (omega arith)
          some_area in
      let zeros = length-replicate {A = ℕ} n 0 in
      let whole = a.whole in
      let room = length-copied n (area s) (replicate n 0) (omega arith) (omega arith) in
      let part : (min max_xfer n == 0) ≡ false = ground arith in
      let bin = write_bin-stored file buf long (omega arith) in
      let start = copied_start n file buf (omega arith) in
      let stays = serves.disabled (put s (take n file)) in
      rw
        (
          serves.inactive,
          read,
          write_read,
          new_cfg_write-read_cmd dimm.set_supported max_xfer n serves.writes some_part some_area,
          got-ret_of n,
          bin,
          start,
          stays,
        )
        refl
