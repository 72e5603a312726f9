-- ===== src/Command/Transfer.antt =====
-- ndctl/lib/libndctl.c: the loop of `do_cmd` against the transfer of a whole buffer.
use mathlib.Core.Path.{subst}
use utils_kernel_ndctl_ndctl.Prelude.{
  ℕ, zero, suc, ◌+◌, ◌-◌, ◌%◌, ◌^◌, ◌≤◌, ◌<◌, ◌≡◌, refl, ap, sym, List, some, length, min,
  Bool-cases, ltb→lt, leb, leb→le, inl, inr, false, ◌==◌, ltb, arith,
}
use utils_kernel_ndctl_ndctl.Prelude.Buffers.{
  take, drop, read_at_lem, write_at_lem, overwrite, copied, overwrite-copied, length-slice,
  length-copied, read_at-whole,
}
use utils_kernel_ndctl_ndctl.Namespace.Control.{done}
use utils_kernel_ndctl_ndctl.Command.{
  Direction, reading, writing, CmdIter, Cmd, answered, ConfigDevice, next, settled, transfer,
  transfers, do_cmd,
}

-- What a DIMM does that serves each request: `area` is what is stored in a state, and `put` stores
-- another area.
pub record IsFaithful {S : Type 0} (dev : ConfigDevice S) (area : S → List ℕ) (put : S → List ℕ → S)
    : Type 0 where
  pub area-put : (s : S) (l : List ℕ) → area (put s l) ≡ l
  pub put-put : (s : S) (l l' : List ℕ) → put (put s l) l' ≡ put s l'
  pub put-area : (s : S) → put s (area s) ≡ s
  pub reads :
      (s : S) (offset len : ℕ)
      → offset + len ≤ length (area s)
      → dev.get_data s offset len ≡ (answered 0 0, take len (drop offset (area s)), s)
  pub writes :
      (s : S) (offset : ℕ) (bytes : List ℕ)
      → offset + length bytes ≤ length (area s)
      → dev.set_data s offset bytes ≡ (answered 0 0, put s (overwrite offset bytes (area s)))

-- The transfer of the first bytes in one step, of the buffer and the area: those of the area are
-- read, or those of the buffer are written.
unfoldable pub moved : Direction → ℕ → List ℕ → List ℕ → List ℕ × List ℕ
moved reading n buf area = (copied n area buf, area)
moved writing n buf area = (buf, copied n buf area)

module _ {S : Type 0} (dev : ConfigDevice S) (area : S → List ℕ) (put : S → List ℕ → S)
    (faithful : IsFaithful dev area put) where
  -- The state of the loop when the first `n` bytes are moved.
  transfer-reading :
      (iter : CmdIter) (offset k : ℕ) (buf : List ℕ) (s : S)
      → iter.dir ≡ reading
      → min (iter.total_xfer - offset) iter.max_xfer ≡ k
      → k < 2 ^ 32
      → offset + k ≤ length (area s)
      → offset + k ≤ length buf
      → transfer dev iter offset (copied offset (area s) buf) s
        ≡ some (next (copied (offset + k) (area s) buf) s)
  unfolding transfer settled
  transfer-reading iter offset k buf s d e small p q =
      let back : (k + 2 ^ 32 - 0) % 2 ^ 32 ≡ k = omega arith in
      let got =
        read_at-whole k (take k (drop offset (area s))) (length-slice offset k (area s) p) in
      let n = length-slice offset k (area s) p in
      let old = length-copied offset (area s) buf (omega arith) (omega arith) in
      let kept =
        write_at_lem offset (take k (drop offset (area s))) (copied offset (area s) buf)
          (omega (arith, n, old)) in
      let whole = overwrite-copied offset k (area s) buf p q in
      rw (d, e, faithful.reads s offset k p, back, got, kept, whole) refl

  transfer-writing :
      (iter : CmdIter) (offset k : ℕ) (buf : List ℕ) (s : S)
      → iter.dir ≡ writing
      → min (iter.total_xfer - offset) iter.max_xfer ≡ k
      → offset + k ≤ length (area s)
      → offset + k ≤ length buf
      → transfer dev iter offset buf (put s (copied offset buf (area s)))
        ≡ some (next buf (put s (copied (offset + k) buf (area s))))
  unfolding transfer settled
  transfer-writing iter offset k buf s d e p q =
      let got = read_at_lem offset k buf q in
      let n = length-slice offset k buf q in
      let here = faithful.area-put s (copied offset buf (area s)) in
      let old = length-copied offset buf (area s) (omega arith) (omega arith) in
      let fits : offset + length (take k (drop offset buf))
          ≤ length (area (put s (copied offset buf (area s)))) =
        rw here (omega (arith, n, old)) in
      let put_back =
        faithful.writes (put s (copied offset buf (area s))) offset (take k (drop offset buf))
          fits in
      let whole = overwrite-copied offset k buf (area s) q p in
      rw (d, e, got, put_back, here, whole, faithful.put-put s) refl

  -- The buffer and the device when the first `n` bytes are moved.
  held : Direction → ℕ → List ℕ → S → List ℕ × S
  held reading n buf s = (copied n (area s) buf, s)
  held writing n buf s = (buf, put s (copied n buf (area s)))

  transfer-held :
      (dir : Direction) (iter : CmdIter) (offset k : ℕ) (buf : List ℕ) (s : S)
      → iter.dir ≡ dir
      → min (iter.total_xfer - offset) iter.max_xfer ≡ k
      → k < 2 ^ 32
      → offset + k ≤ length (area s)
      → offset + k ≤ length buf
      → transfer dev iter offset (held dir offset buf s).0 (held dir offset buf s).1
        ≡ some (next (held dir (offset + k) buf s).0 (held dir (offset + k) buf s).1)
  unfolding held
  transfer-held reading iter offset k buf s d e small p q =
      transfer-reading iter offset k buf s d e small p q
  transfer-held writing iter offset k buf s d e small p q =
      transfer-writing iter offset k buf s d e p q

  transfers-end :
      (fuel : ℕ) (iter : CmdIter) (offset : ℕ) (buf : List ℕ) (s : S)
      → 0 < fuel
      → iter.total_xfer ≤ offset
      → transfers dev fuel iter offset buf s ≡ some (done, buf, s)
  unfolding transfers
  transfers-end zero iter offset buf s h p = elim h [ ]
  transfers-end (suc fuel) iter offset buf s h p =
      let stops : ltb offset iter.total_xfer ≡ false = ground arith in rw stops refl

  transfers-held :
      (fuel : ℕ) (dir : Direction) (iter : CmdIter) (offset : ℕ) (buf : List ℕ) (s : S)
      → iter.dir ≡ dir
      → 0 < iter.max_xfer
      → iter.total_xfer + iter.max_xfer ≤ 2 ^ 32
      → iter.total_xfer ≤ length (area s)
      → iter.total_xfer ≤ length buf
      → offset ≤ iter.total_xfer
      → iter.total_xfer < fuel + offset
      → transfers dev fuel iter offset (held dir offset buf s).0 (held dir offset buf s).1
        ≡ some (done, (held dir iter.total_xfer buf s).0, (held dir iter.total_xfer buf s).1)
  unfolding transfers
  transfers-held zero dir iter offset buf s d pos fits p q le h = absurd (omega arith)
  transfers-held (suc fuel) dir iter offset buf s d pos fits p q le h =
      elim (Bool-cases (ltb offset iter.total_xfer)) [
        | inl more ↦
            (let lt = ltb→lt offset iter.total_xfer more in
              let stay : (offset + iter.max_xfer) % 2 ^ 32 ≡ offset + iter.max_xfer = omega arith in
              elim (Bool-cases (leb (offset + iter.max_xfer) iter.total_xfer)) [
                | inl whole ↦
                    (let le' = leb→le (offset + iter.max_xfer) iter.total_xfer whole in
                      let k : min (iter.total_xfer - offset) iter.max_xfer ≡ iter.max_xfer =
                        omega arith in
                      let round =
                        transfer-held dir iter offset iter.max_xfer buf s d k (omega arith)
                          (omega arith) (omega arith) in
                      let rest =
                        transfers-held fuel dir iter (offset + iter.max_xfer) buf s d pos fits p q
                          le' (omega arith) in
                      rw (more, round, stay) rest)
                | inr last ↦
                    (let k : min (iter.total_xfer - offset) iter.max_xfer
                          ≡ iter.total_xfer - offset =
                        ground arith in
                      let sum : offset + (iter.total_xfer - offset) ≡ iter.total_xfer =
                        omega arith in
                      let round =
                        transfer-held dir iter offset (iter.total_xfer - offset) buf s d k
                          (omega arith) (omega arith) (omega arith) in
                      rw (more, round, stay, sum)
                        (transfers-end fuel iter (offset + iter.max_xfer)
                          (held dir iter.total_xfer buf s).0 (held dir iter.total_xfer buf s).1
                          (omega arith) (ground arith)))
              ])
        | inr end ↦
            (let all : offset ≡ iter.total_xfer = ground arith in
              rw (all) (
                transfers-end (suc fuel) iter iter.total_xfer (held dir iter.total_xfer buf s).0
                  (held dir iter.total_xfer buf s).1 (omega arith) (omega arith)))
      ]

  held-start : (dir : Direction) (buf : List ℕ) (s : S) → held dir 0 buf s ≡ (buf, s)
  unfolding held
  held-start reading buf s = refl
  held-start writing buf s = ap (λ (t : S). (buf, t)) (faithful.put-area s)

  held-moved :
      (dir : Direction) (n : ℕ) (buf : List ℕ) (s : S)
      → held dir n buf s ≡ ((moved dir n buf (area s)).0, put s (moved dir n buf (area s)).1)
  unfolding held moved
  held-moved reading n buf s =
      ap (λ (t : S). (copied n (area s) buf, t)) (sym (faithful.put-area s))
  held-moved writing n buf s = refl

  -- With a DIMM that serves each request, a part size above 0, and a total that the area and the
  -- buffer hold and that does not wrap around with a part more, `do_cmd` returns 0 and has moved the
  -- first `total_xfer` bytes as in one step: what is read is in the buffer, or what is written is in
  -- the area.
  pub do_cmd-moved :
      (cmd : Cmd) (buf : List ℕ) (s : S)
      → 0 < cmd.iter.max_xfer
      → 0 < cmd.iter.total_xfer
      → cmd.iter.total_xfer + cmd.iter.max_xfer ≤ 2 ^ 32
      → cmd.iter.total_xfer ≤ length (area s)
      → cmd.iter.total_xfer ≤ length buf
      → do_cmd dev cmd buf s
        ≡ some (
          done,
          (moved cmd.iter.dir cmd.iter.total_xfer buf (area s)).0,
          put s (moved cmd.iter.dir cmd.iter.total_xfer buf (area s)).1,
        )
  unfolding do_cmd
  do_cmd-moved cmd buf s pos some_bytes fits p q =
      let more : (cmd.iter.total_xfer == 0) ≡ false = ground arith in
      let loop =
        transfers-held (cmd.iter.total_xfer + 1) cmd.iter.dir cmd.iter 0 buf s refl pos fits p q
          (omega arith) (omega arith) in
      let result = λ (r h : List ℕ × S).
        transfers dev (cmd.iter.total_xfer + 1) cmd.iter 0 r.0 r.1 ≡ some (done, h.0, h.1) in
      let total = held cmd.iter.dir cmd.iter.total_xfer buf s in
      let started = subst (λ r. result r total) (held-start cmd.iter.dir buf s) loop in
      rw (more)
        (subst (result (buf, s)) (held-moved cmd.iter.dir cmd.iter.total_xfer buf s) started)
