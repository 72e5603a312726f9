-- ===== src/Check/Recover/Answers.antt =====
-- What the reads of info blocks answer: a return code that is not 0, or a block that is valid.
use utils_kernel_ndctl_ndctl.Prelude.{ℕ, ◌≡◌, ◌≢◌, refl, sym, ap, ◌∙◌, arith}
use utils_kernel_ndctl_ndctl.Check.Defs.{Rc, ok, errno, btt, enxio, BttSb, Errno}
use utils_kernel_ndctl_ndctl.Check.Info.{btt_info_verify, verify_infoblock_checksum}
use utils_kernel_ndctl_ndctl.Check.Media.{
  ◌>>=◌, Pread, Result, err, got, filled, Device, BttChk, btt_read_info, btt_info_read_verify,
}

-- An info block that the checker takes for valid.
abbrev pub Verified : BttChk → BttSb → Type 0
Verified bttc sb = (btt_info_verify bttc.host bttc.signature bttc.parent_uuid sb).0 ≡ ok

-- A block that passes is left as it is.
pub btt_info_verify-keeps :
    (bttc : BttChk) (sb : BttSb)
    → Verified bttc sb
    → (btt_info_verify bttc.host bttc.signature bttc.parent_uuid sb).1 ≡ sb
unfolding btt_info_verify verify_infoblock_checksum
btt_info_verify-keeps bttc sb h = ground arith

-- What a read gives: a return code other than 0, or a block.
abbrev pub Answers : Result BttSb → (BttSb → Type 0) → Type 0
Answers (err rc) Q = rc ≢ ok
Answers (got sb) Q = Q sb

pub errno-ne-ok : (e : Errno) → errno e ≢ ok
errno-ne-ok e h = cc

pub filled-Verified :
    (bttc : BttChk) (sb : BttSb)
    → Answers
        (filled (btt_info_verify bttc.host bttc.signature bttc.parent_uuid sb))
        (Verified bttc)
filled-Verified bttc sb = answer (btt_info_verify bttc.host bttc.signature bttc.parent_uuid sb) refl
  where
    answer :
        (r : Rc × BttSb)
        → btt_info_verify bttc.host bttc.signature bttc.parent_uuid sb ≡ r
        → Answers (filled r) (Verified bttc)
    answer (errno e, sb') h = errno-ne-ok e
    answer (btt c, sb') h = λ l. cc
    answer (ok, sb') h =
        let kept = btt_info_verify-keeps bttc sb (ap (λ r. r.0) h) in
        rw (sym (ap (λ r. r.1) h) ∙ kept) (ap (λ r. r.0) h)

module _ {M : Type 0} (dev : Device M) (bttc : BttChk) where
  pub read_info-Answers :
      (m : M) (off : ℕ) → Answers (btt_read_info dev m off) (λ sb. dev.pread m off ≡ Pread.whole sb)
  unfolding btt_read_info
  read_info-Answers m off = answer (dev.pread m off) refl
    where
      answer :
          (r : Pread)
          → dev.pread m off ≡ r
          → Answers
              (elim r [
                | Pread.failed e ↦ err (errno e)
                | Pread.short ↦ err (errno enxio)
                | Pread.whole sb ↦ got sb
              ])
              (λ sb. dev.pread m off ≡ Pread.whole sb)
      answer (Pread.failed e) h = errno-ne-ok e
      answer Pread.short h = errno-ne-ok enxio
      answer (Pread.whole sb) h = h

  pub read_verify-Answers :
      (m : M) (off : ℕ) → Answers (btt_info_read_verify dev bttc m off) (Verified bttc)
  unfolding btt_info_read_verify
  read_verify-Answers m off = step (btt_read_info dev m off) (read_info-Answers m off)
    where
      step :
          (r : Result BttSb)
          → Answers r (λ sb. dev.pread m off ≡ Pread.whole sb)
          → Answers
              (r >>= λ sb. filled (btt_info_verify bttc.host bttc.signature bttc.parent_uuid sb))
              (Verified bttc)
      step (err rc) h = h
      step (got sb) h = filled-Verified bttc sb
