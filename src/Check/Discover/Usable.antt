-- ===== src/Check/Discover/Usable.antt =====
-- The info blocks that `btt_discover_arenas` may go on with.
use utils_kernel_ndctl_ndctl.Prelude.{ℕ, ◌+◌, ◌^◌, ◌≤◌, ◌<◌, ◌≡◌, refl, sym, ap, ◌∙◌}
use utils_kernel_ndctl_ndctl.Check.Defs.{Rc, ok, errno, btt, BttSb}
use utils_kernel_ndctl_ndctl.Check.Info.{btt_info_verify}
use utils_kernel_ndctl_ndctl.Check.Media.{
  ◌>>=◌, Pread, Result, err, got, filled, Device, BttChk, btt_read_info, btt_write_info,
  btt_info_read_verify,
}
use utils_kernel_ndctl_ndctl.Check.Recover.Answers.{
  Answers, errno-ne-ok, btt_info_verify-keeps, read_info-Answers,
}
use utils_kernel_ndctl_ndctl.Check.Discover.{
  restored_block, backup, verified_or_backup, read_or_backup, arena_block,
}

-- A device of `rawsize` bytes, of which a block is read only where it ends on the device, and info
-- blocks whose next arena is less than 2 ^ 63 bytes away.
pub record Bounded {M : Type 0} (dev : Device M) (bttc : BttChk) : Type 0 where
  pub fits :
      (m : M) (off : ℕ) (sb : BttSb) → dev.pread m off ≡ Pread.whole sb → off + 4096 ≤ bttc.rawsize
  pub near :
      (m : M) (off : ℕ) (sb : BttSb)
      → dev.pread m off ≡ Pread.whole sb
      → bttc.host.le64_to_cpu sb.nextoff < 2 ^ 63
  pub small : bttc.rawsize < 2 ^ 63
  pub zero_only : (v : ℕ) → bttc.host.le64_to_cpu v ≡ 0 → v ≡ 0

module _ {M : Type 0} (dev : Device M) (bttc : BttChk) (h : Bounded dev bttc) where
  abbrev pub Near : BttSb → Type 0
  Near sb = bttc.host.le64_to_cpu sb.nextoff < 2 ^ 63

  filled-Near :
      (sb : BttSb)
      → Near sb
      → Answers (filled (btt_info_verify bttc.host bttc.signature bttc.parent_uuid sb)) Near
  filled-Near sb n = go (btt_info_verify bttc.host bttc.signature bttc.parent_uuid sb) refl
    where
      go :
          (r : Rc × BttSb)
          → btt_info_verify bttc.host bttc.signature bttc.parent_uuid sb ≡ r
          → Answers (filled r) Near
      go (errno e, sb') q = errno-ne-ok e
      go (btt c, sb') q = λ l. cc
      go (ok, sb') q =
          rw (sym (ap (λ r. r.1) q) ∙ btt_info_verify-keeps bttc sb (ap (λ r. r.0) q)) n

  read_verify-Near : (m : M) (off : ℕ) → Answers (btt_info_read_verify dev bttc m off) Near
  unfolding btt_info_read_verify
  read_verify-Near m off = step (btt_read_info dev m off) (read_info-Answers dev bttc m off)
    where
      step :
          (r : Result BttSb)
          → Answers r (λ sb. dev.pread m off ≡ Pread.whole sb)
          → Answers
              (r >>= λ sb. filled (btt_info_verify bttc.host bttc.signature bttc.parent_uuid sb))
              Near
      step (err rc) q = q
      step (got sb) q = filled-Near sb (h.near m off sb q)

  -- The block of the arena at `cur_off`.
  abbrev pub Usable : ℕ → BttSb → Type 0
  Usable cur_off sb = (cur_off + 4096 ≤ bttc.rawsize) × Near sb

  backup-Usable :
      (cur_off : ℕ) (m : M) (r : Result BttSb)
      → cur_off + 4096 ≤ bttc.rawsize
      → Answers r Near
      → Answers (backup dev bttc cur_off m r).0 (Usable cur_off)
  backup-Usable cur_off m (err rc) l q = q
  backup-Usable cur_off m (got sb) l q = after (btt_write_info dev bttc m sb cur_off)
    where
      after : (r : Rc × M) → Answers (restored_block dev bttc sb r).0 (Usable cur_off)
      after (ok, m') = (l, q)
      after (errno e, m') = errno-ne-ok e
      after (btt c, m') = λ e. cc

  pub arena_block-Usable :
      (remaining cur_off : ℕ) (m : M)
      → Answers (arena_block dev bttc remaining cur_off m).0 (Usable cur_off)
  unfolding arena_block
  arena_block-Usable remaining cur_off m =
      step (btt_read_info dev m cur_off) (read_info-Answers dev bttc m cur_off)
    where
      verified :
          (sb : BttSb) (r : Rc × BttSb)
          → dev.pread m cur_off ≡ Pread.whole sb
          → btt_info_verify bttc.host bttc.signature bttc.parent_uuid sb ≡ r
          → Answers (verified_or_backup dev bttc remaining cur_off m r).0 (Usable cur_off)
      verified sb (ok, sb') q e = (
        h.fits m cur_off sb q,
        rw (sym (ap (λ r. r.1) e) ∙ btt_info_verify-keeps bttc sb (ap (λ r. r.0) e))
            (h.near m cur_off sb q),
      )
      verified sb (errno c, sb') q e =
          backup-Usable cur_off m _ (h.fits m cur_off sb q) (read_verify-Near m _)
      verified sb (btt c, sb') q e =
          backup-Usable cur_off m _ (h.fits m cur_off sb q) (read_verify-Near m _)

      step :
          (r : Result BttSb)
          → Answers r (λ sb. dev.pread m cur_off ≡ Pread.whole sb)
          → Answers (read_or_backup dev bttc remaining cur_off m r).0 (Usable cur_off)
      step (err rc) q = q
      step (got sb) q = verified sb _ q refl
