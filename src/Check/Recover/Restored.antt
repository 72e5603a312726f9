-- ===== src/Check/Recover/Restored.antt =====
-- What `btt_recover_first_sb` may leave on the device.
use utils_kernel_ndctl_ndctl.Prelude.{
  ℕ, ◌≡◌, ◌≢◌, ◌⊎◌, refl, Bool, Option, some, none, inl, inr, ap, ◌∙◌, sym,
}
use utils_kernel_ndctl_ndctl.Check.Defs.{Rc, ok, errno, btt, enxio, eio, BttSb, Errno}
use utils_kernel_ndctl_ndctl.Check.Media.{
  Pread, Pwrite, Device, BttChk, btt_write_info, written, fsynced,
}
use utils_kernel_ndctl_ndctl.Check.Recover.{
  btt1_start_offset, btt2_start_offset, recover_at, second_answer, after_first,
  btt_recover_first_sb,
}
use utils_kernel_ndctl_ndctl.Check.Recover.Answers.{Verified, errno-ne-ok}
use utils_kernel_ndctl_ndctl.Check.Recover.Search.{if_either, recover_at-P}

-- The device keeps what is written to it.
pub record Keeps {M : Type 0} (dev : Device M) : Type 0 where
  pub stored :
      (m m' : M) (off : ℕ) (sb : BttSb)
      → dev.pwrite m off sb ≡ (Pwrite.whole, m')
      → dev.pread m' off ≡ Pread.whole sb
  pub synced : (m : M) (off : ℕ) → dev.pread (dev.fsync m).1 off ≡ dev.pread m off

-- A failure, or a valid info block at `off`.
abbrev pub Restored : {M : Type 0} → Device M → BttChk → ℕ → Rc × M → Type 0
Restored dev bttc off (rc, m) =
    (rc ≢ ok) ⊎ ((sb : BttSb) × (dev.pread m off ≡ Pread.whole sb) × Verified bttc sb)

module _ {M : Type 0} (dev : Device M) (bttc : BttChk) (keeps : Keeps dev) where
  write-Restored :
      (m : M) (off : ℕ) (sb : BttSb)
      → Verified bttc sb
      → Restored dev bttc off (btt_write_info dev bttc m sb off)
  unfolding btt_write_info
  write-Restored m off sb v =
      if_either (Restored dev bttc off) bttc.opts.repair (go (dev.pwrite m off sb) refl)
        (inl (errno-ne-ok eio))
    where
      go : (r : Pwrite × M) → dev.pwrite m off sb ≡ r → Restored dev bttc off (written dev r)
      go (Pwrite.failed e, m') h = inl (errno-ne-ok e)
      go (Pwrite.short, m') h = inl (errno-ne-ok enxio)
      go (Pwrite.whole, m') h = flushed (dev.fsync m') refl
        where
          flushed :
              (r : Option Errno × M) → dev.fsync m' ≡ r → Restored dev bttc off (fsynced dev r)
          flushed (some e, m'') f = inl (errno-ne-ok e)
          flushed (none, m'') f =
              let kept = keeps.synced m' off in
              inr (sb, sym (ap (λ r. dev.pread r.1 off) f) ∙ (kept ∙ keeps.stored m m' off sb h), v)

  -- What the caller finds.
  abbrev Found : Rc × ℕ × M → Type 0
  Found (rc, start_off, m) =
      (rc ≢ ok)
      ⊎ (((start_off ≡ btt1_start_offset) ⊎ (start_off ≡ btt2_start_offset))
          × ((sb : BttSb) × (dev.pread m start_off ≡ Pread.whole sb) × Verified bttc sb))

  second-Found :
      (memory : Bool) (r : Rc × M)
      → Restored dev bttc btt2_start_offset r
      → Found (second_answer dev bttc memory r)
  second-Found memory (ok, m) (inl ne) = inl ne
  second-Found memory (ok, m) (inr found) = inr (inr refl, found)
  second-Found memory (errno e, m) h = inl (errno-ne-ok e)
  second-Found memory (btt c, m) h = inl (λ l. cc)

  at-Restored :
      (memory : Bool) (m : M) (off : ℕ)
      → (r : Rc × M) × (recover_at dev bttc off memory m ≡ some r) × Restored dev bttc off r
  at-Restored memory m off =
      recover_at-P dev bttc off m (Restored dev bttc off) (λ rc ne. inl ne) (write-Restored m off)
        memory

  after_first-Found :
      (memory : Bool) (r : Rc × M)
      → Restored dev bttc btt1_start_offset r
      → (s : Rc × ℕ × M) × (after_first dev bttc memory r
            (recover_at dev bttc btt2_start_offset memory)
          ≡ some s)
        × Found s
  after_first-Found memory (ok, m) (inl ne) = (_, refl, inl ne)
  after_first-Found memory (ok, m) (inr found) = (_, refl, inr (inl refl, found))
  after_first-Found memory (errno e, m) h =
      let (r, eq, p) = at-Restored memory m btt2_start_offset in
      (_, rw eq refl, second-Found memory r p)
  after_first-Found memory (btt c, m) h =
      let (r, eq, p) = at-Restored memory m btt2_start_offset in
      (_, rw eq refl, second-Found memory r p)

  -- On a device that keeps what is written to it, `btt_recover_first_sb` ends, and either its return
  -- code is not 0, or its `start_off` is one of the two start offsets, where a valid info block now
  -- stands.
  pub btt_recover_first_sb-Found :
      (memory : Bool) (m : M)
      → (r : Rc × ℕ × M) × (btt_recover_first_sb dev bttc memory m ≡ some r) × Found r
  unfolding btt_recover_first_sb
  btt_recover_first_sb-Found memory m =
      let (r, eq, p) = at-Restored memory m btt1_start_offset in
      rw (btt_recover_first_sb, eq) (after_first-Found memory r p)
