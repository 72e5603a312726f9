-- ===== src/Check/Recover/ReadOnly.antt =====
-- Without --repair nothing is restored.
use mathlib.Core.Option
use utils_kernel_ndctl_ndctl.Prelude.{ℕ, ◌≡◌, ◌≢◌, refl, Bool, false, some, ap}
use utils_kernel_ndctl_ndctl.Check.Defs.{Rc, ok, errno, btt, eio}
use utils_kernel_ndctl_ndctl.Check.Media.{Device, BttChk, btt_write_info}
use utils_kernel_ndctl_ndctl.Check.Recover.{
  btt1_start_offset, btt2_start_offset, recover_at, second_answer, after_first,
  btt_recover_first_sb,
}
use utils_kernel_ndctl_ndctl.Check.Recover.Answers.{errno-ne-ok}
use utils_kernel_ndctl_ndctl.Check.Recover.Search.{recover_at-P}

module _ {M : Type 0} (dev : Device M) (bttc : BttChk) (read_only : bttc.opts.repair ≡ false) where
  abbrev Untouched : M → Rc × M → Type 0
  Untouched m (rc, m') = (rc ≢ ok) × (m' ≡ m)

  at-Untouched :
      (memory : Bool) (m : M) (off : ℕ)
      → (r : Rc × M) × (recover_at dev bttc off memory m ≡ some r) × Untouched m r
  at-Untouched memory m off =
      recover_at-P dev bttc off m (Untouched m) (λ rc ne. (ne, refl))
        (λ sb v. unfold btt_write_info in rw read_only (errno-ne-ok eio, refl)) memory

  second-Untouched :
      (memory : Bool) (m : M) (r : Rc × M)
      → Untouched m r
      → second_answer dev bttc memory r ≡ (r.0, bttc.start_off, m)
  second-Untouched memory m (ok, m') h = absurd (h.0 refl)
  second-Untouched memory m (errno e, m') h = rw h.1 refl
  second-Untouched memory m (btt c, m') h = rw h.1 refl

  second_try :
      (memory : Bool) (m m' : M)
      → m' ≡ m
      → (rc : Rc) × (Option.map
            (second_answer dev bttc memory)
            (recover_at dev bttc btt2_start_offset memory m')
          ≡ some (rc, bttc.start_off, m))
        × (rc ≢ ok)
  second_try memory m m' same =
      let (r, eq, p) = at-Untouched memory m btt2_start_offset in
      (r.0, rw (same, eq) (ap some (second-Untouched memory m r p)), p.0)

  after_first-Untouched :
      (memory : Bool) (m : M) (r : Rc × M)
      → Untouched m r
      → (rc : Rc) × (after_first dev bttc memory r (recover_at dev bttc btt2_start_offset memory)
          ≡ some (rc, bttc.start_off, m))
        × (rc ≢ ok)
  after_first-Untouched memory m (ok, m') h = absurd (h.0 refl)
  after_first-Untouched memory m (errno e, m') h = second_try memory m m' h.1
  after_first-Untouched memory m (btt c, m') h = second_try memory m m' h.1

  -- Without --repair, `btt_recover_first_sb` ends with a return code other than 0, and leaves
  -- `start_off` and the device as they are.
  pub btt_recover_first_sb_read_only :
      (memory : Bool) (m : M)
      → (rc : Rc) × (btt_recover_first_sb dev bttc memory m ≡ some (rc, bttc.start_off, m))
        × (rc ≢ ok)
  unfolding btt_recover_first_sb
  btt_recover_first_sb_read_only memory m =
      let (r, eq, p) = at-Untouched memory m btt1_start_offset in
      rw (btt_recover_first_sb, eq) (after_first-Untouched memory m r p)
