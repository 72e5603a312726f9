-- ===== src/Check/Recover/Search.antt =====
-- What holds of the search for a block to restore, whichever attempt finds one.
use utils_kernel_ndctl_ndctl.Prelude.{
  ℕ, ◌+◌, ◌/◌, ◌≡◌, ◌≢◌, refl, Bool, true, false, Option, some, none, if◌then◌else◌, arith, inl,
  inr, ap, ◌∙◌, sym,
}
use utils_kernel_ndctl_ndctl.Check.Defs.{Rc, ok, errno, btt, enxio, enomem, einval, BttSb}
use utils_kernel_ndctl_ndctl.Check.Info.{btt_info_verify}
use utils_kernel_ndctl_ndctl.Check.Media.{
  Pread, Result, err, got, Device, BttChk, btt_read_info, btt_write_info, arena_max_size,
}
use utils_kernel_ndctl_ndctl.Check.Recover.{
  copy_fields, restore, attempt3, restore_or, patched, attempt2, expected, found_or, attempt1,
  attempts, estimated, recover_at, sub64,
}
use utils_kernel_ndctl_ndctl.Check.Recover.Estimate.{estimate_lem, estimate_of-cases}
use utils_kernel_ndctl_ndctl.Check.Recover.Answers.{
  Verified, Answers, errno-ne-ok, btt_info_verify-keeps, read_info-Answers, read_verify-Answers,
}

pub if_either {ℓ κ} :
    {A : Type ℓ} (P : A → Type κ) (c : Bool) {x y : A} → P x → P y → P (if c then x else y)
if_either P true p q = p
if_either P false p q = q

-- What holds of a failure that leaves the device alone, and of the write of a valid block, holds of
-- the whole search for a block to restore.
module _ {M : Type 0} (dev : Device M) (bttc : BttChk) (off : ℕ) (m : M) (P : Rc × M → Type 0)
    (fails : (rc : Rc) → rc ≢ ok → P (rc, m))
    (writes : (sb : BttSb) → Verified bttc sb → P (btt_write_info dev bttc m sb off)) where
  restore-P : (r : Result BttSb) → Answers r (Verified bttc) → P (restore dev bttc off m r)
  restore-P (err rc) h = fails rc h
  restore-P (got sb) h = writes sb h

  attempt3-P : (first : BttSb) → P (attempt3 dev bttc off m first)
  unfolding attempt3
  attempt3-P first = if_either P _ (fails (errno enxio) (errno-ne-ok enxio)) (
      if_either P _ (fails (errno enxio) (errno-ne-ok enxio))
        (restore-P _ (read_verify-Answers dev bttc m _)))

  restore_or-P :
      (sb : BttSb) (rest : Rc × M)
      → P rest
      → P (
          restore_or dev bttc off m
            (btt_info_verify bttc.host bttc.signature bttc.parent_uuid sb)
            rest)
  restore_or-P sb rest p = go (btt_info_verify bttc.host bttc.signature bttc.parent_uuid sb) refl
    where
      go :
          (r : Rc × BttSb)
          → btt_info_verify bttc.host bttc.signature bttc.parent_uuid sb ≡ r
          → P (restore_or dev bttc off m r rest)
      go (errno e, sb') h = p
      go (btt c, sb') h = p
      go (ok, sb') h =
          let kept = btt_info_verify-keeps bttc sb (ap (λ r. r.0) h) in
          writes sb' (rw (sym (ap (λ r. r.1) h) ∙ kept) (ap (λ r. r.0) h))

  patched-P :
      (first : BttSb) (r : Result BttSb)
      → Answers r (Verified bttc)
      → P (patched dev bttc off m first r)
  patched-P first (err rc) h = fails rc h
  patched-P first (got sb) h = restore_or-P (copy_fields first sb) _ (attempt3-P first)

  attempt2-P :
      (first : BttSb) (est_arenas remaining : ℕ)
      → P (attempt2 dev bttc off m first est_arenas remaining)
  unfolding attempt2
  attempt2-P first est_arenas remaining =
      if_either P _ (patched-P first _ (read_verify-Answers dev bttc m _)) (attempt3-P first)

  expected-P : (sb : BttSb) (o : Option ℕ) → Verified bttc sb → P (expected dev bttc off m sb o)
  expected-P sb none h = fails (errno enxio) (errno-ne-ok enxio)
  expected-P sb (some o) h = if_either P _ (writes sb h) (fails (errno enxio) (errno-ne-ok enxio))

  found_or-P :
      (r : Result BttSb) (rest : Rc × M)
      → Answers r (Verified bttc)
      → P rest
      → P (found_or dev bttc off m r rest)
  found_or-P (err rc) rest h p = p
  found_or-P (got sb) rest h p = expected-P sb _ h

  attempt1-P :
      (est_arenas remaining : ℕ) (first : BttSb)
      → P (attempt1 dev bttc off m est_arenas remaining first)
  unfolding attempt1
  attempt1-P est_arenas remaining first =
      found_or-P _ _ (read_verify-Answers dev bttc m _) (attempt2-P first est_arenas remaining)

  attempts-P :
      (est : ℕ × ℕ) (Q : BttSb → Type 0) (r : Result BttSb)
      → Answers r Q
      → P (attempts dev bttc off m est r)
  attempts-P est Q (err rc) h = fails rc h
  attempts-P (est_arenas, remaining) Q (got first) h = attempt1-P est_arenas remaining first

  got-P : (memory : Bool) (est : ℕ × ℕ) → P (estimated dev bttc off memory m (got est))
  got-P memory est =
      if_either P memory
        (attempts-P est (λ sb. dev.pread m off ≡ Pread.whole sb) (btt_read_info dev m off)
          (read_info-Answers dev bttc m off))
        (fails (errno enomem) (errno-ne-ok enomem))

  pub recover_at-P :
      (memory : Bool) → (r : Rc × M) × (recover_at dev bttc off memory m ≡ some r) × P r
  unfolding recover_at
  recover_at-P memory =
      let space = sub64 bttc.rawsize off in
      let ended = estimate_lem (space / arena_max_size + 2) space 0 (omega arith) in
      elim (estimate_of-cases space) [
        | inl e ↦ (
          (errno einval, m),
          rw (recover_at, ended, e) refl,
          fails (errno einval) (errno-ne-ok einval),
        )
        | inr (est, e) ↦ (
          estimated dev bttc off memory m (got est),
          rw (recover_at, ended, e) refl,
          got-P memory est,
        )
      ]
