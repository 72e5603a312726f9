-- ===== src/Namespace/Reconfig/Zeroed.antt =====
-- What `zero_info_block` leaves on the device.
use utils_kernel_ndctl_ndctl.Prelude.{
  ℕ, ◌≡◌, ◌⊎◌, inl, inr, refl, Bool, true, false, not, ◌&&◌, List, [], ◌∷◌, arith, if-cases,
  if◌then◌else◌, Bool-cases,
}
use utils_kernel_ndctl_ndctl.Check.Defs.{Errno, enxio, enomem}
use utils_kernel_ndctl_ndctl.Namespace.Control.{Ret, done, failed, positive, Control}
use utils_kernel_ndctl_ndctl.Namespace.Reconfig.{
  all_zero, zero_if_needed, zero_enabled, zero_out, zero_info_block,
}

-- Each of the bytes is 0.
abbrev pub Zeros : List ℕ → Type 0
Zeros [] = Unit
Zeros (b ∷ bs) = (b ≡ 0) × Zeros bs

all_zero-Zeros : (bs : List ℕ) → all_zero bs ≡ true → Zeros bs
all_zero-Zeros [] h = _
all_zero-Zeros (b ∷ bs) h =
    let rest : all_zero bs ≡ true = ground arith in
    let here : b ≡ 0 = ground arith in (here, all_zero-Zeros bs rest)

module _ {S N : Type 0} (ctl : Control S N) (force : Bool) (uuid : List ℕ)
    (block : N → S → List ℕ) where
  abbrev pub Failed : Ret → Type 0
  Failed rc = (e : Errno) × (rc ≡ failed e)

  -- It failed, or the info block `block` is zero, or the `pread` from the state `t` did not read all.
  abbrev pub FailedOrZeroed : N → S → Ret × S → Type 0
  FailedOrZeroed ndns t r =
      Failed r.0
      ⊎ Zeros (block ndns r.1)
      ⊎ (((ctl.read_info ndns t).0 ≡ false) × (r.0 ≡ positive 1))

  -- A whole `pread` gives the info block, and a whole `pwrite` of zeros leaves zeros there.
  abbrev pub Reads : Type 0
  Reads =
      (ndns : N) (u : S) → (ctl.read_info ndns u).0 ≡ true → (ctl.read_info ndns u).1 ≡ block ndns u

  abbrev pub Writes : Type 0
  Writes =
      (ndns : N) (u : S)
      → (ctl.write_zeros ndns u).0 ≡ true
      → Zeros (block ndns (ctl.write_zeros ndns u).1)

  zero_if_needed-FailedOrZeroed :
      (ndns : N) (s : S)
      → Reads
      → Writes
      → FailedOrZeroed ndns s (zero_if_needed ctl force uuid ndns s)
  unfolding zero_if_needed
  zero_if_needed-FailedOrZeroed ndns s reads wrote =
      let s' = (ctl.write_zeros ndns s).1 in
      let code = if (ctl.write_zeros ndns s).0 then done else failed enxio in
      if-cases (FailedOrZeroed ndns s) (all_zero (ctl.read_info ndns s).1) {x = (positive 1, s)}
        {y = (code, s')}
        (λ zero. elim (Bool-cases (ctl.read_info ndns s).0) [
          | inl whole ↦ inr (inl (rw (← reads ndns s whole) (all_zero-Zeros _ zero)))
          | inr part ↦ inr (inr (part, refl))
        ])
        (λ other.
          if-cases (λ rc. FailedOrZeroed ndns s (rc, s')) (ctl.write_zeros ndns s).0 {x = done}
            {y = failed enxio} (λ c. inr (inl (wrote ndns s c))) (λ c. inl (enxio, refl)))

  zero_enabled-FailedOrZeroed :
      (ndns : N) (s : S)
      → ctl.open_exclusive ndns s ≡ true
      → Reads
      → Writes
      → FailedOrZeroed ndns s (zero_enabled ctl force uuid ndns done s)
  zero_enabled-FailedOrZeroed ndns s opens reads wrote =
      if-cases (FailedOrZeroed ndns s) (not (ctl.memory.0 && ctl.memory.1)) {x = (failed enomem, s)}
        {y = if ctl.open_exclusive ndns s then zero_if_needed ctl force uuid ndns s else (done, s)}
        (λ c. inl (enomem, refl)) (λ c. rw opens (zero_if_needed-FailedOrZeroed ndns s reads wrote))

  zero_out-FailedOrZeroed :
      (ndns : N) (t : S) (r : Ret × S)
      → ((u : S) → block ndns (ctl.disable_invalidate ndns u) ≡ block ndns u)
      → ((u : S) → block ndns (ctl.set_raw_mode ndns 0 u) ≡ block ndns u)
      → FailedOrZeroed ndns t r
      → FailedOrZeroed ndns t (zero_out ctl force uuid ndns r)
  zero_out-FailedOrZeroed ndns t (rc, s) disabled raw_off (inl f) = inl f
  zero_out-FailedOrZeroed ndns t (rc, s) disabled raw_off (inr (inr part)) = inr (inr part)
  zero_out-FailedOrZeroed ndns t (rc, s) disabled raw_off (inr (inl z)) =
      inr (inl (rw (disabled (ctl.set_raw_mode ndns 0 s), raw_off s) z))

  -- Where the namespace can be enabled in raw mode and its device be opened: `zero_info_block`
  -- fails, or each byte of the info block is 0 after it, or it returns 1 where the `pread` of the
  -- info block did not read it all, if a `pread` that reads all gives the info block, a `pwrite`
  -- of zeros that writes them all leaves the info block zero, and neither disabling the namespace
  -- nor leaving raw mode changes it.
  pub zero_info_block-FailedOrZeroed :
      (ndns : N) (s t : S)
      → Reads
      → Writes
      → ((u : S) → block ndns (ctl.disable_invalidate ndns u) ≡ block ndns u)
      → ((u : S) → block ndns (ctl.set_raw_mode ndns 0 u) ≡ block ndns u)
      → ctl.enable ndns (ctl.set_raw_mode ndns 1 s) ≡ (done, t)
      → ctl.open_exclusive ndns t ≡ true
      → FailedOrZeroed ndns t (zero_info_block ctl force uuid ndns s)
  unfolding zero_info_block
  zero_info_block-FailedOrZeroed ndns s t reads wrote disabled raw_off enabled opens = rw enabled (
      zero_out-FailedOrZeroed ndns t (zero_enabled ctl force uuid ndns done t) disabled raw_off
        (zero_enabled-FailedOrZeroed ndns t opens reads wrote))
