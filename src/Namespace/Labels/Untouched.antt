-- ===== src/Namespace/Labels/Untouched.antt =====
-- When `enable_labels` leaves the region alone.
use utils_kernel_ndctl_ndctl.Prelude.{
  ◌≤◌, ◌==◌, ◌≡◌, ◌≢◌, ◌⊎◌, inl, inr, refl, true, false, List, [], ◌∷◌, length, arith, Bool-cases,
  if-cases,
}
use utils_kernel_ndctl_ndctl.Check.Defs.{ebusy}
use utils_kernel_ndctl_ndctl.Namespace.Attributes.{NamespaceType, io, pmem, blk, enodev}
use utils_kernel_ndctl_ndctl.Namespace.Control.{Ret, done, failed}
use utils_kernel_ndctl_ndctl.Namespace.Labels.{
  Labels, has_labels, labelling, any_active, init_v1_2, labelled_out, enable_labels,
}

module _ {S D : Type 0} (ctl : Labels S D) where
  abbrev pub AllSupport : List D → Type 0
  AllSupport [] = Unit
  AllSupport (d ∷ ds) = (ctl.supports d ≡ (true, true, true)) × AllSupport ds

  labelling-le : (ds : List D) → labelling ctl ds ≤ length ds
  unfolding labelling
  labelling-le [] = omega arith
  labelling-le (d ∷ ds) = let rest = labelling-le ds in ground arith

  labelling-AllSupport : (ds : List D) → labelling ctl ds ≡ length ds → AllSupport ds
  unfolding labelling
  labelling-AllSupport [] h = _
  labelling-AllSupport (d ∷ ds) h =
      let bound = labelling-le ds in
      let each : ctl.supports d ≡ (true, true, true) = ground arith in
      let rest : labelling ctl ds ≡ length ds = ground arith in (each, labelling-AllSupport ds rest)

  -- Enabled again at the end; 0 exactly for a region whose namespaces are of the type pmem now.
  abbrev pub Enabled : Ret × S → Type 0
  Enabled r =
      (t : S) × (r.1 ≡ ctl.enable t)
      × (((ctl.nstype r.1 ≡ pmem) × (r.0 ≡ done))
          ⊎ ((ctl.nstype r.1 ≢ pmem) × (r.0 ≡ failed ebusy)))

  has_labels-pmem : (t : NamespaceType) → has_labels t ≡ true → t ≡ pmem
  has_labels-pmem io h = cc
  has_labels-pmem pmem h = refl
  has_labels-pmem blk h = cc

  lacks_labels-pmem : (t : NamespaceType) → has_labels t ≡ false → t ≢ pmem
  lacks_labels-pmem io h e = cc
  lacks_labels-pmem pmem h e = cc
  lacks_labels-pmem blk h e = cc

  labelled_out-Enabled : (s : S) → Enabled (labelled_out ctl s)
  labelled_out-Enabled s =
      let s' = ctl.enable s in
      if-cases Enabled (has_labels (ctl.nstype s')) {x = (done, s')} {y = (failed ebusy, s')}
        (λ c. (s, refl, inl (has_labels-pmem _ c, refl)))
        (λ c. (s, refl, inr (lacks_labels-pmem _ c, refl)))

  some_of :
      (s : S)
      → length (ctl.dimms s) ≡ ctl.mappings s
      → (ctl.mappings s == 0) ≡ false
      → ctl.dimms s ≢ []
  some_of s whole some_dimm e =
      let none_there : length (ctl.dimms s) ≡ 0 = rw e refl in ground arith

  -- Of a region with as many DIMMs as mappings, `enable_labels` returns `-ENODEV` and changes
  -- nothing, or each of its DIMMs, of which there is at least one, supports all three label
  -- commands, the last thing done is to enable the region, and the answer is 0 when the region has
  -- namespaces of the type pmem after it, and `-EBUSY` when they are of another type, blk or io.
  pub enable_labels-Enabled :
      (s : S)
      → length (ctl.dimms s) ≡ ctl.mappings s
      → (enable_labels ctl s ≡ (failed enodev, s))
        ⊎ ((ctl.dimms s ≢ []) × AllSupport (ctl.dimms s) × Enabled (enable_labels ctl s))
  unfolding enable_labels
  enable_labels-Enabled s whole = elim (Bool-cases (ctl.mappings s == 0)) [
    | inl empty ↦ inl (rw empty refl)
    | inr some_dimm ↦ elim (Bool-cases (labelling ctl (ctl.dimms s) == ctl.mappings s)) [
      | inr fewer ↦ inl (rw (some_dimm, fewer) refl)
      | inl each ↦
          let s' = ctl.disable_invalidate s in
          inr (
            some_of s whole some_dimm,
            labelling-AllSupport (ctl.dimms s) (ground arith),
            rw (some_dimm, each)
                (if-cases Enabled (any_active ctl s' (ctl.dimms s')) {x = labelled_out ctl s'}
                  {y = labelled_out ctl (init_v1_2 ctl (ctl.dimms s') (ctl.dimms s') s')}
                  (λ c. labelled_out-Enabled s') (λ c. labelled_out-Enabled _)),
          )
    ]
  ]
