-- ===== src/Namespace/Labels.antt =====
-- `enable_labels` of ndctl/namespace.c: new labels on the DIMMs of a region.
pub mod Untouched
use utils_kernel_ndctl_ndctl.Prelude.{
  ℕ, ◌+◌, ◌==◌, ◌≡◌, ◌≢◌, refl, arith, Bool, true, false, not, ◌&&◌, ◌||◌, Option, some, none, List,
  [], ◌∷◌, if◌then◌else◌,
}
use utils_kernel_ndctl_ndctl.Check.Defs.{ebusy}
use utils_kernel_ndctl_ndctl.Namespace.Attributes.{NamespaceType, io, pmem, blk, enodev}
use utils_kernel_ndctl_ndctl.Namespace.Control.{Ret, done, failed, positive}

-- The region and its DIMMs in libndctl: `supports` says whether a DIMM has the commands
-- `GET_CONFIG_SIZE`, `GET_CONFIG_DATA` and `SET_CONFIG_DATA`; `read_label_index` whether there is an
-- index; `init_labels` is for labels of version 1.2, or of 1.1, and is `none` where it fails.
pub record Labels (S D : Type 0) : Type 0 where
  pub mappings : S → ℕ
  pub dimms : S → List D
  pub supports : D → Bool × Bool × Bool
  pub is_active : S → D → Bool
  pub nstype : S → NamespaceType
  pub disable_invalidate : S → S
  pub enable : S → S
  pub read_label_index : D → S → Bool × S
  pub init_labels : D → Bool → S → Option ℕ × S
  pub disable_dimm : D → S → S
  pub enable_dimm : D → S → S
  pub available_labels : S → D → ℕ

abbrev pub has_labels : NamespaceType → Bool
has_labels pmem = true
has_labels io = false
has_labels blk = false

module _ {S D : Type 0} (ctl : Labels S D) where
  -- The DIMMs before the first one that does not support labels.
  unfoldable pub labelling : List D → ℕ
  labelling [] = 0
  labelling (d ∷ ds) =
      let rest = labelling ds in
      let (size, get, set) = ctl.supports d in if size && get && set then rest + 1 else 0

  abbrev pub any_active : S → List D → Bool
  any_active s [] = false
  any_active s (d ∷ ds) = let rest = any_active s ds in ctl.is_active s d || rest

  -- The body of the loop up to the test: whether the kernel has other labels than were written.
  abbrev pub restarted : D → Option ℕ × S → Bool × S
  restarted d (none, s) = (false, s)
  restarted d (some num, s) =
      let s' = ctl.enable_dimm d (ctl.disable_dimm d s) in
      (not (num == ctl.available_labels s' d + 1), s')

  abbrev pub init_written : D → Bool → Bool × S → Bool × S
  init_written d v1_2 (false, s) = (false, s)
  init_written d v1_2 (true, s) = restarted d (ctl.init_labels d v1_2 s)

  abbrev pub init_dimm : Bool → D → S → Bool × S
  init_dimm v1_2 d s = init_written d v1_2 (ctl.read_label_index d s)

  -- The loop at version 1.1 does not start again.
  unfoldable pub init_v1_1 : List D → S → S
  init_v1_1 [] s = s
  init_v1_1 (d ∷ ds) s = init_v1_1 ds (init_dimm false d s).1

  -- `goto retry` starts again with all DIMMs.
  abbrev pub init_v1_2 : List D → List D → S → S
  init_v1_2 every [] s = s
  init_v1_2 every (d ∷ ds) s =
      let (other, s') = init_dimm true d s in
      let rest = init_v1_2 every ds s' in if other then init_v1_1 every s' else rest

  -- `out:`
  abbrev pub labelled_out : S → Ret × S
  labelled_out s =
      let s' = ctl.enable s in if has_labels (ctl.nstype s') then (done, s') else (failed ebusy, s')

  unfoldable pub enable_labels : S → Ret × S
  unfolding labelling init_v1_1
  enable_labels s =
      if ctl.mappings s == 0
      then (failed enodev, s)
      else if not (labelling (ctl.dimms s) == ctl.mappings s)
      then (failed enodev, s)
      else let s' = ctl.disable_invalidate s in
        if any_active s' (ctl.dimms s')
        then labelled_out s'
        else labelled_out (init_v1_2 (ctl.dimms s') (ctl.dimms s') s')
