-- ===== src/Namespace/Walk.antt =====
-- `do_xaction_namespace` of ndctl/namespace.c: a command on the namespaces of all regions.
pub mod Made
pub mod Counted
use utils_kernel_ndctl_ndctl.Prelude.{
  ℕ, ◌+◌, ◌==◌, ltb, Bool, true, false, ◌&&◌, Option, some, none, List, [], ◌∷◌, ◌>>=◌,
  if◌then◌else◌,
}
use utils_kernel_ndctl_ndctl.Check.Defs.{Errno, enxio, einval, system}
use utils_kernel_ndctl_ndctl.Namespace.Params.{
  Libc, DeviceAction, enable, disable, create, destroy, check, clear, wait, start, activate,
  read_infoblock, write_infoblock, Parameters,
}
use utils_kernel_ndctl_ndctl.Namespace.Control.{Ret, done, failed, positive, Control}
use utils_kernel_ndctl_ndctl.Namespace.Reconfig.{namespace_create}

-- `ENOSPC` on Linux
abbrev pub enospc : Errno
enospc = system 28

-- `rc`, `*processed` and `saved_rc`, and the state of the regions.
pub record Walk (S : Type 0) : Type 0 where
  pub rc : Ret
  pub processed : ℕ
  pub saved_rc : Ret
  pub state : S

-- Whether the loop goes on to the next region, or to `out_close`.
pub data Next (S : Type 0) : Type 0 where
  on : Walk S → Next S
  out_close : Walk S → Next S

abbrev pub is_eagain : Ret → Bool
is_eagain (failed (system n)) = n == 11
is_eagain rc = false

module _ {S : Type 0} (greedy force : Bool) where
  abbrev pub not_created : Walk S → Ret → S → Next S
  not_created w rc s =
      if greedy && force
      then on (record w { rc = rc; saved_rc = rc; state = s })
      else out_close (record w { rc = rc; state = s })

  -- The body of the loop behind `namespace_create`.
  abbrev pub creation : Walk S → Ret × S → Next S
  creation w (done, s) =
      let w' : Walk S = record {
        rc = done;
        processed = w.processed + 1;
        saved_rc = w.saved_rc;
        state = s;
      } in
      if greedy then on w' else out_close w'
  creation w (positive n, s) = not_created w (positive n) s
  creation w (failed e, s) =
      if is_eagain (failed e)
      then on (record w { rc = failed e; state = s })
      else not_created w (failed e) s

  -- No region had the capacity.
  abbrev pub no_capacity : Walk S → Walk S
  no_capacity w =
      if is_eagain w.rc
      then record w { rc = if greedy && ltb 0 w.processed then done else failed enospc }
      else w

  -- `out_close:`
  abbrev pub saved_over : Ret → Walk S → Walk S
  saved_over done w = w
  saved_over (failed e) w = record w { rc = failed e }
  saved_over (positive n) w = record w { rc = positive n }

  abbrev pub with_saved : Walk S → Walk S
  with_saved w = saved_over w.saved_rc w

-- The regions `R` and their calls; `selected` says which of them the filters for bus, region and type
-- let through.
module _ {S N R : Type 0} (ctl : R → Control S N) (selected : R → Bool) (greedy force : Bool)
    (uuid : List ℕ) (libc : Libc) (param : Parameters) where
  abbrev pub create_or_skip : R → Walk S → Option (Next S)
  create_or_skip region w =
      if selected region
      then (do
        made ← namespace_create (ctl region) force uuid libc param w.state
        some (creation greedy force w made))
      else some (on w)

  -- The next round, or `out_close:`
  abbrev pub next_round : (Walk S → Option (Walk S)) → Next S → Option (Walk S)
  next_round rest (on w) = rest w
  next_round rest (out_close w) = some (with_saved greedy force w)

  unfoldable pub create_regions : List R → Walk S → Option (Walk S)
  create_regions [] w = some (with_saved greedy force (no_capacity greedy force w))
  create_regions (region ∷ regions) w = do
    next ← create_or_skip region w
    next_round (create_regions regions) next

  -- The action `create` with no namespace named.
  unfoldable pub create_namespaces : List R → S → Option (Walk S)
  unfolding create_regions
  create_namespaces regions s =
      create_regions regions
        (record { rc = failed enxio; processed = 0; saved_rc = done; state = s })
