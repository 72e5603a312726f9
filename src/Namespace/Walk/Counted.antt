-- ===== src/Namespace/Walk/Counted.antt =====
-- What the return code of `create-namespace` says of the calls of `namespace_create` that returned 0.
use utils_kernel_ndctl_ndctl.Prelude.{
  ℕ, ◌<◌, ◌≡◌, ◌≢◌, ◌⊎◌, inl, inr, refl, Bool, true, false, Option, some, none, List, [], ◌∷◌,
  ◌>>=◌, if◌then◌else◌, if-cases, arith, ltb,
}
use utils_kernel_ndctl_ndctl.Check.Defs.{Errno, enxio}
use utils_kernel_ndctl_ndctl.Namespace.Params.{Libc, Parameters}
use utils_kernel_ndctl_ndctl.Namespace.Control.{Ret, done, failed, positive, Control}
use utils_kernel_ndctl_ndctl.Namespace.Reconfig.{namespace_create}
use utils_kernel_ndctl_ndctl.Namespace.Walk.{
  enospc, Walk, Next, on, out_close, is_eagain, creation, not_created, no_capacity, saved_over,
  create_or_skip, create_regions, create_namespaces, next_round,
}
use utils_kernel_ndctl_ndctl.Namespace.Walk.Made.{
  OfResult, OfResult->>=, Creations, no_call, create_regions-Made,
}

module _ {S : Type 0} where
  -- Without --continue one namespace is created, or none; with it there may be more.
  abbrev pub Counted : Bool → Walk S → Type 0
  Counted true w = (w.rc ≢ done) ⊎ (0 < w.processed)
  Counted false w = ((w.rc ≡ done) × (w.processed ≡ 1)) ⊎ ((w.rc ≢ done) × (w.processed ≡ 0))

  -- Before each region.
  abbrev pub Pending : Bool → Walk S → Type 0
  Pending true w = (w.rc ≢ done) ⊎ (0 < w.processed)
  Pending false w = (w.rc ≢ done) × (w.processed ≡ 0) × (w.saved_rc ≡ done)

  abbrev pub Closing : Bool → Walk S → Type 0
  Closing true w = (w.rc ≢ done) ⊎ (0 < w.processed)
  Closing false w = Counted false w × (w.saved_rc ≡ done)

  abbrev pub Going : Bool → Next S → Type 0
  Going greedy (on w) = Pending greedy w
  Going greedy (out_close w) = Closing greedy w

  not_created-Going :
      (greedy force : Bool) (w : Walk S) (rc : Ret) (s : S)
      → rc ≢ done
      → Pending greedy w
      → Going greedy (not_created greedy force w rc s)
  not_created-Going true true w rc s other h = inl other
  not_created-Going true false w rc s other h = inl other
  not_created-Going false force w rc s other (_, zero, saved) = (inr (other, zero), saved)

  again :
      (greedy : Bool) (w : Walk S) (e : Errno) (s : S)
      → Pending greedy w
      → Pending greedy (record w { rc = failed e; state = s })
  again true w e s h = inl (cc)
  again false w e s (_, zero, saved) = (cc, zero, saved)

  some_or_none :
      (w : Walk S)
      → ((if ltb 0 w.processed then done else failed enospc) ≢ done) ⊎ (0 < w.processed)
  some_or_none w = ground arith

  creation-Going :
      (greedy force : Bool) (w : Walk S) (r : Ret × S)
      → Pending greedy w
      → Going greedy (creation greedy force w r)
  creation-Going true force w (done, s) h = inr (omega arith)
  creation-Going false force w (done, s) (_, zero, saved) = (inl (refl, omega arith), saved)
  creation-Going greedy force w (positive n, s) h =
      not_created-Going greedy force w (positive n) s (cc) h
  creation-Going greedy force w (failed e, s) h =
      if-cases (Going greedy) (is_eagain (failed e))
        {x = on (record w { rc = failed e; state = s })}
        {y = not_created greedy force w (failed e) s} (λ c. again greedy w e s h)
        (λ c. not_created-Going greedy force w (failed e) s (cc) h)

  no_capacity-Closing :
      (greedy force : Bool) (w : Walk S)
      → Pending greedy w
      → Closing greedy (no_capacity greedy force w)
  no_capacity-Closing true force w h =
      if-cases (Closing true) (is_eagain w.rc)
        {x = record w { rc = if ltb 0 w.processed then done else failed enospc }} {y = w}
        (λ c. some_or_none w) (λ c. h)
  no_capacity-Closing false force w (other, zero, saved) =
      if-cases (Closing false) (is_eagain w.rc) {x = record w { rc = failed enospc }} {y = w}
        (λ c. (inr ((cc), zero), saved)) (λ c. (inr (other, zero), saved))

  saved_over-Counted :
      (greedy force : Bool) (saved : Ret) (w : Walk S)
      → w.saved_rc ≡ saved
      → Closing greedy w
      → Counted greedy (saved_over greedy force saved w)
  saved_over-Counted true force done w e h = h
  saved_over-Counted true force (failed c) w e h = inl (cc)
  saved_over-Counted true force (positive n) w e h = inl (cc)
  saved_over-Counted false force done w e (h, _) = h
  saved_over-Counted false force (failed c) w e (_, saved) = cc
  saved_over-Counted false force (positive n) w e (_, saved) = cc

anything : {A : Type 0} (m : Option A) → OfResult (λ (a : A). Unit) m
anything none = _
anything (some a) = _

module _ {S N R : Type 0} (ctl : R → Control S N) (selected : R → Bool) (greedy force : Bool)
    (uuid : List ℕ) (libc : Libc) (param : Parameters) where
  create_or_skip-Going :
      (region : R) (w : Walk S)
      → Pending greedy w
      → OfResult (Going greedy) (create_or_skip ctl selected greedy force uuid libc param region w)
  create_or_skip-Going region w h =
      let made = namespace_create (ctl region) force uuid libc param w.state in
      if-cases (OfResult (Going greedy)) (selected region)
        {x = made >>= λ r. some (creation greedy force w r)} {y = some (on w)}
        (λ c.
          OfResult->>= (λ r. Unit) (Going greedy) made (λ r. some (creation greedy force w r))
            (anything made) (λ r u. creation-Going greedy force w r h))
        (λ c. h)

  next_round-Counted :
      (rest : Walk S → Option (Walk S)) (next : Next S)
      → ((w : Walk S) → Pending greedy w → OfResult (Counted greedy) (rest w))
      → Going greedy next
      → OfResult (Counted greedy) (next_round ctl selected greedy force uuid libc param rest next)
  next_round-Counted rest (on w) k h = k w h
  next_round-Counted rest (out_close w) k h = saved_over-Counted greedy force w.saved_rc w refl h

  create_regions-Counted :
      (regions : List R) (w : Walk S)
      → Pending greedy w
      → OfResult
          (Counted greedy)
          (create_regions ctl selected greedy force uuid libc param regions w)
  unfolding create_regions
  create_regions-Counted [] w h =
      let closed = no_capacity greedy force w in
      saved_over-Counted greedy force closed.saved_rc closed refl
        (no_capacity-Closing greedy force w h)
  create_regions-Counted (region ∷ regions) w h =
      OfResult->>= (Going greedy) (Counted greedy)
        (create_or_skip ctl selected greedy force uuid libc param region w) _
        (create_or_skip-Going region w h)
        (λ next q.
          next_round-Counted (create_regions ctl selected greedy force uuid libc param regions) next
            (create_regions-Counted regions) q)

at_first :
    {S : Type 0} (greedy : Bool) (s : S)
    → Pending greedy (record { rc = failed enxio; processed = 0; saved_rc = done; state = s })
at_first true s = inl (cc)
at_first false s = (cc, refl, refl)

-- For `create-namespace` with no namespace named, over any regions, where the walk ends without a
-- fault: its state is the one behind calls of `namespace_create` on selected regions, and
-- `processed` is the number of them that returned 0. Without --continue the return code is 0 and
-- one of them did, or the return code is not 0 and none of them did; with --continue, the return
-- code 0 means that at least one of them did.
pub create_namespaces-Counted :
    {S N R : Type 0} (ctl : R → Control S N) (selected : R → Bool) (greedy force : Bool)
    (uuid : List ℕ) (libc : Libc) (param : Parameters) (regions : List R) (s : S) (w : Walk S)
    → create_namespaces ctl selected greedy force uuid libc param regions s ≡ some w
    → Creations ctl selected force uuid libc param s w.state w.processed × Counted greedy w
unfolding create_namespaces
create_namespaces-Counted {S} ctl selected greedy force uuid libc param regions s w h =
    let first : Walk S = record { rc = failed enxio; processed = 0; saved_rc = done; state = s } in
    (
      rw h at
          (create_regions-Made ctl selected greedy force uuid libc param s regions first no_call),
      rw h at (
          create_regions-Counted ctl selected greedy force uuid libc param regions first
            (at_first greedy s)),
    )
