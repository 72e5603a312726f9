-- ===== src/Namespace/Walk/Made.antt =====
-- The calls of `namespace_create` that a walk of `create-namespace` consists of.
use utils_kernel_ndctl_ndctl.Prelude.{
  ℕ, ◌+◌, ◌≡◌, ◌≢◌, refl, Bool, true, ◌&&◌, Option, some, none, List, [], ◌∷◌, ◌>>=◌, if◌then◌else◌,
  if-cases, ltb,
}
use utils_kernel_ndctl_ndctl.Namespace.Params.{Libc, Parameters}
use utils_kernel_ndctl_ndctl.Namespace.Control.{Ret, done, failed, positive, Control}
use utils_kernel_ndctl_ndctl.Namespace.Reconfig.{namespace_create}
use utils_kernel_ndctl_ndctl.Namespace.Walk.{
  enospc, Walk, Next, on, out_close, is_eagain, creation, not_created, no_capacity, saved_over,
  create_or_skip, create_regions, next_round,
}

-- Of a result, if there is one.
abbrev pub OfResult : {A : Type 0} → (A → Type 0) → Option A → Type 0
OfResult P none = Unit
OfResult P (some a) = P a

pub OfResult->>= :
    {A B : Type 0} (Q : A → Type 0) (P : B → Type 0) (m : Option A) (f : A → Option B)
    → OfResult Q m
    → ((a : A) → Q a → OfResult P (f a))
    → OfResult P (m >>= f)
OfResult->>= Q P none f h k = _
OfResult->>= Q P (some a) f h k = k a h

-- The calls of `namespace_create` on selected regions that lead from `s` to a state, with the
-- number of those that returned 0.
pub data Creations {S N R : Type 0} (ctl : R → Control S N) (selected : R → Bool) (force : Bool)
    (uuid : List ℕ) (libc : Libc) (param : Parameters) (s : S) : S → ℕ → Type 0 where
  no_call : Creations ctl selected force uuid libc param s s 0
  created :
      {t u : S} {n : ℕ} (region : R)
      → Creations ctl selected force uuid libc param s t n
      → selected region ≡ true
      → namespace_create (ctl region) force uuid libc param t ≡ some (done, u)
      → Creations ctl selected force uuid libc param s u (n + 1)
  refused :
      {t u : S} {n : ℕ} {rc : Ret} (region : R)
      → Creations ctl selected force uuid libc param s t n
      → selected region ≡ true
      → namespace_create (ctl region) force uuid libc param t ≡ some (rc, u)
      → rc ≢ done
      → Creations ctl selected force uuid libc param s u n

module _ {S N R : Type 0} (ctl : R → Control S N) (selected : R → Bool) (greedy force : Bool)
    (uuid : List ℕ) (libc : Libc) (param : Parameters) (s : S) where
  abbrev pub Made : Walk S → Type 0
  Made w = Creations ctl selected force uuid libc param s w.state w.processed

  abbrev pub MadeNext : Next S → Type 0
  MadeNext (on w) = Made w
  MadeNext (out_close w) = Made w

  creation-Made :
      (region : R) (w : Walk S) (r : Ret × S)
      → selected region ≡ true
      → namespace_create (ctl region) force uuid libc param w.state ≡ some r
      → Made w
      → MadeNext (creation greedy force w r)
  creation-Made region w (done, u) c e h =
      if-cases MadeNext greedy (λ g. created region h c e) (λ g. created region h c e)
  creation-Made region w (positive n, u) c e h =
      if-cases MadeNext (greedy && force) (λ g. refused region h c e (cc))
        (λ g. refused region h c e (cc))
  creation-Made region w (failed n, u) c e h =
      if-cases MadeNext (is_eagain (failed n)) {y = not_created greedy force w (failed n) u}
        (λ g. refused region h c e (cc))
        (λ g.
          if-cases MadeNext (greedy && force) (λ g. refused region h c e (cc))
            (λ g. refused region h c e (cc)))

  call-Made :
      (region : R) (w : Walk S) (o : Option (Ret × S))
      → selected region ≡ true
      → namespace_create (ctl region) force uuid libc param w.state ≡ o
      → Made w
      → OfResult MadeNext (o >>= λ r. some (creation greedy force w r))
  call-Made region w none c e h = _
  call-Made region w (some r) c e h = creation-Made region w r c e h

  saved_over-Made : (saved : Ret) (w : Walk S) → Made w → Made (saved_over greedy force saved w)
  saved_over-Made done w h = h
  saved_over-Made (failed e) w h = h
  saved_over-Made (positive n) w h = h

  next_round-Made :
      (rest : Walk S → Option (Walk S)) (next : Next S)
      → ((w : Walk S) → Made w → OfResult Made (rest w))
      → MadeNext next
      → OfResult Made (next_round ctl selected greedy force uuid libc param rest next)
  next_round-Made rest (on w) k h = k w h
  next_round-Made rest (out_close w) k h = saved_over-Made w.saved_rc w h

  pub create_regions-Made :
      (regions : List R) (w : Walk S)
      → Made w
      → OfResult Made (create_regions ctl selected greedy force uuid libc param regions w)
  unfolding create_regions
  create_regions-Made [] w h =
      let closed : Made (no_capacity greedy force w) =
        if-cases Made (is_eagain w.rc)
          {x = record w { rc = if greedy && ltb 0 w.processed then done else failed enospc }}
          {y = w} (λ c. h) (λ c. h) in
      saved_over-Made (no_capacity greedy force w).saved_rc (no_capacity greedy force w) closed
  create_regions-Made (region ∷ regions) w h =
      let made = namespace_create (ctl region) force uuid libc param w.state in
      OfResult->>= MadeNext Made (create_or_skip ctl selected greedy force uuid libc param region w)
        _
        (if-cases (OfResult MadeNext) (selected region)
          {x = made >>= λ r. some (creation greedy force w r)} {y = some (on w)}
          (λ c. call-Made region w made c refl h) (λ c. h))
        (λ next q.
          next_round-Made (create_regions ctl selected greedy force uuid libc param regions) next
            (create_regions-Made regions) q)
