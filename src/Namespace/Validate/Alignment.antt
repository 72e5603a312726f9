-- ===== src/Namespace/Validate/Alignment.antt =====
-- What the checks of `validate_namespace_options` let through.
use utils_kernel_ndctl_ndctl.Prelude.{
  ℕ, ◌*◌, ◌%◌, ◌^◌, ◌≤◌, ◌<◌, ◌≡◌, ◌≢◌, ◌⊎◌, inl, inr, refl, Bool, true, Option, some, none, List,
  [], ◌∷◌, length, if-cases, arith, Bool-cases, ==_iff, ltb, ◌==◌,
}
use utils_kernel_ndctl_ndctl.Util.Size.{ullong_max}
use utils_kernel_ndctl_ndctl.Check.Defs.{enxio, einval}
use utils_kernel_ndctl_ndctl.Namespace.Params.{
  String, Libc, Mode, fsdax, sector, raw, devdax, unknown, Parameters,
}
use utils_kernel_ndctl_ndctl.Namespace.Attributes.{
  Pfn, Dax, Btt, Ndns, Region, Accepts, Accepts-if, refused, accepted, supports, same_mode,
}
use utils_kernel_ndctl_ndctl.Namespace.Checks.{
  sz_16m, available_capacity, validate_available_capacity, Chosen, fsdax_on, devdax_on, plain,
  chosen_mode, check_size_align, check_region_align, check_minimum,
}
use utils_kernel_ndctl_ndctl.Namespace.Validate.{
  checked_name, requested_align, requested_sector_size, seeded, btt_sector_size, seed_sector_size,
  fsdax_seed, devdax_seed, seed_or,
}

pub check_size_align-accepted :
    (size align ways units : ℕ) (u : Unit)
    → check_size_align size align ways units ≡ accepted u
    → (2 ^ 64 ≤ align * ways) ⊎ (size % (align * ways) ≡ 0)
unfolding check_size_align
check_size_align-accepted size align ways units u h =
    elim (Bool-cases (ltb (align * ways) (2 ^ 64))) [
      | inl fits ↦
          let exact : align * ways % 2 ^ 64 ≡ align * ways = ground arith in inr (ground arith)
      | inr wraps ↦ inl (ground arith)
    ]

pub check_region_align-accepted :
    (size region_align : ℕ) (u : Unit)
    → check_region_align size region_align ≡ accepted u
    → (ullong_max ≤ region_align) ⊎ (size % region_align ≡ 0)
unfolding check_region_align
check_region_align-accepted size region_align u h = ground arith

same_mode-raw : (mode : Mode) → same_mode mode raw ≡ true → mode ≡ raw
same_mode-raw fsdax h = cc
same_mode-raw sector h = cc
same_mode-raw raw h = refl
same_mode-raw devdax h = cc
same_mode-raw unknown h = cc

pub check_minimum-accepted :
    (size : ℕ) (mode : Mode) (default : Bool) (u : Unit)
    → check_minimum size mode default ≡ accepted u
    → (mode ≡ raw) ⊎ (sz_16m ≤ size)
unfolding check_minimum
check_minimum-accepted size mode default u h = ground (arith, same_mode-raw mode)

pub checked_name-accepted :
    (libc : Libc) (param : Parameters) (r : Region) (name name' : String)
    → checked_name libc param r name ≡ accepted name'
    → length name' < 64
unfolding checked_name
checked_name-accepted libc param r name name' h = ground arith

pub validate_available_capacity-accepted :
    (r : Region) (size size' : ℕ)
    → validate_available_capacity r size ≡ accepted size'
    → (0 < size') × (size' ≤ available_capacity r)
unfolding validate_available_capacity
validate_available_capacity-accepted r size size' h = ground arith

abbrev pub OneOf : ℕ → List ℕ → Type 0
OneOf x [] = ⊥
OneOf x (y ∷ ys) = (y ≡ x) ⊎ OneOf x ys

supports-OneOf : (x : ℕ) (ys : List ℕ) → supports ys x ≡ true → OneOf x ys
unfolding supports
supports-OneOf x [] h = cc
supports-OneOf x (y ∷ ys) h = elim (Bool-cases (y == x)) [
  | inl e ↦ inl ((==_iff y x).0 e)
  | inr e ↦ inr (supports-OneOf x ys (ground arith))
]

-- The alignments of the seed device of a mode.
abbrev pub AlignSupported : Region → Mode → ℕ → Type 0
AlignSupported r fsdax a = (pfn : Pfn) × (r.pfn_seed ≡ some pfn) × OneOf a pfn.supported_alignments
AlignSupported r devdax a = (dax : Dax) × (r.dax_seed ≡ some dax) × OneOf a dax.supported_alignments
AlignSupported r sector a = ⊥
AlignSupported r raw a = ⊥
AlignSupported r unknown a = ⊥

abbrev pub NamespaceSupports : Region → Option Ndns → ℕ → Type 0
NamespaceSupports r none s =
    (seed : Ndns) × (r.namespace_seed ≡ some seed) × OneOf s seed.supported_sector_sizes
NamespaceSupports r (some n) s = OneOf s n.supported_sector_sizes

-- The sector sizes of the seed device of a mode, or of the namespace.
abbrev pub SectorSupported : Region → Option Ndns → Mode → ℕ → Type 0
SectorSupported r ndns sector s =
    (btt : Btt) × (r.btt_seed ≡ some btt) × OneOf s btt.supported_sector_sizes
SectorSupported r ndns fsdax s = NamespaceSupports r ndns s
SectorSupported r ndns devdax s = NamespaceSupports r ndns s
SectorSupported r ndns raw s = NamespaceSupports r ndns s
SectorSupported r ndns unknown s = NamespaceSupports r ndns s

-- What stands behind the choice of a mode.
abbrev pub Seeded : Region → Chosen → Type 0
Seeded r (fsdax_on pfn) = r.pfn_seed ≡ pfn
Seeded r (devdax_on dax) = r.dax_seed ≡ some dax
Seeded r (plain mode) = (mode ≢ fsdax) × (mode ≢ devdax)

module _ (libc : Libc) (param : Parameters) (r : Region) where
  fsdax_seed-Seeded : (o : Option Pfn) → r.pfn_seed ≡ o → Seeded r (fsdax_seed libc param r o)
  fsdax_seed-Seeded none e = if-cases (Seeded r) param.mode_default (λ c. ((cc), (cc))) (λ c. e)
  fsdax_seed-Seeded (some pfn) e = e

  devdax_seed-Seeded :
      (o : Option Dax) → r.dax_seed ≡ o → Accepts (Seeded r) (devdax_seed libc param r o)
  devdax_seed-Seeded none e = _
  devdax_seed-Seeded (some dax) e = e

  pub seeded-Seeded : (mode : Mode) → Accepts (Seeded r) (seeded libc param r mode)
  unfolding seeded
  seeded-Seeded fsdax = fsdax_seed-Seeded r.pfn_seed refl
  seeded-Seeded devdax = devdax_seed-Seeded r.dax_seed refl
  seeded-Seeded sector = (cc, cc)
  seeded-Seeded raw = (cc, cc)
  seeded-Seeded unknown = (cc, cc)

  pub requested_align-AlignSupported :
      (chosen : Chosen) (a : ℕ)
      → Seeded r chosen
      → Accepts
          (λ b. (b ≡ a) × AlignSupported r (chosen_mode chosen) b)
          (requested_align libc param r chosen a)
  unfolding requested_align
  requested_align-AlignSupported (fsdax_on none) a h = _
  requested_align-AlignSupported (fsdax_on (some pfn)) a h =
      Accepts-if (λ b. (b ≡ a) × AlignSupported r fsdax b) (supports pfn.supported_alignments a)
        (accepted a) (refused enxio)
        (λ e. (refl, (pfn, h, supports-OneOf a pfn.supported_alignments e))) (λ e. _)
  requested_align-AlignSupported (devdax_on dax) a h =
      Accepts-if (λ b. (b ≡ a) × AlignSupported r devdax b) (supports dax.supported_alignments a)
        (accepted a) (refused enxio)
        (λ e. (refl, (dax, h, supports-OneOf a dax.supported_alignments e))) (λ e. _)
  requested_align-AlignSupported (plain mode) a h = _

  btt_sector_size-supported :
      (ndns : Option Ndns) (o : Option Btt) (s : ℕ)
      → r.btt_seed ≡ o
      → Accepts (λ t. (t ≡ s) × SectorSupported r ndns sector t) (btt_sector_size libc param r o s)
  btt_sector_size-supported ndns none s e = _
  btt_sector_size-supported ndns (some btt) s e =
      Accepts-if (λ t. (t ≡ s) × SectorSupported r ndns sector t)
        (supports btt.supported_sector_sizes s) (accepted s) (refused einval)
        (λ c. (refl, (btt, e, supports-OneOf s btt.supported_sector_sizes c))) (λ c. _)

  seed_sector_size-supported :
      (ndns o : Option Ndns) (s : ℕ)
      → r.namespace_seed ≡ o
      → Accepts
          (λ t. (t ≡ s) × NamespaceSupports r ndns t)
          (seed_sector_size libc param r (seed_or libc param r ndns o) s)
  seed_sector_size-supported none none s e = _
  seed_sector_size-supported none (some seed) s e =
      Accepts-if (λ t. (t ≡ s) × NamespaceSupports r none t)
        (supports seed.supported_sector_sizes s) (accepted s) (refused einval)
        (λ c. (refl, (seed, e, supports-OneOf s seed.supported_sector_sizes c))) (λ c. _)
  seed_sector_size-supported (some n) o s e =
      Accepts-if (λ t. (t ≡ s) × NamespaceSupports r (some n) t)
        (supports n.supported_sector_sizes s) (accepted s) (refused einval)
        (λ c. (refl, supports-OneOf s n.supported_sector_sizes c)) (λ c. _)

  pub requested_sector_size-SectorSupported :
      (mode : Mode) (ndns : Option Ndns) (s : ℕ)
      → Accepts
          (λ t. (t ≡ s) × SectorSupported r ndns mode t)
          (requested_sector_size libc param r mode ndns s)
  unfolding requested_sector_size
  requested_sector_size-SectorSupported sector ndns s =
      btt_sector_size-supported ndns r.btt_seed s refl
  requested_sector_size-SectorSupported fsdax ndns s =
      seed_sector_size-supported ndns r.namespace_seed s refl
  requested_sector_size-SectorSupported devdax ndns s =
      seed_sector_size-supported ndns r.namespace_seed s refl
  requested_sector_size-SectorSupported raw ndns s =
      seed_sector_size-supported ndns r.namespace_seed s refl
  requested_sector_size-SectorSupported unknown ndns s =
      seed_sector_size-supported ndns r.namespace_seed s refl
