-- ===== src/Namespace/Attributes.antt =====
-- What libndctl says of a region, of a namespace and of the seed devices, as far as
-- ndctl/namespace.c asks for it, and the outcome of a step that may be refused.
use utils_kernel_ndctl_ndctl.Prelude.{
  ℕ, ◌==◌, ◌≡◌, refl, Bool, true, false, Option, List, [], ◌∷◌, if◌then◌else◌, if-cases,
}
use utils_kernel_ndctl_ndctl.Check.Defs.{Errno, system}
use utils_kernel_ndctl_ndctl.Namespace.Params.{String, Mode, fsdax, sector, raw, devdax, unknown}

-- `EAGAIN` and `ENODEV` on Linux
abbrev pub eagain : Errno
eagain = system 11

abbrev pub enodev : Errno
enodev = system 19

-- `enum` of `ndctl_namespace_get_type`
pub data NamespaceType : Type 0 where
  io pmem blk : NamespaceType

pub record Pfn : Type 0 where
  pub has_align : Bool
  pub align : ℕ
  pub supported_alignments : List ℕ

pub record Dax : Type 0 where
  pub align : ℕ
  pub supported_alignments : List ℕ

pub record Btt : Type 0 where
  pub sector_size : ℕ
  pub supported_sector_sizes : List ℕ

pub record Ndns : Type 0 where
  pub size : ℕ
  pub alt_name : String
  pub mode : Mode
  pub pfn : Option Pfn
  pub dax : Option Dax
  pub btt : Option Btt
  pub sector_size : ℕ
  pub supported_sector_sizes : List ℕ

-- `is_pmem` is the test `ndctl_region_get_type(region) == ND_DEVICE_REGION_PMEM`.
pub record Region : Type 0 where
  pub is_enabled : Bool
  pub is_pmem : Bool
  pub nstype : NamespaceType
  pub size : ℕ
  pub max_available_extent : ℕ
  pub available_size : ℕ
  pub resource : ℕ
  pub align : ℕ
  pub interleave_ways : ℕ
  pub pfn_seed : Option Pfn
  pub dax_seed : Option Dax
  pub btt_seed : Option Btt
  pub namespace_seed : Option Ndns

-- `retry_with` also has the size of the message `did you intend --size=`; `fault` is a division by 0.
pub data Outcome (A : Type 0) : Type 0 where
  refused : Errno → Outcome A
  retry_with : Errno → ℕ → Outcome A
  fault : Outcome A
  accepted : A → Outcome A

infixl 5 ◌>>=◌
abbrev pub ◌>>=◌ : {A B : Type 0} → Outcome A → (A → Outcome B) → Outcome B
refused e >>= f = refused e
retry_with e n >>= f = retry_with e n
fault >>= f = fault
accepted a >>= f = f a

-- Of the answer, if there is one.
abbrev pub Accepts : {A : Type 0} → (A → Type 0) → Outcome A → Type 0
Accepts P (refused e) = Unit
Accepts P (retry_with e n) = Unit
Accepts P fault = Unit
Accepts P (accepted a) = P a

pub Accepts-accepted :
    {A : Type 0} (P : A → Type 0) (m : Outcome A) {a : A} → Accepts P m → m ≡ accepted a → P a
Accepts-accepted P m h e = rw e at h

pub Accepts->>= :
    {A B : Type 0} (P : B → Type 0) (m : Outcome A) (f : A → Outcome B)
    → ((a : A) → m ≡ accepted a → Accepts P (f a))
    → Accepts P (m >>= f)
Accepts->>= P (refused e) f h = _
Accepts->>= P (retry_with e n) f h = _
Accepts->>= P fault f h = _
Accepts->>= P (accepted a) f h = h a refl

pub Accepts-if :
    {A : Type 0} (P : A → Type 0) (c : Bool) (m n : Outcome A)
    → (c ≡ true → Accepts P m)
    → (c ≡ false → Accepts P n)
    → Accepts P (if c then m else n)
Accepts-if P c m n h k = if-cases (Accepts P) c h k

abbrev pub same_mode : Mode → Mode → Bool
same_mode fsdax fsdax = true
same_mode sector sector = true
same_mode raw raw = true
same_mode devdax devdax = true
same_mode unknown unknown = true
same_mode m n = false

-- The loops that look for a value among the supported ones.
unfoldable pub supports : List ℕ → ℕ → Bool
supports [] x = false
supports (y ∷ ys) x = let rest = supports ys x in if y == x then true else rest
