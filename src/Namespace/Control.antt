-- ===== src/Namespace/Control.antt =====
-- The calls of libndctl with which ndctl/namespace.c changes namespaces, and the block device of a
-- namespace.
use utils_kernel_ndctl_ndctl.Prelude.{ℕ, Bool, Option, List}
use utils_kernel_ndctl_ndctl.Check.Defs.{Errno}
use utils_kernel_ndctl_ndctl.Namespace.Params.{String, Mode, PfnLoc}
use utils_kernel_ndctl_ndctl.Namespace.Attributes.{Ndns, Region, NamespaceType}

-- An `int`: 0, a negated error number, or a number above 0.
pub data Ret : Type 0 where
  done : Ret
  failed : Errno → Ret
  positive : ℕ → Ret

-- The calls on a pfn or dax seed device, `N` being the namespaces.
pub record SeedDevice (S N : Type 0) : Type 0 where
  pub set_uuid : List ℕ → S → Ret × S
  pub set_location : PfnLoc → S → Ret × S
  pub has_align : S → Bool
  pub set_align : ℕ → S → Ret × S
  pub set_namespace : Option N → S → Ret × S
  pub enable : S → Ret × S

pub record BttDevice (S N : Type 0) : Type 0 where
  pub set_uuid : List ℕ → S → Ret × S
  pub set_sector_size : ℕ → S → Ret × S
  pub set_namespace : N → S → Ret × S
  pub enable : S → Ret × S

-- The states `S` of one region and its namespaces. A seed device is `none` where there is none.
-- `read_info` is a `pread` of 8192 bytes at 0: whether it read them all, and what the buffer,
-- which nothing has written before, holds behind it in any case. `write_zeros` is the `pwrite` of
-- as many zeros, with whether it wrote them all, and `memory` says for each of the two buffers
-- whether there is memory for it.
pub record Control (S N : Type 0) : Type 0 where
  pub is_ro : S → Bool
  pub region : S → Region
  pub attributes : S → N → Ndns
  pub nstype : S → N → NamespaceType
  pub resource : S → N → ℕ
  pub namespaces : S → List N
  pub namespace_seed : S → Option N
  pub id : N → ℕ
  pub is_configuration_idle : S → N → Bool
  pub is_active : S → N → Bool
  pub set_uuid : N → List ℕ → S → Ret × S
  pub set_alt_name : N → String → S → Ret × S
  pub set_size : N → ℕ → S → Ret × S
  pub set_sector_size : N → ℕ → S → Ret × S
  pub set_enforce_mode : N → Mode → S → S
  pub set_raw_mode : N → ℕ → S → S
  pub enable : N → S → Ret × S
  pub disable_safe : N → S → Ret × S
  pub disable_invalidate : N → S → S
  pub delete : N → S → Ret × S
  pub pfn_seed : S → Option (SeedDevice S N)
  pub dax_seed : S → Option (SeedDevice S N)
  pub btt_seed : S → Option (BttDevice S N)
  pub memory : Bool × Bool
  pub open_exclusive : N → S → Bool
  pub read_info : N → S → Bool × List ℕ
  pub write_zeros : N → S → Bool × S
