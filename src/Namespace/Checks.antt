-- ===== src/Namespace/Checks.antt =====
-- The checks of a size, of the capacity of a region and of a pfn device in ndctl/namespace.c, and the
-- mode with its seed device.
use utils_kernel_ndctl_ndctl.Prelude.{
  ℕ, ◌+◌, ◌-◌, ◌*◌, ◌/◌, ◌%◌, ◌^◌, max, ltb, ◌==◌, Bool, true, false, not, ◌&&◌, ◌||◌, Option, some,
  none, if◌then◌else◌,
}
use utils_kernel_ndctl_ndctl.Util.Size.{ullong_max}
use utils_kernel_ndctl_ndctl.Check.Defs.{einval}
use utils_kernel_ndctl_ndctl.Namespace.Params.{Mode, fsdax, raw, devdax, PfnLoc}
use utils_kernel_ndctl_ndctl.Namespace.Attributes.{
  NamespaceType, io, Pfn, Dax, Ndns, Region, Outcome, refused, retry_with, fault, accepted,
  same_mode, eagain,
}

abbrev pub sz_16m : ℕ
sz_16m = 0x100_0000

abbrev pub sz_2m : ℕ
sz_2m = 0x20_0000

-- `UINT_MAX`
abbrev pub uint_max : ℕ
uint_max = 2 ^ 32 - 1

abbrev pub is_io : NamespaceType → Bool
is_io io = true
is_io t = false

unfoldable pub available_capacity : Region → ℕ
available_capacity r =
    if is_io r.nstype
    then r.size
    else if r.max_available_extent == ullong_max
    then r.available_size
    else r.max_available_extent

-- The size after the call.
unfoldable pub validate_available_capacity : Region → ℕ → Outcome ℕ
unfolding available_capacity
validate_available_capacity r size =
    let available = available_capacity r in
    if available == 0 || ltb available size
    then refused eagain
    else accepted (if size == 0 then available else size)

abbrev pub is_pmem : PfnLoc → Bool
is_pmem PfnLoc.pmem = true
is_pmem loc = false

-- `do_setup_pfn`, with the mode and the location of the parameters
unfoldable pub do_setup_pfn : Option Ndns → Mode → PfnLoc → Bool
do_setup_pfn ndns mode loc =
    if not (same_mode mode fsdax)
    then false
    else elim ndns [ none ↦ true | some n ↦ not (same_mode n.mode fsdax) || is_pmem loc ]

-- The mode and the seed device that goes with it.
pub data Chosen : Type 0 where
  fsdax_on : Option Pfn → Chosen
  devdax_on : Dax → Chosen
  plain : Mode → Chosen

abbrev pub chosen_mode : Chosen → Mode
chosen_mode (fsdax_on pfn) = fsdax
chosen_mode (devdax_on dax) = devdax
chosen_mode (plain mode) = mode

-- The size to propose in the units of --size, where the size is not aligned; `none` is an overflow.
unfoldable pub hinted_size : ℕ → ℕ → ℕ → Option ℕ
hinted_size size size_align units =
    let count = (size / size_align + 1) % 2 ^ 64 in
    if ltb (ullong_max / size_align) count then none else some (count * size_align / units)

-- (re-)validate that the size satisfies the alignment
unfoldable pub check_size_align : ℕ → ℕ → ℕ → ℕ → Outcome Unit
check_size_align size align ways units =
    let step = align * ways % 2 ^ 64 in
    if step == 0
    then fault
    else if size % step == 0
    then accepted _
    else let size_align = max units align * ways % 2 ^ 64 in
      if size_align == 0 then fault else elim (hinted_size size size_align units) [
        | none ↦ refused einval
        | some n ↦ retry_with einval n
      ]

unfoldable pub check_region_align : ℕ → ℕ → Outcome Unit
check_region_align size region_align =
    if not (ltb region_align ullong_max)
    then accepted _
    else if region_align == 0
    then fault
    else if size % region_align == 0
    then accepted _
    else refused einval

unfoldable pub check_minimum : ℕ → Mode → Bool → Outcome Unit
check_minimum size mode default_size =
    if ltb size sz_16m && not (same_mode mode raw)
    then refused (if default_size then eagain else einval)
    else accepted _
