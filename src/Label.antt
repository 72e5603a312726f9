-- ===== src/Label.antt =====
-- ndctl/lib/dimm.c: the label area of a DIMM, two index blocks and an array of labels.
pub mod Sequence
pub mod Layout
pub mod Validate
pub mod Write
pub mod Guess
use utils_kernel_ndctl_ndctl.Prelude.{
  ℕ, zero, suc, ◌+◌, ◌-◌, ◌*◌, ◌/◌, ◌%◌, ◌^◌, Bool, true, false, ◌&&◌, ◌||◌, leb, ◌==◌,
  if◌then◌else◌, bit_and,
}

-- `NSINDEX_SEQ_MASK` and `NSINDEX_ALIGN`, and the size of `struct namespace_index`.
abbrev pub nsindex_seq_mask : ℕ
nsindex_seq_mask = 3

abbrev pub nsindex_align : ℕ
nsindex_align = 256

abbrev pub namespace_index_size : ℕ
namespace_index_size = 72

-- The table `{ 0, 2, 3, 1 }`, for an index of at most 3.
unfoldable pub next_seq : ℕ → ℕ
next_seq zero = 0
next_seq (suc zero) = 2
next_seq (suc (suc zero)) = 3
next_seq (suc (suc (suc n))) = 1

unfoldable pub inc_seq : ℕ → ℕ
unfolding next_seq
inc_seq seq = next_seq (bit_and seq 3)

unfoldable pub best_seq : ℕ → ℕ → ℕ
best_seq a b =
    let a' = bit_and a nsindex_seq_mask in
    let b' = bit_and b nsindex_seq_mask in
    if a' == 0 || a' == b' then b' else if b' == 0 then a' else if inc_seq a' == b' then b' else a'

-- `ALIGN(x, a)` for the power of two `a` of its callers, of which `& ~(a - 1)` takes off the
-- remainder; the sum is of 64 bits.
unfoldable pub align : ℕ → ℕ → ℕ
align x a = let sum = (x + (a - 1)) % 2 ^ 64 in sum - sum % a

-- `__sizeof_namespace_index`: `nslot` is a `u32`, and so is the sum of `DIV_ROUND_UP`.
unfoldable pub index_size : ℕ → ℕ
index_size nslot = align (namespace_index_size + (nslot + 7) % 2 ^ 32 / 8) nsindex_align

-- `__nvdimm_num_label_slots`: the difference wraps at 64 bits, the result is cut to 32.
unfoldable pub slots_behind : ℕ → ℕ → ℕ → ℕ
slots_behind config_size label_size indexes =
    (config_size + 2 ^ 64 - indexes * 2 % 2 ^ 64) % 2 ^ 64 / label_size % 2 ^ 32

unfoldable pub num_label_slots : ℕ → ℕ → ℕ
num_label_slots config_size label_size =
    let tmp_nslot = config_size / label_size % 2 ^ 32 in
    let n = index_size tmp_nslot / nsindex_align % 2 ^ 32 in
    slots_behind config_size label_size (nsindex_align * n % 2 ^ 32)

-- `space` and `size` are `u32`. 0 is the error.
unfoldable pub sizeof_namespace_index : ℕ → ℕ → ℕ
sizeof_namespace_index config_size label_size =
    let nslot = num_label_slots config_size label_size in
    let space = (config_size + 2 ^ 64 - nslot * label_size % 2 ^ 32) % 2 ^ 64 % 2 ^ 32 in
    let size = index_size nslot * 2 % 2 ^ 32 in
    if leb size space && leb 2 nslot then size / 2 else 0
