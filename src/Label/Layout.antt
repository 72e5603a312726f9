-- ===== src/Label/Layout.antt =====
-- The index blocks and the labels fit the label area.
use utils_kernel_ndctl_ndctl.Prelude.{
  ℕ, ◌+◌, ◌*◌, ◌/◌, ◌%◌, ◌^◌, ◌≤◌, ◌<◌, ◌≡◌, ◌≢◌, ◌⊎◌, arith, inl, inr,
}
use utils_kernel_ndctl_ndctl.Label.{
  align, index_size, slots_behind, num_label_slots, sizeof_namespace_index,
}

index_size_lem :
    (nslot : ℕ)
    → nslot < 2 ^ 31
    → (72 + (nslot + 7) / 8 ≤ index_size nslot)
      × (index_size nslot ≤ 328 + nslot / 8)
      × (index_size nslot % 256 ≡ 0)
unfolding index_size align
index_size_lem nslot h = (omega arith, omega arith, omega arith)

-- For a label area of at least two index blocks and below 4 GiB, with labels of 128 or of 256 bytes:
-- where `sizeof_namespace_index` is not 0, it is a multiple of 256, both index blocks and the labels
-- behind them fit the area, an index block has room for its 72 bytes and a bit for each label, and
-- there are at least two labels.
pub sizeof_namespace_index-fits :
    (config_size label_size : ℕ)
    → 512 ≤ config_size
    → config_size < 2 ^ 32
    → (label_size ≡ 128) ⊎ (label_size ≡ 256)
    → sizeof_namespace_index config_size label_size ≢ 0
    → (2 * sizeof_namespace_index config_size label_size
          + num_label_slots config_size label_size * label_size
        ≤ config_size)
      × (sizeof_namespace_index config_size label_size % 256 ≡ 0)
      × (72 + (num_label_slots config_size label_size + 7) / 8
          ≤ sizeof_namespace_index config_size label_size)
      × (2 ≤ num_label_slots config_size label_size)
unfolding sizeof_namespace_index num_label_slots slots_behind index_size align
sizeof_namespace_index-fits config_size label_size h l (inl e) ne =
    rw e (ground arith, ground arith, ground arith, ground arith)
sizeof_namespace_index-fits config_size label_size h l (inr e) ne =
    rw e (ground arith, ground arith, ground arith, ground arith)
