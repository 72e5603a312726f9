-- ===== src/Label/Guess.antt =====
-- ndctl/lib/dimm.c: the label size of an area that was not validated,
-- `ndctl_dimm_sizeof_namespace_label`.
use utils_kernel_ndctl_ndctl.Prelude.{
  ℕ, ◌+◌, ◌==◌, ltb, not, Option, some, List, [], ◌∷◌, ◌>>=◌, get_elem?, if◌then◌else◌,
}
use utils_kernel_ndctl_ndctl.Command.{Cmd, is_negative}
use utils_kernel_ndctl_ndctl.Command.Access.{cfg_read_get_data}
use utils_kernel_ndctl_ndctl.Label.{namespace_index_size, nsindex_align}
use utils_kernel_ndctl_ndctl.Label.Validate.{Fields}
use utils_kernel_ndctl_ndctl.Label.Write.{Encoders}

-- The two counts, of blocks of version 1.1 and of 1.2, with that of the word `version`.
unfoldable pub count_version : Fields → ℕ → ℕ × ℕ → ℕ × ℕ
count_version f version (v1, v2) =
    if not (f.le16_major version == 1)
    then (v1, v2)
    else if f.le16_minor version == 1
    then (v1 + 1, v2)
    else if f.le16_minor version == 2
    then (v1, v2 + 1)
    else (v1, v2)

-- The loop over the places of the blocks. `none` is a block that ends before `version`, which the
-- code reads from a variable that is not set.
unfoldable pub count_versions : Fields → Encoders → Cmd → List ℕ → List ℕ → ℕ × ℕ → Option (ℕ × ℕ)
unfolding count_version
count_versions f e cmd_read bytes [] counts = some counts
count_versions f e cmd_read bytes (offset ∷ offsets) counts = do
  (rc, nsindex) ← cfg_read_get_data cmd_read bytes namespace_index_size offset
  if is_negative rc then some counts else do
    version ← get_elem? (e.words_of nsindex) 15
    count_versions f e cmd_read bytes offsets (count_version f version counts)

-- With the size that is kept from before, or 0.
unfoldable pub sizeof_namespace_label : Fields → Encoders → Cmd → List ℕ → ℕ → Option ℕ
unfolding count_versions
sizeof_namespace_label f e cmd_read bytes nslabel_size =
    if not (nslabel_size == 0) then some nslabel_size else do
      (v1, v2) ← count_versions f e cmd_read bytes (0 ∷ nsindex_align ∷ []) (0, 0)
      some (if ltb v1 v2 then 256 else 128)
