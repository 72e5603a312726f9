-- ===== src/Check/Indices/Known.antt =====
-- The slots that `log_set_indices` may choose.
use utils_kernel_ndctl_ndctl.Prelude.{
  ℕ, zero, suc, ◌+◌, ◌≤◌, ◌≡◌, refl, Bool, true, false, ◌&&◌, not, Option, some, none, List,
  if◌then◌else◌, get_elem?_total, length, arith,
}
use utils_kernel_ndctl_ndctl.Check.Defs.{
  Rc, ok, errno, enxio, LogGroup, Slot, s0, s1, s2, ArenaInfo,
}
use utils_kernel_ndctl_ndctl.Check.Indices.{
  IndexState, index_group, index_groups, go_on, no_index, store_indices, settle_indices,
  log_set_indices,
}

-- A choice of slots that the code knows, or the error with the arena as it was.
pub data Chosen (a : ArenaInfo) : Rc × ArenaInfo → Type 0 where
  old_format : Chosen a (ok, record a { log_index0 = s0; log_index1 = s2 })
  new_format : Chosen a (ok, record a { log_index0 = s0; log_index1 = s1 })
  refused : Chosen a (errno enxio, a)

store_indices-Chosen : (a : ArenaInfo) (i j : Option Slot) → Chosen a (store_indices a i j)
unfolding store_indices
store_indices-Chosen a (some s0) (some s1) = new_format
store_indices-Chosen a (some s0) (some s2) = old_format
store_indices-Chosen a _ _ = refused

if_Chosen :
    {a : ArenaInfo} (c : Bool) {r s : Rc × ArenaInfo}
    → Chosen a r
    → Chosen a s
    → Chosen a (if c then r else s)
if_Chosen true x y = x
if_Chosen false x y = y

settle_indices-Chosen : (a : ArenaInfo) (st : Option IndexState) → Chosen a (settle_indices a st)
unfolding settle_indices
settle_indices-Chosen a none = refused
settle_indices-Chosen a (some st) =
    if_Chosen (not st.initial_state && not st.idx_set) refused
      (store_indices-Chosen a st.log_index0 _)

go_on_total :
    (o : Option IndexState) (rest : IndexState → Option (Option IndexState))
    → ((st : IndexState) → (r : Option IndexState) × (rest st ≡ some r))
    → (r : Option IndexState) × (go_on o rest ≡ some r)
go_on_total none rest total = (none, refl)
go_on_total (some st) rest total = total st

index_groups_total :
    (logs : List LogGroup) (n i : ℕ) (st : IndexState)
    → i + n ≤ length logs
    → (r : Option IndexState) × (index_groups logs n i st ≡ some r)
unfolding index_groups
index_groups_total logs zero i st h = (some st, refl)
index_groups_total logs (suc n) i st h =
    let (log, e) = get_elem?_total logs i (omega arith) in
    rw e (
      go_on_total (index_group log st) (λ st'. index_groups logs n (i + 1) st')
        (λ st'. index_groups_total logs n (i + 1) st' (omega arith)))

-- Where every lane has its group in the mapped log, `log_set_indices` returns: with 0 and the slots 0
-- and 1, or 0 and 2, or with `-ENXIO`, and changes nothing but the two indices.
pub log_set_indices-Chosen :
    (a : ArenaInfo)
    → a.nfree ≤ length a.map.log
    → (r : Rc × ArenaInfo) × (log_set_indices a ≡ some r) × Chosen a r
unfolding log_set_indices
log_set_indices-Chosen a h =
    let (found, e) = index_groups_total a.map.log a.nfree 0 no_index (omega arith) in
    (settle_indices a found, rw e refl, settle_indices-Chosen a found)
