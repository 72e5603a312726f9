-- ===== src/Check/Indices.antt =====
-- `log_set_indices`: which two of the four slots of every log group are in use.
pub mod Known
pub mod Formats
use utils_kernel_ndctl_ndctl.Prelude.{
  ℕ, zero, suc, ◌+◌, Bool, true, false, ◌&&◌, ◌||◌, not, Option, some, none, List, [], ◌∷◌, ◌>>=◌,
  ltb, ◌==◌, if◌then◌else◌, get_elem?,
}
use utils_kernel_ndctl_ndctl.Check.Defs.{
  Rc, ok, errno, enxio, LogGroup, Slot, s0, s1, s2, s3, ent, ArenaInfo,
}
use utils_kernel_ndctl_ndctl.Check.Log.{ent_is_padding}

-- The local variables; `none` is the index -1.
pub record IndexState : Type 0 where
  pub idx_set : Bool
  pub initial_state : Bool
  pub log_index0 : Option Slot
  pub log_index1 : Option Slot
  pub next_idx : ℕ
  pub pad_count : ℕ

abbrev pub slot_number : Slot → ℕ
slot_number s0 = 0
slot_number s1 = 1
slot_number s2 = 2
slot_number s3 = 3

-- `j == log_index[..]`
abbrev pub is_index : Slot → Option Slot → Bool
is_index j none = false
is_index j (some i) = slot_number j == slot_number i

-- `log_index[next_idx] = j; next_idx++;` and the tests of `next_idx` behind it. `none` is `-ENXIO`.
unfoldable pub record_index : Slot → IndexState → Option IndexState
record_index j st =
    let next = st.next_idx + 1 in
    let st' =
      if st.next_idx == 0
      then record st { log_index0 = some j; next_idx = next }
      else record st { log_index1 = some j; next_idx = next } in
    if next == 2 then some record st' { idx_set = true } else if ltb 2 next then none else some st'

-- A slot before both indices are set.
unfoldable pub search_slot : LogGroup → Slot → IndexState → Option IndexState
search_slot log j st =
    let recorded = record_index j st in
    if ent_is_padding (ent log j)
    then some record st { pad_count = st.pad_count + 1 }
    else if st.next_idx == 1 && is_index j st.log_index0
    then some st
    else recorded

-- A slot after that.
unfoldable pub verify_slot : LogGroup → Slot → IndexState → Option IndexState
verify_slot log j st =
    if is_index j st.log_index0
    then (if ent_is_padding (ent log j) then none else some st)
    else if is_index j st.log_index1
    then some st
    else if not (ent_is_padding (ent log j))
    then none
    else some st

unfoldable pub index_slot : LogGroup → Slot → IndexState → Option IndexState
index_slot log j st = if st.idx_set then verify_slot log j st else search_slot log j st

-- One group: its four slots, and the count of the padding among them.
unfoldable pub index_group : LogGroup → IndexState → Option IndexState
index_group log st = do
  a ← index_slot log s0 st
  b ← index_slot log s1 a
  c ← index_slot log s2 b
  d ← index_slot log s3 c
  some record d { initial_state = d.initial_state && not (ltb d.pad_count 3); pad_count = 0 }

-- The early return of `-ENXIO`.
abbrev pub go_on :
    Option IndexState → (IndexState → Option (Option IndexState)) → Option (Option IndexState)
go_on none rest = some none
go_on (some st) rest = rest st

-- The loop over the groups. The outer `none` is a read past the mapped log.
unfoldable pub index_groups : List LogGroup → ℕ → ℕ → IndexState → Option (Option IndexState)
index_groups logs zero i st = some (some st)
index_groups logs (suc n) i st = do
  log ← get_elem? logs i
  go_on (index_group log st) (λ st'. index_groups logs n (i + 1) st')

abbrev pub no_index : IndexState
no_index = record {
  idx_set = false;
  initial_state = true;
  log_index0 = none;
  log_index1 = none;
  next_idx = 0;
  pad_count = 0;
}

-- The known permutations of log and padding indices, (0, 1) and (0, 2).
unfoldable pub store_indices : ArenaInfo → Option Slot → Option Slot → Rc × ArenaInfo
store_indices a (some s0) (some s1) = (ok, record a { log_index0 = s0; log_index1 = s1 })
store_indices a (some s0) (some s2) = (ok, record a { log_index0 = s0; log_index1 = s2 })
store_indices a i j = (errno enxio, a)

unfoldable pub settle_indices : ArenaInfo → Option IndexState → Rc × ArenaInfo
settle_indices a none = (errno enxio, a)
settle_indices a (some st) =
    if not st.initial_state && not st.idx_set
    then (errno enxio, a)
    else store_indices a st.log_index0 (if st.initial_state then some s1 else st.log_index1)

unfoldable pub log_set_indices : ArenaInfo → Option (Rc × ArenaInfo)
log_set_indices a = do
  found ← index_groups a.map.log a.nfree 0 no_index
  some (settle_indices a found)
