-- ===== src/Check/Indices/Formats.antt =====
-- What `log_set_indices` makes of a log of a known format.
use mathlib.Core.Path.{subst}
use utils_kernel_ndctl_ndctl.Prelude.{
  ℕ, zero, suc, ◌+◌, ◌<◌, ◌≡◌, ◌⊎◌, ◌&&◌, inl, inr, refl, Bool, true, false, some, none, List,
  get_elem?, arith, ◌==◌, Bool-cases,
}
use utils_kernel_ndctl_ndctl.Check.Defs.{
  ok, LogEntry, LogGroup, Slot, s0, s1, s2, s3, ent, ArenaInfo,
}
use utils_kernel_ndctl_ndctl.Check.Log.{ent_is_padding}
use utils_kernel_ndctl_ndctl.Check.Indices.{
  IndexState, record_index, search_slot, verify_slot, index_slot, index_group, index_groups,
  no_index, store_indices, settle_indices, log_set_indices,
}

-- The two formats of a group in which both slots have been written.
pub data Format : Type 0 where
  new_format old_format : Format

-- Padding is all zeros.
abbrev pub IsPadding : LogEntry → Type 0
IsPadding e = (e.lba ≡ 0) × (e.old_map ≡ 0) × (e.new_map ≡ 0) × (e.seq ≡ 0)

abbrev pub Filled : Bool → LogEntry → Type 0
Filled true e = IsPadding e
Filled false e = ¬ IsPadding e

-- Which of the four slots are padding.
abbrev pub Padding : LogGroup → Bool → Bool → Bool → Bool → Type 0
Padding log a b c d = Filled a log.ent0 × Filled b log.ent1 × Filled c log.ent2 × Filled d log.ent3

ent_is_padding_lem : (b : Bool) (e : LogEntry) → Filled b e → ent_is_padding e ≡ b
unfolding ent_is_padding
ent_is_padding_lem true e (lba, old_map, new_map, seq) = rw (lba, old_map, new_map, seq) refl
ent_is_padding_lem false e used =
    if_not (e.lba == 0 && e.old_map == 0 && e.new_map == 0 && e.seq == 0)
      (λ all. used (ground arith, ground arith, ground arith, ground arith))
  where
    if_not : (c : Bool) → ¬ (c ≡ true) → c ≡ false
    if_not true never = absurd (never refl)
    if_not false never = refl

tests :
    (a b c d : Bool) (log : LogGroup)
    → Padding log a b c d
    → (ent_is_padding (ent log s0) ≡ a)
      × (ent_is_padding (ent log s1) ≡ b)
      × (ent_is_padding (ent log s2) ≡ c)
      × (ent_is_padding (ent log s3) ≡ d)
tests a b c d log (w, x, y, z) = (
  ent_is_padding_lem a log.ent0 w,
  ent_is_padding_lem b log.ent1 x,
  ent_is_padding_lem c log.ent2 y,
  ent_is_padding_lem d log.ent3 z,
)

-- The slots 0 and 1 are in use, or 0 and 2, and the other two are padding.
abbrev pub InFormat : Format → LogGroup → Type 0
InFormat new_format log = Padding log false false true true
InFormat old_format log = Padding log false true false true

-- Only the slot 0 is in use yet.
abbrev pub Fresh : LogGroup → Type 0
Fresh log = Padding log false true true true

abbrev pub second : Format → Slot
second new_format = s1
second old_format = s2

abbrev fresh_state : IndexState
fresh_state = record {
  idx_set = false;
  initial_state = true;
  log_index0 = some s0;
  log_index1 = none;
  next_idx = 1;
  pad_count = 0;
}

abbrev set_state : Format → IndexState
set_state f = record {
  idx_set = true;
  initial_state = false;
  log_index0 = some s0;
  log_index1 = some (second f);
  next_idx = 2;
  pad_count = 0;
}

blank_first : (log : LogGroup) → Fresh log → index_group log no_index ≡ some fresh_state
unfolding index_group index_slot search_slot verify_slot record_index
blank_first log p = let (a, b, c, d) = tests false true true true log p in rw (a, b, c, d) refl

blank_again : (log : LogGroup) → Fresh log → index_group log fresh_state ≡ some fresh_state
unfolding index_group index_slot search_slot verify_slot record_index
blank_again log p = let (a, b, c, d) = tests false true true true log p in rw (a, b, c, d) refl

blank_later :
    (f : Format) (log : LogGroup) → Fresh log → index_group log (set_state f) ≡ some (set_state f)
unfolding index_group index_slot search_slot verify_slot record_index
blank_later new_format log p =
    let (a, b, c, d) = tests false true true true log p in rw (a, c, d) refl
blank_later old_format log p =
    let (a, b, c, d) = tests false true true true log p in rw (a, b, d) refl

formed_first :
    (f : Format) (log : LogGroup) → InFormat f log → index_group log no_index ≡ some (set_state f)
unfolding index_group index_slot search_slot verify_slot record_index
formed_first new_format log p =
    let (a, b, c, d) = tests false false true true log p in rw (a, b, c, d) refl
formed_first old_format log p =
    let (a, b, c, d) = tests false true false true log p in rw (a, b, c, d) refl

formed_again :
    (f : Format) (log : LogGroup)
    → InFormat f log
    → index_group log fresh_state ≡ some (set_state f)
unfolding index_group index_slot search_slot verify_slot record_index
formed_again new_format log p =
    let (a, b, c, d) = tests false false true true log p in rw (a, b, c, d) refl
formed_again old_format log p =
    let (a, b, c, d) = tests false true false true log p in rw (a, b, c, d) refl

formed_later :
    (f : Format) (log : LogGroup)
    → InFormat f log
    → index_group log (set_state f) ≡ some (set_state f)
unfolding index_group index_slot search_slot verify_slot record_index
formed_later new_format log p =
    let (a, b, c, d) = tests false false true true log p in rw (a, c, d) refl
formed_later old_format log p =
    let (a, b, c, d) = tests false true false true log p in rw (a, b, d) refl

-- The group `i` is there, and as `P` says.
abbrev pub GroupIs : List LogGroup → (LogGroup → Type 0) → ℕ → Type 0
GroupIs logs P i = (log : LogGroup) × (get_elem? logs i ≡ some log) × P log

module _ (logs : List LogGroup) (f : Format) where
  -- What the state says of the groups before `i`.
  abbrev ScannedTo : IndexState → ℕ → Type 0
  ScannedTo st i =
      ((st ≡ no_index) × (i ≡ 0))
      ⊎ ((st ≡ fresh_state) × (0 < i) × ((j : ℕ) → j < i → GroupIs logs Fresh j))
      ⊎ ((st ≡ set_state f) × ((j : ℕ) × (j < i) × GroupIs logs (InFormat f) j))

  one_more : {P : ℕ → Type 0} (i : ℕ) → ((j : ℕ) → j < i → P j) → P i → (j : ℕ) → j < i + 1 → P j
  one_more {P} i before here j h = elim (Bool-cases (j == i)) [
    | inl e ↦ (let same : i ≡ j = ground arith in subst P same here)
    | inr ne ↦ before j (ground arith)
  ]

  group_step :
      (i : ℕ) (st : IndexState) (log : LogGroup)
      → get_elem? logs i ≡ some log
      → Fresh log ⊎ InFormat f log
      → ScannedTo st i
      → (st' : IndexState) × (index_group log st ≡ some st') × ScannedTo st' (i + 1)
  group_step i st log e (inl fresh) (inl (was, first)) = (
    fresh_state,
    rw was (blank_first log fresh),
    inr (
        inl (
          refl,
          omega arith,
          one_more {P = GroupIs logs Fresh} i (λ j h. absurd (omega arith)) (log, e, fresh),
        )),
  )
  group_step i st log e (inl fresh) (inr (inl (was, some_before, all))) = (
    fresh_state,
    rw was (blank_again log fresh),
    inr (inl (refl, omega arith, one_more {P = GroupIs logs Fresh} i all (log, e, fresh))),
  )
  group_step i st log e (inl fresh) (inr (inr (was, (j, before, there)))) =
      (set_state f, rw was (blank_later f log fresh), inr (inr (refl, (j, omega arith, there))))
  group_step i st log e (inr formed) scanned =
      (set_state f, formed_step scanned, inr (inr (refl, (i, omega arith, (log, e, formed)))))
    where
      formed_step : ScannedTo st i → index_group log st ≡ some (set_state f)
      formed_step (inl (was, first)) = rw was (formed_first f log formed)
      formed_step (inr (inl (was, some_before, all))) = rw was (formed_again f log formed)
      formed_step (inr (inr (was, there))) = rw was (formed_later f log formed)

  groups_scan :
      (n i : ℕ) (st : IndexState)
      → ((j : ℕ) → j < i + n → GroupIs logs (λ log. Fresh log ⊎ InFormat f log) j)
      → ScannedTo st i
      → (st' : IndexState) × (index_groups logs n i st ≡ some (some st')) × ScannedTo st' (i + n)
  unfolding index_groups
  groups_scan zero i st known scanned =
      let same : i ≡ i + 0 = omega arith in (st, refl, subst (ScannedTo st) same scanned)
  groups_scan (suc n) i st known scanned =
      let (log, e, which) = known i (omega arith) in
      let (st1, stepped, scanned1) = group_step i st log e which scanned in
      let same : i + 1 + n ≡ i + suc n = omega arith in
      let (st2, rest, scanned2) =
        groups_scan n (i + 1) st1 (λ j h. known j (omega arith)) scanned1 in
      (st2, rw (e, stepped) rest, subst (ScannedTo st2) same scanned2)

-- For an arena with at least one lane, where each group of the lanes is mapped and has only its
-- slot 0 in use, the others all zeros, or is in the one of the two known formats that is given:
-- `log_set_indices` returns 0 and changes only the two indices. The first is 0; the second is the
-- one of the format, if a group is in it, and where no group is it is 1.
pub log_set_indices-InFormat :
    (a : ArenaInfo) (f : Format)
    → 0 < a.nfree
    → ((j : ℕ) → j < a.nfree → GroupIs a.map.log (λ log. Fresh log ⊎ InFormat f log) j)
    → (((j : ℕ) × (j < a.nfree) × GroupIs a.map.log (InFormat f) j)
        × (log_set_indices a ≡ some (ok, record a { log_index0 = s0; log_index1 = second f })))
      ⊎ (((j : ℕ) → j < a.nfree → GroupIs a.map.log Fresh j)
          × (log_set_indices a ≡ some (ok, record a { log_index0 = s0; log_index1 = s1 })))
unfolding log_set_indices settle_indices store_indices
log_set_indices-InFormat a f some_lane known =
    let (st, found, scanned) =
      groups_scan a.map.log f a.nfree 0 no_index (λ j h. known j (omega arith))
        (inl (refl, refl)) in
    settled f st found scanned
  where
    settled :
        (g : Format) (st : IndexState)
        → index_groups a.map.log a.nfree 0 no_index ≡ some (some st)
        → ScannedTo a.map.log g st (0 + a.nfree)
        → (((j : ℕ) × (j < a.nfree) × GroupIs a.map.log (InFormat g) j)
            × (log_set_indices a ≡ some (ok, record a { log_index0 = s0; log_index1 = second g })))
          ⊎ (((j : ℕ) → j < a.nfree → GroupIs a.map.log Fresh j)
              × (log_set_indices a ≡ some (ok, record a { log_index0 = s0; log_index1 = s1 })))
    settled g st found (inl (was, none_there)) = absurd (omega arith)
    settled g st found (inr (inl (was, some_there, all))) =
        inr (λ j h. all j (omega arith), rw (log_set_indices, found, was) refl)
    settled new_format st found (inr (inr (was, (j, h, there)))) =
        inl ((j, omega arith, there), rw (log_set_indices, found, was) refl)
    settled old_format st found (inr (inr (was, (j, h, there)))) =
        inl ((j, omega arith, there), rw (log_set_indices, found, was) refl)
