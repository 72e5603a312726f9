-- ===== src/Check/Blocks/Once.antt =====
-- What `btt_check_bitmap` decides, for an arena whose references are in bounds.
use utils_kernel_ndctl_ndctl.Prelude.{
  ℕ, ◌+◌, ◌-◌, ◌<◌, ◌≡◌, ltb, refl, if◌then◌else◌, arith, Bool-cases, inl, inr, List, Option, sym,
  ◌∙◌,
}
use utils_kernel_ndctl_ndctl.Prelude.Pigeons.{Distinct, every_value}
use utils_kernel_ndctl_ndctl.Util.Bitmap.Words.{bit_at}
use utils_kernel_ndctl_ndctl.Check.Defs.{Host, ArenaInfo}
use utils_kernel_ndctl_ndctl.Check.Map.{btt_map_lookup}
use utils_kernel_ndctl_ndctl.Check.Blocks.{free_block}
use utils_kernel_ndctl_ndctl.Check.Blocks.Marks.{AllNew, Repeats}

-- The blocks that an arena refers to: first those of its map, then those that its log keeps free.
unfoldable pub referenced : Host → ArenaInfo → ℕ → Option ℕ
referenced host a i =
    if ltb i a.external_nlba
    then btt_map_lookup host a i
    else free_block host a (i - a.external_nlba)

-- Every one of the `count` blocks is the value of exactly one of the first `count` references.
abbrev pub ExactlyOnce : ℕ → (ℕ → ℕ) → Type 0
ExactlyOnce count val =
    (b : ℕ)
    → b < count
    → (i : ℕ) × (i < count) × (val i ≡ b) × ((j : ℕ) → j < count → val j ≡ b → j ≡ i)

pub Distinct-ExactlyOnce :
    (n : ℕ) (f : ℕ → ℕ) → ((i : ℕ) → i < n → f i < n) → Distinct n f → ExactlyOnce n f
Distinct-ExactlyOnce n f into d b l =
    let (i, k, e) = every_value n f into d b l in
    (i, k, e, λ j m e'. same_place i j k m (e ∙ sym e'))
  where
    same_place : (i j : ℕ) → i < n → j < n → f i ≡ f j → j ≡ i
    same_place i j k m e = elim (Bool-cases (ltb i j)) [
      | inl above ↦ absurd (d i j (ground arith) m e)
      | inr not_above ↦ elim (Bool-cases (ltb j i)) [
        | inl below ↦ absurd (d j i (ground arith) k (sym e))
        | inr not_below ↦ ground arith
      ]
    ]

pub ExactlyOnce-Distinct :
    (n : ℕ) (f : ℕ → ℕ) → ((i : ℕ) → i < n → f i < n) → ExactlyOnce n f → Distinct n f
ExactlyOnce-Distinct n f into once i j l k e =
    let (m, _, _, u) = once (f i) (into i (omega arith)) in
    omega (arith, u i (omega arith) refl, u j k (sym e))

-- A loop over the first `n` places that stops has met a block twice.
pub Repeats-not-Distinct :
    (n : ℕ) (val : ℕ → ℕ) (bm : List ℕ)
    → ((c : ℕ) → bit_at bm c ≡ 0)
    → Repeats val 0 n bm
    → ¬ Distinct n val
Repeats-not-Distinct n val bm clear (j, p, q, inl h) d = ground (arith, clear (val j))
Repeats-not-Distinct n val bm clear (j, p, q, inr (k, r, s, e)) d = d k j s q e

module _ (ext free : ℕ) (val : ℕ → ℕ) (bm0 bm1 : List ℕ) (clear : (c : ℕ) → bit_at bm0 c ≡ 0)
    (first : AllNew val 0 ext bm0 bm1) where
  abbrev pub log_val : ℕ → ℕ
  log_val j = val (ext + j)

  pub later_Repeats-not-Distinct : Repeats log_val 0 free bm1 → ¬ Distinct (ext + free) val
  later_Repeats-not-Distinct (j, p, q, inr (k, r, s, e)) d =
      d (ext + k) (ext + j) (omega arith) (omega arith) e
  later_Repeats-not-Distinct (j, p, q, inl h) d = elim (first.only (val (ext + j)) h) [
    | inl before ↦ ground (arith, clear (val (ext + j)))
    | inr (k, r, s, e) ↦ d k (ext + j) (omega arith) (omega arith) e
  ]

  module _ (bm2 : List ℕ) (second : AllNew log_val 0 free bm1 bm2) where
    pub both_Distinct : Distinct (ext + free) val
    both_Distinct i j l k e = elim (Bool-cases (ltb j ext)) [
      | inl in_map ↦ first.differ i j (omega arith) l (ground arith) e
      | inr in_log ↦
          let place : ext + (j - ext) ≡ j = ground arith in
          elim (Bool-cases (ltb i ext)) [
            | inl mixed ↦
                let seen = first.marked i (omega arith) (ground arith) in
                let new = rw place at (second.were_clear (j - ext) (omega arith) (ground arith)) in
                ground arith
            | inr both ↦
                let place' : ext + (i - ext) ≡ i = ground arith in
                second.differ (i - ext) (j - ext) (omega arith) (ground arith) (ground arith)
                  (rw (place, place') e)
          ]
    ]

    pub both_marked : (i : ℕ) → i < ext + free → bit_at bm2 (val i) ≡ 1
    both_marked i l = elim (Bool-cases (ltb i ext)) [
      | inl in_map ↦ second.kept (val i) (first.marked i (omega arith) (ground arith))
      | inr in_log ↦
          let place : ext + (i - ext) ≡ i = ground arith in
          rw place at (second.marked (i - ext) (omega arith) (ground arith))
    ]
