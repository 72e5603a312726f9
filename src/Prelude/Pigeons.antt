-- ===== src/Prelude/Pigeons.antt =====
-- Counting: a function from the numbers below `n` into themselves that repeats no value takes every
-- value.
use Prim.Native.Nat.{ℕ, zero, suc, ◌<◌}
use mathlib.Core.Path.{◌≡◌}
use mathlib.Core.Logic.{◌≢◌, ◌⊎◌, inl, inr}
use native.Mathlib.Omega.{arith}
use utils_kernel_ndctl_ndctl.Prelude.Tests.{◌==◌, if◌then◌else◌, Bool-cases}

-- No value repeats at the places below `n`.
abbrev pub Distinct : ℕ → (ℕ → ℕ) → Type 0
Distinct n f = (i j : ℕ) → i < j → j < n → f i ≢ f j

-- A search among the places below `n`.
pub found_below :
    (n : ℕ) (f : ℕ → ℕ) (b : ℕ) → ((i : ℕ) × (i < n) × (f i ≡ b)) ⊎ ((i : ℕ) → i < n → f i ≢ b)
found_below zero f b = inr (λ i l. elim l [ ])
found_below (suc n) f b = elim (found_below n f b) [
  | inl (i, l, e) ↦ inl (i, omega arith, e)
  | inr none ↦ elim (Bool-cases (f n == b)) [
    | inl same ↦ inl (n, omega arith, ground arith)
    | inr other ↦ inr (λ i l. elim (Bool-cases (i == n)) [
      | inl last ↦ let e : i ≡ n = ground arith in rw e (ground arith)
      | inr before ↦ none i (ground arith)
    ])
  ]
]

-- The place of the value `top` gets another value instead.
abbrev redirect : (ℕ → ℕ) → ℕ → ℕ → ℕ → ℕ
redirect f top other i = if f i == top then other else f i

redirect-Distinct :
    (n : ℕ) (f : ℕ → ℕ) (top other : ℕ)
    → Distinct n f
    → ((i : ℕ) → i < n → f i ≢ other)
    → Distinct n (redirect f top other)
redirect-Distinct n f top other d fresh i j l k =
    ground (arith, d i j l k, fresh i (omega arith), fresh j k)

no_room : (n : ℕ) (f : ℕ → ℕ) → ((i : ℕ) → i < suc n → f i < n) → Distinct (suc n) f → ⊥
no_room zero f into d = elim (into 0 (omega arith)) [ ]
no_room (suc n) f into d =
    no_room n (redirect f n (f (suc n)))
      (λ i l.
        ground
          (arith, into i (omega arith), into (suc n) (omega arith), d i (suc n) l (omega arith)))
      (redirect-Distinct (suc n) f n (f (suc n)) (λ i j l k. d i j l (omega arith))
        (λ i l. d i (suc n) l (omega arith)))

pub every_value :
    (n : ℕ) (f : ℕ → ℕ)
    → ((i : ℕ) → i < n → f i < n)
    → Distinct n f
    → (b : ℕ) → b < n
    → (i : ℕ) × (i < n) × (f i ≡ b)
every_value zero f into d b l = elim l [ ]
every_value (suc n) f into d b l = elim (found_below (suc n) f b) [
  | inl found ↦ found
  | inr none ↦ absurd (
      no_room n (redirect f n b) (λ i k. ground (arith, into i k, none i k))
        (redirect-Distinct (suc n) f n b d none))
]
