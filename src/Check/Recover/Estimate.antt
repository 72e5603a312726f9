-- ===== src/Check/Recover/Estimate.antt =====
-- The loop that estimates how many arenas there are.
use utils_kernel_ndctl_ndctl.Prelude.{
  ℕ, zero, suc, ◌+◌, ◌-◌, ◌*◌, ◌/◌, ◌≤◌, ◌<◌, ◌≡◌, ◌&&◌, some, ltb, ◌==◌, if◌then◌else◌, arith,
  Bool-cases, inl, inr, ltb→lt, ◌⊎◌, refl, false, ◌∙◌, ap,
}
use utils_kernel_ndctl_ndctl.Check.Defs.{errno, einval}
use utils_kernel_ndctl_ndctl.Check.Media.{Result, err, got, arena_min_size, arena_max_size}
use utils_kernel_ndctl_ndctl.Check.Recover.{estimate}

-- `full` arenas of the largest size, and the space that is left behind them.
abbrev pub arenas_of : ℕ → ℕ → ℕ → Result (ℕ × ℕ)
arenas_of est_arenas full left =
    if ltb left arena_min_size
    then got (est_arenas + full, left)
    else got (est_arenas + full + 1, 0)

-- The number of arenas in `space` bytes, of which `est_arenas` have been counted.
abbrev pub estimate_of : ℕ → ℕ → Result (ℕ × ℕ)
estimate_of space est_arenas =
    let full = (space - 1) / arena_max_size in
    if ltb space arena_min_size && est_arenas == 0 && ltb 0 space
    then err (errno einval)
    else arenas_of est_arenas full (space - full * arena_max_size)

-- A round that takes a full arena off.
estimate_full :
    (fuel space est_arenas : ℕ)
    → arena_max_size < space
    → estimate (suc fuel) space est_arenas ≡ estimate fuel (space - arena_max_size) (est_arenas + 1)
unfolding estimate
estimate_full fuel space est_arenas h = ground arith

-- The last round.
estimate_last :
    (fuel space est_arenas : ℕ)
    → space ≤ arena_max_size
    → estimate (suc fuel) space est_arenas ≡ some (estimate_of space est_arenas)
unfolding estimate
estimate_last fuel space est_arenas h =
    let none_full : (space - 1) / arena_max_size ≡ 0 = omega arith in rw none_full (ground arith)

estimate_of_full :
    (space est_arenas : ℕ)
    → arena_max_size < space
    → estimate_of (space - arena_max_size) (est_arenas + 1) ≡ estimate_of space est_arenas
estimate_of_full space est_arenas h =
    let one_less : (space - arena_max_size - 1) / arena_max_size + 1
        ≡ (space - 1) / arena_max_size =
      omega arith in
    rw (← one_less) (ground arith)

-- With a round for each `ARENA_MAX_SIZE` and two more, the loop that estimates the arenas ends, and
-- gives the number of arenas and what is left.
pub estimate_lem :
    (fuel space est_arenas : ℕ)
    → space / arena_max_size + 2 ≤ fuel
    → estimate fuel space est_arenas ≡ some (estimate_of space est_arenas)
estimate_lem zero space est_arenas h = absurd (omega arith)
estimate_lem (suc fuel) space est_arenas h = elim (Bool-cases (ltb arena_max_size space)) [
  | inl more ↦
      estimate_full fuel space est_arenas (ltb→lt _ _ more)
      ∙ (estimate_lem fuel (space - arena_max_size) (est_arenas + 1) (ground arith)
          ∙ ap some (estimate_of_full space est_arenas (ltb→lt _ _ more)))
  | inr last ↦ estimate_last fuel space est_arenas (ground arith)
]

-- The estimate fails only with `-EINVAL`.
pub estimate_of-cases :
    (space : ℕ)
    → (estimate_of space 0 ≡ err (errno einval)) ⊎ ((est : ℕ × ℕ) × (estimate_of space 0 ≡ got est))
estimate_of-cases space = elim (Bool-cases (ltb space arena_min_size && 0 == 0 && ltb 0 space)) [
  | inl small ↦ inl (rw small refl)
  | inr large ↦ inr (counted large)
]
  where
    counted :
        (ltb space arena_min_size && 0 == 0 && ltb 0 space) ≡ false
        → (est : ℕ × ℕ) × (estimate_of space 0 ≡ got est)
    counted large =
        let full = (space - 1) / arena_max_size in
        elim (Bool-cases
          (ltb (space - (space - 1) / arena_max_size * arena_max_size) arena_min_size)) [
            | inl left ↦ ((0 + full, space - full * arena_max_size), rw (large, left) refl)
            | inr none_left ↦ ((0 + full + 1, 0), rw (large, none_left) refl)
          ]
