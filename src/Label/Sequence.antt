-- ===== src/Label/Sequence.antt =====
-- Sequence numbers of index blocks.
use utils_kernel_ndctl_ndctl.Prelude.{
  ℕ, ◌<◌, ◌≡◌, ◌≢◌, ◌⊎◌, refl, inl, inr, zero, suc, ◌%◌, ◌^◌, ◌||◌, ◌==◌, if◌then◌else◌, arith,
}
use utils_kernel_ndctl_ndctl.Label.{inc_seq, best_seq}
use utils_kernel_ndctl_ndctl.Label.{next_seq}
use utils_kernel_ndctl_ndctl.Prelude.Bits.{bit_and_three}

inc_seq_lem : (a : ℕ) → a < 2 ^ 32 → inc_seq a ≡ next_seq (a % 4)
unfolding inc_seq
inc_seq_lem a small = rw (bit_and_three a small) refl

-- The three numbers follow each other in a circle.
next_seq_lem :
    (s : ℕ)
    → s < 4
    → ((s ≡ 0) × (next_seq s ≡ 0))
      ⊎ ((s ≡ 1) × (next_seq s ≡ 2))
      ⊎ ((s ≡ 2) × (next_seq s ≡ 3))
      ⊎ ((s ≡ 3) × (next_seq s ≡ 1))
unfolding next_seq
next_seq_lem zero h = inl (refl, refl)
next_seq_lem (suc zero) h = inr (inl (refl, refl))
next_seq_lem (suc (suc zero)) h = inr (inr (inl (refl, refl)))
next_seq_lem (suc (suc (suc zero))) h = inr (inr (inr (refl, refl)))
next_seq_lem (suc (suc (suc (suc s)))) h = absurd (omega arith)

best_seq_masked :
    (a b : ℕ)
    → a < 2 ^ 32
    → b < 2 ^ 32
    → best_seq a b ≡ (
        if a % 4 == 0 || a % 4 == b % 4
        then b % 4
        else if b % 4 == 0
        then a % 4
        else if next_seq (a % 4) == b % 4
        then b % 4
        else a % 4)
unfolding best_seq
best_seq_masked a b p q =
    let again : a % 4 % 4 ≡ a % 4 = omega arith in
    rw (bit_and_three a p, bit_and_three b q, inc_seq_lem (a % 4) (omega arith), again) refl

-- Where the sequence number `b` comes right after `a`, or the low bits of `a` are 0, `best_seq` gives
-- the low two bits of `b`, in either order of its arguments.
pub best_seq_lem :
    (a b : ℕ)
    → a < 2 ^ 32
    → b < 2 ^ 32
    → (a % 4 ≡ 0) ⊎ (b % 4 ≡ inc_seq a)
    → (best_seq a b ≡ b % 4) × (best_seq b a ≡ b % 4)
best_seq_lem a b p q newer =
    let ea = best_seq_masked a b p q in
    let eb = best_seq_masked b a q p in
    let ia = inc_seq_lem a p in
    let na = next_seq_lem (a % 4) (omega arith) in
    let nb = next_seq_lem (b % 4) (omega arith) in rw (ea, eb) (ground arith)

-- The successor of a number that is set is another one.
pub inc_seq-differs : (a : ℕ) → a < 2 ^ 32 → a % 4 ≢ 0 → inc_seq a ≢ a % 4
inc_seq-differs a small set same =
    let ia = inc_seq_lem a small in
    let na = next_seq_lem (a % 4) (omega arith) in set (ground arith)
