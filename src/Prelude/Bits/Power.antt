-- ===== src/Prelude/Bits/Power.antt =====
-- The words with one bit set.
use native.Mathlib.Nat.{pow-succ'}
use mathlib.Core.Path.{◌≡◌}
use mathlib.Core.Logic.{◌≢◌, inl, inr}
use native.Mathlib.Omega.{arith}
use Prim.Native.Nat.{ℕ, zero, suc, ◌-◌, ◌/◌, ◌%◌, ◌^◌, ◌<◌, bit_and, bit_and-bitwise}
use utils_kernel_ndctl_ndctl.Prelude.Tests.{◌==◌, Bool-cases}
use utils_kernel_ndctl_ndctl.Prelude.Bits.Low.{bit_and_low, half-bit_and}

bit_and_same : (w x : ℕ) → x < 2 ^ w → bit_and x x ≡ x
bit_and_same zero x h = let none : x ≡ 0 = omega arith in rw none (simp bit_and-bitwise)
bit_and_same (suc w) x h =
    let half = bit_and_same w (x / 2) (ground (arith, pow-succ' 2 w)) in
    omega (arith, bit_and_low x x)

-- A number that has no bit in common with the one before it is a power of two.
pub power_of_two : (w x : ℕ) → x < 2 ^ w → x ≢ 0 → bit_and x (x - 1) ≡ 0 → (k : ℕ) × (x ≡ 2 ^ k)
power_of_two zero x h ne e = absurd (ne (omega arith))
power_of_two (suc w) x h ne e =
    let small : x / 2 < 2 ^ w = ground (arith, pow-succ' 2 w) in
    let shared = half-bit_and x (x - 1) in
    elim (Bool-cases (x % 2 == 0)) [
      | inl even ↦
          let before : (x - 1) / 2 ≡ x / 2 - 1 = ground arith in
          let halved : bit_and (x / 2) ((x - 1) / 2) ≡ 0 = omega (arith, shared, e) in
          let none : bit_and (x / 2) (x / 2 - 1) ≡ 0 = rw before at halved in
          let (k, p) = power_of_two w (x / 2) small (ground arith) none in
          (suc k, ground (arith, p, pow-succ' 2 k))
      | inr odd ↦
          let before : (x - 1) / 2 ≡ x / 2 = ground arith in
          let same = bit_and_same w (x / 2) small in
          let halved : bit_and (x / 2) ((x - 1) / 2) ≡ 0 = omega (arith, shared, e) in
          let none : bit_and (x / 2) (x / 2) ≡ 0 = rw before at halved in
          (0, ground (arith, same, none))
    ]
