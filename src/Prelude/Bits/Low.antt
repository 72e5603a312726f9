-- ===== src/Prelude/Bits/Low.antt =====
-- One binary digit of `&`, `|` and `^`: the fuel of the digit recursion does not matter.
use Prim.Native.Nat.{
  ℕ, zero, suc, ◌+◌, ◌-◌, ◌*◌, ◌/◌, ◌%◌, ◌≤◌, ◌<◌, min, max, bit_and, bit_or, bit_xor, digits,
  bitwise, differ,
}
use Prim.Native.Nat.{bit_and-bitwise, bit_or-bitwise, bit_xor-bitwise}
use mathlib.Core.Path.{◌≡◌, refl, sym}
use native.Mathlib.Omega.{arith}

-- A unit of fuel past the number itself changes nothing, nor do `k` of them.
spare_unit :
    (at_end : ℕ → ℕ) (digit : ℕ → ℕ → ℕ) (f x y : ℕ)
    → x ≤ f
    → digits at_end digit (suc f) x y ≡ digits at_end digit f x y
spare_unit at_end digit zero zero y below = refl
spare_unit at_end digit zero (suc x) y below = elim below [ ]
spare_unit at_end digit (suc f) zero y below = refl
spare_unit at_end digit (suc f) (suc x) y below =
    rw (spare_unit at_end digit f (suc x / 2) (y / 2) (omega arith))

spare :
    (at_end : ℕ → ℕ) (digit : ℕ → ℕ → ℕ) (k x y : ℕ)
    → digits at_end digit (k + x) x y ≡ digits at_end digit x x y
spare at_end digit zero x y = let none : 0 + x ≡ x = omega arith in rw none refl
spare at_end digit (suc k) x y =
    let one : suc k + x ≡ suc (k + x) = omega arith in
    rw (one, spare_unit at_end digit (k + x) x y (omega arith)) (spare at_end digit k x y)

-- The lowest digit apart.
lowest :
    (at_end : ℕ → ℕ) (digit : ℕ → ℕ → ℕ) (x y : ℕ)
    → bitwise at_end digit (suc x) y
      ≡ 2 * bitwise at_end digit (suc x / 2) (y / 2) + digit (suc x % 2) (y % 2)
lowest at_end digit x y =
    let fuel : x ≡ x - suc x / 2 + suc x / 2 = omega arith in
    let enough = spare at_end digit (x - suc x / 2) (suc x / 2) (y / 2) in
    omega (arith, rw (sym fuel) at enough)

pub bit_or_low : (x y : ℕ) → bit_or x y ≡ 2 * bit_or (x / 2) (y / 2) + max (x % 2) (y % 2)
bit_or_low zero y = rw (bit_or-bitwise, bit_or-bitwise) (omega arith)
bit_or_low (suc x) y = rw (bit_or-bitwise, bit_or-bitwise) (lowest (λ t. t) max x y)

pub bit_and_low : (x y : ℕ) → bit_and x y ≡ 2 * bit_and (x / 2) (y / 2) + min (x % 2) (y % 2)
bit_and_low zero y = rw (bit_and-bitwise, bit_and-bitwise) (omega arith)
bit_and_low (suc x) y = rw (bit_and-bitwise, bit_and-bitwise) (lowest (λ t. 0) min x y)

differ_digits : (x y : ℕ) → x < 2 → y < 2 → differ x y ≡ (x + y) % 2
differ_digits zero y p q = omega arith
differ_digits (suc zero) zero p q = refl
differ_digits (suc zero) (suc zero) p q = refl
differ_digits (suc zero) (suc (suc y)) p q = absurd (omega arith)
differ_digits (suc (suc x)) y p q = absurd (omega arith)

pub bit_xor_low : (a b : ℕ) → bit_xor a b ≡ 2 * bit_xor (a / 2) (b / 2) + (a % 2 + b % 2) % 2
bit_xor_low zero b = simp bit_xor-bitwise (omega arith)
bit_xor_low (suc a) b = simp bit_xor-bitwise (
    omega (
      arith,
      lowest (λ y. y) differ a b,
      differ_digits (suc a % 2) (b % 2) (omega arith) (omega arith),
    ))

-- Halving goes through the operations.
pub half-bit_and : (a b : ℕ) → bit_and a b / 2 ≡ bit_and (a / 2) (b / 2)
half-bit_and a b = omega (arith, bit_and_low a b)

pub half-bit_or : (a b : ℕ) → bit_or a b / 2 ≡ bit_or (a / 2) (b / 2)
half-bit_or a b = omega (arith, bit_or_low a b)

pub half-bit_xor : (a b : ℕ) → bit_xor a b / 2 ≡ bit_xor (a / 2) (b / 2)
half-bit_xor a b = omega (arith, bit_xor_low a b)
