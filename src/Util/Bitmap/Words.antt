-- ===== src/Util/Bitmap/Words.antt =====
-- Bit `i` of an array of words, and arrays whose words fit 64 bits.
use utils_kernel_ndctl_ndctl.Prelude.{
  ℕ, zero, suc, ◌/◌, ◌%◌, ◌^◌, ◌<◌, ◌≡◌, ◌≢◌, refl, some, none, List, [], ◌∷◌, ◌==◌, if◌then◌else◌,
  arith, length, get_elem?, set, replicate, ap, Bool-cases, inl, inr, Option, get_elem?-set_self,
  get_elem?-set_ne, get_elem?_total,
}
use utils_kernel_ndctl_ndctl.Prelude.Bits.{bit, bit-of_zero, bit-lt, bit_and-one}
use utils_kernel_ndctl_ndctl.Util.Bitmap.{test_bit}

abbrev bit_of : Option ℕ → ℕ → ℕ
bit_of none j = 0
bit_of (some w) j = bit w j

-- Bit `i` of the array; past its end there is none set.
unfoldable pub bit_at : List ℕ → ℕ → ℕ
bit_at m i = bit_of (get_elem? m (i / 64)) (i % 64)

-- Every word is a 64-bit word.
abbrev pub IsWords : List ℕ → Type 0
IsWords m = (p w : ℕ) → get_elem? m p ≡ some w → w < 2 ^ 64

pub bit_at-lt : (m : List ℕ) (i : ℕ) → bit_at m i < 2
unfolding bit_at
bit_at-lt m i = go (get_elem? m (i / 64))
  where
    go : (o : Option ℕ) → bit_of o (i % 64) < 2
    go none = omega arith
    go (some w) = bit-lt w (i % 64)

pub bit_at-word :
    (m : List ℕ) (i w : ℕ) → get_elem? m (i / 64) ≡ some w → bit_at m i ≡ bit w (i % 64)
unfolding bit_at
bit_at-word m i w e = rw e

-- A word written at `p` shows in the bits of that word only.
pub bit_at-set :
    (m : List ℕ) (p v i : ℕ)
    → p < length m
    → bit_at (set m p v) i ≡ (if i / 64 == p then bit v (i % 64) else bit_at m i)
unfolding bit_at
bit_at-set m p v i h = elim (Bool-cases (i / 64 == p)) [
  | inl e ↦ let e' : i / 64 ≡ p = ground arith in rw e (rw e' (rw (get_elem?-set_self m p v h)))
  | inr e ↦ let ne : p ≢ i / 64 = ground arith in rw e (rw (get_elem?-set_ne m p (i / 64) v ne))
]

pub set-IsWords : (m : List ℕ) (p v : ℕ) → IsWords m → v < 2 ^ 64 → IsWords (set m p v)
set-IsWords [] p v h f q w e = h q w e
set-IsWords (x ∷ m) zero v h f zero w e = ground arith
set-IsWords (x ∷ m) zero v h f (suc q) w e = h (suc q) w e
set-IsWords (x ∷ m) (suc p) v h f zero w e = h zero w e
set-IsWords (x ∷ m) (suc p) v h f (suc q) w e = set-IsWords m p v (λ r y k. h (suc r) y k) f q w e

-- Within the array `test_bit` reads bit `nr`.
pub test_bit-eq-bit_at :
    (nr : ℕ) (m : List ℕ) → nr / 64 < length m → test_bit nr m ≡ some (bit_at m nr)
unfolding test_bit bit_at
test_bit-eq-bit_at nr m h =
    let (w, e) = get_elem?_total m (nr / 64) h in rw e (ap some (bit_and-one w (nr % 64)))

-- A fresh bitmap has no bit set.
pub bit_at-replicate : (n i : ℕ) → bit_at (replicate n 0) i ≡ 0
unfolding bit_at
bit_at-replicate n i = go n (i / 64)
  where
    go : (n p : ℕ) → bit_of (get_elem? (replicate n 0) p) (i % 64) ≡ 0
    go zero p = refl
    go (suc n) zero = bit-of_zero (i % 64)
    go (suc n) (suc p) = go n p

pub replicate-IsWords : (n : ℕ) → IsWords (replicate n 0)
replicate-IsWords zero p w e = ground arith
replicate-IsWords (suc n) zero w e = ground arith
replicate-IsWords (suc n) (suc p) w e = replicate-IsWords n p w e
