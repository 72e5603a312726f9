-- ===== src/Check/Loop.antt =====
-- The `for` loops of the checker that stop at the first return code other than 0.
use utils_kernel_ndctl_ndctl.Prelude.{
  ℕ, zero, suc, ◌+◌, ◌≤◌, ◌<◌, ◌≡◌, refl, Option, none, some, arith, inl, inr, ◌⊎◌,
}
use utils_kernel_ndctl_ndctl.Check.Defs.{Rc, ok, errno, btt}

-- `rc = first; if (rc) return rc;` and then the rest.
abbrev pub unless_error : Rc → Option Rc → Option Rc
unless_error ok rest = rest
unless_error (errno e) rest = some (errno e)
unless_error (btt c) rest = some (btt c)

infixl 5 ◌>>ok◌
abbrev pub ◌>>ok◌ : Option Rc → Option Rc → Option Rc
none >>ok rest = none
some r >>ok rest = unless_error r rest

-- `for (i = first; i < first + n; i++) { rc = body(i); if (rc) return rc; }`
unfoldable pub each : ℕ → ℕ → (ℕ → Option Rc) → Option Rc
each zero i body = some ok
each (suc n) i body = let rest = each n (i + 1) body in body i >>ok rest

pub >>ok-eq-ok : (m rest : Option Rc) → (m >>ok rest) ≡ some ok → (m ≡ some ok) × (rest ≡ some ok)
>>ok-eq-ok none rest h = ground arith
>>ok-eq-ok (some ok) rest h = (refl, h)
>>ok-eq-ok (some (errno e)) rest h = ground arith
>>ok-eq-ok (some (btt c)) rest h = ground arith

-- The loop ends with 0 exactly if each round does.
pub each-ok :
    (n i : ℕ) (body : ℕ → Option Rc)
    → each n i body ≡ some ok
    → (j : ℕ) → i ≤ j
    → j < i + n
    → body j ≡ some ok
unfolding each
each-ok zero i body h j p q = absurd (omega arith)
each-ok (suc n) i body h j p q = elim (same_or_later i j p) [
  | inl e ↦ rw (← e) (>>ok-eq-ok (body i) (each n (i + 1) body) h).0
  | inr l ↦ each-ok n (i + 1) body (>>ok-eq-ok (body i) (each n (i + 1) body) h).1 j l (omega arith)
]
  where
    same_or_later : (a b : ℕ) → a ≤ b → (a ≡ b) ⊎ (a + 1 ≤ b)
    same_or_later a b l = grind arith

pub ok-each :
    (n i : ℕ) (body : ℕ → Option Rc)
    → ((j : ℕ) → i ≤ j → j < i + n → body j ≡ some ok)
    → each n i body ≡ some ok
unfolding each
ok-each zero i body h = refl
ok-each (suc n) i body h =
    rw (h i (omega arith) (omega arith))
      (ok-each n (i + 1) body (λ j p q. h j (omega arith) (omega arith)))

-- If no round faults, the loop does not.
pub each_total :
    (n i : ℕ) (body : ℕ → Option Rc)
    → ((j : ℕ) → i ≤ j → j < i + n → (r : Rc) × (body j ≡ some r))
    → (r : Rc) × (each n i body ≡ some r)
unfolding each
each_total zero i body h = (ok, refl)
each_total (suc n) i body h =
    let (r, e) = h i (omega arith) (omega arith) in
    let (t, f) = each_total n (i + 1) body (λ j p q. h j (omega arith) (omega arith)) in
    rw e (go r t f)
  where
    go :
        (r t : Rc)
        → each n (i + 1) body ≡ some t
        → (u : Rc) × (unless_error r (each n (i + 1) body) ≡ some u)
    go ok t f = (t, f)
    go (errno c) t f = (errno c, refl)
    go (btt c) t f = (btt c, refl)
