-- ===== src/Prelude/Buffers.antt =====
-- Buffers of bytes or words: lists that are read and written at an offset, by native numbers.
pub mod Between
use utils_kernel_ndctl_ndctl.Prelude.{
  ℕ, zero, suc, ◌+◌, ◌-◌, ◌≤◌, ◌≡◌, refl, ap, List, [], ◌∷◌, ◌++◌, Option, some, none, length,
  length-append, get_elem?, leb, ltb, ◌&&◌, if◌then◌else◌, arith,
}

module _ {ℓ} {A : Type ℓ} where
  abbrev pub take : ℕ → List A → List A
  take zero xs = []
  take (suc n) [] = []
  take (suc n) (x ∷ xs) = x ∷ take n xs

  abbrev pub drop : ℕ → List A → List A
  drop zero xs = xs
  drop (suc n) [] = []
  drop (suc n) (x ∷ xs) = drop n xs

  -- `memcpy` from a buffer and to it; `none` is an access behind its end.
  unfoldable pub read_at : ℕ → ℕ → List A → Option (List A)
  read_at offset len buf =
      if leb (offset + len) (length buf) then some (take len (drop offset buf)) else none

  abbrev pub overwrite : ℕ → List A → List A → List A
  overwrite zero [] buf = buf
  overwrite zero (b ∷ bytes) [] = []
  overwrite zero (b ∷ bytes) (x ∷ buf) = b ∷ overwrite zero bytes buf
  overwrite (suc n) bytes [] = []
  overwrite (suc n) bytes (x ∷ buf) = x ∷ overwrite n bytes buf

  unfoldable pub write_at : ℕ → List A → List A → Option (List A)
  write_at offset bytes buf =
      if leb (offset + length bytes) (length buf) then some (overwrite offset bytes buf) else none

  pub length-take : (n : ℕ) (xs : List A) → n ≤ length xs → length (take n xs) ≡ n
  length-take zero xs h = refl
  length-take (suc n) [] h = elim h [ ]
  length-take (suc n) (x ∷ xs) h = ap suc (length-take n xs (omega arith))

  pub length-drop : (n : ℕ) (xs : List A) → length (drop n xs) ≡ length xs - n
  length-drop zero xs = omega arith
  length-drop (suc n) [] = omega arith
  length-drop (suc n) (x ∷ xs) = omega (arith, length-drop n xs)

  pub take-append-drop : (n : ℕ) (xs : List A) → take n xs ++ drop n xs ≡ xs
  take-append-drop zero xs = refl
  take-append-drop (suc n) [] = refl
  take-append-drop (suc n) (x ∷ xs) = ap (λ l. x ∷ l) (take-append-drop n xs)

  -- A buffer whose first `n` entries were copied from another one.
  abbrev pub copied : ℕ → List A → List A → List A
  copied n src dst = take n src ++ drop n dst

  pub length-copied :
      (n : ℕ) (src dst : List A)
      → n ≤ length src
      → n ≤ length dst
      → length (copied n src dst) ≡ length dst
  length-copied n src dst p q =
      omega (arith, length-append (take n src) (drop n dst), length-take n src p, length-drop n dst)

  overwrite_first :
      (k : ℕ) (src dst : List A)
      → k ≤ length src
      → k ≤ length dst
      → overwrite zero (take k src) dst ≡ copied k src dst
  overwrite_first zero src dst p q = refl
  overwrite_first (suc k) [] dst p q = elim p [ ]
  overwrite_first (suc k) (x ∷ src) [] p q = elim q [ ]
  overwrite_first (suc k) (x ∷ src) (y ∷ dst) p q =
      ap (λ l. x ∷ l) (overwrite_first k src dst (omega arith) (omega arith))

  -- The next `k` entries of `src`, written behind those that were copied before.
  pub overwrite-copied :
      (n k : ℕ) (src dst : List A)
      → n + k ≤ length src
      → n + k ≤ length dst
      → overwrite n (take k (drop n src)) (copied n src dst) ≡ copied (n + k) src dst
  overwrite-copied zero k src dst p q =
      let e : 0 + k ≡ k = omega arith in
      rw e (overwrite_first k src dst (omega arith) (omega arith))
  overwrite-copied (suc n) k [] dst p q = absurd (omega arith)
  overwrite-copied (suc n) k (x ∷ src) [] p q = absurd (omega arith)
  overwrite-copied (suc n) k (x ∷ src) (y ∷ dst) p q =
      let e : suc n + k ≡ suc (n + k) = omega arith in
      rw e (ap (λ l. x ∷ l) (overwrite-copied n k src dst (omega arith) (omega arith)))

  pub length-overwrite : (n : ℕ) (bytes buf : List A) → length (overwrite n bytes buf) ≡ length buf
  length-overwrite zero [] buf = refl
  length-overwrite zero (b ∷ bytes) [] = refl
  length-overwrite zero (b ∷ bytes) (x ∷ buf) = ap suc (length-overwrite zero bytes buf)
  length-overwrite (suc n) bytes [] = refl
  length-overwrite (suc n) bytes (x ∷ buf) = ap suc (length-overwrite n bytes buf)

  pub read_at_lem :
      (offset len : ℕ) (buf : List A)
      → offset + len ≤ length buf
      → read_at offset len buf ≡ some (take len (drop offset buf))
  unfolding read_at
  read_at_lem offset len buf h = ground arith

  pub take_all : (n : ℕ) (xs : List A) → length xs ≤ n → take n xs ≡ xs
  take_all zero [] h = refl
  take_all zero (x ∷ xs) h = elim h [ ]
  take_all (suc n) [] h = refl
  take_all (suc n) (x ∷ xs) h = ap (λ l. x ∷ l) (take_all n xs (omega arith))

  pub length-slice :
      (offset k : ℕ) (xs : List A) → offset + k ≤ length xs → length (take k (drop offset xs)) ≡ k
  length-slice offset k xs h =
      let n = length-drop offset xs in length-take k (drop offset xs) (omega (arith, n))

  -- All of a buffer.
  pub read_at-whole : (k : ℕ) (xs : List A) → length xs ≡ k → read_at 0 k xs ≡ some xs
  read_at-whole k xs e = rw (read_at_lem 0 k xs (omega arith), take_all k xs (omega arith)) refl

  pub write_at_lem :
      (offset : ℕ) (bytes buf : List A)
      → offset + length bytes ≤ length buf
      → write_at offset bytes buf ≡ some (overwrite offset bytes buf)
  unfolding write_at
  write_at_lem offset bytes buf h = ground arith

module _ {A : Type 0} where
  -- Where an entry comes from.
  pub get_elem?-copied :
      (n : ℕ) (src dst : List A) (i : ℕ)
      → n ≤ length src
      → n ≤ length dst
      → get_elem? (copied n src dst) i ≡ (if ltb i n then get_elem? src i else get_elem? dst i)
  get_elem?-copied zero src dst i p q = ground arith
  get_elem?-copied (suc n) [] dst i p q = elim p [ ]
  get_elem?-copied (suc n) (x ∷ src) [] i p q = elim q [ ]
  get_elem?-copied (suc n) (x ∷ src) (y ∷ dst) zero p q = ground arith
  get_elem?-copied (suc n) (x ∷ src) (y ∷ dst) (suc i) p q =
      ground (arith, get_elem?-copied n src dst i)

  pub get_elem?-overwrite :
      (n : ℕ) (bytes buf : List A) (i : ℕ)
      → n + length bytes ≤ length buf
      → get_elem? (overwrite n bytes buf) i
        ≡ (if leb n i && ltb i (n + length bytes) then get_elem? bytes (i - n) else get_elem? buf i)
  get_elem?-overwrite zero [] buf i h = ground arith
  get_elem?-overwrite zero (b ∷ bytes) [] i h = absurd (omega arith)
  get_elem?-overwrite zero (b ∷ bytes) (x ∷ buf) zero h = ground arith
  get_elem?-overwrite zero (b ∷ bytes) (x ∷ buf) (suc i) h =
      let same : suc i - 0 ≡ suc i = omega arith in
      let same' : i - 0 ≡ i = omega arith in
      ground (
        arith,
        ap (get_elem? (b ∷ bytes)) same,
        ap (get_elem? bytes) same',
        get_elem?-overwrite zero bytes buf i,
      )
  get_elem?-overwrite (suc n) bytes [] i h = absurd (omega arith)
  get_elem?-overwrite (suc n) bytes (x ∷ buf) zero h = ground arith
  get_elem?-overwrite (suc n) bytes (x ∷ buf) (suc i) h =
      let same : suc i - suc n ≡ i - n = omega arith in
      ground (arith, ap (get_elem? bytes) same, get_elem?-overwrite n bytes buf i)
