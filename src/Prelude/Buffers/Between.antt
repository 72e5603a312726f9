-- ===== src/Prelude/Buffers/Between.antt =====
-- A part of a buffer between two others, read and written.
use utils_kernel_ndctl_ndctl.Prelude.{
  ℕ, zero, suc, ◌+◌, ◌≤◌, ◌≡◌, refl, ap, List, [], ◌∷◌, ◌++◌, some, length, length-append, arith,
}
use utils_kernel_ndctl_ndctl.Prelude.Buffers.{
  copied, take_all, take, drop, read_at, write_at, read_at_lem, write_at_lem, overwrite,
}

module _ {ℓ} {A : Type ℓ} where
  pub append_assoc : (xs ys zs : List A) → (xs ++ ys) ++ zs ≡ xs ++ (ys ++ zs)
  append_assoc [] ys zs = refl
  append_assoc (x ∷ xs) ys zs = ap (λ l. x ∷ l) (append_assoc xs ys zs)

  pub drop-append : (xs ys : List A) → drop (length xs) (xs ++ ys) ≡ ys
  drop-append [] ys = refl
  drop-append (x ∷ xs) ys = drop-append xs ys

  pub take-append : (xs ys : List A) → take (length xs) (xs ++ ys) ≡ xs
  take-append [] ys = refl
  take-append (x ∷ xs) ys = ap (λ l. x ∷ l) (take-append xs ys)

  overwrite_start :
      (new old post : List A)
      → length new ≡ length old
      → overwrite zero new (old ++ post) ≡ new ++ post
  overwrite_start [] [] [] e = refl
  overwrite_start [] [] (x ∷ post) e = refl
  overwrite_start [] (y ∷ old) post e = absurd (omega arith)
  overwrite_start (x ∷ new) [] post e = absurd (omega arith)
  overwrite_start (x ∷ new) (y ∷ old) post e =
      ap (λ l. x ∷ l) (overwrite_start new old post (omega arith))

  overwrite-between :
      (pre new old post : List A)
      → length new ≡ length old
      → overwrite (length pre) new (pre ++ (old ++ post)) ≡ pre ++ (new ++ post)
  overwrite-between [] new old post e = overwrite_start new old post e
  overwrite-between (x ∷ pre) new old post e =
      ap (λ l. x ∷ l) (overwrite-between pre new old post e)

  pub read_at-between :
      (offset len : ℕ) (pre mid post : List A)
      → offset ≡ length pre
      → len ≡ length mid
      → read_at offset len (pre ++ (mid ++ post)) ≡ some mid
  read_at-between offset len pre mid post at many =
      let whole = length-append pre (mid ++ post) in
      let part = length-append mid post in
      rw
        (
          at,
          many,
          read_at_lem (length pre) (length mid) (pre ++ (mid ++ post)) (omega arith),
          drop-append pre (mid ++ post),
          take-append mid post,
        )
        refl

  pub write_at-between :
      (offset : ℕ) (pre new old post : List A)
      → offset ≡ length pre
      → length new ≡ length old
      → write_at offset new (pre ++ (old ++ post)) ≡ some (pre ++ (new ++ post))
  write_at-between offset pre new old post at e =
      let whole = length-append pre (old ++ post) in
      let part = length-append old post in
      rw
        (
          at,
          write_at_lem (length pre) new (pre ++ (old ++ post)) (omega arith),
          overwrite-between pre new old post e,
        )
        refl

  -- A part that is written where it was read changes nothing.
  pub overwrite_same :
      (offset k : ℕ) (xs : List A)
      → offset + k ≤ length xs
      → overwrite offset (take k (drop offset xs)) xs ≡ xs
  overwrite_same zero zero xs h = refl
  overwrite_same zero (suc k) [] h = absurd (omega arith)
  overwrite_same zero (suc k) (x ∷ xs) h = ap (λ l. x ∷ l) (overwrite_same zero k xs (omega arith))
  overwrite_same (suc n) k [] h = absurd (omega arith)
  overwrite_same (suc n) k (x ∷ xs) h = ap (λ l. x ∷ l) (overwrite_same n k xs (omega arith))

  drop_all : (n : ℕ) (xs : List A) → length xs ≤ n → drop n xs ≡ []
  drop_all zero [] h = refl
  drop_all zero (x ∷ xs) h = elim h [ ]
  drop_all (suc n) [] h = refl
  drop_all (suc n) (x ∷ xs) h = drop_all n xs (omega arith)

  append_nothing : (xs : List A) → xs ++ [] ≡ xs
  append_nothing [] = refl
  append_nothing (x ∷ xs) = ap (λ l. x ∷ l) (append_nothing xs)

  pub copied_whole :
      (n : ℕ) (src dst : List A) → length src ≡ n → length dst ≡ n → copied n src dst ≡ src
  copied_whole n src dst p q =
      rw (take_all n src (omega arith), drop_all n dst (omega arith)) (append_nothing src)

  nothing_left : (k : ℕ) → drop {A = A} k [] ≡ []
  nothing_left zero = refl
  nothing_left (suc k) = refl

  pub drop-drop : (n k : ℕ) (xs : List A) → drop k (drop n xs) ≡ drop (n + k) xs
  drop-drop zero k xs = let e : 0 + k ≡ k = omega arith in rw e refl
  drop-drop (suc n) k [] = let e : suc n + k ≡ suc (n + k) = omega arith in rw e (nothing_left k)
  drop-drop (suc n) k (x ∷ xs) =
      let e : suc n + k ≡ suc (n + k) = omega arith in rw e (drop-drop n k xs)

  pub copied_start : (n : ℕ) (src dst : List A) → length dst ≤ n → copied n src dst ≡ take n src
  copied_start n src dst h = rw (drop_all n dst h) (append_nothing (take n src))
