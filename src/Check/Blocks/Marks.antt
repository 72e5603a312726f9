-- ===== src/Check/Blocks/Marks.antt =====
-- One loop of `btt_check_bitmap`: it goes on exactly while the blocks are new.
use utils_kernel_ndctl_ndctl.Prelude.{
  ℕ, zero, suc, ◌+◌, ◌*◌, ◌/◌, ◌≤◌, ◌<◌, ◌≡◌, ◌≢◌, ◌⊎◌, ◌==◌, refl, true, false, some, arith,
  Bool-cases, inl, inr, List, length, Option, ◌∙◌, Bool,
}
use utils_kernel_ndctl_ndctl.Util.Bitmap.Words.{bit_at, bit_at-lt, IsWords, test_bit-eq-bit_at}
use utils_kernel_ndctl_ndctl.Util.Bitmap.Fill.{Ranged, bitmap_set-Ranged}
use utils_kernel_ndctl_ndctl.Check.Blocks.{mark}

-- What a loop over the places `i` to `hi - 1` leaves when every block was new: it has marked those
-- blocks, and no two of them are one.
pub record AllNew (val : ℕ → ℕ) (i hi : ℕ) (bm bm' : List ℕ) : Type 0 where
  pub were_clear : (j : ℕ) → i ≤ j → j < hi → bit_at bm (val j) ≡ 0
  pub differ : (j k : ℕ) → i ≤ j → j < k → k < hi → val j ≢ val k
  pub marked : (j : ℕ) → i ≤ j → j < hi → bit_at bm' (val j) ≡ 1
  pub kept : (c : ℕ) → bit_at bm c ≡ 1 → bit_at bm' c ≡ 1
  pub only :
      (c : ℕ) → bit_at bm' c ≡ 1 → (bit_at bm c ≡ 1) ⊎ ((j : ℕ) × (i ≤ j) × (j < hi) × (val j ≡ c))

-- Why a loop stops: a block was marked before it, or earlier in it.
abbrev pub Repeats : (ℕ → ℕ) → ℕ → ℕ → List ℕ → Type 0
Repeats val i hi bm =
    (j : ℕ) × (i ≤ j)
    × (j < hi)
    × ((bit_at bm (val j) ≡ 1) ⊎ ((k : ℕ) × (i ≤ k) × (k < j) × (val k ≡ val j)))

abbrev pub MarkResult : (ℕ → ℕ) → ℕ → ℕ → List ℕ → Bool → List ℕ → Type 0
MarkResult val i hi bm true bm' = AllNew val i hi bm bm'
MarkResult val i hi bm false bm' = Repeats val i hi bm

same_or_later : (a b : ℕ) → a ≤ b → (a ≡ b) ⊎ (a + 1 ≤ b)
same_or_later a b l = grind arith

-- A first block that was new, then the rest of the loop.
cons-MarkResult :
    (val : ℕ → ℕ) (i hi : ℕ) (bm bm1 bm2 : List ℕ) (t : Bool)
    → i < hi
    → bit_at bm (val i) ≡ 0
    → Ranged 1 bm (val i) 1 bm1
    → MarkResult val (i + 1) hi bm1 t bm2
    → MarkResult val i hi bm t bm2
cons-MarkResult val i hi bm bm1 bm2 true l clear r rest = record {
  were_clear = λ j p q. elim (same_or_later i j p) [
    | inl e ↦ rw (← e) clear
    | inr p' ↦ ground (arith, rest.were_clear j p' q, r.bits (val j))
  ];
  differ = λ j k p q s. elim (same_or_later i j p) [
    | inl e ↦ rw (← e) (λ same.
        let after : i + 1 ≤ k = omega arith in
        ground (arith, rest.were_clear k after s, r.bits (val k), same))
    | inr p' ↦ rest.differ j k p' q s
  ];
  marked = λ j p q. elim (same_or_later i j p) [
    | inl e ↦ rw (← e) (rest.kept (val i) (ground (arith, r.bits (val i))))
    | inr p' ↦ rest.marked j p' q
  ];
  kept = λ c h. rest.kept c (ground (arith, r.bits c));
  only = λ c h. elim (rest.only c h) [
    | inl before ↦ elim (Bool-cases (val i == c)) [
      | inl here ↦ inr (i, omega arith, l, ground arith)
      | inr other ↦ inl (ground (arith, r.bits c))
    ]
    | inr (j, p, q, e) ↦ inr (j, omega arith, q, e)
  ];
}
cons-MarkResult val i hi bm bm1 bm2 false l clear r (j, p, q, inr (k, s, u, e)) =
    (j, omega arith, q, inr (k, omega arith, u, e))
cons-MarkResult val i hi bm bm1 bm2 false l clear r (j, p, q, inl h) =
    elim (Bool-cases (val i == val j)) [
      | inl same ↦ (j, omega arith, q, inr (i, omega arith, omega arith, ground arith))
      | inr other ↦ (j, omega arith, q, inl (ground (arith, r.bits (val j))))
    ]

module _ (block : ℕ → Option ℕ) (val : ℕ → ℕ) (size hi : ℕ)
    (reads : (j : ℕ) → j < hi → block j ≡ some (val j))
    (bound : (j : ℕ) → j < hi → val j < size) where
  -- The loop never leaves the bitmap.
  pub mark_lem :
      (n i : ℕ) (bm : List ℕ)
      → i + n ≡ hi
      → IsWords bm
      → size ≤ 64 * length bm
      → (t : Bool) × (bm' : List ℕ) × (mark block n i bm ≡ some (t, bm'))
        × IsWords bm'
        × (length bm' ≡ length bm)
        × MarkResult val i hi bm t bm'
  unfolding mark
  mark_lem zero i bm e words room = (
    true,
    bm,
    refl,
    words,
    refl,
    record {
      were_clear = λ j p q. absurd (omega arith);
      differ = λ j k p q s. absurd (omega arith);
      marked = λ j p q. absurd (omega arith);
      kept = λ c h. h;
      only = λ c h. inl h;
    },
  )
  mark_lem (suc n) i bm e words room =
      let inside = bound i (omega arith) in
      let place : val i / 64 < length bm = omega arith in
      elim (Bool-cases (bit_at bm (val i) == 0)) [
        | inl new ↦
            let (bm1, s, r) = bitmap_set-Ranged bm (val i) 1 words (omega arith) in
            let (t, bm2, m, w, len, res) =
              mark_lem n (i + 1) bm1 (omega arith) r.words (omega (arith, r.same_length)) in
            (
              t,
              bm2,
              rw (reads i (omega arith))
                  (rw (test_bit-eq-bit_at (val i) bm place) (rw new (rw s m))),
              w,
              len ∙ r.same_length,
              cons-MarkResult val i hi bm bm1 bm2 t (omega arith) (ground arith) r res,
            )
        | inr seen ↦ (
          false,
          bm,
          rw (reads i (omega arith)) (rw (test_bit-eq-bit_at (val i) bm place) (rw seen)),
          words,
          refl,
          (i, omega arith, omega arith, inl (ground (arith, bit_at-lt bm (val i)))),
        )
      ]
