-- ===== src/Check/Blocks/Decide.antt =====
-- `btt_check_bitmap` decides whether every internal block is referenced exactly once.
use utils_kernel_ndctl_ndctl.Prelude.{
  ℕ, ◌+◌, ◌-◌, ◌*◌, ◌/◌, ◌≤◌, ◌<◌, ◌≡◌, ◌⊎◌, refl, true, false, some, ◌>>=◌, if◌then◌else◌, arith,
  inl, inr, List, length, Bool, replicate, length-replicate,
}
use utils_kernel_ndctl_ndctl.Prelude.Pigeons.{Distinct}
use utils_kernel_ndctl_ndctl.Util.Bitmap.{bitmap_alloc, bitmap_full}
use utils_kernel_ndctl_ndctl.Util.Bitmap.Words.{
  bit_at, IsWords, bit_at-replicate, replicate-IsWords,
}
use utils_kernel_ndctl_ndctl.Util.Bitmap.Find.{bitmap_full_lem}
use utils_kernel_ndctl_ndctl.Check.Defs.{Rc, ok, btt, bitmap_error, ArenaInfo}
use utils_kernel_ndctl_ndctl.Check.Map.{Env, btt_map_lookup}
use utils_kernel_ndctl_ndctl.Check.Blocks.{free_block, after_log, mark_log, btt_check_bitmap}
use utils_kernel_ndctl_ndctl.Check.Blocks.Marks.{AllNew, MarkResult, mark_lem}
use utils_kernel_ndctl_ndctl.Check.Blocks.Once.{
  referenced, ExactlyOnce, Distinct-ExactlyOnce, ExactlyOnce-Distinct, Repeats-not-Distinct,
  later_Repeats-not-Distinct, both_Distinct, both_marked,
}

-- `val` gives the block of each of the references of `a`, all of them internal blocks, and there are
-- as many references as internal blocks.
pub record Refers (env : Env) (a : ArenaInfo) (val : ℕ → ℕ) : Type 0 where
  pub reads : (i : ℕ) → i < a.internal_nlba → referenced env.host a i ≡ some (val i)
  pub in_bounds : (i : ℕ) → i < a.internal_nlba → val i < a.internal_nlba
  pub count : a.external_nlba + a.nfree ≡ a.internal_nlba
  pub some_free : 0 < a.nfree
  pub memory : env.memory ≡ true

-- The return code, and what it tells.
abbrev pub Verdict : ArenaInfo → (ℕ → ℕ) → Rc → Type 0
Verdict a val r =
    ((r ≡ ok) × ExactlyOnce a.internal_nlba val)
    ⊎ ((r ≡ btt bitmap_error) × (¬ ExactlyOnce a.internal_nlba val))

module _ (env : Env) (a : ArenaInfo) (val : ℕ → ℕ) (h : Refers env a val) where
  map_reads : (j : ℕ) → j < a.external_nlba → btt_map_lookup env.host a j ≡ some (val j)
  map_reads j l = unfold referenced in ground (arith, h.reads j (omega (arith, h.count)))

  log_reads : (j : ℕ) → j < a.nfree → free_block env.host a j ≡ some (val (a.external_nlba + j))
  log_reads j l =
      let place : a.external_nlba + j - a.external_nlba ≡ j = omega arith in
      unfold referenced in
      ground (arith, place, h.reads (a.external_nlba + j) (omega (arith, h.count)))

  not_once : ¬ Distinct (a.external_nlba + a.nfree) val → ¬ ExactlyOnce a.internal_nlba val
  not_once n once = n (rw h.count (ExactlyOnce-Distinct a.internal_nlba val h.in_bounds once))

  after_log-Verdict :
      (bm : List ℕ)
      → IsWords bm
      → a.internal_nlba ≤ 64 * length bm
      → Distinct (a.external_nlba + a.nfree) val
      → ((i : ℕ) → i < a.external_nlba + a.nfree → bit_at bm (val i) ≡ 1)
      → (r : Rc) × ((do full ← bitmap_full bm a.internal_nlba; some (after_log a full)) ≡ some r)
        × Verdict a val r
  unfolding after_log
  after_log-Verdict bm words room d marked =
      let (b, e, exact) = bitmap_full_lem bm a.internal_nlba words room in
      let once = Distinct-ExactlyOnce a.internal_nlba val h.in_bounds (rw h.count at d) in
      let all_set : b ≡ true =
        exact.1
          (λ i l. let (k, m, at, _) = once i (omega arith) in rw at at (marked k (rw h.count m))) in
      (ok, rw e (rw all_set (ground (arith, h.some_free))), inl (refl, once))

  abbrev log_val : ℕ → ℕ
  log_val j = val (a.external_nlba + j)

  -- The second loop and the end, after a first loop that met no block twice.
  mark_log-Verdict :
      (bm0 bm1 : List ℕ)
      → ((c : ℕ) → bit_at bm0 c ≡ 0)
      → IsWords bm1
      → a.internal_nlba ≤ 64 * length bm1
      → AllNew val 0 a.external_nlba bm0 bm1
      → (r : Rc) × (mark_log env a (true, bm1) ≡ some r) × Verdict a val r
  unfolding mark_log
  mark_log-Verdict bm0 bm1 clear words room first =
      let (t, bm2, e, words2, len2, res) =
        mark_lem (free_block env.host a) log_val a.internal_nlba a.nfree log_reads
          (λ j l. h.in_bounds (a.external_nlba + j) (omega (arith, h.count))) a.nfree 0 bm1
          (omega arith) words room in
      rw e (go t bm2 words2 len2 res)
    where
      go :
          (t : Bool) (bm2 : List ℕ)
          → IsWords bm2
          → length bm2 ≡ length bm1
          → MarkResult log_val 0 a.nfree bm1 t bm2
          → (r : Rc) × ((if t
                then (do full ← bitmap_full bm2 a.internal_nlba; some (after_log a full))
                else some (btt bitmap_error))
              ≡ some r)
            × Verdict a val r
      go false bm2 words2 len2 res = (
        btt bitmap_error,
        refl,
        inr (
          refl,
          not_once (later_Repeats-not-Distinct a.external_nlba a.nfree val bm0 bm1 clear first res),
        ),
      )
      go true bm2 words2 len2 res =
          after_log-Verdict bm2 words2 (omega (arith, room, len2))
            (both_Distinct a.external_nlba a.nfree val bm0 bm1 clear first bm2 res)
            (both_marked a.external_nlba a.nfree val bm0 bm1 clear first bm2 res)

-- For an arena whose references are in bounds and as many as its internal blocks, with a log of at
-- least one lane and memory for the bitmap, `btt_check_bitmap` returns: 0 when every internal block
-- is referenced exactly once by the map and the log together, and `BTT_BITMAP_ERROR` when not.
pub btt_check_bitmap-Verdict :
    (env : Env) (a : ArenaInfo) (val : ℕ → ℕ)
    → Refers env a val
    → (r : Rc) × (btt_check_bitmap env a ≡ some r) × Verdict a val r
unfolding btt_check_bitmap
btt_check_bitmap-Verdict env a val h =
    let count = (a.internal_nlba + 63) / 64 in
    let bm0 : List ℕ = replicate count 0 in
    let room : a.internal_nlba ≤ 64 * length bm0 =
      omega (arith, length-replicate {A = ℕ} count 0) in
    let (t, bm1, e, words1, len1, res) =
      mark_lem (btt_map_lookup env.host a) val a.internal_nlba a.external_nlba
        (map_reads env a val h) (λ j l. h.in_bounds j (omega (arith, h.count))) a.external_nlba 0
        bm0 (omega arith) (replicate-IsWords count) room in
    let alloc : bitmap_alloc env.memory a.internal_nlba ≡ some bm0 =
      unfold bitmap_alloc in rw h.memory in
    rw alloc
      (rw e (go bm0 (λ c. bit_at-replicate count c) t bm1 words1 (omega (arith, room, len1)) res))
  where
    go :
        (bm0 : List ℕ)
        → ((c : ℕ) → bit_at bm0 c ≡ 0)
        → (t : Bool) (bm1 : List ℕ) → IsWords bm1
        → a.internal_nlba ≤ 64 * length bm1
        → MarkResult val 0 a.external_nlba bm0 t bm1
        → (r : Rc) × (mark_log env a (t, bm1) ≡ some r) × Verdict a val r
    go bm0 clear true bm1 words room res = mark_log-Verdict env a val h bm0 bm1 clear words room res
    go bm0 clear false bm1 words room res = (
      btt bitmap_error,
      unfold mark_log in refl,
      inr (
        refl,
        not_once env a val h (λ d.
            Repeats-not-Distinct a.external_nlba val bm0 clear res
              (λ i j l k. d i j l (omega arith))),
      ),
    )
