-- ===== src/Check/Arenas/Rewrite.antt =====
-- After `--rewrite-log`, every lane reads as before.
use utils_kernel_ndctl_ndctl.Prelude.{
  ℕ, zero, suc, ◌+◌, ◌≤◌, ◌<◌, ◌≡◌, ◌≢◌, ◌⊎◌, refl, some, arith, length, get_elem?, set,
  get_elem?-set_self, get_elem?-set_ne, length-set, inl, inr, lt→ltb, sym, ◌∙◌, ap,
}
use utils_kernel_ndctl_ndctl.Check.Defs.{Host, ok, ArenaInfo, LogEntry, s0, Slot}
use utils_kernel_ndctl_ndctl.Check.Log.{btt_log_get_old, btt_log_read, btt_log_group_write}
use utils_kernel_ndctl_ndctl.Check.Log.Order.{btt_log_read_total}
use utils_kernel_ndctl_ndctl.Check.Arenas.{rewritten, rewrite_lanes, btt_rewrite_log}

-- What the log code relies on in the byte order: 0 and 1 are stored as they are.
pub record SmallAsIs (host : Host) : Type 0 where
  pub zero_as_is : host.le32_to_cpu 0 ≡ 0
  pub one_as_is : host.le32_to_cpu 1 ≡ 1

-- Lane `j` of `a'` reads as lane `j` of `a`, with the sequence number 1.
abbrev pub Reset : Host → ArenaInfo → ArenaInfo → ℕ → Type 0
Reset host a a' j =
    (e : LogEntry) × (btt_log_read host a j ≡ some e)
    × (btt_log_read host a' j ≡ some (record e { seq = 1 }))

module _ (host : Host) (law : SmallAsIs host) where
  -- Of a rewritten group the entry in slot 0 is the newer one.
  get_old-rewritten :
      (s : Slot) (e : LogEntry)
      → s ≢ s0
      → btt_log_get_old host s0 s (rewritten e) ≡ (1, rewritten e)
  unfolding btt_log_get_old
  get_old-rewritten Slot.s0 e ne = absurd (ne refl)
  get_old-rewritten Slot.s1 e ne = ground (arith, law.zero_as_is, law.one_as_is)
  get_old-rewritten Slot.s2 e ne = ground (arith, law.zero_as_is, law.one_as_is)
  get_old-rewritten Slot.s3 e ne = ground (arith, law.zero_as_is, law.one_as_is)

  read-rewritten :
      (a : ArenaInfo) (i : ℕ) (e : LogEntry)
      → a.log_index0 ≡ s0
      → a.log_index1 ≢ s0
      → get_elem? a.map.log i ≡ some (rewritten e)
      → btt_log_read host a i ≡ some (record e { seq = 1 })
  unfolding btt_log_read
  read-rewritten a i e first second at =
      rw at (rw first (rw (get_old-rewritten a.log_index1 e second)))

  -- One lane rewritten: it reads as before but for the sequence number, and no other lane changes.
  write_lane :
      (a : ArenaInfo) (i : ℕ) (e : LogEntry)
      → a.log_index0 ≡ s0
      → a.log_index1 ≢ s0
      → i < length a.map.log
      → (a' : ArenaInfo) × (btt_log_group_write a i (rewritten e) ≡ some a')
        × (btt_log_read host a' i ≡ some (record e { seq = 1 }))
        × ((j : ℕ) → j ≢ i → btt_log_read host a' j ≡ btt_log_read host a j)
        × (length a'.map.log ≡ length a.map.log)
        × (a' ≡ record a { map = record a.map { log = a'.map.log } })
  unfolding btt_log_group_write
  write_lane a i e first second l =
      let log' = set a.map.log i (rewritten e) in
      let a' = record a { map = record a.map { log = log' } } in
      (
        a',
        rw (lt→ltb i (length a.map.log) l),
        read-rewritten a' i e first second (get_elem?-set_self a.map.log i (rewritten e) l),
        λ j ne.
            unfold btt_log_read in
            rw (get_elem?-set_ne a.map.log i j (rewritten e) (λ p. ne (sym p))),
        length-set a.map.log i (rewritten e),
        refl,
      )

  rewrite_lanes_lem :
      (n i : ℕ) (a : ArenaInfo)
      → a.log_index0 ≡ s0
      → a.log_index1 ≢ s0
      → i + n ≤ length a.map.log
      → (a' : ArenaInfo) × (rewrite_lanes host n i a ≡ some a')
        × ((j : ℕ) → i ≤ j → j < i + n → Reset host a a' j)
        × ((j : ℕ) → (j < i) ⊎ (i + n ≤ j) → btt_log_read host a' j ≡ btt_log_read host a j)
        × (a' ≡ record a { map = record a.map { log = a'.map.log } })
  unfolding rewrite_lanes
  rewrite_lanes_lem zero i a first second room =
      (a, refl, λ j p q. absurd (omega arith), λ j p. refl, refl)
  rewrite_lanes_lem (suc n) i a first second room =
      let (e, read) = btt_log_read_total host a i (omega arith) in
      let (a1, w, now, others, len, same) = write_lane a i e first second (omega arith) in
      let (a2, r, reset, rest, same2) =
        rewrite_lanes_lem n (i + 1) a1 (ap (λ (x : ArenaInfo). x.log_index0) same ∙ first)
          (λ q. second (sym (ap (λ (x : ArenaInfo). x.log_index1) same) ∙ q))
          (omega (arith, len)) in
      (
        a2,
        rw read (rw w r),
        λ j p q. elim (same_or_later i j p) [
          | inl here ↦ rw (← here) (e, read, rest i (inl (omega arith)) ∙ now)
          | inr later ↦
              let (e', was, is) = reset j later (omega arith) in
              (e', sym (others j (λ x. omega arith)) ∙ was, is)
        ],
        λ j p.
            rest j (outside j p)
            ∙ others j (λ x. elim p [ inl y ↦ omega arith | inr y ↦ omega arith ]),
        same2 ∙ ap (λ (x : ArenaInfo). record x { map = record x.map { log = a2.map.log } }) same,
      )
    where
      same_or_later : (a b : ℕ) → a ≤ b → (a ≡ b) ⊎ (a + 1 ≤ b)
      same_or_later a b l = grind arith

      outside : (j : ℕ) → (j < i) ⊎ (i + suc n ≤ j) → (j < i + 1) ⊎ (i + 1 + n ≤ j)
      outside j (inl y) = inl (omega arith)
      outside j (inr y) = inr (omega arith)

-- On a byte order that stores 0 and 1 as they are, with the entries of a lane in slot 0 and another
-- one and with all lanes mapped, `btt_rewrite_log` returns 0, changes nothing but the log, and each
-- lane then reads as before but for its sequence number, which is 1.
pub btt_rewrite_log-Reset :
    (host : Host) (a : ArenaInfo)
    → SmallAsIs host
    → a.log_index0 ≡ s0
    → a.log_index1 ≢ s0
    → a.nfree ≤ length a.map.log
    → (a' : ArenaInfo) × (btt_rewrite_log host a ≡ some (ok, a'))
      × ((j : ℕ) → j < a.nfree → Reset host a a' j)
      × (a' ≡ record a { map = record a.map { log = a'.map.log } })
unfolding btt_rewrite_log
btt_rewrite_log-Reset host a law first second room =
    let (a', r, reset, rest, same) =
      rewrite_lanes_lem host law a.nfree 0 a first second (omega arith) in
    (a', rw r, λ j l. reset j (omega arith) (omega arith), same)
