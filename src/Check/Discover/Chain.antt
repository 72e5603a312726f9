-- ===== src/Check/Discover/Chain.antt =====
-- `btt_discover_arenas` ends, and the arenas that it finds are a chain.
use utils_kernel_ndctl_ndctl.Prelude.{
  ℕ, zero, suc, ◌+◌, ◌≤◌, ◌<◌, ◌≡◌, ◌≢◌, refl, sym, ap, ◌∙◌, Bool, true, false, Option, some, List,
  [], ◌∷◌, ◌==◌, arith, if-cases, inl, inr, length, ◌⊎◌,
}
use utils_kernel_ndctl_ndctl.Check.Defs.{Host, Rc, ok, errno, btt, enomem, BttSb, ArenaInfo}
use utils_kernel_ndctl_ndctl.Check.Meta.{sub32, parse_counts, parse_offsets, btt_parse_meta}
use utils_kernel_ndctl_ndctl.Check.Media.{Result, err, got, Device, BttChk}
use utils_kernel_ndctl_ndctl.Check.Recover.{sub64}
use utils_kernel_ndctl_ndctl.Check.Recover.Answers.{Answers, errno-ne-ok}
use utils_kernel_ndctl_ndctl.Check.Discover.{
  Found, cons_arena, add64, with_arena, with_block, discover, recorded, btt_discover_arenas,
}
use utils_kernel_ndctl_ndctl.Check.Discover.Usable.{Bounded, Usable, arena_block-Usable}

-- The arenas lie one behind the other from `off` on, are numbered from `i` on, start at the external
-- block `nlba` and where the one before ends, and have a free block for each internal block that is
-- not external. `total` is where the last one ends.
abbrev pub Chained : ℕ → ℕ → ℕ → List ArenaInfo → ℕ → Type 0
Chained off i nlba [] total = total ≡ nlba
Chained off i nlba (a ∷ arenas) total =
    (a.infooff ≡ off)
    × (a.num ≡ i)
    × (a.external_lba_start ≡ nlba)
    × (sub32 a.internal_nlba a.external_nlba ≡ a.nfree)
    × Chained (add64 off a.size) (i + 1) (add64 nlba a.external_nlba) arenas total

abbrev FoundChain : {M : Type 0} → ℕ → ℕ → ℕ → Found M → Type 0
FoundChain off i nlba (err rc, m) = rc ≢ ok
FoundChain off i nlba (got (arenas, total), m) = Chained off i nlba arenas total

module _ (host : Host) (arena : ArenaInfo) (sb : BttSb) (off : ℕ) where
  accepted_arena :
      (btt_parse_meta host arena sb off).0 ≡ ok
      → (btt_parse_meta host arena sb off).1
        ≡ parse_offsets host sb off (parse_counts host sb arena)
  unfolding btt_parse_meta
  accepted_arena accepted = ground arith

  accepted_counts :
      (btt_parse_meta host arena sb off).0 ≡ ok
      → sub32 (host.le32_to_cpu sb.internal_nlba) (host.le32_to_cpu sb.external_nlba)
        ≡ host.le32_to_cpu sb.nfree
  unfolding btt_parse_meta parse_counts
  accepted_counts accepted = ground arith

-- An arena made of the info block `sb` at `off`.
record Parsed (host : Host) (sb : BttSb) (off nlba i : ℕ) (a : ArenaInfo) : Type 0 where
  infooff_eq : a.infooff ≡ off
  num_eq : a.num ≡ i
  start_eq : a.external_lba_start ≡ nlba
  counts_eq : sub32 a.internal_nlba a.external_nlba ≡ a.nfree
  size_next : host.le64_to_cpu sb.nextoff ≢ 0 → a.size ≡ host.le64_to_cpu sb.nextoff
  last : sb.nextoff ≡ 0 → a.nextoff ≡ 0

parse_offsets-Parsed :
    (host : Host) (sb : BttSb) (off nlba i : ℕ) (arena : ArenaInfo)
    → arena.num ≡ i
    → arena.external_lba_start ≡ nlba
    → sub32 (host.le32_to_cpu sb.internal_nlba) (host.le32_to_cpu sb.external_nlba)
      ≡ host.le32_to_cpu sb.nfree
    → Parsed host sb off nlba i (parse_offsets host sb off (parse_counts host sb arena))
unfolding parse_offsets parse_counts
parse_offsets-Parsed host sb off nlba i arena p q counts = record {
  infooff_eq = refl;
  num_eq = p;
  start_eq = q;
  counts_eq = counts;
  size_next = λ ne. ground arith;
  last = λ e. ground arith;
}

-- What the rounds behind an arena have to give.
abbrev Ends : {M : Type 0} → ℕ → ℕ → ℕ → Option (Found M) → Type 0
Ends {M} off i nlba o = (f : Found M) × (o ≡ some f) × FoundChain off i nlba f

module _ {M : Type 0} (host : Host) (off nlba i : ℕ) where
  cons-Ends :
      (a : ArenaInfo) (o : Option (Found M))
      → a.infooff ≡ off
      → a.num ≡ i
      → a.external_lba_start ≡ nlba
      → sub32 a.internal_nlba a.external_nlba ≡ a.nfree
      → Ends (add64 off a.size) (i + 1) (add64 nlba a.external_nlba) o
      → Ends off i nlba (cons_arena a o)
  cons-Ends a o p q r s ((err rc, m), e, chain) = ((err rc, m), rw e refl, chain)
  cons-Ends a o p q r s ((got (arenas, total), m), e, chain) =
      ((got (a ∷ arenas, total), m), rw e refl, (p, q, r, s, chain))

  arena-Ends :
      (sb : BttSb) (m : M) (next : ArenaInfo → M → Option (Found M)) (arena : ArenaInfo)
      → arena.num ≡ i
      → arena.external_lba_start ≡ nlba
      → ((a : ArenaInfo)
          → Parsed host sb off nlba i a
          → sb.nextoff ≢ 0
          → Ends (add64 off a.size) (i + 1) (add64 nlba a.external_nlba) (next a m))
      → Ends off i nlba (with_arena nlba m (btt_parse_meta host arena sb off) next)
  arena-Ends sb m next arena p q more = go (btt_parse_meta host arena sb off) refl
    where
      go :
          (r : Rc × ArenaInfo)
          → btt_parse_meta host arena sb off ≡ r
          → Ends off i nlba (with_arena nlba m r next)
      go (errno e, a) eq = (_, refl, errno-ne-ok e)
      go (btt c, a) eq = (_, refl, λ l. cc)
      go (ok, a) eq =
          let accepted = ap (λ r. r.0) eq in
          let counts = accepted_counts host arena sb off accepted in
          let same : a ≡ parse_offsets host sb off (parse_counts host sb arena) =
            sym (ap (λ r. r.1) eq) ∙ accepted_arena host arena sb off accepted in
          let parsed : Parsed host sb off nlba i a =
            rw same (parse_offsets-Parsed host sb off nlba i arena p q counts) in
          if-cases (Ends off i nlba) (a.nextoff == 0)
            (λ last. (
              _,
              refl,
              (parsed.infooff_eq, parsed.num_eq, parsed.start_eq, parsed.counts_eq, refl),
            ))
            (λ more_to_come.
              cons-Ends a (next a m) parsed.infooff_eq parsed.num_eq parsed.start_eq
                parsed.counts_eq
                (more a parsed (λ z. let e = parsed.last z in absurd (ground arith))))

  block-Ends :
      (Q : BttSb → Type 0) (r : Result BttSb × M) (next : ArenaInfo → M → Option (Found M))
      → Answers r.0 Q
      → ((sb : BttSb) (m : M) (a : ArenaInfo)
          → Q sb
          → Parsed host sb off nlba i a
          → sb.nextoff ≢ 0
          → Ends (add64 off a.size) (i + 1) (add64 nlba a.external_nlba) (next a m))
      → Ends off i nlba (with_block host off nlba i r next)
  block-Ends Q (err rc, m) next q more = (_, refl, q)
  block-Ends Q (got sb, m) next q more =
      arena-Ends sb m next _ refl refl (λ a parsed ne. more sb m a q parsed ne)

module _ {M : Type 0} (dev : Device M) (bttc : BttChk) (memory : ℕ → Bool)
    (h : Bounded dev bttc) where
  -- Every round ends, or moves forward on the device.
  discover-Ends :
      (fuel remaining off nlba i : ℕ) (m : M)
      → 0 < fuel
      → bttc.rawsize + 2 ≤ fuel + off
      → Ends off i nlba (discover dev bttc memory fuel remaining off nlba i m)
  unfolding discover
  discover-Ends zero remaining off nlba i m pos enough = elim pos [ ]
  discover-Ends (suc fuel) remaining off nlba i m pos enough =
      if-cases (Ends off i nlba) (remaining == 0) (λ e. (_, refl, refl))
        (λ e.
          if-cases (Ends off i nlba) (memory i)
            (λ e.
              block-Ends bttc.host off nlba i (Usable dev bttc h off) _ _
                (arena_block-Usable dev bttc h remaining off m)
                (λ sb m' a usable parsed ne.
                  let forward : bttc.host.le64_to_cpu sb.nextoff ≢ 0 = λ z. ne (h.zero_only _ z) in
                  let size = parsed.size_next forward in
                  let (fits, near) = usable in
                  let small = h.small in
                  discover-Ends fuel (sub64 remaining a.size) (add64 off a.size)
                    (add64 nlba a.external_nlba) (i + 1) m' (omega arith) (omega arith)))
            (λ e. (_, refl, errno-ne-ok enomem)))

  -- On a device where a block is read only where it ends before `rawsize`, below 2 ^ 63, with info
  -- blocks whose next arena is less than 2 ^ 63 bytes away, and a byte order that reads only 0 as
  -- 0, `btt_discover_arenas` ends, and its return code is not 0 or the arenas are a chain from
  -- `start_off` on: each lies where the one before ends, is numbered and starts at the external
  -- block in its turn, and has a free block for each internal block that is not external, in 32
  -- bits; `num_arenas` is their number, and `nlba` that of their external blocks, in 64 bits.
  pub btt_discover_arenas-Chained :
      (sb_memory : Bool) (m : M)
      → (r : Rc × BttChk × M) × (btt_discover_arenas dev bttc memory sb_memory m ≡ some r)
        × ((r.0 ≢ ok)
            ⊎ (Chained bttc.start_off 0 0 r.1.arena r.1.nlba × (r.1.num_arenas ≡ length r.1.arena)))
  unfolding btt_discover_arenas
  btt_discover_arenas-Chained true m =
      let (found, e, chain) =
        discover-Ends (bttc.rawsize + 2) bttc.rawsize bttc.start_off 0 0 m (omega arith)
          (omega arith) in
      (recorded dev bttc memory found, rw (btt_discover_arenas, e) refl, told found chain)
    where
      told :
          (f : Found M)
          → FoundChain bttc.start_off 0 0 f
          → ((recorded dev bttc memory f).0 ≢ ok)
            ⊎ (Chained bttc.start_off 0 0
                  (recorded dev bttc memory f).1.arena
                  (recorded dev bttc memory f).1.nlba
                × ((recorded dev bttc memory f).1.num_arenas
                    ≡ length (recorded dev bttc memory f).1.arena))
      told (err rc, m') ne = inl ne
      told (got (arenas, total), m') chain = inr (chain, refl)
  btt_discover_arenas-Chained false m = (_, refl, inl (errno-ne-ok enomem))
