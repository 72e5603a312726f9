-- ===== src/Check/Map/Entry.antt =====
-- Entries of the map: what a write stores, and what a lookup makes of it.
use utils_kernel_ndctl_ndctl.Prelude.{
  ℕ, ◌+◌, suc, zero, lt→ltb, ap, ◌∙◌, sym, ◌-◌, ◌*◌, ◌/◌, ◌%◌, ◌^◌, ◌<◌, ◌≡◌, ◌≢◌, ◌==◌, refl, true,
  some, if◌then◌else◌, arith, bit_and, bit_or, set, length, get_elem?-set_self, get_elem?-set_ne,
}
use utils_kernel_ndctl_ndctl.Prelude.Bits.{
  bit_and_fields, bit_or_fields, bit_and_none, bit_or_none, bit_and_ones,
}
use utils_kernel_ndctl_ndctl.Check.Defs.{Host, Rc, ArenaInfo}
use utils_kernel_ndctl_ndctl.Check.Map.{
  Env, map_ent_normal, map_lba_mask, decode, btt_map_lookup, btt_map_write, synced,
}

-- The two flags of an entry, `q`, against the mask of both.
flags_and : (q : ℕ) → q < 4 → bit_and q 3 ≡ q
flags_and q h = bit_and_ones 2 q h

flags_or : (q : ℕ) → q < 4 → bit_or q 3 ≡ 3
flags_or zero h = refl
flags_or (suc zero) h = refl
flags_or (suc (suc zero)) h = refl
flags_or (suc (suc (suc zero))) h = refl
flags_or (suc (suc (suc (suc q)))) h = absurd (omega arith)

split_entry : (raw : ℕ) → raw ≡ raw / 2 ^ 30 * 2 ^ 30 + raw % 2 ^ 30
split_entry raw = omega arith

and_normal : (raw : ℕ) → raw < 2 ^ 32 → bit_and raw map_ent_normal ≡ raw / 2 ^ 30 * 2 ^ 30
and_normal raw h =
    ap (λ (t : ℕ). bit_and t map_ent_normal) (split_entry raw)
    ∙ bit_and_fields 30 (raw / 2 ^ 30) 3 (raw % 2 ^ 30) 0 (omega arith) (omega arith)
    ∙ omega (
      arith,
      flags_and (raw / 2 ^ 30) (omega arith),
      bit_and_none 30 (raw % 2 ^ 30) (omega arith),
    )

and_mask : (raw : ℕ) → raw < 2 ^ 32 → bit_and raw map_lba_mask ≡ raw % 2 ^ 30
and_mask raw h =
    ap (λ (t : ℕ). bit_and t map_lba_mask) (split_entry raw)
    ∙ bit_and_fields 30 (raw / 2 ^ 30) 0 (raw % 2 ^ 30) (2 ^ 30 - 1) (omega arith) (omega arith)
    ∙ omega (
      arith,
      bit_and_none 2 (raw / 2 ^ 30) (omega arith),
      bit_and_ones 30 (raw % 2 ^ 30) (omega arith),
    )

or_normal : (m : ℕ) → m < 2 ^ 32 → bit_or m map_ent_normal ≡ 3 * 2 ^ 30 + m % 2 ^ 30
or_normal m h =
    ap (λ (t : ℕ). bit_or t map_ent_normal) (split_entry m)
    ∙ bit_or_fields 30 (m / 2 ^ 30) 3 (m % 2 ^ 30) 0 (omega arith) (omega arith)
    ∙ omega (arith, flags_or (m / 2 ^ 30) (omega arith), bit_or_none 30 (m % 2 ^ 30) (omega arith))

-- The flags are the top two bits of an entry, the block is in the low thirty.
pub decode_lem :
    (raw lba : ℕ)
    → raw < 2 ^ 32
    → decode raw lba ≡ (if raw / 2 ^ 30 == 0 then lba else raw % 2 ^ 30)
unfolding decode
decode_lem raw lba h = ground (arith, and_normal raw h, and_mask raw h)

-- What is stored for block `m` is read back as the low thirty bits of `m`.
pub decode-or_normal : (m lba : ℕ) → m < 2 ^ 32 → decode (bit_or m map_ent_normal) lba ≡ m % 2 ^ 30
decode-or_normal m lba h =
    rw (or_normal m h) (ground (arith, decode_lem (3 * 2 ^ 30 + m % 2 ^ 30) lba (omega arith)))

-- What the checker relies on in the byte order: a stored 32-bit number is read back.
abbrev pub RoundTrips32 : Host → Type 0
RoundTrips32 host = (v : ℕ) → v < 2 ^ 32 → host.le32_to_cpu (host.cpu_to_le32 v) ≡ v

-- On a byte order that round trips, after a successful --repair write of a block below 2 ^ 30 at
-- `lba`, a lookup of `lba` gives that block, and the lookup of any other block is as before.
pub btt_map_lookup-btt_map_write :
    (env : Env) (a : ArenaInfo) (lba mapping : ℕ)
    → RoundTrips32 env.host
    → env.opts.repair ≡ true
    → lba < length a.map.entries
    → mapping < 2 ^ 30
    → (rc : Rc) × (a' : ArenaInfo) × (btt_map_write env a lba mapping ≡ some (rc, a'))
      × (btt_map_lookup env.host a' lba ≡ some mapping)
      × ((other : ℕ)
          → other ≢ lba
          → btt_map_lookup env.host a' other ≡ btt_map_lookup env.host a other)
unfolding btt_map_write btt_map_lookup
btt_map_lookup-btt_map_write env a lba mapping trips repair inside small =
    let stored = env.host.cpu_to_le32 (bit_or mapping map_ent_normal) in
    let wide : bit_or mapping map_ent_normal < 2 ^ 32 =
      omega (arith, or_normal mapping (omega arith)) in
    let a' = record a { map = record a.map { entries = set a.map.entries lba stored } } in
    (
      synced (env.sync_map a' lba),
      a',
      rw repair (rw (lt→ltb lba (length a.map.entries) inside)),
      rw (get_elem?-set_self a.map.entries lba stored inside) (
          rw (trips (bit_or mapping map_ent_normal) wide)
            (ap some (decode-or_normal mapping lba (omega arith) ∙ omega arith))),
      λ other ne. rw (get_elem?-set_ne a.map.entries lba other stored (λ e. ne (sym e))),
    )
