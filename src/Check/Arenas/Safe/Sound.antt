-- ===== src/Check/Arenas/Safe/Sound.antt =====
-- An arena that has passed the first two checks, and the repair of its map.
use utils_kernel_ndctl_ndctl.Prelude.{
  ℕ, zero, suc, ◌+◌, ◌%◌, ◌^◌, ◌≤◌, ◌<◌, ◌≡◌, ◌≢◌, ◌==◌, refl, not, ◌&&◌, ◌||◌, some, arith, Bool,
  length, set, Bool-cases, inl, inr, length-set, lt→ltb, get_elem?-set_self, get_elem?-set_ne, ap,
  bit_or,
}
use utils_kernel_ndctl_ndctl.Prelude.Bits.{bit_or-lt}
use utils_kernel_ndctl_ndctl.Check.Defs.{Host, Rc, ok, ArenaInfo, BttSb}
use utils_kernel_ndctl_ndctl.Check.Info.{image, same_words}
use utils_kernel_ndctl_ndctl.Check.Arenas.{btt_check_info2}
use utils_kernel_ndctl_ndctl.Check.Log.{btt_log_read}
use utils_kernel_ndctl_ndctl.Check.Map.{Env, map_ent_normal, btt_map_lookup, btt_map_write, synced}
use utils_kernel_ndctl_ndctl.Check.Map.Entry.{RoundTrips32, decode-or_normal}
use utils_kernel_ndctl_ndctl.Check.Arena.{is_error, update_lane, update_lanes}
use utils_kernel_ndctl_ndctl.Check.Arena.Exact.{EntryOk, MappingOk}

-- The mapped map and log are long enough, and what they name is in bounds.
pub record IsSound (host : Host) (a : ArenaInfo) : Type 0 where
  pub lanes : a.nfree ≤ length a.map.log
  pub mapped : a.external_nlba ≤ length a.map.entries
  pub narrow : a.internal_nlba ≤ 2 ^ 32
  pub entries : (i : ℕ) → i < a.nfree → EntryOk host a i
  pub mappings : (i : ℕ) → i < a.external_nlba → MappingOk host a i

-- The arena after a store to its map.
abbrev stored : Env → ArenaInfo → ℕ → ℕ → ArenaInfo
stored env a lba mapping = record a {
  map = record a.map {
    entries = set a.map.entries lba (env.host.cpu_to_le32 (bit_or mapping map_ent_normal));
  };
}

module _ (env : Env) (trips : RoundTrips32 env.host) where
  stored_entries :
      (a : ArenaInfo) (lba mapping i : ℕ)
      → EntryOk env.host a i
      → EntryOk env.host (stored env a lba mapping) i
  stored_entries a lba mapping i e = record {
    entry = e.entry;
    read = unfold btt_log_read in (unfold btt_log_read in e.read);
    lba_lt = e.lba_lt;
    old_lt = e.old_lt;
    new_lt = e.new_lt;
  }

  stored_mappings :
      (a : ArenaInfo) (lba mapping i : ℕ)
      → lba < length a.map.entries
      → mapping < a.internal_nlba
      → a.internal_nlba ≤ 2 ^ 32
      → MappingOk env.host a i
      → MappingOk env.host (stored env a lba mapping) i
  stored_mappings a lba mapping i inside small narrow m = elim (Bool-cases (i == lba)) [
    | inl here ↦
        let e : i ≡ lba = ground arith in
        let v = bit_or mapping map_ent_normal in
        record {
          mapping = mapping % 2 ^ 30;
          lookup =
              unfold btt_map_lookup in
              rw e (
                rw (get_elem?-set_self a.map.entries lba (env.host.cpu_to_le32 v) inside) (
                  rw (trips v (bit_or-lt 32 mapping map_ent_normal (omega arith) (omega arith)))
                    (ap some (decode-or_normal mapping lba (omega arith)))));
          mapping_lt = omega arith;
        }
    | inr other ↦
        let ne : lba ≢ i = ground arith in
        record {
          mapping = m.mapping;
          lookup =
              unfold btt_map_lookup in
              rw
                (get_elem?-set_ne a.map.entries lba i
                  (env.host.cpu_to_le32 (bit_or mapping map_ent_normal)) ne)
                (unfold btt_map_lookup in m.lookup);
          mapping_lt = m.mapping_lt;
        }
  ]

  stored-IsSound :
      (a : ArenaInfo) (lba mapping : ℕ)
      → IsSound env.host a
      → lba < a.external_nlba
      → mapping < a.internal_nlba
      → IsSound env.host (stored env a lba mapping)
  stored-IsSound a lba mapping h l s = record {
    lanes = h.lanes;
    mapped = omega (
      arith,
      h.mapped,
      length-set a.map.entries lba (env.host.cpu_to_le32 (bit_or mapping map_ent_normal)),
    );
    narrow = h.narrow;
    entries = λ i k. stored_entries a lba mapping i (h.entries i k);
    mappings = λ i k.
        stored_mappings a lba mapping i (omega (arith, h.mapped)) s h.narrow (h.mappings i k);
  }

  write-IsSound :
      (a : ArenaInfo) (lba mapping : ℕ)
      → IsSound env.host a
      → lba < a.external_nlba
      → mapping < a.internal_nlba
      → (rc : Rc) × (a' : ArenaInfo) × (btt_map_write env a lba mapping ≡ some (rc, a'))
        × IsSound env.host a'
        × (a'.nfree ≡ a.nfree)
  unfolding btt_map_write
  write-IsSound a lba mapping h l s = elim (Bool-cases env.opts.repair) [
    | inl on ↦
        let inside : lba < length a.map.entries = omega (arith, h.mapped) in
        (
          synced (env.sync_map (stored env a lba mapping) lba),
          stored env a lba mapping,
          rw on (rw (lt→ltb lba (length a.map.entries) inside)),
          stored-IsSound a lba mapping h l s,
          refl,
        )
    | inr off ↦ (ok, a, rw off, h, refl)
  ]

  update_lane-IsSound :
      (i : ℕ) (a : ArenaInfo) (saved : Bool)
      → IsSound env.host a
      → i < a.nfree
      → (s : Bool) × (a' : ArenaInfo) × (update_lane env i a saved ≡ some (s, a'))
        × IsSound env.host a'
        × (a'.nfree ≡ a.nfree)
  unfolding update_lane
  update_lane-IsSound i a saved h l =
      let e = h.entries i l in
      let m = h.mappings e.entry.lba e.lba_lt in
      let (rc, a', w, sound, same) =
        write-IsSound a e.entry.lba e.entry.new_map h e.lba_lt e.new_lt in
      rw (e.read, m.lookup)
        (elim (Bool-cases (not (e.entry.new_map == m.mapping) && e.entry.old_map == m.mapping)) [
          | inl stale ↦ (saved || is_error rc, a', rw stale (rw w), sound, same)
          | inr fine ↦ (saved, a, rw fine, h, refl)
        ])

  pub update_lanes-IsSound :
      (n i : ℕ) (a : ArenaInfo) (saved : Bool)
      → IsSound env.host a
      → i + n ≤ a.nfree
      → (s : Bool) × (a' : ArenaInfo) × (update_lanes env n i a saved ≡ some (s, a'))
        × IsSound env.host a'
  unfolding update_lanes
  update_lanes-IsSound zero i a saved h l = (saved, a, refl, h)
  update_lanes-IsSound (suc n) i a saved h l =
      let (s, a1, e, sound, same) = update_lane-IsSound i a saved h (omega arith) in
      let (s2, a2, e2, sound2) = update_lanes-IsSound n (i + 1) a1 s sound (omega (arith, same)) in
      (s2, a2, rw e e2, sound2)

-- The backup info block plays no part in it.
info2-IsSound :
    (host : Host) (a : ArenaInfo) (sb : BttSb)
    → IsSound host a
    → IsSound host (record a { map = record a.map { info2 = sb } })
info2-IsSound host a sb h = record {
  lanes = h.lanes;
  mapped = h.mapped;
  narrow = h.narrow;
  entries = λ i l.
      let e = h.entries i l in
      record {
        entry = e.entry;
        read = unfold btt_log_read in (unfold btt_log_read in e.read);
        lba_lt = e.lba_lt;
        old_lt = e.old_lt;
        new_lt = e.new_lt;
      };
  mappings = λ i l.
      let m = h.mappings i l in
      record {
        mapping = m.mapping;
        lookup = unfold btt_map_lookup in (unfold btt_map_lookup in m.lookup);
        mapping_lt = m.mapping_lt;
      };
}

pub btt_check_info2-IsSound :
    (env : Env) (a : ArenaInfo) → IsSound env.host a → IsSound env.host (btt_check_info2 env a).1
unfolding btt_check_info2
btt_check_info2-IsSound env a h =
    elim (Bool-cases (same_words (image env.host a.map.info2) (image env.host a.map.info))) [
      | inl same ↦ rw same h
      | inr differ ↦ elim (Bool-cases env.opts.repair) [
        | inl on ↦ rw differ (simp on (info2-IsSound env.host a a.map.info h))
        | inr off ↦ rw differ (simp off h)
      ]
    ]
