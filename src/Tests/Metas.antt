-- ===== src/Tests/Metas.antt =====
-- `btt_parse_meta` and `log_set_indices` at the sample arena.
use utils_kernel_ndctl_ndctl.Prelude.{
  ℕ, zero, suc, ◌⊎◌, inl, inr, [], ◌∷◌, ◌+◌, ◌%◌, ◌^◌, ◌<◌, ◌≡◌, ◌↔◌, refl, bit_and, arith, some,
}
use utils_kernel_ndctl_ndctl.Check.Defs.{ok, Host}
use utils_kernel_ndctl_ndctl.Check.Meta.{btt_parse_meta, parse_counts, sub32}
use utils_kernel_ndctl_ndctl.Check.Meta.Counts.{btt_parse_meta_iff, btt_parse_meta-counts}
use utils_kernel_ndctl_ndctl.Check.Defs.{ArenaInfo, LogGroup, s0, s1, s2}
use utils_kernel_ndctl_ndctl.Check.Indices.{
  log_set_indices, index_groups, index_group, index_slot, search_slot, verify_slot, record_index,
  settle_indices, store_indices,
}
use utils_kernel_ndctl_ndctl.Check.Indices.Formats.{
  old_format, InFormat, Fresh, GroupIs, log_set_indices-InFormat,
}
use utils_kernel_ndctl_ndctl.Check.Log.{ent_is_padding}
use utils_kernel_ndctl_ndctl.Tests.Sample.{little, arena, block, lane}

-- A host whose fields are of 32 bits.
abbrev host : Host
host = record little { le32_to_cpu = λ v. v % 2 ^ 32 }

host_bounded : (v : ℕ) → host.le32_to_cpu v < 2 ^ 32
host_bounded v = omega arith

btt_parse_meta_iff_example : ((btt_parse_meta host arena block 4096).0 ≡ ok) ↔ (
    ((2 + 2) % 2 ^ 32 ≡ 4)
    × (block.internal_lbasize % 2 ^ 32 ≡ block.external_lbasize % 2 ^ 32)
    × (bit_and 0 1 ≡ 0))
btt_parse_meta_iff_example = btt_parse_meta_iff host arena block 4096 host_bounded

btt_parse_meta-counts_example :
    ((btt_parse_meta host arena block 4096).1.external_nlba
        + (btt_parse_meta host arena block 4096).1.nfree
      ≡ (btt_parse_meta host arena block 4096).1.internal_nlba)
    × ((btt_parse_meta host arena block 4096).1.internal_lbasize
        ≡ (btt_parse_meta host arena block 4096).1.external_lbasize)
btt_parse_meta-counts_example =
    btt_parse_meta-counts host arena block 4096 host_bounded
      (unfold btt_parse_meta in unfold sub32 in unfold parse_counts in refl) (omega arith)

-- A log in the old format, where one lane was not written to yet.
abbrev old_group : LogGroup
old_group = record (lane 1 3) { ent2 = record { lba = 1; old_map = 3; new_map = 1; seq = 2 } }

abbrev old_arena : ArenaInfo
old_arena = record arena { map = record arena.map { log = lane 0 2 ∷ old_group ∷ [] } }

log_set_indices-InFormat_example :
    (((j : ℕ) × (j < 2) × GroupIs old_arena.map.log (InFormat old_format) j)
      × (log_set_indices old_arena
          ≡ some (ok, record old_arena { log_index0 = s0; log_index1 = s2 })))
    ⊎ (((j : ℕ) → j < 2 → GroupIs old_arena.map.log Fresh j)
        × (log_set_indices old_arena
            ≡ some (ok, record old_arena { log_index0 = s0; log_index1 = s1 })))
log_set_indices-InFormat_example = log_set_indices-InFormat old_arena old_format (omega arith) known
  where
    known :
        (j : ℕ) → j < 2 → GroupIs old_arena.map.log (λ log. Fresh log ⊎ InFormat old_format log) j
    known zero h = (
      lane 0 2,
      refl,
      inl (
        λ z. absurd (omega arith),
        (refl, refl, refl, refl),
        (refl, refl, refl, refl),
        (refl, refl, refl, refl),
      ),
    )
    known (suc zero) h = (
      old_group,
      refl,
      inr (
        λ z. absurd (omega arith),
        (refl, refl, refl, refl),
        (λ z. absurd (omega arith)),
        (refl, refl, refl, refl),
      ),
    )
    known (suc (suc j)) h = absurd (omega arith)

indices_found : log_set_indices arena ≡ some (ok, arena)
unfolding log_set_indices index_groups index_group index_slot search_slot verify_slot record_index
    settle_indices store_indices ent_is_padding
indices_found = refl
