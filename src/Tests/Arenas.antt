-- ===== src/Tests/Arenas.antt =====
-- The checks of ndctl/check.c on a small arena.
use utils_kernel_ndctl_ndctl.Prelude.{
  ℕ, zero, suc, ◌≡◌, ◌≢◌, ◌⊎◌, ◌↔◌, ◌<◌, refl, some, arith, List, [], ◌∷◌,
}
use utils_kernel_ndctl_ndctl.Prelude.Bits.{ffs}
use utils_kernel_ndctl_ndctl.Util.Bitmap.{
  bitmap_alloc, bitmap_set, fill, first_word_mask, last_word_mask, test_bit, bitmap_full,
  find_next_zero_bit, find_next, scan,
}
use utils_kernel_ndctl_ndctl.Check.Defs.{Rc, ok, ArenaInfo, LogGroup, s0, s1}
use utils_kernel_ndctl_ndctl.Check.Loop.{each}
use utils_kernel_ndctl_ndctl.Check.Log.{btt_log_read, btt_log_get_old, log_seq}
use utils_kernel_ndctl_ndctl.Check.Log.Order.{next_seq, btt_log_get_old-next}
use utils_kernel_ndctl_ndctl.Check.Map.{btt_map_lookup, btt_map_write, decode}
use utils_kernel_ndctl_ndctl.Check.Map.Entry.{btt_map_lookup-btt_map_write}
use utils_kernel_ndctl_ndctl.Check.Info.{image, same_words}
use utils_kernel_ndctl_ndctl.Check.Arena.{
  btt_check_log_entries, btt_check_map_entries, btt_check_log_map, check_lane_seq,
  check_lane_bounds, check_mapping, update_lanes, update_lane,
}
use utils_kernel_ndctl_ndctl.Check.Arena.Exact.{
  SeqOk, EntryOk, MappingOk, btt_check_log_entries_iff, btt_check_map_entries_iff,
}
use utils_kernel_ndctl_ndctl.Check.Blocks.{btt_check_bitmap, mark, mark_log, free_block, after_log}
use utils_kernel_ndctl_ndctl.Check.Blocks.Once.{referenced}
use utils_kernel_ndctl_ndctl.Check.Blocks.Decide.{Refers, Verdict, btt_check_bitmap-Verdict}
use utils_kernel_ndctl_ndctl.Check.Arenas.{
  btt_check_info2, btt_rewrite_log, btt_check_arenas, check_arena, log_map_stage, info2_stage,
  bitmap_stage,
}
use utils_kernel_ndctl_ndctl.Check.Arenas.Rewrite.{Reset, btt_rewrite_log-Reset}
use utils_kernel_ndctl_ndctl.Check.Arenas.ReadOnly.{btt_check_arenas_read_only}
use utils_kernel_ndctl_ndctl.Check.Arenas.Safe.{btt_check_arenas_total}
use utils_kernel_ndctl_ndctl.Tests.Sample.{arena, env_of, repairing, reading, little, lane}

arena_reads : (i : ℕ) → i < 4 → referenced little arena i ≡ some i
unfolding referenced btt_map_lookup decode free_block btt_log_read btt_log_get_old
arena_reads zero l = refl
arena_reads (suc zero) l = refl
arena_reads (suc (suc zero)) l = refl
arena_reads (suc (suc (suc zero))) l = refl
arena_reads (suc (suc (suc (suc i)))) l = absurd (omega arith)

arena-Refers : Refers (env_of repairing) arena (λ i. i)
arena-Refers = record {
  reads = arena_reads;
  in_bounds = λ i l. l;
  count = refl;
  some_free = omega arith;
  memory = refl;
}

btt_check_bitmap-Verdict_example :
    (r : Rc) × (btt_check_bitmap (env_of repairing) arena ≡ some r) × Verdict arena (λ i. i) r
btt_check_bitmap-Verdict_example =
    btt_check_bitmap-Verdict (env_of repairing) arena (λ i. i) arena-Refers

-- A lane whose second slot, with the number 1, is newer than its first, with the number 3.
abbrev wrapped : LogGroup
wrapped = record (lane 0 2) {
  ent0 = record { lba = 0; old_map = 2; new_map = 0; seq = 3 };
  ent1 = record { lba = 0; old_map = 0; new_map = 2; seq = 1 };
}

btt_log_get_old-next_example :
    ((btt_log_get_old little s0 s1 wrapped ≡ (0, wrapped))
      × (log_seq little wrapped s1 ≡ next_seq (log_seq little wrapped s0)))
    ⊎ ((btt_log_get_old little s0 s1 wrapped ≡ (1, wrapped))
        × (log_seq little wrapped s0 ≡ next_seq (log_seq little wrapped s1)))
unfolding log_seq
btt_log_get_old-next_example =
    btt_log_get_old-next little s0 s1 wrapped (omega arith) (omega arith) (omega arith)
      (omega arith) (omega arith)

btt_map_lookup-btt_map_write_example :
    (rc : Rc) × (a' : ArenaInfo) × (btt_map_write (env_of repairing) arena 1 3 ≡ some (rc, a'))
    × (btt_map_lookup little a' 1 ≡ some 3)
    × ((other : ℕ) → other ≢ 1 → btt_map_lookup little a' other ≡ btt_map_lookup little arena other)
btt_map_lookup-btt_map_write_example =
    btt_map_lookup-btt_map_write (env_of repairing) arena 1 3 (λ v l. refl) refl (omega arith)
      (omega arith)

btt_check_log_entries_iff_example :
    (btt_check_log_entries little arena ≡ some ok)
    ↔ ((i : ℕ) → i < 2 → SeqOk little arena i × EntryOk little arena i)
btt_check_log_entries_iff_example = btt_check_log_entries_iff little arena

btt_check_map_entries_iff_example :
    (btt_check_map_entries little arena ≡ some ok) ↔ ((i : ℕ) → i < 2 → MappingOk little arena i)
btt_check_map_entries_iff_example = btt_check_map_entries_iff little arena

btt_rewrite_log-Reset_example :
    (a' : ArenaInfo) × (btt_rewrite_log little arena ≡ some (ok, a'))
    × ((j : ℕ) → j < 2 → Reset little arena a' j)
    × (a' ≡ record arena { map = record arena.map { log = a'.map.log } })
btt_rewrite_log-Reset_example =
    btt_rewrite_log-Reset little arena (record { zero_as_is = refl; one_as_is = refl }) refl
      (ground arith) (omega arith)

arenas_checked : btt_check_arenas (env_of reading) (arena ∷ []) ≡ some (ok, arena ∷ [])
unfolding btt_check_arenas check_arena log_map_stage info2_stage bitmap_stage btt_check_log_entries
    btt_check_map_entries btt_check_log_map btt_check_info2 btt_check_bitmap each check_lane_seq
    check_lane_bounds check_mapping update_lanes update_lane btt_log_read btt_log_get_old
    btt_map_lookup decode image same_words mark mark_log free_block after_log bitmap_alloc
    bitmap_set fill first_word_mask last_word_mask test_bit bitmap_full find_next_zero_bit find_next
    scan ffs
arenas_checked = refl

btt_check_arenas_read_only_example : (arena ∷ []) ≡ (arena ∷ [])
btt_check_arenas_read_only_example =
    btt_check_arenas_read_only (env_of reading) (arena ∷ []) ok (arena ∷ []) refl refl
      arenas_checked

btt_check_arenas_total_example :
    (rc : Rc) × (arenas' : List ArenaInfo) × (btt_check_arenas (env_of repairing) (arena ∷ [])
      ≡ some (rc, arenas'))
btt_check_arenas_total_example =
    btt_check_arenas_total (env_of repairing) (arena ∷ []) (λ v l. refl)
      (record { lanes = omega arith; entries = omega arith; narrow = omega arith }, tt)
