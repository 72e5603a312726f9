-- ===== src/Check/Meta/Counts.antt =====
-- What `btt_parse_meta` demands of an info block, and what an arena that it accepts is like.
use utils_kernel_ndctl_ndctl.Prelude.{ℕ, ◌+◌, ◌%◌, ◌^◌, ◌≤◌, ◌<◌, ◌≡◌, ◌↔◌, bit_and, arith}
use utils_kernel_ndctl_ndctl.Check.Defs.{Host, ok, BttSb, ArenaInfo}
use utils_kernel_ndctl_ndctl.Check.Meta.{sub32, parse_counts, parse_offsets, btt_parse_meta}

module _ (host : Host) (arena : ArenaInfo) (sb : BttSb) (arena_off : ℕ)
    (bounded : (v : ℕ) → host.le32_to_cpu v < 2 ^ 32) where
  -- On a host whose `le32_to_cpu` gives 32 bits, `btt_parse_meta` returns 0 exactly if the
  -- internal blocks are as many as the external and the free ones, modulo 2 ^ 32, the two block
  -- sizes agree and the error flag is not set.
  pub btt_parse_meta_iff : ((btt_parse_meta host arena sb arena_off).0 ≡ ok) ↔ (
      ((host.le32_to_cpu sb.external_nlba + host.le32_to_cpu sb.nfree) % 2 ^ 32
        ≡ host.le32_to_cpu sb.internal_nlba)
      × (host.le32_to_cpu sb.internal_lbasize ≡ host.le32_to_cpu sb.external_lbasize)
      × (bit_and sb.flags 1 ≡ 0))
  unfolding btt_parse_meta sub32 parse_counts
  btt_parse_meta_iff =
      let b = bounded sb.external_nlba in
      let c = bounded sb.nfree in let d = bounded sb.internal_nlba in ground arith

  accepted_arena :
      (btt_parse_meta host arena sb arena_off).0 ≡ ok
      → (btt_parse_meta host arena sb arena_off).1
        ≡ parse_offsets host sb arena_off (parse_counts host sb arena)
  unfolding btt_parse_meta
  accepted_arena accepted = ground arith

  -- On a host whose `le32_to_cpu` gives 32 bits, an arena that `btt_parse_meta` accepts, with no more
  -- external than internal blocks, has one free block for each of its internal blocks that is not
  -- external, and both block sizes agree.
  pub btt_parse_meta-counts :
      (btt_parse_meta host arena sb arena_off).0 ≡ ok
      → host.le32_to_cpu sb.external_nlba ≤ host.le32_to_cpu sb.internal_nlba
      → ((btt_parse_meta host arena sb arena_off).1.external_nlba
            + (btt_parse_meta host arena sb arena_off).1.nfree
          ≡ (btt_parse_meta host arena sb arena_off).1.internal_nlba)
        × ((btt_parse_meta host arena sb arena_off).1.internal_lbasize
            ≡ (btt_parse_meta host arena sb arena_off).1.external_lbasize)
  btt_parse_meta-counts accepted small =
      let b = bounded sb.external_nlba in
      let c = bounded sb.nfree in
      let d = bounded sb.internal_nlba in
      let (total, same, unset) = btt_parse_meta_iff.0 accepted in
      rw (accepted_arena accepted)
        (unfold parse_offsets in unfold parse_counts in (omega arith, same))
