-- ===== src/Kv/Allocate.antt =====
-- How `KvBlockAllocator::Impl` finds free blocks (backend/scheduling/continuous_batcher.cc):
-- `EvictIdlePrefixesUntil`, `EnsureFreeBlocks` and `AllocateBlocks`.
use laminar_inference.Base.{ℕ, ◌+◌, max, Bool, true, List, [], leb, if◌then◌else◌}
use laminar_inference.Base.Text.{Str}
use laminar_inference.Kv.Blocks.{free_block_count, used_block_count, evict_from, claim}
use laminar_inference.Kv.State.{Impl}

unfoldable pub refresh_high_watermark : Impl → Impl
unfolding used_block_count
refresh_high_watermark s =
    let used = used_block_count s.blocks in
    record s {
      stats = record s.stats { high_watermark_blocks = max s.stats.high_watermark_blocks used };
    }

unfoldable pub evict_idle_prefixes_until : ℕ → Impl → Impl
evict_idle_prefixes_until required s =
    let e = evict_from required s.prefix_cache s.blocks s.stats.evictions in
    record s {
      blocks = e.blocks;
      prefix_cache = e.prefix_cache;
      stats = record s.stats { evictions = e.evictions };
    }

unfoldable pub ensure_free_blocks : ℕ → Impl → Impl × Bool
ensure_free_blocks block_count s =
    let evicted = evict_idle_prefixes_until block_count s in
    if leb block_count (free_block_count s.blocks)
    then (s, true)
    else (evicted, leb block_count (free_block_count evicted.blocks))

abbrev pub count_failure : Impl → Impl
count_failure s = record s {
  stats = record s.stats { allocation_failures = s.stats.allocation_failures + 1 };
}

-- The part of `AllocateBlocks` behind the guards.
unfoldable pub claim_blocks : ℕ → Str → Impl → Impl × List ℕ
claim_blocks block_count key s =
    let claimed = claim 0 block_count key s.blocks in
    (refresh_high_watermark (record s { blocks = claimed.0 }), claimed.1)

-- `AllocateBlocks`: the empty list stands for a failure too.
unfoldable pub allocate_blocks : ℕ → Str → Impl → Impl × List ℕ
allocate_blocks block_count key s =
    let ensured = ensure_free_blocks block_count s in
    if leb block_count 0
    then (s, [])
    else if ensured.1
    then claim_blocks block_count key ensured.0
    else (count_failure ensured.0, [])
