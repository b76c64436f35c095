-- ===== src/Kv/State.antt =====
-- The state of `KvBlockAllocator` (backend/scheduling/continuous_batcher.h and .cc): its configuration,
-- `Impl`, the result of an allocation, the constructor, and the methods that only read.
use laminar_inference.Base.{
  ℕ, ◌+◌, ◌-◌, ◌/◌, Bool, true, false, List, [], none, some, length, replicate, leb, if◌then◌else◌,
}
use laminar_inference.Base.Int.{ℤ, pos, pos_part, ltb_ℤ}
use laminar_inference.Base.Text.{Str}
use laminar_inference.Base.Assoc.{Map, find}
use laminar_inference.Kv.Blocks.{
  Block, PrefixEntry, empty_block, free_block_count, used_block_count,
}

unfoldable pub clamp_positive : ℤ → ℕ → ℕ
clamp_positive value fallback = if ltb_ℤ (pos 0) value then pos_part value else fallback

-- Every caller passes a value that is not negative.
unfoldable pub ceil_div : ℕ → ℕ → ℕ
ceil_div value divisor = if leb value 0 then 0 else (value + divisor - 1) / divisor

-- The constructor's argument, whose fields may be anything.
pub record KvCacheConfig : Type 0 where
  pub total_blocks : ℤ
  pub tokens_per_block : ℤ

-- `Impl::config`, whose fields the constructor made positive.
pub record KvConfig : Type 0 where
  pub total_blocks : ℕ
  pub tokens_per_block : ℕ

pub record KvCacheStats : Type 0 where
  pub total_blocks : ℕ
  pub used_blocks : ℕ
  pub free_blocks : ℕ
  pub high_watermark_blocks : ℕ
  pub active_sequences : ℕ
  pub cached_prefixes : ℕ
  pub prefix_cache_hits : ℕ
  pub prefix_cache_misses : ℕ
  pub evictions : ℕ
  pub allocation_failures : ℕ

pub record KvAllocation : Type 0 where
  pub ok : Bool
  pub cache_hit : Bool
  pub attached_blocks : ℕ
  pub message : Str

abbrev pub allocation_error : Str → KvAllocation
allocation_error message = record {
  ok = false;
  cache_hit = false;
  attached_blocks = 0;
  message = message;
}

abbrev pub allocation_ok : ℕ → Bool → KvAllocation
allocation_ok attached_blocks cache_hit = record {
  ok = true;
  cache_hit = cache_hit;
  attached_blocks = attached_blocks;
  message = [];
}

pub record Sequence : Type 0 where
  pub prompt_tokens : ℕ
  pub generated_tokens : ℕ
  pub prefix_block_count : ℕ
  pub block_ids : List ℕ

pub record Impl : Type 0 where
  pub config : KvConfig
  pub blocks : List Block
  pub sequences : Map Sequence
  pub prefix_cache : Map PrefixEntry
  pub stats : KvCacheStats

abbrev zero_stats : KvCacheStats
zero_stats = record {
  total_blocks = 0;
  used_blocks = 0;
  free_blocks = 0;
  high_watermark_blocks = 0;
  active_sequences = 0;
  cached_prefixes = 0;
  prefix_cache_hits = 0;
  prefix_cache_misses = 0;
  evictions = 0;
  allocation_failures = 0;
}

-- `Impl(KvCacheConfig)` and the constructor of `KvBlockAllocator`
unfoldable pub make_allocator : KvCacheConfig → Impl
unfolding clamp_positive
make_allocator input =
    let config : KvConfig = record {
      total_blocks = clamp_positive input.total_blocks 1;
      tokens_per_block = clamp_positive input.tokens_per_block 1;
    } in
    record {
      config = config;
      blocks = replicate config.total_blocks empty_block;
      sequences = [];
      prefix_cache = [];
      stats = zero_stats;
    }

-- `Stats()`
unfoldable pub snapshot : Impl → KvCacheStats
unfolding used_block_count
snapshot s = record s.stats {
  total_blocks = length s.blocks;
  used_blocks = used_block_count s.blocks;
  free_blocks = free_block_count s.blocks;
  active_sequences = length s.sequences;
  cached_prefixes = length s.prefix_cache;
}

unfoldable pub sequence_block_count : Str → Impl → ℕ
sequence_block_count id s = elim (find id s.sequences) [ none ↦ 0 | some q ↦ length q.block_ids ]
