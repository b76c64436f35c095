-- ===== src/Kv.antt =====
-- The public methods of `KvBlockAllocator` (backend/scheduling/continuous_batcher.h and .cc): a paged
-- cache of blocks that sequences hold by reference counts, with shared prefixes. The shared `Impl` is
-- the state that each method takes and returns. Token counts are unbounded here: the source's `int`
-- arithmetic would be undefined where it left the range of `int`.
pub mod Blocks
pub mod State
pub mod Allocate
pub mod Accounts
pub mod Counting
pub mod Claims
pub mod Evictions
pub mod Exhaustion
pub mod Ledger
pub mod Allocation
pub mod Invariant
pub mod Preserved
pub mod Methods
pub mod Configured
pub mod Calls
pub mod Histories
pub mod Lost
pub mod Leak
pub mod Answers
pub mod Releases
pub mod Ids
pub mod Overwrite
pub mod Tests
use Blocks.{PrefixEntry, free_blocks, add_refs, drop_refs, release_blocks}
use State.{Impl, Sequence, KvAllocation, allocation_error, allocation_ok, ceil_div}
use Allocate.{allocate_blocks}
use laminar_inference.Base.{
  ℕ, ◌+◌, ◌-◌, min, true, false, not, ◌&&◌, List, [], ◌++◌, Option, none, some, length, ltb, ◌==◌,
  if◌then◌else◌,
}
use laminar_inference.Base.Int.{ℤ, pos, pos_part, ltb_ℤ}
use laminar_inference.Base.Text.{Str, codes, is_empty}
use laminar_inference.Base.Assoc.{find, erase, assign, emplace, contains}

-- How many tokens of the prompt the prefix cache may serve.
unfoldable pub cacheable_tokens_of : ℕ → Str → ℤ → ℕ
cacheable_tokens_of prompt_tokens key prefix_tokens =
    if is_empty key
    then 0
    else if ltb_ℤ prefix_tokens (pos 0)
    then prompt_tokens
    else min prompt_tokens (pos_part prefix_tokens)

-- The entry that `AllocatePrompt` may share: same key, same token count.
unfoldable pub cached_prefix : Str → ℕ → Impl → Option PrefixEntry
cached_prefix key cacheable s = elim (find key s.prefix_cache) [
  | none ↦ none
  | some e ↦ if e.token_count == cacheable then some e else none
]

-- The sizes that `AllocatePrompt` computes before it touches the state.
pub record PromptPlan : Type 0 where
  pub prompt_tokens : ℕ
  pub cacheable_tokens : ℕ
  pub prefix_block_count : ℕ
  pub suffix_block_count : ℕ

unfoldable pub plan_prompt : Impl → ℤ → Str → ℤ → PromptPlan
unfolding cacheable_tokens_of ceil_div
plan_prompt s prompt_tokens key prefix_tokens =
    let prompt = pos_part prompt_tokens in
    let cacheable = cacheable_tokens_of prompt key prefix_tokens in
    record {
      prompt_tokens = prompt;
      cacheable_tokens = cacheable;
      prefix_block_count = ceil_div cacheable s.config.tokens_per_block;
      suffix_block_count = ceil_div (prompt - cacheable) s.config.tokens_per_block;
    }

abbrev pub sequence_of : PromptPlan → List ℕ → Sequence
sequence_of p block_ids = record {
  prompt_tokens = p.prompt_tokens;
  generated_tokens = 0;
  prefix_block_count = p.prefix_block_count;
  block_ids = block_ids;
}

abbrev pub exhausted : KvAllocation
exhausted = allocation_error (codes "kv cache exhausted")

-- The hit: share the entry's blocks, and take new ones for the rest of the prompt.
unfoldable pub attach_cached : Str → PromptPlan → PrefixEntry → Impl → Impl × KvAllocation
attach_cached id p e s =
    let shared = record s { blocks = add_refs s.blocks e.block_ids } in
    let suffix = allocate_blocks p.suffix_block_count [] shared in
    let t = suffix.0 in
    if length suffix.1 == p.suffix_block_count
    then (
      record t {
        sequences = emplace id (sequence_of p (e.block_ids ++ suffix.1)) t.sequences;
        stats = record t.stats { prefix_cache_hits = t.stats.prefix_cache_hits + 1 };
      },
      allocation_ok (p.prefix_block_count + p.suffix_block_count) true,
    )
    else (record t { blocks = drop_refs t.blocks e.block_ids }, exhausted)

-- The end of a miss: the new prefix is cached, whatever stood under its key, and the sequence begins.
unfoldable pub attach_fresh : Str → Str → PromptPlan → List ℕ → List ℕ → Impl → Impl × KvAllocation
attach_fresh id key p prefix_blocks suffix_blocks s =
    let entry : PrefixEntry = record {
      token_count = p.cacheable_tokens;
      block_ids = prefix_blocks;
    } in
    let cache =
      if not (is_empty key) && ltb 0 p.cacheable_tokens
      then assign key entry s.prefix_cache
      else s.prefix_cache in
    (
      record s {
        prefix_cache = cache;
        sequences = emplace id (sequence_of p (prefix_blocks ++ suffix_blocks)) s.sequences;
      },
      allocation_ok (p.prefix_block_count + p.suffix_block_count) false,
    )

-- The miss: new blocks for the prefix, then for the rest; the prefix goes back if the rest fails.
unfoldable pub allocate_fresh : Str → Str → PromptPlan → Impl → Impl × KvAllocation
allocate_fresh id key p s =
    let prefix = allocate_blocks p.prefix_block_count key s in
    let suffix = allocate_blocks p.suffix_block_count [] prefix.0 in
    let t = suffix.0 in
    if length prefix.1 == p.prefix_block_count
    then (if length suffix.1 == p.suffix_block_count
        then attach_fresh id key p prefix.1 suffix.1 t
        else (record t { blocks = free_blocks t.blocks prefix.1 }, exhausted))
    else (prefix.0, exhausted)

abbrev pub count_miss : Impl → Impl
count_miss s = record s {
  stats = record s.stats { prefix_cache_misses = s.stats.prefix_cache_misses + 1 };
}

-- `AllocatePrompt` behind its guards.
unfoldable pub place_prompt : Str → Str → PromptPlan → Impl → Impl × KvAllocation
place_prompt id key p s =
    if not (is_empty key) && ltb 0 p.cacheable_tokens
    then elim (cached_prefix key p.cacheable_tokens s) [
      | some e ↦ attach_cached id p e s
      | none ↦ allocate_fresh id key p (count_miss s)
    ]
    else allocate_fresh id key p s

unfoldable pub allocate_prompt : Str → ℤ → Str → ℤ → Impl → Impl × KvAllocation
allocate_prompt id prompt_tokens key prefix_tokens s =
    if is_empty id
    then (s, allocation_error (codes "sequence id is required"))
    else if contains id s.sequences
    then (s, allocation_error (codes "sequence already exists"))
    else place_prompt id key (plan_prompt s prompt_tokens key prefix_tokens) s

-- `AppendTokens` on a sequence that exists, with a positive count.
unfoldable pub grow_sequence : Str → ℕ → Sequence → Impl → Impl × KvAllocation
unfolding ceil_div
grow_sequence id token_count q s =
    let before_blocks = ceil_div q.generated_tokens s.config.tokens_per_block in
    let after_blocks = ceil_div (q.generated_tokens + token_count) s.config.tokens_per_block in
    let additional_blocks = after_blocks - before_blocks in
    let allocated = allocate_blocks additional_blocks [] s in
    let t = allocated.0 in
    let grown = record q {
      generated_tokens = q.generated_tokens + token_count;
      block_ids = q.block_ids ++ allocated.1;
    } in
    if length allocated.1 == additional_blocks
    then (
      record t { sequences = assign id grown t.sequences },
      allocation_ok additional_blocks false,
    )
    else (t, exhausted)

unfoldable pub append_tokens : Str → ℤ → Impl → Impl × KvAllocation
append_tokens id token_count s = elim (find id s.sequences) [
  | none ↦ (s, allocation_error (codes "sequence does not exist"))
  | some q ↦
      if ltb_ℤ (pos 0) token_count
      then grow_sequence id (pos_part token_count) q s
      else (s, allocation_ok 0 false)
]

unfoldable pub release_sequence : Str → Impl → Impl
release_sequence id s = elim (find id s.sequences) [
  | none ↦ s
  | some q ↦ record s {
    blocks = release_blocks s.blocks q.block_ids;
    sequences = erase id s.sequences;
  }
]
