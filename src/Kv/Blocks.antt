-- ===== src/Kv/Blocks.antt =====
-- The block array of `KvBlockAllocator::Impl` (backend/scheduling/continuous_batcher.cc): the
-- `Block` and `PrefixEntry` structs and the loops over the array. A block id is an index, so it is
-- never negative. A read out of range, which the source does not make, is `none` here.
use laminar_inference.Base.{
  ℕ, zero, suc, ◌+◌, ◌-◌, Bool, true, false, ◌&&◌, List, [], ◌∷◌, Option, none, some, length,
  get_elem?, update_all, ltb, ◌==◌, if◌then◌else◌,
}
use laminar_inference.Base.Text.{Str, is_empty}
use laminar_inference.Base.Assoc.{Map}

-- `ref_count` is an `int` that the code never takes below zero.
pub record Block : Type 0 where
  pub occupied : Bool
  pub ref_count : ℕ
  pub cached_prefix_key : Str

-- `Block{}`
abbrev pub empty_block : Block
empty_block = record { occupied = false; ref_count = 0; cached_prefix_key = [] }

pub record PrefixEntry : Type 0 where
  pub token_count : ℕ
  pub block_ids : List ℕ

abbrev pub free_block_count : List Block → ℕ
free_block_count [] = 0
free_block_count (b ∷ bs) = (if b.occupied then 0 else 1) + free_block_count bs

unfoldable pub used_block_count : List Block → ℕ
used_block_count bs = length bs - free_block_count bs

-- The test of one id in the loop of `PrefixEntryIsIdle`.
abbrev pub block_is_idle : Option Block → Bool
block_is_idle none = false
block_is_idle (some b) = b.ref_count == 0

unfoldable pub prefix_entry_is_idle : List Block → List ℕ → Bool
prefix_entry_is_idle bs [] = true
prefix_entry_is_idle bs (i ∷ ids) = block_is_idle (get_elem? bs i) && prefix_entry_is_idle bs ids

-- `FreeBlock` for each id; out of range it returns at once, as `update_at` does.
unfoldable pub free_blocks : List Block → List ℕ → List Block
unfolding update_all
free_blocks = update_all λ b. empty_block

-- What the loop of `EvictIdlePrefixesUntil` changes.
pub record Evicted : Type 0 where
  pub prefix_cache : Map PrefixEntry
  pub blocks : List Block
  pub evictions : ℕ

-- The loop from an iterator on: the entries behind it, in the order of their keys.
unfoldable pub evict_from : ℕ → Map PrefixEntry → List Block → ℕ → Evicted
evict_from required [] bs n = record { prefix_cache = []; blocks = bs; evictions = n }
evict_from required ((k, e) ∷ m) bs n =
    let erased = evict_from required m (free_blocks bs e.block_ids) (n + 1) in
    let kept = evict_from required m bs n in
    if ltb (free_block_count bs) required
    then (if prefix_entry_is_idle bs e.block_ids
        then erased
        else record kept { prefix_cache = (k, e) ∷ kept.prefix_cache })
    else record { prefix_cache = (k, e) ∷ m; blocks = bs; evictions = n }

abbrev pub claimed_block : Str → Block
claimed_block key = record { occupied = true; ref_count = 1; cached_prefix_key = key }

-- The loop of `AllocateBlocks` from `index` on, with the blocks still wanted.
unfoldable pub claim : ℕ → ℕ → Str → List Block → List Block × List ℕ
claim index wanted key [] = ([], [])
claim index zero key (b ∷ bs) = (b ∷ bs, [])
claim index (suc wanted) key (b ∷ bs) =
    let skipped = claim (suc index) (suc wanted) key bs in
    let taken = claim (suc index) wanted key bs in
    if b.occupied
    then (b ∷ skipped.0, skipped.1)
    else (claimed_block key ∷ taken.0, index ∷ taken.1)

-- `++blocks[id].ref_count` and `--blocks[id].ref_count`
abbrev pub add_ref : Block → Block
add_ref b = record b { ref_count = b.ref_count + 1 }

abbrev pub drop_ref : Block → Block
drop_ref b = record b { ref_count = b.ref_count - 1 }

unfoldable pub add_refs : List Block → List ℕ → List Block
unfolding update_all
add_refs = update_all add_ref

unfoldable pub drop_refs : List Block → List ℕ → List Block
unfolding update_all
drop_refs = update_all drop_ref

-- One block in the loop of `ReleaseSequence`: `ref_count` falls if it is positive, and a block that
-- has none left and no prefix key is freed.
unfoldable pub release_block : Block → Block
release_block b =
    let left = if ltb 0 b.ref_count then b.ref_count - 1 else b.ref_count in
    if left == 0 && is_empty b.cached_prefix_key then empty_block else record b { ref_count = left }

unfoldable pub release_blocks : List Block → List ℕ → List Block
unfolding update_all release_block
release_blocks = update_all release_block
