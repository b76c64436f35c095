-- ===== src/Kv/Tests.antt =====
-- The allocator (Kv) on the run of backend/scheduling/continuous_batcher_test.cc, and its theorems at
-- concrete inputs.
use laminar_inference.Base.{
  some, ◌+◌, ◌≤◌, ◌≡◌, refl, true, List, [], ◌∷◌, get_elem?, arith, update_all,
}
use laminar_inference.Base.Int.{pos, negsuc}
use laminar_inference.Base.Text.{Str, codes, str_eq, str_lt}
use laminar_inference.Base.Assoc.{find, erase, place, overwrite, assign, emplace, contains}
use laminar_inference.Kv.Blocks.{
  PrefixEntry, used_block_count, prefix_entry_is_idle, free_blocks, evict_from, claim, add_refs,
  drop_refs, release_block, release_blocks,
}
use laminar_inference.Kv.State.{
  Impl, KvCacheConfig, clamp_positive, ceil_div, make_allocator, snapshot, sequence_block_count,
}
use laminar_inference.Kv.Allocate.{
  refresh_high_watermark, evict_idle_prefixes_until, ensure_free_blocks, claim_blocks,
  allocate_blocks,
}
use laminar_inference.Kv.{
  cacheable_tokens_of, cached_prefix, plan_prompt, attach_cached, attach_fresh, allocate_fresh,
  place_prompt, allocate_prompt, grow_sequence, append_tokens, release_sequence,
}
use laminar_inference.Kv.Calls.{Call, allocates, appends, releases, step, run}
use laminar_inference.Kv.Accounts.{Accounts}
use laminar_inference.Kv.Ledger.{held_count}
use laminar_inference.Kv.Evictions.{cached_count}
use laminar_inference.Kv.Histories.{
  run-Accounts, run-IsValid, make_allocator-IsValid, snapshot-run_bounds,
}
use laminar_inference.Base.{◌⊎◌, none, false, length}
use laminar_inference.Base.Int.{ltb_ℤ}
use laminar_inference.Kv.State.{Sequence}
use laminar_inference.Kv.Blocks.{free_block_count}
use laminar_inference.Kv.Releases.{Released, release_sequence_outcome}
use laminar_inference.Kv.Answers.{Grown, allocate_prompt_outcome, append_tokens_outcome}
use laminar_inference.Kv.Allocation.{length-allocate_blocks}
use laminar_inference.Kv.Exhaustion.{AllBusy, evict_from-exhausts}
use laminar_inference.Kv.Lost.{IsLost}
use laminar_inference.Kv.Overwrite.{allocate_prompt_loses}

unfoldable pub program : Unit {0}
unfolding update_all str_eq str_lt find erase place overwrite assign emplace contains
    used_block_count prefix_entry_is_idle free_blocks evict_from claim add_refs drop_refs
    release_block release_blocks clamp_positive ceil_div make_allocator snapshot
    sequence_block_count refresh_high_watermark evict_idle_prefixes_until ensure_free_blocks
    claim_blocks allocate_blocks cacheable_tokens_of cached_prefix plan_prompt attach_cached
    attach_fresh allocate_fresh place_prompt allocate_prompt grow_sequence append_tokens
    release_sequence step run
program = tt

abbrev small : KvCacheConfig
small = record { total_blocks = pos 3; tokens_per_block = pos 4 }

abbrev system_prefix : Str
system_prefix = codes "system-prefix"

abbrev shared_calls : List Call
shared_calls =
    allocates (codes "a") (pos 8) system_prefix (negsuc 0)
    ∷ releases (codes "a")
    ∷ allocates (codes "b") (pos 8) system_prefix (negsuc 0)
    ∷ appends (codes "b") (pos 1)
    ∷ []

-- The second prompt hits the cache, and the token takes a third block.
shared_stats :
    let r = snapshot (run shared_calls (make_allocator small)) in
    (r.used_blocks ≡ 3) × (r.prefix_cache_hits ≡ 1) × (r.cached_prefixes ≡ 1)
unfolding program
shared_stats = (refl, refl, refl)

-- Under pressure the idle prefix goes.
evicted_stats :
    let r = snapshot (
      run
        (releases (codes "b") ∷ allocates (codes "c") (pos 8) [] (negsuc 0) ∷ [])
        (run shared_calls (make_allocator small))) in
    (r.cached_prefixes ≡ 0) × (r.evictions ≡ 1)
unfolding program
evicted_stats = (refl, refl)

run-Accounts_example :
    let s = run shared_calls (make_allocator small) in
    Accounts (get_elem? s.blocks 1) (held_count s.sequences 1) (cached_count s.prefix_cache 1)
run-Accounts_example = run-Accounts small shared_calls 1

snapshot-run_bounds_example :
    let r = snapshot (run shared_calls (make_allocator small)) in
    (r.total_blocks ≡ clamp_positive small.total_blocks 1)
    × (r.used_blocks + r.free_blocks ≡ r.total_blocks)
    × (r.used_blocks ≤ r.high_watermark_blocks)
    × (r.high_watermark_blocks ≤ r.total_blocks)
snapshot-run_bounds_example = snapshot-run_bounds small shared_calls

-- One block holds the cached prefix of four tokens; the next prompt brings eight under the same key.
abbrev four_calls : List Call
four_calls = allocates (codes "a") (pos 4) system_prefix (negsuc 0) ∷ releases (codes "a") ∷ []

abbrev four_cached : Impl
four_cached = run four_calls (make_allocator small)

abbrev four_entry : PrefixEntry
four_entry = record { token_count = 4; block_ids = 0 ∷ [] }

abbrev later_calls : List Call
later_calls = releases (codes "b") ∷ allocates (codes "c") (pos 12) [] (negsuc 0) ∷ []

allocate_prompt_loses_example :
    let r = allocate_prompt (codes "b") (pos 8) system_prefix (negsuc 0) four_cached in
    (r.1.ok ≡ true) × IsLost 0 (run later_calls r.0)
unfolding program
allocate_prompt_loses_example =
    allocate_prompt_loses four_cached (codes "b") (pos 8) system_prefix (negsuc 0) four_entry 0
      later_calls (run-IsValid four_calls _ (make_allocator-IsValid small)) refl refl refl refl
      (omega arith) (omega arith) (omega arith) (omega arith)

allocate_prompt_outcome_example :
    let s = run shared_calls (make_allocator small) in
    let r = allocate_prompt (codes "c") (pos 2) system_prefix (negsuc 0) s in
    ((r.1.ok ≡ false) × (r.0.sequences ≡ s.sequences))
    ⊎ ((r.1.ok ≡ true)
        × ((q : Sequence) × (r.0.sequences ≡ place (codes "c") q s.sequences)
            × (q.prompt_tokens ≡ 2)
            × (q.generated_tokens ≡ 0))
        × (find (codes "c") s.sequences ≡ none))
allocate_prompt_outcome_example =
    allocate_prompt_outcome (codes "c") (pos 2) system_prefix (negsuc 0)
      (run shared_calls (make_allocator small))

append_tokens_outcome_example :
    let s = run shared_calls (make_allocator small) in
    let r = append_tokens (codes "b") (pos 9) s in
    ((r.1.ok ≡ false) × (r.0.sequences ≡ s.sequences))
    ⊎ ((r.1.ok ≡ true) × (((ltb_ℤ (pos 0) (pos 9) ≡ false) × (r.0 ≡ s)) ⊎ Grown (codes "b") 9 s r))
append_tokens_outcome_example =
    append_tokens_outcome (codes "b") (pos 9) (run shared_calls (make_allocator small))

release_sequence_outcome_example :
    let s = run shared_calls (make_allocator small) in
    ((find (codes "b") s.sequences ≡ none) × (release_sequence (codes "b") s ≡ s))
    ⊎ ((q : Sequence) × (find (codes "b") s.sequences ≡ some q)
        × Released (codes "b") q s (release_sequence (codes "b") s))
release_sequence_outcome_example =
    release_sequence_outcome (codes "b") (run shared_calls (make_allocator small))
      (run-IsValid shared_calls _ (make_allocator-IsValid small)).unique

length-allocate_blocks_example :
    let r = allocate_blocks 2 [] (make_allocator small) in (length r.1 ≡ 2) ⊎ (r.1 ≡ [])
length-allocate_blocks_example = length-allocate_blocks 2 [] (make_allocator small)

evict_from-exhausts_example :
    let s = run four_calls (make_allocator small) in
    let e = evict_from 3 s.prefix_cache s.blocks 0 in
    (3 ≤ free_block_count e.blocks) ⊎ AllBusy e.blocks e.prefix_cache
evict_from-exhausts_example =
    let s = run four_calls (make_allocator small) in evict_from-exhausts 3 s.prefix_cache s.blocks 0
