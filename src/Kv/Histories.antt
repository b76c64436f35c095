-- ===== src/Kv/Histories.antt =====
-- Histories of calls of `KvBlockAllocator` (Calls) on a new allocator.
use laminar_inference.Base.{
  ℕ, zero, suc, ◌+◌, ◌≤◌, ◌≡◌, refl, ◌∙◌, ap, List, [], ◌∷◌, length, replicate, length-replicate,
  get_elem?, arith,
}
use laminar_inference.Kv.Blocks.{empty_block, Block, free_block_count, used_block_count}
use laminar_inference.Kv.State.{KvCacheConfig, make_allocator, clamp_positive, snapshot, Impl}
use laminar_inference.Kv.Accounts.{Accounts}
use laminar_inference.Kv.Evictions.{cached_count}
use laminar_inference.Kv.Ledger.{held_count}
use laminar_inference.Kv.Invariant.{IsValid, recount}
use laminar_inference.Kv.Calls.{Call, allocates, appends, releases, step, run}
use laminar_inference.Kv.Configured.{
  allocate_prompt-config, append_tokens-config, release_sequence-config,
}
use laminar_inference.Kv.Methods.{
  allocate_prompt-IsValid, append_tokens-IsValid, release_sequence-IsValid,
}

replicate-Accounts : (n i : ℕ) → Accounts (get_elem? (replicate n empty_block) i) 0 0
replicate-Accounts zero i = (refl, refl)
replicate-Accounts (suc n) zero = omega arith
replicate-Accounts (suc n) (suc i) = replicate-Accounts n i

free_block_count-replicate : (n : ℕ) → free_block_count (replicate n empty_block) ≡ n
free_block_count-replicate zero = refl
free_block_count-replicate (suc n) = omega (arith, free_block_count-replicate n)

pub make_allocator-IsValid : (config : KvCacheConfig) → IsValid (make_allocator config)
unfolding make_allocator used_block_count
make_allocator-IsValid config =
    let n = clamp_positive config.total_blocks 1 in
    record {
      ledger = record {
        accounts = λ i. replicate-Accounts n i;
        size = length-replicate n empty_block;
        used_le = omega (arith, free_block_count-replicate n, length-replicate n empty_block);
        watermark_le = omega arith;
      };
      unique = tt;
    }

step-IsValid : (c : Call) (s : Impl) → IsValid s → IsValid (step c s)
unfolding step
step-IsValid (allocates id prompt_tokens key prefix_tokens) s v =
    allocate_prompt-IsValid id prompt_tokens key prefix_tokens s v
step-IsValid (appends id token_count) s v = append_tokens-IsValid id token_count s v
step-IsValid (releases id) s v = release_sequence-IsValid id s v

pub run-IsValid : (cs : List Call) (s : Impl) → IsValid s → IsValid (run cs s)
unfolding run
run-IsValid [] s v = v
run-IsValid (c ∷ cs) s v = run-IsValid cs (step c s) (step-IsValid c s v)

run-config : (cs : List Call) (s : Impl) → (run cs s).config ≡ s.config
unfolding run step
run-config [] s = refl
run-config (allocates id prompt_tokens key prefix_tokens ∷ cs) s =
    run-config cs _ ∙ allocate_prompt-config id prompt_tokens key prefix_tokens s
run-config (appends id token_count ∷ cs) s = run-config cs _ ∙ append_tokens-config id token_count s
run-config (releases id ∷ cs) s = run-config cs _ ∙ release_sequence-config id s

free_block_count-le : (bs : List Block) → free_block_count bs ≤ length bs
free_block_count-le [] = omega arith
free_block_count-le (b ∷ bs) = ground (arith, free_block_count-le bs)

-- After any calls on a new allocator the reference count of each block in the array is the number of
-- times that the live sequences name it, the prefix cache names it at most once, and it is free only if
-- neither names it; no sequence and no prefix names a block outside the array.
pub run-Accounts :
    (config : KvCacheConfig) (cs : List Call) (i : ℕ)
    → let s = run cs (make_allocator config) in
      Accounts (get_elem? s.blocks i) (held_count s.sequences i) (cached_count s.prefix_cache i)
run-Accounts config cs i =
    recount _ (omega arith) (omega arith)
      ((run-IsValid cs _ (make_allocator-IsValid config)).ledger.accounts i)

-- After any calls on a new allocator `Stats` reports as many blocks as were configured (at least one),
-- the used and the free ones add up to them, and the high watermark lies between the used blocks and all.
pub snapshot-run_bounds :
    (config : KvCacheConfig) (cs : List Call)
    → let r = snapshot (run cs (make_allocator config)) in
      (r.total_blocks ≡ clamp_positive config.total_blocks 1)
      × (r.used_blocks + r.free_blocks ≡ r.total_blocks)
      × (r.used_blocks ≤ r.high_watermark_blocks)
      × (r.high_watermark_blocks ≤ r.total_blocks)
unfolding snapshot used_block_count make_allocator
snapshot-run_bounds config cs =
    let s = run cs (make_allocator config) in
    let v = (run-IsValid cs _ (make_allocator-IsValid config)).ledger in
    let size : length s.blocks ≡ clamp_positive config.total_blocks 1 =
      v.size ∙ ap (λ c. c.total_blocks) (run-config cs (make_allocator config)) in
    (size, omega (arith, free_block_count-le s.blocks), v.used_le, v.watermark_le)
