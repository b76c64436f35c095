-- ===== src/Kv/Overwrite.antt =====
-- `AllocatePrompt` (Kv) on a key that is cached with another token count.
use laminar_inference.Base.{
  ℕ, ◌+◌, ◌≤◌, ◌<◌, ◌≡◌, ◌≢◌, ◌∙◌, refl, sym, ap, inl, inr, true, false, Bool-cases, List, [],
  Option, none, some, length, get_elem?, count, ltb, leb, ◌==◌, arith,
}
use laminar_inference.Base.Int.{ℤ}
use laminar_inference.Base.Text.{Str, is_empty}
use laminar_inference.Base.Assoc.{contains, find, assign}
use laminar_inference.Kv.Blocks.{Block, PrefixEntry, free_block_count}
use laminar_inference.Kv.State.{Impl}
use laminar_inference.Kv.Allocate.{
  ensure_free_blocks, claim_blocks, refresh_high_watermark, allocate_blocks,
}
use laminar_inference.Kv.Claims.{claim-Claimed}
use laminar_inference.Kv.Evictions.{cached_count}
use laminar_inference.Kv.Calls.{Call, run}
use laminar_inference.Kv.{
  count_miss, cached_prefix, plan_prompt, PromptPlan, attach_fresh, allocate_fresh, place_prompt,
  allocate_prompt,
}
use laminar_inference.Kv.Lost.{Claimed-IsStuck, IsStuck, IsLost}
use laminar_inference.Base.Assoc.Laws.{total-overwrite, find-total}
use laminar_inference.Kv.Accounts.{Accounts}
use laminar_inference.Kv.Claims.{free_block_count-claim}
use laminar_inference.Kv.Invariant.{IsValid}
use laminar_inference.Kv.Leak.{run-IsLost}

-- What `AllocateBlocks` does where no eviction is needed.
record Plenty (n i : ℕ) (s : Impl) (r : Impl × List ℕ) : Type 0 where
  given : length r.1 ≡ n
  cache : r.0.prefix_cache ≡ s.prefix_cache
  free : free_block_count r.0.blocks + n ≡ free_block_count s.blocks
  stuck : IsStuck (get_elem? s.blocks i) → (count i r.1 ≡ 0) × IsStuck (get_elem? r.0.blocks i)

claim_blocks-Plenty :
    (n : ℕ) (key : Str) (i : ℕ) (s : Impl)
    → n ≤ free_block_count s.blocks
    → Plenty n i s (claim_blocks n key s)
unfolding claim_blocks refresh_high_watermark
claim_blocks-Plenty n key i s h =
    let c = free_block_count-claim 0 n key s.blocks in
    record {
      given = c.1 h;
      cache = refl;
      free = omega (arith, c.0, c.1 h);
      stuck = Claimed-IsStuck key _ _ _ (claim-Claimed 0 n key s.blocks i i (omega arith));
    }

allocate_blocks-Plenty :
    (n : ℕ) (key : Str) (i : ℕ) (s : Impl)
    → n ≤ free_block_count s.blocks
    → Plenty n i s (allocate_blocks n key s)
unfolding allocate_blocks ensure_free_blocks
allocate_blocks-Plenty n key i s h =
    let enough : leb n (free_block_count s.blocks) ≡ true = ground arith in
    elim (Bool-cases (leb n 0)) [
      | inl e ↦ rw e (record {
        given = ground arith;
        cache = refl;
        free = ground arith;
        stuck = λ k. (refl, k);
      })
      | inr e ↦ rw (e, enough) (claim_blocks-Plenty n key i s h)
    ]

-- A block of a cached prefix is occupied under a key.
cached-IsStuck :
    (o : Option Block) (held cached : ℕ) → Accounts o held cached → 0 < cached → IsStuck o
cached-IsStuck none held cached a h = absurd (omega arith)
cached-IsStuck (some b) held cached a h = ground arith

at_most_once : (o : Option Block) (held cached : ℕ) → Accounts o held (cached + 0) → cached ≤ 1
at_most_once none held cached a = omega arith
at_most_once (some b) held cached a = omega arith

allocate_fresh_loses :
    (id key : Str) (p : PromptPlan) (old : PrefixEntry) (i : ℕ) (s : Impl)
    → IsStuck (get_elem? s.blocks i)
    → cached_count s.prefix_cache i ≤ 1
    → find key s.prefix_cache ≡ some old
    → 0 < count i old.block_ids
    → is_empty key ≡ false
    → 0 < p.cacheable_tokens
    → p.prefix_block_count + p.suffix_block_count ≤ free_block_count s.blocks
    → IsLost i (allocate_fresh id key p s).0 × ((allocate_fresh id key p s).1.ok ≡ true)
unfolding allocate_fresh attach_fresh assign
allocate_fresh_loses id key p old i s k once cached names keyed some_tokens room =
    let n = p.prefix_block_count in
    let m = p.suffix_block_count in
    let s1 = (allocate_blocks n key s).0 in
    let prefix = (allocate_blocks n key s).1 in
    let t = (allocate_blocks m [] s1).0 in
    let entry : PrefixEntry = record { token_count = p.cacheable_tokens; block_ids = prefix } in
    let a = allocate_blocks-Plenty n key i s (omega arith) in
    let b = allocate_blocks-Plenty m [] i s1 (omega (arith, a.free)) in
    let at_t : find key t.prefix_cache ≡ some old = rw (b.cache, a.cache) cached in
    let e : (length prefix == n) ≡ true = ground (arith, a.given) in
    let f : (length (allocate_blocks m [] s1).1 == m) ≡ true = ground (arith, b.given) in
    let g : ltb 0 p.cacheable_tokens ≡ true = ground arith in
    let caches : cached_count t.prefix_cache i ≡ cached_count s.prefix_cache i =
      ap (λ m. cached_count m i) (b.cache ∙ a.cache) in
    let swapped = total-overwrite key entry (λ x. count i x.block_ids) t.prefix_cache old at_t in
    let (z, k1) = a.stuck k in
    let (_, k2) = b.stuck k1 in
    rw (e, f, keyed, g, at_t, assign)
      (record { stuck = k2; uncached = omega (arith, swapped, caches, z) }, refl)

cached_prefix-stale :
    (key : Str) (cacheable : ℕ) (s : Impl) (e : PrefixEntry)
    → find key s.prefix_cache ≡ some e
    → e.token_count ≢ cacheable
    → cached_prefix key cacheable s ≡ none
unfolding cached_prefix
cached_prefix-stale key cacheable s e h n = rw (h, cached_prefix) (ground arith)

-- A prompt whose prefix key is cached with another token count, where the free blocks suffice: the
-- prompt is accepted, and each block of the entry that was cached is lost. After any further calls it is
-- still occupied, and no entry of the prefix cache names it, so that nothing can use or evict it.
pub allocate_prompt_loses :
    (s : Impl) (id : Str) (prompt_tokens : ℤ) (key : Str) (prefix_tokens : ℤ) (old : PrefixEntry)
    (i : ℕ) (cs : List Call)
    → IsValid s
    → is_empty id ≡ false
    → contains id s.sequences ≡ false
    → is_empty key ≡ false
    → find key s.prefix_cache ≡ some old
    → (plan_prompt s prompt_tokens key prefix_tokens).cacheable_tokens ≢ old.token_count
    → 0 < (plan_prompt s prompt_tokens key prefix_tokens).cacheable_tokens
    → (plan_prompt s prompt_tokens key prefix_tokens).prefix_block_count
        + (plan_prompt s prompt_tokens key prefix_tokens).suffix_block_count
      ≤ free_block_count s.blocks
    → 0 < count i old.block_ids
    → let r = allocate_prompt id prompt_tokens key prefix_tokens s in
      (r.1.ok ≡ true) × IsLost i (run cs r.0)
unfolding allocate_prompt place_prompt
allocate_prompt_loses s id prompt_tokens key prefix_tokens old i cs v named absent keyed cached
      stale some_tokens room names =
    let p = plan_prompt s prompt_tokens key prefix_tokens in
    let a = v.ledger.accounts i in
    let shares = find-total key (λ e. count i e.block_ids) s.prefix_cache old cached in
    let k = cached-IsStuck (get_elem? s.blocks i) _ _ a (omega (arith, shares)) in
    let missed = cached_prefix-stale key p.cacheable_tokens s old cached (λ e. stale (sym e)) in
    let g : ltb 0 p.cacheable_tokens ≡ true = ground arith in
    let (lost, done) =
      allocate_fresh_loses id key p old i (count_miss s) k
        (at_most_once (get_elem? s.blocks i) _ _ a) cached names keyed some_tokens room in
    rw (named, absent, keyed, g, missed, allocate_prompt, place_prompt)
      (done, run-IsLost cs i _ lost)
