-- ===== src/Kv/Ledger.antt =====
-- The invariant of `Impl`, with ids that an operation under way has handed out but not yet recorded,
-- through eviction and `AllocateBlocks` (Allocate).
use laminar_inference.Base.{
  ℕ, ◌+◌, ◌≤◌, ◌<◌, ◌≡◌, ◌≢◌, subst, subst₂, inl, inr, true, false, Bool-cases, List, [], ◌++◌,
  length, get_elem?, count, count-append, leb, arith,
}
use laminar_inference.Base.Text.{Str, is_empty}
use laminar_inference.Base.Assoc.{Map, total}
use laminar_inference.Kv.Blocks.{evict_from, claim, free_block_count, used_block_count}
use laminar_inference.Kv.State.{Impl, Sequence}
use laminar_inference.Kv.Allocate.{
  evict_idle_prefixes_until, ensure_free_blocks, claim_blocks, count_failure,
  refresh_high_watermark, allocate_blocks,
}
use laminar_inference.Kv.Accounts.{Accounts}
use laminar_inference.Kv.Claims.{
  claim-Claimed, Claimed-Accounts, Claimed-Accounts_keyed, length-claim,
}
use laminar_inference.Kv.Evictions.{cached_count, Evicts, evict_from-Evicts, evict_from-free}

-- How often the sequences name a block.
abbrev pub held_count : Map Sequence → ℕ → ℕ
held_count m i = total (λ q. count i q.block_ids) m

-- Every block has as many references as the sequences, and the ids `held` of a sequence to come, name
-- it; the prefix cache, with the ids `cached` of an entry to come, names it at most once; a block that
-- is occupied without being held is a cached one. The array keeps its size, and the high watermark
-- lies between the blocks in use and the size.
pub record Ledger (held cached : List ℕ) (s : Impl) : Type 0 where
  pub accounts :
      (i : ℕ)
      → Accounts
          (get_elem? s.blocks i)
          (held_count s.sequences i + count i held)
          (cached_count s.prefix_cache i + count i cached)
  pub size : length s.blocks ≡ s.config.total_blocks
  pub used_le : used_block_count s.blocks ≤ s.stats.high_watermark_blocks
  pub watermark_le : s.stats.high_watermark_blocks ≤ length s.blocks

module _ (held cached : List ℕ) (s : Impl) (v : Ledger held cached s) where
  pub evict_idle_prefixes_until-Evicts :
      (n i : ℕ)
      → Evicts s.prefix_cache i
          (held_count s.sequences i + count i held)
          (count i cached)
          (evict_from n s.prefix_cache s.blocks s.stats.evictions)
  evict_idle_prefixes_until-Evicts n i =
      evict_from-Evicts n s.prefix_cache s.blocks s.stats.evictions i _ _
        (subst (Accounts (get_elem? s.blocks i) _) (omega arith) (v.accounts i))

  evict_idle_prefixes_until-Ledger : (n : ℕ) → Ledger held cached (evict_idle_prefixes_until n s)
  unfolding evict_idle_prefixes_until used_block_count
  evict_idle_prefixes_until-Ledger n =
      let free = evict_from-free n s.prefix_cache s.blocks s.stats.evictions in
      record {
        accounts =
            λ i. subst (Accounts _ _) (omega arith) (evict_idle_prefixes_until-Evicts n i).accounts;
        size = omega (arith, v.size);
        used_le = omega (arith, v.used_le);
        watermark_le = omega (arith, v.watermark_le);
      }

  pub ensure_free_blocks-Ledger : (n : ℕ) → Ledger held cached (ensure_free_blocks n s).0
  unfolding ensure_free_blocks
  ensure_free_blocks-Ledger n = elim (Bool-cases (leb n (free_block_count s.blocks))) [
    | inl e ↦ rw e v
    | inr e ↦ rw e (evict_idle_prefixes_until-Ledger n)
  ]

  claim_blocks-Ledger_of :
      (n : ℕ) (key : Str) (cached' : List ℕ)
      → ((i : ℕ)
          → Accounts
              (get_elem? (claim 0 n key s.blocks).0 i)
              (held_count s.sequences i + count i (held ++ (claim 0 n key s.blocks).1))
              (cached_count s.prefix_cache i + count i cached'))
      → Ledger (held ++ (claim_blocks n key s).1) cached' (claim_blocks n key s).0
  unfolding claim_blocks refresh_high_watermark used_block_count
  claim_blocks-Ledger_of n key cached' a =
      let l = length-claim 0 n key s.blocks in
      record {
        accounts = a;
        size = omega (arith, v.size);
        used_le = omega arith;
        watermark_le = omega (arith, v.watermark_le);
      }

  -- New blocks for the rest of a prompt, or for generated tokens.
  pub claim_blocks-Ledger :
      (n : ℕ) → Ledger (held ++ (claim_blocks n [] s).1) cached (claim_blocks n [] s).0
  unfolding claim_blocks
  claim_blocks-Ledger n = claim_blocks-Ledger_of n [] cached λ i.
      let ids = (claim 0 n [] s.blocks).1 in
      let e : held_count s.sequences i + count i held + count i ids
          ≡ held_count s.sequences i + count i (held ++ ids) =
        omega (arith, count-append i held ids) in
      subst
        (λ h.
          Accounts (get_elem? (claim 0 n [] s.blocks).0 i) h
            (cached_count s.prefix_cache i + count i cached))
        e
        (Claimed-Accounts _ _ _ _ _ (claim-Claimed 0 n [] s.blocks i i (omega arith))
          (v.accounts i))

-- The answer of `EnsureFreeBlocks` is right.
pub ensured :
    (n : ℕ) (s : Impl)
    → (ensure_free_blocks n s).1 ≡ true
    → n ≤ free_block_count (ensure_free_blocks n s).0.blocks
unfolding ensure_free_blocks
ensured n s h = ground arith

-- New blocks for a prefix: nobody held them, and they are about to join the cache.
pub claim_blocks-Ledger_keyed :
    (s : Impl) (n : ℕ) (key : Str)
    → is_empty key ≡ false
    → Ledger [] [] s
    → let r = claim_blocks n key s in
      Ledger r.1 r.1 r.0 × ((i : ℕ) → 0 < count i r.1 → held_count r.0.sequences i ≡ 0)
unfolding claim_blocks refresh_high_watermark
claim_blocks-Ledger_keyed s n key k v =
    let ids = (claim 0 n key s.blocks).1 in
    let each = λ (i : ℕ).
      Claimed-Accounts_keyed key (count i ids) _ _ _ _ k
        (claim-Claimed 0 n key s.blocks i i (omega arith)) (v.accounts i) in
    (
      claim_blocks-Ledger_of [] [] s v n key ids (λ i.
          subst₂ (Accounts (get_elem? (claim 0 n key s.blocks).0 i)) (omega arith) (omega arith)
            (each i).0),
      λ i h. omega (arith, (each i).1 h),
    )

pub count_failure-Ledger :
    {held cached : List ℕ} (s : Impl) → Ledger held cached s → Ledger held cached (count_failure s)
count_failure-Ledger s v = record {
  accounts = v.accounts;
  size = v.size;
  used_le = v.used_le;
  watermark_le = v.watermark_le;
}

-- The ways through `AllocateBlocks`: nothing wanted, a failure, or blocks from an array with enough.
pub allocate_blocks_cases {ℓ} :
    (P : Impl × List ℕ → Type ℓ) (n : ℕ) (key : Str) (s : Impl)
    → (n ≡ 0 → P (s, []))
    → (n ≢ 0 → P (count_failure (ensure_free_blocks n s).0, []))
    → (n ≢ 0
        → n ≤ free_block_count (ensure_free_blocks n s).0.blocks
        → P (claim_blocks n key (ensure_free_blocks n s).0))
    → P (allocate_blocks n key s)
unfolding allocate_blocks
allocate_blocks_cases P n key s zero_case failed claimed = elim (Bool-cases (leb n 0)) [
  | inl e ↦ rw e (zero_case (ground arith))
  | inr e ↦ elim (Bool-cases (ensure_free_blocks n s).1) [
    | inr f ↦ rw (e, f) (failed (ground arith))
    | inl f ↦ rw (e, f) (claimed (ground arith) (ensured n s f))
  ]
]
