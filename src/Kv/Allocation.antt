-- ===== src/Kv/Allocation.antt =====
-- `AllocateBlocks` (Allocate) as a whole: the invariant, the number of blocks, and what it leaves alone.
use mathlib.Core.List.{append-nil}
use laminar_inference.Base.{
  ℕ, ◌≤◌, ◌<◌, ◌≡◌, ◌≢◌, refl, ◌⊎◌, inl, inr, true, false, Bool-cases, List, [], ◌++◌, length,
  count, leb, arith,
}
use laminar_inference.Base.Text.{Str, is_empty}
use laminar_inference.Kv.Blocks.{free_block_count}
use laminar_inference.Kv.State.{Impl}
use laminar_inference.Kv.Allocate.{
  evict_idle_prefixes_until, ensure_free_blocks, claim_blocks, refresh_high_watermark,
  allocate_blocks,
}
use laminar_inference.Kv.Claims.{free_block_count-claim}
use laminar_inference.Kv.Evictions.{cached_count}
use laminar_inference.Kv.Ledger.{
  Ledger, held_count, count_failure-Ledger, allocate_blocks_cases, claim_blocks-Ledger_keyed,
  ensure_free_blocks-Ledger, claim_blocks-Ledger, evict_idle_prefixes_until-Evicts,
}

length-claim_blocks :
    (n : ℕ) (key : Str) (s : Impl)
    → n ≤ free_block_count s.blocks
    → length (claim_blocks n key s).1 ≡ n
unfolding claim_blocks
length-claim_blocks n key s h = (free_block_count-claim 0 n key s.blocks).1 h

-- `AllocateBlocks` gives exactly as many blocks as are wanted, or none.
pub length-allocate_blocks :
    (n : ℕ) (key : Str) (s : Impl)
    → (length (allocate_blocks n key s).1 ≡ n) ⊎ ((allocate_blocks n key s).1 ≡ [])
length-allocate_blocks n key s =
    allocate_blocks_cases (λ r. (length r.1 ≡ n) ⊎ (r.1 ≡ [])) n key s (λ _. inr refl)
      (λ _. inr refl) λ _ h. inl (length-claim_blocks n key _ h)

pub allocate_blocks-Ledger :
    (held cached : List ℕ) (n : ℕ) (s : Impl)
    → Ledger held cached s
    → Ledger (held ++ (allocate_blocks n [] s).1) cached (allocate_blocks n [] s).0
allocate_blocks-Ledger held cached n s v =
    let u = ensure_free_blocks-Ledger held cached s v n in
    allocate_blocks_cases (λ r. Ledger (held ++ r.1) cached r.0) n [] s (λ _. rw append-nil v)
      (λ _. rw append-nil (count_failure-Ledger _ u)) (λ _ _. claim_blocks-Ledger held cached _ u n)

-- The same for the blocks of a new prefix. A prompt without a prefix key wants none of these.
pub allocate_blocks-Ledger_keyed :
    (n : ℕ) (key : Str) (s : Impl)
    → (is_empty key ≡ true → n ≡ 0)
    → Ledger [] [] s
    → let r = allocate_blocks n key s in
      Ledger r.1 r.1 r.0 × ((i : ℕ) → 0 < count i r.1 → held_count r.0.sequences i ≡ 0)
allocate_blocks-Ledger_keyed n key s unkeyed v =
    let u = ensure_free_blocks-Ledger [] [] s v n in
    allocate_blocks_cases
      (λ r. Ledger r.1 r.1 r.0 × ((i : ℕ) → 0 < count i r.1 → held_count r.0.sequences i ≡ 0)) n key
      s (λ _. (v, λ i h. absurd (omega arith)))
      (λ _. (count_failure-Ledger _ u, λ i h. absurd (omega arith)))
      (λ h _. claim_blocks-Ledger_keyed _ n key (keyed h) u)
  where
    keyed : n ≢ 0 → is_empty key ≡ false
    keyed h = elim (Bool-cases (is_empty key)) [ inl e ↦ absurd (h (unkeyed e)) | inr e ↦ e ]

-- What the allocation of blocks leaves alone.
pub record Frame (s t : Impl) : Type 0 where
  pub config : t.config ≡ s.config
  pub sequences : t.sequences ≡ s.sequences
  pub cached_held :
      (i : ℕ) (held : List ℕ)
      → Ledger held [] s
      → 0 < count i held
      → cached_count t.prefix_cache i ≡ cached_count s.prefix_cache i

evict_idle_prefixes_until-Frame : (n : ℕ) (s : Impl) → Frame s (evict_idle_prefixes_until n s)
unfolding evict_idle_prefixes_until
evict_idle_prefixes_until-Frame n s = record {
  config = refl;
  sequences = refl;
  cached_held =
      λ i held v h. (evict_idle_prefixes_until-Evicts held [] s v n i).keeps_held (omega arith);
}

ensure_free_blocks-Frame : (n : ℕ) (s : Impl) → Frame s (ensure_free_blocks n s).0
unfolding ensure_free_blocks
ensure_free_blocks-Frame n s = elim (Bool-cases (leb n (free_block_count s.blocks))) [
  | inl e ↦ rw e (record { config = refl; sequences = refl; cached_held = λ i held v h. refl })
  | inr e ↦ rw e (evict_idle_prefixes_until-Frame n s)
]

pub allocate_blocks-Frame : (n : ℕ) (key : Str) (s : Impl) → Frame s (allocate_blocks n key s).0
unfolding claim_blocks refresh_high_watermark
allocate_blocks-Frame n key s =
    let f = ensure_free_blocks-Frame n s in
    allocate_blocks_cases (λ r. Frame s r.0) n key s
      (λ _. record { config = refl; sequences = refl; cached_held = λ i held v h. refl })
      (λ _. record { config = f.config; sequences = f.sequences; cached_held = f.cached_held })
      (λ _ _. record { config = f.config; sequences = f.sequences; cached_held = f.cached_held })
