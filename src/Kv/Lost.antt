-- ===== src/Kv/Lost.antt =====
-- A block that is occupied under a prefix key while no prefix of the cache names it: the loops over
-- blocks and `AllocateBlocks` on such a block.
use mathlib.Core.Option
use laminar_inference.Base.{
  ℕ, ◌+◌, ◌≡◌, refl, inl, inr, true, false, Bool-cases, List, [], ◌∷◌, Option, none, some,
  get_elem?, count, update_all, update_all-point, ltb, leb, arith,
}
use laminar_inference.Base.Text.{Str, is_empty}
use laminar_inference.Base.Assoc.{Map}
use laminar_inference.Kv.Blocks.{
  Block, PrefixEntry, empty_block, add_ref, drop_ref, release_block, add_refs, drop_refs,
  release_blocks, free_blocks, evict_from, free_block_count, prefix_entry_is_idle,
}
use laminar_inference.Kv.State.{Impl}
use laminar_inference.Kv.Allocate.{
  evict_idle_prefixes_until, ensure_free_blocks, claim_blocks, refresh_high_watermark,
  allocate_blocks,
}
use laminar_inference.Kv.Claims.{Claimed, claim-Claimed}
use laminar_inference.Kv.Evictions.{cached_count}
use laminar_inference.Kv.Ledger.{allocate_blocks_cases}

abbrev pub IsStuck : Option Block → Type 0
IsStuck none = ⊥
IsStuck (some b) = (b.occupied ≡ true) × (is_empty b.cached_prefix_key ≡ false)

pub record IsLost (i : ℕ) (s : Impl) : Type 0 where
  pub stuck : IsStuck (get_elem? s.blocks i)
  pub uncached : cached_count s.prefix_cache i ≡ 0

KeepsStuck : (Block → Block) → Type 0
KeepsStuck f = (b : Block) → IsStuck (some b) → IsStuck (some (f b))

update_all-IsStuck :
    (f : Block → Block)
    → KeepsStuck f
    → (ids : List ℕ) (bs : List Block) (i : ℕ) → IsStuck (get_elem? bs i)
    → IsStuck (get_elem? (update_all f bs ids) i)
unfolding KeepsStuck
update_all-IsStuck f keeps ids bs i =
    update_all-point (λ n o. IsStuck o) f (mapped f keeps) ids bs i
  where
    mapped :
        (f : Block → Block)
        → ((b : Block) → IsStuck (some b) → IsStuck (some (f b)))
        → (n : ℕ) (o : Option Block) → IsStuck o
        → IsStuck (Option.map f o)
    mapped f keeps n none h = h
    mapped f keeps n (some b) h = keeps b h

pub add_refs-IsStuck :
    (ids : List ℕ) (bs : List Block) (i : ℕ)
    → IsStuck (get_elem? bs i)
    → IsStuck (get_elem? (add_refs bs ids) i)
unfolding add_refs KeepsStuck
add_refs-IsStuck ids bs i = update_all-IsStuck add_ref (λ b h. h) ids bs i

pub drop_refs-IsStuck :
    (ids : List ℕ) (bs : List Block) (i : ℕ)
    → IsStuck (get_elem? bs i)
    → IsStuck (get_elem? (drop_refs bs ids) i)
unfolding drop_refs KeepsStuck
drop_refs-IsStuck ids bs i = update_all-IsStuck drop_ref (λ b h. h) ids bs i

pub release_blocks-IsStuck :
    (ids : List ℕ) (bs : List Block) (i : ℕ)
    → IsStuck (get_elem? bs i)
    → IsStuck (get_elem? (release_blocks bs ids) i)
unfolding release_blocks KeepsStuck release_block
release_blocks-IsStuck ids bs i = update_all-IsStuck release_block (λ b h. ground arith) ids bs i

pub free_blocks-IsStuck :
    (ids : List ℕ) (bs : List Block) (i : ℕ)
    → count i ids ≡ 0
    → IsStuck (get_elem? bs i)
    → IsStuck (get_elem? (free_blocks bs ids) i)
unfolding free_blocks
free_blocks-IsStuck ids bs i h k =
    (update_all-point (λ n o. (n ≡ 0) × IsStuck o) (λ b. empty_block)
      (λ n o p. absurd (omega (arith, p.0))) ids bs i (h, k)).1

evict_from-IsLost :
    (required : ℕ) (m : Map PrefixEntry) (bs : List Block) (n i : ℕ)
    → cached_count m i ≡ 0
    → IsStuck (get_elem? bs i)
    → let e = evict_from required m bs n in
      (cached_count e.prefix_cache i ≡ 0) × IsStuck (get_elem? e.blocks i)
unfolding evict_from
evict_from-IsLost required [] bs n i z k = (z, k)
evict_from-IsLost required ((key, e) ∷ m) bs n i z k =
    let idle =
      evict_from-IsLost required m (free_blocks bs e.block_ids) (n + 1) i (omega arith)
        (free_blocks-IsStuck e.block_ids bs i (omega arith) k) in
    let busy = evict_from-IsLost required m bs n i (omega arith) k in
    elim (Bool-cases (ltb (free_block_count bs) required)) [
      | inr enough ↦ rw enough (z, k)
      | inl few ↦ elim (Bool-cases (prefix_entry_is_idle bs e.block_ids)) [
        | inl yes' ↦ rw (few, yes') idle
        | inr no' ↦ rw (few, no') (omega (arith, busy.0), busy.1)
      ]
    ]

pub Claimed-IsStuck :
    (key : Str) (n : ℕ) (before after : Option Block)
    → Claimed key n before after
    → IsStuck before
    → (n ≡ 0) × IsStuck after
Claimed-IsStuck key n before after (inl (z, e)) k = (z, rw e k)
Claimed-IsStuck key n none after (inr (z, b, e, f, g)) k = absurd k
Claimed-IsStuck key n (some d) after (inr (z, b, e, f, g)) k = ground arith

ensure_free_blocks-IsLost : (n i : ℕ) (s : Impl) → IsLost i s → IsLost i (ensure_free_blocks n s).0
unfolding ensure_free_blocks evict_idle_prefixes_until
ensure_free_blocks-IsLost n i s v =
    let e = evict_from-IsLost n s.prefix_cache s.blocks s.stats.evictions i v.uncached v.stuck in
    elim (Bool-cases (leb n (free_block_count s.blocks))) [
      | inl f ↦ rw f v
      | inr f ↦ rw f (record { stuck = e.1; uncached = e.0 })
    ]

-- Nor is such a block handed out again.
pub allocate_blocks-IsLost :
    (n : ℕ) (key : Str) (i : ℕ) (s : Impl)
    → IsLost i s
    → IsLost i (allocate_blocks n key s).0 × (count i (allocate_blocks n key s).1 ≡ 0)
unfolding claim_blocks refresh_high_watermark
allocate_blocks-IsLost n key i s v =
    let u = ensure_free_blocks-IsLost n i s v in
    let t = (ensure_free_blocks n s).0 in
    let c = Claimed-IsStuck key _ _ _ (claim-Claimed 0 n key t.blocks i i (omega arith)) u.stuck in
    allocate_blocks_cases (λ r. IsLost i r.0 × (count i r.1 ≡ 0)) n key s (λ _. (v, refl))
      (λ _. (record { stuck = u.stuck; uncached = u.uncached }, refl))
      (λ _ _. (record { stuck = c.1; uncached = u.uncached }, c.0))
