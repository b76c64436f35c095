-- ===== src/Kv/Invariant.antt =====
-- The invariant of `KvBlockAllocator` between calls, and the bookkeeping that the methods of Kv share.
use laminar_inference.Base.{
  ℕ, ◌+◌, ◌≤◌, ◌≡◌, refl, ap, subst₂, inl, inr, false, List, [], ◌++◌, Option, none, some, length,
  get_elem?, count, count-append, ◌==◌, arith,
}
use laminar_inference.Base.Text.{Str}
use laminar_inference.Base.Assoc.{find, emplace, IsUnique}
use laminar_inference.Base.Assoc.Laws.{total-place, place-IsUnique, emplace-place}
use laminar_inference.Kv.Blocks.{Block, free_block_count, used_block_count}
use laminar_inference.Kv.State.{Impl, Sequence}
use laminar_inference.Kv.Allocate.{allocate_blocks}
use laminar_inference.Kv.Accounts.{Accounts}
use laminar_inference.Kv.Evictions.{cached_count}
use laminar_inference.Kv.Ledger.{Ledger, held_count}
use laminar_inference.Kv.Allocation.{length-allocate_blocks}

pub record IsValid (s : Impl) : Type 0 where
  pub ledger : Ledger [] [] s
  pub unique : IsUnique s.sequences

-- A failed allocation gave no blocks.
pub none_of_short :
    (n : ℕ) (key : Str) (s : Impl)
    → (length (allocate_blocks n key s).1 == n) ≡ false
    → (allocate_blocks n key s).1 ≡ []
none_of_short n key s h = elim (length-allocate_blocks n key s) [ inl e ↦ ground arith | inr e ↦ e ]

module _ (id : Str) (q : Sequence) (s : Impl) (absent : find id s.sequences ≡ none) where
  held_count-emplace :
      (i : ℕ)
      → held_count (emplace id q s.sequences) i ≡ count i q.block_ids + held_count s.sequences i
  held_count-emplace i = rw (emplace-place id q s.sequences absent) (total-place id q _ s.sequences)

  pub emplace-IsUnique : IsUnique s.sequences → IsUnique (emplace id q s.sequences)
  emplace-IsUnique u =
      rw (emplace-place id q s.sequences absent) (place-IsUnique id q s.sequences absent u)

-- A change that keeps the watermark and the array's length, and takes no free block.
pub record Kept (s t : Impl) : Type 0 where
  pub config : t.config ≡ s.config
  pub watermark : t.stats.high_watermark_blocks ≡ s.stats.high_watermark_blocks
  pub width : length t.blocks ≡ length s.blocks
  pub free : free_block_count s.blocks ≤ free_block_count t.blocks

pub Kept-Ledger :
    {held cached held' cached' : List ℕ} (s t : Impl)
    → Kept s t
    → Ledger held cached s
    → ((i : ℕ)
        → Accounts
            (get_elem? s.blocks i)
            (held_count s.sequences i + count i held)
            (cached_count s.prefix_cache i + count i cached)
        → Accounts
            (get_elem? t.blocks i)
            (held_count t.sequences i + count i held')
            (cached_count t.prefix_cache i + count i cached'))
    → Ledger held' cached' t
unfolding used_block_count
Kept-Ledger s t k v a = record {
  accounts = λ i. a i (v.accounts i);
  size = rw (k.config, k.width) v.size;
  used_le = omega (arith, k.watermark, k.width, k.free, v.used_le);
  watermark_le = omega (arith, k.watermark, k.width, v.watermark_le);
}

pub recount :
    (o : Option Block) {held held' cached cached' : ℕ}
    → held ≡ held'
    → cached ≡ cached'
    → Accounts o held cached
    → Accounts o held' cached'
recount o h c a = subst₂ (Accounts o) h c a

-- A sequence begins with the blocks that were handed out for it.
pub emplace-Accounts :
    (id : Str) (q : Sequence) (t : Impl) (i : ℕ) (o : Option Block) (cached : ℕ)
    → find id t.sequences ≡ none
    → Accounts o (held_count t.sequences i + count i q.block_ids) cached
    → Accounts o (held_count (emplace id q t.sequences) i + count i []) cached
emplace-Accounts id q t i o cached absent =
    recount o (omega (arith, held_count-emplace id q t absent i)) refl

-- Nothing was handed out beside `ids`.
pub short-Accounts :
    (ids more : List ℕ) (i held cached : ℕ) (o : Option Block)
    → more ≡ []
    → Accounts o (held + count i (ids ++ more)) cached
    → Accounts o (held + count i [] + count i ids) cached
short-Accounts ids more i held cached o e =
    recount o (omega (arith, count-append i ids more, ap (count i) e)) refl

pub Accounts-mono :
    (o : Option Block) (held cached cached' : ℕ)
    → cached' ≤ cached
    → Accounts o held cached
    → Accounts o held cached'
Accounts-mono none held cached cached' h a = omega arith
Accounts-mono (some b) held cached cached' h a = ground arith
