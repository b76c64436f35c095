-- ===== src/Kv/Exhaustion.antt =====
-- Where the loop of `EvictIdlePrefixesUntil` (`evict_from` of Blocks) stops.
use laminar_inference.Base.{
  ℕ, ◌+◌, ◌≤◌, ◌≡◌, refl, ==_iff, update_all-point, ◌⊎◌, inl, inr, true, false, Bool-cases, List,
  [], ◌∷◌, get_elem?, count, ◌==◌, arith,
}
use laminar_inference.Base.Assoc.{Map}
use laminar_inference.Kv.Blocks.{
  block_is_idle, Block, PrefixEntry, evict_from, prefix_entry_is_idle, free_blocks,
  free_block_count,
}

-- Each entry has a block with a holder.
abbrev pub AllBusy : List Block → Map PrefixEntry → Type 0
AllBusy bs [] = Unit
AllBusy bs ((k, e) ∷ m) = (prefix_entry_is_idle bs e.block_ids ≡ false) × AllBusy bs m

-- A block with a holder is not named by an idle entry.
count_of_idle :
    (bs : List Block) (ids : List ℕ) (j : ℕ)
    → prefix_entry_is_idle bs ids ≡ true
    → block_is_idle (get_elem? bs j) ≡ false
    → count j ids ≡ 0
unfolding prefix_entry_is_idle
count_of_idle bs [] j idle busy = refl
count_of_idle bs (i ∷ ids) j idle busy = elim (Bool-cases (j == i)) [
  | inl e ↦
      let same : j ≡ i = (==_iff j i).0 e in
      let free : block_is_idle (get_elem? bs j) ≡ true = rw same (ground arith) in cc
  | inr e ↦ ground (arith, count_of_idle bs ids j)
]

free_blocks-unnamed :
    (ids : List ℕ) (bs : List Block) (j : ℕ)
    → count j ids ≡ 0
    → get_elem? (free_blocks bs ids) j ≡ get_elem? bs j
unfolding free_blocks
free_blocks-unnamed ids bs j h =
    (update_all-point (λ n o. (n ≡ 0) × (o ≡ get_elem? bs j)) _
      (λ n o p. absurd (omega (arith, p.0))) ids bs j (h, refl)).1

-- An entry in use stays so while idle entries are freed.
free_blocks-busy :
    (ids : List ℕ) (bs : List Block) (js : List ℕ)
    → prefix_entry_is_idle bs ids ≡ true
    → prefix_entry_is_idle bs js ≡ false
    → prefix_entry_is_idle (free_blocks bs ids) js ≡ false
unfolding prefix_entry_is_idle
free_blocks-busy ids bs [] idle busy = cc
free_blocks-busy ids bs (j ∷ js) idle busy = elim (Bool-cases (block_is_idle (get_elem? bs j))) [
  | inr e ↦ rw (free_blocks-unnamed ids bs j (count_of_idle bs ids j idle e), e)
  | inl e ↦ ground (arith, free_blocks-busy ids bs js)
]

evict_from-busy :
    (required : ℕ) (m : Map PrefixEntry) (bs : List Block) (n : ℕ) (js : List ℕ)
    → prefix_entry_is_idle bs js ≡ false
    → prefix_entry_is_idle (evict_from required m bs n).blocks js ≡ false
unfolding evict_from
evict_from-busy required [] bs n js busy = busy
evict_from-busy required ((k, e) ∷ m) bs n js busy = ground (
  arith,
  free_blocks-busy e.block_ids bs js,
  evict_from-busy required m (free_blocks bs e.block_ids) (n + 1) js,
  evict_from-busy required m bs n js,
)

-- The loop of `EvictIdlePrefixesUntil`, begun at any entry, stops with as many free blocks as are wanted,
-- or with every entry from there on that is left in use.
pub evict_from-exhausts :
    (required : ℕ) (m : Map PrefixEntry) (bs : List Block) (n : ℕ)
    → let e = evict_from required m bs n in
      (required ≤ free_block_count e.blocks) ⊎ AllBusy e.blocks e.prefix_cache
unfolding evict_from
evict_from-exhausts required [] bs n = inr tt
evict_from-exhausts required ((k, e) ∷ m) bs n = ground (
  arith,
  evict_from-exhausts required m (free_blocks bs e.block_ids) (n + 1),
  evict_from-exhausts required m bs n,
  evict_from-busy required m bs n e.block_ids,
)
