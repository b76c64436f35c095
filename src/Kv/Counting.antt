-- ===== src/Kv/Counting.antt =====
-- The loops over given ids (Blocks): the array's length and its free blocks.
use native.Mathlib.Nat.{le_trans}
use laminar_inference.Base.{
  ℕ, zero, suc, ◌≤◌, ◌≡◌, refl, false, List, [], ◌∷◌, length, update_at, update_all,
  length-update_all, arith,
}
use laminar_inference.Kv.Blocks.{
  Block, empty_block, add_ref, drop_ref, release_block, free_blocks, add_refs, drop_refs,
  release_blocks, free_block_count,
}

-- The round of such a loop leaves a free block free.
KeepsFree : (Block → Block) → Type 0
KeepsFree f = (b : Block) → b.occupied ≡ false → (f b).occupied ≡ false

free_block_count-update_at :
    (f : Block → Block)
    → KeepsFree f
    → (bs : List Block) (i : ℕ) → free_block_count bs ≤ free_block_count (update_at f bs i)
unfolding KeepsFree
free_block_count-update_at f keeps [] i = omega arith
free_block_count-update_at f keeps (b ∷ bs) zero = ground (arith, keeps b)
free_block_count-update_at f keeps (b ∷ bs) (suc i) =
    omega (arith, free_block_count-update_at f keeps bs i)

free_block_count-update_all :
    (f : Block → Block)
    → KeepsFree f
    → (ids : List ℕ) (bs : List Block)
    → free_block_count bs ≤ free_block_count (update_all f bs ids)
unfolding update_all
free_block_count-update_all f keeps [] bs = omega arith
free_block_count-update_all f keeps (i ∷ ids) bs =
    le_trans (free_block_count-update_at f keeps bs i)
      (free_block_count-update_all f keeps ids (update_at f bs i))

pub length-free_blocks : (ids : List ℕ) (bs : List Block) → length (free_blocks bs ids) ≡ length bs
unfolding free_blocks
length-free_blocks ids bs = length-update_all _ bs ids

pub free_block_count-free_blocks :
    (ids : List ℕ) (bs : List Block) → free_block_count bs ≤ free_block_count (free_blocks bs ids)
unfolding free_blocks KeepsFree
free_block_count-free_blocks ids bs =
    free_block_count-update_all (λ b. empty_block) (λ b h. refl) ids bs

pub length-add_refs : (ids : List ℕ) (bs : List Block) → length (add_refs bs ids) ≡ length bs
unfolding add_refs
length-add_refs ids bs = length-update_all _ bs ids

pub free_block_count-add_refs :
    (ids : List ℕ) (bs : List Block) → free_block_count bs ≤ free_block_count (add_refs bs ids)
unfolding add_refs KeepsFree
free_block_count-add_refs ids bs = free_block_count-update_all add_ref (λ b h. h) ids bs

pub length-drop_refs : (ids : List ℕ) (bs : List Block) → length (drop_refs bs ids) ≡ length bs
unfolding drop_refs
length-drop_refs ids bs = length-update_all _ bs ids

pub free_block_count-drop_refs :
    (ids : List ℕ) (bs : List Block) → free_block_count bs ≤ free_block_count (drop_refs bs ids)
unfolding drop_refs KeepsFree
free_block_count-drop_refs ids bs = free_block_count-update_all drop_ref (λ b h. h) ids bs

pub length-release_blocks :
    (ids : List ℕ) (bs : List Block) → length (release_blocks bs ids) ≡ length bs
unfolding release_blocks
length-release_blocks ids bs = length-update_all _ bs ids

pub free_block_count-release_blocks :
    (ids : List ℕ) (bs : List Block)
    → free_block_count bs ≤ free_block_count (release_blocks bs ids)
unfolding release_blocks KeepsFree release_block
free_block_count-release_blocks ids bs =
    free_block_count-update_all release_block (λ b h. ground arith) ids bs
