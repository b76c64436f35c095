-- ===== src/Kv/Accounts.antt =====
-- What the loops over the block array (Blocks) do to one block, against the numbers of holders and of
-- cached prefixes that name it.
use mathlib.Core.Option
use native.Mathlib.Nat.{add-zero, le_refl}
use laminar_inference.Base.{
  ℕ, suc, ◌+◌, ◌-◌, ◌≤◌, ◌<◌, ◌≡◌, subst, subst₂, Bool, true, false, List, Option, none, some,
  get_elem?, update_all-point, count, arith,
}
use laminar_inference.Base.Text.{is_empty}
use laminar_inference.Kv.Blocks.{
  Block, empty_block, free_blocks, add_ref, drop_ref, add_refs, drop_refs, release_block,
  release_blocks,
}

-- The state of a block that `held` ids of sequences and `cached` ids of prefix entries name, by
-- whether it is occupied and whether its prefix key is empty.
abbrev pub Status : Bool → Bool → ℕ → ℕ → Type 0
Status false unkeyed held cached = (held ≡ 0) × (cached ≡ 0)
Status true true held cached = (held ≡ 1) × (cached ≡ 0)
Status true false held cached = Unit {0}

abbrev pub Accounts : Option Block → ℕ → ℕ → Type 0
Accounts none held cached = (held ≡ 0) × (cached ≡ 0)
Accounts (some b) held cached =
    (b.ref_count ≡ held)
    × (cached ≤ 1)
    × Status b.occupied (is_empty b.cached_prefix_key) held cached

Freed : (held cached n : ℕ) → Option Block → Type 0
Freed held cached n o = (0 < n → held ≡ 0) × Accounts o held (cached + n)

free_step :
    (held cached n : ℕ) (o : Option Block)
    → Freed held cached (suc n) o
    → Freed held cached n (Option.map (λ b. empty_block) o)
unfolding Freed
free_step held cached n none (idle, a) = omega arith
free_step held cached n (some b) (idle, a) = omega (arith, idle (omega arith))

-- Freeing the blocks of an entry that leaves the cache, or of a prefix that never entered it.
pub free_blocks-Accounts :
    (ids : List ℕ) (bs : List Block) (i held cached : ℕ)
    → (0 < count i ids → held ≡ 0)
    → Accounts (get_elem? bs i) held (cached + count i ids)
    → Accounts (get_elem? (free_blocks bs ids) i) held cached
unfolding free_blocks Freed
free_blocks-Accounts ids bs i held cached idle a =
    subst (λ c. Accounts (get_elem? (free_blocks bs ids) i) held c) (add-zero cached)
      (update_all-point (Freed held cached) _ (free_step held cached) ids bs i (idle, a)).1

release_step :
    (held cached n : ℕ) (o : Option Block)
    → Accounts o (held + suc n) cached
    → Accounts (Option.map release_block o) (held + n) cached
unfolding release_block
release_step held cached n none a = absurd (omega arith)
release_step held cached n (some b) a = ground arith

-- The loop of `ReleaseSequence` takes one holder off a block for each time that it is named.
pub release_blocks-Accounts :
    (ids : List ℕ) (bs : List Block) (i held cached : ℕ)
    → Accounts (get_elem? bs i) (held + count i ids) cached
    → Accounts (get_elem? (release_blocks bs ids) i) held cached
unfolding release_blocks
release_blocks-Accounts ids bs i held cached a =
    subst (λ h. Accounts (get_elem? (release_blocks bs ids) i) h cached) (add-zero held)
      (update_all-point (λ n o. Accounts o (held + n) cached) _ (release_step held cached) ids bs i
        a)

Shared : (held total cached n : ℕ) → Option Block → Type 0
Shared held total cached n o =
    (n ≤ total) × (0 < n → 0 < cached) × Accounts o (held + (total - n)) cached

add_step :
    (held total cached n : ℕ) (o : Option Block)
    → Shared held total cached (suc n) o
    → Shared held total cached n (Option.map add_ref o)
unfolding Shared
add_step held total cached n none (le, keyed, a) = absurd (omega (arith, keyed (omega arith)))
add_step held total cached n (some b) (le, keyed, a) = ground (arith, keyed (omega arith))

-- Sharing a cached prefix adds one holder to each of its blocks.
pub add_refs-Accounts :
    (ids : List ℕ) (bs : List Block) (i held cached : ℕ)
    → (0 < count i ids → 0 < cached)
    → Accounts (get_elem? bs i) held cached
    → Accounts (get_elem? (add_refs bs ids) i) (held + count i ids) cached
unfolding add_refs Shared
add_refs-Accounts ids bs i held cached keyed a =
    let n = count i ids in
    let before : Accounts (get_elem? bs i) (held + (n - n)) cached =
      subst (λ h. Accounts (get_elem? bs i) h cached) (omega arith) a in
    subst (λ m. Accounts (get_elem? (add_refs bs ids) i) (held + m) cached) (omega arith)
      (update_all-point (Shared held n cached) _ (add_step held n cached) ids bs i
        (le_refl n, keyed, before)).2

Dropped : (held cached n : ℕ) → Option Block → Type 0
Dropped held cached n o = (0 < n → 0 < cached) × Accounts o (held + n) cached

drop_step :
    (held cached n : ℕ) (o : Option Block)
    → Dropped held cached (suc n) o
    → Dropped held cached n (Option.map drop_ref o)
unfolding Dropped
drop_step held cached n none (keyed, a) = absurd (omega arith)
drop_step held cached n (some b) (keyed, a) = ground (arith, keyed (omega arith))

-- Giving the shares back, on the path where the rest of the prompt does not fit.
pub drop_refs-Accounts :
    (ids : List ℕ) (bs : List Block) (i held cached : ℕ)
    → (0 < count i ids → 0 < cached)
    → Accounts (get_elem? bs i) (held + count i ids) cached
    → Accounts (get_elem? (drop_refs bs ids) i) held cached
unfolding drop_refs Dropped
drop_refs-Accounts ids bs i held cached keyed a =
    subst (λ h. Accounts (get_elem? (drop_refs bs ids) i) h cached) (add-zero held)
      (update_all-point (Dropped held cached) _ (drop_step held cached) ids bs i (keyed, a)).1

Unclaimed : (held cached n : ℕ) → Option Block → Type 0
Unclaimed held cached n o = (0 < n → held ≡ 0) × Accounts o (held + n) (cached + n)

unclaim_step :
    (held cached n : ℕ) (o : Option Block)
    → Unclaimed held cached (suc n) o
    → Unclaimed held cached n (Option.map (λ b. empty_block) o)
unfolding Unclaimed
unclaim_step held cached n none (idle, a) = absurd (omega arith)
unclaim_step held cached n (some b) (idle, a) = omega (arith, idle (omega arith))

-- Freeing the blocks that were claimed for a prefix which is given up.
pub free_blocks-Accounts_claimed :
    (ids : List ℕ) (bs : List Block) (i held cached : ℕ)
    → (0 < count i ids → held ≡ 0)
    → Accounts (get_elem? bs i) (held + count i ids) (cached + count i ids)
    → Accounts (get_elem? (free_blocks bs ids) i) held cached
unfolding free_blocks Unclaimed
free_blocks-Accounts_claimed ids bs i held cached idle a =
    subst₂ (λ h c. Accounts (get_elem? (free_blocks bs ids) i) h c) (add-zero held)
      (add-zero cached)
      (update_all-point (Unclaimed held cached) _ (unclaim_step held cached) ids bs i (idle, a)).1
