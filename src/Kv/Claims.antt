-- ===== src/Kv/Claims.antt =====
-- The loop of `AllocateBlocks` that hands out free blocks (`claim` of Blocks): what it does to each
-- block, and how many it hands out.
use native.Mathlib.Nat.{add-zero}
use laminar_inference.Base.{
  ℕ, zero, suc, ◌+◌, ◌≤◌, ◌<◌, ◌≡◌, refl, ◌⊎◌, inl, inr, false, List, [], ◌∷◌, Option, none, some,
  length, get_elem?, count, arith,
}
use laminar_inference.Base.Text.{Str, is_empty}
use laminar_inference.Kv.Blocks.{Block, claimed_block, claim, free_block_count}
use laminar_inference.Kv.Accounts.{Accounts}

-- What `claim` does to a block, by how often it hands the block out.
abbrev pub Claimed : Str → ℕ → Option Block → Option Block → Type 0
Claimed key n before after =
    ((n ≡ 0) × (after ≡ before))
    ⊎ ((n ≡ 1)
        × (b : Block) × (before ≡ some b)
        × (b.occupied ≡ false)
        × (after ≡ some (claimed_block key)))

count-claim_below :
    (index wanted : ℕ) (key : Str) (bs : List Block) (j : ℕ)
    → j < index
    → count j (claim index wanted key bs).1 ≡ 0
unfolding claim
count-claim_below index wanted key [] j h = refl
count-claim_below index zero key (b ∷ bs) j h = refl
count-claim_below index (suc w) key (b ∷ bs) j h = ground (
  arith,
  count-claim_below (suc index) (suc w) key bs j (omega arith),
  count-claim_below (suc index) w key bs j (omega arith),
)

pub claim-Claimed :
    (index wanted : ℕ) (key : Str) (bs : List Block) (k j : ℕ)
    → j ≡ index + k
    → Claimed key
        (count j (claim index wanted key bs).1)
        (get_elem? bs k)
        (get_elem? (claim index wanted key bs).0 k)
unfolding claim
claim-Claimed index wanted key [] k j e = inl (refl, refl)
claim-Claimed index zero key (b ∷ bs) k j e = inl (refl, refl)
claim-Claimed index (suc w) key (b ∷ bs) zero j e = ground (
  arith,
  count-claim_below (suc index) (suc w) key bs j (omega arith),
  count-claim_below (suc index) w key bs j (omega arith),
)
claim-Claimed index (suc w) key (b ∷ bs) (suc k) j e = ground (
  arith,
  claim-Claimed (suc index) (suc w) key bs k j (omega arith),
  claim-Claimed (suc index) w key bs k j (omega arith),
)

-- A block that is handed out was held by nobody, and has one holder now.
pub Claimed-Accounts :
    (n held cached : ℕ) (before after : Option Block)
    → Claimed [] n before after
    → Accounts before held cached
    → Accounts after (held + n) cached
Claimed-Accounts n held cached before after (inl (z, e)) a = rw (e, z, add-zero) a
Claimed-Accounts n held cached none after (inr (z, b, e, f, g)) a = cc
Claimed-Accounts n held cached (some d) after (inr (z, b, e, f, g)) a = rw g (ground arith)

-- The same where the block is about to join a cached prefix.
pub Claimed-Accounts_keyed :
    (key : Str) (n held cached : ℕ) (before after : Option Block)
    → is_empty key ≡ false
    → Claimed key n before after
    → Accounts before held cached
    → Accounts after (held + n) (cached + n) × (0 < n → held ≡ 0)
Claimed-Accounts_keyed key n held cached before after k (inl (z, e)) a =
    (rw (e, z, add-zero, add-zero) a, λ h. absurd (omega arith))
Claimed-Accounts_keyed key n held cached none after k (inr (z, b, e, f, g)) a = cc
Claimed-Accounts_keyed key n held cached (some d) after k (inr (z, b, e, f, g)) a =
    (rw (g, Accounts, k) (ground arith), λ h. ground arith)

pub length-claim :
    (index wanted : ℕ) (key : Str) (bs : List Block)
    → length (claim index wanted key bs).0 ≡ length bs
unfolding claim
length-claim index wanted key [] = refl
length-claim index zero key (b ∷ bs) = refl
length-claim index (suc w) key (b ∷ bs) =
    ground (arith, length-claim (suc index) (suc w) key bs, length-claim (suc index) w key bs)

-- The free blocks fall by as many as are handed out, which is all that are wanted if there are enough.
pub free_block_count-claim :
    (index wanted : ℕ) (key : Str) (bs : List Block)
    → (free_block_count (claim index wanted key bs).0 + length (claim index wanted key bs).1
        ≡ free_block_count bs)
      × (wanted ≤ free_block_count bs → length (claim index wanted key bs).1 ≡ wanted)
unfolding claim
free_block_count-claim index zero key [] = omega arith
free_block_count-claim index (suc w) key [] = omega arith
free_block_count-claim index zero key (b ∷ bs) = omega arith
free_block_count-claim index (suc w) key (b ∷ bs) = ground (
  arith,
  free_block_count-claim (suc index) (suc w) key bs,
  free_block_count-claim (suc index) w key bs,
)
