-- ===== src/Kv/Evictions.antt =====
-- The loop of `EvictIdlePrefixesUntil` (`evict_from` of Blocks): which entries and blocks it touches.
use laminar_inference.Base.{
  ℕ, zero, suc, ◌+◌, ◌≤◌, ◌<◌, ◌≡◌, refl, subst, ==_iff, inl, inr, true, Bool-cases, List, [], ◌∷◌,
  Option, none, some, length, get_elem?, count, ltb, ◌==◌, arith,
}
use laminar_inference.Base.Assoc.{Map, total}
use laminar_inference.Kv.Blocks.{
  block_is_idle, Block, PrefixEntry, Evicted, evict_from, prefix_entry_is_idle, free_blocks,
  free_block_count,
}
use laminar_inference.Kv.Counting.{length-free_blocks, free_block_count-free_blocks}
use laminar_inference.Kv.Accounts.{Accounts, free_blocks-Accounts}

-- How often the cached prefixes name a block.
abbrev pub cached_count : Map PrefixEntry → ℕ → ℕ
cached_count m i = total (λ e. count i e.block_ids) m

held_of_idle :
    (o : Option Block) (held cached : ℕ)
    → block_is_idle o ≡ true
    → Accounts o held cached
    → held ≡ 0
held_of_idle none held cached idle a = a.0
held_of_idle (some b) held cached idle a = ground arith

-- A block of an idle entry has no holder.
pub idle-held :
    (bs : List Block) (ids : List ℕ) (i held cached : ℕ)
    → prefix_entry_is_idle bs ids ≡ true
    → Accounts (get_elem? bs i) held cached
    → 0 < count i ids
    → held ≡ 0
unfolding prefix_entry_is_idle
idle-held bs [] i held cached idle a h = absurd (omega arith)
idle-held bs (j ∷ ids) i held cached idle a h = elim (Bool-cases (i == j)) [
  | inl e ↦
      held_of_idle (get_elem? bs j) held cached (ground arith)
        (subst (λ k. Accounts (get_elem? bs k) held cached) ((==_iff i j).0 e) a)
  | inr e ↦ idle-held bs ids i held cached (ground arith) a (ground arith)
]

unnamed : (n held : ℕ) → (0 < n → held ≡ 0) → 0 < held → n ≡ 0
unnamed zero held free h = refl
unnamed (suc n) held free h = absurd (omega (arith, free (omega arith)))

-- A block's accounts after an eviction: what `others` name aside, the entries that are left name it
-- as often as before if it has holders, and never more often.
pub record Evicts (m : Map PrefixEntry) (i held others : ℕ) (e : Evicted) : Type 0 where
  pub accounts : Accounts (get_elem? e.blocks i) held (others + cached_count e.prefix_cache i)
  pub keeps_held : 0 < held → cached_count e.prefix_cache i ≡ cached_count m i
  pub shrinks : cached_count e.prefix_cache i ≤ cached_count m i

pub evict_from-Evicts :
    (required : ℕ) (m : Map PrefixEntry) (bs : List Block) (n i held others : ℕ)
    → Accounts (get_elem? bs i) held (others + cached_count m i)
    → Evicts m i held others (evict_from required m bs n)
unfolding evict_from
evict_from-Evicts required [] bs n i held others a = record {
  accounts = a;
  keeps_held = λ _. refl;
  shrinks = omega arith;
}
evict_from-Evicts required ((k, e) ∷ m) bs n i held others a =
    elim (Bool-cases (ltb (free_block_count bs) required)) [
      | inr enough ↦
          rw enough (record { accounts = a; keeps_held = λ _. refl; shrinks = omega arith })
      | inl few ↦ elim (Bool-cases (prefix_entry_is_idle bs e.block_ids)) [
        | inl idle ↦
            let free : 0 < count i e.block_ids → held ≡ 0 =
              idle-held bs e.block_ids i held _ idle a in
            let r =
              evict_from-Evicts required m (free_blocks bs e.block_ids) (n + 1) i held others (
                free_blocks-Accounts e.block_ids bs i held (others + cached_count m i) free
                  (subst (Accounts (get_elem? bs i) held) (omega arith) a)) in
            rw (few, idle)
              (record {
                accounts = r.accounts;
                keeps_held =
                    λ h. omega (arith, unnamed (count i e.block_ids) held free h, r.keeps_held h);
                shrinks = omega (arith, r.shrinks);
              })
        | inr busy ↦
            let r =
              evict_from-Evicts required m bs n i held (others + count i e.block_ids)
                (subst (Accounts (get_elem? bs i) held) (omega arith) a) in
            rw (few, busy)
              (record {
                accounts = subst (Accounts _ held) (omega arith) r.accounts;
                keeps_held = λ h. omega (arith, r.keeps_held h);
                shrinks = omega (arith, r.shrinks);
              })
      ]
    ]

-- Eviction keeps the array's length and never lowers the number of free blocks.
pub evict_from-free :
    (required : ℕ) (m : Map PrefixEntry) (bs : List Block) (n : ℕ)
    → (length (evict_from required m bs n).blocks ≡ length bs)
      × (free_block_count bs ≤ free_block_count (evict_from required m bs n).blocks)
unfolding evict_from
evict_from-free required [] bs n = (refl, omega arith)
evict_from-free required ((k, e) ∷ m) bs n = ground (
  arith,
  evict_from-free required m (free_blocks bs e.block_ids) (n + 1),
  evict_from-free required m bs n,
  length-free_blocks e.block_ids bs,
  free_block_count-free_blocks e.block_ids bs,
)
