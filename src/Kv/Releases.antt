-- ===== src/Kv/Releases.antt =====
-- What `ReleaseSequence` (Kv) does to the whole state of the allocator.
use mathlib.Core.Option
use laminar_inference.Base.{
  ℕ, suc, ◌-◌, ◌≡◌, refl, sym, ◌⊎◌, inl, inr, ◌&&◌, ◌∙◌, ap, Option-cases, List, none, some, Option,
  get_elem?, count, update_all-point, ◌==◌, if◌then◌else◌, arith,
}
use laminar_inference.Base.Text.{Str, is_empty, str_eq}
use laminar_inference.Base.Assoc.{find, IsUnique}
use laminar_inference.Kv.Blocks.{Block, empty_block, release_block, release_blocks}
use laminar_inference.Kv.State.{Impl, Sequence}
use laminar_inference.Kv.{release_sequence}
use laminar_inference.Kv.Answers.{find-release_sequence}

-- A block that loses `n` references: it is free where none is left and no prefix has it.
abbrev pub without : ℕ → Block → Block
without n b =
    if n == 0
    then b
    else if b.ref_count - n == 0 && is_empty b.cached_prefix_key
    then empty_block
    else record b { ref_count = b.ref_count - n }

without-release_block : (n : ℕ) (b : Block) → without n (release_block b) ≡ without (suc n) b
unfolding release_block
without-release_block n b = ground arith

get_elem?-release_blocks :
    (ids : List ℕ) (bs : List Block) (i : ℕ)
    → get_elem? (release_blocks bs ids) i ≡ Option.map (without (count i ids)) (get_elem? bs i)
unfolding release_blocks
get_elem?-release_blocks ids bs i =
    let target = Option.map (without (count i ids)) (get_elem? bs i) in
    let left : ℕ → Option Block → Type 0 = λ n o. Option.map (without n) o ≡ target in
    sym (without_none _) ∙ update_all-point left release_block released ids bs i refl
  where
    without_none : (o : Option Block) → Option.map (without 0) o ≡ o
    without_none none = refl
    without_none (some b) = refl

    released :
        {target : Option Block} (n : ℕ) (o : Option Block)
        → Option.map (without (suc n)) o ≡ target
        → Option.map (without n) (Option.map release_block o) ≡ target
    released n none e = e
    released n (some b) e = ap some (without-release_block n b) ∙ e

-- What becomes of the state where the sequence `q` with the id `id` ends: no other sequence changes, each
-- block loses a reference for each time that `q` names it, and the rest stays.
pub record Released (id : Str) (q : Sequence) (s t : Impl) : Type 0 where
  pub sequences :
      (j : Str) → find j t.sequences ≡ (if str_eq j id then none else find j s.sequences)
  pub blocks :
      (i : ℕ)
      → get_elem? t.blocks i ≡ Option.map (without (count i q.block_ids)) (get_elem? s.blocks i)
  pub prefix_cache : t.prefix_cache ≡ s.prefix_cache
  pub stats : t.stats ≡ s.stats
  pub config : t.config ≡ s.config

-- `ReleaseSequence`, where no id has two sequences, leaves the state as it is where the id has no sequence.
-- Otherwise it takes that sequence away and no other; each block of the array loses as many references as
-- the sequence names it times, and is empty and free where none is left and it has no prefix key; all other
-- blocks, the prefix cache and the statistics stay as they were.
pub release_sequence_outcome :
    (id : Str) (s : Impl)
    → IsUnique s.sequences
    → ((find id s.sequences ≡ none) × (release_sequence id s ≡ s))
      ⊎ ((q : Sequence) × (find id s.sequences ≡ some q) × Released id q s (release_sequence id s))
unfolding release_sequence
release_sequence_outcome id s u = elim (Option-cases (find id s.sequences)) [
  | inl e ↦ inl (e, rw (e, release_sequence) refl)
  | inr (q, e) ↦ inr (
    q,
    e,
    record {
      sequences = λ j. find-release_sequence id j s u;
      blocks = λ i. rw (e, release_sequence) (get_elem?-release_blocks q.block_ids s.blocks i);
      prefix_cache = rw (e, release_sequence) refl;
      stats = rw (e, release_sequence) refl;
      config = rw (e, release_sequence) refl;
    },
  )
]
