-- ===== src/Kv/Answers.antt =====
-- What the methods of Kv answer, and what they do to the sequences.
use laminar_inference.Base.{
  ℕ, ◌+◌, ◌-◌, ◌≡◌, refl, ◌∙◌, ap, ◌⊎◌, inl, inr, true, false, not, ◌&&◌, if-elim, Bool-cases,
  Option-cases, List, [], ◌++◌, none, some, length, ltb, ◌==◌, if◌then◌else◌, arith,
}
use laminar_inference.Base.Int.{ℤ, pos, pos_part, ltb_ℤ}
use laminar_inference.Base.Text.{Str, is_empty, str_eq, str_eq→eq}
use laminar_inference.Base.Assoc.{Map, find, place, assign, emplace, contains, IsUnique}
use laminar_inference.Base.Assoc.Laws.{emplace-place, find-assign, find-erase}
use laminar_inference.Kv.Blocks.{PrefixEntry, add_refs}
use laminar_inference.Kv.State.{ceil_div, Impl, Sequence, KvAllocation}
use laminar_inference.Kv.Allocate.{allocate_blocks}
use laminar_inference.Kv.Allocation.{allocate_blocks-Frame}
use laminar_inference.Kv.{
  count_miss, cached_prefix, plan_prompt, PromptPlan, attach_cached, attach_fresh, allocate_fresh,
  place_prompt, allocate_prompt, grow_sequence, append_tokens, release_sequence,
}

abbrev Refused : Impl → Impl × KvAllocation → Type 0
Refused s r = (r.1.ok ≡ false) × (r.0.sequences ≡ s.sequences)

abbrev Begun : Str → ℕ → Impl → Impl × KvAllocation → Type 0
Begun id n s r =
    (r.1.ok ≡ true)
    × ((q : Sequence) × (r.0.sequences ≡ place id q s.sequences)
        × (q.prompt_tokens ≡ n)
        × (q.generated_tokens ≡ 0))

module _ (id key : Str) (p : PromptPlan) (s : Impl) (absent : find id s.sequences ≡ none) where
  abbrev Placed : Impl × KvAllocation → Type 0
  Placed r = Refused s r ⊎ Begun id p.prompt_tokens s r

  begins :
      (t : Impl) (q : Sequence)
      → t.sequences ≡ s.sequences
      → emplace id q t.sequences ≡ place id q s.sequences
  begins t q e = rw e (emplace-place id q s.sequences absent)

  attach_cached-Placed : (e : PrefixEntry) → Placed (attach_cached id p e s)
  unfolding attach_cached
  attach_cached-Placed e =
      let shared = record s { blocks = add_refs s.blocks e.block_ids } in
      let t = allocate_blocks p.suffix_block_count [] shared in
      let kept = (allocate_blocks-Frame p.suffix_block_count [] shared).sequences in
      if-elim Placed (length t.1 == p.suffix_block_count)
        (λ h. inr (refl, (_, begins t.0 _ kept, refl, refl))) (λ h. inl (refl, kept))

  allocate_fresh-Placed :
      (u : Impl) → u.sequences ≡ s.sequences → Placed (allocate_fresh id key p u)
  unfolding allocate_fresh attach_fresh
  allocate_fresh-Placed u same =
      let a = allocate_blocks p.prefix_block_count key u in
      let b = allocate_blocks p.suffix_block_count [] a.0 in
      let kept_a = (allocate_blocks-Frame p.prefix_block_count key u).sequences ∙ same in
      let kept = (allocate_blocks-Frame p.suffix_block_count [] a.0).sequences ∙ kept_a in
      if-elim Placed (length a.1 == p.prefix_block_count)
        (λ h.
          if-elim Placed (length b.1 == p.suffix_block_count)
            (λ g. inr (refl, (_, begins b.0 _ kept, refl, refl))) (λ g. inl (refl, kept)))
        (λ h. inl (refl, kept_a))

  place_prompt-Placed : Placed (place_prompt id key p s)
  unfolding place_prompt
  place_prompt-Placed =
      if-elim Placed (not (is_empty key) && ltb 0 p.cacheable_tokens)
        (λ h. elim (Option-cases (cached_prefix key p.cacheable_tokens s)) [
          | inl e ↦ rw e (allocate_fresh-Placed (count_miss s) refl)
          | inr (x, e) ↦ rw e (attach_cached-Placed x)
        ])
        (λ h. allocate_fresh-Placed s refl)

find_absent : (id : Str) (m : Map Sequence) → contains id m ≡ false → find id m ≡ none
unfolding contains
find_absent id m h = ground arith

-- `AllocatePrompt` refuses and leaves all sequences as they were, or it accepts an id that had no
-- sequence and adds one sequence under it, with the prompt's tokens (none if negative) and none generated.
pub allocate_prompt_outcome :
    (id : Str) (prompt_tokens : ℤ) (key : Str) (prefix_tokens : ℤ) (s : Impl)
    → let r = allocate_prompt id prompt_tokens key prefix_tokens s in
      ((r.1.ok ≡ false) × (r.0.sequences ≡ s.sequences))
      ⊎ ((r.1.ok ≡ true)
          × ((q : Sequence) × (r.0.sequences ≡ place id q s.sequences)
              × (q.prompt_tokens ≡ pos_part prompt_tokens)
              × (q.generated_tokens ≡ 0))
          × (find id s.sequences ≡ none))
unfolding allocate_prompt plan_prompt
allocate_prompt_outcome id prompt_tokens key prefix_tokens s =
    let p = plan_prompt s prompt_tokens key prefix_tokens in
    let Result : Impl × KvAllocation → Type 0 = λ r.
      Refused s r
      ⊎ ((r.1.ok ≡ true)
          × ((q : Sequence) × (r.0.sequences ≡ place id q s.sequences)
              × (q.prompt_tokens ≡ pos_part prompt_tokens)
              × (q.generated_tokens ≡ 0))
          × (find id s.sequences ≡ none)) in
    if-elim Result (is_empty id) (λ h. inl (refl, refl))
      (λ h.
        if-elim Result (contains id s.sequences) (λ g. inl (refl, refl))
          (λ g.
            let absent = find_absent id s.sequences g in
            elim (place_prompt-Placed id key p s absent) [
              | inl refused ↦ inl refused
              | inr (accepted, begun) ↦ inr (accepted, begun, absent)
            ]))

grow_sequence_outcome :
    (id : Str) (n : ℕ) (q : Sequence) (s : Impl)
    → let r = grow_sequence id n q s in
      Refused s r
      ⊎ ((r.1.ok ≡ true)
          × ((ids : List ℕ) × (length ids ≡ r.1.attached_blocks)
              × (r.0.sequences
                  ≡ assign id
                      (record q {
                        generated_tokens = q.generated_tokens + n;
                        block_ids = q.block_ids ++ ids;
                      })
                      s.sequences)))
unfolding grow_sequence
grow_sequence_outcome id n q s =
    let more =
      ceil_div (q.generated_tokens + n) s.config.tokens_per_block
      - ceil_div q.generated_tokens s.config.tokens_per_block in
    let t = allocate_blocks more [] s in
    let kept = (allocate_blocks-Frame more [] s).sequences in
    let Result : Impl × KvAllocation → Type 0 = λ r.
      Refused s r
      ⊎ ((r.1.ok ≡ true)
          × ((ids : List ℕ) × (length ids ≡ r.1.attached_blocks)
              × (r.0.sequences
                  ≡ assign id
                      (record q {
                        generated_tokens = q.generated_tokens + n;
                        block_ids = q.block_ids ++ ids;
                      })
                      s.sequences))) in
    if-elim Result (length t.1 == more)
      (λ h. inr (refl, (t.1, ground arith, ap (assign id _) kept))) (λ h. inl (refl, kept))

-- The sequence `id` has `n` tokens and the reported number of blocks more; the others are as they were.
pub record Grown (id : Str) (n : ℕ) (s : Impl) (r : Impl × KvAllocation) : Type 0 where
  pub before : Sequence
  pub ids : List ℕ
  pub there : find id s.sequences ≡ some before
  pub reported : length ids ≡ r.1.attached_blocks
  pub sequences :
      (j : Str)
      → find j r.0.sequences ≡ (
          if str_eq j id
          then some (record before {
            generated_tokens = before.generated_tokens + n;
            block_ids = before.block_ids ++ ids;
          })
          else find j s.sequences)

-- `AppendTokens` refuses and leaves all sequences as they were; or it accepts, for no tokens or fewer,
-- and changes nothing; or it accepts and adds the tokens to the sequence, which was there, with as many
-- block ids as it reports, and leaves the other sequences as they were.
pub append_tokens_outcome :
    (id : Str) (token_count : ℤ) (s : Impl)
    → let r = append_tokens id token_count s in
      ((r.1.ok ≡ false) × (r.0.sequences ≡ s.sequences))
      ⊎ ((r.1.ok ≡ true)
          × (((ltb_ℤ (pos 0) token_count ≡ false) × (r.0 ≡ s))
              ⊎ Grown id (pos_part token_count) s r))
unfolding append_tokens
append_tokens_outcome id token_count s = elim (Option-cases (find id s.sequences)) [
  | inl e ↦ rw (e, append_tokens) (inl (refl, refl))
  | inr (q, e) ↦
      rw (e, append_tokens)
        (if-elim
          (λ r.
            Refused s r
            ⊎ ((r.1.ok ≡ true)
                × (((ltb_ℤ (pos 0) token_count ≡ false) × (r.0 ≡ s))
                    ⊎ Grown id (pos_part token_count) s r)))
          (ltb_ℤ (pos 0) token_count)
          (λ h. elim (grow_sequence_outcome id (pos_part token_count) q s) [
            | inl refused ↦ inl refused
            | inr (accepted, (ids, n, same)) ↦ inr (
              accepted,
              inr (record {
                before = q;
                ids = ids;
                there = e;
                reported = n;
                sequences = λ j. rw same (find-assign id _ j s.sequences);
              }),
            )
          ])
          (λ h. inr (refl, inl (h, refl))))
]

-- `ReleaseSequence`, where no id has two sequences, takes away the sequence with the id, if there is one,
-- and leaves the others.
pub find-release_sequence :
    (id j : Str) (s : Impl)
    → IsUnique s.sequences
    → find j (release_sequence id s).sequences ≡ (if str_eq j id then none else find j s.sequences)
unfolding release_sequence
find-release_sequence id j s u = elim (Option-cases (find id s.sequences)) [
  | inr (q, e) ↦ rw (e, release_sequence) (find-erase id j s.sequences u)
  | inl e ↦
      rw (e, release_sequence)
        (elim (Bool-cases (str_eq j id)) [
          | inr f ↦ rw f refl
          | inl f ↦ let same : j ≡ id = str_eq→eq j id f in rw f (rw same e)
        ])
]
