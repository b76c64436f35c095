-- ===== src/Kv/Methods.antt =====
-- `AllocatePrompt`, `AppendTokens` and `ReleaseSequence` (Kv) and the invariant.
use laminar_inference.Base.{
  ℕ, ◌+◌, ◌-◌, ◌≡◌, refl, subst, inl, inr, false, Bool-cases, Option-cases, [], ◌++◌, none, some,
  length, get_elem?, count, count-append, ◌==◌, arith,
}
use laminar_inference.Base.Int.{ℤ, pos, pos_part, ltb_ℤ}
use laminar_inference.Base.Text.{Str, is_empty}
use laminar_inference.Base.Assoc.{contains, find}
use laminar_inference.Base.Assoc.Laws.{total-assign, total-erase, assign-IsUnique, erase-IsUnique}
use laminar_inference.Kv.State.{ceil_div, Impl, Sequence}
use laminar_inference.Kv.Allocate.{allocate_blocks}
use laminar_inference.Kv.Accounts.{release_blocks-Accounts}
use laminar_inference.Kv.Counting.{length-release_blocks, free_block_count-release_blocks}
use laminar_inference.Kv.Ledger.{Ledger}
use laminar_inference.Kv.Allocation.{allocate_blocks-Frame, allocate_blocks-Ledger}
use laminar_inference.Kv.{allocate_prompt, grow_sequence, append_tokens, release_sequence}
use laminar_inference.Kv.Invariant.{IsValid, none_of_short, recount, Kept-Ledger}
use laminar_inference.Kv.Preserved.{place_prompt-IsValid, plan_prompt-unkeyed}

absent_of : (id : Str) (s : Impl) → contains id s.sequences ≡ false → find id s.sequences ≡ none
unfolding contains
absent_of id s h = ground arith

pub allocate_prompt-IsValid :
    (id : Str) (prompt_tokens : ℤ) (key : Str) (prefix_tokens : ℤ) (s : Impl)
    → IsValid s
    → IsValid (allocate_prompt id prompt_tokens key prefix_tokens s).0
unfolding allocate_prompt
allocate_prompt-IsValid id prompt_tokens key prefix_tokens s v = elim (Bool-cases (is_empty id)) [
  | inl e ↦ rw (e, allocate_prompt) v
  | inr e ↦ elim (Bool-cases (contains id s.sequences)) [
    | inl f ↦ rw (e, f, allocate_prompt) v
    | inr f ↦
        rw (e, f, allocate_prompt)
          (place_prompt-IsValid id key _ s (absent_of id s f)
            (plan_prompt-unkeyed s prompt_tokens prefix_tokens key) v)
  ]
]

grow_sequence-IsValid :
    (id : Str) (n : ℕ) (q : Sequence) (s : Impl)
    → find id s.sequences ≡ some q
    → IsValid s
    → IsValid (grow_sequence id n q s).0
unfolding grow_sequence
grow_sequence-IsValid id n q s there v =
    let more =
      ceil_div (q.generated_tokens + n) s.config.tokens_per_block
      - ceil_div q.generated_tokens s.config.tokens_per_block in
    let w = allocate_blocks-Ledger [] [] more s v.ledger in
    let f = allocate_blocks-Frame more [] s in
    let t = (allocate_blocks more [] s).0 in
    let ids = (allocate_blocks more [] s).1 in
    let grown : Sequence = record q {
      generated_tokens = q.generated_tokens + n;
      block_ids = q.block_ids ++ ids;
    } in
    let there_t : find id t.sequences ≡ some q = rw f.sequences there in
    elim (Bool-cases (length ids == more)) [
      | inr e ↦ rw e (record {
        ledger = subst (λ l. Ledger l [] t) (none_of_short more [] s e) w;
        unique = rw f.sequences v.unique;
      })
      | inl e ↦ rw e (record {
        ledger =
            Kept-Ledger t _
              (record { config = refl; watermark = refl; width = refl; free = omega arith }) w
              λ i a.
                recount (get_elem? t.blocks i)
                  (omega (
                    arith,
                    total-assign id grown (λ r. count i r.block_ids) t.sequences q there_t,
                    count-append i q.block_ids ids,
                  ))
                  refl a;
        unique = assign-IsUnique id _ t.sequences (rw f.sequences v.unique);
      })
    ]

pub append_tokens-IsValid :
    (id : Str) (token_count : ℤ) (s : Impl) → IsValid s → IsValid (append_tokens id token_count s).0
unfolding append_tokens
append_tokens-IsValid id token_count s v = elim (Option-cases (find id s.sequences)) [
  | inl e ↦ rw (e, append_tokens) v
  | inr (q, e) ↦ elim (Bool-cases (ltb_ℤ (pos 0) token_count)) [
    | inl f ↦ rw (e, append_tokens, f) (grow_sequence-IsValid id (pos_part token_count) q s e v)
    | inr f ↦ rw (e, append_tokens, f) v
  ]
]

pub release_sequence-IsValid : (id : Str) (s : Impl) → IsValid s → IsValid (release_sequence id s)
unfolding release_sequence
release_sequence-IsValid id s v = elim (Option-cases (find id s.sequences)) [
  | inl e ↦ rw (e, release_sequence) v
  | inr (q, e) ↦
      rw (e, release_sequence)
        (record {
          ledger =
              Kept-Ledger s _
                (record {
                  config = refl;
                  watermark = refl;
                  width = length-release_blocks q.block_ids s.blocks;
                  free = free_block_count-release_blocks q.block_ids s.blocks;
                })
                v.ledger
                λ i a. release_blocks-Accounts q.block_ids s.blocks i _ _ (
                  recount (get_elem? s.blocks i)
                    (omega (arith, total-erase id (λ r. count i r.block_ids) s.sequences q e)) refl
                    a);
          unique = erase-IsUnique id s.sequences v.unique;
        })
]
