-- ===== src/Kv/Configured.antt =====
-- The configuration through the methods of Kv.
use laminar_inference.Base.{ℕ, ◌+◌, ◌-◌, ◌≡◌, inl, inr, Option-cases, [], arith}
use laminar_inference.Base.Int.{ℤ, pos_part}
use laminar_inference.Base.Text.{Str}
use laminar_inference.Base.Assoc.{find}
use laminar_inference.Kv.Blocks.{PrefixEntry, add_refs}
use laminar_inference.Kv.State.{ceil_div, Impl, Sequence}
use laminar_inference.Kv.Allocate.{allocate_blocks}
use laminar_inference.Kv.Allocation.{allocate_blocks-Frame}
use laminar_inference.Kv.{
  count_miss, cached_prefix, plan_prompt, PromptPlan, attach_cached, attach_fresh, allocate_fresh,
  place_prompt, allocate_prompt, grow_sequence, append_tokens, release_sequence,
}

attach_cached-config :
    (id : Str) (p : PromptPlan) (e : PrefixEntry) (s : Impl)
    → (attach_cached id p e s).0.config ≡ s.config
unfolding attach_cached
attach_cached-config id p e s = ground (
  arith,
  (allocate_blocks-Frame p.suffix_block_count []
      (record s { blocks = add_refs s.blocks e.block_ids })).config,
)

allocate_fresh-config :
    (id key : Str) (p : PromptPlan) (s : Impl) → (allocate_fresh id key p s).0.config ≡ s.config
unfolding allocate_fresh attach_fresh
allocate_fresh-config id key p s =
    let prefix = allocate_blocks-Frame p.prefix_block_count key s in
    let suffix =
      allocate_blocks-Frame p.suffix_block_count []
        (allocate_blocks p.prefix_block_count key s).0 in
    ground (arith, prefix.config, suffix.config)

pub allocate_prompt-config :
    (id : Str) (prompt_tokens : ℤ) (key : Str) (prefix_tokens : ℤ) (s : Impl)
    → (allocate_prompt id prompt_tokens key prefix_tokens s).0.config ≡ s.config
unfolding allocate_prompt place_prompt
allocate_prompt-config id prompt_tokens key prefix_tokens s =
    let p = plan_prompt s prompt_tokens key prefix_tokens in
    let cached = λ (e : PrefixEntry). attach_cached-config id p e s in
    elim (Option-cases (cached_prefix key p.cacheable_tokens s)) [
      | inl n ↦ ground (
        arith,
        n,
        allocate_fresh-config id key p s,
        allocate_fresh-config id key p (count_miss s),
      )
      | inr (e, c) ↦ ground (arith, c, allocate_fresh-config id key p s, cached e)
    ]

grow_sequence-config :
    (id : Str) (n : ℕ) (q : Sequence) (s : Impl) → (grow_sequence id n q s).0.config ≡ s.config
unfolding grow_sequence
grow_sequence-config id n q s =
    let more =
      ceil_div (q.generated_tokens + n) s.config.tokens_per_block
      - ceil_div q.generated_tokens s.config.tokens_per_block in
    ground (arith, (allocate_blocks-Frame more [] s).config)

pub append_tokens-config :
    (id : Str) (token_count : ℤ) (s : Impl) → (append_tokens id token_count s).0.config ≡ s.config
unfolding append_tokens
append_tokens-config id token_count s = elim (Option-cases (find id s.sequences)) [
  | inl e ↦ rw (e, append_tokens)
  | inr (q, e) ↦
      rw (e, append_tokens) (ground (arith, grow_sequence-config id (pos_part token_count) q s))
]

pub release_sequence-config : (id : Str) (s : Impl) → (release_sequence id s).config ≡ s.config
unfolding release_sequence
release_sequence-config id s = ground arith
