-- ===== src/Kv/Leak.antt =====
-- The methods of Kv on a block that is occupied under a prefix key while no prefix of the cache names it.
use laminar_inference.Base.{
  ℕ, ◌+◌, ◌-◌, inl, inr, Bool-cases, Option-cases, List, [], ◌∷◌, length, ltb, ◌==◌, arith, not,
  ◌&&◌,
}
use laminar_inference.Base.Int.{ℤ, pos_part}
use laminar_inference.Base.Text.{Str, is_empty}
use laminar_inference.Base.Assoc.{contains, find}
use laminar_inference.Kv.Blocks.{PrefixEntry, add_refs}
use laminar_inference.Kv.State.{Impl, ceil_div}
use laminar_inference.Kv.Allocate.{allocate_blocks}
use laminar_inference.Kv.Preserved.{cached_count-fresh}
use laminar_inference.Kv.Calls.{Call, allocates, appends, releases, step, run}
use laminar_inference.Kv.{
  count_miss, cached_prefix, plan_prompt, PromptPlan, attach_cached, attach_fresh, allocate_fresh,
  place_prompt, allocate_prompt, grow_sequence, append_tokens, release_sequence,
}
use laminar_inference.Kv.Lost.{
  IsLost, add_refs-IsStuck, drop_refs-IsStuck, release_blocks-IsStuck, free_blocks-IsStuck,
  allocate_blocks-IsLost,
}

attach_cached-IsLost :
    (id : Str) (p : PromptPlan) (e : PrefixEntry) (i : ℕ) (s : Impl)
    → IsLost i s
    → IsLost i (attach_cached id p e s).0
unfolding attach_cached
attach_cached-IsLost id p e i s v =
    let shared : Impl = record s { blocks = add_refs s.blocks e.block_ids } in
    let n = p.suffix_block_count in
    let t = (allocate_blocks n [] shared).0 in
    let w =
      (allocate_blocks-IsLost n [] i shared (record {
        stuck = add_refs-IsStuck e.block_ids s.blocks i v.stuck;
        uncached = v.uncached;
      })).0 in
    elim (Bool-cases (length (allocate_blocks n [] shared).1 == n)) [
      | inl f ↦ rw f (record { stuck = w.stuck; uncached = w.uncached })
      | inr f ↦ rw f (record {
        stuck = drop_refs-IsStuck e.block_ids t.blocks i w.stuck;
        uncached = w.uncached;
      })
    ]

allocate_fresh-IsLost :
    (id key : Str) (p : PromptPlan) (i : ℕ) (s : Impl)
    → IsLost i s
    → IsLost i (allocate_fresh id key p s).0
unfolding allocate_fresh attach_fresh
allocate_fresh-IsLost id key p i s v =
    let n = p.prefix_block_count in
    let m = p.suffix_block_count in
    let s1 = (allocate_blocks n key s).0 in
    let prefix = (allocate_blocks n key s).1 in
    let t = (allocate_blocks m [] s1).0 in
    let entry : PrefixEntry = record { token_count = p.cacheable_tokens; block_ids = prefix } in
    let (w, z) = allocate_blocks-IsLost n key i s v in
    let x = (allocate_blocks-IsLost m [] i s1 w).0 in
    elim (Bool-cases (length prefix == n)) [
      | inr f ↦ rw f w
      | inl f ↦ elim (Bool-cases (length (allocate_blocks m [] s1).1 == m)) [
        | inl g ↦
            rw (f, g)
              (record {
                stuck = x.stuck;
                uncached = omega (
                  arith,
                  x.uncached,
                  z,
                  cached_count-fresh key entry t.prefix_cache
                      (not (is_empty key) && ltb 0 p.cacheable_tokens) i,
                );
              })
        | inr g ↦
            rw (f, g)
              (record {
                stuck = free_blocks-IsStuck prefix t.blocks i z x.stuck;
                uncached = x.uncached;
              })
      ]
    ]

allocate_prompt-IsLost :
    (id : Str) (prompt_tokens : ℤ) (key : Str) (prefix_tokens : ℤ) (i : ℕ) (s : Impl)
    → IsLost i s
    → IsLost i (allocate_prompt id prompt_tokens key prefix_tokens s).0
unfolding allocate_prompt place_prompt
allocate_prompt-IsLost id prompt_tokens key prefix_tokens i s v =
    let p = plan_prompt s prompt_tokens key prefix_tokens in
    let missed : IsLost i (count_miss s) = record { stuck = v.stuck; uncached = v.uncached } in
    let miss = allocate_fresh-IsLost id key p i s v in
    let counted = allocate_fresh-IsLost id key p i (count_miss s) missed in
    elim (Bool-cases (is_empty id)) [
      | inl a ↦ rw a v
      | inr a ↦ elim (Bool-cases (contains id s.sequences)) [
        | inl b ↦ rw (a, b) v
        | inr b ↦ elim (Bool-cases (not (is_empty key) && ltb 0 p.cacheable_tokens)) [
          | inr c ↦ rw (a, b, c) miss
          | inl c ↦ elim (Option-cases (cached_prefix key p.cacheable_tokens s)) [
            | inl d ↦ rw (a, b, c, d, allocate_prompt, place_prompt) counted
            | inr (e, d) ↦
                rw (a, b, c, d, allocate_prompt, place_prompt) (attach_cached-IsLost id p e i s v)
          ]
        ]
      ]
    ]

append_tokens-IsLost :
    (id : Str) (token_count : ℤ) (i : ℕ) (s : Impl)
    → IsLost i s
    → IsLost i (append_tokens id token_count s).0
unfolding append_tokens grow_sequence
append_tokens-IsLost id token_count i s v = elim (Option-cases (find id s.sequences)) [
  | inl e ↦ rw (e, append_tokens) v
  | inr (q, e) ↦
      let more =
        ceil_div (q.generated_tokens + pos_part token_count) s.config.tokens_per_block
        - ceil_div q.generated_tokens s.config.tokens_per_block in
      let w = (allocate_blocks-IsLost more [] i s v).0 in
      rw (e, append_tokens) (ground (arith, w.stuck, w.uncached, v.stuck, v.uncached))
]

release_sequence-IsLost :
    (id : Str) (i : ℕ) (s : Impl) → IsLost i s → IsLost i (release_sequence id s)
unfolding release_sequence
release_sequence-IsLost id i s v = elim (Option-cases (find id s.sequences)) [
  | inl e ↦ rw (e, release_sequence) v
  | inr (q, e) ↦
      rw (e, release_sequence)
        (record {
          stuck = release_blocks-IsStuck q.block_ids s.blocks i v.stuck;
          uncached = v.uncached;
        })
]

step-IsLost : (c : Call) (i : ℕ) (s : Impl) → IsLost i s → IsLost i (step c s)
unfolding step
step-IsLost (allocates id prompt_tokens key prefix_tokens) i s v =
    allocate_prompt-IsLost id prompt_tokens key prefix_tokens i s v
step-IsLost (appends id token_count) i s v = append_tokens-IsLost id token_count i s v
step-IsLost (releases id) i s v = release_sequence-IsLost id i s v

pub run-IsLost : (cs : List Call) (i : ℕ) (s : Impl) → IsLost i s → IsLost i (run cs s)
unfolding run
run-IsLost [] i s v = v
run-IsLost (c ∷ cs) i s v = run-IsLost cs i (step c s) (step-IsLost c i s v)
