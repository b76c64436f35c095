-- ===== src/Kv/Preserved.antt =====
-- The parts of `AllocatePrompt` (Kv) behind its guards, and the invariant.
use laminar_inference.Base.{
  ℕ, ◌+◌, ◌≤◌, ◌≡◌, refl, ap, subst, inl, inr, Bool, true, false, Bool-cases, Option-cases, List,
  [], ◌++◌, none, some, length, get_elem?, count, count-append, ltb, ◌==◌, if◌then◌else◌, arith,
  not, ◌&&◌,
}
use laminar_inference.Base.Int.{ℤ}
use laminar_inference.Base.Text.{Str, is_empty}
use laminar_inference.Base.Assoc.{Map, find, assign, IsUnique}
use laminar_inference.Base.Assoc.Laws.{total-place, total-overwrite, find-total}
use laminar_inference.Kv.Blocks.{PrefixEntry, add_refs}
use laminar_inference.Kv.State.{ceil_div, Impl}
use laminar_inference.Kv.Allocate.{allocate_blocks}
use laminar_inference.Kv.Accounts.{
  add_refs-Accounts, drop_refs-Accounts, free_blocks-Accounts_claimed,
}
use laminar_inference.Kv.Counting.{
  length-free_blocks, free_block_count-free_blocks, length-add_refs, free_block_count-add_refs,
  length-drop_refs, free_block_count-drop_refs,
}
use laminar_inference.Kv.Evictions.{cached_count}
use laminar_inference.Kv.Ledger.{Ledger, held_count}
use laminar_inference.Kv.Allocation.{
  allocate_blocks-Frame, allocate_blocks-Ledger, allocate_blocks-Ledger_keyed,
}
use laminar_inference.Kv.{
  count_miss, cached_prefix, cacheable_tokens_of, plan_prompt, PromptPlan, attach_cached,
  attach_fresh, allocate_fresh, place_prompt,
}
use laminar_inference.Kv.Invariant.{
  IsValid, none_of_short, recount, Kept-Ledger, emplace-Accounts, short-Accounts, emplace-IsUnique,
  Accounts-mono,
}

add_refs-Ledger :
    (s : Impl) (key : Str) (e : PrefixEntry)
    → find key s.prefix_cache ≡ some e
    → Ledger [] [] s
    → Ledger e.block_ids [] (record s { blocks = add_refs s.blocks e.block_ids })
add_refs-Ledger s key e f v =
    Kept-Ledger s _
      (record {
        config = refl;
        watermark = refl;
        width = length-add_refs e.block_ids s.blocks;
        free = free_block_count-add_refs e.block_ids s.blocks;
      })
      v
      λ i a.
        let shares : count i e.block_ids ≤ cached_count s.prefix_cache i =
          find-total key _ s.prefix_cache e f in
        recount (get_elem? (add_refs s.blocks e.block_ids) i) (omega arith) refl
          (add_refs-Accounts e.block_ids s.blocks i _ _ (λ h. omega arith) a)

pub attach_cached-IsValid :
    (id : Str) (p : PromptPlan) (key : Str) (e : PrefixEntry) (s : Impl)
    → find id s.sequences ≡ none
    → find key s.prefix_cache ≡ some e
    → IsValid s
    → IsValid (attach_cached id p e s).0
unfolding attach_cached
attach_cached-IsValid id p key e s absent cached v =
    let shared : Impl = record s { blocks = add_refs s.blocks e.block_ids } in
    let u : Ledger e.block_ids [] shared = add_refs-Ledger s key e cached v.ledger in
    let n = p.suffix_block_count in
    let w = allocate_blocks-Ledger e.block_ids [] n shared u in
    let f = allocate_blocks-Frame n [] shared in
    let t = (allocate_blocks n [] shared).0 in
    let ids = (allocate_blocks n [] shared).1 in
    let absent_t : find id t.sequences ≡ none = rw f.sequences absent in
    elim (Bool-cases (length (allocate_blocks n [] shared).1 == n)) [
      | inl e' ↦ rw e' (record {
        ledger =
            Kept-Ledger t _
              (record { config = refl; watermark = refl; width = refl; free = omega arith }) w
              λ i a. emplace-Accounts id _ t i (get_elem? t.blocks i) _ absent_t a;
        unique = emplace-IsUnique id _ t absent_t (rw f.sequences v.unique);
      })
      | inr e' ↦ rw e' (record {
        ledger =
            Kept-Ledger t _
              (record {
                config = refl;
                watermark = refl;
                width = length-drop_refs e.block_ids t.blocks;
                free = free_block_count-drop_refs e.block_ids t.blocks;
              })
              w
              λ i a.
                drop_refs-Accounts e.block_ids t.blocks i _ _
                  (λ h. omega (
                    arith,
                    find-total key (λ e. count i e.block_ids) s.prefix_cache e cached,
                    f.cached_held i e.block_ids u h,
                  ))
                  (short-Accounts e.block_ids ids i (held_count t.sequences i) _
                    (get_elem? t.blocks i) (none_of_short n [] shared e') a);
        unique = rw f.sequences v.unique;
      })
    ]

-- The new prefix names its blocks in the cache at most as often as they were set aside for it.
pub cached_count-fresh :
    (key : Str) (entry : PrefixEntry) (m : Map PrefixEntry) (b : Bool) (i : ℕ)
    → cached_count (if b then assign key entry m else m) i
      ≤ cached_count m i + count i entry.block_ids
unfolding assign
cached_count-fresh key entry m false i = omega arith
cached_count-fresh key entry m true i = elim (Option-cases (find key m)) [
  | inl e ↦ rw (e, assign) (omega (arith, total-place key entry (λ x. count i x.block_ids) m))
  | inr (w, e) ↦
      rw (e, assign) (omega (arith, total-overwrite key entry (λ x. count i x.block_ids) m w e))
]

attach_fresh-IsValid :
    (id key : Str) (p : PromptPlan) (prefix suffix : List ℕ) (t : Impl)
    → find id t.sequences ≡ none
    → IsUnique t.sequences
    → Ledger (prefix ++ suffix) prefix t
    → IsValid (attach_fresh id key p prefix suffix t).0
unfolding attach_fresh
attach_fresh-IsValid id key p prefix suffix t absent u v =
    let entry : PrefixEntry = record { token_count = p.cacheable_tokens; block_ids = prefix } in
    let b = not (is_empty key) && ltb 0 p.cacheable_tokens in
    record {
      ledger =
          Kept-Ledger t _
            (record { config = refl; watermark = refl; width = refl; free = omega arith }) v
            λ i a.
              Accounts-mono (get_elem? t.blocks i) _ _ _
                (omega (arith, cached_count-fresh key entry t.prefix_cache b i))
                (emplace-Accounts id _ t i (get_elem? t.blocks i) _ absent a);
      unique = emplace-IsUnique id _ t absent u;
    }

pub allocate_fresh-IsValid :
    (id key : Str) (p : PromptPlan) (s : Impl)
    → find id s.sequences ≡ none
    → (is_empty key ≡ true → p.prefix_block_count ≡ 0)
    → IsValid s
    → IsValid (allocate_fresh id key p s).0
unfolding allocate_fresh
allocate_fresh-IsValid id key p s absent unkeyed v =
    let n = p.prefix_block_count in
    let m = p.suffix_block_count in
    let s1 = (allocate_blocks n key s).0 in
    let prefix = (allocate_blocks n key s).1 in
    let t = (allocate_blocks m [] s1).0 in
    let suffix = (allocate_blocks m [] s1).1 in
    let (w, fresh) = allocate_blocks-Ledger_keyed n key s unkeyed v.ledger in
    let f = allocate_blocks-Frame n key s in
    let g = allocate_blocks-Frame m [] s1 in
    let x = allocate_blocks-Ledger prefix prefix m s1 w in
    elim (Bool-cases (length prefix == n)) [
      | inr e ↦ rw e (record {
        ledger = subst (λ ids. Ledger ids ids s1) (none_of_short n key s e) w;
        unique = rw f.sequences v.unique;
      })
      | inl e ↦ elim (Bool-cases (length suffix == m)) [
        | inl e' ↦
            rw (e, e')
              (attach_fresh-IsValid id key p prefix suffix t (rw (g.sequences, f.sequences) absent)
                (rw (g.sequences, f.sequences) v.unique) x)
        | inr e' ↦
            rw (e, e')
              (record {
                ledger =
                    Kept-Ledger t _
                      (record {
                        config = refl;
                        watermark = refl;
                        width = length-free_blocks prefix t.blocks;
                        free = free_block_count-free_blocks prefix t.blocks;
                      })
                      x
                      λ i a.
                        let none_more = none_of_short m [] s1 e' in
                        let same = ap (λ q. held_count q i) g.sequences in
                        free_blocks-Accounts_claimed prefix t.blocks i _ _
                          (λ h. omega (arith, fresh i h, same))
                          (recount (get_elem? t.blocks i)
                            (omega (arith, count-append i prefix suffix, ap (count i) none_more))
                            (omega arith) a);
                unique = rw (g.sequences, f.sequences) v.unique;
              })
      ]
    ]

cached_prefix-find :
    (key : Str) (cacheable : ℕ) (s : Impl) (e : PrefixEntry)
    → cached_prefix key cacheable s ≡ some e
    → find key s.prefix_cache ≡ some e
unfolding cached_prefix
cached_prefix-find key cacheable s e h = ground arith

-- What `plan_prompt` makes sure of: without a key there is no prefix.
pub plan_prompt-unkeyed :
    (s : Impl) (prompt_tokens prefix_tokens : ℤ) (key : Str)
    → is_empty key ≡ true
    → (plan_prompt s prompt_tokens key prefix_tokens).prefix_block_count ≡ 0
unfolding plan_prompt cacheable_tokens_of ceil_div
plan_prompt-unkeyed s prompt_tokens prefix_tokens key h = rw h

pub place_prompt-IsValid :
    (id key : Str) (p : PromptPlan) (s : Impl)
    → find id s.sequences ≡ none
    → (is_empty key ≡ true → p.prefix_block_count ≡ 0)
    → IsValid s
    → IsValid (place_prompt id key p s).0
unfolding place_prompt
place_prompt-IsValid id key p s absent unkeyed v =
    elim (Bool-cases (not (is_empty key) && ltb 0 p.cacheable_tokens)) [
      | inr e ↦ rw e (allocate_fresh-IsValid id key p s absent unkeyed v)
      | inl e ↦ elim (Option-cases (cached_prefix key p.cacheable_tokens s)) [
        | inl c ↦
            rw (e, c, place_prompt)
              (allocate_fresh-IsValid id key p (count_miss s) absent unkeyed (record {
                ledger =
                    Kept-Ledger s _
                      (record { config = refl; watermark = refl; width = refl; free = omega arith })
                      v.ledger (λ i a. a);
                unique = v.unique;
              }))
        | inr (x, c) ↦
            rw (e, c, place_prompt)
              (attach_cached-IsValid id p key x s absent
                (cached_prefix-find key p.cacheable_tokens s x c) v)
      ]
    ]
