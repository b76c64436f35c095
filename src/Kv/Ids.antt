-- ===== src/Kv/Ids.antt =====
-- Which ids have sequences after a call of Kv, read off what the methods answer (Answers).
use laminar_inference.Base.{◌≡◌, refl, ◌⊎◌, inl, inr, true, false, Bool-cases, some, arith}
use laminar_inference.Base.Int.{ℤ}
use laminar_inference.Base.Text.{Str, str_eq, str_eq→eq}
use laminar_inference.Base.Assoc.{Map, find, contains, IsUnique}
use laminar_inference.Base.Assoc.Laws.{find-place}
use laminar_inference.Kv.State.{Impl, Sequence}
use laminar_inference.Kv.{allocate_prompt, append_tokens, release_sequence}
use laminar_inference.Kv.Answers.{
  allocate_prompt_outcome, append_tokens_outcome, find-release_sequence,
}

-- After `AllocatePrompt` a sequence has the new id, or had its own before.
pub find-allocate_prompt :
    (id : Str) (prompt_tokens : ℤ) (key : Str) (prefix_tokens : ℤ) (s : Impl) (j : Str)
    → let r = allocate_prompt id prompt_tokens key prefix_tokens s in
      contains j r.0.sequences ≡ true
      → (contains j s.sequences ≡ true) ⊎ ((r.1.ok ≡ true) × (str_eq j id ≡ true))
unfolding contains
find-allocate_prompt id prompt_tokens key prefix_tokens s j h =
    elim (allocate_prompt_outcome id prompt_tokens key prefix_tokens s) [
      | inl (no_more, same) ↦ inl (rw same at h)
      | inr (accepted, (q, e, _, _), absent) ↦ elim (Bool-cases (str_eq j id)) [
        | inl f ↦ inr (accepted, f)
        | inr f ↦
            let other : find j (allocate_prompt id prompt_tokens key prefix_tokens s).0.sequences
                ≡ find j s.sequences =
              rw (e, find-place id q j s.sequences absent, f) refl in
            inl (rw (other, contains) at h)
      ]
    ]

contains-some :
    (k : Str) (m : Map Sequence) (q : Sequence) → find k m ≡ some q → contains k m ≡ true
unfolding contains
contains-some k m q e = ground arith

-- `AppendTokens` keeps the ids.
pub contains-append_tokens :
    (id : Str) (token_count : ℤ) (s : Impl) (j : Str)
    → contains j (append_tokens id token_count s).0.sequences ≡ true
    → contains j s.sequences ≡ true
unfolding contains
contains-append_tokens id token_count s j h = elim (append_tokens_outcome id token_count s) [
  | inl (no_more, same) ↦ rw same at h
  | inr (accepted, inl (none_asked, same)) ↦ rw same at h
  | inr (accepted, inr g) ↦ elim (Bool-cases (str_eq j id)) [
    | inl f ↦
        let same : j ≡ id = str_eq→eq j id f in
        rw same (contains-some id s.sequences g.before g.there)
    | inr f ↦
        let other : find j (append_tokens id token_count s).0.sequences ≡ find j s.sequences =
          rw (g.sequences j, f) refl in
        rw (other, contains) at h
  ]
]

pub contains-release_sequence :
    (id : Str) (s : Impl) (j : Str)
    → IsUnique s.sequences
    → contains j (release_sequence id s).sequences ≡ true
    → (contains j s.sequences ≡ true) × (str_eq j id ≡ false)
unfolding contains
contains-release_sequence id s j u h =
    let e = find-release_sequence id j s u in
    elim (Bool-cases (str_eq j id)) [
      | inl f ↦ absurd (ground arith)
      | inr f ↦
          let other : find j (release_sequence id s).sequences ≡ find j s.sequences =
            rw (e, f) refl in
          (rw (other, contains) at h, f)
    ]
