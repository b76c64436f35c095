-- ===== src/Backends/Generated.antt =====
-- What the tiny language model generates (Generation), whatever its `float` functions compute.
use laminar_inference.Base.{
  ℕ, zero, suc, ◌+◌, ◌*◌, ◌%◌, ◌^◌, ◌<◌, ◌≤◌, ◌≡◌, refl, ap, ◌∙◌, Bool, true, false, ◌&&◌, if-elim,
  List, [], ◌∷◌, ◌++◌, map, some, length, get_elem?, ltb, length-append, arith, if◌then◌else◌,
}
use native.Mathlib.Nat.{mod-lt}
use laminar_inference.Base.Text.{Str}
use laminar_inference.Backends.{Polls}
use laminar_inference.Tokens.{hash_token, tokenize, tokenize_for_tiny_llm, word_of}
use laminar_inference.Tokens.Words.{proper, all_proper, tokenize-join_generated_tokens}
use laminar_inference.Tokens.Ids.{tokenize_for_tiny_llm-proper}
use laminar_inference.Backends.Generation.{
  TinyModel, TinyLlmGeneration, Timing, ranks_before, insert_ranked, ranked_from, select_token,
  prefill_from, decode_from, finish_generation, decode_prompt, generate_tiny_llm_completion,
  last_state,
}

module _ {F S : Type 0} (model : TinyModel F S) where
  abbrev ranked_proper : List (F × ℕ) → Bool
  ranked_proper [] = true
  ranked_proper ((f, token) ∷ rest) = proper token && ranked_proper rest

  insert_ranked-proper :
      (f : F) (token : ℕ) (ranked : List (F × ℕ))
      → proper token ≡ true
      → ranked_proper ranked ≡ true
      → (ranked_proper (insert_ranked model (f, token) ranked) ≡ true)
        × (length (insert_ranked model (f, token) ranked) ≡ suc (length ranked))
  unfolding insert_ranked
  insert_ranked-proper f token [] h k = (ground arith, refl)
  insert_ranked-proper f token ((g, other) ∷ rest) h k =
      let (l, m) = insert_ranked-proper f token rest h (ground arith) in
      if-elim (λ r. (ranked_proper r ≡ true) × (length r ≡ suc (suc (length rest))))
        (ranks_before model (f, token) (g, other)) (λ e. (ground arith, refl))
        (λ e. (ground arith, ap suc m))

  ranked_from-proper :
      (logits : ℕ → F) (token count : ℕ)
      → 2 ≤ token
      → token + count ≤ 64
      → (ranked_proper (ranked_from model logits token count) ≡ true)
        × (length (ranked_from model logits token count) ≡ count)
  unfolding ranked_from
  ranked_from-proper logits token zero h k = (refl, refl)
  ranked_from-proper logits token (suc count) h k =
      let (l, m) = ranked_from-proper logits (suc token) count (omega arith) (omega arith) in
      let (p, q) =
        insert_ranked-proper (logits token) token (ranked_from model logits (suc token) count)
          (ground arith) l in
      (p, omega (arith, q, m))

  get_elem?-proper :
      (ranked : List (F × ℕ)) (i : ℕ)
      → ranked_proper ranked ≡ true
      → i < length ranked
      → (r : F × ℕ) × (get_elem? ranked i ≡ some r) × (proper r.1 ≡ true)
  get_elem?-proper [] i h k = absurd (omega arith)
  get_elem?-proper ((f, token) ∷ rest) zero h k = ((f, token), refl, ground arith)
  get_elem?-proper ((f, token) ∷ rest) (suc i) h k =
      get_elem?-proper rest i (ground arith) (omega arith)

  select_token-proper :
      (logits : ℕ → F) (top_k seed step : ℕ)
      → proper (select_token model logits top_k seed step) ≡ true
  unfolding select_token
  select_token-proper logits top_k seed step =
      let (l, m) = ranked_from-proper logits 2 62 (omega arith) (omega arith) in
      let capped = if ltb top_k 1 then 1 else if ltb 62 top_k then 62 else top_k in
      let positive : 0 < capped = ground arith in
      let small : capped ≤ 62 = ground arith in
      let rest = mod-lt ((seed + step * 17) % 2 ^ 32) positive in
      let within : (seed + step * 17) % 2 ^ 32 % capped < length (ranked_from model logits 2 62) =
        omega (arith, rest, small, m) in
      let (r, e, p) =
        get_elem?-proper (ranked_from model logits 2 62) ((seed + step * 17) % 2 ^ 32 % capped) l
          within in
      rw (select_token, e) p

  all_proper-append :
      (ids : List ℕ) (id : ℕ)
      → all_proper ids ≡ true
      → proper id ≡ true
      → all_proper (ids ++ id ∷ []) ≡ true
  all_proper-append [] id h k = ground arith
  all_proper-append (i ∷ is) id h k = ground (arith, all_proper-append is id)

  module _ (is_cancelled : Polls) (never : (n : ℕ) → is_cancelled n ≡ false) where
    prefill_from-states :
        (asked position : ℕ) (states : List S) (ids : List ℕ)
        → (all : List S) × (n : ℕ) × (prefill_from model is_cancelled asked position states ids
            ≡ (some all, n))
          × (length all ≡ length states + length ids)
    unfolding prefill_from
    prefill_from-states asked position states [] = (states, asked, refl, omega arith)
    prefill_from-states asked position states (id ∷ ids) =
        let next = model.next_state id position states in
        let (all, n, e, m) =
          prefill_from-states (suc asked) (suc position) (states ++ next ∷ []) ids in
        (all, n, rw (never asked) e, omega (arith, m, length-append states (next ∷ [])))

    -- Ids of the vocabulary, as many as asked for.
    decode_from-ids :
        (temperature : F) (top_k seed asked position left step : ℕ) (s : S) (states : List S)
        (generated : List ℕ)
        → all_proper generated ≡ true
        → (ids : List ℕ) × (n : ℕ) × (decode_from model is_cancelled temperature top_k seed asked
              position left step s states generated
            ≡ (some ids, n))
          × (all_proper ids ≡ true)
          × (length ids ≡ length generated + left)
    unfolding decode_from
    decode_from-ids temperature top_k seed asked position zero step s states generated h =
        (generated, asked, refl, h, omega arith)
    decode_from-ids temperature top_k seed asked position (suc left) step s states generated h =
        let logits = model.logits (last_state model s states) temperature in
        let id = select_token model logits top_k seed step in
        let next = model.next_state id position (s ∷ states) in
        let (ids, n, e, p, m) =
          decode_from-ids temperature top_k seed (suc asked) (suc position) left (suc step) s
            (states ++ next ∷ []) (generated ++ id ∷ [])
            (all_proper-append generated id h (select_token-proper logits top_k seed step)) in
        (ids, n, rw (never asked) e, p, omega (arith, m, length-append generated (id ∷ [])))

    -- A generation that was not cancelled.
    pub record Complete (prompt : Str) (max_tokens : ℕ) (g : TinyLlmGeneration) : Type 0 where
      pub prompt_tokens : g.prompt_tokens ≡ length (tokenize_for_tiny_llm prompt)
      pub generated_tokens : g.generated_tokens ≡ max_tokens
      pub words : length (tokenize g.generated) ≡ max_tokens

    finish_generation-Complete :
        (timing : Timing) (prompt : Str) (max_tokens : ℕ) (ids : List ℕ)
        → all_proper ids ≡ true
        → length ids ≡ max_tokens
        → Complete prompt max_tokens
            (finish_generation model (length (tokenize_for_tiny_llm prompt)) timing (some ids))
    unfolding finish_generation
    finish_generation-Complete timing prompt max_tokens ids h k = record {
      prompt_tokens = refl;
      generated_tokens = k;
      words = ap length (tokenize-join_generated_tokens ids h) ∙ length-words ids ∙ k;
    }
      where
        length-words : (is : List ℕ) → length (map word_of is) ≡ length is
        length-words [] = refl
        length-words (i ∷ is) = ap suc (length-words is)

    decode_prompt-Complete :
        (temperature : F) (top_k max_tokens : ℕ) (timing : Timing) (prompt : Str) (asked : ℕ)
        (states : List S)
        → 0 < length states
        → Complete prompt max_tokens
            (decode_prompt model is_cancelled temperature top_k max_tokens timing prompt
              (length (tokenize_for_tiny_llm prompt))
              asked
              states).0
    unfolding decode_prompt
    decode_prompt-Complete temperature top_k max_tokens timing prompt asked [] h =
        absurd (omega arith)
    decode_prompt-Complete temperature top_k max_tokens timing prompt asked (s ∷ ss) h =
        let (ids, n, e, p, m) =
          decode_from-ids temperature top_k (hash_token prompt) asked
            (length (tokenize_for_tiny_llm prompt)) max_tokens 0 s ss [] refl in
        rw e (finish_generation-Complete timing prompt max_tokens ids p (omega (arith, m)))

    -- Where `is_cancelled` never says so, `GenerateTinyLLMCompletion` returns as many words as it was
    -- asked for, for any prompt and any arithmetic of the model: the prompt's tokens are those of
    -- `TokenizeForTinyLLM`, the generated tokens are `max_tokens`, and splitting the generated text into
    -- tokens yields as many words.
    pub generate_tiny_llm_completion-Complete :
        (asked : ℕ) (timing : Timing) (prompt : Str) (max_tokens : ℕ) (temperature : F) (top_k : ℕ)
        → Complete prompt max_tokens
            (generate_tiny_llm_completion model is_cancelled asked timing prompt max_tokens
              temperature top_k).0
    unfolding generate_tiny_llm_completion
    generate_tiny_llm_completion-Complete asked timing prompt max_tokens temperature top_k =
        let ids = tokenize_for_tiny_llm prompt in
        let (states, n, e, m) = prefill_from-states asked 0 [] ids in
        let (rest, f, g, k) = tokenize_for_tiny_llm-proper prompt in
        let some_ids : length ids ≡ suc (length rest) = ap length f in
        rw (e, never n)
          (decode_prompt-Complete temperature top_k max_tokens timing prompt (suc n) states
            (omega (arith, m, some_ids)))
