-- ===== src/Backends/Generation.antt =====
-- The generation of the tiny language model (backend/inference_backend.cc): `TinyLLMPrefill`,
-- `TinyLLMSelectToken` and `GenerateTinyLLMCompletion`. What is computed in `float` is a parameter here: the
-- next state, the logits, and the comparison of two logits. Arithmetic has the source's functions for it.
use laminar_inference.Base.{
  ℕ, zero, suc, ◌+◌, ◌*◌, ◌%◌, ◌^◌, Bool, List, [], ◌∷◌, ◌++◌, Option, none, some, length,
  get_elem?, ltb, if◌then◌else◌,
}
use laminar_inference.Base.Text.{Str}
use laminar_inference.Backends.{Polls}
use laminar_inference.Tokens.{hash_token, tokenize_for_tiny_llm, join_generated_tokens}

-- `TinyLLMNextState`, `TinyLLMLogits`, and `==` and `>` of `float`.
pub record TinyModel (F S : Type 0) : Type 0 where
  pub next_state : ℕ → ℕ → List S → S
  pub logits : S → F → ℕ → F
  pub equal : F → F → Bool
  pub greater : F → F → Bool

pub record TinyLlmGeneration : Type 0 where
  pub generated : Str
  pub prompt_tokens : ℕ
  pub generated_tokens : ℕ
  pub prefill_micros : ℕ
  pub decode_micros : ℕ

-- The measured times of one generation.
pub record Timing : Type 0 where
  pub prefill : ℕ
  pub decode : ℕ

module _ {F S : Type 0} (model : TinyModel F S) where
  -- The comparator of `std::partial_sort`.
  unfoldable pub ranks_before : F × ℕ → F × ℕ → Bool
  ranks_before (a, i) (b, j) = if model.equal a b then ltb i j else model.greater a b

  unfoldable pub insert_ranked : F × ℕ → List (F × ℕ) → List (F × ℕ)
  insert_ranked x [] = x ∷ []
  insert_ranked x (y ∷ ys) =
      let rest = insert_ranked x ys in if ranks_before x y then x ∷ y ∷ ys else y ∷ rest

  -- The tokens from one on, `count` of them, in the order of their ranks.
  unfoldable pub ranked_from : (ℕ → F) → ℕ → ℕ → List (F × ℕ)
  ranked_from logits token zero = []
  ranked_from logits token (suc count) =
      insert_ranked (logits token, token) (ranked_from logits (suc token) count)

  -- `TinyLLMSelectToken`, for a `top_k` of at least one, which the backends' constructors give it; the
  -- partial sort puts the tokens that the index may reach in this order.
  unfoldable pub select_token : (ℕ → F) → ℕ → ℕ → ℕ → ℕ
  select_token logits top_k seed step =
      let ranked = ranked_from logits 2 62 in
      let capped_top_k = if ltb top_k 1 then 1 else if ltb 62 top_k then 62 else top_k in
      let offset = (seed + step * 17) % 2 ^ 32 % capped_top_k in
      elim (get_elem? ranked offset) [ none ↦ 0 | some r ↦ r.1 ]

  -- The loop of `TinyLLMPrefill`: the states, `none` where it was cancelled, and the number of calls of
  -- `is_cancelled`.
  unfoldable pub prefill_from : Polls → ℕ → ℕ → List S → List ℕ → Option (List S) × ℕ
  prefill_from is_cancelled asked position states [] = (some states, asked)
  prefill_from is_cancelled asked position states (id ∷ ids) =
      let rest =
        prefill_from is_cancelled (suc asked) (suc position)
          (states ++ model.next_state id position states ∷ []) ids in
      if is_cancelled asked then (none, suc asked) else rest

  abbrev pub last_state : S → List S → S
  last_state s [] = s
  last_state s (t ∷ ts) = last_state t ts

  -- The decode loop: the ids, `none` where it was cancelled, for a first state and the states behind it.
  unfoldable pub decode_from :
      Polls → F → ℕ → ℕ → ℕ → ℕ → ℕ → ℕ → S → List S → List ℕ → Option (List ℕ) × ℕ
  decode_from is_cancelled temperature top_k seed asked position zero step first states generated =
      (some generated, asked)
  decode_from is_cancelled temperature top_k seed asked position (suc left) step first states
        generated =
      let logits = model.logits (last_state first states) temperature in
      let next_token = select_token logits top_k seed step in
      let next = model.next_state next_token position (first ∷ states) in
      let rest =
        decode_from is_cancelled temperature top_k seed (suc asked) (suc position) left (suc step)
          first (states ++ next ∷ []) (generated ++ next_token ∷ []) in
      if is_cancelled asked then (none, suc asked) else rest

  abbrev pub stopped_generation : ℕ → ℕ → TinyLlmGeneration
  stopped_generation prompt_tokens prefill_micros = record {
    generated = [];
    prompt_tokens = prompt_tokens;
    generated_tokens = 0;
    prefill_micros = prefill_micros;
    decode_micros = 0;
  }

  -- The end of `GenerateTinyLLMCompletion`, behind the decode loop.
  unfoldable pub finish_generation : ℕ → Timing → Option (List ℕ) → TinyLlmGeneration
  finish_generation prompt_tokens timing none = stopped_generation prompt_tokens timing.prefill
  finish_generation prompt_tokens timing (some ids) = record {
    generated = join_generated_tokens ids;
    prompt_tokens = prompt_tokens;
    generated_tokens = length ids;
    prefill_micros = timing.prefill;
    decode_micros = timing.decode;
  }

  -- `GenerateTinyLLMCompletion` behind the prefill and its question.
  unfoldable pub decode_prompt :
      Polls → F → ℕ → ℕ → Timing → Str → ℕ → ℕ → List S → TinyLlmGeneration × ℕ
  decode_prompt is_cancelled temperature top_k max_tokens timing prompt prompt_tokens asked [] =
      (stopped_generation prompt_tokens timing.prefill, asked)
  decode_prompt is_cancelled temperature top_k max_tokens timing prompt prompt_tokens asked
        (s ∷ ss) =
      let r =
        decode_from is_cancelled temperature top_k (hash_token prompt) asked prompt_tokens
          max_tokens 0 s ss [] in
      (finish_generation prompt_tokens timing r.0, r.1)

  abbrev pub or_no_states : Option (List S) → List S
  or_no_states none = []
  or_no_states (some states) = states

  -- `GenerateTinyLLMCompletion`, with the number of calls of `is_cancelled` before and behind it.
  unfoldable pub generate_tiny_llm_completion :
      Polls → ℕ → Timing → Str → ℕ → F → ℕ → TinyLlmGeneration × ℕ
  generate_tiny_llm_completion is_cancelled asked timing prompt max_tokens temperature top_k =
      let token_ids = tokenize_for_tiny_llm prompt in
      let filled = prefill_from is_cancelled asked 0 [] token_ids in
      if is_cancelled filled.1
      then (stopped_generation (length token_ids) timing.prefill, suc filled.1)
      else decode_prompt is_cancelled temperature top_k max_tokens timing prompt (length token_ids)
          (suc filled.1) (or_no_states filled.0)
