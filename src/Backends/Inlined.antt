-- ===== src/Backends/Inlined.antt =====
-- The steps that `TinyLLMBackend` (TinyLlm) writes out again, against `GenerateTinyLLMCompletion` (Generation).
use laminar_inference.Base.{
  ℕ, zero, suc, ◌+◌, ◌-◌, ◌<◌, ◌≡◌, refl, sym, ap, ◌∙◌, ◌⊎◌, inl, inr, true, Bool-cases, List, [],
  ◌∷◌, ◌++◌, Option, none, some, length, length-append, arith,
}
use mathlib.Core.Option
use mathlib.Core.List.{append-nil, append_assoc}
use laminar_inference.Base.Int.{pos_part}
use laminar_inference.Base.Text.{Str}
use laminar_inference.Tokens.{hash_token, tokenize_for_tiny_llm}
use laminar_inference.Tokens.Ids.{tokenize_for_tiny_llm-proper}
use laminar_inference.Backends.{BackendRequest, BackendResult, Polls, ok_result, cancelled_result}
use laminar_inference.Backends.Generation.{
  TinyModel, TinyLlmGeneration, Timing, prefill_from, decode_from, finish_generation, select_token,
  last_state, decode_prompt, generate_tiny_llm_completion,
}
use laminar_inference.Backends.TinyLlm.{
  TinyLlmBackend, format_tiny_llm_output, tiny_output, tiny_decode, tiny_answer, tiny_loop,
  tiny_batch,
}

module _ {F S : Type 0} (model : TinyModel F S) (is_cancelled : Polls) where
  -- A question that was answered with true.
  abbrev pub Cancelled : Type 0
  Cancelled = (n : ℕ) × (is_cancelled n ≡ true)

  prefill_from-cases :
      (asked position : ℕ) (states : List S) (ids : List ℕ)
      → (Cancelled × ((prefill_from model is_cancelled asked position states ids).0 ≡ none))
        ⊎ ((all : List S) × (n : ℕ) × (prefill_from model is_cancelled asked position states ids
              ≡ (some all, n))
            × (length all ≡ length states + length ids))
  unfolding prefill_from
  prefill_from-cases asked position states [] = inr (states, asked, refl, omega arith)
  prefill_from-cases asked position states (id ∷ ids) =
      let next = model.next_state id position states in
      let longer = length-append states (next ∷ []) in
      elim (Bool-cases (is_cancelled asked)) [
        | inl e ↦ inl ((asked, e), rw e refl)
        | inr e ↦
            rw e (elim (prefill_from-cases (suc asked) (suc position) (states ++ next ∷ []) ids) [
              | inl h ↦ inl h
              | inr (all, n, f, m) ↦ inr (all, n, f, omega (arith, m, longer))
            ])
      ]

  decode_from-cases :
      (temperature : F) (top_k seed asked position left step : ℕ) (s : S) (states : List S)
      (generated : List ℕ)
      → (Cancelled
          × ((decode_from model is_cancelled temperature top_k seed asked position left step s
                states generated).0
              ≡ none))
        ⊎ ((ids : List ℕ) × (n : ℕ) × (decode_from model is_cancelled temperature top_k seed asked
                position left step s states generated
              ≡ (some ids, n)))
  unfolding decode_from
  decode_from-cases temperature top_k seed asked position zero step s states generated =
      inr (generated, asked, refl)
  decode_from-cases temperature top_k seed asked position (suc left) step s states generated =
      let logits = model.logits (last_state model s states) temperature in
      let id = select_token model logits top_k seed step in
      let next = model.next_state id position (s ∷ states) in
      elim (Bool-cases (is_cancelled asked)) [
        | inl e ↦ inl ((asked, e), rw e refl)
        | inr e ↦ rw e (
            decode_from-cases temperature top_k seed (suc asked) (suc position) left (suc step) s
              (states ++ next ∷ []) (generated ++ id ∷ []))
      ]

module _ {F S : Type 0} (float_to_string : F → Str) (backend : TinyLlmBackend F)
    (model : TinyModel F S) (timings : ℕ → Timing) (is_cancelled : Polls) where
  -- `GenerateTinyLLMCompletion` with the backend's limits.
  abbrev pub completion : ℕ → ℕ → Str → TinyLlmGeneration × ℕ
  completion index asked prompt =
      generate_tiny_llm_completion model is_cancelled asked (timings index) prompt
        (pos_part backend.max_generated_tokens) backend.temperature (pos_part backend.top_k)

  -- The output for a generation.
  abbrev pub printed : ℕ → ℕ → TinyLlmGeneration → Str
  printed batch_size index g =
      format_tiny_llm_output float_to_string backend g.generated g.prompt_tokens g.generated_tokens
        (record { prefill = g.prefill_micros; decode = g.decode_micros }) batch_size

  tiny_output-printed :
      (batch_size index : ℕ) (token_ids ids : List ℕ)
      → tiny_output float_to_string backend batch_size (timings index) token_ids ids
        ≡ printed batch_size index
            (finish_generation model (length token_ids) (timings index) (some ids))
  unfolding tiny_output finish_generation format_tiny_llm_output
  tiny_output-printed batch_size index token_ids ids =
      let same : length (token_ids ++ ids) - length ids ≡ length token_ids =
        omega (arith, length-append token_ids ids) in
      rw same refl

  tiny_decode-cases :
      (batch_size index asked : ℕ) (prompt : Str) (states : List S)
      → 0 < length states
      → (Cancelled model is_cancelled
          × ((tiny_decode float_to_string backend model timings is_cancelled batch_size index asked
                prompt
                (tokenize_for_tiny_llm prompt)
                states).0
              ≡ none))
        ⊎ (tiny_decode float_to_string backend model timings is_cancelled batch_size index asked
              prompt
              (tokenize_for_tiny_llm prompt)
              states
            ≡ (
              some (
                  printed batch_size index
                    (decode_prompt model is_cancelled backend.temperature
                      (pos_part backend.top_k)
                      (pos_part backend.max_generated_tokens)
                      (timings index)
                      prompt
                      (length (tokenize_for_tiny_llm prompt))
                      asked
                      states).0),
              (decode_prompt model is_cancelled backend.temperature
                  (pos_part backend.top_k)
                  (pos_part backend.max_generated_tokens)
                  (timings index)
                  prompt
                  (length (tokenize_for_tiny_llm prompt))
                  asked
                  states).1,
            ))
  unfolding tiny_decode decode_prompt
  tiny_decode-cases batch_size index asked prompt [] h = absurd (omega (arith, h))
  tiny_decode-cases batch_size index asked prompt (s ∷ ss) h =
      let ids = tokenize_for_tiny_llm prompt in
      elim (decode_from-cases model is_cancelled backend.temperature (pos_part backend.top_k)
        (hash_token prompt) asked (length ids) (pos_part backend.max_generated_tokens) 0 s ss []) [
          | inl (c, e) ↦ inl (
            c,
            ap (Option.map (tiny_output float_to_string backend batch_size (timings index) ids)) e,
          )
          | inr (generated, n, e) ↦
              inr
                (rw e (ap (λ o. (some o, n)) (tiny_output-printed batch_size index ids generated)))
        ]

  tiny_answer-cases :
      (batch_size index asked : ℕ) (prompt : Str)
      → (Cancelled model is_cancelled
          × ((tiny_answer float_to_string backend model timings is_cancelled batch_size index asked
                prompt).0
              ≡ none))
        ⊎ (tiny_answer float_to_string backend model timings is_cancelled batch_size index asked
              prompt
            ≡ (
              some (printed batch_size index (completion index asked prompt).0),
              (completion index asked prompt).1,
            ))
  unfolding tiny_answer generate_tiny_llm_completion tiny_decode
  tiny_answer-cases batch_size index asked prompt =
      let ids = tokenize_for_tiny_llm prompt in
      let (rest, f, g, k) = tokenize_for_tiny_llm-proper prompt in
      let some_ids : length ids ≡ suc (length rest) = ap length f in
      elim (prefill_from-cases model is_cancelled asked 0 [] ids) [
        | inl (c, e) ↦
            elim (Bool-cases (is_cancelled (prefill_from model is_cancelled asked 0 [] ids).1)) [
              | inl said ↦ inl (c, rw said refl)
              | inr silent ↦ inl (c, rw (silent, e) refl)
            ]
        | inr (all, n, e, m) ↦ elim (Bool-cases (is_cancelled n)) [
          | inl said ↦ inl ((n, said), rw (e, said) refl)
          | inr silent ↦
              rw (e, silent)
                (tiny_decode-cases batch_size index (suc n) prompt all (omega (arith, m, some_ids)))
        ]
      ]

  -- The outputs against the requests, where each generation starts behind the questions of those before it.
  pub data Printed (batch_size : ℕ) : ℕ → ℕ → List BackendRequest → List Str → Type 0 where
    none_left : (index asked : ℕ) → Printed batch_size index asked [] []
    one_more :
        (index asked : ℕ) (request : BackendRequest) (rest : List BackendRequest) (output : Str)
        (outputs : List Str)
        → output ≡ printed batch_size index (completion index (suc asked) request.prompt).0
        → Printed batch_size
            (suc index)
            (completion index (suc asked) request.prompt).1
            rest
            outputs
        → Printed batch_size index asked (request ∷ rest) (output ∷ outputs)

  -- Either a question was answered with true and the batch is cancelled, or all outputs are there.
  abbrev pub CancelledOrPrinted :
      ℕ → ℕ → ℕ → List Str → List BackendRequest → BackendResult → Type 0
  CancelledOrPrinted batch_size index asked before requests r =
      (Cancelled model is_cancelled × (r ≡ cancelled_result))
      ⊎ ((outputs : List Str) × (r ≡ ok_result (before ++ outputs) [])
          × Printed batch_size index asked requests outputs)

  tiny_loop-CancelledOrPrinted :
      (batch_size index asked : ℕ) (before : List Str) (requests : List BackendRequest)
      → CancelledOrPrinted batch_size index asked before requests (
          tiny_loop float_to_string backend model timings is_cancelled batch_size index asked before
            requests)
  unfolding tiny_loop
  tiny_loop-CancelledOrPrinted batch_size index asked before [] =
      inr ([], ap (λ os. ok_result os []) (sym (append-nil before)), none_left index asked)
  tiny_loop-CancelledOrPrinted batch_size index asked before (request ∷ rest) =
      elim (Bool-cases (is_cancelled asked)) [
        | inl said ↦ inl ((asked, said), rw (tiny_loop, said) refl)
        | inr silent ↦ elim (tiny_answer-cases batch_size index (suc asked) request.prompt) [
          | inl (c, e) ↦ inl (c, rw (tiny_loop, silent, e) refl)
          | inr e ↦
              let output_of = ap (λ (r : Option Str × ℕ). r.0) e in
              let asked_of = ap (λ (r : Option Str × ℕ). r.1) e in
              let g = completion index (suc asked) request.prompt in
              let output = printed batch_size index g.0 in
              elim (tiny_loop-CancelledOrPrinted batch_size (suc index) g.1 (before ++ output ∷ [])
                rest) [
                  | inl (c, f) ↦ inl (c, rw (tiny_loop, silent, output_of, asked_of) f)
                  | inr (outputs, f, each) ↦ inr (
                    output ∷ outputs,
                    rw (tiny_loop, silent, output_of, asked_of)
                        (f
                          ∙ ap (λ os. ok_result os []) (append_assoc before (output ∷ []) outputs)),
                    one_more index asked request rest output outputs refl each,
                  )
                ]
        ]
      ]

  -- A batch of `TinyLLMBackend` ends, whatever the model computes and `is_cancelled` answers, in one of two
  -- ways: it is cancelled, and then some question was answered with true; or it is ok with one output for each
  -- request, in order, each the print of what `GenerateTinyLLMCompletion` returns for that prompt and the
  -- backend's limits, where its questions follow those of the requests before it.
  pub tiny_batch-generate_tiny_llm_completion :
      (requests : List BackendRequest)
      → (Cancelled model is_cancelled
          × (tiny_batch float_to_string backend model timings is_cancelled requests
              ≡ cancelled_result))
        ⊎ ((outputs : List Str) × (tiny_batch float_to_string backend model timings is_cancelled
                requests
              ≡ ok_result outputs [])
            × Printed (length requests) 0 1 requests outputs)
  unfolding tiny_batch
  tiny_batch-generate_tiny_llm_completion requests = elim (Bool-cases (is_cancelled 0)) [
    | inl said ↦ inl ((0, said), rw said refl)
    | inr silent ↦ rw silent (tiny_loop-CancelledOrPrinted (length requests) 0 1 [] requests)
  ]
