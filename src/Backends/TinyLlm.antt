-- ===== src/Backends/TinyLlm.antt =====
-- `TinyLLMBackend` (backend/inference_backend.cc): the tiny language model, one request after the other. The
-- source writes the steps of `GenerateTinyLLMCompletion` out again in `ProcessBatch`.
use laminar_inference.Base.{
  ℕ, suc, ◌-◌, true, false, List, [], ◌∷◌, ◌++◌, Option, none, some, length, if◌then◌else◌,
}
use mathlib.Core.Option
use laminar_inference.Base.Int.{ℤ, pos, pos_part}
use laminar_inference.Base.Text.{Str, codes}
use laminar_inference.Base.Decimal.{to_string, int_to_string}
use laminar_inference.Settings.{Floats}
use laminar_inference.Settings.Numbers.{clamp}
use laminar_inference.Tokens.{hash_token, tokenize_for_tiny_llm, join_generated_tokens}
use laminar_inference.Backends.{BackendRequest, BackendResult, Polls, ok_result, cancelled_result}
use laminar_inference.Backends.Generation.{
  TinyModel, Timing, prefill_from, decode_from, or_no_states,
}

pub record TinyLlmBackend (F : Type 0) : Type 0 where
  pub max_generated_tokens : ℤ
  pub temperature : F
  pub top_k : ℤ

-- The constructor.
unfoldable pub make_tiny_llm : {F : Type 0} → Floats F → ℤ → F → ℤ → TinyLlmBackend F
make_tiny_llm floats max_generated_tokens temperature top_k = record {
  max_generated_tokens = clamp max_generated_tokens (pos 1) (pos 64);
  temperature = floats.clamp_float temperature (floats.hundredths 5) (floats.hundredths 200);
  top_k = clamp top_k (pos 1) (pos 62);
}

module _ {F : Type 0} (float_to_string : F → Str) (backend : TinyLlmBackend F) where
  unfoldable pub format_tiny_llm_output : Str → ℕ → ℕ → Timing → ℕ → Str
  format_tiny_llm_output generated prompt_tokens generated_tokens timing batch_size =
      codes "TinyLLM(backend=tiny_llm, generated='"
      ++ generated
      ++ codes "', prompt_tokens="
      ++ to_string prompt_tokens
      ++ codes ", generated_tokens="
      ++ to_string generated_tokens
      ++ codes ", prefill_micros="
      ++ to_string timing.prefill
      ++ codes ", decode_micros="
      ++ to_string timing.decode
      ++ codes ", batch_size="
      ++ to_string batch_size
      ++ codes ", max_generated_tokens="
      ++ int_to_string backend.max_generated_tokens
      ++ codes ", top_k="
      ++ int_to_string backend.top_k
      ++ codes ", temperature="
      ++ float_to_string backend.temperature
      ++ codes ")"

  -- The output of one request, where `token_ids` are those of its prompt; the source has pushed the generated
  -- ones behind them.
  unfoldable pub tiny_output : ℕ → Timing → List ℕ → List ℕ → Str
  tiny_output batch_size timing token_ids generated_ids =
      format_tiny_llm_output (join_generated_tokens generated_ids)
        (length (token_ids ++ generated_ids) - length generated_ids) (length generated_ids) timing
        batch_size

  module _ {S : Type 0} (model : TinyModel F S) (timings : ℕ → Timing) (is_cancelled : Polls) where
    -- One request behind the prefill and the question after it: the output, `none` where it was cancelled,
    -- and the number of calls of `is_cancelled`.
    unfoldable pub tiny_decode : ℕ → ℕ → ℕ → Str → List ℕ → List S → Option Str × ℕ
    tiny_decode batch_size index asked prompt token_ids [] = (none, asked)
    tiny_decode batch_size index asked prompt token_ids (s ∷ ss) =
        let r =
          decode_from model is_cancelled backend.temperature (pos_part backend.top_k)
            (hash_token prompt) asked (length token_ids) (pos_part backend.max_generated_tokens) 0 s
            ss [] in
        (Option.map (tiny_output batch_size (timings index) token_ids) r.0, r.1)

    unfoldable pub tiny_answer : ℕ → ℕ → ℕ → Str → Option Str × ℕ
    tiny_answer batch_size index asked prompt =
        let token_ids = tokenize_for_tiny_llm prompt in
        let filled = prefill_from model is_cancelled asked 0 [] token_ids in
        if is_cancelled filled.1
        then (none, suc filled.1)
        else tiny_decode batch_size index (suc filled.1) prompt token_ids
            (or_no_states model filled.0)

    -- The loop over the requests.
    unfoldable pub tiny_loop : ℕ → ℕ → ℕ → List Str → List BackendRequest → BackendResult
    tiny_loop batch_size index asked outputs [] = ok_result outputs []
    tiny_loop batch_size index asked outputs (request ∷ rest) = elim (is_cancelled asked) [
      | true ↦ cancelled_result
      | false ↦
          let answer = tiny_answer batch_size index (suc asked) request.prompt in
          elim answer.0 [
            | none ↦ cancelled_result
            | some output ↦ tiny_loop batch_size (suc index) answer.1 (outputs ++ output ∷ []) rest
          ]
    ]

    -- `TinyLLMBackend::ProcessBatch`
    unfoldable pub tiny_batch : List BackendRequest → BackendResult
    tiny_batch requests =
        if is_cancelled 0 then cancelled_result else tiny_loop (length requests) 0 1 [] requests
