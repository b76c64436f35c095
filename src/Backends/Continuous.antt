-- ===== src/Backends/Continuous.antt =====
-- `ContinuousTinyLLMBackend` (backend/inference_backend.cc): the tiny language model behind the continuous
-- batcher. The print of a `float` and of a quotient, and the times, are parameters.
use laminar_inference.Base.{
  ℕ, suc, Bool, true, false, not, ◌||◌, List, [], ◌∷◌, ◌++◌, map, Option, none, some, length, ◌==◌,
  if◌then◌else◌,
}
use laminar_inference.Base.Int.{ℤ, pos, negsuc, pos_part}
use laminar_inference.Base.Text.{Str, codes, is_empty}
use laminar_inference.Base.Decimal.{to_string, int_to_string}
use laminar_inference.Base.Assoc.{Map}
use laminar_inference.Settings.{Floats}
use laminar_inference.Settings.Numbers.{clamp}
use laminar_inference.Batcher.State.{
  ContinuousBatcherConfig, SequenceRequest, SequenceResult, SequenceStatus, completed, rejected,
  cancelled, sequence_status_name, ContinuousBatchingRun, any_cancelled,
}
use laminar_inference.Batcher.{run_batch}
use laminar_inference.Tokens.{tokenize_for_tiny_llm, prefix_cache_key}
use laminar_inference.Backends.{
  BackendRequest, BackendResult, Polls, map_of, ok_result, cancelled_result, unavailable,
}
use laminar_inference.Backends.Generation.{
  TinyModel, TinyLlmGeneration, Timing, generate_tiny_llm_completion,
}

pub record ContinuousTinyLlmBackend (F : Type 0) : Type 0 where
  pub max_generated_tokens : ℤ
  pub temperature : F
  pub top_k : ℤ
  pub max_prefill_tokens_per_step : ℤ
  pub max_decode_sequences_per_step : ℤ
  pub kv_cache_blocks : ℤ
  pub kv_block_tokens : ℤ
  pub prefix_cache_tokens : ℤ

-- The constructor.
unfoldable pub make_continuous :
    {F : Type 0} → Floats F → ℤ → F → ℤ → ℤ → ℤ → ℤ → ℤ → ℤ → ContinuousTinyLlmBackend F
make_continuous floats max_generated_tokens temperature top_k max_prefill_tokens_per_step
      max_decode_sequences_per_step kv_cache_blocks kv_block_tokens prefix_cache_tokens =
    record {
      max_generated_tokens = clamp max_generated_tokens (pos 1) (pos 64);
      temperature = floats.clamp_float temperature (floats.hundredths 5) (floats.hundredths 200);
      top_k = clamp top_k (pos 1) (pos 62);
      max_prefill_tokens_per_step = clamp max_prefill_tokens_per_step (pos 1) (pos 1048576);
      max_decode_sequences_per_step = clamp max_decode_sequences_per_step (pos 1) (pos 1048576);
      kv_cache_blocks = clamp kv_cache_blocks (pos 1) (pos 1048576);
      kv_block_tokens = clamp kv_block_tokens (pos 1) (pos 1048576);
      prefix_cache_tokens = clamp prefix_cache_tokens (pos 0) (pos 1024);
    }

-- `FloatToString`, and `FixedDouble` with two digits of a quotient.
pub record Printing (F : Type 0) : Type 0 where
  pub float_to_string : F → Str
  pub fixed_double : ℕ × ℕ → Str

abbrev pub bool_text : Bool → Str
bool_text true = codes "true"
bool_text false = codes "false"

unfoldable pub build_continuous_tiny_llm_metadata :
    (ℕ × ℕ → Str) → ContinuousBatchingRun → SequenceResult → Map Str
build_continuous_tiny_llm_metadata fixed_double run sequence =
    let kv = run.stats.kv_cache in
    map_of (
      (codes "sequence.status", sequence_status_name sequence.status)
      ∷ (codes "sequence.generated_tokens", to_string sequence.generated_tokens)
      ∷ (codes "sequence.first_token_step", int_to_string sequence.first_token_step)
      ∷ (codes "sequence.completion_step", int_to_string sequence.completion_step)
      ∷ (codes "sequence.kv_blocks", to_string sequence.kv_blocks)
      ∷ (codes "sequence.prefix_cache_hit", bool_text sequence.prefix_cache_hit)
      ∷ (codes "scheduler.total_steps", to_string run.stats.total_steps)
      ∷ (codes "scheduler.prefill_steps", to_string run.stats.prefill_steps)
      ∷ (codes "scheduler.decode_steps", to_string run.stats.decode_steps)
      ∷ (codes "scheduler.total_prompt_tokens", to_string run.stats.total_prompt_tokens)
      ∷ (codes "scheduler.total_generated_tokens", to_string run.stats.total_generated_tokens)
      ∷ (
        codes "scheduler.average_decode_batch_size",
        fixed_double run.stats.average_decode_batch_size,
      )
      ∷ (codes "kv_cache.total_blocks", to_string kv.total_blocks)
      ∷ (codes "kv_cache.used_blocks", to_string kv.used_blocks)
      ∷ (codes "kv_cache.high_watermark_blocks", to_string kv.high_watermark_blocks)
      ∷ (codes "kv_cache.cached_prefixes", to_string kv.cached_prefixes)
      ∷ (codes "kv_cache.prefix_cache_hits", to_string kv.prefix_cache_hits)
      ∷ (codes "kv_cache.prefix_cache_misses", to_string kv.prefix_cache_misses)
      ∷ (codes "kv_cache.evictions", to_string kv.evictions)
      ∷ (codes "kv_cache.allocation_failures", to_string kv.allocation_failures)
      ∷ [])

abbrev pub is_rejected : SequenceStatus → Bool
is_rejected completed = false
is_rejected rejected = true
is_rejected cancelled = false

module _ {F : Type 0} (backend : ContinuousTinyLlmBackend F) where
  unfoldable pub scheduler_config : ContinuousBatcherConfig
  scheduler_config = record {
    max_prefill_tokens_per_step = backend.max_prefill_tokens_per_step;
    max_decode_sequences_per_step = backend.max_decode_sequences_per_step;
    kv_cache_blocks = backend.kv_cache_blocks;
    kv_block_tokens = backend.kv_block_tokens;
  }

  unfoldable pub sequence_request : BackendRequest → SequenceRequest
  sequence_request request =
      let token_ids = tokenize_for_tiny_llm request.prompt in
      let key = prefix_cache_key token_ids backend.prefix_cache_tokens in
      record {
        id = request.id;
        prompt_tokens = pos (length token_ids);
        max_generated_tokens = backend.max_generated_tokens;
        priority = pos 0;
        prefix_cache_key = key;
        prefix_cache_tokens = if is_empty key then negsuc 0 else backend.prefix_cache_tokens;
      }

  unfoldable pub format_continuous_tiny_llm_output :
      Printing F → TinyLlmGeneration → ℕ → SequenceResult → Str
  format_continuous_tiny_llm_output printing g batch_size sequence =
      codes "ContinuousTinyLLM(backend=continuous_tiny_llm, generated='"
      ++ g.generated
      ++ codes "', prompt_tokens="
      ++ to_string g.prompt_tokens
      ++ codes ", generated_tokens="
      ++ to_string g.generated_tokens
      ++ codes ", prefill_micros="
      ++ to_string g.prefill_micros
      ++ codes ", decode_micros="
      ++ to_string g.decode_micros
      ++ codes ", batch_size="
      ++ to_string batch_size
      ++ codes ", max_generated_tokens="
      ++ int_to_string backend.max_generated_tokens
      ++ codes ", top_k="
      ++ int_to_string backend.top_k
      ++ codes ", temperature="
      ++ printing.float_to_string backend.temperature
      ++ codes ", first_token_step="
      ++ int_to_string sequence.first_token_step
      ++ codes ", completion_step="
      ++ int_to_string sequence.completion_step
      ++ codes ")"

  module _ {S : Type 0} (model : TinyModel F S) (printing : Printing F) (timings : ℕ → Timing) where
    -- `GenerateTinyLLMCompletion` for one request, with the backend's limits.
    unfoldable pub generate_for : Polls → ℕ → ℕ → Str → TinyLlmGeneration × ℕ
    generate_for is_cancelled asked index prompt =
        generate_tiny_llm_completion model is_cancelled asked (timings index) prompt
          (pos_part backend.max_generated_tokens) backend.temperature (pos_part backend.top_k)

    -- The loop over the requests and the scheduler's results; `none` would be a read out of range.
    unfoldable pub output_loop :
        Polls
        → ContinuousBatchingRun
        → ℕ
        → ℕ
        → ℕ
        → List Str
        → List (Map Str)
        → List BackendRequest
        → List SequenceResult
        → Option BackendResult
    output_loop is_cancelled run batch_size index asked outputs metadata [] results =
        some (ok_result outputs metadata)
    output_loop is_cancelled run batch_size index asked outputs metadata (request ∷ rest) [] = none
    output_loop is_cancelled run batch_size index asked outputs metadata (request ∷ rest)
          (sequence ∷ sequences) =
        let generation = generate_for is_cancelled asked index request.prompt in
        let g = generation.0 in
        let next =
          output_loop is_cancelled run batch_size (suc index) (suc generation.1)
            (outputs ++ format_continuous_tiny_llm_output printing g batch_size sequence ∷ [])
            (metadata ++ build_continuous_tiny_llm_metadata printing.fixed_double run sequence ∷ [])
            rest sequences in
        if is_rejected sequence.status
        then some (record {
          code = unavailable;
          message = sequence.message;
          outputs = outputs;
          output_metadata = metadata;
        })
        else if is_cancelled generation.1
            || not (g.generated_tokens == pos_part backend.max_generated_tokens)
        then some cancelled_result
        else next

    -- `ContinuousTinyLLMBackend::ProcessBatch`, with fuel for the scheduler. The scheduler asks once for
    -- each of its steps.
    unfoldable pub continuous_batch : Polls → ℕ → List BackendRequest → Option BackendResult
    continuous_batch is_cancelled fuel requests =
        if is_cancelled 0
        then some cancelled_result
        else elim (run_batch scheduler_config (λ i. is_cancelled (suc i)) fuel
            (map sequence_request requests)) [
              | none ↦ none
              | some run ↦
                  if any_cancelled run.results
                  then some cancelled_result
                  else output_loop is_cancelled run (length requests) 0 (suc run.stats.total_steps)
                      [] [] requests run.results
            ]
