-- ===== src/Backends/Tests.antt =====
-- The backends (Backends) on concrete inputs.
use laminar_inference.Base.{
  suc, ◌+◌, max, replicate, ◌-◌, ◌*◌, ◌≡◌, ◌⊎◌, min, true, [], ◌∷◌, map, some, arith, ◌==◌,
  if◌then◌else◌,
}
use laminar_inference.Base.Text.{Str, codes}
use laminar_inference.Backends.{BackendRequest, Polls, cancelled_result, ok_result}
use laminar_inference.Base.{ltb, ℕ, false, List, refl}
use laminar_inference.Backends.{BackendResult}
use laminar_inference.Base.Int.{pos}
use laminar_inference.Texts.{to_lower}
use laminar_inference.Tokens.{
  tokenize_for_tiny_llm, tokenize, tokenize_from, is_alnum, token_id, hash_token, hash_from,
  join_generated_tokens, join_words, word_of,
}
use laminar_inference.Batcher.State.{ContinuousBatchingRun}
use laminar_inference.Batcher.{run_batch}
use laminar_inference.Backends.Generation.{
  TinyModel, Timing, generate_tiny_llm_completion, prefill_from, decode_prompt, decode_from,
  finish_generation, select_token, ranked_from, insert_ranked, ranks_before,
}
use laminar_inference.Backends.Generated.{Complete, generate_tiny_llm_completion-Complete}
use laminar_inference.Backends.Continuous.{
  ContinuousTinyLlmBackend, Printing, scheduler_config, sequence_request, continuous_batch,
}
use laminar_inference.Backends.TinyLlm.{
  TinyLlmBackend, tiny_batch, tiny_loop, tiny_answer, tiny_decode,
}
use laminar_inference.Backends.Arithmetic.{
  Arithmetic, tiny_llm_projection, feed_forward, accumulate,
}
use laminar_inference.Backends.TinyText.{
  TinyTextModelBackend, tiny_text_batch, count_bytes, is_punct, max_index, softmax, class_logits,
  labels, text_output, format_tiny_model_output,
}
use laminar_inference.Backends.Labels.{NoneAbove, text_output-softmax}
use laminar_inference.Base.{get_elem?}
use laminar_inference.Backends.Layered.{output_of, tiny_text_batch-any_poll}
use laminar_inference.Backends.Inlined.{Cancelled, Printed, tiny_batch-generate_tiny_llm_completion}
use laminar_inference.Backends.Served.{Served, continuous_batch-Served}
use laminar_inference.Backends.Simulator.{
  SimulatorBackend, simulator_batch, simulator_output, total_latency, any_poll, rounds, Slept,
  simulator_batch_returns,
}

abbrev simulator : SimulatorBackend
simulator = record { base_latency_ms = 10; per_request_latency_ms = 1 }

abbrev request : Str → BackendRequest
request prompt = record { id = codes "r"; prompt = prompt; trace_id = [] }

-- Cancelled at the third call.
abbrev third : Polls
third n = n == 2

simulator_batch_returns_example :
    let total = total_latency simulator 2 in
    let stopped = any_poll third 0 (suc (rounds total)) in
    (s : Slept) × (simulator_batch simulator third 9
        (request (codes "a") ∷ request (codes "b") ∷ [])
      ≡ some (
        (if stopped
            then cancelled_result
            else ok_result
                (map (simulator_output 2 total) (request (codes "a") ∷ request (codes "b") ∷ []))
                []),
        s,
      ))
    × (s.slept_ms ≡ min total (5 * (s.polls - 1)))
    × ((stopped ≡ true) ⊎ (s.slept_ms ≡ total))
unfolding total_latency
simulator_batch_returns_example =
    simulator_batch_returns simulator third 9 (request (codes "a") ∷ request (codes "b") ∷ [])
      (omega arith)

-- A model whose states are the tokens, and which prefers the tokens near the last one.
abbrev model : TinyModel ℕ ℕ
model = record {
  next_state = λ token position states. token;
  logits = λ state temperature token. if ltb token state then 0 else 1;
  equal = λ a b. a == b;
  greater = λ a b. ltb b a;
}

abbrev never : Polls
never n = false

abbrev timing : Timing
timing = record { prefill = 3; decode = 4 }

abbrev continuous : ContinuousTinyLlmBackend ℕ
continuous = record {
  max_generated_tokens = pos 2;
  temperature = 70;
  top_k = pos 4;
  max_prefill_tokens_per_step = pos 4;
  max_decode_sequences_per_step = pos 2;
  kv_cache_blocks = pos 8;
  kv_block_tokens = pos 2;
  prefix_cache_tokens = pos 2;
}

abbrev printing : Printing ℕ
printing = record { float_to_string = λ f. codes "0.700"; fixed_double = λ q. codes "1.00" }

abbrev two : List BackendRequest
two = request (codes "a b") ∷ request (codes "c") ∷ []

two_words :
    (generate_tiny_llm_completion model never 0 timing (codes "KV cache") 2 70 4).0 ≡ record {
      generated = codes "prefill cache";
      prompt_tokens = 3;
      generated_tokens = 2;
      prefill_micros = 3;
      decode_micros = 4;
    }
unfolding generate_tiny_llm_completion prefill_from decode_prompt decode_from finish_generation
    select_token ranked_from insert_ranked ranks_before tokenize_for_tiny_llm tokenize tokenize_from
    is_alnum to_lower token_id hash_token hash_from join_generated_tokens join_words word_of
two_words = refl

generate_tiny_llm_completion-Complete_example :
    Complete model never
      (λ n. refl)
      (codes "KV cache")
      2
      (generate_tiny_llm_completion model never 0 timing (codes "KV cache") 2 70 4).0
generate_tiny_llm_completion-Complete_example =
    generate_tiny_llm_completion-Complete model never (λ n. refl) 0 timing (codes "KV cache") 2 70 4

continuous_batch-Served_example :
    (run : ContinuousBatchingRun) × (r : BackendResult) × (run_batch
        (scheduler_config continuous)
        (λ i. never (suc i))
        40
        (map (sequence_request continuous) two)
      ≡ some run)
    × (continuous_batch continuous model printing (λ i. timing) never 40 two ≡ some r)
    × Served 2 run.results r
unfolding sequence_request tokenize_for_tiny_llm tokenize tokenize_from is_alnum to_lower token_id
continuous_batch-Served_example =
    continuous_batch-Served continuous model printing (λ i. timing) never (λ n. refl) 40 two
      (omega arith)

abbrev tiny : TinyLlmBackend ℕ
tiny = record { max_generated_tokens = pos 2; temperature = 70; top_k = pos 4 }

abbrev print_float : ℕ → Str
print_float f = codes "0.700"

stops_at_third : tiny_batch print_float tiny model (λ i. timing) third two ≡ cancelled_result
unfolding tiny_batch tiny_loop tiny_answer tiny_decode prefill_from tokenize_for_tiny_llm tokenize
    tokenize_from is_alnum to_lower token_id
stops_at_third = refl

tiny_batch-generate_tiny_llm_completion_example :
    (Cancelled model third
      × (tiny_batch print_float tiny model (λ i. timing) third two ≡ cancelled_result))
    ⊎ ((outputs : List Str) × (tiny_batch print_float tiny model (λ i. timing) third two
          ≡ ok_result outputs [])
        × Printed print_float tiny model (λ i. timing) third 2 0 1 two outputs)
tiny_batch-generate_tiny_llm_completion_example =
    tiny_batch-generate_tiny_llm_completion print_float tiny model (λ i. timing) third two

-- Numbers in place of `float`, where each literal is one and `sin` keeps its argument.
abbrev counting : Arithmetic ℕ
counting = record {
  literal = λ text. 1;
  of_int = λ n. n;
  plus = λ a b. a + b;
  minus = λ a b. a - b;
  times = λ a b. a * b;
  over = λ a b. a;
  sin = λ a. a;
  exp = λ a. a;
  tanh = λ a. a;
  sqrt = λ a. a;
  max_float = max;
  min_positive = 1;
  minus_infinity = 0;
  equal = λ a b. a == b;
  greater = λ a b. ltb b a;
}

projection_seed : tiny_llm_projection counting 2 3 5 ≡ 7 * 73 + 14 * 41 + 5 * 149
unfolding tiny_llm_projection
projection_seed = refl

-- Eight rounds, over every fourth index.
feeds_each_fourth :
    feed_forward counting (replicate 32 1) (replicate 32 0) 0
    ≡ tiny_llm_projection counting 0 0 2
      + tiny_llm_projection counting 4 0 2
      + tiny_llm_projection counting 8 0 2
      + tiny_llm_projection counting 12 0 2
      + tiny_llm_projection counting 16 0 2
      + tiny_llm_projection counting 20 0 2
      + tiny_llm_projection counting 24 0 2
      + tiny_llm_projection counting 28 0 2
unfolding feed_forward accumulate tiny_llm_projection
feeds_each_fourth = refl

two_marks : count_bytes is_punct (codes "a, b!") ≡ 2
unfolding count_bytes is_punct is_alnum
two_marks = refl

-- The first of two equal maxima.
first_best : max_index counting 3 0 0 (3 ∷ 7 ∷ 2 ∷ 7 ∷ []) ≡ 1
unfolding max_index
first_best = refl

abbrev text_model : TinyTextModelBackend
text_model = record { iterations = pos 3 }

-- Cancelled at the last question, which is that of the second request's last layer.
abbrev ninth : Polls
ninth n = n == 8

tiny_text_batch-any_poll_example :
    tiny_text_batch counting (λ a. a) print_float text_model ninth two ≡ (
      if any_poll ninth 0 (suc (2 * 4))
      then cancelled_result
      else ok_result (map (output_of counting (λ a. a) print_float text_model ninth 2) two) [])
tiny_text_batch-any_poll_example =
    tiny_text_batch-any_poll counting (λ a. a) print_float text_model ninth two

text_output-softmax_example :
    let probabilities = softmax counting (class_logits counting (replicate 48 1)) in
    (k : ℕ) × (label : Str) × (p : ℕ) × (get_elem? labels k ≡ some label)
    × (get_elem? probabilities k ≡ some p)
    × (text_output counting (λ a. a) print_float text_model never 2 (replicate 48 1)
        ≡ format_tiny_model_output counting (λ a. a) print_float text_model never label p 2)
    × NoneAbove counting p probabilities
text_output-softmax_example =
    text_output-softmax counting (λ a b h. ground (arith, h)) (λ a b c h k. ground (arith, h, k))
      (λ a. a) print_float text_model never 2 (replicate 48 1)
