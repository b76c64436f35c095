-- ===== src/Backends/Served.antt =====
-- `ContinuousTinyLLMBackend::ProcessBatch` (Continuous) where it is not cancelled: the batcher's run and what
-- becomes of its results.
use laminar_inference.Base.{
  ℕ, suc, ◌+◌, ◌<◌, ◌≡◌, refl, ◌⊎◌, inl, inr, Bool, true, false, not, ◌&&◌, ◌||◌, Bool-cases, List,
  [], ◌∷◌, ◌++◌, map, some, length, length-append, ◌==◌, arith,
}
use laminar_inference.Base.Int.{pos_part}
use laminar_inference.Base.Text.{Str}
use laminar_inference.Base.Assoc.{Map}
use laminar_inference.Batcher.State.{
  SequenceResult, SequenceStatus, completed, rejected, cancelled, ContinuousBatchingRun,
}
use laminar_inference.Batcher.{run_batch}
use laminar_inference.Batcher.Endings.{requested}
use laminar_inference.Batcher.Runs.{AllAnswered}
use laminar_inference.Batcher.Uncancelled.{run_batch-any_cancelled}
use laminar_inference.Backends.{BackendRequest, BackendResult, Polls, unavailable, is_ok, ok_result}
use laminar_inference.Backends.Generation.{TinyModel, Timing}
use laminar_inference.Backends.Generated.{Complete, generate_tiny_llm_completion-Complete}
use laminar_inference.Backends.Continuous.{
  ContinuousTinyLlmBackend, Printing, build_continuous_tiny_llm_metadata, is_rejected,
  scheduler_config, sequence_request, format_continuous_tiny_llm_output, generate_for, output_loop,
  continuous_batch,
}

-- A result that was rejected with a message.
abbrev pub RejectedWith : Str → List SequenceResult → Type 0
RejectedWith message [] = ⊥
RejectedWith message (t ∷ ts) =
    ((t.status ≡ rejected) × (t.message ≡ message)) ⊎ RejectedWith message ts

abbrev pub none_rejected : List SequenceResult → Bool
none_rejected [] = true
none_rejected (t ∷ ts) = not (is_rejected t.status) && none_rejected ts

-- All outputs where no sequence was rejected, or the message of one that was.
abbrev pub Served : ℕ → List SequenceResult → BackendResult → Type 0
Served n results r =
    ((is_ok r.code ≡ true)
      × (length r.outputs ≡ n)
      × (length r.output_metadata ≡ n)
      × (none_rejected results ≡ true))
    ⊎ ((r.code ≡ unavailable) × RejectedWith r.message results)

is_rejected_of : (s : SequenceStatus) → is_rejected s ≡ true → s ≡ rejected
is_rejected_of completed h = ground arith
is_rejected_of rejected h = refl
is_rejected_of cancelled h = ground arith

module _ {F S : Type 0} (backend : ContinuousTinyLlmBackend F) (model : TinyModel F S)
    (printing : Printing F) (timings : ℕ → Timing) (is_cancelled : Polls)
    (never : (n : ℕ) → is_cancelled n ≡ false) where
  generate_for-Complete :
      (asked index : ℕ) (prompt : Str)
      → Complete model is_cancelled never prompt
          (pos_part backend.max_generated_tokens)
          (generate_for backend model printing timings is_cancelled asked index prompt).0
  unfolding generate_for
  generate_for-Complete asked index prompt =
      generate_tiny_llm_completion-Complete model is_cancelled never asked (timings index) prompt
        (pos_part backend.max_generated_tokens) backend.temperature (pos_part backend.top_k)

  goes_on :
      (asked index : ℕ) (prompt : Str)
      → let g = generate_for backend model printing timings is_cancelled asked index prompt in
        (is_cancelled g.1 || not (g.0.generated_tokens == pos_part backend.max_generated_tokens))
        ≡ false
  goes_on asked index prompt =
      let g = generate_for backend model printing timings is_cancelled asked index prompt in
      let complete = (generate_for-Complete asked index prompt).generated_tokens in
      ground (arith, never g.1, complete)

  -- The loop from some outputs on, for requests with their results.
  output_loop-Served :
      (run : ContinuousBatchingRun) (batch_size index asked : ℕ) (outputs : List Str)
      (metadata : List (Map Str)) (requests : List BackendRequest) (results : List SequenceResult)
      (total : ℕ)
      → AllAnswered (map (sequence_request backend) requests) results
      → length metadata ≡ length outputs
      → length outputs + length requests ≡ total
      → (r : BackendResult) × (output_loop backend model printing timings is_cancelled run
            batch_size index asked outputs metadata requests results
          ≡ some r)
        × Served total results r
  unfolding output_loop
  output_loop-Served run batch_size index asked outputs metadata [] [] total answered same all = (
    ok_result outputs metadata,
    refl,
    inl (refl, omega (arith, all), omega (arith, same, all), refl),
  )
  output_loop-Served run batch_size index asked outputs metadata [] (t ∷ ts) total answered same
        all =
      absurd answered
  output_loop-Served run batch_size index asked outputs metadata (request ∷ rest) [] total answered
        same all =
      absurd answered
  output_loop-Served run batch_size index asked outputs metadata (request ∷ rest) (t ∷ ts) total
        answered same all =
      elim (Bool-cases (is_rejected t.status)) [
        | inl e ↦ (
          record {
            code = unavailable;
            message = t.message;
            outputs = outputs;
            output_metadata = metadata;
          },
          rw (output_loop, e) refl,
          inr (refl, inl (is_rejected_of t.status e, refl)),
        )
        | inr e ↦
            let generation =
              generate_for backend model printing timings is_cancelled asked index request.prompt in
            let output =
              format_continuous_tiny_llm_output backend printing generation.0 batch_size t in
            let m = build_continuous_tiny_llm_metadata printing.fixed_double run t in
            let longer = length-append outputs (output ∷ []) in
            let also = length-append metadata (m ∷ []) in
            let (r, f, k) =
              output_loop-Served run batch_size (suc index) (suc generation.1)
                (outputs ++ output ∷ []) (metadata ++ m ∷ []) rest ts total answered.1
                (omega (arith, longer, also, same)) (omega (arith, longer, all)) in
            (
              r,
              rw (output_loop, e, goes_on asked index request.prompt) f,
              elim k [
                | inl (okay, a, b, c) ↦ inl (okay, a, b, ground (arith, e, c))
                | inr (code, found) ↦ inr (code, inr found)
              ],
            )
      ]

-- With more fuel than the requests ask for and where `is_cancelled` never says yes,
-- `ContinuousTinyLLMBackend::ProcessBatch` returns: where the batcher rejects no sequence, an output and its
-- metadata for each request, and else the error with the message of a sequence that it rejects.
pub continuous_batch-Served :
    {F S : Type 0} (backend : ContinuousTinyLlmBackend F) (model : TinyModel F S)
    (printing : Printing F) (timings : ℕ → Timing) (is_cancelled : Polls)
    → ((n : ℕ) → is_cancelled n ≡ false)
    → (fuel : ℕ) (requests : List BackendRequest)
    → requested (map (sequence_request backend) requests) < fuel
    → (run : ContinuousBatchingRun) × (r : BackendResult) × (run_batch
          (scheduler_config backend)
          (λ i. is_cancelled (suc i))
          fuel
          (map (sequence_request backend) requests)
        ≡ some run)
      × (continuous_batch backend model printing timings is_cancelled fuel requests ≡ some r)
      × Served (length requests) run.results r
unfolding continuous_batch
continuous_batch-Served backend model printing timings is_cancelled never fuel requests enough =
    let (run, e, answered, spared) =
      run_batch-any_cancelled (scheduler_config backend) (λ i. is_cancelled (suc i))
        (map (sequence_request backend) requests) fuel enough (λ n. never (suc n)) in
    let (r, f, k) =
      output_loop-Served backend model printing timings is_cancelled never run (length requests) 0
        (suc run.stats.total_steps) [] [] requests run.results (length requests) answered refl
        (omega arith) in
    (run, r, e, rw (never 0, e, spared) f, k)
