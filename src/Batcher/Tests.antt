-- ===== src/Batcher/Tests.antt =====
-- The batcher (Batcher) on the run of backend/scheduling/continuous_batcher_test.cc, and its theorems at
-- concrete inputs.
use laminar_inference.Base.{ℕ, ◌+◌, ◌≡◌, refl, Bool, false, List, [], ◌∷◌, map, some, length, arith}
use laminar_inference.Base.Int.{pos, negsuc}
use laminar_inference.Base.Text.{Str, codes}
use laminar_inference.Kv.Tests.{program}
use laminar_inference.Batcher.State.{
  ContinuousBatcherConfig, SequenceRequest, ContinuousBatchingRun, completed, make_batcher,
  make_slot,
}
use laminar_inference.Batcher.Phases.{
  consume, reject_prompt, prefill_slot, reject_decode, complete_decode, decode_slot, finish_slot,
  cancel_slot,
}
use laminar_inference.Batcher.Candidates.{
  by_priority, candidates_from, insert_candidate, sort_candidates, candidates,
}
use laminar_inference.Batcher.Step.{
  visit, prefill_loop, visit_all, visit_each, prefill_phase, decode_phase, scheduler_step,
  cancel_all,
}
use laminar_inference.Batcher.{make_slots, run_loop, start, report, run_batch}
use laminar_inference.Batcher.Budgets.{Within, AllSteps, sum_of, prefills, decodes}
use laminar_inference.Base.{◌==◌}
use laminar_inference.Batcher.State.{any_cancelled}
use laminar_inference.Batcher.Uncancelled.{run_batch-any_cancelled}
use laminar_inference.Batcher.Released.{run_batch_releases}
use laminar_inference.Batcher.Runs.{AllAnswered, run_batch-Answers, run_batch-Within}

batcher_program : Unit {0}
unfolding program make_batcher make_slot consume reject_prompt prefill_slot reject_decode
    complete_decode decode_slot finish_slot cancel_slot by_priority candidates_from insert_candidate
    sort_candidates candidates visit prefill_loop visit_all visit_each prefill_phase decode_phase
    scheduler_step cancel_all make_slots run_loop start report run_batch
batcher_program = tt

abbrev config : ContinuousBatcherConfig
config = record {
  max_prefill_tokens_per_step = pos 4;
  max_decode_sequences_per_step = pos 2;
  kv_cache_blocks = pos 32;
  kv_block_tokens = pos 4;
}

abbrev request : Str → ℕ → ℕ → SequenceRequest
request id prompt_tokens max_generated_tokens = record {
  id = id;
  prompt_tokens = pos prompt_tokens;
  max_generated_tokens = pos max_generated_tokens;
  priority = pos 0;
  prefix_cache_key = [];
  prefix_cache_tokens = negsuc 0;
}

abbrev requests : List SequenceRequest
requests = request (codes "a") 4 3 ∷ request (codes "b") 4 2 ∷ []

abbrev never : ℕ → Bool
never i = false

interleaves :
    (r : ContinuousBatchingRun) × (run_batch config never 18 requests ≡ some r)
    × (map (λ t. t.status) r.results ≡ completed ∷ completed ∷ [])
    × (map (λ t. t.generated_tokens) r.results ≡ 3 ∷ 2 ∷ [])
    × (map (λ t. t.first_token_step) r.results ≡ pos 0 ∷ pos 1 ∷ [])
    × (map (λ st. st.prefill_tokens) r.steps ≡ 4 ∷ 4 ∷ 0 ∷ [])
    × (map (λ st. st.decoded_tokens) r.steps ≡ 1 ∷ 2 ∷ 2 ∷ [])
    × (r.stats.total_generated_tokens ≡ 5)
unfolding batcher_program
interleaves = (_, refl, refl, refl, refl, refl, refl, refl)

run_batch-Answers_example :
    (r : ContinuousBatchingRun) × (run_batch config never 18 requests ≡ some r)
    × AllAnswered requests r.results
run_batch-Answers_example = run_batch-Answers config never requests 18 (omega arith)

run_batch-Within_example :
    let l = make_batcher config in
    (r : ContinuousBatchingRun) × (run_batch config never 18 requests ≡ some r)
    × AllSteps (Within l) r.steps
    × (r.stats.total_steps ≡ length r.steps)
    × (r.stats.prefill_steps ≡ sum_of prefills r.steps)
    × (r.stats.decode_steps ≡ sum_of decodes r.steps)
    × (r.stats.total_generated_tokens ≡ sum_of (λ st. st.decoded_tokens) r.steps)
    × (r.stats.kv_cache.total_blocks ≡ l.kv_cache_blocks)
    × (r.stats.kv_cache.used_blocks + r.stats.kv_cache.free_blocks ≡ l.kv_cache_blocks)
run_batch-Within_example = run_batch-Within config never requests 18 (omega arith)

-- Two requests share an id, and the run is cancelled at its second step.
abbrev twins : List SequenceRequest
twins = request (codes "a") 4 3 ∷ request (codes "a") 4 2 ∷ []

abbrev second : ℕ → Bool
second i = i == 1

run_batch_releases_example :
    (r : ContinuousBatchingRun) × (run_batch config second 18 twins ≡ some r)
    × (r.stats.kv_cache.active_sequences ≡ 0)
run_batch_releases_example = run_batch_releases config second twins 18 (omega arith)

run_batch-any_cancelled_example :
    (r : ContinuousBatchingRun) × (run_batch config never 18 twins ≡ some r)
    × AllAnswered twins r.results
    × (any_cancelled r.results ≡ false)
run_batch-any_cancelled_example =
    run_batch-any_cancelled config never twins 18 (omega arith) (λ n. refl)
