-- ===== src/Batcher.antt =====
-- `ContinuousBatcher::Run` (backend/scheduling/continuous_batcher.cc): each step gives a budget of
-- prompt tokens to the sequences that wait, in the order of priority, and one token to each of a bounded
-- number of those that are ready.
pub mod State
pub mod Phases
pub mod Candidates
pub mod Step
pub mod Chosen
pub mod Work
pub mod Loops
pub mod Termination
pub mod Distinct
pub mod Every
pub mod Outcomes
pub mod Endings
pub mod Reached
pub mod Budgets
pub mod Owners
pub mod Owned
pub mod Released
pub mod Runs
pub mod Uncancelled
mod Tests
use laminar_inference.Base.{
  ℕ, zero, suc, ◌+◌, ◌-◌, min, Bool, true, false, not, ◌&&◌, List, [], ◌∷◌, ◌++◌, map, Option, none,
  some, length, get_elem?, update_at, take, ltb, ◌==◌, if◌then◌else◌,
}
use laminar_inference.Base.Int.{ℤ, pos, pos_part, ltb_ℤ, eq_ℤ}
use laminar_inference.Base.Text.{Str}
use mathlib.Core.Option
use laminar_inference.Kv.State.{Impl, make_allocator, snapshot}
use State.{
  ContinuousBatcherConfig, make_batcher, Limits, SequenceRequest, Slot, SequenceState,
  SequenceResult, SchedulerStep, ContinuousBatchingStats, ContinuousBatchingRun, max_generated,
  make_slot,
}
use Candidates.{count_slots, is_unfinished}
use Step.{Scheduler, scheduler_step, cancel_all}

unfoldable pub make_slots : ℕ → List SequenceRequest → List Slot
make_slots index [] = []
make_slots index (r ∷ rs) = make_slot index r ∷ make_slots (index + 1) rs

-- The main loop on fuel; `is_cancelled` is asked once before each step.
unfoldable pub run_loop : Limits → (ℕ → Bool) → ℕ → ℕ → Scheduler → Option Scheduler
run_loop limits is_cancelled zero step_index s = none
run_loop limits is_cancelled (suc fuel) step_index s =
    let rest =
      run_loop limits is_cancelled fuel (suc step_index) (scheduler_step limits step_index s) in
    if count_slots is_unfinished s.slots == 0
    then some s
    else if is_cancelled step_index
    then some (cancel_all s)
    else rest

unfoldable pub start : Limits → List SequenceRequest → Scheduler
start limits requests = record {
  slots = make_slots 0 requests;
  allocator = make_allocator (record {
    total_blocks = pos limits.kv_cache_blocks;
    tokens_per_block = pos limits.kv_block_tokens;
  });
  steps = [];
  prefill_steps = 0;
  decode_steps = 0;
  total_generated_tokens = 0;
}

abbrev prompt_tokens_of : List Slot → ℕ
prompt_tokens_of [] = 0
prompt_tokens_of (s ∷ ss) = s.result.prompt_tokens + prompt_tokens_of ss

-- The end of `Run`.
unfoldable pub report : List SequenceRequest → Scheduler → ContinuousBatchingRun
report requests s = record {
  results = map (λ t. t.result) s.slots;
  steps = s.steps;
  stats = record {
    total_steps = length s.steps;
    prefill_steps = s.prefill_steps;
    decode_steps = s.decode_steps;
    total_prompt_tokens = prompt_tokens_of (make_slots 0 requests);
    total_generated_tokens = s.total_generated_tokens;
    average_decode_batch_size =
        if ltb 0 s.decode_steps then (s.total_generated_tokens, s.decode_steps) else (0, 1);
    kv_cache = snapshot s.allocator;
  };
}

-- `ContinuousBatcher(config).Run(requests, is_cancelled)`, with fuel for the main loop.
unfoldable pub run_batch :
    ContinuousBatcherConfig → (ℕ → Bool) → ℕ → List SequenceRequest → Option ContinuousBatchingRun
run_batch config is_cancelled fuel requests =
    let limits = make_batcher config in
    Option.map (report requests) (run_loop limits is_cancelled fuel 0 (start limits requests))
