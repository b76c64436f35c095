-- ===== src/Batcher/Endings.antt =====
-- The main loop of `ContinuousBatcher::Run` (Batcher) from its start to its end: the fuel that it needs,
-- and how properties that rounds keep carry over to its end.
use laminar_inference.Base.{
  ℕ, zero, suc, ◌+◌, ◌≤◌, ◌<◌, ◌≡◌, refl, Bool, if-elim, List, [], ◌∷◌, Option, some, ◌==◌, arith,
}
use laminar_inference.Base.Int.{ℤ, pos_part}
use laminar_inference.Kv.State.{Impl, clamp_positive}
use laminar_inference.Batcher.State.{
  Slot, Limits, SequenceRequest, make_slot, make_batcher, ContinuousBatcherConfig,
}
use laminar_inference.Batcher.Phases.{cancel_slot}
use laminar_inference.Batcher.Candidates.{count_slots, is_unfinished}
use laminar_inference.Batcher.Step.{visit_each, Scheduler, scheduler_step, cancel_all}
use laminar_inference.Batcher.{make_slots, run_loop, start}
use laminar_inference.Batcher.Work.{Fits}
use laminar_inference.Batcher.Loops.{total_work, AllFit}
use laminar_inference.Batcher.Termination.{scheduler_step_helps, scheduler_step-AllFit}

-- More than the rounds that the requests can need: each round that serves anyone takes one of these.
abbrev pub requested : List SequenceRequest → ℕ
requested [] = 0
requested (r ∷ rs) = 2 + pos_part r.prompt_tokens + pos_part r.max_generated_tokens + requested rs

pub total_work-make_slots :
    (i : ℕ) (rs : List SequenceRequest) → total_work (make_slots i rs) ≤ requested rs
unfolding make_slots make_slot
total_work-make_slots i [] = omega arith
total_work-make_slots i (r ∷ rs) = omega (arith, total_work-make_slots (i + 1) rs)

make_slot-Fits : (i : ℕ) (r : SequenceRequest) → Fits (make_slot i r)
unfolding make_slot
make_slot-Fits i r = ground arith

pub make_slots-AllFit : (i : ℕ) (rs : List SequenceRequest) → AllFit (make_slots i rs)
unfolding make_slots
make_slots-AllFit i [] = tt
make_slots-AllFit i (r ∷ rs) = (make_slot-Fits i r, make_slots-AllFit (i + 1) rs)

clamp_positive-pos : (z : ℤ) (fallback : ℕ) → 0 < fallback → 0 < clamp_positive z fallback
unfolding clamp_positive
clamp_positive-pos z fallback h = ground arith

pub make_batcher_pos :
    (config : ContinuousBatcherConfig)
    → let l = make_batcher config in
      (0 < l.max_prefill_tokens_per_step)
      × (0 < l.max_decode_sequences_per_step)
      × (0 < l.kv_cache_blocks)
      × (0 < l.kv_block_tokens)
unfolding make_batcher
make_batcher_pos config = (
  clamp_positive-pos config.max_prefill_tokens_per_step 64 (omega arith),
  clamp_positive-pos config.max_decode_sequences_per_step 8 (omega arith),
  clamp_positive-pos config.kv_cache_blocks 1024 (omega arith),
  clamp_positive-pos config.kv_block_tokens 16 (omega arith),
)

cancel_each_done :
    (slots : List Slot) (a : Impl)
    → count_slots is_unfinished (visit_each cancel_slot slots a).0 ≡ 0
unfolding visit_each cancel_slot
cancel_each_done [] a = refl
cancel_each_done (s ∷ ss) a = ground (arith, cancel_each_done ss (cancel_slot s a).allocator)

-- A result of the loop with every sequence done and `P` kept.
abbrev pub Ends : (Scheduler → Type 0) → Option Scheduler → Type 0
Ends P o = (t : Scheduler) × (o ≡ some t) × (count_slots is_unfinished t.slots ≡ 0) × P t

pub run_loop-Ends :
    (l : Limits) (is_cancelled : ℕ → Bool) (P : Scheduler → Type 0)
    → 0 < l.max_prefill_tokens_per_step
    → 0 < l.max_decode_sequences_per_step
    → ((i : ℕ) (s : Scheduler) → P s → P (scheduler_step l i s))
    → ((s : Scheduler) → P s → P (cancel_all s))
    → (fuel i : ℕ) (s : Scheduler) → AllFit s.slots
    → total_work s.slots < fuel
    → P s
    → Ends P (run_loop l is_cancelled fuel i s)
unfolding run_loop cancel_all
run_loop-Ends l is_cancelled P prefills decodes step cancel zero i s fit enough p =
    absurd (omega arith)
run_loop-Ends l is_cancelled P prefills decodes step cancel (suc fuel) i s fit enough p =
    if-elim (Ends P) (count_slots is_unfinished s.slots == 0) (λ e. (s, refl, ground arith, p))
      (λ e.
        if-elim (Ends P) (is_cancelled i)
          (λ f. (cancel_all s, refl, cancel_each_done s.slots s.allocator, cancel s p))
          (λ f.
            let less = scheduler_step_helps l i s prefills decodes fit (ground arith) in
            run_loop-Ends l is_cancelled P prefills decodes step cancel fuel (suc i)
              (scheduler_step l i s) (scheduler_step-AllFit l i s fit) (omega arith) (step i s p)))

-- `Run` on a configuration and requests, with fuel for all that was requested.
pub run-Ends :
    (config : ContinuousBatcherConfig) (is_cancelled : ℕ → Bool) (requests : List SequenceRequest)
    (fuel : ℕ) (P : Scheduler → Type 0)
    → requested requests < fuel
    → ((i : ℕ) (s : Scheduler) → P s → P (scheduler_step (make_batcher config) i s))
    → ((s : Scheduler) → P s → P (cancel_all s))
    → P (start (make_batcher config) requests)
    → Ends P
        (run_loop (make_batcher config) is_cancelled fuel 0 (start (make_batcher config) requests))
unfolding start
run-Ends config is_cancelled requests fuel P enough step cancel p =
    let positive = make_batcher_pos config in
    run_loop-Ends (make_batcher config) is_cancelled P positive.0 positive.1 step cancel fuel 0
      (start (make_batcher config) requests) (make_slots-AllFit 0 requests)
      (omega (arith, total_work-make_slots 0 requests)) p
