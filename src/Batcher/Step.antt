-- ===== src/Batcher/Step.antt =====
-- One round of the main loop of `ContinuousBatcher::Run`
-- (backend/scheduling/continuous_batcher.cc): the phases in their order, and the record of the step.
use laminar_inference.Base.{
  ℕ, ◌+◌, ◌-◌, min, not, ◌&&◌, List, [], ◌∷◌, ◌++◌, none, some, length, get_elem?, update_at, take,
  ltb, ◌==◌, if◌then◌else◌,
}
use laminar_inference.Base.Text.{Str}
use laminar_inference.Kv.State.{Impl, snapshot}
use laminar_inference.Batcher.State.{Limits, Slot, SchedulerStep}
use laminar_inference.Batcher.Phases.{Outcome, prefill_slot, decode_slot, finish_slot, cancel_slot}
use laminar_inference.Batcher.Candidates.{
  count_slots, is_unfinished, candidates, awaits_prefill, awaits_decode,
}

-- What `Run` carries from step to step.
pub record Scheduler : Type 0 where
  pub slots : List Slot
  pub allocator : Impl
  pub steps : List SchedulerStep
  pub prefill_steps : ℕ
  pub decode_steps : ℕ
  pub total_generated_tokens : ℕ

-- The slots and the allocator within a step, with the tokens so far and the ids that decoded one.
pub record Progress : Type 0 where
  pub slots : List Slot
  pub allocator : Impl
  pub tokens : ℕ
  pub ids : List Str

-- A phase at the slot behind one pointer.
unfoldable pub visit : (Slot → Impl → Outcome) → ℕ → Progress → Progress
visit phase k p = elim (get_elem? p.slots k) [
  | none ↦ p
  | some slot ↦
      let o = phase slot p.allocator in
      record {
        slots = update_at (λ _. o.slot) p.slots k;
        allocator = o.allocator;
        tokens = p.tokens + o.tokens;
        ids = if 0 == o.tokens then p.ids else p.ids ++ slot.state.request.id ∷ [];
      }
]

-- The prefill loop, whose budget is what the tokens so far have left of it.
unfoldable pub prefill_loop : ℕ → List ℕ → Progress → Progress
prefill_loop budget [] p = p
prefill_loop budget (k ∷ ks) p =
    let next = visit (prefill_slot (budget - p.tokens)) k p in
    let rest = prefill_loop budget ks next in if budget - p.tokens == 0 then p else rest

-- The decode loop visits each pointer that it is given.
unfoldable pub visit_all : (Slot → Impl → Outcome) → List ℕ → Progress → Progress
visit_all phase [] p = p
visit_all phase (k ∷ ks) p = visit_all phase ks (visit phase k p)

-- A loop over all the states, in the order of the requests.
unfoldable pub visit_each : (Slot → Impl → Outcome) → List Slot → Impl → List Slot × Impl
visit_each phase [] allocator = ([], allocator)
visit_each phase (s ∷ ss) allocator =
    let o = phase s allocator in
    let rest = visit_each phase ss o.allocator in (o.slot ∷ rest.0, rest.1)

abbrev pub begin_phase : List Slot → Impl → Progress
begin_phase slots allocator = record { slots = slots; allocator = allocator; tokens = 0; ids = [] }

unfoldable pub prefill_phase : Limits → List Slot → Impl → Progress
prefill_phase limits slots allocator =
    prefill_loop limits.max_prefill_tokens_per_step (candidates awaits_prefill slots)
      (begin_phase slots allocator)

unfoldable pub decode_phase : Limits → ℕ → List Slot → Impl → Progress
decode_phase limits step_index slots allocator =
    let ready = candidates awaits_decode slots in
    let decode_limit = min limits.max_decode_sequences_per_step (length ready) in
    visit_all (decode_slot step_index) (take decode_limit ready) (begin_phase slots allocator)

-- The body of the main loop, behind the test of `is_cancelled`.
unfoldable pub scheduler_step : Limits → ℕ → Scheduler → Scheduler
scheduler_step limits step_index s =
    let a = prefill_phase limits s.slots s.allocator in
    let b = decode_phase limits step_index a.slots a.allocator in
    let c = visit_each (finish_slot step_index) b.slots b.allocator in
    let step : SchedulerStep = record {
      step_index = step_index;
      prefill_tokens = a.tokens;
      decoded_tokens = b.tokens;
      queued_sequences = count_slots is_unfinished s.slots;
      active_sequences = count_slots (λ t. not t.state.done && t.state.prompt_ready) c.0;
      kv_blocks_used = (snapshot c.1).used_blocks;
      decoded_sequence_ids = b.ids;
    } in
    record {
      slots = c.0;
      allocator = c.1;
      steps = s.steps ++ step ∷ [];
      prefill_steps = s.prefill_steps + (if ltb 0 a.tokens then 1 else 0);
      decode_steps = s.decode_steps + (if ltb 0 b.tokens then 1 else 0);
      total_generated_tokens = s.total_generated_tokens + b.tokens;
    }

unfoldable pub cancel_all : Scheduler → Scheduler
cancel_all s =
    let c = visit_each cancel_slot s.slots s.allocator in record s { slots = c.0; allocator = c.1 }
