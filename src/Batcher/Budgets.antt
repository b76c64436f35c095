-- ===== src/Batcher/Budgets.antt =====
-- What a step of `ContinuousBatcher::Run` (Step) may spend, and what its record and the counters say.
use laminar_inference.Base.{
  ℕ, zero, suc, ◌+◌, ◌-◌, ◌≤◌, ◌<◌, ◌≡◌, refl, min, if-elim, Option-cases, inl, inr, List, [], ◌∷◌,
  ◌++◌, get_elem?, take, length, length-append, ltb, ◌==◌, if◌then◌else◌, arith,
}
use laminar_inference.Base.Int.{pos}
use laminar_inference.Kv.State.{Impl, make_allocator, snapshot, clamp_positive}
use laminar_inference.Kv.Histories.{snapshot-run_bounds}
use laminar_inference.Batcher.State.{Slot, Limits, SchedulerStep}
use laminar_inference.Batcher.Phases.{
  Outcome, consume, reject_prompt, prefill_slot, reject_decode, complete_decode, decode_slot,
}
use laminar_inference.Batcher.Candidates.{awaits_prefill, awaits_decode, candidates}
use laminar_inference.Batcher.Step.{
  Progress, visit, visit_all, prefill_loop, prefill_phase, decode_phase, begin_phase, Scheduler,
  scheduler_step, cancel_all,
}
use laminar_inference.Batcher.Reached.{
  Reached, Reached-trans, scheduler_step-Reached, cancel_all-Reached,
}

prefill_slot_le : (budget : ℕ) (s : Slot) (a : Impl) → (prefill_slot budget s a).tokens ≤ budget
unfolding prefill_slot consume reject_prompt
prefill_slot_le budget s a = ground arith

visit_le :
    (phase : Slot → Impl → Outcome) (n : ℕ) (k : ℕ) (p : Progress)
    → ((s : Slot) (a : Impl) → (phase s a).tokens ≤ n)
    → (visit phase k p).tokens ≤ p.tokens + n
unfolding visit
visit_le phase n k p h = elim (Option-cases (get_elem? p.slots k)) [
  | inl e ↦ rw (e, visit) (omega arith)
  | inr (s, e) ↦ rw (e, visit) (omega (arith, h s p.allocator))
]

prefill_loop_le :
    (budget : ℕ) (ks : List ℕ) (p : Progress)
    → p.tokens ≤ budget
    → (prefill_loop budget ks p).tokens ≤ budget
unfolding prefill_loop
prefill_loop_le budget [] p h = h
prefill_loop_le budget (k ∷ ks) p h =
    let left = budget - p.tokens in
    if-elim (λ (q : Progress). q.tokens ≤ budget) (left == 0) (λ e. h)
      (λ e.
        prefill_loop_le budget ks (visit (prefill_slot left) k p)
          (omega (arith, visit_le (prefill_slot left) left k p (prefill_slot_le left))))

decode_slot_le : (i : ℕ) (s : Slot) (a : Impl) → (decode_slot i s a).tokens ≤ 1
unfolding decode_slot complete_decode reject_decode
decode_slot_le i s a = ground arith

-- The ids name one sequence for each token.
visit-ids :
    (i k : ℕ) (p : Progress)
    → length p.ids ≡ p.tokens
    → length (visit (decode_slot i) k p).ids ≡ (visit (decode_slot i) k p).tokens
unfolding visit
visit-ids i k p h = elim (Option-cases (get_elem? p.slots k)) [
  | inl e ↦ rw (e, visit) h
  | inr (s, e) ↦
      let le = decode_slot_le i s p.allocator in
      let more = length-append p.ids (s.state.request.id ∷ []) in
      rw (e, visit) (ground (arith, le, more))
]

visit_all_le :
    (i : ℕ) (ks : List ℕ) (p : Progress)
    → length p.ids ≡ p.tokens
    → let q = visit_all (decode_slot i) ks p in
      (q.tokens ≤ p.tokens + length ks) × (length q.ids ≡ q.tokens)
unfolding visit_all
visit_all_le i [] p h = (omega arith, h)
visit_all_le i (k ∷ ks) p h =
    let first = visit_le (decode_slot i) 1 k p (decode_slot_le i) in
    let rest = visit_all_le i ks (visit (decode_slot i) k p) (visit-ids i k p h) in
    (omega (arith, first, rest.0), rest.1)

length-take_le {ℓ} : {A : Type ℓ} (n : ℕ) (xs : List A) → length (take n xs) ≤ n
length-take_le zero xs = omega arith
length-take_le (suc n) [] = omega arith
length-take_le (suc n) (x ∷ xs) = omega (arith, length-take_le n xs)

pub prefill_phase_le :
    (l : Limits) (slots : List Slot) (a : Impl)
    → (prefill_phase l slots a).tokens ≤ l.max_prefill_tokens_per_step
unfolding prefill_phase
prefill_phase_le l slots a =
    prefill_loop_le l.max_prefill_tokens_per_step (candidates awaits_prefill slots)
      (begin_phase slots a) (omega arith)

pub decode_phase_le :
    (l : Limits) (i : ℕ) (slots : List Slot) (a : Impl)
    → let b = decode_phase l i slots a in
      (b.tokens ≤ l.max_decode_sequences_per_step) × (length b.ids ≡ b.tokens)
unfolding decode_phase
decode_phase_le l i slots a =
    let ready = candidates awaits_decode slots in
    let n = min l.max_decode_sequences_per_step (length ready) in
    let spent = visit_all_le i (take n ready) (begin_phase slots a) refl in
    (omega (arith, spent.0, length-take_le n ready), spent.1)

-- A step's record keeps to the limits.
pub record Within (l : Limits) (st : SchedulerStep) : Type 0 where
  pub prefilled : st.prefill_tokens ≤ l.max_prefill_tokens_per_step
  pub decoded : st.decoded_tokens ≤ l.max_decode_sequences_per_step
  pub named : length st.decoded_sequence_ids ≡ st.decoded_tokens
  pub blocks : st.kv_blocks_used ≤ l.kv_cache_blocks

abbrev pub AllSteps : (SchedulerStep → Type 0) → List SchedulerStep → Type 0
AllSteps P [] = Unit
AllSteps P (st ∷ sts) = P st × AllSteps P sts

abbrev pub sum_of : (SchedulerStep → ℕ) → List SchedulerStep → ℕ
sum_of f [] = 0
sum_of f (st ∷ sts) = f st + sum_of f sts

AllSteps-append :
    (P : SchedulerStep → Type 0) (sts : List SchedulerStep) (st : SchedulerStep)
    → AllSteps P sts
    → P st
    → AllSteps P (sts ++ st ∷ [])
AllSteps-append P [] st a h = (h, tt)
AllSteps-append P (x ∷ xs) st a h = (a.0, AllSteps-append P xs st a.1 h)

sum_of-append :
    (f : SchedulerStep → ℕ) (sts : List SchedulerStep) (st : SchedulerStep)
    → sum_of f (sts ++ st ∷ []) ≡ sum_of f sts + f st
sum_of-append f [] st = omega arith
sum_of-append f (x ∷ xs) st = omega (arith, sum_of-append f xs st)

abbrev pub prefills : SchedulerStep → ℕ
prefills st = if ltb 0 st.prefill_tokens then 1 else 0

abbrev pub decodes : SchedulerStep → ℕ
decodes st = if ltb 0 st.decoded_tokens then 1 else 0

-- The allocator that `Run` makes.
abbrev pub allocator_of : Limits → Impl
allocator_of l =
    make_allocator
      (record { total_blocks = pos l.kv_cache_blocks; tokens_per_block = pos l.kv_block_tokens })

-- The records and the counters agree, and every step kept to the limits.
pub record Recorded (l : Limits) (s : Scheduler) : Type 0 where
  pub reached : Reached (allocator_of l) s.allocator
  pub within : AllSteps (Within l) s.steps
  pub generated : s.total_generated_tokens ≡ sum_of (λ st. st.decoded_tokens) s.steps
  pub prefill_count : s.prefill_steps ≡ sum_of prefills s.steps
  pub decode_count : s.decode_steps ≡ sum_of decodes s.steps

pub used_blocks_le :
    (l : Limits) (a : Impl)
    → 0 < l.kv_cache_blocks
    → Reached (allocator_of l) a
    → (snapshot a).used_blocks ≤ l.kv_cache_blocks
unfolding clamp_positive
used_blocks_le l a positive (cs, e) =
    let bounds =
      snapshot-run_bounds
        (record { total_blocks = pos l.kv_cache_blocks; tokens_per_block = pos l.kv_block_tokens })
        cs in
    rw e (ground (arith, bounds))

pub scheduler_step-Recorded :
    (l : Limits) (i : ℕ) (s : Scheduler)
    → 0 < l.kv_cache_blocks
    → Recorded l s
    → Recorded l (scheduler_step l i s)
unfolding scheduler_step
scheduler_step-Recorded l i s positive r =
    let a = prefill_phase l s.slots s.allocator in
    let reached = Reached-trans _ _ _ r.reached (scheduler_step-Reached l i s) in
    let decoded = decode_phase_le l i a.slots a.allocator in
    record {
      reached = reached;
      within = AllSteps-append (Within l) s.steps _ r.within (record {
        prefilled = prefill_phase_le l s.slots s.allocator;
        decoded = decoded.0;
        named = decoded.1;
        blocks = used_blocks_le l (scheduler_step l i s).allocator positive reached;
      });
      generated = omega (arith, r.generated, sum_of-append (λ st. st.decoded_tokens) s.steps _);
      prefill_count = omega (arith, r.prefill_count, sum_of-append prefills s.steps _);
      decode_count = omega (arith, r.decode_count, sum_of-append decodes s.steps _);
    }

pub cancel_all-Recorded : (l : Limits) (s : Scheduler) → Recorded l s → Recorded l (cancel_all s)
unfolding cancel_all
cancel_all-Recorded l s r = record {
  reached = Reached-trans _ _ _ r.reached (cancel_all-Reached s);
  within = r.within;
  generated = r.generated;
  prefill_count = r.prefill_count;
  decode_count = r.decode_count;
}
