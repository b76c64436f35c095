-- ===== src/Batcher/Termination.antt =====
-- One round of `ContinuousBatcher::Run` (Step) against the work that is left (Work).
use laminar_inference.Base.{
  ℕ, suc, ◌-◌, ◌<◌, ◌≡◌, ◌⊎◌, refl, min, false, Bool-cases, inl, inr, List, [], ◌∷◌, take, length,
  ◌==◌, arith,
}
use laminar_inference.Kv.State.{Impl}
use laminar_inference.Batcher.State.{Slot, Limits}
use laminar_inference.Batcher.Phases.{prefill_slot, decode_slot, finish_slot}
use laminar_inference.Batcher.Candidates.{
  awaits_prefill, awaits_decode, candidates, count_slots, is_unfinished,
}
use laminar_inference.Batcher.Chosen.{
  AllPass, Passes, NonePass, candidates-AllPass, candidates-NonePass,
}
use laminar_inference.Batcher.Step.{
  visit, visit_all, visit_each, prefill_loop, prefill_phase, decode_phase, begin_phase,
}
use laminar_inference.Batcher.Work.{
  prefill_slot_helps, decode_slot-Helps, decode_slot_helps, finish_slot-Helps, finish_slot_helps,
}
use laminar_inference.Batcher.Step.{Scheduler, scheduler_step}
use laminar_inference.Batcher.Loops.{
  total_work, AllFit, visit_all-Better, visit_helps, prefill_loop-Better, prefill_phase-Better,
  decode_phase-Better, finish_phase-Better,
}

-- The first sequence that waits for its prompt gets a part of the budget.
prefill_phase_helps :
    (l : Limits) (slots : List Slot) (a : Impl) (k : ℕ) (ks : List ℕ)
    → 0 < l.max_prefill_tokens_per_step
    → candidates awaits_prefill slots ≡ k ∷ ks
    → total_work (prefill_phase l slots a).slots < total_work slots
unfolding prefill_phase prefill_loop
prefill_phase_helps l slots a k ks pos e =
    let budget = l.max_prefill_tokens_per_step in
    let p = begin_phase slots a in
    let pass : AllPass (Passes awaits_prefill slots) (k ∷ ks) =
      rw e at (candidates-AllPass awaits_prefill slots) in
    let (s, at_k, waits) = pass.0 in
    let some_budget : 0 < budget - 0 = omega arith in
    let open_ : (budget - 0 == 0) ≡ false = ground arith in
    let first =
      visit_helps (prefill_slot (budget - 0)) k p s at_k
        (prefill_slot_helps (budget - 0) s a some_budget waits) in
    let rest = prefill_loop-Better budget ks (visit (prefill_slot (budget - 0)) k p) in
    rw (e, open_) (omega (arith, first, rest.no_more))

-- The first sequence that is ready gets a token, or ends.
decode_phase_helps :
    (l : Limits) (i : ℕ) (slots : List Slot) (a : Impl) (k : ℕ) (ks : List ℕ)
    → 0 < l.max_decode_sequences_per_step
    → candidates awaits_decode slots ≡ k ∷ ks
    → total_work (decode_phase l i slots a).slots < total_work slots
unfolding decode_phase visit_all
decode_phase_helps l i slots a k ks pos e =
    let p = begin_phase slots a in
    let pass : AllPass (Passes awaits_decode slots) (k ∷ ks) =
      rw e at (candidates-AllPass awaits_decode slots) in
    let (s, at_k, waits) = pass.0 in
    let n = min l.max_decode_sequences_per_step (suc (length ks)) in
    let some_n : n ≡ suc (n - 1) = omega arith in
    let first = visit_helps (decode_slot i) k p s at_k (decode_slot_helps i s a waits) in
    let rest =
      visit_all-Better (decode_slot i) (decode_slot-Helps i) (take (n - 1) ks)
        (visit (decode_slot i) k p) in
    rw (e, some_n) (omega (arith, first, rest.no_more))

-- Where no sequence waits for another phase, the unfinished ones end.
finish_phase_helps :
    (i : ℕ) (slots : List Slot) (a : Impl)
    → AllFit slots
    → NonePass awaits_prefill slots
    → NonePass awaits_decode slots
    → 0 < count_slots is_unfinished slots
    → total_work (visit_each (finish_slot i) slots a).0 < total_work slots
unfolding visit_each
finish_phase_helps i [] a f p d h = absurd (omega arith)
finish_phase_helps i (s ∷ ss) a f p d h =
    let next = (finish_slot i s a).allocator in
    elim (Bool-cases s.state.done) [
      | inl e ↦ omega (
        arith,
        (finish_slot-Helps i s a).no_more,
        finish_phase_helps i ss next f.1 p.1 d.1 (ground arith),
      )
      | inr e ↦
          omega
            (arith, finish_slot_helps i s a e p.0 d.0 f.0, (finish_phase-Better i ss next).no_more)
    ]

prefill_phase_idle :
    (l : Limits) (slots : List Slot) (a : Impl)
    → candidates awaits_prefill slots ≡ []
    → (prefill_phase l slots a).slots ≡ slots
unfolding prefill_phase prefill_loop
prefill_phase_idle l slots a e = rw e

decode_phase_idle :
    (l : Limits) (i : ℕ) (slots : List Slot) (a : Impl)
    → candidates awaits_decode slots ≡ []
    → (decode_phase l i slots a).slots ≡ slots
unfolding decode_phase visit_all
decode_phase_idle l i slots a e =
    let none_left : min l.max_decode_sequences_per_step 0 ≡ 0 = omega arith in
    rw (e, none_left) refl

abbrev ListCases : List ℕ → Type 0
ListCases ks = (ks ≡ []) ⊎ ((j : ℕ) × (js : List ℕ) × (ks ≡ j ∷ js))

list_cases : (ks : List ℕ) → ListCases ks
list_cases [] = inl refl
list_cases (j ∷ js) = inr (j, js, refl)

-- Decoding or the loop behind it finds a sequence, where none waits for its prompt.
ready_helps :
    (l : Limits) (i : ℕ) (slots : List Slot) (a : Impl)
    → 0 < l.max_decode_sequences_per_step
    → AllFit slots
    → NonePass awaits_prefill slots
    → 0 < count_slots is_unfinished slots
    → let b = decode_phase l i slots a in
      total_work (visit_each (finish_slot i) b.slots b.allocator).0 < total_work slots
ready_helps l i slots a decodes fit p open_ =
    let b = decode_phase l i slots a in
    let after = finish_phase-Better i b.slots b.allocator in
    elim (list_cases (candidates awaits_decode slots)) [
      | inr (k, ks, e) ↦ omega (arith, decode_phase_helps l i slots a k ks decodes e, after.no_more)
      | inl e ↦ rw (decode_phase_idle l i slots a e) (
          finish_phase_helps i slots b.allocator fit p (candidates-NonePass awaits_decode slots e)
            open_)
    ]

pub scheduler_step_helps :
    (l : Limits) (i : ℕ) (s : Scheduler)
    → 0 < l.max_prefill_tokens_per_step
    → 0 < l.max_decode_sequences_per_step
    → AllFit s.slots
    → 0 < count_slots is_unfinished s.slots
    → total_work (scheduler_step l i s).slots < total_work s.slots
unfolding scheduler_step
scheduler_step_helps l i s prefills decodes fit open_ =
    let a = prefill_phase l s.slots s.allocator in
    let b = decode_phase l i a.slots a.allocator in
    let served = decode_phase-Better l i a.slots a.allocator in
    let ended = finish_phase-Better i b.slots b.allocator in
    elim (list_cases (candidates awaits_prefill s.slots)) [
      | inr (k, ks, e) ↦ omega (
        arith,
        prefill_phase_helps l s.slots s.allocator k ks prefills e,
        served.no_more,
        ended.no_more,
      )
      | inl e ↦ rw (prefill_phase_idle l s.slots s.allocator e) (
          ready_helps l i s.slots a.allocator decodes fit
            (candidates-NonePass awaits_prefill s.slots e) open_)
    ]

pub scheduler_step-AllFit :
    (l : Limits) (i : ℕ) (s : Scheduler) → AllFit s.slots → AllFit (scheduler_step l i s).slots
unfolding scheduler_step
scheduler_step-AllFit l i s fit =
    let a = prefill_phase l s.slots s.allocator in
    let b = decode_phase l i a.slots a.allocator in
    (finish_phase-Better i b.slots b.allocator).fit (
      (decode_phase-Better l i a.slots a.allocator).fit
        ((prefill_phase-Better l s.slots s.allocator).fit fit))
