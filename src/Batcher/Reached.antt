-- ===== src/Batcher/Reached.antt =====
-- Which states of its `KvBlockAllocator` the phases and loops of `ContinuousBatcher::Run` (Step) lead to, as
-- histories of calls (Kv/Calls).
use laminar_inference.Base.{
  ℕ, ◌-◌, ◌≡◌, refl, sym, ap, ◌∙◌, not, ◌&&◌, if-elim, Option-cases, inl, inr, List, [], ◌∷◌, ◌++◌,
  get_elem?, take, length, min, ◌==◌,
}
use laminar_inference.Base.Int.{pos}
use laminar_inference.Kv.State.{Impl}
use laminar_inference.Kv.{allocate_prompt, append_tokens, release_sequence}
use laminar_inference.Kv.Calls.{Call, allocates, appends, releases, step, run}
use laminar_inference.Batcher.State.{Slot, Limits, max_generated}
use laminar_inference.Batcher.Phases.{
  Outcome, consume, reject_prompt, prefill_slot, reject_decode, complete_decode, decode_slot,
  decoded_slot, finish_slot, cancel_slot,
}
use laminar_inference.Batcher.Candidates.{awaits_prefill, awaits_decode, candidates}
use laminar_inference.Batcher.Step.{
  Progress, visit, visit_all, visit_each, prefill_loop, prefill_phase, decode_phase, begin_phase,
  Scheduler, scheduler_step, cancel_all,
}

abbrev pub Reached : Impl → Impl → Type 0
Reached a b = (cs : List Call) × (b ≡ run cs a)

run-append : (cs ds : List Call) (a : Impl) → run (cs ++ ds) a ≡ run ds (run cs a)
unfolding run
run-append [] ds a = refl
run-append (c ∷ cs) ds a = run-append cs ds (step c a)

pub Reached-refl : (a : Impl) → Reached a a
unfolding run
Reached-refl a = ([], refl)

pub Reached-trans : (a b c : Impl) → Reached a b → Reached b c → Reached a c
Reached-trans a b c (cs, e) (ds, f) = (cs ++ ds, f ∙ ap (run ds) e ∙ sym (run-append cs ds a))

release-Reached : (id : List ℕ) (a : Impl) → Reached a (release_sequence id a)
unfolding run step
release-Reached id a = (releases id ∷ [], refl)

-- The outcome of a phase that began with `a`.
abbrev pub FromCalls : Impl → Outcome → Type 0
FromCalls a o = Reached a o.allocator

pub prefill_slot-Reached :
    (budget : ℕ) (s : Slot) (a : Impl) → FromCalls a (prefill_slot budget s a)
unfolding prefill_slot consume reject_prompt run step
prefill_slot-Reached budget s a =
    let request = s.state.request in
    let call =
      allocates request.id request.prompt_tokens request.prefix_cache_key
        request.prefix_cache_tokens in
    if-elim (FromCalls a) s.state.prompt_allocated (λ e. ([], refl))
      (λ e.
        if-elim (FromCalls a)
          (allocate_prompt request.id request.prompt_tokens request.prefix_cache_key
            request.prefix_cache_tokens a).1.ok
          (λ f. (call ∷ [], refl)) (λ f. (call ∷ [], refl)))

pub decode_slot-Reached : (i : ℕ) (s : Slot) (a : Impl) → FromCalls a (decode_slot i s a)
unfolding decode_slot complete_decode reject_decode run step
decode_slot-Reached i s a =
    let id = s.state.request.id in
    let r = append_tokens id (pos 1) a in
    let next = decoded_slot i s in
    let call = appends id (pos 1) in
    if-elim (FromCalls a) r.1.ok
      (λ e.
        if-elim (FromCalls a) (next.state.generated == max_generated next.state)
          (λ f. (call ∷ releases id ∷ [], refl)) (λ f. (call ∷ [], refl)))
      (λ e. (call ∷ releases id ∷ [], refl))

pub finish_slot-Reached : (i : ℕ) (s : Slot) (a : Impl) → FromCalls a (finish_slot i s a)
unfolding finish_slot
finish_slot-Reached i s a =
    if-elim (FromCalls a) (not s.state.done && s.state.prompt_ready && max_generated s.state == 0)
      (λ e. release-Reached s.state.request.id a) (λ e. Reached-refl a)

pub cancel_slot-Reached : (s : Slot) (a : Impl) → FromCalls a (cancel_slot s a)
unfolding cancel_slot
cancel_slot-Reached s a =
    if-elim (FromCalls a) s.state.done (λ e. Reached-refl a)
      (λ e. release-Reached s.state.request.id a)

visit-Reached :
    (phase : Slot → Impl → Outcome)
    → ((s : Slot) (a : Impl) → FromCalls a (phase s a))
    → (k : ℕ) (p : Progress) → Reached p.allocator (visit phase k p).allocator
unfolding visit
visit-Reached phase calls k p = elim (Option-cases (get_elem? p.slots k)) [
  | inl e ↦ rw (e, visit) (Reached-refl p.allocator)
  | inr (s, e) ↦ rw (e, visit) (calls s p.allocator)
]

visit_all-Reached :
    (phase : Slot → Impl → Outcome)
    → ((s : Slot) (a : Impl) → FromCalls a (phase s a))
    → (ks : List ℕ) (p : Progress) → Reached p.allocator (visit_all phase ks p).allocator
unfolding visit_all
visit_all-Reached phase calls [] p = Reached-refl p.allocator
visit_all-Reached phase calls (k ∷ ks) p =
    Reached-trans _ _ _ (visit-Reached phase calls k p)
      (visit_all-Reached phase calls ks (visit phase k p))

visit_each-Reached :
    (phase : Slot → Impl → Outcome)
    → ((s : Slot) (a : Impl) → FromCalls a (phase s a))
    → (slots : List Slot) (a : Impl) → Reached a (visit_each phase slots a).1
unfolding visit_each
visit_each-Reached phase calls [] a = Reached-refl a
visit_each-Reached phase calls (s ∷ ss) a =
    Reached-trans _ _ _ (calls s a) (visit_each-Reached phase calls ss (phase s a).allocator)

prefill_loop-Reached :
    (budget : ℕ) (ks : List ℕ) (p : Progress)
    → Reached p.allocator (prefill_loop budget ks p).allocator
unfolding prefill_loop
prefill_loop-Reached budget [] p = Reached-refl p.allocator
prefill_loop-Reached budget (k ∷ ks) p =
    let phase = prefill_slot (budget - p.tokens) in
    if-elim (λ (q : Progress). Reached p.allocator q.allocator) (budget - p.tokens == 0)
      (λ e. Reached-refl p.allocator)
      (λ e.
        Reached-trans _ _ _ (visit-Reached phase (prefill_slot-Reached (budget - p.tokens)) k p)
          (prefill_loop-Reached budget ks (visit phase k p)))

pub scheduler_step-Reached :
    (l : Limits) (i : ℕ) (s : Scheduler) → Reached s.allocator (scheduler_step l i s).allocator
unfolding scheduler_step prefill_phase decode_phase
scheduler_step-Reached l i s =
    let a = prefill_phase l s.slots s.allocator in
    let b = decode_phase l i a.slots a.allocator in
    let ready = candidates awaits_decode a.slots in
    let n = min l.max_decode_sequences_per_step (length ready) in
    Reached-trans _ _ _
      (prefill_loop-Reached l.max_prefill_tokens_per_step (candidates awaits_prefill s.slots)
        (begin_phase s.slots s.allocator))
      (Reached-trans _ _ _
        (visit_all-Reached (decode_slot i) (decode_slot-Reached i) (take n ready)
          (begin_phase a.slots a.allocator))
        (visit_each-Reached (finish_slot i) (finish_slot-Reached i) b.slots b.allocator))

pub cancel_all-Reached : (s : Scheduler) → Reached s.allocator (cancel_all s).allocator
unfolding cancel_all
cancel_all-Reached s = visit_each-Reached cancel_slot cancel_slot-Reached s.slots s.allocator
