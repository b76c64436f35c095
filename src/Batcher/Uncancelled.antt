-- ===== src/Batcher/Uncancelled.antt =====
-- `ContinuousBatcher::Run` (Batcher) where `is_cancelled` never says yes.
use laminar_inference.Base.{
  ℕ, zero, suc, ◌+◌, ◌<◌, subst, Option-cases, ◌≡◌, refl, ap, Bool, false, if-elim, inl, inr, not,
  ◌&&◌, List, [], ◌∷◌, map, Option, none, some, ◌==◌, arith,
}
use laminar_inference.Base.Int.{pos}
use laminar_inference.Kv.State.{Impl}
use laminar_inference.Kv.{allocate_prompt, append_tokens}
use laminar_inference.Batcher.State.{
  Limits, Slot, SequenceRequest, make_slot, make_batcher, ContinuousBatcherConfig,
  is_cancelled_status, any_cancelled, ContinuousBatchingRun, max_generated,
}
use laminar_inference.Batcher.Phases.{
  Outcome, consume, decoded_slot, reject_prompt, prefill_slot, reject_decode, complete_decode,
  decode_slot, finish_slot,
}
use laminar_inference.Batcher.Candidates.{count_slots, is_unfinished}
use laminar_inference.Batcher.Step.{Scheduler, scheduler_step}
use laminar_inference.Batcher.{make_slots, run_loop, start, report, run_batch}
use laminar_inference.Batcher.Endings.{requested}
use laminar_inference.Batcher.Runs.{AllAnswered, run_batch-Answers}
use laminar_inference.Batcher.Every.{
  Pairwise, Pairwise-refl, Pairwise-trans, scheduler_step-Pairwise,
}

-- A phase cancels nobody.
record Spares (s t : Slot) : Type 0 where
  kept : is_cancelled_status s.result.status ≡ false → is_cancelled_status t.result.status ≡ false

Spares-refl : (s : Slot) → Spares s s
Spares-refl s = record { kept = λ h. h }

Spares-trans : (s t u : Slot) → Spares s t → Spares t u → Spares s u
Spares-trans s t u h k = record { kept = λ e. k.kept (h.kept e) }

prefill_slot-Spares : (budget : ℕ) (s : Slot) (a : Impl) → Spares s (prefill_slot budget s a).slot
unfolding prefill_slot consume reject_prompt
prefill_slot-Spares budget s a =
    let request = s.state.request in
    let r =
      allocate_prompt request.id request.prompt_tokens request.prefix_cache_key
        request.prefix_cache_tokens a in
    if-elim (λ (o : Outcome). Spares s o.slot) s.state.prompt_allocated
      (λ e. record { kept = λ h. h })
      (λ e.
        if-elim (λ (o : Outcome). Spares s o.slot) r.1.ok (λ f. record { kept = λ h. h })
          (λ f. record { kept = λ h. refl }))

decode_slot-Spares : (i : ℕ) (s : Slot) (a : Impl) → Spares s (decode_slot i s a).slot
unfolding decode_slot reject_decode complete_decode
decode_slot-Spares i s a =
    let r = append_tokens s.state.request.id (pos 1) a in
    let next = decoded_slot i s in
    if-elim (λ (o : Outcome). Spares s o.slot) r.1.ok
      (λ e.
        if-elim (λ (o : Outcome). Spares s o.slot)
          (next.state.generated == max_generated next.state) (λ f. record { kept = λ h. refl })
          (λ f. record { kept = λ h. h }))
      (λ e. record { kept = λ h. refl })

finish_slot-Spares : (i : ℕ) (s : Slot) (a : Impl) → Spares s (finish_slot i s a).slot
unfolding finish_slot
finish_slot-Spares i s a =
    if-elim (λ (o : Outcome). Spares s o.slot)
      (not s.state.done && s.state.prompt_ready && max_generated s.state == 0)
      (λ e. record { kept = λ h. refl }) (λ e. record { kept = λ h. h })

abbrev or_run : ContinuousBatchingRun → Option ContinuousBatchingRun → ContinuousBatchingRun
or_run d none = d
or_run d (some r) = r

-- What the steps keep holds at the end of a loop that is not cancelled.
abbrev Reaches : (Scheduler → Type 0) → Option Scheduler → Type 0
Reaches P none = Unit
Reaches P (some t) = P t

run_loop-Reaches :
    (l : Limits) (is_cancelled : ℕ → Bool) (P : Scheduler → Type 0)
    → ((n : ℕ) → is_cancelled n ≡ false)
    → ((i : ℕ) (s : Scheduler) → P s → P (scheduler_step l i s))
    → (fuel i : ℕ) (s : Scheduler) → P s
    → Reaches P (run_loop l is_cancelled fuel i s)
unfolding run_loop
run_loop-Reaches l is_cancelled P never step zero i s p = tt
run_loop-Reaches l is_cancelled P never step (suc fuel) i s p =
    if-elim (Reaches P) (count_slots is_unfinished s.slots == 0) (λ e. p)
      (λ e.
        if-elim (Reaches P) (is_cancelled i) (λ f. ground (arith, never i))
          (λ f.
            run_loop-Reaches l is_cancelled P never step fuel (suc i) (scheduler_step l i s)
              (step i s p)))

make_slots-spared :
    (i : ℕ) (rs : List SequenceRequest) (ts : List Slot)
    → Pairwise Spares (make_slots i rs) ts
    → any_cancelled (map (λ t. t.result) ts) ≡ false
unfolding make_slots make_slot
make_slots-spared i [] [] h = refl
make_slots-spared i [] (t ∷ ts) h = absurd h
make_slots-spared i (r ∷ rs) [] h = absurd h
make_slots-spared i (r ∷ rs) (t ∷ ts) h =
    let first = h.0.kept refl in
    let rest = make_slots-spared (i + 1) rs ts h.1 in ground (arith, first, rest)

run_batch-spared :
    (config : ContinuousBatcherConfig) (is_cancelled : ℕ → Bool) (requests : List SequenceRequest)
    (fuel : ℕ) (r : ContinuousBatchingRun)
    → ((n : ℕ) → is_cancelled n ≡ false)
    → run_batch config is_cancelled fuel requests ≡ some r
    → any_cancelled r.results ≡ false
unfolding run_batch report start
run_batch-spared config is_cancelled requests fuel r never e =
    let before = make_slots 0 requests in
    let loop =
      run_loop (make_batcher config) is_cancelled fuel 0 (start (make_batcher config) requests) in
    let kept : Reaches (λ s. Pairwise Spares before s.slots) loop =
      run_loop-Reaches (make_batcher config) is_cancelled (λ s. Pairwise Spares before s.slots)
        never
        (λ i s h. Pairwise-trans Spares Spares-refl Spares-trans before s.slots _ h (
          scheduler_step-Pairwise Spares Spares-refl Spares-trans (make_batcher config) i s
            (λ budget u a w. prefill_slot-Spares budget u a) (λ u a w. decode_slot-Spares i u a)
            (finish_slot-Spares i)))
        fuel 0 (start (make_batcher config) requests)
        (Pairwise-refl Spares Spares-refl Spares-trans before) in
    elim (Option-cases loop) [
      | inl f ↦ ground (arith, (rw f at e))
      | inr (t, f) ↦
          let same : report requests t ≡ r = ap (or_run (report requests t)) (rw f at e) in
          let spared : Pairwise Spares before t.slots =
            subst (Reaches (λ s. Pairwise Spares before s.slots)) f kept in
          subst (λ u. any_cancelled u.results ≡ false) same
            (make_slots-spared 0 requests t.slots spared)
    ]

-- With more fuel than the requests ask for and where `is_cancelled` never says yes, `Run` returns one
-- result for each request, and none of them is cancelled.
pub run_batch-any_cancelled :
    (config : ContinuousBatcherConfig) (is_cancelled : ℕ → Bool) (requests : List SequenceRequest)
    (fuel : ℕ)
    → requested requests < fuel
    → ((n : ℕ) → is_cancelled n ≡ false)
    → (r : ContinuousBatchingRun) × (run_batch config is_cancelled fuel requests ≡ some r)
      × AllAnswered requests r.results
      × (any_cancelled r.results ≡ false)
run_batch-any_cancelled config is_cancelled requests fuel enough never =
    let (r, e, answered) = run_batch-Answers config is_cancelled requests fuel enough in
    (r, e, answered, run_batch-spared config is_cancelled requests fuel r never e)
