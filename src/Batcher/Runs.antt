-- ===== src/Batcher/Runs.antt =====
-- What `ContinuousBatcher::Run` (Batcher) returns for a list of requests.
use laminar_inference.Base.{
  ℕ, ◌+◌, ◌≤◌, ◌<◌, ◌≡◌, refl, Bool, List, [], ◌∷◌, map, some, length, arith,
}
use laminar_inference.Base.Int.{pos, pos_part}
use laminar_inference.Kv.State.{clamp_positive, snapshot}
use laminar_inference.Kv.Histories.{snapshot-run_bounds}
use laminar_inference.Batcher.State.{
  Limits, Slot, SequenceRequest, SequenceResult, ContinuousBatcherConfig, ContinuousBatchingRun,
  make_batcher, make_slot, completed, max_generated,
}
use laminar_inference.Batcher.Phases.{cancel_slot}
use laminar_inference.Batcher.Step.{Scheduler, cancel_all}
use laminar_inference.Batcher.{make_slots, start, report, run_batch}
use laminar_inference.Batcher.Every.{
  Pairwise, Pairwise-refl, Pairwise-trans, visit_each-Pairwise, scheduler_step-Pairwise,
}
use laminar_inference.Batcher.Outcomes.{
  Follows, Follows-refl, Follows-trans, make_slot-Sound, prefill_slot-Follows, decode_slot-Follows,
  finish_slot-Follows, cancel_slot-Follows,
}
use laminar_inference.Batcher.Endings.{requested, run-Ends, make_batcher_pos}
use laminar_inference.Batcher.Budgets.{
  Within, AllSteps, sum_of, prefills, decodes, Recorded, scheduler_step-Recorded,
  cancel_all-Recorded,
}
use laminar_inference.Batcher.Reached.{Reached-refl}

-- A request against its result.
pub record Answers (request : SequenceRequest) (result : SequenceResult) : Type 0 where
  pub id : result.id ≡ request.id
  pub prompt : result.prompt_tokens ≡ pos_part request.prompt_tokens
  pub at_most : result.generated_tokens ≤ pos_part request.max_generated_tokens
  pub all_tokens :
      result.status ≡ completed → result.generated_tokens ≡ pos_part request.max_generated_tokens

abbrev pub AllAnswered : List SequenceRequest → List SequenceResult → Type 0
AllAnswered [] [] = Unit
AllAnswered (r ∷ rs) (t ∷ ts) = Answers r t × AllAnswered rs ts
AllAnswered [] (t ∷ ts) = ⊥
AllAnswered (r ∷ rs) [] = ⊥

Sound-Answers :
    (i : ℕ) (r : SequenceRequest) (t : Slot) → Follows (make_slot i r) t → Answers r t.result
unfolding make_slot
Sound-Answers i r t f =
    let v = f.sound (make_slot-Sound i r) in
    let request = f.request in
    let bound : t.result.generated_tokens ≤ max_generated t.state =
      omega (arith, v.at_most, v.reported) in
    record {
      id = rw request at v.id;
      prompt = rw request at v.prompt;
      at_most = rw request at bound;
      all_tokens = λ e. rw request at (v.complete e).0;
    }

Pairwise-AllAnswered :
    (i : ℕ) (rs : List SequenceRequest) (ts : List Slot)
    → Pairwise Follows (make_slots i rs) ts
    → AllAnswered rs (map (λ t. t.result) ts)
unfolding make_slots
Pairwise-AllAnswered i [] [] h = tt
Pairwise-AllAnswered i (r ∷ rs) (t ∷ ts) h =
    (Sound-Answers i r t h.0, Pairwise-AllAnswered (i + 1) rs ts h.1)
Pairwise-AllAnswered i [] (t ∷ ts) h = absurd h
Pairwise-AllAnswered i (r ∷ rs) [] h = absurd h

-- With more fuel than the requests ask for, `Run` returns, whenever it is cancelled: one result for each
-- request, in the same order, with its id and prompt tokens, at most the tokens it asked for, and all of
-- them where the result is completed.
pub run_batch-Answers :
    (config : ContinuousBatcherConfig) (is_cancelled : ℕ → Bool) (requests : List SequenceRequest)
    (fuel : ℕ)
    → requested requests < fuel
    → (r : ContinuousBatchingRun) × (run_batch config is_cancelled fuel requests ≡ some r)
      × AllAnswered requests r.results
unfolding run_batch report start cancel_all
run_batch-Answers config is_cancelled requests fuel enough =
    let before = make_slots 0 requests in
    let (t, e, ended, kept) =
      run-Ends config is_cancelled requests fuel (λ s. Pairwise Follows before s.slots) enough
        (λ i s h. Pairwise-trans Follows Follows-refl Follows-trans before s.slots _ h (
          scheduler_step-Pairwise Follows Follows-refl Follows-trans (make_batcher config) i s
            (λ budget u a w. prefill_slot-Follows budget u a) (λ u a w. decode_slot-Follows i u a w)
            (finish_slot-Follows i)))
        (λ s h. Pairwise-trans Follows Follows-refl Follows-trans before s.slots _ h (
          visit_each-Pairwise Follows Follows-refl Follows-trans cancel_slot cancel_slot-Follows
            s.slots s.allocator))
        (Pairwise-refl Follows Follows-refl Follows-trans before) in
    (report requests t, rw e refl, Pairwise-AllAnswered 0 requests t.slots kept)

final_blocks :
    (l : Limits) (t : Scheduler)
    → 0 < l.kv_cache_blocks
    → Recorded l t
    → let k = snapshot t.allocator in
      (k.total_blocks ≡ l.kv_cache_blocks) × (k.used_blocks + k.free_blocks ≡ l.kv_cache_blocks)
unfolding clamp_positive
final_blocks l t positive kept =
    let (cs, e) = kept.reached in
    let bounds =
      snapshot-run_bounds
        (record { total_blocks = pos l.kv_cache_blocks; tokens_per_block = pos l.kv_block_tokens })
        cs in
    rw e (ground (arith, bounds), ground (arith, bounds))

-- With more fuel than the requests ask for, `Run` returns, and each step that it records prefilled and
-- decoded at most as many tokens as configured, named a sequence for each decoded token, and used no more
-- blocks than there are; the statistics count these steps and add up their decoded tokens, and those of
-- the cache count its configured blocks, used and free.
pub run_batch-Within :
    (config : ContinuousBatcherConfig) (is_cancelled : ℕ → Bool) (requests : List SequenceRequest)
    (fuel : ℕ)
    → requested requests < fuel
    → let l = make_batcher config in
      (r : ContinuousBatchingRun) × (run_batch config is_cancelled fuel requests ≡ some r)
      × AllSteps (Within l) r.steps
      × (r.stats.total_steps ≡ length r.steps)
      × (r.stats.prefill_steps ≡ sum_of prefills r.steps)
      × (r.stats.decode_steps ≡ sum_of decodes r.steps)
      × (r.stats.total_generated_tokens ≡ sum_of (λ st. st.decoded_tokens) r.steps)
      × (r.stats.kv_cache.total_blocks ≡ l.kv_cache_blocks)
      × (r.stats.kv_cache.used_blocks + r.stats.kv_cache.free_blocks ≡ l.kv_cache_blocks)
unfolding run_batch report start
run_batch-Within config is_cancelled requests fuel enough =
    let l = make_batcher config in
    let positive = make_batcher_pos config in
    let (t, e, ended, kept) =
      run-Ends config is_cancelled requests fuel (Recorded l) enough
        (λ i s h. scheduler_step-Recorded l i s positive.2 h) (λ s h. cancel_all-Recorded l s h)
        (record {
          reached = Reached-refl _;
          within = tt;
          generated = refl;
          prefill_count = refl;
          decode_count = refl;
        }) in
    let total = final_blocks l t positive.2 kept in
    (
      report requests t,
      rw e refl,
      kept.within,
      refl,
      kept.prefill_count,
      kept.decode_count,
      kept.generated,
      total.0,
      total.1,
    )
