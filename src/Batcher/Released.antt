-- ===== src/Batcher/Released.antt =====
-- The sequences that the allocator has when `ContinuousBatcher::Run` (Batcher) returns.
use laminar_inference.Base.{
  ℕ, ◌<◌, ◌≡◌, refl, min, Bool, true, false, List, [], ◌∷◌, some, length, take, arith,
}
use laminar_inference.Base.Int.{pos}
use laminar_inference.Base.Text.{Str, str_eq_refl}
use laminar_inference.Base.Assoc.{Map, contains, find}
use laminar_inference.Kv.State.{Sequence, snapshot, make_allocator}
use laminar_inference.Kv.Histories.{make_allocator-IsValid}
use laminar_inference.Batcher.State.{
  Slot, Limits, SequenceRequest, ContinuousBatcherConfig, ContinuousBatchingRun, make_batcher,
}
use laminar_inference.Batcher.Phases.{decode_slot, finish_slot, cancel_slot}
use laminar_inference.Batcher.Candidates.{
  awaits_prefill, awaits_decode, candidates, count_slots, is_unfinished,
}
use laminar_inference.Batcher.Chosen.{candidates-AllPass}
use laminar_inference.Batcher.Distinct.{candidates-Distinct}
use laminar_inference.Batcher.Every.{AllPass-take, Distinct-take}
use laminar_inference.Batcher.Reached.{
  decode_slot-Reached, finish_slot-Reached, cancel_slot-Reached,
}
use laminar_inference.Batcher.Owners.{
  decode_slot-Accounted, finish_slot-Accounted, cancel_slot-Accounted,
}
use laminar_inference.Batcher.Owned.{
  any_owns, Owned, Accounts, prefill_loop-Owned, visit_all-Owned, visit_each-Owned,
}
use laminar_inference.Batcher.Step.{
  prefill_phase, decode_phase, begin_phase, Scheduler, scheduler_step, cancel_all,
}
use laminar_inference.Batcher.Endings.{requested, run-Ends}
use laminar_inference.Batcher.{start, report, run_batch}

decode_slot-Accounts : (i : ℕ) → Accounts awaits_decode (decode_slot i)
decode_slot-Accounts i = record {
  calls = decode_slot-Reached i;
  accounted = λ s a v w. decode_slot-Accounted i s a v;
}

finish_slot-Accounts : (i : ℕ) → Accounts (λ s. true) (finish_slot i)
finish_slot-Accounts i = record {
  calls = finish_slot-Reached i;
  accounted = λ s a v w. finish_slot-Accounted i s a v;
}

cancel_slot-Accounts : Accounts (λ s. true) cancel_slot
cancel_slot-Accounts = record {
  calls = cancel_slot-Reached;
  accounted = λ s a v w. cancel_slot-Accounted s a v;
}

scheduler_step-Owned :
    (l : Limits) (i : ℕ) (s : Scheduler)
    → Owned s.slots s.allocator
    → Owned (scheduler_step l i s).slots (scheduler_step l i s).allocator
unfolding scheduler_step prefill_phase decode_phase
scheduler_step-Owned l i s w =
    let a = prefill_phase l s.slots s.allocator in
    let b = decode_phase l i a.slots a.allocator in
    let ready = candidates awaits_decode a.slots in
    let n = min l.max_decode_sequences_per_step (length ready) in
    visit_each-Owned (finish_slot i) (finish_slot-Accounts i) b.slots b.allocator (
      visit_all-Owned awaits_decode (decode_slot i) (decode_slot-Accounts i) (take n ready)
        (begin_phase a.slots a.allocator)
        (AllPass-take _ n ready (candidates-AllPass awaits_decode a.slots))
        (Distinct-take n ready (candidates-Distinct awaits_decode a.slots))
        (prefill_loop-Owned l.max_prefill_tokens_per_step (candidates awaits_prefill s.slots)
          (begin_phase s.slots s.allocator) (candidates-AllPass awaits_prefill s.slots)
          (candidates-Distinct awaits_prefill s.slots) w))

cancel_all-Owned :
    (s : Scheduler)
    → Owned s.slots s.allocator
    → Owned (cancel_all s).slots (cancel_all s).allocator
unfolding cancel_all
cancel_all-Owned s w = visit_each-Owned cancel_slot cancel_slot-Accounts s.slots s.allocator w

none_owns :
    (j : Str) (slots : List Slot) → count_slots is_unfinished slots ≡ 0 → any_owns j slots ≡ false
none_owns j [] h = refl
none_owns j (s ∷ ss) h = ground (arith, none_owns j ss)

contains-head : (j : Str) (q : Sequence) (m : Map Sequence) → contains j ((j, q) ∷ m) ≡ true
unfolding contains find
contains-head j q m = ground (arith, str_eq_refl j)

no_sequences :
    (slots : List Slot) (m : Map Sequence)
    → count_slots is_unfinished slots ≡ 0
    → ((j : Str) → contains j m ≡ true → any_owns j slots ≡ true)
    → length m ≡ 0
no_sequences slots [] h w = refl
no_sequences slots ((j, q) ∷ m) h w =
    let owned = w j (contains-head j q m) in let free = none_owns j slots h in absurd (ground arith)

no_id : (j : Str) → contains {V = Sequence} j [] ≡ true → ⊥
unfolding contains find
no_id j h = ground arith

-- With more fuel than the requests ask for, `Run` returns, whenever it is cancelled and whatever ids the
-- requests share, and the allocator has no sequence left.
pub run_batch_releases :
    (config : ContinuousBatcherConfig) (is_cancelled : ℕ → Bool) (requests : List SequenceRequest)
    (fuel : ℕ)
    → requested requests < fuel
    → (r : ContinuousBatchingRun) × (run_batch config is_cancelled fuel requests ≡ some r)
      × (r.stats.kv_cache.active_sequences ≡ 0)
unfolding run_batch report start snapshot make_allocator
run_batch_releases config is_cancelled requests fuel enough =
    let (t, e, ended, w) =
      run-Ends config is_cancelled requests fuel (λ s. Owned s.slots s.allocator) enough
        (scheduler_step-Owned (make_batcher config)) cancel_all-Owned
        (record {
          valid = make_allocator-IsValid (record {
            total_blocks = pos (make_batcher config).kv_cache_blocks;
            tokens_per_block = pos (make_batcher config).kv_block_tokens;
          });
          owned = λ j h. absurd (no_id j h);
        }) in
    (report requests t, rw e refl, no_sequences t.slots t.allocator.sequences ended w.owned)
