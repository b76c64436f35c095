-- ===== src/Batcher/Owners.antt =====
-- Who owns a sequence of the allocator while `ContinuousBatcher::Run` (Step) goes on: an unfinished slot
-- whose prompt has blocks. Here for the phases on one slot.
use laminar_inference.Base.{ℕ, ◌≡◌, ◌⊎◌, Bool, true, not, ◌&&◌, if-elim, inl, inr, ◌==◌, arith}
use laminar_inference.Base.Int.{pos}
use laminar_inference.Base.Text.{Str, str_eq}
use laminar_inference.Base.Assoc.{contains}
use laminar_inference.Kv.State.{Impl}
use laminar_inference.Kv.{allocate_prompt, append_tokens, release_sequence}
use laminar_inference.Kv.Ids.{
  find-allocate_prompt, contains-append_tokens, contains-release_sequence,
}
use laminar_inference.Kv.Invariant.{IsValid}
use laminar_inference.Kv.Methods.{append_tokens-IsValid}
use laminar_inference.Batcher.State.{Slot, max_generated}
use laminar_inference.Batcher.Phases.{
  Outcome, consume, reject_prompt, prefill_slot, reject_decode, complete_decode, decode_slot,
  decoded_slot, finish_slot, cancel_slot,
}
use laminar_inference.Batcher.Candidates.{awaits_prefill}

abbrev pub owns : Str → Slot → Bool
owns j s = str_eq j s.state.request.id && s.state.prompt_allocated && not s.state.done

-- What a phase at a slot may do to the ids: each one there afterwards is owned by the slot, or it was
-- there before, and the slot has not given it up.
abbrev pub Accounted : Slot → Impl → Outcome → Type 0
Accounted s a o =
    (j : Str)
    → contains j o.allocator.sequences ≡ true
    → (owns j o.slot ≡ true)
      ⊎ ((contains j a.sequences ≡ true) × (owns j s ≡ true → owns j o.slot ≡ true))

consume-Accounted : (budget : ℕ) (s : Slot) (a : Impl) → Accounted s a (consume budget s a)
unfolding consume
consume-Accounted budget s a j h = inr (h, λ o. o)

pub prefill_slot-Accounted :
    (budget : ℕ) (s : Slot) (a : Impl)
    → awaits_prefill s ≡ true
    → Accounted s a (prefill_slot budget s a)
unfolding prefill_slot consume reject_prompt
prefill_slot-Accounted budget s a w =
    let q = s.state.request in
    let r = allocate_prompt q.id q.prompt_tokens q.prefix_cache_key q.prefix_cache_tokens a in
    let found =
      find-allocate_prompt q.id q.prompt_tokens q.prefix_cache_key q.prefix_cache_tokens a in
    if-elim (Accounted s a) s.state.prompt_allocated (λ e j h. inr (h, λ o. o))
      (λ e.
        if-elim (Accounted s a) r.1.ok
          (λ f j h. elim (found j h) [
            | inl before ↦ inr (before, λ o. ground arith)
            | inr (accepted, mine) ↦ inl (ground arith)
          ])
          (λ f j h. elim (found j h) [
            | inl before ↦ inr (before, λ o. ground arith)
            | inr (accepted, mine) ↦ inl (ground arith)
          ]))

-- After a release the slot owned none of the ids that are left.
release_sequence_leaves :
    (s : Slot) (a b : Impl)
    → IsValid b
    → ((j : Str) → contains j b.sequences ≡ true → contains j a.sequences ≡ true)
    → (j : Str) → contains j (release_sequence s.state.request.id b).sequences ≡ true
    → (after : Bool) → (contains j a.sequences ≡ true) × (owns j s ≡ true → after ≡ true)
release_sequence_leaves s a b v before j h after =
    let (there, other) = contains-release_sequence s.state.request.id b j v.unique h in
    (before j there, λ mine. ground arith)

pub decode_slot-Accounted :
    (i : ℕ) (s : Slot) (a : Impl) → IsValid a → Accounted s a (decode_slot i s a)
unfolding decode_slot reject_decode complete_decode
decode_slot-Accounted i s a v =
    let id = s.state.request.id in
    let r = append_tokens id (pos 1) a in
    let next = decoded_slot i s in
    let valid = append_tokens-IsValid id (pos 1) a v in
    let before = contains-append_tokens id (pos 1) a in
    if-elim (Accounted s a) r.1.ok
      (λ e.
        if-elim (Accounted s a) (next.state.generated == max_generated next.state)
          (λ f j h. inr (release_sequence_leaves s a r.0 valid before j h _))
          (λ f j h. inr (before j h, λ o. o)))
      (λ e j h. inr (release_sequence_leaves s a r.0 valid before j h _))

pub finish_slot-Accounted :
    (i : ℕ) (s : Slot) (a : Impl) → IsValid a → Accounted s a (finish_slot i s a)
unfolding finish_slot
finish_slot-Accounted i s a v =
    if-elim (Accounted s a) (not s.state.done && s.state.prompt_ready && max_generated s.state == 0)
      (λ e j h. inr (release_sequence_leaves s a a v (λ j h. h) j h _)) (λ e j h. inr (h, λ o. o))

pub cancel_slot-Accounted : (s : Slot) (a : Impl) → IsValid a → Accounted s a (cancel_slot s a)
unfolding cancel_slot
cancel_slot-Accounted s a v =
    if-elim (Accounted s a) s.state.done (λ e j h. inr (h, λ o. o))
      (λ e j h. inr (release_sequence_leaves s a a v (λ j h. h) j h _))
