-- ===== src/Batcher/Outcomes.antt =====
-- What the phases of `ContinuousBatcher::Run` (Phases) make of one sequence's state and result.
use laminar_inference.Base.{
  ℕ, ◌≤◌, ◌≡◌, refl, Bool, true, false, Bool-cases, if-elim, inl, inr, not, ◌&&◌, ◌==◌, arith,
}
use laminar_inference.Base.Int.{pos, pos_part}
use laminar_inference.Kv.State.{Impl}
use laminar_inference.Kv.{allocate_prompt, append_tokens}
use laminar_inference.Base.Text.{Str}
use laminar_inference.Batcher.State.{
  Slot, SequenceRequest, completed, rejected, max_generated, make_slot,
}
use laminar_inference.Batcher.Phases.{
  Outcome, consume, allocated_slot, decoded_slot, reject_prompt, prefill_slot, reject_decode,
  complete_decode, decode_slot, finish_slot, cancel_slot,
}
use laminar_inference.Batcher.Candidates.{awaits_decode}

pub record Sound (s : Slot) : Type 0 where
  pub id : s.result.id ≡ s.state.request.id
  pub prompt : s.result.prompt_tokens ≡ pos_part s.state.request.prompt_tokens
  pub at_most : s.state.generated ≤ max_generated s.state
  pub ready : s.state.prompt_ready ≡ true → s.state.prefill_remaining ≡ 0
  pub waiting :
      s.state.done ≡ false → (s.result.status ≡ rejected) × (s.result.generated_tokens ≡ 0)
  pub complete :
      s.result.status ≡ completed
      → (s.result.generated_tokens ≡ max_generated s.state) × (s.state.prefill_remaining ≡ 0)
  pub reported : s.result.generated_tokens ≤ s.state.generated

-- A phase works for the same request, and keeps the slot sound.
pub record Follows (s t : Slot) : Type 0 where
  pub request : t.state.request ≡ s.state.request
  pub sound : Sound s → Sound t

pub Follows-refl : (s : Slot) → Follows s s
Follows-refl s = record { request = refl; sound = λ v. v }

pub Follows-trans : (s t u : Slot) → Follows s t → Follows t u → Follows s u
Follows-trans s t u h k = record { request = cc; sound = λ v. k.sound (h.sound v) }

pub make_slot-Sound : (i : ℕ) (r : SequenceRequest) → Sound (make_slot i r)
unfolding make_slot
make_slot-Sound i r = record {
  id = refl;
  prompt = refl;
  at_most = omega arith;
  ready = λ e. ground arith;
  waiting = λ e. (refl, refl);
  complete = λ e. ground arith;
  reported = omega arith;
}

consume-Follows : (budget : ℕ) (s : Slot) (a : Impl) → Follows s (consume budget s a).slot
unfolding consume
consume-Follows budget s a = record {
  request = refl;
  sound = λ v. record {
    id = v.id;
    prompt = v.prompt;
    at_most = v.at_most;
    ready = λ e. ground (arith, v.ready);
    waiting = v.waiting;
    complete = λ e. ((v.complete e).0, omega (arith, (v.complete e).1));
    reported = v.reported;
  };
}

reject_prompt-Follows : (m : Str) (s : Slot) (a : Impl) → Follows s (reject_prompt m s a).slot
unfolding reject_prompt
reject_prompt-Follows m s a = record {
  request = refl;
  sound = λ v. record {
    id = v.id;
    prompt = v.prompt;
    at_most = v.at_most;
    ready = v.ready;
    waiting = λ f. ground arith;
    complete = λ f. ground arith;
    reported = v.reported;
  };
}

allocated_slot-Follows : (hit : Bool) (s : Slot) → Follows s (allocated_slot hit s)
allocated_slot-Follows hit s = record {
  request = refl;
  sound = λ v. record {
    id = v.id;
    prompt = v.prompt;
    at_most = v.at_most;
    ready = v.ready;
    waiting = v.waiting;
    complete = v.complete;
    reported = v.reported;
  };
}

pub prefill_slot-Follows :
    (budget : ℕ) (s : Slot) (a : Impl) → Follows s (prefill_slot budget s a).slot
unfolding prefill_slot
prefill_slot-Follows budget s a =
    let request = s.state.request in
    let r =
      allocate_prompt request.id request.prompt_tokens request.prefix_cache_key
        request.prefix_cache_tokens a in
    if-elim (λ (o : Outcome). Follows s o.slot) s.state.prompt_allocated
      (λ e. consume-Follows budget s a)
      (λ e.
        if-elim (λ (o : Outcome). Follows s o.slot) r.1.ok
          (λ f.
            Follows-trans _ _ _ (allocated_slot-Follows r.1.cache_hit s)
              (consume-Follows budget (allocated_slot r.1.cache_hit s) r.0))
          (λ f. reject_prompt-Follows r.1.message s r.0))

reject_decode-Follows : (m : Str) (s : Slot) (a : Impl) → Follows s (reject_decode m s a).slot
unfolding reject_decode
reject_decode-Follows m s a = record {
  request = refl;
  sound = λ v. record {
    id = v.id;
    prompt = v.prompt;
    at_most = v.at_most;
    ready = v.ready;
    waiting = λ f. ground arith;
    complete = λ f. ground arith;
    reported = omega arith;
  };
}

decoded_slot-Follows : (i : ℕ) (s : Slot) → awaits_decode s ≡ true → Follows s (decoded_slot i s)
decoded_slot-Follows i s w = record {
  request = refl;
  sound = λ v. record {
    id = v.id;
    prompt = v.prompt;
    at_most = ground arith;
    ready = v.ready;
    waiting = v.waiting;
    complete = v.complete;
    reported = omega (arith, v.reported);
  };
}

complete_decode-Follows :
    (i : ℕ) (s : Slot) (a : Impl)
    → s.state.prompt_ready ≡ true
    → s.state.generated ≡ max_generated s.state
    → Follows s (complete_decode i s a).slot
unfolding complete_decode
complete_decode-Follows i s a ready all = record {
  request = refl;
  sound = λ v. record {
    id = v.id;
    prompt = v.prompt;
    at_most = v.at_most;
    ready = v.ready;
    waiting = λ f. ground arith;
    complete = λ f. (all, v.ready ready);
    reported = omega arith;
  };
}

pub decode_slot-Follows :
    (i : ℕ) (s : Slot) (a : Impl) → awaits_decode s ≡ true → Follows s (decode_slot i s a).slot
unfolding decode_slot
decode_slot-Follows i s a w =
    let r = append_tokens s.state.request.id (pos 1) a in
    let next = decoded_slot i s in
    let ready : s.state.prompt_ready ≡ true = ground arith in
    elim (Bool-cases r.1.ok) [
      | inr e ↦ rw (e, decode_slot) (reject_decode-Follows r.1.message s r.0)
      | inl e ↦ elim (Bool-cases (next.state.generated == max_generated next.state)) [
        | inl f ↦
            rw (e, f, decode_slot)
              (Follows-trans _ _ _ (decoded_slot-Follows i s w)
                (complete_decode-Follows i next r.0 ready (ground arith)))
        | inr f ↦ rw (e, f, decode_slot) (decoded_slot-Follows i s w)
      ]
    ]

pub finish_slot-Follows : (i : ℕ) (s : Slot) (a : Impl) → Follows s (finish_slot i s a).slot
unfolding finish_slot
finish_slot-Follows i s a =
    elim (Bool-cases (not s.state.done && s.state.prompt_ready && max_generated s.state == 0)) [
      | inr e ↦ rw (e, finish_slot) (Follows-refl s)
      | inl e ↦
          rw (e, finish_slot)
            (record {
              request = refl;
              sound = λ v.
                  let open_ : s.state.done ≡ false = ground arith in
                  let ready : s.state.prompt_ready ≡ true = ground arith in
                  let none_asked : max_generated s.state ≡ 0 = ground arith in
                  record {
                    id = v.id;
                    prompt = v.prompt;
                    at_most = v.at_most;
                    ready = v.ready;
                    waiting = λ f. ground arith;
                    complete = λ f. (omega (arith, (v.waiting open_).1), v.ready ready);
                    reported = v.reported;
                  };
            })
    ]

pub cancel_slot-Follows : (s : Slot) (a : Impl) → Follows s (cancel_slot s a).slot
unfolding cancel_slot
cancel_slot-Follows s a =
    if-elim (λ (o : Outcome). Follows s o.slot) s.state.done (λ e. Follows-refl s)
      (λ e. record {
        request = refl;
        sound = λ v. record {
          id = v.id;
          prompt = v.prompt;
          at_most = v.at_most;
          ready = v.ready;
          waiting = λ f. ground arith;
          complete = λ f. ground arith;
          reported = v.reported;
        };
      })
