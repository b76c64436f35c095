-- ===== src/Batcher/Work.antt =====
-- The work that a sequence of `ContinuousBatcher::Run` still has, before and after each phase (Phases).
use laminar_inference.Base.{ℕ, ◌+◌, ◌-◌, ◌≤◌, ◌<◌, ◌≡◌, ◌⊎◌, true, false, if◌then◌else◌, arith}
use laminar_inference.Kv.State.{Impl}
use laminar_inference.Batcher.State.{Slot, max_generated}
use laminar_inference.Batcher.Phases.{
  Outcome, consume, reject_prompt, prefill_slot, reject_decode, complete_decode, decode_slot,
  finish_slot,
}
use laminar_inference.Batcher.Candidates.{awaits_prefill, awaits_decode}

-- Prompt tokens, tokens to generate, one for the prompt's end and one for the completion.
abbrev pub work : Slot → ℕ
work s =
    if s.state.done
    then 0
    else 1
      + s.state.prefill_remaining
      + (if s.state.prompt_ready then 0 else 1)
      + (max_generated s.state - s.state.generated)

-- An unfinished sequence has tokens to generate, unless it was asked for none.
abbrev pub Fits : Slot → Type 0
Fits s =
    (s.state.done ≡ true)
    ⊎ (s.state.generated < max_generated s.state)
    ⊎ (max_generated s.state ≡ 0)

-- The phase leaves no more work, and keeps the sequence fit.
pub record Helps (s : Slot) (o : Outcome) : Type 0 where
  pub no_more : work o.slot ≤ work s
  pub fits : Fits s → Fits o.slot

consume-Helps : (budget : ℕ) (s : Slot) (a : Impl) → Helps s (consume budget s a)
unfolding consume
consume-Helps budget s a = record { no_more = ground arith; fits = λ f. f }

pub prefill_slot-Helps : (budget : ℕ) (s : Slot) (a : Impl) → Helps s (prefill_slot budget s a)
unfolding prefill_slot reject_prompt consume
prefill_slot-Helps budget s a = record { no_more = ground arith; fits = λ f. ground arith }

pub prefill_slot_helps :
    (budget : ℕ) (s : Slot) (a : Impl)
    → 0 < budget
    → awaits_prefill s ≡ true
    → work (prefill_slot budget s a).slot < work s
unfolding prefill_slot reject_prompt consume
prefill_slot_helps budget s a h w = ground arith

pub decode_slot-Helps : (i : ℕ) (s : Slot) (a : Impl) → Helps s (decode_slot i s a)
unfolding decode_slot reject_decode complete_decode
decode_slot-Helps i s a = record { no_more = ground arith; fits = λ f. ground arith }

pub decode_slot_helps :
    (i : ℕ) (s : Slot) (a : Impl) → awaits_decode s ≡ true → work (decode_slot i s a).slot < work s
unfolding decode_slot reject_decode complete_decode
decode_slot_helps i s a w = ground arith

pub finish_slot-Helps : (i : ℕ) (s : Slot) (a : Impl) → Helps s (finish_slot i s a)
unfolding finish_slot
finish_slot-Helps i s a = record { no_more = ground arith; fits = λ f. ground arith }

-- A sequence that no other phase is meant for ends in this one.
pub finish_slot_helps :
    (i : ℕ) (s : Slot) (a : Impl)
    → s.state.done ≡ false
    → awaits_prefill s ≡ false
    → awaits_decode s ≡ false
    → Fits s
    → work (finish_slot i s a).slot < work s
unfolding finish_slot
finish_slot_helps i s a open_ p d f = ground arith
