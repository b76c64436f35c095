-- ===== src/Batcher/Loops.antt =====
-- The loops over sequences (Step) against the work that the sequences still have (Work).
use laminar_inference.Base.{
  ℕ, zero, suc, ◌+◌, ◌-◌, ◌≤◌, ◌<◌, ◌≡◌, Bool-cases, Option-cases, inl, inr, List, [], ◌∷◌, some,
  get_elem?, update_at, ◌==◌, arith,
}
use laminar_inference.Kv.State.{Impl}
use laminar_inference.Batcher.State.{Slot, Limits}
use laminar_inference.Batcher.Phases.{Outcome, prefill_slot, decode_slot, finish_slot}
use laminar_inference.Batcher.Candidates.{awaits_prefill, candidates}
use laminar_inference.Batcher.Step.{
  Progress, visit, visit_all, visit_each, prefill_loop, prefill_phase, decode_phase, begin_phase,
}
use laminar_inference.Batcher.Work.{
  work, Fits, Helps, prefill_slot-Helps, decode_slot-Helps, finish_slot-Helps,
}

abbrev pub total_work : List Slot → ℕ
total_work [] = 0
total_work (s ∷ ss) = work s + total_work ss

abbrev pub AllFit : List Slot → Type 0
AllFit [] = Unit
AllFit (s ∷ ss) = Fits s × AllFit ss

pub total_work-update_at :
    (slots : List Slot) (k : ℕ) (s v : Slot)
    → get_elem? slots k ≡ some s
    → total_work (update_at (λ _. v) slots k) + work s ≡ total_work slots + work v
total_work-update_at [] k s v h = cc
total_work-update_at (x ∷ xs) zero s v h = let e : x ≡ s = cc in rw e (omega arith)
total_work-update_at (x ∷ xs) (suc k) s v h = omega (arith, total_work-update_at xs k s v h)

AllFit-update_at :
    (slots : List Slot) (k : ℕ) (s v : Slot)
    → get_elem? slots k ≡ some s
    → (Fits s → Fits v)
    → AllFit slots
    → AllFit (update_at (λ _. v) slots k)
AllFit-update_at [] k s v h f a = tt
AllFit-update_at (x ∷ xs) zero s v h f a = let e : s ≡ x = cc in (f (rw e a.0), a.1)
AllFit-update_at (x ∷ xs) (suc k) s v h f a = (a.0, AllFit-update_at xs k s v h f a.1)

-- A loop's slots after against before.
pub record Better (before after : List Slot) : Type 0 where
  pub no_more : total_work after ≤ total_work before
  pub fit : AllFit before → AllFit after

pub Better-refl : (slots : List Slot) → Better slots slots
Better-refl slots = record { no_more = omega arith; fit = λ a. a }

pub Better-trans : {a b c : List Slot} → Better a b → Better b c → Better a c
Better-trans x y = record {
  no_more = omega (arith, x.no_more, y.no_more);
  fit = λ a. y.fit (x.fit a);
}

module _ (phase : Slot → Impl → Outcome) (helps : (s : Slot) (a : Impl) → Helps s (phase s a)) where
  pub visit-Better : (k : ℕ) (p : Progress) → Better p.slots (visit phase k p).slots
  unfolding visit
  visit-Better k p = elim (Option-cases (get_elem? p.slots k)) [
    | inl e ↦ rw (e, visit) (Better-refl p.slots)
    | inr (s, e) ↦
        let o = phase s p.allocator in
        let h = helps s p.allocator in
        let t = total_work-update_at p.slots k s o.slot e in
        rw (e, visit)
          (record {
            no_more = omega (arith, h.no_more, t);
            fit = AllFit-update_at p.slots k s o.slot e h.fits;
          })
  ]

  pub visit_all-Better : (ks : List ℕ) (p : Progress) → Better p.slots (visit_all phase ks p).slots
  unfolding visit_all
  visit_all-Better [] p = Better-refl p.slots
  visit_all-Better (k ∷ ks) p =
      Better-trans (visit-Better k p) (visit_all-Better ks (visit phase k p))

  visit_each-Better : (slots : List Slot) (a : Impl) → Better slots (visit_each phase slots a).0
  unfolding visit_each
  visit_each-Better [] a = Better-refl []
  visit_each-Better (s ∷ ss) a =
      let h = helps s a in
      let rest = visit_each-Better ss (phase s a).allocator in
      record {
        no_more = omega (arith, h.no_more, rest.no_more);
        fit = λ f. (h.fits f.0, rest.fit f.1);
      }

pub visit_helps :
    (phase : Slot → Impl → Outcome) (k : ℕ) (p : Progress) (s : Slot)
    → get_elem? p.slots k ≡ some s
    → work (phase s p.allocator).slot < work s
    → total_work (visit phase k p).slots < total_work p.slots
unfolding visit
visit_helps phase k p s e h =
    rw (e, visit) (omega (arith, total_work-update_at p.slots k s (phase s p.allocator).slot e))

pub prefill_loop-Better :
    (budget : ℕ) (ks : List ℕ) (p : Progress) → Better p.slots (prefill_loop budget ks p).slots
unfolding prefill_loop
prefill_loop-Better budget [] p = Better-refl p.slots
prefill_loop-Better budget (k ∷ ks) p = elim (Bool-cases (budget - p.tokens == 0)) [
  | inl e ↦ rw e (Better-refl p.slots)
  | inr e ↦
      let phase = prefill_slot (budget - p.tokens) in
      rw e (
        Better-trans (visit-Better phase (prefill_slot-Helps (budget - p.tokens)) k p)
          (prefill_loop-Better budget ks (visit phase k p)))
]

pub prefill_phase-Better :
    (l : Limits) (slots : List Slot) (a : Impl) → Better slots (prefill_phase l slots a).slots
unfolding prefill_phase
prefill_phase-Better l slots a =
    prefill_loop-Better l.max_prefill_tokens_per_step (candidates awaits_prefill slots)
      (begin_phase slots a)

pub decode_phase-Better :
    (l : Limits) (i : ℕ) (slots : List Slot) (a : Impl)
    → Better slots (decode_phase l i slots a).slots
unfolding decode_phase
decode_phase-Better l i slots a =
    visit_all-Better (decode_slot i) (decode_slot-Helps i) _ (begin_phase slots a)

pub finish_phase-Better :
    (i : ℕ) (slots : List Slot) (a : Impl) → Better slots (visit_each (finish_slot i) slots a).0
finish_phase-Better i slots a = visit_each-Better (finish_slot i) (finish_slot-Helps i) slots a
