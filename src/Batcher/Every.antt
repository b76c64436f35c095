-- ===== src/Batcher/Every.antt =====
-- From relations between a slot before and after a phase to the loops over slots (Step).
use laminar_inference.Base.{
  ℕ, zero, suc, ◌-◌, ◌≡◌, Bool, true, false, Bool-cases, Option-cases, inl, inr, List, [], ◌∷◌,
  some, get_elem?, get_elem?-update_at, update_at, min, length, take, ◌==◌,
}
use laminar_inference.Kv.State.{Impl}
use laminar_inference.Batcher.State.{Slot, Limits}
use laminar_inference.Batcher.Phases.{Outcome, prefill_slot, decode_slot, finish_slot}
use laminar_inference.Batcher.Candidates.{awaits_prefill, awaits_decode, candidates}
use laminar_inference.Batcher.Step.{
  Progress, visit, visit_all, visit_each, prefill_loop, prefill_phase, decode_phase, begin_phase,
  Scheduler, scheduler_step,
}
use laminar_inference.Batcher.Distinct.{Distinct, candidates-Distinct}
use laminar_inference.Batcher.Chosen.{AllPass, Passes, candidates-AllPass}

-- The sequences before a loop against those after, position by position.
abbrev pub Pairwise : (Slot → Slot → Type 0) → List Slot → List Slot → Type 0
Pairwise R [] [] = Unit
Pairwise R (s ∷ ss) (t ∷ ts) = R s t × Pairwise R ss ts
Pairwise R [] (t ∷ ts) = ⊥
Pairwise R (s ∷ ss) [] = ⊥

-- A visit leaves the other positions as they are.
pub visit-AllPass :
    (test : Slot → Bool) (phase : Slot → Impl → Outcome) (k : ℕ) (p : Progress) (ks : List ℕ)
    → AllPass (Passes test p.slots) ks
    → AllPass (λ j. (j == k) ≡ false) ks
    → AllPass (Passes test (visit phase k p).slots) ks
unfolding visit
visit-AllPass test phase k p [] h d = tt
visit-AllPass test phase k p (j ∷ js) ((t, at_j, passes), h) d = (
  elim (Option-cases (get_elem? p.slots k)) [
    | inl e ↦ rw (e, visit) (t, at_j, passes)
    | inr (s, e) ↦
        let v = (phase s p.allocator).slot in
        let kept : get_elem? (update_at (λ _. v) p.slots k) j ≡ some t =
          rw (get_elem?-update_at (λ _. v) p.slots j k, d.0) at_j in
        rw (e, visit) (t, kept, passes)
  ],
  visit-AllPass test phase k p js h d.1,
)

module _ (R : Slot → Slot → Type 0) (same : (s : Slot) → R s s)
    (next : (s t u : Slot) → R s t → R t u → R s u) where
  pub Pairwise-refl : (ss : List Slot) → Pairwise R ss ss
  Pairwise-refl [] = tt
  Pairwise-refl (s ∷ ss) = (same s, Pairwise-refl ss)

  pub Pairwise-trans :
      (ss ts us : List Slot) → Pairwise R ss ts → Pairwise R ts us → Pairwise R ss us
  Pairwise-trans [] [] us h k = k
  Pairwise-trans (s ∷ ss) (t ∷ ts) (u ∷ us) h k =
      (next s t u h.0 k.0, Pairwise-trans ss ts us h.1 k.1)
  Pairwise-trans [] (t ∷ ts) us h k = absurd h
  Pairwise-trans (s ∷ ss) [] us h k = absurd h
  Pairwise-trans (s ∷ ss) (t ∷ ts) [] h k = absurd k

  Pairwise-update_at :
      (ss : List Slot) (k : ℕ) (s v : Slot)
      → get_elem? ss k ≡ some s
      → R s v
      → Pairwise R ss (update_at (λ _. v) ss k)
  Pairwise-update_at [] k s v e h = tt
  Pairwise-update_at (x ∷ xs) zero s v e h =
      let at_head : s ≡ x = cc in (rw at_head at h, Pairwise-refl xs)
  Pairwise-update_at (x ∷ xs) (suc k) s v e h = (same x, Pairwise-update_at xs k s v e h)

  pub visit_each-Pairwise :
      (phase : Slot → Impl → Outcome)
      → ((s : Slot) (a : Impl) → R s (phase s a).slot)
      → (slots : List Slot) (a : Impl) → Pairwise R slots (visit_each phase slots a).0
  unfolding visit_each
  visit_each-Pairwise phase keeps [] a = tt
  visit_each-Pairwise phase keeps (s ∷ ss) a =
      (keeps s a, visit_each-Pairwise phase keeps ss (phase s a).allocator)

  -- A phase that a test lets in.
  module _ (test : Slot → Bool) where
    visit-Pairwise :
        (phase : Slot → Impl → Outcome)
        → ((s : Slot) (a : Impl) → test s ≡ true → R s (phase s a).slot)
        → (k : ℕ) (p : Progress) → Passes test p.slots k
        → Pairwise R p.slots (visit phase k p).slots
    unfolding visit
    visit-Pairwise phase keeps k p (s, e, h) =
        rw (e, visit)
          (Pairwise-update_at p.slots k s (phase s p.allocator).slot e (keeps s p.allocator h))

    pub visit_all-Pairwise :
        (phase : Slot → Impl → Outcome)
        → ((s : Slot) (a : Impl) → test s ≡ true → R s (phase s a).slot)
        → (ks : List ℕ) (p : Progress) → AllPass (Passes test p.slots) ks
        → Distinct ks
        → Pairwise R p.slots (visit_all phase ks p).slots
    unfolding visit_all
    visit_all-Pairwise phase keeps [] p h d = Pairwise-refl p.slots
    visit_all-Pairwise phase keeps (k ∷ ks) p h d =
        Pairwise-trans _ _ _ (visit-Pairwise phase keeps k p h.0) (
          visit_all-Pairwise phase keeps ks (visit phase k p)
            (visit-AllPass test phase k p ks h.1 d.0) d.1)

    pub prefill_loop-Pairwise :
        ((budget : ℕ) (s : Slot) (a : Impl) → test s ≡ true → R s (prefill_slot budget s a).slot)
        → (budget : ℕ) (ks : List ℕ) (p : Progress) → AllPass (Passes test p.slots) ks
        → Distinct ks
        → Pairwise R p.slots (prefill_loop budget ks p).slots
    unfolding prefill_loop
    prefill_loop-Pairwise keeps budget [] p h d = Pairwise-refl p.slots
    prefill_loop-Pairwise keeps budget (k ∷ ks) p h d = elim (Bool-cases (budget - p.tokens == 0)) [
      | inl e ↦ rw e (Pairwise-refl p.slots)
      | inr e ↦
          let phase = prefill_slot (budget - p.tokens) in
          rw e (
            Pairwise-trans _ _ _ (visit-Pairwise phase (keeps (budget - p.tokens)) k p h.0) (
              prefill_loop-Pairwise keeps budget ks (visit phase k p)
                (visit-AllPass test phase k p ks h.1 d.0) d.1))
    ]

pub AllPass-take : (P : ℕ → Type 0) (n : ℕ) (ks : List ℕ) → AllPass P ks → AllPass P (take n ks)
AllPass-take P zero ks h = tt
AllPass-take P (suc n) [] h = tt
AllPass-take P (suc n) (k ∷ ks) h = (h.0, AllPass-take P n ks h.1)

pub Distinct-take : (n : ℕ) (ks : List ℕ) → Distinct ks → Distinct (take n ks)
Distinct-take zero ks d = tt
Distinct-take (suc n) [] d = tt
Distinct-take (suc n) (k ∷ ks) d =
    (AllPass-take (λ j. (j == k) ≡ false) n ks d.0, Distinct-take n ks d.1)

-- A relation that every phase keeps, each on the sequences that it is meant for, is kept by a step.
module _ (R : Slot → Slot → Type 0) (same : (s : Slot) → R s s)
    (next : (s t u : Slot) → R s t → R t u → R s u) where
  pub scheduler_step-Pairwise :
      (l : Limits) (i : ℕ) (s : Scheduler)
      → ((budget : ℕ) (t : Slot) (a : Impl)
          → awaits_prefill t ≡ true
          → R t (prefill_slot budget t a).slot)
      → ((t : Slot) (a : Impl) → awaits_decode t ≡ true → R t (decode_slot i t a).slot)
      → ((t : Slot) (a : Impl) → R t (finish_slot i t a).slot)
      → Pairwise R s.slots (scheduler_step l i s).slots
  unfolding scheduler_step prefill_phase decode_phase
  scheduler_step-Pairwise l i s prefills decodes ends =
      let a = prefill_phase l s.slots s.allocator in
      let b = decode_phase l i a.slots a.allocator in
      let ready = candidates awaits_decode a.slots in
      let n = min l.max_decode_sequences_per_step (length ready) in
      let x =
        prefill_loop-Pairwise R same next awaits_prefill prefills l.max_prefill_tokens_per_step
          (candidates awaits_prefill s.slots) (begin_phase s.slots s.allocator)
          (candidates-AllPass awaits_prefill s.slots)
          (candidates-Distinct awaits_prefill s.slots) in
      let y =
        visit_all-Pairwise R same next awaits_decode (decode_slot i) decodes (take n ready)
          (begin_phase a.slots a.allocator)
          (AllPass-take _ n ready (candidates-AllPass awaits_decode a.slots))
          (Distinct-take n ready (candidates-Distinct awaits_decode a.slots)) in
      let z = visit_each-Pairwise R same next (finish_slot i) ends b.slots b.allocator in
      Pairwise-trans R same next _ _ _ x (Pairwise-trans R same next _ _ _ y z)
