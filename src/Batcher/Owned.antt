-- ===== src/Batcher/Owned.antt =====
-- The loops of `ContinuousBatcher::Run` (Step) and the owners of the allocator's sequences (Owners).
use laminar_inference.Base.{
  ℕ, zero, suc, ◌-◌, ◌≡◌, refl, Bool, true, false, ◌||◌, Bool-cases, if-elim, inl, inr, List, [],
  ◌∷◌, some, get_elem?, update_at, ◌==◌, arith,
}
use laminar_inference.Base.Text.{Str}
use laminar_inference.Base.Assoc.{contains}
use laminar_inference.Kv.State.{Impl}
use laminar_inference.Kv.Invariant.{IsValid}
use laminar_inference.Kv.Histories.{run-IsValid}
use laminar_inference.Batcher.State.{Slot}
use laminar_inference.Batcher.Phases.{Outcome, prefill_slot}
use laminar_inference.Batcher.Candidates.{awaits_prefill}
use laminar_inference.Batcher.Chosen.{AllPass, Passes}
use laminar_inference.Batcher.Distinct.{Distinct}
use laminar_inference.Batcher.Every.{visit-AllPass}
use laminar_inference.Batcher.Reached.{Reached, FromCalls, prefill_slot-Reached}
use laminar_inference.Batcher.Owners.{owns, Accounted, prefill_slot-Accounted}
use laminar_inference.Batcher.Step.{Progress, visit, visit_all, visit_each, prefill_loop}

abbrev pub any_owns : Str → List Slot → Bool
any_owns j [] = false
any_owns j (s ∷ ss) = owns j s || any_owns j ss

-- The allocator is valid, and each of its sequences has a slot, or was there and nobody's `before`.
pub record Owned (slots : List Slot) (a : Impl) : Type 0 where
  pub valid : IsValid a
  pub owned : (j : Str) → contains j a.sequences ≡ true → any_owns j slots ≡ true

Reached-IsValid : (a b : Impl) → Reached a b → IsValid a → IsValid b
Reached-IsValid a b (cs, e) v = rw e (run-IsValid cs a v)

any_owns-update_at :
    (j : Str) (slots : List Slot) (k : ℕ) (s v : Slot)
    → get_elem? slots k ≡ some s
    → (owns j s ≡ true → owns j v ≡ true)
    → any_owns j slots ≡ true
    → any_owns j (update_at (λ _. v) slots k) ≡ true
any_owns-update_at j [] k s v e f h = cc
any_owns-update_at j (x ∷ xs) zero s v e f h =
    let same : s ≡ x = cc in
    let g : owns j x ≡ true → owns j v ≡ true = rw same at f in
    elim (Bool-cases (owns j x)) [
      | inl o ↦ rw (g o) refl
      | inr o ↦ let rest : any_owns j xs ≡ true = rw o at h in ground (arith, rest)
    ]
any_owns-update_at j (x ∷ xs) (suc k) s v e f h = ground (arith, any_owns-update_at j xs k s v e f)

any_owns-here :
    (j : Str) (slots : List Slot) (k : ℕ) (s v : Slot)
    → get_elem? slots k ≡ some s
    → owns j v ≡ true
    → any_owns j (update_at (λ _. v) slots k) ≡ true
any_owns-here j [] k s v e o = cc
any_owns-here j (x ∷ xs) zero s v e o = rw o refl
any_owns-here j (x ∷ xs) (suc k) s v e o = ground (arith, any_owns-here j xs k s v e o)

-- A phase that calls the allocator's methods only, and accounts for the ids at the slots that it is for.
pub record Accounts (test : Slot → Bool) (phase : Slot → Impl → Outcome) : Type 0 where
  pub calls : (s : Slot) (a : Impl) → FromCalls a (phase s a)
  pub accounted : (s : Slot) (a : Impl) → IsValid a → test s ≡ true → Accounted s a (phase s a)

visit-Owned :
    (test : Slot → Bool) (phase : Slot → Impl → Outcome)
    → Accounts test phase
    → (k : ℕ) (p : Progress) → Passes test p.slots k
    → Owned p.slots p.allocator
    → Owned (visit phase k p).slots (visit phase k p).allocator
unfolding visit
visit-Owned test phase c k p (s, e, passes) w =
    let o = phase s p.allocator in
    rw (e, visit)
      (record {
        valid = Reached-IsValid p.allocator o.allocator (c.calls s p.allocator) w.valid;
        owned = λ j h. elim (c.accounted s p.allocator w.valid passes j h) [
          | inl mine ↦ any_owns-here j p.slots k s o.slot e mine
          | inr (there, keeps) ↦ any_owns-update_at j p.slots k s o.slot e keeps (w.owned j there)
        ];
      })

pub visit_all-Owned :
    (test : Slot → Bool) (phase : Slot → Impl → Outcome)
    → Accounts test phase
    → (ks : List ℕ) (p : Progress) → AllPass (Passes test p.slots) ks
    → Distinct ks
    → Owned p.slots p.allocator
    → Owned (visit_all phase ks p).slots (visit_all phase ks p).allocator
unfolding visit_all
visit_all-Owned test phase c [] p h d w = w
visit_all-Owned test phase c (k ∷ ks) p h d w =
    visit_all-Owned test phase c ks (visit phase k p) (visit-AllPass test phase k p ks h.1 d.0) d.1
      (visit-Owned test phase c k p h.0 w)

prefill_slot-Accounts : (budget : ℕ) → Accounts awaits_prefill (prefill_slot budget)
prefill_slot-Accounts budget = record {
  calls = prefill_slot-Reached budget;
  accounted = λ s a v w. prefill_slot-Accounted budget s a w;
}

pub prefill_loop-Owned :
    (budget : ℕ) (ks : List ℕ) (p : Progress)
    → AllPass (Passes awaits_prefill p.slots) ks
    → Distinct ks
    → Owned p.slots p.allocator
    → Owned (prefill_loop budget ks p).slots (prefill_loop budget ks p).allocator
unfolding prefill_loop
prefill_loop-Owned budget [] p h d w = w
prefill_loop-Owned budget (k ∷ ks) p h d w =
    let left = budget - p.tokens in
    if-elim (λ (q : Progress). Owned q.slots q.allocator) (left == 0) (λ e. w)
      (λ e.
        prefill_loop-Owned budget ks (visit (prefill_slot left) k p)
          (visit-AllPass awaits_prefill (prefill_slot left) k p ks h.1 d.0) d.1
          (visit-Owned awaits_prefill (prefill_slot left) (prefill_slot-Accounts left) k p h.0 w))

-- A loop over the rest of the slots, with the ids that earlier slots own.
visit_each-owned :
    (phase : Slot → Impl → Outcome)
    → Accounts (λ s. true) phase
    → (slots : List Slot) (a : Impl) (earlier : Str → Bool) → IsValid a
    → ((j : Str) → contains j a.sequences ≡ true → (earlier j || any_owns j slots) ≡ true)
    → let r = visit_each phase slots a in
      IsValid r.1
      × ((j : Str) → contains j r.1.sequences ≡ true → (earlier j || any_owns j r.0) ≡ true)
unfolding visit_each
visit_each-owned phase c [] a earlier v w = (v, w)
visit_each-owned phase c (s ∷ ss) a earlier v w =
    let o = phase s a in
    let valid = Reached-IsValid a o.allocator (c.calls s a) v in
    let rest =
      visit_each-owned phase c ss o.allocator (λ j. earlier j || owns j o.slot) valid
        (λ j h. elim (c.accounted s a v refl j h) [
          | inl mine ↦ ground arith
          | inr (there, keeps) ↦ ground (arith, w j there)
        ]) in
    (rest.0, λ j h. ground (arith, rest.1 j h))

pub visit_each-Owned :
    (phase : Slot → Impl → Outcome)
    → Accounts (λ s. true) phase
    → (slots : List Slot) (a : Impl) → Owned slots a
    → Owned (visit_each phase slots a).0 (visit_each phase slots a).1
visit_each-Owned phase c slots a w =
    let r = visit_each-owned phase c slots a (λ j. false) w.valid (λ j h. w.owned j h) in
    record { valid = r.0; owned = λ j h. r.1 j h }
