-- ===== src/Batcher/Chosen.antt =====
-- The candidates of a phase (Candidates) against the slots that pass its test.
use laminar_inference.Base.{
  ℕ, suc, ◌+◌, ◌≡◌, refl, Bool, true, false, Bool-cases, inl, inr, List, [], ◌∷◌, map, some,
  get_elem?, arith,
}
use laminar_inference.Batcher.State.{Slot, SequenceState}
use laminar_inference.Batcher.Candidates.{
  candidates_from, insert_candidate, sort_candidates, candidates, by_priority,
}

abbrev pub AllPass {ℓ} : (ℕ → Type ℓ) → List ℕ → Type ℓ
AllPass P [] = Unit
AllPass P (k ∷ ks) = P k × AllPass P ks

-- The slot at a position passes the test.
abbrev pub Passes : (Slot → Bool) → List Slot → ℕ → Type 0
Passes p slots k = (s : Slot) × (get_elem? slots k ≡ some s) × (p s ≡ true)

abbrev pub NonePass : (Slot → Bool) → List Slot → Type 0
NonePass p [] = Unit
NonePass p (s ∷ ss) = (p s ≡ false) × NonePass p ss

abbrev pub AllEntries : (ℕ → Type 0) → List (ℕ × SequenceState) → Type 0
AllEntries P [] = Unit
AllEntries P (c ∷ cs) = P c.0 × AllEntries P cs

module _ (P : ℕ → Type 0) where
  pub insert_candidate-AllEntries :
      (c : ℕ × SequenceState) (cs : List (ℕ × SequenceState))
      → P c.0
      → AllEntries P cs
      → AllEntries P (insert_candidate c cs)
  unfolding insert_candidate
  insert_candidate-AllEntries c [] h a = (h, tt)
  insert_candidate-AllEntries c (d ∷ ds) h a = elim (Bool-cases (by_priority c.1 d.1)) [
    | inl e ↦ rw e (h, a)
    | inr e ↦ rw e (a.0, insert_candidate-AllEntries c ds h a.1)
  ]

  pub sort_candidates-AllEntries :
      (cs : List (ℕ × SequenceState)) → AllEntries P cs → AllEntries P (sort_candidates cs)
  unfolding sort_candidates
  sort_candidates-AllEntries [] a = tt
  sort_candidates-AllEntries (c ∷ cs) a =
      insert_candidate-AllEntries c (sort_candidates cs) a.0 (sort_candidates-AllEntries cs a.1)

  map-AllPass : (cs : List (ℕ × SequenceState)) → AllEntries P cs → AllPass P (map (λ c. c.0) cs)
  map-AllPass [] a = tt
  map-AllPass (c ∷ cs) a = (a.0, map-AllPass cs a.1)

pub AllEntries-mono :
    (P Q : ℕ → Type 0)
    → ((k : ℕ) → P k → Q k)
    → (cs : List (ℕ × SequenceState)) → AllEntries P cs
    → AllEntries Q cs
AllEntries-mono P Q f [] a = tt
AllEntries-mono P Q f (c ∷ cs) a = (f c.0 a.0, AllEntries-mono P Q f cs a.1)

-- From position `i` on: position `k` is `j` slots further.
unfoldable pub PassesFrom : (Slot → Bool) → ℕ → List Slot → ℕ → Type 0
PassesFrom p i slots k = (j : ℕ) × (k ≡ i + j) × Passes p slots j

PassesFrom-suc :
    (p : Slot → Bool) (i : ℕ) (s : Slot) (ss : List Slot) (k : ℕ)
    → PassesFrom p (suc i) ss k
    → PassesFrom p i (s ∷ ss) k
unfolding PassesFrom
PassesFrom-suc p i s ss k (j, e, h) = (suc j, omega arith, h)

pub candidates_from-AllEntries :
    (p : Slot → Bool) (i : ℕ) (slots : List Slot)
    → AllEntries (PassesFrom p i slots) (candidates_from p i slots)
unfolding candidates_from PassesFrom
candidates_from-AllEntries p i [] = tt
candidates_from-AllEntries p i (s ∷ ss) =
    let rest =
      AllEntries-mono _ _ (PassesFrom-suc p i s ss) _ (candidates_from-AllEntries p (suc i) ss) in
    elim (Bool-cases (p s)) [
      | inl e ↦ rw e ((0, omega arith, (s, refl, e)), rest)
      | inr e ↦ rw e rest
    ]

pub candidates-AllPass :
    (p : Slot → Bool) (slots : List Slot) → AllPass (Passes p slots) (candidates p slots)
unfolding candidates PassesFrom
candidates-AllPass p slots = map-AllPass _ _ (
    sort_candidates-AllEntries _ _
      (AllEntries-mono _ _ at_zero _ (candidates_from-AllEntries p 0 slots)))
  where
    at_zero : (k : ℕ) → PassesFrom p 0 slots k → Passes p slots k
    at_zero k (j, e, h) = let same : k ≡ j = omega arith in rw same h

insert_candidate-ne_nil :
    (c : ℕ × SequenceState) (cs : List (ℕ × SequenceState))
    → map (λ d. d.0) (insert_candidate c cs) ≡ []
    → ⊥
unfolding insert_candidate
insert_candidate-ne_nil c [] h = cc
insert_candidate-ne_nil c (d ∷ ds) h = ground arith

candidates_from-NonePass :
    (p : Slot → Bool) (i : ℕ) (ss : List Slot)
    → map (λ d. d.0) (sort_candidates (candidates_from p i ss)) ≡ []
    → NonePass p ss
unfolding candidates_from sort_candidates
candidates_from-NonePass p i [] h = tt
candidates_from-NonePass p i (s ∷ ss) h = elim (Bool-cases (p s)) [
  | inl e ↦ absurd (insert_candidate-ne_nil (i, s.state) _ (rw e at h))
  | inr e ↦ (e, candidates_from-NonePass p (suc i) ss (rw e at h))
]

pub candidates-NonePass :
    (p : Slot → Bool) (slots : List Slot) → candidates p slots ≡ [] → NonePass p slots
unfolding candidates
candidates-NonePass p slots = candidates_from-NonePass p 0 slots
