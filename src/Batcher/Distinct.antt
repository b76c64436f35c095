-- ===== src/Batcher/Distinct.antt =====
-- The positions of the candidates of a phase (Candidates).
use laminar_inference.Base.{
  ℕ, suc, ◌≡◌, Bool, false, Bool-cases, inl, inr, List, [], ◌∷◌, map, ◌==◌, arith,
}
use laminar_inference.Batcher.State.{Slot, SequenceState}
use laminar_inference.Batcher.Candidates.{
  candidates_from, insert_candidate, sort_candidates, candidates, by_priority,
}
use laminar_inference.Batcher.Chosen.{
  AllPass, AllEntries, AllEntries-mono, insert_candidate-AllEntries, sort_candidates-AllEntries,
  PassesFrom, candidates_from-AllEntries,
}

abbrev pub Distinct : List ℕ → Type 0
Distinct [] = Unit
Distinct (k ∷ ks) = AllPass (λ j. (j == k) ≡ false) ks × Distinct ks

abbrev EntriesDistinct : List (ℕ × SequenceState) → Type 0
EntriesDistinct [] = Unit
EntriesDistinct (c ∷ cs) = AllEntries (λ j. (j == c.0) ≡ false) cs × EntriesDistinct cs

==-sym : (j k : ℕ) → (j == k) ≡ false → (k == j) ≡ false
==-sym j k h = ground arith

insert_candidate-EntriesDistinct :
    (c : ℕ × SequenceState) (cs : List (ℕ × SequenceState))
    → AllEntries (λ j. (j == c.0) ≡ false) cs
    → EntriesDistinct cs
    → EntriesDistinct (insert_candidate c cs)
unfolding insert_candidate
insert_candidate-EntriesDistinct c [] h d = (tt, tt)
insert_candidate-EntriesDistinct c (e ∷ es) h d = elim (Bool-cases (by_priority c.1 e.1)) [
  | inl b ↦ rw b (h, d)
  | inr b ↦ rw b (
    insert_candidate-AllEntries (λ j. (j == e.0) ≡ false) c es (==-sym e.0 c.0 h.0) d.0,
    insert_candidate-EntriesDistinct c es h.1 d.1,
  )
]

sort_candidates-EntriesDistinct :
    (cs : List (ℕ × SequenceState)) → EntriesDistinct cs → EntriesDistinct (sort_candidates cs)
unfolding sort_candidates
sort_candidates-EntriesDistinct [] d = tt
sort_candidates-EntriesDistinct (c ∷ cs) d =
    insert_candidate-EntriesDistinct c (sort_candidates cs)
      (sort_candidates-AllEntries (λ j. (j == c.0) ≡ false) cs d.0)
      (sort_candidates-EntriesDistinct cs d.1)

candidates_from-EntriesDistinct :
    (p : Slot → Bool) (i : ℕ) (slots : List Slot) → EntriesDistinct (candidates_from p i slots)
unfolding candidates_from PassesFrom
candidates_from-EntriesDistinct p i [] = tt
candidates_from-EntriesDistinct p i (s ∷ ss) =
    let rest = candidates_from-EntriesDistinct p (suc i) ss in
    elim (Bool-cases (p s)) [
      | inl e ↦
          rw e (AllEntries-mono _ _ (later i ss) _ (candidates_from-AllEntries p (suc i) ss), rest)
      | inr e ↦ rw e rest
    ]
  where
    later : (i : ℕ) (ss : List Slot) (k : ℕ) → PassesFrom p (suc i) ss k → (k == i) ≡ false
    later i ss k (j, e, h) = ground arith

map-AllPass :
    (P : ℕ → Type 0) (cs : List (ℕ × SequenceState))
    → AllEntries P cs
    → AllPass P (map (λ c. c.0) cs)
map-AllPass P [] a = tt
map-AllPass P (c ∷ cs) a = (a.0, map-AllPass P cs a.1)

map-Distinct : (cs : List (ℕ × SequenceState)) → EntriesDistinct cs → Distinct (map (λ c. c.0) cs)
map-Distinct [] d = tt
map-Distinct (c ∷ cs) d = (map-AllPass (λ j. (j == c.0) ≡ false) cs d.0, map-Distinct cs d.1)

pub candidates-Distinct : (p : Slot → Bool) (slots : List Slot) → Distinct (candidates p slots)
unfolding candidates
candidates-Distinct p slots =
    map-Distinct _ (sort_candidates-EntriesDistinct _ (candidates_from-EntriesDistinct p 0 slots))
