-- ===== src/Batcher/Candidates.antt =====
-- Which sequences a phase of `ContinuousBatcher::Run` (backend/scheduling/continuous_batcher.cc) takes,
-- and in what order.
use laminar_inference.Base.{ℕ, suc, ◌+◌, Bool, not, ◌&&◌, List, [], ◌∷◌, map, ltb, if◌then◌else◌}
use laminar_inference.Base.Int.{ltb_ℤ, eq_ℤ}
use laminar_inference.Batcher.State.{Slot, SequenceState, max_generated}

abbrev pub count_slots : (Slot → Bool) → List Slot → ℕ
count_slots p [] = 0
count_slots p (s ∷ ss) = (if p s then 1 else 0) + count_slots p ss

abbrev pub is_unfinished : Slot → Bool
is_unfinished s = not s.state.done

-- `by_priority`: the greater priority first, then the smaller index.
unfoldable pub by_priority : SequenceState → SequenceState → Bool
by_priority lhs rhs =
    if eq_ℤ lhs.request.priority rhs.request.priority
    then ltb lhs.index rhs.index
    else ltb_ℤ rhs.request.priority lhs.request.priority

-- The pointers that a candidate loop collects: the positions of the slots that pass its test.
unfoldable pub candidates_from : (Slot → Bool) → ℕ → List Slot → List (ℕ × SequenceState)
candidates_from p i [] = []
candidates_from p i (s ∷ ss) =
    let rest = candidates_from p (suc i) ss in if p s then (i, s.state) ∷ rest else rest

unfoldable pub insert_candidate :
    ℕ × SequenceState → List (ℕ × SequenceState) → List (ℕ × SequenceState)
insert_candidate c [] = c ∷ []
insert_candidate c (d ∷ ds) = if by_priority c.1 d.1 then c ∷ d ∷ ds else d ∷ insert_candidate c ds

-- `std::sort` by `by_priority`, a strict total order on the candidates, so that every sort agrees.
unfoldable pub sort_candidates : List (ℕ × SequenceState) → List (ℕ × SequenceState)
sort_candidates [] = []
sort_candidates (c ∷ cs) = insert_candidate c (sort_candidates cs)

unfoldable pub candidates : (Slot → Bool) → List Slot → List ℕ
candidates p slots = map (λ c. c.0) (sort_candidates (candidates_from p 0 slots))

abbrev pub awaits_prefill : Slot → Bool
awaits_prefill s = not s.state.done && not s.state.prompt_ready

abbrev pub awaits_decode : Slot → Bool
awaits_decode s =
    not s.state.done && s.state.prompt_ready && ltb s.state.generated (max_generated s.state)
