-- ===== src/Backends/Layered.antt =====
-- What a batch of `TinyTextModelBackend` (TinyText) returns, for any answers of `is_cancelled`.
use laminar_inference.Base.{
  ℕ, zero, suc, ◌+◌, ◌*◌, ◌≡◌, refl, sym, ap, ◌∙◌, ◌⊎◌, inl, inr, true, false, ◌||◌, Bool-cases,
  List, [], ◌∷◌, ◌++◌, map, none, some, length, if◌then◌else◌, arith,
}
use mathlib.Core.List.{append-nil, append_assoc}
use laminar_inference.Base.Int.{pos_part}
use laminar_inference.Base.Text.{Str}
use laminar_inference.Backends.{BackendRequest, BackendResult, Polls, ok_result, cancelled_result}
use laminar_inference.Backends.Simulator.{any_poll}
use laminar_inference.Backends.Arithmetic.{Arithmetic}
use laminar_inference.Backends.TinyText.{
  TinyTextModelBackend, featurize, hidden_of, next_layer, layers_from, text_output, text_loop,
  tiny_text_batch,
}

any_poll-add :
    (is_cancelled : Polls) (first m n : ℕ)
    → any_poll is_cancelled first (m + n)
      ≡ (any_poll is_cancelled first m || any_poll is_cancelled (first + m) n)
any_poll-add is_cancelled first zero n =
    let same : 0 + n ≡ n = omega arith in
    let from : first + 0 ≡ first = omega arith in rw (same, from) refl
any_poll-add is_cancelled first (suc m) n =
    let longer : suc m + n ≡ suc (m + n) = omega arith in
    let later : first + suc m ≡ suc first + m = omega arith in
    rw (longer, later)
      (elim (Bool-cases (is_cancelled first)) [
        | inl said ↦ rw said refl
        | inr silent ↦ rw silent (any_poll-add is_cancelled (suc first) m n)
      ])

module _ {F : Type 0} (floats : Arithmetic F) (cos : F → F) (float_to_string : F → Str)
    (backend : TinyTextModelBackend) (is_cancelled : Polls) where
  -- What is hidden behind so many layers.
  abbrev pub behind_layers : ℕ → List F → List F
  behind_layers zero hidden = hidden
  behind_layers (suc n) hidden = next_layer floats cos n (behind_layers n hidden)

  layers_from-any_poll :
      (asked layer left : ℕ) (hidden : List F)
      → let r =
          layers_from floats cos float_to_string backend is_cancelled asked layer left
            (behind_layers layer hidden) in
        ((any_poll is_cancelled asked left ≡ true) × (r.0 ≡ none))
        ⊎ ((any_poll is_cancelled asked left ≡ false)
            × (r.0 ≡ some (behind_layers (layer + left) hidden))
            × (r.1 ≡ asked + left))
  unfolding layers_from
  layers_from-any_poll asked layer zero hidden =
      inr (refl, ap (λ n. some (behind_layers n hidden)) (omega arith), omega arith)
  layers_from-any_poll asked layer (suc left) hidden = elim (Bool-cases (is_cancelled asked)) [
    | inl said ↦ inl (rw said refl, rw (layers_from, said) refl)
    | inr silent ↦
        rw (layers_from, silent)
          (elim (layers_from-any_poll (suc asked) (suc layer) left hidden) [
            | inl stopped ↦ inl stopped
            | inr (quiet, last, asked_of) ↦ inr (
              quiet,
              last ∙ ap (λ n. some (behind_layers n hidden)) (omega arith),
              omega (arith, asked_of),
            )
          ])
  ]

  -- The questions that a batch without cancellation asks, the first one left out.
  abbrev asked_by : ℕ → List BackendRequest → ℕ
  asked_by iterations [] = 0
  asked_by iterations (request ∷ rest) = suc (iterations + asked_by iterations rest)

  asked_by-length :
      (iterations : ℕ) (requests : List BackendRequest)
      → asked_by iterations requests ≡ length requests * suc iterations
  asked_by-length iterations [] = omega arith
  asked_by-length iterations (request ∷ rest) = omega (arith, asked_by-length iterations rest)

  -- The output for a prompt, where nothing is cancelled.
  abbrev pub output_of : ℕ → BackendRequest → Str
  output_of batch_size request =
      text_output floats cos float_to_string backend is_cancelled batch_size (
        behind_layers (pos_part backend.iterations)
          (hidden_of floats (featurize floats request.prompt)))

  abbrev Loops : ℕ → ℕ → List Str → List BackendRequest → BackendResult → Type 0
  Loops batch_size asked outputs requests r = r ≡ (
      if any_poll is_cancelled asked (asked_by (pos_part backend.iterations) requests)
      then cancelled_result
      else ok_result (outputs ++ map (output_of batch_size) requests) [])

  text_loop-any_poll :
      (batch_size asked : ℕ) (outputs : List Str) (requests : List BackendRequest)
      → Loops batch_size asked outputs requests (
          text_loop floats cos float_to_string backend is_cancelled batch_size asked outputs
            requests)
  unfolding text_loop
  text_loop-any_poll batch_size asked outputs [] =
      ap (λ os. ok_result os []) (sym (append-nil outputs))
  text_loop-any_poll batch_size asked outputs (request ∷ rest) =
      let first = hidden_of floats (featurize floats request.prompt) in
      let iterations = pos_part backend.iterations in
      let output = output_of batch_size request in
      let split = any_poll-add is_cancelled (suc asked) iterations (asked_by iterations rest) in
      elim (Bool-cases (is_cancelled asked)) [
        | inl said ↦ rw (text_loop, said) refl
        | inr silent ↦ elim (layers_from-any_poll (suc asked) 0 iterations first) [
          | inl (stopped, e) ↦ rw (text_loop, silent, e, split, stopped) refl
          | inr (quiet, e, asked_of) ↦
              let same : 0 + iterations ≡ iterations = omega arith in
              let joined = append_assoc outputs (output ∷ []) (map (output_of batch_size) rest) in
              let rest_of =
                text_loop-any_poll batch_size (suc asked + iterations) (outputs ++ output ∷ [])
                  rest in
              rw (text_loop, silent, e, asked_of, split, quiet, same)
                (rest_of
                  ∙ ap
                      (λ os.
                        if any_poll is_cancelled (suc asked + iterations) (asked_by iterations rest)
                        then cancelled_result
                        else ok_result os [])
                      joined)
        ]
      ]

  -- A batch of `TinyTextModelBackend` is cancelled exactly where `is_cancelled` says so at one of the
  -- questions that it asks: one at its start, and for each request one and one more for each layer. Otherwise
  -- it is ok, and its outputs are those of the requests, in order: for each the features of the prompt, sent
  -- through the first layer and then through all layers in their order. The operations on `float` and what
  -- `is_cancelled` answers are arbitrary.
  pub tiny_text_batch-any_poll :
      (requests : List BackendRequest)
      → tiny_text_batch floats cos float_to_string backend is_cancelled requests ≡ (
          if any_poll is_cancelled 0 (suc (length requests * suc (pos_part backend.iterations)))
          then cancelled_result
          else ok_result (map (output_of (length requests)) requests) [])
  unfolding tiny_text_batch
  tiny_text_batch-any_poll requests =
      let iterations = pos_part backend.iterations in
      rw (sym (asked_by-length iterations requests)) (elim (Bool-cases (is_cancelled 0)) [
        | inl said ↦ rw said refl
        | inr silent ↦ rw silent (text_loop-any_poll (length requests) 1 [] requests)
      ])
