-- ===== src/Backends/Arithmetic.antt =====
-- The arithmetic of the tiny language model (backend/inference_backend.cc), over the operations on `float`,
-- which are a parameter: `TinyLLMEmbedding`, `TinyLLMProjection`, `TinyLLMInputState`, `Dot`,
-- `TinyLLMNextState` and `TinyLLMLogits`. An array is a list.
use laminar_inference.Base.{
  ℕ, zero, suc, ◌+◌, ◌-◌, ◌*◌, Bool, List, [], ◌∷◌, map, none, some, length, get_elem?, ltb,
  if◌then◌else◌,
}
use laminar_inference.Base.Text.{Str, codes}
use laminar_inference.Backends.Generation.{TinyModel}

-- The operations that the code uses: a literal by its text, a converted `int`, `std::numeric_limits`, and
-- those of <cmath>.
pub record Arithmetic (F : Type 0) : Type 0 where
  pub literal : Str → F
  pub of_int : ℕ → F
  pub plus : F → F → F
  pub minus : F → F → F
  pub times : F → F → F
  pub over : F → F → F
  pub sin : F → F
  pub exp : F → F
  pub tanh : F → F
  pub sqrt : F → F
  pub max_float : F → F → F
  pub min_positive : F
  pub minus_infinity : F
  pub equal : F → F → Bool
  pub greater : F → F → Bool

-- `kTinyLLMHiddenDim`
abbrev pub hidden_dim : ℕ
hidden_dim = 32

module _ {F : Type 0} (floats : Arithmetic F) where
  -- `array[index]`, which the code calls in range only.
  abbrev pub elem_at : List F → ℕ → F
  elem_at array index = elim (get_elem? array index) [ none ↦ floats.of_int 0 | some x ↦ x ]

  -- A loop that fills an array from an index on.
  unfoldable pub fill : (ℕ → F) → ℕ → ℕ → List F
  fill f index zero = []
  fill f index (suc count) = f index ∷ fill f (suc index) count

  -- A loop over indices that changes a total.
  unfoldable pub accumulate : (F → ℕ → F) → F → ℕ → ℕ → F
  accumulate f total index zero = total
  accumulate f total index (suc count) = accumulate f (f total index) (suc index) count

  unfoldable pub tiny_llm_embedding : ℕ → ℕ → F
  tiny_llm_embedding token_id dim =
      let seed = (token_id + 7) * 131 + (dim + 3) * 17 in
      floats.times (floats.literal (codes "0.5"))
        (floats.sin (floats.times (floats.of_int seed) (floats.literal (codes "0.031"))))

  unfoldable pub tiny_llm_projection : ℕ → ℕ → ℕ → F
  tiny_llm_projection row col salt =
      let seed = (row + 5) * 73 + (col + 11) * 41 + salt * 149 in
      floats.sin (floats.times (floats.of_int seed) (floats.literal (codes "0.017")))

  unfoldable pub tiny_llm_input_state : ℕ → ℕ → List F
  tiny_llm_input_state token_id position =
      fill
        (λ dim.
          let angle =
            floats.times (floats.of_int ((position + 1) * (dim + 1)))
              (floats.literal (codes "0.071")) in
          let position_signal = floats.times (floats.literal (codes "0.25")) (floats.sin angle) in
          floats.plus (tiny_llm_embedding token_id dim) position_signal)
        0 hidden_dim

  unfoldable pub dot : List F → List F → ℕ → F
  dot lhs rhs salt =
      accumulate
        (λ total dim.
          let factor =
            floats.plus (floats.literal (codes "0.75"))
              (floats.times (floats.literal (codes "0.25")) (tiny_llm_projection dim salt 1)) in
          floats.plus total
            (floats.times (floats.times (elem_at lhs dim) (elem_at rhs dim)) factor))
        (floats.of_int 0) 0 hidden_dim

  -- The first loop over the previous states, whose number is `size`, from the state of an index on.
  unfoldable pub scores_from : List F → ℕ → ℕ → List (List F) → List F
  scores_from query size index [] = []
  scores_from query size index (state ∷ states) =
      let distance_penalty =
        floats.times (floats.literal (codes "0.015")) (floats.of_int (size - index)) in
      let scaled = floats.over (dot query state index) (floats.sqrt (floats.of_int hidden_dim)) in
      floats.minus scaled distance_penalty ∷ scores_from query size (suc index) states

  -- The fold of a list from the left.
  unfoldable pub fold_from : (F → F → F) → F → List F → F
  fold_from f total [] = total
  fold_from f total (x ∷ xs) = fold_from f (f total x) xs

  -- The last loop over the previous states, which adds them to the context by their weights.
  unfoldable pub context_from : F → List F → List F → List (List F) → List F
  context_from total context [] states = context
  context_from total context (score ∷ scores) [] = context
  context_from total context (score ∷ scores) (state ∷ states) =
      let weight = floats.over score total in
      context_from total
        (fill (λ dim. floats.plus (elem_at context dim) (floats.times weight (elem_at state dim))) 0
          hidden_dim)
        scores states

  unfoldable pub context_of : List F → List (List F) → List F
  context_of query previous_states =
      let scores = scores_from query (length previous_states) 0 previous_states in
      let max_score = fold_from floats.max_float floats.minus_infinity scores in
      let raised = map (λ score. floats.exp (floats.minus score max_score)) scores in
      let total =
        floats.max_float (fold_from floats.plus (floats.of_int 0) raised) floats.min_positive in
      context_from total (fill (λ dim. floats.of_int 0) 0 hidden_dim) raised previous_states

  -- The inner loop for `ff`, over every fourth index.
  unfoldable pub feed_forward : List F → List F → ℕ → F
  feed_forward query context dim =
      accumulate
        (λ ff step.
          let hidden = step * 4 in
          floats.plus
            (floats.plus ff
              (floats.times (elem_at query hidden) (tiny_llm_projection hidden dim 2)))
            (floats.times (elem_at context hidden) (tiny_llm_projection hidden dim 3)))
        (floats.of_int 0) 0 8

  unfoldable pub tiny_llm_next_state : ℕ → ℕ → List (List F) → List F
  tiny_llm_next_state token_id position previous_states =
      let query = tiny_llm_input_state token_id position in
      let context = context_of query previous_states in
      fill
        (λ dim.
          let from_query = floats.times (floats.literal (codes "0.58")) (elem_at query dim) in
          let from_context = floats.times (floats.literal (codes "0.37")) (elem_at context dim) in
          let from_ff =
            floats.times (floats.literal (codes "0.05")) (feed_forward query context dim) in
          floats.tanh (floats.plus (floats.plus from_query from_context) from_ff))
        0 hidden_dim

  unfoldable pub tiny_llm_logit : List F → F → ℕ → F
  tiny_llm_logit state safe_temperature token =
      let angle = floats.times (floats.of_int (token + 1)) (floats.literal (codes "0.37")) in
      let start = floats.times (floats.literal (codes "0.02")) (floats.sin angle) in
      let logit =
        accumulate
          (λ logit dim. floats.plus logit (
            floats.times (floats.times (elem_at state dim) (tiny_llm_projection dim token 5))
              (floats.literal (codes "0.15"))))
          start 0 hidden_dim in
      let shifted =
        if ltb token 2 then floats.minus logit (floats.literal (codes "1.0")) else logit in
      floats.over shifted safe_temperature

  unfoldable pub tiny_llm_logits : List F → F → List F
  tiny_llm_logits state temperature =
      let safe_temperature = floats.max_float temperature (floats.literal (codes "0.05")) in
      fill (tiny_llm_logit state safe_temperature) 0 64

  -- The functions that the generation is given.
  unfoldable pub tiny_model : TinyModel F (List F)
  tiny_model = record {
    next_state = tiny_llm_next_state;
    logits = λ state temperature token. elem_at (tiny_llm_logits state temperature) token;
    equal = floats.equal;
    greater = floats.greater;
  }
