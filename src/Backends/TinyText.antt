-- ===== src/Backends/TinyText.antt =====
-- `TinyTextModelBackend` (backend/inference_backend.cc): the features of a prompt, the layers of the model and
-- the choice of a label, over the operations on `float`, which are a parameter.
use laminar_inference.Base.{
  ℕ, zero, suc, ◌+◌, ◌*◌, ◌-◌, ◌%◌, Bool, true, false, ◌&&◌, List, [], ◌∷◌, ◌++◌, map, max, Option,
  none, some, length, leb, get_elem?, update_at, if◌then◌else◌,
}
use laminar_inference.Base.Int.{ℤ, pos, pos_part}
use laminar_inference.Base.Text.{Str, codes}
use laminar_inference.Base.Decimal.{to_string, int_to_string}
use laminar_inference.Settings.Numbers.{clamp}
use laminar_inference.Tokens.{tokenize, hash_token, is_alnum}
use laminar_inference.Backends.{BackendRequest, BackendResult, Polls, ok_result, cancelled_result}
use laminar_inference.Backends.Arithmetic.{Arithmetic, elem_at, fill, accumulate, fold_from}

-- `TinyTextModelBackend` with `iterations_`
pub record TinyTextModelBackend : Type 0 where
  pub iterations : ℤ

-- The constructor.
unfoldable pub make_tiny_text_model : ℤ → TinyTextModelBackend
make_tiny_text_model iterations = record { iterations = clamp iterations (pos 1) (pos 1024) }

-- `std::isupper`, `std::isdigit` and `std::ispunct` of the C locale
unfoldable pub is_upper : ℕ → Bool
is_upper c = leb 65 c && leb c 90

unfoldable pub is_decimal : ℕ → Bool
is_decimal c = leb 48 c && leb c 57

unfoldable pub is_punct : ℕ → Bool
is_punct c = leb 33 c && leb c 126 && (if is_alnum c then false else true)

-- The loop that counts the bytes of a kind.
unfoldable pub count_bytes : (ℕ → Bool) → Str → ℕ
count_bytes kind [] = 0
count_bytes kind (c ∷ cs) = let rest = count_bytes kind cs in if kind c then suc rest else rest

unfoldable pub feature_index : Str → ℕ
feature_index token = 6 + hash_token token % (128 - 6)

abbrev pub labels : List Str
labels =
    codes "latency_sensitive"
    ∷ codes "quality_seeking"
    ∷ codes "safety_review"
    ∷ codes "general"
    ∷ []

module _ {F : Type 0} (floats : Arithmetic F) where
  abbrev pub min_float : F → F → F
  min_float a b = if floats.greater a b then b else a

  -- A share that is at most one.
  unfoldable pub share : F → F → F
  share part whole = min_float (floats.over part whole) (floats.literal (codes "1.0"))

  -- The loop over the tokens, which adds to the feature of each.
  unfoldable pub add_tokens : F → List F → List Str → List F
  add_tokens token_scale features [] = features
  add_tokens token_scale features (token ∷ tokens) =
      add_tokens token_scale
        (update_at (λ x. floats.plus x token_scale) features (feature_index token)) tokens

  unfoldable pub token_scale_of : List Str → F
  token_scale_of [] = floats.literal (codes "1.0")
  token_scale_of (token ∷ tokens) =
      floats.over (floats.literal (codes "1.0"))
        (floats.sqrt (floats.of_int (length (token ∷ tokens))))

  unfoldable pub featurize : Str → List F
  featurize prompt =
      let tokens = tokenize prompt in
      let size = floats.of_int (max (length prompt) 1) in
      let counted : (ℕ → Bool) → F = λ kind. floats.of_int (count_bytes kind prompt) in
      add_tokens (token_scale_of tokens)
        (floats.literal (codes "1.0")
          ∷ share size (floats.literal (codes "256.0"))
          ∷ share (floats.of_int (length tokens)) (floats.literal (codes "64.0"))
          ∷ share (counted is_upper) size
          ∷ share (counted is_decimal) size
          ∷ share (counted is_punct) size
          ∷ fill floats (λ i. floats.of_int 0) 6 122)
        tokens

  unfoldable pub input_weight : ℕ → ℕ → F
  input_weight input hidden =
      let seed = (input + 17) * 37 + (hidden + 11) * 101 in
      floats.times (floats.literal (codes "0.075"))
        (floats.sin (floats.times (floats.of_int seed) (floats.literal (codes "0.017"))))

  unfoldable pub recurrent_weight : (F → F) → ℕ → ℕ → ℕ → F
  recurrent_weight cos row col layer =
      let seed = (row + 3) * 53 + (col + 5) * 97 + (layer + 1) * 193 in
      floats.times (floats.literal (codes "0.055"))
        (cos (floats.times (floats.of_int seed) (floats.literal (codes "0.013"))))

  unfoldable pub output_weight : ℕ → ℕ → F
  output_weight hidden klass =
      let seed = (hidden + 19) * 71 + (klass + 23) * 131 in
      floats.times (floats.literal (codes "0.12"))
        (floats.sin (floats.times (floats.of_int seed) (floats.literal (codes "0.011"))))

  unfoldable pub bias : ℕ → F → F
  bias index scale = floats.times scale (
      floats.sin (floats.times (floats.of_int ((index + 1) * 29)) (floats.literal (codes "0.019"))))

  -- `*std::max_element` behind a first element.
  unfoldable pub max_element : F → List F → F
  max_element best [] = best
  max_element best (x ∷ xs) = max_element (if floats.greater x best then x else best) xs

  -- The index of `std::max_element`, for the best element so far, its index and the next index.
  unfoldable pub max_index : F → ℕ → ℕ → List F → ℕ
  max_index best at_best index [] = at_best
  max_index best at_best index (x ∷ xs) = elim (floats.greater x best) [
    | true ↦ max_index x index (suc index) xs
    | false ↦ max_index best at_best (suc index) xs
  ]

  unfoldable pub softmax : List F → List F
  softmax [] = []
  softmax (first ∷ logits) =
      let max_logit = max_element first logits in
      let raised = map (λ value. floats.exp (floats.minus value max_logit)) (first ∷ logits) in
      let total = fold_from floats floats.plus (floats.of_int 0) raised in
      map (λ value. floats.over value (floats.max_float total floats.min_positive)) raised

  -- The first layer.
  unfoldable pub hidden_of : List F → List F
  hidden_of features =
      fill floats
        (λ j. floats.tanh (
          accumulate floats
            (λ sum i. floats.plus sum (floats.times (elem_at floats features i) (input_weight i j)))
            (bias j (floats.literal (codes "0.05"))) 0 128))
        0 48

  unfoldable pub next_layer : (F → F) → ℕ → List F → List F
  next_layer cos layer hidden =
      fill floats
        (λ j. floats.tanh (
          accumulate floats
            (λ sum k.
              floats.plus sum
                (floats.times (elem_at floats hidden k) (recurrent_weight cos k j layer)))
            (bias (j + layer) (floats.literal (codes "0.03"))) 0 48))
        0 48

  unfoldable pub class_logits : List F → List F
  class_logits hidden =
      fill floats
        (λ c.
          accumulate floats
            (λ sum j. floats.plus sum (floats.times (elem_at floats hidden j) (output_weight j c)))
            (bias c (floats.literal (codes "0.02"))) 0 48)
        0 4

  -- The label of the best probability; the index is that of an element of the list.
  abbrev pub label_at : ℕ → Str
  label_at index = elim (get_elem? labels index) [ none ↦ [] | some label ↦ label ]

  module _ (cos : F → F) (float_to_string : F → Str) (backend : TinyTextModelBackend)
      (is_cancelled : Polls) where
    unfoldable pub format_tiny_model_output : Str → F → ℕ → Str
    format_tiny_model_output label confidence batch_size =
        codes "TinyTextModel(backend=tiny_text_model, label="
        ++ label
        ++ codes ", confidence="
        ++ float_to_string confidence
        ++ codes ", batch_size="
        ++ to_string batch_size
        ++ codes ", iterations="
        ++ int_to_string backend.iterations
        ++ codes ")"

    -- The loop over the layers: what is hidden, `none` where it was cancelled, and the number of calls of
    -- `is_cancelled`.
    unfoldable pub layers_from : ℕ → ℕ → ℕ → List F → Option (List F) × ℕ
    layers_from asked layer zero hidden = (some hidden, asked)
    layers_from asked layer (suc left) hidden = elim (is_cancelled asked) [
      | true ↦ (none, suc asked)
      | false ↦ layers_from (suc asked) (suc layer) left (next_layer cos layer hidden)
    ]

    -- The output for what is hidden behind the last layer.
    unfoldable pub text_output : ℕ → List F → Str
    text_output batch_size hidden =
        let probabilities = softmax (class_logits hidden) in
        let first = elem_at floats probabilities 0 in
        let label_index = max_index first 0 0 probabilities in
        format_tiny_model_output (label_at label_index) (elem_at floats probabilities label_index)
          batch_size

    -- The loop over the requests.
    unfoldable pub text_loop : ℕ → ℕ → List Str → List BackendRequest → BackendResult
    text_loop batch_size asked outputs [] = ok_result outputs []
    text_loop batch_size asked outputs (request ∷ rest) = elim (is_cancelled asked) [
      | true ↦ cancelled_result
      | false ↦
          let layered =
            layers_from (suc asked) 0 (pos_part backend.iterations)
              (hidden_of (featurize request.prompt)) in
          elim layered.0 [
            | none ↦ cancelled_result
            | some hidden ↦
                text_loop batch_size layered.1 (outputs ++ text_output batch_size hidden ∷ []) rest
          ]
    ]

    -- `TinyTextModelBackend::ProcessBatch`
    unfoldable pub tiny_text_batch : List BackendRequest → BackendResult
    tiny_text_batch requests =
        if is_cancelled 0 then cancelled_result else text_loop (length requests) 1 [] requests
