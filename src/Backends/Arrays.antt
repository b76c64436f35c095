-- ===== src/Backends/Arrays.antt =====
-- The sizes of the arrays of the tiny models (Arithmetic).
use laminar_inference.Base.{ℕ, zero, suc, ◌≡◌, refl, ap, List, length}
use laminar_inference.Backends.Arithmetic.{Arithmetic, fill, tiny_llm_next_state, tiny_llm_logits}

module _ {F : Type 0} (floats : Arithmetic F) where
  pub length-fill : (f : ℕ → F) (index count : ℕ) → length (fill floats f index count) ≡ count
  unfolding fill
  length-fill f index zero = refl
  length-fill f index (suc count) = ap suc (length-fill f (suc index) count)

  pub length-tiny_llm_next_state :
      (token_id position : ℕ) (states : List (List F))
      → length (tiny_llm_next_state floats token_id position states) ≡ 32
  unfolding tiny_llm_next_state
  length-tiny_llm_next_state token_id position states = length-fill _ 0 32

  pub length-tiny_llm_logits :
      (state : List F) (temperature : F) → length (tiny_llm_logits floats state temperature) ≡ 64
  unfolding tiny_llm_logits
  length-tiny_llm_logits state temperature = length-fill _ 0 64
