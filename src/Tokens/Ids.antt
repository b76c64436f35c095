-- ===== src/Tokens/Ids.antt =====
-- The token ids of a prompt (Tokens).
use laminar_inference.Base.{ℕ, ◌≡◌, refl, true, List, [], ◌∷◌, map, length, length-map, arith}
use Prim.Native.Nat.{max}
use laminar_inference.Base.Text.{Str}
use laminar_inference.Tokens.{token_id, tokenize, tokenize_for_tiny_llm}
use laminar_inference.Tokens.Words.{all_proper, proper}

token_id-proper : (token : Str) → proper (token_id token) ≡ true
unfolding token_id
token_id-proper token = ground arith

all_proper-map : (tokens : List Str) → all_proper (map token_id tokens) ≡ true
all_proper-map [] = refl
all_proper-map (t ∷ ts) = ground (arith, token_id-proper t, all_proper-map ts)

-- The token ids of any prompt, the empty one too, are the mark 0 and behind it, for each token, or once
-- where there is no token, an id of the vocabulary that is no mark.
pub tokenize_for_tiny_llm-proper :
    (prompt : Str)
    → (ids : List ℕ) × (tokenize_for_tiny_llm prompt ≡ 0 ∷ ids)
      × (all_proper ids ≡ true)
      × (length ids ≡ max 1 (length (tokenize prompt)))
unfolding tokenize_for_tiny_llm
tokenize_for_tiny_llm-proper prompt = by_tokens (tokenize prompt)
  where
    by_tokens :
        (tokens : List Str)
        → (ids : List ℕ) × (elim (map token_id tokens) [
          | [] ↦ 0 ∷ token_id prompt ∷ []
          | id ∷ rest ↦ 0 ∷ id ∷ rest
        ]
            ≡ 0 ∷ ids)
          × (all_proper ids ≡ true)
          × (length ids ≡ max 1 (length tokens))
    by_tokens [] = (token_id prompt ∷ [], refl, ground (arith, token_id-proper prompt), omega arith)
    by_tokens (t ∷ ts) = (
      map token_id (t ∷ ts),
      refl,
      all_proper-map (t ∷ ts),
      omega (arith, length-map token_id ts),
    )
