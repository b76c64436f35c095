-- ===== src/Tokens/Tests.antt =====
-- The tokens of the tiny models (Tokens) on small prompts.
use laminar_inference.Base.{ℕ, ◌≡◌, ◌↔◌, refl, true, List, [], ◌∷◌, map, take, length, arith}
use Prim.Native.Nat.{max}
use laminar_inference.Base.Int.{pos}
use laminar_inference.Base.Text.{codes}
use laminar_inference.Base.Decimal.{to_string, print_digits}
use laminar_inference.Texts.{to_lower}
use laminar_inference.Tokens.{
  is_alnum, tokenize_from, tokenize, hash_from, hash_token, tokenize_for_tiny_llm, word_of,
  join_words, join_generated_tokens, prefix_cache_key, key_tail,
}
use laminar_inference.Tokens.Words.{
  all_words, all_proper, tokenize-join_words, tokenize-join_generated_tokens,
}
use laminar_inference.Tokens.Ids.{tokenize_for_tiny_llm-proper}
use laminar_inference.Tokens.Keys.{prefix_cache_key_injective}

splits : tokenize (codes "KV-cache, p95!") ≡ codes "kv" ∷ codes "cache" ∷ codes "p95" ∷ []
unfolding tokenize tokenize_from is_alnum to_lower
splits = refl

-- The offset basis of FNV-1a, and its value for one letter.
hashes : (hash_token [] ≡ 2166136261) × (hash_token (codes "a") ≡ 3826002220)
unfolding hash_token hash_from
hashes = (refl, refl)

keys : prefix_cache_key (0 ∷ 12 ∷ 7 ∷ []) (pos 2) ≡ codes "tiny_llm:0:12"
unfolding prefix_cache_key key_tail to_string print_digits
keys = refl

tokenize-join_words_example :
    (all_words (tokenize (codes "KV-cache, p95!")) ≡ true)
    × (tokenize (join_words (tokenize (codes "KV-cache, p95!")))
        ≡ tokenize (codes "KV-cache, p95!"))
tokenize-join_words_example = tokenize-join_words (codes "KV-cache, p95!")

tokenize-join_generated_tokens_example :
    tokenize (join_generated_tokens (12 ∷ 63 ∷ 42 ∷ [])) ≡ map word_of (12 ∷ 63 ∷ 42 ∷ [])
tokenize-join_generated_tokens_example = tokenize-join_generated_tokens (12 ∷ 63 ∷ 42 ∷ []) refl

tokenize_for_tiny_llm-proper_example :
    (ids : List ℕ) × (tokenize_for_tiny_llm (codes "...") ≡ 0 ∷ ids)
    × (all_proper ids ≡ true)
    × (length ids ≡ max 1 (length (tokenize (codes "..."))))
tokenize_for_tiny_llm-proper_example = tokenize_for_tiny_llm-proper (codes "...")

prefix_cache_key_injective_example :
    (prefix_cache_key (0 ∷ 12 ∷ 7 ∷ []) (pos 2) ≡ prefix_cache_key (0 ∷ 12 ∷ 9 ∷ []) (pos 2))
    ↔ (take {A = ℕ} 2 (0 ∷ 12 ∷ 7 ∷ []) ≡ take 2 (0 ∷ 12 ∷ 9 ∷ []))
prefix_cache_key_injective_example =
    prefix_cache_key_injective (0 ∷ 12 ∷ 7 ∷ []) (0 ∷ 12 ∷ 9 ∷ []) 2 (omega arith) (omega arith)
      (omega arith)
