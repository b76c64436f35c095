-- ===== src/Tokens.antt =====
-- The tokens of the tiny models (backend/inference_backend.cc): `Tokenize`, `HashToken`,
-- `TokenizeForTinyLLM`, the vocabulary, `JoinGeneratedTokens` and `PrefixCacheKey`.
pub mod Words
pub mod Keys
pub mod Ids
mod Tests
use laminar_inference.Base.{
  ℕ, ◌+◌, ◌-◌, ◌*◌, ◌%◌, ◌^◌, Bool, true, false, ◌&&◌, ◌||◌, List, [], ◌∷◌, ◌++◌, map, Option, none,
  some, get_elem?, take, length, leb, ltb, if◌then◌else◌,
}
use laminar_inference.Base.Int.{ℤ, pos, pos_part, ltb_ℤ}
use laminar_inference.Base.Text.{Str, codes, is_empty}
use laminar_inference.Base.Decimal.{to_string}
use laminar_inference.Texts.{to_lower}
use Prim.Native.Nat.{bit_xor}

-- `std::isalnum` of the C locale
unfoldable pub is_alnum : ℕ → Bool
is_alnum c = (leb 48 c && leb c 57) || (leb 65 c && leb c 90) || (leb 97 c && leb c 122)

-- The loop of `Tokenize`, whose first argument is `token`.
unfoldable pub tokenize_from : Str → Str → List Str
tokenize_from token [] = if is_empty token then [] else token ∷ []
tokenize_from token (c ∷ cs) = elim (is_alnum c) [
  | true ↦ tokenize_from (token ++ to_lower c ∷ []) cs
  | false ↦ let rest = tokenize_from [] cs in if is_empty token then rest else token ∷ rest
]

unfoldable pub tokenize : Str → List Str
tokenize prompt = tokenize_from [] prompt

-- `HashToken` behind some bytes: `uint32_t` wraps around.
unfoldable pub hash_from : ℕ → Str → ℕ
hash_from hash [] = hash
hash_from hash (c ∷ cs) = hash_from (bit_xor hash c * 16777619 % 2 ^ 32) cs

unfoldable pub hash_token : Str → ℕ
hash_token token = hash_from 2166136261 token

-- `kTinyLLMVocabSize`
abbrev pub vocab_size : ℕ
vocab_size = 64

unfoldable pub token_id : Str → ℕ
token_id token = 2 + hash_token token % (vocab_size - 2)

unfoldable pub tokenize_for_tiny_llm : Str → List ℕ
tokenize_for_tiny_llm prompt = elim (map token_id (tokenize prompt)) [
  | [] ↦ 0 ∷ token_id prompt ∷ []
  | id ∷ ids ↦ 0 ∷ id ∷ ids
]

abbrev pub vocabulary : List Str
vocabulary =
    codes "<bos>"
    ∷ codes "<eos>"
    ∷ codes "batching"
    ∷ codes "latency"
    ∷ codes "throughput"
    ∷ codes "queue"
    ∷ codes "worker"
    ∷ codes "trace"
    ∷ codes "token"
    ∷ codes "prefill"
    ∷ codes "decode"
    ∷ codes "attention"
    ∷ codes "cache"
    ∷ codes "runtime"
    ∷ codes "model"
    ∷ codes "adaptive"
    ∷ codes "system"
    ∷ codes "request"
    ∷ codes "response"
    ∷ codes "metric"
    ∷ codes "collector"
    ∷ codes "span"
    ∷ codes "grpc"
    ∷ codes "http"
    ∷ codes "onnx"
    ∷ codes "scheduler"
    ∷ codes "load"
    ∷ codes "failure"
    ∷ codes "circuit"
    ∷ codes "prompt"
    ∷ codes "context"
    ∷ codes "generation"
    ∷ codes "quality"
    ∷ codes "safe"
    ∷ codes "fast"
    ∷ codes "deterministic"
    ∷ codes "serve"
    ∷ codes "inference"
    ∷ codes "pipeline"
    ∷ codes "parallel"
    ∷ codes "microbatch"
    ∷ codes "tail"
    ∷ codes "p50"
    ∷ codes "p95"
    ∷ codes "tokenizer"
    ∷ codes "embedding"
    ∷ codes "logit"
    ∷ codes "sample"
    ∷ codes "topk"
    ∷ codes "temperature"
    ∷ codes "hidden"
    ∷ codes "layer"
    ∷ codes "position"
    ∷ codes "causal"
    ∷ codes "benchmark"
    ∷ codes "evidence"
    ∷ codes "local"
    ∷ codes "hermetic"
    ∷ codes "control"
    ∷ codes "data"
    ∷ codes "engine"
    ∷ codes "memory"
    ∷ codes "compute"
    ∷ codes "finish"
    ∷ []

-- An entry of the vocabulary; the source reads none out of range.
unfoldable pub word_of : ℕ → Str
word_of id = elim (get_elem? vocabulary id) [ none ↦ [] | some word ↦ word ]

-- The loop of `JoinGeneratedTokens` over the words.
unfoldable pub join_words : List Str → Str
join_words [] = []
join_words (word ∷ words) = elim words [ [] ↦ word | w ∷ ws ↦ word ++ 32 ∷ join_words words ]

unfoldable pub join_generated_tokens : List ℕ → Str
join_generated_tokens token_ids = join_words (map word_of token_ids)

unfoldable pub key_tail : List ℕ → Str
key_tail [] = []
key_tail (id ∷ ids) = 58 ∷ to_string id ++ key_tail ids

unfoldable pub prefix_cache_key : List ℕ → ℤ → Str
prefix_cache_key token_ids prefix_cache_tokens =
    if ltb 0 (pos_part prefix_cache_tokens)
    then (if ltb (length token_ids) (pos_part prefix_cache_tokens)
        then []
        else codes "tiny_llm" ++ key_tail (take (pos_part prefix_cache_tokens) token_ids))
    else []
