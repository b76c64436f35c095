-- ===== src/Settings.antt =====
-- The configuration of the worker's backend, from the environment to the chosen backend
-- (backend/inference_backend.h and .cc). The environment is a function, as `std::getenv` is; floating-point
-- numbers are a type with the three operations that the code uses of them.
pub mod Numbers
pub mod Create
pub mod Bounds
mod Tests
use laminar_inference.Base.{ℕ, Bool, true, false, Option, none, some, List, [], ◌∷◌, if◌then◌else◌}
use laminar_inference.Base.Int.{ℤ, pos}
use laminar_inference.Base.Text.{Str, codes, is_empty, str_eq}
use laminar_inference.Texts.{trim_lower}
use laminar_inference.Texts.Kinds.{BackendKind, simulator, one_of, parse_backend_kind}
use Numbers.{strtol, clamp}

abbrev pub Environment : Type 0
Environment = Str → Option Str

-- The operations on `float`: a literal by its hundredths, `strtof` with a finite value for a whole text,
-- and `std::clamp`.
pub record Floats (F : Type 0) : Type 0 where
  pub hundredths : ℕ → F
  pub parse : Str → Option F
  pub clamp_float : F → F → F → F

unfoldable pub env_string : Environment → Str → Str → Str
env_string env key fallback = elim (env key) [
  | none ↦ fallback
  | some raw ↦ if is_empty raw then fallback else raw
]

unfoldable pub env_int : Environment → Str → ℤ → ℤ → ℤ → ℤ
env_int env key fallback minimum maximum = elim (env key) [
  | none ↦ fallback
  | some raw ↦
      if is_empty raw
      then fallback
      else elim (strtol raw) [ none ↦ fallback | some value ↦ clamp value minimum maximum ]
]

unfoldable pub env_float : {F : Type 0} → Floats F → Environment → Str → F → F → F → F
env_float floats env key fallback minimum maximum = elim (env key) [
  | none ↦ fallback
  | some raw ↦ if is_empty raw then fallback else elim (floats.parse raw) [
    | none ↦ fallback
    | some value ↦ floats.clamp_float value minimum maximum
  ]
]

-- `EnvBool` of a text that is not empty.
unfoldable pub parse_bool : Str → Bool → Bool
parse_bool raw fallback =
    let value = trim_lower raw in
    if one_of value (codes "1" ∷ codes "true" ∷ codes "yes" ∷ codes "on" ∷ [])
    then true
    else if one_of value (codes "0" ∷ codes "false" ∷ codes "no" ∷ codes "off" ∷ [])
    then false
    else fallback

unfoldable pub env_bool : Environment → Str → Bool → Bool
env_bool env key fallback = elim (env key) [
  | none ↦ fallback
  | some raw ↦ if is_empty raw then fallback else parse_bool raw fallback
]

pub record BackendConfig (F : Type 0) : Type 0 where
  pub kind : BackendKind
  pub simulator_base_latency_ms : ℤ
  pub simulator_per_request_latency_ms : ℤ
  pub tiny_model_iterations : ℤ
  pub tiny_llm_max_generated_tokens : ℤ
  pub tiny_llm_top_k : ℤ
  pub tiny_llm_temperature : F
  pub continuous_max_prefill_tokens_per_step : ℤ
  pub continuous_max_decode_sequences_per_step : ℤ
  pub continuous_kv_cache_blocks : ℤ
  pub continuous_kv_block_tokens : ℤ
  pub continuous_prefix_cache_tokens : ℤ
  pub onnx_model_path : Str
  pub onnx_runtime_library_path : Str
  pub llama_cpp_binary_path : Str
  pub llama_cpp_model_path : Str
  pub llama_cpp_max_tokens : ℤ
  pub llama_cpp_context_size : ℤ
  pub llama_cpp_threads : ℤ
  pub llama_cpp_temperature : F
  pub llama_cpp_timeout_ms : ℤ
  pub llama_server_url : Str
  pub llama_server_max_tokens : ℤ
  pub llama_server_temperature : F
  pub llama_server_timeout_ms : ℤ
  pub llama_server_cache_prompt : Bool
  pub llama_server_stream : Bool
  pub llama_server_timings_per_token : Bool

pub data Platform : Type 0 where
  apple linux other : Platform

unfoldable pub default_onnx_runtime_library_path : Platform → Str
default_onnx_runtime_library_path apple = codes "third_party/onnxruntime/lib/libonnxruntime.dylib"
default_onnx_runtime_library_path linux = codes "third_party/onnxruntime/lib/libonnxruntime.so"
default_onnx_runtime_library_path other = codes "libonnxruntime"

unfoldable pub kind_from_env : Environment → BackendKind
kind_from_env env = elim (env (codes "LAMINAR_WORKER_BACKEND")) [
  | none ↦ simulator
  | some backend ↦ parse_backend_kind backend
]

unfoldable pub backend_config_from_env :
    {F : Type 0} → Floats F → Platform → Environment → BackendConfig F
backend_config_from_env floats platform env =
    let int = λ (key : Str) (fallback minimum maximum : ℕ).
      env_int env key (pos fallback) (pos minimum) (pos maximum) in
    let float = λ (key : Str) (fallback minimum maximum : ℕ).
      env_float floats env key (floats.hundredths fallback) (floats.hundredths minimum)
        (floats.hundredths maximum) in
    record {
      kind = kind_from_env env;
      simulator_base_latency_ms = int (codes "LAMINAR_SIMULATOR_BASE_LATENCY_MS") 20 0 60000;
      simulator_per_request_latency_ms =
          int (codes "LAMINAR_SIMULATOR_PER_REQUEST_LATENCY_MS") 5 0 60000;
      tiny_model_iterations = int (codes "LAMINAR_TINY_MODEL_ITERATIONS") 8 1 1024;
      tiny_llm_max_generated_tokens = int (codes "LAMINAR_TINY_LLM_MAX_GENERATED_TOKENS") 12 1 64;
      tiny_llm_top_k = int (codes "LAMINAR_TINY_LLM_TOP_K") 5 1 62;
      tiny_llm_temperature = float (codes "LAMINAR_TINY_LLM_TEMPERATURE") 80 5 200;
      continuous_max_prefill_tokens_per_step =
          int (codes "LAMINAR_CONTINUOUS_MAX_PREFILL_TOKENS_PER_STEP") 32 1 1048576;
      continuous_max_decode_sequences_per_step =
          int (codes "LAMINAR_CONTINUOUS_MAX_DECODE_SEQUENCES_PER_STEP") 8 1 1048576;
      continuous_kv_cache_blocks = int (codes "LAMINAR_CONTINUOUS_KV_CACHE_BLOCKS") 512 1 1048576;
      continuous_kv_block_tokens = int (codes "LAMINAR_CONTINUOUS_KV_BLOCK_TOKENS") 16 1 1048576;
      continuous_prefix_cache_tokens =
          int (codes "LAMINAR_CONTINUOUS_PREFIX_CACHE_TOKENS") 2 0 1024;
      onnx_model_path =
          env_string env (codes "LAMINAR_ONNX_MODEL_PATH") (codes "models/logreg_iris.onnx");
      onnx_runtime_library_path =
          env_string env (codes "LAMINAR_ONNX_RUNTIME_LIB")
            (default_onnx_runtime_library_path platform);
      llama_cpp_binary_path = env_string env (codes "LAMINAR_LLAMA_CPP_BINARY") (codes "llama-cli");
      llama_cpp_model_path = env_string env (codes "LAMINAR_LLAMA_CPP_MODEL") [];
      llama_cpp_max_tokens = int (codes "LAMINAR_LLAMA_CPP_MAX_TOKENS") 64 1 4096;
      llama_cpp_context_size = int (codes "LAMINAR_LLAMA_CPP_CONTEXT_SIZE") 2048 128 262144;
      llama_cpp_threads = int (codes "LAMINAR_LLAMA_CPP_THREADS") 0 0 1024;
      llama_cpp_temperature = float (codes "LAMINAR_LLAMA_CPP_TEMPERATURE") 70 0 200;
      llama_cpp_timeout_ms = int (codes "LAMINAR_LLAMA_CPP_TIMEOUT_MS") 120000 100 600000;
      llama_server_url =
          env_string env (codes "LAMINAR_LLAMA_SERVER_URL")
            (codes "http://127.0.0.1:8080/completion");
      llama_server_max_tokens = int (codes "LAMINAR_LLAMA_SERVER_MAX_TOKENS") 64 1 4096;
      llama_server_temperature = float (codes "LAMINAR_LLAMA_SERVER_TEMPERATURE") 70 0 200;
      llama_server_timeout_ms = int (codes "LAMINAR_LLAMA_SERVER_TIMEOUT_MS") 120000 100 600000;
      llama_server_cache_prompt = env_bool env (codes "LAMINAR_LLAMA_SERVER_CACHE_PROMPT") true;
      llama_server_stream = env_bool env (codes "LAMINAR_LLAMA_SERVER_STREAM") true;
      llama_server_timings_per_token =
          env_bool env (codes "LAMINAR_LLAMA_SERVER_TIMINGS_PER_TOKEN") true;
    }
