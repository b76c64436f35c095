-- ===== src/Settings/Create.antt =====
-- `CreateBackend` (backend/inference_backend.cc): the backend that a configuration asks for, with the
-- arguments of its constructor, and the backends' `Name`.
use laminar_inference.Base.{Bool, ◌≡◌, refl}
use laminar_inference.Base.Int.{ℤ}
use laminar_inference.Base.Text.{Str, codes}
use laminar_inference.Texts.Kinds.{
  BackendKind, simulator, tiny_text_model, tiny_llm, continuous_tiny_llm, onnx_runtime, llama_cpp,
  llama_server, backend_kind_name,
}
use laminar_inference.Settings.{
  BackendConfig, Environment, Floats, Platform, kind_from_env, backend_config_from_env,
}

-- The calls of the constructors.
pub data Backend (F : Type 0) : Type 0 where
  simulator_backend : ℤ → ℤ → Backend F
  tiny_text_model_backend : ℤ → Backend F
  tiny_llm_backend : ℤ → F → ℤ → Backend F
  continuous_tiny_llm_backend : ℤ → F → ℤ → ℤ → ℤ → ℤ → ℤ → ℤ → Backend F
  onnx_runtime_backend : Str → Str → Backend F
  llama_cpp_backend : Str → Str → ℤ → ℤ → ℤ → F → ℤ → Backend F
  llama_server_backend : Str → ℤ → F → ℤ → Bool → Bool → Bool → Backend F

unfoldable pub create_backend_of : {F : Type 0} → BackendKind → BackendConfig F → Backend F
create_backend_of llama_server c =
    llama_server_backend c.llama_server_url c.llama_server_max_tokens c.llama_server_temperature
      c.llama_server_timeout_ms c.llama_server_cache_prompt c.llama_server_stream
      c.llama_server_timings_per_token
create_backend_of llama_cpp c =
    llama_cpp_backend c.llama_cpp_binary_path c.llama_cpp_model_path c.llama_cpp_max_tokens
      c.llama_cpp_context_size c.llama_cpp_threads c.llama_cpp_temperature c.llama_cpp_timeout_ms
create_backend_of onnx_runtime c =
    onnx_runtime_backend c.onnx_model_path c.onnx_runtime_library_path
create_backend_of continuous_tiny_llm c =
    continuous_tiny_llm_backend c.tiny_llm_max_generated_tokens c.tiny_llm_temperature
      c.tiny_llm_top_k c.continuous_max_prefill_tokens_per_step
      c.continuous_max_decode_sequences_per_step c.continuous_kv_cache_blocks
      c.continuous_kv_block_tokens c.continuous_prefix_cache_tokens
create_backend_of tiny_llm c =
    tiny_llm_backend c.tiny_llm_max_generated_tokens c.tiny_llm_temperature c.tiny_llm_top_k
create_backend_of tiny_text_model c = tiny_text_model_backend c.tiny_model_iterations
create_backend_of simulator c =
    simulator_backend c.simulator_base_latency_ms c.simulator_per_request_latency_ms

unfoldable pub create_backend : {F : Type 0} → BackendConfig F → Backend F
create_backend config = create_backend_of config.kind config

unfoldable pub backend_name : {F : Type 0} → Backend F → Str
backend_name (simulator_backend a b) = codes "simulator"
backend_name (tiny_text_model_backend a) = codes "tiny_text_model"
backend_name (tiny_llm_backend a b c) = codes "tiny_llm"
backend_name (continuous_tiny_llm_backend a b c d e f g h) = codes "continuous_tiny_llm"
backend_name (onnx_runtime_backend a b) = codes "onnx"
backend_name (llama_cpp_backend a b c d e f g) = codes "llama_cpp"
backend_name (llama_server_backend a b c d e f g) = codes "llama_server"

backend_name-create_backend_of :
    {F : Type 0} (kind : BackendKind) (config : BackendConfig F)
    → backend_name (create_backend_of kind config) ≡ backend_kind_name kind
unfolding backend_name create_backend_of backend_kind_name
backend_name-create_backend_of simulator config = refl
backend_name-create_backend_of tiny_text_model config = refl
backend_name-create_backend_of tiny_llm config = refl
backend_name-create_backend_of continuous_tiny_llm config = refl
backend_name-create_backend_of onnx_runtime config = refl
backend_name-create_backend_of llama_cpp config = refl
backend_name-create_backend_of llama_server config = refl

-- The backend that the environment's configuration creates has the name of the kind that
-- `LAMINAR_WORKER_BACKEND` asks for, whatever the other variables hold.
pub backend_name-create_backend :
    {F : Type 0} (floats : Floats F) (platform : Platform) (env : Environment)
    → backend_name (create_backend (backend_config_from_env floats platform env))
      ≡ backend_kind_name (kind_from_env env)
unfolding create_backend backend_config_from_env
backend_name-create_backend floats platform env =
    backend_name-create_backend_of (kind_from_env env) (backend_config_from_env floats platform env)
