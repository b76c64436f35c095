-- ===== src/Settings/Bounds.antt =====
-- The numbers of the configuration (Settings) against the bounds of their settings.
use laminar_inference.Base.{ℕ, ◌≡◌, ◌≤◌, refl, if-elim, Option-cases, inl, inr, arith}
use laminar_inference.Base.Int.{ℤ, pos, negsuc, pos_part}
use laminar_inference.Base.Text.{Str, codes, is_empty}
use laminar_inference.Settings.Numbers.{strtol, clamp}
use laminar_inference.Settings.{Environment, Floats, Platform, env_int, backend_config_from_env}

-- A number from `lo` to `hi`, which is not negative.
abbrev pub IsWithin : ℕ → ℕ → ℤ → Type 0
IsWithin lo hi value =
    (value ≡ pos (pos_part value)) × (lo ≤ pos_part value) × (pos_part value ≤ hi)

clamp-IsWithin : (value : ℤ) (lo hi : ℕ) → lo ≤ hi → IsWithin lo hi (clamp value (pos lo) (pos hi))
unfolding clamp
clamp-IsWithin (pos n) lo hi h = ground arith
clamp-IsWithin (negsuc n) lo hi h = ground arith

pub env_int-IsWithin :
    (env : Environment) (key : Str) (fallback lo hi : ℕ)
    → lo ≤ fallback
    → fallback ≤ hi
    → IsWithin lo hi (env_int env key (pos fallback) (pos lo) (pos hi))
unfolding env_int
env_int-IsWithin env key fallback lo hi a b = elim (Option-cases (env key)) [
  | inl e ↦ rw (e, env_int) (refl, a, b)
  | inr (raw, e) ↦
      rw (e, env_int)
        (if-elim (IsWithin lo hi) (is_empty raw) (λ f. (refl, a, b))
          (λ f. elim (Option-cases (strtol raw)) [
            | inl g ↦ rw g (refl, a, b)
            | inr (value, g) ↦ rw g (clamp-IsWithin value lo hi (omega arith))
          ]))
]

-- Every whole number of the configuration lies within the bounds of its setting, whatever the environment
-- holds for it: nothing, a text that is no number, or a number outside the bounds.
pub backend_config_from_env-IsWithin :
    {F : Type 0} (floats : Floats F) (platform : Platform) (env : Environment)
    → let c = backend_config_from_env floats platform env in
      IsWithin 0 60000 c.simulator_base_latency_ms
      × IsWithin 0 60000 c.simulator_per_request_latency_ms
      × IsWithin 1 1024 c.tiny_model_iterations
      × IsWithin 1 64 c.tiny_llm_max_generated_tokens
      × IsWithin 1 62 c.tiny_llm_top_k
      × IsWithin 1 1048576 c.continuous_max_prefill_tokens_per_step
      × IsWithin 1 1048576 c.continuous_max_decode_sequences_per_step
      × IsWithin 1 1048576 c.continuous_kv_cache_blocks
      × IsWithin 1 1048576 c.continuous_kv_block_tokens
      × IsWithin 0 1024 c.continuous_prefix_cache_tokens
      × IsWithin 1 4096 c.llama_cpp_max_tokens
      × IsWithin 128 262144 c.llama_cpp_context_size
      × IsWithin 0 1024 c.llama_cpp_threads
      × IsWithin 100 600000 c.llama_cpp_timeout_ms
      × IsWithin 1 4096 c.llama_server_max_tokens
      × IsWithin 100 600000 c.llama_server_timeout_ms
unfolding backend_config_from_env
backend_config_from_env-IsWithin floats platform env = (
  env_int-IsWithin env (codes "LAMINAR_SIMULATOR_BASE_LATENCY_MS") 20 0 60000 (omega arith)
      (omega arith),
  env_int-IsWithin env (codes "LAMINAR_SIMULATOR_PER_REQUEST_LATENCY_MS") 5 0 60000 (omega arith)
      (omega arith),
  env_int-IsWithin env (codes "LAMINAR_TINY_MODEL_ITERATIONS") 8 1 1024 (omega arith) (omega arith),
  env_int-IsWithin env (codes "LAMINAR_TINY_LLM_MAX_GENERATED_TOKENS") 12 1 64 (omega arith)
      (omega arith),
  env_int-IsWithin env (codes "LAMINAR_TINY_LLM_TOP_K") 5 1 62 (omega arith) (omega arith),
  env_int-IsWithin env (codes "LAMINAR_CONTINUOUS_MAX_PREFILL_TOKENS_PER_STEP") 32 1 1048576
      (omega arith) (omega arith),
  env_int-IsWithin env (codes "LAMINAR_CONTINUOUS_MAX_DECODE_SEQUENCES_PER_STEP") 8 1 1048576
      (omega arith) (omega arith),
  env_int-IsWithin env (codes "LAMINAR_CONTINUOUS_KV_CACHE_BLOCKS") 512 1 1048576 (omega arith)
      (omega arith),
  env_int-IsWithin env (codes "LAMINAR_CONTINUOUS_KV_BLOCK_TOKENS") 16 1 1048576 (omega arith)
      (omega arith),
  env_int-IsWithin env (codes "LAMINAR_CONTINUOUS_PREFIX_CACHE_TOKENS") 2 0 1024 (omega arith)
      (omega arith),
  env_int-IsWithin env (codes "LAMINAR_LLAMA_CPP_MAX_TOKENS") 64 1 4096 (omega arith) (omega arith),
  env_int-IsWithin env (codes "LAMINAR_LLAMA_CPP_CONTEXT_SIZE") 2048 128 262144 (omega arith)
      (omega arith),
  env_int-IsWithin env (codes "LAMINAR_LLAMA_CPP_THREADS") 0 0 1024 (omega arith) (omega arith),
  env_int-IsWithin env (codes "LAMINAR_LLAMA_CPP_TIMEOUT_MS") 120000 100 600000 (omega arith)
      (omega arith),
  env_int-IsWithin env (codes "LAMINAR_LLAMA_SERVER_MAX_TOKENS") 64 1 4096 (omega arith)
      (omega arith),
  env_int-IsWithin env (codes "LAMINAR_LLAMA_SERVER_TIMEOUT_MS") 120000 100 600000 (omega arith)
      (omega arith),
)
