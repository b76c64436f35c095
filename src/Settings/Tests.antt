-- ===== src/Settings/Tests.antt =====
-- The configuration (Settings) for concrete environments.
use laminar_inference.Base.{ℕ, ◌≡◌, refl, none, some, if◌then◌else◌}
use laminar_inference.Base.Int.{pos, negsuc}
use laminar_inference.Base.Text.{codes, str_eq}
use laminar_inference.Texts.{is_space, trim_left}
use laminar_inference.Texts.Kinds.{backend_kind_name}
use laminar_inference.Settings.Numbers.{
  is_digit, read_digits, read_number, negate, read_signed, strtol, clamp,
}
use laminar_inference.Settings.{
  Environment, Floats, linux, env_int, backend_config_from_env, kind_from_env,
}
use laminar_inference.Settings.Create.{create_backend, backend_name, backend_name-create_backend}
use laminar_inference.Settings.Bounds.{IsWithin, backend_config_from_env-IsWithin}

numbers : Unit {0}
unfolding is_digit read_digits read_number negate read_signed strtol trim_left is_space clamp
    env_int str_eq
numbers = tt

-- The hundredths themselves, and no text that is a number.
abbrev whole : Floats ℕ
whole = record {
  hundredths = λ n. n;
  parse = λ text. none;
  clamp_float = λ value minimum maximum. value;
}

abbrev large : Environment
large key =
    if str_eq key (codes "LAMINAR_TINY_LLM_TOP_K")
    then some (codes " -7")
    else if str_eq key (codes "LAMINAR_WORKER_BACKEND")
    then some (codes "GGUF")
    else some (codes "999999999")

reads :
    (strtol (codes " -12") ≡ some (negsuc 11))
    × (strtol (codes "12a") ≡ none)
    × (strtol (codes "+") ≡ none)
unfolding numbers
reads = (refl, refl, refl)

clamps :
    (env_int large (codes "LAMINAR_TINY_LLM_TOP_K") (pos 5) (pos 1) (pos 62) ≡ pos 1)
    × (env_int large (codes "LAMINAR_TINY_MODEL_ITERATIONS") (pos 8) (pos 1) (pos 1024) ≡ pos 1024)
unfolding numbers
clamps = (refl, refl)

backend_name-create_backend_example :
    backend_name (create_backend (backend_config_from_env whole linux large))
    ≡ backend_kind_name (kind_from_env large)
backend_name-create_backend_example = backend_name-create_backend whole linux large

backend_config_from_env-IsWithin_example :
    let c = backend_config_from_env whole linux large in
    IsWithin 0 60000 c.simulator_base_latency_ms
    × IsWithin 0 60000 c.simulator_per_request_latency_ms
    × IsWithin 1 1024 c.tiny_model_iterations
    × IsWithin 1 64 c.tiny_llm_max_generated_tokens
    × IsWithin 1 62 c.tiny_llm_top_k
    × IsWithin 1 1048576 c.continuous_max_prefill_tokens_per_step
    × IsWithin 1 1048576 c.continuous_max_decode_sequences_per_step
    × IsWithin 1 1048576 c.continuous_kv_cache_blocks
    × IsWithin 1 1048576 c.continuous_kv_block_tokens
    × IsWithin 0 1024 c.continuous_prefix_cache_tokens
    × IsWithin 1 4096 c.llama_cpp_max_tokens
    × IsWithin 128 262144 c.llama_cpp_context_size
    × IsWithin 0 1024 c.llama_cpp_threads
    × IsWithin 100 600000 c.llama_cpp_timeout_ms
    × IsWithin 1 4096 c.llama_server_max_tokens
    × IsWithin 100 600000 c.llama_server_timeout_ms
backend_config_from_env-IsWithin_example = backend_config_from_env-IsWithin whole linux large
