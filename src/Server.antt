-- ===== src/Server.antt =====
-- `LlamaServerBackend` (backend/inference_backend.cc): its constructor and the texts that it writes: the
-- body of a request, an output and its metadata. A `float` is only clamped and printed here.
pub mod Calls
pub mod Bodies
pub mod Errors
pub mod Agreement
mod Tests
use laminar_inference.Base.{ℕ, Bool, true, false, [], ◌∷◌, ◌++◌}
use laminar_inference.Base.Int.{ℤ, pos}
use laminar_inference.Base.Text.{Str, codes}
use laminar_inference.Base.Decimal.{to_string, int_to_string}
use laminar_inference.Base.Assoc.{Map}
use laminar_inference.Texts.{escape_single_quoted}
use laminar_inference.Texts.Json.{json_string_value}
use laminar_inference.Settings.{Floats}
use laminar_inference.Settings.Numbers.{clamp}
use laminar_inference.Backends.{map_of}
use laminar_inference.Client.Answers.{LlamaServerCompletion}

pub record LlamaServerBackend (F : Type 0) : Type 0 where
  pub server_url : Str
  pub max_tokens : ℤ
  pub temperature : F
  pub timeout_ms : ℤ
  pub cache_prompt : Bool
  pub stream : Bool
  pub timings_per_token : Bool

-- The constructor.
unfoldable pub make_llama_server :
    {F : Type 0} → Floats F → Str → ℤ → F → ℤ → Bool → Bool → Bool → LlamaServerBackend F
make_llama_server floats url max_tokens temperature timeout_ms cache_prompt stream timings =
    record {
      server_url = url;
      max_tokens = clamp max_tokens (pos 1) (pos 4096);
      temperature = floats.clamp_float temperature (floats.hundredths 0) (floats.hundredths 200);
      timeout_ms = clamp timeout_ms (pos 100) (pos 600000);
      cache_prompt = cache_prompt;
      stream = stream;
      timings_per_token = timings;
    }

unfoldable pub bool_to_json : Bool → Str
bool_to_json true = codes "true"
bool_to_json false = codes "false"

-- `FloatToString` is a parameter, `float_to_string`.
unfoldable pub build_llama_server_request_body :
    {F : Type 0} → (F → Str) → Str → ℤ → F → Bool → Bool → Bool → Str
build_llama_server_request_body float_to_string prompt max_tokens temperature cache_prompt stream
      timings_per_token =
    codes "{\"prompt\":"
    ++ (json_string_value prompt
        ++ (codes ",\"n_predict\":"
            ++ int_to_string max_tokens
            ++ codes ",\"temperature\":"
            ++ float_to_string temperature
            ++ codes ",\"stream\":"
            ++ bool_to_json stream
            ++ codes ",\"cache_prompt\":"
            ++ bool_to_json cache_prompt
            ++ codes ",\"return_tokens\":"
            ++ bool_to_json timings_per_token
            ++ codes ",\"timings_per_token\":"
            ++ bool_to_json timings_per_token
            ++ codes "}"))

unfoldable pub build_llama_server_metadata :
    Bool → Bool → Bool → LlamaServerCompletion → ℕ → ℕ → ℤ → Map Str
build_llama_server_metadata stream cache_prompt timings_per_token completion prompt_chars
      generated_chars ttft_micros =
    map_of (
      (codes "stream", bool_to_json stream)
      ∷ (codes "cache_prompt", bool_to_json cache_prompt)
      ∷ (codes "timings_per_token", bool_to_json timings_per_token)
      ∷ (codes "stream_chunks", to_string completion.stream_chunks)
      ∷ (codes "ttft_micros", int_to_string ttft_micros)
      ∷ (codes "tokens_predicted", int_to_string completion.tokens_predicted)
      ∷ (codes "tokens_evaluated", int_to_string completion.tokens_evaluated)
      ∷ (codes "prompt_chars", to_string prompt_chars)
      ∷ (codes "generated_chars", to_string generated_chars)
      ∷ [])

-- The numbers of one answer that its output names, beside those of the backend.
pub record Measured : Type 0 where
  pub prompt_chars : ℕ
  pub generated_chars : ℕ
  pub duration_micros : ℕ
  pub batch_size : ℕ
  pub ttft_micros : ℤ

-- The parameters of the source that are fields of the backend are read from it.
unfoldable pub format_llama_server_output :
    {F : Type 0}
    → (F → Str)
    → LlamaServerBackend F
    → Str
    → Str
    → Bool
    → Measured
    → LlamaServerCompletion
    → Str
format_llama_server_output float_to_string backend generated endpoint stream m completion =
    codes "LlamaServer(backend=llama_server, generated='"
    ++ escape_single_quoted generated
    ++ codes "', prompt_chars="
    ++ to_string m.prompt_chars
    ++ codes ", generated_chars="
    ++ to_string m.generated_chars
    ++ codes ", duration_micros="
    ++ to_string m.duration_micros
    ++ codes ", batch_size="
    ++ to_string m.batch_size
    ++ codes ", endpoint='"
    ++ escape_single_quoted endpoint
    ++ codes "'"
    ++ codes ", max_tokens="
    ++ int_to_string backend.max_tokens
    ++ codes ", temperature="
    ++ float_to_string backend.temperature
    ++ codes ", cache_prompt="
    ++ bool_to_json backend.cache_prompt
    ++ codes ", stream="
    ++ bool_to_json stream
    ++ codes ", timings_per_token="
    ++ bool_to_json backend.timings_per_token
    ++ codes ", stream_chunks="
    ++ to_string completion.stream_chunks
    ++ codes ", ttft_micros="
    ++ int_to_string m.ttft_micros
    ++ codes ", tokens_predicted="
    ++ int_to_string completion.tokens_predicted
    ++ codes ", tokens_evaluated="
    ++ int_to_string completion.tokens_evaluated
    ++ codes ")"
