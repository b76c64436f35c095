-- ===== src/Server/Bodies.antt =====
-- What a reader makes of the body of a request (Server).
use mathlib.Core.List.{append_assoc}
use laminar_inference.Base.{◌≡◌, ap, ◌∙◌, Bool, true, [], ◌∷◌, ◌++◌, some}
use laminar_inference.Base.Int.{ℤ}
use laminar_inference.Base.Text.{Str, codes}
use laminar_inference.Texts.{is_space}
use laminar_inference.Texts.Json.{
  json_string_value, json_escape, after_first, strip_prefix, skip_spaces, read_value,
  extract_json_string_field,
}
use laminar_inference.Texts.Escaped.{
  read_back, all_readable, read_string-json_escape, read_back-readable,
}
use laminar_inference.Server.{build_llama_server_request_body}

prompt_first :
    (prompt rest : Str)
    → extract_json_string_field
        (codes "{\"prompt\":" ++ (json_string_value prompt ++ rest))
        (codes "prompt")
      ≡ some (read_back prompt)
unfolding extract_json_string_field json_string_value after_first strip_prefix skip_spaces
    read_value is_space
prompt_first prompt rest =
    rw (append_assoc (json_escape prompt) (34 ∷ []) rest) (read_string-json_escape prompt rest)

-- From the body of a request, `ExtractJsonStringField` reads back the prompt, quotes and braces included,
-- where it has no control characters other than tab, line feed and carriage return; a field `prompt` that
-- the prompt itself spells is not taken for it.
pub extract_json_string_field-build_llama_server_request_body :
    {F : Type 0} (float_to_string : F → Str) (prompt : Str) (max_tokens : ℤ) (temperature : F)
    (cache_prompt stream timings_per_token : Bool)
    → all_readable prompt ≡ true
    → extract_json_string_field
        (build_llama_server_request_body float_to_string prompt max_tokens temperature cache_prompt
          stream timings_per_token)
        (codes "prompt")
      ≡ some prompt
unfolding build_llama_server_request_body
extract_json_string_field-build_llama_server_request_body float_to_string prompt max_tokens
      temperature cache_prompt stream timings_per_token h =
    prompt_first prompt _ ∙ ap some (read_back-readable prompt h)
