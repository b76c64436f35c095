-- ===== src/Texts/Tests.antt =====
-- The text helpers (Texts) on concrete texts.
use laminar_inference.Base.{◌≡◌, refl, true, false, [], ◌∷◌, ◌++◌, some}
use laminar_inference.Base.Text.{Str, codes}
use laminar_inference.Texts.{
  is_space, to_lower, trim_left, trim_right, trim_whitespace, lower, trim_lower, collapse,
  collapse_whitespace, escape_single_quoted,
}
use laminar_inference.Texts.Json.{extract_json_string_field}
use laminar_inference.Texts.Kinds.{
  llama_cpp, parse_backend_kind, backend_kind_name, parse_backend_kind-backend_kind_name,
}
use laminar_inference.Texts.Escaped.{
  read_back, content_object, extract_json_string_field-content, extract_json_string_field_roundtrip,
}
use laminar_inference.Texts.Trimmed.{
  all_space, starts_with_space, ends_with_space, trim_whitespace_frame,
}

collapses : collapse_whitespace (codes "  a \t b ") ≡ codes "a b"
unfolding collapse_whitespace collapse trim_whitespace trim_left trim_right is_space
collapses = refl

escapes : escape_single_quoted (codes "it's\n") ≡ codes "it\\'s "
unfolding escape_single_quoted
escapes = refl

lowers : trim_lower (codes " GGUF\n") ≡ codes "gguf"
unfolding trim_lower lower to_lower trim_whitespace trim_left trim_right is_space
lowers = refl

parse_backend_kind-backend_kind_name_example :
    parse_backend_kind (backend_kind_name llama_cpp) ≡ llama_cpp
parse_backend_kind-backend_kind_name_example = parse_backend_kind-backend_kind_name llama_cpp

-- A line feed, a quote and a backspace.
abbrev answer : Str
answer = 10 ∷ 34 ∷ 8 ∷ []

extract_json_string_field-content_example :
    extract_json_string_field (content_object answer (codes "}")) (codes "content")
    ≡ some (read_back answer)
extract_json_string_field-content_example = extract_json_string_field-content answer (codes "}")

abbrev reply : Str
reply = codes "say \"hi\"\n"

extract_json_string_field_roundtrip_example :
    extract_json_string_field (content_object reply (codes "}")) (codes "content") ≡ some reply
extract_json_string_field_roundtrip_example =
    extract_json_string_field_roundtrip reply (codes "}") refl

trim_whitespace_frame_example :
    (before : Str) × (after : Str) × (codes " a b\n"
      ≡ before ++ (trim_whitespace (codes " a b\n") ++ after))
    × (all_space before ≡ true)
    × (all_space after ≡ true)
    × (starts_with_space (trim_whitespace (codes " a b\n")) ≡ false)
    × (ends_with_space (trim_whitespace (codes " a b\n")) ≡ false)
trim_whitespace_frame_example = trim_whitespace_frame (codes " a b\n")
