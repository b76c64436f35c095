-- ===== src/Client/Answers/Streamed.antt =====
-- What `ParseLlamaServerCompletion` (Answers) makes of a stream of events.
use mathlib.Core.List.{append_assoc, append-nil}
use laminar_inference.Base.{
  ℕ, ◌+◌, ◌≡◌, refl, sym, ap, ◌∙◌, Bool, true, false, ◌&&◌, List, [], ◌∷◌, ◌++◌, some, length,
  arith,
}
use laminar_inference.Base.Text.{Str, codes, str_eq}
use laminar_inference.Texts.{is_space, trim_left, trim_right, trim_whitespace}
use laminar_inference.Texts.Json.{strip_prefix, json_string_value, json_escape}
use laminar_inference.Texts.Escaped.{
  content_object, all_readable, extract_json_string_field_roundtrip,
}
use laminar_inference.Texts.Trimmed.{ends_with_space, trim_right_same}
use laminar_inference.Client.Urls.{lacks}
use laminar_inference.Client.Output.{concat}
use laminar_inference.Base.{◌==◌}
use laminar_inference.Texts.Json.{json_escape_char, hex_digit}
use laminar_inference.Client.Answers.{
  lines_of, parse_llama_server_completion, no_completion, LlamaServerChunk, LlamaServerCompletion,
  parse_llama_server_chunk, merge_llama_server_json_chunk, merge_line, merge_lines,
}

-- The payload of an event, and its line.
abbrev pub payload_of : Str → Str
payload_of value = content_object value (codes "}")

abbrev pub event_of : Str → Str
event_of value = codes "data: " ++ payload_of value

-- A text that ends in a brace ends in no space.
brace_ends : (s : Str) → ends_with_space (s ++ codes "}") ≡ false
unfolding is_space
brace_ends [] = refl
brace_ends (c ∷ []) = refl
brace_ends (c ∷ d ∷ s) = brace_ends (d ∷ s)

trim_right_brace : (s : Str) → trim_right (s ++ codes "}") ≡ s ++ codes "}"
trim_right_brace s = trim_right_same (s ++ codes "}") (brace_ends s)

trim_whitespace-payload_of : (value : Str) → trim_whitespace (payload_of value) ≡ payload_of value
unfolding trim_whitespace trim_left is_space
trim_whitespace-payload_of value =
    trim_right_brace (codes "{\"content\":" ++ json_string_value value)

-- A chunk with content that is no end of the stream.
record Carries (chunk : LlamaServerChunk) (value : Str) : Type 0 where
  going : chunk.done ≡ false
  has_content : chunk.has_content ≡ true
  content : chunk.content ≡ value

is_done-payload_of : (value : Str) → str_eq (payload_of value) (codes "[DONE]") ≡ false
unfolding str_eq
is_done-payload_of value = refl

parse_llama_server_chunk-Carries :
    (value : Str)
    → all_readable value ≡ true
    → Carries (parse_llama_server_chunk (payload_of value)) value
unfolding parse_llama_server_chunk
parse_llama_server_chunk-Carries value h =
    let same = trim_whitespace-payload_of value in
    let going = is_done-payload_of value in
    let read = extract_json_string_field_roundtrip value (codes "}") h in
    record {
      going = rw (parse_llama_server_chunk, same, going) refl;
      has_content = rw (parse_llama_server_chunk, same, going, read) refl;
      content = rw (parse_llama_server_chunk, same, going, read) refl;
    }

-- What one event adds.
record Adds (value : Str) (n : ℕ) (before after : LlamaServerCompletion) : Type 0 where
  content : after.content ≡ before.content ++ value
  stream_chunks : after.stream_chunks ≡ before.stream_chunks + n

merge-Adds :
    (json value : Str) (c : LlamaServerCompletion)
    → Carries (parse_llama_server_chunk json) value
    → Adds value 0 c (merge_llama_server_json_chunk json c)
unfolding merge_llama_server_json_chunk
merge-Adds json value c k = record {
  content = rw (merge_llama_server_json_chunk, k.going, k.has_content, k.content) refl;
  stream_chunks = rw (merge_llama_server_json_chunk, k.going) (omega arith);
}

trim_whitespace-event_of : (value : Str) → trim_whitespace (event_of value) ≡ event_of value
unfolding trim_whitespace trim_left is_space
trim_whitespace-event_of value =
    trim_right_brace (codes "data: {\"content\":" ++ json_string_value value)

trim_whitespace-behind :
    (value : Str) → trim_whitespace (codes " " ++ payload_of value) ≡ payload_of value
unfolding trim_whitespace trim_left is_space
trim_whitespace-behind value = trim_right_brace (codes "{\"content\":" ++ json_string_value value)

strip_prefix-event_of :
    (value : Str)
    → strip_prefix (codes "data:") (event_of value) ≡ some (codes " " ++ payload_of value)
unfolding strip_prefix
strip_prefix-event_of value = refl

merge_line-event_of :
    (value : Str) (c : LlamaServerCompletion)
    → merge_line (event_of value) c
      ≡ merge_llama_server_json_chunk
          (payload_of value)
          (record c { stream_chunks = c.stream_chunks + 1 })
unfolding merge_line
merge_line-event_of value c =
    rw
      (
        merge_line,
        trim_whitespace-event_of value,
        strip_prefix-event_of value,
        trim_whitespace-behind value,
        is_done-payload_of value,
      )
      refl

merge_line-Adds :
    (value : Str) (c : LlamaServerCompletion)
    → all_readable value ≡ true
    → Adds value 1 c (merge_line (event_of value) c)
merge_line-Adds value c h =
    let k =
      merge-Adds (payload_of value) value (record c { stream_chunks = c.stream_chunks + 1 })
        (parse_llama_server_chunk-Carries value h) in
    rw (merge_line-event_of value c)
      (record { content = k.content; stream_chunks = omega (arith, k.stream_chunks) })

-- The server's stream: each value in an event, a blank line behind it, and the end mark.
abbrev pub stream_of : List Str → Str
stream_of [] = codes "data: [DONE]\n"
stream_of (value ∷ values) = event_of value ++ 10 ∷ 10 ∷ stream_of values

abbrev pub all_values_readable : List Str → Bool
all_values_readable [] = true
all_values_readable (value ∷ values) = all_readable value && all_values_readable values

pub lines_of-append :
    (a rest : Str) → lacks 10 a ≡ true → lines_of (a ++ 10 ∷ rest) ≡ a ∷ lines_of rest
unfolding lines_of
lines_of-append [] rest h = refl
lines_of-append (c ∷ cs) rest h =
    let other : (c == 10) ≡ false = ground arith in
    rw (lines_of-append cs rest (ground arith), other) refl

lacks-append : (c : ℕ) (a b : Str) → lacks c a ≡ true → lacks c b ≡ true → lacks c (a ++ b) ≡ true
lacks-append c [] b h k = k
lacks-append c (d ∷ ds) b h k = ground (arith, lacks-append c ds b)

json_escape_char-lacks : (c : ℕ) → lacks 10 (json_escape_char c) ≡ true
unfolding json_escape_char hex_digit
json_escape_char-lacks c = ground arith

json_escape-lacks : (value : Str) → lacks 10 (json_escape value) ≡ true
unfolding json_escape
json_escape-lacks [] = refl
json_escape-lacks (c ∷ cs) =
    lacks-append 10 (json_escape_char c) (json_escape cs) (json_escape_char-lacks c)
      (json_escape-lacks cs)

event_of-lacks : (value : Str) → lacks 10 (event_of value) ≡ true
unfolding json_string_value
event_of-lacks value =
    lacks-append 10 (json_escape value ++ 34 ∷ []) (codes "}")
      (lacks-append 10 (json_escape value) (34 ∷ []) (json_escape-lacks value) refl) refl

lines_of-stream_of :
    (value : Str) (values : List Str)
    → lines_of (stream_of (value ∷ values)) ≡ event_of value ∷ [] ∷ lines_of (stream_of values)
unfolding lines_of
lines_of-stream_of value values =
    lines_of-append (event_of value) (10 ∷ stream_of values) (event_of-lacks value)

merge_line_blank : (c : LlamaServerCompletion) → merge_line [] c ≡ c
unfolding merge_line trim_whitespace trim_left trim_right strip_prefix
merge_line_blank c = refl

merge_lines_end : (c : LlamaServerCompletion) → merge_lines (lines_of (stream_of [])) c ≡ c
unfolding merge_lines lines_of merge_line trim_whitespace trim_left trim_right strip_prefix is_space
    str_eq
merge_lines_end c = refl

merge_lines-event :
    (value : Str) (rest : List Str) (c : LlamaServerCompletion)
    → merge_lines (event_of value ∷ [] ∷ rest) c ≡ merge_lines rest (merge_line (event_of value) c)
unfolding merge_lines
merge_lines-event value rest c =
    ap (merge_lines rest) (merge_line_blank (merge_line (event_of value) c))

merge_lines-stream_of :
    (values : List Str) (c : LlamaServerCompletion)
    → all_values_readable values ≡ true
    → Adds (concat values) (length values) c (merge_lines (lines_of (stream_of values)) c)
merge_lines-stream_of [] c h =
    rw (merge_lines_end c)
      (record { content = sym (append-nil c.content); stream_chunks = omega arith })
merge_lines-stream_of (value ∷ values) c h =
    let next = merge_line (event_of value) c in
    let first = merge_line-Adds value c (ground arith) in
    let rest = merge_lines-stream_of values next (ground arith) in
    rw (lines_of-stream_of value values, merge_lines-event value (lines_of (stream_of values)) c)
      (record {
        content =
            rest.content
            ∙ ap (λ t. t ++ concat values) first.content
            ∙ append_assoc c.content value (concat values);
        stream_chunks = omega (arith, first.stream_chunks, rest.stream_chunks);
      })

-- From a stream of events with the field `content`, each followed by a blank line, and the end mark,
-- `ParseLlamaServerCompletion` puts together the contents in their order and counts the events, where no
-- content has control characters other than tab, line feed and carriage return.
pub parse_llama_server_completion-stream_of :
    (values : List Str)
    → all_values_readable values ≡ true
    → let r = parse_llama_server_completion (stream_of values) true in
      (r.content ≡ concat values) × (r.stream_chunks ≡ length values)
unfolding parse_llama_server_completion
parse_llama_server_completion-stream_of values h =
    let r = merge_lines-stream_of values no_completion h in
    (r.content, omega (arith, r.stream_chunks))
