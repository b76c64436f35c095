-- ===== src/Client/Answers.antt =====
-- The answers of the llama server (backend/inference_backend.cc): `ExtractJsonIntField`,
-- `ParseLlamaServerChunk`, `MergeLlamaServerJsonChunk` and `ParseLlamaServerCompletion`.
pub mod Streamed
use laminar_inference.Base.{
  ℕ, suc, ◌+◌, ◌-◌, ◌*◌, ◌%◌, Bool, true, false, ◌||◌, List, [], ◌∷◌, ◌++◌, Option, none, some, ltb,
  ◌==◌, if◌then◌else◌,
}
use laminar_inference.Base.Int.{ℤ, pos, negsuc, ltb_ℤ}
use laminar_inference.Base.Text.{Str, codes, is_empty, str_eq}
use laminar_inference.Texts.{trim_whitespace}
use laminar_inference.Texts.Json.{
  ◌>>=◌, strip_prefix, after_first, skip_spaces, extract_json_string_field,
}
use laminar_inference.Settings.Numbers.{is_digit, negate, with_sign}

-- The digits that a text begins with, behind those that made `value`.
unfoldable pub digits_prefix : ℕ → Str → ℕ
digits_prefix value [] = value
digits_prefix value (c ∷ cs) =
    let more = digits_prefix (value * 10 + (c - 48)) cs in if is_digit c then more else value

unfoldable pub number_prefix : Str → Option ℕ
number_prefix [] = none
number_prefix (c ∷ cs) = if is_digit c then some (digits_prefix 0 (c ∷ cs)) else none

-- `std::strtol` on a text that may go on behind the number, without its saturation.
unfoldable pub signed_prefix : Str → Option ℤ
signed_prefix [] = none
signed_prefix (c ∷ cs) =
    let negative = with_sign negate (number_prefix cs) in
    let positive = with_sign pos (number_prefix cs) in
    let unsigned = with_sign pos (number_prefix (c ∷ cs)) in
    if c == 45 then negative else if c == 43 then positive else unsigned

-- The range of `long`.
unfoldable pub saturate : ℤ → ℤ
saturate (pos n) = if ltb n 9223372036854775808 then pos n else pos 9223372036854775807
saturate (negsuc n) = if ltb n 9223372036854775808 then negsuc n else negsuc 9223372036854775807

-- `static_cast<int>` of a number from 0 to 2 ^ 32.
unfoldable pub low_bits : ℕ → ℤ
low_bits m = if ltb m 2147483648 then pos m else negsuc (4294967295 - m)

unfoldable pub to_int : ℤ → ℤ
to_int (pos n) = low_bits (n % 4294967296)
to_int (negsuc n) = low_bits (4294967295 - n % 4294967296)

unfoldable pub extract_json_int_field : Str → Str → Option ℤ
extract_json_int_field json field = do
  behind_key ← after_first (34 ∷ field ++ 34 ∷ []) json
  behind_colon ← after_first (58 ∷ []) behind_key
  value ← signed_prefix (skip_spaces behind_colon)
  some (to_int (saturate value))

pub record LlamaServerChunk : Type 0 where
  pub done : Bool
  pub has_content : Bool
  pub content : Str
  pub tokens_predicted : ℤ
  pub tokens_evaluated : ℤ

abbrev pub or_unknown : Option ℤ → ℤ
or_unknown none = negsuc 0
or_unknown (some value) = value

abbrev pub has_value : Option Str → Bool
has_value none = false
has_value (some value) = true

abbrev pub or_empty : Option Str → Str
or_empty none = []
or_empty (some value) = value

unfoldable pub parse_llama_server_chunk : Str → LlamaServerChunk
parse_llama_server_chunk text =
    let trimmed = trim_whitespace text in
    let content = extract_json_string_field trimmed (codes "content") in
    if str_eq trimmed (codes "[DONE]")
    then record {
      done = true;
      has_content = false;
      content = [];
      tokens_predicted = negsuc 0;
      tokens_evaluated = negsuc 0;
    }
    else record {
      done = false;
      has_content = has_value content;
      content = or_empty content;
      tokens_predicted = or_unknown (extract_json_int_field trimmed (codes "tokens_predicted"));
      tokens_evaluated = or_unknown (extract_json_int_field trimmed (codes "tokens_evaluated"));
    }

pub record LlamaServerCompletion : Type 0 where
  pub content : Str
  pub tokens_predicted : ℤ
  pub tokens_evaluated : ℤ
  pub stream_chunks : ℕ

abbrev pub no_completion : LlamaServerCompletion
no_completion = record {
  content = [];
  tokens_predicted = negsuc 0;
  tokens_evaluated = negsuc 0;
  stream_chunks = 0;
}

unfoldable pub merge_llama_server_json_chunk : Str → LlamaServerCompletion → LlamaServerCompletion
merge_llama_server_json_chunk json completion =
    let chunk = parse_llama_server_chunk json in
    if chunk.done then completion else record completion {
      content =
          if chunk.has_content then completion.content ++ chunk.content else completion.content;
      tokens_predicted =
          if ltb_ℤ chunk.tokens_predicted (pos 0)
          then completion.tokens_predicted
          else chunk.tokens_predicted;
      tokens_evaluated =
          if ltb_ℤ chunk.tokens_evaluated (pos 0)
          then completion.tokens_evaluated
          else chunk.tokens_evaluated;
    }

-- The lines of `std::getline`: the last one need not end in a line feed.
unfoldable pub lines_of : Str → List Str
lines_of [] = []
lines_of (c ∷ cs) =
    let rest = lines_of cs in
    if c == 10
    then [] ∷ rest
    else elim rest [ [] ↦ (c ∷ []) ∷ [] | line ∷ lines ↦ (c ∷ line) ∷ lines ]

-- The body of the loop over the lines.
unfoldable pub merge_line : Str → LlamaServerCompletion → LlamaServerCompletion
merge_line raw completion = elim (strip_prefix (codes "data:") (trim_whitespace raw)) [
  | none ↦ completion
  | some behind ↦
      let payload = trim_whitespace behind in
      if is_empty payload || str_eq payload (codes "[DONE]")
      then completion
      else merge_llama_server_json_chunk payload
          (record completion { stream_chunks = completion.stream_chunks + 1 })
]

unfoldable pub merge_lines : List Str → LlamaServerCompletion → LlamaServerCompletion
merge_lines [] completion = completion
merge_lines (line ∷ lines) completion = merge_lines lines (merge_line line completion)

unfoldable pub parse_llama_server_completion : Str → Bool → LlamaServerCompletion
parse_llama_server_completion body stream =
    if stream
    then merge_lines (lines_of body) no_completion
    else merge_llama_server_json_chunk body no_completion
