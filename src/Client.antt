-- ===== src/Client.antt =====
-- The texts that the llama clients of backend/inference_backend.cc read: URLs, the server's answers, and
-- the bounded output of a process.
pub mod Urls
pub mod Answers
pub mod Output
pub mod Stream
pub mod Http
mod Tests
use laminar_inference.Base.{
  ℕ, ◌+◌, ◌-◌, min, Bool, true, false, not, ◌&&◌, List, [], ◌∷◌, ◌++◌, Option, none, some, length,
  take, leb, ◌==◌, if◌then◌else◌,
}
use laminar_inference.Base.Text.{Str, codes, is_empty}
use laminar_inference.Texts.Json.{strip_prefix}

pub record ParsedHttpUrl : Type 0 where
  pub valid : Bool
  pub host : Str
  pub port : Str
  pub path : Str

-- A text in front of the first occurrence of a character, and the text from there on.
unfoldable pub cut_first : ℕ → Str → Option (Str × Str)
cut_first c [] = none
cut_first c (d ∷ ds) =
    let later = cut_first c ds in
    if d == c then some ([], d ∷ ds) else elim later [ none ↦ none | some p ↦ some (d ∷ p.0, p.1) ]

-- A text in front of the last occurrence of a character, and the text behind it.
unfoldable pub cut_last : ℕ → Str → Option (Str × Str)
cut_last c [] = none
cut_last c (d ∷ ds) = elim (cut_last c ds) [
  | some p ↦ some (d ∷ p.0, p.1)
  | none ↦ if d == c then some ([], ds) else none
]

-- `ParseHttpUrl` behind the path.
unfoldable pub parse_authority : Str → Str → ParsedHttpUrl
parse_authority authority path =
    if is_empty authority
    then record { valid = false; host = []; port = []; path = path }
    else elim (cut_last 58 authority) [
      | none ↦ record {
        valid = not (is_empty authority) && not (is_empty path);
        host = authority;
        port = codes "80";
        path = path;
      }
      | some p ↦ record {
        valid = not (is_empty p.0) && not (is_empty p.1) && not (is_empty path);
        host = p.0;
        port = p.1;
        path = path;
      }
    ]

unfoldable pub parse_http_url : Str → ParsedHttpUrl
parse_http_url raw_url = elim (strip_prefix (codes "http://") raw_url) [
  | none ↦ record { valid = false; host = []; port = []; path = [] }
  | some rest ↦ elim (cut_first 47 rest) [
    | none ↦ parse_authority rest (codes "/")
    | some p ↦ parse_authority p.0 p.1
  ]
]

unfoldable pub endpoint_for_output : Str → Str
endpoint_for_output raw_url =
    let parsed = parse_http_url raw_url in
    if parsed.valid then parsed.host ++ codes ":" ++ parsed.port ++ parsed.path else raw_url

-- `AppendWithLimit`
unfoldable pub append_with_limit : ℕ → Str → Str → Str
append_with_limit limit output data_read =
    if leb limit (length output)
    then output
    else output ++ take (min (length data_read) (limit - length output)) data_read

-- The output behind one call for each piece that was read.
unfoldable pub append_all : ℕ → Str → List Str → Str
append_all limit output [] = output
append_all limit output (piece ∷ pieces) =
    append_all limit (append_with_limit limit output piece) pieces
