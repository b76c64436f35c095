-- ===== src/Client/Tests.antt =====
-- The texts of the llama clients (Client) on concrete inputs.
use laminar_inference.Base.{
  ◌⊎◌, leb, Bool, ◌≡◌, refl, true, false, List, [], ◌∷◌, ◌++◌, some, length, take, arith,
}
use laminar_inference.Base.Int.{negsuc}
use laminar_inference.Base.Text.{Str, codes}
use laminar_inference.Texts.{is_space}
use laminar_inference.Texts.Json.{strip_prefix, after_first, skip_spaces}
use laminar_inference.Settings.Numbers.{is_digit, negate}
use laminar_inference.Client.{
  cut_first, cut_last, parse_authority, parse_http_url, endpoint_for_output, append_all,
}
use laminar_inference.Client.Urls.{url_of, parse_http_url-url_of, endpoint_for_output-url_of}
use laminar_inference.Client.Output.{concat, append_all-take}
use laminar_inference.Client.Answers.{
  digits_prefix, number_prefix, signed_prefix, saturate, low_bits, to_int, extract_json_int_field,
  parse_llama_server_completion,
}
use laminar_inference.Backends.{Emitter}
use laminar_inference.Client.Stream.{Streaming, start_streaming, on_pieces, last_line}
use laminar_inference.Client.Stream.Lines.{Told}
use laminar_inference.Client.Stream.Pieces.{on_pieces-parse_llama_server_completion}
use laminar_inference.Client.Answers.Streamed.{stream_of, parse_llama_server_completion-stream_of}

no_port :
    parse_http_url (codes "http://localhost/v1")
    ≡ record { valid = true; host = codes "localhost"; port = codes "80"; path = codes "/v1" }
unfolding parse_http_url strip_prefix cut_first cut_last parse_authority
no_port = refl

other_scheme : (parse_http_url (codes "https://localhost/")).valid ≡ false
unfolding parse_http_url strip_prefix
other_scheme = refl

reads_int :
    extract_json_int_field (codes "{\"tokens_predicted\": -12}") (codes "tokens_predicted")
    ≡ some (negsuc 11)
unfolding extract_json_int_field after_first strip_prefix skip_spaces is_space is_digit negate
    digits_prefix number_prefix signed_prefix saturate low_bits to_int
reads_int = refl

parse_http_url-url_of_example :
    parse_http_url (url_of (codes "localhost") (codes "8080") (codes "completion")) ≡ record {
      valid = true;
      host = codes "localhost";
      port = codes "8080";
      path = codes "/completion";
    }
parse_http_url-url_of_example =
    parse_http_url-url_of (codes "localhost") (codes "8080") (codes "completion") refl refl refl
      refl

endpoint_for_output-url_of_example :
    endpoint_for_output (url_of (codes "localhost") (codes "8080") (codes "completion"))
    ≡ codes "localhost" ++ codes ":" ++ codes "8080" ++ 47 ∷ codes "completion"
endpoint_for_output-url_of_example =
    endpoint_for_output-url_of (codes "localhost") (codes "8080") (codes "completion") refl refl
      refl refl

append_all-take_example :
    append_all 5 (codes "ab") (codes "cd" ∷ codes "efg" ∷ [])
    ≡ take 5 (codes "ab" ++ concat (codes "cd" ∷ codes "efg" ∷ []))
append_all-take_example =
    append_all-take 5 (codes "ab") (codes "cd" ∷ codes "efg" ∷ []) (omega arith)

abbrev answers : List Str
answers = codes "Hello" ∷ codes ", \"you\"\n" ∷ []

parse_llama_server_completion-stream_of_example :
    let r = parse_llama_server_completion (stream_of answers) true in
    (r.content ≡ concat answers) × (r.stream_chunks ≡ length answers)
parse_llama_server_completion-stream_of_example =
    parse_llama_server_completion-stream_of answers refl

-- Takes the first event only.
abbrev first_only : Emitter
first_only events = leb (length events) 1

abbrev pieces : List Str
pieces = codes "data: {\"content\":\"a" ∷ codes "b\"}\ndata: {\"content\":" ∷ codes "\"c\"}\n" ∷ []

on_pieces-parse_llama_server_completion_example :
    (t : Streaming) × (accepted : Bool) × (on_pieces first_only pieces start_streaming
      ≡ some (t, accepted))
    × Told (last_line first_only t).0
    × ((accepted ≡ false)
        ⊎ ((last_line first_only t).0.completion
            ≡ parse_llama_server_completion (concat pieces) true))
on_pieces-parse_llama_server_completion_example =
    on_pieces-parse_llama_server_completion first_only pieces
