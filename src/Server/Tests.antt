-- ===== src/Server/Tests.antt =====
-- The client of the llama server (Server) on a small network.
use laminar_inference.Base.{◌≡◌, refl, true, false, List, [], ◌∷◌, some, arith, map}
use laminar_inference.Base.Int.{pos}
use laminar_inference.Base.Text.{Str, codes, str_eq, str_lt}
use laminar_inference.Base.Decimal.{to_string, int_to_string, print_digits}
use laminar_inference.Base.Assoc.{emplace, find, place}
use laminar_inference.Backends.{
  BackendRequest, BackendResult, BackendStreamEvent, Polls, Emitter, is_ok,
}
use laminar_inference.Texts.{
  is_space, trim_whitespace, trim_left, trim_right, collapse_whitespace, collapse,
  escape_single_quoted,
}
use laminar_inference.Texts.Json.{
  extract_json_string_field, after_first, read_value, read_string, strip_prefix, skip_spaces,
  json_string_value, json_escape, json_escape_char,
}
use laminar_inference.Settings.Numbers.{is_digit}
use laminar_inference.Client.{
  parse_http_url, endpoint_for_output, cut_first, cut_last, parse_authority,
}
use laminar_inference.Client.Answers.{
  parse_llama_server_chunk, extract_json_int_field, signed_prefix, number_prefix, digits_prefix,
}
use laminar_inference.Client.Stream.{
  on_body, consume_lines, consume_line, consume_chunk, count_chunk, emit_token, token_event,
  last_line,
}
use laminar_inference.Client.Http.{
  Network, connected, no_socket, bytes, interrupted, open_exchange, connect_loop, send_connected,
  send_request, send_loop, request_text, split_first, skip_word, read_status, clamp_int, is_success,
  note_time,
}
use laminar_inference.Client.Http.Feed.{
  http_post_json_stream, header_loop, first_piece, feed_piece, body_loop, finish_stream,
  with_status,
}
use laminar_inference.Server.{
  LlamaServerBackend, build_llama_server_request_body, build_llama_server_metadata,
  format_llama_server_output, bool_to_json,
}
use laminar_inference.Server.Calls.{
  Exchange, server_batch, server_stream, finish_exchange, answer_of, request_body,
}
use laminar_inference.Server.Bodies.{extract_json_string_field-build_llama_server_request_body}
use laminar_inference.Server.Errors.{AllOrNone, server_batch-AllOrNone}
use laminar_inference.Server.Agreement.{server_stream-server_batch}

abbrev print_nothing : Unit {0} → Str
print_nothing x = codes "0.700"

abbrev backend : LlamaServerBackend (Unit {0})
backend = record {
  server_url = codes "http://localhost:8080/completion";
  max_tokens = pos 16;
  temperature = tt;
  timeout_ms = pos 1000;
  cache_prompt = true;
  stream = true;
  timings_per_token = false;
}

-- The headers and the first event in two pieces, and the end mark.
abbrev network : Network
network = record {
  addresses = some (no_socket ∷ connected ∷ []);
  sends = λ i. 64;
  received =
      bytes (codes "HTTP/1.1 200 OK\r\n\r\ndata: {\"cont") 5
      ∷ interrupted
      ∷ bytes (codes "ent\":\"hi\"}\n\nda") 7
      ∷ bytes (codes "ta: [DONE]\n") 9
      ∷ [];
}

abbrev exchange : Exchange
exchange = record { network = network; elapsed_micros = 20 }

abbrev request : BackendRequest
request = record { id = codes "r"; prompt = codes "say \"hi\""; trace_id = [] }

abbrev never : Polls
never i = false

abbrev takes_all : Emitter
takes_all events = true

extract_json_string_field-build_llama_server_request_body_example :
    extract_json_string_field
      (build_llama_server_request_body print_nothing
        (codes "say \"hi\"")
        (pos 16)
        tt
        true
        true
        false)
      (codes "prompt")
    ≡ some (codes "say \"hi\"")
extract_json_string_field-build_llama_server_request_body_example =
    extract_json_string_field-build_llama_server_request_body print_nothing (codes "say \"hi\"")
      (pos 16) tt true true false refl

server_batch-AllOrNone_example :
    (r : BackendResult) × (server_batch print_nothing backend
        (λ i. exchange)
        never
        (request ∷ request ∷ [])
      ≡ some r)
    × AllOrNone 2 r
server_batch-AllOrNone_example =
    server_batch-AllOrNone print_nothing backend (λ i. exchange) never (request ∷ request ∷ [])

server_stream-server_batch_example :
    (events : List BackendStreamEvent) × (result : BackendResult) × (server_stream print_nothing
        backend exchange never takes_all request
      ≡ some (events, result))
    × (server_batch print_nothing backend (λ i. exchange) never (request ∷ []) ≡ some result)
server_stream-server_batch_example =
    server_stream-server_batch print_nothing backend refl never (λ n. refl) takes_all (λ es. refl)
      exchange request refl (omega arith)

streams_one :
    (events : List BackendStreamEvent) × (result : BackendResult) × (server_stream print_nothing
        backend exchange never takes_all request
      ≡ some (events, result))
    × (is_ok result.code ≡ true)
    × (map (λ e. e.delta) events ≡ codes "hi" ∷ [] ∷ [])
    × (map (λ e. e.event_type) events ≡ codes "token" ∷ codes "done" ∷ [])
    × (result.outputs
        ≡ codes
            "LlamaServer(backend=llama_server, generated='hi', prompt_chars=8, generated_chars=2, duration_micros=20, batch_size=1, endpoint='localhost:8080/completion', max_tokens=16, temperature=0.700, cache_prompt=true, stream=true, timings_per_token=false, stream_chunks=1, ttft_micros=5, tokens_predicted=-1, tokens_evaluated=-1)"
          ∷ [])
unfolding server_stream finish_exchange answer_of request_body http_post_json_stream open_exchange
    connect_loop send_connected send_request send_loop header_loop first_piece feed_piece body_loop
    finish_stream with_status request_text split_first strip_prefix skip_spaces skip_word
    read_status clamp_int is_success note_time on_body consume_lines consume_line consume_chunk
    count_chunk emit_token token_event last_line parse_http_url endpoint_for_output cut_first
    cut_last parse_authority is_space trim_whitespace trim_left trim_right collapse_whitespace
    collapse escape_single_quoted extract_json_string_field after_first read_value read_string
    extract_json_int_field parse_llama_server_chunk str_eq build_llama_server_request_body
    build_llama_server_metadata format_llama_server_output bool_to_json to_string int_to_string
    print_digits json_string_value json_escape json_escape_char signed_prefix number_prefix
    digits_prefix is_digit emplace find place str_lt
streams_one = (_, _, refl, refl, refl, refl, refl)
