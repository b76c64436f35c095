-- ===== src/Client/Http/Feed.antt =====
-- `HttpPostJsonStream` (backend/inference_backend.cc): the exchange of Http whose body goes to the callback
-- `on_body` piece by piece. The callback works on a state of its own, and `none` is a callback that does
-- not return.
use laminar_inference.Base.{
  ℕ, suc, Bool, true, false, List, [], ◌∷◌, ◌++◌, Option, none, some, length, ltb, inl, inr,
  if◌then◌else◌,
}
use laminar_inference.Base.Text.{Str, codes, is_empty}
use laminar_inference.Backends.{Polls}
use laminar_inference.Client.{ParsedHttpUrl}
use laminar_inference.Client.Http.{
  Network, Received, bytes, interrupted, failed, HttpResponse, no_response, with_error,
  open_exchange, split_first, crlf, read_status, is_success, http_error, note_time,
}

-- The end of the function.
unfoldable pub finish_stream : Bool → HttpResponse → HttpResponse
finish_stream headers_parsed response =
    if headers_parsed
    then (if response.ok then response else with_error (http_error response.status_code) response)
    else with_error (codes "llama server response was missing HTTP headers") response

-- The response when the headers are there.
unfoldable pub with_status : Str → HttpResponse → HttpResponse
with_status buffered response =
    let status_code = read_status buffered in
    record response { status_code = status_code; ok = is_success status_code }

-- The response, the number of calls of `is_cancelled`, and the callback's state.
pub record Streamed (S : Type 0) : Type 0 where
  pub response : HttpResponse
  pub asked : ℕ
  pub state : S

abbrev pub streamed : {S : Type 0} → HttpResponse → ℕ → S → Option (Streamed S)
streamed response asked s = some (record { response = response; asked = asked; state = s })

module _ {S : Type 0} (on_body : Str → S → Option (S × Bool)) (is_cancelled : Polls) where
  abbrev pub stopped_by : HttpResponse → ℕ → S → Option (Streamed S)
  stopped_by response asked s = streamed (with_error (codes "cancelled") response) (suc asked) s

  abbrev pub failed_by : Str → HttpResponse → ℕ → S → Option (Streamed S)
  failed_by error response asked s = streamed (with_error error response) (suc asked) s

  -- A piece of the body goes to the callback, or, of an answer with another status, into the response.
  unfoldable pub feed_piece :
      ℕ → HttpResponse → S → Str → (HttpResponse → S → Option (Streamed S)) → Option (Streamed S)
  feed_piece asked response s piece continue =
      let kept : HttpResponse = record response { body = response.body ++ piece } in
      elim response.ok [
        | true ↦ elim (on_body piece s) [
          | none ↦ none
          | some (t, true) ↦ continue response t
          | some (t, false) ↦ stopped_by response asked t
        ]
        | false ↦ elim (ltb 1048576 (length kept.body)) [
          | true ↦ failed_by (codes "llama server response exceeded 1 MiB") kept asked s
          | false ↦ continue kept s
        ]
      ]

  -- The loop behind the headers.
  unfoldable pub body_loop : ℕ → HttpResponse → S → List Received → Option (Streamed S)
  unfolding feed_piece
  body_loop asked response s [] =
      if is_cancelled asked
      then stopped_by response asked s
      else streamed (finish_stream true response) (suc asked) s
  body_loop asked response s (bytes piece micros ∷ rest) = elim (is_cancelled asked) [
    | true ↦ stopped_by response asked s
    | false ↦
        feed_piece asked (note_time micros response) s piece (λ r t. body_loop (suc asked) r t rest)
  ]
  body_loop asked response s (interrupted ∷ rest) =
      let more = body_loop (suc asked) response s rest in
      if is_cancelled asked then stopped_by response asked s else more
  body_loop asked response s (failed ∷ rest) =
      if is_cancelled asked
      then stopped_by response asked s
      else failed_by (codes "failed to read response from llama server") response asked s

  -- The piece of the body that came with the headers, and the loop behind it.
  unfoldable pub first_piece : ℕ → HttpResponse → S → Str → List Received → Option (Streamed S)
  first_piece asked response s piece rest = elim (is_empty piece) [
    | true ↦ body_loop (suc asked) response s rest
    | false ↦ elim response.ok [
      | true ↦ elim (on_body piece s) [
        | none ↦ none
        | some (t, true) ↦ body_loop (suc asked) response t rest
        | some (t, false) ↦ stopped_by response asked t
      ]
      | false ↦ body_loop (suc asked) (record response { body = response.body ++ piece }) s rest
    ]
  ]

  -- The loop up to the headers.
  unfoldable pub header_loop : ℕ → Str → HttpResponse → S → List Received → Option (Streamed S)
  header_loop asked buffered response s [] =
      if is_cancelled asked
      then stopped_by response asked s
      else streamed (finish_stream false response) (suc asked) s
  header_loop asked buffered response s (bytes piece micros ∷ rest) =
      let timed = note_time micros response in
      let all = buffered ++ piece in
      elim (is_cancelled asked) [
        | true ↦ stopped_by response asked s
        | false ↦ elim (split_first (crlf ++ crlf) all) [
          | some (head, behind) ↦ first_piece asked (with_status all timed) s behind rest
          | none ↦ elim (ltb 65536 (length all)) [
            | true ↦ failed_by (codes "llama server response headers exceeded 64 KiB") timed asked s
            | false ↦ header_loop (suc asked) all timed s rest
          ]
        ]
      ]
  header_loop asked buffered response s (interrupted ∷ rest) =
      let more = header_loop (suc asked) buffered response s rest in
      if is_cancelled asked then stopped_by response asked s else more
  header_loop asked buffered response s (failed ∷ rest) =
      if is_cancelled asked
      then stopped_by response asked s
      else failed_by (codes "failed to read response from llama server") response asked s

  unfoldable pub http_post_json_stream : Network → ℕ → ParsedHttpUrl → Str → S → Option (Streamed S)
  http_post_json_stream network asked url body s =
      elim (open_exchange network is_cancelled asked url body) [
        | none ↦ none
        | some (inl (response, n)) ↦ streamed response n s
        | some (inr n) ↦ header_loop n [] no_response s network.received
      ]
