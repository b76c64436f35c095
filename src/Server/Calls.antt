-- ===== src/Server/Calls.antt =====
-- `LlamaServerBackend::ProcessBatch` and `ProcessStream` (backend/inference_backend.cc). Each exchange with
-- the server comes with the network's answers and the microseconds that it takes.
use laminar_inference.Base.{
  ℕ, suc, Bool, true, false, ◌||◌, List, [], ◌∷◌, ◌++◌, Option, none, some, length, inl, inr, ◌⊎◌,
  if◌then◌else◌,
}
use laminar_inference.Base.Text.{Str, codes, is_empty, str_eq}
use laminar_inference.Base.Assoc.{Map}
use laminar_inference.Texts.{collapse_whitespace}
use laminar_inference.Backends.{
  BackendRequest, BackendResult, BackendStreamEvent, Polls, Emitter, ok_result, cancelled_result,
  unavailable_result, done_event, process_stream,
}
use laminar_inference.Client.{ParsedHttpUrl, parse_http_url, endpoint_for_output}
use laminar_inference.Client.Answers.{LlamaServerCompletion, parse_llama_server_completion}
use laminar_inference.Client.Stream.{Streaming, start_streaming, on_body, last_line}
use laminar_inference.Client.Http.{Network, HttpResponse, http_post_json}
use laminar_inference.Client.Http.Feed.{http_post_json_stream}
use laminar_inference.Server.{
  LlamaServerBackend, build_llama_server_request_body, build_llama_server_metadata, Measured,
  format_llama_server_output,
}

pub record Exchange : Type 0 where
  pub network : Network
  pub elapsed_micros : ℕ

abbrev pub bad_url : BackendResult
bad_url = unavailable_result (codes "LAMINAR_LLAMA_SERVER_URL must be an http:// URL")

-- An output with its metadata, or the result that ends the call.
abbrev pub Answer : Type 0
Answer = (Str × Map Str) ⊎ BackendResult

-- What an exchange that failed is reported as.
unfoldable pub response_failure : HttpResponse → BackendResult
response_failure response =
    let message =
      if is_empty response.error then codes "llama server request failed" else response.error in
    unavailable_result (
      if is_empty response.body
      then message
      else message ++ codes ": " ++ collapse_whitespace response.body)

abbrev pub is_cancelled_error : HttpResponse → Bool
is_cancelled_error response = str_eq response.error (codes "cancelled")

module _ {F : Type 0} (float_to_string : F → Str) (backend : LlamaServerBackend F) where
  -- What follows the completion, in both functions.
  unfoldable pub answer_of :
      BackendRequest → Exchange → ℕ → HttpResponse → LlamaServerCompletion → Answer
  answer_of request exchange batch_size response completion =
      let generated = collapse_whitespace completion.content in
      let measured : Measured = record {
        prompt_chars = length request.prompt;
        generated_chars = length generated;
        duration_micros = exchange.elapsed_micros;
        batch_size = batch_size;
        ttft_micros = response.first_response_byte_micros;
      } in
      if is_empty completion.content
      then inr (unavailable_result (codes "llama server response did not include a content field"))
      else inl (
        format_llama_server_output float_to_string backend generated
            (endpoint_for_output backend.server_url) backend.stream measured completion,
        build_llama_server_metadata backend.stream backend.cache_prompt backend.timings_per_token
            completion (length request.prompt) (length generated)
            response.first_response_byte_micros,
      )

  unfoldable pub request_body : BackendRequest → Str
  request_body request =
      build_llama_server_request_body float_to_string request.prompt backend.max_tokens
        backend.temperature backend.cache_prompt backend.stream backend.timings_per_token

  -- The batch's loop behind the call of `HttpPostJson`.
  unfoldable pub answer_response : BackendRequest → Exchange → ℕ → Bool → HttpResponse → Answer
  answer_response request exchange batch_size cancelled_now response =
      if cancelled_now || is_cancelled_error response
      then inr cancelled_result
      else if response.ok
      then answer_of request exchange batch_size response
          (parse_llama_server_completion response.body backend.stream)
      else inr (response_failure response)

  -- The loop over the requests: the exchanges that are to come, the outputs so far, and the number of
  -- calls of `is_cancelled`.
  unfoldable pub batch_loop :
      (ℕ → Exchange)
      → Polls
      → ParsedHttpUrl
      → ℕ
      → ℕ
      → ℕ
      → List Str
      → List (Map Str)
      → List BackendRequest
      → Option BackendResult
  batch_loop exchanges is_cancelled url batch_size index asked outputs metadata [] =
      some (ok_result outputs metadata)
  batch_loop exchanges is_cancelled url batch_size index asked outputs metadata (request ∷ rest) =
      let exchange = exchanges index in
      elim (is_cancelled asked) [
        | true ↦ some cancelled_result
        | false ↦
            elim (http_post_json exchange.network is_cancelled (suc asked) url
              (request_body request)) [
                | none ↦ none
                | some (response, n) ↦
                    elim (answer_response request exchange batch_size (is_cancelled n) response) [
                      | inr result ↦ some result
                      | inl (output, m) ↦
                          batch_loop exchanges is_cancelled url batch_size (suc index) (suc n)
                            (outputs ++ output ∷ []) (metadata ++ m ∷ []) rest
                    ]
              ]
      ]

  unfoldable pub server_batch : (ℕ → Exchange) → Polls → List BackendRequest → Option BackendResult
  server_batch exchanges is_cancelled requests =
      let url = parse_http_url backend.server_url in
      if is_cancelled 0
      then some cancelled_result
      else if url.valid
      then batch_loop exchanges is_cancelled url (length requests) 0 1 [] [] requests
      else some bad_url

  -- The event that ends a stream.
  abbrev pub emit_done :
      Emitter → List BackendStreamEvent → Answer → List BackendStreamEvent × BackendResult
  emit_done emit events (inr result) = (events, result)
  emit_done emit events (inl (output, metadata)) =
      let all = events ++ done_event output metadata ∷ [] in
      (all, if emit all then ok_result (output ∷ []) (metadata ∷ []) else cancelled_result)

  -- `ProcessStream` behind the call of `HttpPostJsonStream`.
  unfoldable pub finish_exchange :
      Emitter
      → BackendRequest
      → Exchange
      → Bool
      → HttpResponse
      → Streaming
      → List BackendStreamEvent × BackendResult
  finish_exchange emit request exchange cancelled_now response s =
      let last = last_line emit s in
      let t = last.0 in
      if cancelled_now || is_cancelled_error response
      then (s.events, cancelled_result)
      else if response.ok
      then (if last.1
          then emit_done emit t.events (answer_of request exchange 1 response t.completion)
          else (t.events, cancelled_result))
      else (s.events, response_failure response)

  unfoldable pub server_stream :
      Exchange → Polls → Emitter → BackendRequest → Option (List BackendStreamEvent × BackendResult)
  server_stream exchange is_cancelled emit request =
      let url = parse_http_url backend.server_url in
      let streamed_response =
        http_post_json_stream (on_body emit) is_cancelled exchange.network 1 url
          (request_body request) start_streaming in
      if backend.stream
      then (if is_cancelled 0
          then some ([], cancelled_result)
          else if url.valid
          then elim streamed_response [
            | none ↦ none
            | some r ↦
                some
                  (finish_exchange emit request exchange (is_cancelled r.asked) r.response r.state)
          ]
          else some ([], bad_url))
      else elim (server_batch (λ i. exchange) is_cancelled (request ∷ [])) [
        | none ↦ none
        | some result ↦ some (process_stream emit result)
      ]
