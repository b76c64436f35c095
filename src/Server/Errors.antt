-- ===== src/Server/Errors.antt =====
-- How `LlamaServerBackend::ProcessBatch` (Calls) ends, whatever the network and the cancellation do.
use laminar_inference.Base.{
  ℕ, suc, ◌+◌, ◌≡◌, refl, subst, ◌||◌, ◌⊎◌, inl, inr, Bool, true, false, Bool-cases, if-elim, List,
  [], ◌∷◌, ◌++◌, Option, some, length, length-append, arith,
}
use laminar_inference.Base.Text.{Str, codes, is_empty}
use laminar_inference.Base.Assoc.{Map}
use laminar_inference.Backends.{
  BackendRequest, BackendResult, Polls, is_ok, ok_result, cancelled_result, unavailable_result,
}
use laminar_inference.Client.{ParsedHttpUrl, parse_http_url}
use laminar_inference.Client.Answers.{parse_llama_server_completion}
use laminar_inference.Client.Http.{
  Network, HttpResponse, http_post_json, no_response, with_error, receive_loop,
}
use laminar_inference.Client.Http.Opened.{open_exchange-Opens}
use laminar_inference.Server.{LlamaServerBackend}
use laminar_inference.Server.Calls.{
  Exchange, Answer, bad_url, is_cancelled_error, response_failure, answer_of, answer_response,
  request_body, batch_loop, server_batch,
}

-- All outputs with their metadata, or an error and none.
abbrev pub AllOrNone : ℕ → BackendResult → Type 0
AllOrNone n r =
    ((is_ok r.code ≡ true) × (length r.outputs ≡ n) × (length r.output_metadata ≡ n))
    ⊎ ((is_ok r.code ≡ false) × (r.outputs ≡ []) × (r.output_metadata ≡ []))

abbrev HasNone : BackendResult → Type 0
HasNone r = (is_ok r.code ≡ false) × (r.outputs ≡ []) × (r.output_metadata ≡ [])

http_post_json_returns :
    (network : Network) (is_cancelled : Polls) (asked : ℕ) (url : ParsedHttpUrl) (body : Str)
    → (response : HttpResponse) × (n : ℕ) × (http_post_json network is_cancelled asked url body
        ≡ some (response, n))
unfolding http_post_json
http_post_json_returns network is_cancelled asked url body =
    elim (open_exchange-Opens network is_cancelled asked url body) [
      | inl (e, n, f) ↦ (with_error e no_response, n, rw (http_post_json, f) refl)
      | inr (n, f) ↦
          let r = receive_loop is_cancelled n [] no_response network.received in
          (r.0, r.1, rw (http_post_json, f) refl)
    ]

-- An answer that ends the call has no outputs.
abbrev Ends : Answer → Type 0
Ends (inl a) = Unit
Ends (inr r) = HasNone r

abbrev no_content : BackendResult
no_content = unavailable_result (codes "llama server response did not include a content field")

Answer-cases :
    (a : Answer)
    → ((r : BackendResult) × (a ≡ inr r)) ⊎ ((o : Str) × (m : Map Str) × (a ≡ inl (o, m)))
Answer-cases (inr r) = inl (r, refl)
Answer-cases (inl (o, m)) = inr (o, m, refl)

module _ {F : Type 0} (float_to_string : F → Str) (backend : LlamaServerBackend F) where
  answer_response-Ends :
      (request : BackendRequest) (exchange : Exchange) (batch_size : ℕ) (now : Bool)
      (response : HttpResponse)
      → Ends (answer_response float_to_string backend request exchange batch_size now response)
  unfolding answer_response answer_of response_failure
  answer_response-Ends request exchange batch_size now response =
      let completion = parse_llama_server_completion response.body backend.stream in
      let cancelled_one : HasNone cancelled_result = (refl, refl, refl) in
      let failed_one : HasNone (response_failure response) = (refl, refl, refl) in
      let empty_one : HasNone no_content = (refl, refl, refl) in
      if-elim Ends (now || is_cancelled_error response) (λ e. cancelled_one)
        (λ e.
          if-elim Ends response.ok
            (λ f. if-elim Ends (is_empty completion.content) (λ g. empty_one) (λ g. tt))
            (λ f. failed_one))

  batch_loop-AllOrNone :
      (exchanges : ℕ → Exchange) (is_cancelled : Polls) (url : ParsedHttpUrl)
      (batch_size index asked : ℕ) (outputs : List Str) (metadata : List (Map Str))
      (requests : List BackendRequest) (total : ℕ)
      → length metadata ≡ length outputs
      → length outputs + length requests ≡ total
      → (r : BackendResult) × (batch_loop float_to_string backend exchanges is_cancelled url
            batch_size index asked outputs metadata requests
          ≡ some r)
        × AllOrNone total r
  unfolding batch_loop
  batch_loop-AllOrNone exchanges is_cancelled url batch_size index asked outputs metadata [] total
        same all =
      (ok_result outputs metadata, refl, inl (refl, omega (arith, all), omega (arith, same, all)))
  batch_loop-AllOrNone exchanges is_cancelled url batch_size index asked outputs metadata
        (request ∷ rest) total same all =
      elim (Bool-cases (is_cancelled asked)) [
        | inl e ↦ (cancelled_result, rw (batch_loop, e) refl, inr (refl, refl, refl))
        | inr e ↦
            let exchange = exchanges index in
            let (response, n, f) =
              http_post_json_returns exchange.network is_cancelled (suc asked) url
                (request_body float_to_string backend request) in
            let answer =
              answer_response float_to_string backend request exchange batch_size (is_cancelled n)
                response in
            let ends = answer_response-Ends request exchange batch_size (is_cancelled n) response in
            elim (Answer-cases answer) [
              | inl (r, g) ↦ (r, rw (batch_loop, e, f, g) refl, inr (subst Ends g ends))
              | inr (output, m, g) ↦
                  let longer = length-append outputs (output ∷ []) in
                  let also = length-append metadata (m ∷ []) in
                  rw (batch_loop, e, f, g)
                    (batch_loop-AllOrNone exchanges is_cancelled url batch_size (suc index) (suc n)
                      (outputs ++ output ∷ []) (metadata ++ m ∷ []) rest total
                      (omega (arith, longer, also, same)) (omega (arith, longer, all)))
            ]
      ]

-- `LlamaServerBackend::ProcessBatch` returns, whatever the network and `is_cancelled` answer: either it is
-- ok, with an output and its metadata for each request, or it is an error, and no output is returned, not
-- even those of the requests before the error.
pub server_batch-AllOrNone :
    {F : Type 0} (float_to_string : F → Str) (backend : LlamaServerBackend F)
    (exchanges : ℕ → Exchange) (is_cancelled : Polls) (requests : List BackendRequest)
    → (r : BackendResult) × (server_batch float_to_string backend exchanges is_cancelled requests
        ≡ some r)
      × AllOrNone (length requests) r
unfolding server_batch
server_batch-AllOrNone float_to_string backend exchanges is_cancelled requests =
    let url = parse_http_url backend.server_url in
    let P : Option BackendResult → Type 0 =
      λ o. (r : BackendResult) × (o ≡ some r) × AllOrNone (length requests) r in
    let cancelled_one : P (some cancelled_result) =
      (cancelled_result, refl, inr (refl, refl, refl)) in
    let bad_one : P (some bad_url) = (bad_url, refl, inr (refl, refl, refl)) in
    if-elim P (is_cancelled 0) (λ e. cancelled_one)
      (λ e.
        if-elim P url.valid
          (λ f.
            batch_loop-AllOrNone float_to_string backend exchanges is_cancelled url
              (length requests) 0 1 [] [] requests (length requests) refl (omega arith))
          (λ f. bad_one))
