-- ===== src/Server/Agreement.antt =====
-- The two ways to answer one request (Calls): `ProcessBatch` on it alone, and `ProcessStream`.
use laminar_inference.Base.{
  ℕ, ◌≤◌, ◌≡◌, refl, sym, ap, subst, ◌∙◌, inl, inr, Bool, true, false, Bool-cases, if-elim, List,
  [], ◌∷◌, ◌++◌, Option, none, some, length, arith, if◌then◌else◌,
}
use laminar_inference.Base.Int.{negsuc}
use laminar_inference.Base.Text.{Str, codes, str_eq}
use laminar_inference.Backends.{
  BackendRequest, BackendResult, BackendStreamEvent, Polls, Emitter, ok_result, done_event,
}
use laminar_inference.Client.{ParsedHttpUrl, parse_http_url}
use laminar_inference.Client.Output.{concat}
use laminar_inference.Client.Answers.{LlamaServerCompletion, parse_llama_server_completion}
use laminar_inference.Client.Stream.{Streaming, start_streaming, on_body, on_pieces, last_line}
use laminar_inference.Client.Stream.Pieces.{on_pieces-parse_llama_server_completion}
use laminar_inference.Client.Stream.Accepted.{on_body_accepts, last_line_accepts}
use laminar_inference.Client.Http.{
  HttpResponse, no_response, split_first, http_post_json, with_error,
}
use laminar_inference.Client.Http.Opened.{open_exchange_alike}
use laminar_inference.Client.Http.Feed.{Streamed, http_post_json_stream}
use laminar_inference.Client.Http.Fed.{
  is_clean, pieces_of, receive_loop-read_response, fed, Agrees, refused_alike, fed_alike,
  header_loop-Agrees,
}
use laminar_inference.Server.{LlamaServerBackend}
use laminar_inference.Server.Calls.{
  Exchange, Answer, bad_url, answer_of, answer_response, request_body, batch_loop, server_batch,
  emit_done, finish_exchange, server_stream, is_cancelled_error,
}

if-true : {A : Type 0} (b : Bool) (x y : A) → b ≡ true → (if b then x else y) ≡ x
if-true b x y h = rw h refl

if-false : {A : Type 0} (b : Bool) (x y : A) → b ≡ false → (if b then x else y) ≡ y
if-false b x y h = rw h refl

abbrev or_start : Option (Streaming × Bool) → Streaming × Bool
or_start none = (start_streaming, false)
or_start (some r) = r

-- The result of a batch of one.
abbrev pub result_of : Answer → BackendResult
result_of (inl (output, metadata)) = ok_result (output ∷ []) (metadata ∷ [])
result_of (inr result) = result

module _ {F : Type 0} (float_to_string : F → Str) (backend : LlamaServerBackend F)
    (streams : backend.stream ≡ true) (is_cancelled : Polls)
    (never : (n : ℕ) → is_cancelled n ≡ false) (emit : Emitter)
    (takes : (events : List BackendStreamEvent) → emit events ≡ true) (exchange : Exchange)
    (request : BackendRequest) where
  accepts :
      (piece : Str) (s : Streaming) → (t : Streaming) × (on_body emit piece s ≡ some (t, true))
  accepts = on_body_accepts emit takes

  fed_all : List Str → Streaming → Streaming
  fed_all = fed (on_body emit) accepts is_cancelled never

  on_pieces-fed :
      (pieces : List Str) (s : Streaming) → on_pieces emit pieces s ≡ some (fed_all pieces s, true)
  unfolding on_pieces fed_all
  on_pieces-fed [] s = refl
  on_pieces-fed (piece ∷ pieces) s =
      let (t, e) = accepts piece s in rw (on_pieces, e) (on_pieces-fed pieces t)

  answered_by : HttpResponse → BackendResult
  answered_by b = result_of (answer_response float_to_string backend request exchange 1 false b)

  server_batch_one :
      (b : HttpResponse) (n : ℕ)
      → (parse_http_url backend.server_url).valid ≡ true
      → http_post_json exchange.network is_cancelled 2
          (parse_http_url backend.server_url)
          (request_body float_to_string backend request)
        ≡ some (b, n)
      → server_batch float_to_string backend (λ i. exchange) is_cancelled (request ∷ [])
        ≡ some (answered_by b)
  unfolding server_batch batch_loop answered_by
  server_batch_one b n valid e = rw (never 0) (
      if-elim (λ o. o ≡ some (answered_by b)) (parse_http_url backend.server_url).valid
        (λ v.
          rw (batch_loop, never 1, e, never n)
            (done (answer_response float_to_string backend request exchange 1 false b)))
        (λ v. ground arith))
    where
      done :
          (a : Answer)
          → elim a [
            | inr result ↦ some result
            | inl (output, m) ↦ some (ok_result (output ∷ []) (m ∷ []))
          ]
            ≡ some (result_of a)
      done (inl (output, m)) = refl
      done (inr result) = refl

  server_stream_one :
      (r : Streamed Streaming)
      → (parse_http_url backend.server_url).valid ≡ true
      → http_post_json_stream
          (on_body emit)
          is_cancelled
          exchange.network
          1
          (parse_http_url backend.server_url)
          (request_body float_to_string backend request)
          start_streaming
        ≡ some r
      → server_stream float_to_string backend exchange is_cancelled emit request
        ≡ some
            (finish_exchange float_to_string backend emit request exchange false r.response r.state)
  unfolding server_stream
  server_stream_one r valid e =
      let P : Option (List BackendStreamEvent × BackendResult) → Type 0 = λ o.
        o
        ≡ some (
            finish_exchange float_to_string backend emit request exchange false r.response
              r.state) in
      if-elim P backend.stream
        (λ s.
          if-elim P (is_cancelled 0) (λ c. ground (arith, never 0))
            (λ c.
              if-elim P (parse_http_url backend.server_url).valid (λ v. rw (e, never r.asked) refl)
                (λ v. ground arith)))
        (λ s. ground (arith, streams))

  -- An outcome of the stream with the result of the batch.
  EndsAlike : HttpResponse → List BackendStreamEvent × BackendResult → Type 0
  EndsAlike b o = (events : List BackendStreamEvent) × (o ≡ (events, answered_by b))

  answer_of-first :
      (q b : HttpResponse) (c : LlamaServerCompletion)
      → q.first_response_byte_micros ≡ b.first_response_byte_micros
      → answer_of float_to_string backend request exchange 1 q c
        ≡ answer_of float_to_string backend request exchange 1 b c
  unfolding answer_of
  answer_of-first q b c e = rw e refl

  emit_done-takes :
      (before : List BackendStreamEvent) (a : Answer)
      → (events : List BackendStreamEvent) × (emit_done float_to_string backend emit before a
          ≡ (events, result_of a))
  emit_done-takes before (inl (output, metadata)) = (
    before ++ done_event output metadata ∷ [],
    rw (takes (before ++ done_event output metadata ∷ [])) refl,
  )
  emit_done-takes before (inr result) = (before, refl)

  -- The completion behind all pieces.
  completion_of :
      (pieces : List Str)
      → (last_line emit (fed_all pieces start_streaming)).0.completion
        ≡ parse_llama_server_completion (concat pieces) true
  completion_of pieces =
      let (t, accepted, e, told, agree) = on_pieces-parse_llama_server_completion emit pieces in
      let both : some (t, accepted) ≡ some (fed_all pieces start_streaming, true) =
        sym e ∙ on_pieces-fed pieces start_streaming in
      let same : t ≡ fed_all pieces start_streaming = ap (λ o. (or_start o).0) both in
      let all : accepted ≡ true = ap (λ o. (or_start o).1) both in
      let P : Streaming → Type 0 =
        λ u. (last_line emit u).0.completion ≡ parse_llama_server_completion (concat pieces) true in
      elim agree [
        | inl refused ↦ ground (arith, all, refused)
        | inr same_completion ↦ subst P same same_completion
      ]

  refused-EndsAlike :
      (b : HttpResponse)
      → b.ok ≡ false
      → EndsAlike b
          (finish_exchange float_to_string backend emit request exchange false b start_streaming)
  unfolding EndsAlike finish_exchange answered_by answer_response
  refused-EndsAlike b notok = elim (Bool-cases (is_cancelled_error b)) [
    | inl e ↦ ([], if-true _ _ _ e ∙ sym (ap (λ a. ([], result_of a)) (if-true _ _ _ e)))
    | inr e ↦ (
      [],
      if-false _ _ _ e
          ∙ if-false _ _ _ notok
          ∙ sym (ap (λ a. ([], result_of a)) (if-false _ _ _ e ∙ if-false _ _ _ notok)),
    )
  ]

  fed-EndsAlike :
      (b q : HttpResponse) (pieces : List Str)
      → b.ok ≡ true
      → q.ok ≡ true
      → q.error ≡ b.error
      → q.first_response_byte_micros ≡ b.first_response_byte_micros
      → concat pieces ≡ b.body
      → EndsAlike b (
          finish_exchange float_to_string backend emit request exchange false q
            (fed_all pieces start_streaming))
  unfolding EndsAlike finish_exchange answered_by answer_response
  fed-EndsAlike b q pieces okb okq error first body =
      let s = fed_all pieces start_streaming in
      let t = (last_line emit s).0 in
      let whole_one = parse_llama_server_completion b.body backend.stream in
      let completion : t.completion ≡ whole_one =
        completion_of pieces
        ∙ ap (λ u. parse_llama_server_completion u true) body
        ∙ ap (λ u. parse_llama_server_completion b.body u) (sym streams) in
      let same : is_cancelled_error q ≡ is_cancelled_error b =
        ap (λ u. str_eq u (codes "cancelled")) error in
      elim (Bool-cases (is_cancelled_error b)) [
        | inl e ↦ (
          s.events,
          if-true _ _ _ (same ∙ e) ∙ sym (ap (λ a. (s.events, result_of a)) (if-true _ _ _ e)),
        )
        | inr e ↦
            let answer =
              answer_of-first q b t.completion first
              ∙ ap (answer_of float_to_string backend request exchange 1 b) completion in
            let (events, f) =
              emit_done-takes t.events
                (answer_of float_to_string backend request exchange 1 q t.completion) in
            (
              events,
              if-false _ _ _ (same ∙ e)
                  ∙ if-true _ _ _ okq
                  ∙ if-true _ _ _ (last_line_accepts emit takes s)
                  ∙ f
                  ∙ ap (λ a. (events, result_of a)) answer
                  ∙ sym (ap (λ a. (events, result_of a)) (if-false _ _ _ e ∙ if-true _ _ _ okb)),
            )
      ]

  Agrees-EndsAlike :
      (b : HttpResponse) (o : Option (Streamed Streaming))
      → Agrees (on_body emit) accepts is_cancelled never start_streaming b o
      → (r : Streamed Streaming) × (o ≡ some r)
        × EndsAlike b
            (finish_exchange float_to_string backend emit request exchange false r.response r.state)
  unfolding fed_all
  Agrees-EndsAlike b _ (refused_alike n notok) = (_, refl, refused-EndsAlike b notok)
  Agrees-EndsAlike b _ (fed_alike n q pieces okb okq error first body) =
      (_, refl, fed-EndsAlike b q pieces okb okq error first body)

  -- Both calls return, with one result.
  abbrev pub Same : Type 0
  Same =
      (events : List BackendStreamEvent) × (result : BackendResult) × (server_stream float_to_string
          backend exchange is_cancelled emit request
        ≡ some (events, result))
      × (server_batch float_to_string backend (λ i. exchange) is_cancelled (request ∷ [])
          ≡ some result)

  abbrev url : ParsedHttpUrl
  url = parse_http_url backend.server_url

  abbrev text : Str
  text = request_body float_to_string backend request

  alike-Same :
      (b : HttpResponse) (n : ℕ) (r : Streamed Streaming)
      → url.valid ≡ true
      → http_post_json exchange.network is_cancelled 2 url text ≡ some (b, n)
      → http_post_json_stream
          (on_body emit)
          is_cancelled
          exchange.network
          1
          url
          text
          start_streaming
        ≡ some r
      → EndsAlike b
          (finish_exchange float_to_string backend emit request exchange false r.response r.state)
      → Same
  unfolding EndsAlike
  alike-Same b n r valid e f (events, g) =
      (events, answered_by b, server_stream_one r valid f ∙ ap some g, server_batch_one b n valid e)

  exchange-Same :
      url.valid ≡ true
      → is_clean exchange.network.received ≡ true
      → length (concat (pieces_of exchange.network.received)) ≤ 65536
      → Same
  unfolding http_post_json http_post_json_stream split_first
  exchange-Same valid clean small =
      let received = exchange.network.received in
      elim (open_exchange_alike is_cancelled never exchange.network 1 2 url text) [
        | inl (e, n, m, f, g) ↦
            alike-Same (with_error e no_response) m
              (record { response = with_error e no_response; asked = n; state = start_streaming })
              valid (rw (http_post_json, g) refl) (rw (http_post_json_stream, f) refl)
              (refused-EndsAlike (with_error e no_response) refl)
        | inr (n, m, f, g) ↦
            let (k, e) =
              receive_loop-read_response is_cancelled never m [] no_response received clean
                (omega (arith, small)) in
            let (r, h, ends) = Agrees-EndsAlike _ _ (
              header_loop-Agrees (on_body emit) accepts is_cancelled never (negsuc 0) n []
                start_streaming received clean small refl) in
            alike-Same _ k r valid (rw (http_post_json, g) (ap some e))
              (rw (http_post_json_stream, f) h) ends
      ]

  bad_url-Same : url.valid ≡ false → Same
  unfolding server_stream server_batch
  bad_url-Same invalid = (
    [],
    bad_url,
    if-true _ _ _ streams ∙ if-false _ _ _ (never 0) ∙ if-false _ _ _ invalid,
    if-false _ _ _ (never 0) ∙ if-false _ _ _ invalid,
  )

-- For a backend that streams, an answer of at most 64 KiB in which no `recv` fails, no cancellation, and a
-- callback that takes every event: `ProcessStream` on a request and `ProcessBatch` on it alone return, and
-- with the same result, errors and metadata included, however the network cuts the answer.
pub server_stream-server_batch :
    {F : Type 0} (float_to_string : F → Str) (backend : LlamaServerBackend F)
    → backend.stream ≡ true
    → (is_cancelled : Polls) → ((n : ℕ) → is_cancelled n ≡ false)
    → (emit : Emitter) → ((events : List BackendStreamEvent) → emit events ≡ true)
    → (exchange : Exchange) (request : BackendRequest) → is_clean exchange.network.received ≡ true
    → length (concat (pieces_of exchange.network.received)) ≤ 65536
    → (events : List BackendStreamEvent) × (result : BackendResult) × (server_stream float_to_string
          backend exchange is_cancelled emit request
        ≡ some (events, result))
      × (server_batch float_to_string backend (λ i. exchange) is_cancelled (request ∷ [])
          ≡ some result)
server_stream-server_batch float_to_string backend streams is_cancelled never emit takes exchange
      request clean small =
    elim (Bool-cases (parse_http_url backend.server_url).valid) [
      | inl valid ↦
          exchange-Same float_to_string backend streams is_cancelled never emit takes exchange
            request valid clean small
      | inr invalid ↦
          bad_url-Same float_to_string backend streams is_cancelled never emit takes exchange
            request invalid
    ]
