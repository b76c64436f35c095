-- ===== src/Worker/Responses.antt =====
-- What the service (Worker) answers for the results of the backends.
use laminar_inference.Base.{
  ℕ, ◌≡◌, ◌≢◌, refl, sym, ap, subst, ◌∙◌, ◌⊎◌, inl, inr, true, false, ==_iff, if-elim, List, [],
  ◌∷◌, map, some, length, length-map, ◌==◌, arith, if◌then◌else◌,
}
use laminar_inference.Base.Text.{Str}
use laminar_inference.Base.Assoc.{Map}
use laminar_inference.Backends.{
  BackendStatusCode, ok, cancelled, invalid_argument, unavailable, BackendResult, Polls, is_ok,
}
use laminar_inference.Server.{LlamaServerBackend}
use laminar_inference.Server.Calls.{Exchange, server_batch}
use laminar_inference.Server.Errors.{AllOrNone, server_batch-AllOrNone}
use laminar_inference.Worker.{
  RequestItem, ResponseItem, status_ok, status_internal, Status, backend_request, ok_status,
  status_of, is_no_list, count_status, is_ok_status, head_metadata, tail_metadata, respond,
  service_batch,
}

-- Each response against its request, output and metadata.
pub data Matches (name : Str) (micros : ℕ)
    : List RequestItem → List Str → List (Map Str) → List ResponseItem → Type 0 where
  none_left : (metadata : List (Map Str)) → Matches name micros [] [] metadata []
  one_more :
      (item : RequestItem) (output : Str) (response : ResponseItem) (items : List RequestItem)
      (outputs : List Str) (metadata : List (Map Str)) (responses : List ResponseItem)
      → response.id ≡ item.id
      → response.trace_id ≡ item.trace_id
      → response.result ≡ output
      → response.backend_name ≡ name
      → response.backend_latency_micros ≡ micros
      → response.backend_metadata ≡ head_metadata metadata
      → Matches name micros items outputs (tail_metadata metadata) responses
      → Matches name micros (item ∷ items) (output ∷ outputs) metadata (response ∷ responses)

respond-Matches :
    (name : Str) (micros : ℕ) (items : List RequestItem) (outputs : List Str)
    (metadata : List (Map Str))
    → length outputs ≡ length items
    → Matches name micros items outputs metadata (respond name micros items outputs metadata)
unfolding respond
respond-Matches name micros [] [] metadata h = none_left metadata
respond-Matches name micros [] (o ∷ os) metadata h = absurd (omega (arith, h))
respond-Matches name micros (i ∷ is) [] metadata h = absurd (omega (arith, h))
respond-Matches name micros (i ∷ is) (o ∷ os) metadata h =
    one_more i o _ is os metadata _ refl refl refl refl refl refl
      (respond-Matches name micros is os (tail_metadata metadata) (omega (arith, h)))

-- The answer is ok, with a response for each request, or an error without responses.
abbrev pub Answered :
    Str → ℕ → List RequestItem → BackendResult → Status × List ResponseItem → Type 0
Answered name micros items result (status, responses) =
    ((is_ok result.code ≡ true)
      × (status.code ≡ status_ok)
      × Matches name micros items result.outputs result.output_metadata responses)
    ⊎ ((is_ok_status status.code ≡ false) × (responses ≡ []))

status_of-cases :
    (behind : Status) (code : BackendStatusCode) (message : Str)
    → ((is_ok code ≡ true) × (status_of behind code message ≡ behind))
      ⊎ ((is_ok code ≡ false)
          × (is_ok_status (status_of behind code message).code ≡ false)
          × ((status_of behind code message).code ≢ status_internal))
unfolding status_of
status_of-cases behind ok message = inl (refl, refl)
status_of-cases behind cancelled message = inr (refl, refl, cc)
status_of-cases behind invalid_argument message = inr (refl, refl, cc)
status_of-cases behind unavailable message = inr (refl, refl, cc)

count_status-cases :
    (n : ℕ) (result : BackendResult)
    → ((count_status n result ≡ ok_status) × (length result.outputs ≡ n))
      ⊎ (is_ok_status (count_status n result).code ≡ false)
unfolding count_status
count_status-cases n result =
    let P : Status → Type 0 =
      λ s. ((s ≡ ok_status) × (length result.outputs ≡ n)) ⊎ (is_ok_status s.code ≡ false) in
    if-elim P (length result.outputs == n)
      (λ e.
        let same = (==_iff (length result.outputs) n).0 e in
        if-elim P (is_no_list result.output_metadata) (λ f. inl (refl, same))
          (λ f.
            if-elim P (length result.output_metadata == n) (λ g. inl (refl, same)) (λ g. inr refl)))
      (λ e. inr refl)

failed-Answered :
    (name : Str) (micros : ℕ) (items : List RequestItem) (result : BackendResult) (status : Status)
    (responses : List ResponseItem)
    → is_ok_status status.code ≡ false
    → Answered name micros items result (status, if is_ok_status status.code then responses else [])
failed-Answered name micros items result status responses e =
    inr (e, ap (λ b. if b then responses else []) e)

-- `ProcessBatch` of the service, whatever the backend returned: either the backend's result is ok, the
-- status too, and there is one response for each request, in order, with the request's id and trace id, the
-- backend's output at its place and, where there is any, its metadata; or the status is an error and there
-- are no responses.
pub service_batch-Answered :
    (name : Str) (micros : ℕ) (items : List RequestItem) (result : BackendResult)
    → Answered name micros items result (service_batch name micros items result)
unfolding service_batch
service_batch-Answered name micros items result =
    let responses = respond name micros items result.outputs result.output_metadata in
    let P : Status → Type 0 =
      λ s. Answered name micros items result (s, if is_ok_status s.code then responses else []) in
    let outcome = count_status (length items) result in
    let status = status_of outcome result.code result.message in
    elim (status_of-cases outcome result.code result.message) [
      | inl (good, e) ↦ elim (count_status-cases (length items) result) [
        | inl (f, same) ↦ subst P (sym (e ∙ f)) (
            inl (
              good,
              refl,
              respond-Matches name micros items result.outputs result.output_metadata same,
            ))
        | inr f ↦
            failed-Answered name micros items result status responses
              (ap (λ s. is_ok_status s.code) e ∙ f)
      ]
      | inr (bad, e, f) ↦ failed-Answered name micros items result status responses e
    ]

count_status-ok :
    (n : ℕ) (result : BackendResult)
    → length result.outputs ≡ n
    → length result.output_metadata ≡ n
    → count_status n result ≡ ok_status
unfolding count_status
count_status-ok n result e f =
    let P : Status → Type 0 = λ s. s ≡ ok_status in
    let some_outputs = (==_iff (length result.outputs) n).1 e in
    let some_metadata = (==_iff (length result.output_metadata) n).1 f in
    rw (some_outputs, some_metadata)
      (if-elim P (is_no_list result.output_metadata) (λ g. refl) (λ g. refl))

status_of-AllOrNone :
    (n : ℕ) (result : BackendResult)
    → AllOrNone n result
    → (status_of (count_status n result) result.code result.message).code ≢ status_internal
status_of-AllOrNone n result (inl (good, outputs, metadata)) =
    elim (status_of-cases (count_status n result) result.code result.message) [
      | inl (also, e) ↦ rw (e, count_status-ok n result outputs metadata) cc
      | inr (bad, e, f) ↦ f
    ]
status_of-AllOrNone n result (inr (bad, outputs, metadata)) =
    elim (status_of-cases (count_status n result) result.code result.message) [
      | inl (good, e) ↦ cc
      | inr (also, e, f) ↦ f
    ]

-- The service on the llama server backend, whatever the network and `is_cancelled` answer: the backend
-- returns, and the service answers its result either with ok and one matching response for each request, or
-- with an error without responses that is never INTERNAL.
pub service_batch-server_batch :
    {F : Type 0} (float_to_string : F → Str) (backend : LlamaServerBackend F)
    (exchanges : ℕ → Exchange) (is_cancelled : Polls) (name : Str) (micros : ℕ)
    (items : List RequestItem)
    → (result : BackendResult) × (server_batch float_to_string backend exchanges is_cancelled
          (map backend_request items)
        ≡ some result)
      × Answered name micros items result (service_batch name micros items result)
      × ((service_batch name micros items result).0.code ≢ status_internal)
unfolding service_batch
service_batch-server_batch float_to_string backend exchanges is_cancelled name micros items =
    let (result, e, all) =
      server_batch-AllOrNone float_to_string backend exchanges is_cancelled
        (map backend_request items) in
    (
      result,
      e,
      service_batch-Answered name micros items result,
      status_of-AllOrNone (length items) result
          (subst (λ n. AllOrNone n result) (length-map backend_request items) all),
    )
