-- ===== src/Worker/Tests.antt =====
-- The service (Worker) on results that backends may return.
use laminar_inference.Base.{◌≡◌, ◌≢◌, refl, true, false, [], ◌∷◌, map, some}
use laminar_inference.Base.Text.{Str, codes}
use laminar_inference.Base.Int.{pos}
use laminar_inference.Backends.{BackendResult, Polls, ok_result, unavailable_result}
use laminar_inference.Client.Http.{connected, bytes}
use laminar_inference.Server.{LlamaServerBackend}
use laminar_inference.Server.Calls.{Exchange, server_batch}
use laminar_inference.Worker.{
  RequestItem, status_unavailable, status_internal, backend_request, internal_status, status_of,
  count_status, service_batch, service_stream,
}
use laminar_inference.Worker.Responses.{
  Answered, service_batch-Answered, service_batch-server_batch,
}

abbrev item : RequestItem
item = record { id = codes "r1"; prompt = codes "hi"; trace_id = codes "t1" }

too_few :
    service_batch (codes "simulator") 5 (item ∷ item ∷ []) (ok_result (codes "a" ∷ []) [])
    ≡ (internal_status (codes "backend returned the wrong number of outputs"), [])
unfolding service_batch status_of count_status
too_few = refl

not_available :
    service_batch (codes "simulator") 5 (item ∷ []) (unavailable_result (codes "down"))
    ≡ (record { code = status_unavailable; message = codes "down" }, [])
unfolding service_batch status_of count_status
not_available = refl

no_stream_output :
    service_stream (codes "simulator") item [] (ok_result [] [])
    ≡ ([], internal_status (codes "backend returned the wrong number of stream outputs"))
unfolding service_stream status_of
no_stream_output = refl

service_batch-Answered_example :
    Answered (codes "simulator") 5 (item ∷ item ∷ []) (ok_result (codes "a" ∷ codes "b" ∷ []) []) (
      service_batch
        (codes "simulator")
        5
        (item ∷ item ∷ [])
        (ok_result (codes "a" ∷ codes "b" ∷ []) []))
service_batch-Answered_example =
    service_batch-Answered (codes "simulator") 5 (item ∷ item ∷ [])
      (ok_result (codes "a" ∷ codes "b" ∷ []) [])

abbrev backend : LlamaServerBackend (Unit {0})
backend = record {
  server_url = codes "http://localhost:8080/completion";
  max_tokens = pos 16;
  temperature = tt;
  timeout_ms = pos 1000;
  cache_prompt = true;
  stream = false;
  timings_per_token = false;
}

abbrev print_nothing : Unit {0} → Str
print_nothing x = codes "0.700"

abbrev exchange : Exchange
exchange = record {
  network = record {
    addresses = some (connected ∷ []);
    sends = λ i. 64;
    received = bytes (codes "HTTP/1.1 200 OK\r\n\r\n{\"content\":\"hello\"}") 5 ∷ [];
  };
  elapsed_micros = 20;
}

abbrev never : Polls
never i = false

service_batch-server_batch_example :
    (result : BackendResult) × (server_batch print_nothing backend
        (λ i. exchange)
        never
        (map backend_request (item ∷ item ∷ []))
      ≡ some result)
    × Answered
        (codes "llama-server")
        5
        (item ∷ item ∷ [])
        result
        (service_batch (codes "llama-server") 5 (item ∷ item ∷ []) result)
    × ((service_batch (codes "llama-server") 5 (item ∷ item ∷ []) result).0.code ≢ status_internal)
service_batch-server_batch_example =
    service_batch-server_batch print_nothing backend (λ i. exchange) never (codes "llama-server") 5
      (item ∷ item ∷ [])
