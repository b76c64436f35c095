-- ===== src/Worker.antt =====
-- The gRPC service of backend/main.cc, `InferenceServiceImpl`: how a backend's result becomes a status and
-- responses. The generated messages are records with the fields that the service sets or reads, and the
-- log lines are left out.
pub mod Responses
mod Tests
use laminar_inference.Base.{
  ℕ, Bool, true, false, not, ◌&&◌, List, [], ◌∷◌, map, length, ◌==◌, if◌then◌else◌,
}
use laminar_inference.Base.Text.{Str, codes}
use laminar_inference.Base.Assoc.{Map}
use laminar_inference.Backends.{
  BackendStatusCode, ok, cancelled, invalid_argument, unavailable, BackendRequest, BackendResult,
  BackendStreamEvent,
}

pub record RequestItem : Type 0 where
  pub id : Str
  pub prompt : Str
  pub trace_id : Str

pub record ResponseItem : Type 0 where
  pub id : Str
  pub trace_id : Str
  pub result : Str
  pub backend_name : Str
  pub backend_latency_micros : ℕ
  pub backend_metadata : Map Str

pub record StreamResponse : Type 0 where
  pub id : Str
  pub trace_id : Str
  pub event_type : Str
  pub delta : Str
  pub result : Str
  pub backend_name : Str
  pub backend_metadata : Map Str

-- The status codes that the service returns.
pub data StatusCode : Type 0 where
  status_ok status_cancelled status_invalid_argument status_unavailable status_internal : StatusCode

pub record Status : Type 0 where
  pub code : StatusCode
  pub message : Str

unfoldable pub backend_request : RequestItem → BackendRequest
backend_request item = record { id = item.id; prompt = item.prompt; trace_id = item.trace_id }

abbrev pub ok_status : Status
ok_status = record { code = status_ok; message = [] }

abbrev pub internal_status : Str → Status
internal_status message = record { code = status_internal; message = message }

-- The status of a result, where `behind` is the one of a result without error.
unfoldable pub status_of : Status → BackendStatusCode → Str → Status
status_of behind cancelled message = record { code = status_cancelled; message = message }
status_of behind invalid_argument message = record {
  code = status_invalid_argument;
  message = message;
}
status_of behind unavailable message = record { code = status_unavailable; message = message }
status_of behind ok message = behind

abbrev pub is_no_list : {A : Type 0} → List A → Bool
is_no_list [] = true
is_no_list (x ∷ xs) = false

-- The tests of the numbers of outputs and of metadata records.
unfoldable pub count_status : ℕ → BackendResult → Status
count_status requests result =
    if length result.outputs == requests
    then (if is_no_list result.output_metadata
        then ok_status
        else if length result.output_metadata == requests
        then ok_status
        else internal_status (codes "backend returned the wrong number of metadata records"))
    else internal_status (codes "backend returned the wrong number of outputs")

abbrev pub is_ok_status : StatusCode → Bool
is_ok_status status_ok = true
is_ok_status status_cancelled = false
is_ok_status status_invalid_argument = false
is_ok_status status_unavailable = false
is_ok_status status_internal = false

abbrev pub head_metadata : List (Map Str) → Map Str
head_metadata [] = []
head_metadata (m ∷ ms) = m

abbrev pub tail_metadata : List (Map Str) → List (Map Str)
tail_metadata [] = []
tail_metadata (m ∷ ms) = ms

-- The loop over the requests; out of range there are no responses.
unfoldable pub respond : Str → ℕ → List RequestItem → List Str → List (Map Str) → List ResponseItem
respond name micros [] outputs metadata = []
respond name micros (item ∷ items) [] metadata = []
respond name micros (item ∷ items) (output ∷ outputs) metadata =
    record {
      id = item.id;
      trace_id = item.trace_id;
      result = output;
      backend_name = name;
      backend_latency_micros = micros;
      backend_metadata = head_metadata metadata;
    }
    ∷ respond name micros items outputs (tail_metadata metadata)

-- `ProcessBatch` behind the call of the backend, with its name and the microseconds that it took.
unfoldable pub service_batch :
    Str → ℕ → List RequestItem → BackendResult → Status × List ResponseItem
service_batch name micros items result =
    let status = status_of (count_status (length items) result) result.code result.message in
    (
      status,
      if is_ok_status status.code
          then respond name micros items result.outputs result.output_metadata
          else [],
    )

-- The message of an event, which `Stream` writes.
unfoldable pub stream_response : Str → RequestItem → BackendStreamEvent → StreamResponse
stream_response name item event = record {
  id = item.id;
  trace_id = item.trace_id;
  event_type = event.event_type;
  delta = event.delta;
  result = event.result;
  backend_name = name;
  backend_metadata = event.metadata;
}

-- `Stream` behind the call of the backend: the messages written and the status.
unfoldable pub service_stream :
    Str → RequestItem → List BackendStreamEvent → BackendResult → List StreamResponse × Status
service_stream name item events result = (
  map (stream_response name item) events,
  status_of
      (if length result.outputs == 1
        then ok_status
        else internal_status (codes "backend returned the wrong number of stream outputs"))
      result.code result.message,
)
