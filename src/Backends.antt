-- ===== src/Backends.antt =====
-- What the backends of backend/inference_backend.h and backend/inference_backend.cc share: requests,
-- results, stream events, and `ProcessStream` where a backend does not override it.
pub mod Simulator
pub mod Generation
pub mod Generated
pub mod Continuous
pub mod Served
pub mod TinyLlm
pub mod Inlined
pub mod Arithmetic
pub mod Arrays
pub mod TinyText
pub mod Layered
pub mod Labels
mod Tests
use laminar_inference.Base.{
  ℕ, suc, Bool, true, false, List, [], ◌∷◌, ◌++◌, if◌then◌else◌, length, ◌==◌,
}
use laminar_inference.Base.Text.{Str, codes}
use laminar_inference.Base.Assoc.{Map, emplace}

pub data BackendStatusCode : Type 0 where
  ok cancelled invalid_argument unavailable : BackendStatusCode

pub record BackendRequest : Type 0 where
  pub id : Str
  pub prompt : Str
  pub trace_id : Str

pub record BackendResult : Type 0 where
  pub code : BackendStatusCode
  pub message : Str
  pub outputs : List Str
  pub output_metadata : List (Map Str)

pub record BackendStreamEvent : Type 0 where
  pub event_type : Str
  pub delta : Str
  pub result : Str
  pub metadata : Map Str

-- `is_cancelled`: the answer of each call, counted from 0.
abbrev pub Polls : Type 0
Polls = ℕ → Bool

-- `BackendStreamCallback`: whether it takes the last of the events that it was given so far.
abbrev pub Emitter : Type 0
Emitter = List BackendStreamEvent → Bool

-- A `std::map` with a list of entries.
abbrev pub map_of : List (Str × Str) → Map Str
map_of entries = place_all entries []
  where
    place_all : List (Str × Str) → Map Str → Map Str
    place_all [] m = m
    place_all ((key, value) ∷ rest) m = place_all rest (emplace key value m)

abbrev pub ok_result : List Str → List (Map Str) → BackendResult
ok_result outputs metadata = record {
  code = ok;
  message = [];
  outputs = outputs;
  output_metadata = metadata;
}

abbrev pub cancelled_result : BackendResult
cancelled_result = record {
  code = cancelled;
  message = codes "batch cancelled";
  outputs = [];
  output_metadata = [];
}

abbrev pub unavailable_result : Str → BackendResult
unavailable_result message = record {
  code = unavailable;
  message = message;
  outputs = [];
  output_metadata = [];
}

abbrev pub is_ok : BackendStatusCode → Bool
is_ok ok = true
is_ok cancelled = false
is_ok invalid_argument = false
is_ok unavailable = false

abbrev pub first_metadata : List (Map Str) → Map Str
first_metadata [] = []
first_metadata (m ∷ ms) = m

abbrev pub done_event : Str → Map Str → BackendStreamEvent
done_event result metadata = record {
  event_type = codes "done";
  delta = [];
  result = result;
  metadata = metadata;
}

-- What `ProcessStream` makes of the outputs of the batch of one: the events, and the result.
abbrev pub stream_outputs :
    Emitter → BackendResult → List Str → List BackendStreamEvent × BackendResult
stream_outputs emit result (output ∷ []) =
    let events = done_event output (first_metadata result.output_metadata) ∷ [] in
    (events, if emit events then result else cancelled_result)
stream_outputs emit result [] =
    ([], unavailable_result (codes "backend returned the wrong number of outputs"))
stream_outputs emit result (a ∷ b ∷ rest) =
    ([], unavailable_result (codes "backend returned the wrong number of outputs"))

-- `InferenceBackend::ProcessStream`, from the result of `ProcessBatch` on the one request.
unfoldable pub process_stream : Emitter → BackendResult → List BackendStreamEvent × BackendResult
process_stream emit result =
    if is_ok result.code then stream_outputs emit result result.outputs else ([], result)
