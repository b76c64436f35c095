-- ===== src/Client/Stream.antt =====
-- The body of a streamed answer (`LlamaServerBackend::ProcessStream` of backend/inference_backend.cc): the
-- lambdas `consume_line` and `on_body`, and the state that they share.
pub mod Lines
pub mod Loops
pub mod Pieces
pub mod Accepted
use laminar_inference.Base.{
  ℕ, zero, suc, ◌+◌, Bool, true, false, List, [], ◌∷◌, ◌++◌, Option, none, some, length,
  if◌then◌else◌,
}
use laminar_inference.Base.Int.{pos, ltb_ℤ}
use laminar_inference.Base.Text.{Str, codes, is_empty}
use laminar_inference.Base.Decimal.{to_string, int_to_string}
use laminar_inference.Texts.{trim_whitespace}
use laminar_inference.Texts.Json.{strip_prefix}
use laminar_inference.Backends.{BackendStreamEvent, Emitter, map_of}
use laminar_inference.Client.{cut_first}
use laminar_inference.Client.Answers.{
  LlamaServerChunk, LlamaServerCompletion, no_completion, parse_llama_server_chunk,
}

-- The variables that the lambdas capture, and the events emitted so far.
pub record Streaming : Type 0 where
  pub completion : LlamaServerCompletion
  pub pending_line : Str
  pub token_index : ℕ
  pub events : List BackendStreamEvent

abbrev pub start_streaming : Streaming
start_streaming = record {
  completion = no_completion;
  pending_line = [];
  token_index = 0;
  events = [];
}

unfoldable pub token_event : ℕ → Str → LlamaServerCompletion → BackendStreamEvent
token_event token_index content completion = record {
  event_type = codes "token";
  delta = content;
  result = [];
  metadata = map_of (
      (codes "stream", codes "true")
      ∷ (codes "token_index", to_string token_index)
      ∷ (codes "delta_chars", to_string (length content))
      ∷ (codes "stream_chunks", to_string completion.stream_chunks)
      ∷ (codes "tokens_predicted", int_to_string completion.tokens_predicted)
      ∷ (codes "tokens_evaluated", int_to_string completion.tokens_evaluated)
      ∷ []);
}

-- `consume_line` on the counts of a chunk.
unfoldable pub count_chunk : LlamaServerChunk → LlamaServerCompletion → LlamaServerCompletion
count_chunk chunk completion = record completion {
  stream_chunks = completion.stream_chunks + 1;
  tokens_predicted =
      if ltb_ℤ chunk.tokens_predicted (pos 0)
      then completion.tokens_predicted
      else chunk.tokens_predicted;
  tokens_evaluated =
      if ltb_ℤ chunk.tokens_evaluated (pos 0)
      then completion.tokens_evaluated
      else chunk.tokens_evaluated;
}

-- `consume_line` on the content of a chunk.
unfoldable pub emit_token : Emitter → Str → LlamaServerCompletion → Streaming → Streaming × Bool
emit_token emit content counted s =
    let completion : LlamaServerCompletion = record counted {
      content = counted.content ++ content;
    } in
    let events = s.events ++ token_event s.token_index content completion ∷ [] in
    (
      record s { completion = completion; token_index = s.token_index + 1; events = events },
      emit events,
    )

unfoldable pub consume_chunk : Emitter → LlamaServerChunk → Streaming → Streaming × Bool
consume_chunk emit chunk s =
    let counted = count_chunk chunk s.completion in
    if chunk.done
    then (s, true)
    else if chunk.has_content
    then emit_token emit chunk.content counted s
    else (record s { completion = counted }, true)

unfoldable pub consume_line : Emitter → Str → Streaming → Streaming × Bool
consume_line emit raw s = elim (strip_prefix (codes "data:") (trim_whitespace raw)) [
  | none ↦ (s, true)
  | some behind ↦
      let payload = trim_whitespace behind in
      if is_empty payload
      then (s, true)
      else consume_chunk emit (parse_llama_server_chunk payload) s
]

abbrev pub tail : Str → Str
tail [] = []
tail (c ∷ cs) = cs

-- The loop of `on_body` on fuel: each round takes a line from the front of `pending_line`.
unfoldable pub consume_lines : Emitter → ℕ → Streaming → Option (Streaming × Bool)
consume_lines emit zero s = none
consume_lines emit (suc fuel) s = elim (cut_first 10 s.pending_line) [
  | none ↦ some (s, true)
  | some (line, rest) ↦
      let (t, accepted) = consume_line emit line (record s { pending_line = tail rest }) in
      elim accepted [ true ↦ consume_lines emit fuel t | false ↦ some (t, false) ]
]

-- `on_body`, with fuel for one round per character and one more.
unfoldable pub on_body : Emitter → Str → Streaming → Option (Streaming × Bool)
on_body emit data_ s =
    let pending = s.pending_line ++ data_ in
    consume_lines emit (suc (length pending)) (record s { pending_line = pending })

-- The calls of `on_body` on the pieces of a body, up to the first that is refused.
unfoldable pub on_pieces : Emitter → List Str → Streaming → Option (Streaming × Bool)
on_pieces emit [] s = some (s, true)
on_pieces emit (piece ∷ pieces) s = elim (on_body emit piece s) [
  | none ↦ none
  | some (t, accepted) ↦ elim accepted [ true ↦ on_pieces emit pieces t | false ↦ some (t, false) ]
]

-- The line that the body ended in, if it is not empty.
unfoldable pub last_line : Emitter → Streaming → Streaming × Bool
last_line emit s = if is_empty s.pending_line then (s, true) else consume_line emit s.pending_line s
