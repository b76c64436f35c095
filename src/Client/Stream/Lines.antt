-- ===== src/Client/Stream/Lines.antt =====
-- `consume_line` (Stream) against the loop over the lines of a whole body (Answers).
use mathlib.Core.List.{append_assoc, append-nil}
use laminar_inference.Base.{
  ◌+◌, ◌≡◌, refl, sym, ap, ◌∙◌, inl, inr, Bool, false, Bool-cases, List, [], ◌∷◌, ◌++◌, map, length,
  arith, length-append, if-elim, Option-cases,
}
use laminar_inference.Base.Text.{Str, codes, str_eq, is_empty}
use laminar_inference.Texts.{trim_whitespace}
use laminar_inference.Texts.Trimmed.{trim_whitespace_idem}
use laminar_inference.Texts.Json.{strip_prefix}
use laminar_inference.Backends.{Emitter, BackendStreamEvent}
use laminar_inference.Client.Output.{concat}
use laminar_inference.Client.Answers.{
  LlamaServerCompletion, parse_llama_server_chunk, merge_llama_server_json_chunk, merge_line,
}
use laminar_inference.Client.Stream.{
  Streaming, count_chunk, emit_token, consume_chunk, consume_line, token_event,
}

parse_llama_server_chunk-done :
    (json : Str)
    → (parse_llama_server_chunk json).done ≡ str_eq (trim_whitespace json) (codes "[DONE]")
unfolding parse_llama_server_chunk
parse_llama_server_chunk-done json =
    elim (Bool-cases (str_eq (trim_whitespace json) (codes "[DONE]"))) [
      | inl e ↦ rw e refl
      | inr e ↦ rw e refl
    ]

-- A step keeps the line that is pending, and the events tell the content.
abbrev pub deltas : List BackendStreamEvent → Str
deltas events = concat (map (λ e. e.delta) events)

pub record Told (s : Streaming) : Type 0 where
  pub content : deltas s.events ≡ s.completion.content
  pub counted : length s.events ≡ s.token_index

consume_chunk-merge :
    (emit : Emitter) (json : Str) (s : Streaming)
    → (parse_llama_server_chunk json).done ≡ false
    → (consume_chunk emit (parse_llama_server_chunk json) s).0.completion
      ≡ merge_llama_server_json_chunk json
          (record s.completion { stream_chunks = s.completion.stream_chunks + 1 })
unfolding consume_chunk count_chunk emit_token merge_llama_server_json_chunk
consume_chunk-merge emit json s h = elim (Bool-cases (parse_llama_server_chunk json).has_content) [
  | inl e ↦ rw (h, e) refl
  | inr e ↦ rw (h, e) refl
]

-- `consume_line` and the loop over the lines of a whole body agree on each line.
pub consume_line-merge_line :
    (emit : Emitter) (line : Str) (s : Streaming)
    → (consume_line emit line s).0.completion ≡ merge_line line s.completion
unfolding consume_line merge_line consume_chunk
consume_line-merge_line emit line s =
    elim (Option-cases (strip_prefix (codes "data:") (trim_whitespace line))) [
      | inl e ↦ rw (e, consume_line, merge_line) refl
      | inr (behind, e) ↦
          let json = trim_whitespace behind in
          let done : (parse_llama_server_chunk json).done ≡ str_eq json (codes "[DONE]") =
            parse_llama_server_chunk-done json
            ∙ ap (λ t. str_eq t (codes "[DONE]")) (trim_whitespace_idem behind) in
          elim (Bool-cases (is_empty json)) [
            | inl f ↦ rw (e, f, consume_line, merge_line) refl
            | inr f ↦ elim (Bool-cases (str_eq json (codes "[DONE]"))) [
              | inl g ↦ rw (e, f, g, consume_line, merge_line) (rw (consume_chunk, done, g) refl)
              | inr g ↦
                  rw (e, f, g, consume_line, merge_line)
                    (consume_chunk-merge emit json s (done ∙ g))
            ]
          ]
    ]

-- What any line keeps: a step of the state on any event of the body.
pub record Keeps (s t : Streaming) : Type 0 where
  pub pending : t.pending_line ≡ s.pending_line
  pub told : Told s → Told t

Keeps-refl : (s : Streaming) → Keeps s s
Keeps-refl s = record { pending = refl; told = λ k. k }

deltas-append :
    (events : List BackendStreamEvent) (e : BackendStreamEvent)
    → deltas (events ++ e ∷ []) ≡ deltas events ++ e.delta
deltas-append [] e = append-nil e.delta
deltas-append (d ∷ ds) e =
    ap (λ t. d.delta ++ t) (deltas-append ds e) ∙ sym (append_assoc d.delta (deltas ds) e.delta)

emit_token-Keeps :
    (emit : Emitter) (content : Str) (c : LlamaServerCompletion) (s : Streaming)
    → c.content ≡ s.completion.content
    → Keeps s (emit_token emit content c s).0
unfolding emit_token token_event
emit_token-Keeps emit content c s h = record {
  pending = refl;
  told = λ k. record {
    content = deltas-append s.events _ ∙ ap (λ t. t ++ content) (k.content ∙ sym h);
    counted = omega (arith, length-append s.events (_ ∷ []), k.counted);
  };
}

consume_chunk-Keeps :
    (emit : Emitter) (json : Str) (s : Streaming)
    → Keeps s (consume_chunk emit (parse_llama_server_chunk json) s).0
unfolding consume_chunk count_chunk
consume_chunk-Keeps emit json s =
    let chunk = parse_llama_server_chunk json in
    if-elim (λ (r : Streaming × Bool). Keeps s r.0) chunk.done (λ e. Keeps-refl s)
      (λ e.
        if-elim (λ (r : Streaming × Bool). Keeps s r.0) chunk.has_content
          (λ f. emit_token-Keeps emit chunk.content (count_chunk chunk s.completion) s refl)
          (λ f. record {
            pending = refl;
            told = λ k. record { content = k.content; counted = k.counted };
          }))

pub consume_line-Keeps :
    (emit : Emitter) (line : Str) (s : Streaming) → Keeps s (consume_line emit line s).0
unfolding consume_line
consume_line-Keeps emit line s =
    elim (Option-cases (strip_prefix (codes "data:") (trim_whitespace line))) [
      | inl e ↦ rw (e, consume_line) (Keeps-refl s)
      | inr (behind, e) ↦
          rw (e, consume_line)
            (if-elim (λ (r : Streaming × Bool). Keeps s r.0) (is_empty (trim_whitespace behind))
              (λ f. Keeps-refl s) (λ f. consume_chunk-Keeps emit (trim_whitespace behind) s))
    ]
