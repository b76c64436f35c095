-- ===== src/Client/Stream/Accepted.antt =====
-- The streamed body (Stream) where the callback takes every event.
use laminar_inference.Base.{
  ℕ, zero, suc, ◌≡◌, refl, ◌∙◌, inl, inr, Bool, true, List, some, arith, if-elim, Option-cases,
}
use laminar_inference.Base.Text.{Str, codes, is_empty}
use laminar_inference.Texts.{trim_whitespace}
use laminar_inference.Texts.Json.{strip_prefix}
use laminar_inference.Backends.{Emitter, BackendStreamEvent}
use laminar_inference.Client.Answers.{parse_llama_server_chunk}
use laminar_inference.Client.Stream.{
  Streaming, emit_token, consume_chunk, consume_line, consume_lines, on_body, last_line,
}
use laminar_inference.Client.Stream.Loops.{whole, line, cut_first-Cut, taken, on_body-DrainsTo}

-- A callback that takes every event.
module _ (emit : Emitter) (takes : (events : List BackendStreamEvent) → emit events ≡ true) where
  pub consume_line_accepts : (raw : Str) (s : Streaming) → (consume_line emit raw s).1 ≡ true
  unfolding consume_line consume_chunk emit_token
  consume_line_accepts raw s =
      elim (Option-cases (strip_prefix (codes "data:") (trim_whitespace raw))) [
        | inl e ↦ rw (e, consume_line) refl
        | inr (behind, e) ↦
            let json = trim_whitespace behind in
            let chunk = parse_llama_server_chunk json in
            rw (e, consume_line)
              (if-elim (λ (r : Streaming × Bool). r.1 ≡ true) (is_empty json) (λ f. refl)
                (λ f.
                  if-elim (λ (r : Streaming × Bool). r.1 ≡ true) chunk.done (λ g. refl)
                    (λ g.
                      if-elim (λ (r : Streaming × Bool). r.1 ≡ true) chunk.has_content
                        (λ h. takes _) (λ h. refl))))
      ]

  consume_lines_accepts :
      (fuel : ℕ) (s t : Streaming) (accepted : Bool)
      → consume_lines emit fuel s ≡ some (t, accepted)
      → accepted ≡ true
  unfolding consume_lines
  consume_lines_accepts zero s t accepted h = ground arith
  consume_lines_accepts (suc fuel) s t accepted h = elim (cut_first-Cut s.pending_line) [
    | whole e lacking ↦ ground (arith, (rw (consume_lines, e) at h))
    | line before after e lacking same ↦
        let r = consume_line emit before (taken after s) in
        let ok = consume_line_accepts before (taken after s) in
        consume_lines_accepts fuel r.0 t accepted (rw (consume_lines, e, ok) at h)
  ]

  pub on_body_accepts :
      (piece : Str) (s : Streaming) → (t : Streaming) × (on_body emit piece s ≡ some (t, true))
  unfolding on_body
  on_body_accepts piece s =
      let (t, accepted, e, told, lines, rest) = on_body-DrainsTo emit piece s in
      let ok = consume_lines_accepts _ _ t accepted e in (t, e ∙ rw ok refl)

  pub last_line_accepts : (s : Streaming) → (last_line emit s).1 ≡ true
  unfolding last_line
  last_line_accepts s =
      if-elim (λ (r : Streaming × Bool). r.1 ≡ true) (is_empty s.pending_line) (λ e. refl)
        (λ e. consume_line_accepts s.pending_line s)
