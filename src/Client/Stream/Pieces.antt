-- ===== src/Client/Stream/Pieces.antt =====
-- The streamed body (Stream) against the whole one (Answers): what the pieces make of the completion.
use mathlib.Core.List.{append-nil}
use laminar_inference.Base.{
  ◌≡◌, refl, ◌∙◌, ◌⊎◌, inl, inr, Bool, true, false, Bool-cases, List, [], ◌∷◌, some, ◌==◌, arith,
  if-elim,
}
use laminar_inference.Base.Text.{Str, is_empty}
use laminar_inference.Texts.Trimmed.{empty_of}
use laminar_inference.Backends.{Emitter}
use laminar_inference.Client.Urls.{lacks}
use laminar_inference.Client.Output.{concat}
use laminar_inference.Client.Answers.{lines_of, parse_llama_server_completion, merge_lines}
use laminar_inference.Client.Stream.{Streaming, start_streaming, on_pieces, last_line}
use laminar_inference.Client.Stream.Lines.{Told, consume_line-merge_line, consume_line-Keeps}
use laminar_inference.Client.Stream.Loops.{Rest, on_body-DrainsTo}

-- What is known of the pieces after some of them, and at their end.
record Read (s t : Streaming) (accepted : Bool) (pieces : List Str) : Type 0 where
  told : Told s → Told t
  lines : accepted ≡ true → lacks 10 s.pending_line ≡ true → lacks 10 t.pending_line ≡ true
  rest : accepted ≡ true → Rest t [] ≡ Rest s (concat pieces)

on_pieces-Read :
    (emit : Emitter) (pieces : List Str) (s : Streaming)
    → (t : Streaming) × (accepted : Bool) × (on_pieces emit pieces s ≡ some (t, accepted))
      × Read s t accepted pieces
unfolding on_pieces
on_pieces-Read emit [] s =
    (s, true, refl, record { told = λ k. k; lines = λ f g. g; rest = λ f. refl })
on_pieces-Read emit (piece ∷ pieces) s =
    let (m, go_on, e, told, lines, rest) = on_body-DrainsTo emit piece s in
    elim (Bool-cases go_on) [
      | inr f ↦
          rw (on_pieces, e, f)
            (
              m,
              false,
              refl,
              record { told = told; lines = λ g. ground arith; rest = λ g. ground arith },
            )
      | inl f ↦
          let (t, accepted, g, k) = on_pieces-Read emit pieces m in
          rw (on_pieces, e, f)
            (
              t,
              accepted,
              g,
              record {
                told = λ w. k.told (told w);
                lines = λ u w. k.lines u (lines f);
                rest = λ u. k.rest u ∙ rest f (concat pieces);
              },
            )
    ]

lines_of_one : (s : Str) → lacks 10 s ≡ true → is_empty s ≡ false → lines_of s ≡ s ∷ []
unfolding lines_of
lines_of_one [] h k = ground arith
lines_of_one (c ∷ []) h k = let other : (c == 10) ≡ false = ground arith in rw other refl
lines_of_one (c ∷ d ∷ ds) h k =
    let other : (c == 10) ≡ false = ground arith in
    let rest = lines_of_one (d ∷ ds) (ground arith) refl in rw (rest, other) refl

last_line-Rest :
    (emit : Emitter) (s : Streaming)
    → lacks 10 s.pending_line ≡ true
    → (last_line emit s).0.completion ≡ Rest s []
unfolding last_line Rest merge_lines lines_of
last_line-Rest emit s h = elim (Bool-cases (is_empty s.pending_line)) [
  | inl e ↦
      let none_left : s.pending_line ≡ [] = empty_of s.pending_line e in
      rw (last_line, e) (rw none_left refl)
  | inr e ↦
      let one = lines_of_one s.pending_line h e in
      rw (last_line, e)
        (rw (append-nil s.pending_line, one) (consume_line-merge_line emit s.pending_line s))
]

last_line-Told : (emit : Emitter) (s : Streaming) → Told s → Told (last_line emit s).0
unfolding last_line
last_line-Told emit s k =
    if-elim (λ (r : Streaming × Bool). Told r.0) (is_empty s.pending_line) (λ e. k)
      (λ e. (consume_line-Keeps emit s.pending_line s).told k)

-- However the body of an answer is cut into the pieces that `on_body` is called with, and whatever the
-- callback accepts, the calls return, and the deltas of the events emitted so far make up the content, one
-- event per token index; where no event was refused, the completion behind the last line is the one that
-- `ParseLlamaServerCompletion` reads from the whole body.
pub on_pieces-parse_llama_server_completion :
    (emit : Emitter) (pieces : List Str)
    → (t : Streaming) × (accepted : Bool) × (on_pieces emit pieces start_streaming
        ≡ some (t, accepted))
      × Told (last_line emit t).0
      × ((accepted ≡ false)
          ⊎ ((last_line emit t).0.completion ≡ parse_llama_server_completion (concat pieces) true))
unfolding parse_llama_server_completion Rest
on_pieces-parse_llama_server_completion emit pieces =
    let (t, accepted, e, k) = on_pieces-Read emit pieces start_streaming in
    (
      t,
      accepted,
      e,
      last_line-Told emit t (k.told (record { content = refl; counted = refl })),
      elim (Bool-cases accepted) [
        | inl f ↦ inr (last_line-Rest emit t (k.lines f refl) ∙ k.rest f)
        | inr f ↦ inl f
      ],
    )
