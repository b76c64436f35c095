-- ===== src/Client/Stream/Loops.antt =====
-- The loop of `on_body` (Stream): what it leaves to be read.
use mathlib.Core.List.{append_assoc}
use laminar_inference.Base.{
  ℕ, zero, suc, ◌<◌, ◌≡◌, refl, ap, ◌∙◌, inl, inr, Bool, true, false, Bool-cases, [], ◌∷◌, ◌++◌,
  Option, none, some, length, ◌==◌, arith, length-append,
}
use laminar_inference.Base.Text.{Str}
use laminar_inference.Backends.{Emitter}
use laminar_inference.Client.{cut_first}
use laminar_inference.Client.Urls.{lacks}
use laminar_inference.Client.Answers.{LlamaServerCompletion, lines_of, merge_lines}
use laminar_inference.Client.Answers.Streamed.{lines_of-append}
use laminar_inference.Client.Stream.{Streaming, consume_line, consume_lines, on_body}
use laminar_inference.Client.Stream.Lines.{Told, consume_line-merge_line, consume_line-Keeps}

-- The parts of a text at the first line feed.
pub data Cut (s : Str) : Type 0 where
  whole : cut_first 10 s ≡ none → lacks 10 s ≡ true → Cut s
  line :
      (before after : Str)
      → cut_first 10 s ≡ some (before, 10 ∷ after)
      → lacks 10 before ≡ true
      → s ≡ before ++ 10 ∷ after
      → Cut s

pub cut_first-Cut : (s : Str) → Cut s
unfolding cut_first
cut_first-Cut [] = whole refl refl
cut_first-Cut (c ∷ cs) = elim (Bool-cases (c == 10)) [
  | inl e ↦ let same : c ≡ 10 = ground arith in rw same (line [] cs refl refl refl)
  | inr e ↦ elim (cut_first-Cut cs) [
    | whole f g ↦ whole (rw (e, f) refl) (ground arith)
    | line before after f g h ↦
        line (c ∷ before) after (rw (e, f) refl) (ground arith) (ap (λ t. c ∷ t) h)
  ]
]

-- What is still to be read, read as a whole body would be, and the completion that it gives.
unfoldable pub Rest : Streaming → Str → LlamaServerCompletion
Rest s more = merge_lines (lines_of (s.pending_line ++ more)) s.completion

-- The outcome of a loop: the events tell the content, and if nothing was refused, the rest of the body
-- would have given the same as before, and no whole line is pending.
pub record Drained (s t : Streaming) (accepted : Bool) : Type 0 where
  pub told : Told s → Told t
  pub lines : accepted ≡ true → lacks 10 t.pending_line ≡ true
  pub rest : accepted ≡ true → (more : Str) → Rest t more ≡ Rest s more

abbrev pub DrainsTo : Streaming → Option (Streaming × Bool) → Type 0
DrainsTo s o = (t : Streaming) × (accepted : Bool) × (o ≡ some (t, accepted)) × Drained s t accepted

-- One line taken from the front.
abbrev pub taken : Str → Streaming → Streaming
taken after s = record s { pending_line = after }

Rest-taken :
    (emit : Emitter) (s : Streaming) (before after more : Str)
    → lacks 10 before ≡ true
    → s.pending_line ≡ before ++ 10 ∷ after
    → Rest (consume_line emit before (taken after s)).0 more ≡ Rest s more
unfolding Rest merge_lines
Rest-taken emit s before after more h e =
    let k = consume_line-Keeps emit before (taken after s) in
    let same = consume_line-merge_line emit before (taken after s) in
    let again : (before ++ 10 ∷ after) ++ more ≡ before ++ 10 ∷ (after ++ more) =
      append_assoc before (10 ∷ after) more in
    rw (k.pending, same, e, again, lines_of-append before (after ++ more) h) refl

taken-Told :
    (emit : Emitter) (s : Streaming) (before after : Str)
    → Told s
    → Told (consume_line emit before (taken after s)).0
taken-Told emit s before after k =
    (consume_line-Keeps emit before (taken after s)).told
      (record { content = k.content; counted = k.counted })

length-taken :
    (emit : Emitter) (s : Streaming) (before after : Str)
    → s.pending_line ≡ before ++ 10 ∷ after
    → length (consume_line emit before (taken after s)).0.pending_line < length s.pending_line
length-taken emit s before after e =
    let k = consume_line-Keeps emit before (taken after s) in
    rw (k.pending, e) (omega (arith, length-append before (10 ∷ after)))

pub consume_lines-DrainsTo :
    (emit : Emitter) (fuel : ℕ) (s : Streaming)
    → length s.pending_line < fuel
    → DrainsTo s (consume_lines emit fuel s)
unfolding consume_lines
consume_lines-DrainsTo emit zero s h = absurd (omega arith)
consume_lines-DrainsTo emit (suc fuel) s h = elim (cut_first-Cut s.pending_line) [
  | whole e lacking ↦
      rw (consume_lines, e)
        (s, true, refl, record { told = λ k. k; lines = λ f. lacking; rest = λ f more. refl })
  | line before after e lacking same ↦
      let r = consume_line emit before (taken after s) in
      let told = taken-Told emit s before after in
      elim (Bool-cases r.1) [
        | inr f ↦
            rw (consume_lines, e, f)
              (
                r.0,
                false,
                refl,
                record { told = told; lines = λ g. ground arith; rest = λ g. ground arith },
              )
        | inl f ↦
            let less = length-taken emit s before after same in
            let (t, accepted, g, k) = consume_lines-DrainsTo emit fuel r.0 (omega (arith, less)) in
            rw (consume_lines, e, f)
              (
                t,
                accepted,
                g,
                record {
                  told = λ w. k.told (told w);
                  lines = k.lines;
                  rest = λ u more. k.rest u more ∙ Rest-taken emit s before after more lacking same;
                },
              )
      ]
]

pub on_body-DrainsTo :
    (emit : Emitter) (data_ : Str) (s : Streaming)
    → (t : Streaming) × (accepted : Bool) × (on_body emit data_ s ≡ some (t, accepted))
      × (Told s → Told t)
      × (accepted ≡ true → lacks 10 t.pending_line ≡ true)
      × (accepted ≡ true → (more : Str) → Rest t more ≡ Rest s (data_ ++ more))
unfolding on_body Rest
on_body-DrainsTo emit data_ s =
    let pending = s.pending_line ++ data_ in
    let (t, accepted, e, k) =
      consume_lines-DrainsTo emit (suc (length pending)) (record s { pending_line = pending })
        (omega arith) in
    (
      t,
      accepted,
      e,
      λ w. k.told (record { content = w.content; counted = w.counted }),
      k.lines,
      λ f more.
          k.rest f more
          ∙ ap (λ u. merge_lines (lines_of u) s.completion)
              (append_assoc s.pending_line data_ more),
    )
