-- ===== src/Client/Http/Fed.antt =====
-- The two exchanges of Http and Feed where nothing is cancelled, no `recv` fails and the callback takes
-- every piece.
use mathlib.Core.List.{append_assoc, append-nil}
use laminar_inference.Base.{
  ℕ, suc, ◌≤◌, ◌≡◌, refl, sym, ap, ◌∙◌, inl, inr, Bool, true, false, Bool-cases, List, [], ◌∷◌,
  ◌++◌, Option, none, some, length, ltb, arith, length-append,
}
use laminar_inference.Base.Int.{ℤ, pos, ltb_ℤ}
use laminar_inference.Base.Text.{Str}
use laminar_inference.Backends.{Polls}
use laminar_inference.Client.Output.{concat}
use laminar_inference.Client.Http.{
  Received, bytes, interrupted, failed, HttpResponse, split_first, crlf, read_status, is_success,
  http_error, note_time, read_response, receive_loop,
}
use laminar_inference.Client.Http.Split.{headers_stay}
use laminar_inference.Client.Http.Feed.{
  Streamed, streamed, finish_stream, with_status, feed_piece, body_loop, first_piece, header_loop,
}

abbrev pub is_clean : List Received → Bool
is_clean [] = true
is_clean (bytes piece micros ∷ rest) = is_clean rest
is_clean (interrupted ∷ rest) = is_clean rest
is_clean (failed ∷ rest) = false

abbrev pub pieces_of : List Received → List Str
pieces_of [] = []
pieces_of (bytes piece micros ∷ rest) = piece ∷ pieces_of rest
pieces_of (interrupted ∷ rest) = pieces_of rest
pieces_of (failed ∷ rest) = pieces_of rest

-- The response with the time of the first piece.
abbrev pub time_of : HttpResponse → List Received → HttpResponse
time_of response [] = response
time_of response (bytes piece micros ∷ rest) = time_of (note_time micros response) rest
time_of response (interrupted ∷ rest) = time_of response rest
time_of response (failed ∷ rest) = time_of response rest

module _ (is_cancelled : Polls) (never : (n : ℕ) → is_cancelled n ≡ false) where
  pub receive_loop-read_response :
      (asked : ℕ) (raw : Str) (response : HttpResponse) (received : List Received)
      → is_clean received ≡ true
      → length (raw ++ concat (pieces_of received)) ≤ 1048576
      → (n : ℕ) × (receive_loop is_cancelled asked raw response received
          ≡ (read_response (time_of response received) (raw ++ concat (pieces_of received)), n))
  unfolding receive_loop
  receive_loop-read_response asked raw response [] clean small =
      (suc asked, rw (never asked, append-nil raw) refl)
  receive_loop-read_response asked raw response (bytes piece micros ∷ rest) clean small =
      let again = append_assoc raw piece (concat (pieces_of rest)) in
      let long = length-append (raw ++ piece) (concat (pieces_of rest)) in
      let size : length ((raw ++ piece) ++ concat (pieces_of rest)) ≤ 1048576 = rw again small in
      let within : ltb 1048576 (length (raw ++ piece)) ≡ false = ground (arith, size, long) in
      let (n, e) =
        receive_loop-read_response (suc asked) (raw ++ piece) (note_time micros response) rest clean
          size in
      (n, rw (never asked, within) (e ∙ rw again refl))
  receive_loop-read_response asked raw response (interrupted ∷ rest) clean small =
      let (n, e) = receive_loop-read_response (suc asked) raw response rest clean small in
      (n, rw (never asked) e)
  receive_loop-read_response asked raw response (failed ∷ rest) clean small = ground arith

-- The time of the first byte is there.
abbrev pub IsTimed : HttpResponse → Type 0
IsTimed response = ltb_ℤ response.first_response_byte_micros (pos 0) ≡ false

note_time-IsTimed : (micros : ℕ) (response : HttpResponse) → IsTimed (note_time micros response)
unfolding note_time
note_time-IsTimed micros response =
    elim (Bool-cases (ltb_ℤ response.first_response_byte_micros (pos 0))) [
      | inl e ↦ rw e (ground arith)
      | inr e ↦ rw e e
    ]

note_time_same :
    (micros : ℕ) (response : HttpResponse) → IsTimed response → note_time micros response ≡ response
unfolding note_time
note_time_same micros response timed = rw timed refl

time_of_same :
    (response : HttpResponse) (received : List Received)
    → IsTimed response
    → time_of response received ≡ response
time_of_same response [] timed = refl
time_of_same response (bytes piece micros ∷ rest) timed =
    rw (note_time_same micros response timed) (time_of_same response rest timed)
time_of_same response (interrupted ∷ rest) timed = time_of_same response rest timed
time_of_same response (failed ∷ rest) timed = time_of_same response rest timed

module _ {S : Type 0} (on_body : Str → S → Option (S × Bool))
    (accepts : (piece : Str) (s : S) → (t : S) × (on_body piece s ≡ some (t, true)))
    (is_cancelled : Polls) (never : (n : ℕ) → is_cancelled n ≡ false) where
  -- The callback's state behind some pieces.
  abbrev pub fed : List Str → S → S
  fed [] s = s
  fed (piece ∷ pieces) s = fed pieces (accepts piece s).0

  abbrev Gives : HttpResponse → S → Option (Streamed S) → Type 0
  Gives response t o = (n : ℕ) × (o ≡ streamed response n t)

  -- Responses by their fields, so that `ok` computes.
  abbrev answered : Bool → ℤ → ℤ → Str → Str → HttpResponse
  answered ok status_code first body error = record {
    ok = ok;
    status_code = status_code;
    first_response_byte_micros = first;
    body = body;
    error = error;
  }

  answered_as :
      (b : Bool) (response : HttpResponse)
      → response.ok ≡ b
      → response
        ≡ answered b response.status_code response.first_response_byte_micros response.body
            response.error
  answered_as b response e = ap (λ c. record response { ok = c }) e

  fields_ok :
      (code first : ℤ) (body error : Str) (asked : ℕ) (s : S) (received : List Received)
      → is_clean received ≡ true
      → ltb_ℤ first (pos 0) ≡ false
      → Gives
          (answered true code first body error)
          (fed (pieces_of received) s)
          (body_loop on_body is_cancelled asked (answered true code first body error) s received)
  unfolding body_loop feed_piece finish_stream
  fields_ok code first body error asked s [] clean timed = (suc asked, rw (never asked) refl)
  fields_ok code first body error asked s (bytes piece micros ∷ rest) clean timed =
      let (t, e) = accepts piece s in
      let (n, f) = fields_ok code first body error (suc asked) t rest clean timed in
      (
        n,
        rw
            (
              body_loop,
              never asked,
              note_time_same micros (answered true code first body error) timed,
            )
            (rw (feed_piece, e) f),
      )
  fields_ok code first body error asked s (interrupted ∷ rest) clean timed =
      let (n, f) = fields_ok code first body error (suc asked) s rest clean timed in
      (n, rw (never asked) f)
  fields_ok code first body error asked s (failed ∷ rest) clean timed = ground arith

  fields_kept :
      (code first : ℤ) (body error : Str) (asked : ℕ) (s : S) (received : List Received)
      → is_clean received ≡ true
      → ltb_ℤ first (pos 0) ≡ false
      → length (body ++ concat (pieces_of received)) ≤ 1048576
      → Gives
          (answered false code first (body ++ concat (pieces_of received)) (http_error code))
          s
          (body_loop on_body is_cancelled asked (answered false code first body error) s received)
  unfolding body_loop feed_piece finish_stream
  fields_kept code first body error asked s [] clean timed small =
      (suc asked, rw (never asked, append-nil body) refl)
  fields_kept code first body error asked s (bytes piece micros ∷ rest) clean timed small =
      let again = append_assoc body piece (concat (pieces_of rest)) in
      let long = length-append (body ++ piece) (concat (pieces_of rest)) in
      let size : length ((body ++ piece) ++ concat (pieces_of rest)) ≤ 1048576 = rw again small in
      let within : ltb 1048576 (length (body ++ piece)) ≡ false = ground (arith, size, long) in
      let (n, f) =
        fields_kept code first (body ++ piece) error (suc asked) s rest clean timed size in
      (
        n,
        rw
            (
              body_loop,
              never asked,
              note_time_same micros (answered false code first body error) timed,
            )
            (rw (feed_piece, within) (f ∙ rw again refl)),
      )
  fields_kept code first body error asked s (interrupted ∷ rest) clean timed small =
      let (n, f) = fields_kept code first body error (suc asked) s rest clean timed small in
      (n, rw (never asked) f)
  fields_kept code first body error asked s (failed ∷ rest) clean timed small = ground arith

  -- A streamed exchange against the response of the other function: the same refusal, or the same time and
  -- the same body, fed to the callback in pieces.
  pub data Agrees (s : S) (b : HttpResponse) : Option (Streamed S) → Type 0 where
    refused_alike : (n : ℕ) → b.ok ≡ false → Agrees s b (streamed b n s)
    fed_alike :
        (n : ℕ) (q : HttpResponse) (pieces : List Str)
        → b.ok ≡ true
        → q.ok ≡ true
        → q.error ≡ b.error
        → q.first_response_byte_micros ≡ b.first_response_byte_micros
        → concat pieces ≡ b.body
        → Agrees s b (streamed q n (fed pieces s))

  success-Agrees :
      (code first : ℤ) (asked : ℕ) (s : S) (piece : Str) (rest : List Received)
      → is_clean rest ≡ true
      → ltb_ℤ first (pos 0) ≡ false
      → Agrees s
          (answered true code first (piece ++ concat (pieces_of rest)) [])
          (first_piece on_body is_cancelled asked (answered true code first [] []) s piece rest)
  unfolding first_piece
  success-Agrees code first asked s [] rest clean timed =
      let (n, e) = fields_ok code first [] [] (suc asked) s rest clean timed in
      rw e (fed_alike n _ (pieces_of rest) refl refl refl refl refl)
  success-Agrees code first asked s (c ∷ cs) rest clean timed =
      let (t, f) = accepts (c ∷ cs) s in
      let (n, e) = fields_ok code first [] [] (suc asked) t rest clean timed in
      rw (first_piece, f)
        (rw e (fed_alike n _ ((c ∷ cs) ∷ pieces_of rest) refl refl refl refl refl))

  failure-Agrees :
      (code first : ℤ) (asked : ℕ) (s : S) (piece : Str) (rest : List Received)
      → is_clean rest ≡ true
      → ltb_ℤ first (pos 0) ≡ false
      → length (piece ++ concat (pieces_of rest)) ≤ 1048576
      → Agrees s
          (answered false code first (piece ++ concat (pieces_of rest)) (http_error code))
          (first_piece on_body is_cancelled asked (answered false code first [] []) s piece rest)
  unfolding first_piece
  failure-Agrees code first asked s [] rest clean timed small =
      let (n, e) = fields_kept code first [] [] (suc asked) s rest clean timed small in
      rw e (refused_alike n refl)
  failure-Agrees code first asked s (c ∷ cs) rest clean timed small =
      let (n, e) = fields_kept code first (c ∷ cs) [] (suc asked) s rest clean timed small in
      rw e (refused_alike n refl)

  -- The response while the headers are read.
  abbrev pub blank : ℤ → HttpResponse
  blank first = answered false (pos 0) first [] []

  note_time-blank :
      (micros : ℕ) (first : ℤ)
      → (f : ℤ) × (note_time micros (blank first) ≡ blank f) × (ltb_ℤ f (pos 0) ≡ false)
  unfolding note_time
  note_time-blank micros first = elim (Bool-cases (ltb_ℤ first (pos 0))) [
    | inl e ↦ (pos micros, rw e refl, ground arith)
    | inr e ↦ (first, rw e refl, e)
  ]

  header_found-Agrees :
      (all before behind : Str) (first : ℤ) (asked : ℕ) (s : S) (rest : List Received)
      → is_clean rest ≡ true
      → ltb_ℤ first (pos 0) ≡ false
      → split_first (crlf ++ crlf) (all ++ concat (pieces_of rest))
        ≡ some (before, behind ++ concat (pieces_of rest))
      → read_status (all ++ concat (pieces_of rest)) ≡ read_status all
      → length (behind ++ concat (pieces_of rest)) ≤ 1048576
      → Agrees s
          (read_response (blank first) (all ++ concat (pieces_of rest)))
          (first_piece on_body is_cancelled asked (with_status all (blank first)) s behind rest)
  unfolding read_response with_status
  header_found-Agrees all before behind first asked s rest clean timed found status small =
      elim (Bool-cases (is_success (read_status all))) [
        | inl e ↦
            rw (read_response, found, status, e)
              (success-Agrees (read_status all) first asked s behind rest clean timed)
        | inr e ↦
            rw (read_response, found, status, e)
              (failure-Agrees (read_status all) first asked s behind rest clean timed small)
      ]

  pub header_loop-Agrees :
      (first : ℤ) (asked : ℕ) (buffered : Str) (s : S) (received : List Received)
      → is_clean received ≡ true
      → length (buffered ++ concat (pieces_of received)) ≤ 65536
      → split_first (crlf ++ crlf) buffered ≡ none
      → Agrees s
          (read_response (time_of (blank first) received) (buffered ++ concat (pieces_of received)))
          (header_loop on_body is_cancelled asked buffered (blank first) s received)
  unfolding header_loop read_response finish_stream
  header_loop-Agrees first asked buffered s [] clean small missing =
      rw (read_response, never asked, append-nil buffered, missing) (refused_alike (suc asked) refl)
  header_loop-Agrees first asked buffered s (bytes piece micros ∷ rest) clean small missing =
      let all = buffered ++ piece in
      let again = append_assoc buffered piece (concat (pieces_of rest)) in
      let size : length (all ++ concat (pieces_of rest)) ≤ 65536 = rw again small in
      let long = length-append all (concat (pieces_of rest)) in
      let (f, noted, timed) = note_time-blank micros first in
      rw (noted, sym again)
        (elim (headers_stay all (concat (pieces_of rest))) [
          | inl none_yet ↦
              let within : ltb 65536 (length all) ≡ false = ground (arith, size, long) in
              rw (header_loop, never asked, none_yet, within, noted)
                (header_loop-Agrees f (suc asked) all s rest clean size none_yet)
          | inr (before, behind, now, found, status, shorter) ↦
              let longer = length-append behind (concat (pieces_of rest)) in
              rw (header_loop, never asked, now, noted, time_of_same (blank f) rest timed)
                (header_found-Agrees all before behind f asked s rest clean timed found status
                  (omega (arith, size, long, longer, shorter)))
        ])
  header_loop-Agrees first asked buffered s (interrupted ∷ rest) clean small missing =
      rw (never asked) (header_loop-Agrees first (suc asked) buffered s rest clean small missing)
  header_loop-Agrees first asked buffered s (failed ∷ rest) clean small missing = ground arith
