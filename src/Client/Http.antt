-- ===== src/Client/Http.antt =====
-- The HTTP exchange with the llama server (backend/inference_backend.cc): `HttpPostJson` and
-- `HttpPostJsonStream`. The system's sockets are a `Network`: what the calls of `getaddrinfo`, `socket`,
-- `connect`, `send` and `recv` answer. Timeouts are answers of these calls too.
pub mod Feed
pub mod Opened
pub mod Split
pub mod Fed
use laminar_inference.Base.{
  ℕ, zero, suc, ◌-◌, min, Bool, true, false, ◌&&◌, not, List, [], ◌∷◌, ◌++◌, Option, none, some,
  length, ltb, ◌==◌, if◌then◌else◌, ◌⊎◌, inl, inr,
}
use laminar_inference.Base.Int.{ℤ, pos, negsuc, ltb_ℤ}
use laminar_inference.Base.Text.{Str, codes}
use laminar_inference.Base.Decimal.{to_string, int_to_string}
use laminar_inference.Texts.{is_space}
use laminar_inference.Texts.Json.{strip_prefix, skip_spaces}
use laminar_inference.Backends.{Polls}
use laminar_inference.Client.{ParsedHttpUrl}
use laminar_inference.Client.Answers.{signed_prefix}

-- An address of the host: whether it has a socket, and whether that connects.
pub data Attempt : Type 0 where
  no_socket not_connected connected : Attempt

-- A call of `recv`: some bytes, with the microseconds since the start, or an error, `EINTR` or not.
pub data Received : Type 0 where
  bytes : Str → ℕ → Received
  interrupted : Received
  failed : Received

-- `addresses` is `none` where `getaddrinfo` fails. The `i`th `send` takes `sends i` bytes, if that many are
-- left, and 0 stands for an error. Behind the list `received`, the other side has closed.
pub record Network : Type 0 where
  pub addresses : Option (List Attempt)
  pub sends : ℕ → ℕ
  pub received : List Received

pub record HttpResponse : Type 0 where
  pub ok : Bool
  pub status_code : ℤ
  pub first_response_byte_micros : ℤ
  pub body : Str
  pub error : Str

abbrev pub no_response : HttpResponse
no_response = record {
  ok = false;
  status_code = pos 0;
  first_response_byte_micros = negsuc 0;
  body = [];
  error = [];
}

abbrev pub with_error : Str → HttpResponse → HttpResponse
with_error error response = record response { error = error }

-- How a loop over system calls ended: `stopped` by `is_cancelled`, or `broken` by an error.
pub data Ended : Type 0 where
  through stopped broken : Ended

-- The loop over the addresses, with the number of calls of `is_cancelled` so far.
unfoldable pub connect_loop : Polls → ℕ → List Attempt → Ended × ℕ
connect_loop is_cancelled asked [] = (broken, asked)
connect_loop is_cancelled asked (attempt ∷ attempts) =
    let next = connect_loop is_cancelled (suc asked) attempts in
    if is_cancelled asked
    then (stopped, suc asked)
    else elim attempt [ no_socket ↦ next | not_connected ↦ next | connected ↦ (through, suc asked) ]

-- The loop over `send` on fuel, with the number of bytes that are left to send.
unfoldable pub send_loop : Polls → (ℕ → ℕ) → ℕ → ℕ → ℕ → ℕ → Option (Ended × ℕ)
send_loop is_cancelled sends zero asked index left = none
send_loop is_cancelled sends (suc fuel) asked index left =
    let taken = min (sends index) left in
    elim (left == 0) [
      | true ↦ some (through, asked)
      | false ↦ elim (is_cancelled asked) [
        | true ↦ some (stopped, suc asked)
        | false ↦ elim (taken == 0) [
          | true ↦ some (broken, suc asked)
          | false ↦ send_loop is_cancelled sends fuel (suc asked) (suc index) (left - taken)
        ]
      ]
    ]

unfoldable pub request_text : ParsedHttpUrl → Str → Str
request_text url body =
    codes "POST "
    ++ url.path
    ++ codes " HTTP/1.1\r\n"
    ++ codes "Host: "
    ++ url.host
    ++ codes ":"
    ++ url.port
    ++ codes "\r\n"
    ++ codes "Content-Type: application/json\r\n"
    ++ codes "Content-Length: "
    ++ to_string (length body)
    ++ codes "\r\n"
    ++ codes "Connection: close\r\n\r\n"
    ++ body

-- An exchange that ended early, with its response, or goes on to `recv`.
abbrev pub Opened : Type 0
Opened = (HttpResponse × ℕ) ⊎ ℕ

abbrev pub gives_up : Str → ℕ → Opened
gives_up error asked = inl (with_error error no_response, asked)

unfoldable pub send_request : Network → Polls → ℕ → Str → Option Opened
send_request network is_cancelled asked text =
    elim (send_loop is_cancelled network.sends (suc (length text)) asked 0 (length text)) [
      | none ↦ none
      | some (ended, n) ↦ elim ended [
        | through ↦ some (inr n)
        | stopped ↦ some (gives_up (codes "cancelled") n)
        | broken ↦ some (gives_up (codes "failed to send request to llama server") n)
      ]
    ]

unfoldable pub send_connected : Network → Polls → ParsedHttpUrl → Str → Ended → ℕ → Option Opened
send_connected network is_cancelled url body through asked =
    send_request network is_cancelled asked (request_text url body)
send_connected network is_cancelled url body stopped asked =
    some (gives_up (codes "cancelled") asked)
send_connected network is_cancelled url body broken asked = some (
    gives_up (codes "failed to connect to llama server at " ++ url.host ++ codes ":" ++ url.port)
      asked)

-- The part that both functions begin with: the addresses, the connection and the request.
unfoldable pub open_exchange : Network → Polls → ℕ → ParsedHttpUrl → Str → Option Opened
open_exchange network is_cancelled asked url body = elim network.addresses [
  | none ↦
      some (gives_up (codes "getaddrinfo failed for " ++ url.host ++ codes ":" ++ url.port) asked)
  | some attempts ↦
      let dialed = connect_loop is_cancelled asked attempts in
      send_connected network is_cancelled url body dialed.0 dialed.1
]

-- A text in front of the first occurrence of another, and behind it.
unfoldable pub split_first : Str → Str → Option (Str × Str)
split_first key [] = none
split_first key (c ∷ cs) =
    let later = split_first key cs in
    elim (strip_prefix key (c ∷ cs)) [
      | some rest ↦ some ([], rest)
      | none ↦ elim later [ none ↦ none | some (before, rest) ↦ some (c ∷ before, rest) ]
    ]

abbrev pub crlf : Str
crlf = 13 ∷ 10 ∷ []

abbrev pub front : Str → Option (Str × Str) → Str
front whole none = whole
front whole (some (before, behind)) = before

unfoldable pub skip_word : Str → Str
skip_word [] = []
skip_word (c ∷ cs) = let rest = skip_word cs in if is_space c then c ∷ cs else rest

-- The range of `int`.
unfoldable pub clamp_int : Option ℤ → ℤ
clamp_int none = pos 0
clamp_int (some (pos n)) = if ltb n 2147483648 then pos n else pos 2147483647
clamp_int (some (negsuc n)) = if ltb n 2147483648 then negsuc n else negsuc 2147483647

-- The number behind the first word of the status line, which `>>` reads.
unfoldable pub read_status : Str → ℤ
read_status raw =
    let status_line = front raw (split_first crlf raw) in
    clamp_int (signed_prefix (skip_spaces (skip_word (skip_spaces status_line))))

unfoldable pub is_success : ℤ → Bool
is_success status_code = not (ltb_ℤ status_code (pos 200)) && ltb_ℤ status_code (pos 300)

abbrev pub http_error : ℤ → Str
http_error status_code = codes "llama server returned HTTP " ++ int_to_string status_code

-- `HttpPostJson` behind the loop over `recv`.
unfoldable pub read_response : HttpResponse → Str → HttpResponse
read_response response raw = elim (split_first (crlf ++ crlf) raw) [
  | none ↦ with_error (codes "llama server response was missing HTTP headers") response
  | some (head, body) ↦
      let status_code = read_status raw in
      record response {
        status_code = status_code;
        body = body;
        ok = is_success status_code;
        error = if is_success status_code then response.error else http_error status_code;
      }
]

unfoldable pub note_time : ℕ → HttpResponse → HttpResponse
note_time micros response =
    if ltb_ℤ response.first_response_byte_micros (pos 0)
    then record response { first_response_byte_micros = pos micros }
    else response

-- The loop of `HttpPostJson` over `recv`, and what follows it.
unfoldable pub receive_loop : Polls → ℕ → Str → HttpResponse → List Received → HttpResponse × ℕ
receive_loop is_cancelled asked raw response [] =
    if is_cancelled asked
    then (with_error (codes "cancelled") response, suc asked)
    else (read_response response raw, suc asked)
receive_loop is_cancelled asked raw response (bytes piece micros ∷ rest) =
    let timed = note_time micros response in
    let more = receive_loop is_cancelled (suc asked) (raw ++ piece) timed rest in
    if is_cancelled asked
    then (with_error (codes "cancelled") response, suc asked)
    else if ltb 1048576 (length (raw ++ piece))
    then (with_error (codes "llama server response exceeded 1 MiB") timed, suc asked)
    else more
receive_loop is_cancelled asked raw response (interrupted ∷ rest) =
    let more = receive_loop is_cancelled (suc asked) raw response rest in
    if is_cancelled asked then (with_error (codes "cancelled") response, suc asked) else more
receive_loop is_cancelled asked raw response (failed ∷ rest) =
    if is_cancelled asked
    then (with_error (codes "cancelled") response, suc asked)
    else (with_error (codes "failed to read response from llama server") response, suc asked)

unfoldable pub http_post_json :
    Network → Polls → ℕ → ParsedHttpUrl → Str → Option (HttpResponse × ℕ)
http_post_json network is_cancelled asked url body =
    elim (open_exchange network is_cancelled asked url body) [
      | none ↦ none
      | some (inl early) ↦ some early
      | some (inr n) ↦ some (receive_loop is_cancelled n [] no_response network.received)
    ]
