-- ===== src/Client/Http/Opened.antt =====
-- The end of `open_exchange` (Http): the loop over `send` ends, and what is given up has no response.
use laminar_inference.Base.{
  ℕ, zero, suc, ◌-◌, ◌<◌, ◌≡◌, refl, min, false, ◌⊎◌, inl, inr, Bool-cases, Option-cases, List, [],
  ◌∷◌, Option, some, length, ◌==◌, arith,
}
use laminar_inference.Base.Text.{Str, codes}
use laminar_inference.Backends.{Polls}
use laminar_inference.Client.{ParsedHttpUrl}
use laminar_inference.Client.Http.{
  Attempt, no_socket, not_connected, connected, Network, Ended, through, stopped, broken, send_loop,
  Opened, gives_up, send_request, send_connected, open_exchange, connect_loop, request_text,
}

abbrev Sends : Option (Ended × ℕ) → Type 0
Sends o = (e : Ended) × (n : ℕ) × (o ≡ some (e, n))

send_loop-Sends :
    (is_cancelled : Polls) (sends : ℕ → ℕ) (fuel asked index left : ℕ)
    → left < fuel
    → Sends (send_loop is_cancelled sends fuel asked index left)
unfolding send_loop
send_loop-Sends is_cancelled sends zero asked index left h = absurd (omega arith)
send_loop-Sends is_cancelled sends (suc fuel) asked index left h = elim (Bool-cases (left == 0)) [
  | inl e ↦ rw (send_loop, e) (through, asked, refl)
  | inr e ↦ elim (Bool-cases (is_cancelled asked)) [
    | inl f ↦ rw (send_loop, e, f) (stopped, suc asked, refl)
    | inr f ↦ elim (Bool-cases (min (sends index) left == 0)) [
      | inl g ↦ rw (send_loop, e, f, g) (broken, suc asked, refl)
      | inr g ↦
          let more : 0 < min (sends index) left = ground arith in
          rw (send_loop, e, f, g)
            (send_loop-Sends is_cancelled sends fuel (suc asked) (suc index)
              (left - min (sends index) left) (omega arith))
    ]
  ]
]

-- An exchange gives up with an error, or goes on.
abbrev pub Opens : Option Opened → Type 0
Opens o = ((e : Str) × (n : ℕ) × (o ≡ some (gives_up e n))) ⊎ ((n : ℕ) × (o ≡ some (inr n)))

send_request-Opens :
    (network : Network) (is_cancelled : Polls) (asked : ℕ) (text : Str)
    → Opens (send_request network is_cancelled asked text)
unfolding send_request
send_request-Opens network is_cancelled asked text =
    let (ended, n, e) =
      send_loop-Sends is_cancelled network.sends (suc (length text)) asked 0 (length text)
        (omega arith) in
    rw (e, send_request) (after ended n)
  where
    after :
        (ended : Ended) (n : ℕ)
        → Opens (elim ended [
          | through ↦ some (inr n)
          | stopped ↦ some (gives_up (codes "cancelled") n)
          | broken ↦ some (gives_up (codes "failed to send request to llama server") n)
        ])
    after through n = inr (n, refl)
    after stopped n = inl (_, n, refl)
    after broken n = inl (_, n, refl)

send_connected-Opens :
    (network : Network) (is_cancelled : Polls) (url : ParsedHttpUrl) (body : Str) (ended : Ended)
    (asked : ℕ)
    → Opens (send_connected network is_cancelled url body ended asked)
unfolding send_connected
send_connected-Opens network is_cancelled url body through asked =
    send_request-Opens network is_cancelled asked (request_text url body)
send_connected-Opens network is_cancelled url body stopped asked = inl (_, asked, refl)
send_connected-Opens network is_cancelled url body broken asked = inl (_, asked, refl)

pub open_exchange-Opens :
    (network : Network) (is_cancelled : Polls) (asked : ℕ) (url : ParsedHttpUrl) (body : Str)
    → Opens (open_exchange network is_cancelled asked url body)
unfolding open_exchange
open_exchange-Opens network is_cancelled asked url body = elim (Option-cases network.addresses) [
  | inl e ↦ rw (open_exchange, e) (inl (_, asked, refl))
  | inr (attempts, e) ↦
      rw (open_exchange, e)
        (send_connected-Opens network is_cancelled url body
          (connect_loop is_cancelled asked attempts).0 (connect_loop is_cancelled asked attempts).1)
]

-- Where nothing is cancelled, an exchange opens in the same way however often that was asked before.
abbrev pub OpensAlike : Option Opened → Option Opened → Type 0
OpensAlike o p =
    ((e : Str) × (n : ℕ) × (m : ℕ) × (o ≡ some (gives_up e n)) × (p ≡ some (gives_up e m)))
    ⊎ ((n : ℕ) × (m : ℕ) × (o ≡ some (inr n)) × (p ≡ some (inr m)))

module _ (is_cancelled : Polls) (never : (n : ℕ) → is_cancelled n ≡ false) where
  connect_loop_alike :
      (a b : ℕ) (attempts : List Attempt)
      → (connect_loop is_cancelled a attempts).0 ≡ (connect_loop is_cancelled b attempts).0
  unfolding connect_loop
  connect_loop_alike a b [] = refl
  connect_loop_alike a b (no_socket ∷ rest) =
      rw (never a, never b) (connect_loop_alike (suc a) (suc b) rest)
  connect_loop_alike a b (not_connected ∷ rest) =
      rw (never a, never b) (connect_loop_alike (suc a) (suc b) rest)
  connect_loop_alike a b (connected ∷ rest) = rw (never a, never b) refl

  send_loop_alike :
      (sends : ℕ → ℕ) (fuel a b index left : ℕ)
      → left < fuel
      → (e : Ended) × (n : ℕ) × (m : ℕ) × (send_loop is_cancelled sends fuel a index left
          ≡ some (e, n))
        × (send_loop is_cancelled sends fuel b index left ≡ some (e, m))
  unfolding send_loop
  send_loop_alike sends zero a b index left h = absurd (omega arith)
  send_loop_alike sends (suc fuel) a b index left h = elim (Bool-cases (left == 0)) [
    | inl e ↦ rw (send_loop, e) (through, a, b, refl, refl)
    | inr e ↦ elim (Bool-cases (min (sends index) left == 0)) [
      | inl g ↦ rw (send_loop, e, never a, never b, g) (broken, suc a, suc b, refl, refl)
      | inr g ↦
          let more : 0 < min (sends index) left = ground arith in
          rw (send_loop, e, never a, never b, g)
            (send_loop_alike sends fuel (suc a) (suc b) (suc index) (left - min (sends index) left)
              (omega arith))
    ]
  ]

  send_request_alike :
      (network : Network) (a b : ℕ) (text : Str)
      → OpensAlike
          (send_request network is_cancelled a text)
          (send_request network is_cancelled b text)
  unfolding send_request
  send_request_alike network a b text =
      let (ended, n, m, e, f) =
        send_loop_alike network.sends (suc (length text)) a b 0 (length text) (omega arith) in
      rw (e, f, send_request) (after ended n m)
    where
      after :
          (ended : Ended) (n m : ℕ)
          → OpensAlike
              (elim ended [
                | through ↦ some (inr n)
                | stopped ↦ some (gives_up (codes "cancelled") n)
                | broken ↦ some (gives_up (codes "failed to send request to llama server") n)
              ])
              (elim ended [
                | through ↦ some (inr m)
                | stopped ↦ some (gives_up (codes "cancelled") m)
                | broken ↦ some (gives_up (codes "failed to send request to llama server") m)
              ])
      after through n m = inr (n, m, refl, refl)
      after stopped n m = inl (_, n, m, refl, refl)
      after broken n m = inl (_, n, m, refl, refl)

  send_connected_alike :
      (network : Network) (url : ParsedHttpUrl) (body : Str) (ended : Ended) (a b : ℕ)
      → OpensAlike
          (send_connected network is_cancelled url body ended a)
          (send_connected network is_cancelled url body ended b)
  unfolding send_connected
  send_connected_alike network url body through a b =
      send_request_alike network a b (request_text url body)
  send_connected_alike network url body stopped a b = inl (_, a, b, refl, refl)
  send_connected_alike network url body broken a b = inl (_, a, b, refl, refl)

  pub open_exchange_alike :
      (network : Network) (a b : ℕ) (url : ParsedHttpUrl) (body : Str)
      → OpensAlike
          (open_exchange network is_cancelled a url body)
          (open_exchange network is_cancelled b url body)
  unfolding open_exchange
  open_exchange_alike network a b url body = elim (Option-cases network.addresses) [
    | inl e ↦ rw (open_exchange, e) (inl (_, a, b, refl, refl))
    | inr (attempts, e) ↦
        rw (open_exchange, e, connect_loop_alike b a attempts)
          (send_connected_alike network url body (connect_loop is_cancelled a attempts).0
            (connect_loop is_cancelled a attempts).1 (connect_loop is_cancelled b attempts).1)
  ]
