-- ===== src/Backends/Simulator.antt =====
-- `SimulatorBackend` (backend/inference_backend.cc): it sleeps in steps of at most five milliseconds and
-- asks before each of them whether it is cancelled. The products and sums of `int` are those of the
-- numbers: their overflow is undefined in the source and not modelled.
use laminar_inference.Base.{
  ℕ, zero, suc, ◌+◌, ◌-◌, ◌*◌, ◌/◌, ◌<◌, ◌≡◌, refl, min, Bool, true, false, Bool-cases, inl, inr,
  ◌⊎◌, ◌∙◌, List, [], ◌++◌, map, Option, none, some, length, if◌then◌else◌, ◌==◌, arith,
}
use laminar_inference.Base.Int.{ℤ, pos_part}
use laminar_inference.Base.Text.{Str, codes}
use laminar_inference.Base.Decimal.{to_string}
use laminar_inference.Backends.{BackendRequest, BackendResult, Polls, ok_result, cancelled_result}

pub record SimulatorBackend : Type 0 where
  pub base_latency_ms : ℕ
  pub per_request_latency_ms : ℕ

unfoldable pub make_simulator : ℤ → ℤ → SimulatorBackend
make_simulator base per_request = record {
  base_latency_ms = pos_part base;
  per_request_latency_ms = pos_part per_request;
}

-- How the loop ended: whether it was cancelled, after how many calls of `is_cancelled`, and how long it
-- slept.
pub record Slept : Type 0 where
  pub was_cancelled : Bool
  pub polls : ℕ
  pub slept_ms : ℕ

-- The loop on fuel, and the question behind it.
unfoldable pub sleep_loop : Polls → ℕ → ℕ → ℕ → ℕ → Option Slept
sleep_loop is_cancelled zero asked slept remaining = none
sleep_loop is_cancelled (suc fuel) asked slept remaining =
    let step = min remaining 5 in
    let ended =
      some (record { was_cancelled = is_cancelled asked; polls = suc asked; slept_ms = slept }) in
    elim (remaining == 0) [
      | true ↦ ended
      | false ↦ elim (is_cancelled asked) [
        | true ↦ ended
        | false ↦ sleep_loop is_cancelled fuel (suc asked) (slept + step) (remaining - step)
      ]
    ]

unfoldable pub total_latency : SimulatorBackend → ℕ → ℕ
total_latency backend batch_size =
    backend.base_latency_ms + batch_size * backend.per_request_latency_ms

unfoldable pub simulator_output : ℕ → ℕ → BackendRequest → Str
simulator_output batch_size total request =
    codes "Processed: '"
    ++ request.prompt
    ++ codes "' (backend=simulator, batch_size="
    ++ to_string batch_size
    ++ codes ", latency="
    ++ to_string total
    ++ codes "ms)"

abbrev pub simulator_result : ℕ → ℕ → List BackendRequest → Slept → BackendResult
simulator_result batch_size total requests slept =
    if slept.was_cancelled
    then cancelled_result
    else ok_result (map (simulator_output batch_size total) requests) []

-- `SimulatorBackend::ProcessBatch`, with fuel for its loop.
unfoldable pub simulator_batch :
    SimulatorBackend → Polls → ℕ → List BackendRequest → Option (BackendResult × Slept)
simulator_batch backend is_cancelled fuel requests =
    let batch_size = length requests in
    let total = total_latency backend batch_size in
    elim (sleep_loop is_cancelled fuel 0 0 total) [
      | none ↦ none
      | some slept ↦ some (simulator_result batch_size total requests slept, slept)
    ]

-- The steps of five milliseconds, the last of which may be shorter.
abbrev pub rounds : ℕ → ℕ
rounds total = (total + 4) / 5

-- Whether any of the calls from `first` on, `count` of them, says yes.
abbrev pub any_poll : Polls → ℕ → ℕ → Bool
any_poll is_cancelled first zero = false
any_poll is_cancelled first (suc count) =
    if is_cancelled first then true else any_poll is_cancelled (suc first) count

-- A loop that ended as its polls say, and slept five milliseconds behind each but the last.
pub record EndsAs (is_cancelled : Polls) (asked slept remaining : ℕ) (s : Slept) : Type 0 where
  pub polled : s.was_cancelled ≡ any_poll is_cancelled asked (suc (rounds remaining))
  pub asked_more : asked < s.polls
  pub slept_for : s.slept_ms ≡ slept + min remaining (5 * (s.polls - suc asked))
  pub all_slept : s.was_cancelled ≡ false → s.polls ≡ asked + suc (rounds remaining)

abbrev SleepEnds : Polls → ℕ → ℕ → ℕ → Option Slept → Type 0
SleepEnds is_cancelled asked slept remaining o =
    (s : Slept) × (o ≡ some s) × EndsAs is_cancelled asked slept remaining s

rounds_step :
    (remaining : ℕ)
    → (remaining == 0) ≡ false
    → rounds remaining ≡ suc (rounds (remaining - min remaining 5))
rounds_step remaining h = let more : 0 < remaining = ground arith in omega arith

ends_here :
    (is_cancelled : Polls) (asked slept remaining : ℕ)
    → (remaining ≡ 0) ⊎ (is_cancelled asked ≡ true)
    → EndsAs is_cancelled asked slept remaining
        (record { was_cancelled = is_cancelled asked; polls = suc asked; slept_ms = slept })
ends_here is_cancelled asked slept remaining (inl h) = record {
  polled = rw h (elim (Bool-cases (is_cancelled asked)) [ inl e ↦ rw e refl | inr e ↦ rw e refl ]);
  asked_more = omega arith;
  slept_for = omega (arith, h);
  all_slept = λ f. omega (arith, h);
}
ends_here is_cancelled asked slept remaining (inr h) = record {
  polled = rw h refl;
  asked_more = omega arith;
  slept_for = omega arith;
  all_slept = λ f. ground arith;
}

sleep_loop-SleepEnds :
    (is_cancelled : Polls) (fuel asked slept remaining : ℕ)
    → rounds remaining < fuel
    → SleepEnds is_cancelled asked slept remaining
        (sleep_loop is_cancelled fuel asked slept remaining)
unfolding sleep_loop
sleep_loop-SleepEnds is_cancelled zero asked slept remaining h = absurd (omega arith)
sleep_loop-SleepEnds is_cancelled (suc fuel) asked slept remaining h =
    elim (Bool-cases (remaining == 0)) [
      | inl e ↦
          rw (sleep_loop, e)
            (_, refl, ends_here is_cancelled asked slept remaining (inl (ground arith)))
      | inr e ↦ elim (Bool-cases (is_cancelled asked)) [
        | inl f ↦
            rw (sleep_loop, e, f) (_, refl, ends_here is_cancelled asked slept remaining (inr f))
        | inr f ↦
            let fewer = rounds_step remaining e in
            let more : 0 < remaining = ground arith in
            let (s, same, k) =
              sleep_loop-SleepEnds is_cancelled fuel (suc asked) (slept + min remaining 5)
                (remaining - min remaining 5) (omega (arith, fewer)) in
            rw (sleep_loop, e, f)
              (
                s,
                same,
                record {
                  polled = rw (fewer, f) k.polled;
                  asked_more = omega (arith, k.asked_more);
                  slept_for = omega (arith, k.slept_for, k.asked_more);
                  all_slept = λ g. omega (arith, fewer, k.all_slept g);
                },
              )
      ]
    ]

-- `SimulatorBackend::ProcessBatch` returns, with more fuel than its rounds of five milliseconds: cancelled
-- exactly where one of as many calls of `is_cancelled` as rounds, and one more, says yes, and else an
-- output for each request; it slept five milliseconds for each call before the last, at most the whole
-- latency, and all of it where it was not cancelled.
pub simulator_batch_returns :
    (backend : SimulatorBackend) (is_cancelled : Polls) (fuel : ℕ) (requests : List BackendRequest)
    → let total = total_latency backend (length requests) in
      rounds total < fuel
      → let stopped = any_poll is_cancelled 0 (suc (rounds total)) in
        (s : Slept) × (simulator_batch backend is_cancelled fuel requests
          ≡ some (
            (if stopped
                then cancelled_result
                else ok_result (map (simulator_output (length requests) total) requests) []),
            s,
          ))
        × (s.slept_ms ≡ min total (5 * (s.polls - 1)))
        × ((stopped ≡ true) ⊎ (s.slept_ms ≡ total))
unfolding simulator_batch
simulator_batch_returns backend is_cancelled fuel requests enough =
    let total = total_latency backend (length requests) in
    let (s, same, k) = sleep_loop-SleepEnds is_cancelled fuel 0 0 total enough in
    (
      s,
      rw (same, simulator_batch, k.polled) refl,
      omega (arith, k.slept_for),
      elim (Bool-cases (any_poll is_cancelled 0 (suc (rounds total)))) [
        | inl f ↦ inl f
        | inr f ↦ inr (omega (arith, k.slept_for, k.all_slept (k.polled ∙ f)))
      ],
    )
