-- ===== src/Transport/Retry.antt =====
-- The retry loop of `send`: it ends within `max_attempts` requests, at the first outcome that is
-- not worth a retry.
use employee_tracker.Common.{
  ℕ, zero, suc, ◌+◌, ◌-◌, ◌^◌, ◌≤◌, ◌<◌, ◌≡◌, ◌≢◌, ◌⊎◌, inl, inr, not, ◌||◌, Option, none, some,
  List, Result, ok, err, Error, arith, length, Bool-cases, Result-cases, ◌==◌,
}
use native.Mathlib.Decide.{ℕ_discrete}
use employee_tracker.Common.Int.{ℤ}
use employee_tracker.Models.{Float, Fields, DeliveryResult, retriable}
use employee_tracker.Floats.{FloatOps}
use employee_tracker.Transport.Delay.{Parsers, retry_delay, jittered}
use employee_tracker.Transport.Delivery.{
  Transport, Session, Request, Response, Outcome, timeout, response, foreign, classify_status,
  status_code, asked_of, attempt_result, round_of, send_loop, send, is_retriable, request_of,
  validate_payload,
}
use employee_tracker.Transport.BadDate.{AsksBadDate, attempt_result-err}

-- Powers of two below 2 ** 1024 fit a float.
abbrev pub PowersFit : FloatOps → Type 0
PowersFit f = (k : ℕ) → k < 1024 → (x : Float) × (f.of_int (2 ^ k) ≡ some x)

-- Every exception of a request is a RequestException.
abbrev pub OnlyRequestErrors : Session → Type 0
OnlyRequestErrors s = (n : ℕ) (q : Request) (e : Error) → s.post n q ≢ foreign e

jittered-ne-err :
    (f : FloatOps) (n : ℕ) (r : Option Float) (e : Error)
    → PowersFit f
    → n ≤ 1024
    → 0 < n
    → jittered f n r ≢ err e
unfolding jittered
jittered-ne-err f n r e fit h h0 =
    let (x, fits) = fit (n - 1) (omega arith) in λ bad. ground (arith, fits, bad)

retry_delay-ne-err :
    (f : FloatOps) (n : ℕ) (r o : Option Float) (e : Error)
    → PowersFit f
    → n ≤ 1024
    → 0 < n
    → retry_delay f n r o ≢ err e
unfolding retry_delay
retry_delay-ne-err f n r none e fit h h0 = jittered-ne-err f n r e fit h h0
retry_delay-ne-err f n r (some a) e fit h h0 = ground (arith, jittered-ne-err f n r e fit h h0)

attempts-attempt_result :
    (f : FloatOps) (p : Parsers) (now : ℤ) (n : ℕ) (o : Outcome) (r : DeliveryResult × Option Float)
    → attempt_result f p now n o ≡ ok r
    → r.0.attempts ≡ n
unfolding attempt_result
attempts-attempt_result f p now n timeout r h = cc
attempts-attempt_result f p now n (response q) r h =
    elim (Result-cases (asked_of f p now q (classify_status (status_code q)))) [
      | inl (asked, good) ↦ ground arith
      | inr (e, bad) ↦ ground arith
    ]
attempts-attempt_result f p now n o r h = ground arith

-- What the loop says of its result: the attempt that it reached, and the delays before it.
pub record Ends (max attempt : ℕ) (r : DeliveryResult) (run : Result DeliveryResult × List Float)
    : Type 0 where
  pub returns : run.0 ≡ ok r
  pub from_start : attempt ≤ r.attempts
  pub within : r.attempts ≤ max
  pub gave_up : r.kind ≡ retriable → r.attempts ≡ max
  pub slept : length run.1 + attempt ≡ r.attempts

-- A run that raises because of the date in the Retry-After header of a retriable response, at the
-- attempt `at`, which comes behind one delay for each attempt before it.
pub record OutOfDate (f : FloatOps) (p : Parsers) (t : Transport) (s : Session) (payload : Fields)
    (attempt : ℕ) (run : Result DeliveryResult × List Float) : Type 0 where
  pub raised : Error
  pub answer : Response
  pub at : ℕ
  pub raises : run.0 ≡ err raised
  pub from_start : attempt ≤ at
  pub within : at ≤ t.max_attempts
  pub answered : s.post at (request_of t payload) ≡ response answer
  pub worth_retry : classify_status (status_code answer) ≡ retriable
  pub asked : AsksBadDate p answer raised
  pub slept : length run.1 + attempt ≡ at

module _ (f : FloatOps) (p : Parsers) (t : Transport) (s : Session) (payload : Fields)
    (fit : PowersFit f) (few : t.max_attempts ≤ 1024) (only : OnlyRequestErrors s) where
  round_of-err :
      (n : ℕ) (e : Error)
      → round_of f p t s payload n ≡ err e
      → (r : Response) × (s.post n (request_of t payload) ≡ response r)
        × (classify_status (status_code r) ≡ retriable)
        × AsksBadDate p r e
  unfolding round_of
  round_of-err n e h =
      elim (attempt_result-err f p (s.current_time n) n (s.post n (request_of t payload)) e h) [
        | inl thrown ↦ absurd (only n (request_of t payload) e thrown)
        | inr found ↦ found
      ]

  attempts-round_of :
      (n : ℕ) (r : DeliveryResult × Option Float)
      → round_of f p t s payload n ≡ ok r
      → r.0.attempts ≡ n
  unfolding round_of
  attempts-round_of n r h =
      attempts-attempt_result f p (s.current_time n) n (s.post n (request_of t payload)) r h

  send_loop-Ends :
      (left attempt : ℕ)
      → attempt + left ≡ t.max_attempts + 1
      → 0 < left
      → 0 < attempt
      → ((r : DeliveryResult) × Ends t.max_attempts attempt r
            (send_loop f p t s payload left attempt))
        ⊎ OutOfDate f p t s payload attempt (send_loop f p t s payload left attempt)
  unfolding send_loop
  send_loop-Ends zero attempt h k l = absurd (omega arith)
  send_loop-Ends (suc left) attempt h k l = elim (Result-cases (round_of f p t s payload attempt)) [
    | inr (e, bad) ↦
        let (r, answered, worth, asked) = round_of-err attempt e bad in
        inr (record {
          raised = e;
          answer = r;
          at = attempt;
          raises = ground arith;
          from_start = omega arith;
          within = omega arith;
          answered = answered;
          worth_retry = worth;
          asked = asked;
          slept = ground arith;
        })
    | inl ((r, asked), good) ↦
        elim (Bool-cases (not (is_retriable r.kind) || attempt == t.max_attempts)) [
          | inl stop ↦ inl (
            r,
            record {
              returns = ground arith;
              from_start = ground (arith, attempts-round_of attempt (r, asked) good);
              within = ground (arith, attempts-round_of attempt (r, asked) good);
              gave_up = ground (arith, attempts-round_of attempt (r, asked) good);
              slept = ground (arith, attempts-round_of attempt (r, asked) good);
            },
          )
          | inr go ↦ elim (Result-cases (retry_delay f attempt (s.random_value attempt) asked)) [
            | inr (e, bad) ↦ absurd (
                retry_delay-ne-err f attempt (s.random_value attempt) asked e fit (omega arith) l
                  bad)
            | inl (d, waits) ↦
                elim (send_loop-Ends left (attempt + 1) (omega arith) (ground arith)
                  (omega arith)) [
                    | inl (r', ends) ↦ inl (
                      r',
                      record {
                        returns = ground (arith, ends.returns);
                        from_start = omega (arith, ends.from_start);
                        within = ends.within;
                        gave_up = ends.gave_up;
                        slept = ground (arith, ends.slept);
                      },
                    )
                    | inr late ↦ inr (record {
                      raised = late.raised;
                      answer = late.answer;
                      at = late.at;
                      raises = ground (arith, late.raises);
                      from_start = omega (arith, late.from_start);
                      within = late.within;
                      answered = late.answered;
                      worth_retry = late.worth_retry;
                      asked = late.asked;
                      slept = ground (arith, late.slept);
                    })
                  ]
          ]
        ]
  ]

  -- A payload with the required fields is delivered or given up: `send` returns a result, after at
  -- least one and at most `max_attempts` requests, with one delay between two requests, and a
  -- retriable result only after the last of them; or it raises at a retriable response whose
  -- Retry-After header is a date that Python cannot represent in UTC, which is the only error left.
  -- Every exception of a request is a RequestException here, and 1 to 1024 attempts are configured.
  pub send-Ends :
      validate_payload payload ≡ ok tt
      → 0 < t.max_attempts
      → ((r : DeliveryResult) × Ends t.max_attempts 1 r (send f p t s payload))
        ⊎ OutOfDate f p t s payload 1 (send f p t s payload)
  unfolding send
  send-Ends valid some_attempts =
      rw (send, valid) (send_loop-Ends t.max_attempts 1 (omega arith) some_attempts (omega arith))

  -- Attempt `n` ended with a result that is worth a retry.
  abbrev pub Retries : ℕ → Type 0
  Retries n =
      (r : DeliveryResult) × (asked : Option Float) × (round_of f p t s payload n ≡ ok (r, asked))
      × (r.kind ≡ retriable)

  send_loop-first :
      (left attempt k : ℕ) (r : DeliveryResult) (asked : Option Float)
      → attempt + left ≡ t.max_attempts + 1
      → 0 < attempt
      → attempt ≤ k
      → k ≤ t.max_attempts
      → ((i : ℕ) → attempt ≤ i → i < k → Retries i)
      → round_of f p t s payload k ≡ ok (r, asked)
      → r.kind ≢ retriable
      → (send_loop f p t s payload left attempt).0 ≡ ok r
  unfolding send_loop
  send_loop-first zero attempt k r asked h pos_attempt lo hi before at_k final =
      absurd (omega arith)
  send_loop-first (suc left) attempt k r asked h pos_attempt lo hi before at_k final =
      elim (ℕ_discrete attempt k) [
        | yes here ↦
            let now : round_of f p t s payload attempt ≡ ok (r, asked) = rw here at_k in
            ground arith
        | no later ↦
            let (r', asked', retried, worth) = before attempt (omega arith) (omega arith) in
            elim (Result-cases (retry_delay f attempt (s.random_value attempt) asked')) [
              | inr (e, bad) ↦ absurd (
                  retry_delay-ne-err f attempt (s.random_value attempt) asked' e fit (omega arith)
                    pos_attempt bad)
              | inl (d, waits) ↦
                  let rest =
                    send_loop-first left (attempt + 1) k r asked (omega arith) (omega arith)
                      (omega arith) hi (λ i lo' hi'. before i (omega arith) hi') at_k final in
                  ground (arith, rest)
            ]
      ]

  -- The first attempt that is not worth a retry decides: if attempts 1 to k - 1 ended with
  -- retriable results and attempt k, within the bound, did not, then `send` returns the result of
  -- attempt k, whatever later requests would have given. Every exception of a request is a
  -- RequestException here, and at most 1024 attempts are configured.
  pub send_first :
      (k : ℕ) (r : DeliveryResult) (asked : Option Float)
      → validate_payload payload ≡ ok tt
      → 1 ≤ k
      → k ≤ t.max_attempts
      → ((i : ℕ) → 1 ≤ i → i < k → Retries i)
      → round_of f p t s payload k ≡ ok (r, asked)
      → r.kind ≢ retriable
      → (send f p t s payload).0 ≡ ok r
  unfolding send
  send_first k r asked valid lo hi before at_k final =
      rw (send, valid)
        (send_loop-first t.max_attempts 1 k r asked (omega arith) (omega arith) lo hi before at_k
          final)
