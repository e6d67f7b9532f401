-- ===== src/Transport/Sleeps.antt =====
-- How long `send` sleeps between two requests.
use employee_tracker.Common.{
  ℕ, zero, suc, ◌+◌, ◌-◌, ◌^◌, ◌<◌, ◌≡◌, refl, inl, inr, false, not, ◌||◌, Option, none, some, ok,
  arith, Bool-cases, Result-cases, Option-cases, ◌==◌, All, String,
}
use employee_tracker.Common.Int.{ℤ, ◌-ℤ◌}
use employee_tracker.Models.{as_string, Float, Fields, DeliveryResult}
use employee_tracker.Floats.{FloatOps, FloatLaws, float_min, float_max, float_min-le, lt_weaken}
use employee_tracker.Transport.Delay.{
  Parsers, to_utc, safe_random_value, jittered, retry_delay, parse_retry_after,
}
use employee_tracker.Transport.Delivery.{
  Transport, Session, Outcome, attempt_result, Response, validate_payload, request_of, retry_after,
  round_of, send_loop, send, is_retriable,
}

module _ (f : FloatOps) (laws : FloatLaws f) where
  -- `x <= n / 10`, for an x that is a number
  abbrev pub AtMost : ℕ → Float → Type 0
  AtMost n x = f.lt (f.tenths n) x ≡ false

  -- A delay that the server asks for is cut to 60 seconds.
  parse_retry_after-AtMost :
      (p : Parsers) (now : ℤ) (value : String) (a : Float)
      → parse_retry_after f p now value ≡ ok (some a)
      → AtMost 600 a
  unfolding parse_retry_after
  parse_retry_after-AtMost p now value a h = elim (Option-cases (p.parse_float value)) [
    | inl no_number ↦ elim (Result-cases (p.parse_date value)) [
      | inr (x, bad) ↦ ground arith
      | inl (none, no_date) ↦ ground arith
      | inl (some date, e) ↦ elim (Result-cases (to_utc date)) [
        | inr (x, bad) ↦ ground arith
        | inl (moment, e') ↦
            let delay = f.total_seconds (moment -ℤ now) in
            ground (arith, float_min-le f laws (f.tenths 600) (float_max f (f.tenths 0) delay))
      ]
    ]
    | inr (delay, e) ↦
        ground (arith, float_min-le f laws (f.tenths 600) (float_max f (f.tenths 0) delay))
  ]

  safe_random_value-AtMost : (o : Option Float) → AtMost 10 (safe_random_value f o)
  unfolding safe_random_value
  safe_random_value-AtMost none = laws.tenths_order 10 0 (omega arith) (omega arith)
  safe_random_value-AtMost (some v) = ground (
    arith,
    laws.tenths_order 10 0,
    float_min-le f laws (f.tenths 10) (float_max f (f.tenths 0) v),
  )

  float_min-number :
      (n : ℕ) (x : Float) → n < 1000000 → f.is_nan (float_min f (f.tenths n) x) ≡ false
  float_min-number n x small = ground (arith, laws.tenths_number n, laws.nan_left x (f.tenths n))

  float_min-nonneg :
      (n : ℕ) (x : Float)
      → n < 1000000
      → f.lt x (f.tenths 0) ≡ false
      → f.lt (float_min f (f.tenths n) x) (f.tenths 0) ≡ false
  float_min-nonneg n x small h = ground (arith, laws.tenths_order n 0)

  -- A share of at most one of a delay that is at most n tenths of a second.
  mul-AtMost :
      (n : ℕ) (m v : Float)
      → f.is_nan m ≡ false
      → f.lt m (f.tenths 0) ≡ false
      → AtMost n m
      → AtMost 10 v
      → AtMost n (f.mul m v)
  mul-AtMost n m v number nonneg bound share =
      ground (arith, laws.cotrans (f.tenths n) m (f.mul m v), laws.mul_unit m v nonneg share)

  jittered-AtMost : (n : ℕ) (o : Option Float) (d : Float) → jittered f n o ≡ ok d → AtMost 300 d
  unfolding jittered
  jittered-AtMost n o d h = elim (Option-cases (f.of_int (2 ^ (n - 1)))) [
    | inl overflow ↦ ground arith
    | inr (power, e) ↦
        let x = f.mul (f.tenths 5) power in
        let positive =
          laws.mul_nonneg (f.tenths 5) power (laws.tenths_order 5 0 (omega arith) (omega arith))
            (laws.of_int_nonneg (2 ^ (n - 1)) power e) in
        let bound =
          mul-AtMost 300 (float_min f (f.tenths 300) x) (safe_random_value f o)
            (float_min-number 300 x (omega arith)) (float_min-nonneg 300 x (omega arith) positive)
            (float_min-le f laws (f.tenths 300) x) (safe_random_value-AtMost o) in
        ground (arith, bound)
  ]

  -- Every delay is at most n tenths where the delay that the server asked for is, n at least 300.
  retry_delay-AtMost :
      (n : ℕ) (o : Option Float) (asked : Option Float) (d : Float)
      → ((a : Float) → asked ≡ some a → AtMost 600 a)
      → retry_delay f n o asked ≡ ok d
      → AtMost 600 d
  unfolding retry_delay
  retry_delay-AtMost n o none d cut h =
      lt_weaken f laws 300 600 d (omega arith) (omega arith) (jittered-AtMost n o d h)
  retry_delay-AtMost n o (some a) d cut h = elim (Result-cases (jittered f n o)) [
    | inr (e, bad) ↦ ground arith
    | inl (j, good) ↦ ground (
      arith,
      cut a refl,
      lt_weaken f laws 300 600 j (omega arith) (omega arith) (jittered-AtMost n o j good),
    )
  ]

  retry_after-AtMost :
      (p : Parsers) (now : ℤ) (r : Response) (a : Float)
      → retry_after f p now r ≡ ok (some a)
      → AtMost 600 a
  unfolding retry_after
  retry_after-AtMost p now r a h = elim (Option-cases r.headers) [
    | inl no_headers ↦ ground arith
    | inr (get, e) ↦ elim (Option-cases (get "Retry-After")) [
      | inl absent ↦ ground arith
      | inr (value, e') ↦ elim (Option-cases (as_string value)) [
        | inl no_text ↦ ground arith
        | inr (raw, e'') ↦ ground (arith, parse_retry_after-AtMost p now raw a)
      ]
    ]
  ]

  attempt_result-AtMost :
      (p : Parsers) (now : ℤ) (n : ℕ) (o : Outcome) (r : DeliveryResult) (asked : Option Float)
      (a : Float)
      → attempt_result f p now n o ≡ ok (r, asked)
      → asked ≡ some a
      → AtMost 600 a
  unfolding attempt_result
  attempt_result-AtMost p now n (Outcome.response q) r asked a h e =
      ground (arith, retry_after-AtMost p now q a)
  attempt_result-AtMost p now n _ r asked a h e = ground arith

  send_loop-AtMost :
      (p : Parsers) (t : Transport) (s : Session) (payload : Fields) (left attempt : ℕ)
      → All (AtMost 600) (send_loop f p t s payload left attempt).1
  unfolding send_loop round_of
  send_loop-AtMost p t s payload zero attempt = tt
  send_loop-AtMost p t s payload (suc left) attempt =
      elim (Result-cases (round_of f p t s payload attempt)) [
        | inr (e, bad) ↦ rw (send_loop, bad) tt
        | inl ((r, asked), good) ↦
            elim (Bool-cases (not (is_retriable r.kind) || attempt == t.max_attempts)) [
              | inl stop ↦ rw (send_loop, good, stop) tt
              | inr go ↦
                  elim (Result-cases (retry_delay f attempt (s.random_value attempt) asked)) [
                    | inr (e, bad) ↦ rw (send_loop, good, go, bad) tt
                    | inl (d, waits) ↦
                        rw (send_loop, good, go, waits)
                          (
                            retry_delay-AtMost attempt (s.random_value attempt) asked d
                                (λ a e.
                                  attempt_result-AtMost p (s.current_time attempt) attempt
                                    (s.post attempt (request_of t payload)) r asked a good e)
                                waits,
                            send_loop-AtMost p t s payload left (attempt + 1),
                          )
                  ]
            ]
      ]

  -- `send` never sleeps for more than 60 seconds, whatever the server asks for in its Retry-After
  -- header, by the named facts of float arithmetic.
  pub send_sleeps_bounded :
      (p : Parsers) (t : Transport) (s : Session) (payload : Fields)
      → All (AtMost 600) (send f p t s payload).1
  unfolding send
  send_sleeps_bounded p t s payload = elim (Result-cases (validate_payload payload)) [
    | inr (e, bad) ↦ rw (send, bad) tt
    | inl (u, good) ↦ rw (send, good) (send_loop-AtMost p t s payload t.max_attempts 1)
  ]
