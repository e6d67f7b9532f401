-- ===== src/Transport/Honoured.antt =====
-- How `send` honours a Retry-After header of the server.
use employee_tracker.Common.{
  ℕ, zero, suc, List, ◌∷◌, ◌⊎◌, true, subst, get_elem?, ◌+◌, ◌≡◌, refl, inl, inr, false, not, ◌||◌,
  Option, some, ok, arith, Bool-cases, Result-cases, ◌==◌, String,
}
use employee_tracker.Common.Int.{ℤ}
use employee_tracker.Models.{
  as_string, str, Json, Float, Fields, DeliveryResult, DeliveryKind, success, retriable,
  authentication, permanent,
}
use employee_tracker.Floats.{FloatOps, FloatLaws, float_min, float_max, float_max-ge}
use employee_tracker.Transport.Delay.{Parsers, jittered, retry_delay, parse_retry_after}
use employee_tracker.Transport.Delivery.{
  Transport, Session, attempt_result, Response, validate_payload, request_of, retry_after, round_of,
  send_loop, send, is_retriable, response, classify_status, status_code, asked_of,
}

module _ (f : FloatOps) (laws : FloatLaws f) where
  retry_delay-respects :
      (n : ℕ) (o : Option Float) (a d : Float)
      → retry_delay f n o (some a) ≡ ok d
      → f.lt d a ≡ false
  unfolding retry_delay
  retry_delay-respects n o a d h = elim (Result-cases (jittered f n o)) [
    | inr (e, bad) ↦ ground arith
    | inl (j, good) ↦ ground (arith, float_max-ge f laws a j)
  ]

  asked_by_kind :
      (p : Parsers) (kind : DeliveryKind) (n : ℕ) (r : Response) (now : ℤ) (a : Float)
      (asked : Option Float)
      → retry_after f p now r ≡ ok (some a)
      → asked_of f p now r kind ≡ ok asked
      → is_retriable kind ≡ true
      → asked ≡ some a
  asked_by_kind p retriable n r now a asked header e again = ground (arith, header, e)
  asked_by_kind p success n r now a asked header e again = cc
  asked_by_kind p authentication n r now a asked header e again = cc
  asked_by_kind p permanent n r now a asked header e again = cc

  -- The round that is followed by a sleep has asked for what the header of its response says.
  asked_by :
      (p : Parsers) (t : Transport) (s : Session) (payload : Fields) (n : ℕ) (r : Response)
      (a : Float) (result : DeliveryResult) (asked : Option Float)
      → s.post n (request_of t payload) ≡ response r
      → retry_after f p (s.current_time n) r ≡ ok (some a)
      → round_of f p t s payload n ≡ ok (result, asked)
      → is_retriable result.kind ≡ true
      → asked ≡ some a
  unfolding round_of attempt_result
  asked_by p t s payload n r a result asked posted header done again =
      let kind = classify_status (status_code r) in
      elim (Result-cases (asked_of f p (s.current_time n) r kind)) [
        | inr (e, bad) ↦ absurd (ground (arith, posted, bad, done))
        | inl (o, found) ↦
            let same : o ≡ asked = ground (arith, posted, found, done) in
            let is_kind : result.kind ≡ kind = ground (arith, posted, found, done) in
            subst (λ x. x ≡ some a) same
              (asked_by_kind p kind n r (s.current_time n) a o header found
                (subst (λ x. is_retriable x ≡ true) is_kind again))
      ]

  get_elem?-front :
      (i : ℕ) (x : Float) (xs : List Float) (d : Float)
      → get_elem? (x ∷ xs) i ≡ some d
      → ((i ≡ 0) × (x ≡ d)) ⊎ ((k : ℕ) × (i ≡ suc k) × (get_elem? xs k ≡ some d))
  get_elem?-front zero x xs d h = inl (refl, cc)
  get_elem?-front (suc k) x xs d h = inr (k, refl, h)

  send_loop-respects :
      (p : Parsers) (t : Transport) (s : Session) (payload : Fields) (left attempt i n : ℕ)
      (r : Response) (a d : Float)
      → n ≡ attempt + i
      → get_elem? (send_loop f p t s payload left attempt).1 i ≡ some d
      → s.post n (request_of t payload) ≡ response r
      → retry_after f p (s.current_time n) r ≡ ok (some a)
      → f.lt d a ≡ false
  unfolding send_loop
  send_loop-respects p t s payload zero attempt i n r a d same slept posted header = cc
  send_loop-respects p t s payload (suc left) attempt i n r a d same slept posted header =
      elim (Result-cases (round_of f p t s payload attempt)) [
        | inr (e, bad) ↦ (let none_slept = rw (send_loop, bad) at slept in cc)
        | inl ((q, asked), good) ↦
            elim (Bool-cases (not (is_retriable q.kind) || attempt == t.max_attempts)) [
              | inl stop ↦ (let none_slept = rw (send_loop, good, stop) at slept in cc)
              | inr go ↦
                  elim (Result-cases (retry_delay f attempt (s.random_value attempt) asked)) [
                    | inr (e, bad) ↦ (let none_slept = rw (send_loop, good, go, bad) at slept in cc)
                    | inl (delay, waits) ↦
                        elim (get_elem?-front i delay
                          (send_loop f p t s payload left (attempt + 1)).1 d
                          (rw (send_loop, good, go, waits) at slept)) [
                            | inr (k, e, later) ↦
                                send_loop-respects p t s payload left (attempt + 1) k n r a d
                                  (omega arith) later posted header
                            | inl (first, is_delay) ↦
                                let here : n ≡ attempt = omega arith in
                                let is_asked =
                                  asked_by p t s payload attempt r a q asked
                                    (subst (λ m. s.post m (request_of t payload) ≡ response r) here
                                      posted)
                                    (subst (λ m. retry_after f p (s.current_time m) r ≡ ok (some a))
                                      here header)
                                    good (ground arith) in
                                retry_delay-respects attempt (s.random_value attempt) a d
                                  (ground (arith, is_asked, waits, is_delay))
                          ]
                  ]
            ]
      ]

  asked_for :
      (p : Parsers) (now : ℤ) (r : Response) (get : String → Option Json) (value : String)
      (seconds : Float)
      → r.headers ≡ some get
      → get "Retry-After" ≡ some (str value)
      → p.parse_float value ≡ some seconds
      → f.is_finite seconds ≡ true
      → retry_after f p now r
        ≡ ok (some (float_min f (f.tenths 600) (float_max f (f.tenths 0) seconds)))
  unfolding retry_after parse_retry_after as_string
  asked_for p now r get value seconds headers asks number finite =
      rw (retry_after, headers, asks, parse_retry_after, number, finite) refl

  -- `send` honours a Retry-After header that is a number: if attempt n is answered by such a response
  -- and `send` sleeps after it, the n-th delay is not below that number of seconds, cut to 0 to 60
  -- seconds, by the named facts of float arithmetic.
  pub send-respects :
      (p : Parsers) (t : Transport) (s : Session) (payload : Fields) (i : ℕ) (r : Response)
      (get : String → Option Json) (value : String) (seconds d : Float)
      → s.post (1 + i) (request_of t payload) ≡ response r
      → r.headers ≡ some get
      → get "Retry-After" ≡ some (str value)
      → p.parse_float value ≡ some seconds
      → f.is_finite seconds ≡ true
      → get_elem? (send f p t s payload).1 i ≡ some d
      → f.lt d (float_min f (f.tenths 600) (float_max f (f.tenths 0) seconds)) ≡ false
  unfolding send
  send-respects p t s payload i r get value seconds d posted headers asks number finite slept =
      elim (Result-cases (validate_payload payload)) [
        | inr (e, bad) ↦ (let none_slept = rw (send, bad) at slept in cc)
        | inl (u, good) ↦
            send_loop-respects p t s payload t.max_attempts 1 i (1 + i) r _ d refl
              (rw (send, good) at slept) posted
              (asked_for p (s.current_time (1 + i)) r get value seconds headers asks number finite)
      ]
