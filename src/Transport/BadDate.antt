-- ===== src/Transport/BadDate.antt =====
-- The dates of a Retry-After header at which `_parse_retry_after` raises.
use employee_tracker.Common.{
  ℕ, ◌≡◌, ◌⊎◌, refl, inl, inr, String, false, overflow_error, Option, none, some, ok, err, Error,
  arith, Bool-cases, Result-cases, Option-cases,
}
use employee_tracker.Common.Int.{ℤ, pos, negsuc, ◌-ℤ◌, ◌<ℤ◌}
use employee_tracker.Models.{
  Json, str, as_string, DeliveryKind, success, retriable, authentication, permanent,
}
use employee_tracker.Floats.{FloatOps}
use employee_tracker.Transport.Delay.{
  DateTime, Parsers, first_micros, last_micros, in_years, to_utc, parse_retry_after,
}
use employee_tracker.Transport.Delivery.{
  Response, Outcome, timeout, connection_error, request_exception, response, foreign,
  classify_status, status_code, retry_after, asked_of, attempt_result,
}

outside_years : (m : ℤ) → in_years m ≡ false → (m <ℤ first_micros) ⊎ (last_micros <ℤ m)
outside_years (pos n) h = inr (ground arith)
outside_years (negsuc n) h = inl (ground arith)

-- A Retry-After text that is no number and a date that Python cannot represent: it raises in the
-- parser, or its moment in UTC is outside of the years 1 to 9999.
pub data BadDate (p : Parsers) (value : String) (e : Error) : Type 0 where
  unparsed : p.parse_float value ≡ none → p.parse_date value ≡ err e → BadDate p value e
  unshifted :
      (d : DateTime) (o : ℤ)
      → p.parse_float value ≡ none
      → p.parse_date value ≡ ok (some d)
      → d.offset ≡ some o
      → (d.micros -ℤ o <ℤ first_micros) ⊎ (last_micros <ℤ d.micros -ℤ o)
      → e.class ≡ overflow_error
      → BadDate p value e

parse_retry_after-BadDate :
    (f : FloatOps) (p : Parsers) (now : ℤ) (value : String) (e : Error)
    → parse_retry_after f p now value ≡ err e
    → BadDate p value e
unfolding parse_retry_after to_utc
parse_retry_after-BadDate f p now value e h = elim (Option-cases (p.parse_float value)) [
  | inr (delay, number) ↦ absurd (ground arith)
  | inl no_number ↦ elim (Result-cases (p.parse_date value)) [
    | inr (x, bad) ↦ let same : x ≡ e = ground arith in unparsed no_number (rw (← same) bad)
    | inl (none, no_date) ↦ absurd (ground arith)
    | inl (some d, date) ↦ elim (Option-cases d.offset) [
      | inl naive ↦ absurd (ground arith)
      | inr (o, offset) ↦ elim (Bool-cases (in_years (d.micros -ℤ o))) [
        | inl inside ↦ absurd (ground arith)
        | inr outside ↦
            unshifted d o no_number date offset (outside_years (d.micros -ℤ o) outside)
              (ground arith)
      ]
    ]
  ]
]

-- A response whose Retry-After header is such a text.
pub record AsksBadDate (p : Parsers) (r : Response) (e : Error) : Type 0 where
  pub header : String → Option Json
  pub value : String
  pub has_headers : r.headers ≡ some header
  pub asks : header "Retry-After" ≡ some (str value)
  pub bad_date : BadDate p value e

as_string-some : (j : Json) (s : String) → as_string j ≡ some s → j ≡ str s
unfolding as_string
as_string-some j s h = ground arith

retry_after-AsksBadDate :
    (f : FloatOps) (p : Parsers) (now : ℤ) (r : Response) (e : Error)
    → retry_after f p now r ≡ err e
    → AsksBadDate p r e
unfolding retry_after
retry_after-AsksBadDate f p now r e h = elim (Option-cases r.headers) [
  | inl no_headers ↦ absurd (ground arith)
  | inr (get, found) ↦ elim (Option-cases (get "Retry-After")) [
    | inl absent ↦ absurd (ground arith)
    | inr (value, present) ↦ elim (Option-cases (as_string value)) [
      | inl no_text ↦ absurd (ground arith)
      | inr (raw, text) ↦ record {
        header = get;
        value = raw;
        has_headers = found;
        asks = rw (← as_string-some value raw text) present;
        bad_date = parse_retry_after-BadDate f p now raw e (ground arith);
      }
    ]
  ]
]

asked-err :
    (f : FloatOps) (p : Parsers) (now : ℤ) (r : Response) (kind : DeliveryKind) (e : Error)
    → asked_of f p now r kind ≡ err e
    → (kind ≡ retriable) × (retry_after f p now r ≡ err e)
asked-err f p now r retriable e h = (refl, h)
asked-err f p now r success e h = cc
asked-err f p now r authentication e h = cc
asked-err f p now r permanent e h = cc

-- An attempt raises what its request raised, or because of the date that a retriable response asks
-- for.
pub attempt_result-err :
    (f : FloatOps) (p : Parsers) (now : ℤ) (n : ℕ) (o : Outcome) (e : Error)
    → attempt_result f p now n o ≡ err e
    → (o ≡ foreign e)
      ⊎ ((r : Response) × (o ≡ response r)
          × (classify_status (status_code r) ≡ retriable)
          × AsksBadDate p r e)
unfolding attempt_result
attempt_result-err f p now n timeout e h = cc
attempt_result-err f p now n connection_error e h = cc
attempt_result-err f p now n request_exception e h = cc
attempt_result-err f p now n (foreign x) e h = inl (ground arith)
attempt_result-err f p now n (response r) e h =
    let (worth, bad) = asked-err f p now r (classify_status (status_code r)) e (ground arith) in
    inr (r, refl, worth, retry_after-AsksBadDate f p now r e bad)
