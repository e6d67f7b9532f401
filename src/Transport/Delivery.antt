-- ===== src/Transport/Delivery.antt =====
-- `TelemetryTransport` of monitor_agent/transport.py. The session belongs to `requests`: what each
-- of its calls gives is a parameter, as are the clock and the random numbers.
use employee_tracker.Common.{
  ℕ, zero, suc, ◌+◌, String, Bool, true, false, not, ◌&&◌, ◌||◌, Option, none, some, List, [], ◌∷◌,
  Result, ok, err, raise, raise_if, value_error, assertion_error, Error, str_eq, any, ◌==◌, ◌>>=◌,
  if◌then◌else◌,
}
use employee_tracker.Common.Int.{ℤ, pos, leb_ℤ, eqb_ℤ}
use employee_tracker.Models.{
  Float, Json, Fields, get_field, as_string, DeliveryKind, DeliveryResult, success, retriable,
  authentication, permanent,
}
use Prim.Native.String.{◌++◌ as str_append}
use employee_tracker.Floats.{FloatOps}
use employee_tracker.Config.{AgentConfig, FilePath}
use employee_tracker.Transport.Delay.{Parsers, retry_delay, parse_retry_after}

abbrev pub required_header_fields : List String
required_header_fields = "event_id" ∷ "event" ∷ "machine_id" ∷ "schema_version" ∷ []

pub record Transport : Type 0 where
  pub config : AgentConfig
  pub collector_uri : String
  pub api_token : String
  pub max_attempts : ℕ

-- a text that is missing or empty is false in Python
abbrev pub truthy : Option String → Option String
truthy none = none
truthy (some s) = if str_eq s "" then none else some s

-- `isinstance(max_attempts, int) and not isinstance(max_attempts, bool) and max_attempts > 0`
abbrev pub positive_int : Json → Option ℕ
positive_int (Json.int (pos (suc n))) = some (suc n)
positive_int _ = none

-- `TelemetryTransport.__init__`
unfoldable pub create : AgentConfig → Json → Result Transport
create config max_attempts = elim (truthy config.collector_uri) [
  | none ↦ raise value_error "transport configuration is incomplete"
  | some uri ↦ elim (truthy config.api_token) [
    | none ↦ raise value_error "transport configuration is incomplete"
    | some token ↦ elim (positive_int max_attempts) [
      | none ↦ raise value_error "max_attempts must be positive"
      | some n ↦
          ok (record { config = config; collector_uri = uri; api_token = token; max_attempts = n })
    ]
  ]
]

-- not a text, or an empty one
abbrev pub lacks : Fields → String → Bool
lacks payload name = elim (get_field name payload) [
  | none ↦ true
  | some value ↦ elim (as_string value) [ none ↦ true | some s ↦ str_eq s "" ]
]

unfoldable pub validate_payload : Fields → Result (Unit {0})
validate_payload payload =
    raise_if (any (lacks payload) required_header_fields) value_error
      "payload is missing required delivery fields"

-- The text under a key, which `validate_payload` has seen to.
abbrev text_of : Fields → String → String
text_of payload name = elim (get_field name payload) [
  | none ↦ ""
  | some value ↦ elim (as_string value) [ none ↦ "" | some s ↦ s ]
]

unfoldable pub classify_status : Option ℤ → DeliveryKind
classify_status none = permanent
classify_status (some n) =
    if leb_ℤ (pos 200) n && leb_ℤ n (pos 299)
    then success
    else if eqb_ℤ n (pos 401) || eqb_ℤ n (pos 403)
    then authentication
    else if eqb_ℤ n (pos 408)
        || eqb_ℤ n (pos 425)
        || eqb_ℤ n (pos 429)
        || leb_ℤ (pos 500) n && leb_ℤ n (pos 599)
    then retriable
    else permanent

unfoldable pub message_for : DeliveryKind → String
message_for success = "delivered"
message_for authentication = "authentication failed"
message_for permanent = "delivery rejected"
message_for retriable = "delivery failed"

-- What the program reads of a response: `getattr(response, "status_code", None)`, and the headers
-- as a lookup, `none` if they are missing or no mapping.
pub record Response : Type 0 where
  pub status : Option Json
  pub headers : Option (String → Option Json)

-- `isinstance(status_code, int) and not isinstance(status_code, bool)`
abbrev as_int : Json → Option ℤ
as_int (Json.int n) = some n
as_int _ = none

unfoldable pub status_code : Response → Option ℤ
status_code r = elim r.status [ none ↦ none | some value ↦ as_int value ]

-- How one call of `session.post` ends; `foreign` is an exception that is no RequestException.
pub data Outcome : Type 0 where
  timeout connection_error request_exception : Outcome
  response : Response → Outcome
  foreign : Error → Outcome

-- The request, with the headers of `_headers`.
pub record Request : Type 0 where
  pub uri : String
  pub json : Fields
  pub headers : List (String × String)
  pub timeouts : Float × Float
  pub verify : Option FilePath

-- The world of one `send`: the outcome, the random number and the time of each attempt.
pub record Session : Type 0 where
  pub post : ℕ → Request → Outcome
  pub random_value : ℕ → Option Float
  pub current_time : ℕ → ℤ

module _ (f : FloatOps) (p : Parsers) where
  unfoldable pub retry_after : ℤ → Response → Result (Option Float)
  retry_after now r = elim r.headers [
    | none ↦ ok none
    | some get ↦ elim (get "Retry-After") [
      | none ↦ ok none
      | some value ↦ elim (as_string value) [
        | none ↦ ok none
        | some raw_value ↦ parse_retry_after f p now raw_value
      ]
    ]
  ]

  -- `self._retry_after(response) if kind is DeliveryKind.RETRIABLE else None`
  abbrev pub asked_of : ℤ → Response → DeliveryKind → Result (Option Float)
  asked_of now r retriable = retry_after now r
  asked_of now r _ = ok none

  abbrev pub failed_attempt : ℕ → String → DeliveryResult
  failed_attempt attempt message = record {
    kind = retriable;
    status_code = none;
    attempts = attempt;
    message = message;
  }

  -- The `try` of one round of the loop: the result, and the delay that the server asked for.
  unfoldable pub attempt_result : ℤ → ℕ → Outcome → Result (DeliveryResult × Option Float)
  attempt_result now attempt timeout = ok (failed_attempt attempt "request timed out", none)
  attempt_result now attempt connection_error =
      ok (failed_attempt attempt "connection failed", none)
  attempt_result now attempt request_exception = ok (failed_attempt attempt "request failed", none)
  attempt_result now attempt (foreign e) = err e
  attempt_result now attempt (response r) =
      let code = status_code r in
      let kind = classify_status code in
      let result : DeliveryResult = record {
        kind = kind;
        status_code = code;
        attempts = attempt;
        message = message_for kind;
      } in
      asked_of now r kind >>= λ asked. ok (result, asked)

abbrev pub is_retriable : DeliveryKind → Bool
is_retriable retriable = true
is_retriable _ = false

-- `__version__`
abbrev pub version : String
version = "2.0.0"

module _ (t : Transport) where
  unfoldable pub headers_of : Fields → List (String × String)
  headers_of payload =
      ("Accept", "application/json")
      ∷ ("Authorization", str_append "Bearer " t.api_token)
      ∷ ("Content-Type", "application/json")
      ∷ ("Idempotency-Key", text_of payload "event_id")
      ∷ ("User-Agent", str_append "monitor-agent/" version)
      ∷ ("X-Event-Type", text_of payload "event")
      ∷ ("X-Machine-ID", text_of payload "machine_id")
      ∷ ("X-Schema-Ver", text_of payload "schema_version")
      ∷ []

  unfoldable pub request_of : Fields → Request
  unfolding headers_of
  request_of payload = record {
    uri = t.collector_uri;
    json = payload;
    headers = headers_of payload;
    timeouts = (t.config.connect_timeout_sec, t.config.read_timeout_sec);
    verify = t.config.ca_bundle;
  }

module _ (f : FloatOps) (p : Parsers) (t : Transport) (s : Session) where
  -- The outcome of one attempt, as the loop sees it.
  unfoldable pub round_of : Fields → ℕ → Result (DeliveryResult × Option Float)
  unfolding attempt_result request_of
  round_of payload attempt =
      attempt_result f p (s.current_time attempt) attempt (s.post attempt (request_of t payload))

  -- `for attempt in range(1, max_attempts + 1)`: `left` counts the rounds that are left. The second
  -- part is the delays that were slept, in order.
  unfoldable pub send_loop : Fields → ℕ → ℕ → Result DeliveryResult × List Float
  unfolding round_of
  send_loop payload zero attempt =
      (raise assertion_error "retry loop must return a delivery result", [])
  send_loop payload (suc left) attempt =
      let rest = send_loop payload left (attempt + 1) in
      elim (round_of payload attempt) [
        | err e ↦ (err e, [])
        | ok (result, asked) ↦
            if not (is_retriable result.kind) || attempt == t.max_attempts
            then (ok result, [])
            else elim (retry_delay f attempt (s.random_value attempt) asked) [
              | err e ↦ (err e, [])
              | ok delay ↦ (rest.0, delay ∷ rest.1)
            ]
      ]

  unfoldable pub send : Fields → Result DeliveryResult × List Float
  unfolding validate_payload send_loop
  send payload = elim (validate_payload payload) [
    | err e ↦ (err e, [])
    | ok _ ↦ send_loop payload t.max_attempts 1
  ]
