-- ===== src/Tests/Sending.antt =====
-- The transport at concrete inputs: a server that answers 503 once and then 200.
use employee_tracker.Common.{
  ◌↔◌, ◌⊎◌, if◌then◌else◌, ℕ, ◌≡◌, refl, true, false, none, some, [], ok, All, leb, arith,
  get_elem?,
}
use employee_tracker.Common.Int.{pos}
use employee_tracker.Floats.{float_min, float_max}
use employee_tracker.Config.{AgentConfig, no_cmdline, text}
use employee_tracker.Models.{
  Fields, field, end, str, int, authentication, DeliveryResult, get_field, as_string,
}
use employee_tracker.Transport.Delay.{
  Parsers, retry_delay, jittered, safe_random_value, parse_retry_after,
}
use employee_tracker.Transport.Delivery.{
  Transport, Session, Response, response, classify_status, send, validate_payload, send_loop,
  round_of, attempt_result, request_of, headers_of, status_code, message_for, retry_after,
}
use employee_tracker.Transport.Status.{Expected, classify_status-Expected}
use employee_tracker.Transport.Retry.{PowersFit, OnlyRequestErrors, Ends, OutOfDate, send-Ends}
use employee_tracker.Transport.Sleeps.{AtMost, send_sleeps_bounded}
use employee_tracker.Transport.Honoured.{send-respects}
use employee_tracker.Tests.Numbers.{numbers, numbers_laws}

abbrev config : AgentConfig
config = record {
  collector_uri = some "https://collector.example";
  api_token = some "t";
  heartbeat_sec = pos 300;
  startup_delay_sec = pos 10;
  connect_timeout_sec = 500000;
  read_timeout_sec = 1000000;
  collection_timeout_sec = 1000000;
  max_collector_workers = pos 4;
  spool_path = "/spool";
  spool_max_bytes = pos 1000000;
  spool_max_age_sec = pos 86400;
  replay_batch_size = pos 10;
  ca_bundle = none;
  process_cmdline_mode = no_cmdline;
  include_network_connections = false;
  include_software = true;
  include_active_window = false;
  audit_paths = [];
  audit_max_files = pos 10;
  audit_max_file_bytes = pos 1000;
  screenshot_enabled = false;
  screenshot_max_bytes = pos 1000;
  employee_notice_acknowledged = false;
  log_path = none;
  log_format = text;
  log_level = "INFO";
}

abbrev sender : Transport
sender = record {
  config = config;
  collector_uri = "https://collector.example";
  api_token = "t";
  max_attempts = 4;
}

abbrev parsers : Parsers
parsers = record { parse_float = λ s. some 9000000; parse_date = λ s. ok none }

abbrev answer : ℕ → Response
answer n = record {
  status = some (int (pos (if leb n 1 then 503 else 200)));
  headers = some (λ k. some (str "90"));
}

abbrev server : Session
server = record {
  post = λ n q. response (answer n);
  random_value = λ n. some 50000;
  current_time = λ n. pos 0;
}

abbrev event_payload : Fields
event_payload = field "event_id" (str "e1") (
    field "event" (str "heartbeat")
      (field "machine_id" (str "m") (field "schema_version" (str "1.1") end)))

powers : PowersFit numbers
powers k small = (_, refl)

only_request_errors : OnlyRequestErrors server
only_request_errors n q e bad = cc

payload_fits : validate_payload event_payload ≡ ok tt
unfolding validate_payload get_field as_string
payload_fits = refl

send-Ends_example :
    ((r : DeliveryResult) × Ends 4 1 r (send numbers parsers sender server event_payload))
    ⊎ OutOfDate numbers parsers sender server event_payload 1
        (send numbers parsers sender server event_payload)
send-Ends_example =
    send-Ends numbers parsers sender server event_payload powers (omega arith) only_request_errors
      payload_fits (omega arith)

send_sleeps_bounded_example :
    All (AtMost numbers numbers_laws 600) (send numbers parsers sender server event_payload).1
send_sleeps_bounded_example =
    send_sleeps_bounded numbers numbers_laws parsers sender server event_payload

minute_slept : get_elem? (send numbers parsers sender server event_payload).1 0 ≡ some 6000000
unfolding send validate_payload send_loop round_of attempt_result request_of headers_of status_code
    classify_status message_for retry_after parse_retry_after retry_delay jittered safe_random_value
    get_field as_string
minute_slept = refl

send-respects_example :
    numbers.lt 6000000
      (float_min numbers (numbers.tenths 600) (float_max numbers (numbers.tenths 0) 9000000))
    ≡ false
send-respects_example =
    send-respects numbers numbers_laws parsers sender server event_payload 0 (answer 1)
      (λ k. some (str "90")) "90" 9000000 6000000 refl refl refl refl refl minute_slept

classify_status-Expected_example :
    (classify_status (some (pos 403)) ≡ authentication) ↔ Expected authentication (some (pos 403))
classify_status-Expected_example = classify_status-Expected (some (pos 403)) authentication
