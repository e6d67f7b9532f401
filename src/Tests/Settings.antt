-- ===== src/Tests/Settings.antt =====
-- Settings of the environment at concrete inputs.
use employee_tracker.Common.{
  ◌≡◌, ◌⊎◌, refl, true, false, none, some, [], ok, err, Error, config_error, str_eq, if◌then◌else◌,
  ◌∷◌,
}
use employee_tracker.Common.Int.{pos}
use employee_tracker.Transport.{Transport}
use employee_tracker.Config.Agent.{AgentConfig, redacted, text}
use employee_tracker.Config.Parse.{
  Library, Env, parse_int, parse_float, parse_bool, parse_paths, default_spool_path,
  default_log_path, validate_collector_uri,
}
use employee_tracker.Config.Load.{load_config, check_uri, check_bundle, cmdline_mode, log_format_of}
use employee_tracker.Config.Safe.{IsSafe, Refused, load_config-IsSafe, load_config-config_error}
use employee_tracker.Config.Checked.{◌>>=◌}
use employee_tracker.Tests.Numbers.{numbers, numbers_laws}

abbrev library : Library
library = record {
  to_int = λ s. some (pos 60);
  to_float = λ s. some 100000;
  casefold = λ s. s;
  upper = λ s. s;
  strip = λ s. s;
  split = λ s sep. s ∷ [];
  urlsplit = λ uri. some (record {
    scheme = "https";
    hostname = some "collector.example";
    username = none;
    password = none;
  });
  is_file = λ p. ok true;
  show_int = λ n. "";
  show_float = λ x. "";
}

-- A collector, a token and an interval of a minute.
abbrev environment : Env
environment name =
    if str_eq name "MONITOR_COLLECTOR_URI"
    then some "https://collector.example"
    else if str_eq name "MONITOR_API_TOKEN"
    then some "t"
    else if str_eq name "MONITOR_HEARTBEAT_SEC"
    then some "60"
    else none

abbrev pub loaded : AgentConfig
loaded = record {
  collector_uri = some "https://collector.example";
  api_token = some "t";
  heartbeat_sec = pos 60;
  startup_delay_sec = pos 30;
  connect_timeout_sec = 500000;
  read_timeout_sec = 1500000;
  collection_timeout_sec = 3000000;
  max_collector_workers = pos 4;
  spool_path = default_spool_path "linux";
  spool_max_bytes = pos 104857600;
  spool_max_age_sec = pos 604800;
  replay_batch_size = pos 20;
  ca_bundle = none;
  process_cmdline_mode = redacted;
  include_network_connections = true;
  include_software = true;
  include_active_window = false;
  audit_paths = [];
  audit_max_files = pos 50;
  audit_max_file_bytes = pos 10485760;
  screenshot_enabled = false;
  screenshot_max_bytes = pos 5242880;
  employee_notice_acknowledged = false;
  log_path = default_log_path "linux";
  log_format = text;
  log_level = "INFO";
}

environment_loads : load_config library numbers environment true "linux" ≡ ok loaded
unfolding load_config check_uri validate_collector_uri ◌>>=◌ check_bundle cmdline_mode log_format_of
    parse_bool parse_paths parse_int parse_float default_spool_path default_log_path
environment_loads = refl

load_config-IsSafe_example : IsSafe library numbers true loaded
load_config-IsSafe_example =
    load_config-IsSafe library numbers numbers_laws environment true "linux" environment_loads

abbrev refusal : Error
refusal = record {
  class = config_error;
  message = "MONITOR_COLLECTOR_URI is required for transport";
}

empty_fails : load_config library numbers (λ name. none) true "linux" ≡ err refusal
unfolding load_config check_uri ◌>>=◌
empty_fails = refl

load_config-config_error_example :
    (refusal.class ≡ config_error) ⊎ Refused library (λ name. none) refusal
load_config-config_error_example =
    load_config-config_error library numbers numbers_laws (λ name. none) true "linux" empty_fails
