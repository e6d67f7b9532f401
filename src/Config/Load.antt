-- ===== src/Config/Load.antt =====
-- `load_config` of monitor_agent/config.py.
use employee_tracker.Common.{
  String, Bool, true, false, not, ◌&&◌, ◌||◌, Option, none, some, List, [], ◌∷◌, Result, ok, raise,
  raise_if, config_error, str_eq, is_some, if◌then◌else◌,
}
use employee_tracker.Common.Int.{pos}
use employee_tracker.Config.Checked.{◌>>=◌, ◌>>◌}
use employee_tracker.Floats.{FloatOps}
use employee_tracker.Config.Agent.{
  AgentConfig, FilePath, ProcessCmdlineMode, no_cmdline, redacted, full, LogFormat, text, json,
}
use employee_tracker.Config.Parse.{
  Library, Env, parse_int, parse_float, parse_bool, parse_paths, validate_collector_uri,
  default_spool_path, default_log_path,
}

-- `source.get(name) or None`
abbrev pub non_empty : Option String → Option String
non_empty none = none
non_empty (some s) = if str_eq s "" then none else some s

-- `source.get(name, default)`
abbrev pub get_default : Env → String → String → String
get_default env name default = elim (env name) [ none ↦ default | some v ↦ v ]

unfoldable pub cmdline_mode : String → Result ProcessCmdlineMode
cmdline_mode value =
    if str_eq value "none"
    then ok no_cmdline
    else if str_eq value "redacted"
    then ok redacted
    else if str_eq value "full"
    then ok full
    else raise config_error "MONITOR_PROCESS_CMDLINE_MODE must be none, redacted, or full"

unfoldable pub log_format_of : String → Result LogFormat
log_format_of value =
    if str_eq value "text"
    then ok text
    else if str_eq value "json"
    then ok json
    else raise config_error "MONITOR_LOG_FORMAT must be text or json"

abbrev pub is_nil : List FilePath → Bool
is_nil [] = true
is_nil (p ∷ ps) = false

module _ (l : Library) (f : FloatOps) where
  -- `if collector_uri is not None: _validate_collector_uri(collector_uri)`
  unfoldable pub check_uri : Option String → Result (Unit {0})
  check_uri none = ok tt
  check_uri (some uri) = validate_collector_uri l uri

  unfoldable pub check_bundle : Option FilePath → Result (Unit {0})
  check_bundle none = ok tt
  check_bundle (some path) = l.is_file path >>= λ found.
      raise_if (not found) config_error "MONITOR_CA_BUNDLE must identify an existing regular file"

  -- The platform stands for `sys.platform` where none is given, and the environment for
  -- `os.environ`.
  unfoldable pub load_config : Env → Bool → String → Result AgentConfig
  load_config source require_transport platform = do
    let collector_uri = non_empty (source "MONITOR_COLLECTOR_URI")
    let api_token = non_empty (source "MONITOR_API_TOKEN")
    check_uri collector_uri
    raise_if (require_transport && not (is_some collector_uri)) config_error
        "MONITOR_COLLECTOR_URI is required for transport"
    raise_if (require_transport && not (is_some api_token)) config_error
        "MONITOR_API_TOKEN is required for transport"
    let ca_bundle = non_empty (source "MONITOR_CA_BUNDLE")
    check_bundle ca_bundle
    process_cmdline_mode ←
        cmdline_mode (get_default source "MONITOR_PROCESS_CMDLINE_MODE" "redacted")
    log_format ← log_format_of (get_default source "MONITOR_LOG_FORMAT" "text")
    include_active_window ← parse_bool l source "MONITOR_INCLUDE_ACTIVE_WINDOW" false
    let audit_paths = parse_paths l source "MONITOR_AUDIT_PATHS" platform
    screenshot_enabled ← parse_bool l source "MONITOR_SCREENSHOT_ENABLED" false
    acknowledged ← parse_bool l source "MONITOR_EMPLOYEE_NOTICE_ACK" false
    raise_if
        ((include_active_window || not (is_nil audit_paths) || screenshot_enabled)
          && not acknowledged)
        config_error "sensitive telemetry requires MONITOR_EMPLOYEE_NOTICE_ACK=true"
    heartbeat_sec ← parse_int l source "MONITOR_HEARTBEAT_SEC" (pos 300) (pos 30) (pos 86400)
    startup_delay_sec ← parse_int l source "MONITOR_STARTUP_DELAY_SEC" (pos 30) (pos 0) (pos 3600)
    connect_timeout_sec ←
        parse_float l f source "MONITOR_CONNECT_TIMEOUT_SEC" (f.tenths 50) (f.tenths 1)
          (f.tenths 3000)
    read_timeout_sec ←
        parse_float l f source "MONITOR_READ_TIMEOUT_SEC" (f.tenths 150) (f.tenths 1)
          (f.tenths 3000)
    collection_timeout_sec ←
        parse_float l f source "MONITOR_COLLECTION_TIMEOUT_SEC" (f.tenths 300) (f.tenths 10)
          (f.tenths 36000)
    max_collector_workers ←
        parse_int l source "MONITOR_MAX_COLLECTOR_WORKERS" (pos 4) (pos 1) (pos 32)
    spool_max_bytes ←
        parse_int l source "MONITOR_SPOOL_MAX_BYTES" (pos 104857600) (pos 1048576) (pos 10737418240)
    spool_max_age_sec ←
        parse_int l source "MONITOR_SPOOL_MAX_AGE_SEC" (pos 604800) (pos 3600) (pos 31536000)
    replay_batch_size ← parse_int l source "MONITOR_REPLAY_BATCH_SIZE" (pos 20) (pos 1) (pos 1000)
    include_network_connections ← parse_bool l source "MONITOR_INCLUDE_NETWORK_CONNECTIONS" true
    include_software ← parse_bool l source "MONITOR_INCLUDE_SOFTWARE" true
    audit_max_files ← parse_int l source "MONITOR_AUDIT_MAX_FILES" (pos 50) (pos 1) (pos 1000)
    audit_max_file_bytes ←
        parse_int l source "MONITOR_AUDIT_MAX_FILE_BYTES" (pos 10485760) (pos 1024) (pos 1073741824)
    screenshot_max_bytes ←
        parse_int l source "MONITOR_SCREENSHOT_MAX_BYTES" (pos 5242880) (pos 1024) (pos 52428800)
    ok (record {
      collector_uri = collector_uri;
      api_token = api_token;
      heartbeat_sec = heartbeat_sec;
      startup_delay_sec = startup_delay_sec;
      connect_timeout_sec = connect_timeout_sec;
      read_timeout_sec = read_timeout_sec;
      collection_timeout_sec = collection_timeout_sec;
      max_collector_workers = max_collector_workers;
      spool_path = elim (non_empty (source "MONITOR_SPOOL_PATH")) [
        | none ↦ default_spool_path platform
        | some path ↦ path
      ];
      spool_max_bytes = spool_max_bytes;
      spool_max_age_sec = spool_max_age_sec;
      replay_batch_size = replay_batch_size;
      ca_bundle = ca_bundle;
      process_cmdline_mode = process_cmdline_mode;
      include_network_connections = include_network_connections;
      include_software = include_software;
      include_active_window = include_active_window;
      audit_paths = audit_paths;
      audit_max_files = audit_max_files;
      audit_max_file_bytes = audit_max_file_bytes;
      screenshot_enabled = screenshot_enabled;
      screenshot_max_bytes = screenshot_max_bytes;
      employee_notice_acknowledged = acknowledged;
      log_path = elim (non_empty (source "MONITOR_LOG_PATH")) [
        | none ↦ default_log_path platform
        | some path ↦ some path
      ];
      log_format = log_format;
      log_level = l.upper (get_default source "MONITOR_LOG_LEVEL" "INFO");
    })
