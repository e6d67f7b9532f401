-- ===== src/Tests/Commands.antt =====
-- A command at concrete answers of the other parts.
use employee_tracker.Common.{◌≡◌, refl, true, false, none, [], ok}
use employee_tracker.Models.{CycleResult, fields, dict}
use employee_tracker.Config.Parse.{default_log_path}
use employee_tracker.Transport.{create}
use employee_tracker.Payload.{event_matches}
use employee_tracker.Spool.{check_limits}
use employee_tracker.Runtime.Loop.{check_config}
use employee_tracker.Cli.Command.{
  Probe, Paths, Parts, once, main, exit_code, dispatch, prepare_config, validate_paths,
  validate_log, validate_writable_directory, close_probe, remove_probe, late_failure, first_error,
  or_config_error, validate_appendable_file, create_runtime, once_command, once_online,
}
use employee_tracker.Cli.Exits.{Explained, main-Explained}
use employee_tracker.Tests.Settings.{loaded}

abbrev writable : Probe
writable = record {
  has_permissions = true;
  mkdir = none;
  chmod = none;
  mkstemp = none;
  fchmod = none;
  close = none;
  unlink = λ attempt. none;
}

abbrev usable : Paths
usable = record {
  spool = writable;
  bundle_is_file = true;
  bundle_is_readable = true;
  log_is_symlink = false;
  log_exists = true;
  log_is_file = true;
  log_parent = writable;
  log_still_exists = true;
  log_open = none;
  log_close = none;
}

abbrev queued : CycleResult
queued = record { event_id = "e"; delivered = false; spooled = true; delivery_kind = none }

abbrev offline : Parts
offline = record {
  load_config = λ require_transport. ok loaded;
  paths = usable;
  configure_logging = none;
  resolve_identity = ok tt;
  build_collectors = λ c. ok tt;
  collect_all = ok (record { results = []; duration_ms = 0 });
  build_payload = λ batch. ok (dict (fields []));
  signals = ok tt;
  run = ok tt;
  run_cycle = λ event. ok queued;
  close = ok tt;
  stats = ok (record { pending_count = 0; pending_bytes = 0; dead_letter_count = 0 });
  print = ok tt;
}

once_returns : main offline (once "heartbeat" false) ≡ ok 4
unfolding main exit_code dispatch prepare_config validate_paths validate_log
    validate_writable_directory close_probe remove_probe late_failure first_error or_config_error
    validate_appendable_file create_runtime once_command once_online create check_limits
    check_config event_matches default_log_path
once_returns = refl

main-Explained_example : Explained offline (once "heartbeat" false) 4
main-Explained_example = main-Explained offline (once "heartbeat" false) 4 once_returns
