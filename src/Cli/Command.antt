-- ===== src/Cli/Command.antt =====
-- `main` of monitor_agent/cli.py for parsed arguments. What the other parts and the system answer is
-- given; the constructors of the runtime, the transport and the spool are those of the other modules.
use employee_tracker.Common.{
  ℕ, zero, suc, String, Bool, true, false, not, ◌&&◌, ◌||◌, Option, none, some, List, [], ◌∷◌,
  Result, ok, err, Error, ErrorClass, config_error, interrupted_error, raise, raise_if, ◌>>=◌, ◌>>◌,
  all, is_some, if◌then◌else◌,
}
use employee_tracker.Common.Int.{pos}
use employee_tracker.Identity.{is_os_error, is_value_error}
use employee_tracker.Models.{
  Json, CollectorStatus, timed_out, failed, CollectionBatch, CycleResult, SpoolStats,
}
use employee_tracker.Config.{AgentConfig}
use employee_tracker.Payload.{event_matches}
use employee_tracker.Transport.{Transport, create}
use employee_tracker.Spool.{check_limits}
use employee_tracker.Runtime.Loop.{check_config}

-- The calls of `_validate_writable_directory`: the exception of each, the removals by the attempt.
pub record Probe : Type 0 where
  pub has_permissions : Bool
  pub mkdir : Option Error
  pub chmod : Option Error
  pub mkstemp : Option Error
  pub fchmod : Option Error
  pub close : Option Error
  pub unlink : ℕ → Option Error

-- The first exception of calls in this order.
unfoldable pub first_error : List (Option Error) → Option Error
first_error [] = none
first_error (none ∷ es) = first_error es
first_error (some e ∷ es) = some e

abbrev if_permissions : Probe → Option Error → Option Error
if_permissions p e = if p.has_permissions then e else none

abbrev is_made : Probe → Bool
is_made p = not (is_some (first_error (p.mkdir ∷ if_permissions p p.chmod ∷ p.mkstemp ∷ [])))

abbrev is_interrupted : ErrorClass → Bool
is_interrupted interrupted_error = true
is_interrupted _ = false

-- Whether a call of the `finally` part has failed; an exception that is no OSError leaves it.
unfoldable pub late_failure : Option Error → Result Bool
late_failure none = ok false
late_failure (some e) = if is_os_error e.class then ok true else err e

-- The attempts to remove the probe file, by the number that is left.
unfoldable pub remove_probe : Probe → ℕ → ℕ → Result Bool
remove_probe p zero attempt = ok true
remove_probe p (suc left) attempt =
    let again = remove_probe p left (suc attempt) in
    elim (p.unlink attempt) [
      | none ↦ ok false
      | some e ↦ if is_interrupted e.class then again else late_failure (some e)
    ]

unfoldable pub close_probe : Probe → Result Bool
close_probe p =
    if is_made p
    then (late_failure p.close
        >>= (λ closed. remove_probe p 3 0 >>= (λ removed. ok (closed || removed))))
    else ok false

unfoldable pub validate_writable_directory : Probe → String → Result (Unit {0})
validate_writable_directory p message = close_probe p >>= (λ late.
    elim (first_error
      (p.mkdir ∷ if_permissions p p.chmod ∷ p.mkstemp ∷ if_permissions p p.fchmod ∷ [])) [
        | none ↦ raise_if late config_error message
        | some e ↦ if is_os_error e.class then raise config_error message else err e
      ])

-- `except OSError: raise ConfigError(message) from None`
unfoldable pub or_config_error : String → Option Error → Result (Unit {0})
or_config_error message none = ok tt
or_config_error message (some e) = if is_os_error e.class then raise config_error message else err e

-- What the system says of the paths of a configuration.
pub record Paths : Type 0 where
  pub spool : Probe
  pub bundle_is_file : Bool
  pub bundle_is_readable : Bool
  pub log_is_symlink : Bool
  pub log_exists : Bool
  pub log_is_file : Bool
  pub log_parent : Probe
  -- `config.log_path.exists()` behind the probe of its directory
  pub log_still_exists : Bool
  pub log_open : Option Error
  pub log_close : Option Error

unfoldable pub validate_appendable_file : Paths → Result (Unit {0})
validate_appendable_file p =
    or_config_error "log path is not writable" p.log_open
    >> or_config_error "log path is not writable" p.log_close

unfoldable pub validate_log : Paths → Result (Unit {0})
validate_log p =
    raise_if (p.log_is_symlink || p.log_exists && not p.log_is_file) config_error
      "log path must identify a file"
    >> validate_writable_directory p.log_parent "log path parent is not writable"
    >> (if p.log_still_exists then validate_appendable_file p else ok tt)

-- `_validate_paths`
unfoldable pub validate_paths : Paths → AgentConfig → Result (Unit {0})
validate_paths p c =
    validate_writable_directory p.spool "spool path is not writable"
    >> raise_if (is_some c.ca_bundle && (not p.bundle_is_file || not p.bundle_is_readable))
        config_error "CA bundle is not readable"
    >> (if is_some c.log_path then validate_log p else ok tt)

-- The answers of the other parts; `print` is the exception of writing to the standard output.
pub record Parts : Type 0 where
  pub load_config : Bool → Result AgentConfig
  pub paths : Paths
  pub configure_logging : Option Error
  pub resolve_identity : Result (Unit {0})
  pub build_collectors : AgentConfig → Result (Unit {0})
  pub collect_all : Result CollectionBatch
  pub build_payload : CollectionBatch → Result Json
  pub signals : Result (Unit {0})
  pub run : Result (Unit {0})
  pub run_cycle : String → Result CycleResult
  pub close : Result (Unit {0})
  pub stats : Result SpoolStats
  pub print : Result (Unit {0})

-- The parsed arguments.
pub data Command : Type 0 where
  run check_config_command health version : Command
  once : String → Bool → Command

-- `_prepare_config`
unfoldable pub prepare_config : Parts → Bool → Result AgentConfig
prepare_config p require_transport = p.load_config require_transport >>= (λ c.
    validate_paths p.paths c
    >> or_config_error "log path is not writable" p.configure_logging
    >> ok c)

-- `TelemetryTransport(config)`, with its default for `max_attempts`
abbrev pub default_attempts : Json
default_attempts = Json.int (pos 4)

-- `_create_runtime`
unfoldable pub create_runtime : Parts → AgentConfig → Result Transport
create_runtime p c =
    p.resolve_identity
    >> p.build_collectors c
    >> (create c default_attempts
        >>= (λ t. check_limits c.spool_max_bytes c.spool_max_age_sec >> check_config c >> ok t))

abbrev pub has_failed : CollectorStatus → Bool
has_failed failed = true
has_failed timed_out = true
has_failed _ = false

-- `aggregate_failure`
unfoldable pub aggregate_failure : CollectionBatch → Bool
aggregate_failure batch = elim batch.results [
  | [] ↦ false
  | r ∷ rs ↦ has_failed r.status && all (λ item. has_failed item.status) rs
]

unfoldable pub gather : Parts → AgentConfig → Result CollectionBatch
gather p c = p.resolve_identity >> p.build_collectors c >> p.collect_all

-- `_collect_once`
unfoldable pub collect_once : Parts → AgentConfig → Result (Json × Bool)
collect_once p c =
    gather p c
    >>= (λ batch. p.build_payload batch >>= (λ payload. ok (payload, aggregate_failure batch)))

-- `_run_command`
unfoldable pub run_command : Parts → AgentConfig → Result ℕ
run_command p c = create_runtime p c >>= (λ t. p.signals >> p.run >> ok 0)

-- `_once_command` without a transmission
unfoldable pub once_offline : Parts → AgentConfig → Result ℕ
once_offline p c = elim (collect_once p c) [
  | err e ↦ if is_value_error e.class then ok 2 else err e
  | ok (payload, failure) ↦ p.print >> ok (if failure then 3 else 0)
]

-- ... and with one: an exception of the cycle comes before one of `close`.
unfoldable pub once_online : Parts → AgentConfig → String → Result ℕ
once_online p c event =
    create_runtime p c
    >>= (λ t. p.run_cycle event >>= (λ result. p.close >> ok (if result.delivered then 0 else 4)))

-- `_once_command`
unfoldable pub once_command : Parts → AgentConfig → String → Bool → Result ℕ
once_command p c event no_transmit =
    if not (event_matches event)
    then ok 2
    else if no_transmit
    then once_offline p c
    else once_online p c event

-- `_health_snapshot`, and printing it
unfoldable pub health_command : Parts → AgentConfig → Result ℕ
health_command p c = gather p c >>= (λ batch.
    check_limits c.spool_max_bytes c.spool_max_age_sec >> (p.stats >>= (λ stats. p.print >> ok 0)))

-- The `try` of `main`, which the command `version` does not reach.
unfoldable pub dispatch : Parts → Command → Result ℕ
dispatch p run = prepare_config p true >>= (λ c. run_command p c)
dispatch p (once event no_transmit) =
    prepare_config p (not no_transmit) >>= (λ c. once_command p c event no_transmit)
dispatch p check_config_command = prepare_config p true >>= (λ c. p.print >> ok 0)
dispatch p health = prepare_config p true >>= (λ c. health_command p c)
dispatch p version = ok 0

abbrev pub is_config_error : ErrorClass → Bool
is_config_error config_error = true
is_config_error _ = false

-- `except ConfigError`
unfoldable pub exit_code : Result ℕ → Result ℕ
exit_code (ok n) = ok n
exit_code (err e) = if is_config_error e.class then ok 2 else err e

-- `main`
unfoldable pub main : Parts → Command → Result ℕ
main p version = p.print >> ok 0
main p c = exit_code (dispatch p c)
