-- ===== src/Logging/Setup.antt =====
-- The formatters, the file handler and `configure_logging` of monitor_agent/logging_setup.py. The
-- classes of `logging` and the calls of the operating system are not the program's own code.
use Prim.Native.String.{String, ◌++◌}
use employee_tracker.Common.{
  ℕ, Bool, true, false, Option, none, some, List, [], ◌∷◌, Result, ok, err, ◌>>=◌, ◌>>◌,
}
use employee_tracker.Config.{FilePath, LogFormat, AgentConfig}
use employee_tracker.Models.{Float, Json, str, dict, fields}
use employee_tracker.Logging.Redact.{LogRecord, nonempty_secrets}

-- `datetime.fromtimestamp(created, tz=UTC).isoformat(timespec="microseconds")` with `Z`,
-- `record.getMessage()`, and `json.dumps` of these options
pub record Printer : Type 0 where
  pub utc_timestamp : Float → Result String
  pub get_message : LogRecord → Result String
  pub dumps : Json → Result String

abbrev event_id_fields : Option Json → List (String × Json)
event_id_fields (some (str event_id)) = ("event_id", str event_id) ∷ []
event_id_fields _ = []

-- `JsonFormatter.format`
unfoldable pub format_json : Printer → LogRecord → Result String
format_json p r = p.utc_timestamp r.created >>= λ time. p.get_message r >>= λ message. p.dumps (
    dict (
      fields (
        ("timestamp", str time)
        ∷ ("level", str r.levelname)
        ∷ ("component", str r.name)
        ∷ ("message", str message)
        ∷ event_id_fields r.event_id)))

-- `_TextFormatter.format`
unfoldable pub format_text : Printer → LogRecord → Result String
format_text p r = p.utc_timestamp r.created >>= λ time. p.get_message r >>= λ message.
    ok (time ++ " " ++ r.levelname ++ " " ++ r.name ++ " " ++ message)

-- The calls of `_OwnerOnlyRotatingFileHandler._open` and `_prepare_log_parent`: what each gives.
pub record FileCalls : Type 0 where
  -- `os.name == "posix"`
  pub posix : Bool
  pub mkdir_parent : Result (Unit {0})
  pub chmod_parent : Result (Unit {0})
  -- the number of the descriptor
  pub os_open : Result ℕ
  pub fchmod : Result (Unit {0})
  pub open_stream : Result (Unit {0})
  pub os_close : Result (Unit {0})

abbrev if_posix : Bool → Result (Unit {0}) → Result (Unit {0})
if_posix true call = call
if_posix false call = ok tt

-- What follows an exception behind the open descriptor: it is closed, and the exception raised
-- again unless closing raises another.
abbrev or_close : FileCalls → Result ℕ → Result ℕ
or_close c (ok descriptor) = ok descriptor
or_close c (err e) = c.os_close >> err e

-- `_OwnerOnlyRotatingFileHandler._open`
unfoldable pub open_owner_only : FileCalls → Result ℕ
open_owner_only c = c.os_open >>= λ descriptor.
    or_close c (if_posix c.posix c.fchmod >> c.open_stream >> ok descriptor)

-- `_prepare_log_parent`
unfoldable pub prepare_log_parent : FileCalls → Result (Unit {0})
prepare_log_parent c = c.mkdir_parent >> if_posix c.posix c.chmod_parent

pub data Sink : Type 0 where
  stdout : Sink
  -- a rotating file with its `maxBytes`, its `backupCount` and its first descriptor
  rotating : FilePath → ℕ → ℕ → ℕ → Sink

pub record Handler : Type 0 where
  pub sink : Sink
  pub format : LogFormat
  pub secrets : List String

-- The logger of the name `monitor_agent`; a handler stands for those it had.
pub record Logger : Type 0 where
  pub handlers : List Handler
  pub level : ℕ
  pub propagate : Bool
  pub closed : List Handler

-- `_MAX_LOG_BYTES` and `_BACKUP_COUNT`
abbrev max_log_bytes : ℕ
max_log_bytes = 10485760

abbrev backup_count : ℕ
backup_count = 5

unfoldable pub make_sink : FileCalls → Option FilePath → Result Sink
make_sink c none = ok stdout
make_sink c (some path) = prepare_log_parent c >> open_owner_only c >>= λ descriptor.
    ok (rotating path max_log_bytes backup_count descriptor)

abbrev token_secrets : Option String → List String
token_secrets none = []
token_secrets (some token) = token ∷ []

-- `logging.INFO`
abbrev info_level : ℕ
info_level = 20

abbrev level_or_info : Option ℕ → ℕ
level_or_info none = info_level
level_or_info (some level) = level

-- `configure_logging`, where `level_of` is `logging.getLevelNamesMapping().get`
unfoldable pub configure_logging :
    FileCalls → (String → Option ℕ) → AgentConfig → Logger → Result Logger
configure_logging c level_of config logger = make_sink c config.log_path >>= λ sink. ok (record {
  handlers =
      (record {
        sink = sink;
        format = config.log_format;
        secrets = nonempty_secrets (token_secrets config.api_token);
      })
      ∷ [];
  level = level_or_info (level_of config.log_level);
  propagate = false;
  closed = logger.handlers;
})
