-- ===== src/Config/Parse.antt =====
-- The parsers of one setting: `_parse_int`, `_parse_float`, `_parse_bool`, `_parse_paths`, the
-- defaults by platform and `_validate_collector_uri` of monitor_agent/config.py.
use Prim.Native.String.{◌++◌ as str_append}
use employee_tracker.Common.{
  String, Bool, true, false, not, ◌&&◌, ◌||◌, Option, none, some, List, [], ◌∷◌, map, Result, ok,
  raise, raise_if, config_error, ◌>>◌, str_eq, member, filter, is_some, if◌then◌else◌,
}
use employee_tracker.Common.Int.{ℤ, leb_ℤ}
use employee_tracker.Models.{Float}
use employee_tracker.Floats.{FloatOps}
use employee_tracker.Config.Agent.{FilePath}

-- What `urllib.parse.urlsplit` finds in a URI.
pub record Url : Type 0 where
  pub scheme : String
  pub hostname : Option String
  pub username : Option String
  pub password : Option String

-- What Python's library does with texts and files.
pub record Library : Type 0 where
  -- `int(text)` and `float(text)`; `none` is a ValueError
  pub to_int : String → Option ℤ
  pub to_float : String → Option Float
  pub casefold : String → String
  pub upper : String → String
  pub strip : String → String
  pub split : String → String → List String
  -- `urlsplit(uri)` and its properties; `none` is a ValueError of one of them
  pub urlsplit : String → Option Url
  -- `Path(text).is_file()`, which passes some errors of the system on
  pub is_file : FilePath → Result Bool
  pub show_int : ℤ → String
  pub show_float : Float → String

-- The environment: `env.get(name)`
abbrev pub Env : Type 0
Env = String → Option String

module _ (l : Library) where
  unfoldable pub parse_int : Env → String → ℤ → ℤ → ℤ → Result ℤ
  parse_int env name default minimum maximum = elim (env name) [
    | none ↦ ok default
    | some raw_value ↦ elim (l.to_int raw_value) [
      | none ↦ raise config_error (str_append name " must be an integer")
      | some value ↦
          if leb_ℤ minimum value && leb_ℤ value maximum
          then ok value
          else raise config_error (
              str_append name (
                str_append " must be between "
                  (str_append (l.show_int minimum) (str_append " and " (l.show_int maximum)))))
    ]
  ]

  unfoldable pub parse_float : FloatOps → Env → String → Float → Float → Float → Result Float
  parse_float f env name default minimum maximum = elim (env name) [
    | none ↦ ok default
    | some raw_value ↦ elim (l.to_float raw_value) [
      | none ↦ raise config_error (str_append name " must be a number")
      | some value ↦
          if f.le minimum value && f.le value maximum
          then ok value
          else raise config_error (
              str_append name (
                str_append " must be between "
                  (str_append (l.show_float minimum) (str_append " and " (l.show_float maximum)))))
    ]
  ]

  unfoldable pub parse_bool : Env → String → Bool → Result Bool
  parse_bool env name default = elim (env name) [
    | none ↦ ok default
    | some raw_value ↦
        let normalized = l.casefold raw_value in
        if member normalized ("true" ∷ "1" ∷ "yes" ∷ [])
        then ok true
        else if member normalized ("false" ∷ "0" ∷ "no" ∷ [])
        then ok false
        else raise config_error
            (str_append name " must be true or false (also accepted: 1/0 or yes/no)")
  ]

  unfoldable pub parse_paths : Env → String → String → List FilePath
  parse_paths env name platform_name =
      let raw_value : String = elim (env name) [ none ↦ "" | some v ↦ v ] in
      let separator = if str_eq platform_name "win32" then ";" else ":" in
      map l.strip (filter (λ value. not (str_eq (l.strip value) "")) (l.split raw_value separator))

  unfoldable pub validate_collector_uri : String → Result (Unit {0})
  validate_collector_uri uri = elim (l.urlsplit uri) [
    | none ↦ raise config_error "MONITOR_COLLECTOR_URI must be a valid HTTPS URI"
    | some parsed ↦
        raise_if (not (str_eq (l.casefold parsed.scheme) "https")) config_error
          "MONITOR_COLLECTOR_URI must use HTTPS"
        >> raise_if (elim parsed.hostname [ none ↦ true | some host ↦ str_eq host "" ]) config_error
            "MONITOR_COLLECTOR_URI must include a hostname"
        >> raise_if (is_some parsed.username || is_some parsed.password) config_error
            "MONITOR_COLLECTOR_URI must not include credentials"
  ]

unfoldable pub default_spool_path : String → FilePath
default_spool_path platform_name =
    if str_eq platform_name "win32"
    then "C:\\ProgramData\\MonitorAgent\\spool"
    else if str_eq platform_name "darwin"
    then "/Library/Application Support/MonitorAgent/spool"
    else "/var/lib/monitor-agent/spool"

unfoldable pub default_log_path : String → Option FilePath
default_log_path platform_name =
    if str_eq platform_name "win32"
    then some "C:\\ProgramData\\MonitorAgent\\logs\\monitor-agent.log"
    else if str_eq platform_name "darwin"
    then some "/Library/Logs/MonitorAgent/monitor-agent.log"
    else none
