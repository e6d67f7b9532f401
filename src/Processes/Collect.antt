-- ===== src/Processes/Collect.antt =====
-- `_process_record` and `ProcessesCollector` of monitor_agent/collectors/processes.py. psutil is not
-- the program's own code: a `Probe` is what reading one process gave.
use employee_tracker.Common.{
  ℕ, String, Bool, true, false, ◌&&◌, ◌||◌, Option, none, some, List, [], ◌∷◌, Result, ok, raise,
  raise_if, value_error, overflow_error, ◌>>=◌, ◌>>◌, map, take, ltb, ◌==◌, ◌/◌, if◌then◌else◌,
}
use employee_tracker.Common.Int.{ℤ, pos, ltb_ℤ, leb_ℤ, pos_part}
use employee_tracker.Common.Dict.{Dict, lookup}
use employee_tracker.Common.Sort.{sorted}
use employee_tracker.Config.{ProcessCmdlineMode}
use employee_tracker.Models.{
  Float, Json, null, int, float, str, list, dict, Items, nil, cons, items, fields, get_field,
  nullable, as_string, CollectorPayload, CollectorStatus, plain_payload,
}
use employee_tracker.Processes.Redact.{Words, redact_command_line}

-- A value of `process.info`: the sentinel, or a Python value, where a dict stands for an object with
-- these attributes and `null` for every value that no test of the module accepts.
pub data Attribute : Type 0 where
  unavailable : Attribute
  value : Json → Attribute

-- The answer of one process: `AccessDenied`, `NoSuchProcess`, or its attributes.
pub data Probe : Type 0 where
  denied gone : Probe
  seen : Dict Attribute → Probe

-- What the platform and Python's floats do here: `float(n)` (`none` is an OverflowError), the float
-- zero, `math.isfinite`, `datetime.fromtimestamp(t, tz=UTC).isoformat()` (`none` is an error that
-- the code catches), and `sys.platform`.
pub record Host : Type 0 where
  pub words : Words
  pub to_float : ℤ → Option Float
  pub zero_float : Float
  pub is_finite : Float → Bool
  pub isoformat : Float → Option String
  pub platform : String

-- `info.get(k)`
unfoldable pub get : String → Dict Attribute → Json
get k info = elim (lookup k info) [
  | none ↦ null
  | some a ↦ elim a [ unavailable ↦ null | value v ↦ v ]
]

unfoldable pub safe_int : Json → ℤ
safe_int (int n) = n
safe_int _ = pos 0

-- `float(value)` for a number that is no bool
unfoldable pub number : Host → Json → Result (Option Float)
number host (int n) = elim (host.to_float n) [
  | none ↦ raise overflow_error "int too large to convert to float"
  | some x ↦ ok (some x)
]
number host (float x) = ok (some x)
number host _ = ok none

unfoldable pub safe_float : Host → Json → Result Float
safe_float host v = number host v >>= (λ x.
    ok (elim x [
      | none ↦ host.zero_float
      | some y ↦ if host.is_finite y then y else host.zero_float
    ]))

unfoldable pub utc_timestamp : Host → Json → Result (Option String)
utc_timestamp host v = number host v >>= (λ x.
    ok (elim x [ none ↦ none | some y ↦ if host.is_finite y then host.isoformat y else none ]))

-- `none` once an argument is no text
abbrev texts : Items → Option (List String)
texts nil = some []
texts (cons (str s) xs) = elim (texts xs) [ none ↦ none | some rest ↦ some (s ∷ rest) ]
texts (cons _ xs) = none

unfoldable pub command_arguments : Json → List String
command_arguments (list xs) = elim (texts xs) [ none ↦ [] | some arguments ↦ arguments ]
command_arguments _ = []

unfoldable pub memory_rss_kb : Json → ℕ
memory_rss_kb (dict d) = elim (get_field "rss" d) [
  | none ↦ 0
  | some rss ↦ pos_part (safe_int rss) / 1024
]
memory_rss_kb _ = 0

pub record ProcessRecord : Type 0 where
  pub pid : ℤ
  pub name : Option String
  pub user : Option String
  pub status : Option String
  pub cpu_pct : Float
  pub mem_rss_kb : ℕ
  pub exe : Option String
  pub cmdline : String
  pub started : Option String

unfoldable pub process_record : Host → ProcessCmdlineMode → Dict Attribute → Result ProcessRecord
process_record host mode info = safe_float host (get "cpu_percent" info) >>= (λ cpu_pct.
    utc_timestamp host (get "create_time" info) >>= (λ started. ok (record {
      pid = safe_int (get "pid" info);
      name = as_string (get "name" info);
      user = as_string (get "username" info);
      status = as_string (get "status" info);
      cpu_pct = cpu_pct;
      mem_rss_kb = memory_rss_kb (get "memory_info" info);
      exe = as_string (get "exe" info);
      cmdline =
          redact_command_line host.words (command_arguments (get "cmdline" info)) mode
            host.platform;
      started = started;
    })))

-- The dict that stands for a record in the payload.
unfoldable pub process_value : ProcessRecord → Json
process_value r = dict (
    fields (
      ("pid", int r.pid)
      ∷ ("name", nullable r.name)
      ∷ ("user", nullable r.user)
      ∷ ("status", nullable r.status)
      ∷ ("cpu_pct", float r.cpu_pct)
      ∷ ("mem_rss_kb", int (pos r.mem_rss_kb))
      ∷ ("exe", nullable r.exe)
      ∷ ("cmdline", str r.cmdline)
      ∷ ("started", nullable r.started)
      ∷ []))

-- `any(value is _ATTRIBUTE_UNAVAILABLE for value in info.values())`
unfoldable pub is_incomplete : Dict Attribute → Bool
is_incomplete [] = false
is_incomplete ((k, unavailable) ∷ d) = true
is_incomplete ((k, value v) ∷ d) = is_incomplete d

-- The loop over the processes: the records in their order, and `access_partial`.
unfoldable pub scan : Host → ProcessCmdlineMode → List Probe → Result (List ProcessRecord × Bool)
scan host mode [] = ok ([], false)
scan host mode (denied ∷ ps) = scan host mode ps >>= (λ r. ok (r.0, true))
scan host mode (gone ∷ ps) = scan host mode ps
scan host mode (seen info ∷ ps) =
    let rest = scan host mode ps in
    if is_incomplete info
    then rest >>= (λ r. ok (r.0, true))
    else process_record host mode info >>= (λ p. rest >>= (λ r. ok (p ∷ r.0, r.1)))

-- The order of the key `(-mem_rss_kb, pid)`.
unfoldable pub before : ProcessRecord → ProcessRecord → Bool
before p q = ltb q.mem_rss_kb p.mem_rss_kb || p.mem_rss_kb == q.mem_rss_kb && leb_ℤ p.pid q.pid

-- `records.sort(...)` and `records[: self._limit]`
unfoldable pub top_records : ℕ → List ProcessRecord → List ProcessRecord
top_records limit records = take limit (sorted before records)

unfoldable pub processes_payload : List ProcessRecord → Bool → CollectorPayload
processes_payload records access_partial =
    let data_value = dict (fields (("processes", list (items (map process_value records))) ∷ [])) in
    if access_partial
    then record {
      data_value = data_value;
      status = CollectorStatus.partial;
      error_code = some "process_access_partial";
      error_message = some "some processes unavailable";
    }
    else plain_payload data_value

-- `ProcessesCollector(mode, limit).collect()`
unfoldable pub collect : Host → ProcessCmdlineMode → ℤ → List Probe → Result CollectorPayload
collect host mode limit processes =
    raise_if (ltb_ℤ limit (pos 1)) value_error "limit must be at least 1"
    >> scan host mode processes
    >>= (λ r. ok (processes_payload (top_records (pos_part limit) r.0) r.1))
