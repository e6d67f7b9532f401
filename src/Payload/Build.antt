-- ===== src/Payload/Build.antt =====
-- `build_payload`, `_default_sections`, `_timestamp` and the pattern of event names of
-- monitor_agent/payload.py. (The pattern stands in cli.py a second time.)
use Prim.Native.Char.{code}
use employee_tracker.Common.{
  ℕ, String, Bool, false, ◌&&◌, ◌||◌, Option, none, some, List, [], ◌∷◌, ◌++◌, Result, ok, raise,
  value_error, ◌>>=◌, leb, length, all, ◌==◌, if◌then◌else◌,
}
use employee_tracker.Common.Int.{ℤ, pos}
use employee_tracker.Common.Dict.{Dict, insert}
use employee_tracker.Identity.{MachineIdentity}
use employee_tracker.Models.{
  Json, null, str, int, list, dict, Fields, items, fields, get_field, nullable, success, partial,
  status_value, CollectorResult, CollectionBatch,
}
use employee_tracker.Transport.{DateTime, to_utc, version}

-- The code points of a text.
abbrev pub codes : String → List ℕ
codes String.[] = []
codes (String.◌∷◌ c s) = code c ∷ codes s

abbrev between : ℕ → ℕ → ℕ → Bool
between lo hi c = leb lo c && leb c hi

-- `[a-z0-9_-]`
abbrev pub event_char : ℕ → Bool
event_char c = between b'a' b'z' c || between b'0' b'9' c || c == b'_' || c == b'-'

abbrev pub matches_codes : List ℕ → Bool
matches_codes [] = false
matches_codes (c ∷ cs) = between b'a' b'z' c && leb (length cs) 63 && all event_char cs

-- `_EVENT_PATTERN.fullmatch(event)` for `^[a-z][a-z0-9_-]{0,63}$`
unfoldable pub event_matches : String → Bool
event_matches event = matches_codes (codes event)

abbrev pub section_names : List String
section_names =
    "system" ∷ "users" ∷ "cpu" ∷ "memory" ∷ "disks" ∷ "network" ∷ "processes" ∷ "software"
    ∷ "active_window" ∷ "file_audit" ∷ "screenshot" ∷ []

abbrev pub empty_dict : Json
empty_dict = dict (fields [])

abbrev pub empty_list : Json
empty_list = list (items [])

unfoldable pub default_sections : Dict Json
unfolding fields items
default_sections =
    ("system", empty_dict)
    ∷ ("users", empty_list)
    ∷ ("cpu", empty_dict)
    ∷ ("memory", empty_dict)
    ∷ ("disks", empty_list)
    ∷ (
      "network",
      dict (
          fields
            (("adapters", empty_list) ∷ ("connections", empty_list) ∷ ("io", empty_dict) ∷ [])),
    )
    ∷ ("processes", empty_list)
    ∷ ("software", empty_list)
    ∷ ("active_window", dict (fields (("title", null) ∷ ("app", null) ∷ ("pid", null) ∷ [])))
    ∷ ("file_audit", empty_list)
    ∷ ("screenshot", null)
    ∷ []

-- `_timestamp`: `current` stands for `datetime.now(UTC)`, and `isoformat` for the text of an
-- instant in UTC, by its microseconds.
unfoldable pub timestamp : (ℤ → String) → DateTime → Option DateTime → Result String
unfolding to_utc
timestamp isoformat current now =
    let moment : DateTime = elim now [ none ↦ current | some t ↦ t ] in
    elim moment.offset [
      | none ↦ raise value_error "now must be timezone-aware"
      | some o ↦ to_utc moment >>= λ instant. ok (isoformat instant)
    ]

-- What a collector says of itself.
unfoldable pub collector_entry : CollectorResult → Json
unfolding status_value
collector_entry r = dict (
    fields (
      ("status", str (status_value r.status))
      ∷ ("duration_ms", int (pos r.duration_ms))
      ∷ ("error_code", nullable r.error_code)
      ∷ ("error_message", nullable r.error_message)
      ∷ []))

-- `isinstance(result.data, Mapping)`, for a result whose status lets its data through.
abbrev mapping_of : Json → Option Fields
mapping_of (dict d) = some d
mapping_of _ = none

unfoldable pub contribution : CollectorResult → Option Fields
contribution r = elim r.status [
  | success ↦ mapping_of r.data_value
  | partial ↦ mapping_of r.data_value
  | _ ↦ none
]

-- `for section_name in _SECTION_NAMES: if section_name in data: ...`
unfoldable pub copy_sections : List String → Fields → Dict Json → Dict Json
copy_sections [] d sections = sections
copy_sections (n ∷ names) d sections =
    copy_sections names d (elim (get_field n d) [ none ↦ sections | some v ↦ insert n v sections ])

-- The sections after one result.
unfoldable pub add_sections : CollectorResult → Dict Json → Dict Json
add_sections r sections = elim (contribution r) [
  | none ↦ sections
  | some d ↦ copy_sections section_names d sections
]

-- The loop over the results: the sections, and the collectors' entries.
unfoldable pub merge_results : List CollectorResult → Dict Json → Dict Json → Dict Json × Dict Json
merge_results [] sections collectors = (sections, collectors)
merge_results (r ∷ rs) sections collectors =
    merge_results rs (add_sections r sections) (insert r.name (collector_entry r) collectors)

-- What the interpreter and the platform say of themselves.
pub record Platform : Type 0 where
  pub python : String
  pub platform : String

unfoldable pub agent_entry : Platform → MachineIdentity → CollectionBatch → Dict Json → Json
agent_entry host identity batch collectors = dict (
    fields (
      ("version", str version)
      ∷ ("python", str host.python)
      ∷ ("platform", str host.platform)
      ∷ ("collection_duration_ms", int (pos batch.duration_ms))
      ∷ ("identity_source", str identity.source)
      ∷ ("collectors", dict (fields collectors))
      ∷ []))

-- The fields of the payload, from the parts that were checked before it.
abbrev pub payload_entries :
    Platform → String → MachineIdentity → CollectionBatch → String → String → Dict Json
payload_entries host event identity batch time event_id =
    let merged = merge_results batch.results default_sections [] in
    ("schema_version", str "1.1")
      ∷ ("event", str event)
      ∷ ("timestamp", str time)
      ∷ ("machine_id", str identity.value)
      ∷ merged.0
    ++ ("event_id", str event_id) ∷ ("agent", agent_entry host identity batch merged.1) ∷ []

unfoldable pub assemble :
    Platform → String → MachineIdentity → CollectionBatch → String → String → Fields
assemble host event identity batch time event_id =
    fields (payload_entries host event identity batch time event_id)

-- `event_id` is the text of the UUID that is given or made up.
unfoldable pub build_payload :
    Platform
    → (ℤ → String)
    → DateTime
    → String
    → MachineIdentity
    → CollectionBatch
    → Option DateTime
    → String
    → Result Fields
build_payload host isoformat current event identity batch now event_id =
    if event_matches event
    then timestamp isoformat current now
      >>= (λ time. ok (assemble host event identity batch time event_id))
    else raise value_error "invalid event name"
