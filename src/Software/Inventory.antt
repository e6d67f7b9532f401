-- ===== src/Software/Inventory.antt =====
-- The parsers, the platform collectors, `_normalize_records` and `SoftwareCollector` of
-- monitor_agent/collectors/software.py. Commands, the registry and the application folder are what
-- reading them gives. Times are floats, in seconds.
use employee_tracker.Common.{
  String, Bool, true, false, not, ◌&&◌, ◌||◌, Option, none, some, List, [], ◌∷◌, ◌++◌, map, Result,
  ok, err, value_error, raise_if, str_eq, is_some, filter, any, if◌then◌else◌,
}
use employee_tracker.Common.Sort.{sorted}
use employee_tracker.Floats.{FloatOps}
use employee_tracker.Models.{
  Float, Json, str, list, dict, fields, items, nullable, CollectorPayload, CollectorStatus,
  plain_payload,
}

pub record SoftwareRecord : Type 0 where
  pub name : String
  pub version : Option String
  pub source : String

-- The text operations of Python: `strip`, `splitlines`, `split("\t")`, `split(maxsplit=1)`,
-- `casefold` and `<=`; and the arithmetic of floats.
pub record TextOps : Type 0 where
  pub strip : String → String
  pub splitlines : String → List String
  pub split_tab : String → List String
  pub split_first : String → List String
  pub casefold : String → String
  pub text_le : String → String → Bool
  pub floats : FloatOps

-- A root of the registry: an exception before its subkeys are counted, a count that is no integer,
-- or its subkeys, each an exception or the values of `DisplayName` and `DisplayVersion`.
pub data RegistryRoot : Type 0 where
  unopened uncounted : RegistryRoot
  subkeys : List (Option (Option String × Option String)) → RegistryRoot

-- What the machine answers.
pub record Machine : Type 0 where
  pub platform : String
  pub dpkg_output : Result String
  pub rpm_output : Result String
  pub registry : Option (List RegistryRoot)
  -- the stems of `/Applications/*.app`
  pub applications : Result (List String)
  pub brew_output : Result String

module _ (t : TextOps) where
  -- `none` stands for a value that is no text
  unfoldable pub clean_text : Option String → Option String
  clean_text none = none
  clean_text (some value) =
      let cleaned = t.strip value in if str_eq cleaned "" then none else some cleaned

  -- One line of `_parse_tab_records`.
  unfoldable pub tab_record : String → List String → List SoftwareRecord
  tab_record source (name ∷ version ∷ []) = elim (clean_text (some name)) [
    | none ↦ []
    | some n ↦ (record { name = n; version = clean_text (some version); source = source }) ∷ []
  ]
  tab_record source _ = []

  unfoldable pub records_of_lines :
      (String → List SoftwareRecord) → List String → List SoftwareRecord
  records_of_lines parse [] = []
  records_of_lines parse (line ∷ lines) = parse line ++ records_of_lines parse lines

  unfoldable pub parse_tab_records : String → String → List SoftwareRecord
  parse_tab_records output source =
      records_of_lines (λ line. tab_record source (t.split_tab line)) (t.splitlines output)

  abbrev brew_version : List String → Option String
  brew_version (version ∷ []) = clean_text (some version)
  brew_version _ = none

  -- One line of `_parse_brew_records`.
  unfoldable pub brew_record : List String → List SoftwareRecord
  brew_record [] = []
  brew_record (name ∷ rest) = elim (clean_text (some name)) [
    | none ↦ []
    | some n ↦ (record { name = n; version = brew_version rest; source = "homebrew" }) ∷ []
  ]

  unfoldable pub parse_brew_records : String → List SoftwareRecord
  parse_brew_records output =
      records_of_lines (λ line. brew_record (t.split_first line)) (t.splitlines output)

  abbrev pub Key : Type 0
  Key = String × String × String

  unfoldable pub key_of : SoftwareRecord → Key
  key_of r = (
    t.casefold r.name,
    t.casefold (elim r.version [ none ↦ "" | some v ↦ v ]),
    t.casefold r.source,
  )

  abbrev pub key_eq : Key → Key → Bool
  key_eq a b = str_eq a.0 b.0 && str_eq a.1 b.1 && str_eq a.2 b.2

  -- The order of tuples of texts.
  abbrev pub key_le : Key → Key → Bool
  key_le a b =
      if str_eq a.0 b.0
      then (if str_eq a.1 b.1 then t.text_le a.2 b.2 else t.text_le a.1 b.1)
      else t.text_le a.0 b.0

  -- `unique.setdefault(key, record)`
  unfoldable pub setdefault : SoftwareRecord → List SoftwareRecord → List SoftwareRecord
  setdefault r unique =
      if any (λ u. key_eq (key_of u) (key_of r)) unique then unique else unique ++ r ∷ []

  unfoldable pub unique_records : List SoftwareRecord → List SoftwareRecord → List SoftwareRecord
  unique_records [] unique = unique
  unique_records (r ∷ rs) unique = unique_records rs (setdefault r unique)

  unfoldable pub normalize_records : List SoftwareRecord → List SoftwareRecord
  normalize_records rs = sorted (λ a b. key_le (key_of a) (key_of b)) (unique_records rs [])

  unfoldable pub collect_linux : Machine → List SoftwareRecord × Bool
  collect_linux m = elim m.dpkg_output [
    | ok output ↦ (parse_tab_records output "dpkg", true)
    | err _ ↦ elim m.rpm_output [
      | ok output ↦ (parse_tab_records output "rpm", true)
      | err _ ↦ ([], false)
    ]
  ]

  -- The records of one root's subkeys.
  unfoldable pub registry_records :
      List (Option (Option String × Option String)) → List SoftwareRecord
  registry_records [] = []
  registry_records (none ∷ keys) = registry_records keys
  registry_records (some (display_name, display_version) ∷ keys) =
      let rest = registry_records keys in
      elim (clean_text display_name) [
        | none ↦ rest
        | some n ↦
            (record { name = n; version = clean_text display_version; source = "windows_registry" })
            ∷ rest
      ]

  -- The loop over the roots: the records, and `available`.
  unfoldable pub registry_roots : List RegistryRoot → List SoftwareRecord × Bool
  registry_roots [] = ([], false)
  registry_roots (unopened ∷ roots) = registry_roots roots
  registry_roots (uncounted ∷ roots) = registry_roots roots
  registry_roots (subkeys keys ∷ roots) = (registry_records keys ++ (registry_roots roots).0, true)

  unfoldable pub collect_windows : Machine → List SoftwareRecord × Bool
  collect_windows m = elim m.registry [ none ↦ ([], false) | some roots ↦ registry_roots roots ]

  unfoldable pub application_records : List String → List SoftwareRecord
  application_records stems =
      map (λ s. record { name = s; version = none; source = "macos_applications" })
        (filter (λ s. is_some (clean_text (some s))) stems)

  abbrev found_or_nothing :
      {A : Type 0} → (A → List SoftwareRecord) → Result A → List SoftwareRecord × Bool
  found_or_nothing f (ok a) = (f a, true)
  found_or_nothing f (err _) = ([], false)

  unfoldable pub collect_macos : Machine → List SoftwareRecord × Bool
  collect_macos m =
      let apps = found_or_nothing application_records m.applications in
      let brew = found_or_nothing parse_brew_records m.brew_output in
      (apps.0 ++ brew.0, apps.1 || brew.1)

  -- The branch on `sys.platform`.
  unfoldable pub inventory : Machine → List SoftwareRecord × Bool
  inventory m =
      if str_eq m.platform "linux"
      then collect_linux m
      else if str_eq m.platform "win32"
      then collect_windows m
      else if str_eq m.platform "darwin"
      then collect_macos m
      else ([], false)

abbrev software_value : SoftwareRecord → Json
software_value r = dict (
    fields (("name", str r.name) ∷ ("version", nullable r.version) ∷ ("source", str r.source) ∷ []))

-- `_payload`
unfoldable pub payload_of : List SoftwareRecord → CollectorPayload
payload_of rs =
    plain_payload (dict (fields (("software", list (items (map software_value rs))) ∷ [])))

abbrev no_software : CollectorStatus → Option String → Option String → CollectorPayload
no_software s code message = record {
  data_value = dict (fields (("software", list (items [])) ∷ []));
  status = s;
  error_code = code;
  error_message = message;
}

-- The guard of the constructor.
unfoldable pub check_ttl : FloatOps → Float → Result (Unit {0})
check_ttl f cache_ttl_sec =
    raise_if (not (f.is_finite cache_ttl_sec) || f.lt cache_ttl_sec (f.tenths 0)) value_error
      "cache_ttl_sec must be finite and non-negative"

-- `self._cache`
abbrev pub Cached : Type 0
Cached = Option (Float × List SoftwareRecord)

-- `0 <= now - cached_at < self._cache_ttl_sec`
abbrev pub is_fresh : FloatOps → Float → Float → Float → Bool
is_fresh f ttl cached_at now =
    f.le (f.tenths 0) (f.sub now cached_at) && f.lt (f.sub now cached_at) ttl

-- `collect` where the cache does not answer; `later` is the time behind the inventory.
unfoldable pub collect_anew : TextOps → Machine → Float → Cached → CollectorPayload × Cached
collect_anew t m later cache =
    let found = inventory t m in
    let immutable_records = normalize_records t found.0 in
    if found.1 then (payload_of immutable_records, some (later, immutable_records)) else (
      no_software CollectorStatus.partial (some "software_inventory_unavailable")
          (some "software inventory unavailable"),
      cache,
    )

-- `SoftwareCollector.collect`: the payload, and the cache behind it.
unfoldable pub collect :
    TextOps → Bool → Float → Machine → Float → Float → Cached → CollectorPayload × Cached
collect t enabled ttl m now later cache =
    let anew = collect_anew t m later cache in
    if not enabled then (no_software CollectorStatus.disabled none none, cache) else elim cache [
      | none ↦ anew
      | some (cached_at, cached_records) ↦
          if is_fresh t.floats ttl cached_at now
          then (payload_of cached_records, some (cached_at, cached_records))
          else anew
    ]
