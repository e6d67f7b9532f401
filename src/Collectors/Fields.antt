-- ===== src/Collectors/Fields.antt =====
-- Which sections a collector's payload holds.
use employee_tracker.Common.{
  ℕ, ◌≡◌, subst, inl, inr, String, Bool, true, false, none, some, List, [], ◌∷◌, Result, ok, err,
  Result-cases, Bool-cases, eq_iff, member, is_some, arith, if◌then◌else◌, ◌>>=◌, Error,
}
use employee_tracker.Common.Int.{ℤ}
use employee_tracker.Config.{ProcessCmdlineMode}
use employee_tracker.Models.{Float, Json, Fields, dict, fields, get_field, CollectorPayload}
use employee_tracker.SystemInfo.{Answers, collect_system}
use employee_tracker.Identity.{MachineIdentity}
use employee_tracker.Resources.{Rounding, Gauges, resources_payload, collect_resources}
use employee_tracker.Network.Records.{Texts}
use employee_tracker.Network.Collect.{Psutil, collect_network, collect_connections, network_data}
use employee_tracker.Window.{Desktop, collect_active_window, collect_window, window_data}
use employee_tracker.Screenshot.{Grabber, collect_screenshot, screenshot_payload, screenshot_data}
use employee_tracker.Users.{UserSession, collect_users, user_records}
use employee_tracker.Processes.Collect.{Host, Probe, processes_payload, scan}
use employee_tracker.Processes.Collect as Processes
use employee_tracker.FileAudit.Collect.{AuditPath, Progress, audit_payload, audit_paths}
use employee_tracker.FileAudit.Collect as FileAudit
use employee_tracker.Software.Inventory.{
  TextOps, Machine, Cached, payload_of, collect_anew, is_fresh, inventory,
}
use employee_tracker.Software.Inventory as Software

-- The sections that a value holds are among these.
pub record HoldsOnly (sections : List String) (j : Json) : Type 0 where
  pub only :
      (d : Fields) (n : String)
      → j ≡ dict d
      → is_some (get_field n d) ≡ true
      → member n sections ≡ true

-- A payload that a collector returns holds only these sections.
pub record Fills (sections : List String) (outcome : Result CollectorPayload) : Type 0 where
  pub fill : (p : CollectorPayload) → outcome ≡ ok p → HoldsOnly sections p.data_value

Fills-ok :
    {sections : List String} (q : CollectorPayload)
    → HoldsOnly sections q.data_value
    → Fills sections (ok q)
Fills-ok {sections} q h = record {
  fill = λ p e. let same : q ≡ p = cc in subst (λ x. HoldsOnly sections x.data_value) same h;
}

Fills-err : {sections : List String} {e : Error} → Fills sections (err e)
Fills-err = record { fill = λ p h. absurd (ground arith) }

-- What is bound to the end of a call fills what the end fills.
Fills->>= :
    {A : Type 0} {sections : List String} (r : Result A) {next : A → Result CollectorPayload}
    → ((a : A) → Fills sections (next a))
    → Fills sections (r >>= next)
Fills->>= (ok a) h = h a
Fills->>= (err e) h = Fills-err

Fills-if :
    {sections : List String} {x y : Result CollectorPayload} (b : Bool)
    → Fills sections x
    → Fills sections y
    → Fills sections (if b then x else y)
Fills-if true h k = h
Fills-if false h k = k

HoldsOnly-one : (k : String) (v : Json) → HoldsOnly (k ∷ []) (dict (fields ((k, v) ∷ [])))
unfolding fields get_field
HoldsOnly-one k v = record {
  only = λ d n e h.
      let same : d ≡ fields ((k, v) ∷ []) = ground arith in
      let there : is_some (get_field n (fields ((k, v) ∷ []))) ≡ true =
        subst (λ x. is_some (get_field n x) ≡ true) same h in
      ground (arith, there, eq_iff k n, eq_iff n k);
}

HoldsOnly-if :
    {sections : List String} (p q : CollectorPayload) (b : Bool)
    → HoldsOnly sections p.data_value
    → HoldsOnly sections q.data_value
    → HoldsOnly sections (if b then p else q).data_value
HoldsOnly-if p q true h k = h
HoldsOnly-if p q false h k = k

ruleset fills_rules = (Fills-ok, Fills-err, Fills->>=, Fills-if, HoldsOnly-one, HoldsOnly-if)

pub collect_system-Fills :
    (a : Answers) (identity : MachineIdentity) → Fills ("system" ∷ []) (collect_system a identity)
unfolding collect_system
collect_system-Fills a identity = search fills_rules depth 9

collect_connections-Fills :
    (t : Texts) (p : Psutil) (adapters : List Json) (io : Json)
    → Fills ("network" ∷ []) (collect_connections t p adapters io)
unfolding collect_connections network_data
collect_connections-Fills t p adapters io = elim (Result-cases p.net_connections) [
  | inl (raw, e) ↦ rw e (search fills_rules)
  | inr (raised, e) ↦ rw e (search fills_rules)
]

pub collect_network-Fills :
    (t : Texts) (enabled : Bool) (p : Psutil) → Fills ("network" ∷ []) (collect_network t enabled p)
unfolding collect_network network_data
collect_network-Fills t enabled p = let rest = collect_connections-Fills t p in search (fills_rules)

pub collect_users-Fills :
    (machine : Host) (sessions : Result (List UserSession))
    → Fills ("users" ∷ []) (collect_users machine sessions)
unfolding collect_users
collect_users-Fills machine sessions = elim (Result-cases (sessions >>= user_records machine)) [
  | inl (users, e) ↦ rw (collect_users, e) (search fills_rules)
  | inr (raised, e) ↦ rw (collect_users, e) (search fills_rules)
]

pub collect_processes-Fills :
    (host : Host) (mode : ProcessCmdlineMode) (limit : ℤ) (ps : List Probe)
    → Fills ("processes" ∷ []) (Processes.collect host mode limit ps)
unfolding Processes.collect processes_payload
collect_processes-Fills host mode limit ps = search fills_rules

pub collect_window-Fills :
    (enabled : Bool) (platform_name : String) (d : Desktop)
    → Fills ("active_window" ∷ []) (collect_active_window enabled platform_name d)
unfolding collect_active_window window_data
collect_window-Fills enabled platform_name d =
    elim (Result-cases (collect_window d platform_name)) [
      | inl (window, e) ↦ rw e (search fills_rules)
      | inr (raised, e) ↦ rw e (search fills_rules)
    ]

pub collect_screenshot-Fills :
    (g : Grabber) (enabled : Bool) (max_bytes : ℤ)
    → Fills ("screenshot" ∷ []) (collect_screenshot g enabled max_bytes)
unfolding collect_screenshot screenshot_payload screenshot_data
collect_screenshot-Fills g enabled max_bytes = elim (Result-cases g.capture_png) [
  | inl (png_bytes, e) ↦ rw e (search fills_rules)
  | inr (raised, e) ↦ rw e (search fills_rules)
]

pub collect_audit-Fills :
    (hash : List ℕ → String) (max_files max_file_bytes : ℤ) (paths : List AuditPath)
    → Fills ("file_audit" ∷ []) (FileAudit.collect hash max_files max_file_bytes paths)
unfolding FileAudit.collect audit_payload
collect_audit-Fills hash max_files max_file_bytes [] = search fills_rules
collect_audit-Fills hash max_files max_file_bytes (path ∷ paths) = search fills_rules

-- The payload of the software collector.
collect_anew-HoldsOnly :
    (t : TextOps) (m : Machine) (later : Float) (cache : Cached)
    → HoldsOnly ("software" ∷ []) (collect_anew t m later cache).0.data_value
unfolding collect_anew payload_of
collect_anew-HoldsOnly t m later cache = elim (Bool-cases (inventory t m).1) [
  | inl found ↦ rw found (search fills_rules)
  | inr missing ↦ rw missing (search fills_rules)
]

pub collect_software-Fills :
    (t : TextOps) (enabled : Bool) (ttl : Float) (m : Machine) (now later : Float) (cache : Cached)
    → Fills ("software" ∷ []) (ok (Software.collect t enabled ttl m now later cache).0)
unfolding Software.collect payload_of
collect_software-Fills t false ttl m now later cache = search fills_rules
collect_software-Fills t true ttl m now later none =
    Fills-ok _ (collect_anew-HoldsOnly t m later none)
collect_software-Fills t true ttl m now later (some (at, records)) =
    elim (Bool-cases (is_fresh t.floats ttl at now)) [
      | inl fresh ↦ rw fresh (search fills_rules)
      | inr stale ↦ rw stale (Fills-ok _ (collect_anew-HoldsOnly t m later (some (at, records))))
    ]

HoldsOnly-resources :
    (cpu memory disks : Json)
    → HoldsOnly
        ("cpu" ∷ "memory" ∷ "disks" ∷ [])
        (dict (fields (("cpu", cpu) ∷ ("memory", memory) ∷ ("disks", disks) ∷ [])))
unfolding fields get_field
HoldsOnly-resources cpu memory disks = record {
  only = λ d n e h.
      let all = fields (("cpu", cpu) ∷ ("memory", memory) ∷ ("disks", disks) ∷ []) in
      let same : d ≡ all = ground arith in
      let there : is_some (get_field n all) ≡ true =
        subst (λ x. is_some (get_field n x) ≡ true) same h in
      ground (
        arith,
        there,
        eq_iff "cpu" n,
        eq_iff n "cpu",
        eq_iff "memory" n,
        eq_iff n "memory",
        eq_iff "disks" n,
        eq_iff n "disks",
      );
}

pub collect_resources-Fills :
    (r : Rounding) (g : Gauges) → Fills ("cpu" ∷ "memory" ∷ "disks" ∷ []) (collect_resources r g)
unfolding collect_resources resources_payload
collect_resources-Fills r g = search (fills_rules, HoldsOnly-resources) depth 9
