-- ===== src/Collectors/Sections.antt =====
-- How `build_collectors`, `collect_all` and `build_payload` fit together: which collector fills which
-- section of the payload.
use mathlib.Core.List.{Memᴰ}
use mathlib.Core.List.Memᴰ
use employee_tracker.Common.{
  ℕ, ◌≡◌, refl, ap, subst, ◌∙◌, inl, inr, String, Bool, true, false, not, ◌&&◌, Option, some, List,
  [], ◌∷◌, Result, ok, err, Bool-cases, Option-cases, member, member-all, any, all, is_some, arith,
  ◌>>◌, ◌⊎◌, >>=-eq-ok,
}
use employee_tracker.Common.Int.{ℤ}
use employee_tracker.Config.{AgentConfig}
use employee_tracker.Floats.{FloatOps}
use employee_tracker.Identity.{MachineIdentity}
use employee_tracker.Transport.{DateTime}
use employee_tracker.Models.{
  Float, Json, Fields, dict, get_field, CollectorResult, CollectorStatus, CollectionBatch,
  CollectorPayload,
}
use employee_tracker.Orchestrator.Collect.{
  Task, Clock, Pool, deadline_of, remaining_sec, batch_of, duration_ms, collect_one, report,
  deadline_result, results_of, validate_limits, collect_all,
}
use employee_tracker.Payload.Build.{
  section_names, default_sections, contribution, Platform, build_payload,
}
use employee_tracker.Payload.Sections.{latest, contribution-some, build_payload-latest}
use employee_tracker.Common.Dict.{lookup}
use employee_tracker.Collectors.Registry.{Environment, Collector, registered, build_collectors}
use employee_tracker.FileAudit.Collect.{check_limits}
use employee_tracker.Screenshot.{check_max_bytes}
use employee_tracker.Collectors.Fields.{
  Fills, collect_system-Fills, collect_users-Fills, collect_resources-Fills, collect_network-Fills,
  collect_processes-Fills, collect_software-Fills, collect_window-Fills, collect_audit-Fills,
  collect_screenshot-Fills,
}

-- The tasks run these collectors, in this order.
pub data Runs : List Collector → List Task → Type 0 where
  all_run : Runs [] []
  one_runs :
      {c : Collector} {t : Task} {cs : List Collector} {ts : List Task}
      → t.name ≡ c.name
      → t.outcome ≡ c.collect
      → Runs cs ts
      → Runs (c ∷ cs) (t ∷ ts)

-- The collectors fill these sections, in this order.
data AllFill : List (List String) → List Collector → Type 0 where
  nothing : AllFill [] []
  next :
      {ks : List String} {c : Collector} {kss : List (List String)} {cs : List Collector}
      → Fills ks c.collect
      → AllFill kss cs
      → AllFill (ks ∷ kss) (c ∷ cs)

-- A result gives no other sections than these.
record Gives (ks : List String) (r : CollectorResult) : Type 0 where
  gives :
      (d : Fields) (n : String)
      → contribution r ≡ some d
      → is_some (get_field n d) ≡ true
      → member n ks ≡ true

data AllGive : List (List String) → List CollectorResult → Type 0 where
  nothing : AllGive [] []
  next :
      {ks : List String} {r : CollectorResult} {kss : List (List String)}
      {rs : List CollectorResult}
      → Gives ks r
      → AllGive kss rs
      → AllGive (ks ∷ kss) (r ∷ rs)

abbrev registry_sections : List (List String)
registry_sections =
    ("system" ∷ [])
    ∷ ("users" ∷ [])
    ∷ ("cpu" ∷ "memory" ∷ "disks" ∷ [])
    ∷ ("network" ∷ [])
    ∷ ("processes" ∷ [])
    ∷ ("software" ∷ [])
    ∷ ("active_window" ∷ [])
    ∷ ("file_audit" ∷ [])
    ∷ ("screenshot" ∷ [])
    ∷ []

registered-AllFill :
    (e : Environment) (config : AgentConfig) (identity : MachineIdentity)
    → AllFill registry_sections (registered e config identity)
unfolding registered
registered-AllFill e config identity = next (collect_system-Fills _ _) (
    next (collect_users-Fills _ _) (
      next (collect_resources-Fills _ _) (
        next (collect_network-Fills _ _ _) (
          next (collect_processes-Fills _ _ _ _) (
            next (collect_software-Fills _ _ _ _ _ _ _) (
              next (collect_window-Fills _ _ _) (
                next (collect_audit-Fills _ _ _ _)
                  (next (collect_screenshot-Fills _ _ _) nothing))))))))

report-Gives :
    (t : Task) (ks : List String) (outcome : Result CollectorPayload)
    → Fills ks outcome
    → Gives ks (report t outcome)
unfolding report contribution
report-Gives t ks (ok p) h = record {
  gives = λ d n e there.
      let is_data : p.data_value ≡ dict d = ground arith in (h.fill p refl).only d n is_data there;
}
report-Gives t ks (err raised) h = record { gives = λ d n e there. absurd (ground arith) }

results_of-AllGive :
    (late : ℕ) {kss : List (List String)} {cs : List Collector} {ts : List Task}
    → AllFill kss cs
    → Runs cs ts
    → AllGive kss (results_of late ts)
unfolding results_of collect_one deadline_result contribution report
results_of-AllGive late nothing all_run = nothing
results_of-AllGive late (next h hs) (one_runs {t = t} _ same rest) =
    next
      (elim (Bool-cases t.done) [
        | inl done ↦ rw (done, same) (report-Gives t _ _ h)
        | inr late_one ↦ rw late_one (record { gives = λ d n e there. absurd (ground arith) })
      ])
      (results_of-AllGive late hs rest)

-- No section stands in two of the lists, and all stand in the payload's.
abbrev disjoint : List (List String) → Bool
disjoint [] = true
disjoint (ks ∷ kss) = all (λ k. not (any (member k) kss)) ks && disjoint kss

abbrev known : List (List String) → Bool
known kss = all (λ ks. all (λ k. member k section_names) ks) kss

latest-absent :
    (n : String) {kss : List (List String)} {rs : List CollectorResult} (v : Option Json)
    → AllGive kss rs
    → any (member n) kss ≡ false
    → latest n rs v ≡ v
latest-absent n v nothing m = refl
latest-absent n v (next {ks} {r} {kss} {rs} h hs) m = elim (Option-cases (contribution r)) [
  | inl silent ↦ rw silent (latest-absent n v hs (ground arith))
  | inr (d, e) ↦ elim (Option-cases (get_field n d)) [
    | inl absent ↦ rw (e, absent) (latest-absent n v hs (ground arith))
    | inr (u, e') ↦
        let there : is_some (get_field n d) ≡ true = rw e' refl in
        absurd (ground (arith, h.gives d n e there))
  ]
]

latest-given :
    (n : String) {kss : List (List String)} {rs : List CollectorResult} {r : CollectorResult}
    (d : Fields) (v : Json) (u : Option Json)
    → AllGive kss rs
    → disjoint kss ≡ true
    → known kss ≡ true
    → Memᴰ r rs
    → contribution r ≡ some d
    → get_field n d ≡ some v
    → (latest n rs u ≡ some v) × (member n section_names ≡ true)
latest-given n d v u nothing apart all_known m e f = elim m [ ]
latest-given n d v u (next {ks} {r = q} {kss} {rs} h hs) apart all_known m e f =
    elim (Memᴰ.cases_cons m) [
      | inr later ↦ latest-given n d v _ hs (ground arith) (ground arith) later e f
      | inl same ↦
          let e' : contribution q ≡ some d = rw (← same) e in
          let there : is_some (get_field n d) ≡ true = rw f refl in
          let mine : member n ks ≡ true = h.gives d n e' there in
          let others : not (any (member n) kss) ≡ true =
            member-all (λ k. not (any (member k) kss)) n ks (ground arith) mine in
          (
            rw (e', f) (latest-absent n (some v) hs (ground arith)),
            member-all (λ k. member k section_names) n ks (ground arith) mine,
          )
    ]

>>-eq-ok {ℓ} :
    {Y : Type ℓ} (r : Result (Unit {0})) (s : Result Y) {y : Y} → (r >> s) ≡ ok y → s ≡ ok y
>>-eq-ok (ok u) s h = h
>>-eq-ok (err e) s h = cc

collect_all-results :
    (f : FloatOps) (pool : Pool) (billion : Float) (c : Clock) (max_workers : ℤ)
    (timeout_sec : Float) (ts : List Task) (b : CollectionBatch)
    → collect_all f pool billion c max_workers timeout_sec ts ≡ ok b
    → (late : ℕ) × (b.results ≡ results_of late ts)
unfolding collect_all results_of
collect_all-results f pool billion c max_workers timeout_sec [] b h =
    let rest = >>-eq-ok (validate_limits f max_workers timeout_sec) _ h in (0, ground arith)
collect_all-results f pool billion c max_workers timeout_sec (t ∷ ts) b h =
    let rest = >>-eq-ok (validate_limits f max_workers timeout_sec) _ h in
    let (deadline_ns, is_deadline, begun) =
      >>=-eq-ok (deadline_of f pool billion c timeout_sec) _ rest in
    let (remaining, is_remaining, waiting) =
      >>=-eq-ok (pool.submit >> remaining_sec f pool c deadline_ns) _ begun in
    let last =
      >>-eq-ok (pool.wait remaining)
        (ok (batch_of c (results_of (duration_ms c.cycle_started_ns c.classification_ns) (t ∷ ts))))
        waiting in
    (duration_ms c.cycle_started_ns c.classification_ns, ground arith)

registered-built :
    (e : Environment) (config : AgentConfig) (identity : MachineIdentity) (cs : List Collector)
    → build_collectors e config identity ≡ ok cs
    → registered e config identity ≡ cs
unfolding build_collectors
registered-built e config identity cs h =
    let built =
      >>-eq-ok
        (check_limits e.sha256 config.audit_max_files config.audit_max_file_bytes
          >> check_max_bytes config.screenshot_max_bytes)
        (ok (registered e config identity)) h in
    ground arith

-- Where the collectors of `build_collectors` are run by `collect_all` and the batch that it returns
-- becomes a payload, every field in the data of a result with the status success or partial is a
-- section of the payload and stands there with the value that was reported: no collector's section is
-- lost or overwritten by another's.
pub build_payload-reported :
    (e : Environment) (config : AgentConfig) (identity : MachineIdentity) (cs : List Collector)
    (ts : List Task) (f : FloatOps) (pool : Pool) (billion : Float) (c : Clock) (max_workers : ℤ)
    (timeout_sec : Float) (batch : CollectionBatch) (host : Platform) (isoformat : ℤ → String)
    (current : DateTime) (event : String) (now : Option DateTime) (event_id : String) (p : Fields)
    (r : CollectorResult) (d : Fields) (n : String) (v : Json)
    → build_collectors e config identity ≡ ok cs
    → Runs cs ts
    → collect_all f pool billion c max_workers timeout_sec ts ≡ ok batch
    → build_payload host isoformat current event identity batch now event_id ≡ ok p
    → Memᴰ r batch.results
    → (r.status ≡ CollectorStatus.success) ⊎ (r.status ≡ CollectorStatus.partial)
    → r.data_value ≡ dict d
    → get_field n d ≡ some v
    → get_field n p ≡ some v
build_payload-reported e config identity cs ts f pool billion c max_workers timeout_sec batch host
      isoformat current event now event_id p r d n v built runs collected payload reported succeeded
      is_data field =
    let is_registry = registered-built e config identity cs built in
    let (late, results) =
      collect_all-results f pool billion c max_workers timeout_sec ts batch collected in
    let fill =
      subst (AllFill registry_sections) is_registry (registered-AllFill e config identity) in
    let found =
      latest-given n d v (lookup n default_sections) (results_of-AllGive late fill runs) refl refl
        (subst (Memᴰ r) results reported) (contribution-some r d succeeded is_data) field in
    build_payload-latest host isoformat current event identity batch now event_id p n payload
      found.1
    ∙ ap (λ rs. latest n rs (lookup n default_sections)) results
    ∙ found.0
