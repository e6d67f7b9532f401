-- ===== src/Payload/Deliverable.antt =====
-- A payload that is built is one that the transport takes.
use employee_tracker.Common.{
  ◌≡◌, refl, String, true, false, Option, some, [], ◌∷◌, ok, arith, str_eq, eq_iff, Result-cases,
  inl, inr, ◌∙◌,
}
use employee_tracker.Common.{Bool-cases}
use employee_tracker.Common.Int.{ℤ}
use employee_tracker.Common.Dict.{Dict, lookup, lookup-append_none}
use employee_tracker.Identity.{MachineIdentity}
use employee_tracker.Models.{
  Json, Fields, str, get_field, as_string, get_field-fields, CollectionBatch,
}
use employee_tracker.Transport.{DateTime, lacks, validate_payload}
use employee_tracker.Payload.Build.{
  Platform, event_matches, default_sections, merge_results, timestamp, payload_entries, agent_entry,
  assemble, build_payload,
}
use employee_tracker.Payload.Sections.{merge_results-lookup_other}

module _ (host : Platform) (event : String) (identity : MachineIdentity) (batch : CollectionBatch)
    (time event_id : String) where
  abbrev built : Fields
  built = assemble host event identity batch time event_id

  abbrev entries : Dict Json
  entries = payload_entries host event identity batch time event_id

  event_id-built : get_field "event_id" built ≡ some (str event_id)
  unfolding assemble lookup default_sections
  event_id-built =
      let merged = merge_results batch.results default_sections [] in
      get_field-fields "event_id" entries
      ∙ lookup-append_none "event_id" merged.0
          (("event_id", str event_id) ∷ ("agent", agent_entry host identity batch merged.1) ∷ [])
          (merge_results-lookup_other "event_id" batch.results default_sections [] refl)

  event-built : get_field "event" built ≡ some (str event)
  unfolding assemble lookup
  event-built = get_field-fields "event" entries

  machine_id-built : get_field "machine_id" built ≡ some (str identity.value)
  unfolding assemble lookup
  machine_id-built = get_field-fields "machine_id" entries

  schema_version-built : get_field "schema_version" built ≡ some (str "1.1")
  unfolding assemble lookup
  schema_version-built = get_field-fields "schema_version" entries

event_matches-named : (event : String) → event_matches event ≡ true → str_eq event "" ≡ false
event_matches-named event h = elim (Bool-cases (str_eq event "")) [
  | inr named ↦ named
  | inl empty ↦
      let e : event ≡ "" = (eq_iff event "").0 empty in
      let h' : event_matches "" ≡ true = rw e at h in absurd (unfold event_matches in cc h')
]

lacks-text :
    (p : Fields) (n s : String)
    → get_field n p ≡ some (str s)
    → str_eq s "" ≡ false
    → lacks p n ≡ false
unfolding as_string
lacks-text p n s e named = ground arith

validate_payload-texts :
    (p : Fields)
    → lacks p "event_id" ≡ false
    → lacks p "event" ≡ false
    → lacks p "machine_id" ≡ false
    → lacks p "schema_version" ≡ false
    → validate_payload p ≡ ok tt
unfolding validate_payload
validate_payload-texts p a b c d = rw (validate_payload, a, b, c, d)

-- Every payload that `build_payload` returns passes the check of `TelemetryTransport.send`, and its
-- event id is the one that was given, if the machine's identity and the event id are not empty.
pub build_payload-valid :
    (host : Platform) (isoformat : ℤ → String) (current : DateTime) (event : String)
    (identity : MachineIdentity) (batch : CollectionBatch) (now : Option DateTime)
    (event_id : String) (p : Fields)
    → str_eq identity.value "" ≡ false
    → str_eq event_id "" ≡ false
    → build_payload host isoformat current event identity batch now event_id ≡ ok p
    → (validate_payload p ≡ ok tt) × (get_field "event_id" p ≡ some (str event_id))
unfolding build_payload
build_payload-valid host isoformat current event identity batch now event_id p who which h =
    elim (Bool-cases (event_matches event)) [
      | inr bad ↦ absurd (ground arith)
      | inl matched ↦ elim (Result-cases (timestamp isoformat current now)) [
        | inr (e, bad) ↦ absurd (ground arith)
        | inl (time, good) ↦
            let made : built host event identity batch time event_id ≡ p = ground arith in
            rw (← made) (
              validate_payload-texts _
                  (lacks-text _ "event_id" event_id
                    (event_id-built host event identity batch time event_id) which)
                  (lacks-text _ "event" event (event-built host event identity batch time event_id)
                    (event_matches-named event matched))
                  (lacks-text _ "machine_id" identity.value
                    (machine_id-built host event identity batch time event_id) who)
                  (lacks-text _ "schema_version" "1.1"
                    (schema_version-built host event identity batch time event_id) refl),
              event_id-built host event identity batch time event_id,
            )
      ]
    ]
