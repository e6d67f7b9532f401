-- ===== src/Payload/Sections.antt =====
-- Which collector a section of the payload comes from.
use employee_tracker.Common.{
  ◌≡◌, refl, String, Bool, true, false, Option, none, some, List, [], ◌∷◌, arith, str_eq, eq_iff,
  member, Option-cases, inl, inr, if◌then◌else◌, ◌∙◌, ap, sym, is_some,
}
use employee_tracker.Common.{not, ◌&&◌, ◌++◌, ◌⊎◌, All, ok, Result-cases, member-all}
use employee_tracker.Common.Int.{ℤ}
use employee_tracker.Identity.{MachineIdentity}
use employee_tracker.Transport.{DateTime}
use employee_tracker.Common.Dict.{Dict, insert, lookup, lookup-insert, lookup-append}
use employee_tracker.Models.{
  Json, dict, Fields, get_field, CollectorStatus, CollectorResult, CollectionBatch,
  get_field-fields,
}
use employee_tracker.Payload.Build.{
  section_names, default_sections, contribution, copy_sections, add_sections, merge_results,
  Platform, timestamp, assemble, build_payload,
}

-- The value that the last result in the list gives to a section: each later result that succeeded,
-- fully or in part, and holds the section takes over.
abbrev pub latest : String → List CollectorResult → Option Json → Option Json
latest n [] v = v
latest n (r ∷ rs) v = latest n rs (elim (contribution r) [
  | none ↦ v
  | some d ↦ elim (get_field n d) [ none ↦ v | some new ↦ some new ]
])

copy_sections-lookup :
    (n : String) (names : List String) (d : Fields) (s : Dict Json)
    → lookup n (copy_sections names d s) ≡ (
        if member n names
        then elim (get_field n d) as (λ _. Option Json) [ none ↦ lookup n s | some v ↦ some v ]
        else lookup n s)
unfolding copy_sections
copy_sections-lookup n [] d s = refl
copy_sections-lookup n (m ∷ names) d s = elim (Option-cases (get_field m d)) [
  | inl absent ↦ ground (arith, copy_sections-lookup n names d s, eq_iff n m)
  | inr (v, e) ↦ ground (
    arith,
    copy_sections-lookup n names d (insert m v s),
    lookup-insert m n v s,
    eq_iff n m,
    eq_iff m n,
  )
]

add_sections-lookup :
    (n : String) (r : CollectorResult) (s : Dict Json)
    → member n section_names ≡ true
    → lookup n (add_sections r s) ≡ (elim (contribution r) as (λ _. Option Json) [
      | none ↦ lookup n s
      | some d ↦ elim (get_field n d) [ none ↦ lookup n s | some new ↦ some new ]
    ])
unfolding add_sections
add_sections-lookup n r s m = elim (Option-cases (contribution r)) [
  | inl silent ↦ rw (add_sections, silent)
  | inr (d, e) ↦ rw (add_sections, e) (copy_sections-lookup n section_names d s ∙ rw m)
]

pub merge_results-lookup :
    (n : String) (rs : List CollectorResult) (s c : Dict Json)
    → member n section_names ≡ true
    → lookup n (merge_results rs s c).0 ≡ latest n rs (lookup n s)
unfolding merge_results
merge_results-lookup n [] s c m = refl
merge_results-lookup n (r ∷ rs) s c m =
    merge_results-lookup n rs (add_sections r s) _ m
    ∙ ap (latest n rs) (add_sections-lookup n r s m)

-- A section has a value before and after any result.
latest-some :
    (n : String) (rs : List CollectorResult) (v : Json)
    → (u : Json) × (latest n rs (some v) ≡ some u)
latest-some n [] v = (v, refl)
latest-some n (r ∷ rs) v = elim (Option-cases (contribution r)) [
  | inl silent ↦ rw silent (latest-some n rs v)
  | inr (d, e) ↦ elim (Option-cases (get_field n d)) [
    | inl absent ↦ rw (e, absent) (latest-some n rs v)
    | inr (u, e') ↦ rw (e, e') (latest-some n rs u)
  ]
]

-- The names of the other fields are no section names.
abbrev is_own : String → Bool
is_own n =
    not (str_eq "schema_version" n)
    && not (str_eq "event" n)
    && not (str_eq "timestamp" n)
    && not (str_eq "machine_id" n)

default-some :
    (n : String) → member n section_names ≡ true → (v : Json) × (lookup n default_sections ≡ some v)
default-some n m = elim (Option-cases (lookup n default_sections)) [
  | inl none_there ↦
      let there : is_some (lookup n default_sections) ≡ true =
        unfold default_sections lookup in
        member-all (λ k. is_some (lookup k default_sections)) n section_names refl m in
      absurd (ground (arith, there))
  | inr found ↦ found
]

lookup-own :
    (n : String) (a b c d : Json) (rest : Dict Json)
    → is_own n ≡ true
    → lookup n (("schema_version", a) ∷ ("event", b) ∷ ("timestamp", c) ∷ ("machine_id", d) ∷ rest)
      ≡ lookup n rest
unfolding lookup
lookup-own n a b c d rest own = ground arith

assemble-sections :
    (host : Platform) (event : String) (identity : MachineIdentity) (batch : CollectionBatch)
    (time event_id n : String)
    → member n section_names ≡ true
    → get_field n (assemble host event identity batch time event_id)
      ≡ latest n batch.results (lookup n default_sections)
unfolding assemble
assemble-sections host event identity batch time event_id n m =
    let (v, at_default) = default-some n m in
    let (u, at_last) = latest-some n batch.results v in
    let merged = merge_results batch.results default_sections [] in
    let held : lookup n merged.0 ≡ latest n batch.results (lookup n default_sections) =
      merge_results-lookup n batch.results default_sections [] m in
    let last : latest n batch.results (lookup n default_sections) ≡ some u =
      rw at_default at_last in
    get_field-fields n _
    ∙ lookup-own n _ _ _ _ _ (member-all is_own n section_names refl m)
    ∙ lookup-append n merged.0 _ u (held ∙ last)
    ∙ sym last

pub build_payload-latest :
    (host : Platform) (isoformat : ℤ → String) (current : DateTime) (event : String)
    (identity : MachineIdentity) (batch : CollectionBatch) (now : Option DateTime)
    (event_id : String) (p : Fields) (n : String)
    → build_payload host isoformat current event identity batch now event_id ≡ ok p
    → member n section_names ≡ true
    → get_field n p ≡ latest n batch.results (lookup n default_sections)
unfolding build_payload
build_payload-latest host isoformat current event identity batch now event_id p n h m =
    elim (Result-cases (timestamp isoformat current now)) [
      | inr (e, bad) ↦ ground arith
      | inl (time, good) ↦
          let built : assemble host event identity batch time event_id ≡ p = ground arith in
          rw (← built) (assemble-sections host event identity batch time event_id n m)
    ]

-- A result of a collector that succeeded, fully or in part, with this value in its data.
pub record Supplies (n : String) (r : CollectorResult) (v : Json) : Type 0 where
  pub succeeded : (r.status ≡ CollectorStatus.success) ⊎ (r.status ≡ CollectorStatus.partial)
  pub given : Fields
  pub is_data : r.data_value ≡ dict given
  pub holds : get_field n given ≡ some v

abbrev pub Silent : String → CollectorResult → Type 0
Silent n r = (v : Json) → ¬ Supplies n r v

-- The last result that supplies the section decides, and the default where none does.
pub data Decided (n : String) (default : Option Json) (rs : List CollectorResult)
    (found : Option Json) : Type 0 where
  supplied :
      (front back : List CollectorResult) (r : CollectorResult) (v : Json)
      → rs ≡ front ++ r ∷ back
      → Supplies n r v
      → All (Silent n) back
      → found ≡ some v
      → Decided n default rs found
  defaulted : All (Silent n) rs → found ≡ default → Decided n default rs found

pub contribution-some :
    (r : CollectorResult) (d : Fields)
    → (r.status ≡ CollectorStatus.success) ⊎ (r.status ≡ CollectorStatus.partial)
    → r.data_value ≡ dict d
    → contribution r ≡ some d
unfolding contribution
contribution-some r d (inl full) is_data = rw (contribution, full, is_data) refl
contribution-some r d (inr in_part) is_data = rw (contribution, in_part, is_data) refl

contribution-Supplies :
    (n : String) (r : CollectorResult) (d : Fields) (v : Json)
    → contribution r ≡ some d
    → get_field n d ≡ some v
    → Supplies n r v
unfolding contribution
contribution-Supplies n r d v e f = record {
  succeeded = ground arith;
  given = d;
  is_data = ground arith;
  holds = f;
}

Silent-of :
    (n : String) (r : CollectorResult)
    → ((d : Fields) (v : Json) → contribution r ≡ some d → get_field n d ≡ some v → ⊥)
    → Silent n r
Silent-of n r h v s = h s.given v (contribution-some r s.given s.succeeded s.is_data) s.holds

-- A silent result in front changes nothing.
Decided-Silent :
    (n : String) (r : CollectorResult) (rs : List CollectorResult) (default found : Option Json)
    → Silent n r
    → Decided n default rs found
    → Decided n default (r ∷ rs) found
Decided-Silent n r rs default found s (supplied front back q v e p later is) =
    supplied (r ∷ front) back q v (ap (λ xs. r ∷ xs) e) p later is
Decided-Silent n r rs default found s (defaulted all is) = defaulted (s, all) is

Decided-Supplies :
    (n : String) (r : CollectorResult) (rs : List CollectorResult) (v : Json)
    (default found : Option Json)
    → Supplies n r v
    → Decided n (some v) rs found
    → Decided n default (r ∷ rs) found
Decided-Supplies n r rs v default found s (supplied front back q u e p later is) =
    supplied (r ∷ front) back q u (ap (λ xs. r ∷ xs) e) p later is
Decided-Supplies n r rs v default found s (defaulted all is) = supplied [] rs r v refl s all is

latest-Decided :
    (n : String) (rs : List CollectorResult) (default : Option Json)
    → Decided n default rs (latest n rs default)
latest-Decided n [] default = defaulted tt refl
latest-Decided n (r ∷ rs) default = elim (Option-cases (contribution r)) [
  | inl silent ↦ rw silent (
      Decided-Silent n r rs default _ (Silent-of n r (λ d v e f. cc)) (latest-Decided n rs default))
  | inr (d, e) ↦ elim (Option-cases (get_field n d)) [
    | inl absent ↦
        rw (e, absent)
          (Decided-Silent n r rs default _
            (Silent-of n r (λ d' v e' f. ground (arith, e, e', absent, f)))
            (latest-Decided n rs default))
    | inr (v, e') ↦
        rw (e, e')
          (Decided-Supplies n r rs v default _ (contribution-Supplies n r d v e e')
            (latest-Decided n rs (some v)))
  ]
]

-- Every section of a payload that is built holds what the last collector with the status success or
-- partial and with this section in its data gave for it, and its default if there is none. What a
-- collector that failed, timed out or is disabled holds reaches no section.
pub build_payload-sections :
    (host : Platform) (isoformat : ℤ → String) (current : DateTime) (event : String)
    (identity : MachineIdentity) (batch : CollectionBatch) (now : Option DateTime)
    (event_id : String) (p : Fields) (n : String)
    → build_payload host isoformat current event identity batch now event_id ≡ ok p
    → member n section_names ≡ true
    → Decided n (lookup n default_sections) batch.results (get_field n p)
build_payload-sections host isoformat current event identity batch now event_id p n h m =
    rw (build_payload-latest host isoformat current event identity batch now event_id p n h m)
      (latest-Decided n batch.results (lookup n default_sections))

-- No other field is touched.
pub merge_results-lookup_other :
    (n : String) (rs : List CollectorResult) (s c : Dict Json)
    → member n section_names ≡ false
    → lookup n (merge_results rs s c).0 ≡ lookup n s
unfolding merge_results add_sections
merge_results-lookup_other n [] s c m = refl
merge_results-lookup_other n (r ∷ rs) s c m =
    merge_results-lookup_other n rs (add_sections r s) _ m ∙ (elim (Option-cases (contribution r)) [
      | inl silent ↦ rw (add_sections, silent)
      | inr (d, e) ↦ rw (add_sections, e) (copy_sections-lookup n section_names d s ∙ rw m)
    ])
