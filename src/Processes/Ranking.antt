-- ===== src/Processes/Ranking.antt =====
-- Which processes `ProcessesCollector.collect` reports.
use mathlib.Core.List.{Memᴰ}
use mathlib.Core.List.Memᴰ
use employee_tracker.Common.{
  subst, ◌≡◌, ◌⊎◌, ◌<◌, refl, String, none, some, All, All-weaken, ltb, map, inl, inr, Bool, true,
  false, List, [], ◌∷◌, ok, arith, take, Bool-cases, >>=-eq-ok, ◌>>=◌,
}
use employee_tracker.Common.Int.{ℤ, pos, pos_part, ltb_ℤ, ◌≤ℤ◌}
use employee_tracker.Common.Dict.{Dict}
use employee_tracker.Common.Sort.{IsOrder, IsSorted, Perm, sorted, sorted-IsSorted, sorted-Perm}
use employee_tracker.Config.{ProcessCmdlineMode}
use employee_tracker.Models.{CollectorPayload, CollectorStatus, dict, fields, list, items}
use employee_tracker.Processes.Collect.{
  Attribute, unavailable, value, process_value, Probe, denied, gone, seen, Host, ProcessRecord,
  process_record, is_incomplete, scan, before, top_records, processes_payload, collect,
}

before-IsOrder : IsOrder before
unfolding before
before-IsOrder = record { total = λ x y h. ground arith; trans = λ x y z h k. ground arith }

-- More memory first, and for equal memory the smaller process id.
abbrev pub Precedes : ProcessRecord → ProcessRecord → Type 0
Precedes p q = (q.mem_rss_kb < p.mem_rss_kb) ⊎ ((p.mem_rss_kb ≡ q.mem_rss_kb) × (p.pid ≤ℤ q.pid))

abbrev pub IsRanked : List ProcessRecord → Type 0
IsRanked [] = Unit
IsRanked (r ∷ rs) = All (Precedes r) rs × IsRanked rs

before-Precedes : (p q : ProcessRecord) → before p q ≡ true → Precedes p q
unfolding before
before-Precedes p q h = elim (Bool-cases (ltb q.mem_rss_kb p.mem_rss_kb)) [
  | inl more ↦ inl (ground arith)
  | inr as_much ↦ inr (ground arith, ground arith)
]

IsSorted-IsRanked : (rs : List ProcessRecord) → IsSorted before rs → IsRanked rs
IsSorted-IsRanked [] h = tt
IsSorted-IsRanked (r ∷ rs) h =
    (All-weaken _ (Precedes r) rs (before-Precedes r) h.0, IsSorted-IsRanked rs h.1)

-- What the payload says: these records, and partial exactly if a process was hidden.
pub record Tells (rs : List ProcessRecord) (hidden : Bool) (p : CollectorPayload) : Type 0 where
  pub told : p.data_value ≡ dict (fields (("processes", list (items (map process_value rs))) ∷ []))
  pub whole :
      hidden ≡ false
      → (p.status ≡ CollectorStatus.success) × (p.error_code ≡ none) × (p.error_message ≡ none)
  pub in_part :
      hidden ≡ true
      → (p.status ≡ CollectorStatus.partial)
        × (p.error_code ≡ some "process_access_partial")
        × (p.error_message ≡ some "some processes unavailable")

processes_payload-Tells :
    (rs : List ProcessRecord) (hidden : Bool) → Tells rs hidden (processes_payload rs hidden)
unfolding processes_payload
processes_payload-Tells rs true = record {
  told = refl;
  whole = λ h. cc;
  in_part = λ h. (refl, refl, refl);
}
processes_payload-Tells rs false = record {
  told = refl;
  whole = λ h. (refl, refl, refl);
  in_part = λ h. cc;
}

-- No attribute of the process is the sentinel.
abbrev pub IsWhole : Dict Attribute → Type 0
IsWhole info = (k : String) → ¬ Memᴰ (k, unavailable) info

is_incomplete-hidden :
    (info : Dict Attribute) → is_incomplete info ≡ true → (k : String) × Memᴰ (k, unavailable) info
unfolding is_incomplete
is_incomplete-hidden [] h = cc
is_incomplete-hidden ((k, unavailable) ∷ d) h = (k, Memᴰ.head refl)
is_incomplete-hidden ((k, value v) ∷ d) h =
    let (j, there) = is_incomplete-hidden d h in (j, Memᴰ.tail there)

is_incomplete-IsWhole : (info : Dict Attribute) → is_incomplete info ≡ false → IsWhole info
unfolding is_incomplete
is_incomplete-IsWhole [] h k m = elim m [ ]
is_incomplete-IsWhole ((j, unavailable) ∷ d) h k m = cc
is_incomplete-IsWhole ((j, value v) ∷ d) h k m = elim (Memᴰ.cases_cons m) [
  | inl same ↦ cc
  | inr there ↦ is_incomplete-IsWhole d h k there
]

-- The records of the processes that could be read whole, in the order of the processes, and whether
-- a process was hidden.
pub data Readable (host : Host) (mode : ProcessCmdlineMode)
    : List Probe → List ProcessRecord → Bool → Type 0 where
  no_process : Readable host mode [] [] false
  vanished :
      {ps : List Probe} {rs : List ProcessRecord} {b : Bool}
      → Readable host mode ps rs b
      → Readable host mode (gone ∷ ps) rs b
  refused :
      {ps : List Probe} {rs : List ProcessRecord} {b : Bool}
      → Readable host mode ps rs b
      → Readable host mode (denied ∷ ps) rs true
  concealed :
      (info : Dict Attribute) (k : String) {ps : List Probe} {rs : List ProcessRecord} {b : Bool}
      → Memᴰ (k, unavailable) info
      → Readable host mode ps rs b
      → Readable host mode (seen info ∷ ps) rs true
  readable :
      (info : Dict Attribute) (r : ProcessRecord) {ps : List Probe} {rs : List ProcessRecord}
      {b : Bool}
      → IsWhole info
      → process_record host mode info ≡ ok r
      → Readable host mode ps rs b
      → Readable host mode (seen info ∷ ps) (r ∷ rs) b

payload_inj : {a b : CollectorPayload} → ok a ≡ ok b → a ≡ b
payload_inj h = cc

ok_inj : {a b : List ProcessRecord × Bool} → ok a ≡ ok b → a ≡ b
ok_inj h = cc

module _ (host : Host) (mode : ProcessCmdlineMode) where
  abbrev Found : List Probe → List ProcessRecord × Bool → Type 0
  Found ps r = Readable host mode ps r.0 r.1

  scan-Readable :
      (ps : List Probe) (r : List ProcessRecord × Bool) → scan host mode ps ≡ ok r → Found ps r
  unfolding scan
  scan-Readable [] r h = subst (Found []) (ok_inj h) no_process
  scan-Readable (denied ∷ ps) r h =
      let (q, e, k) = >>=-eq-ok (scan host mode ps) (λ q. ok (q.0, true)) h in
      subst (Found (denied ∷ ps)) (ok_inj k) (refused (scan-Readable ps q e))
  scan-Readable (gone ∷ ps) r h = vanished (scan-Readable ps r h)
  scan-Readable (seen info ∷ ps) r h = elim (Bool-cases (is_incomplete info)) [
    | inl hidden ↦
        let (q, e, k) = >>=-eq-ok (scan host mode ps) (λ q. ok (q.0, true)) (rw hidden at h) in
        let (key, there) = is_incomplete-hidden info hidden in
        subst (Found (seen info ∷ ps)) (ok_inj k) (concealed info key there (scan-Readable ps q e))
    | inr shown ↦
        let (p, made, l) =
          >>=-eq-ok (process_record host mode info)
            (λ p. scan host mode ps >>= (λ q. ok (p ∷ q.0, q.1))) (rw shown at h) in
        let (q, e, k) = >>=-eq-ok (scan host mode ps) (λ q. ok (p ∷ q.0, q.1)) l in
        subst (Found (seen info ∷ ps)) (ok_inj k)
          (readable info p (is_incomplete-IsWhole info shown) made (scan-Readable ps q e))
  ]

  -- When `collect` returns, the limit is at least 1, and the payload holds the first `limit` entries
  -- of a list that has exactly the records of the processes without a hidden attribute, sorted by
  -- falling memory and, for equal memory, by rising process id. The status is `partial`, with the
  -- code process_access_partial, if some process refused access or hid an attribute, and `success`,
  -- with no error, otherwise.
  pub collect-Ranked :
      (limit : ℤ) (ps : List Probe) (p : CollectorPayload)
      → collect host mode limit ps ≡ ok p
      → (rs ranked : List ProcessRecord) × (hidden : Bool) × (pos 1 ≤ℤ limit)
        × Readable host mode ps rs hidden
        × Perm ranked rs
        × IsRanked ranked
        × Tells (take (pos_part limit) ranked) hidden p
  unfolding collect top_records
  collect-Ranked limit ps p h = elim (Bool-cases (ltb_ℤ limit (pos 1))) [
    | inl low ↦ (let k = rw low at h in cc)
    | inr enough ↦
        let (r, e, k) =
          >>=-eq-ok (scan host mode ps)
            (λ r. ok (processes_payload (take (pos_part limit) (sorted before r.0)) r.1))
            (rw enough at h) in
        (
          r.0,
          sorted before r.0,
          r.1,
          ground arith,
          scan-Readable ps r e,
          sorted-Perm before r.0,
          IsSorted-IsRanked _ (sorted-IsSorted before before-IsOrder r.0),
          subst (Tells _ r.1) (payload_inj k) (processes_payload-Tells _ r.1),
        )
  ]
