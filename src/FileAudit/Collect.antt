-- ===== src/FileAudit/Collect.antt =====
-- `_sha256` and `FileAuditCollector` of monitor_agent/collectors/file_audit.py. The file system is
-- not the program's own code: an `AuditPath` is what looking at one path gave.
use employee_tracker.Common.{
  ℕ, ◌+◌, String, Bool, true, false, ◌||◌, Option, none, some, List, [], ◌∷◌, ◌++◌, map, Result, ok,
  err, ErrorClass, value_error, overflow_error, raise, raise_if, ◌>>=◌, ◌>>◌, length, ltb, leb,
  if◌then◌else◌,
}
use employee_tracker.Common.Int.{ℤ, pos, ltb_ℤ, pos_part}
use employee_tracker.Identity.{is_os_error, is_value_error}
use employee_tracker.Models.{
  Json, int, str, list, dict, fields, items, CollectorPayload, CollectorStatus, plain_payload,
}

-- What one `source.read(_READ_CHUNK_BYTES)` gives before the end of the file: bytes, or an error.
pub data Chunk : Type 0 where
  bytes : List ℕ → Chunk
  broken : ErrorClass → Chunk

-- A regular file below an audit path: its name, its `stat` (the size in bytes, and the text of the
-- last change in UTC, which may raise), and what `open` and the reads give.
pub record Candidate : Type 0 where
  pub path : String
  pub size : Result ℕ
  pub modified : Result String
  pub content : Result (List Chunk)

-- `is_symlink()` or not `exists()`; an OSError of these tests; or the walk: the files that
-- `_iter_regular_files` yields, and whether it ends by an OSError.
pub data AuditPath : Type 0 where
  absent unreadable : AuditPath
  walk : List Candidate → Bool → AuditPath

pub record AuditRecord : Type 0 where
  pub path : String
  pub size_bytes : ℕ
  pub modified : String
  pub sha256 : String

-- The collector's fields.
pub record Limits : Type 0 where
  pub max_files : ℕ
  pub max_file_bytes : ℕ

-- `except (OSError, OverflowError, ValueError)`
abbrev is_overflow : ErrorClass → Bool
is_overflow overflow_error = true
is_overflow _ = false

abbrev pub is_tolerated : ErrorClass → Bool
is_tolerated c = is_os_error c || is_overflow c || is_value_error c

abbrev raise_class : {A : Type 0} → ErrorClass → Result A
raise_class c = raise c ""

-- `hash` stands for the hexadecimal SHA-256 of bytes.
module _ (hash : List ℕ → String) where
  -- The loop of `_sha256`, by the bytes read so far.
  unfoldable pub sha256_from : ℕ → List ℕ → List Chunk → Result (Option String)
  sha256_from max_bytes sofar [] = ok (some (hash sofar))
  sha256_from max_bytes sofar (broken e ∷ chunks) = raise_class e
  sha256_from max_bytes sofar (bytes chunk ∷ chunks) =
      let rest = sha256_from max_bytes (sofar ++ chunk) chunks in
      if ltb max_bytes (length sofar + length chunk) then ok none else rest

  unfoldable pub sha256_of : Candidate → ℕ → Result (Option String)
  sha256_of c max_bytes = c.content >>= sha256_from max_bytes []

  -- The inner `try` block behind the hash, which is `none` for a file that is too large.
  unfoldable pub record_of : Candidate → ℕ → Option String → Result (Option AuditRecord)
  record_of c size none = ok none
  record_of c size (some digest) = c.modified >>= (λ modified.
      ok (some (record { path = c.path; size_bytes = size; modified = modified; sha256 = digest })))

  -- The inner `try` block: a record, or `none` for a file that is too large.
  unfoldable pub examine : Limits → Candidate → Result (Option AuditRecord)
  examine l c = c.size >>= (λ size.
      if ltb l.max_file_bytes size
      then ok none
      else sha256_of c l.max_file_bytes >>= (λ digest. record_of c size digest))

  -- The state of the loops: the records, `partial` and `limit_reached`.
  pub record Progress : Type 0 where
    pub records : List AuditRecord
    pub partial : Bool
    pub limit_reached : Bool

  abbrev pub with_partial : Progress → Progress
  with_partial p = record { records = p.records; partial = true; limit_reached = p.limit_reached }

  -- What one candidate makes of the state.
  unfoldable pub audit_file : Progress → Result (Option AuditRecord) → Result Progress
  audit_file p (ok none) = ok (with_partial p)
  audit_file p (ok (some r)) = ok (record {
    records = p.records ++ r ∷ [];
    partial = p.partial;
    limit_reached = p.limit_reached;
  })
  audit_file p (err e) = if is_tolerated e.class then ok (with_partial p) else err e

  -- `for candidate in candidates`; the flag says that the walk ends by an OSError.
  unfoldable pub audit_files : Limits → List Candidate → Bool → Progress → Result Progress
  audit_files l [] fails p = ok (if fails then with_partial p else p)
  audit_files l (c ∷ cs) fails p =
      if leb l.max_files (length p.records)
      then ok (record { records = p.records; partial = p.partial; limit_reached = true })
      else audit_file p (examine l c) >>= (λ q. audit_files l cs fails q)

  -- `for audit_path in self._audit_paths`
  unfoldable pub audit_paths : Limits → List AuditPath → Progress → Result Progress
  audit_paths l [] p = ok p
  audit_paths l (absent ∷ paths) p = audit_paths l paths (with_partial p)
  audit_paths l (unreadable ∷ paths) p = audit_paths l paths (with_partial p)
  audit_paths l (walk candidates fails ∷ paths) p =
      audit_files l candidates fails p
      >>= (λ q. if q.limit_reached then ok q else audit_paths l paths q)

  abbrev pub nothing_yet : Progress
  nothing_yet = record { records = []; partial = false; limit_reached = false }

  unfoldable pub audit_value : AuditRecord → Json
  audit_value r = dict (
      fields (
        ("path", str r.path)
        ∷ ("size_bytes", int (pos r.size_bytes))
        ∷ ("modified", str r.modified)
        ∷ ("sha256", str r.sha256)
        ∷ []))

  unfoldable pub audit_payload : Progress → CollectorPayload
  audit_payload p =
      let data_value =
        dict (fields (("file_audit", list (items (map audit_value p.records))) ∷ [])) in
      if p.partial
      then record {
        data_value = data_value;
        status = CollectorStatus.partial;
        error_code = some "file_audit_partial";
        error_message = some "some audit targets were unavailable or exceeded limits";
      }
      else plain_payload data_value

  abbrev disabled_payload : CollectorPayload
  disabled_payload = record {
    data_value = dict (fields (("file_audit", list (items [])) ∷ []));
    status = CollectorStatus.disabled;
    error_code = none;
    error_message = none;
  }

  -- The guards of `FileAuditCollector.__init__`.
  unfoldable pub check_limits : ℤ → ℤ → Result (Unit {0})
  check_limits max_files max_file_bytes =
      raise_if (ltb_ℤ max_files (pos 1)) value_error "max_files must be at least 1"
      >> raise_if (ltb_ℤ max_file_bytes (pos 1)) value_error "max_file_bytes must be at least 1"

  -- `FileAuditCollector.collect`
  unfoldable pub collect : ℤ → ℤ → List AuditPath → Result CollectorPayload
  collect max_files max_file_bytes paths = elim paths [
    | [] ↦ ok disabled_payload
    | path ∷ more ↦
        audit_paths
          (record { max_files = pos_part max_files; max_file_bytes = pos_part max_file_bytes })
          (path ∷ more) nothing_yet
        >>= (λ p. ok (audit_payload p))
  ]
