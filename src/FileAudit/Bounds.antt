-- ===== src/FileAudit/Bounds.antt =====
-- The bounds that `FileAuditCollector` keeps.
use employee_tracker.Common.{
  sym, ◌∙◌, Option, ℕ, ◌+◌, ◌≤◌, ◌<◌, ◌≡◌, refl, subst, inl, inr, String, Bool, true, false, none,
  some, List, [], ◌∷◌, ◌++◌, Result, ok, err, arith, length, length-append, All, All-append, ltb,
  leb, Bool-cases, >>=-eq-ok, if◌then◌else◌,
}
use employee_tracker.FileAudit.Collect.{
  Chunk, bytes, broken, Candidate, AuditPath, absent, unreadable, walk, AuditRecord, Limits,
  is_tolerated, sha256_from, sha256_of, examine, record_of, Progress, with_partial, audit_file,
  audit_files, audit_paths,
}

module _ (hash : List ℕ → String) (l : Limits) where
  -- The file's size and the bytes that were hashed are within the limit.
  abbrev pub IsSmall : AuditRecord → Type 0
  IsSmall r =
      (r.size_bytes ≤ l.max_file_bytes)
      × (content : List ℕ) × (r.sha256 ≡ hash content)
      × (length content ≤ l.max_file_bytes)

  abbrev pub IsBounded : Progress hash → Type 0
  IsBounded p = (length p.records ≤ l.max_files) × All IsSmall p.records

  sha256_from-bounded :
      (sofar : List ℕ) (chunks : List Chunk) (d : String)
      → length sofar ≤ l.max_file_bytes
      → sha256_from hash l.max_file_bytes sofar chunks ≡ ok (some d)
      → (content : List ℕ) × (d ≡ hash content) × (length content ≤ l.max_file_bytes)
  unfolding sha256_from
  sha256_from-bounded sofar [] d small h = (sofar, cc, small)
  sha256_from-bounded sofar (broken e ∷ chunks) d small h = cc
  sha256_from-bounded sofar (bytes b ∷ chunks) d small h =
      elim (Bool-cases (ltb l.max_file_bytes (length sofar + length b))) [
        | inl large ↦ (let k = rw large at h in cc)
        | inr fits ↦
            sha256_from-bounded (sofar ++ b) chunks d (ground (arith, length-append sofar b, fits))
              (rw fits at h)
      ]

  record_of-IsSmall :
      (c : Candidate) (size : ℕ) (digest : Option String) (r : AuditRecord)
      → record_of hash c size digest ≡ ok (some r)
      → (r.size_bytes ≡ size) × (digest ≡ some r.sha256)
  unfolding record_of
  record_of-IsSmall c size none r h = cc
  record_of-IsSmall c size (some d) r h = let (m, e, k) = >>=-eq-ok c.modified _ h in (cc, cc)

  examine-IsSmall : (c : Candidate) (r : AuditRecord) → examine hash l c ≡ ok (some r) → IsSmall r
  unfolding examine sha256_of
  examine-IsSmall c r h =
      let (size, e, k) = >>=-eq-ok c.size _ h in
      elim (Bool-cases (ltb l.max_file_bytes size)) [
        | inl large ↦ (let m = rw large at k in cc)
        | inr fits ↦
            let (digest, f, m) = >>=-eq-ok (sha256_of hash c l.max_file_bytes) _ (rw fits at k) in
            let (same, hashed) = record_of-IsSmall c size digest r m in
            let (chunks, g, n) = >>=-eq-ok c.content _ f in
            let (content, made, small) =
              sha256_from-bounded [] chunks r.sha256 (ground arith) (rw hashed at n) in
            (ground arith, content, made, small)
      ]

  progress_inj : {p q : Progress hash} → ok p ≡ ok q → p ≡ q
  progress_inj h = cc

  audit_file-IsBounded :
      (p q : Progress hash) (o : Result (Option AuditRecord))
      → length p.records < l.max_files
      → All IsSmall p.records
      → ((r : AuditRecord) → o ≡ ok (some r) → IsSmall r)
      → audit_file hash p o ≡ ok q
      → IsBounded q
  unfolding audit_file
  audit_file-IsBounded p q (ok none) room small made h =
      subst IsBounded (progress_inj h) (ground arith, small)
  audit_file-IsBounded p q (ok (some r)) room small made h = subst IsBounded (progress_inj h) (
    omega (arith, room, length-append p.records (r ∷ [])),
    All-append IsSmall p.records (r ∷ []) small (made r refl, tt),
  )
  audit_file-IsBounded p q (err e) room small made h = elim (Bool-cases (is_tolerated e.class)) [
    | inl t ↦ subst IsBounded (progress_inj (rw t at h)) (ground arith, small)
    | inr t ↦ (let k = rw t at h in cc)
  ]

  stopped :
      (m q : Progress hash) (k : Result (Progress hash))
      → m.limit_reached ≡ true
      → (if m.limit_reached then ok m else k) ≡ ok q
      → m ≡ q
  stopped m q k s h = progress_inj (sym (simp s) ∙ h)

  going :
      (m q : Progress hash) (k : Result (Progress hash))
      → m.limit_reached ≡ false
      → (if m.limit_reached then ok m else k) ≡ ok q
      → k ≡ ok q
  going m q k s h = sym (simp s) ∙ h

  audit_files-IsBounded :
      (cs : List Candidate) (fails : Bool) (p q : Progress hash)
      → IsBounded p
      → audit_files hash l cs fails p ≡ ok q
      → IsBounded q
  unfolding audit_files
  audit_files-IsBounded [] true p q b h = subst IsBounded (progress_inj h) b
  audit_files-IsBounded [] false p q b h = subst IsBounded (progress_inj h) b
  audit_files-IsBounded (c ∷ cs) fails p q b h =
      elim (Bool-cases (leb l.max_files (length p.records))) [
        | inl full ↦ subst IsBounded (progress_inj (rw full at h)) b
        | inr room ↦
            let (m, e, k) = >>=-eq-ok (audit_file hash p (examine hash l c)) _ (rw room at h) in
            audit_files-IsBounded cs fails m q
              (audit_file-IsBounded p m (examine hash l c) (ground arith) b.1 (examine-IsSmall c) e)
              k
      ]

  -- From a state within the limits, and so from none: however many files the audit paths hold and whatever their reads raise, when the walk over the
  -- paths returns, it has at most `max_files` records, and for each of them the reported size and the
  -- number of bytes that were hashed are at most `max_file_bytes`, also for a file that grew after
  -- its `stat`.
  pub audit_paths-IsBounded :
      (paths : List AuditPath) (p q : Progress hash)
      → IsBounded p
      → audit_paths hash l paths p ≡ ok q
      → IsBounded q
  unfolding audit_paths
  audit_paths-IsBounded [] p q b h = subst IsBounded (progress_inj h) b
  audit_paths-IsBounded (absent ∷ paths) p q b h =
      audit_paths-IsBounded paths (with_partial hash p) q b h
  audit_paths-IsBounded (unreadable ∷ paths) p q b h =
      audit_paths-IsBounded paths (with_partial hash p) q b h
  audit_paths-IsBounded (walk cs fails ∷ paths) p q b h =
      let (m, e, k) = >>=-eq-ok (audit_files hash l cs fails p) _ h in
      let b' = audit_files-IsBounded cs fails p m b e in
      elim (Bool-cases m.limit_reached) [
        | inl stop ↦ subst IsBounded (stopped m q (audit_paths hash l paths m) stop k) b'
        | inr more ↦
            audit_paths-IsBounded paths m q b' (going m q (audit_paths hash l paths m) more k)
      ]
