-- ===== src/Spool/Listing.antt =====
-- What `_pending_paths` of monitor_agent/spool.py lists, and what a retention on the directories is to
-- do by the retention on a list of records.
use employee_tracker.Common.{
  ◌≡◌, refl, inl, inr, ℕ, String, ok, List, [], ◌∷◌, map, Option-cases, arith, Result, err,
}
use employee_tracker.Common.Int.{ℤ}
use employee_tracker.Models.{RetentionResult}
use employee_tracker.Spool.Store.{
  Entry, Clerk, pending_paths, total_size, Eviction, evict_expired, evict_oldest,
}
use employee_tracker.Spool.Disk.{Disk, Names, root, names}
use employee_tracker.Spool.Calls.{System, Process, ◌>>=◌, ◌>>◌, call, continue}
use employee_tracker.Spool.Guards.{Hashes}
use employee_tracker.Spool.Markers.{Codec}
use employee_tracker.Spool.Recovery.{prepare}
use employee_tracker.Spool.Queue.{entries, pending_entries}
use employee_tracker.Spool.Files.{SameFiles}
use employee_tracker.Spool.Evicts.{record_names, Agrees}

module _ (j : Codec) (k : Clerk) (size : String → ℕ) where
  -- What `_pending_paths` gives for the directories.
  abbrev pub listing : Disk → List Entry
  listing d = pending_paths k (entries size j d (names root d))

  -- The first loop on the list of the records in a directory.
  abbrev pub expired : ℤ → Disk → Eviction
  expired cutoff d =
      evict_expired k cutoff (listing d)
        (record { left = entries size j d (names root d); evicted_count = 0; evicted_bytes = 0 })

  -- What a retention that returns has done to the directories that it found after the preparation,
  -- that its first loop left halfway, with the same files: the first loop on the list for these, then the second for the
  -- directories that are left halfway, with the sizes of their files.
  pub record Retained (max_bytes : ℕ) (cutoff : ℤ) (found halfway after : Disk)
      (r : RetentionResult) : Type 0 where
    pub files_kept : SameFiles found halfway
    pub count : ℕ
    pub bytes : ℕ
    pub first : Agrees halfway count bytes (expired cutoff found)
    pub second : Agrees after r.evicted_count r.evicted_bytes (
        evict_oldest max_bytes
          (total_size (listing halfway))
          (listing halfway)
          (expired cutoff found))

pub record_names-entries :
    (j : Codec) (size : String → ℕ) (d : Disk) (es : Names)
    → record_names es ≡ map (λ e. e.name) (entries size j d es)
unfolding entries
record_names-entries j size d [] = refl
record_names-entries j size d ((m, i) ∷ es) = ground (arith, record_names-entries j size d es)

module _ (os : System) (h : Hashes) (j : Codec) (k : Clerk) (size : String → ℕ) where
  pub pending_entries-listing :
      (s : Process) (es : List Entry)
      → (pending_entries os h j k size s).0 ≡ ok es
      → (es ≡ listing j k size s.disk) × ((pending_entries os h j k size s).1.disk ≡ s.disk)
  unfolding pending_entries call
  pending_entries-listing s es e = elim (Option-cases (os.fault s.calls)) [
    | inr (raised, fault) ↦ absurd (ground (arith, rw (pending_entries, call, fault) at e))
    | inl quiet ↦
        let got = rw (pending_entries, call, quiet) at e in
        (cc, rw (pending_entries, call, quiet) refl)
  ]

  listing-continue :
      (r : Result (Unit {0})) (t : Process) (es : List Entry)
      → (continue r (λ u. pending_entries os h j k size) t).0 ≡ ok es
      → (es ≡ listing j k size t.disk)
        × ((continue r (λ u. pending_entries os h j k size) t).1.disk ≡ t.disk)
  listing-continue (ok u) t es e = pending_entries-listing t es e
  listing-continue (err raised) t es e = cc

  pub prepared-listing :
      (s : Process) (es : List Entry)
      → ((prepare os h j >> pending_entries os h j k size) s).0 ≡ ok es
      → (es ≡ listing j k size (prepare os h j s).1.disk)
        × (((prepare os h j >> pending_entries os h j k size) s).1.disk ≡ (prepare os h j s).1.disk)
  unfolding ◌>>=◌
  prepared-listing s es e = listing-continue (prepare os h j s).0 (prepare os h j s).1 es e
