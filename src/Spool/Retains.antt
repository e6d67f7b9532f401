-- ===== src/Spool/Retains.antt =====
-- `enforce_retention` of monitor_agent/spool.py on the directories against the retention on a list of
-- records in the module Store.
use employee_tracker.Common.{
  ◌≡◌, refl, sym, ap, subst, ◌∙◌, ℕ, ◌*◌, Bool, not, String, ok, List, [], ◌∷◌, ◌==◌,
}
use employee_tracker.Common.Int.{ℤ, pos, ◌-ℤ◌}
use employee_tracker.Models.{RetentionResult}
use employee_tracker.Spool.Store.{Entry, Clerk, total_size, Eviction, evict_expired, evict_oldest}
use employee_tracker.Spool.Disk.{Disk, same, root, names}
use employee_tracker.Spool.Calls.{
  System, Process, Io, pure, ◌>>=◌, ◌>>◌, when, fsync_directory, finally,
}
use employee_tracker.Spool.Guards.{Hashes, for_each}
use employee_tracker.Spool.Markers.{Codec, text_name}
use employee_tracker.Spool.DeadLetter.{validated_record_stat}
use employee_tracker.Spool.Recovery.{prepare}
use employee_tracker.Spool.Queue.{
  entries, pending_entries, drop_expired, drop_oldest, retain_records,
}
use employee_tracker.Spool.Files.{SameFiles}
use employee_tracker.Spool.Still.{
  Still, Still-pure, Still-bind, Still-branch, IsTruthful, validated_record_stat-Still, still_rules,
}
use employee_tracker.Spool.Evicts.{
  record_names, Agrees, bind-leads, Evicts, drop_oldest-Evicts, drop_expired-Evicts,
  drop_expired-SameFiles,
}
use employee_tracker.Spool.Listing.{
  listing, expired, Retained, record_names-entries, pending_entries-listing, prepared-listing,
}

bind-state :
    {A B : Type 0} (m : Io A) (f : A → Io B) (s : Process) (a : A)
    → (m s).0 ≡ ok a
    → ((m >>= f) s).1 ≡ (f a (m s).1).1
unfolding ◌>>=◌
bind-state m f s a e = rw e refl

module _ (os : System) (h : Hashes) (j : Codec) (k : Clerk) (size : String → ℕ)
    (truth : IsTruthful os) where
  for_each-Still :
      (es : List Entry)
      → Still (for_each es λ e. validated_record_stat os (text_name e.name) >> pure tt)
  unfolding for_each
  for_each-Still [] = Still-pure tt
  for_each-Still (e ∷ es) =
      Still-bind _ _
        (Still-bind _ _ (validated_record_stat-Still os (text_name e.name)) λ st. Still-pure tt)
        λ u. for_each-Still es

  drop_oldest-checked :
      (max_bytes : ℕ) (es : List Entry) (count bytes : ℕ) (v : Eviction)
      → Evicts count bytes v
          (for_each es (λ e. validated_record_stat os (text_name e.name) >> pure tt)
            >> drop_oldest os h j k size max_bytes (total_size es) es count bytes)
          (evict_oldest max_bytes (total_size es) es v)
  drop_oldest-checked max_bytes es count bytes v = record {
    leads = λ s c b g e.
        bind-leads (λ d. Agrees d c b (evict_oldest max_bytes (total_size es) es v))
          (for_each es λ x. validated_record_stat os (text_name x.name) >> pure tt)
          (λ u. drop_oldest os h j k size max_bytes (total_size es) es count bytes) s (c, b) e
          λ u first last.
            (drop_oldest-Evicts os h j k size truth max_bytes (total_size es) es count bytes
                v).leads
              _ c b (subst (λ d. Agrees d count bytes v) (sym ((for_each-Still es).still s)) g)
              last;
  }

  fsync_directory-Still : Still (fsync_directory os)
  unfolding fsync_directory finally
  fsync_directory-Still = search (still_rules) depth 12

  when-Still : (b : Bool) (m : Io (Unit {0})) → Still m → Still (when b m)
  unfolding when
  when-Still b m q = Still-branch b m _ q (Still-pure tt)

  -- The end of `enforce_retention`.
  abbrev report : ℕ × ℕ → Io RetentionResult
  report (total, bytes) =
      when (not (total == 0)) (fsync_directory os)
      >> pure (record { evicted_count = total; evicted_bytes = bytes })

  report-leads :
      (c b : ℕ) (s : Process) (r : RetentionResult) (w : Eviction)
      → Agrees s.disk c b w
      → (report (c, b) s).0 ≡ ok r
      → Agrees (report (c, b) s).1.disk r.evicted_count r.evicted_bytes w
  unfolding pure
  report-leads c b s r w g e =
      bind-leads (λ d. Agrees d r.evicted_count r.evicted_bytes w)
        (when (not (c == 0)) (fsync_directory os)) _ s r e
        λ u first last.
          let told : RetentionResult = record { evicted_count = c; evicted_bytes = b } in
          let same : told ≡ r = cc in
          let still = (when-Still (not (c == 0)) _ fsync_directory-Still).still s in
          subst
            (λ x.
              Agrees (when (not (c == 0)) (fsync_directory os) s).1.disk x.evicted_count
                x.evicted_bytes w)
            same (subst (λ d. Agrees d c b w) (sym still) g)

  -- The second half of `enforce_retention` on these records, and what runs behind the listing.
  abbrev second_half : ℕ → ℕ → ℕ → List Entry → Io RetentionResult
  second_half max_bytes count bytes es =
      for_each es (λ e. validated_record_stat os (text_name e.name) >> pure tt)
      >> drop_oldest os h j k size max_bytes (total_size es) es count bytes
      >>= report

  second_half-leads :
      (max_bytes : ℕ) (es : List Entry) (count bytes : ℕ) (v : Eviction) (s : Process)
      (r : RetentionResult)
      → Agrees s.disk count bytes v
      → (second_half max_bytes count bytes es s).0 ≡ ok r
      → Agrees
          (second_half max_bytes count bytes es s).1.disk
          r.evicted_count
          r.evicted_bytes
          (evict_oldest max_bytes (total_size es) es v)
  second_half-leads max_bytes es count bytes v s r g e =
      bind-leads
        (λ d.
          Agrees d r.evicted_count r.evicted_bytes (evict_oldest max_bytes (total_size es) es v))
        _ report s r e
        λ (c, b) first last.
          report-leads c b _ r _
            ((drop_oldest-checked max_bytes es count bytes v).leads s c b g first) last

  abbrev relisted : ℕ → ℕ × ℕ → Io RetentionResult
  relisted max_bytes (count, bytes) =
      pending_entries os h j k size >>= second_half max_bytes count bytes

  abbrev both_halves : ℕ → ℤ → List Entry → Io RetentionResult
  both_halves max_bytes cutoff es = drop_expired os h j k size cutoff es 0 0 >>= relisted max_bytes

  relisted-Retained :
      (max_bytes : ℕ) (cutoff : ℤ) (found : Disk) (count bytes : ℕ) (s : Process)
      (r : RetentionResult)
      → SameFiles found s.disk
      → Agrees s.disk count bytes (expired j k size cutoff found)
      → (relisted max_bytes (count, bytes) s).0 ≡ ok r
      → Retained j k size max_bytes cutoff found s.disk
          (relisted max_bytes (count, bytes) s).1.disk
          r
  relisted-Retained max_bytes cutoff found count bytes s r kept g e =
      let v = expired j k size cutoff found in
      let ended : List Entry → Disk → Type 0 = λ es d.
        Agrees d r.evicted_count r.evicted_bytes (evict_oldest max_bytes (total_size es) es v) in
      record {
        files_kept = kept;
        count = count;
        bytes = bytes;
        first = g;
        second =
            bind-leads (ended (listing j k size s.disk)) (pending_entries os h j k size)
              (second_half max_bytes count bytes) s r e
              λ es first last.
                let (listed, unchanged) = pending_entries-listing os h j k size s es first in
                subst
                  (λ xs.
                    ended xs
                      (second_half max_bytes count bytes es
                        (pending_entries os h j k size s).1).1.disk)
                  listed
                  (second_half-leads max_bytes es count bytes v _ r
                    (subst (λ d. Agrees d count bytes v) (sym unchanged) g) last);
      }

  both_halves-Retained :
      (max_bytes : ℕ) (cutoff : ℤ) (found : Disk) (es : List Entry) (s : Process)
      (r : RetentionResult)
      → es ≡ listing j k size found
      → s.disk ≡ found
      → (both_halves max_bytes cutoff es s).0 ≡ ok r
      → Retained j k size max_bytes cutoff found
          (drop_expired os h j k size cutoff es 0 0 s).1.disk
          (both_halves max_bytes cutoff es s).1.disk
          r
  both_halves-Retained max_bytes cutoff found es s r listed same e =
      let all : Eviction = record {
        left = entries size j found (names root found);
        evicted_count = 0;
        evicted_bytes = 0;
      } in
      let start : Agrees s.disk 0 0 all = record {
        left =
            ap (λ d. record_names d.root_names) same
            ∙ record_names-entries j size found found.root_names;
        counted = refl;
        summed = refl;
      } in
      bind-leads
        (λ d.
          Retained j k size max_bytes cutoff found
            (drop_expired os h j k size cutoff es 0 0 s).1.disk d r)
        (drop_expired os h j k size cutoff es 0 0) (relisted max_bytes) s r e
        λ (count, bytes) first last.
          let left =
            (drop_expired-Evicts os h j k size truth cutoff es 0 0 all).leads s count bytes start
              first in
          relisted-Retained max_bytes cutoff found count bytes _ r
            (subst (λ d. SameFiles d (drop_expired os h j k size cutoff es 0 0 s).1.disk) same
              ((drop_expired-SameFiles os h j k size truth cutoff es 0 0).returns s (count, bytes)
                first))
            (subst
              (λ xs.
                Agrees (drop_expired os h j k size cutoff es 0 0 s).1.disk count bytes
                  (evict_expired k cutoff xs all))
              listed left)
            last

  -- `enforce_retention` up to the end of its first loop.
  abbrev pub first_half : ℤ → Io (ℕ × ℕ)
  first_half cutoff = prepare os h j >> pending_entries os h j k size >>= λ es.
      drop_expired os h j k size cutoff es 0 0

  -- A retention on the directories that returns evicts what the retention on the list of the records
  -- evicts: behind the preparation the first loop leaves the same files, under the names that the first
  -- loop on the list of the records there leaves, the second those that the second loop, on the records in the directories
  -- that the first loop of this run left and with their sizes there, leaves, and the numbers of records and bytes that are reported are those of the list, if
  -- the system says that a name is missing only where it is.
  pub retain_records-Retained :
      (max_bytes max_age_sec : ℕ) (now : ℤ) (s : Process) (r : RetentionResult)
      → (retain_records os h j k size max_bytes max_age_sec now s).0 ≡ ok r
      → Retained j k size max_bytes
          (now -ℤ pos (max_age_sec * 1000000))
          (prepare os h j s).1.disk
          (first_half (now -ℤ pos (max_age_sec * 1000000)) s).1.disk
          (retain_records os h j k size max_bytes max_age_sec now s).1.disk
          r
  unfolding retain_records
  retain_records-Retained max_bytes max_age_sec now s r e =
      let cutoff = now -ℤ pos (max_age_sec * 1000000) in
      let found = (prepare os h j s).1.disk in
      let listed = prepare os h j >> pending_entries os h j k size in
      bind-leads (λ d. Retained j k size max_bytes cutoff found (first_half cutoff s).1.disk d r)
        listed (both_halves max_bytes cutoff) s r e
        λ es first last.
          let (told, unchanged) = prepared-listing os h j k size s es first in
          subst
            (λ t.
              Retained j k size max_bytes cutoff found t.disk
                (both_halves max_bytes cutoff es (listed s).1).1.disk r)
            (sym (bind-state listed (λ xs. drop_expired os h j k size cutoff xs 0 0) s es first))
            (both_halves-Retained max_bytes cutoff found es (listed s).1 r told unchanged last)
