-- ===== src/Spool/Retained.antt =====
-- The steps of monitor_agent/spool.py that move or remove the name of a record.
use employee_tracker.Common.{
  ◌≡◌, refl, ap, ◌∙◌, arith, true, not, Option, some, Option-cases, inl, inr, ℕ, ◌==◌, String, ok,
  str_eq,
}
use employee_tracker.Spool.Disk.{
  Name, pending, Folder, root, dead_letter, Disk, Stat, same_kind, find, names, put, link_file,
  rename_file, unlink_file,
}
use employee_tracker.Spool.Calls.{
  System, Process, pure, ◌>>=◌, ◌>>◌, call, linux_rename_noreplace, publish_noreplace,
  unlink_open_name,
}
use employee_tracker.Spool.Guards.{Hashes}
use employee_tracker.Spool.Markers.{Codec, Marker, text_name, read_all, descriptor_digest}
use employee_tracker.Spool.Recovery.{are_linked, unlink_moved}
use employee_tracker.Spool.Keeps.{Keeps, keeps_rules, Keeps-call}
use employee_tracker.Spool.Looking.{fsync_directory-Keeps, in_directories-Keeps}
use employee_tracker.Spool.Learns.{
  From, From-Keeps, From-imply, Learns-From, From-branch, From-with_option, From-bind, Keeps-From,
  Learns-quiet,
}
use employee_tracker.Spool.Seen.{
  From-call, Learns-call, Learns-file_stat, Learns-stat_if_there, From-in_directory,
}
use employee_tracker.Spool.Held.{Held}
use employee_tracker.Spool.Moved.{free-Held, linked-Held, find-here}

-- A name of a record in the directory for dead letters.
abbrev IsAlso : Name → ℕ → Disk → Type 0
IsAlso m k d = find m d.dead_names ≡ some k

-- A link that was made has two names for one file.
link_file-linked :
    (n m : Name) (d : Disk) (u : Unit {0})
    → (link_file root n dead_letter m d).0 ≡ ok u
    → (k : ℕ) × (find n (link_file root n dead_letter m d).1.root_names ≡ some k)
      × (find m (link_file root n dead_letter m d).1.dead_names ≡ some k)
unfolding link_file find
link_file-linked n m d u = elim (Option-cases (find n d.root_names)) [
  | inl e ↦ rw (e, link_file) (λ r. cc)
  | inr (k, e) ↦ elim (Option-cases (find m d.dead_names)) [
    | inl free ↦ rw (e, link_file, free) (λ r. (k, e, find-here m k d.dead_names))
    | inr (x, taken) ↦ rw (e, link_file, taken) (λ r. cc)
  ]
]

module _ (os : System) (h : Hashes) (j : Codec) where
  descriptor_digest-quiet : (k : ℕ) (s : Process) → (descriptor_digest os h j k s).1.disk ≡ s.disk
  unfolding descriptor_digest read_all ◌>>=◌ pure call
  descriptor_digest-quiet k s = elim (Option-cases (os.fault s.calls)) [
    | inl e ↦ rw (e, call) refl
    | inr (x, e) ↦ rw (e, call) refl
  ]

  pub descriptor_digest-Keeps : {J : Disk → Type 0} (k : ℕ) → Keeps J (descriptor_digest os h j k)
  unfolding descriptor_digest read_all
  descriptor_digest-Keeps k = search keeps_rules

module _ {o : Option Name} {i : ℕ} {c : String} (os : System) where
  rename_file-Held :
      (n m : Name) (d : Disk)
      → same_kind m.kind pending ≡ true
      → Held o i c d
      → Held o i c (rename_file root n dead_letter m d).1
  unfolding rename_file find
  rename_file-Held n m d is_record p = elim (Option-cases (find n d.root_names)) [
    | inl e ↦ rw (e, rename_file) p
    | inr (k, e) ↦ elim (Option-cases (find m d.dead_names)) [
      | inl free ↦
          rw (e, rename_file, free)
            (linked-Held n m k (put dead_letter m k d) is_record e (find-here m k d.dead_names)
              (free-Held dead_letter m k d free p))
      | inr (x, taken) ↦ rw (e, rename_file, taken) p
    ]
  ]

  pub link_file-Held :
      (f : Folder) (n : Name) (g : Folder) (m : Name) (d : Disk)
      → Held o i c d
      → Held o i c (link_file f n g m d).1
  unfolding link_file
  link_file-Held f n g m d p = elim (Option-cases (find n (names f d))) [
    | inl e ↦ rw (e, link_file) p
    | inr (k, e) ↦ elim (Option-cases (find m (names g d))) [
      | inl free ↦ rw (e, link_file, free) (free-Held g m k d free p)
      | inr (x, taken) ↦ rw (e, link_file, taken) p
    ]
  ]

  unlink_file-Held :
      (n m : Name) (k : ℕ) (d : Disk)
      → same_kind m.kind pending ≡ true
      → find n d.root_names ≡ some k
      → find m d.dead_names ≡ some k
      → Held o i c d
      → Held o i c (unlink_file root n d).1
  unfolding unlink_file
  unlink_file-Held n m k d is_record here there p =
      rw (here, unlink_file) (linked-Held n m k d is_record here there p)

  -- The name of a record moves to another directory.
  pub publish_noreplace-Held :
      (n m : Name)
      → same_kind m.kind pending ≡ true
      → Keeps (Held o i c) (publish_noreplace os root n dead_letter m)
  unfolding publish_noreplace linux_rename_noreplace
  publish_noreplace-Held n m is_record =
      let renamed =
        Keeps-call os (rename_file root n dead_letter m)
          λ d p. rename_file-Held n m d is_record p in
      let linked : Keeps (Held o i c)
          (call os (link_file root n dead_letter m) >> call os (unlink_file root n)) =
        Keeps-From _ (
          From-bind
            (λ u d. (k : ℕ) × (find n d.root_names ≡ some k) × (find m d.dead_names ≡ some k)) _ _
            (Learns-call os _ (link_file root n dead_letter m)
              (λ d p u. link_file-Held root n dead_letter m d p)
              λ d u p q r. link_file-linked n m d u r)
            λ u.
              From-call os (unlink_file root n)
                λ d p q. unlink_file-Held n m q.0 d is_record q.1 q.2 p) in
      search (keeps_rules, in_directories-Keeps os) depth 8

  -- The name of a file that has another in the directory for dead letters.
  unlink_open_name-Held :
      (n m : Name) (k : ℕ)
      → same_kind m.kind pending ≡ true
      → From (Held o i c) (λ d. find m d.dead_names ≡ some k) (unlink_open_name os root n k)
  unfolding unlink_open_name
  unlink_open_name-Held n m k is_record =
      From-bind (λ a d. (find m d.dead_names ≡ some k) × (a.file ≡ k)) _ _ (Learns-file_stat os k)
        λ opened. From-in_directory os _ (
          From-bind
            (λ o d.
              ((find m d.dead_names ≡ some k) × (opened.file ≡ k))
              × ((a : Stat) → o ≡ some a → find n d.root_names ≡ some a.file))
            _ _ (Learns-stat_if_there os root n)
            λ o.
              From-with_option o _ _ (λ e. From-Keeps _ (search keeps_rules))
                λ current there.
                  From-branch (current.file == opened.file) _ _
                    (λ same.
                      From-bind (λ u d. Unit {0}) _ _
                        (Learns-call os _ (unlink_file root n)
                          (λ d p q.
                            let file : current.file ≡ k = (let e = q.0.1 in ground arith) in
                            unlink_file-Held n m k d is_record (q.1 current there ∙ ap some file)
                              q.0.0 p)
                          λ d u p q r. tt)
                        λ u. From-Keeps _ (search keeps_rules))
                    λ other. From-Keeps _ (search keeps_rules))

  module _ (h : Hashes) (j : Codec) where
    -- A source of which the destination is another name.
    pub unlink_moved-Held : (m : Marker) (k : ℕ) → Keeps (Held o i c) (unlink_moved os h j m k)
    unfolding unlink_moved
    unlink_moved-Held m k = Keeps-From _ (
        From-bind (λ a d. Unit {0} × (a.file ≡ k)) _ _ (Learns-file_stat os k)
          λ source.
            From-bind
              (λ o d.
                (Unit {0} × (source.file ≡ k))
                × ((a : Stat)
                    → o ≡ some a
                    → find (text_name m.destination) d.dead_names ≡ some a.file))
              _ _ (Learns-stat_if_there os dead_letter (text_name m.destination))
              λ o.
                From-with_option o _ _ (λ e. From-Keeps _ (search keeps_rules))
                  λ destination there.
                    From-branch (not (are_linked source destination)) _ _
                      (λ unlinked. From-Keeps _ (search keeps_rules))
                      λ linked.
                        From-imply (λ d. find (text_name m.destination) d.dead_names ≡ some k) _
                          (λ d q.
                            let file : destination.file ≡ k = (let e = q.0.1 in ground arith) in
                            q.1 destination there ∙ ap some file)
                          (From-bind
                            (λ digest d.
                              (find (text_name m.destination) d.dead_names ≡ some k) × Unit {0})
                            _ _
                            (Learns-quiet (λ digest d. Unit {0}) _
                              (descriptor_digest-Keeps os h j k) (descriptor_digest-quiet os h j k)
                              λ s a e. tt)
                            λ digest.
                              From-branch (not (str_eq digest m.digest)) _ _
                                (λ changed. From-Keeps _ (search keeps_rules))
                                λ unchanged.
                                  From-bind (λ removed d. Unit {0}) _ _
                                    (Learns-From _ (
                                      From-imply
                                        (λ d. find (text_name m.destination) d.dead_names ≡ some k)
                                        _ (λ d q. q.0)
                                        (unlink_open_name-Held (text_name m.source)
                                          (text_name m.destination) k refl)))
                                    λ removed.
                                      From-Keeps _
                                        (search (keeps_rules, fsync_directory-Keeps os))))
