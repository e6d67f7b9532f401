-- ===== src/Spool/Kept.antt =====
-- What monitor_agent/spool.py promises of a record: no operation but `ack` and the retention loses it.
use employee_tracker.Common.{
  ◌≡◌, ◌∙◌, arith, ℕ, String, true, Option, none, some, ltb, is_some, Bool-cases, inl, inr,
}
use employee_tracker.Spool.Store.{Clerk}
use employee_tracker.Spool.Disk.{
  Disk, Name, pending, Folder, root, dead_letter, same_kind, find, names, delete, unlink_file,
}
use employee_tracker.Spool.Calls.{System, Process, unlink_name}
use employee_tracker.Spool.Guards.{Hashes}
use employee_tracker.Spool.Markers.{Codec, text_name}
use employee_tracker.Spool.Queue.{
  pending_entries, list_pending, read_if_possible, load, ack, existing_rejection, reject,
  store_record,
}
use employee_tracker.Spool.Keeps.{Holds, Keeps, keeps_rules, Keeps-look, Keeps-call}
use employee_tracker.Spool.Looking.{
  in_directory-Keeps, open_record-Keeps, touch-Keeps, path_exists-Keeps, name_exists-Keeps,
  fsync_directory-Keeps,
}
use employee_tracker.Spool.Held.{Held, is_away, find-remove}
use employee_tracker.Spool.Marking.{
  read_all-Keeps, read_operation_marker-Keeps, validate_dead_letter_destination-Keeps,
}
use employee_tracker.Spool.Moving.{
  pending_path-Keeps, validated_record_stat-Keeps, move_to_dead_letter-Held,
}
use employee_tracker.Spool.Safe.{prepare-Held}
use employee_tracker.Spool.Publishing.{store_record-Held}

module _ {J : Disk → Type 0} (os : System) (h : Hashes) (j : Codec) (k : Clerk)
    (size : String → ℕ) where
  pending_entries-Keeps : Keeps J (pending_entries os h j k size)
  unfolding pending_entries
  pending_entries-Keeps = Keeps-look os _

  read_if_possible-Keeps : (n : String) → Keeps J (read_if_possible os h j k size n)
  unfolding read_if_possible
  read_if_possible-Keeps n =
      search (keeps_rules, open_record-Keeps os, read_all-Keeps os h j, touch-Keeps os) depth 12

  existing_rejection-Keeps : (n : String) → Keeps J (existing_rejection os h j k size n)
  unfolding existing_rejection
  existing_rejection-Keeps n =
      search
        (
          keeps_rules,
          read_operation_marker-Keeps os h j,
          name_exists-Keeps os,
          validate_dead_letter_destination-Keeps os h j,
        )
        depth 12

module _ {o : Option Name} {i : ℕ} {c : String} (os : System) (h : Hashes) (j : Codec) (k : Clerk)
    (size : String → ℕ) where
  list_pending-Keeps : Keeps (Held o i c) (list_pending os h j k size)
  unfolding list_pending
  list_pending-Keeps =
      search (keeps_rules, prepare-Held os h j, pending_entries-Keeps os h j k size)

  load-Keeps : (fuel : ℕ) (n : String) → Keeps (Held o i c) (load os h j k size fuel n)
  unfolding load
  load-Keeps fuel n =
      search
        (
          keeps_rules,
          prepare-Held os h j,
          pending_path-Keeps os,
          path_exists-Keeps os,
          read_if_possible-Keeps os h j k size,
          move_to_dead_letter-Held os h j,
        )
        depth 14

  reject-Keeps : (fuel : ℕ) (n : String) → Keeps (Held o i c) (reject os h j k size fuel n)
  unfolding reject
  reject-Keeps fuel n =
      search
        (
          keeps_rules,
          prepare-Held os h j,
          pending_path-Keeps os,
          path_exists-Keeps os,
          existing_rejection-Keeps os h j k size,
          move_to_dead_letter-Held os h j,
        )
        depth 12

module _ {i : ℕ} {c : String} where
  unlinked-Held :
      (n : Name) (d : Disk) (f : Folder) (r : Name)
      → same_kind r.kind pending ≡ true
      → is_away (some n) f r ≡ true
      → find r (names f d) ≡ some i
      → ltb i d.next ≡ true
      → (d.nodes i).content ≡ c
      → Held (some n) i c (delete root n d)
  unlinked-Held n d root r is_pending away found old content = record {
    folder = root;
    name = r;
    is_pending = is_pending;
    away = away;
    found = find-remove n r d.root_names (ground arith) ∙ found;
    old = old;
    content = content;
  }
  unlinked-Held n d dead_letter r is_pending away found old content = record {
    folder = dead_letter;
    name = r;
    is_pending = is_pending;
    away = away;
    found = found;
    old = old;
    content = content;
  }

  unlink_file-Held_else :
      (n : Name) (d : Disk) → Held (some n) i c d → Held (some n) i c (unlink_file root n d).1
  unfolding unlink_file
  unlink_file-Held_else n d p = elim (Bool-cases (is_some (find n d.root_names))) [
    | inl e ↦
        rw (e, unlink_file)
          (unlinked-Held n d p.folder p.name p.is_pending p.away p.found p.old p.content)
    | inr e ↦ rw (e, unlink_file) p
  ]

  unlink_name-Held_else :
      (os : System) (n : Name) → Keeps (Held (some n) i c) (unlink_name os root n)
  unfolding unlink_name
  unlink_name-Held_else os n =
      let unlinked = Keeps-call os (unlink_file root n) (unlink_file-Held_else n) in
      search (keeps_rules, in_directory-Keeps os)

  ack-Keeps :
      (os : System) (h : Hashes) (j : Codec) (k : Clerk) (size : String → ℕ) (n : String)
      → Keeps (Held (some (text_name n)) i c) (ack os h j k size n)
  unfolding ack
  ack-Keeps os h j k size n =
      let unlinked = unlink_name-Held_else os (text_name n) in
      search
        (
          keeps_rules,
          prepare-Held os h j,
          pending_path-Keeps os,
          path_exists-Keeps os,
          validated_record_stat-Keeps os,
          fsync_directory-Keeps os,
        )
        depth 12

module _ (os : System) (h : Hashes) (j : Codec) (k : Clerk) (size : String → ℕ) (i : ℕ)
    (c : String) where
  -- If a record is held, then it is held after `load` of any name and at every moment of it, whatever
  -- calls raise and whatever locks are taken.
  pub load-Held :
      (fuel : ℕ) (n : String) (s : Process)
      → Holds (Held none i c) s
      → Holds (Held none i c) (load os h j k size fuel n s).1
  load-Held fuel n s p = (load-Keeps os h j k size fuel n).at s p

  -- If a record is held, then it is held after `reject` of any name and at every moment of it,
  -- whatever calls raise and whatever locks are taken.
  pub reject-Held :
      (fuel : ℕ) (n : String) (s : Process)
      → Holds (Held none i c) s
      → Holds (Held none i c) (reject os h j k size fuel n s).1
  reject-Held fuel n s p = (reject-Keeps os h j k size fuel n).at s p

  -- If a record is held, then it is held after `pending` and at every moment of it, the recovery and
  -- the clean-up at its start included, whatever calls raise and whatever locks are taken.
  pub list_pending-Held :
      (s : Process)
      → Holds (Held none i c) s
      → Holds (Held none i c) (list_pending os h j k size s).1
  list_pending-Held s p = (list_pending-Keeps os h j k size).at s p

  -- If a record is held, then it is held after another is stored and at every moment of that,
  -- whatever calls raise and whatever locks are taken.
  pub store_record-keeps_others :
      (name encoded : String) (s : Process)
      → Holds (Held none i c) s
      → Holds (Held none i c) (store_record os h j k size name encoded s).1
  store_record-keeps_others name encoded s p = (store_record-Held os h j k size name encoded).at s p

  -- If a record is held under a name that is not the acknowledged one, then it is held so after `ack`
  -- and at every moment of it, whatever calls raise and whatever locks are taken.
  pub ack-keeps_others :
      (n : String) (s : Process)
      → Holds (Held (some (text_name n)) i c) s
      → Holds (Held (some (text_name n)) i c) (ack os h j k size n s).1
  ack-keeps_others n s p = (ack-Keeps os h j k size n).at s p
