-- ===== src/Spool/Marking.antt =====
-- What the markers and the reservations of monitor_agent/spool.py leave alone: they touch hidden
-- names, and write no file but a new one.
use employee_tracker.Common.{
  ◌≡◌, refl, subst, Bool, some, Bool-cases, Option-cases, inl, inr, is_some, ℕ, zero, suc, String,
  ok,
}
use employee_tracker.Spool.Disk.{
  Name, marker_temp, Folder, dead_letter, Disk, find, names, create_file, write_file, replace_file,
}
use employee_tracker.Spool.Calls.{System, call, make_temporary, write_all, replace_name}
use employee_tracker.Spool.Guards.{Hashes}
use employee_tracker.Spool.Markers.{
  Codec, Marker, marker_value, numbered_name, read_all, decode_operation_marker,
  read_operation_marker, fill_marker, persist_operation_marker, validate_dead_letter_destination,
  destination_matches_digest, reservation_name, reserve_from, reserve_dead_letter_destination,
}
use employee_tracker.Spool.Keeps.{Keeps, keeps_rules, Keeps-call, Keeps-answer}
use employee_tracker.Spool.Looking.{
  in_directories-Keeps, open_record-Keeps, touch-Keeps, name_exists-Keeps, fsync_directory-Keeps,
}
use employee_tracker.Spool.Auxiliary.{
  IsHidden, Robust, unlink_name-Keeps, acquire_artifact_guard-Keeps, release_artifact_guard-Keeps,
  acquire_reservation-Keeps, release_reservation-Keeps, create_file-keeps,
}
use employee_tracker.Spool.Learns.{
  From-by, From-bind, Keeps-From, Learns, Learns-bind, Learns-Keeps, Learns-pure,
}
use employee_tracker.Spool.Seen.{Learns-call}
use employee_tracker.Spool.Retained.{descriptor_digest-Keeps}

module _ {J : Disk → Type 0} (os : System) (h : Hashes) (j : Codec) where
  pub read_all-Keeps : (i : ℕ) → Keeps J (read_all os h j i)
  unfolding read_all
  read_all-Keeps i = search keeps_rules

  pub decode_operation_marker-Keeps : (n : Name) → Keeps J (decode_operation_marker os h j n)
  unfolding decode_operation_marker
  decode_operation_marker-Keeps n =
      search (keeps_rules, open_record-Keeps os, read_all-Keeps, touch-Keeps os) depth 10

  pub read_operation_marker-Keeps :
      (n : Name) (source suffix : String) → Keeps J (read_operation_marker os h j n source suffix)
  unfolding read_operation_marker
  read_operation_marker-Keeps n source suffix =
      search (keeps_rules, name_exists-Keeps os, decode_operation_marker-Keeps) depth 10

  pub validate_dead_letter_destination-Keeps :
      (destination expected : String)
      → Keeps J (validate_dead_letter_destination os h j destination expected)
  unfolding validate_dead_letter_destination
  validate_dead_letter_destination-Keeps destination expected =
      search (keeps_rules, open_record-Keeps os, descriptor_digest-Keeps os h j, touch-Keeps os)
        depth 10

  pub destination_matches_digest-Keeps :
      (destination expected : String)
      → Keeps J (destination_matches_digest os h j destination expected)
  unfolding destination_matches_digest
  destination_matches_digest-Keeps destination expected =
      search (keeps_rules, validate_dead_letter_destination-Keeps) depth 10

module _ {J : Disk → Type 0} {W : ℕ → Type 0} (robust : Robust J W) (os : System) where
  create_file-told :
      (f : Folder) (n : Name) (d : Disk) (i : ℕ) → J d → (create_file f n d).0 ≡ ok i → W i
  unfolding create_file
  create_file-told f n d i p = elim (Bool-cases (is_some (find n (names f d)))) [
    | inl e ↦ rw (create_file, e) (λ r. cc)
    | inr e ↦
        rw (create_file, e) (λ r. let same : d.next ≡ i = cc in subst W same (robust.fresh d p))
  ]

  -- A new temporary file is one that may be written.
  pub Learns-make_temporary :
      (f : Folder) (name : String → Name)
      → ((r : String) → IsHidden (name r))
      → Learns J (λ d. Unit {0}) (make_temporary os f name) λ a d. IsHidden a.0 × W a.1
  unfolding make_temporary
  Learns-make_temporary f name hidden =
      Learns-bind (λ r d. Unit {0}) _ _ _ (Learns-Keeps _ (Keeps-answer os os.random))
        λ r.
          Learns-bind (λ i d. W i) _ _ _
            (Learns-call os (λ i d. W i) (create_file f (name r))
              (λ d p u. create_file-keeps robust os f (name r) d (hidden r) p)
              λ d i p u e. create_file-told f (name r) d i p e)
            λ i. Learns-pure _ (name r, i) λ d w. (hidden r, w)

  pub write_all-Keeps : (i : ℕ) (content : String) → W i → Keeps J (write_all os i content)
  unfolding write_all
  write_all-Keeps i content w =
      let written : (c : String) → Keeps J (call os (write_file i c)) =
        λ c. Keeps-call os (write_file i c) (λ d p. robust.written i c d w p) in
      search keeps_rules depth 8

  replace_file-keeps :
      (f : Folder) (n m : Name) (d : Disk)
      → IsHidden n
      → IsHidden m
      → J d
      → J (replace_file f n f m d).1
  unfolding replace_file
  replace_file-keeps f n m d hidden hidden_too p = elim (Option-cases (find n (names f d))) [
    | inl e ↦ rw (e, replace_file) p
    | inr (i, e) ↦ rw (e, replace_file) (robust.moved f n m i d hidden hidden_too p)
  ]

  replace_name-Keeps :
      (f : Folder) (n m : Name) → IsHidden n → IsHidden m → Keeps J (replace_name os f n f m)
  unfolding replace_name
  replace_name-Keeps f n m hidden hidden_too =
      in_directories-Keeps os _
        (Keeps-call os (replace_file f n f m) λ d p. replace_file-keeps f n m d hidden hidden_too p)

  module _ (h : Hashes) (j : Codec) where
    fill_marker-Keeps :
        (n : Name) (encoded : String) (b : Bool) (temporary : Name) (i : ℕ)
        → IsHidden n
        → IsHidden temporary
        → W i
        → Keeps J (fill_marker os h j n encoded b temporary i)
    unfolding fill_marker
    fill_marker-Keeps n encoded b temporary i hidden hidden_too w =
        search
          (
            keeps_rules,
            touch-Keeps os,
            unlink_name-Keeps robust os,
            write_all-Keeps,
            name_exists-Keeps os,
            replace_name-Keeps,
            fsync_directory-Keeps os,
          )
          depth 14

    pub persist_operation_marker-Keeps :
        (n : Name) (m : Marker) (b : Bool)
        → IsHidden n
        → Keeps J (persist_operation_marker os h j n m b)
    unfolding persist_operation_marker
    persist_operation_marker-Keeps n m b hidden =
        let filled = Keeps-From _ (
          From-bind (λ a d. IsHidden a.0 × W a.1) _ _
            (Learns-make_temporary dead_letter (λ r. record { kind = marker_temp; text = r })
              λ r. refl)
            λ (temporary, i).
              From-by (IsHidden temporary × W i) _
                λ w. fill_marker-Keeps n (j.dumps (marker_value m)) b temporary i hidden w.0 w.1) in
        search
          (
            keeps_rules,
            acquire_artifact_guard-Keeps robust os h,
            release_artifact_guard-Keeps robust os h,
          )
          depth 10

    pub reserve_from-Keeps :
        (left : ℕ) (canonical : String) (number : ℕ)
        → Keeps J (reserve_from os h j left canonical number)
    unfolding reserve_from
    reserve_from-Keeps zero canonical number = search keeps_rules
    reserve_from-Keeps (suc left) canonical number =
        let again = reserve_from-Keeps left canonical (suc number) in
        let reserved =
          acquire_reservation-Keeps robust os h dead_letter
            (reservation_name os h j (numbered_name j canonical number)) refl in
        let released = λ (i : ℕ).
          release_reservation-Keeps robust os h dead_letter
            (reservation_name os h j (numbered_name j canonical number)) (some i) refl in
        search (keeps_rules, name_exists-Keeps os) depth 12

    pub reserve_dead_letter_destination-Keeps :
        (source suffix : String) → Keeps J (reserve_dead_letter_destination os h j source suffix)
    unfolding reserve_dead_letter_destination
    reserve_dead_letter_destination-Keeps source suffix = reserve_from-Keeps _ _ 0
