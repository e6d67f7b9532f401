-- ===== src/Spool/Moving.antt =====
-- A record that is held stays held while monitor_agent/spool.py moves records to the dead letters.
use employee_tracker.Common.{refl, Bool, true, Option, some, ℕ, zero, suc, String}
use employee_tracker.Spool.Disk.{Name, dead_letter, Disk}
use employee_tracker.Spool.Calls.{System}
use employee_tracker.Spool.Guards.{Hashes}
use employee_tracker.Spool.Markers.{
  Codec, Marker, destination_lock_name, text_name, marker_name, operation_lock_name,
  reservation_name,
}
use employee_tracker.Spool.DeadLetter.{
  get_lease, set_lease, validated_record_stat, pending_path, release_lease, drop_lease, Move,
  choose_destination, lease_destination, publish_record, commit_move, already_there, move_loop,
  move_locked, move_opened, move_to_dead_letter,
}
use employee_tracker.Spool.Keeps.{Keeps, keeps_rules}
use employee_tracker.Spool.Looking.{
  open_record-Keeps, touch-Keeps, name_exists-Keeps, path_exists-Keeps, stat_if_there-Keeps,
  fsync_directory-Keeps, open_name_matches-Keeps, lock_descriptor-Keeps, close_with_retry-Keeps,
}
use employee_tracker.Spool.Auxiliary.{Robust, acquire_reservation-Keeps, release_reservation-Keeps}
use employee_tracker.Spool.Marking.{
  read_operation_marker-Keeps, validate_dead_letter_destination-Keeps,
  destination_matches_digest-Keeps, persist_operation_marker-Keeps,
  reserve_dead_letter_destination-Keeps,
}
use employee_tracker.Spool.Retained.{descriptor_digest-Keeps, publish_noreplace-Held}
use employee_tracker.Spool.Held.{Held, Held-Robust}

module _ {J : Disk → Type 0} where
  get_lease-Keeps : Keeps J get_lease
  unfolding get_lease
  get_lease-Keeps = record { at = λ s h. h }

  set_lease-Keeps : (l : Option (String × ℕ)) → Keeps J (set_lease l)
  unfolding set_lease
  set_lease-Keeps l = record { at = λ s h. h }

  pub validated_record_stat-Keeps : (os : System) (n : Name) → Keeps J (validated_record_stat os n)
  unfolding validated_record_stat
  validated_record_stat-Keeps os n = search (keeps_rules, stat_if_there-Keeps os)

  pub pending_path-Keeps : (os : System) (n : Name) → Keeps J (pending_path os n)
  unfolding pending_path
  pending_path-Keeps os n =
      search (keeps_rules, path_exists-Keeps os, validated_record_stat-Keeps os) depth 8

module _ {J : Disk → Type 0} {W : ℕ → Type 0} (robust : Robust J W) (os : System) (h : Hashes)
    (j : Codec) where
  release_lease-Keeps : Keeps J (release_lease os h j)
  unfolding release_lease
  release_lease-Keeps =
      let released = λ (n : String) (i : ℕ).
        release_reservation-Keeps robust os h dead_letter (destination_lock_name n) (some i) refl in
      search (keeps_rules, get_lease-Keeps) depth 8

  drop_lease-Keeps : Keeps J (drop_lease os h j)
  unfolding drop_lease
  drop_lease-Keeps = search (keeps_rules, release_lease-Keeps, set_lease-Keeps)

  choose_destination-Keeps : (m : Move) (b : Bool) → Keeps J (choose_destination os h j m b)
  unfolding choose_destination
  choose_destination-Keeps m b =
      let persisted = λ (t : Marker).
        persist_operation_marker-Keeps robust os h j (marker_name m.operation) t b refl in
      search
        (
          keeps_rules,
          reserve_dead_letter_destination-Keeps robust os h j,
          set_lease-Keeps,
          drop_lease-Keeps,
        )
        depth 10

  lease_destination-Keeps : (s : String) → Keeps J (lease_destination os h j s)
  unfolding lease_destination
  lease_destination-Keeps s =
      let reserved =
        acquire_reservation-Keeps robust os h dead_letter (reservation_name os h j s) refl in
      search (keeps_rules, get_lease-Keeps, set_lease-Keeps, name_exists-Keeps os) depth 10

  commit_move-Keeps : (m : Move) (s : String) → Keeps J (commit_move os h j m s)
  unfolding commit_move
  commit_move-Keeps m s =
      let persisted = λ (t : Marker).
        persist_operation_marker-Keeps robust os h j (marker_name m.operation) t true refl in
      search (keeps_rules, fsync_directory-Keeps os, validate_dead_letter_destination-Keeps os h j)
        depth 10

  already_there-Keeps : (m : Move) (s : String) (b : Bool) → Keeps J (already_there os h j m s b)
  unfolding already_there
  already_there-Keeps m s b =
      search (keeps_rules, name_exists-Keeps os, destination_matches_digest-Keeps os h j) depth 10

module _ {o : Option Name} {i : ℕ} {c : String} (os : System) (h : Hashes) (j : Codec) where
  publish_record-Held : (m : Move) (s : String) → Keeps (Held o i c) (publish_record os h j m s)
  unfolding publish_record
  publish_record-Held m s =
      let published =
        publish_noreplace-Held {o = o} {i = i} {c = c} os (text_name m.source) (text_name s) refl in
      search (keeps_rules, drop_lease-Keeps Held-Robust os h j) depth 10

  move_loop-Held :
      (fuel : ℕ) (m : Move) (s : String) (b : Bool)
      → Keeps (Held o i c) (move_loop os h j fuel m s b)
  unfolding move_loop
  move_loop-Held zero m s b = search keeps_rules
  move_loop-Held (suc fuel) m s b =
      let again : (t : String) (b : Bool) → Keeps (Held o i c) (move_loop os h j fuel m t b) =
        λ t b. move_loop-Held fuel m t b in
      search
        (
          keeps_rules,
          already_there-Keeps Held-Robust os h j,
          drop_lease-Keeps Held-Robust os h j,
          choose_destination-Keeps Held-Robust os h j,
          lease_destination-Keeps Held-Robust os h j,
          open_name_matches-Keeps os,
          publish_record-Held,
          commit_move-Keeps Held-Robust os h j,
        )
        depth 16

  move_locked-Held : (fuel : ℕ) (m : Move) → Keeps (Held o i c) (move_locked os h j fuel m)
  unfolding move_locked
  move_locked-Held fuel m =
      search
        (
          keeps_rules,
          read_operation_marker-Keeps os h j,
          choose_destination-Keeps Held-Robust os h j,
          move_loop-Held,
        )
        depth 10

  move_opened-Held :
      (fuel : ℕ) (source suffix : String) (k : ℕ)
      → Keeps (Held o i c) (move_opened os h j fuel source suffix k)
  unfolding move_opened
  move_opened-Held fuel source suffix k =
      let lock = operation_lock_name (h.operation_id source suffix) in
      let reserved =
        acquire_reservation-Keeps (Held-Robust {o = o} {i = i} {c = c}) os h dead_letter lock
          refl in
      let released = λ (l : ℕ).
        release_reservation-Keeps (Held-Robust {o = o} {i = i} {c = c}) os h dead_letter lock
          (some l) refl in
      search
        (
          keeps_rules,
          touch-Keeps os,
          descriptor_digest-Keeps os h j,
          set_lease-Keeps,
          move_locked-Held,
          release_lease-Keeps Held-Robust os h j,
        )
        depth 16

  pub move_to_dead_letter-Held :
      (fuel : ℕ) (source suffix : String)
      → Keeps (Held o i c) (move_to_dead_letter os h j fuel source suffix)
  unfolding move_to_dead_letter
  move_to_dead_letter-Held fuel source suffix =
      search
        (
          keeps_rules,
          pending_path-Keeps os,
          open_record-Keeps os,
          lock_descriptor-Keeps os,
          touch-Keeps os,
          move_opened-Held,
          close_with_retry-Keeps os,
        )
        depth 12
