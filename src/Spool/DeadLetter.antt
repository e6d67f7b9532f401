-- ===== src/Spool/DeadLetter.antt =====
-- `_pending_path` and `_move_to_dead_letter` of monitor_agent/spool.py.
use employee_tracker.Common.{
  Result, ℕ, zero, suc, String, Bool, true, false, not, ◌||◌, Option, none, some, Error,
  other_error, value_error, os_error, str_eq, ◌==◌, if◌then◌else◌,
}
use employee_tracker.Identity.{is_taken}
use employee_tracker.Spool.Disk.{Name, pending, root, dead_letter, Stat, same_kind, is_regular}
use employee_tracker.Spool.Calls.{
  System, branch◌then◌else◌, Io, pure, throw, catch, finally, on_error, with_option, fail, ◌>>=◌,
  ◌>>◌, touch, stat_if_there, open_record, name_exists, path_exists, open_name_matches,
  publish_noreplace, fsync_directory, lock_descriptor, close_with_retry,
}
use employee_tracker.Spool.Guards.{Hashes, acquire_reservation, release_reservation}
use employee_tracker.Spool.Markers.{
  Codec, Marker, destination_lock_name, text_name, marker_name, operation_lock_name,
  read_operation_marker, persist_operation_marker, descriptor_digest,
  validate_dead_letter_destination, destination_matches_digest, reservation_name,
  reserve_dead_letter_destination,
}

unfoldable pub get_lease : Io (Option (String × ℕ))
get_lease s = (Result.ok s.lease, s)

unfoldable pub set_lease : Option (String × ℕ) → Io (Unit {0})
set_lease l s = (Result.ok tt, record s { lease = l })

-- Any exception of the run of the model that the program does not have: its fuel is spent.
abbrev pub out_of_fuel : Error
out_of_fuel = record { class = other_error; message = "out of fuel" }

-- The parts of the operation that its loop does not change.
pub record Move : Type 0 where
  pub source : String
  pub suffix : String
  pub descriptor : ℕ
  pub digest : String
  pub operation : String

module _ (os : System) where
  -- `_validated_record_stat`
  unfoldable pub validated_record_stat : Name → Io Stat
  validated_record_stat n = stat_if_there os root n >>= λ found.
      with_option found (fail value_error "not a pending spool record") λ st.
        branch not (is_regular st.type) || not (st.nlink == 1)
        then fail value_error "not a pending spool record"
        else pure st

  -- `_pending_path`, of a path in the spool's directory
  unfoldable pub pending_path : Name → Io (Unit {0})
  pending_path n =
      branch not (same_kind n.kind pending)
      then fail value_error "not a pending spool record"
      else path_exists os root n >>= λ there.
          branch there then validated_record_stat n >> pure tt else pure tt

module _ (os : System) (h : Hashes) (j : Codec) where
  -- `_release_reservation` of the destination's lock
  unfoldable pub release_lease : Io (Unit {0})
  release_lease = get_lease >>= λ l.
      with_option l (pure tt)
        λ (lock, i). release_reservation os h dead_letter (destination_lock_name lock) (some i)

  -- ... and `destination_lock = None`
  unfoldable pub drop_lease : Io (Unit {0})
  drop_lease = release_lease >> set_lease none

  abbrev marker_of : Move → String → Bool → Marker
  marker_of m destination committed = record {
    source = m.source;
    suffix = m.suffix;
    destination = destination;
    digest = m.digest;
    committed = committed;
  }

  -- A reserved destination, and its marker on disk.
  unfoldable pub choose_destination : Move → Bool → Io String
  choose_destination m replace_existing =
      reserve_dead_letter_destination os h j m.source m.suffix >>= λ (destination, lock, i).
      set_lease (some (lock.text, i))
      >> on_error
          (persist_operation_marker os h j (marker_name m.operation) (marker_of m destination false)
            replace_existing)
          drop_lease
      >> pure destination

  -- The lock of the destination, where the operation has none: whether it has it now, and `none`
  -- where the destination is there meanwhile.
  unfoldable pub lease_destination : String → Io Bool
  lease_destination destination = get_lease >>= λ l.
      with_option l
        (acquire_reservation os h dead_letter (reservation_name os h j destination) >>= λ got.
          with_option got
            (name_exists os dead_letter (text_name destination) >>= λ there.
              branch there then pure false else fail os_error "dead-letter destination is reserved")
            λ i. set_lease (some (h.reservation destination, i)) >> pure true)
        λ held. pure true

  -- `_publish_noreplace` of the record: false for a FileExistsError
  unfoldable pub publish_record : Move → String → Io Bool
  publish_record m destination =
      catch
        (publish_noreplace os root (text_name m.source) dead_letter (text_name destination)
          >> pure true)
        λ e. branch is_taken e.class then drop_lease >> pure false else throw e

  -- What follows the publication.
  unfoldable pub commit_move : Move → String → Io String
  commit_move m destination =
      fsync_directory os
      >> fsync_directory os
      >> validate_dead_letter_destination os h j destination m.digest
      >> persist_operation_marker os h j (marker_name m.operation) (marker_of m destination true)
          true
      >> pure destination

  -- `_name_exists`, and for a committed marker whether the destination is the record already
  unfoldable pub already_there : Move → String → Bool → Io (Bool × Bool)
  already_there m destination committed =
      name_exists os dead_letter (text_name destination) >>= λ there.
      branch not there
      then pure (false, false)
      else branch committed
      then (destination_matches_digest os h j destination m.digest >>= λ same. pure (true, same))
      else pure (true, false)

  -- The `while True` loop, with fuel for its rounds.
  unfoldable pub move_loop : ℕ → Move → String → Bool → Io String
  move_loop zero m destination committed = throw out_of_fuel
  move_loop (suc fuel) m destination committed =
      already_there m destination committed >>= λ (there, done).
      branch done
      then pure destination
      else branch there
      then (drop_lease >> choose_destination m true >>= λ other. move_loop fuel m other false)
      else lease_destination destination >>= λ leased.
          branch not leased
          then move_loop fuel m destination committed
          else open_name_matches os root (text_name m.source) m.descriptor >>= λ unchanged.
              branch not unchanged
              then fail value_error "dead-letter source changed before commit"
              else publish_record m destination >>= λ published.
                  branch published
                  then commit_move m destination
                  else move_loop fuel m destination committed

  -- The operation under its lock.
  unfoldable pub move_locked : ℕ → Move → Io String
  move_locked fuel m =
      read_operation_marker os h j (marker_name m.operation) m.source m.suffix >>= λ found.
      with_option found
        (choose_destination m false >>= λ destination. move_loop fuel m destination false)
        λ (destination, digest, committed).
          branch not (str_eq digest m.digest)
          then fail value_error "dead-letter operation marker does not match source content"
          else move_loop fuel m destination committed

  -- The inner `try`, once the source is open and locked.
  unfoldable pub move_opened : ℕ → String → String → ℕ → Io String
  move_opened fuel source suffix i = touch os >> descriptor_digest os h j i >>= λ digest.
      let operation = h.operation_id source suffix in
      acquire_reservation os h dead_letter (operation_lock_name operation) >>= λ got.
      with_option got (fail os_error "dead-letter operation is already in progress") λ lock.
        set_lease none
        >> finally
            (move_locked fuel (record {
              source = source;
              suffix = suffix;
              descriptor = i;
              digest = digest;
              operation = operation;
            }))
            (release_lease
              >> release_reservation os h dead_letter (operation_lock_name operation) (some lock))

  -- `_move_to_dead_letter`
  unfoldable pub move_to_dead_letter : ℕ → String → String → Io String
  move_to_dead_letter fuel source suffix =
      pending_path os (text_name source) >> open_record os root (text_name source) >>= λ i.
      on_error (lock_descriptor os) (touch os)
      >> finally (move_opened fuel source suffix i) (close_with_retry os)
