-- ===== src/Spool/Queue.antt =====
-- The public operations of monitor_agent/spool.py on the two directories. Each begins with `_prepare`.
use employee_tracker.Common.{
  ℕ, zero, suc, ◌+◌, ◌-◌, ◌*◌, String, Bool, true, false, not, ◌&&◌, Option, none, some, List, [],
  ◌∷◌, Result, os_error, leb, ◌==◌, if◌then◌else◌,
}
use employee_tracker.Common.Int.{ℤ, pos, ◌-ℤ◌, ltb_ℤ}
use employee_tracker.Identity.{is_os_error, is_taken}
use employee_tracker.Models.{Json, Fields, dict, RetentionResult}
use employee_tracker.Spool.Store.{
  Entry, Clerk, record_name, valid_payload, record_time, pending_paths, total_size,
}
use employee_tracker.Spool.Disk.{
  Name, pending, staged, publish_lock, Folder, root, dead_letter, Disk, Names, names, links,
  same_kind, is_regular, look,
}
use employee_tracker.Spool.Calls.{
  System, branch◌then◌else◌, Io, pure, throw, lift, catch, finally, on_error, suppress, with_option,
  when, fail, ◌>>=◌, ◌>>◌, call, touch, name_exists, path_exists, open_record, unlink_name,
  publish_noreplace, make_temporary, write_all, fsync_directory, lock_descriptor, close_with_retry,
}
use employee_tracker.Spool.Guards.{
  Hashes, for_each, acquire_artifact_guard, release_artifact_guard, acquire_reservation,
  release_reservation,
}
use employee_tracker.Spool.Markers.{
  Codec, text_name, marker_name, numbered_name, dead_letter_name, read_operation_marker, read_all,
  validate_dead_letter_destination,
}
use employee_tracker.Spool.DeadLetter.{validated_record_stat, pending_path, move_to_dead_letter}
use employee_tracker.Spool.Recovery.{prepare}

abbrev pub spool_file : Name
spool_file = record { kind = staged; text = "" }

abbrev pub publish_lock_name : Hashes → String → Name
publish_lock_name h destination = record { kind = publish_lock; text = h.reservation destination }

-- What `lstat` and reading tell of the records in a directory, with `_is_regular_file`; `size` gives
-- the bytes of a content.
abbrev entry_of : (String → ℕ) → Codec → Disk → String → ℕ → Entry
entry_of size j d n i = record {
  name = n;
  regular = is_regular (d.nodes i).type && links i d == 1;
  size = size (d.nodes i).content;
  mtime = (d.nodes i).mtime;
  content = j.loads (d.nodes i).content;
}

unfoldable pub entries : (String → ℕ) → Codec → Disk → Names → List Entry
entries size j d [] = []
entries size j d ((n, i) ∷ es) =
    let rest = entries size j d es in
    if same_kind n.kind pending then entry_of size j d n.text i ∷ rest else rest

module _ (os : System) (h : Hashes) (j : Codec) (k : Clerk) (size : String → ℕ) where
  -- `_unlink_if_exists`
  unfoldable pub unlink_if_exists : Folder → Name → Io (Unit {0})
  unlink_if_exists f n = unlink_name os f n

  -- The `try` of `_write_staged`, behind the new file.
  unfoldable pub fill_staged : String → Name → ℕ → Io (Unit {0})
  fill_staged encoded temporary i =
      on_error
        (lock_descriptor os
          >> touch os
          >> touch os
          >> finally (write_all os i encoded >> touch os) (touch os))
        (suppress (
          finally (close_with_retry os) (
            finally (unlink_if_exists root temporary)
              (release_artifact_guard os h root spool_file))))

  -- `_write_staged`
  unfoldable pub write_staged : String → Io (Name × ℕ)
  write_staged encoded = acquire_artifact_guard os h root spool_file true >>= λ got.
      branch not got
      then fail os_error "spool artifact guard is busy"
      else on_error (make_temporary os root (λ r. record { kind = staged; text = r }))
          (release_artifact_guard os h root spool_file)
        >>= λ (temporary, i). fill_staged encoded temporary i >> pure (temporary, i)

  -- The `try` of `_publish_staged` for one name: false for a FileExistsError
  unfoldable pub publish_as : Name → String → ℕ → Io Bool
  publish_as temporary destination reservation =
      catch
        (publish_noreplace os root temporary root (text_name destination)
          >> fsync_directory os
          >> pure true)
        λ e.
          branch is_taken e.class
          then release_reservation os h root (publish_lock_name h destination) (some reservation)
            >> pure false
          else suppress (close_with_retry os)
            >> suppress (release_artifact_guard os h root (publish_lock_name h destination))
            >> throw e

  -- The loop of `_publish_staged`, by the numbers that are left.
  unfoldable pub publish_from : ℕ → Name → String → ℕ → Io String
  publish_from zero temporary name number = fail os_error "could not publish a unique spool record"
  publish_from (suc left) temporary name number =
      let destination = numbered_name j name number in
      acquire_reservation os h root (publish_lock_name h destination) >>= λ got.
      with_option got (publish_from left temporary name (suc number)) λ reservation.
        publish_as temporary destination reservation >>= λ published.
        branch published
        then release_reservation os h root (publish_lock_name h destination) (some reservation)
          >> pure destination
        else publish_from left temporary name (suc number)

  -- `_publish_staged`
  unfoldable pub publish_staged : Name → String → Io String
  publish_staged temporary name = publish_from 1000000 temporary name 0

  -- `_pending_paths`, with what `lstat` says of each
  unfoldable pub pending_entries : Io (List Entry)
  pending_entries = call os (look λ d. pending_paths k (entries size j d (names root d)))

  -- `_validated_record_stat` and `_unlink_name` of a record
  unfoldable pub evict_record : Entry → Io (Unit {0})
  evict_record e =
      validated_record_stat os (text_name e.name) >> unlink_name os root (text_name e.name)

  -- The first loop of `enforce_retention`: the records and the bytes that are evicted.
  unfoldable pub drop_expired : ℤ → List Entry → ℕ → ℕ → Io (ℕ × ℕ)
  drop_expired cutoff [] count bytes = pure (count, bytes)
  drop_expired cutoff (e ∷ es) count bytes =
      branch ltb_ℤ (record_time k e) cutoff
      then evict_record e >> drop_expired cutoff es (suc count) (bytes + e.size)
      else drop_expired cutoff es count bytes

  -- The second loop, by the bytes that are pending.
  unfoldable pub drop_oldest : ℕ → ℕ → List Entry → ℕ → ℕ → Io (ℕ × ℕ)
  drop_oldest max_bytes pending_bytes [] count bytes = pure (count, bytes)
  drop_oldest max_bytes pending_bytes (e ∷ es) count bytes =
      branch leb pending_bytes max_bytes
      then pure (count, bytes)
      else evict_record e
        >> drop_oldest max_bytes (pending_bytes - e.size) es (suc count) (bytes + e.size)

  -- `enforce_retention` at an instant in microseconds
  unfoldable pub retain_records : ℕ → ℕ → ℤ → Io RetentionResult
  retain_records max_bytes max_age_sec now = prepare os h j >> pending_entries >>= λ first.
      drop_expired (now -ℤ pos (max_age_sec * 1000000)) first 0 0 >>= λ (count, bytes).
      pending_entries >>= λ records.
      for_each records (λ e. validated_record_stat os (text_name e.name) >> pure tt)
      >> drop_oldest max_bytes (total_size records) records count bytes
      >>= λ (total, size).
          when (not (total == 0)) (fsync_directory os)
          >> pure (record { evicted_count = total; evicted_bytes = size })

  -- `enqueue` from the staged file on
  unfoldable pub publish_or_undo : String → Name → Io String
  publish_or_undo name temporary = on_error (publish_staged temporary name) (
      suppress (finally (close_with_retry os) (unlink_name os root temporary))
      >> suppress (release_artifact_guard os h root spool_file))

  -- `enqueue` of an encoded payload, without the retention at its end
  unfoldable pub store_record : String → String → Io String
  store_record name encoded = prepare os h j >> write_staged encoded >>= λ (temporary, i).
      publish_or_undo name temporary >>= λ destination.
      finally (close_with_retry os) (release_artifact_guard os h root spool_file)
      >> pure destination

  -- `enqueue` at an instant; `serialized` is `_serialize` of the payload
  unfoldable pub enqueue : ℕ → ℕ → ℤ → Json → Result String → Io String
  enqueue max_bytes max_age_sec now payload serialized =
      lift (record_name k payload now) >>= λ name. lift serialized >>= λ encoded.
      store_record name encoded >>= λ destination.
      retain_records max_bytes max_age_sec now >> pure destination

  -- `pending`
  unfoldable pub list_pending : Io (List Entry)
  list_pending = prepare os h j >> pending_entries

  -- `_read_record`, where an OSError, a JSONDecodeError and a UnicodeDecodeError are caught
  unfoldable pub read_if_possible : String → Io (Option Json)
  read_if_possible n =
      catch
        (open_record os root (text_name n) >>= λ i.
          finally (read_all os h j i) (touch os) >>= λ text. pure (j.loads text))
        λ e. branch is_os_error e.class then pure none else throw e

  abbrev as_payload : Json → Option Fields
  as_payload (dict d) = some d
  as_payload _ = none

  -- `load`
  unfoldable pub load : ℕ → String → Io (Option Fields)
  load fuel n =
      prepare os h j
      >> pending_path os (text_name n)
      >> path_exists os root (text_name n)
      >>= λ there.
          branch not there
          then pure none
          else read_if_possible n >>= λ decoded.
              with_option decoded (move_to_dead_letter os h j fuel n "" >> pure none) λ value.
                branch valid_payload k value
                then pure (as_payload value)
                else move_to_dead_letter os h j fuel n "" >> pure none

  -- `ack`
  unfoldable pub ack : String → Io (Unit {0})
  ack n =
      prepare os h j
      >> pending_path os (text_name n)
      >> path_exists os root (text_name n)
      >>= λ there. when there (
          validated_record_stat os (text_name n)
          >> unlink_name os root (text_name n)
          >> fsync_directory os)

  -- `_existing_rejection`
  unfoldable pub existing_rejection : String → Io String
  existing_rejection n =
      read_operation_marker os h j (marker_name (h.operation_id n ".rejected")) n ".rejected"
      >>= λ found.
          with_option found (pure (dead_letter_name h n ".rejected"))
            λ (destination, digest, committed).
              name_exists os dead_letter (text_name destination) >>= λ there.
              when there (validate_dead_letter_destination os h j destination digest)
              >> pure destination

  -- `reject`
  unfoldable pub reject : ℕ → String → Io String
  reject fuel n =
      prepare os h j
      >> pending_path os (text_name n)
      >> path_exists os root (text_name n)
      >>= λ there.
          branch there then move_to_dead_letter os h j fuel n ".rejected" else existing_rejection n
