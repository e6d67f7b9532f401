-- ===== src/Tests/Evicting.antt =====
-- A retention on two concrete records.
use employee_tracker.Common.{◌≡◌, refl, ok, ◌*◌}
use employee_tracker.Common.Sort.{sorted}
use employee_tracker.Common.Int.{pos, ◌-ℤ◌}
use employee_tracker.Models.{RetentionResult}
use employee_tracker.Spool.Disk.{
  find, remove, uses, open_file, create_file, open_or_create, unlink_file, stat_name, link_file,
  rename_file, replace_file, write_file,
}
use employee_tracker.Spool.Calls.{
  pure, throw, lift, ◌>>=◌, catch, finally, on_error, branch◌then◌else◌, suppress, when,
  with_option, call, answer, touch, in_directory, in_directories, open_name, file_stat,
  stat_if_there, name_exists, path_exists, unlink_name, open_name_matches, unlink_open_name,
  fsync_directory, lock_descriptor, try_lock_descriptor, close_locked_descriptor, close_with_retry,
  close_by, open_record, linux_rename_noreplace, publish_noreplace, replace_name, make_temporary,
  write_all,
}
use employee_tracker.Spool.Guards.{
  depth_of, without_key, guard_depth, set_guard, drop_guard, artifact_guard_name, for_each,
  take_lock, open_guard, acquire_artifact_guard, release_artifact_guard, under_lock, under_guard,
  open_if_possible, cleanup_stale_hidden_file, create_if_absent, reserve_within,
  acquire_reservation, release_reservation, list_names, cleanup_folder, cleanup_hidden_artifacts,
}
use employee_tracker.Spool.Markers.{
  numbered_name, dead_letter_name, is_record_name, is_digest, marker_fields, checked_marker,
  decoded_fields, read_all, decode_operation_marker, read_operation_marker, fill_marker,
  persist_operation_marker, descriptor_digest, validate_dead_letter_destination,
  destination_matches_digest, reserve_from, reserve_dead_letter_destination,
}
use employee_tracker.Spool.DeadLetter.{
  get_lease, set_lease, validated_record_stat, pending_path, release_lease, drop_lease,
  choose_destination, lease_destination, publish_record, commit_move, already_there, move_loop,
  move_locked, move_opened, move_to_dead_letter,
}
use employee_tracker.Spool.Recovery.{
  filter_calls, recovery_marker, is_other_link, recover_pending_link, recover_pending_links,
  open_if_there, unlink_moved, recover_dead_letter_link, recover_dead_letter_links,
  ensure_directory, ensure_directories, prepare,
}
use employee_tracker.Spool.Queue.{
  entries, unlink_if_exists, fill_staged, write_staged, publish_as, publish_from, publish_staged,
  pending_entries, evict_record, drop_expired, drop_oldest, retain_records, publish_or_undo,
  store_record, enqueue, list_pending, read_if_possible, load, ack, existing_rejection, reject,
}
use employee_tracker.Spool.Store.{
  check_limits, is_record, timestamp, record_name, valid_payload, record_time, older, pending_paths,
  total_size,
}
use employee_tracker.Spool.Still.{IsTruthful}
use employee_tracker.Spool.Listing.{Retained}
use employee_tracker.Spool.Retains.{first_half, retain_records-Retained}
use employee_tracker.Tests.Spooling.{quiet, digests, one_value, clerk, bytes, started}

quiet-IsTruthful : IsTruthful quiet
quiet-IsTruthful = record { truthful = λ n e h. cc }

abbrev one_gone : RetentionResult
one_gone = record { evicted_count = 1; evicted_bytes = 1 }

one_evicted :
    (retain_records quiet digests one_value clerk bytes 1 100 (pos 0) started).0 ≡ ok one_gone
unfolding sorted ◌-ℤ◌ find remove uses open_file create_file open_or_create unlink_file stat_name
    link_file rename_file replace_file write_file pure throw lift ◌>>=◌ catch finally on_error
    branch◌then◌else◌ suppress when with_option call answer touch in_directory in_directories
    open_name file_stat stat_if_there name_exists path_exists unlink_name open_name_matches
    unlink_open_name fsync_directory lock_descriptor try_lock_descriptor close_locked_descriptor
    close_with_retry close_by open_record linux_rename_noreplace publish_noreplace replace_name
    make_temporary write_all depth_of without_key guard_depth set_guard drop_guard
    artifact_guard_name for_each take_lock open_guard acquire_artifact_guard release_artifact_guard
    under_lock under_guard open_if_possible cleanup_stale_hidden_file create_if_absent
    reserve_within acquire_reservation release_reservation list_names cleanup_folder
    cleanup_hidden_artifacts numbered_name dead_letter_name is_record_name is_digest marker_fields
    checked_marker decoded_fields read_all decode_operation_marker read_operation_marker fill_marker
    persist_operation_marker descriptor_digest validate_dead_letter_destination
    destination_matches_digest reserve_from reserve_dead_letter_destination get_lease set_lease
    validated_record_stat pending_path release_lease drop_lease choose_destination lease_destination
    publish_record commit_move already_there move_loop move_locked move_opened move_to_dead_letter
    filter_calls recovery_marker is_other_link recover_pending_link recover_pending_links
    open_if_there unlink_moved recover_dead_letter_link recover_dead_letter_links ensure_directory
    ensure_directories prepare entries unlink_if_exists fill_staged write_staged publish_as
    publish_from publish_staged pending_entries evict_record drop_expired drop_oldest retain_records
    publish_or_undo store_record enqueue list_pending read_if_possible load ack existing_rejection
    reject check_limits is_record timestamp record_name valid_payload record_time older
    pending_paths total_size
one_evicted = refl

retain_records-Retained_example :
    Retained one_value clerk bytes 1
      (pos 0 -ℤ pos (100 * 1000000))
      (prepare quiet digests one_value started).1.disk
      (first_half quiet digests one_value clerk bytes quiet-IsTruthful
        (pos 0 -ℤ pos (100 * 1000000))
        started).1.disk
      (retain_records quiet digests one_value clerk bytes 1 100 (pos 0) started).1.disk
      one_gone
retain_records-Retained_example =
    retain_records-Retained quiet digests one_value clerk bytes quiet-IsTruthful 1 100 (pos 0)
      started one_gone one_evicted
