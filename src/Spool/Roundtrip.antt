-- ===== src/Spool/Roundtrip.antt =====
-- The two readers of an operation's marker in monitor_agent/spool.py, against its writer.
use employee_tracker.Common.{◌≡◌, refl, arith, eq_iff, str_eq, true, some, String, length, ◌==◌, ok}
use employee_tracker.Models.{Fields, fields, get_field}
use employee_tracker.Payload.{codes}
use employee_tracker.Spool.Guards.{Hashes}
use employee_tracker.Spool.Markers.{
  Codec, Marker, marker_name, marker_fields, marker_value, decoded_fields, checked_marker,
  is_record_name, is_digest,
}
use employee_tracker.Spool.Recovery.{recovery_marker}

same_text : (s : String) → str_eq s s ≡ true
same_text s = (eq_iff s s).1 refl

module _ (m : Marker) where
  checked_marker-marker_fields :
      is_record_name m.destination ≡ true
      → is_digest m.digest ≡ true
      → checked_marker m.source m.suffix (marker_fields m)
        ≡ ok (m.destination, m.digest, m.committed)
  unfolding checked_marker marker_fields get_field fields
  checked_marker-marker_fields destination digest =
      rw (same_text m.source, same_text m.suffix, destination, digest) refl

  recovery_marker-marker_fields :
      (h : Hashes)
      → is_record_name m.source ≡ true
      → is_record_name m.destination ≡ true
      → is_digest m.digest ≡ true
      → recovery_marker h (marker_name (h.operation_id m.source m.suffix)) (marker_fields m) ≡ ok m
  unfolding recovery_marker marker_fields get_field fields is_digest
  recovery_marker-marker_fields h source destination digest =
      let length_64 : (length (codes m.digest) == 64) ≡ true = ground arith in
      rw (same_text (h.operation_id m.source m.suffix), source, destination, length_64) refl

module _ (h : Hashes) (j : Codec) (m : Marker) where
  -- If decoding undoes encoding on a marker's value, its destination is a name of a record and its
  -- digest has 64 hexadecimal digits, then what is written decodes to fields, from which a repeated
  -- move with the same source and suffix reads the destination, the digest and whether it was
  -- committed; and if its source is a name of a record too, then the recovery reads the whole marker
  -- from them under the name of the operation.
  pub marker-roundtrip :
      j.loads (j.dumps (marker_value m)) ≡ some (marker_value m)
      → is_record_name m.source ≡ true
      → is_record_name m.destination ≡ true
      → is_digest m.digest ≡ true
      → (d : Fields) × (decoded_fields (j.loads (j.dumps (marker_value m))) ≡ ok d)
        × (checked_marker m.source m.suffix d ≡ ok (m.destination, m.digest, m.committed))
        × (recovery_marker h (marker_name (h.operation_id m.source m.suffix)) d ≡ ok m)
  unfolding decoded_fields
  marker-roundtrip law source destination digest = (
    marker_fields m,
    rw law refl,
    checked_marker-marker_fields m destination digest,
    recovery_marker-marker_fields m h source destination digest,
  )
