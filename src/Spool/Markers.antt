-- ===== src/Spool/Markers.antt =====
-- The markers of dead-letter operations of monitor_agent/spool.py, and the names of its records.
use Prim.Native.Char.{code}
use Prim.Native.String.{String, ◌++◌}
use employee_tracker.Common.{
  ℕ, zero, suc, Bool, true, false, not, ◌&&◌, ◌||◌, Option, none, some, [], ◌∷◌, Result, ok, raise,
  value_error, os_error, file_exists, str_eq, all, length, leb, ◌==◌, if◌then◌else◌,
}
use employee_tracker.Identity.{is_os_error, is_value_error}
use employee_tracker.Models.{Json, bool, str, dict, Fields, fields, get_field}
use employee_tracker.Payload.{codes}
use employee_tracker.Spool.Store.{ends_with, starts_with_dot}
use employee_tracker.Spool.Disk.{
  Name, pending, marker_temp, marker, operation_lock, destination_lock, dead_letter, look,
}
use employee_tracker.Spool.Calls.{
  System, branch◌then◌else◌, Io, pure, throw, lift, catch, finally, on_error, with_option, fail,
  ◌>>=◌, ◌>>◌, call, touch, open_record, name_exists, unlink_name, replace_name, make_temporary,
  write_all, fsync_directory,
}
use employee_tracker.Spool.Guards.{
  Hashes, acquire_artifact_guard, release_artifact_guard, acquire_reservation, release_reservation,
}

-- Python's `json.loads` of the bytes of a file, `none` for a JSONDecodeError or a
-- UnicodeDecodeError, `json.dumps`, and `str` of a number.
pub record Codec : Type 0 where
  pub loads : String → Option Json
  pub dumps : Json → String
  pub show : ℕ → String

abbrev pub text_name : String → Name
text_name s = record { kind = pending; text = s }

abbrev pub marker_name : String → Name
marker_name id = record { kind = marker; text = id }

abbrev pub operation_lock_name : String → Name
operation_lock_name id = record { kind = operation_lock; text = id }

abbrev pub destination_lock_name : String → Name
destination_lock_name digest = record { kind = destination_lock; text = digest }

-- `name.rsplit(".", 1)`, for a name with a dot
abbrev split_last : String → Option (String × String)
split_last String.[] = none
split_last (String.◌∷◌ c s) = elim (split_last s) [
  | some (stem, extension) ↦ some (String.◌∷◌ c stem, extension)
  | none ↦ if code c == b'.' then some (String.[], s) else none
]

-- `_numbered_name`
unfoldable pub numbered_name : Codec → String → ℕ → String
numbered_name j name number = if number == 0 then name else elim (split_last name) [
  | none ↦ name
  | some (stem, extension) ↦ stem ++ "." ++ j.show number ++ "." ++ extension
]

-- `_dead_letter_name`
unfoldable pub dead_letter_name : Hashes → String → String → String
dead_letter_name h source suffix =
    (elim (split_last source) [ none ↦ source | some (stem, extension) ↦ stem ])
    ++ "."
    ++ h.attribution source
    ++ suffix
    ++ ".json"

abbrev no_slash : String → Bool
no_slash s = all (λ c. not (c == b'/')) (codes s)

-- `Path(name).name == name`, no leading dot, and `.json` at the end
unfoldable pub is_record_name : String → Bool
is_record_name s = no_slash s && not (starts_with_dot s) && ends_with ".json" s

abbrev is_hex : ℕ → Bool
is_hex c = leb b'0' c && leb c b'9' || leb b'a' c && leb c b'f'

unfoldable pub is_digest : String → Bool
is_digest s = length (codes s) == 64 && all is_hex (codes s)

-- The content of a marker.
pub record Marker : Type 0 where
  pub source : String
  pub suffix : String
  pub destination : String
  pub digest : String
  pub committed : Bool

unfoldable pub marker_fields : Marker → Fields
marker_fields m = fields (
    ("committed", bool m.committed)
    ∷ ("destination", str m.destination)
    ∷ ("sha256", str m.digest)
    ∷ ("source", str m.source)
    ∷ ("suffix", str m.suffix)
    ∷ [])

abbrev pub marker_value : Marker → Json
marker_value m = dict (marker_fields m)

abbrev pub text_field : String → Fields → Option String
text_field k d = elim (get_field k d) [ some (str s) ↦ some s | _ ↦ none ]

abbrev pub bool_field : String → Fields → Option Bool
bool_field k d = elim (get_field k d) [ some (bool b) ↦ some b | _ ↦ none ]

abbrev is_text : Option String → String → Bool
is_text none s = false
is_text (some t) s = str_eq t s

-- The tests of `_read_operation_marker` on a decoded marker: the destination, the digest and
-- `committed`.
unfoldable pub checked_marker : String → String → Fields → Result (String × String × Bool)
checked_marker source suffix d =
    if not (is_text (text_field "source" d) source) || not (is_text (text_field "suffix" d) suffix)
    then raise value_error "dead-letter operation marker does not match source"
    else elim (text_field "destination" d) [
      | none ↦ raise value_error "invalid dead-letter operation destination"
      | some destination ↦ elim (text_field "sha256" d) [
        | none ↦ raise value_error "invalid dead-letter operation destination"
        | some digest ↦ elim (bool_field "committed" d) [
          | none ↦ raise value_error "invalid dead-letter operation destination"
          | some committed ↦
              if is_record_name destination && is_digest digest
              then ok (destination, digest, committed)
              else raise value_error "invalid dead-letter operation destination"
        ]
      ]
    ]

-- A dict, as `_decode_operation_marker` asks for.
unfoldable pub decoded_fields : Option Json → Result Fields
decoded_fields (some (dict d)) = ok d
decoded_fields _ = raise value_error "invalid dead-letter operation marker"

module _ (os : System) (h : Hashes) (j : Codec) where
  -- The content of an open file.
  unfoldable pub read_all : ℕ → Io String
  read_all i = call os (look λ d. (d.nodes i).content)

  -- `_decode_operation_marker`
  unfoldable pub decode_operation_marker : Name → Io Fields
  decode_operation_marker n = open_record os dead_letter n >>= λ i.
      finally (read_all i >>= λ text. lift (decoded_fields (j.loads text))) (touch os)

  -- `_read_operation_marker`
  unfoldable pub read_operation_marker :
      Name → String → String → Io (Option (String × String × Bool))
  read_operation_marker n source suffix = name_exists os dead_letter n >>= λ there.
      branch not there
      then pure none
      else decode_operation_marker n >>= λ d.
          lift (checked_marker source suffix d) >>= λ m. pure (some m)

  abbrev marker_files : Name
  marker_files = record { kind = marker_temp; text = "" }

  -- The `try` of `_persist_operation_marker`, behind the new file.
  unfoldable pub fill_marker : Name → String → Bool → Name → ℕ → Io (Unit {0})
  fill_marker n encoded replace_existing temporary i =
      on_error (touch os) (touch os >> unlink_name os dead_letter temporary)
      >> on_error
          (finally (write_all os i encoded >> touch os) (touch os)
            >> (branch replace_existing
                then pure tt
                else name_exists os dead_letter n >>= λ there.
                    branch there
                    then fail file_exists "dead-letter operation marker already exists"
                    else pure tt)
            >> replace_name os dead_letter temporary dead_letter n
            >> fsync_directory os)
          (unlink_name os dead_letter temporary)

  -- `_persist_operation_marker`
  unfoldable pub persist_operation_marker : Name → Marker → Bool → Io (Unit {0})
  persist_operation_marker n m replace_existing =
      acquire_artifact_guard os h dead_letter marker_files true >>= λ got.
      branch not got
      then fail os_error "dead-letter marker guard is busy"
      else finally
          (make_temporary os dead_letter (λ r. record { kind = marker_temp; text = r })
            >>= λ (temporary, i).
                fill_marker n (j.dumps (marker_value m)) replace_existing temporary i)
          (release_artifact_guard os h dead_letter marker_files)

  -- `_descriptor_digest`
  unfoldable pub descriptor_digest : ℕ → Io String
  descriptor_digest i = read_all i >>= λ content. pure (h.sha256 content)

  -- `_validate_dead_letter_destination`
  unfoldable pub validate_dead_letter_destination : String → String → Io (Unit {0})
  validate_dead_letter_destination destination expected =
      open_record os dead_letter (text_name destination) >>= λ i.
      finally
        (descriptor_digest i >>= λ digest.
          branch str_eq digest expected
          then pure tt
          else fail value_error "dead-letter destination does not match operation")
        (touch os)

  -- `_destination_matches_digest`
  unfoldable pub destination_matches_digest : String → String → Io Bool
  destination_matches_digest destination expected =
      catch (validate_dead_letter_destination destination expected >> pure true)
        λ e. branch is_os_error e.class || is_value_error e.class then pure false else throw e

  abbrev pub reservation_name : String → Name
  reservation_name destination = destination_lock_name (h.reservation destination)

  -- The loop of `_reserve_dead_letter_destination`, by the numbers that are left.
  unfoldable pub reserve_from : ℕ → String → ℕ → Io (String × Name × ℕ)
  reserve_from zero canonical number =
      fail os_error "could not reserve a unique dead-letter destination"
  reserve_from (suc left) canonical number =
      let destination = numbered_name j canonical number in
      acquire_reservation os h dead_letter (reservation_name destination) >>= λ reservation.
      with_option reservation (reserve_from left canonical (suc number)) λ i.
        name_exists os dead_letter (text_name destination) >>= λ there.
        branch there
        then release_reservation os h dead_letter (reservation_name destination) (some i)
          >> reserve_from left canonical (suc number)
        else pure (destination, reservation_name destination, i)

  -- `_reserve_dead_letter_destination`
  unfoldable pub reserve_dead_letter_destination : String → String → Io (String × Name × ℕ)
  reserve_dead_letter_destination source suffix =
      reserve_from 1000000 (dead_letter_name h source suffix) 0
