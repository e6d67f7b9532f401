-- ===== src/Tests/Spooling.antt =====
-- The spool's operations on two concrete directories, with one record that is no JSON.
use employee_tracker.Common.{
  ◌≡◌, refl, ℕ, String, true, false, none, some, [], ◌∷◌, str_eq, ok, if◌then◌else◌,
}
use employee_tracker.Common.Int.{pos}
use employee_tracker.Models.{Fields}
use employee_tracker.Spool.Store.{Clerk}
use employee_tracker.Spool.Disk.{root, Disk, Node, regular_file, find, guard, Name, Folder}
use employee_tracker.Spool.Calls.{System, Process}
use employee_tracker.Spool.Guards.{
  Hashes, acquire_artifact_guard, release_artifact_guard, artifact_guard_name, depth_of,
}
use employee_tracker.Spool.Markers.{
  Codec, Marker, text_name, marker_name, marker_value, decoded_fields, checked_marker,
  is_record_name, is_digest,
}
use employee_tracker.Spool.Recovery.{recovery_marker}
use employee_tracker.Spool.Queue.{load, ack, reject, list_pending, store_record, spool_file}
use employee_tracker.Spool.Keeps.{Holds}
use employee_tracker.Spool.Held.{Held}
use employee_tracker.Spool.Kept.{
  load-Held, reject-Held, list_pending-Held, store_record-keeps_others, ack-keeps_others,
}
use employee_tracker.Spool.Nested.{acquire_artifact_guard-nested}
use employee_tracker.Spool.Roundtrip.{marker-roundtrip}

abbrev pub quiet : System
quiet = record {
  fault = λ n. none;
  lock_free = λ n. true;
  random = λ n. "r";
  torn = λ n. "";
  resolves = λ n. true;
  is_tolerated = λ e. true;
  is_directory = λ n. true;
  has_renameat = λ n. false;
}

abbrev digest_64 : String
digest_64 = "0123456789abcdef0123456789abcdef0123456789abcdef0123456789abcdef"

abbrev pub digests : Hashes
digests = record {
  slot = λ n. "00";
  sha256 = λ c. digest_64;
  attribution = λ n. "0123456789abcdef";
  reservation = λ n. n;
  operation_id = λ source suffix. source;
}

abbrev moved_marker : Marker
moved_marker = record {
  source = "a.json";
  suffix = "";
  destination = "a.0123456789abcdef.json";
  digest = digest_64;
  committed = true;
}

abbrev pub one_value : Codec
one_value = record {
  loads = λ s. if str_eq s "marker" then some (marker_value moved_marker) else none;
  dumps = λ v. "marker";
  show = λ n. "1";
}

abbrev pub clerk : Clerk
clerk = record {
  is_uuid = λ s. true;
  strptime = λ s. none;
  strftime = λ t. "now";
  name_le = λ a b. true;
}

abbrev pub bytes : String → ℕ
bytes s = 1

abbrev broken_file : Node
broken_file = record { type = regular_file; content = "broken"; mtime = pos 0 }

abbrev two_records : Disk
two_records = record {
  root_names = (text_name "a.json", 0) ∷ (text_name "b.json", 1) ∷ [];
  dead_names = [];
  nodes = λ i. broken_file;
  next = 2;
}

abbrev pub started : Process
started = record { disk = two_records; past = []; calls = 0; guards = []; lease = none }

abbrev held_a : Held none 0 "broken" two_records
unfolding find
held_a = record {
  folder = root;
  name = text_name "a.json";
  is_pending = refl;
  away = refl;
  found = refl;
  old = refl;
  content = refl;
}

-- Another name stays while `b.json` is acknowledged.
abbrev held_without_b : Held (some (text_name "b.json")) 0 "broken" two_records
unfolding find
held_without_b = record {
  folder = root;
  name = text_name "a.json";
  is_pending = refl;
  away = refl;
  found = refl;
  old = refl;
  content = refl;
}

load-Held_example :
    Holds (Held none 0 "broken") (load quiet digests one_value clerk bytes 5 "a.json" started).1
load-Held_example =
    load-Held quiet digests one_value clerk bytes 0 "broken" 5 "a.json" started (held_a, tt)

reject-Held_example :
    Holds (Held none 0 "broken") (reject quiet digests one_value clerk bytes 5 "a.json" started).1
reject-Held_example =
    reject-Held quiet digests one_value clerk bytes 0 "broken" 5 "a.json" started (held_a, tt)

list_pending-Held_example :
    Holds (Held none 0 "broken") (list_pending quiet digests one_value clerk bytes started).1
list_pending-Held_example =
    list_pending-Held quiet digests one_value clerk bytes 0 "broken" started (held_a, tt)

store_record-keeps_others_example :
    Holds
      (Held none 0 "broken")
      (store_record quiet digests one_value clerk bytes "c.json" "{}" started).1
store_record-keeps_others_example =
    store_record-keeps_others quiet digests one_value clerk bytes 0 "broken" "c.json" "{}" started
      (held_a, tt)

ack-keeps_others_example :
    Holds
      (Held (some (text_name "b.json")) 0 "broken")
      (ack quiet digests one_value clerk bytes "b.json" started).1
ack-keeps_others_example =
    ack-keeps_others quiet digests one_value clerk bytes 0 "broken" "b.json" started
      (held_without_b, tt)

marker-roundtrip_example :
    (d : Fields) × (decoded_fields (one_value.loads (one_value.dumps (marker_value moved_marker)))
      ≡ ok d)
    × (checked_marker "a.json" "" d ≡ ok ("a.0123456789abcdef.json", digest_64, true))
    × (recovery_marker digests (marker_name "a.json") d ≡ ok moved_marker)
unfolding is_record_name is_digest
marker-roundtrip_example = marker-roundtrip digests one_value moved_marker refl refl refl refl

abbrev spool_guard : Name
spool_guard = record { kind = guard; text = "spool" }

abbrev guarding : Process
guarding = record {
  disk = two_records;
  past = [];
  calls = 0;
  guards = ((root, spool_guard), 1) ∷ [];
  lease = none;
}

acquire_artifact_guard-nested_example :
    (t : Process) × (u : Process) × (acquire_artifact_guard quiet digests root spool_file false
        guarding
      ≡ (ok true, t))
    × (release_artifact_guard quiet digests root spool_file t ≡ (ok tt, u))
    × (u.disk ≡ two_records)
    × ((k : Folder × Name) → depth_of k u.guards ≡ depth_of k guarding.guards)
unfolding artifact_guard_name depth_of
acquire_artifact_guard-nested_example =
    acquire_artifact_guard-nested quiet digests root spool_file spool_guard false 0 guarding refl
      refl
