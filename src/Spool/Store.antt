-- ===== src/Spool/Store.antt =====
-- The names, the order, the retention and the statistics of `Spool` of monitor_agent/spool.py, on the
-- directory `root` as a list of entries. The directories themselves are in the module Disk.
use Prim.Native.Char.{code}
use Prim.Native.String.{String, ◌++◌}
use employee_tracker.Common.{
  ℕ, suc, ◌+◌, ◌-◌, ◌*◌, Bool, false, not, ◌&&◌, ◌||◌, Option, none, some, List, Result, ok, raise,
  value_error, type_error, raise_if, ◌>>◌, filter, length, leb, str_eq, ◌==◌, if◌then◌else◌,
}
use employee_tracker.Common.Int.{ℤ, pos, ◌-ℤ◌, leb_ℤ, ltb_ℤ, eqb_ℤ}
use employee_tracker.Common.Sort.{sorted}
use employee_tracker.Models.{Json, str, dict, get_field, SpoolStats, RetentionResult}
use employee_tracker.Transport.{DateTime, to_utc}

-- A name in a directory: what `os.lstat` says of it, and what reading it as JSON gives (`none` is
-- an OSError, JSONDecodeError or UnicodeDecodeError).
pub record Entry : Type 0 where
  pub name : String
  -- a regular file with one link
  pub regular : Bool
  pub size : ℕ
  -- microseconds since the epoch
  pub mtime : ℤ
  pub content : Option Json

-- The parts of Python's library that the operations call.
pub record Clerk : Type 0 where
  -- `UUID(text)` raises no ValueError
  pub is_uuid : String → Bool
  -- `strptime` and `strftime` of `%Y%m%dT%H%M%S%fZ`, in microseconds since the epoch
  pub strptime : String → Option ℤ
  pub strftime : ℤ → String
  -- the order of names
  pub name_le : String → String → Bool

pub record Spool : Type 0 where
  pub max_bytes : ℕ
  pub max_age_sec : ℕ
  pub root : List Entry
  pub dead_letter : List Entry

-- The guards of `Spool.__init__`.
unfoldable pub check_limits : ℤ → ℤ → Result (Unit {0})
check_limits max_bytes max_age_sec =
    raise_if (leb_ℤ max_bytes (pos 0)) value_error "max_bytes must be positive"
    >> raise_if (leb_ℤ max_age_sec (pos 0)) value_error "max_age_sec must be positive"

-- The part of a text before its first `_`.
abbrev stamp_of : String → String
stamp_of String.[] = String.[]
stamp_of (String.◌∷◌ c s) =
    let rest = stamp_of s in if code c == b'_' then String.[] else String.◌∷◌ c rest

-- `name.endswith(suffix)`
abbrev pub ends_with : String → String → Bool
ends_with suffix String.[] = str_eq suffix String.[]
ends_with suffix (String.◌∷◌ c s) = str_eq suffix (String.◌∷◌ c s) || ends_with suffix s

abbrev pub starts_with_dot : String → Bool
starts_with_dot String.[] = false
starts_with_dot (String.◌∷◌ c s) = code c == b'.'

unfoldable pub is_record : Entry → Bool
is_record e = ends_with ".json" e.name && e.regular

-- `_timestamp`, by `datetime.now(UTC)`, in microseconds.
unfoldable pub timestamp : DateTime → Option DateTime → Result ℤ
unfolding to_utc
timestamp current now =
    let moment : DateTime = elim now [ none ↦ current | some t ↦ t ] in
    elim moment.offset [
      | none ↦ raise value_error "now must be timezone-aware"
      | some o ↦ to_utc moment
    ]

-- `_record_name`
unfoldable pub record_name : Clerk → Json → ℤ → Result String
record_name k (dict payload) now = elim (get_field "event_id" payload) [
  | some (str event_id) ↦
      if k.is_uuid event_id
      then ok (k.strftime now ++ "_" ++ event_id ++ ".json")
      else raise value_error "event_id must be a UUID"
  | _ ↦ raise value_error "event_id must be a UUID"
]
record_name k _ now = raise type_error "payload must be a mapping"

-- `_valid_payload`
unfoldable pub valid_payload : Clerk → Json → Bool
valid_payload k (dict d) = elim (get_field "event_id" d) [
  | some (str event_id) ↦ k.is_uuid event_id
  | _ ↦ false
]
valid_payload k _ = false

-- `_record_time`, of a regular file
unfoldable pub record_time : Clerk → Entry → ℤ
record_time k e = elim (k.strptime (stamp_of e.name)) [ none ↦ e.mtime | some t ↦ t ]

-- The order of the key `(self._record_time(path), path.name)`.
unfoldable pub older : Clerk → Entry → Entry → Bool
older k a b =
    ltb_ℤ (record_time k a) (record_time k b)
    || eqb_ℤ (record_time k a) (record_time k b) && k.name_le a.name b.name

-- `_pending_paths`
unfoldable pub pending_paths : Clerk → List Entry → List Entry
pending_paths k root = sorted (older k) (filter is_record root)

-- `_unlink_name`
unfoldable pub unlink_name : String → List Entry → List Entry
unlink_name name root = filter (λ e. not (str_eq e.name name)) root

unfoldable pub total_size : List Entry → ℕ
total_size List.[] = 0
total_size (List.◌∷◌ e es) = e.size + total_size es

-- The directory, and what has been evicted so far.
pub record Eviction : Type 0 where
  pub left : List Entry
  pub evicted_count : ℕ
  pub evicted_bytes : ℕ

unfoldable pub evict : Entry → Eviction → Eviction
evict e v = record {
  left = unlink_name e.name v.left;
  evicted_count = suc v.evicted_count;
  evicted_bytes = v.evicted_bytes + e.size;
}

-- The first loop of `enforce_retention`.
unfoldable pub evict_expired : Clerk → ℤ → List Entry → Eviction → Eviction
evict_expired k cutoff List.[] v = v
evict_expired k cutoff (List.◌∷◌ e es) v =
    evict_expired k cutoff es (if ltb_ℤ (record_time k e) cutoff then evict e v else v)

-- The second loop, by the bytes that are still pending.
unfoldable pub evict_oldest : ℕ → ℕ → List Entry → Eviction → Eviction
evict_oldest max_bytes pending_bytes List.[] v = v
evict_oldest max_bytes pending_bytes (List.◌∷◌ e es) v =
    let rest = evict_oldest max_bytes (pending_bytes - e.size) es (evict e v) in
    if leb pending_bytes max_bytes then v else rest

-- `enforce_retention` at an instant in microseconds.
unfoldable pub enforce_retention : Clerk → ℤ → Spool → RetentionResult × Spool
enforce_retention k now s =
    let cutoff = now -ℤ pos (s.max_age_sec * 1000000) in
    let first =
      evict_expired k cutoff (pending_paths k s.root)
        (record { left = s.root; evicted_count = 0; evicted_bytes = 0 }) in
    let records = pending_paths k first.left in
    let second = evict_oldest s.max_bytes (total_size records) records first in
    (
      record { evicted_count = second.evicted_count; evicted_bytes = second.evicted_bytes },
      record {
        max_bytes = s.max_bytes;
        max_age_sec = s.max_age_sec;
        root = second.left;
        dead_letter = s.dead_letter;
      },
    )

-- `stats`
unfoldable pub stats : Clerk → Spool → SpoolStats
stats k s =
    let pending = pending_paths k s.root in
    record {
      pending_count = length pending;
      pending_bytes = total_size pending;
      dead_letter_count =
          length (filter (λ e. is_record e && not (starts_with_dot e.name)) s.dead_letter);
    }
