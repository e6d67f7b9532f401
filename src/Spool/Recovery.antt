-- ===== src/Spool/Recovery.antt =====
-- `_prepare` of monitor_agent/spool.py: what every public operation does first, and so what a new
-- process does after a crash. The two directories are there.
use employee_tracker.Common.{
  ℕ, Bool, true, false, not, ◌&&◌, ◌||◌, Option, none, some, List, [], ◌∷◌, Result, ok, raise,
  value_error, str_eq, length, ◌==◌, if◌then◌else◌,
}
use employee_tracker.Identity.{is_missing}
use employee_tracker.Models.{Fields}
use employee_tracker.Payload.{codes}
use employee_tracker.Spool.Disk.{
  Name, pending, staged, marker, root, dead_letter, Stat, same_kind, is_regular,
}
use employee_tracker.Spool.Calls.{
  System, branch◌then◌else◌, Io, pure, throw, lift, catch, with_option, when, fail, ◌>>=◌, ◌>>◌,
  touch, open_name, file_stat, stat_if_there, unlink_open_name, fsync_directory, answer,
}
use employee_tracker.Spool.Guards.{
  Hashes, for_each, under_guard, under_lock, open_if_possible, list_names, cleanup_hidden_artifacts,
}
use employee_tracker.Spool.Markers.{
  Codec, Marker, text_name, operation_lock_name, is_record_name, text_field, bool_field,
  decode_operation_marker, descriptor_digest,
}

-- `[x for x in xs if p(x)]`
unfoldable pub filter_calls : List Name → (Name → Io Bool) → Io (List Name)
filter_calls [] p = pure []
filter_calls (x ∷ xs) p =
    p x >>= λ keep. filter_calls xs p >>= λ rest. pure (if keep then x ∷ rest else rest)

abbrev is_single : List Name → Bool
is_single (n ∷ []) = true
is_single _ = false

-- The tests of `_recover_dead_letter_links` on a decoded marker with this name.
unfoldable pub recovery_marker : Hashes → Name → Fields → Result Marker
recovery_marker h n d = elim (text_field "source" d) [
  | none ↦ raise value_error "invalid dead-letter operation marker"
  | some source ↦ elim (text_field "suffix" d) [
    | none ↦ raise value_error "invalid dead-letter operation marker"
    | some suffix ↦ elim (text_field "destination" d) [
      | none ↦ raise value_error "invalid dead-letter operation marker"
      | some destination ↦ elim (text_field "sha256" d) [
        | none ↦ raise value_error "invalid dead-letter operation marker"
        | some digest ↦ elim (bool_field "committed" d) [
          | none ↦ raise value_error "invalid dead-letter operation marker"
          | some committed ↦
              if is_record_name source
                && str_eq n.text (h.operation_id source suffix)
                && is_record_name destination
                && length (codes digest) == 64
              then ok (record {
                source = source;
                suffix = suffix;
                destination = destination;
                digest = digest;
                committed = committed;
              })
              else raise value_error "invalid dead-letter operation marker"
        ]
      ]
    ]
  ]
]

-- Two names of one regular file that has just these two.
abbrev pub are_linked : Stat → Stat → Bool
are_linked a b =
    is_regular a.type && is_regular b.type && a.nlink == 2 && b.nlink == 2 && a.file == b.file

module _ (os : System) (h : Hashes) (j : Codec) where
  -- A pending name that is the other link of a hidden file.
  unfoldable pub is_other_link : Stat → Name → Io Bool
  is_other_link hidden n = stat_if_there os root n >>= λ found.
      with_option found (pure false)
        λ st. pure (is_regular st.type && st.nlink == 2 && st.file == hidden.file)

  -- One hidden file of `_recover_pending_links`.
  unfoldable pub recover_pending_link : Name → Io (Unit {0})
  recover_pending_link hidden = under_guard os h root hidden tt (
      open_if_possible os h root hidden >>= λ opened. with_option opened (pure tt) λ i.
        under_lock os h (pure true) tt (
          file_stat os i >>= λ st.
          branch not (is_regular st.type) || not (st.nlink == 2)
          then pure tt
          else list_names os h root (λ n. same_kind n.kind pending) >>= λ candidates.
              filter_calls candidates (is_other_link st) >>= λ matches.
              branch not (is_single matches)
              then pure tt
              else unlink_open_name os root hidden i >>= λ removed.
                  when removed (fsync_directory os)))

  -- `_recover_pending_links`
  unfoldable pub recover_pending_links : Io (Unit {0})
  recover_pending_links = list_names os h root (λ n. same_kind n.kind staged) >>= λ hidden.
      for_each hidden recover_pending_link

  -- `_open_name` where FileNotFoundError is caught
  unfoldable pub open_if_there : Name → Io (Option ℕ)
  open_if_there n =
      catch (open_name os root n >>= λ i. pure (some i))
        λ e. branch is_missing e.class then pure none else throw e

  -- The removal of a source that the destination is another name of.
  unfoldable pub unlink_moved : Marker → ℕ → Io (Unit {0})
  unlink_moved m i = file_stat os i >>= λ source.
      stat_if_there os dead_letter (text_name m.destination) >>= λ found.
      with_option found (pure tt) λ destination.
        branch not (are_linked source destination)
        then pure tt
        else descriptor_digest os h j i >>= λ digest.
            branch not (str_eq digest m.digest)
            then fail value_error "dead-letter recovery source does not match marker"
            else unlink_open_name os root (text_name m.source) i >>= λ removed.
                when removed (fsync_directory os >> fsync_directory os)

  -- One marker of `_recover_dead_letter_links`.
  unfoldable pub recover_dead_letter_link : Name → Io (Unit {0})
  recover_dead_letter_link n = under_guard os h dead_letter (operation_lock_name n.text) tt (
      decode_operation_marker os h j n >>= λ d. lift (recovery_marker h n d) >>= λ m.
      open_if_there (text_name m.source) >>= λ opened.
      with_option opened (pure tt) λ i. under_lock os h (pure true) tt (unlink_moved m i))

  -- `_recover_dead_letter_links`
  unfoldable pub recover_dead_letter_links : Io (Unit {0})
  recover_dead_letter_links =
      list_names os h dead_letter (λ n. same_kind n.kind marker) >>= λ markers.
      for_each markers recover_dead_letter_link

  -- `_ensure_directories`, for directories that are there: `mkdir`, `lstat` and `chmod` of each
  unfoldable pub ensure_directory : Io (Unit {0})
  ensure_directory = touch os >> answer os os.is_directory >>= λ real.
      branch real then touch os else fail value_error "spool directory must be a real directory"

  unfoldable pub ensure_directories : Io (Unit {0})
  ensure_directories = ensure_directory >> ensure_directory

  -- `_prepare`
  unfoldable pub prepare : Io (Unit {0})
  prepare =
      ensure_directories
      >> recover_dead_letter_links
      >> recover_pending_links
      >> cleanup_hidden_artifacts os h
