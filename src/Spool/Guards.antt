-- ===== src/Spool/Guards.antt =====
-- The guards, the reservations and the clean-up of hidden files of monitor_agent/spool.py. Access
-- modes are not modelled: `fchmod` is a call without an effect on the directories.
use Prim.Native.String.{◌++◌}
use employee_tracker.Common.{
  ℕ, zero, suc, ◌-◌, String, Bool, true, false, not, ◌&&◌, ◌||◌, Option, none, some, List, [], ◌∷◌,
  Result, ok, raise, ltb, ◌==◌, value_error, key_error, map, filter, if◌then◌else◌,
}
use employee_tracker.Identity.{is_os_error, is_taken}
use employee_tracker.Spool.Disk.{
  Name, staged, publish_lock, operation_lock, marker, destination_lock, marker_temp, guard, Folder,
  root, dead_letter, same, same_kind, names, look, create_file, open_or_create, is_regular,
}
use employee_tracker.Spool.Calls.{
  System, branch◌then◌else◌, Io, pure, lift, throw, catch, finally, on_error, with_option, when,
  fail, ◌>>=◌, ◌>>◌, call, touch, open_name, file_stat, unlink_name, open_name_matches,
  unlink_open_name, fsync_directory, lock_descriptor, try_lock_descriptor, close_with_retry,
  in_directory,
}

-- The hexadecimal digests of monitor_agent/spool.py.
pub record Hashes : Type 0 where
  -- the slot of a hidden name: the first two digits of its SHA-256
  pub slot : Name → String
  -- the SHA-256 of a content, and the first 16 and 24 digits of that of a record's name
  pub sha256 : String → String
  pub attribution : String → String
  pub reservation : String → String
  -- `_operation_id` of a source name and a suffix
  pub operation_id : String → String → String

-- `self._artifact_guards`, by the guard's folder and name
abbrev pub same_folder : Folder → Folder → Bool
same_folder root root = true
same_folder dead_letter dead_letter = true
same_folder _ _ = false

abbrev pub same_key : Folder × Name → Folder × Name → Bool
same_key k j = same_folder k.0 j.0 && same k.1 j.1

unfoldable pub depth_of : Folder × Name → List ((Folder × Name) × ℕ) → Option ℕ
depth_of k [] = none
depth_of k ((j, depth) ∷ gs) = if same_key j k then some depth else depth_of k gs

unfoldable pub without_key : Folder × Name → List ((Folder × Name) × ℕ) → List ((Folder × Name) × ℕ)
without_key k [] = []
without_key k ((j, depth) ∷ gs) =
    let rest = without_key k gs in if same_key j k then rest else (j, depth) ∷ rest

unfoldable pub guard_depth : Folder × Name → Io (Option ℕ)
guard_depth k s = (ok (depth_of k s.guards), s)

unfoldable pub set_guard : Folder × Name → ℕ → Io (Unit {0})
set_guard k depth s = (ok tt, record s { guards = (k, depth) ∷ without_key k s.guards })

unfoldable pub drop_guard : Folder × Name → Io (Unit {0})
drop_guard k s = (ok tt, record s { guards = without_key k s.guards })

-- `_artifact_guard_name`
unfoldable pub artifact_guard_name : Hashes → Name → Result Name
artifact_guard_name h n = elim n.kind [
  | staged ↦ ok (record { kind = guard; text = "spool" })
  | marker_temp ↦ ok (record { kind = guard; text = "deadmark" })
  | publish_lock ↦ ok (record { kind = guard; text = "publish-" ++ h.slot n })
  | operation_lock ↦ ok (record { kind = guard; text = "deadop-" ++ h.slot n })
  | marker ↦ ok (record { kind = guard; text = "deadop-" ++ h.slot n })
  | destination_lock ↦ ok (record { kind = guard; text = "deadres-" ++ h.slot n })
  | _ ↦ raise value_error "unsupported hidden spool artifact"
]

module _ {A : Type 0} where
  -- `for x in xs: f(x)`
  unfoldable pub for_each : List A → (A → Io (Unit {0})) → Io (Unit {0})
  for_each [] f = pure tt
  for_each (x ∷ xs) f = f x >> for_each xs f

module _ (os : System) (h : Hashes) where
  -- The lock of a guard: whether it was got.
  unfoldable pub take_lock : Bool → Io Bool
  take_lock blocking =
      branch blocking then lock_descriptor os >> pure true else try_lock_descriptor os

  -- `_acquire_artifact_guard` for a guard that is not held
  unfoldable pub open_guard : Folder → Name → Bool → Io Bool
  open_guard f g blocking = in_directory os (call os (open_or_create f g)) >>= λ i.
      on_error
        (file_stat os i >>= λ opened.
          branch not (is_regular opened.type) || not (opened.nlink == 1)
          then fail value_error "spool artifact guard must be a regular file"
          else open_name_matches os f g i >>= λ same.
              branch not same
              then fail value_error "spool artifact guard must be a regular file"
              else take_lock blocking)
        (touch os)
      >>= λ locked.
          branch not locked
          then touch os >> pure false
          else on_error
              (open_name_matches os f g i >>= λ same.
                branch same
                then touch os >> set_guard (f, g) 1 >> pure true
                else fail value_error "spool artifact guard changed while locking")
              (close_with_retry os)

  -- `_acquire_artifact_guard`
  unfoldable pub acquire_artifact_guard : Folder → Name → Bool → Io Bool
  acquire_artifact_guard f n blocking = lift (artifact_guard_name h n) >>= λ g.
      guard_depth (f, g) >>= λ held.
      with_option held (open_guard f g blocking) λ depth. set_guard (f, g) (suc depth) >> pure true

  -- `_release_artifact_guard`
  unfoldable pub release_artifact_guard : Folder → Name → Io (Unit {0})
  release_artifact_guard f n = lift (artifact_guard_name h n) >>= λ g.
      guard_depth (f, g) >>= λ held. with_option held (fail key_error "") λ depth.
        branch ltb 1 depth
        then set_guard (f, g) (depth - 1)
        else drop_guard (f, g) >> close_with_retry os

  module _ {A : Type 0} where
    -- A body that runs under a lock of its descriptor if a test passes and the lock is free; the
    -- descriptor is closed at any rate.
    unfoldable pub under_lock : Io Bool → A → Io A → Io A
    under_lock test otherwise body =
        on_error (test >>= λ fine. branch fine then try_lock_descriptor os else pure false)
          (touch os)
        >>= λ locked.
            branch locked then finally body (close_with_retry os) else touch os >> pure otherwise

    -- A body that runs under the guard of a hidden name if that is free.
    unfoldable pub under_guard : Folder → Name → A → Io A → Io A
    under_guard f n otherwise body = acquire_artifact_guard f n false >>= λ got.
        branch got then finally body (release_artifact_guard f n) else pure otherwise

  -- `_open_name` where an OSError is caught
  unfoldable pub open_if_possible : Folder → Name → Io (Option ℕ)
  open_if_possible f n =
      catch (open_name os f n >>= λ i. pure (some i))
        λ e. branch is_os_error e.class then pure none else throw e

  -- `_cleanup_stale_hidden_file`
  unfoldable pub cleanup_stale_hidden_file : Folder → Name → Io Bool
  cleanup_stale_hidden_file f n = under_guard f n false (
      open_if_possible f n >>= λ opened. with_option opened (pure false) λ i.
        under_lock (file_stat os i >>= λ st. pure (is_regular st.type && st.nlink == 1)) false (
          unlink_open_name os f n i >>= λ removed.
          when removed (fsync_directory os) >> pure removed))

  -- `os.open` with `O_EXCL`, where FileExistsError is caught
  unfoldable pub create_if_absent : Folder → Name → Io (Option ℕ)
  create_if_absent f n =
      catch (in_directory os (call os (create_file f n)) >>= λ i. pure (some i))
        λ e. branch is_taken e.class then pure none else throw e

  -- The loop of `_acquire_reservation`, by the attempts that are left.
  unfoldable pub reserve_within : ℕ → Folder → Name → Io (Option ℕ)
  reserve_within zero f n = pure none
  reserve_within (suc left) f n = create_if_absent f n >>= λ made.
      with_option made
        (cleanup_stale_hidden_file f n >>= λ cleaned.
          branch cleaned then reserve_within left f n else pure none)
        λ i. on_error (lock_descriptor os >> touch os >> pure (some i)) (
          catch (touch os) (λ e. branch is_os_error e.class then pure tt else throw e)
          >> touch os
          >> unlink_name os f n)

  -- `_acquire_reservation`
  unfoldable pub acquire_reservation : Folder → Name → Io (Option ℕ)
  acquire_reservation f n = acquire_artifact_guard f n false >>= λ got.
      branch not got
      then pure none
      else on_error (reserve_within 2 f n) (release_artifact_guard f n) >>= λ made.
          with_option made (release_artifact_guard f n >> pure none) λ i. pure (some i)

  -- `_release_reservation`
  unfoldable pub release_reservation : Folder → Name → Option ℕ → Io (Unit {0})
  release_reservation f n descriptor =
      with_option descriptor (pure tt) λ i.
        finally (finally (unlink_name os f n) (close_with_retry os)) (release_artifact_guard f n)

  abbrev is_cleaned : Folder → Name → Bool
  is_cleaned root n = same_kind n.kind staged || same_kind n.kind publish_lock
  is_cleaned dead_letter n =
      same_kind n.kind marker_temp
      || same_kind n.kind operation_lock
      || same_kind n.kind destination_lock

  -- `directory.iterdir()` and `directory.glob(...)`: the names of which a test holds
  unfoldable pub list_names : Folder → (Name → Bool) → Io (List Name)
  list_names f p = call os (look λ d. filter p (map (λ e. e.0) (names f d)))

  unfoldable pub cleanup_folder : Folder → Io (Unit {0})
  cleanup_folder f = list_names f (is_cleaned f) >>= λ ns.
      for_each ns λ n. cleanup_stale_hidden_file f n >> pure tt

  -- `_cleanup_hidden_artifacts`
  unfoldable pub cleanup_hidden_artifacts : Io (Unit {0})
  cleanup_hidden_artifacts = cleanup_folder root >> cleanup_folder dead_letter
