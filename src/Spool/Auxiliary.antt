-- ===== src/Spool/Auxiliary.antt =====
-- What the locks, the guards and the clean-up of monitor_agent/spool.py leave alone: they touch
-- hidden names only.
use employee_tracker.Common.{
  ◌≡◌, refl, sym, subst, arith, Bool, false, Option, Result, ok, err, Bool-cases, Result-cases, inl,
  inr, is_some, ℕ, zero, suc, String,
}
use employee_tracker.Spool.Disk.{
  Name, pending, Folder, Disk, same_kind, find, names, with_new, delete, put, create_file,
  open_or_create, unlink_file, write_file,
}
use employee_tracker.Spool.Calls.{System, Io, lift, ◌>>=◌, call, unlink_name, unlink_open_name}
use employee_tracker.Spool.Guards.{
  Hashes, guard_depth, set_guard, drop_guard, artifact_guard_name, open_guard,
  acquire_artifact_guard, release_artifact_guard, under_guard, open_if_possible,
  cleanup_stale_hidden_file, create_if_absent, reserve_within, acquire_reservation,
  release_reservation, list_names, cleanup_folder, cleanup_hidden_artifacts,
}
use employee_tracker.Spool.Looking.{
  in_directory-Keeps, open_file_same, touch-Keeps, open_name-Keeps, file_stat-Keeps,
  stat_if_there-Keeps, open_name_matches-Keeps, close_with_retry-Keeps, lock_descriptor-Keeps,
  fsync_directory-Keeps, take_lock-Keeps, under_lock-Keeps,
}
use employee_tracker.Spool.Keeps.{Keeps, keeps_rules, Keeps-call, Keeps-look}

-- A name that is no record's.
abbrev pub IsHidden : Name → Type 0
IsHidden n = same_kind n.kind pending ≡ false

-- An invariant that is kept where hidden names come and go; `W` says which files may be written.
pub record Robust (J : Disk → Type 0) (W : ℕ → Type 0) : Type 0 where
  pub added : (f : Folder) (n : Name) (d : Disk) → IsHidden n → J d → J (with_new f n d)
  pub removed : (f : Folder) (n : Name) (d : Disk) → IsHidden n → J d → J (delete f n d)
  pub moved :
      (f : Folder) (n m : Name) (i : ℕ) (d : Disk)
      → IsHidden n
      → IsHidden m
      → J d
      → J (put f m i (delete f m (delete f n d)))
  pub fresh : (d : Disk) → J d → W d.next
  pub written : (i : ℕ) (c : String) (d : Disk) → W i → J d → J (write_file i c d).1

artifact_guard_name-IsHidden :
    (h : Hashes) (n g : Name) → artifact_guard_name h n ≡ ok g → IsHidden g
unfolding artifact_guard_name
artifact_guard_name-IsHidden h n g e = ground arith

guarded-IsHidden : (h : Hashes) (n g : Name) → artifact_guard_name h n ≡ ok g → IsHidden n
unfolding artifact_guard_name
guarded-IsHidden h n g e = ground arith

-- the rest of the action may use that `r` did not raise
Keeps-bind-lift :
    {J : Disk → Type 0} {A B : Type 0} (r : Result A) (f : A → Io B)
    → ((a : A) → r ≡ ok a → Keeps J (f a))
    → Keeps J (lift r >>= f)
unfolding ◌>>=◌ lift
Keeps-bind-lift (ok a) f q = record { at = λ s h. (q a refl).at s h }
Keeps-bind-lift (err e) f q = record { at = λ s h. h }

guard_depth-Keeps : {J : Disk → Type 0} (k : Folder × Name) → Keeps J (guard_depth k)
unfolding guard_depth
guard_depth-Keeps k = record { at = λ s h. h }

set_guard-Keeps : {J : Disk → Type 0} (k : Folder × Name) (n : ℕ) → Keeps J (set_guard k n)
unfolding set_guard
set_guard-Keeps k n = record { at = λ s h. h }

drop_guard-Keeps : {J : Disk → Type 0} (k : Folder × Name) → Keeps J (drop_guard k)
unfolding drop_guard
drop_guard-Keeps k = record { at = λ s h. h }

module _ {J : Disk → Type 0} {W : ℕ → Type 0} (robust : Robust J W) (os : System) where
  pub create_file-keeps :
      (f : Folder) (n : Name) (d : Disk) → IsHidden n → J d → J (create_file f n d).1
  unfolding create_file
  create_file-keeps f n d hidden p = elim (Bool-cases (is_some (find n (names f d)))) [
    | inl e ↦ rw (create_file, e) p
    | inr e ↦ rw (create_file, e) (robust.added f n d hidden p)
  ]

  open_or_create-keeps :
      (f : Folder) (n : Name) (d : Disk) → IsHidden n → J d → J (open_or_create f n d).1
  unfolding open_or_create
  open_or_create-keeps f n d hidden p = elim (Bool-cases (is_some (find n (names f d)))) [
    | inl e ↦ rw (open_or_create, e) (subst J (sym (open_file_same f n d)) p)
    | inr e ↦ rw (open_or_create, e) (robust.added f n d hidden p)
  ]

  unlink_file-keeps :
      (f : Folder) (n : Name) (d : Disk) → IsHidden n → J d → J (unlink_file f n d).1
  unfolding unlink_file
  unlink_file-keeps f n d hidden p = elim (Bool-cases (is_some (find n (names f d)))) [
    | inl e ↦ rw (unlink_file, e) (robust.removed f n d hidden p)
    | inr e ↦ rw (unlink_file, e) p
  ]

  pub unlink_file-Keeps : (f : Folder) (n : Name) → IsHidden n → Keeps J (call os (unlink_file f n))
  unlink_file-Keeps f n hidden =
      Keeps-call os (unlink_file f n) λ d p. unlink_file-keeps f n d hidden p

  pub unlink_name-Keeps : (f : Folder) (n : Name) → IsHidden n → Keeps J (unlink_name os f n)
  unfolding unlink_name
  unlink_name-Keeps f n hidden =
      let p = unlink_file-Keeps f n hidden in search (keeps_rules, in_directory-Keeps os)

  pub unlink_open_name-Keeps :
      (f : Folder) (n : Name) (i : ℕ) → IsHidden n → Keeps J (unlink_open_name os f n i)
  unfolding unlink_open_name
  unlink_open_name-Keeps f n i hidden =
      let p = unlink_file-Keeps f n hidden in
      search (keeps_rules, in_directory-Keeps os, file_stat-Keeps os, stat_if_there-Keeps os) depth
        8

  pub create_file-Keeps : (f : Folder) (n : Name) → IsHidden n → Keeps J (call os (create_file f n))
  create_file-Keeps f n hidden =
      Keeps-call os (create_file f n) λ d p. create_file-keeps f n d hidden p

  module _ (h : Hashes) where
    open_guard-Keeps :
        (f : Folder) (g : Name) (b : Bool) → IsHidden g → Keeps J (open_guard os h f g b)
    unfolding open_guard
    open_guard-Keeps f g b hidden =
        let opened =
          Keeps-call os (open_or_create f g) (λ d p. open_or_create-keeps f g d hidden p) in
        search
          (
            keeps_rules,
            in_directory-Keeps os,
            file_stat-Keeps os,
            open_name_matches-Keeps os,
            take_lock-Keeps os h,
            touch-Keeps os,
            set_guard-Keeps,
            close_with_retry-Keeps os,
          )
          depth 12

    pub acquire_artifact_guard-Keeps :
        (f : Folder) (n : Name) (b : Bool) → Keeps J (acquire_artifact_guard os h f n b)
    unfolding acquire_artifact_guard
    acquire_artifact_guard-Keeps f n b = Keeps-bind-lift _ _ λ g e.
        let opened = open_guard-Keeps f g b (artifact_guard_name-IsHidden h n g e) in
        search (keeps_rules, guard_depth-Keeps, set_guard-Keeps) depth 8

    pub release_artifact_guard-Keeps :
        (f : Folder) (n : Name) → Keeps J (release_artifact_guard os h f n)
    unfolding release_artifact_guard
    release_artifact_guard-Keeps f n =
        search
          (
            keeps_rules,
            guard_depth-Keeps,
            set_guard-Keeps,
            drop_guard-Keeps,
            close_with_retry-Keeps os,
          )
          depth 10

    guarded-Keeps :
        {A : Type 0} (f : Folder) (n : Name) (otherwise : A) (body : Io A)
        → Keeps J body
        → Keeps J (under_guard os h f n otherwise body)
    unfolding under_guard
    guarded-Keeps f n otherwise body p =
        search (keeps_rules, acquire_artifact_guard-Keeps, release_artifact_guard-Keeps) depth 8

    pub open_if_possible-Keeps : (f : Folder) (n : Name) → Keeps J (open_if_possible os h f n)
    unfolding open_if_possible
    open_if_possible-Keeps f n = search (keeps_rules, open_name-Keeps os) depth 8

    -- The body runs only if the name is one that has a guard, and so a hidden one.
    pub under_guard-Keeps :
        {A : Type 0} (f : Folder) (n : Name) (otherwise : A) (body : Io A)
        → (IsHidden n → Keeps J body)
        → Keeps J (under_guard os h f n otherwise body)
    unfolding under_guard acquire_artifact_guard ◌>>=◌ lift
    under_guard-Keeps f n otherwise body p = elim (Result-cases (artifact_guard_name h n)) [
      | inl (g, e) ↦ guarded-Keeps f n otherwise body (p (guarded-IsHidden h n g e))
      | inr (x, e) ↦ record {
        at = λ s held. rw (under_guard, acquire_artifact_guard, ◌>>=◌, lift, e) held;
      }
    ]

    pub cleanup_stale_hidden_file-Keeps :
        (f : Folder) (n : Name) → Keeps J (cleanup_stale_hidden_file os h f n)
    unfolding cleanup_stale_hidden_file
    cleanup_stale_hidden_file-Keeps f n = under_guard-Keeps f n _ _ λ hidden.
        search
          (
            keeps_rules,
            open_if_possible-Keeps,
            under_lock-Keeps os h,
            file_stat-Keeps os,
            unlink_open_name-Keeps,
            fsync_directory-Keeps os,
          )
          depth 10

    create_if_absent-Keeps :
        (f : Folder) (n : Name) → IsHidden n → Keeps J (create_if_absent os h f n)
    unfolding create_if_absent
    create_if_absent-Keeps f n hidden =
        search (keeps_rules, in_directory-Keeps os, create_file-Keeps) depth 8

    reserve_within-Keeps :
        (left : ℕ) (f : Folder) (n : Name) → IsHidden n → Keeps J (reserve_within os h left f n)
    unfolding reserve_within
    reserve_within-Keeps zero f n hidden = search keeps_rules
    reserve_within-Keeps (suc left) f n hidden =
        let again = reserve_within-Keeps left f n hidden in
        search
          (
            keeps_rules,
            create_if_absent-Keeps,
            cleanup_stale_hidden_file-Keeps,
            lock_descriptor-Keeps os,
            touch-Keeps os,
            unlink_name-Keeps,
          )
          depth 12

    pub acquire_reservation-Keeps :
        (f : Folder) (n : Name) → IsHidden n → Keeps J (acquire_reservation os h f n)
    unfolding acquire_reservation
    acquire_reservation-Keeps f n hidden =
        search
          (
            keeps_rules, acquire_artifact_guard-Keeps, reserve_within-Keeps,
            release_artifact_guard-Keeps,
          )
          depth 10

    pub release_reservation-Keeps :
        (f : Folder) (n : Name) (o : Option ℕ)
        → IsHidden n
        → Keeps J (release_reservation os h f n o)
    unfolding release_reservation
    release_reservation-Keeps f n o hidden =
        search
          (keeps_rules, unlink_name-Keeps, close_with_retry-Keeps os, release_artifact_guard-Keeps)
          depth 10

    pub list_names-Keeps : (f : Folder) (p : Name → Bool) → Keeps J (list_names os h f p)
    unfolding list_names
    list_names-Keeps f p = Keeps-look os _

    cleanup_folder-Keeps : (f : Folder) → Keeps J (cleanup_folder os h f)
    unfolding cleanup_folder
    cleanup_folder-Keeps f =
        search (keeps_rules, list_names-Keeps, cleanup_stale_hidden_file-Keeps) depth 8

    pub cleanup_hidden_artifacts-Keeps : Keeps J (cleanup_hidden_artifacts os h)
    unfolding cleanup_hidden_artifacts
    cleanup_hidden_artifacts-Keeps = search (keeps_rules, cleanup_folder-Keeps)
