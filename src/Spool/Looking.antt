-- ===== src/Spool/Looking.antt =====
-- The actions of monitor_agent/spool.py that only look at the directories: each keeps whatever holds
-- of them.
use employee_tracker.Common.{◌≡◌, sym, subst, arith, Bool, ℕ}
use employee_tracker.Spool.Disk.{Name, Folder, Disk, open_file, stat_name}
use employee_tracker.Spool.Calls.{
  System, Io, call, touch, in_directory, in_directories, open_name, file_stat, stat_if_there,
  name_exists, path_exists, open_name_matches, fsync_directory, lock_descriptor,
  try_lock_descriptor, close_locked_descriptor, close_with_retry, open_record,
}
use employee_tracker.Spool.Guards.{Hashes, take_lock, under_lock}
use employee_tracker.Spool.Keeps.{Keeps, keeps_rules, Keeps-call}

pub open_file_same : (f : Folder) (n : Name) (d : Disk) → (open_file f n d).1 ≡ d
unfolding open_file
open_file_same f n d = ground arith

stat_name_same : (f : Folder) (n : Name) (d : Disk) → (stat_name f n d).1 ≡ d
unfolding stat_name
stat_name_same f n d = ground arith

module _ {J : Disk → Type 0} (os : System) where
  -- Actions that only look keep every invariant.
  pub touch-Keeps : Keeps J (touch os)
  unfolding touch
  touch-Keeps = search keeps_rules

  module _ {A : Type 0} where
    pub in_directory-Keeps : (m : Io A) → Keeps J m → Keeps J (in_directory os m)
    unfolding in_directory
    in_directory-Keeps m p = search (keeps_rules, touch-Keeps)

    pub in_directories-Keeps : (m : Io A) → Keeps J m → Keeps J (in_directories os m)
    unfolding in_directories
    in_directories-Keeps m p = search (keeps_rules, touch-Keeps) depth 8

  pub open_name-Keeps : (f : Folder) (n : Name) → Keeps J (open_name os f n)
  unfolding open_name
  open_name-Keeps f n =
      in_directory-Keeps _
        (Keeps-call os (open_file f n) λ d p. subst J (sym (open_file_same f n d)) p)

  pub file_stat-Keeps : (i : ℕ) → Keeps J (file_stat os i)
  unfolding file_stat
  file_stat-Keeps i = search keeps_rules

  pub stat_name-Keeps : (f : Folder) (n : Name) → Keeps J (call os (stat_name f n))
  stat_name-Keeps f n = Keeps-call os (stat_name f n) λ d p. subst J (sym (stat_name_same f n d)) p

  pub stat_if_there-Keeps : (f : Folder) (n : Name) → Keeps J (stat_if_there os f n)
  unfolding stat_if_there
  stat_if_there-Keeps f n = search (keeps_rules, stat_name-Keeps)

  pub name_exists-Keeps : (f : Folder) (n : Name) → Keeps J (name_exists os f n)
  unfolding name_exists
  name_exists-Keeps f n = search (keeps_rules, in_directory-Keeps, stat_if_there-Keeps)

  pub path_exists-Keeps : (f : Folder) (n : Name) → Keeps J (path_exists os f n)
  unfolding path_exists
  path_exists-Keeps f n = search (keeps_rules, stat_if_there-Keeps)

  pub open_name_matches-Keeps :
      (f : Folder) (n : Name) (i : ℕ) → Keeps J (open_name_matches os f n i)
  unfolding open_name_matches
  open_name_matches-Keeps f n i =
      search (keeps_rules, in_directory-Keeps, file_stat-Keeps, stat_if_there-Keeps)

  pub close_with_retry-Keeps : Keeps J (close_with_retry os)
  unfolding close_with_retry close_locked_descriptor
  close_with_retry-Keeps = search (keeps_rules, touch-Keeps) depth 8

  pub try_lock_descriptor-Keeps : Keeps J (try_lock_descriptor os)
  unfolding try_lock_descriptor
  try_lock_descriptor-Keeps = search keeps_rules

  pub lock_descriptor-Keeps : Keeps J (lock_descriptor os)
  unfolding lock_descriptor
  lock_descriptor-Keeps = touch-Keeps

  pub fsync_directory-Keeps : Keeps J (fsync_directory os)
  unfolding fsync_directory
  fsync_directory-Keeps = search (keeps_rules, touch-Keeps) depth 10

  pub open_record-Keeps : (f : Folder) (n : Name) → Keeps J (open_record os f n)
  unfolding open_record
  open_record-Keeps f n =
      search (keeps_rules, open_name-Keeps, file_stat-Keeps, touch-Keeps) depth 8

module _ {J : Disk → Type 0} (os : System) (h : Hashes) where
  pub take_lock-Keeps : (b : Bool) → Keeps J (take_lock os h b)
  unfolding take_lock
  take_lock-Keeps b = search (keeps_rules, lock_descriptor-Keeps os, try_lock_descriptor-Keeps os)

  -- What runs under a lock keeps what its parts keep.
  pub under_lock-Keeps :
      {A : Type 0} (test : Io Bool) (otherwise : A) (body : Io A)
      → Keeps J test
      → Keeps J body
      → Keeps J (under_lock os h test otherwise body)
  unfolding under_lock
  under_lock-Keeps test otherwise body p q =
      search (keeps_rules, try_lock_descriptor-Keeps os, touch-Keeps os, close_with_retry-Keeps os)
        depth 8
