-- ===== src/Spool/Calls.antt =====
-- System calls of monitor_agent/spool.py as actions that may raise, with the directories as they
-- were after each call: a process that dies leaves one of these behind. Any call may raise, and then
-- it has changed nothing. The branches for systems that are not POSIX are not modelled.
use employee_tracker.Common.{
  ℕ, suc, String, Bool, true, false, not, ◌&&◌, ◌||◌, Option, none, some, List, ◌∷◌, Result, ok,
  err, Error, ErrorClass, raise, ◌==◌, value_error, is_some,
}
use employee_tracker.Identity.{is_missing, is_os_error}
use employee_tracker.Spool.Disk.{
  Name, Folder, Disk, Effect, Stat, stat_of, open_file, create_file, unlink_file, stat_name,
  link_file, rename_file, replace_file, write_file, look, is_regular, is_symlink,
}

-- What the system answers, by the number of the call.
pub record System : Type 0 where
  -- the call raises
  pub fault : ℕ → Option Error
  -- `flock` with `LOCK_NB` gets the lock
  pub lock_free : ℕ → Bool
  -- the random part of a name of `mkstemp`
  pub random : ℕ → String
  -- what a write has left in the file before it is complete
  pub torn : ℕ → String
  -- the number of an OSError of `os.fsync` is one of `_DIRECTORY_FSYNC_ERRORS`
  pub is_tolerated : Error → Bool
  -- a path leads to a directory, and not by a symbolic link
  pub is_directory : ℕ → Bool
  -- a symbolic link leads to a file
  pub resolves : ℕ → Bool
  -- the C library and the file system have `renameat2`
  pub has_renameat : ℕ → Bool

-- The directories, how they were, the number of calls, `self._artifact_guards` as depths, and
-- what varies in `destination_lock_name` with `destination_lock`, variables of
-- `_move_to_dead_letter`.
pub record Process : Type 0 where
  pub disk : Disk
  pub past : List Disk
  pub calls : ℕ
  pub guards : List ((Folder × Name) × ℕ)
  pub lease : Option (String × ℕ)

abbrev pub Io : Type 0 → Type 0
Io A = Process → Result A × Process

module _ {A : Type 0} where
  unfoldable pub pure : A → Io A
  pure a s = (ok a, s)

  unfoldable pub throw : Error → Io A
  throw e s = (err e, s)

  unfoldable pub lift : Result A → Io A
  lift r s = (r, s)

module _ {A B : Type 0} where
  abbrev pub continue : Result A → (A → Io B) → Io B
  continue (ok a) f s = f a s
  continue (err e) f s = (err e, s)

  infixl 5 ◌>>=◌ ◌>>◌
  unfoldable pub ◌>>=◌ : Io A → (A → Io B) → Io B
  ◌>>=◌ m f s = let (r, t) = m s in continue r f t

  abbrev pub ◌>>◌ : Io A → Io B → Io B
  m >> k = m >>= λ _. k

module _ {A : Type 0} where
  abbrev pub handle : Result A → (Error → Io A) → Io A
  handle (ok a) f s = (ok a, s)
  handle (err e) f s = f e s

  -- `try: m` with `except`: the handler decides by the error
  unfoldable pub catch : Io A → (Error → Io A) → Io A
  catch m f s = let (r, t) = m s in handle r f t

  -- `try: m finally: k`
  unfoldable pub finally : Io A → Io (Unit {0}) → Io A
  finally m k = catch m (λ e. k >> throw e) >>= λ a. k >> pure a

  -- `except BaseException: k; raise`
  unfoldable pub on_error : Io A → Io (Unit {0}) → Io A
  on_error m k = catch m λ e. k >> throw e

  infix 1 branch◌then◌else◌
  -- `if`
  unfoldable pub branch◌then◌else◌ : Bool → Io A → Io A → Io A
  branch b then m else n = elim b [ true ↦ m | false ↦ n ]

  abbrev pub fail : ErrorClass → String → Io A
  fail c message = lift (raise c message)

-- `with suppress(BaseException): m`
unfoldable pub suppress : Io (Unit {0}) → Io (Unit {0})
suppress m = catch m λ e. pure tt

unfoldable pub when : Bool → Io (Unit {0}) → Io (Unit {0})
when b m = branch b then m else pure tt

module _ {A B : Type 0} where
  unfoldable pub with_option : Option A → Io B → (A → Io B) → Io B
  with_option none n f = n
  with_option (some a) n f = f a

module _ (os : System) where
  -- One system call.
  unfoldable pub call : {A : Type 0} → Effect A → Io A
  call f s = elim (os.fault s.calls) [
    | some e ↦ (err e, record s { calls = suc s.calls })
    | none ↦
        let (r, d) = f s.disk in
        (r, record s { disk = d; past = s.disk ∷ s.past; calls = suc s.calls })
  ]

  -- A call whose answer is the system's.
  unfoldable pub answer : {A : Type 0} → (ℕ → A) → Io A
  answer f s = elim (os.fault s.calls) [
    | some e ↦ (err e, record s { calls = suc s.calls })
    | none ↦ (ok (f s.calls), record s { calls = suc s.calls })
  ]

  -- `os.fsync`, `os.close`, `os.fchmod`, `flock`: the directories stay as they are.
  unfoldable pub touch : Io (Unit {0})
  touch = answer λ _. tt

  -- A directory is open while this runs, or two.
  unfoldable pub in_directory : {A : Type 0} → Io A → Io A
  in_directory m = touch >> finally m touch

  unfoldable pub in_directories : {A : Type 0} → Io A → Io A
  in_directories m = touch >> touch >> finally m (touch >> touch)

  -- `_open_name`
  unfoldable pub open_name : Folder → Name → Io ℕ
  open_name f n = in_directory (call (open_file f n))

  -- `os.fstat` of a descriptor
  unfoldable pub file_stat : ℕ → Io Stat
  file_stat i = call (look (stat_of i))

  -- `os.stat` or `os.lstat` of a name, where a missing name is caught
  unfoldable pub stat_if_there : Folder → Name → Io (Option Stat)
  stat_if_there f n =
      catch (call (stat_name f n) >>= λ there. pure (some there))
        λ e. branch is_missing e.class then pure none else throw e

  -- `_name_exists`
  unfoldable pub name_exists : Folder → Name → Io Bool
  name_exists f n = in_directory (stat_if_there f n) >>= λ found. pure (is_some found)

  -- `Path.exists`, which follows a symbolic link
  unfoldable pub path_exists : Folder → Name → Io Bool
  path_exists f n = stat_if_there f n >>= λ found.
      with_option found (pure false)
        λ st. branch is_symlink st.type then answer os.resolves else pure true

  -- `_unlink_name`
  unfoldable pub unlink_name : Folder → Name → Io (Unit {0})
  unlink_name f n =
      in_directory
        (catch (call (unlink_file f n)) λ e. branch is_missing e.class then pure tt else throw e)

  -- `_open_name_matches`
  unfoldable pub open_name_matches : Folder → Name → ℕ → Io Bool
  open_name_matches f n descriptor = file_stat descriptor >>= λ opened.
      in_directory (stat_if_there f n) >>= λ found.
      with_option found (pure false) λ current.
        pure (is_regular current.type && current.nlink == 1 && current.file == opened.file)

  -- `_unlink_open_name`
  unfoldable pub unlink_open_name : Folder → Name → ℕ → Io Bool
  unlink_open_name f n descriptor = file_stat descriptor >>= λ opened. in_directory (
      stat_if_there f n >>= λ found. with_option found (pure false) λ current.
        branch current.file == opened.file then call (unlink_file f n) >> pure true else pure false)

  -- `_fsync_directory`
  unfoldable pub fsync_directory : Io (Unit {0})
  fsync_directory =
      catch (touch >> pure true) (λ e. branch is_os_error e.class then pure false else throw e)
      >>= λ opened.
          branch opened
          then finally
              (catch touch
                λ e. branch is_os_error e.class && os.is_tolerated e then pure tt else throw e)
              touch
          else pure tt

  unfoldable pub lock_descriptor : Io (Unit {0})
  lock_descriptor = touch

  unfoldable pub try_lock_descriptor : Io Bool
  try_lock_descriptor = answer os.lock_free

  -- `_close_locked_descriptor`: unlock, and close at any rate
  unfoldable pub close_locked_descriptor : Io (Unit {0})
  close_locked_descriptor = finally touch touch

  -- `_close_locked_descriptor_with_retry`
  unfoldable pub close_with_retry : Io (Unit {0})
  close_with_retry = on_error close_locked_descriptor (suppress close_locked_descriptor)

  -- `if locked: _close_locked_descriptor_with_retry(...) else: os.close(...)`
  unfoldable pub close_by : Bool → Io (Unit {0})
  close_by locked = branch locked then close_with_retry else touch

  -- `_open_record`
  unfoldable pub open_record : Folder → Name → Io ℕ
  open_record f n = open_name f n >>= λ i.
      on_error
        (file_stat i >>= λ opened.
          branch not (is_regular opened.type) || not (opened.nlink == 1)
          then fail value_error "not a pending spool record"
          else pure i)
        touch

  -- `_linux_rename_noreplace`: whether `renameat2` has answered
  unfoldable pub linux_rename_noreplace : Folder → Name → Folder → Name → Io Bool
  linux_rename_noreplace f n g m = answer os.has_renameat >>= λ there.
      branch there then call (rename_file f n g m) >> pure true else pure false

  -- `_publish_noreplace`
  unfoldable pub publish_noreplace : Folder → Name → Folder → Name → Io (Unit {0})
  publish_noreplace f n g m = in_directories (
      linux_rename_noreplace f n g m >>= λ renamed.
      branch renamed then pure tt else call (link_file f n g m) >> call (unlink_file f n))

  -- `_replace_name`
  unfoldable pub replace_name : Folder → Name → Folder → Name → Io (Unit {0})
  replace_name f n g m = in_directories (call (replace_file f n g m))

  -- `tempfile.mkstemp`: an empty file under a new name with this prefix
  unfoldable pub make_temporary : Folder → (String → Name) → Io (Name × ℕ)
  make_temporary f name =
      answer os.random >>= λ r. call (create_file f (name r)) >>= λ i. pure (name r, i)

  -- `handle.write` and `flush`: part of the text stands in the file before the whole of it.
  unfoldable pub write_all : ℕ → String → Io (Unit {0})
  write_all i content =
      answer os.torn >>= λ part. call (write_file i part) >> call (write_file i content)
