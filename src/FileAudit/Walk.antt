-- ===== src/FileAudit/Walk.antt =====
-- `_iter_regular_files` of monitor_agent/collectors/file_audit.py, on a tree of names. `os.walk` is not
-- the program's own code: it lists a directory before those below it, and raises where it cannot.
use employee_tracker.Common.{String, Bool, true, false, List, [], ◌∷◌, ◌++◌, if◌then◌else◌}
use employee_tracker.Common.Sort.{sorted}
use employee_tracker.FileAudit.Collect.{Candidate, AuditPath, absent, unreadable, walk}

mutual
  -- What a name stands for: a symbolic link to a directory or to something else, a directory, or
  -- anything else, which `os.walk` counts among the files.
  pub data Place : Type 0 where
    directory_link file_link : Place
    directory : Listing → Place
    file : Candidate → Place

  -- A directory that cannot be listed, or its members.
  pub data Listing : Type 0 where
    unlisted : Listing
    listed : Members → Listing

  pub data Members : Type 0 where
    no_more : Members
    member_of : String → Place → Members → Members

-- What a generator yields, and whether it ends by an OSError.
abbrev pub Yield : Type 0
Yield = List Candidate × Bool

unfoldable pub yield_from : List (String × Yield) → Yield
yield_from [] = ([], false)
yield_from ((name, (candidates, fails)) ∷ parts) =
    let rest = yield_from parts in
    if fails then (candidates, true) else (candidates ++ rest.0, rest.1)

-- What the tests of an audit path say: an OSError, a name that is missing, or a place.
pub data Target : Type 0 where
  failing missing : Target
  found : Place → Bool → Target

-- The order of names, as `sorted` has it.
module _ (name_le : String → String → Bool) where
  abbrev by_name : {A : Type 0} → String × A → String × A → Bool
  by_name a b = name_le a.0 b.0

  -- The files among `file_names` that are no symbolic links.
  unfoldable pub files_of : Members → List (String × Yield)
  files_of no_more = []
  files_of (member_of name (file c) members) = (name, (c ∷ [], false)) ∷ files_of members
  files_of (member_of name _ members) = files_of members

  unfoldable mutual
    -- The loop over `os.walk`, from a directory on.
    pub walk_listing : Listing → Yield
    walk_listing unlisted = ([], true)
    walk_listing (listed members) =
        let below = sorted by_name (directories_of members) in
        yield_from (("", yield_from (sorted by_name (files_of members))) ∷ below)

    -- The directories among `directory_names` that are no symbolic links, with what is below them.
    pub directories_of : Members → List (String × Yield)
    directories_of no_more = []
    directories_of (member_of name (directory l) members) =
        (name, walk_listing l) ∷ directories_of members
    directories_of (member_of name _ members) = directories_of members

  -- `_iter_regular_files` of a target; the flag says that a name that is no directory is a regular
  -- file.
  unfoldable pub iter_regular_files : Place → Bool → Yield
  iter_regular_files (file c) is_file = if is_file then (c ∷ [], false) else ([], false)
  iter_regular_files (directory l) is_file = walk_listing l
  iter_regular_files _ is_file = ([], false)

  -- The tests of `collect` for one audit path, and its walk.
  unfoldable pub audit_path_of : Target → AuditPath
  audit_path_of failing = unreadable
  audit_path_of missing = absent
  audit_path_of (found directory_link is_file) = absent
  audit_path_of (found file_link is_file) = absent
  audit_path_of (found place is_file) =
      let yielded = iter_regular_files place is_file in walk yielded.0 yielded.1
