-- ===== src/Spool/Disk.antt =====
-- The two directories below monitor_agent/spool.py: names for numbered files, as on a POSIX file
-- system. A name is sorted by the prefix and the suffix that the program gives it.
use employee_tracker.Common.{
  ℕ, suc, ◌+◌, String, Bool, true, false, ◌&&◌, Option, none, some, List, [], ◌∷◌, Result, ok,
  raise, file_exists, file_not_found, os_error, str_eq, ◌==◌, is_some, if◌then◌else◌,
}
use employee_tracker.Common.Int.{ℤ}

pub data Kind : Type 0 where
  -- `*.json`, `.spool-*`, `.publish-*`
  pending staged publish_lock : Kind
  -- `.deadop-*.lock`, `.deadop-*.json`, `.deadres-*`, `.deadmark-*`
  operation_lock marker destination_lock marker_temp : Kind
  -- `.artifact-guard-*`, and every other name
  guard foreign : Kind

abbrev pub kind_code : Kind → ℕ
kind_code pending = 0
kind_code staged = 1
kind_code publish_lock = 2
kind_code operation_lock = 3
kind_code marker = 4
kind_code destination_lock = 5
kind_code marker_temp = 6
kind_code guard = 7
kind_code foreign = 8

abbrev pub same_kind : Kind → Kind → Bool
same_kind j k = kind_code j == kind_code k

-- The text of a pending record's name is the whole name, that of another name what varies in it.
pub record Name : Type 0 where
  pub kind : Kind
  pub text : String

abbrev pub same : Name → Name → Bool
same m n = same_kind m.kind n.kind && str_eq m.text n.text

pub data Folder : Type 0 where
  root dead_letter : Folder

pub data NodeType : Type 0 where
  regular_file symlink special : NodeType

abbrev pub is_regular : NodeType → Bool
is_regular regular_file = true
is_regular _ = false

abbrev pub is_symlink : NodeType → Bool
is_symlink symlink = true
is_symlink _ = false

pub record Node : Type 0 where
  pub type : NodeType
  pub content : String
  -- microseconds since the epoch
  pub mtime : ℤ

abbrev pub Names : Type 0
Names = List (Name × ℕ)

-- A file is a number below `next`, at which `nodes` has it.
pub record Disk : Type 0 where
  pub root_names : Names
  pub dead_names : Names
  pub nodes : ℕ → Node
  pub next : ℕ

unfoldable pub find : Name → Names → Option ℕ
find n [] = none
find n ((m, i) ∷ es) = if same m n then some i else find n es

unfoldable pub remove : Name → Names → Names
remove n [] = []
remove n ((m, i) ∷ es) = let rest = remove n es in if same m n then rest else (m, i) ∷ rest

abbrev pub names : Folder → Disk → Names
names root d = d.root_names
names dead_letter d = d.dead_names

abbrev pub set_names : Folder → Names → Disk → Disk
set_names root es d = record d { root_names = es }
set_names dead_letter es d = record d { dead_names = es }

abbrev pub put : Folder → Name → ℕ → Disk → Disk
put f n i d = set_names f ((n, i) ∷ names f d) d

abbrev pub delete : Folder → Name → Disk → Disk
delete f n d = set_names f (remove n (names f d)) d

abbrev pub set_node : ℕ → Node → Disk → Disk
set_node i v d = record d { nodes = λ j. if j == i then v else d.nodes j }

-- `st_nlink`
unfoldable pub uses : ℕ → Names → ℕ
uses i [] = 0
uses i ((m, j) ∷ es) = (if j == i then 1 else 0) + uses i es

abbrev pub links : ℕ → Disk → ℕ
links i d = uses i d.root_names + uses i d.dead_names

abbrev pub Effect : Type 0 → Type 0
Effect A = Disk → Result A × Disk

-- `os.open` without and with `O_CREAT | O_EXCL`, `O_NOFOLLOW` in both
unfoldable pub open_file : Folder → Name → Effect ℕ
open_file f n d = elim (find n (names f d)) [
  | none ↦ (raise file_not_found "", d)
  | some i ↦ elim (d.nodes i).type [ symlink ↦ (raise os_error "", d) | _ ↦ (ok i, d) ]
]

abbrev empty_node : Node
empty_node = record { type = regular_file; content = ""; mtime = ℤ.pos 0 }

abbrev pub with_new : Folder → Name → Disk → Disk
with_new f n d = record (put f n d.next (set_node d.next empty_node d)) { next = suc d.next }

unfoldable pub create_file : Folder → Name → Effect ℕ
create_file f n d =
    if is_some (find n (names f d)) then (raise file_exists "", d) else (ok d.next, with_new f n d)

-- `os.open` with `O_CREAT`
unfoldable pub open_or_create : Folder → Name → Effect ℕ
open_or_create f n d =
    if is_some (find n (names f d)) then open_file f n d else (ok d.next, with_new f n d)

unfoldable pub unlink_file : Folder → Name → Effect (Unit {0})
unlink_file f n d =
    if is_some (find n (names f d)) then (ok tt, delete f n d) else (raise file_not_found "", d)

-- `os.stat_result`, where the file's number stands for `(st_dev, st_ino)`
pub record Stat : Type 0 where
  pub file : ℕ
  pub type : NodeType
  pub nlink : ℕ

abbrev pub stat_of : ℕ → Disk → Stat
stat_of i d = record { file = i; type = (d.nodes i).type; nlink = links i d }

-- `os.lstat`
unfoldable pub stat_name : Folder → Name → Effect Stat
stat_name f n d = elim (find n (names f d)) [
  | none ↦ (raise file_not_found "", d)
  | some i ↦ (ok (stat_of i d), d)
]

-- `os.link`
unfoldable pub link_file : Folder → Name → Folder → Name → Effect (Unit {0})
link_file f n g m d = elim (find n (names f d)) [
  | none ↦ (raise file_not_found "", d)
  | some i ↦
      if is_some (find m (names g d)) then (raise file_exists "", d) else (ok tt, put g m i d)
]

-- `renameat2` with `RENAME_NOREPLACE`
unfoldable pub rename_file : Folder → Name → Folder → Name → Effect (Unit {0})
rename_file f n g m d = elim (find n (names f d)) [
  | none ↦ (raise file_not_found "", d)
  | some i ↦
      if is_some (find m (names g d))
      then (raise file_exists "", d)
      else (ok tt, put g m i (delete f n d))
]

-- `os.replace`
unfoldable pub replace_file : Folder → Name → Folder → Name → Effect (Unit {0})
replace_file f n g m d = elim (find n (names f d)) [
  | none ↦ (raise file_not_found "", d)
  | some i ↦ (ok tt, put g m i (delete g m (delete f n d)))
]

-- A write to an open file.
unfoldable pub write_file : ℕ → String → Effect (Unit {0})
write_file i content d = (ok tt, set_node i (record (d.nodes i) { content = content }) d)

-- A call that changes neither directory.
abbrev pub look : {A : Type 0} → (Disk → A) → Effect A
look f d = (ok (f d), d)
