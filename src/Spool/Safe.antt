-- ===== src/Spool/Safe.antt =====
-- The operations of monitor_agent/spool.py on a record that is held: whatever call raises, and wherever
-- the process stops, it is still there.
use employee_tracker.Common.{Bool, Option, List, [], ◌∷◌, ℕ, String}
use employee_tracker.Spool.Disk.{Name, root, dead_letter, Disk, Stat}
use employee_tracker.Spool.Calls.{System, Io}
use employee_tracker.Spool.Guards.{Hashes}
use employee_tracker.Spool.Markers.{Codec}
use employee_tracker.Spool.Recovery.{
  filter_calls, is_other_link, recover_pending_link, recover_pending_links, open_if_there,
  recover_dead_letter_link, recover_dead_letter_links, ensure_directories, prepare,
  ensure_directory,
}
use employee_tracker.Spool.Keeps.{Keeps, keeps_rules, Keeps-pure}
use employee_tracker.Spool.Looking.{
  open_name-Keeps, file_stat-Keeps, touch-Keeps, stat_if_there-Keeps, fsync_directory-Keeps,
  under_lock-Keeps,
}
use employee_tracker.Spool.Auxiliary.{
  Robust, unlink_open_name-Keeps, under_guard-Keeps, open_if_possible-Keeps, list_names-Keeps,
  cleanup_hidden_artifacts-Keeps,
}
use employee_tracker.Spool.Marking.{decode_operation_marker-Keeps}
use employee_tracker.Spool.Retained.{unlink_moved-Held}
use employee_tracker.Spool.Held.{Held, Held-Robust}

module _ {J : Disk → Type 0} where
  filter_calls-Keeps :
      (xs : List Name) (p : Name → Io Bool)
      → ((n : Name) → Keeps J (p n))
      → Keeps J (filter_calls xs p)
  unfolding filter_calls
  filter_calls-Keeps [] p q = Keeps-pure []
  filter_calls-Keeps (x ∷ xs) p q =
      let again = filter_calls-Keeps xs p q in search keeps_rules depth 8

  module _ (os : System) (h : Hashes) (j : Codec) where
    is_other_link-Keeps : (st : Stat) (n : Name) → Keeps J (is_other_link os h j st n)
    unfolding is_other_link
    is_other_link-Keeps st n = search (keeps_rules, stat_if_there-Keeps os)

    open_if_there-Keeps : (n : Name) → Keeps J (open_if_there os h j n)
    unfolding open_if_there
    open_if_there-Keeps n = search (keeps_rules, open_name-Keeps os) depth 8

    ensure_directories-Keeps : Keeps J (ensure_directories os h j)
    unfolding ensure_directories ensure_directory
    ensure_directories-Keeps = search (keeps_rules, touch-Keeps os) depth 10

module _ {J : Disk → Type 0} {W : ℕ → Type 0} (robust : Robust J W) (os : System) (h : Hashes)
    (j : Codec) where
  recover_pending_link-Keeps : (n : Name) → Keeps J (recover_pending_link os h j n)
  unfolding recover_pending_link
  recover_pending_link-Keeps n = under_guard-Keeps robust os h root n tt _ λ hidden.
      search
        (
          keeps_rules,
          open_if_possible-Keeps robust os h,
          under_lock-Keeps os h,
          file_stat-Keeps os,
          list_names-Keeps robust os h,
          filter_calls-Keeps,
          is_other_link-Keeps os h j,
          unlink_open_name-Keeps robust os,
          fsync_directory-Keeps os,
        )
        depth 16

  recover_pending_links-Keeps : Keeps J (recover_pending_links os h j)
  unfolding recover_pending_links
  recover_pending_links-Keeps =
      search (keeps_rules, list_names-Keeps robust os h, recover_pending_link-Keeps) depth 8

module _ {o : Option Name} {i : ℕ} {c : String} (os : System) (h : Hashes) (j : Codec) where
  recover_dead_letter_link-Held :
      (n : Name) → Keeps (Held o i c) (recover_dead_letter_link os h j n)
  unfolding recover_dead_letter_link
  recover_dead_letter_link-Held n =
      under_guard-Keeps (Held-Robust {o = o} {i = i} {c = c}) os h dead_letter _ tt _ λ hidden.
        search
          (
            keeps_rules,
            decode_operation_marker-Keeps os h j,
            open_if_there-Keeps os h j,
            under_lock-Keeps os h,
            unlink_moved-Held os h j,
          )
          depth 12

  recover_dead_letter_links-Held : Keeps (Held o i c) (recover_dead_letter_links os h j)
  unfolding recover_dead_letter_links
  recover_dead_letter_links-Held =
      search (keeps_rules, list_names-Keeps Held-Robust os h, recover_dead_letter_link-Held) depth 8

  pub prepare-Held : Keeps (Held o i c) (prepare os h j)
  unfolding prepare
  prepare-Held =
      search
        (
          keeps_rules,
          ensure_directories-Keeps os h j,
          recover_dead_letter_links-Held,
          recover_pending_links-Keeps Held-Robust os h j,
          cleanup_hidden_artifacts-Keeps Held-Robust os h,
        )
        depth 8
