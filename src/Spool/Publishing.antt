-- ===== src/Spool/Publishing.antt =====
-- A record that is held stays held while `enqueue` of monitor_agent/spool.py stores another.
use employee_tracker.Common.{
  ◌≡◌, refl, ◌∙◌, not, true, Option, some, Option-cases, inl, inr, ℕ, zero, suc, String,
}
use employee_tracker.Spool.Store.{Clerk}
use employee_tracker.Spool.Disk.{Name, pending, root, Disk, same_kind, find, rename_file, link_file}
use employee_tracker.Spool.Calls.{System, call, linux_rename_noreplace, publish_noreplace}
use employee_tracker.Spool.Guards.{Hashes}
use employee_tracker.Spool.Markers.{Codec, text_name, numbered_name}
use employee_tracker.Spool.Queue.{
  spool_file, publish_lock_name, unlink_if_exists, fill_staged, write_staged, publish_as,
  publish_from, publish_staged, publish_or_undo, store_record,
}
use employee_tracker.Spool.Keeps.{Keeps, keeps_rules, Keeps-call}
use employee_tracker.Spool.Looking.{
  in_directories-Keeps, touch-Keeps, lock_descriptor-Keeps, close_with_retry-Keeps,
  fsync_directory-Keeps,
}
use employee_tracker.Spool.Auxiliary.{
  IsHidden, unlink_file-Keeps, unlink_name-Keeps, acquire_artifact_guard-Keeps,
  release_artifact_guard-Keeps, acquire_reservation-Keeps, release_reservation-Keeps,
}
use employee_tracker.Spool.Learns.{
  Learns, Learns-given, Learns-on_error, Learns-branch, Learns-lift_err, From-bind, From-by,
  Keeps-From, Learns-bind, Learns-Keeps, Learns-pure,
}
use employee_tracker.Spool.Held.{
  Held, IsOther, Held-Robust, hidden-differs, hidden-delete-Held, find-remove,
}
use employee_tracker.Spool.Moved.{free-Held}
use employee_tracker.Spool.Retained.{link_file-Held}
use employee_tracker.Spool.Marking.{Learns-make_temporary, write_all-Keeps}
use employee_tracker.Spool.Safe.{prepare-Held}

module _ {o : Option Name} {i : ℕ} {c : String} (os : System) where
  rename_hidden-Held :
      (n m : Name) (d : Disk)
      → IsHidden n
      → same_kind m.kind pending ≡ true
      → Held o i c d
      → Held o i c (rename_file root n root m d).1
  unfolding rename_file
  rename_hidden-Held n m d hidden is_record p = elim (Option-cases (find n d.root_names)) [
    | inl e ↦ rw (e, rename_file) p
    | inr (k, e) ↦ elim (Option-cases (find m d.root_names)) [
      | inl free ↦
          rw (e, rename_file, free)
            (free-Held root m k _
              (find-remove n m d.root_names (hidden-differs n m hidden is_record) ∙ free)
              (hidden-delete-Held root n d hidden p))
      | inr (x, taken) ↦ rw (e, rename_file, taken) p
    ]
  ]

  publish_hidden-Held :
      (n m : Name)
      → IsHidden n
      → same_kind m.kind pending ≡ true
      → Keeps (Held o i c) (publish_noreplace os root n root m)
  unfolding publish_noreplace linux_rename_noreplace
  publish_hidden-Held n m hidden is_record =
      let renamed =
        Keeps-call os (rename_file root n root m)
          λ d p. rename_hidden-Held n m d hidden is_record p in
      let linked : Keeps (Held o i c) (call os (link_file root n root m)) =
        Keeps-call os (link_file root n root m) λ d p. link_file-Held os root n root m d p in
      let unlinked = unlink_file-Keeps (Held-Robust {o = o} {i = i} {c = c}) os root n hidden in
      search (keeps_rules, in_directories-Keeps os) depth 8

  module _ (h : Hashes) (j : Codec) (k : Clerk) (size : String → ℕ) where
    publish_as-Held :
        (n : Name) (destination : String) (l : ℕ)
        → IsHidden n
        → Keeps (Held o i c) (publish_as os h j k size n destination l)
    unfolding publish_as
    publish_as-Held n destination l hidden =
        let lock = publish_lock_name h destination in
        let published = publish_hidden-Held n (text_name destination) hidden refl in
        let released =
          release_reservation-Keeps (Held-Robust {o = o} {i = i} {c = c}) os h root lock (some l)
            refl in
        search
          (
            keeps_rules,
            fsync_directory-Keeps os,
            close_with_retry-Keeps os,
            release_artifact_guard-Keeps Held-Robust os h,
          )
          depth 12

    publish_from-Held :
        (left : ℕ) (n : Name) (name : String) (number : ℕ)
        → IsHidden n
        → Keeps (Held o i c) (publish_from os h j k size left n name number)
    unfolding publish_from
    publish_from-Held zero n name number hidden = search keeps_rules
    publish_from-Held (suc left) n name number hidden =
        let lock = publish_lock_name h (numbered_name j name number) in
        let again = publish_from-Held left n name (suc number) hidden in
        let reserved =
          acquire_reservation-Keeps (Held-Robust {o = o} {i = i} {c = c}) os h root lock refl in
        let released = λ (l : ℕ).
          release_reservation-Keeps (Held-Robust {o = o} {i = i} {c = c}) os h root lock (some l)
            refl in
        search (keeps_rules, publish_as-Held) depth 12

    publish_or_undo-Held :
        (name : String) (n : Name)
        → IsHidden n
        → Keeps (Held o i c) (publish_or_undo os h j k size name n)
    unfolding publish_or_undo publish_staged
    publish_or_undo-Held name n hidden =
        search
          (
            keeps_rules,
            publish_from-Held,
            close_with_retry-Keeps os,
            unlink_name-Keeps Held-Robust os,
            release_artifact_guard-Keeps Held-Robust os h,
          )
          depth 12

    fill_staged-Held :
        (encoded : String) (n : Name) (l : ℕ)
        → IsHidden n
        → IsOther i l
        → Keeps (Held o i c) (fill_staged os h j k size encoded n l)
    unfolding fill_staged unlink_if_exists
    fill_staged-Held encoded n l hidden other =
        search
          (
            keeps_rules,
            lock_descriptor-Keeps os,
            touch-Keeps os,
            write_all-Keeps Held-Robust os,
            close_with_retry-Keeps os,
            unlink_name-Keeps Held-Robust os,
            release_artifact_guard-Keeps Held-Robust os h,
          )
          depth 14

    -- The staged file of `write_staged` is hidden, and another.
    Learns-write_staged :
        (encoded : String)
        → Learns
            (Held o i c)
            (λ d. Unit {0})
            (write_staged os h j k size encoded)
            λ a d. IsHidden a.0 × IsOther i a.1
    unfolding write_staged
    Learns-write_staged encoded =
        Learns-bind (λ got d. Unit {0}) _ _ _
          (Learns-Keeps _ (acquire_artifact_guard-Keeps Held-Robust os h root spool_file true))
          λ got. Learns-branch _ (not got) _ _ (Learns-lift_err _ _) (
            Learns-bind (λ a d. IsHidden a.0 × IsOther i a.1) _ _ _
              (Learns-on_error _ _ _ (Learns-make_temporary Held-Robust os root _ λ r. refl)
                (release_artifact_guard-Keeps Held-Robust os h root spool_file))
              λ (n, l). Learns-given (IsHidden n × IsOther i l) _ _ λ v.
                Learns-bind (λ u d. Unit {0}) _ _ _
                  (Learns-Keeps _ (fill_staged-Held encoded n l v.0 v.1))
                  λ u. Learns-pure _ (n, l) λ d p. v)

    pub store_record-Held :
        (name encoded : String) → Keeps (Held o i c) (store_record os h j k size name encoded)
    unfolding store_record
    store_record-Held name encoded = Keeps-From _ (
        From-bind (λ a d. IsHidden a.0 × IsOther i a.1) _ _
          (Learns-bind (λ u d. Unit {0}) _ _ _ (Learns-Keeps _ (prepare-Held os h j))
            λ u. Learns-write_staged encoded)
          λ (n, l). From-by (IsHidden n × IsOther i l) _ λ v.
            let published = publish_or_undo-Held name n v.0 in
            search
              (
                keeps_rules,
                close_with_retry-Keeps os,
                release_artifact_guard-Keeps Held-Robust os h,
              )
              depth 10)
