-- ===== src/Spool/Seen.antt =====
-- What the system calls of monitor_agent/spool.py tell of the directories.
use employee_tracker.Common.{◌≡◌, sym, ap, Option, some, ok, Option-cases, Bool-cases, inl, inr, ℕ}
use employee_tracker.Identity.{is_missing}
use employee_tracker.Spool.Disk.{
  Disk, Effect, Folder, Name, Stat, find, names, look, stat_name, stat_of,
}
use employee_tracker.Spool.Calls.{
  System, Process, Io, pure, throw, catch, branch◌then◌else◌, ◌>>=◌, call, file_stat, stat_if_there,
  in_directory, touch,
}
use employee_tracker.Spool.Looking.{touch-Keeps, file_stat-Keeps, stat_if_there-Keeps}
use employee_tracker.Spool.Learns.{From, Learns, Learns-quiet, From-bind, From-imply, From-finally}
use employee_tracker.Spool.Still.{Still-touch, Still-look, stat_if_there-Still}

module _ {J : Disk → Type 0} {P : Disk → Type 0} (os : System) {A : Type 0} where
  pub From-call : (f : Effect A) → ((d : Disk) → J d → P d → J (f d).1) → From J P (call os f)
  unfolding call
  From-call f kept = record {
    at = λ s h p. elim (Option-cases (os.fault s.calls)) [
      | inl e ↦ rw (e, call) (kept s.disk h.0 p, h)
      | inr (x, e) ↦ rw (e, call) h
    ];
  }

  pub Learns-call :
      (Q : A → Disk → Type 0) (f : Effect A)
      → ((d : Disk) → J d → P d → J (f d).1)
      → ((d : Disk) (a : A) → J d → P d → (f d).0 ≡ ok a → Q a (f d).1)
      → Learns J P (call os f) Q
  unfolding call
  Learns-call Q f kept told = record {
    run = λ s h p. elim (Option-cases (os.fault s.calls)) [
      | inl e ↦ rw (e, call) ((kept s.disk h.0 p, h), λ a r. told s.disk a h.0 p r)
      | inr (x, e) ↦ rw (e, call) (h, λ a r. cc)
    ];
  }

module _ (os : System) where
  pub From-in_directory :
      {J : Disk → Type 0} {P : Disk → Type 0} {A : Type 0} (m : Io A)
      → From J P m
      → From J P (in_directory os m)
  unfolding in_directory
  From-in_directory {P = P} m f =
      From-bind (λ u d. P d × Unit {0}) _ _
        (Learns-quiet (λ u d. Unit {0}) (touch os) (touch-Keeps os) (Still-touch os).still
          λ s a e. tt)
        λ u. From-imply P _ (λ d p. p.0) (From-finally m (touch os) f (touch-Keeps os))

  pub look-told :
      {A : Type 0} (g : Disk → A) (s : Process) (a : A)
      → (call os (look g) s).0 ≡ ok a
      → g s.disk ≡ a
  unfolding call
  look-told g s a = elim (Option-cases (os.fault s.calls)) [
    | inl e ↦ rw (e, call) (λ r. cc)
    | inr (x, e) ↦ rw (e, call) (λ r. cc)
  ]

  stat_if_there-told :
      (f : Folder) (n : Name) (s : Process) (o : Option Stat) (a : Stat)
      → (stat_if_there os f n s).0 ≡ ok o
      → o ≡ some a
      → find n (names f s.disk) ≡ some a.file
  unfolding stat_if_there catch ◌>>=◌ stat_name call branch◌then◌else◌ pure throw
  stat_if_there-told f n s o a = elim (Option-cases (os.fault s.calls)) [
    | inl e ↦ elim (Option-cases (find n (names f s.disk))) [
      | inl none_there ↦ rw (e, call, none_there) (λ r q. cc)
      | inr (i, there) ↦
          rw (e, call, there)
            (λ r q. let same : stat_of i s.disk ≡ a = cc in ap (λ x. some x.file) same)
    ]
    | inr (x, e) ↦ elim (Bool-cases (is_missing x.class)) [
      | inl b ↦ rw (e, call, b) (λ r q. cc)
      | inr b ↦ rw (e, call, b) (λ r q. cc)
    ]
  ]

  -- What the two looks of the program tell.
  module _ {J : Disk → Type 0} {P : Disk → Type 0} where
    pub Learns-file_stat : (i : ℕ) → Learns J P (file_stat os i) λ a d. P d × a.file ≡ i
    unfolding file_stat call
    Learns-file_stat i =
        Learns-quiet (λ a d. a.file ≡ i) (file_stat os i) (file_stat-Keeps os i)
          (Still-look os (stat_of i)).still
          λ s a r. sym (ap (λ x. x.file) (look-told (stat_of i) s a r))

    pub Learns-stat_if_there :
        (f : Folder) (n : Name)
        → Learns J P
            (stat_if_there os f n)
            λ o d. P d × ((a : Stat) → o ≡ some a → find n (names f d) ≡ some a.file)
    Learns-stat_if_there f n =
        Learns-quiet (λ o d. (a : Stat) → o ≡ some a → find n (names f d) ≡ some a.file)
          (stat_if_there os f n) (stat_if_there-Keeps os f n) (stat_if_there-Still os f n).still
          λ s o r a e. stat_if_there-told f n s o a r e
