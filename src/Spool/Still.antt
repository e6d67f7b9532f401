-- ===== src/Spool/Still.antt =====
-- What a run of an action of monitor_agent/spool.py that returns leaves in the directories.
use employee_tracker.Common.{
  ◌≡◌, refl, sym, ap, subst, ◌∙◌, inl, inr, ℕ, Bool, true, false, Option, none, some, Result, ok,
  err, Error, [], ◌∷◌, Option-cases, Bool-cases, arith,
}
use employee_tracker.Identity.{is_missing}
use employee_tracker.Spool.Disk.{
  Disk, Folder, root, Name, Names, find, remove, same, names, look, stat_name, unlink_file,
}
use employee_tracker.Spool.Calls.{
  System, Process, Io, pure, throw, catch, handle, continue, with_option, branch◌then◌else◌, lift,
  ◌>>=◌, ◌>>◌, call, touch, answer, stat_if_there, finally, in_directory, unlink_name,
}
use employee_tracker.Spool.DeadLetter.{validated_record_stat}

-- However it ends, the directories are as they were.
pub record Still {A : Type 0} (m : Io A) : Type 0 where
  pub still : (s : Process) → (m s).1.disk ≡ s.disk

-- A run that returns leaves directories that stand in this relation to those before.
pub record Returns (R : Disk → Disk → Type 0) {A : Type 0} (m : Io A) : Type 0 where
  pub returns : (s : Process) (a : A) → (m s).0 ≡ ok a → R s.disk (m s).1.disk

module _ {A B : Type 0} where
  Still-continue :
      (r : Result A) (f : A → Io B) (t : Process)
      → ((a : A) → Still (f a))
      → (continue r f t).1.disk ≡ t.disk
  Still-continue (ok a) f t h = (h a).still t
  Still-continue (err e) f t h = refl

  pub Still-bind : (m : Io A) (f : A → Io B) → Still m → ((a : A) → Still (f a)) → Still (m >>= f)
  unfolding ◌>>=◌
  Still-bind m f h k = record { still = λ s. Still-continue (m s).0 f (m s).1 k ∙ h.still s }

module _ {A : Type 0} where
  pub Still-pure : (a : A) → Still (pure a)
  unfolding pure
  Still-pure a = record { still = λ s. refl }

  pub Still-throw : (e : Error) → Still (throw {A = A} e)
  unfolding throw
  Still-throw e = record { still = λ s. refl }

  pub Still-lift : (r : Result A) → Still (lift r)
  unfolding lift
  Still-lift r = record { still = λ s. refl }

  Still-handle :
      (r : Result A) (f : Error → Io A) (t : Process)
      → ((e : Error) → Still (f e))
      → (handle r f t).1.disk ≡ t.disk
  Still-handle (ok a) f t h = refl
  Still-handle (err e) f t h = (h e).still t

  pub Still-catch :
      (m : Io A) (f : Error → Io A) → Still m → ((e : Error) → Still (f e)) → Still (catch m f)
  unfolding catch
  Still-catch m f h k = record { still = λ s. Still-handle (m s).0 f (m s).1 k ∙ h.still s }

  pub Still-branch : (b : Bool) (m n : Io A) → Still m → Still n → Still (branch b then m else n)
  unfolding branch◌then◌else◌
  Still-branch true m n h k = h
  Still-branch false m n h k = k

pub Still-with_option :
    {A B : Type 0} (o : Option A) (n : Io B) (f : A → Io B)
    → Still n
    → ((a : A) → Still (f a))
    → Still (with_option o n f)
unfolding with_option
Still-with_option none n f h k = h
Still-with_option (some a) n f h k = k a

module _ (os : System) where
  pub Still-touch : Still (touch os)
  unfolding touch answer
  Still-touch = record {
    still = λ s. elim (Option-cases (os.fault s.calls)) [
      | inl quiet ↦ rw (touch, answer, quiet) refl
      | inr (e, raised) ↦ rw (touch, answer, raised) refl
    ];
  }

  pub Still-stat : (f : Folder) (n : Name) → Still (call os (stat_name f n))
  unfolding call stat_name
  Still-stat f n = record {
    still = λ s. elim (Option-cases (os.fault s.calls)) [
      | inr (e, raised) ↦ rw (call, raised) refl
      | inl quiet ↦ elim (Option-cases (find n (names f s.disk))) [
        | inl missing ↦ rw (call, stat_name, quiet, missing) refl
        | inr (i, there) ↦ rw (call, stat_name, quiet, there) refl
      ]
    ];
  }

module _ (os : System) where
  pub Still-look : {A : Type 0} (g : Disk → A) → Still (call os (look g))
  unfolding call
  Still-look g = record {
    still = λ s. elim (Option-cases (os.fault s.calls)) [
      | inl quiet ↦ rw (call, quiet) refl
      | inr (e, raised) ↦ rw (call, raised) refl
    ];
  }

pub ruleset still_rules = (
  Still-bind, Still-pure, Still-throw, Still-lift, Still-catch, Still-branch, Still-with_option,
  Still-touch, Still-stat,
)

module _ (os : System) where
  pub stat_if_there-Still : (f : Folder) (n : Name) → Still (stat_if_there os f n)
  unfolding stat_if_there
  stat_if_there-Still f n = search still_rules depth 9

  pub validated_record_stat-Still : (n : Name) → Still (validated_record_stat os n)
  unfolding validated_record_stat stat_if_there
  validated_record_stat-Still n = search (still_rules) depth 12

module _ (R : Disk → Disk → Type 0) {A B : Type 0} where
  Returns-continue_after :
      (r : Result A) (f : A → Io B) (t : Process) (d : Disk) (b : B)
      → ((a : A) → Returns R (f a))
      → t.disk ≡ d
      → (continue r f t).0 ≡ ok b
      → R d (continue r f t).1.disk
  Returns-continue_after (ok a) f t d b k same e =
      subst (λ x. R x (f a t).1.disk) same ((k a).returns t b e)
  Returns-continue_after (err raised) f t d b k same e = cc

  -- An action that leaves the directories alone may stand before or behind.
  pub Returns-after :
      (m : Io A) (f : A → Io B) → Still m → ((a : A) → Returns R (f a)) → Returns R (m >>= f)
  unfolding ◌>>=◌
  Returns-after m f h k = record {
    returns = λ s b e. Returns-continue_after (m s).0 f (m s).1 s.disk b k (h.still s) e;
  }

  Returns-continue_before :
      (r : Result A) (f : A → Io B) (t : Process) (d : Disk) (b : B)
      → ((a : A) → Still (f a))
      → ((a : A) → r ≡ ok a → R d t.disk)
      → (continue r f t).0 ≡ ok b
      → R d (continue r f t).1.disk
  Returns-continue_before (ok a) f t d b k h e = subst (R d) (sym ((k a).still t)) (h a refl)
  Returns-continue_before (err raised) f t d b k h e = cc

  pub Returns-before :
      (m : Io A) (f : A → Io B) → Returns R m → ((a : A) → Still (f a)) → Returns R (m >>= f)
  unfolding ◌>>=◌
  Returns-before m f h k = record {
    returns = λ s b e. Returns-continue_before (m s).0 f (m s).1 s.disk b k (h.returns s) e;
  }

module _ (R : Disk → Disk → Type 0) {A : Type 0} where
  Returns-handle_raises :
      (r : Result A) (k : Io (Unit {0})) (t : Process) (a : A)
      → (handle r (λ e. k >> throw e) t).0 ≡ ok a
      → (r ≡ ok a) × ((handle r (λ e. k >> throw e) t).1.disk ≡ t.disk)
  unfolding ◌>>=◌ throw
  Returns-handle_raises (ok b) k t a e = (e, refl)
  Returns-handle_raises (err raised) k t a e = absurd (ground arith)

  Returns-cleanup :
      (m : Io A) (k : Io (Unit {0})) → Returns R m → Returns R (catch m λ e. k >> throw e)
  unfolding catch
  Returns-cleanup m k h = record {
    returns = λ s a e.
        let (returned, same) = Returns-handle_raises (m s).0 k (m s).1 a e in
        subst (R s.disk) (sym same) (h.returns s a returned);
  }

  pub Returns-finally :
      (m : Io A) (k : Io (Unit {0})) → Returns R m → Still k → Returns R (finally m k)
  unfolding finally
  Returns-finally m k h q =
      Returns-before R _ _ (Returns-cleanup m k h) λ a. Still-bind _ _ q λ u. Still-pure a

  pub Returns-in_directory : (os : System) (m : Io A) → Returns R m → Returns R (in_directory os m)
  unfolding in_directory
  Returns-in_directory os m h =
      Returns-after R _ _ (Still-touch os) λ u. Returns-finally m (touch os) h (Still-touch os)

-- The system says that a name is missing only where it is.
pub record IsTruthful (os : System) : Type 0 where
  pub truthful : (n : ℕ) (e : Error) → os.fault n ≡ some e → is_missing e.class ≡ false

-- The name is gone from the spool's own directory, and no other.
abbrev pub Removes : Name → Disk → Disk → Type 0
Removes n before after = after.root_names ≡ remove n before.root_names

remove-absent : (n : Name) (es : Names) → find n es ≡ none → remove n es ≡ es
unfolding remove find
remove-absent n [] e = refl
remove-absent n ((m, i) ∷ es) e = elim (Bool-cases (same m n)) [
  | inl here ↦ absurd (ground (arith, e, here))
  | inr other ↦ rw other (ap (λ rest. (m, i) ∷ rest) (remove-absent n es (rw other at e)))
]

pub unlink_name-Removes :
    (os : System) (n : Name) → IsTruthful os → Returns (Removes n) (unlink_name os root n)
unfolding unlink_name catch call unlink_file throw pure branch◌then◌else◌
unlink_name-Removes os n h = Returns-in_directory (Removes n) os _ (record {
  returns = λ s a e. elim (Option-cases (os.fault s.calls)) [
    | inr (raised, fault) ↦
        let there = h.truthful s.calls raised fault in
        absurd (ground (arith, there, fault, rw (catch, call, fault, there) at e))
    | inl quiet ↦ elim (Option-cases (find n s.disk.root_names)) [
      | inl missing ↦
          rw (call, unlink_file, quiet, missing) (sym (remove-absent n s.disk.root_names missing))
      | inr (i, there) ↦ rw (call, unlink_file, quiet, there) refl
    ]
  ];
})
