-- ===== src/Spool/Keeps.antt =====
-- Invariants of the directories through the actions of monitor_agent/spool.py: one rule for each way
-- to build an action. What is kept holds after every single call, so a crash finds it too.
use employee_tracker.Common.{
  Bool, true, false, Option, none, some, List, [], ◌∷◌, Result, ok, err, Error, All, Option-cases,
  inl, inr, ℕ,
}
use employee_tracker.Spool.Disk.{Disk, Effect, look}
use employee_tracker.Spool.Calls.{
  System, Process, Io, pure, throw, lift, catch, handle, continue, finally, on_error, suppress,
  when, branch◌then◌else◌, with_option, ◌>>=◌, call, answer,
}
use employee_tracker.Spool.Guards.{for_each}

module _ (J : Disk → Type 0) where
  -- now, and at every moment before
  abbrev pub Holds : Process → Type 0
  Holds s = J s.disk × All J s.past

  pub record Keeps {A : Type 0} (m : Io A) : Type 0 where
    pub at : (s : Process) → Holds s → Holds (m s).1

module _ {J : Disk → Type 0} where
  module _ {A : Type 0} where
    pub Keeps-pure : (a : A) → Keeps J (pure a)
    unfolding pure
    Keeps-pure a = record { at = λ s p. p }

    pub Keeps-throw : (e : Error) → Keeps J (throw {A = A} e)
    unfolding throw
    Keeps-throw e = record { at = λ s p. p }

    pub Keeps-lift : (r : Result A) → Keeps J (lift r)
    unfolding lift
    Keeps-lift r = record { at = λ s p. p }

    pub Keeps-branch :
        (b : Bool) (m n : Io A) → Keeps J m → Keeps J n → Keeps J (branch b then m else n)
    unfolding branch◌then◌else◌
    Keeps-branch true m n p q = p
    Keeps-branch false m n p q = q

    Keeps-handle :
        (r : Result A) (f : Error → Io A) (t : Process)
        → ((e : Error) → Keeps J (f e))
        → Holds J t
        → Holds J (handle r f t).1
    Keeps-handle (ok a) f t q h = h
    Keeps-handle (err e) f t q h = (q e).at t h

    pub Keeps-catch :
        (m : Io A) (f : Error → Io A)
        → Keeps J m
        → ((e : Error) → Keeps J (f e))
        → Keeps J (catch m f)
    unfolding catch
    Keeps-catch m f p q = record { at = λ s h. Keeps-handle (m s).0 f (m s).1 q (p.at s h) }

  module _ {A B : Type 0} where
    Keeps-continue :
        (r : Result A) (f : A → Io B) (t : Process)
        → ((a : A) → Keeps J (f a))
        → Holds J t
        → Holds J (continue r f t).1
    Keeps-continue (ok a) f t q h = (q a).at t h
    Keeps-continue (err e) f t q h = h

    pub Keeps-bind :
        (m : Io A) (f : A → Io B) → Keeps J m → ((a : A) → Keeps J (f a)) → Keeps J (m >>= f)
    unfolding ◌>>=◌
    Keeps-bind m f p q = record { at = λ s h. Keeps-continue (m s).0 f (m s).1 q (p.at s h) }

    pub Keeps-with_option :
        (o : Option A) (n : Io B) (f : A → Io B)
        → Keeps J n
        → ((a : A) → Keeps J (f a))
        → Keeps J (with_option o n f)
    unfolding with_option
    Keeps-with_option none n f p q = p
    Keeps-with_option (some a) n f p q = q a

  module _ {A : Type 0} where
    pub Keeps-finally :
        (m : Io A) (k : Io (Unit {0})) → Keeps J m → Keeps J k → Keeps J (finally m k)
    unfolding finally
    Keeps-finally m k p q =
        Keeps-bind _ _ (Keeps-catch _ _ p λ e. Keeps-bind _ _ q λ u. Keeps-throw e)
          λ a. Keeps-bind _ _ q λ u. Keeps-pure a

    pub Keeps-on_error :
        (m : Io A) (k : Io (Unit {0})) → Keeps J m → Keeps J k → Keeps J (on_error m k)
    unfolding on_error
    Keeps-on_error m k p q = Keeps-catch _ _ p λ e. Keeps-bind _ _ q λ u. Keeps-throw e

    pub Keeps-for_each :
        (xs : List A) (f : A → Io (Unit {0})) → ((x : A) → Keeps J (f x)) → Keeps J (for_each xs f)
    unfolding for_each
    Keeps-for_each [] f q = Keeps-pure tt
    Keeps-for_each (x ∷ xs) f q = Keeps-bind _ _ (q x) λ u. Keeps-for_each xs f q

  pub Keeps-suppress : (m : Io (Unit {0})) → Keeps J m → Keeps J (suppress m)
  unfolding suppress
  Keeps-suppress m p = Keeps-catch _ _ p λ e. Keeps-pure tt

  pub Keeps-when : (b : Bool) (m : Io (Unit {0})) → Keeps J m → Keeps J (when b m)
  unfolding when
  Keeps-when b m p = Keeps-branch b m (pure tt) p (Keeps-pure tt)

  module _ (os : System) {A : Type 0} where
    pub Keeps-answer : (f : ℕ → A) → Keeps J (answer os f)
    unfolding answer
    Keeps-answer f = record {
      at = λ s h. elim (Option-cases (os.fault s.calls)) [
        | inl e ↦ rw (e, answer) h
        | inr (x, e) ↦ rw (e, answer) h
      ];
    }

    -- A call keeps what its effect keeps.
    pub Keeps-call : (f : Effect A) → ((d : Disk) → J d → J (f d).1) → Keeps J (call os f)
    unfolding call
    Keeps-call f p = record {
      at = λ s h. elim (Option-cases (os.fault s.calls)) [
        | inl e ↦ rw (e, call) (p s.disk h.0, h)
        | inr (x, e) ↦ rw (e, call) h
      ];
    }

    pub Keeps-look : (f : Disk → A) → Keeps J (call os (look f))
    Keeps-look f = Keeps-call (look f) λ d p. p

pub ruleset keeps_rules = (
  Keeps-pure, Keeps-throw, Keeps-lift, Keeps-branch, Keeps-catch, Keeps-bind, Keeps-with_option,
  Keeps-finally, Keeps-on_error, Keeps-for_each, Keeps-suppress, Keeps-when, Keeps-answer,
  Keeps-look,
)
