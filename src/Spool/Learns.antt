-- ===== src/Spool/Learns.antt =====
-- What an action of monitor_agent/spool.py tells of the directories when it returns, for the steps
-- that keep an invariant only because of what was seen before.
use employee_tracker.Common.{
  ◌≡◌, refl, sym, subst, Bool, true, false, Option, none, some, Result, ok, err, Error,
}
use employee_tracker.Spool.Disk.{Disk}
use employee_tracker.Spool.Calls.{
  Process, Io, pure, throw, catch, handle, continue, with_option, branch◌then◌else◌, on_error, lift,
  ◌>>=◌, ◌>>◌, finally,
}
use employee_tracker.Spool.Keeps.{Holds, Keeps, Keeps-bind, Keeps-pure, Keeps-throw}

module _ (J : Disk → Type 0) (P : Disk → Type 0) where
  -- From a directory with `P` the invariant is kept.
  pub record From {A : Type 0} (m : Io A) : Type 0 where
    pub at : (s : Process) → Holds J s → P s.disk → Holds J (m s).1

  -- ... and the answer of a run that returns is right for the directories it leaves.
  pub record Learns {A : Type 0} (m : Io A) (Q : A → Disk → Type 0) : Type 0 where
    pub run :
        (s : Process)
        → Holds J s
        → P s.disk
        → Holds J (m s).1 × ((a : A) → (m s).0 ≡ ok a → Q a (m s).1.disk)

From-continue :
    {J : Disk → Type 0} {A B : Type 0} (Q : A → Disk → Type 0) (r : Result A) (f : A → Io B)
    (t : Process)
    → ((a : A) → From J (Q a) (f a))
    → Holds J t
    → ((a : A) → r ≡ ok a → Q a t.disk)
    → Holds J (continue r f t).1
From-continue Q (ok a) f t q h p = (q a).at t h (p a refl)
From-continue Q (err e) f t q h p = h

module _ {J : Disk → Type 0} {P : Disk → Type 0} {A : Type 0} where
  pub From-Keeps : (m : Io A) → Keeps J m → From J P m
  From-Keeps m k = record { at = λ s h p. k.at s h }

  pub From-imply :
      (Q : Disk → Type 0) (m : Io A) → ((d : Disk) → P d → Q d) → From J Q m → From J P m
  From-imply Q m i f = record { at = λ s h p. f.at s h (i s.disk p) }

  pub Learns-Keeps : (m : Io A) → Keeps J m → Learns J P m λ a d. Unit {0}
  Learns-Keeps m k = record { run = λ s h p. (k.at s h, λ a e. tt) }

  pub Learns-pure :
      (Q : A → Disk → Type 0) (a : A) → ((d : Disk) → P d → Q a d) → Learns J P (pure a) Q
  unfolding pure
  Learns-pure Q a told = record {
    run =
        λ s h p. (h, λ b e. let same : a ≡ b = cc in subst (λ x. Q x s.disk) same (told s.disk p));
  }

  pub Learns-From : (m : Io A) → From J P m → Learns J P m λ a d. Unit {0}
  Learns-From m f = record { run = λ s h p. (f.at s h p, λ a e. tt) }

  pub From-branch :
      (b : Bool) (m n : Io A)
      → (b ≡ true → From J P m)
      → (b ≡ false → From J P n)
      → From J P (branch b then m else n)
  unfolding branch◌then◌else◌
  From-branch true m n p q = p refl
  From-branch false m n p q = q refl

  module _ {B : Type 0} where
    pub From-with_option :
        (o : Option A) (n : Io B) (f : A → Io B)
        → (o ≡ none → From J P n)
        → ((a : A) → o ≡ some a → From J P (f a))
        → From J P (with_option o n f)
    unfolding with_option
    From-with_option none n f p q = p refl
    From-with_option (some a) n f p q = q a refl

    pub From-bind :
        (Q : A → Disk → Type 0) (m : Io A) (f : A → Io B)
        → Learns J P m Q
        → ((a : A) → From J (Q a) (f a))
        → From J P (m >>= f)
    unfolding ◌>>=◌
    From-bind Q m f l q = record {
      at = λ s h p. let r = l.run s h p in From-continue Q (m s).0 f (m s).1 q r.0 r.1;
    }

-- What was learned of the answers alone.
pub From-by :
    {J : Disk → Type 0} {A : Type 0} (V : Type 0) (m : Io A) → (V → Keeps J m) → From J (λ d. V) m
From-by V m k = record { at = λ s h v. (k v).at s h }

pub Keeps-From : {J : Disk → Type 0} {A : Type 0} (m : Io A) → From J (λ d. Unit {0}) m → Keeps J m
Keeps-From m f = record { at = λ s h. f.at s h tt }

Learns-continue :
    {J : Disk → Type 0} {A B : Type 0} (Q : A → Disk → Type 0) (R : B → Disk → Type 0)
    (r : Result A) (f : A → Io B) (t : Process)
    → ((a : A) → Learns J (Q a) (f a) R)
    → Holds J t
    → ((a : A) → r ≡ ok a → Q a t.disk)
    → Holds J (continue r f t).1
      × ((b : B) → (continue r f t).0 ≡ ok b → R b (continue r f t).1.disk)
Learns-continue Q R (ok a) f t q h p = (q a).run t h (p a refl)
Learns-continue Q R (err e) f t q h p = (h, λ b r. cc)

pub Learns-bind :
    {J : Disk → Type 0} {P : Disk → Type 0} {A B : Type 0} (Q : A → Disk → Type 0)
    (R : B → Disk → Type 0) (m : Io A) (f : A → Io B)
    → Learns J P m Q
    → ((a : A) → Learns J (Q a) (f a) R)
    → Learns J P (m >>= f) R
unfolding ◌>>=◌
Learns-bind Q R m f l q = record {
  run = λ s h p. let r = l.run s h p in Learns-continue Q R (m s).0 f (m s).1 q r.0 r.1;
}

pub Learns-given :
    {J : Disk → Type 0} {A : Type 0} (V : Type 0) (m : Io A) (R : A → Disk → Type 0)
    → (V → Learns J (λ d. Unit {0}) m R)
    → Learns J (λ d. V) m R
Learns-given V m R l = record { run = λ s h v. (l v).run s h tt }

module _ (J : Disk → Type 0) {A : Type 0} (R : A → Disk → Type 0) where
  Learns-raised :
      (r : Result (Unit {0})) (e : Error) (t : Process)
      → Holds J t
      → Holds J (continue r (λ u. throw {A = A} e) t).1
        × ((b : A)
            → (continue r (λ u. throw {A = A} e) t).0 ≡ ok b
            → R b (continue r (λ u. throw {A = A} e) t).1.disk)
  unfolding throw
  Learns-raised (ok u) e t h = (h, λ b r. cc)
  Learns-raised (err x) e t h = (h, λ b r. cc)

  Learns-handle :
      (r : Result A) (k : Io (Unit {0})) (t : Process)
      → Keeps J k
      → Holds J t
      → ((a : A) → r ≡ ok a → R a t.disk)
      → Holds J (handle r (λ e. k >> throw e) t).1
        × ((b : A)
            → (handle r (λ e. k >> throw e) t).0 ≡ ok b
            → R b (handle r (λ e. k >> throw e) t).1.disk)
  unfolding ◌>>=◌
  Learns-handle (ok a) k t q h p = (h, p)
  Learns-handle (err e) k t q h p = Learns-raised (k t).0 e (k t).1 (q.at t h)

module _ {J : Disk → Type 0} {P : Disk → Type 0} {A : Type 0} (R : A → Disk → Type 0) where
  pub Learns-on_error :
      (m : Io A) (k : Io (Unit {0})) → Learns J P m R → Keeps J k → Learns J P (on_error m k) R
  unfolding on_error catch
  Learns-on_error m k l q = record {
    run = λ s h p. let r = l.run s h p in Learns-handle J R (m s).0 k (m s).1 q r.0 r.1;
  }

  pub Learns-branch :
      (b : Bool) (m n : Io A)
      → Learns J P m R
      → Learns J P n R
      → Learns J P (branch b then m else n) R
  unfolding branch◌then◌else◌
  Learns-branch true m n p q = p
  Learns-branch false m n p q = q

  pub Learns-lift_err : (e : Error) → Learns J P (lift (err e)) R
  unfolding lift
  Learns-lift_err e = record { run = λ s h p. (h, λ b r. cc) }

finally-Holds :
    {J : Disk → Type 0} {A : Type 0} (k : Io (Unit {0})) (r : Result A) (t : Process)
    → Keeps J k
    → Holds J t
    → Holds J
        (continue
          (handle r (λ e. k >> throw e) t).0
          (λ a. k >> pure a)
          (handle r (λ e. k >> throw e) t).1).1
unfolding ◌>>=◌
finally-Holds k (ok a) t q h = (Keeps-bind k (λ u. pure a) q λ u. Keeps-pure a).at t h
finally-Holds k (err e) t q h =
    (Keeps-bind (k >> throw e) (λ a. k >> pure a) (Keeps-bind k (λ u. throw e) q λ u. Keeps-throw e)
        (λ a. Keeps-bind k (λ u. pure a) q λ u. Keeps-pure a)).at
      t h

pub From-finally :
    {J : Disk → Type 0} {P : Disk → Type 0} {A : Type 0} (m : Io A) (k : Io (Unit {0}))
    → From J P m
    → Keeps J k
    → From J P (finally m k)
unfolding finally catch ◌>>=◌
From-finally m k f q = record { at = λ s h p. finally-Holds k (m s).0 (m s).1 q (f.at s h p) }

-- An action that leaves the directories alone tells of the directories it has found.
pub Learns-quiet :
    {J : Disk → Type 0} {P : Disk → Type 0} {A : Type 0} (Q : A → Disk → Type 0) (m : Io A)
    → Keeps J m
    → ((s : Process) → (m s).1.disk ≡ s.disk)
    → ((s : Process) (a : A) → (m s).0 ≡ ok a → Q a s.disk)
    → Learns J P m (λ a d. P d × Q a d)
Learns-quiet {P = P} Q m k quiet told = record {
  run = λ s h p. (k.at s h, λ a e. subst (λ d. P d × Q a d) (sym (quiet s)) (p, told s a e));
}
