-- ===== src/Spool/Files.antt =====
-- Actions of monitor_agent/spool.py that only take names away from the spool's own directory.
use mathlib.Core.List.{Memᴰ}
use mathlib.Core.List.Memᴰ
use employee_tracker.Common.{
  ◌≡◌, refl, ◌∙◌, inl, inr, ℕ, Bool, true, false, Result, ok, err, [], ◌∷◌, Option-cases,
  Bool-cases, arith,
}
use employee_tracker.Spool.Disk.{Disk, root, Name, Names, find, remove, same, unlink_file}
use employee_tracker.Spool.Calls.{
  System, Process, Io, pure, throw, catch, continue, branch◌then◌else◌, ◌>>=◌, call, unlink_name,
}
use employee_tracker.Spool.Still.{Returns, Returns-in_directory, IsTruthful}

-- The files are the same, in the other directory under the same names, and in the spool's own directory
-- under none but names that they had.
pub record SameFiles (before after : Disk) : Type 0 where
  pub same_nodes : after.nodes ≡ before.nodes
  pub same_dead : after.dead_names ≡ before.dead_names
  pub no_new : (e : Name × ℕ) → Memᴰ e after.root_names → Memᴰ e before.root_names

pub SameFiles-refl : (d : Disk) → SameFiles d d
SameFiles-refl d = record { same_nodes = refl; same_dead = refl; no_new = λ e m. m }

SameFiles-trans : (a b c : Disk) → SameFiles a b → SameFiles b c → SameFiles a c
SameFiles-trans a b c p q = record {
  same_nodes = q.same_nodes ∙ p.same_nodes;
  same_dead = q.same_dead ∙ p.same_dead;
  no_new = λ e m. p.no_new e (q.no_new e m);
}

remove-no_new : (n : Name) (es : Names) (e : Name × ℕ) → Memᴰ e (remove n es) → Memᴰ e es
unfolding remove
remove-no_new n [] e m = m
remove-no_new n ((k, i) ∷ es) e m = elim (Bool-cases (same k n)) [
  | inl here ↦ Memᴰ.tail (remove-no_new n es e (rw here at m))
  | inr other ↦ elim (Memᴰ.cases_cons (rw other at m)) [
    | inl this ↦ Memᴰ.head this
    | inr later ↦ Memᴰ.tail (remove-no_new n es e later)
  ]
]

pub unlink_name-SameFiles :
    (os : System) (n : Name) → IsTruthful os → Returns SameFiles (unlink_name os root n)
unfolding unlink_name catch call unlink_file throw pure branch◌then◌else◌
unlink_name-SameFiles os n h = Returns-in_directory SameFiles os _ (record {
  returns = λ s a e. elim (Option-cases (os.fault s.calls)) [
    | inr (raised, fault) ↦
        let there = h.truthful s.calls raised fault in
        absurd (ground (arith, there, fault, rw (catch, call, fault, there) at e))
    | inl quiet ↦ elim (Option-cases (find n s.disk.root_names)) [
      | inl missing ↦ rw (call, unlink_file, quiet, missing) (SameFiles-refl s.disk)
      | inr (i, there) ↦
          rw (call, unlink_file, quiet, there)
            (record {
              same_nodes = refl;
              same_dead = refl;
              no_new = λ x m. remove-no_new n s.disk.root_names x m;
            })
    ]
  ];
})

module _ {A B : Type 0} where
  SameFiles-continue :
      (r : Result A) (f : A → Io B) (t : Process) (d : Disk) (b : B)
      → ((a : A) → Returns SameFiles (f a))
      → ((a : A) → r ≡ ok a → SameFiles d t.disk)
      → (continue r f t).0 ≡ ok b
      → SameFiles d (continue r f t).1.disk
  SameFiles-continue (ok a) f t d b k h e =
      SameFiles-trans d t.disk _ (h a refl) ((k a).returns t b e)
  SameFiles-continue (err raised) f t d b k h e = cc

  pub SameFiles-bind :
      (m : Io A) (f : A → Io B)
      → Returns SameFiles m
      → ((a : A) → Returns SameFiles (f a))
      → Returns SameFiles (m >>= f)
  unfolding ◌>>=◌
  SameFiles-bind m f h k = record {
    returns = λ s b e. SameFiles-continue (m s).0 f (m s).1 s.disk b k (h.returns s) e;
  }

module _ {A : Type 0} where
  pub SameFiles-pure : (a : A) → Returns SameFiles (pure a)
  unfolding pure
  SameFiles-pure a = record { returns = λ s b e. SameFiles-refl s.disk }

  pub SameFiles-branch :
      (b : Bool) (m n : Io A)
      → Returns SameFiles m
      → Returns SameFiles n
      → Returns SameFiles (branch b then m else n)
  unfolding branch◌then◌else◌
  SameFiles-branch true m n h k = h
  SameFiles-branch false m n h k = k
