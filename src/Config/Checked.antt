-- ===== src/Config/Checked.antt =====
-- A postcondition of a fallible computation whose every error is a ConfigError or one of the faults
-- that it lets through, with a rule for each way to build one.
use employee_tracker.Common.{◌≡◌, ◌⊎◌, inl, inr, refl, subst, Result, ok, err, Error, config_error}

-- The `>>=` of `Result`, shut: proofs go through the rules.
infixl 5 ◌>>=◌ ◌>>◌
unfoldable pub ◌>>=◌ {κ ℓ} : {X : Type κ} {Y : Type ℓ} → Result X → (X → Result Y) → Result Y
(err raised) >>= next = err raised
(ok value) >>= next = next value

abbrev pub ◌>>◌ {ℓ} : {Y : Type ℓ} → Result (Unit {0}) → Result Y → Result Y
first >> second = first >>= λ _. second

pub data Checked {ℓ} {A : Type ℓ} (F : Error → Type 0) (P : A → Type 0) : Result A → Type ℓ where
  returns : (a : A) → P a → Checked F P (ok a)
  refuses : (e : Error) → e.class ≡ config_error → Checked F P (err e)
  fails : (e : Error) → F e → Checked F P (err e)

ok-injective {ℓ} : {A : Type ℓ} {a b : A} → ok a ≡ ok b → a ≡ b
ok-injective h = cc

err-injective {ℓ} : {A : Type ℓ} {e x : Error} → ◌≡◌ {A = Result A} (err e) (err x) → e ≡ x
err-injective h = cc

module _ {ℓ} {A : Type ℓ} {F : Error → Type 0} {P : A → Type 0} where
  pub Checked-ok : {r : Result A} {a : A} → Checked F P r → r ≡ ok a → P a
  Checked-ok (returns b p) h = subst P (ok-injective h) p
  Checked-ok (refuses e c) h = cc
  Checked-ok (fails e c) h = cc

  pub Checked-err :
      {r : Result A} {e : Error} → Checked F P r → r ≡ err e → (e.class ≡ config_error) ⊎ F e
  Checked-err (returns b p) h = cc
  Checked-err (refuses x c) h =
      inl (subst (λ (e : Error). e.class ≡ config_error) (err-injective h) c)
  Checked-err (fails x c) h = inr (subst F (err-injective h) c)

  pub Checked-of :
      (r : Result A)
      → ((a : A) → r ≡ ok a → P a)
      → ((e : Error) → r ≡ err e → e.class ≡ config_error)
      → Checked F P r
  Checked-of (ok a) p c = returns a (p a refl)
  Checked-of (err e) p c = refuses e (c e refl)

module _ {ℓ κ} {A : Type ℓ} {B : Type κ} {F : Error → Type 0} {P : A → Type 0}
    {Q : B → Type 0} where
  pub Checked-bind :
      {m : Result A} (f : A → Result B)
      → Checked F P m
      → ((a : A) → P a → Checked F Q (f a))
      → Checked F Q (m >>= f)
  unfolding ◌>>=◌
  Checked-bind f (returns a p) k = k a p
  Checked-bind f (refuses e c) k = refuses e c
  Checked-bind f (fails e c) k = fails e c
