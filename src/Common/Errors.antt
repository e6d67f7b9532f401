-- ===== src/Common/Errors.antt =====
-- Python's exceptions as values. A function that may raise returns a `Result`.
use Prim.Native.String.{String}
use mathlib.Core.Path.{◌≡◌, refl}
use mathlib.Core.Bool.{Bool, true, false}
use mathlib.Core.Logic.{◌⊎◌, inl, inr}

-- The classes that the program raises or tells apart; `config_error` is a subclass of
-- `value_error`, and `other_error` is every class that no handler of the program names.
pub data ErrorClass : Type 0 where
  value_error config_error type_error runtime_error assertion_error os_error : ErrorClass
  file_not_found file_exists permission_error timeout_error interrupted_error access_denied :
      ErrorClass
  no_such_process overflow_error key_error other_error : ErrorClass

pub record Error : Type 0 where
  pub class : ErrorClass
  pub message : String

pub data Result {ℓ} (A : Type ℓ) : Type ℓ where
  ok : A → Result A
  err : Error → Result A

abbrev pub raise {ℓ} : {A : Type ℓ} → ErrorClass → String → Result A
raise c m = err (record { class = c; message = m })

infixl 5 ◌>>=◌
abbrev pub ◌>>=◌ {κ ℓ} : {X : Type κ} {Y : Type ℓ} → Result X → (X → Result Y) → Result Y
(err raised) >>= next = err raised
(ok value) >>= next = next value

-- `if test: raise ...`
abbrev pub raise_if : Bool → ErrorClass → String → Result (Unit {0})
raise_if true c m = raise c m
raise_if false c m = ok tt

-- A call has returned or has raised.
pub Result-cases {ℓ} :
    {X : Type ℓ} (r : Result X) → ((x : X) × (r ≡ ok x)) ⊎ ((e : Error) × (r ≡ err e))
Result-cases (ok x) = inl (x, refl)
Result-cases (err e) = inr (e, refl)

-- a call for its effect alone
infixl 5 ◌>>◌
abbrev pub ◌>>◌ {ℓ} : {Y : Type ℓ} → Result (Unit {0}) → Result Y → Result Y
first >> second = first >>= λ _. second

-- Inversion of a successful bind.
module _ {κ ℓ} {X : Type κ} {Y : Type ℓ} where
  pub >>=-eq-ok :
      (r : Result X) (next : X → Result Y) {y : Y}
      → (r >>= next) ≡ ok y
      → (x : X) × (r ≡ ok x) × (next x ≡ ok y)
  >>=-eq-ok (err raised) next returned = cc
  >>=-eq-ok (ok value) next returned = (value, refl, returned)
