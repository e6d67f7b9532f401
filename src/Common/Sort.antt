-- ===== src/Common/Sort.antt =====
-- Python's stable `sorted`, as insertion sort by a Boolean order.
use Prim.Native.Nat.{ℕ, zero, suc}
use mathlib.Core.Path.{◌≡◌}
use mathlib.Core.Bool.{Bool, true, false}
use mathlib.Core.Logic.{inl, inr}
use mathlib.Core.List.{List, [], ◌∷◌}
use employee_tracker.Common.Tests.{Bool-cases, if◌then◌else◌}
use employee_tracker.Common.Lists.{All, take, All-take}

-- One list is the other in some order.
pub data Perm {ℓ} {A : Type ℓ} : List A → List A → Type ℓ where
  done : Perm [] []
  skip : {x : A} {xs ys : List A} → Perm xs ys → Perm (x ∷ xs) (x ∷ ys)
  swap : {x y : A} {xs : List A} → Perm (x ∷ y ∷ xs) (y ∷ x ∷ xs)
  chain : {xs ys zs : List A} → Perm xs ys → Perm ys zs → Perm xs zs

pub Perm-refl {ℓ} : {A : Type ℓ} (xs : List A) → Perm xs xs
Perm-refl [] = done
Perm-refl (x ∷ xs) = skip (Perm-refl xs)

pub All-Perm {ℓ κ} :
    {A : Type ℓ} (P : A → Type κ) {xs ys : List A} → Perm xs ys → All P ys → All P xs
All-Perm P done h = tt
All-Perm P (skip p) h = (h.0, All-Perm P p h.1)
All-Perm P swap h = (h.1.0, (h.0, h.1.1))
All-Perm P (chain p q) h = All-Perm P p (All-Perm P q h)

module _ {ℓ} {A : Type ℓ} (le : A → A → Bool) where
  abbrev pub place : A → List A → List A
  place x [] = x ∷ []
  place x (y ∷ ys) = let rest = place x ys in if le x y then x ∷ y ∷ ys else y ∷ rest

  unfoldable pub sorted : List A → List A
  sorted [] = []
  sorted (x ∷ xs) = place x (sorted xs)

  abbrev pub IsSorted : List A → Type ℓ
  IsSorted [] = Unit
  IsSorted (x ∷ xs) = All (λ y. le x y ≡ true) xs × IsSorted xs

  place-Perm : (x : A) (ys : List A) → Perm (place x ys) (x ∷ ys)
  place-Perm x [] = Perm-refl (x ∷ [])
  place-Perm x (y ∷ ys) = elim (Bool-cases (le x y)) [
    | inl h ↦ rw h (Perm-refl (x ∷ y ∷ ys))
    | inr h ↦ rw h (chain (skip (place-Perm x ys)) swap)
  ]

  pub sorted-Perm : (xs : List A) → Perm (sorted xs) xs
  unfolding sorted
  sorted-Perm [] = done
  sorted-Perm (x ∷ xs) = chain (place-Perm x (sorted xs)) (skip (sorted-Perm xs))

  pub IsSorted-take : (n : ℕ) (xs : List A) → IsSorted xs → IsSorted (take n xs)
  IsSorted-take zero xs h = tt
  IsSorted-take (suc n) [] h = tt
  IsSorted-take (suc n) (x ∷ xs) h = (All-take _ n xs h.0, IsSorted-take n xs h.1)

-- The Boolean test is a total order.
pub record IsOrder {ℓ} {A : Type ℓ} (le : A → A → Bool) : Type ℓ where
  pub total : (x y : A) → le x y ≡ false → le y x ≡ true
  pub trans : (x y z : A) → le x y ≡ true → le y z ≡ true → le x z ≡ true

module _ {ℓ} {A : Type ℓ} (le : A → A → Bool) (o : IsOrder le) where
  All-below :
      (x y : A) (ys : List A)
      → le x y ≡ true
      → All (λ z. le y z ≡ true) ys
      → All (λ z. le x z ≡ true) ys
  All-below x y [] h hs = tt
  All-below x y (z ∷ zs) h hs = (o.trans x y z h hs.0, All-below x y zs h hs.1)

  place-IsSorted : (x : A) (ys : List A) → IsSorted le ys → IsSorted le (place le x ys)
  place-IsSorted x [] h = (tt, tt)
  place-IsSorted x (y ∷ ys) h = elim (Bool-cases (le x y)) [
    | inl e ↦ rw e ((e, All-below x y ys e h.0), h)
    | inr e ↦ rw e (All-Perm _ (place-Perm le x ys) (o.total x y e, h.0), place-IsSorted x ys h.1)
  ]

  pub sorted-IsSorted : (xs : List A) → IsSorted le (sorted le xs)
  unfolding sorted
  sorted-IsSorted [] = tt
  sorted-IsSorted (x ∷ xs) = place-IsSorted x (sorted le xs) (sorted-IsSorted xs)
