-- ===== src/Common/Dict.antt =====
-- Python's `dict` with text keys, in insertion order.
use Prim.Native.String.{String}
use mathlib.Core.Path.{◌≡◌, refl, ap}
use mathlib.Core.Logic.{inl, inr}
use mathlib.Core.Option.{Option, none, some}
use mathlib.Core.List.{List, [], ◌∷◌, ◌++◌, map}
use native.Mathlib.Omega.{arith}
use text.Mathlib.Text.{◌==◌ as str_eq}
use text.Mathlib.TextEquality.{eq_iff}
use employee_tracker.Common.Tests.{Bool-cases, if◌then◌else◌}

abbrev pub Dict {ℓ} : Type ℓ → Type ℓ
Dict V = List (String × V)

module _ {ℓ} {V : Type ℓ} where
  -- `d.get(k)`
  unfoldable pub lookup : String → Dict V → Option V
  lookup k [] = none
  lookup k ((j, v) ∷ d) = if str_eq j k then some v else lookup k d

  -- `d[k] = v`
  unfoldable pub insert : String → V → Dict V → Dict V
  insert k v [] = (k, v) ∷ []
  insert k v ((j, w) ∷ d) = if str_eq j k then (j, v) ∷ d else (j, w) ∷ insert k v d

  abbrev pub keys : Dict V → List String
  keys = map (λ e. e.0)

  pub lookup-insert :
      (k j : String) (v : V) (d : Dict V)
      → lookup j (insert k v d) ≡ (if str_eq k j then some v else lookup j d)
  unfolding lookup insert
  lookup-insert k j v [] = refl
  lookup-insert k j v ((i, w) ∷ d) =
      ground (arith, eq_iff k j, eq_iff i k, eq_iff i j, lookup-insert k j v d)

  -- Overwriting a key that is there keeps the keys and their order.
  pub keys-insert :
      (k : String) (v : V) (d : Dict V) {w : V} → lookup k d ≡ some w → keys (insert k v d) ≡ keys d
  unfolding lookup insert
  keys-insert k v [] h = cc
  keys-insert k v ((i, u) ∷ d) h = elim (Bool-cases (str_eq i k)) [
    | inl same ↦ rw same refl
    | inr other ↦ rw other (ap (λ r. i ∷ r) (keys-insert k v d (rw other at h)))
  ]

  pub lookup-append :
      (k : String) (d e : Dict V) (v : V) → lookup k d ≡ some v → lookup k (d ++ e) ≡ some v
  unfolding lookup
  lookup-append k [] e v h = cc
  lookup-append k ((j, w) ∷ d) e v h = ground (arith, lookup-append k d e v)

  pub lookup-append_none :
      (k : String) (d e : Dict V) → lookup k d ≡ none → lookup k (d ++ e) ≡ lookup k e
  unfolding lookup
  lookup-append_none k [] e h = refl
  lookup-append_none k ((j, w) ∷ d) e h = ground (arith, lookup-append_none k d e)
