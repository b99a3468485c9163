-- ===== src/Base/Maps.antt =====
-- Go's `map[K]V`, as an association list. The order of the entries stands for an order in which
-- `range` may visit them.
use mathlib.Core.Path.{◌≡◌, refl}
use mathlib.Core.Bool.{Bool}
use mathlib.Core.Option.{Option, none, some}
use mathlib.Core.List.{List, [], ◌∷◌}
use mathlib.Core.Logic.{inl, inr}
use native.Mathlib.Omega.{arith}
use flipchat_server.Base.Conditions.{Eq, ◌==◌, if◌then◌else◌, has_value, Option-cases}

abbrev pub Dict {ℓ κ} : Type ℓ → Type κ → Type (ℓ ⊔ κ)
Dict K V = List (K × V)

module _ {ℓ κ} {K : Type ℓ} {V : Type κ} ⦃e : Eq K⦄ where
  -- `v, ok := m[k]`
  unfoldable pub lookup : K → Dict K V → Option V
  lookup k [] = none
  lookup k ((j, v) ∷ d) = if j == k then some v else lookup k d

  -- `m[k] = v`
  unfoldable pub insert : K → V → Dict K V → Dict K V
  insert k v [] = (k, v) ∷ []
  insert k v ((j, w) ∷ d) = if j == k then (k, v) ∷ d else (j, w) ∷ insert k v d

  -- `delete(m, k)`
  unfoldable pub erase : K → Dict K V → Dict K V
  erase k [] = []
  erase k ((j, w) ∷ d) = if j == k then erase k d else (j, w) ∷ erase k d

  pub lookup-insert :
      (k j : K) (v : V) (d : Dict K V)
      → lookup j (insert k v d) ≡ (if k == j then some v else lookup j d)
  unfolding lookup insert
  lookup-insert k j v [] = refl
  lookup-insert k j v ((i, w) ∷ d) = ground (arith, lookup-insert k j v d)

  pub lookup-erase :
      (k j : K) (d : Dict K V) → lookup j (erase k d) ≡ (if k == j then none else lookup j d)
  unfolding lookup erase
  lookup-erase k j [] = ground arith
  lookup-erase k j ((i, w) ∷ d) = ground (arith, lookup-erase k j d)

  -- Whether the key is in the map.
  abbrev pub has : K → Dict K V → Bool
  has k d = has_value (lookup k d)

module _ {ℓ κ} {K : Type ℓ} {V : Type κ} ⦃e : Eq K⦄ where
  -- `m[k]` where a missing key reads as the zero value.
  abbrev pub lookup_or : K → V → Dict K V → V
  lookup_or k z d = elim (lookup k d) [ none ↦ z | some v ↦ v ]

module _ {ℓ κ} {K : Type ℓ} {V : Type κ} ⦃e : Eq K⦄ where
  -- A change made in place to the value of a key, if the key is in the map.
  unfoldable pub adjust : K → (V → V) → Dict K V → Dict K V
  adjust k f d = elim (lookup k d) [ none ↦ d | some v ↦ insert k (f v) d ]

  pub lookup-adjust :
      (k j : K) (f : V → V) (d : Dict K V)
      → lookup j (adjust k f d)
        ≡ elim (lookup j d) [ none ↦ none | some v ↦ some (if k == j then f v else v) ]
  unfolding adjust
  lookup-adjust k j f d = elim (Option-cases (lookup k d)) [
    | inl absent ↦ ground arith
    | inr (v, present) ↦ ground (arith, lookup-insert k j (f v) d)
  ]
