-- ===== src/Base/Dict.antt =====
-- A Python dict, as the list of its entries in the order of insertion.
use recovery_pilot_ai.Base.{ap, map_option}
use mathlib.Core.Path.{◌≡◌, refl, sym}
use mathlib.Core.Logic.{inl, inr}
use mathlib.Core.Bool.{false}
use mathlib.Core.Option.{Option, none, some, some-injective, none-ne-some}
use mathlib.Core.List.{List, [], ◌∷◌}
use recovery_pilot_ai.Base.Tests.{if◌then◌else◌, Bool-cases}
use recovery_pilot_ai.Base.Keys.{Key}

module _ {ℓ κ} {K : Type ℓ} {V : Type κ} ⦃e : Key K⦄ where
  -- `d.get(k)`
  abbrev pub lookup : K → List (K × V) → Option V
  lookup k [] = none
  lookup k ((j, v) ∷ d) = let rest = lookup k d in if e.same k j then some v else rest

  -- `d[k] = v`
  abbrev pub insert : K → V → List (K × V) → List (K × V)
  insert k v [] = (k, v) ∷ []
  insert k v ((j, u) ∷ d) =
      let rest = insert k v d in if e.same k j then (j, v) ∷ d else (j, u) ∷ rest

  pub lookup-insert_self : (k : K) (v : V) (d : List (K × V)) → lookup k (insert k v d) ≡ some v
  lookup-insert_self k v [] = rw (e.same_refl k) refl
  lookup-insert_self k v ((j, u) ∷ d) = elim (Bool-cases (e.same k j)) [
    | inl t ↦ rw (t, t) refl
    | inr f ↦ rw (f, f) (lookup-insert_self k v d)
  ]

  pub lookup-insert_ne :
      (i k : K) (v : V) (d : List (K × V))
      → e.same i k ≡ false
      → lookup i (insert k v d) ≡ lookup i d
  lookup-insert_ne i k v [] h = rw h refl
  lookup-insert_ne i k v ((j, u) ∷ d) h = elim (Bool-cases (e.same k j)) [
    | inl t ↦ let q : e.same i j ≡ false = rw (e.of_same k j t) at h in rw (t, q) refl
    | inr f ↦ elim (Bool-cases (e.same i j)) [
      | inl t ↦ rw (f, t) refl
      | inr g ↦ rw (f, g) (lookup-insert_ne i k v d h)
    ]
  ]

module _ {ℓ κ ι} {K : Type ℓ} {V : Type κ} {W : Type ι} ⦃e : Key K⦄ (f : V → W) where
  -- The dict with `f` of each value.
  abbrev pub map_values : List (K × V) → List (K × W)
  map_values [] = []
  map_values ((k, v) ∷ d) = (k, f v) ∷ map_values d

  pub lookup-map_values :
      (k : K) (d : List (K × V)) → lookup k (map_values d) ≡ map_option f (lookup k d)
  lookup-map_values k [] = refl
  lookup-map_values k ((j, v) ∷ d) = elim (Bool-cases (e.same k j)) [
    | inl t ↦ rw t refl
    | inr g ↦ rw g (lookup-map_values k d)
  ]

  pub map_values-insert :
      (k : K) (v : V) (d : List (K × V)) → map_values (insert k v d) ≡ insert k (f v) (map_values d)
  map_values-insert k v [] = refl
  map_values-insert k v ((j, u) ∷ d) = elim (Bool-cases (e.same k j)) [
    | inl t ↦ rw t refl
    | inr g ↦ rw g (ap (λ r. (j, f u) ∷ r) (map_values-insert k v d))
  ]

module _ {ℓ κ} {K : Type ℓ} {V : Type κ} ⦃e : Key K⦄ where
  -- Writing what is there changes nothing.
  pub insert-lookup : (k : K) (v : V) (d : List (K × V)) → lookup k d ≡ some v → insert k v d ≡ d
  insert-lookup k v [] h = absurd (none-ne-some v h)
  insert-lookup k v ((j, u) ∷ d) h = elim (Bool-cases (e.same k j)) [
    | inl t ↦
        let same : some u ≡ some v = rw t at h in
        rw t (ap (λ x. (j, x) ∷ d) (sym (some-injective u v same)))
    | inr f ↦
        let later : lookup k d ≡ some v = rw f at h in
        rw f (ap (λ r. (j, u) ∷ r) (insert-lookup k v d later))
  ]
