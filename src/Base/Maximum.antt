-- ===== src/Base/Maximum.antt =====
-- What `max_of` returns, for a comparison of keys.
use mathlib.Core.Path.{◌≡◌, refl, subst}
use mathlib.Core.Logic.{inl, inr}
use mathlib.Core.Bool.{Bool, true, false}
use mathlib.Core.List.{List, [], ◌∷◌}
use mathlib.Core.Option.{none, some, some-injective}
use Prim.Native.Nat.{ℕ}
use native.Mathlib.Omega.{arith}
use recovery_pilot_ai.Base.Tests.{if◌then◌else◌, Bool-cases, ltb}
use recovery_pilot_ai.Base.Lists.{All, max_of, max_of?}

-- `less` compares keys of a linear order.
pub record ComparesKeys {ℓ} {A : Type ℓ} (less : A → A → Bool) : Type ℓ where
  pub irreflexive : (a : A) → less a a ≡ false
  pub asymmetric : (a b : A) → less a b ≡ true → less b a ≡ false
  pub between : (a b c : A) → less a b ≡ false → less b c ≡ false → less a c ≡ false

module _ {ℓ} {A : Type ℓ} (less : A → A → Bool) where
  pub choose-holds {κ} :
      (P : A → Type κ) (best x : A) → P best → P x → P (if less best x then x else best)
  choose-holds P best x h k = elim (Bool-cases (less best x)) [ inl e ↦ rw e k | inr e ↦ rw e h ]

  pub max_of-All {κ} :
      (P : A → Type κ) (best : A) (xs : List A) → P best → All P xs → P (max_of less best xs)
  unfolding max_of
  max_of-All P best [] h hs = h
  max_of-All P best (x ∷ xs) h hs =
      max_of-All P (if less best x then x else best) xs (choose-holds P best x h hs.0) hs.1

  below_choice :
      ComparesKeys less
      → (r best x : A) → less r (if less best x then x else best) ≡ false
      → (less r best ≡ false) × (less r x ≡ false)
  below_choice k r best x h = elim (Bool-cases (less best x)) [
    | inl e ↦
        let below : less r x ≡ false = rw e at h in
        (k.between r x best below (k.asymmetric best x e), below)
    | inr e ↦ let below : less r best ≡ false = rw e at h in (below, k.between r best x below e)
  ]

  -- No element exceeds the result.
  pub max_of-greatest :
      ComparesKeys less
      → (best : A) (xs : List A)
      → (less (max_of less best xs) best ≡ false)
        × All (λ x. less (max_of less best xs) x ≡ false) xs
  unfolding max_of
  max_of-greatest k best [] = (k.irreflexive best, tt)
  max_of-greatest k best (x ∷ xs) =
      let (head, rest) = max_of-greatest k (if less best x then x else best) xs in
      let (h, hx) = below_choice k (max_of less (if less best x then x else best) xs) best x head in
      (h, (hx, rest))

  pub max_of?-greatest :
      ComparesKeys less
      → (xs : List A) {m : A} → max_of? less xs ≡ some m
      → All (λ x. less m x ≡ false) xs
  unfolding max_of?
  max_of?-greatest k [] e = tt
  max_of?-greatest k (x ∷ xs) {m} e =
      subst (λ r. All (λ y. less r y ≡ false) (x ∷ xs)) (some-injective _ _ e)
        (max_of-greatest k x xs)

  pub max_of?-All {κ} :
      (P : A → Type κ) (xs : List A) {m : A} → max_of? less xs ≡ some m → All P xs → P m
  unfolding max_of?
  max_of?-All P [] e hs = cc
  max_of?-All P (x ∷ xs) e hs = subst P (some-injective _ _ e) (max_of-All P x xs hs.0 hs.1)

  pub max_of?-none : (xs : List A) → max_of? less xs ≡ none → xs ≡ []
  unfolding max_of?
  max_of?-none [] e = refl
  max_of?-none (x ∷ xs) e = cc

-- A comparison of numeric keys.
pub by_key {ℓ} : {A : Type ℓ} (key : A → ℕ) → ComparesKeys {A = A} (λ a b. ltb (key a) (key b))
by_key key = record {
  irreflexive = λ a. ground arith;
  asymmetric = λ a b h. ground arith;
  between = λ a b c h k. ground arith;
}
