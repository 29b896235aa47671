-- ===== src/Base/Keys.antt =====
-- Types with a Boolean equality, and Python dicts keyed by them, in the order of insertion.
use Prim.Native.Nat.{ℕ}
use mathlib.Core.Path.{◌≡◌, refl, ap, ap₂}
use mathlib.Core.Bool.{Bool, true, false, ◌&&◌, false≢true}
use mathlib.Core.Option.{Option, none, some}
use mathlib.Core.List.{List, [], ◌∷◌}
use recovery_pilot_ai.Base.Tests.{◌==◌, ==_iff, and_left, and_right}

pub record Key {ℓ} (K : Type ℓ) : Type ℓ where
  pub same : K → K → Bool
  pub same_refl : (k : K) → same k k ≡ true
  pub of_same : (k l : K) → same k l ≡ true → k ≡ l

instance abbrev pub nat_key : Key ℕ
nat_key = record {
  same = ◌==◌;
  same_refl = λ k. (==_iff k k).1 refl;
  of_same = λ k l. (==_iff k l).0;
}

module _ {ℓ κ} {A : Type ℓ} {B : Type κ} ⦃a : Key A⦄ ⦃b : Key B⦄ where
  abbrev pub same_pair : A × B → A × B → Bool
  same_pair k l = a.same k.0 l.0 && b.same k.1 l.1

  pub same_pair_refl : (k : A × B) → same_pair k k ≡ true
  same_pair_refl k = rw (a.same_refl k.0, b.same_refl k.1) refl

  pub of_same_pair : (k l : A × B) → same_pair k l ≡ true → k ≡ l
  of_same_pair (x, y) (u, v) h =
      ap₂ (λ p q. (p, q)) (a.of_same x u (and_left (a.same x u) (b.same y v) h))
        (b.of_same y v (and_right (a.same x u) (b.same y v) h))

  abbrev pub pair_key : Key (A × B)
  pair_key = record { same = same_pair; same_refl = same_pair_refl; of_same = of_same_pair }

module _ {ℓ} {A : Type ℓ} ⦃a : Key A⦄ where
  abbrev pub same_option : Option A → Option A → Bool
  same_option none none = true
  same_option (some x) (some y) = a.same x y
  same_option _ _ = false

  pub same_option_refl : (o : Option A) → same_option o o ≡ true
  same_option_refl none = refl
  same_option_refl (some x) = a.same_refl x

  pub of_same_option : (o p : Option A) → same_option o p ≡ true → o ≡ p
  of_same_option none none h = refl
  of_same_option none (some y) h = absurd (false≢true h)
  of_same_option (some x) none h = absurd (false≢true h)
  of_same_option (some x) (some y) h = ap some (a.of_same x y h)

  abbrev pub option_key : Key (Option A)
  option_key = record { same = same_option; same_refl = same_option_refl; of_same = of_same_option }

  abbrev pub same_list : List A → List A → Bool
  same_list [] [] = true
  same_list (x ∷ xs) (y ∷ ys) = a.same x y && same_list xs ys
  same_list _ _ = false

  pub same_list_refl : (xs : List A) → same_list xs xs ≡ true
  same_list_refl [] = refl
  same_list_refl (x ∷ xs) = rw (a.same_refl x, same_list_refl xs) refl

  pub of_same_list : (xs ys : List A) → same_list xs ys ≡ true → xs ≡ ys
  of_same_list [] [] h = refl
  of_same_list [] (y ∷ ys) h = absurd (false≢true h)
  of_same_list (x ∷ xs) [] h = absurd (false≢true h)
  of_same_list (x ∷ xs) (y ∷ ys) h =
      ap₂ ◌∷◌ (a.of_same x y (and_left (a.same x y) (same_list xs ys) h))
        (of_same_list xs ys (and_right (a.same x y) (same_list xs ys) h))

  abbrev pub list_key : Key (List A)
  list_key = record { same = same_list; same_refl = same_list_refl; of_same = of_same_list }
