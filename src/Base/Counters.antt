-- ===== src/Base/Counters.antt =====
-- Python's `Counter`, as a dict of counts.
use recovery_pilot_ai.Base.Keys.{nat_key}
use recovery_pilot_ai.Base.Dict.{lookup, insert, lookup-insert_self, lookup-insert_ne}
use recovery_pilot_ai.Base.{
  ◌∷◌, [], List, ℕ, Option, ◌≡◌, length, sum_of, some, suc, map, none, if◌then◌else◌, count_if, ◌+◌,
  refl, ap, arith, ◌==◌, ==_iff, Bool-cases, inl, inr, ◌∙◌, subst, sym,
}

-- What a count becomes: a missing one stands for 0.
abbrev pub next_count : Option ℕ → ℕ
next_count none = 1
next_count (some n) = n + 1

-- `counter[k] += 1`
abbrev pub tally : ℕ → List (ℕ × ℕ) → List (ℕ × ℕ)
tally k counter = insert k (next_count (lookup k counter)) counter

-- `Counter.update`
unfoldable pub tally_all : List ℕ → List (ℕ × ℕ) → List (ℕ × ℕ)
tally_all [] counter = counter
tally_all (k ∷ ks) counter = tally_all ks (tally k counter)

abbrev pub or_zero : Option ℕ → ℕ
or_zero none = 0
or_zero (some n) = n

-- `counter.get(k, 0)`
abbrev pub count_of : ℕ → List (ℕ × ℕ) → ℕ
count_of k counter = or_zero (lookup k counter)

-- `sum(counter.values())`
abbrev pub total : List (ℕ × ℕ) → ℕ
total counter = sum_of (λ e. e.1) counter

total-insert :
    (k v : ℕ) (counter : List (ℕ × ℕ))
    → total (insert k v counter) + or_zero (lookup k counter) ≡ total counter + v
total-insert k v [] = omega arith
total-insert k v ((j, n) ∷ counter) = elim (Bool-cases (k == j)) [
  | inl t ↦ rw t (omega arith)
  | inr f ↦ rw f (omega (arith, total-insert k v counter))
]

next_count-or_zero : (o : Option ℕ) → next_count o ≡ or_zero o + 1
next_count-or_zero none = refl
next_count-or_zero (some n) = refl

total-tally : (k : ℕ) (counter : List (ℕ × ℕ)) → total (tally k counter) ≡ suc (total counter)
total-tally k counter = omega (
  arith,
  total-insert k (next_count (lookup k counter)) counter,
  next_count-or_zero (lookup k counter),
)

pub total-tally_all :
    (ks : List ℕ) (counter : List (ℕ × ℕ))
    → total (tally_all ks counter) ≡ length ks + total counter
unfolding tally_all
total-tally_all [] counter = omega arith
total-tally_all (k ∷ ks) counter =
    omega (arith, total-tally_all ks (tally k counter), total-tally k counter)

count_of-tally :
    (k j : ℕ) (counter : List (ℕ × ℕ))
    → count_of k (tally j counter) ≡ (if k == j then 1 else 0) + count_of k counter
count_of-tally k j counter = elim (Bool-cases (k == j)) [
  | inl t ↦
      let same : k ≡ j = (==_iff k j).0 t in
      subst (λ i. count_of k (tally i counter) ≡ (if k == i then 1 else 0) + count_of k counter)
        same (tallied k counter)
  | inr f ↦ rw f (
      ap or_zero (lookup-insert_ne k j (next_count (lookup j counter)) counter f)
      ∙ sym (omega arith))
]
  where
    tallied :
        (k : ℕ) (counter : List (ℕ × ℕ))
        → count_of k (tally k counter) ≡ (if k == k then 1 else 0) + count_of k counter
    tallied k counter = rw ((==_iff k k).1 refl) (
        ap or_zero (lookup-insert_self k (next_count (lookup k counter)) counter)
        ∙ next_count-or_zero (lookup k counter)
        ∙ omega arith)

pub count_of-tally_all :
    (k : ℕ) (ks : List ℕ) (counter : List (ℕ × ℕ))
    → count_of k (tally_all ks counter) ≡ count_if (λ j. k == j) ks + count_of k counter
unfolding tally_all
count_of-tally_all k [] counter = omega arith
count_of-tally_all k (j ∷ ks) counter =
    omega (arith, count_of-tally_all k ks (tally j counter), count_of-tally k j counter)

pub length-map {ℓ κ} :
    {A : Type ℓ} {B : Type κ} (f : A → B) (xs : List A) → length (map f xs) ≡ length xs
length-map f [] = refl
length-map f (x ∷ xs) = ap suc (length-map f xs)
