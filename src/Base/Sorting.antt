-- ===== src/Base/Sorting.antt =====
-- Moments in ascending order: what `sorted`, `times[-1]` and `min` of the source return.
use Prim.Native.Nat.{ℕ, ◌≤◌, ◌<◌}
use mathlib.Core.Path.{◌≡◌, refl, sym}
use mathlib.Core.Logic.{inl, inr}
use mathlib.Core.Bool.{Bool, true}
use mathlib.Core.Option.{Option, none, some, some-injective}
use mathlib.Core.List.{List, [], ◌∷◌}
use native.Mathlib.Omega.{arith}
use recovery_pilot_ai.Base.Tests.{if◌then◌else◌, Bool-cases, leb, ltb, leb→le}
use recovery_pilot_ai.Base.Lists.{All, All-map, length, filter, count_if}

abbrev pub insert_moment : ℕ → List ℕ → List ℕ
insert_moment t [] = t ∷ []
insert_moment t (u ∷ us) = if leb t u then t ∷ u ∷ us else u ∷ insert_moment t us

-- Python's `sorted` on numbers, by insertion.
abbrev pub sorted : List ℕ → List ℕ
sorted [] = []
sorted (t ∷ ts) = insert_moment t (sorted ts)

-- `times[-1]`
abbrev pub get_last? : List ℕ → Option ℕ
get_last? [] = none
get_last? (t ∷ []) = some t
get_last? (t ∷ u ∷ us) = get_last? (u ∷ us)

-- `min(recent)`, and 0 where Python raises ValueError.
abbrev pub minimum : List ℕ → ℕ
minimum [] = 0
minimum (t ∷ []) = t
minimum (t ∷ u ∷ us) = let m = minimum (u ∷ us) in if ltb m t then m else t

abbrev pub Ascending : List ℕ → Type 0
Ascending [] = Unit
Ascending (t ∷ ts) = All (λ u. t ≤ u) ts × Ascending ts

module _ (P : ℕ → Type 0) where
  All-insert_moment : (t : ℕ) (us : List ℕ) → P t → All P us → All P (insert_moment t us)
  All-insert_moment t [] h hs = (h, tt)
  All-insert_moment t (u ∷ us) h hs = ground (arith, All-insert_moment t us h hs.1)

  All-of_insert : (t : ℕ) (us : List ℕ) → All P (insert_moment t us) → P t × All P us
  All-of_insert t [] h = (h.0, tt)
  All-of_insert t (u ∷ us) h = elim (Bool-cases (leb t u)) [
    | inl e ↦ let k : All P (t ∷ u ∷ us) = rw e at h in (k.0, k.1)
    | inr e ↦
        let k : All P (u ∷ insert_moment t us) = rw e at h in
        let (ht, hus) = All-of_insert t us k.1 in (ht, (k.0, hus))
  ]

  pub All-sorted : (ts : List ℕ) → All P ts → All P (sorted ts)
  All-sorted [] h = tt
  All-sorted (t ∷ ts) h = All-insert_moment t (sorted ts) h.0 (All-sorted ts h.1)

  pub All-of_sorted : (ts : List ℕ) → All P (sorted ts) → All P ts
  All-of_sorted [] h = tt
  All-of_sorted (t ∷ ts) h =
      let (ht, hts) = All-of_insert t (sorted ts) h in (ht, All-of_sorted ts hts)

  pub minimum-holds : (t : ℕ) (ts : List ℕ) → All P (t ∷ ts) → P (minimum (t ∷ ts))
  minimum-holds t [] h = h.0
  minimum-holds t (u ∷ us) h = elim (Bool-cases (ltb (minimum (u ∷ us)) t)) [
    | inl e ↦ rw e (minimum-holds u us h.1)
    | inr e ↦ rw e h.0
  ]

insert_moment-Ascending : (t : ℕ) (us : List ℕ) → Ascending us → Ascending (insert_moment t us)
insert_moment-Ascending t [] h = (tt, tt)
insert_moment-Ascending t (u ∷ us) h = elim (Bool-cases (leb t u)) [
  | inl e ↦
      rw e ((leb→le t u e, All-map (λ v. u ≤ v) (λ v k. omega (arith, leb→le t u e)) us h.0), h)
  | inr e ↦
      rw e
        (All-insert_moment (λ v. u ≤ v) t us (ground arith) h.0, insert_moment-Ascending t us h.1)
]

pub sorted-Ascending : (ts : List ℕ) → Ascending (sorted ts)
sorted-Ascending [] = tt
sorted-Ascending (t ∷ ts) = insert_moment-Ascending t (sorted ts) (sorted-Ascending ts)

-- The last of an ascending list is the greatest.
pub get_last?-greatest :
    (ts : List ℕ) (m : ℕ) → Ascending ts → get_last? ts ≡ some m → All (λ t. t ≤ m) ts
get_last?-greatest [] m h e = tt
get_last?-greatest (t ∷ []) m h e = ground arith
get_last?-greatest (t ∷ u ∷ us) m h e =
    let ih = get_last?-greatest (u ∷ us) m h.1 e in (omega (arith, ih.0, h.0.0), ih)

pub get_last?-none : (ts : List ℕ) → get_last? ts ≡ none → ts ≡ []
get_last?-none [] e = refl
get_last?-none (t ∷ []) e = cc
get_last?-none (t ∷ u ∷ us) e = cc (get_last?-none (u ∷ us) e)

pub get_last?-holds :
    (P : ℕ → Type 0) (ts : List ℕ) (m : ℕ) → get_last? ts ≡ some m → All P ts → P m
get_last?-holds P [] m e h = cc
get_last?-holds P (t ∷ []) m e h = rw (sym (some-injective _ _ e)) h.0
get_last?-holds P (t ∷ u ∷ us) m e h = get_last?-holds P (u ∷ us) m e h.1

count_if-insert :
    (p : ℕ → Bool) (t : ℕ) (us : List ℕ) → count_if p (insert_moment t us) ≡ count_if p (t ∷ us)
count_if-insert p t [] = refl
count_if-insert p t (u ∷ us) = ground (arith, count_if-insert p t us)

pub count_if-sorted : (p : ℕ → Bool) (ts : List ℕ) → count_if p (sorted ts) ≡ count_if p ts
count_if-sorted p [] = refl
count_if-sorted p (t ∷ ts) = omega (arith, count_if-insert p t (sorted ts), count_if-sorted p ts)

pub length-filter {ℓ} :
    {A : Type ℓ} (p : A → Bool) (xs : List A) → length (filter p xs) ≡ count_if p xs
length-filter p [] = refl
length-filter p (x ∷ xs) = ground (arith, length-filter p xs)

-- Two filters, the second the stronger, and an element that it drops.
pub count_if-le :
    (p q : ℕ → Bool) (ts : List ℕ)
    → ((t : ℕ) → q t ≡ true → p t ≡ true)
    → count_if q ts ≤ count_if p ts
count_if-le p q [] k = omega arith
count_if-le p q (t ∷ ts) k = ground (arith, count_if-le p q ts k, k t)

pub count_if-lt :
    (p q : ℕ → Bool) (ts : List ℕ)
    → ((t : ℕ) → q t ≡ true → p t ≡ true)
    → ¬ All (λ t. p t ≡ true → q t ≡ true) ts
    → count_if q ts < count_if p ts
count_if-lt p q [] k h = absurd (h tt)
count_if-lt p q (t ∷ ts) k h = elim (Bool-cases (q t)) [
  | inl e ↦ ground (arith, k t, count_if-lt p q ts k (λ hs. h ((λ _. e), hs)))
  | inr e ↦ elim (Bool-cases (p t)) [
    | inl d ↦ ground (arith, count_if-le p q ts k)
    | inr d ↦ ground (arith, count_if-lt p q ts k (λ hs. h ((λ x. cc), hs)))
  ]
]
