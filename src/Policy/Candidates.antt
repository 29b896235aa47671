-- ===== src/Policy/Candidates.antt =====
-- services/src/services/policy/cooldown.py: the two candidates for the end of a cooldown.
use recovery_pilot_ai.Base.{
  ℕ, ◌+◌, ◌-◌, ◌≤◌, ◌<◌, ◌≡◌, refl, Bool, true, Option, none, some, List, [], ◌∷◌, ◌++◌, filter,
  length, count_if, ltb, leb, All, All-map, All-append, All-filter, All-true, Bool-cases,
  Option-cases, inl, inr, arith, max_of?-All, max_of?-none, false,
}
use recovery_pilot_ai.Base.Sorting.{
  count_if-lt, count_if-le, get_last?-holds, get_last?, minimum, Ascending, get_last?-greatest,
  get_last?-none, length-filter, minimum-holds,
}
use recovery_pilot_ai.Policy.Cooldown.{
  CooldownCode, gap_candidate, cap_candidate, sooner, cooldown_from,
}

-- Inside the rolling window that ends at `as_of`.
abbrev pub is_recent : ℕ → ℕ → ℕ → Bool
is_recent as_of window stamp = ltb (as_of - window) stamp

gap_candidate-later :
    (last : Option ℕ) (as_of g : ℕ) → All (λ c. as_of < c.0) (gap_candidate last as_of g)
gap_candidate-later last as_of g = ground arith

cap_candidate-later :
    (recent : List ℕ) (as_of k w : ℕ) → All (λ c. as_of < c.0) (cap_candidate recent as_of k w)
cap_candidate-later recent as_of k w = ground arith

append-nil_parts {ℓ} : {A : Type ℓ} (xs ys : List A) → xs ++ ys ≡ [] → (xs ≡ []) × (ys ≡ [])
append-nil_parts [] ys h = (refl, h)
append-nil_parts (x ∷ xs) ys h = cc

gap_candidate-nil :
    (last : Option ℕ) (as_of g : ℕ)
    → gap_candidate last as_of g ≡ []
    → (m : ℕ) → last ≡ some m
    → m + g ≤ as_of
gap_candidate-nil last as_of g h m e = ground arith

minimum-later :
    (recent : List ℕ) (as_of w : ℕ)
    → All (λ t. as_of < t + w) recent
    → 0 < length recent
    → as_of < minimum recent + w
minimum-later [] as_of w h p = absurd (omega arith)
minimum-later (t ∷ ts) as_of w h p = minimum-holds (λ u. as_of < u + w) t ts h

cap_candidate-nil :
    (recent : List ℕ) (as_of k w : ℕ)
    → 0 < k
    → All (λ t. as_of < t + w) recent
    → cap_candidate recent as_of k w ≡ []
    → length recent < k
cap_candidate-nil recent as_of k w p h e = elim (Bool-cases (leb k (length recent))) [
  | inl full ↦ ground (arith, minimum-later recent as_of w h)
  | inr few ↦ ground arith
]

recent_later : (as_of w : ℕ) (t : ℕ) → is_recent as_of w t ≡ true → as_of < t + w
recent_later as_of w t h = ground arith

recents-later :
    (times : List ℕ) (as_of w : ℕ) → All (λ t. as_of < t + w) (filter (is_recent as_of w) times)
recents-later times as_of w =
    All-filter (λ t. as_of < t + w) (is_recent as_of w) times
      (All-true (λ t. is_recent as_of w t ≡ true → as_of < t + w) (recent_later as_of w) times)

pub cooldown_from-later :
    (times : List ℕ) (as_of k w g : ℕ) (r : ℕ × CooldownCode)
    → cooldown_from times as_of k w g ≡ some r
    → as_of < r.0
unfolding cooldown_from
cooldown_from-later times as_of k w g r e =
    max_of?-All sooner (λ c. as_of < c.0) _ e
      (All-append (λ c. as_of < c.0) _ _ (gap_candidate-later (get_last? times) as_of g)
        (cap_candidate-later (filter (is_recent as_of w) times) as_of k w))

pub last_clear :
    (times : List ℕ) (as_of g : ℕ)
    → Ascending times
    → ((m : ℕ) → get_last? times ≡ some m → m + g ≤ as_of)
    → All (λ t. t + g ≤ as_of) times
last_clear times as_of g h k = elim (Option-cases (get_last? times)) [
  | inl e ↦ rw (get_last?-none times e) tt
  | inr (m, e) ↦
      All-map (λ t. t ≤ m) (λ t le. omega (arith, k m e)) times (get_last?-greatest times m h e)
]

-- No cooldown: every retry is a gap old, and fewer than `k` are recent.
pub cooldown_from-clear :
    (times : List ℕ) (as_of k w g : ℕ)
    → 0 < k
    → Ascending times
    → cooldown_from times as_of k w g ≡ none
    → All (λ t. t + g ≤ as_of) times × (count_if (is_recent as_of w) times < k)
unfolding cooldown_from
cooldown_from-clear times as_of k w g p h e =
    let (gap, cap) = append-nil_parts _ _ (max_of?-none sooner _ e) in
    (
      last_clear times as_of g h (gap_candidate-nil (get_last? times) as_of g gap),
      omega (
        arith,
        cap_candidate-nil (filter (is_recent as_of w) times) as_of k w p
            (recents-later times as_of w) cap,
        length-filter (is_recent as_of w) times,
      ),
    )

gap_candidate-clear :
    (last : Option ℕ) (as_of g : ℕ)
    → ((m : ℕ) → last ≡ some m → m + g ≤ as_of)
    → gap_candidate last as_of g ≡ []
gap_candidate-clear none as_of g h = refl
gap_candidate-clear (some m) as_of g h = ground (arith, h m refl)

pub cooldown_from-none :
    (times : List ℕ) (as_of k w g : ℕ)
    → All (λ t. t + g ≤ as_of) times
    → count_if (is_recent as_of w) times < k
    → cooldown_from times as_of k w g ≡ none
unfolding cooldown_from
cooldown_from-none times as_of k w g h c =
    let few : leb k (length (filter (is_recent as_of w) times)) ≡ false =
      ground (arith, length-filter (is_recent as_of w) times) in
    rw (
      gap_candidate-clear (get_last? times) as_of g
          (λ m e. get_last?-holds (λ t. t + g ≤ as_of) times m e h),
      few,
    )

pub gap_bound :
    (last : Option ℕ) (as_of g u : ℕ)
    → as_of < u
    → All (λ c. c.0 ≤ u) (gap_candidate last as_of g)
    → (m : ℕ) → last ≡ some m
    → m + g ≤ u
gap_bound last as_of g u p h m e = ground arith

cap_bound :
    (recent : List ℕ) (as_of k w u : ℕ)
    → as_of < u
    → leb k (length recent) ≡ true
    → All (λ c. c.0 ≤ u) (cap_candidate recent as_of k w)
    → minimum recent + w ≤ u
cap_bound recent as_of k w u p full h = ground arith

-- While the window is full, its oldest stamp has left it at `u`.
oldest_leaves :
    (times : List ℕ) (as_of w u : ℕ)
    → 0 < length (filter (is_recent as_of w) times)
    → minimum (filter (is_recent as_of w) times) + w ≤ u
    → ¬ All (λ t. is_recent as_of w t ≡ true → is_recent u w t ≡ true) times
oldest_leaves times as_of w u p h all_stay =
    leaves (filter (is_recent as_of w) times) p h
      (All-filter (λ t. is_recent u w t ≡ true) (is_recent as_of w) times all_stay)
  where
    leaves :
        (recent : List ℕ)
        → 0 < length recent
        → minimum recent + w ≤ u
        → ¬ All (λ t. is_recent u w t ≡ true) recent
    leaves [] q k hs = absurd (omega arith)
    leaves (t ∷ ts) q k hs = ground (arith, minimum-holds (λ v. is_recent u w v ≡ true) t ts hs)

pub fewer_recent :
    (times : List ℕ) (as_of k w u : ℕ)
    → 0 < k
    → as_of < u
    → count_if (is_recent as_of w) times ≤ k
    → All (λ c. c.0 ≤ u) (cap_candidate (filter (is_recent as_of w) times) as_of k w)
    → count_if (is_recent u w) times < k
fewer_recent times as_of k w u p q c h =
    elim (Bool-cases (leb k (length (filter (is_recent as_of w) times)))) [
      | inl full ↦
          let some_recent : 0 < length (filter (is_recent as_of w) times) = ground arith in
          omega (
            arith,
            count_if-lt (is_recent as_of w) (is_recent u w) times (λ t e. ground arith)
                (oldest_leaves times as_of w u some_recent
                  (cap_bound (filter (is_recent as_of w) times) as_of k w u q full h)),
          )
      | inr few ↦
          let below : length (filter (is_recent as_of w) times) < k = ground arith in
          omega (
            arith,
            below,
            length-filter (is_recent as_of w) times,
            count_if-le (is_recent as_of w) (is_recent u w) times (λ t e. ground arith),
          )
    ]

pub All-append_parts {ℓ κ} :
    {A : Type ℓ} (P : A → Type κ) (xs ys : List A) → All P (xs ++ ys) → All P xs × All P ys
All-append_parts P [] ys h = (tt, h)
All-append_parts P (x ∷ xs) ys h = let (hx, hy) = All-append_parts P xs ys h.1 in ((h.0, hx), hy)
