-- ===== src/Planner/BusinessDays.antt =====
-- services/src/services/planner/timing.py: of any four days in a row, one is a business day.
use recovery_pilot_ai.Diagnosis.Calendar.{weekday, festivals, days_of}
use recovery_pilot_ai.Base.{
  ℕ, Bool, ◌≡◌, true, false, ◌≤◌, suc, ◌||◌, ◌&&◌, ◌<◌, ◌+◌, zero, refl, arith, Bool-cases, ◌==◌,
  inl, subst, ==_iff, and_left, inr, and_right, ltb, ◌⊎◌, ltb→lt, sym,
}
use native.Mathlib.Nat.{zero-add}
use recovery_pilot_ai.Planner.Timing.{is_business_day, is_weekend, is_festival}

-- One of so many days, from a day on, is a business day.
abbrev pub soon : ℕ → ℕ → Bool
soon zero day = false
soon (suc left) day = is_business_day day || soon left (day + 1)

-- Every one of so many days, from a day on, passes a test.
abbrev all_from : (ℕ → Bool) → ℕ → ℕ → Bool
all_from p zero day = true
all_from p (suc left) day = p day && all_from p left (day + 1)

nothing-between : (day d : ℕ) → day ≤ d → d < day + 0 → ⊥
nothing-between day d a b = omega arith

all_from-holds :
    (p : ℕ → Bool) (left day d : ℕ)
    → all_from p left day ≡ true
    → day ≤ d
    → d < day + left
    → p d ≡ true
all_from-holds p zero day d h a b = absurd (nothing-between day d a b)
all_from-holds p (suc left) day d h a b = elim (Bool-cases (day == d)) [
  | inl t ↦
      subst (λ x. p x ≡ true) ((==_iff day d).0 t) (and_left (p day) (all_from p left (day + 1)) h)
  | inr f ↦
      all_from-holds p left (day + 1) d (and_right (p day) (all_from p left (day + 1)) h)
        (ground arith) (omega arith)
]

-- The days around the festivals of 2026.
soon_in_2026 : all_from (soon 4) 100 739770 ≡ true
unfolding is_business_day is_weekend is_festival weekday festivals days_of
soon_in_2026 = refl

quiet_before : (day : ℕ) → day < 739780 → is_festival day ≡ false
unfolding is_festival festivals days_of
quiet_before day h = ground arith

quiet_after : (day : ℕ) → 739869 < day → is_festival day ≡ false
unfolding is_festival festivals days_of
quiet_after day h = ground arith

-- A weekend is two days.
quiet-soon :
    (day : ℕ)
    → is_festival day ≡ false
    → is_festival (day + 1) ≡ false
    → is_festival (day + 1 + 1) ≡ false
    → soon 4 day ≡ true
unfolding is_business_day is_weekend weekday
quiet-soon day a b c = ground arith

lt_or_le : (a b : ℕ) → (a < b) ⊎ (b ≤ a)
lt_or_le a b = elim (Bool-cases (ltb a b)) [
  | inl t ↦ inl (ltb→lt a b t)
  | inr f ↦ inr (ground arith)
]

pub soon_always : (day : ℕ) → soon 4 day ≡ true
soon_always day = elim (lt_or_le day 739778) [
  | inl h ↦
      quiet-soon day (quiet_before day (omega arith)) (quiet_before (day + 1) (omega arith))
        (quiet_before (day + 1 + 1) (omega arith))
  | inr h ↦ elim (lt_or_le 739869 day) [
    | inl g ↦
        quiet-soon day (quiet_after day g) (quiet_after (day + 1) (omega arith))
          (quiet_after (day + 1 + 1) (omega arith))
    | inr g ↦ all_from-holds (soon 4) 100 739770 day soon_in_2026 (omega arith) (omega arith)
  ]
]

soon-more : (left day : ℕ) → soon left day ≡ true → soon (suc left) day ≡ true
soon-more zero day h = ground arith
soon-more (suc left) day h = elim (Bool-cases (is_business_day day)) [
  | inl t ↦ ground arith
  | inr f ↦ let later = soon-more left (day + 1) in ground arith
]

suc_add : (a b : ℕ) → suc (a + b) ≡ suc a + b
suc_add a b = omega arith

pub soon-more_times : (more left day : ℕ) → soon left day ≡ true → soon (more + left) day ≡ true
soon-more_times zero left day h = subst (λ n. soon n day ≡ true) (sym (zero-add left)) h
soon-more_times (suc more) left day h =
    subst (λ n. soon n day ≡ true) (suc_add more left)
      (soon-more (more + left) day (soon-more_times more left day h))
