-- ===== src/Planner/Totals.antt =====
-- services/src/services/planner/planner_engine.py: bounds of the estimates, and the sums of a batch.
use recovery_pilot_ai.Base.Keys.{nat_key}
use recovery_pilot_ai.Planner.Strategies.{select_strategy}
use recovery_pilot_ai.Planner.Models.{PlannerStrategy}
use recovery_pilot_ai.Planner.Schedule.{PlannerContext}
use recovery_pilot_ai.Base.{[], ◌<◌, ◌%◌, ◌/◌, ◌+◌, arith, if-holds, ltb, ltb→lt, ◌||◌, leb, true}
use recovery_pilot_ai.Planner.Engine.{plan}
use recovery_pilot_ai.Base.{ℕ, ◌≤◌, ◌*◌, ◌≡◌, ◌==◌, []}
use recovery_pilot_ai.Planner.Values.{
  round_half_even, clamp, estimate_probability, ends_recovery, recovery_score,
}

round_half_even-le : (a n : ℕ) → a ≤ 9500 * n → round_half_even a 10000 ≤ n
unfolding round_half_even
round_half_even-le a n h =
    if-holds (λ x. x ≤ n) (ltb (2 * (a % 10000)) 10000) (a / 10000) _ (λ t. omega arith)
      (λ f.
        if-holds (λ x. x ≤ n) (ltb 10000 (2 * (a % 10000))) (a / 10000 + 1)
          (a / 10000 + a / 10000 % 2) (λ t. up (ltb→lt 10000 (2 * (a % 10000)) t))
          (λ g. up_even (ground arith)))
  where
    up : 10000 < 2 * (a % 10000) → a / 10000 + 1 ≤ n
    up l = omega arith

    up_even : 10000 ≤ 2 * (a % 10000) → a / 10000 + a / 10000 % 2 ≤ n
    up_even l = omega arith

rounded-bounds :
    (score : ℕ)
    → (500 ≤ round_half_even (clamp score 150000 2850000) 300)
      × (round_half_even (clamp score 150000 2850000) 300 ≤ 9500)
unfolding round_half_even
rounded-bounds score =
    if-holds (λ x. (500 ≤ x) × (x ≤ 9500)) (ltb (2 * (s % 300)) 300) (s / 300) _
      (λ t. (omega arith, omega arith))
      (λ f.
        if-holds (λ x. (500 ≤ x) × (x ≤ 9500)) (ltb 300 (2 * (s % 300))) (s / 300 + 1)
          (s / 300 + s / 300 % 2) (λ t. up (ltb→lt 300 (2 * (s % 300)) t))
          (λ g. up_even (ground arith)))
  where
    s : ℕ
    s = clamp score 150000 2850000

    up : 300 < 2 * (s % 300) → (500 ≤ s / 300 + 1) × (s / 300 + 1 ≤ 9500)
    up l = (omega arith, omega arith)

    up_even : 300 ≤ 2 * (s % 300) → (500 ≤ s / 300 + s / 300 % 2) × (s / 300 + s / 300 % 2 ≤ 9500)
    up_even l = (omega arith, omega arith)

probability-bounds :
    (context : PlannerContext) (strategy : PlannerStrategy)
    → (estimate_probability context strategy ≤ 9500)
      × ((estimate_probability context strategy == 0) ≡ ends_recovery strategy)
      × (ends_recovery strategy || leb 500 (estimate_probability context strategy) ≡ true)
unfolding estimate_probability
probability-bounds context strategy =
    let (low, high) = rounded-bounds (recovery_score context strategy) in ground arith

scaled : (n p : ℕ) → p ≤ 9500 → n * p ≤ 9500 * n
scaled n p h = grind arith

-- The recovery probability of a plan is 0 where it stops the recovery and from 5 to 95 percent otherwise, and the
-- value that it is expected to recover is at most the amount.
pub plan-bounds :
    (context : PlannerContext)
    → let planned = (plan context).plan in
      (planned.expected_recovery_probability ≤ 9500)
      × ((planned.expected_recovery_probability == 0) ≡ ends_recovery planned.strategy)
      × (ends_recovery planned.strategy || leb 500 planned.expected_recovery_probability ≡ true)
      × (planned.estimated_recovery_value ≤ context.payment_amount)
unfolding plan
plan-bounds context =
    let (low, zero_iff, high) =
      probability-bounds context (select_strategy context.diagnosis context.policy).strategy in
    (
      low,
      zero_iff,
      high,
      round_half_even-le _ context.payment_amount (scaled context.payment_amount _ low),
    )
