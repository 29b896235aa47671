-- ===== src/Planner/Values.antt =====
-- services/src/services/planner/planner_engine.py: probability, confidence and value of a plan. Sums are held in the
-- unit in which every term is a whole number; floats may fall on either side of a tie that `round` meets.
use recovery_pilot_ai.Enums.{CustomerSegment}
use recovery_pilot_ai.Planner.Models.{PlannerStrategy}
use recovery_pilot_ai.Policy.Models.{PolicyDecision, PolicyDecisionResult}
use recovery_pilot_ai.Planner.Schedule.{PlannerContext, ScheduleResult}
use recovery_pilot_ai.Base.{
  Bool, ℕ, true, ◌*◌, max, ◌/◌, if◌then◌else◌, min, is_some, ◌%◌, false, ◌+◌, ◌&&◌, ltb, ◌-◌, leb,
}

-- `round`: a half goes to the even neighbour.
unfoldable pub round_half_even : ℕ → ℕ → ℕ
round_half_even a b =
    let low = a / b in
    let twice = 2 * (a % b) in
    if ltb twice b then low else if ltb b twice then low + 1 else low + low % 2

-- `_clamp`
abbrev pub clamp : ℕ → ℕ → ℕ → ℕ
clamp value lo hi = max lo (min hi value)

-- `SEGMENT_PROBABILITY`, in hundredths.
abbrev pub segment_probability : CustomerSegment → ℕ
segment_probability CustomerSegment.high_value = 12
segment_probability CustomerSegment.loyal = 10
segment_probability CustomerSegment.active = 6
segment_probability CustomerSegment.at_risk = 4
segment_probability CustomerSegment.new = 2
segment_probability CustomerSegment.churn_risk = 0

abbrev pub ends_recovery : PlannerStrategy → Bool
ends_recovery PlannerStrategy.stop_recovery = true
ends_recovery _ = false

abbrev pub base_score : PlannerStrategy → ℕ
base_score PlannerStrategy.escalate_to_human = 22
base_score _ = 18

abbrev pub waits_for_payday : PlannerStrategy → Bool
waits_for_payday PlannerStrategy.wait_for_payday = true
waits_for_payday _ = false

abbrev pub points_if : Bool → ℕ → ℕ
points_if b points = if b then points else 0

-- `score`, in a third of a millionth. What is subtracted is less than what the base adds.
unfoldable pub recovery_score : PlannerContext → PlannerStrategy → ℕ
recovery_score context strategy =
    let base =
      base_score strategy * 30000
      + 120 * context.confidence
      + 48 * clamp context.previous_success_rate 0 10000 in
    let payday = points_if (context.salary_dependent && waits_for_payday strategy) 300000 in
    let segmented = base + payday + segment_probability context.segment * 30000 in
    let retried = segmented - 80000 * min context.retry_count 3 in
    let aged = retried + points_if (leb 90 context.subscription_age_days) 150000 in
    aged - points_if (leb 2 context.max_fail_streak) 180000

unfoldable pub estimate_probability : PlannerContext → PlannerStrategy → ℕ
unfolding round_half_even recovery_score
estimate_probability context strategy =
    if ends_recovery strategy
    then 0
    else round_half_even (clamp (recovery_score context strategy) 150000 2850000) 300

-- The last branches of `_timing_certainty`.
abbrev pub default_certainty : PlannerContext → ScheduleResult → ℕ
default_certainty context timed =
    if is_some context.policy.cooldown_until
    then 8000
    else if is_some timed.retry_window
    then 7200
    else 6400

-- `_timing_certainty`, without the hint.
unfoldable pub timing_certainty : PlannerContext → PlannerStrategy → ScheduleResult → ℕ
timing_certainty context PlannerStrategy.stop_recovery timed = 9800
timing_certainty context PlannerStrategy.honour_promise_to_pay timed =
    if is_some context.promised_date then 9200 else default_certainty context timed
timing_certainty context PlannerStrategy.wait_for_payday timed =
    if context.salary_dependent then 8800 else 7000
timing_certainty context PlannerStrategy.retry_silently timed =
    if is_some context.outage_ended_at then 8600 else 5800
timing_certainty context _ timed = default_certainty context timed

-- `POLICY_DECISION_STRENGTH`
abbrev pub decision_strength : PolicyDecision → ℕ
decision_strength PolicyDecision.stop = 9500
decision_strength PolicyDecision.escalate = 8800
decision_strength PolicyDecision.deny = 8500
decision_strength PolicyDecision.wait = 8000
decision_strength PolicyDecision.allow = 7400

abbrev pub is_wait_decision : PolicyDecision → Bool
is_wait_decision PolicyDecision.wait = true
is_wait_decision _ = false

-- `policy_c`
unfoldable pub policy_strength : PolicyDecisionResult → ℕ
policy_strength policy =
    if is_wait_decision policy.decision && is_some policy.cooldown_until
    then min 10000 (decision_strength policy.decision + 500)
    else decision_strength policy.decision

unfoldable pub estimate_strategy_confidence : PlannerContext → PlannerStrategy → ScheduleResult → ℕ
unfolding round_half_even timing_certainty policy_strength
estimate_strategy_confidence context strategy timed =
    round_half_even
      (clamp
        (35 * clamp context.confidence 0 10000
          + 30 * policy_strength context.policy
          + 20 * clamp context.previous_success_rate 0 10000
          + 15 * timing_certainty context strategy timed)
        50000 990000)
      100
