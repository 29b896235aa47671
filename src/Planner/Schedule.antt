-- ===== src/Planner/Schedule.antt =====
-- services/src/services/planner/scheduler.py: when a plan runs, by its strategy. Labels and reasons are left out.
-- Every moment is a reading of the wall clock of `context.timezone`.
use recovery_pilot_ai.Enums.{CustomerSegment}
use recovery_pilot_ai.Policy.Models.{DiagnosisResult, PolicyDecisionResult}
use recovery_pilot_ai.Diagnosis.Calendar.{day_length}
use recovery_pilot_ai.Planner.Timing.{
  after_cooldown, apply_business_window, hour_length, minute_length, next_payday_slot, at_local,
  payday_window_for,
}
use recovery_pilot_ai.Planner.Models.{PlannerStrategy}
use recovery_pilot_ai.Base.{none, ℕ, Option, ◌*◌, some, ◌+◌, false, true, Bool}

-- The fields of `PlannerContext` and its snapshots that the planner reads. Probabilities, rates and confidences are
-- held in ten-thousandths. `observed_reliability` is read for a missing rate only, and the type excludes that.
pub record PlannerContext : Type 0 where
  pub as_of : ℕ
  pub diagnosis : DiagnosisResult
  pub confidence : ℕ
  pub policy : PolicyDecisionResult
  pub segment : CustomerSegment
  pub salary_dependent : Bool
  pub payment_amount : ℕ
  pub previous_success_rate : ℕ
  pub max_fail_streak : ℕ
  pub promised_date : Option ℕ
  pub outage_ended_at : Option ℕ
  pub retry_count : ℕ
  pub subscription_age_days : ℕ
  pub recovery_case_id : Option ℕ

pub record RetryWindow : Type 0 where
  pub start : ℕ
  pub end : ℕ

pub record ScheduleResult : Type 0 where
  pub scheduled_at : ℕ
  pub retry_window : Option RetryWindow
  pub expires_at : Option ℕ

-- `PLAN_TTL`
abbrev pub plan_ttl : ℕ
plan_ttl = 7 * day_length

-- `OUTAGE_RETRY_DELAY` and `OUTAGE_RETRY_WINDOW`
abbrev pub outage_retry_delay : ℕ
outage_retry_delay = 60 * minute_length

abbrev pub outage_retry_window : ℕ
outage_retry_window = 90 * minute_length

-- The slot of the strategies that have no branch of their own.
unfoldable pub next_slot : ℕ → PlannerContext → ℕ
unfolding after_cooldown apply_business_window
next_slot from context =
    apply_business_window (after_cooldown from context.policy.cooldown_until) false

abbrev pub windowed : ℕ → ℕ → ScheduleResult
windowed when length = record {
  scheduled_at = when;
  retry_window = some (record { start = when; end = when + length });
  expires_at = some (when + plan_ttl);
}

unfoldable pub retry_schedule : PlannerContext → ScheduleResult
unfolding next_slot
retry_schedule context = windowed (next_slot context.as_of context) (4 * hour_length)

unfoldable pub silent_schedule : PlannerContext → ScheduleResult
unfolding next_slot
silent_schedule context =
    let end : ℕ = elim context.outage_ended_at [ none ↦ context.as_of | some moment ↦ moment ] in
    windowed (next_slot (end + outage_retry_delay) context) outage_retry_window

unfoldable pub escalation_schedule : PlannerContext → ScheduleResult
unfolding next_slot
escalation_schedule context =
    let when = next_slot context.as_of context in
    record { scheduled_at = when; retry_window = none; expires_at = some (when + plan_ttl) }

unfoldable pub payday_schedule : PlannerContext → ScheduleResult
unfolding after_cooldown apply_business_window next_payday_slot payday_window_for
payday_schedule context =
    let anchor = after_cooldown context.as_of context.policy.cooldown_until in
    let opened = apply_business_window (next_payday_slot anchor) false in
    let first = next_payday_slot opened in
    let (win_start, win_end) = payday_window_for first in
    record {
      scheduled_at = first;
      retry_window = some (record { start = win_start; end = win_end });
      expires_at = some (first + plan_ttl);
    }

unfoldable pub promise_schedule : PlannerContext → ℕ → ScheduleResult
unfolding after_cooldown apply_business_window
promise_schedule context promised =
    let slot = after_cooldown (at_local promised 9 15) context.policy.cooldown_until in
    let end = at_local promised 19 0 in
    record {
      scheduled_at = apply_business_window slot true;
      retry_window = some (record { start = at_local promised 8 0; end = end });
      expires_at = some end;
    }

-- A promise without a date is planned like a retry.
abbrev pub promise_or_retry : PlannerContext → Option ℕ → ScheduleResult
promise_or_retry context none = retry_schedule context
promise_or_retry context (some promised) = promise_schedule context promised

unfoldable pub schedule : PlannerStrategy → PlannerContext → ScheduleResult
unfolding retry_schedule silent_schedule escalation_schedule payday_schedule promise_schedule
schedule PlannerStrategy.stop_recovery context = record {
  scheduled_at = context.as_of;
  retry_window = none;
  expires_at = none;
}
schedule PlannerStrategy.escalate_to_human context = escalation_schedule context
schedule PlannerStrategy.honour_promise_to_pay context =
    promise_or_retry context context.promised_date
schedule PlannerStrategy.wait_for_payday context = payday_schedule context
schedule PlannerStrategy.retry_silently context = silent_schedule context
schedule _ context = retry_schedule context
