-- ===== src/Planner/Soon.antt =====
-- services/src/services/planner/timing.py and scheduler.py: a slot is less than a week away.
use recovery_pilot_ai.Policy.Models.{contact_window_start_hour, contact_window_end_hour}
use recovery_pilot_ai.Planner.Windows.{soon-later}
use recovery_pilot_ai.Diagnosis.Calendar.{day_length}
use recovery_pilot_ai.Planner.Slots.{keeps_hours, earliest}
use recovery_pilot_ai.Planner.Models.{PlannerStrategy}
use recovery_pilot_ai.Base.{
  ℕ, ◌<◌, ◌≤◌, zero, suc, arith, ◌≡◌, Option, ◌+◌, ◌*◌, is_some, if-holds, some, ltb, ◌&&◌, none,
  leb, ◌/◌,
}
use recovery_pilot_ai.Planner.Timing.{
  next_business_morning, apply_business_window, business_morning_from, after_cooldown, morning,
  date_of, is_business_day, time_of, minute_length, at_local,
}
use recovery_pilot_ai.Planner.Schedule.{
  retry_schedule, next_slot, schedule, PlannerContext, silent_schedule, escalation_schedule,
  promise_or_retry,
}
use mathlib.Core.Bool.{false≢true, false, not, true}
use recovery_pilot_ai.Planner.BusinessDays.{soon, soon_always}

not-soon : (day : ℕ) → soon zero day ≡ true → ⊥
not-soon day h = ground arith

no-days : (n : ℕ) → suc n ≤ zero → ⊥
no-days n h = omega arith

business_morning_from-lt :
    (n left day wall : ℕ)
    → n ≤ left
    → soon n day ≡ true
    → wall ≤ morning day
    → business_morning_from left day wall < morning (day + n)
unfolding business_morning_from
business_morning_from-lt zero left day wall l h w = absurd (not-soon day h)
business_morning_from-lt (suc n) zero day wall l h w = absurd (no-days n l)
business_morning_from-lt (suc n) (suc left) day wall l h w =
    if-holds (λ x. x < morning (day + suc n)) (is_business_day day && leb wall (morning day))
      (morning day) (business_morning_from left (day + 1) wall) (λ t. omega arith)
      (λ f.
        let rest =
          business_morning_from-lt n left (day + 1) wall (omega arith) (soon-later n day wall f w h)
            (omega arith) in
        omega (arith, rest))

next_business_morning-lt : (wall : ℕ) → next_business_morning wall < morning (date_of wall + 5)
unfolding next_business_morning business_morning_from
next_business_morning-lt wall =
    if-holds (λ x. x < morning (date_of wall + 5))
      (is_business_day (date_of wall) && leb wall (morning (date_of wall))) (morning (date_of wall))
      (business_morning_from 20 (date_of wall + 1) wall) (λ t. omega arith)
      (λ f.
        let rest =
          business_morning_from-lt 4 20 (date_of wall + 1) wall (omega arith)
            (soon_always (date_of wall + 1)) (omega arith) in
        omega (arith, rest))

apply_business_window-lt : (wall : ℕ) → apply_business_window wall false < wall + 7 * day_length
unfolding apply_business_window
apply_business_window-lt wall =
    if-holds (λ x. x < wall + 7 * day_length) (not (is_business_day (date_of wall)))
      (next_business_morning (wall + 1000000)) _
      (λ n. let later = next_business_morning-lt (wall + 1000000) in omega (arith, later))
      (λ b.
        if-holds (λ x. x < wall + 7 * day_length)
          (ltb (time_of wall / minute_length) (contact_window_start_hour * 60))
          (at_local (date_of wall) contact_window_start_hour 0) _ (λ e. omega arith)
          (λ s.
            if-holds (λ x. x < wall + 7 * day_length)
              (leb (contact_window_end_hour * 60) (time_of wall / minute_length))
              (next_business_morning ((date_of wall + 1) * day_length)) wall
              (λ l.
                let later = next_business_morning-lt ((date_of wall + 1) * day_length) in
                omega (arith, later))
              (λ e. omega arith)))

next_slot-lt :
    (from : ℕ) (context : PlannerContext)
    → next_slot from context < after_cooldown from context.policy.cooldown_until + 7 * day_length
unfolding next_slot
next_slot-lt from context =
    apply_business_window-lt (after_cooldown from context.policy.cooldown_until)

promise-lt :
    (context : PlannerContext) (promised : Option ℕ)
    → not (is_some promised) ≡ true
    → (promise_or_retry context promised).scheduled_at
      < after_cooldown context.as_of context.policy.cooldown_until + 7 * day_length
unfolding retry_schedule
promise-lt context none h = next_slot-lt context.as_of context
promise-lt context (some d) h = absurd (false≢true h)

-- Apart from STOP, the wait for a payday and a promise with a date, the plan of a case comes up within seven days of
-- the moment that the strategy counts from or, if that is later, of the end of the policy's cooldown.
pub schedule-lt :
    (strategy : PlannerStrategy) (context : PlannerContext)
    → keeps_hours strategy context.promised_date ≡ true
    → (schedule strategy context).scheduled_at
      < after_cooldown (earliest strategy context) context.policy.cooldown_until + 7 * day_length
unfolding schedule retry_schedule silent_schedule escalation_schedule
schedule-lt PlannerStrategy.wait_for_payday c h = absurd (false≢true h)
schedule-lt PlannerStrategy.retry_payment c h = next_slot-lt c.as_of c
schedule-lt PlannerStrategy.retry_silently c h =
    next_slot-lt (earliest PlannerStrategy.retry_silently c) c
schedule-lt PlannerStrategy.send_payment_link c h = next_slot-lt c.as_of c
schedule-lt PlannerStrategy.switch_payment_method c h = next_slot-lt c.as_of c
schedule-lt PlannerStrategy.request_new_mandate c h = next_slot-lt c.as_of c
schedule-lt PlannerStrategy.honour_promise_to_pay c h = promise-lt c c.promised_date h
schedule-lt PlannerStrategy.escalate_to_human c h = next_slot-lt c.as_of c
schedule-lt PlannerStrategy.stop_recovery c h = absurd (false≢true h)
