-- ===== src/Planner/Slots.antt =====
-- services/src/services/planner/scheduler.py: the slots that the business window decides.
use mathlib.Core.Bool.{false≢true}
use recovery_pilot_ai.Planner.Windows.{OpensAfter, apply_business_window-Opens}
use recovery_pilot_ai.Planner.Models.{PlannerStrategy}
use recovery_pilot_ai.Base.{
  Option, ℕ, not, Bool, ◌≡◌, false, is_some, true, some, arith, leb, none, ◌+◌, refl,
}
use recovery_pilot_ai.Planner.Timing.{after_cooldown}
use recovery_pilot_ai.Planner.Schedule.{
  retry_schedule, next_slot, schedule, silent_schedule, PlannerContext, escalation_schedule,
  promise_or_retry, outage_retry_delay,
}

-- The strategies whose slot may lie elsewhere: STOP, which has none, the payday, and a promise with a date.
abbrev pub keeps_hours : PlannerStrategy → Option ℕ → Bool
keeps_hours PlannerStrategy.stop_recovery promised = false
keeps_hours PlannerStrategy.wait_for_payday promised = false
keeps_hours PlannerStrategy.honour_promise_to_pay promised = not (is_some promised)
keeps_hours _ promised = true

-- The moment that a strategy counts from: an hour after the outage for a silent retry.
abbrev pub earliest : PlannerStrategy → PlannerContext → ℕ
earliest PlannerStrategy.retry_silently context =
    (elim context.outage_ended_at [ none ↦ context.as_of | some moment ↦ moment ])
    + outage_retry_delay
earliest _ context = context.as_of

abbrev pub is_past : Option ℕ → ℕ → Bool
is_past none slot = true
is_past (some cool) slot = leb cool slot

after_cooldown-past :
    (from slot : ℕ) (cooldown : Option ℕ)
    → OpensAfter (after_cooldown from cooldown) slot
    → OpensAfter from slot × (is_past cooldown slot ≡ true)
unfolding after_cooldown
after_cooldown-past from slot none o = (o, refl)
after_cooldown-past from slot (some cool) (d, s, e, w) = ((d, s, e, ground arith), ground arith)

next_slot-Opens :
    (from : ℕ) (context : PlannerContext)
    → OpensAfter from (next_slot from context)
      × (is_past context.policy.cooldown_until (next_slot from context) ≡ true)
unfolding next_slot
next_slot-Opens from context =
    after_cooldown-past from _ context.policy.cooldown_until
      (apply_business_window-Opens (after_cooldown from context.policy.cooldown_until))

promise-Opens :
    (context : PlannerContext) (promised : Option ℕ)
    → not (is_some promised) ≡ true
    → OpensAfter context.as_of (promise_or_retry context promised).scheduled_at
      × (is_past context.policy.cooldown_until (promise_or_retry context promised).scheduled_at
          ≡ true)
unfolding retry_schedule
promise-Opens context none h = next_slot-Opens context.as_of context
promise-Opens context (some d) h = absurd (false≢true h)

-- Apart from STOP, the wait for a payday and a promise with a date, a plan is scheduled on a business day, at a
-- time from 8:00 to before 19:00, not before the policy's cooldown is over and not before the moment that the
-- strategy counts from, which is an hour after the outage for a silent retry.
pub schedule-Opens :
    (strategy : PlannerStrategy) (context : PlannerContext)
    → keeps_hours strategy context.promised_date ≡ true
    → OpensAfter (earliest strategy context) (schedule strategy context).scheduled_at
      × (is_past context.policy.cooldown_until (schedule strategy context).scheduled_at ≡ true)
unfolding schedule retry_schedule silent_schedule escalation_schedule
schedule-Opens PlannerStrategy.wait_for_payday c h = absurd (false≢true h)
schedule-Opens PlannerStrategy.retry_payment c h = next_slot-Opens c.as_of c
schedule-Opens PlannerStrategy.retry_silently c h =
    next_slot-Opens (earliest PlannerStrategy.retry_silently c) c
schedule-Opens PlannerStrategy.send_payment_link c h = next_slot-Opens c.as_of c
schedule-Opens PlannerStrategy.switch_payment_method c h = next_slot-Opens c.as_of c
schedule-Opens PlannerStrategy.request_new_mandate c h = next_slot-Opens c.as_of c
schedule-Opens PlannerStrategy.honour_promise_to_pay c h = promise-Opens c c.promised_date h
schedule-Opens PlannerStrategy.escalate_to_human c h = next_slot-Opens c.as_of c
schedule-Opens PlannerStrategy.stop_recovery c h = absurd (false≢true h)
