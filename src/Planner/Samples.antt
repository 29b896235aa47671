-- ===== src/Planner/Samples.antt =====
-- One diagnosis and one decision of the policy, and the planner's properties at them.
use recovery_pilot_ai.Planner.Soon.{schedule-lt}
use recovery_pilot_ai.Planner.Values.{
  estimate_probability, ends_recovery, recovery_score, round_half_even,
}
use recovery_pilot_ai.Planner.Totals.{plan-bounds}
use recovery_pilot_ai.Diagnosis.Calendar.{days_of, weekday, festivals, civil, day_length}
use recovery_pilot_ai.Planner.Slots.{is_past, schedule-Opens}
use recovery_pilot_ai.Planner.Windows.{OpensAfter}
use recovery_pilot_ai.Planner.Timing.{
  is_business_day, is_weekend, at_local, is_festival, after_cooldown, apply_business_window,
  next_business_morning, business_morning_from, next_payday_slot, payday_slot_from,
  payday_window_for,
}
use recovery_pilot_ai.Planner.Engine.{plan}
use recovery_pilot_ai.Planner.Schedule.{
  schedule, PlannerContext, retry_schedule, payday_schedule, next_slot,
}
use recovery_pilot_ai.Policy.Merge.{is_nil}
use recovery_pilot_ai.Policy.Consent.{mem}
use recovery_pilot_ai.Planner.Models.{PlannerStrategy}
use recovery_pilot_ai.Planner.Strategies.{select_strategy, fallback, has_code}
use recovery_pilot_ai.Enums.{DiagnosisCategory, CustomerSegment}
use recovery_pilot_ai.Planner.Contact.{plan_channels-safe}
use recovery_pilot_ai.Planner.Channels.{
  plan_channels, ranked, blocked_set, allowed_set, pick, sort_names, dashboard_last,
}
use recovery_pilot_ai.Policy.Models.{
  DiagnosisResult, PolicyDecisionResult, PolicyName, PolicyDecision, Channel,
}
use recovery_pilot_ai.Planner.Gate.{permits, select_strategy-permits}
use recovery_pilot_ai.Base.{
  ◌∷◌, [], none, some, ◌≡◌, true, false, refl, ◌||◌, ap, ◌≤◌, ◌+◌, ◌==◌, ◌<◌, ◌*◌, leb,
}

abbrev diagnosis : DiagnosisResult
diagnosis = record {
  diagnosis = DiagnosisCategory.insufficient_funds;
  priority_score = 6000;
  evidence_codes = "NSF" ∷ [];
  triggered_rules = [];
  recovery_case_id = some 7;
  payment_id = some 9;
  already_paid_after_failure = false;
}

-- ALLOW, with WhatsApp and SMS open to contact.
abbrev pub allowed : PolicyDecisionResult
allowed = record {
  policy_name = PolicyName.default_allow;
  decision = PolicyDecision.allow;
  reason = [];
  evidence_codes = [];
  priority_score = 6000;
  decision_priority = 10;
  evaluated_at = 100;
  cooldown_until = none;
  allowed_channels = Channel.whatsapp ∷ Channel.sms ∷ [];
  blocked_channels = Channel.voice ∷ Channel.email ∷ [];
  manual_review_required = false;
  triggered_policies = [];
  failed_policies = [];
  evaluated_rules = [];
  silent_retry_allowed = false;
  recovery_case_id = some 7;
  payment_id = 9;
  diagnosis = DiagnosisCategory.insufficient_funds;
}

link_names :
    (plan_channels PlannerStrategy.send_payment_link allowed).recommended
    ≡ Channel.upi_payment_link ∷ Channel.whatsapp ∷ Channel.sms ∷ []
unfolding plan_channels ranked blocked_set allowed_set pick sort_names dashboard_last
link_names = refl

select_strategy-permits_example :
    permits PolicyDecision.allow (select_strategy diagnosis allowed).strategy ≡ true
select_strategy-permits_example = select_strategy-permits diagnosis allowed

plan_channels-safe_example :
    (mem Channel.sms allowed.blocked_channels ≡ false)
    × (allowed.silent_retry_allowed ≡ false)
    × (is_nil allowed.allowed_channels || mem Channel.sms allowed.allowed_channels ≡ true)
plan_channels-safe_example =
    plan_channels-safe PlannerStrategy.send_payment_link allowed Channel.sms
      (ap (mem Channel.sms) link_names) refl

-- A salaried customer with 10,000 rupees due on Saturday, 4 July 2026, at 8:00.
abbrev saturday : PlannerContext
saturday = record {
  as_of = at_local (days_of (record { year = 2026; month = 7; day = 4 })) 8 0;
  diagnosis = diagnosis;
  confidence = 8000;
  policy = allowed;
  segment = CustomerSegment.loyal;
  salary_dependent = true;
  payment_amount = 1000000;
  previous_success_rate = 5000;
  max_fail_streak = 0;
  promised_date = none;
  outage_ended_at = none;
  retry_count = 1;
  subscription_age_days = 100;
  recovery_case_id = some 7;
}

-- A link is sent on Monday at 9:15.
link_time :
    (schedule PlannerStrategy.send_payment_link saturday).scheduled_at
    ≡ at_local (days_of (record { year = 2026; month = 7; day = 6 })) 9 15
unfolding schedule days_of retry_schedule next_slot after_cooldown apply_business_window
    is_business_day next_business_morning business_morning_from is_weekend is_festival weekday
    festivals
link_time = refl

-- The payday is looked for again after Monday, 6 July: it is Saturday, 1 August.
payday_time :
    (schedule PlannerStrategy.wait_for_payday saturday).scheduled_at
    ≡ at_local (days_of (record { year = 2026; month = 8; day = 1 })) 9 15
unfolding schedule days_of payday_schedule after_cooldown apply_business_window is_business_day
    next_business_morning business_morning_from is_weekend is_festival weekday festivals
    next_payday_slot payday_slot_from civil payday_window_for
payday_time = refl

payday_weekend : is_business_day (days_of (record { year = 2026; month = 8; day = 1 })) ≡ false
unfolding is_business_day is_weekend is_festival weekday festivals days_of
payday_weekend = refl

planned_value : (plan saturday).plan.estimated_recovery_value ≡ 703300
unfolding plan select_strategy fallback estimate_probability recovery_score round_half_even has_code
planned_value = refl

schedule-Opens_example :
    OpensAfter saturday.as_of (schedule PlannerStrategy.send_payment_link saturday).scheduled_at
    × (is_past none (schedule PlannerStrategy.send_payment_link saturday).scheduled_at ≡ true)
schedule-Opens_example = schedule-Opens PlannerStrategy.send_payment_link saturday refl

plan-bounds_example :
    ((plan saturday).plan.expected_recovery_probability ≤ 9500)
    × (((plan saturday).plan.expected_recovery_probability == 0)
        ≡ ends_recovery (plan saturday).plan.strategy)
    × (ends_recovery (plan saturday).plan.strategy
          || leb 500 (plan saturday).plan.expected_recovery_probability
        ≡ true)
    × ((plan saturday).plan.estimated_recovery_value ≤ 1000000)
plan-bounds_example = plan-bounds saturday

schedule-lt_example :
    (schedule PlannerStrategy.send_payment_link saturday).scheduled_at
    < after_cooldown saturday.as_of none + 7 * day_length
schedule-lt_example = schedule-lt PlannerStrategy.send_payment_link saturday refl
