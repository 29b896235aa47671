-- ===== src/Policy/Samples.antt =====
-- One case of the policy engine, and the properties at it.
use recovery_pilot_ai.Policy.Totals.{evaluate_batch_contexts-totals}
use recovery_pilot_ai.Policy.Conditions.{must_stop}
use recovery_pilot_ai.Base.Counters.{total}
use recovery_pilot_ai.Policy.Engine.{evaluate_batch_contexts}
use recovery_pilot_ai.Policy.Facts.{latest}
use recovery_pilot_ai.Policy.Retries.{retry_cooldown_until-ends, retry_cooldown_until-clear}
use recovery_pilot_ai.Policy.Candidates.{is_recent}
use recovery_pilot_ai.Policy.Channels.{is_open_decision, fold_decision-allowed}
use recovery_pilot_ai.Policy.Merge.{or_nil}
use recovery_pilot_ai.Policy.Outreach.{evaluate-allows}
use recovery_pilot_ai.Policy.Decisions.{decision_table, evaluate-decision}
use recovery_pilot_ai.Enums.{
  RecoveryActionType, ExecutionStatus, DiagnosisCategory, CustomerSegment, ConsentStatus,
  PaymentStatus,
}
use recovery_pilot_ai.Base.{
  refl, ◌≡◌, ◌∷◌, ◌*◌, [], true, ◌+◌, All, none, some, ◌∙◌, ◌↔◌, ◌<◌, false, ◌≤◌, map, arith,
  count_if,
}
use recovery_pilot_ai.Policy.Registry.{evaluate_rules}
use recovery_pilot_ai.Policy.Window.{KeepsTime, next_contact_window_start-opens}
use recovery_pilot_ai.Policy.Consent.{mem, channel_granted}
use recovery_pilot_ai.Policy.Evaluator.{fold_decision, evaluate}
use recovery_pilot_ai.Policy.Models.{
  PolicyContext, Zone, RecoveryActionSnapshot, Channel, day, channels, hour, event_time,
  PolicyRuleResult, PolicyDecision,
}
use recovery_pilot_ai.Policy.Cooldown.{
  retry_cooldown_until, next_contact_window_start, retry_actions, in_contact_window, CooldownCode,
  cooldown_from,
}

abbrev utc : Zone
utc = record { local = λ t. t; instant = λ w. w }

utc-KeepsTime : KeepsTime utc
utc-KeepsTime = record { read_back = λ w. refl; forward = λ m w h. h }

-- An insufficient-funds failure at ten in the morning, with consent for WhatsApp and SMS.
abbrev pub sample : PolicyContext
sample = record {
  as_of = 739000 * day + 10 * hour;
  diagnosis = record {
    diagnosis = DiagnosisCategory.insufficient_funds;
    priority_score = 6000;
    evidence_codes = "NSF" ∷ [];
    triggered_rules = [];
    recovery_case_id = some 7;
    payment_id = some 9;
    already_paid_after_failure = false;
  };
  customer = record {
    id = 1;
    segment = CustomerSegment.loyal;
    consent_status = ConsentStatus.granted;
    consent_whatsapp = true;
    consent_sms = true;
    consent_voice = false;
    consent_email = false;
    hardship = false;
    timezone = utc;
  };
  payment = record {
    id = 9;
    amount = 149_900;
    status = PaymentStatus.failed;
    created_at = 739000 * day;
    attempt_number = 1;
  };
  subscription = none;
  recovery_actions = [];
  promises = [];
  recovery_case_id = some 7;
}

-- A retry that ran an hour before.
abbrev retried : RecoveryActionSnapshot
retried = record {
  action_type = RecoveryActionType.retry_payment;
  execution_status = ExecutionStatus.failed;
  scheduled_time = none;
  executed_time = some (739000 * day + 9 * hour);
  created_at = 739000 * day;
  retry_number = 1;
}

evaluate-decision_example : (evaluate sample).decision ≡ decision_table sample
evaluate-decision_example = evaluate-decision sample

next_contact_window_start-opens_example :
    (in_contact_window (739001 * day + 8 * hour) utc ≡ true)
    × (739000 * day + 20 * hour < 739001 * day + 8 * hour)
    × (739001 * day + 8 * hour ≤ 739000 * day + 20 * hour + day)
unfolding next_contact_window_start
next_contact_window_start-opens_example =
    next_contact_window_start-opens (739000 * day + 20 * hour) utc (739001 * day + 8 * hour)
      utc-KeepsTime refl

retry_cooldown_until-clear_example :
    (retry_cooldown_until (retried ∷ []) (739000 * day + 10 * hour) 3 (7 * day) (24 * hour) ≡ none)
    ↔ (All
          (λ t. t + 24 * hour ≤ 739000 * day + 10 * hour)
          (map event_time (retry_actions (retried ∷ [])))
        × (count_if
              (is_recent (739000 * day + 10 * hour) (7 * day))
              (map event_time (retry_actions (retried ∷ [])))
            < 3))
retry_cooldown_until-clear_example =
    retry_cooldown_until-clear (retried ∷ []) (739000 * day + 10 * hour) 3 (7 * day) (24 * hour)
      (omega arith)

retry_cooldown_until-ends_example :
    (739000 * day + 10 * hour < 739001 * day + 9 * hour)
    × (retry_cooldown_until (retried ∷ []) (739001 * day + 9 * hour) 3 (7 * day) (24 * hour) ≡ none)
unfolding retry_cooldown_until retry_actions cooldown_from
retry_cooldown_until-ends_example =
    retry_cooldown_until-ends (retried ∷ []) (739000 * day + 10 * hour) 3 (7 * day) (24 * hour)
      (omega arith) (739001 * day + 9 * hour, CooldownCode.retry_cooldown) (omega arith) refl

sample-allow : (evaluate sample).decision ≡ PolicyDecision.allow
unfolding latest retry_cooldown_until retry_actions cooldown_from in_contact_window
sample-allow = evaluate-decision sample ∙ refl

sample-sms : mem Channel.sms (fold_decision sample (evaluate_rules sample)).allowed_channels ≡ true
unfolding evaluate channel_granted
sample-sms = evaluate-allows sample Channel.sms sample-allow ∙ refl

fold_decision-allowed_example :
    (channel_granted sample.customer Channel.sms ≡ true)
    × (mem Channel.sms channels ≡ true)
    × All {A = PolicyRuleResult}
        (λ row. mem Channel.sms (or_nil row.blocked_channels) ≡ false)
        (evaluate_rules sample)
    × (is_open_decision (fold_decision sample (evaluate_rules sample)).decision ≡ true)
fold_decision-allowed_example =
    fold_decision-allowed sample (evaluate_rules sample) Channel.sms sample-sms

evaluate_batch_contexts-totals_example :
    let s = (evaluate_batch_contexts (sample ∷ sample ∷ []) (5 ∷ [])).summary in
    (s.stopped_cases + s.escalated_cases + s.waiting_cases + s.allowed_cases + s.denied_cases + 1
      ≡ s.total_cases)
    × (total s.decision_distribution + 1 ≡ s.total_cases)
    × (s.stopped_cases ≡ count_if must_stop (sample ∷ sample ∷ []))
evaluate_batch_contexts-totals_example =
    evaluate_batch_contexts-totals (sample ∷ sample ∷ []) (5 ∷ [])
