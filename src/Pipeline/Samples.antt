-- ===== src/Pipeline/Samples.antt =====
-- A case without consent, and the properties of the pipeline at it.
use recovery_pilot_ai.Pipeline.Diagnosed.{diagnose-stops}
use recovery_pilot_ai.Diagnosis.Rules.{cancels, revokes}
use recovery_pilot_ai.Diagnosis.Samples.{paid}
use recovery_pilot_ai.Diagnosis.Calendar.{local_day}
use recovery_pilot_ai.Diagnosis.Engine.{for_policy, diagnose}
use recovery_pilot_ai.Diagnosis.Features.{
  extract_features, matching_outage, first_outage, rail_of, already_paid_after_failure,
  duplicate_captured,
}
use recovery_pilot_ai.Planner.Channels.{
  plan_channels, blocked_set, allowed_set, pick, sort_names, dashboard_last, ranked,
}
use recovery_pilot_ai.Policy.Merge.{merge_rows, merge_channels}
use recovery_pilot_ai.Policy.Rules.{
  rule_already_paid, rule_chargeback, rule_consent, rule_mandate, rule_promise_to_pay,
  rule_retry_cooldown, rule_outage, rule_dnd_contact, rule_churn_protection, rule_high_value,
}
use recovery_pilot_ai.Policy.Facts.{latest, active_promise}
use recovery_pilot_ai.Policy.Registry.{evaluate_rules}
use recovery_pilot_ai.Policy.Evaluator.{evaluate, add_codes, verdict_of, fold_decision}
use recovery_pilot_ai.Policy.Cooldown.{
  in_contact_window, next_contact_window_start, retry_actions, cooldown_from, retry_cooldown_until,
}
use recovery_pilot_ai.Policy.Consent.{
  channel_granted, mem, split_channels, consent_revoked, consent_pending,
}
use recovery_pilot_ai.Policy.Severity.{pick_winner}
use recovery_pilot_ai.Enums.{ConsentStatus}
use recovery_pilot_ai.Executor.Log.{empty_store}
use recovery_pilot_ai.Pipeline.{strategy_of, pipeline-closed, pipeline-consented, PolicyDecision}
use recovery_pilot_ai.Planner.Models.{PlannerStrategy}
use recovery_pilot_ai.Policy.Channels.{is_open_decision}
use recovery_pilot_ai.Policy.Samples.{sample}
use recovery_pilot_ai.Base.{◌+◌, ◌≡◌, [], true, refl, some, none, max_of, max_of?}
use recovery_pilot_ai.Executor.Engine.{execute}
use recovery_pilot_ai.Policy.Models.{PolicyContext, Channel}
use recovery_pilot_ai.Executor.Models.{Hashes, ExecutorContext, StrategyName}

abbrev hashes : Hashes
hashes = record {
  execution_id_for = λ key. key.scheduled_at;
  event_id = λ case at type index. at + index;
  link_id = λ case at. at;
  digest = λ case strategy at payment. at;
}

abbrev withdrawn : PolicyContext
withdrawn = record sample {
  customer = record sample.customer { consent_status = ConsentStatus.withdrawn };
}

abbrev plan : ExecutorContext
plan = record {
  as_of = 120;
  plan = record {
    strategy = strategy_of withdrawn;
    scheduled_at = 100;
    recommended_channels = [];
    fallback_strategy = PlannerStrategy.stop_recovery;
    expected_recovery_probability = 9000;
    estimated_recovery_value = 0;
    recovery_case_id = some 7;
    payment_id = some 9;
    diagnosis_feature = none;
    payment_amount_feature = none;
  };
  strategy = StrategyName.known (strategy_of withdrawn);
  recovery_case_id = some 7;
  payment_id = some 9;
  payment_amount = 5000;
  payment_method = none;
  diagnosis = none;
}

pipeline-closed_example : (execute hashes plan empty_store).0.recovered_value ≡ 0
pipeline-closed_example = pipeline-closed hashes withdrawn plan empty_store refl refl

sample-sms :
    mem Channel.sms (plan_channels PlannerStrategy.send_payment_link (evaluate sample)).recommended
    ≡ true
unfolding pick_winner channel_granted split_channels consent_revoked consent_pending
    in_contact_window next_contact_window_start retry_actions cooldown_from retry_cooldown_until
    add_codes verdict_of fold_decision evaluate latest active_promise rule_already_paid
    rule_chargeback rule_consent rule_mandate rule_promise_to_pay rule_retry_cooldown rule_outage
    rule_dnd_contact rule_churn_protection rule_high_value merge_rows merge_channels evaluate_rules
    blocked_set allowed_set pick sort_names dashboard_last ranked plan_channels max_of max_of?
sample-sms = refl

pipeline-consented_example :
    (channel_granted sample.customer Channel.sms ≡ true)
    × (is_open_decision (evaluate sample).decision ≡ true)
pipeline-consented_example =
    pipeline-consented sample PlannerStrategy.send_payment_link Channel.sms sample-sms refl

-- A payment that was paid the day after it failed.
abbrev settled_case : PolicyContext
settled_case = record sample { diagnosis = for_policy (diagnose paid) none }

diagnose-stops_example : (evaluate settled_case).decision ≡ PolicyDecision.stop
unfolding extract_features local_day matching_outage first_outage rail_of already_paid_after_failure
    duplicate_captured cancels revokes
diagnose-stops_example = diagnose-stops paid settled_case none refl refl
