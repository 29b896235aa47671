-- ===== src/Policy/Severities.antt =====
-- services/src/services/policy/rules.py: the severity of each rule, from the conditions of the case.
use recovery_pilot_ai.Policy.Conditions.{must_stop, must_escalate, promise_runs, must_wait}
use recovery_pilot_ai.Policy.Severity.{severity}
use recovery_pilot_ai.Base.{◌≡◌, not, ◌||◌, if◌then◌else◌, arith, is_some}
use recovery_pilot_ai.Enums.{is_timeout}
use recovery_pilot_ai.Policy.Consent.{is_withdrawn, is_pending}
use recovery_pilot_ai.Policy.Cooldown.{
  in_contact_window, next_contact_window_start, retry_cooldown_until,
}
use recovery_pilot_ai.Policy.Rules.{
  rule_already_paid, rule_chargeback, rule_consent, rule_mandate, rule_promise_to_pay,
  rule_retry_cooldown, rule_outage, rule_dnd_contact, rule_churn_protection, rule_high_value,
}
use recovery_pilot_ai.Policy.Facts.{
  is_already_paid, is_chargeback, is_mandate_revoked, is_customer_cancelled, is_fulfilled,
  status_revoked, sub_cancelled, latest,
}
use recovery_pilot_ai.Policy.Models.{
  PolicyContext, PolicyDecision, max_retries_in_window, retry_window, min_retry_gap,
}

abbrev pub decision_table : PolicyContext → PolicyDecision
decision_table c =
    if must_stop c
    then PolicyDecision.stop
    else if must_escalate c
    then PolicyDecision.escalate
    else if is_pending c.customer.consent_status
    then PolicyDecision.deny
    else if must_wait c
    then PolicyDecision.wait
    else PolicyDecision.allow

pub already_paid-severity :
    (c : PolicyContext)
    → severity (rule_already_paid c).verdict ≡ (
        if is_already_paid c.diagnosis.diagnosis || c.diagnosis.already_paid_after_failure
        then 4
        else 0)
unfolding rule_already_paid
already_paid-severity c = ground arith

pub chargeback-severity :
    (c : PolicyContext)
    → severity (rule_chargeback c).verdict ≡ (if is_chargeback c.diagnosis.diagnosis then 3 else 0)
unfolding rule_chargeback
chargeback-severity c = ground arith

pub consent-severity :
    (c : PolicyContext)
    → severity (rule_consent c).verdict ≡ (
        if is_withdrawn c.customer.consent_status
        then 4
        else if is_pending c.customer.consent_status
        then 2
        else 0)
unfolding rule_consent
consent-severity c = ground arith

pub mandate-severity :
    (c : PolicyContext)
    → severity (rule_mandate c).verdict
      ≡ (if is_mandate_revoked c.diagnosis.diagnosis || status_revoked c.subscription then 4 else 0)
unfolding rule_mandate
mandate-severity c = ground arith

pub promise-severity :
    (c : PolicyContext)
    → severity (rule_promise_to_pay c).verdict
      ≡ (if is_some (latest is_fulfilled c.promises) then 4 else if promise_runs c then 1 else 0)
unfolding rule_promise_to_pay
promise-severity c = ground arith

pub cooldown-severity :
    (c : PolicyContext)
    → severity (rule_retry_cooldown c).verdict ≡ (
        if is_some (
          retry_cooldown_until c.recovery_actions c.as_of max_retries_in_window retry_window
            min_retry_gap)
        then 1
        else 0)
unfolding rule_retry_cooldown
cooldown-severity c = ground arith

pub outage-severity :
    (c : PolicyContext)
    → severity (rule_outage c).verdict ≡ (if is_timeout c.diagnosis.diagnosis then 1 else 0)
unfolding rule_outage
outage-severity c = ground arith

pub dnd-severity :
    (c : PolicyContext)
    → severity (rule_dnd_contact c).verdict
      ≡ (if not (in_contact_window c.as_of c.customer.timezone) then 1 else 0)
unfolding rule_dnd_contact next_contact_window_start
dnd-severity c = ground arith

pub churn-severity :
    (c : PolicyContext)
    → severity (rule_churn_protection c).verdict ≡ (
        if is_customer_cancelled c.diagnosis.diagnosis || sub_cancelled c.subscription
        then 4
        else if c.customer.hardship
        then 3
        else 0)
unfolding rule_churn_protection
churn-severity c = ground arith

pub high_value-severity : (c : PolicyContext) → severity (rule_high_value c).verdict ≡ 0
unfolding rule_high_value
high_value-severity c = ground arith
