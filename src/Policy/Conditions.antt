-- ===== src/Policy/Conditions.antt =====
-- services/src/services/policy/rules.py: the conditions of a case on which the decision depends.
use recovery_pilot_ai.Base.{Bool, false, not, ◌||◌, leb, is_some}
use recovery_pilot_ai.Enums.{is_timeout}
use recovery_pilot_ai.Base.{◌/◌, none, some}
use recovery_pilot_ai.Policy.Consent.{is_withdrawn}
use recovery_pilot_ai.Policy.Cooldown.{in_contact_window, retry_cooldown_until}
use recovery_pilot_ai.Policy.Facts.{
  is_already_paid, is_chargeback, is_mandate_revoked, is_customer_cancelled, is_open, is_fulfilled,
  status_revoked, sub_cancelled, latest,
}
use recovery_pilot_ai.Policy.Models.{
  PolicyContext, day, max_retries_in_window, retry_window, min_retry_gap,
}

abbrev pub is_paid : PolicyContext → Bool
is_paid c = is_already_paid c.diagnosis.diagnosis || c.diagnosis.already_paid_after_failure

abbrev pub mandate_gone : PolicyContext → Bool
mandate_gone c = is_mandate_revoked c.diagnosis.diagnosis || status_revoked c.subscription

abbrev pub is_cancelled : PolicyContext → Bool
is_cancelled c = is_customer_cancelled c.diagnosis.diagnosis || sub_cancelled c.subscription

-- The invoice is settled, consent is withdrawn, the mandate revoked, a promise kept, or the
-- subscription cancelled.
abbrev pub must_stop : PolicyContext → Bool
must_stop c =
    is_paid c
    || is_withdrawn c.customer.consent_status
    || mandate_gone c
    || is_some (latest is_fulfilled c.promises)
    || is_cancelled c

-- A chargeback is active or the customer is in hardship.
abbrev pub must_escalate : PolicyContext → Bool
must_escalate c = is_chargeback c.diagnosis.diagnosis || c.customer.hardship

abbrev pub promise_runs : PolicyContext → Bool
promise_runs c = elim (latest is_open c.promises) [
  | none ↦ false
  | some row ↦ leb (c.customer.timezone.local c.as_of / day) row.promised_date
]

abbrev pub must_wait : PolicyContext → Bool
must_wait c =
    promise_runs c
    || is_some (
        retry_cooldown_until c.recovery_actions c.as_of max_retries_in_window retry_window
          min_retry_gap)
    || is_timeout c.diagnosis.diagnosis
    || not (in_contact_window c.as_of c.customer.timezone)
