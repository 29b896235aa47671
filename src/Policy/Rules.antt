-- ===== src/Policy/Rules.antt =====
-- services/src/services/policy/rules.py: the ten independent rules.
use recovery_pilot_ai.Policy.Facts.{
  rule_result, blocking_result, pass_result, is_already_paid, is_chargeback, is_mandate_revoked,
  is_customer_cancelled, is_fulfilled, is_broken, is_high_value, status_revoked, status_expired,
  sub_cancelled, latest, active_promise,
}
use Prim.Native.String.{String}
use recovery_pilot_ai.Base.{
  ℕ, ◌+◌, ◌-◌, ◌*◌, ◌/◌, true, ◌&&◌, ◌||◌, Option, none, some, List, [], ◌∷◌, leb, if◌then◌else◌,
}
use recovery_pilot_ai.Enums.{is_timeout}
use recovery_pilot_ai.Policy.Models.{
  hour, day, Zone, Channel, PolicyName, RuleVerdict, Reason, PolicyContext, PolicyRuleResult,
  PromisePolicySnapshot, max_retries_in_window, retry_window, min_retry_gap,
  high_value_threshold_paise, high_value_priority_boost, broken_promise_priority_boost,
}
use recovery_pilot_ai.Policy.Consent.{split_channels, consent_revoked, consent_pending}
use recovery_pilot_ai.Policy.Cooldown.{
  next_contact_window_start, retry_cooldown_until, CooldownCode, minutes_of_day,
}

unfoldable pub rule_already_paid : PolicyContext → PolicyRuleResult
rule_already_paid context =
    if is_already_paid context.diagnosis.diagnosis || context.diagnosis.already_paid_after_failure
    then blocking_result PolicyName.already_paid RuleVerdict.stop Reason.paid_after_failure
        ("ALREADY_PAID" ∷ [])
    else pass_result PolicyName.already_paid

unfoldable pub rule_chargeback : PolicyContext → PolicyRuleResult
rule_chargeback context =
    if is_chargeback context.diagnosis.diagnosis
    then record (blocking_result PolicyName.chargeback RuleVerdict.escalate Reason.dispute_active
        ("CHARGEBACK_ACTIVE" ∷ [])) { manual_review_required = true }
    else pass_result PolicyName.chargeback

abbrev pub consent_passes : List Channel → List Channel → PolicyRuleResult
consent_passes allowed [] =
    record (rule_result PolicyName.consent RuleVerdict.pass Reason.consent_granted_for_all []) {
      allowed_channels = some allowed;
      blocked_channels = some [];
    }
consent_passes allowed (b ∷ bs) =
    record (rule_result PolicyName.consent RuleVerdict.pass (Reason.outreach_restricted (b ∷ bs))
      ("CONSENT_CHANNEL_RESTRICTED" ∷ [])) {
        allowed_channels = some allowed;
        blocked_channels = some (b ∷ bs);
      }

unfoldable pub rule_consent : PolicyContext → PolicyRuleResult
unfolding split_channels consent_revoked consent_pending
rule_consent context =
    let (allowed, blocked) = split_channels context.customer in
    if consent_revoked context.customer
    then blocking_result PolicyName.consent RuleVerdict.stop Reason.consent_revoked
        ("CONSENT_REVOKED" ∷ [])
    else if consent_pending context.customer
    then blocking_result PolicyName.consent RuleVerdict.fail Reason.consent_pending
        ("CONSENT_PENDING" ∷ [])
    else consent_passes allowed blocked

unfoldable pub rule_mandate : PolicyContext → PolicyRuleResult
rule_mandate context =
    if is_mandate_revoked context.diagnosis.diagnosis || status_revoked context.subscription
    then blocking_result PolicyName.mandate RuleVerdict.stop Reason.mandate_revoked
        ("MANDATE_REVOKED" ∷ [])
    else if status_expired context.subscription
    then rule_result PolicyName.mandate RuleVerdict.pass Reason.mandate_expired
        ("MANDATE_EXPIRED" ∷ [])
    else pass_result PolicyName.mandate

abbrev broken_result : ℕ → PolicyRuleResult
broken_result date =
    record (rule_result PolicyName.promise_to_pay RuleVerdict.pass (Reason.promise_broken date)
      ("PROMISE_BROKEN" ∷ [])) {
        manual_review_required = true;
        priority_boost = broken_promise_priority_boost;
      }

-- 08:00 on the day after the promised date.
abbrev pub promise_resume : Zone → ℕ → ℕ
promise_resume timezone date = timezone.instant ((date + 1) * day + 8 * hour)

abbrev open_or_broken :
    Option PromisePolicySnapshot → Option PromisePolicySnapshot → Zone → ℕ → PolicyRuleResult
open_or_broken (some row) _ timezone today =
    if leb today row.promised_date
    then record (blocking_result PolicyName.promise_to_pay RuleVerdict.wait
        (Reason.promise_active row.promised_date) ("PROMISE_ACTIVE" ∷ [])) {
          cooldown_until = some (promise_resume timezone row.promised_date);
        }
    else broken_result row.promised_date
open_or_broken none (some row) timezone today = broken_result row.promised_date
open_or_broken none none timezone today = pass_result PolicyName.promise_to_pay

abbrev promise_result : Option PromisePolicySnapshot → PolicyRuleResult → PolicyRuleResult
promise_result (some row) other =
    blocking_result PolicyName.promise_to_pay RuleVerdict.stop
      (Reason.promise_fulfilled row.promised_date) ("PROMISE_FULFILLED" ∷ [])
promise_result none other = other

unfoldable pub rule_promise_to_pay : PolicyContext → PolicyRuleResult
unfolding active_promise
rule_promise_to_pay context = promise_result (latest is_fulfilled context.promises) (
    open_or_broken (active_promise context) (latest is_broken context.promises)
      context.customer.timezone (context.customer.timezone.local context.as_of / day))

abbrev cooldown_reason : CooldownCode → ℕ → ℕ → Reason × List String
cooldown_reason CooldownCode.retry_cap until as_of =
    (Reason.retry_cap_reached until, "RETRY_CAP" ∷ [])
cooldown_reason CooldownCode.retry_cooldown until as_of =
    (Reason.cooldown_active ((until - as_of) / hour), "RETRY_COOLDOWN" ∷ [])

abbrev cooldown_result : Option (ℕ × CooldownCode) → ℕ → PolicyRuleResult
cooldown_result none as_of = pass_result PolicyName.retry_cooldown
cooldown_result (some (until, code)) as_of =
    let (reason, codes) = cooldown_reason code until as_of in
    record (rule_result PolicyName.retry_cooldown RuleVerdict.wait reason codes) {
      cooldown_until = some until;
      silent_retry_allowed = true;
    }

unfoldable pub rule_retry_cooldown : PolicyContext → PolicyRuleResult
rule_retry_cooldown context =
    cooldown_result
      (retry_cooldown_until context.recovery_actions context.as_of max_retries_in_window
        retry_window min_retry_gap)
      context.as_of

unfoldable pub rule_outage : PolicyContext → PolicyRuleResult
rule_outage context =
    if is_timeout context.diagnosis.diagnosis
    then record (blocking_result PolicyName.outage RuleVerdict.wait
        (Reason.rail_timeout context.diagnosis.diagnosis) ("OUTAGE_TIMEOUT" ∷ [])) {
          silent_retry_allowed = true;
        }
    else pass_result PolicyName.outage

abbrev dnd_result : Option ℕ → Zone → ℕ → PolicyRuleResult
dnd_result none timezone as_of = pass_result PolicyName.dnd_contact
dnd_result (some nxt) timezone as_of =
    record (blocking_result PolicyName.dnd_contact RuleVerdict.wait
      (Reason.outside_contact_window timezone (minutes_of_day (timezone.local as_of)))
      ("DND_CONTACT_WINDOW" ∷ [])) { cooldown_until = some nxt; silent_retry_allowed = true }

unfoldable pub rule_dnd_contact : PolicyContext → PolicyRuleResult
rule_dnd_contact context =
    dnd_result (next_contact_window_start context.as_of context.customer.timezone)
      context.customer.timezone context.as_of

unfoldable pub rule_churn_protection : PolicyContext → PolicyRuleResult
rule_churn_protection context =
    if is_customer_cancelled context.diagnosis.diagnosis || sub_cancelled context.subscription
    then blocking_result PolicyName.churn_protection RuleVerdict.stop Reason.customer_cancelled
        ("CUSTOMER_CANCELLED" ∷ [])
    else if context.customer.hardship
    then record (blocking_result PolicyName.churn_protection RuleVerdict.escalate Reason.hardship
        ("HARDSHIP" ∷ [])) { manual_review_required = true }
    else pass_result PolicyName.churn_protection

unfoldable pub rule_high_value : PolicyContext → PolicyRuleResult
rule_high_value context =
    if is_high_value context.customer.segment
      && leb high_value_threshold_paise context.payment.amount
    then record (rule_result PolicyName.high_value RuleVerdict.pass Reason.high_value_customer
        ("HIGH_VALUE_CUSTOMER" ∷ [])) {
          manual_review_required = true;
          priority_boost = high_value_priority_boost;
        }
    else pass_result PolicyName.high_value
