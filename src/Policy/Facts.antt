-- ===== src/Policy/Facts.antt =====
-- services/src/services/policy/rules.py: how a rule builds its result, and what it asks of a case.
use Prim.Native.String.{String}
use recovery_pilot_ai.Base.{Bool, true, false, Option, none, some, List, [], filter, ltb, max_of?}
use recovery_pilot_ai.Enums.{
  DiagnosisCategory, CustomerSegment, MandateStatus, PromiseStatus, SubscriptionStatus,
}
use recovery_pilot_ai.Policy.Models.{
  channels, PolicyName, RuleVerdict, Reason, PolicyContext, PolicyRuleResult, PromisePolicySnapshot,
  SubscriptionPolicySnapshot,
}

-- A result with the defaults of `PolicyRuleResult`.
abbrev pub rule_result : PolicyName → RuleVerdict → Reason → List String → PolicyRuleResult
rule_result name verdict reason codes = record {
  policy_name = name;
  verdict = verdict;
  reason = reason;
  evidence_codes = codes;
  cooldown_until = none;
  allowed_channels = none;
  blocked_channels = none;
  manual_review_required = false;
  priority_boost = 0;
  silent_retry_allowed = false;
}

-- The same with `allowed_channels=[]` and `blocked_channels=list(CHANNELS)`.
abbrev pub blocking_result : PolicyName → RuleVerdict → Reason → List String → PolicyRuleResult
blocking_result name verdict reason codes = record (rule_result name verdict reason codes) {
  allowed_channels = some [];
  blocked_channels = some channels;
}

-- `_pass`
abbrev pub pass_result : PolicyName → PolicyRuleResult
pass_result name = rule_result name RuleVerdict.pass Reason.no_blocking_condition []

abbrev pub is_already_paid : DiagnosisCategory → Bool
is_already_paid DiagnosisCategory.already_paid = true
is_already_paid _ = false

abbrev pub is_chargeback : DiagnosisCategory → Bool
is_chargeback DiagnosisCategory.chargeback_active = true
is_chargeback _ = false

abbrev pub is_mandate_revoked : DiagnosisCategory → Bool
is_mandate_revoked DiagnosisCategory.mandate_revoked = true
is_mandate_revoked _ = false

abbrev pub is_customer_cancelled : DiagnosisCategory → Bool
is_customer_cancelled DiagnosisCategory.customer_cancelled = true
is_customer_cancelled _ = false

abbrev pub is_open : PromiseStatus → Bool
is_open PromiseStatus.open_promise = true
is_open _ = false

abbrev pub is_fulfilled : PromiseStatus → Bool
is_fulfilled PromiseStatus.fulfilled = true
is_fulfilled _ = false

abbrev pub is_broken : PromiseStatus → Bool
is_broken PromiseStatus.broken = true
is_broken _ = false

abbrev pub is_high_value : CustomerSegment → Bool
is_high_value CustomerSegment.high_value = true
is_high_value _ = false

-- `status == REVOKED` and `status == EXPIRED` on the subscription, `None` where there is none.
abbrev pub status_revoked : Option SubscriptionPolicySnapshot → Bool
status_revoked none = false
status_revoked (some s) = elim s.mandate_status [ MandateStatus.revoked ↦ true | _ ↦ false ]

abbrev pub status_expired : Option SubscriptionPolicySnapshot → Bool
status_expired none = false
status_expired (some s) = elim s.mandate_status [ MandateStatus.expired ↦ true | _ ↦ false ]

abbrev pub sub_cancelled : Option SubscriptionPolicySnapshot → Bool
sub_cancelled none = false
sub_cancelled (some s) = elim s.subscription_status [
  | SubscriptionStatus.cancelled ↦ true
  | _ ↦ false
]

abbrev pub earlier_date : PromisePolicySnapshot → PromisePolicySnapshot → Bool
earlier_date a b = ltb a.promised_date b.promised_date

-- The row with the latest date among those of one status: `None` if there is none.
unfoldable pub latest :
    (PromiseStatus → Bool) → List PromisePolicySnapshot → Option PromisePolicySnapshot
unfolding max_of?
latest has rows = max_of? earlier_date (filter (λ row. has row.status) rows)

unfoldable pub active_promise : PolicyContext → Option PromisePolicySnapshot
active_promise context = latest is_open context.promises
