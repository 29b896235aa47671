-- ===== src/Planner/Strategies.antt =====
-- services/src/services/planner/strategies.py and constants.py: one strategy and its fallback.
-- The texts of `steps` are left out.
use recovery_pilot_ai.Policy.Evaluator.{elem}
use Prim.Native.String.{String}
use recovery_pilot_ai.Base.{Bool, true, if◌then◌else◌, false, ◌||◌}
use recovery_pilot_ai.Planner.Models.{PlannerStrategy}
use recovery_pilot_ai.Enums.{DiagnosisCategory}
use recovery_pilot_ai.Policy.Models.{
  PolicyName, DiagnosisResult, PolicyDecisionResult, PolicyDecision,
}

-- `_fallback` with `FALLBACK_STRATEGY`
unfoldable pub fallback : PlannerStrategy → PlannerStrategy
fallback PlannerStrategy.wait_for_payday = PlannerStrategy.send_payment_link
fallback PlannerStrategy.retry_silently = PlannerStrategy.switch_payment_method
fallback PlannerStrategy.request_new_mandate = PlannerStrategy.escalate_to_human
fallback PlannerStrategy.switch_payment_method = PlannerStrategy.send_payment_link
fallback PlannerStrategy.send_payment_link = PlannerStrategy.escalate_to_human
fallback PlannerStrategy.retry_payment = PlannerStrategy.send_payment_link
fallback PlannerStrategy.honour_promise_to_pay = PlannerStrategy.send_payment_link
fallback PlannerStrategy.escalate_to_human = PlannerStrategy.stop_recovery
fallback PlannerStrategy.stop_recovery = PlannerStrategy.stop_recovery

pub record StrategyChoice : Type 0 where
  pub strategy : PlannerStrategy
  pub fallback_strategy : PlannerStrategy

-- Whether the set of codes has the code.
unfoldable pub has_code : DiagnosisResult → PolicyDecisionResult → String → Bool
has_code diagnosis policy code =
    elem code policy.evidence_codes
    || elem code diagnosis.triggered_rules
    || elem code diagnosis.evidence_codes

abbrev pub is_promise_policy : PolicyName → Bool
is_promise_policy PolicyName.promise_to_pay = true
is_promise_policy _ = false

abbrev pub waiting_strategy : DiagnosisResult → PolicyDecisionResult → PlannerStrategy
waiting_strategy diagnosis policy =
    if has_code diagnosis policy "PROMISE_ACTIVE" || is_promise_policy policy.policy_name
    then PlannerStrategy.honour_promise_to_pay
    else elim diagnosis.diagnosis [
      | DiagnosisCategory.bank_timeout ↦ PlannerStrategy.retry_silently
      | DiagnosisCategory.upi_timeout ↦ PlannerStrategy.retry_silently
      | DiagnosisCategory.insufficient_funds ↦ PlannerStrategy.wait_for_payday
      | _ ↦
          if policy.silent_retry_allowed
          then PlannerStrategy.retry_silently
          else PlannerStrategy.retry_payment
    ]

-- The branches of ALLOW from `PROMISE_BROKEN` on.
abbrev pub settled_strategy : DiagnosisCategory → PlannerStrategy
settled_strategy DiagnosisCategory.insufficient_funds = PlannerStrategy.send_payment_link
settled_strategy DiagnosisCategory.bank_timeout = PlannerStrategy.retry_payment
settled_strategy DiagnosisCategory.upi_timeout = PlannerStrategy.retry_payment
settled_strategy DiagnosisCategory.already_paid = PlannerStrategy.stop_recovery
settled_strategy DiagnosisCategory.duplicate_payment = PlannerStrategy.stop_recovery
settled_strategy DiagnosisCategory.chargeback_active = PlannerStrategy.escalate_to_human
settled_strategy _ = PlannerStrategy.send_payment_link

abbrev pub is_mandate_revoked : DiagnosisCategory → Bool
is_mandate_revoked DiagnosisCategory.mandate_revoked = true
is_mandate_revoked _ = false

abbrev pub allowed_strategy : DiagnosisResult → PolicyDecisionResult → PlannerStrategy
allowed_strategy diagnosis policy = elim diagnosis.diagnosis [
  | DiagnosisCategory.card_expired ↦ PlannerStrategy.request_new_mandate
  | DiagnosisCategory.authentication_failed ↦ PlannerStrategy.switch_payment_method
  | d ↦
      if has_code diagnosis policy "MANDATE_EXPIRED" || is_mandate_revoked d
      then PlannerStrategy.request_new_mandate
      else if has_code diagnosis policy "PROMISE_BROKEN"
      then PlannerStrategy.escalate_to_human
      else settled_strategy d
]

-- The strategy that `select_strategy` returns.
abbrev pub primary : DiagnosisResult → PolicyDecisionResult → PlannerStrategy
primary diagnosis policy = elim policy.decision [
  | PolicyDecision.stop ↦ PlannerStrategy.stop_recovery
  | PolicyDecision.escalate ↦ PlannerStrategy.escalate_to_human
  | PolicyDecision.deny ↦ PlannerStrategy.stop_recovery
  | PolicyDecision.wait ↦ waiting_strategy diagnosis policy
  | PolicyDecision.allow ↦ allowed_strategy diagnosis policy
]

unfoldable pub select_strategy : DiagnosisResult → PolicyDecisionResult → StrategyChoice
unfolding fallback
select_strategy diagnosis policy =
    let strategy = primary diagnosis policy in
    record { strategy = strategy; fallback_strategy = fallback strategy }
