-- ===== src/Policy/Registry.antt =====
-- services/src/services/policy/registry.py: the rules in their order, and their results.
-- `registered_policies`: every name in `POLICY_PRECEDENCE` has its rule.
use recovery_pilot_ai.Policy.Rules.{
  rule_already_paid, rule_chargeback, rule_consent, rule_mandate, rule_promise_to_pay,
  rule_retry_cooldown, rule_outage, rule_dnd_contact, rule_churn_protection, rule_high_value,
}
use recovery_pilot_ai.Policy.Models.{PolicyContext, PolicyRuleResult}
use recovery_pilot_ai.Base.{List, map, ◌∷◌, []}

abbrev pub registered_policies : List (PolicyContext → PolicyRuleResult)
registered_policies =
    rule_already_paid ∷ rule_chargeback ∷ rule_consent ∷ rule_mandate ∷ rule_promise_to_pay
    ∷ rule_retry_cooldown ∷ rule_outage ∷ rule_dnd_contact ∷ rule_churn_protection ∷ rule_high_value
    ∷ []

unfoldable pub evaluate_rules : PolicyContext → List PolicyRuleResult
evaluate_rules context = map (λ fn. fn context) registered_policies
