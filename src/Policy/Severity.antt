-- ===== src/Policy/Severity.antt =====
-- services/src/services/policy/evaluator.py: verdicts, severities and the winning rule.
-- `_order_index`
use recovery_pilot_ai.Base.{
  List, Bool, ℕ, Option, max_of?, true, false, ltb, ◌||◌, filter, ◌==◌, ◌&&◌,
}
use recovery_pilot_ai.Policy.Models.{RuleVerdict, PolicyRuleResult, PolicyDecision, PolicyName}

abbrev pub order_index : PolicyName → ℕ
order_index PolicyName.already_paid = 0
order_index PolicyName.chargeback = 1
order_index PolicyName.consent = 2
order_index PolicyName.mandate = 3
order_index PolicyName.promise_to_pay = 4
order_index PolicyName.retry_cooldown = 5
order_index PolicyName.outage = 6
order_index PolicyName.dnd_contact = 7
order_index PolicyName.churn_protection = 8
order_index PolicyName.high_value = 9
order_index PolicyName.default_allow = 10

abbrev pub verdict_to_decision : RuleVerdict → PolicyDecision
verdict_to_decision RuleVerdict.stop = PolicyDecision.stop
verdict_to_decision RuleVerdict.escalate = PolicyDecision.escalate
verdict_to_decision RuleVerdict.fail = PolicyDecision.deny
verdict_to_decision RuleVerdict.wait = PolicyDecision.wait
verdict_to_decision RuleVerdict.pass = PolicyDecision.allow

abbrev pub severity : RuleVerdict → ℕ
severity RuleVerdict.stop = 4
severity RuleVerdict.escalate = 3
severity RuleVerdict.fail = 2
severity RuleVerdict.wait = 1
severity RuleVerdict.pass = 0

abbrev pub decision_rank : PolicyDecision → ℕ
decision_rank PolicyDecision.allow = 20
decision_rank PolicyDecision.wait = 40
decision_rank PolicyDecision.deny = 60
decision_rank PolicyDecision.escalate = 80
decision_rank PolicyDecision.stop = 100

abbrev pub is_blocking : PolicyRuleResult → Bool
is_blocking row = elim row.verdict [ RuleVerdict.pass ↦ false | _ ↦ true ]

abbrev pub is_waiting : PolicyRuleResult → Bool
is_waiting row = elim row.verdict [ RuleVerdict.wait ↦ true | _ ↦ false ]

abbrev pub is_failing : PolicyRuleResult → Bool
is_failing row = elim row.verdict [ RuleVerdict.pass ↦ false | RuleVerdict.wait ↦ false | _ ↦ true ]

-- The key `(severity, -order_index)`, compared as Python compares tuples.
abbrev pub outranked : PolicyRuleResult → PolicyRuleResult → Bool
outranked a b =
    ltb (severity a.verdict) (severity b.verdict)
    || severity a.verdict == severity b.verdict
      && ltb (order_index b.policy_name) (order_index a.policy_name)

unfoldable pub pick_winner : List PolicyRuleResult → Option PolicyRuleResult
pick_winner results = max_of? outranked (filter is_blocking results)
