-- ===== src/Planner/Gate.antt =====
-- services/src/services/planner/strategies.py: the policy's decision bounds the strategy.
use recovery_pilot_ai.Base.{Bool, true, false, ◌≡◌, arith}
use recovery_pilot_ai.Planner.Strategies.{select_strategy}
use recovery_pilot_ai.Policy.Models.{PolicyDecision, DiagnosisResult, PolicyDecisionResult}
use recovery_pilot_ai.Planner.Models.{PlannerStrategy}

-- The strategies that a decision leaves.
abbrev pub permits : PolicyDecision → PlannerStrategy → Bool
permits PolicyDecision.stop PlannerStrategy.stop_recovery = true
permits PolicyDecision.deny PlannerStrategy.stop_recovery = true
permits PolicyDecision.escalate PlannerStrategy.escalate_to_human = true
permits PolicyDecision.wait PlannerStrategy.honour_promise_to_pay = true
permits PolicyDecision.wait PlannerStrategy.wait_for_payday = true
permits PolicyDecision.wait PlannerStrategy.retry_silently = true
permits PolicyDecision.wait PlannerStrategy.retry_payment = true
permits PolicyDecision.allow PlannerStrategy.request_new_mandate = true
permits PolicyDecision.allow PlannerStrategy.switch_payment_method = true
permits PolicyDecision.allow PlannerStrategy.escalate_to_human = true
permits PolicyDecision.allow PlannerStrategy.send_payment_link = true
permits PolicyDecision.allow PlannerStrategy.retry_payment = true
permits PolicyDecision.allow PlannerStrategy.stop_recovery = true
permits _ _ = false

-- The strategy is one that the decision leaves: STOP and DENY end the recovery, ESCALATE hands it to
-- a human, WAIT never sends a link nor asks for another method or mandate, ALLOW never waits.
pub select_strategy-permits :
    (diagnosis : DiagnosisResult) (policy : PolicyDecisionResult)
    → permits policy.decision (select_strategy diagnosis policy).strategy ≡ true
unfolding select_strategy
select_strategy-permits diagnosis policy = ground arith
