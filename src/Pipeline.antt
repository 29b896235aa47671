-- ===== src/Pipeline.antt =====
-- services/src/services: policy, planner and executor in a row, as the orchestrator calls them.
pub mod Diagnosed
pub mod Samples
use recovery_pilot_ai.Policy.Registry.{evaluate_rules}
use recovery_pilot_ai.Planner.Contact.{plan_channels-safe}
use recovery_pilot_ai.Policy.Channels.{is_open_decision, fold_decision-split, fold_decision-allowed}
use recovery_pilot_ai.Executor.Outcomes.{type_or_stop}
use recovery_pilot_ai.Executor.Money.{execute-recovered_none}
use recovery_pilot_ai.Executor.Engine.{execute}
use recovery_pilot_ai.Executor.Shape.{moves_money}
use recovery_pilot_ai.Planner.Channels.{notify_channels, plan_channels}
use recovery_pilot_ai.Planner.Gate.{permits, select_strategy-permits}
use recovery_pilot_ai.Policy.Consent.{mem, is_pending, channel_granted}
use recovery_pilot_ai.Policy.Decisions.{evaluate-decision}
use recovery_pilot_ai.Policy.Conditions.{must_stop, must_escalate, must_wait}
use recovery_pilot_ai.Executor.Log.{ExecutionLogStore}
use recovery_pilot_ai.Planner.Strategies.{select_strategy}
use recovery_pilot_ai.Planner.Models.{PlannerStrategy}
use recovery_pilot_ai.Base.{
  Bool, ◌≡◌, true, ◌||◌, ap, false, ◌∙◌, if◌then◌else◌, sym, ◌&&◌, not, arith,
}
use recovery_pilot_ai.Policy.Evaluator.{evaluate}
use recovery_pilot_ai.Policy.Models.{PolicyContext, Channel, PolicyDecision, channels}
use recovery_pilot_ai.Executor.Models.{Hashes, ExecutorContext, StrategyName, execution_type_for}

-- The strategy of the plan for a case.
abbrev pub strategy_of : PolicyContext → PlannerStrategy
strategy_of c = (select_strategy c.diagnosis (evaluate c)).strategy

-- The case is settled, or a human has it, or there is no consent yet.
abbrev pub is_closed : PolicyContext → Bool
is_closed c = must_stop c || must_escalate c || is_pending c.customer.consent_status

-- The decisions that close a case.
abbrev closes : PolicyDecision → Bool
closes PolicyDecision.stop = true
closes PolicyDecision.deny = true
closes PolicyDecision.escalate = true
closes _ = false

table-closes :
    (a b p w : Bool)
    → a || b || p ≡ true
    → closes (
        if a
        then PolicyDecision.stop
        else if b
        then PolicyDecision.escalate
        else if p
        then PolicyDecision.deny
        else if w
        then PolicyDecision.wait
        else PolicyDecision.allow)
      ≡ true
table-closes a b p w h = ground arith

closed-moves :
    (decision : PolicyDecision) (strategy : PlannerStrategy)
    → closes decision ≡ true
    → permits decision strategy ≡ true
    → moves_money (type_or_stop (execution_type_for (StrategyName.known strategy))) ≡ false
closed-moves decision strategy h p = ground arith

notify-channel : (name : Channel) → mem name notify_channels ≡ mem name channels
notify-channel name = ground arith

split-allows : (b c a : Bool) → b ≡ false → b ≡ c && not a → c ≡ true → a ≡ true
split-allows b c a h e k = ground arith

closed-decision :
    (c : PolicyContext)
    → is_closed c ≡ true
    → (strategy : PlannerStrategy) → permits (evaluate c).decision strategy ≡ true
    → moves_money (type_or_stop (execution_type_for (StrategyName.known strategy))) ≡ false
closed-decision c h strategy p =
    closed-moves (evaluate c).decision strategy
      (ap closes (evaluate-decision c)
        ∙ table-closes (must_stop c) (must_escalate c) (is_pending c.customer.consent_status)
            (must_wait c) h)
      p

-- Where the policy's conditions close a case, the strategy that the planner picks for it recovers
-- nothing in the executor, whatever the ledger and whatever else the plan says.
pub pipeline-closed :
    (hashes : Hashes) (c : PolicyContext) (context : ExecutorContext) (store : ExecutionLogStore)
    → is_closed c ≡ true
    → context.strategy ≡ StrategyName.known (strategy_of c)
    → (execute hashes context store).0.recovered_value ≡ 0
pipeline-closed hashes c context store h s = execute-recovered_none hashes context store (
    ap (λ x. moves_money (type_or_stop (execution_type_for x))) s
    ∙ closed-decision c h (strategy_of c) (select_strategy-permits c.diagnosis (evaluate c)))

-- A contact channel that a plan recommends under the policy's decision is one that the customer has
-- consented to, and the decision is ALLOW or WAIT.
pub pipeline-consented :
    (c : PolicyContext) (strategy : PlannerStrategy) (name : Channel)
    → mem name (plan_channels strategy (evaluate c)).recommended ≡ true
    → mem name notify_channels ≡ true
    → (channel_granted c.customer name ≡ true) × (is_open_decision (evaluate c).decision ≡ true)
unfolding evaluate
pipeline-consented c strategy name m n =
    let contact = sym (notify-channel name) ∙ n in
    let free = (plan_channels-safe strategy (evaluate c) name m n).0 in
    let allowed = split-allows _ _ _ free (fold_decision-split c (evaluate_rules c) name) contact in
    let (granted, contact', unblocked, open') =
      fold_decision-allowed c (evaluate_rules c) name allowed in
    (granted, open')
