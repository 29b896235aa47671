-- ===== src/Orchestrator/Gates.antt =====
-- services/src/services/action_orchestrator/gates.py: execute now, defer, or block.
use recovery_pilot_ai.Scheduler.Store.{JobReason}
use recovery_pilot_ai.Orchestrator.Models.{GateDecision, is_wait_strategy}
use recovery_pilot_ai.Policy.Models.{PolicyDecision, PolicyDecisionResult, Channel}
use recovery_pilot_ai.Planner.Models.{RecoveryPlan, PlannerStrategy}
use recovery_pilot_ai.Base.{
  Bool, Option, ℕ, true, ◌≡◌, false, ◌||◌, if◌then◌else◌, List, some, none, ◌⊎◌, ltb, ◌&&◌, not,
  max, ◌<◌, arith,
}

abbrev pub is_blocked_decision : PolicyDecision → Bool
is_blocked_decision PolicyDecision.deny = true
is_blocked_decision PolicyDecision.stop = true
is_blocked_decision _ = false

abbrev pub is_escalation : PlannerStrategy → Bool
is_escalation PlannerStrategy.escalate_to_human = true
is_escalation _ = false

abbrev pub is_escalated : PolicyDecision → Bool
is_escalated PolicyDecision.escalate = true
is_escalated _ = false

abbrev pub is_wait : PolicyDecision → Bool
is_wait PolicyDecision.wait = true
is_wait _ = false

-- `cooldown is not None and cooldown > as_of`
abbrev pub cools_down : Option ℕ → ℕ → Bool
cools_down none as_of = false
cools_down (some cooldown) as_of = ltb as_of cooldown

-- `cooldown or scheduled_at`
abbrev pub moment_or : Option ℕ → ℕ → ℕ
moment_or none scheduled_at = scheduled_at
moment_or (some cooldown) scheduled_at = cooldown

abbrev pub gate : Bool → Bool → Bool → JobReason → Option ℕ → List Channel → GateDecision
gate allow_now defer block reason run_at blocked = record {
  allow_now = allow_now;
  defer = defer;
  block = block;
  reason = reason;
  run_at = run_at;
  blocked_channels = blocked;
}

unfoldable pub evaluate_gates : RecoveryPlan → PolicyDecisionResult → ℕ → Bool → GateDecision
evaluate_gates plan policy as_of force_schedule =
    let blocked = policy.blocked_channels in
    let cooldown = policy.cooldown_until in
    let wait_until = moment_or cooldown plan.scheduled_at in
    if is_blocked_decision policy.decision
    then gate false false true JobReason.policy_reason none blocked
    else if is_escalated policy.decision && not (is_escalation plan.strategy)
    then gate false false true JobReason.policy_reason none blocked
    else if cools_down cooldown as_of
    then gate false true false JobReason.policy_cooldown (some (max plan.scheduled_at wait_until))
        blocked
    else if is_wait policy.decision && ltb as_of wait_until
    then gate false true false JobReason.policy_wait (some wait_until) blocked
    else if force_schedule || (is_wait_strategy plan.strategy && ltb as_of plan.scheduled_at)
    then gate false true false (JobReason.of_strategy plan.strategy) (some plan.scheduled_at)
        blocked
    else gate true false false JobReason.allow
        (some (if ltb as_of plan.scheduled_at then plan.scheduled_at else as_of)) blocked

-- The gate says exactly one of three things.
abbrev pub OneOf : GateDecision → Type 0
OneOf g =
    ((g.allow_now ≡ true) × (g.defer ≡ false) × (g.block ≡ false))
    ⊎ ((g.allow_now ≡ false) × (g.defer ≡ true) × (g.block ≡ false))
    ⊎ ((g.allow_now ≡ false) × (g.defer ≡ false) × (g.block ≡ true))

-- The gate gives exactly one of run, defer and block; and it blocks exactly under STOP and DENY,
-- and under ESCALATE any strategy but the hand-over.
pub evaluate_gates-OneOf :
    (plan : RecoveryPlan) (policy : PolicyDecisionResult) (as_of : ℕ) (force_schedule : Bool)
    → (let g = evaluate_gates plan policy as_of force_schedule in
        OneOf g
        × (g.block
            ≡ is_blocked_decision policy.decision
              || (is_escalated policy.decision && not (is_escalation plan.strategy))))
unfolding evaluate_gates
evaluate_gates-OneOf plan policy as_of force_schedule = (ground arith, ground arith)

-- The gate lets an action run only if no cooldown is left, if it is not forced to schedule, if a
-- policy that waits has nothing to wait for, and if a waiting strategy's moment has come.
pub evaluate_gates-runs :
    (plan : RecoveryPlan) (policy : PolicyDecisionResult) (as_of : ℕ) (force_schedule : Bool)
    → (evaluate_gates plan policy as_of force_schedule).allow_now ≡ true
    → (cools_down policy.cooldown_until as_of ≡ false)
      × (force_schedule ≡ false)
      × (is_wait policy.decision && ltb as_of (moment_or policy.cooldown_until plan.scheduled_at)
          ≡ false)
      × (is_wait_strategy plan.strategy && ltb as_of plan.scheduled_at ≡ false)
unfolding evaluate_gates
evaluate_gates-runs plan policy as_of force_schedule h =
    (ground arith, ground arith, ground arith, ground arith)

-- A deferral that is not forced is to a later moment, at which the cooldown is over.
pub evaluate_gates-defers :
    (plan : RecoveryPlan) (policy : PolicyDecisionResult) (as_of run_at : ℕ)
    → (evaluate_gates plan policy as_of false).defer ≡ true
    → (evaluate_gates plan policy as_of false).run_at ≡ some run_at
    → (as_of < run_at) × (cools_down policy.cooldown_until run_at ≡ false)
unfolding evaluate_gates
evaluate_gates-defers plan policy as_of run_at d r = (ground arith, ground arith)
