-- ===== src/Executor/Summary.antt =====
-- services/src/services/executor/executor_engine.py: the counts of a batch, plans as contexts, and
-- the result for a case that cannot be loaded.
use recovery_pilot_ai.Executor.Runs.{plain_finish}
use recovery_pilot_ai.Executor.Log.{ExecutionLogStore}
use recovery_pilot_ai.Executor.Engine.{execute_many}
use recovery_pilot_ai.Planner.Models.{RecoveryPlan}
use recovery_pilot_ai.Base.{
  List, ℕ, Bool, true, length, map, false, count_if, none, not, some, if◌then◌else◌, is_some, [],
  ◌&&◌, ◌==◌, sum_of,
}
use recovery_pilot_ai.Executor.Models.{
  ExecutionStatus, ExecutionType, Hashes, ExecutorContext, ExecutionResult, make_idempotency_key,
  StrategyName, TraceName, TraceStatus, Outcome,
}
use recovery_pilot_ai.Executor.Results.{finish, append_trace}

pub record BatchExecutorSummary : Type 0 where
  pub total_plans : ℕ
  pub executed : ℕ
  pub successes : ℕ
  pub failures : ℕ
  pub duplicates : ℕ
  pub payment_links_generated : ℕ
  pub retries_scheduled : ℕ
  pub estimated_recovered_value : ℕ

abbrev pub is_duplicate : ExecutionStatus → Bool
is_duplicate ExecutionStatus.duplicate_skipped = true
is_duplicate _ = false

abbrev pub is_failure : ExecutionStatus → Bool
is_failure ExecutionStatus.failed = true
is_failure ExecutionStatus.timeout = true
is_failure ExecutionStatus.expired = true
is_failure ExecutionStatus.unknown_strategy = true
is_failure ExecutionStatus.webhook_replay = true
is_failure _ = false

abbrev pub is_generated : ExecutionStatus → Bool
is_generated ExecutionStatus.generated = true
is_generated _ = false

abbrev pub is_retry : ExecutionType → Bool
is_retry ExecutionType.execute_retry = true
is_retry _ = false

unfoldable pub summarize_executions : List ExecutionResult → BatchExecutorSummary
summarize_executions results = record {
  total_plans = length results;
  executed = count_if (λ item. not (is_duplicate item.status)) results;
  successes = count_if (λ item. item.success) results;
  failures = count_if (λ item. is_failure item.status) results;
  duplicates = count_if (λ item. is_duplicate item.status) results;
  payment_links_generated =
      count_if (λ item. is_some item.payment_link_id && is_generated item.status) results;
  retries_scheduled =
      count_if (λ item. is_retry item.execution_type && not (is_duplicate item.status)) results;
  estimated_recovered_value = sum_of (λ item. item.recovered_value) results;
}

-- `features.get("payment_amount") or estimated_recovery_value or 0`
abbrev pub amount_of : RecoveryPlan → ℕ
amount_of plan = elim plan.payment_amount_feature [
  | none ↦ plan.estimated_recovery_value
  | some amount ↦ if amount == 0 then plan.estimated_recovery_value else amount
]

-- The context that `execute_plans` builds from a plan alone.
abbrev pub context_of : ℕ → RecoveryPlan → ExecutorContext
context_of as_of plan = record {
  as_of = as_of;
  plan = plan;
  strategy = StrategyName.known plan.strategy;
  recovery_case_id = plan.recovery_case_id;
  payment_id = plan.payment_id;
  payment_amount = amount_of plan;
  payment_method = none;
  diagnosis = plan.diagnosis_feature;
}

unfoldable pub execute_plans :
    Hashes → List RecoveryPlan → ℕ → ExecutionLogStore → List ExecutionResult × ExecutionLogStore
unfolding execute_many
execute_plans hashes plans as_of store = execute_many hashes (map (context_of as_of) plans) store

unfoldable pub unavailable_case_result :
    Hashes → RecoveryPlan → ℕ → ExecutionLogStore → ExecutionResult × ExecutionLogStore
unfolding finish make_idempotency_key
unavailable_case_result hashes plan as_of store =
    let context : ExecutorContext = record (context_of as_of plan) {
      payment_amount = 0;
      diagnosis = none;
    } in
    let key =
      make_idempotency_key plan.recovery_case_id (StrategyName.known plan.strategy)
        plan.scheduled_at in
    let t₁ = append_trace [] TraceName.idempotency_check TraceStatus.succeeded as_of in
    let t₂ = append_trace t₁ TraceName.execution_start TraceStatus.failed as_of in
    let t₃ = append_trace t₂ TraceName.terminal_action TraceStatus.skipped as_of in
    let t₄ = append_trace t₃ TraceName.webhook_processing TraceStatus.skipped as_of in
    finish context (hashes.execution_id_for key) key
      (plain_finish context ExecutionType.stop_execution ExecutionStatus.failed false
        Outcome.case_not_found none)
      store t₄
