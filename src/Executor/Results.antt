-- ===== src/Executor/Results.antt =====
-- services/src/services/executor/executor_engine.py: the trace, and how a result is assembled,
-- for a duplicate (`_duplicate_result`) and for a run (`_finish`).
use recovery_pilot_ai.Executor.Models.{
  ExecutorContext, TraceName, ExecutionType, TraceStatus, ExecutionTraceStep, ExecutionResult,
  ExecutionAuditEvent, ExecutionStatus, IdempotencyKey, Outcome, SimulatedWebhookEvent, case_of,
}
use recovery_pilot_ai.Base.{List, Option, ℕ, Bool, ◌++◌, some, false, ◌∷◌, none, [], true}
use recovery_pilot_ai.Executor.Log.{record_audit, ExecutionLogStore, put}

abbrev pub Trace : Type 0
Trace = List ExecutionTraceStep

-- `_append_trace`
abbrev pub append_trace : Trace → TraceName → TraceStatus → ℕ → Trace
append_trace trace step status timestamp =
    trace ++ (record { step = step; timestamp = timestamp; status = status } ∷ [])

-- `_action_step_name`
abbrev pub action_step_name : ExecutionType → TraceName
action_step_name ExecutionType.execute_retry = TraceName.retry_creation
action_step_name ExecutionType.generate_payment_link = TraceName.payment_link_creation
action_step_name ExecutionType.switch_to_upi = TraceName.payment_link_creation
action_step_name ExecutionType.request_card_update = TraceName.card_update_creation
action_step_name ExecutionType.wait_until_time = TraceName.wait_scheduled
action_step_name _ = TraceName.terminal_action

-- The correlation id of an audit, `no-case` where there is none.
abbrev pub audit_correlation : Option ExecutionAuditEvent → Option ℕ
audit_correlation none = none
audit_correlation (some audit) = audit.correlation_id

-- `_duplicate_result`
unfoldable pub duplicate_result :
    ExecutionResult → ℕ → ExecutionLogStore → Trace → ExecutionResult × ExecutionLogStore
unfolding record_audit
duplicate_result prior as_of store trace =
    let skip_audit : ExecutionAuditEvent = record {
      audit_event_id = none;
      action = none;
      outcome = Outcome.duplicate_skipped;
      request_id = prior.execution_id;
      correlation_id = audit_correlation prior.audit;
      idempotency_key = prior.idempotency_key;
      timestamp = as_of;
    } in
    let t₁ = append_trace trace TraceName.execution_start TraceStatus.skipped as_of in
    let t₂ = append_trace t₁ (action_step_name prior.execution_type) TraceStatus.skipped as_of in
    let t₃ = append_trace t₂ TraceName.webhook_processing TraceStatus.skipped as_of in
    let t₄ = append_trace t₃ TraceName.audit_event_creation TraceStatus.succeeded as_of in
    (
      record prior {
        status = ExecutionStatus.duplicate_skipped;
        success = false;
        outcome = Outcome.duplicate_skipped;
        executed_at = some as_of;
        idempotent = true;
        recovered_value = 0;
        webhooks = [];
        audit = some skip_audit;
        audit_event_id = none;
        execution_trace = t₄;
      },
      record_audit skip_audit store,
    )

-- The arguments of `_finish` that differ from call to call.
pub record Finish : Type 0 where
  pub execution_type : ExecutionType
  pub status : ExecutionStatus
  pub success : Bool
  pub outcome : Outcome
  pub executed_at : Option ℕ
  pub payment_link_id : Option ℕ
  pub webhook_event_id : Option ℕ
  pub webhooks : List SimulatedWebhookEvent
  pub recovered_value : ℕ

abbrev pub clock_of : Option ℕ → ℕ → ℕ
clock_of none as_of = as_of
clock_of (some t) as_of = t

-- `_finish`
unfoldable pub finish :
    ExecutorContext
    → ℕ
    → IdempotencyKey
    → Finish
    → ExecutionLogStore
    → Trace
    → ExecutionResult × ExecutionLogStore
finish context execution_id key f store trace =
    let clock = clock_of f.executed_at context.as_of in
    let result : ExecutionResult = record {
      execution_id = execution_id;
      strategy = context.strategy;
      status = f.status;
      scheduled_at = context.plan.scheduled_at;
      executed_at = f.executed_at;
      execution_type = f.execution_type;
      success = f.success;
      outcome = f.outcome;
      payment_link_id = f.payment_link_id;
      webhook_event_id = f.webhook_event_id;
      idempotency_key = key;
      audit_event_id = some execution_id;
      idempotent = false;
      recovered_value = f.recovered_value;
      webhooks = f.webhooks;
      audit = some (record {
        audit_event_id = some execution_id;
        action = some f.execution_type;
        outcome = f.outcome;
        request_id = execution_id;
        correlation_id = case_of context;
        idempotency_key = key;
        timestamp = clock;
      });
      execution_trace =
          append_trace trace TraceName.audit_event_creation TraceStatus.succeeded clock;
    } in
    (result, put result store)
