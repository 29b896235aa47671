-- ===== src/Orchestrator/Run.antt =====
-- services/src/services/action_orchestrator/orchestrator.py: the dispatch of an action, up
-- to its final status. Metadata that nothing reads again is left out.
use recovery_pilot_ai.Scheduler.Service.{schedule}
use recovery_pilot_ai.Planner.Models.{PlannerStrategy}
use recovery_pilot_ai.Base.{
  Option, Bool, List, some, true, if◌then◌else◌, ℕ, ◌++◌, false, ◌∷◌, or_else, suc, [], none, ◌&&◌,
  not, ◌+◌, ◌==◌,
}
use recovery_pilot_ai.Scheduler.Backoff.{next_backoff, ℤ}
use recovery_pilot_ai.Executor.Models.{Hashes, IdempotencyKey, strategy_code}
use recovery_pilot_ai.Scheduler.Store.{complete, Jobs, JobStatus, JobReason}
use recovery_pilot_ai.Orchestrator.Models.{
  save, Display, ActionRecord, OrchestratorContext, db_status_for, is_wait_strategy,
}

-- The events that the orchestrator writes to the audit log.
pub data AuditEventType : Type 0 where
  action_skipped action_scheduled action_executed : AuditEventType
  payment_captured recovery_stopped : AuditEventType

-- Rows, queue and audit log, and the calls that went out to Razorpay.
pub record World : Type 0 where
  pub actions : List ActionRecord
  pub jobs : Jobs
  pub audits : List (ℕ × AuditEventType)
  pub calls : List (PlannerStrategy × IdempotencyKey)

-- A result, or one of the two errors of `services/razorpay_actions/errors.py`.
pub data GatewayAnswer : Type 0 where
  accepted transient_error permanent_error : GatewayAnswer

-- The status of the first delivery, SKIPPED if there is none.
pub data DeliveryStatus : Type 0 where
  delivered failed skipped : DeliveryStatus

-- The other services, at a moment: the Razorpay client, the communication router, and the random
-- generator of the backoff.
pub record Services : Type 0 where
  pub hashes : Hashes
  pub razorpay : PlannerStrategy → IdempotencyKey → ℕ → GatewayAnswer
  pub deliver : IdempotencyKey → ℕ → Bool → DeliveryStatus
  pub uniform : ℕ → ℕ

-- The row, whether it was replayed, and the world after.
abbrev pub Outcome : Type 0
Outcome = Option (ActionRecord × Bool × World)

-- `_persist_status`
unfoldable pub persist_status : ActionRecord → Display → World → ActionRecord × World
unfolding save db_status_for
persist_status row display w =
    let stored = record row {
      display_status = some display;
      execution_status = db_status_for display;
    } in
    (stored, record w { actions = save stored w.actions })

abbrev pub append_audit : ActionRecord → AuditEventType → World → World
append_audit row event w = record w { audits = w.audits ++ ((row.recovery_case_id, event) ∷ []) }

-- `display in {SUCCESS, FAILED, CANCELLED}`
abbrev pub ends : Display → Bool
ends Display.success = true
ends Display.failed = true
ends Display.cancelled = true
ends _ = false

-- `_finalize`
unfoldable pub finalize :
    ActionRecord → OrchestratorContext → Display → AuditEventType → World → ActionRecord × World
unfolding persist_status complete
finalize row context display event w =
    let timed = record row {
      executed_time =
          if ends display
          then or_else row.executed_time (some context.as_of)
          else row.executed_time;
    } in
    let (stored, w₁) = persist_status timed display w in
    let w₂ =
      if ends display then record w₁ { jobs = complete stored.id JobStatus.done w₁.jobs } else w₁ in
    (stored, append_audit stored event w₂)

-- The two branches of `_backoff_or_dead_letter`, on the delay.
unfoldable pub after_delay :
    ActionRecord → OrchestratorContext → World → Option ℕ → ActionRecord × World
unfolding persist_status complete schedule
after_delay row context w none =
    let counted = record row { retry_number = suc row.retry_number; dead_lettered = true } in
    let (stored, w₁) = persist_status counted Display.failed w in
    let w₂ = record w₁ { jobs = complete stored.id JobStatus.dead_letter w₁.jobs } in
    (stored, append_audit stored AuditEventType.action_executed w₂)
after_delay row context w (some delay) =
    let run_at = context.as_of + delay in
    let counted = record row {
      retry_number = suc row.retry_number;
      scheduled_time = some run_at;
      executed_time = none;
    } in
    let (stored, w₁) = persist_status counted Display.retrying w in
    let w₂ = record w₁ {
      jobs =
          (schedule stored.id stored.recovery_case_id run_at JobReason.backoff stored.retry_number
            w₁.jobs).1;
    } in
    (stored, append_audit stored AuditEventType.action_scheduled w₂)

-- `_backoff_or_dead_letter`
unfoldable pub backoff_or_dead_letter :
    Services → ActionRecord → OrchestratorContext → World → ActionRecord × World
unfolding after_delay next_backoff
backoff_or_dead_letter services row context w =
    after_delay row context w (next_backoff services.uniform (ℤ.pos row.retry_number))

abbrev pub is_failed_delivery : DeliveryStatus → Bool
is_failed_delivery DeliveryStatus.failed = true
is_failed_delivery _ = false

abbrev pub is_silent : PlannerStrategy → Bool
is_silent PlannerStrategy.retry_silently = true
is_silent _ = false

-- The part of `_dispatch` from the call of Razorpay on.
unfoldable pub send_out :
    Services
    → ActionRecord
    → OrchestratorContext
    → PlannerStrategy
    → IdempotencyKey
    → World
    → ActionRecord × World
unfolding finalize backoff_or_dead_letter complete
send_out services row context strategy key w =
    let called = record w { calls = w.calls ++ ((strategy, key) ∷ []) } in
    let status = services.deliver key context.as_of (is_silent strategy) in
    elim (services.razorpay strategy key context.as_of) [
      | GatewayAnswer.transient_error ↦ backoff_or_dead_letter services row context called
      | GatewayAnswer.permanent_error ↦
          finalize row context Display.failed AuditEventType.action_executed called
      | GatewayAnswer.accepted ↦
          let (done, w₁) =
            finalize row context Display.success AuditEventType.action_executed called in
          if is_failed_delivery status && not (is_silent strategy)
          then backoff_or_dead_letter services row context called
          else (done, record w₁ { jobs = complete done.id JobStatus.done w₁.jobs })
    ]

-- The plan with which a waiting strategy goes on.
abbrev pub with_fallback : OrchestratorContext → OrchestratorContext
with_fallback context = record context {
  plan = record context.plan {
    strategy = context.plan.fallback_strategy;
    scheduled_at = context.as_of;
  };
}

abbrev pub new_result : ActionRecord × World → Outcome
new_result (row, w) = some (row, false, w)

-- The three branches of `_dispatch` before the call, and the call. `again` is `self.run`.
unfoldable pub dispatch_as :
    (OrchestratorContext → World → Outcome)
    → Services
    → ActionRecord
    → OrchestratorContext
    → IdempotencyKey
    → World
    → PlannerStrategy
    → Outcome
unfolding finalize send_out persist_status complete
dispatch_as again services row context key w PlannerStrategy.stop_recovery =
    new_result (finalize row context Display.cancelled AuditEventType.action_skipped w)
dispatch_as again services row context key w PlannerStrategy.escalate_to_human =
    new_result (finalize row context Display.success AuditEventType.action_executed w)
dispatch_as again services row context key w strategy =
    let fallback = context.plan.fallback_strategy in
    let (stored, w₁) = persist_status row Display.success w in
    let w₂ = record w₁ { jobs = complete stored.id JobStatus.done w₁.jobs } in
    if is_wait_strategy strategy
    then (if not (is_wait_strategy fallback)
          && not (strategy_code fallback == strategy_code strategy)
        then again (with_fallback context) w₂
        else new_result (finalize row context Display.success AuditEventType.action_executed w))
    else new_result (send_out services row context strategy key w)

unfoldable pub dispatch :
    (OrchestratorContext → World → Outcome)
    → Services
    → ActionRecord
    → OrchestratorContext
    → IdempotencyKey
    → World
    → Outcome
unfolding dispatch_as persist_status
dispatch again services row context key w =
    let (stored, w₁) =
      persist_status (record row { executed_time = some context.as_of }) Display.sent w in
    dispatch_as again services stored context key w₁ context.plan.strategy
