-- ===== src/Orchestrator/Start.antt =====
-- services/src/services/action_orchestrator/orchestrator.py: `ActionOrchestrator.run`, from the
-- idempotency check and the gate to the dispatch.
use recovery_pilot_ai.Scheduler.Service.{schedule}
use recovery_pilot_ai.Orchestrator.Gates.{evaluate_gates, moment_or}
use recovery_pilot_ai.Base.{
  ℕ, Option, Bool, true, List, some, false, none, or_else, ◌||◌, if◌then◌else◌, suc, not, ◌&&◌,
  zero,
}
use recovery_pilot_ai.Executor.Models.{make_idempotency_key, IdempotencyKey, StrategyName}
use recovery_pilot_ai.Orchestrator.Models.{
  find_row, Display, display_status_for, action_type_for, OrchestratorContext, find_by_key,
  ActionRecord, is_terminal, GateDecision,
}
use recovery_pilot_ai.Orchestrator.Run.{
  finalize, Services, dispatch, persist_status, World, Outcome, new_result, AuditEventType,
  append_audit,
}
use recovery_pilot_ai.Enums.{ExecutionStatus}

abbrev pub is_sent : Display → Bool
is_sent Display.sent = true
is_sent _ = false

-- `existing or ActionRecord(…)`, with the metadata that `_base_metadata` writes.
unfoldable pub fresh_row :
    Option ActionRecord → OrchestratorContext → ℕ → ℕ → IdempotencyKey → ActionRecord
unfolding action_type_for
fresh_row none context case_id id key = record {
  id = id;
  recovery_case_id = case_id;
  action_type = action_type_for context.plan.strategy;
  scheduled_time = some context.plan.scheduled_at;
  executed_time = none;
  execution_status = ExecutionStatus.scheduled;
  retry_number = 0;
  idempotency_key = key;
  planner_strategy = context.plan.strategy;
  display_status = none;
  dead_lettered = false;
  is_expired = false;
}
fresh_row (some row) context case_id id key = record row {
  idempotency_key = key;
  planner_strategy = context.plan.strategy;
  display_status = none;
  dead_lettered = false;
  is_expired = false;
}

-- What the gate leaves to do with a row.
unfoldable pub run_row :
    (OrchestratorContext → World → Outcome)
    → Services
    → OrchestratorContext
    → Bool
    → ActionRecord
    → GateDecision
    → IdempotencyKey
    → World
    → Outcome
unfolding finalize dispatch persist_status schedule
run_row again services context replay row gate key w =
    let run_at = moment_or gate.run_at context.plan.scheduled_at in
    let (stored, w₁) =
      persist_status (record row { scheduled_time = some run_at }) Display.scheduled w in
    let w₂ = record w₁ {
      jobs =
          (schedule stored.id stored.recovery_case_id run_at gate.reason stored.retry_number
            w₁.jobs).1;
    } in
    if gate.block
    then new_result (finalize row context Display.cancelled AuditEventType.action_skipped w)
    else if gate.defer && not replay
    then new_result (stored, append_audit stored AuditEventType.action_scheduled w₂)
    else dispatch again services row context key w

-- `_store.get(execution_id) or _store.get_by_idempotency(key)`
unfoldable pub existing_row : ℕ → IdempotencyKey → List ActionRecord → Option ActionRecord
unfolding find_row find_by_key
existing_row id key rows = or_else (find_row id rows) (find_by_key key rows)

-- The row is finished, or sent and not replayed.
unfoldable pub is_hit : Bool → ActionRecord → Bool
unfolding display_status_for
is_hit replay row =
    is_terminal (display_status_for row) || (not replay && is_sent (display_status_for row))

-- The key of a plan for a case.
unfoldable pub action_key : OrchestratorContext → ℕ → IdempotencyKey
unfolding make_idempotency_key
action_key context case_id =
    make_idempotency_key (some case_id) (StrategyName.known context.plan.strategy)
      context.plan.scheduled_at

unfoldable pub run_case :
    (OrchestratorContext → World → Outcome)
    → Services
    → OrchestratorContext
    → Bool
    → Bool
    → ℕ
    → World
    → Option ActionRecord
    → Outcome
unfolding run_row action_key evaluate_gates fresh_row
run_case again services context force_schedule replay case_id w existing =
    let key = action_key context case_id in
    let id = services.hashes.execution_id_for key in
    let gate = evaluate_gates context.plan context.policy context.as_of force_schedule in
    run_row again services context replay (fresh_row existing context case_id id key) gate key w

-- The row that the store has, if any: returned, or run again.
unfoldable pub run_existing :
    (OrchestratorContext → World → Outcome)
    → Services
    → OrchestratorContext
    → Bool
    → Bool
    → ℕ
    → World
    → Option ActionRecord
    → Outcome
unfolding run_case is_hit
run_existing again services context force_schedule replay case_id w none =
    run_case again services context force_schedule replay case_id w none
run_existing again services context force_schedule replay case_id w (some row) =
    if is_hit replay row
    then some (row, true, w)
    else run_case again services context force_schedule replay case_id w (some row)

unfoldable pub start_for :
    (OrchestratorContext → World → Outcome)
    → Services
    → OrchestratorContext
    → Bool
    → Bool
    → World
    → Option ℕ
    → Outcome
unfolding run_existing existing_row action_key
start_for again services context force_schedule replay w none = none
start_for again services context force_schedule replay w (some case_id) =
    let key = action_key context case_id in
    run_existing again services context force_schedule replay case_id w
      (existing_row (services.hashes.execution_id_for key) key w.actions)

unfoldable pub start :
    (OrchestratorContext → World → Outcome)
    → Services
    → OrchestratorContext
    → Bool
    → Bool
    → World
    → Outcome
unfolding start_for
start again services context force_schedule replay w =
    start_for again services context force_schedule replay w context.plan.recovery_case_id

-- `run`, on fuel: one unit for each call of itself. `none` is the error of a plan without a case, or
-- the end of the fuel.
unfoldable pub run : ℕ → Services → OrchestratorContext → Bool → Bool → World → Outcome
unfolding start
run zero services context force_schedule replay w = none
run (suc n) services context force_schedule replay w =
    start (λ c v. run n services c false false v) services context force_schedule replay w
