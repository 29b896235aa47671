-- ===== src/Orchestrator/Samples.antt =====
-- One action, its services, and the orchestrator's properties at it.
use recovery_pilot_ai.Orchestrator.Due.{run_due, run_due-blocked, close_wait}
use recovery_pilot_ai.Orchestrator.Blocked.{run-blocked}
use recovery_pilot_ai.Scheduler.Store.{complete}
use recovery_pilot_ai.Orchestrator.Progress.{run-ends}
use recovery_pilot_ai.Executor.Models.{make_idempotency_key}
use recovery_pilot_ai.Planner.Samples.{allowed}
use recovery_pilot_ai.Enums.{RecoveryActionType, ExecutionStatus}
use recovery_pilot_ai.Base.{is_some, ◌+◌, [], false, suc, some, none, zero, ◌≡◌, ◌∷◌, true, refl}
use recovery_pilot_ai.Policy.Models.{PolicyDecisionResult, PolicyDecision, Channel}
use recovery_pilot_ai.Orchestrator.Gates.{evaluate_gates}
use recovery_pilot_ai.Orchestrator.Finished.{Bounded, backoff_or_dead_letter-Bounded, finalize-once}
use recovery_pilot_ai.Orchestrator.Models.{
  ActionRecord, OrchestratorContext, Display, find_row, find_by_key, action_type_for, save,
  db_status_for,
}
use recovery_pilot_ai.Orchestrator.Run.{
  World, Services, backoff_or_dead_letter, finalize, GatewayAnswer, DeliveryStatus, AuditEventType,
  persist_status,
}
use recovery_pilot_ai.Orchestrator.Start.{
  run, action_key, start, start_for, run_existing, existing_row, run_case, run_row, fresh_row,
}
use recovery_pilot_ai.Planner.Models.{RecoveryPlan, PlannerStrategy}

abbrev services : Services
services = record {
  hashes = record {
    execution_id_for = λ key. key.scheduled_at;
    event_id = λ case at type index. at + index;
    link_id = λ case at. at;
    digest = λ case strategy at payment. at;
  };
  razorpay = λ strategy key as_of. GatewayAnswer.transient_error;
  deliver = λ key as_of silent. DeliveryStatus.delivered;
  uniform = λ jitter. jitter;
}

abbrev nothing : World
nothing = record { actions = []; jobs = []; audits = []; calls = [] }

abbrev stopped : PolicyDecisionResult
stopped = record allowed { decision = PolicyDecision.stop }

abbrev link_plan : RecoveryPlan
link_plan = record {
  strategy = PlannerStrategy.send_payment_link;
  scheduled_at = 100;
  recommended_channels = Channel.sms ∷ [];
  fallback_strategy = PlannerStrategy.escalate_to_human;
  expected_recovery_probability = 5000;
  estimated_recovery_value = 0;
  recovery_case_id = some 7;
  payment_id = some 9;
  diagnosis_feature = none;
  payment_amount_feature = none;
}

abbrev payday_plan : RecoveryPlan
payday_plan = record link_plan { strategy = PlannerStrategy.wait_for_payday; scheduled_at = 900 }

abbrev context : OrchestratorContext
context = record { as_of = 120; plan = link_plan; policy = allowed }

abbrev blocked : OrchestratorContext
blocked = record context { policy = stopped }

abbrev row : ActionRecord
row = record {
  id = 100;
  recovery_case_id = 7;
  action_type = RecoveryActionType.generate_payment_link;
  scheduled_time = some 100;
  executed_time = none;
  execution_status = ExecutionStatus.running;
  retry_number = 1;
  idempotency_key = action_key context 7;
  planner_strategy = PlannerStrategy.send_payment_link;
  display_status = some Display.sent;
  dead_lettered = false;
  is_expired = false;
}

run-ends_example :
    is_some
      (run (suc (suc zero)) services (record context { plan = payday_plan }) false true nothing)
    ≡ true
run-ends_example =
    run-ends services (record context { plan = payday_plan }) false true zero nothing 7 refl

abbrev blocked_row : ActionRecord
blocked_row = record row {
  executed_time = some 120;
  execution_status = ExecutionStatus.cancelled;
  retry_number = 0;
  display_status = some Display.cancelled;
}

abbrev blocked_end : World
blocked_end = record nothing {
  actions = blocked_row ∷ [];
  audits = (7, AuditEventType.action_skipped) ∷ [];
}

run-blocked_example : blocked_end.calls ≡ nothing.calls
unfolding run start start_for run_existing existing_row find_row find_by_key run_case run_row
    evaluate_gates fresh_row action_type_for finalize persist_status save db_status_for complete
    action_key make_idempotency_key
run-blocked_example =
    run-blocked services blocked false false 1 nothing blocked_end blocked_row false refl refl

finalize-once_example :
    (let (stored, after) =
        finalize row context Display.success AuditEventType.action_executed nothing in
      run (suc zero) services context false true after ≡ some (stored, true, after))
unfolding action_key make_idempotency_key
finalize-once_example =
    finalize-once services context context false true zero 7 nothing row Display.success
      AuditEventType.action_executed refl refl refl refl refl

backoff_or_dead_letter-Bounded_example :
    Bounded row 120 (backoff_or_dead_letter services row context nothing)
backoff_or_dead_letter-Bounded_example = backoff_or_dead_letter-Bounded services row context nothing

-- A row that waits for the payday, due.
abbrev waiting : ActionRecord
waiting = record row {
  scheduled_time = some 110;
  execution_status = ExecutionStatus.scheduled;
  planner_strategy = PlannerStrategy.wait_for_payday;
  display_status = some Display.scheduled;
}

-- Under STOP, the waiting row is closed and its fallback blocked.
abbrev due_context : OrchestratorContext
due_context = record context { plan = payday_plan; policy = stopped }

abbrev due_end : World
due_end =
    (close_wait waiting
      (record due_context {
        plan = record payday_plan { fallback_strategy = PlannerStrategy.wait_for_payday };
      })
      nothing).1

run_due-blocked_example : due_end.calls ≡ nothing.calls
unfolding run_due
run_due-blocked_example =
    run_due-blocked services waiting
      (record due_context {
        plan = record payday_plan { fallback_strategy = PlannerStrategy.wait_for_payday };
      })
      1 nothing due_end _ false refl refl
