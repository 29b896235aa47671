-- ===== src/Orchestrator/Models.antt =====
-- services/src/services/action_orchestrator/models.py, mapping.py, constants.py and the in-memory
-- store of persistence.py; STRATEGY_TO_ACTION_TYPE and WAIT_STRATEGIES of razorpay_actions.
use recovery_pilot_ai.Policy.Models.{Channel, PolicyDecisionResult}
use recovery_pilot_ai.Scheduler.Store.{JobReason}
use recovery_pilot_ai.Planner.Models.{PlannerStrategy, RecoveryPlan}
use recovery_pilot_ai.Executor.Models.{IdempotencyKey, key_eq}
use recovery_pilot_ai.Enums.{ExecutionStatus, RecoveryActionType}
use recovery_pilot_ai.Base.{
  if◌then◌else◌, Bool, ℕ, List, ◌∷◌, some, Option, true, false, none, ◌==◌, [],
}

pub data Display : Type 0 where
  scheduled sent success failed cancelled expired retrying : Display

-- The entries of `action_metadata` that the orchestrator reads again are fields.
pub record ActionRecord : Type 0 where
  pub id : ℕ
  pub recovery_case_id : ℕ
  pub action_type : RecoveryActionType
  pub scheduled_time : Option ℕ
  pub executed_time : Option ℕ
  pub execution_status : ExecutionStatus
  pub retry_number : ℕ
  pub idempotency_key : IdempotencyKey
  pub planner_strategy : PlannerStrategy
  pub display_status : Option Display
  pub dead_lettered : Bool
  pub is_expired : Bool

pub record GateDecision : Type 0 where
  pub allow_now : Bool
  pub defer : Bool
  pub block : Bool
  pub reason : JobReason
  pub run_at : Option ℕ
  pub blocked_channels : List Channel

-- Customer and payment go to the outside services only.
pub record OrchestratorContext : Type 0 where
  pub as_of : ℕ
  pub plan : RecoveryPlan
  pub policy : PolicyDecisionResult

-- `STRATEGY_TO_ACTION_TYPE`
unfoldable pub action_type_for : PlannerStrategy → RecoveryActionType
action_type_for PlannerStrategy.retry_payment = RecoveryActionType.retry_payment
action_type_for PlannerStrategy.retry_silently = RecoveryActionType.retry_payment
action_type_for PlannerStrategy.send_payment_link = RecoveryActionType.generate_payment_link
action_type_for PlannerStrategy.switch_payment_method = RecoveryActionType.switch_payment_method
action_type_for PlannerStrategy.request_new_mandate = RecoveryActionType.switch_payment_method
action_type_for PlannerStrategy.wait_for_payday = RecoveryActionType.wait_for_payday
action_type_for PlannerStrategy.honour_promise_to_pay = RecoveryActionType.promise_to_pay
action_type_for PlannerStrategy.escalate_to_human = RecoveryActionType.escalate_to_agent
action_type_for PlannerStrategy.stop_recovery = RecoveryActionType.stop_recovery

-- `strategy in WAIT_STRATEGIES`
abbrev pub is_wait_strategy : PlannerStrategy → Bool
is_wait_strategy PlannerStrategy.wait_for_payday = true
is_wait_strategy PlannerStrategy.honour_promise_to_pay = true
is_wait_strategy _ = false

unfoldable pub db_status_for : Display → ExecutionStatus
db_status_for Display.scheduled = ExecutionStatus.scheduled
db_status_for Display.sent = ExecutionStatus.running
db_status_for Display.success = ExecutionStatus.succeeded
db_status_for Display.failed = ExecutionStatus.failed
db_status_for Display.cancelled = ExecutionStatus.cancelled
db_status_for Display.expired = ExecutionStatus.skipped
db_status_for Display.retrying = ExecutionStatus.scheduled

abbrev pub display_of_status : ExecutionStatus → Display
display_of_status ExecutionStatus.scheduled = Display.scheduled
display_of_status ExecutionStatus.running = Display.sent
display_of_status ExecutionStatus.succeeded = Display.success
display_of_status ExecutionStatus.failed = Display.failed
display_of_status ExecutionStatus.skipped = Display.expired
display_of_status ExecutionStatus.cancelled = Display.cancelled

unfoldable pub display_status_for : ActionRecord → Display
display_status_for row =
    if row.dead_lettered
    then Display.failed
    else if row.is_expired
    then Display.expired
    else elim row.display_status [
      | some display ↦ display
      | none ↦ display_of_status row.execution_status
    ]

-- `display in TERMINAL_DISPLAY`
abbrev pub is_terminal : Display → Bool
is_terminal Display.success = true
is_terminal Display.cancelled = true
is_terminal Display.expired = true
is_terminal _ = false

-- Rows by id, in the order of insertion.
unfoldable pub find_row : ℕ → List ActionRecord → Option ActionRecord
find_row id [] = none
find_row id (row ∷ rows) = let rest = find_row id rows in if id == row.id then some row else rest

-- `get_by_idempotency`
unfoldable pub find_by_key : IdempotencyKey → List ActionRecord → Option ActionRecord
find_by_key key [] = none
find_by_key key (row ∷ rows) =
    let rest = find_by_key key rows in if key_eq row.idempotency_key key then some row else rest

-- `save`
unfoldable pub save : ActionRecord → List ActionRecord → List ActionRecord
save row [] = row ∷ []
save row (old ∷ rows) =
    let rest = save row rows in if row.id == old.id then row ∷ rows else old ∷ rest
