-- ===== src/Executor/Models.antt =====
-- services/src/services/executor/models.py, constants.py and idempotency.py.
-- Free text (summaries, reasons, trace details, metadata) is left out.
use recovery_pilot_ai.Base.{
  ℕ, ◌*◌, ◌≡◌, Bool, true, false, ◌&&◌, Option, none, some, List, ◌==◌, or_else, arith,
}
use recovery_pilot_ai.Enums.{DiagnosisCategory, PaymentMethod}
use recovery_pilot_ai.Policy.Models.{hour}
use recovery_pilot_ai.Planner.Models.{PlannerStrategy, RecoveryPlan}

pub data ExecutionType : Type 0 where
  execute_retry generate_payment_link request_card_update switch_to_upi : ExecutionType
  wait_until_time escalate_case stop_execution : ExecutionType

pub data ExecutionStatus : Type 0 where
  succeeded failed scheduled generated duplicate_skipped expired : ExecutionStatus
  webhook_replay timeout unknown_strategy : ExecutionStatus

pub data RetryOutcome : Type 0 where
  success failed bank_timeout nsf auth_failure : RetryOutcome

-- The values of the field `outcome`.
pub data Outcome : Type 0 where
  retried : RetryOutcome → Outcome
  webhook_replay expired generated created wait_elapsed waiting : Outcome
  escalated stopped unknown_strategy case_not_found duplicate_skipped : Outcome

pub data EventType : Type 0 where
  payment_authorized payment_captured payment_failed subscription_charged : EventType
  subscription_pending subscription_halted payment_link_paid : EventType

pub record SimulatedWebhookEvent : Type 0 where
  pub event_id : ℕ
  pub event_type : EventType
  pub replay : Bool
  pub created_at : ℕ

-- `PlannerStrategy` as the plan holds it: validation is skipped, so it may be any other string.
pub data StrategyName : Type 0 where
  known : PlannerStrategy → StrategyName
  other : ℕ → StrategyName

-- `exec:{case}:{strategy}:{stamp}`, by its parts; `no-case` is `none`.
pub record IdempotencyKey : Type 0 where
  pub recovery_case_id : Option ℕ
  pub strategy : StrategyName
  pub scheduled_at : ℕ

-- Position of a strategy in its enum.
abbrev pub strategy_code : PlannerStrategy → ℕ
strategy_code PlannerStrategy.wait_for_payday = 0
strategy_code PlannerStrategy.retry_payment = 1
strategy_code PlannerStrategy.retry_silently = 2
strategy_code PlannerStrategy.send_payment_link = 3
strategy_code PlannerStrategy.switch_payment_method = 4
strategy_code PlannerStrategy.request_new_mandate = 5
strategy_code PlannerStrategy.honour_promise_to_pay = 6
strategy_code PlannerStrategy.escalate_to_human = 7
strategy_code PlannerStrategy.stop_recovery = 8

abbrev same_strategy : StrategyName → StrategyName → Bool
same_strategy (StrategyName.known s) (StrategyName.known t) = strategy_code s == strategy_code t
same_strategy (StrategyName.other s) (StrategyName.other t) = s == t
same_strategy _ _ = false

abbrev same_case : Option ℕ → Option ℕ → Bool
same_case none none = true
same_case (some c) (some d) = c == d
same_case _ _ = false

-- Equality of keys.
unfoldable pub key_eq : IdempotencyKey → IdempotencyKey → Bool
key_eq k l =
    same_case k.recovery_case_id l.recovery_case_id
    && (same_strategy k.strategy l.strategy && k.scheduled_at == l.scheduled_at)

pub key_eq_refl : (k : IdempotencyKey) → key_eq k k ≡ true
unfolding key_eq
key_eq_refl k = ground arith

pub eq-of_key_eq : (k l : IdempotencyKey) → key_eq k l ≡ true → k ≡ l
unfolding key_eq
eq-of_key_eq k l h = ground arith

-- A random id is `none`.
pub record ExecutionAuditEvent : Type 0 where
  pub audit_event_id : Option ℕ
  pub action : Option ExecutionType
  pub outcome : Outcome
  pub request_id : ℕ
  pub correlation_id : Option ℕ
  pub idempotency_key : IdempotencyKey
  pub timestamp : ℕ

pub data TraceName : Type 0 where
  idempotency_check execution_start retry_creation payment_link_creation : TraceName
  card_update_creation wait_scheduled terminal_action : TraceName
  webhook_processing audit_event_creation : TraceName

pub data TraceStatus : Type 0 where
  succeeded failed skipped timeout expired scheduled duplicate_skipped webhook_replay : TraceStatus

pub record ExecutionTraceStep : Type 0 where
  pub step : TraceName
  pub timestamp : ℕ
  pub status : TraceStatus

pub record ExecutorContext : Type 0 where
  pub as_of : ℕ
  pub plan : RecoveryPlan
  pub strategy : StrategyName
  pub recovery_case_id : Option ℕ
  pub payment_id : Option ℕ
  pub payment_amount : ℕ
  pub payment_method : Option PaymentMethod
  pub diagnosis : Option DiagnosisCategory

pub record ExecutionResult : Type 0 where
  pub execution_id : ℕ
  pub strategy : StrategyName
  pub status : ExecutionStatus
  pub scheduled_at : ℕ
  pub executed_at : Option ℕ
  pub execution_type : ExecutionType
  pub success : Bool
  pub outcome : Outcome
  pub payment_link_id : Option ℕ
  pub webhook_event_id : Option ℕ
  pub idempotency_key : IdempotencyKey
  pub audit_event_id : Option ℕ
  pub idempotent : Bool
  pub recovered_value : ℕ
  pub webhooks : List SimulatedWebhookEvent
  pub audit : Option ExecutionAuditEvent
  pub execution_trace : List ExecutionTraceStep

-- `context.recovery_case_id or context.plan.recovery_case_id`
abbrev pub case_of : ExecutorContext → Option ℕ
case_of context = or_else context.recovery_case_id context.plan.recovery_case_id

unfoldable pub make_idempotency_key : Option ℕ → StrategyName → ℕ → IdempotencyKey
make_idempotency_key case strategy scheduled_at = record {
  recovery_case_id = case;
  strategy = strategy;
  scheduled_at = scheduled_at;
}

abbrev pub payment_link_ttl : ℕ
payment_link_ttl = 48 * hour

abbrev pub card_update_ttl : ℕ
card_update_ttl = 24 * hour

abbrev pub high_probability_success : ℕ
high_probability_success = 8500

abbrev pub low_probability_fail : ℕ
low_probability_fail = 1200

-- `STRATEGY_TO_EXECUTION.get(strategy)`
abbrev pub execution_type_for : StrategyName → Option ExecutionType
execution_type_for (StrategyName.known PlannerStrategy.retry_payment) =
    some ExecutionType.execute_retry
execution_type_for (StrategyName.known PlannerStrategy.retry_silently) =
    some ExecutionType.execute_retry
execution_type_for (StrategyName.known PlannerStrategy.send_payment_link) =
    some ExecutionType.generate_payment_link
execution_type_for (StrategyName.known PlannerStrategy.switch_payment_method) =
    some ExecutionType.switch_to_upi
execution_type_for (StrategyName.known PlannerStrategy.request_new_mandate) =
    some ExecutionType.request_card_update
execution_type_for (StrategyName.known PlannerStrategy.wait_for_payday) =
    some ExecutionType.wait_until_time
execution_type_for (StrategyName.known PlannerStrategy.honour_promise_to_pay) =
    some ExecutionType.wait_until_time
execution_type_for (StrategyName.known PlannerStrategy.escalate_to_human) =
    some ExecutionType.escalate_case
execution_type_for (StrategyName.known PlannerStrategy.stop_recovery) =
    some ExecutionType.stop_execution
execution_type_for (StrategyName.other name) = none

-- `uuid5` and `sha256` of the texts that the code builds, by the parts of the text.
pub record Hashes : Type 0 where
  pub execution_id_for : IdempotencyKey → ℕ
  pub event_id : Option ℕ → ℕ → EventType → ℕ → ℕ
  pub link_id : Option ℕ → ℕ → ℕ
  pub digest : Option ℕ → StrategyName → ℕ → Option ℕ → ℕ
