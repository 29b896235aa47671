-- ===== src/Executor/Engine.antt =====
-- services/src/services/executor/executor_engine.py: the idempotency check and the dispatch.
-- `execute` is `_execute`: no step of the model raises, so its catch-all handler has no case here.
use recovery_pilot_ai.Executor.Runs.{
  run_retry, run_payment_link, run_card_update, run_wait, plain_finish, run_terminal,
}
use recovery_pilot_ai.Executor.Results.{Trace, append_trace, duplicate_result, finish}
use recovery_pilot_ai.Base.{ℕ, List, Option, ◌∷◌, some, [], none, true, false}
use recovery_pilot_ai.Executor.Log.{ExecutionLogStore, get}
use recovery_pilot_ai.Executor.Models.{
  ExecutorContext, make_idempotency_key, Hashes, IdempotencyKey, ExecutionResult, case_of,
  ExecutionType, TraceName, TraceStatus, execution_type_for, ExecutionStatus, Outcome,
}

-- The branches on `execution_type`.
unfoldable pub dispatch :
    Hashes
    → ExecutorContext
    → ℕ
    → IdempotencyKey
    → ExecutionLogStore
    → Trace
    → ExecutionType
    → ExecutionResult × ExecutionLogStore
dispatch hashes context id key store trace ExecutionType.execute_retry =
    run_retry hashes context id key ExecutionType.execute_retry store trace
dispatch hashes context id key store trace ExecutionType.generate_payment_link =
    run_payment_link hashes context id key ExecutionType.generate_payment_link store trace
dispatch hashes context id key store trace ExecutionType.switch_to_upi =
    run_payment_link hashes context id key ExecutionType.switch_to_upi store trace
dispatch hashes context id key store trace ExecutionType.request_card_update =
    run_card_update hashes context id key ExecutionType.request_card_update store trace
dispatch hashes context id key store trace ExecutionType.wait_until_time =
    run_wait context id key ExecutionType.wait_until_time store trace
dispatch hashes context id key store trace ExecutionType.escalate_case =
    run_terminal hashes context id key ExecutionType.escalate_case store trace true
dispatch hashes context id key store trace ExecutionType.stop_execution =
    run_terminal hashes context id key ExecutionType.stop_execution store trace false

-- A plan whose strategy has no execution type.
unfoldable pub run_unknown :
    ExecutorContext
    → ℕ
    → IdempotencyKey
    → ExecutionLogStore
    → Trace
    → ExecutionResult × ExecutionLogStore
run_unknown context id key store trace =
    let clock = context.as_of in
    let t₁ = append_trace trace TraceName.execution_start TraceStatus.failed clock in
    let t₂ = append_trace t₁ TraceName.terminal_action TraceStatus.skipped clock in
    finish context id key
      (plain_finish context ExecutionType.stop_execution ExecutionStatus.unknown_strategy false
        Outcome.unknown_strategy none)
      store (append_trace t₂ TraceName.webhook_processing TraceStatus.skipped clock)

unfoldable pub key_of : ExecutorContext → IdempotencyKey
unfolding make_idempotency_key
key_of context = make_idempotency_key (case_of context) context.strategy context.plan.scheduled_at

abbrev pub start_or_fail :
    Hashes
    → ExecutorContext
    → ExecutionLogStore
    → Option ExecutionType
    → ExecutionResult × ExecutionLogStore
start_or_fail hashes context store type =
    let key = key_of context in
    let id = hashes.execution_id_for key in
    let checked = append_trace [] TraceName.idempotency_check TraceStatus.succeeded context.as_of in
    elim type [
      | none ↦ run_unknown context id key store checked
      | some t ↦
          dispatch hashes context id key store
            (append_trace checked TraceName.execution_start TraceStatus.succeeded context.as_of) t
    ]

abbrev pub prior_or_start :
    Hashes
    → ExecutorContext
    → ExecutionLogStore
    → Option ExecutionResult
    → ExecutionResult × ExecutionLogStore
prior_or_start hashes context store prior = elim prior [
  | some p ↦
      duplicate_result p context.as_of store
        (append_trace [] TraceName.idempotency_check TraceStatus.duplicate_skipped context.as_of)
  | none ↦ start_or_fail hashes context store (execution_type_for context.strategy)
]

unfoldable pub execute :
    Hashes → ExecutorContext → ExecutionLogStore → ExecutionResult × ExecutionLogStore
execute hashes context store = prior_or_start hashes context store (get (key_of context) store)

-- `execute_many`: the ledger is shared from plan to plan.
unfoldable pub execute_many :
    Hashes → List ExecutorContext → ExecutionLogStore → List ExecutionResult × ExecutionLogStore
unfolding execute
execute_many hashes [] store = ([], store)
execute_many hashes (context ∷ contexts) store =
    let (result, store') = execute hashes context store in
    let (results, final) = execute_many hashes contexts store' in (result ∷ results, final)
