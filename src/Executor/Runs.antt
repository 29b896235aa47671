-- ===== src/Executor/Runs.antt =====
-- services/src/services/executor/executor_engine.py: one run for each kind of execution. A run
-- returns its result and the ledger.
use recovery_pilot_ai.Executor.Webhooks.{process_webhooks, webhooks_for_retry, build_webhooks}
use recovery_pilot_ai.Executor.Simulation.{
  is_success, simulate_retry, link_is_expired, link_expires_at, session_expires_at,
}
use recovery_pilot_ai.Executor.Log.{ExecutionLogStore}
use recovery_pilot_ai.Executor.Results.{Finish, Trace, append_trace, finish}
use recovery_pilot_ai.Base.{
  List, ℕ, Option, Bool, if◌then◌else◌, ◌∷◌, none, leb, false, not, [], ◌&&◌, some, all, true,
  is_some,
}
use recovery_pilot_ai.Executor.Models.{
  ExecutorContext, Hashes, RetryOutcome, TraceStatus, ExecutionType, ExecutionStatus,
  SimulatedWebhookEvent, EventType, IdempotencyKey, Outcome, high_probability_success,
  ExecutionResult, TraceName,
}

-- `events and all(item.replay for item in events)`
abbrev pub all_replayed : List SimulatedWebhookEvent → Bool
all_replayed [] = false
all_replayed (e ∷ es) = all (λ item. item.replay) (e ∷ es)

abbrev pub hook_status : List SimulatedWebhookEvent → TraceStatus
hook_status [] = TraceStatus.skipped
hook_status (e ∷ es) =
    if all_replayed (e ∷ es) then TraceStatus.webhook_replay else TraceStatus.succeeded

-- `events[-1].event_id if events else None`
abbrev pub last_event_id : List SimulatedWebhookEvent → Option ℕ
last_event_id [] = none
last_event_id (e ∷ []) = some e.event_id
last_event_id (e ∷ f ∷ es) = last_event_id (f ∷ es)

abbrev pub retry_trace_status : RetryOutcome → TraceStatus
retry_trace_status RetryOutcome.success = TraceStatus.succeeded
retry_trace_status RetryOutcome.bank_timeout = TraceStatus.timeout
retry_trace_status _ = TraceStatus.failed

abbrev pub retry_result_status : RetryOutcome → ExecutionStatus
retry_result_status RetryOutcome.success = ExecutionStatus.succeeded
retry_result_status RetryOutcome.bank_timeout = ExecutionStatus.timeout
retry_result_status _ = ExecutionStatus.failed

-- The arguments of `_finish` in `_run_retry`.
abbrev pub retry_finish :
    ExecutorContext → ExecutionType → RetryOutcome → List SimulatedWebhookEvent → Finish
retry_finish context type outcome events =
    let replayed = all_replayed events in
    record {
      execution_type = type;
      status = if replayed then ExecutionStatus.webhook_replay else retry_result_status outcome;
      success = not replayed && is_success outcome;
      outcome = if replayed then Outcome.webhook_replay else Outcome.retried outcome;
      executed_at = some context.as_of;
      payment_link_id = none;
      webhook_event_id = last_event_id events;
      webhooks = events;
      recovered_value =
          if replayed then 0 else if is_success outcome then context.payment_amount else 0;
    }

unfoldable pub run_retry :
    Hashes
    → ExecutorContext
    → ℕ
    → IdempotencyKey
    → ExecutionType
    → ExecutionLogStore
    → Trace
    → ExecutionResult × ExecutionLogStore
run_retry hashes context execution_id key type store trace =
    let clock = context.as_of in
    let outcome = simulate_retry hashes context in
    let t₁ = append_trace trace TraceName.retry_creation (retry_trace_status outcome) clock in
    let (events, store') =
      process_webhooks (webhooks_for_retry hashes context outcome clock) store in
    finish context execution_id key (retry_finish context type outcome events) store'
      (append_trace t₁ TraceName.webhook_processing (hook_status events) clock)

abbrev pub plain_finish :
    ExecutorContext → ExecutionType → ExecutionStatus → Bool → Outcome → Option ℕ → Finish
plain_finish context type status done outcome link = record {
  execution_type = type;
  status = status;
  success = done;
  outcome = outcome;
  executed_at = some context.as_of;
  payment_link_id = link;
  webhook_event_id = none;
  webhooks = [];
  recovered_value = 0;
}

-- `events and not events[0].replay`
abbrev pub first_is_new : List SimulatedWebhookEvent → Bool
first_is_new [] = false
first_is_new (e ∷ es) = not e.replay

abbrev pub link_finish : ExecutorContext → ExecutionType → ℕ → List SimulatedWebhookEvent → Finish
link_finish context type link events =
    let replayed = all_replayed events in
    record {
      execution_type = type;
      status = if replayed then ExecutionStatus.webhook_replay else ExecutionStatus.generated;
      success = not replayed;
      outcome = if replayed then Outcome.webhook_replay else Outcome.generated;
      executed_at = some context.as_of;
      payment_link_id = some link;
      webhook_event_id = last_event_id events;
      webhooks = events;
      recovered_value =
          if replayed then 0 else if first_is_new events then context.payment_amount else 0;
    }

abbrev pub link_events : ExecutorContext → List EventType
link_events context =
    if leb high_probability_success context.plan.expected_recovery_probability
    then EventType.payment_link_paid ∷ []
    else []

unfoldable pub run_payment_link :
    Hashes
    → ExecutorContext
    → ℕ
    → IdempotencyKey
    → ExecutionType
    → ExecutionLogStore
    → Trace
    → ExecutionResult × ExecutionLogStore
run_payment_link hashes context execution_id key type store trace =
    let clock = context.as_of in
    let link = hashes.link_id context.recovery_case_id context.plan.scheduled_at in
    let expired_trace =
      append_trace (append_trace trace TraceName.payment_link_creation TraceStatus.expired clock)
        TraceName.webhook_processing TraceStatus.skipped clock in
    let made_trace =
      append_trace trace TraceName.payment_link_creation TraceStatus.succeeded clock in
    let (events, store') =
      process_webhooks (build_webhooks hashes context (link_events context) clock) store in
    if link_is_expired (link_expires_at context.plan.scheduled_at) clock
    then finish context execution_id key
        (plain_finish context type ExecutionStatus.expired false Outcome.expired (some link)) store
        expired_trace
    else finish context execution_id key (link_finish context type link events) store'
        (append_trace made_trace TraceName.webhook_processing (hook_status events) clock)

unfoldable pub run_card_update :
    Hashes
    → ExecutorContext
    → ℕ
    → IdempotencyKey
    → ExecutionType
    → ExecutionLogStore
    → Trace
    → ExecutionResult × ExecutionLogStore
run_card_update hashes context execution_id key type store trace =
    let clock = context.as_of in
    let expired_trace =
      append_trace (append_trace trace TraceName.card_update_creation TraceStatus.expired clock)
        TraceName.webhook_processing TraceStatus.skipped clock in
    let made_trace =
      append_trace trace TraceName.card_update_creation TraceStatus.succeeded clock in
    let (events, store') =
      process_webhooks (build_webhooks hashes context (EventType.subscription_pending ∷ []) clock)
        store in
    if link_is_expired (session_expires_at context.plan.scheduled_at) clock
    then finish context execution_id key
        (plain_finish context type ExecutionStatus.expired false Outcome.expired none) store
        expired_trace
    else finish context execution_id key
        (record (plain_finish context type ExecutionStatus.generated true Outcome.created none) {
          webhook_event_id = last_event_id events;
          webhooks = events;
        })
        store' (append_trace made_trace TraceName.webhook_processing TraceStatus.succeeded clock)

unfoldable pub run_wait :
    ExecutorContext
    → ℕ
    → IdempotencyKey
    → ExecutionType
    → ExecutionLogStore
    → Trace
    → ExecutionResult × ExecutionLogStore
run_wait context execution_id key type store trace =
    let clock = context.as_of in
    let due = leb context.plan.scheduled_at clock in
    let t₁ =
      append_trace trace TraceName.wait_scheduled
        (if due then TraceStatus.succeeded else TraceStatus.scheduled) clock in
    let t₂ = append_trace t₁ TraceName.webhook_processing TraceStatus.skipped clock in
    finish context execution_id key
      (record (plain_finish context type
        (if due then ExecutionStatus.succeeded else ExecutionStatus.scheduled) due
        (if due then Outcome.wait_elapsed else Outcome.waiting) none) {
          executed_at = if due then some clock else none;
        })
      store t₂

unfoldable pub run_terminal :
    Hashes
    → ExecutorContext
    → ℕ
    → IdempotencyKey
    → ExecutionType
    → ExecutionLogStore
    → Trace
    → Bool
    → ExecutionResult × ExecutionLogStore
run_terminal hashes context execution_id key type store trace escalate =
    let clock = context.as_of in
    let t₁ = append_trace trace TraceName.terminal_action TraceStatus.succeeded clock in
    let (events, store') =
      process_webhooks
        (build_webhooks hashes context (if escalate then [] else EventType.subscription_halted ∷ [])
          clock)
        store in
    finish context execution_id key
      (record (plain_finish context type ExecutionStatus.succeeded true
        (if escalate then Outcome.escalated else Outcome.stopped) none) {
          webhook_event_id = last_event_id events;
          webhooks = events;
        })
      store'
      (append_trace t₁ TraceName.webhook_processing
        (if is_some (last_event_id events) then TraceStatus.succeeded else TraceStatus.skipped)
        clock)
