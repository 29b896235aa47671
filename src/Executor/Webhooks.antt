-- ===== src/Executor/Webhooks.antt =====
-- services/src/services/executor/webhook_processor.py: simulated delivery and replay.
use recovery_pilot_ai.Base.{ℕ, suc, false, not, List, [], ◌∷◌, if◌then◌else◌}
use recovery_pilot_ai.Executor.Models.{
  EventType, SimulatedWebhookEvent, ExecutorContext, RetryOutcome, Hashes,
}
use recovery_pilot_ai.Executor.Log.{ExecutionLogStore, seen_webhook, remember_webhook}

-- The loop of `build_webhooks`, from one index on.
build_from : Hashes → ExecutorContext → ℕ → ℕ → List EventType → List SimulatedWebhookEvent
build_from hashes context created_at index [] = []
build_from hashes context created_at index (type ∷ types) =
    record {
      event_id = hashes.event_id context.recovery_case_id context.plan.scheduled_at type index;
      event_type = type;
      replay = false;
      created_at = created_at;
    }
    ∷ build_from hashes context created_at (suc index) types

unfoldable pub build_webhooks :
    Hashes → ExecutorContext → List EventType → ℕ → List SimulatedWebhookEvent
unfolding build_from
build_webhooks hashes context event_types created_at =
    build_from hashes context created_at 0 event_types

-- `RETRY_WEBHOOK`
abbrev pub retry_webhook : RetryOutcome → List EventType
retry_webhook RetryOutcome.success =
    EventType.payment_authorized ∷ EventType.payment_captured ∷ EventType.subscription_charged ∷ []
retry_webhook _ = EventType.payment_failed ∷ []

unfoldable pub webhooks_for_retry :
    Hashes → ExecutorContext → RetryOutcome → ℕ → List SimulatedWebhookEvent
unfolding build_webhooks
webhooks_for_retry hashes context outcome created_at =
    build_webhooks hashes context (retry_webhook outcome) created_at

-- Each event is marked as a replay if its id was seen, and remembered if not.
unfoldable pub process_webhooks :
    List SimulatedWebhookEvent → ExecutionLogStore → List SimulatedWebhookEvent × ExecutionLogStore
process_webhooks [] store = ([], store)
process_webhooks (event ∷ events) store =
    let replay = seen_webhook event.event_id store in
    let store' = if not replay then remember_webhook event.event_id store else store in
    let (processed, final) = process_webhooks events store' in
    (record event { replay = replay } ∷ processed, final)
