-- ===== src/Webhooks/Refinement/Counts.antt =====
-- services/src/services/razorpay_webhooks/inbox.py and service.py: on any deliveries the inbox in SQL answers as the one
-- in memory does.
use native.Mathlib.Nat.{zero-add}
use recovery_pilot_ai.Webhooks.Refinement.Deliveries.{view_state, ingest_all-same}
use recovery_pilot_ai.Webhooks.Promise.{promised, plain_inbox, forget}
use recovery_pilot_ai.Webhooks.Dispatch.{Recovery}
use recovery_pilot_ai.Webhooks.Refinement.{
  memory_view, Text, of_event, sql_view, sql-Refines, memory-Refines,
}
use recovery_pilot_ai.Webhooks.Service.{Env, Delivery, ingest_all, State, WebhookIngestResult}
use recovery_pilot_ai.Webhooks.Inbox.Memory.{MemoryRows, memory_summary, memory_inbox}
use recovery_pilot_ai.Webhooks.Inbox.Sql.{
  count_events, sql_summary, count_event, SqlRows, sql_inbox,
}
use recovery_pilot_ai.Webhooks.Inbox.{WebhookInboxRecord, WebhookSummary, record_from_payload}
use recovery_pilot_ai.Base.{
  ◌∷◌, [], ℕ, none, List, count_if, ◌≡◌, is_some, length, arith, refl, ◌+◌, ap, suc, Option, sym,
  ◌∙◌,
}

-- The events that are processed, among the promises.
abbrev processed_in : MemoryRows → ℕ
processed_in rows = count_if (λ r. is_some r.1.processed_at) rows

module _ {R : Type 0} (v : R → WebhookInboxRecord) where
  length-promised : (rows : List (Text × R)) → length (promised v rows) ≡ length rows
  length-promised [] = refl
  length-promised (row ∷ rows) = ap suc (length-promised rows)

count_events-received :
    (rows : SqlRows) (s : WebhookSummary) → (count_events rows s).received ≡ s.received
unfolding count_events count_event
count_events-received [] s = refl
count_events-received ((id, row) ∷ rows) s = count_events-received rows (count_event row s)

count_events-processed :
    (rows : SqlRows) (s : WebhookSummary)
    → (count_events rows s).processed ≡ s.processed + processed_in (sql_view rows)
unfolding count_events count_event of_event record_from_payload
count_events-processed [] s = omega arith
count_events-processed ((id, row) ∷ rows) s =
    omega (arith, count_events-processed rows (count_event row s))

processed-memory_view : (rows : MemoryRows) → processed_in (memory_view rows) ≡ processed_in rows
processed-memory_view [] = refl
processed-memory_view ((id, row) ∷ rows) = omega (arith, processed-memory_view rows)

-- The service without exceptions.
abbrev pub quiet : Env → Env
quiet env = record env { fault = λ r. none }

-- Where no exception occurs, on any series of deliveries the service returns on the SQL inbox what it returns on the
-- inbox in memory, if the two begin with the same events, received and processed at the same moments; it leaves the
-- same cases, payments and actions, and both summaries count the same received and the same processed events.
pub ingest_all-refines :
    (env : Env) (deliveries : List Delivery) (rows : SqlRows) (dict : MemoryRows)
    (recovery : Recovery)
    → sql_view rows ≡ memory_view dict
    → (let sql =
          ingest_all sql_inbox
            (quiet env)
            deliveries
            (record { inbox = rows; recovery = recovery }) in
        let memory =
          ingest_all memory_inbox
            (quiet env)
            deliveries
            (record { inbox = dict; recovery = recovery }) in
        (sql.0 ≡ memory.0)
        × (sql.1.recovery ≡ memory.1.recovery)
        × ((sql_summary sql.1.inbox).received ≡ (memory_summary memory.1.inbox).received)
        × ((sql_summary sql.1.inbox).processed ≡ (memory_summary memory.1.inbox).processed))
unfolding sql_summary memory_summary
ingest_all-refines env deliveries rows dict recovery same =
    let s : State SqlRows = record { inbox = rows; recovery = recovery } in
    let m : State MemoryRows = record { inbox = dict; recovery = recovery } in
    let sql = ingest_all sql_inbox (quiet env) deliveries s in
    let memory = ingest_all memory_inbox (quiet env) deliveries m in
    let start : view_state sql_view s ≡ view_state memory_view m =
      ap (λ (r : MemoryRows). record { inbox = r; recovery = recovery }) same in
    let both : ◌≡◌ {A = List (Option WebhookIngestResult) × State MemoryRows}
        (sql.0, view_state sql_view sql.1) (memory.0, view_state memory_view memory.1) =
      sym (ingest_all-same sql_inbox sql_view sql-Refines (quiet env) deliveries s)
      ∙ ap (ingest_all plain_inbox (quiet env) deliveries) start
      ∙ ingest_all-same memory_inbox memory_view memory-Refines (quiet env) deliveries m in
    let ends : sql_view sql.1.inbox ≡ memory_view memory.1.inbox = ap (λ x. x.1.inbox) both in
    (
      ap (λ x. x.0) both,
      ap (λ x. x.1.recovery) both,
      count_events-received sql.1.inbox _
          ∙ sym (length-promised of_event sql.1.inbox)
          ∙ ap length ends
          ∙ length-promised forget memory.1.inbox,
      count_events-processed sql.1.inbox _
          ∙ (zero-add (processed_in (sql_view sql.1.inbox))
              ∙ ap processed_in ends
              ∙ processed-memory_view memory.1.inbox),
    )
