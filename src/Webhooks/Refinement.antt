-- ===== src/Webhooks/Refinement.antt =====
-- services/src/services/razorpay_webhooks: what both inboxes promise, for the service too. The tests of the program
-- run on the one in memory, production on the one in SQL.
pub mod Deliveries
pub mod Counts
use recovery_pilot_ai.Webhooks.Promise.{
  forget, plain_inbox, promised, lookup-promised, insert-promised, Refines, mark-promised,
  unchanged-promised, mark-unchanged,
}
use mathlib.Core.Path.{ap₂}
use recovery_pilot_ai.Base.Dict.{insert, lookup}
use recovery_pilot_ai.Webhooks.Json.{Members}
use recovery_pilot_ai.Webhooks.Inbox.Sql.{
  SqlRows, sql_replay, fail_event, replay_event, process_event, sql_inbox, loaded_event,
  insert_event, recounted, new_event, write_ingest, written,
}
use recovery_pilot_ai.Base.{
  ◌≡◌, ℕ, none, map_option, refl, Option-cases, inl, inr, false, some, ◌∙◌, Option, ap, sym,
}
use recovery_pilot_ai.Webhooks.Inbox.Memory.{
  MemoryRows, new_record, memory_replay, memory_inbox, replay_record, insert_row, process_record,
  fail_record,
}
use recovery_pilot_ai.Communications.Models.{Text, text_key}
use recovery_pilot_ai.Webhooks.Inbox.{
  record_from_payload, WebhookEvent, WebhookInboxRecord, ingest_of, Ingest, failed_ingest,
}

-- What the rows of the table, and those in memory, promise.
unfoldable pub of_event : WebhookEvent → WebhookInboxRecord
unfolding record_from_payload
of_event row = forget (record_from_payload row)

abbrev pub sql_view : SqlRows → MemoryRows
sql_view rows = promised of_event rows

abbrev pub memory_view : MemoryRows → MemoryRows
memory_view rows = promised forget rows

-- Neither a write of the envelope nor its loss changes the first moment.
with_ingest-received :
    (row : WebhookEvent) (ingest : Ingest)
    → ingest.received_at ≡ (ingest_of row.payload).received_at
    → of_event (record row { payload = write_ingest row.payload ingest }) ≡ of_event row
unfolding of_event record_from_payload ingest_of
with_ingest-received row ingest h = received row.payload.ingest h
  where
    received :
        (i : Option Ingest)
        → ingest.received_at ≡ (ingest_of (record row.payload { ingest = i })).received_at
        → of_event
            (record row { payload = record row.payload { ingest = some (written i ingest) } })
          ≡ of_event (record row { payload = record row.payload { ingest = i } })
    received none k = rw k refl
    received (some kept) k = refl

replay_event-of_event :
    (at : ℕ) (row : WebhookEvent) → of_event (replay_event at row) ≡ of_event row
unfolding replay_event recounted
replay_event-of_event at row = with_ingest-received row (recounted at row) refl

fail_event-of_event :
    (error : Text) (row : WebhookEvent) → of_event (fail_event error row) ≡ of_event row
unfolding fail_event
fail_event-of_event error row =
    with_ingest-received row (failed_ingest (ingest_of row.payload) error) refl

process_event-of_event :
    (at : ℕ) (row : WebhookEvent)
    → record (of_event row) { processed_at = some at } ≡ of_event (process_event at row)
unfolding process_event of_event record_from_payload
process_event-of_event at row = sym (
    with_ingest-received (record row { processed_at = some at })
      (record (ingest_of row.payload) { failed = false }) refl)

loaded_event-of_event :
    (at : ℕ) (row : WebhookEvent)
    → forget (record_from_payload (loaded_event at row)) ≡ of_event row
unfolding loaded_event recounted of_event record_from_payload ingest_of
loaded_event-of_event at row = refl

sql-replay :
    (id : Text) (at : ℕ) (rows : SqlRows)
    → plain_inbox.mark_replay id at (sql_view rows)
      ≡ (map_option forget (sql_replay id at rows).0, sql_view (sql_replay id at rows).1)
unfolding plain_inbox sql_replay
sql-replay id at rows = elim (Option-cases (lookup id rows)) [
  | inl e ↦ rw (sql_replay, lookup-promised of_event id rows, e) refl
  | inr (row, e) ↦
      rw (sql_replay, lookup-promised of_event id rows, e)
        (ap₂ (λ o r. (o, r)) (ap some (sym (loaded_event-of_event at row)))
          (sym (
            unchanged-promised of_event id row (replay_event at row) rows
              (replay_event-of_event at row) e)))
]

memory-replay :
    (id : Text) (at : ℕ) (rows : MemoryRows)
    → plain_inbox.mark_replay id at (memory_view rows)
      ≡ (map_option forget (memory_replay id at rows).0, memory_view (memory_replay id at rows).1)
unfolding plain_inbox memory_replay replay_record
memory-replay id at rows = elim (Option-cases (lookup id rows)) [
  | inl e ↦ rw (memory_replay, lookup-promised forget id rows, e) refl
  | inr (row, e) ↦
      rw (memory_replay, lookup-promised forget id rows, e)
        (ap (λ r. (some (forget row), r))
          (sym (unchanged-promised forget id row (replay_record at row) rows refl e)))
]

sql-insert :
    (id event : Text) (body : Members) (at : ℕ) (rows : SqlRows)
    → map_option record_from_payload (lookup id rows) ≡ none
    → plain_inbox.insert id event body at (sql_view rows)
      ≡ map_option (λ p. (forget p.0, sql_view p.1)) (insert_event id event body at rows)
unfolding plain_inbox insert_event new_event new_record of_event record_from_payload ingest_of
sql-insert id event body at rows h = elim (Option-cases (lookup id rows)) [
  | inl e ↦ rw (insert_event, e, insert-promised of_event id (new_event id event body at) rows) refl
  | inr (row, e) ↦ let k = (rw e at h) in cc
]

memory-insert :
    (id event : Text) (body : Members) (at : ℕ) (rows : MemoryRows)
    → plain_inbox.insert id event body at (memory_view rows)
      ≡ map_option (λ p. (forget p.0, memory_view p.1)) (insert_row id event body at rows)
unfolding plain_inbox insert_row new_record
memory-insert id event body at rows =
    rw (insert-promised forget id (new_record id event body at) rows) refl

map_option-map_option :
    (o : Option WebhookEvent)
    → map_option of_event o ≡ map_option forget (map_option record_from_payload o)
unfolding of_event
map_option-map_option none = refl
map_option-map_option (some row) = refl

-- The table, which loses counts, and the dict, which keeps them, both keep the promise.
pub sql-Refines : Refines sql_inbox sql_view
unfolding sql_inbox plain_inbox
sql-Refines = record {
  get_same = λ id rows. lookup-promised of_event id rows ∙ map_option-map_option (lookup id rows);
  insert_same = sql-insert;
  replay_same = sql-replay;
  processed_same = λ id at rows.
      mark-promised of_event (λ row. record row { processed_at = some at }) (process_event at)
        (process_event-of_event at) id rows;
  failed_same = λ id error rows.
      mark-unchanged of_event (fail_event error) (fail_event-of_event error) id rows;
}

pub memory-Refines : Refines memory_inbox memory_view
unfolding memory_inbox plain_inbox process_record fail_record
memory-Refines = record {
  get_same = lookup-promised forget;
  insert_same = λ id event body at rows h. memory-insert id event body at rows;
  replay_same = memory-replay;
  processed_same = λ id at rows.
      mark-promised forget (λ row. record row { processed_at = some at }) (process_record at)
        (λ row. refl) id rows;
  failed_same = λ id error rows. mark-unchanged forget (fail_record error) (λ row. refl) id rows;
}
