-- ===== src/Webhooks/Inbox/Memory.antt =====
-- services/src/services/razorpay_webhooks/inbox.py: `InMemoryWebhookInbox`.
use recovery_pilot_ai.Base.Dict.{lookup, insert}
use recovery_pilot_ai.Webhooks.Json.{Members}
use recovery_pilot_ai.Base.{
  List, length, ℕ, Option, some, suc, true, count_if, false, is_some, ltb, none,
}
use recovery_pilot_ai.Communications.Models.{Text, text_key}
use recovery_pilot_ai.Webhooks.Inbox.{
  WebhookInbox, ingest_of, WebhookSummary, WebhookInboxRecord, mark, with_ingest, new_ingest,
  replayed_ingest, failed_ingest,
}

abbrev pub MemoryRows : Type 0
MemoryRows = List (Text × WebhookInboxRecord)

unfoldable pub new_record : Text → Text → Members → ℕ → WebhookInboxRecord
new_record id event_type body received_at = record {
  razorpay_event_id = id;
  event_type = event_type;
  payload = record { body = body; ingest = some (new_ingest received_at) };
  signature_verified = true;
  processed_at = none;
  received_at = received_at;
  replay_count = 0;
  failed = false;
}

unfoldable pub replay_record : ℕ → WebhookInboxRecord → WebhookInboxRecord
unfolding ingest_of
replay_record received_at row = record row {
  replay_count = suc row.replay_count;
  payload =
      with_ingest row.payload
        (replayed_ingest (ingest_of row.payload) (suc row.replay_count) received_at);
}

unfoldable pub process_record : ℕ → WebhookInboxRecord → WebhookInboxRecord
unfolding ingest_of
process_record processed_at row = record row {
  processed_at = some processed_at;
  failed = false;
  payload = with_ingest row.payload (record (ingest_of row.payload) { failed = false });
}

unfoldable pub fail_record : Text → WebhookInboxRecord → WebhookInboxRecord
unfolding ingest_of
fail_record error row = record row {
  failed = true;
  payload = with_ingest row.payload (failed_ingest (ingest_of row.payload) error);
}

unfoldable pub insert_row :
    Text → Text → Members → ℕ → MemoryRows → Option (WebhookInboxRecord × MemoryRows)
unfolding new_record
insert_row id event_type body received_at rows =
    let row = new_record id event_type body received_at in some (row, insert id row rows)

unfoldable pub memory_replay : Text → ℕ → MemoryRows → Option WebhookInboxRecord × MemoryRows
unfolding replay_record
memory_replay id received_at rows = elim (lookup id rows) [
  | none ↦ (none, rows)
  | some row ↦
      let replayed = replay_record received_at row in (some replayed, insert id replayed rows)
]

unfoldable pub memory_summary : MemoryRows → WebhookSummary
memory_summary rows = record {
  received = length rows;
  processed = count_if (λ r. is_some r.1.processed_at) rows;
  replayed = count_if (λ r. ltb 0 r.1.replay_count) rows;
  failed = count_if (λ r. r.1.failed) rows;
}

unfoldable pub memory_inbox : WebhookInbox MemoryRows
unfolding insert_row memory_replay process_record fail_record
memory_inbox = record {
  get = λ id rows. lookup id rows;
  insert = insert_row;
  mark_replay = memory_replay;
  mark_processed = λ id processed_at rows. mark (process_record processed_at) id rows;
  mark_failed = λ id error rows. mark (fail_record error) id rows;
}
