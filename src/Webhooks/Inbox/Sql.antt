-- ===== src/Webhooks/Inbox/Sql.antt =====
-- services/src/services/razorpay_webhooks/inbox.py: `SqlAlchemyWebhookInbox`, on the rows of
-- `webhook_events`, whose column `razorpay_event_id` is unique and whose column `payload` is plain JSONB.
-- Each delivery has a session of its own, as in apps/backend/app/services/webhook_service.py.
use recovery_pilot_ai.Base.Dict.{lookup, insert}
use recovery_pilot_ai.Webhooks.Json.{Members}
use recovery_pilot_ai.Communications.Models.{Text, text_key}
use recovery_pilot_ai.Webhooks.Inbox.{
  ingest_of, WebhookSummary, record_from_payload, WebhookInbox, WebhookEvent, with_ingest,
  failed_ingest, new_ingest, replayed_ingest, WebhookInboxRecord, mark, Ingest, Payload,
}
use recovery_pilot_ai.Base.{
  ◌∷◌, List, ℕ, length, [], some, map_option, ◌+◌, Option, if◌then◌else◌, false, true, suc, none,
  is_some, ltb,
}

abbrev pub SqlRows : Type 0
SqlRows = List (Text × WebhookEvent)

unfoldable pub new_event : Text → Text → Members → ℕ → WebhookEvent
new_event id event_type body received_at = record {
  razorpay_event_id = id;
  event_type = event_type;
  payload = record { body = body; ingest = some (new_ingest received_at) };
  signature_verified = true;
  processed_at = none;
  created_at = received_at;
}

-- The envelope in the column after `row.payload = _with_ingest(payload, ingest)`. `_ingest_of` gives the dict
-- of the loaded value itself, so that the change of an envelope that is there changes the loaded value too: the
-- assigned value equals it, and the session sends no UPDATE of the column. Only a missing envelope is written.
abbrev pub written : Option Ingest → Ingest → Ingest
written none ingest = ingest
written (some kept) ingest = kept

abbrev pub write_ingest : Payload → Ingest → Payload
write_ingest payload ingest = with_ingest payload (written payload.ingest ingest)

-- The envelope of a row after one more delivery.
unfoldable pub recounted : ℕ → WebhookEvent → Ingest
unfolding ingest_of
recounted received_at row =
    let ingest = ingest_of row.payload in
    replayed_ingest ingest (suc ingest.replay_count) received_at

-- The row as the session of `mark_replay` sees it, and as it stands in the table afterwards.
unfoldable pub loaded_event : ℕ → WebhookEvent → WebhookEvent
unfolding recounted
loaded_event received_at row = record row {
  payload = with_ingest row.payload (recounted received_at row);
}

unfoldable pub replay_event : ℕ → WebhookEvent → WebhookEvent
unfolding recounted
replay_event received_at row = record row {
  payload = write_ingest row.payload (recounted received_at row);
}

unfoldable pub process_event : ℕ → WebhookEvent → WebhookEvent
unfolding ingest_of
process_event processed_at row = record row {
  processed_at = some processed_at;
  payload = write_ingest row.payload (record (ingest_of row.payload) { failed = false });
}

unfoldable pub fail_event : Text → WebhookEvent → WebhookEvent
unfolding ingest_of
fail_event error row = record row {
  payload = write_ingest row.payload (failed_ingest (ingest_of row.payload) error);
}

-- The unique column refuses a second row.
unfoldable pub insert_event :
    Text → Text → Members → ℕ → SqlRows → Option (WebhookInboxRecord × SqlRows)
unfolding new_event record_from_payload
insert_event id event_type body received_at rows = elim (lookup id rows) [
  | some row ↦ none
  | none ↦
      let row = new_event id event_type body received_at in
      some (record_from_payload row, insert id row rows)
]

unfoldable pub sql_replay : Text → ℕ → SqlRows → Option WebhookInboxRecord × SqlRows
unfolding replay_event loaded_event record_from_payload
sql_replay id received_at rows = elim (lookup id rows) [
  | none ↦ (none, rows)
  | some row ↦ (
    some (record_from_payload (loaded_event received_at row)),
    insert id (replay_event received_at row) rows,
  )
]

-- The loop of `summary`, with the counts so far.
unfoldable pub count_event : WebhookEvent → WebhookSummary → WebhookSummary
unfolding ingest_of
count_event row s = record s {
  processed = s.processed + (if is_some row.processed_at then 1 else 0);
  replayed = s.replayed + (if ltb 0 (ingest_of row.payload).replay_count then 1 else 0);
  failed = s.failed + (if (ingest_of row.payload).failed then 1 else 0);
}

unfoldable pub count_events : SqlRows → WebhookSummary → WebhookSummary
unfolding count_event
count_events [] s = s
count_events ((id, row) ∷ rows) s = count_events rows (count_event row s)

unfoldable pub sql_summary : SqlRows → WebhookSummary
unfolding count_events
sql_summary rows =
    count_events rows (record { received = length rows; processed = 0; replayed = 0; failed = 0 })

unfoldable pub sql_inbox : WebhookInbox SqlRows
unfolding insert_event sql_replay process_event fail_event record_from_payload
sql_inbox = record {
  get = λ id rows. map_option record_from_payload (lookup id rows);
  insert = insert_event;
  mark_replay = sql_replay;
  mark_processed = λ id processed_at rows. mark (process_event processed_at) id rows;
  mark_failed = λ id error rows. mark (fail_event error) id rows;
}
