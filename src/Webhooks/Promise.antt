-- ===== src/Webhooks/Promise.antt =====
-- services/src/services/razorpay_webhooks/inbox.py: what both inboxes promise to the service.
use recovery_pilot_ai.Base.Dict.{
  insert, lookup, map_values-insert, lookup-map_values, map_values, insert-lookup,
}
use recovery_pilot_ai.Webhooks.Json.{Members}
use recovery_pilot_ai.Base.{
  ◌≡◌, ℕ, none, map_option, refl, Option-cases, inl, inr, false, some, List, ◌∙◌, ap, sym,
}
use recovery_pilot_ai.Webhooks.Inbox.Memory.{MemoryRows, new_record}
use recovery_pilot_ai.Communications.Models.{Text, text_key}
use recovery_pilot_ai.Webhooks.Inbox.{WebhookInbox, WebhookInboxRecord, mark}

-- A record without what the two inboxes keep differently: the envelope and its counts.
abbrev pub forget : WebhookInboxRecord → WebhookInboxRecord
forget row = record row {
  payload = record row.payload { ingest = none };
  replay_count = 0;
  failed = false;
}

-- The promise: each event stays with its first moment and, once it is processed, the moment of that.
unfoldable pub plain_inbox : WebhookInbox MemoryRows
unfolding new_record
plain_inbox = record {
  get = λ id rows. lookup id rows;
  insert = λ id event body at rows.
      some (
        forget (new_record id event body at),
        insert id (forget (new_record id event body at)) rows,
      );
  mark_replay = λ id at rows. (lookup id rows, rows);
  mark_processed = λ id at rows. mark (λ row. record row { processed_at = some at }) id rows;
  mark_failed = λ id error rows. rows;
}

-- An inbox keeps the promise, seen through a view of its rows. An insertion is compared where the caller has found
-- no row, as the port asks.
pub record Refines {R : Type 0} (a : WebhookInbox R) (view : R → MemoryRows) : Type 0 where
  pub get_same :
      (id : Text) (rows : R) → plain_inbox.get id (view rows) ≡ map_option forget (a.get id rows)
  pub insert_same :
      (id event : Text) (body : Members) (at : ℕ) (rows : R)
      → a.get id rows ≡ none
      → plain_inbox.insert id event body at (view rows)
        ≡ map_option (λ p. (forget p.0, view p.1)) (a.insert id event body at rows)
  pub replay_same :
      (id : Text) (at : ℕ) (rows : R)
      → plain_inbox.mark_replay id at (view rows)
        ≡ (map_option forget (a.mark_replay id at rows).0, view (a.mark_replay id at rows).1)
  pub processed_same :
      (id : Text) (at : ℕ) (rows : R)
      → plain_inbox.mark_processed id at (view rows) ≡ view (a.mark_processed id at rows)
  pub failed_same :
      (id error : Text) (rows : R)
      → plain_inbox.mark_failed id error (view rows) ≡ view (a.mark_failed id error rows)

-- Rows of either inbox, by what a row promises.
module _ {R : Type 0} (v : R → WebhookInboxRecord) where
  abbrev pub promised : List (Text × R) → MemoryRows
  promised rows = map_values v rows

  pub lookup-promised :
      (id : Text) (rows : List (Text × R))
      → lookup id (promised rows) ≡ map_option v (lookup id rows)
  lookup-promised id rows = lookup-map_values v id rows

  pub insert-promised :
      (id : Text) (row : R) (rows : List (Text × R))
      → promised (insert id row rows) ≡ insert id (v row) (promised rows)
  insert-promised id row rows = map_values-insert v id row rows

  -- A mark that keeps what a row promises changes nothing of it.
  pub mark-promised :
      (f : WebhookInboxRecord → WebhookInboxRecord) (g : R → R)
      (h : (row : R) → f (v row) ≡ v (g row)) (id : Text) (rows : List (Text × R))
      → mark f id (promised rows) ≡ promised (mark g id rows)
  mark-promised f g h id rows = elim (Option-cases (lookup id rows)) [
    | inl e ↦ rw (mark, lookup-promised id rows, e) refl
    | inr (row, e) ↦
        rw (mark, lookup-promised id rows, e, h row, insert-promised id (g row) rows) refl
  ]

module _ {R : Type 0} (v : R → WebhookInboxRecord) where
  -- A row that is replaced by one with the same promise.
  pub unchanged-promised :
      (id : Text) (row new : R) (rows : List (Text × R))
      → v new ≡ v row
      → lookup id rows ≡ some row
      → promised v (insert id new rows) ≡ promised v rows
  unchanged-promised id row new rows h e =
      insert-promised v id new rows
      ∙ ap (λ r. insert id r (promised v rows)) h
      ∙ insert-lookup id (v row) (promised v rows) (lookup-promised v id rows ∙ ap (map_option v) e)

  pub mark-unchanged :
      (g : R → R) (h : (row : R) → v (g row) ≡ v row) (id : Text) (rows : List (Text × R))
      → promised v rows ≡ promised v (mark g id rows)
  mark-unchanged g h id rows = elim (Option-cases (lookup id rows)) [
    | inl e ↦ rw (mark, e) refl
    | inr (row, e) ↦ rw (mark, e) (sym (unchanged-promised id row (g row) rows (h row) e))
  ]
