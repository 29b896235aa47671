-- ===== src/Webhooks/Inbox.antt =====
-- services/src/services/razorpay_webhooks/inbox.py: the inbox in memory and the one in SQL. The
-- random row id is left out, and so are log calls. A moment stands for its ISO text.
pub mod Memory
pub mod Sql
use recovery_pilot_ai.Base.Dict.{lookup, insert}
use recovery_pilot_ai.Webhooks.Json.{Members, prefix}
use recovery_pilot_ai.Communications.Models.{Text, text_key}
use recovery_pilot_ai.Base.{none, ℕ, Option, some, false, List, Bool, true}

-- The envelope under `_rp_ingest`; a missing entry reads as false.
pub record Ingest : Type 0 where
  pub received_at : Option ℕ
  pub replay_count : ℕ
  pub failed : Bool
  pub last_replay_at : Option ℕ
  pub error_type : Option Text

-- The JSON that is stored: the body, and the envelope that stands beside it.
pub record Payload : Type 0 where
  pub body : Members
  pub ingest : Option Ingest

pub record WebhookInboxRecord : Type 0 where
  pub razorpay_event_id : Text
  pub event_type : Text
  pub payload : Payload
  pub signature_verified : Bool
  pub processed_at : Option ℕ
  pub received_at : ℕ
  pub replay_count : ℕ
  pub failed : Bool

-- A row of `webhook_events`.
pub record WebhookEvent : Type 0 where
  pub razorpay_event_id : Text
  pub event_type : Text
  pub payload : Payload
  pub signature_verified : Bool
  pub processed_at : Option ℕ
  pub created_at : ℕ

pub record WebhookSummary : Type 0 where
  pub received : ℕ
  pub processed : ℕ
  pub replayed : ℕ
  pub failed : ℕ

abbrev pub empty_ingest : Ingest
empty_ingest = record {
  received_at = none;
  replay_count = 0;
  failed = false;
  last_replay_at = none;
  error_type = none;
}

unfoldable pub ingest_of : Payload → Ingest
ingest_of payload = elim (payload.ingest) [ none ↦ empty_ingest | some ingest ↦ ingest ]

abbrev pub with_ingest : Payload → Ingest → Payload
with_ingest payload ingest = record payload { ingest = some ingest }

abbrev pub new_ingest : ℕ → Ingest
new_ingest received_at = record empty_ingest { received_at = some received_at }

abbrev pub moment_or : Option ℕ → ℕ → ℕ
moment_or none fallback = fallback
moment_or (some moment) fallback = moment

unfoldable pub record_from_payload : WebhookEvent → WebhookInboxRecord
unfolding ingest_of
record_from_payload row = record {
  razorpay_event_id = row.razorpay_event_id;
  event_type = row.event_type;
  payload = row.payload;
  signature_verified = row.signature_verified;
  processed_at = row.processed_at;
  received_at = moment_or (ingest_of row.payload).received_at row.created_at;
  replay_count = (ingest_of row.payload).replay_count;
  failed = (ingest_of row.payload).failed;
}

-- What the two inboxes offer to the service. `none` as the result of `insert` is
-- `DuplicateWebhookError`.
pub record WebhookInbox (Rows : Type 0) : Type 0 where
  pub get : Text → Rows → Option WebhookInboxRecord
  pub insert : Text → Text → Members → ℕ → Rows → Option (WebhookInboxRecord × Rows)
  pub mark_replay : Text → ℕ → Rows → Option WebhookInboxRecord × Rows
  pub mark_processed : Text → ℕ → Rows → Rows
  pub mark_failed : Text → Text → Rows → Rows

-- The body of a mark: the row under an id, if there is one, is changed.
abbrev pub mark {ℓ} : {R : Type ℓ} → (R → R) → Text → List (Text × R) → List (Text × R)
mark f id rows = elim (lookup id rows) [ none ↦ rows | some row ↦ insert id (f row) rows ]

abbrev pub replayed_ingest : Ingest → ℕ → ℕ → Ingest
replayed_ingest ingest count received_at = record ingest {
  replay_count = count;
  last_replay_at = some received_at;
}

abbrev pub failed_ingest : Ingest → Text → Ingest
failed_ingest ingest error = record ingest { failed = true; error_type = some (prefix 128 error) }
