-- ===== src/Webhooks/Counted.antt =====
-- services/src/services/razorpay_webhooks/inbox.py: what later sessions read of the envelope of a stored event; and
-- mapping.py: an event id fits its column.
use recovery_pilot_ai.Webhooks.Events.{missing_prefix}
use recovery_pilot_ai.Webhooks.Mapping.{razorpay_event_id_of, or_empty, event_token}
use recovery_pilot_ai.Webhooks.Service.{event_id_of, text_or, Delivery, parse_body}
use recovery_pilot_ai.Base.Dict.{lookup}
use recovery_pilot_ai.Webhooks.Json.{Members, prefix, Outside, Json, strip, str}
use recovery_pilot_ai.Webhooks.Inbox.{WebhookInboxRecord}
use recovery_pilot_ai.Base.{
  ℕ, List, length, ◌∷◌, suc, [], ◌≡◌, some, false, none, ◌≤◌, Option, arith, zero, ◌++◌,
}
use recovery_pilot_ai.Communications.Models.{Text, text_key}
use recovery_pilot_ai.Webhooks.Inbox.Sql.{sql_replay, new_event, SqlRows}

-- Redeliveries of an event at some moments, each in a session of its own.
unfoldable pub replay_all : Text → List ℕ → SqlRows → SqlRows
unfolding sql_replay
replay_all id [] rows = rows
replay_all id (at ∷ moments) rows = replay_all id moments (sql_replay id at rows).1

module _ (id event : Text) (body : Members) (first : ℕ) where
  -- The row under the id is the one that the first delivery inserted.
  abbrev Holds : SqlRows → Type 0
  Holds rows = lookup id rows ≡ some (new_event id event body first)

-- The rows after an insertion, the old ones if it is refused.
abbrev pub rows_after : Option (WebhookInboxRecord × SqlRows) → SqlRows → SqlRows
rows_after none rows = rows
rows_after (some (row, after)) rows = after

-- A record of the inbox with these entries.
abbrev pub Shows : ℕ → ℕ → Option WebhookInboxRecord → Type 0
Shows first count none = ⊥
Shows first count (some row) =
    (row.received_at ≡ first)
    × (row.replay_count ≡ count)
    × (row.failed ≡ false)
    × (row.processed_at ≡ none)

length-prefix : (n : ℕ) (t : Text) → length (prefix n t) ≤ n
length-prefix zero t = omega arith
length-prefix (suc n) [] = omega arith
length-prefix (suc n) (c ∷ cs) = omega (arith, length-prefix n cs)

length-or_empty : (o : Outside) (v : Option Json) → length (or_empty o v) ≤ 128
length-or_empty o none = omega arith
length-or_empty o (some v) = length-prefix 128 (strip (str o v))

length-text_or : (s t : Text) → length s ≤ 128 → length t ≤ 128 → length (text_or s t) ≤ 128
length-text_or [] t h k = k
length-text_or (c ∷ cs) t h k = h

-- The id under which an event is stored has at most 128 characters, whatever the body is.
pub length-event_id_of : (o : Outside) (delivery : Delivery) → length (event_id_of o delivery) ≤ 128
unfolding event_id_of razorpay_event_id_of
length-event_id_of o delivery =
    length-text_or (razorpay_event_id_of o (parse_body delivery.parsed))
      (prefix 128 (missing_prefix ++ delivery.request_id))
      (length-or_empty o (event_token (parse_body delivery.parsed)))
      (length-prefix 128 (missing_prefix ++ delivery.request_id))
