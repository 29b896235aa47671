-- ===== src/Webhooks/Service.antt =====
-- services/src/services/razorpay_webhooks/service.py: `RazorpayWebhookService`, on either inbox.
-- Signature checks are the caller's, and log calls are left out.
use recovery_pilot_ai.Webhooks.Events.{missing_prefix, is_supported, unknown_name}
use recovery_pilot_ai.Webhooks.Database.{resolve_recovery_case_id}
use recovery_pilot_ai.Communications.Models.{Text}
use recovery_pilot_ai.Webhooks.Dispatch.{Recovery, apply_provider_webhook}
use recovery_pilot_ai.Webhooks.Json.{Outside, Members, prefix, Json, Field}
use recovery_pilot_ai.Webhooks.Mapping.{razorpay_event_id_of, event_type_of}
use recovery_pilot_ai.Base.{
  Option, ◌∷◌, Bool, ℕ, some, true, [], ◌++◌, false, none, is_some, if◌then◌else◌, not, List,
}
use recovery_pilot_ai.Webhooks.Inbox.{WebhookInbox, WebhookInboxRecord}

pub record State (Rows : Type 0) : Type 0 where
  pub inbox : Rows
  pub recovery : Recovery

-- An exception during a call of the orchestrator. After one of the database, the session refuses every further
-- statement until it is rolled back; another one is its name, and what the call leaves behind.
pub data Fault : Type 0 where
  database_error : Fault
  other_error : Text → Recovery → Fault

-- What the service takes as it is.
pub record Env : Type 0 where
  pub outside : Outside
  pub created_at : ℕ → ℕ
  pub fault : Recovery → Option Fault

-- A delivery: what `json.loads` makes of it, the ids of the request, and the clock.
pub record Delivery : Type 0 where
  pub parsed : Option Json
  pub request_id : Text
  pub correlation_id : ℕ
  pub as_of : ℕ

pub data Message : Type 0 where
  message_ok message_unknown_event message_dispatch_failed message_replay : Message

pub record WebhookIngestResult : Type 0 where
  pub razorpay_event_id : Text
  pub event_type : Text
  pub signature_verified : Bool
  pub replayed : Bool
  pub processed : Bool
  pub failed : Bool
  pub unknown_event : Bool
  pub recovery_case_id : Option ℕ
  pub request_id : Text
  pub correlation_id : ℕ
  pub received_at : ℕ
  pub processed_at : Option ℕ
  pub message : Message

pub data Ingested (Rows : Type 0) : Type 0 where
  returned : WebhookIngestResult → State Rows → Ingested Rows
  raised : Ingested Rows

-- `{"event": "", "id": "", "payload": …}`; `parse_error` is the other field 0.
abbrev pub sentinel : Json → Members → Members
sentinel payload rest =
    Members.member Field.event (Json.text [])
      (Members.member Field.id (Json.text []) (Members.member Field.payload payload rest))

-- `_parse_body`
unfoldable pub parse_body : Option Json → Members
parse_body none =
    sentinel (Json.object Members.no_members)
      (Members.member (Field.other_field 0) (Json.scalar true 0) Members.no_members)
parse_body (some (Json.object body)) = body
parse_body (some parsed) = sentinel parsed Members.no_members

abbrev pub text_or : Text → Text → Text
text_or [] other = other
text_or (c ∷ cs) other = c ∷ cs

-- The id of a delivery, and the one that stands for a missing id.
unfoldable pub event_id_of : Outside → Delivery → Text
unfolding parse_body razorpay_event_id_of
event_id_of o delivery =
    text_or (razorpay_event_id_of o (parse_body delivery.parsed))
      (prefix 128 (missing_prefix ++ delivery.request_id))

-- What a call of the orchestrator leaves: the result's state, or an error.
pub data Applied : Type 0 where
  done : Recovery → Applied
  broke : Text → Recovery → Applied
  session_failed : Applied

unfoldable pub apply_after : Option Fault → Env → Option ℕ → Text → ℕ → Bool → Recovery → Applied
unfolding apply_provider_webhook
apply_after fault env none event as_of again r = Applied.done r
apply_after none env (some case_id) event as_of again r =
    Applied.done (apply_provider_webhook env.created_at case_id event as_of again r).1
apply_after (some (Fault.other_error error left)) env (some case_id) event as_of again r =
    Applied.broke error left
apply_after (some Fault.database_error) env (some case_id) event as_of again r =
    Applied.session_failed

-- `apply_provider_webhook` if a case was found.
unfoldable pub apply_case : Env → Option ℕ → Text → ℕ → Bool → Recovery → Applied
unfolding apply_after
apply_case env case_id event as_of again r =
    apply_after (env.fault r) env case_id event as_of again r

abbrev pub result : Delivery → Text → Text → Option ℕ → ℕ → Message → WebhookIngestResult
result delivery id event case_id received_at message = record {
  razorpay_event_id = id;
  event_type = event;
  signature_verified = true;
  replayed = false;
  processed = false;
  failed = false;
  unknown_event = false;
  recovery_case_id = case_id;
  request_id = delivery.request_id;
  correlation_id = delivery.correlation_id;
  received_at = received_at;
  processed_at = none;
  message = message;
}

abbrev pub record_or : Option WebhookInboxRecord → WebhookInboxRecord → WebhookInboxRecord
record_or none existing = existing
record_or (some replayed) existing = replayed

-- What the service reads off a delivery before it looks into the inbox.
pub record Read : Type 0 where
  pub id : Text
  pub event : Text
  pub body : Members

unfoldable pub read : Outside → Delivery → Read
unfolding parse_body event_id_of event_type_of
read o delivery = record {
  id = event_id_of o delivery;
  event = event_type_of o (parse_body delivery.parsed);
  body = parse_body delivery.parsed;
}

-- The end of `_replay`, on what the orchestrator did.
abbrev pub replay_end :
    {Rows : Type 0}
    → Delivery
    → Read
    → Option ℕ
    → WebhookInboxRecord
    → Rows
    → Applied
    → Ingested Rows
replay_end delivery seen case_id row inbox (Applied.broke error left) = Ingested.raised
replay_end delivery seen case_id row inbox Applied.session_failed = Ingested.raised
replay_end delivery seen case_id row inbox (Applied.done after) =
    Ingested.returned
      (record (result delivery seen.id seen.event case_id row.received_at Message.message_replay) {
        replayed = true;
        processed = is_some row.processed_at;
        processed_at = row.processed_at;
      })
      (record { inbox = inbox; recovery = after })

-- `_replay`
unfoldable pub replay :
    {Rows : Type 0}
    → WebhookInbox Rows
    → Env
    → Delivery
    → Read
    → WebhookInboxRecord
    → Rows
    → Recovery
    → Ingested Rows
unfolding apply_case resolve_recovery_case_id
replay port env delivery seen existing inbox r =
    let (replayed, marked) = port.mark_replay seen.id delivery.as_of inbox in
    let case_id = resolve_recovery_case_id env.outside r.db seen.body in
    replay_end delivery seen case_id (record_or replayed existing) marked
      (apply_case env case_id seen.event delivery.as_of true r)

-- The end of `ingest`, on what the orchestrator did. In a session that has failed, `mark_failed` raises.
abbrev pub dispatch_end :
    {Rows : Type 0}
    → WebhookInbox Rows
    → Delivery
    → Read
    → Option ℕ
    → WebhookInboxRecord
    → Rows
    → Applied
    → Ingested Rows
dispatch_end port delivery seen case_id stored inbox (Applied.broke error left) =
    Ingested.returned
      (record (result delivery seen.id seen.event case_id stored.received_at
        Message.message_dispatch_failed) { failed = true })
      (record { inbox = port.mark_failed seen.id error inbox; recovery = left })
dispatch_end port delivery seen case_id stored inbox Applied.session_failed = Ingested.raised
dispatch_end port delivery seen case_id stored inbox (Applied.done after) =
    Ingested.returned
      (record (result delivery seen.id seen.event case_id stored.received_at Message.message_ok) {
        processed = true;
        processed_at = some delivery.as_of;
      })
      (record { inbox = port.mark_processed seen.id delivery.as_of inbox; recovery = after })

-- What follows the insertion.
unfoldable pub dispatch :
    {Rows : Type 0}
    → WebhookInbox Rows
    → Env
    → Delivery
    → Read
    → WebhookInboxRecord
    → Rows
    → Recovery
    → Ingested Rows
unfolding apply_case resolve_recovery_case_id is_supported
dispatch port env delivery seen stored inbox r =
    let case_id = resolve_recovery_case_id env.outside r.db seen.body in
    if not (is_supported seen.event)
    then Ingested.returned
        (record (result delivery seen.id (text_or seen.event unknown_name) none stored.received_at
          Message.message_unknown_event) {
            processed = true;
            unknown_event = true;
            processed_at = some delivery.as_of;
          })
        (record { inbox = port.mark_processed seen.id delivery.as_of inbox; recovery = r })
    else dispatch_end port delivery seen case_id stored inbox
        (apply_case env case_id seen.event delivery.as_of false r)

-- After `DuplicateWebhookError`: the row that another session inserted is read.
abbrev pub after_duplicate :
    {Rows : Type 0}
    → WebhookInbox Rows
    → Env
    → Delivery
    → Read
    → Option WebhookInboxRecord
    → Rows
    → Recovery
    → Ingested Rows
after_duplicate port env delivery seen none inbox r = Ingested.raised
after_duplicate port env delivery seen (some existing) inbox r =
    replay port env delivery seen existing inbox r

-- The branches on the insertion.
abbrev pub after_insert :
    {Rows : Type 0}
    → WebhookInbox Rows
    → Env
    → Delivery
    → Read
    → Option (WebhookInboxRecord × Rows)
    → Rows
    → Recovery
    → Ingested Rows
after_insert port env delivery seen none inbox r =
    after_duplicate port env delivery seen (port.get seen.id inbox) inbox r
after_insert port env delivery seen (some (stored, after)) inbox r =
    dispatch port env delivery seen stored after r

-- `ingest`. `meanwhile` is what other sessions commit between the look and the insertion.
unfoldable pub ingest :
    {Rows : Type 0}
    → WebhookInbox Rows
    → Env
    → (Rows → Rows)
    → Delivery
    → State Rows
    → Ingested Rows
unfolding read replay dispatch
ingest port env meanwhile delivery state =
    let seen = read env.outside delivery in
    elim (port.get seen.id state.inbox) [
      | some existing ↦ replay port env delivery seen existing state.inbox state.recovery
      | none ↦
          let inbox = meanwhile state.inbox in
          after_insert port env delivery seen
            (port.insert seen.id (text_or seen.event unknown_name) seen.body delivery.as_of inbox)
            inbox state.recovery
    ]

-- The result of a delivery, if it returned.
abbrev pub result_of : {Rows : Type 0} → Ingested Rows → Option WebhookIngestResult
result_of (Ingested.returned answer state) = some answer
result_of Ingested.raised = none

-- What `ingest_razorpay_webhook` leaves: the session is committed after a result, and rolled back to what other
-- sessions committed after an exception.
unfoldable pub committed : {Rows : Type 0} → (Rows → Rows) → State Rows → Ingested Rows → State Rows
committed meanwhile before (Ingested.returned answer after) = after
committed meanwhile before Ingested.raised = record before { inbox = meanwhile before.inbox }

-- A series of deliveries, one after the other.
unfoldable pub ingest_all :
    {Rows : Type 0}
    → WebhookInbox Rows
    → Env
    → List Delivery
    → State Rows
    → List (Option WebhookIngestResult) × State Rows
unfolding ingest committed
ingest_all port env [] state = ([], state)
ingest_all port env (delivery ∷ deliveries) state =
    let first = ingest port env (λ rows. rows) delivery state in
    let (results, after) = ingest_all port env deliveries (committed (λ rows. rows) state first) in
    (result_of first ∷ results, after)
