-- ===== src/Webhooks/Samples.antt =====
-- One event of a case, and the properties of the webhooks at it.
use recovery_pilot_ai.Base.Keys.{nat_key}
use recovery_pilot_ai.Base.Dict.{lookup}
use recovery_pilot_ai.Webhooks.Refinement.Counts.{ingest_all-refines, quiet}
use recovery_pilot_ai.Webhooks.Effects.{
  apply_provider_webhook-audits, Written, Settled, apply_recovery_status-writes,
}
use recovery_pilot_ai.Webhooks.Inbox.Memory.{memory_inbox}
use recovery_pilot_ai.Communications.Models.{text_key, same_text}
use recovery_pilot_ai.Webhooks.Events.{is_capture, event_payment_captured, is_supported}
use recovery_pilot_ai.Webhooks.Mapping.{case_id_from_notes, first_case, entity_of, notes_of}
use recovery_pilot_ai.Webhooks.Counted.{replay_all, rows_after}
use recovery_pilot_ai.Enums.{RecoveryStatus, PaymentStatus}
use recovery_pilot_ai.Webhooks.Applied.{IsReplay, run, ingest-once}
use recovery_pilot_ai.Base.{length, some, ◌∷◌, none, [], ◌≡◌, false, refl, true, is_some}
use recovery_pilot_ai.Webhooks.Dispatch.{Recovery, apply_provider_webhook}
use recovery_pilot_ai.Webhooks.Service.{
  Env, State, ingest_all, Delivery, ingest, Fault, committed, read, dispatch, apply_case,
  apply_after, result_of,
}
use recovery_pilot_ai.Webhooks.Database.{
  resolve_recovery_case_id, CaseRow, apply_recovery_status, Tables, write_status, status_for_event,
  update_case, update_payment,
}
use recovery_pilot_ai.Webhooks.Json.{Json, Members, Outside, Field}
use recovery_pilot_ai.Webhooks.Inbox.Sql.{sql_inbox, SqlRows, insert_event}

abbrev outside : Outside
outside = record {
  repr = λ v. [];
  uuid_of = λ t. some (length t);
  like = λ token link. text_key.same token link;
}

abbrev env : Env
env = record { outside = outside; created_at = λ id. id; fault = λ r. none }

-- {"event": "payment.captured", "id": "e", "payload": {"payment": {"notes": {"recovery_case_id": "abc"}}}}
abbrev captured : Members
captured = Members.member Field.event (Json.text event_payment_captured) (
    Members.member Field.id (Json.text (101 ∷ [])) (
      Members.member Field.payload
        (Json.object (
          Members.member Field.payment
            (Json.object (
              Members.member Field.notes
                (Json.object (
                  Members.member Field.recovery_case_id (Json.text (97 ∷ 98 ∷ 99 ∷ []))
                    Members.no_members))
                Members.no_members))
            Members.no_members))
        Members.no_members))

abbrev delivery : Delivery
delivery = record {
  parsed = some (Json.object captured);
  request_id = [];
  correlation_id = 1;
  as_of = 50;
}

abbrev open_row : CaseRow
open_row = record {
  recovery_status = RecoveryStatus.open_case;
  recovery_completed_at = none;
  payment_id = some 9;
}

abbrev tables : Tables
tables = record {
  cases = (3, open_row) ∷ (4, open_row) ∷ [];
  payments =
      (
        9,
        record {
          razorpay_payment_id = none;
          razorpay_order_id = none;
          payment_status = PaymentStatus.failed;
          paid_at = none;
        },
      )
      ∷ [];
  links = [];
}

abbrev recovery : Recovery
recovery = record {
  db = some tables;
  world = record { actions = []; jobs = []; audits = []; calls = [] };
}

abbrev start : State SqlRows
start = record { inbox = []; recovery = recovery }

-- The case that the notes name.
finds_case : resolve_recovery_case_id outside (some tables) captured ≡ some 3
unfolding resolve_recovery_case_id case_id_from_notes first_case entity_of notes_of
finds_case = refl

ingest_all-refines_example :
    (ingest_all sql_inbox (quiet env) (delivery ∷ delivery ∷ []) start).0
    ≡ (ingest_all memory_inbox
        (quiet env)
        (delivery ∷ delivery ∷ [])
        (record { inbox = []; recovery = recovery })).0
ingest_all-refines_example =
    (ingest_all-refines env (delivery ∷ delivery ∷ []) [] [] recovery refl).0

abbrev redelivered : SqlRows
redelivered =
    replay_all (101 ∷ []) (60 ∷ 70 ∷ [])
      (rows_after (sql_inbox.insert (101 ∷ []) event_payment_captured captured 50 []) [])

-- What other sessions do here: nothing.
abbrev idle : SqlRows → SqlRows
idle rows = rows

abbrev once : State SqlRows
once = run env [] (committed idle start (ingest sql_inbox env idle delivery start))

first_answered : is_some (result_of (ingest sql_inbox env idle delivery start)) ≡ true
unfolding ingest sql_inbox read insert_event dispatch is_supported apply_case apply_after
first_answered = refl

ingest-once_example : IsReplay once.recovery (ingest sql_inbox env idle delivery once)
ingest-once_example =
    ingest-once env delivery delivery idle idle [] start once (λ id rows h. h) tt first_answered
      refl refl refl

-- After an error of the database nothing is stored, and a redelivery is a first delivery again.
abbrev broken : Env
broken = record env { fault = λ r. some Fault.database_error }

rolled_back : committed idle start (ingest sql_inbox broken idle delivery start) ≡ start
unfolding committed ingest sql_inbox read insert_event dispatch is_supported apply_case apply_after
    resolve_recovery_case_id case_id_from_notes first_case entity_of notes_of
rolled_back = refl

abbrev settled : Tables
settled = write_status tables 3 open_row RecoveryStatus.recovered event_payment_captured 50

apply_recovery_status-writes_example :
    Written 3 RecoveryStatus.recovered 50 settled
    × (lookup ⦃e = nat_key⦄ 4 settled.cases ≡ lookup ⦃e = nat_key⦄ 4 tables.cases)
    × Settled RecoveryStatus.recovered (some 9) settled.payments
    × (is_supported event_payment_captured ≡ true)
unfolding apply_recovery_status status_for_event is_capture write_status is_supported update_case
    update_payment same_text text_key
apply_recovery_status-writes_example =
    apply_recovery_status-writes tables settled 3 4 open_row event_payment_captured 50
      RecoveryStatus.recovered refl refl refl

apply_provider_webhook-audits_example :
    length
      (apply_provider_webhook (λ id. id) 3 event_payment_captured 50 false recovery).1.world.audits
    ≡ 1
apply_provider_webhook-audits_example =
    (apply_provider_webhook-audits (λ id. id) 3 event_payment_captured 50 false recovery).1
