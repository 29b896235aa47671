-- ===== src/Webhooks/Effects.antt =====
-- services/src/services/razorpay_webhooks/apply.py: what an event writes, and what it leaves.
use recovery_pilot_ai.Orchestrator.Models.{ActionRecord, Display}
use recovery_pilot_ai.Orchestrator.Run.{persist_status, World}
use recovery_pilot_ai.Webhooks.Dispatch.{
  apply_provider_webhook, Recovery, newest, display_for, update_newest,
}
use mathlib.Core.Option.{some-injective}
use recovery_pilot_ai.Base.Keys.{nat_key}
use recovery_pilot_ai.Communications.Models.{Text}
use recovery_pilot_ai.Base.Dict.{lookup, lookup-insert_self, lookup-insert_ne}
use recovery_pilot_ai.Webhooks.Events.{is_supported, is_capture, is_stop, is_event}
use recovery_pilot_ai.Enums.{RecoveryStatus, PaymentStatus}
use recovery_pilot_ai.Webhooks.Database.{
  write_status, status_for_event, update_case, Tables, CaseRow, completes, is_id,
  apply_recovery_status, update_payment, PaymentRow, change,
}
use recovery_pilot_ai.Base.{
  none, ℕ, ◌==◌, is_some, ◌≡◌, some, false, arith, not, ◌||◌, true, refl, Option-cases, Bool,
  Option, inl, inr, ap, sym, ◌∙◌, List, length, ◌+◌, length-append,
}

-- Exactly the supported events have a status for the case.
pub status_for_event-supported :
    (event : Text) → is_some (status_for_event event) ≡ is_supported event
unfolding status_for_event is_supported is_capture is_stop is_event
status_for_event-supported event = ground arith

-- The case afterwards: it has the status, and is completed now if the status ends a case.
abbrev pub Written : ℕ → RecoveryStatus → ℕ → Tables → Type 0
Written id status as_of db =
    (row : CaseRow) × (lookup ⦃e = nat_key⦄ id db.cases ≡ some row)
    × (row.recovery_status ≡ status)
    × (not (completes status) || is_id as_of row.recovery_completed_at ≡ true)

write_status-Written :
    (db : Tables) (id : ℕ) (row : CaseRow) (status : RecoveryStatus) (event : Text) (as_of : ℕ)
    → Written id status as_of (write_status db id row status event as_of)
unfolding write_status update_case
write_status-Written db id row status event as_of = (
  update_case status as_of row,
  lookup-insert_self ⦃e = nat_key⦄ id _ db.cases,
  refl,
  ground arith,
)

-- A case that is not the event's is left as it is.
write_status-others :
    (db : Tables) (id other : ℕ) (row : CaseRow) (status : RecoveryStatus) (event : Text)
    (as_of : ℕ)
    → (other == id) ≡ false
    → lookup ⦃e = nat_key⦄ other (write_status db id row status event as_of).cases
      ≡ lookup ⦃e = nat_key⦄ other db.cases
unfolding write_status
write_status-others db id other row status event as_of h =
    lookup-insert_ne ⦃e = nat_key⦄ other id (update_case status as_of row) db.cases h

abbrev is_recovered : RecoveryStatus → Bool
is_recovered RecoveryStatus.recovered = true
is_recovered _ = false

abbrev is_paid : PaymentStatus → Bool
is_paid PaymentStatus.recovered = true
is_paid _ = false

-- The payment, if there is one, agrees with the status.
abbrev pub Agrees : RecoveryStatus → Option PaymentRow → Type 0
Agrees status none = Unit
Agrees status (some payment) = is_paid payment.payment_status ≡ is_recovered status

abbrev pub Settled : RecoveryStatus → Option ℕ → List (ℕ × PaymentRow) → Type 0
Settled status none payments = Unit
Settled status (some id) payments = Agrees status (lookup ⦃e = nat_key⦄ id payments)

update_payment-agrees :
    (event : Text) (as_of : ℕ) (payment : PaymentRow) (status : RecoveryStatus)
    → status_for_event event ≡ some status
    → is_paid (update_payment event as_of payment).payment_status ≡ is_recovered status
unfolding status_for_event update_payment is_capture is_stop is_event
update_payment-agrees event as_of payment status h = ground arith

change-Settled :
    (payment_id : Option ℕ) (payments : List (ℕ × PaymentRow)) (status : RecoveryStatus)
    (event : Text) (as_of : ℕ)
    → status_for_event event ≡ some status
    → Settled status payment_id (change (update_payment event as_of) payment_id payments)
change-Settled none payments status event as_of h = tt
change-Settled (some p) payments status event as_of h =
    elim (Option-cases (lookup ⦃e = nat_key⦄ p payments)) [
      | inl f ↦ rw (change, f, f) tt
      | inr (payment, f) ↦
          rw
            (
              change,
              f,
              lookup-insert_self ⦃e = nat_key⦄ p (update_payment event as_of payment) payments,
            )
            (update_payment-agrees event as_of payment status h)
    ]

-- An event that writes a status is a supported one. It writes the status into its case, and the moment
-- if the status ends the case, leaves every other case, and the payment of the case, if there is one,
-- is recovered exactly if the case is.
pub apply_recovery_status-writes :
    (db after : Tables) (id other : ℕ) (row : CaseRow) (event : Text) (as_of : ℕ)
    (status : RecoveryStatus)
    → lookup ⦃e = nat_key⦄ id db.cases ≡ some row
    → apply_recovery_status (some db) id event as_of ≡ (some status, some after)
    → (other == id) ≡ false
    → Written id status as_of after
      × (lookup ⦃e = nat_key⦄ other after.cases ≡ lookup ⦃e = nat_key⦄ other db.cases)
      × Settled status row.payment_id after.payments
      × (is_supported event ≡ true)
unfolding apply_recovery_status write_status
apply_recovery_status-writes db after id other row event as_of status found h ne =
    elim (Option-cases (status_for_event event)) [
      | inl e ↦ let k = (rw (apply_recovery_status, found, e) at h) in cc
      | inr (written, e) ↦
          let k : (some written, some (write_status db id row written event as_of))
              ≡ (some status, some after) =
            rw (apply_recovery_status, found, e) at h in
          let same : written ≡ status = some-injective _ _ (ap (λ p. p.0) k) in
          let into : write_status db id row written event as_of ≡ after =
            some-injective _ _ (ap (λ p. p.1) k) in
          rw⁻¹ (into, same)
            (
              write_status-Written db id row written event as_of,
              write_status-others db id other row written event as_of ne,
              change-Settled row.payment_id db.payments written event as_of e,
              sym (status_for_event-supported event) ∙ ap is_some e,
            )
    ]

update_newest-quiet :
    (found : Option ActionRecord) (display : Display) (as_of : ℕ) (w : World)
    → ((update_newest found display as_of w).1.calls ≡ w.calls)
      × ((update_newest found display as_of w).1.audits ≡ w.audits)
unfolding update_newest persist_status
update_newest-quiet none display as_of w = (refl, refl)
update_newest-quiet (some row) display as_of w = (refl, refl)

-- What the orchestrator does with a webhook calls nothing outside, and adds exactly one event to the
-- audit log, a replay or not, whether the case has a row or not.
pub apply_provider_webhook-audits :
    (created_at : ℕ → ℕ) (case_id : ℕ) (event : Text) (as_of : ℕ) (again : Bool) (r : Recovery)
    → (let after = (apply_provider_webhook created_at case_id event as_of again r).1 in
        (after.world.calls ≡ r.world.calls)
        × (length after.world.audits ≡ length r.world.audits + 1))
unfolding apply_provider_webhook
apply_provider_webhook-audits created_at case_id event as_of true r =
    (refl, length-append r.world.audits _)
apply_provider_webhook-audits created_at case_id event as_of false r =
    let found = newest created_at case_id r.world.actions in
    let (c, a) = update_newest-quiet found (display_for event) as_of r.world in
    (
      c,
      length-append (update_newest found (display_for event) as_of r.world).1.audits _
          ∙ ap (λ l. length l + 1) a,
    )
