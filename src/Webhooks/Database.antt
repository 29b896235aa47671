-- ===== src/Webhooks/Database.antt =====
-- services/src/services/razorpay_webhooks/resolve.py and apply.py: the case of an event, and what the
-- event does to the case and its payment.
use recovery_pilot_ai.Base.Keys.{nat_key}
use recovery_pilot_ai.Base.Dict.{insert, lookup}
use recovery_pilot_ai.Communications.Models.{Text, text_key}
use recovery_pilot_ai.Webhooks.Mapping.{
  case_id_from_notes, payment_provider_id, order_provider_id, payment_link_id,
  subscription_provider_id,
}
use recovery_pilot_ai.Enums.{RecoveryStatus, PaymentStatus}
use recovery_pilot_ai.Webhooks.Events.{
  is_capture, is_stop, is_event, event_payment_failed, event_payment_authorized,
}
use recovery_pilot_ai.Webhooks.Json.{Outside, Members}
use recovery_pilot_ai.Base.{
  Bool, Option, ℕ, List, and_then, some, true, false, if◌then◌else◌, ◌∷◌, none, [], ◌==◌, or_else,
  map_option,
}

pub record CaseRow : Type 0 where
  pub recovery_status : RecoveryStatus
  pub recovery_completed_at : Option ℕ
  pub payment_id : Option ℕ

pub record PaymentRow : Type 0 where
  pub razorpay_payment_id : Option Text
  pub razorpay_order_id : Option Text
  pub payment_status : PaymentStatus
  pub paid_at : Option ℕ

-- The columns of `recovery_actions` by which a case is found.
pub record ActionLink : Type 0 where
  pub recovery_case_id : ℕ
  pub razorpay_payment_link : Option Text
  pub razorpay_resource_id : Option Text

-- The tables, in the order in which a query returns the rows.
pub record Tables : Type 0 where
  pub cases : List (ℕ × CaseRow)
  pub payments : List (ℕ × PaymentRow)
  pub links : List ActionLink

abbrev pub first_match {ℓ} : {A : Type ℓ} → (A → Bool) → List A → Option A
first_match p [] = none
first_match p (x ∷ xs) = let rest = first_match p xs in if p x then some x else rest

abbrev pub is_text : Text → Option Text → Bool
is_text token none = false
is_text token (some t) = text_key.same t token

abbrev pub is_id : ℕ → Option ℕ → Bool
is_id id none = false
is_id id (some i) = id == i

unfoldable pub case_for_payment : Tables → Option (ℕ × PaymentRow) → Option ℕ
case_for_payment db none = none
case_for_payment db (some (id, row)) =
    map_option (λ c. c.0) (first_match (λ c. is_id id c.1.payment_id) db.cases)

abbrev pub like_link : Outside → Text → Option Text → Bool
like_link o token none = false
like_link o token (some link) = o.like token link

-- The loop over the tokens.
unfoldable pub case_for_tokens : Outside → Tables → List Text → Option ℕ
case_for_tokens o db [] = none
case_for_tokens o db (token ∷ tokens) =
    let linked = first_match (λ a. like_link o token a.razorpay_payment_link) db.links in
    let matched = first_match (λ a. is_text token a.razorpay_resource_id) db.links in
    or_else (map_option (λ a. a.recovery_case_id) (or_else linked matched))
      (case_for_tokens o db tokens)

-- `[token for token in (…) if token]`
abbrev pub tokens_of : List (Option Text) → List Text
tokens_of [] = []
tokens_of (none ∷ rest) = tokens_of rest
tokens_of (some [] ∷ rest) = tokens_of rest
tokens_of (some (c ∷ cs) ∷ rest) = (c ∷ cs) ∷ tokens_of rest

-- The payment whose id the body gives, if the text is not empty.
abbrev pub payment_for : (PaymentRow → Option Text) → Tables → Option Text → Option (ℕ × PaymentRow)
payment_for column db (some (c ∷ cs)) = first_match (λ p. is_text (c ∷ cs) (column p.1)) db.payments
payment_for column db _ = none

-- The case that the notes name, if the tables have it.
abbrev pub known_case : Tables → Option ℕ → Option ℕ
known_case db from_notes =
    and_then from_notes (λ id. map_option (λ c. id) (lookup ⦃e = nat_key⦄ id db.cases))

unfoldable pub resolve_recovery_case_id : Outside → Option Tables → Members → Option ℕ
unfolding case_id_from_notes payment_provider_id order_provider_id payment_link_id
    subscription_provider_id case_for_payment case_for_tokens
resolve_recovery_case_id o none body = case_id_from_notes o body
resolve_recovery_case_id o (some db) body =
    let pay_id = payment_provider_id o body in
    let order_id = order_provider_id o body in
    let by_payment = case_for_payment db (payment_for (λ p. p.razorpay_payment_id) db pay_id) in
    let by_order = case_for_payment db (payment_for (λ p. p.razorpay_order_id) db order_id) in
    let tokens =
      tokens_of
        (pay_id ∷ order_id ∷ payment_link_id o body ∷ subscription_provider_id o body ∷ []) in
    or_else (known_case db (case_id_from_notes o body))
      (or_else by_payment (or_else by_order (case_for_tokens o db tokens)))

unfoldable pub status_for_event : Text → Option RecoveryStatus
unfolding is_capture is_stop is_event
status_for_event event =
    if is_capture event
    then some RecoveryStatus.recovered
    else if is_stop event
    then some RecoveryStatus.stopped
    else if is_event event_payment_failed event
    then some RecoveryStatus.waiting_retry
    else if is_event event_payment_authorized event
    then some RecoveryStatus.waiting_retry
    else none

-- `status in {RECOVERED, STOPPED, CLOSED}`
abbrev pub completes : RecoveryStatus → Bool
completes RecoveryStatus.recovered = true
completes RecoveryStatus.stopped = true
completes RecoveryStatus.closed = true
completes _ = false

unfoldable pub update_payment : Text → ℕ → PaymentRow → PaymentRow
unfolding is_capture is_stop is_event
update_payment event as_of row =
    if is_capture event
    then record row { payment_status = PaymentStatus.recovered; paid_at = some as_of }
    else if is_event event_payment_failed event
    then record row { payment_status = PaymentStatus.failed }
    else if is_event event_payment_authorized event
    then record row { payment_status = PaymentStatus.authorized }
    else if is_stop event
    then record row { payment_status = PaymentStatus.cancelled }
    else row

unfoldable pub update_case : RecoveryStatus → ℕ → CaseRow → CaseRow
update_case status as_of row = record row {
  recovery_status = status;
  recovery_completed_at = if completes status then some as_of else row.recovery_completed_at;
}

-- The update of the row under an id, if there is one.
abbrev pub change {ℓ} : {A : Type ℓ} → (A → A) → Option ℕ → List (ℕ × A) → List (ℕ × A)
change f none rows = rows
change f (some id) rows = elim (lookup ⦃e = nat_key⦄ id rows) [
  | none ↦ rows
  | some row ↦ insert ⦃e = nat_key⦄ id (f row) rows
]

-- The writes of `apply_recovery_status` once case and status are there.
unfoldable pub write_status : Tables → ℕ → CaseRow → RecoveryStatus → Text → ℕ → Tables
unfolding update_case update_payment
write_status db id row status event as_of = record db {
  cases = insert ⦃e = nat_key⦄ id (update_case status as_of row) db.cases;
  payments = change (update_payment event as_of) row.payment_id db.payments;
}

unfoldable pub apply_recovery_status :
    Option Tables → ℕ → Text → ℕ → Option RecoveryStatus × Option Tables
unfolding status_for_event write_status
apply_recovery_status none id event as_of = (status_for_event event, none)
apply_recovery_status (some db) id event as_of = elim (lookup ⦃e = nat_key⦄ id db.cases) [
  | none ↦ (none, some db)
  | some row ↦ elim (status_for_event event) [
    | none ↦ (none, some db)
    | some status ↦ (some status, some (write_status db id row status event as_of))
  ]
]
