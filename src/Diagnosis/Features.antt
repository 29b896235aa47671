-- ===== src/Diagnosis/Features.antt =====
-- services/src/services/diagnosis/features.py: the features of a failed payment.
use recovery_pilot_ai.Policy.Models.{hour}
use recovery_pilot_ai.Communications.Models.{lower, Text, same_text}
use recovery_pilot_ai.Diagnosis.Models.{
  PaymentSnapshot, contains_moment, SubscriptionTier, OutageWindow, DiagnosisContext,
  DiagnosisFeatures, is_reason,
}
use recovery_pilot_ai.Diagnosis.Calendar.{
  civil, local_day, days_of, weekday, festivals, is_payday, is_pre_payday,
}
use recovery_pilot_ai.Enums.{
  CustomerSegment, PromiseStatus, PaymentStatus, PaymentMethod, MandateStatus, SubscriptionStatus,
  FailureReason,
}
use recovery_pilot_ai.Base.{
  ℕ, Option, ◌-◌, List, map, suc, ◌∷◌, Bool, if◌then◌else◌, ◌||◌, [], true, some, false, ◌+◌, ◌==◌,
  leb, any, not, ◌*◌, ◌/◌, none, ◌&&◌, ltb, zero, filter, is_some, map_option, length,
}

-- `status in _SUCCESS_STATUSES`
abbrev pub is_success : PaymentStatus → Bool
is_success PaymentStatus.captured = true
is_success PaymentStatus.recovered = true
is_success PaymentStatus.authorized = true
is_success _ = false

abbrev pub is_upi : PaymentMethod → Bool
is_upi PaymentMethod.upi = true
is_upi PaymentMethod.mandate = true
is_upi _ = false

abbrev pub is_card : PaymentMethod → Bool
is_card PaymentMethod.card = true
is_card PaymentMethod.emi = true
is_card _ = false

-- "UPI"
abbrev pub rail_upi : Text
rail_upi = 85 ∷ 80 ∷ 73 ∷ []

-- "CARD"
abbrev pub rail_card : Text
rail_card = 67 ∷ 65 ∷ 82 ∷ 68 ∷ []

-- "NETBANKING"
abbrev pub rail_netbanking : Text
rail_netbanking = 78 ∷ 69 ∷ 84 ∷ 66 ∷ 65 ∷ 78 ∷ 75 ∷ 73 ∷ 78 ∷ 71 ∷ []

-- "WALLET"
abbrev rail_wallet : Text
rail_wallet = 87 ∷ 65 ∷ 76 ∷ 76 ∷ 69 ∷ 84 ∷ []

unfoldable pub rail_of : PaymentMethod → Text
rail_of PaymentMethod.upi = rail_upi
rail_of PaymentMethod.mandate = rail_upi
rail_of PaymentMethod.card = rail_card
rail_of PaymentMethod.emi = rail_card
rail_of PaymentMethod.netbanking = rail_netbanking
rail_of PaymentMethod.wallet = rail_wallet

abbrev pub upper_code : ℕ → ℕ
upper_code c = if leb 97 c && leb c 122 then c - 32 else c

-- `str.upper` on ASCII letters.
unfoldable pub upper : Text → Text
upper text = map upper_code text

-- The loop of `matching_outage`.
unfoldable pub first_outage : ℕ → Text → List OutageWindow → Option OutageWindow
unfolding contains_moment upper
first_outage moment rail [] = none
first_outage moment rail (outage ∷ outages) =
    let rest = first_outage moment rail outages in
    if contains_moment outage moment && same_text (upper outage.rail) rail
    then some outage
    else rest

unfoldable pub matching_outage : ℕ → Option PaymentMethod → List OutageWindow → Option OutageWindow
unfolding first_outage rail_of
matching_outage moment none outages = none
matching_outage moment (some method) outages = first_outage moment (rail_of method) outages

-- `needle in text`
abbrev is_prefix : Text → Text → Bool
is_prefix [] text = true
is_prefix (c ∷ cs) [] = false
is_prefix (c ∷ cs) (d ∷ ds) = c == d && is_prefix cs ds

abbrev pub has_text : Text → Text → Bool
has_text needle [] = is_prefix needle []
has_text needle (c ∷ cs) = is_prefix needle (c ∷ cs) || has_text needle cs

-- "premium", "elite", "pro" and "starter".
abbrev name_premium : Text
name_premium = 112 ∷ 114 ∷ 101 ∷ 109 ∷ 105 ∷ 117 ∷ 109 ∷ []

abbrev name_elite : Text
name_elite = 101 ∷ 108 ∷ 105 ∷ 116 ∷ 101 ∷ []

abbrev name_pro : Text
name_pro = 112 ∷ 114 ∷ 111 ∷ []

abbrev name_starter : Text
name_starter = 115 ∷ 116 ∷ 97 ∷ 114 ∷ 116 ∷ 101 ∷ 114 ∷ []

-- The branches on the amount.
abbrev pub tier_by_amount : ℕ → SubscriptionTier
tier_by_amount amount =
    if leb 249900 amount
    then SubscriptionTier.premium
    else if leb 149900 amount
    then SubscriptionTier.elite
    else if leb 99900 amount
    then SubscriptionTier.pro
    else SubscriptionTier.starter

-- A missing plan has the empty name.
unfoldable pub subscription_tier : Text → ℕ → SubscriptionTier
unfolding lower
subscription_tier plan_name billing_amount =
    let name = lower plan_name in
    if has_text name_premium name
    then SubscriptionTier.premium
    else if has_text name_elite name
    then SubscriptionTier.elite
    else if has_text name_pro name
    then SubscriptionTier.pro
    else if has_text name_starter name
    then SubscriptionTier.starter
    else tier_by_amount billing_amount

unfoldable pub days_until_payday : ℕ → ℕ
unfolding civil days_of
days_until_payday day =
    let date = civil day in
    let next =
      if date.month == 12
      then record { year = date.year + 1; month = 1; day = 1 }
      else record { year = date.year; month = date.month + 1; day = 1 } in
    if is_payday date.day then 0 else days_of next - day

abbrev pub same_id : Option ℕ → Option ℕ → Bool
same_id none none = true
same_id (some a) (some b) = a == b
same_id _ _ = false

-- `other.paid_at or other.created_at`
abbrev pub marker_of : PaymentSnapshot → ℕ
marker_of p = elim (p.paid_at) [ none ↦ p.created_at | some at ↦ at ]

-- One other payment in `already_paid_after_failure`.
abbrev pub pays_again : PaymentSnapshot → PaymentSnapshot → Bool
pays_again failed other =
    not (other.id == failed.id)
    && (ltb failed.created_at (marker_of other)
        && (is_success other.status
            && ((is_some failed.subscription_id
                  && same_id other.subscription_id failed.subscription_id)
                || other.amount == failed.amount)))

unfoldable pub already_paid_after_failure : PaymentSnapshot → List PaymentSnapshot → Bool
already_paid_after_failure failed others = any (pays_again failed) others

-- `a and b and a == b`, for keys.
abbrev pub same_key : Option Text → Option Text → Bool
same_key (some (a ∷ as')) (some bs) = same_text (a ∷ as') bs
same_key _ _ = false

-- `abs(a - b)`
abbrev pub distance : ℕ → ℕ → ℕ
distance a b = a - b + (b - a)

-- One other payment in `duplicate_captured`.
abbrev pub duplicates : PaymentSnapshot → PaymentSnapshot → Bool
duplicates failed other =
    not (other.id == failed.id)
    && (is_success other.status
        && ((same_key failed.idempotency_key other.idempotency_key
              || (other.amount == failed.amount
                  && (same_id other.due_date failed.due_date
                      || same_id other.subscription_id failed.subscription_id)))
            && leb (distance other.created_at failed.created_at) (48 * hour)))

unfoldable pub duplicate_captured : PaymentSnapshot → List PaymentSnapshot → Bool
duplicate_captured failed others = any (duplicates failed) others

abbrev pub is_dependent_segment : CustomerSegment → Bool
is_dependent_segment CustomerSegment.at_risk = true
is_dependent_segment CustomerSegment.churn_risk = true
is_dependent_segment _ = false

abbrev pub is_open : PromiseStatus → Bool
is_open PromiseStatus.open_promise = true
is_open _ = false

abbrev is_revoked : Option MandateStatus → Bool
is_revoked (some MandateStatus.revoked) = true
is_revoked _ = false

abbrev is_cancelled : Option SubscriptionStatus → Bool
is_cancelled (some SubscriptionStatus.cancelled) = true
is_cancelled _ = false

abbrev method_is : (PaymentMethod → Bool) → Option PaymentMethod → Bool
method_is p none = false
method_is p (some method) = p method

-- Ten-thousandths of `successes / prior`, zero without a prior attempt.
abbrev pub success_rate : ℕ → ℕ → ℕ
success_rate successes zero = 0
success_rate successes (suc prior) = (2 * (successes * 10000) + suc prior) / (2 * suc prior)

unfoldable pub extract_features : DiagnosisContext → DiagnosisFeatures
unfolding local_day civil weekday festivals matching_outage subscription_tier days_until_payday
    already_paid_after_failure duplicate_captured
extract_features context =
    let payment = context.payment in
    let failed_day = local_day context.timezone payment.created_at in
    let as_of_day = local_day context.timezone context.as_of in
    let others = filter (λ row. not (row.id == payment.id)) context.customer_payments in
    let prior = filter (λ row. ltb row.created_at payment.created_at) others in
    let successes = filter (λ row. is_success row.status) prior in
    let outage = matching_outage payment.created_at payment.method context.outages in
    let calendar_day = (civil failed_day).day in
    let mandate = map_option (λ s. s.mandate_status) context.subscription in
    record {
      days_since_failure = as_of_day - failed_day;
      days_until_payday = days_until_payday failed_day;
      days_overdue = as_of_day - elim (payment.due_date) [ none ↦ failed_day | some due ↦ due ];
      retry_count = payment.attempt_number - 1 + context.recovery_action_count;
      payment_method = payment.method;
      customer_segment = context.customer.segment;
      mandate_status = mandate;
      subscription_tier = elim (context.subscription) [
        | none ↦ subscription_tier [] payment.amount
        | some s ↦ subscription_tier s.name s.billing_amount
      ];
      payment_amount = payment.amount;
      outage_detected = is_some outage;
      outage_rail = map_option (λ o. o.rail) outage;
      previous_success_rate = success_rate (length successes) (length prior);
      previous_success_count = length successes;
      previous_attempt_count = length prior;
      promise_pending = any is_open context.promises;
      weekend_payment = leb 5 (weekday failed_day);
      festival_period = any (λ day. day == failed_day) festivals;
      salary_dependent =
          context.customer.salary_dependent || is_dependent_segment context.customer.segment;
      calendar_day = calendar_day;
      pre_payday_window = is_pre_payday calendar_day;
      payday_window = is_payday calendar_day;
      recorded_failure_reason = payment.failure_reason;
      already_paid_after_failure = already_paid_after_failure payment others;
      duplicate_captured = duplicate_captured payment others;
      dispute_signal = is_reason FailureReason.dispute payment.failure_reason;
      mandate_revoked = is_revoked mandate;
      subscription_cancelled =
          is_cancelled (map_option (λ s. s.subscription_status) context.subscription);
      card_method = method_is is_card payment.method;
      upi_method = method_is is_upi payment.method;
    }
