-- ===== src/Diagnosis/Models.antt =====
-- services/src/services/diagnosis/models.py and constants.py. Messages are left out. Weights are held
-- in ten-thousandths, confidence too; priorities in hundredths, as the code rounds them.
use recovery_pilot_ai.Policy.Models.{Zone}
use recovery_pilot_ai.Communications.Models.{Text}
use recovery_pilot_ai.Enums.{
  CustomerSegment, DiagnosisCategory, FailureReason, RecoveryActionType, PaymentStatus,
  MandateStatus, PromiseStatus, SubscriptionStatus, PaymentMethod,
}
use recovery_pilot_ai.Base.{
  ℕ, List, none, ◌*◌, Option, Bool, ◌∷◌, leb, ◌+◌, [], ◌==◌, false, some, ◌/◌, ◌&&◌, ltb,
}
use Prim.Native.String.{String}

pub data PriorityBucket : Type 0 where
  high medium low : PriorityBucket

pub data SubscriptionTier : Type 0 where
  premium elite pro starter : SubscriptionTier

pub record PaymentSnapshot : Type 0 where
  pub id : ℕ
  pub amount : ℕ
  pub status : PaymentStatus
  pub method : Option PaymentMethod
  pub failure_reason : Option FailureReason
  pub attempt_number : ℕ
  pub created_at : ℕ
  pub paid_at : Option ℕ
  pub due_date : Option ℕ
  pub idempotency_key : Option Text
  pub subscription_id : Option ℕ

pub record CustomerSnapshot : Type 0 where
  pub segment : CustomerSegment
  pub salary_dependent : Bool

pub record SubscriptionSnapshot : Type 0 where
  pub name : Text
  pub billing_amount : ℕ
  pub mandate_status : MandateStatus
  pub subscription_status : SubscriptionStatus

pub record OutageWindow : Type 0 where
  pub rail : Text
  pub started_at : ℕ
  pub ended_at : ℕ

unfoldable pub contains_moment : OutageWindow → ℕ → Bool
contains_moment outage moment = leb outage.started_at moment && ltb moment outage.ended_at

pub record DiagnosisContext : Type 0 where
  pub as_of : ℕ
  pub timezone : Zone
  pub payment : PaymentSnapshot
  pub customer : CustomerSnapshot
  pub subscription : Option SubscriptionSnapshot
  pub customer_payments : List PaymentSnapshot
  pub outages : List OutageWindow
  pub promises : List PromiseStatus
  pub recovery_action_count : ℕ

-- The features that rules, scorers and the result read.
pub record DiagnosisFeatures : Type 0 where
  pub days_since_failure : ℕ
  pub days_until_payday : ℕ
  pub days_overdue : ℕ
  pub retry_count : ℕ
  pub payment_method : Option PaymentMethod
  pub customer_segment : CustomerSegment
  pub mandate_status : Option MandateStatus
  pub subscription_tier : SubscriptionTier
  pub payment_amount : ℕ
  pub outage_detected : Bool
  pub outage_rail : Option Text
  pub previous_success_rate : ℕ
  pub previous_success_count : ℕ
  pub previous_attempt_count : ℕ
  pub promise_pending : Bool
  pub weekend_payment : Bool
  pub festival_period : Bool
  pub salary_dependent : Bool
  pub calendar_day : ℕ
  pub pre_payday_window : Bool
  pub payday_window : Bool
  pub recorded_failure_reason : Option FailureReason
  pub already_paid_after_failure : Bool
  pub duplicate_captured : Bool
  pub dispute_signal : Bool
  pub mandate_revoked : Bool
  pub subscription_cancelled : Bool
  pub card_method : Bool
  pub upi_method : Bool

pub record EvidenceItem : Type 0 where
  pub code : String
  pub weight : ℕ

pub record RuleHit : Type 0 where
  pub rule_id : String
  pub diagnosis : DiagnosisCategory
  pub weight : ℕ
  pub evidence_items : List EvidenceItem

pub record ConfidenceContributor : Type 0 where
  pub code : String
  pub weight : ℕ
  pub applied_weight : ℕ

-- The result, without the fields that only describe the engine.
pub record DiagnosisReport : Type 0 where
  pub diagnosis : DiagnosisCategory
  pub confidence : ℕ
  pub priority_score : ℕ
  pub priority_bucket : PriorityBucket
  pub evidence_items : List EvidenceItem
  pub triggered_rules : List String
  pub confidence_contributors : List ConfidenceContributor
  pub recommended_action : RecoveryActionType
  pub payment_id : ℕ

-- `DIAGNOSIS_PRECEDENCE`
abbrev pub diagnosis_precedence : List DiagnosisCategory
diagnosis_precedence =
    DiagnosisCategory.already_paid ∷ DiagnosisCategory.duplicate_payment
    ∷ DiagnosisCategory.chargeback_active ∷ DiagnosisCategory.customer_cancelled
    ∷ DiagnosisCategory.mandate_revoked ∷ DiagnosisCategory.card_expired
    ∷ DiagnosisCategory.bank_timeout ∷ DiagnosisCategory.upi_timeout
    ∷ DiagnosisCategory.authentication_failed ∷ DiagnosisCategory.insufficient_funds
    ∷ DiagnosisCategory.unknown ∷ []

-- Position of a category in its enum.
abbrev pub category_code : DiagnosisCategory → ℕ
category_code DiagnosisCategory.insufficient_funds = 0
category_code DiagnosisCategory.bank_timeout = 1
category_code DiagnosisCategory.upi_timeout = 2
category_code DiagnosisCategory.card_expired = 3
category_code DiagnosisCategory.authentication_failed = 4
category_code DiagnosisCategory.mandate_revoked = 5
category_code DiagnosisCategory.customer_cancelled = 6
category_code DiagnosisCategory.duplicate_payment = 7
category_code DiagnosisCategory.chargeback_active = 8
category_code DiagnosisCategory.already_paid = 9
category_code DiagnosisCategory.unknown = 10

abbrev pub same_category : DiagnosisCategory → DiagnosisCategory → Bool
same_category c d = category_code c == category_code d

-- `RECOMMENDED_ACTION`
unfoldable pub recommended_action_for : DiagnosisCategory → RecoveryActionType
recommended_action_for DiagnosisCategory.already_paid = RecoveryActionType.no_action
recommended_action_for DiagnosisCategory.duplicate_payment = RecoveryActionType.no_action
recommended_action_for DiagnosisCategory.chargeback_active = RecoveryActionType.escalate_to_agent
recommended_action_for DiagnosisCategory.customer_cancelled = RecoveryActionType.stop_recovery
recommended_action_for DiagnosisCategory.mandate_revoked = RecoveryActionType.stop_recovery
recommended_action_for DiagnosisCategory.card_expired = RecoveryActionType.switch_payment_method
recommended_action_for DiagnosisCategory.bank_timeout = RecoveryActionType.retry_payment
recommended_action_for DiagnosisCategory.upi_timeout = RecoveryActionType.retry_payment
recommended_action_for DiagnosisCategory.authentication_failed =
    RecoveryActionType.generate_payment_link
recommended_action_for DiagnosisCategory.insufficient_funds = RecoveryActionType.wait_for_payday
recommended_action_for DiagnosisCategory.unknown = RecoveryActionType.escalate_to_agent

-- `round`, of a fraction to the nearest number. No tie comes up in the allocation of weights; where
-- else there is one, floats may fall on either side, and the model takes the upper.
unfoldable pub round_div : ℕ → ℕ → ℕ
round_div a b = (2 * a + b) / (2 * b)

-- Position of a reason in its enum.
abbrev pub reason_code : FailureReason → ℕ
reason_code FailureReason.insufficient_funds = 0
reason_code FailureReason.bank_timeout = 1
reason_code FailureReason.upi_failure = 2
reason_code FailureReason.card_expired = 3
reason_code FailureReason.mandate_revoked = 4
reason_code FailureReason.customer_cancelled = 5
reason_code FailureReason.dispute = 6
reason_code FailureReason.already_paid = 7
reason_code FailureReason.unknown = 8

-- `recorded_failure_reason == reason`
abbrev pub is_reason : FailureReason → Option FailureReason → Bool
is_reason reason none = false
is_reason reason (some recorded) = reason_code reason == reason_code recorded
