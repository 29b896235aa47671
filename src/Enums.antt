-- ===== src/Enums.antt =====
-- shared/src/shared/enums.py, and the category enum of services/diagnosis/models.py.
-- Each enum is a data type with the source's members.
use recovery_pilot_ai.Base.{Bool, true, false}

pub data PaymentStatus : Type 0 where
  pending authorized captured failed refunded cancelled at_risk recovered : PaymentStatus

pub data FailureReason : Type 0 where
  insufficient_funds bank_timeout upi_failure card_expired mandate_revoked : FailureReason
  customer_cancelled dispute already_paid unknown : FailureReason

pub data RecoveryStatus : Type 0 where
  open_case diagnosed waiting_retry waiting_promise recovered stopped escalated closed :
      RecoveryStatus

pub data RecoveryActionType : Type 0 where
  retry_payment generate_payment_link switch_payment_method wait_for_payday : RecoveryActionType
  promise_to_pay stop_recovery escalate_to_agent no_action : RecoveryActionType

pub data CustomerSegment : Type 0 where
  new active loyal at_risk high_value churn_risk : CustomerSegment

pub data MandateStatus : Type 0 where
  pending active paused revoked expired : MandateStatus

pub data SubscriptionStatus : Type 0 where
  active paused past_due cancelled completed : SubscriptionStatus

pub data ConsentStatus : Type 0 where
  pending granted withdrawn : ConsentStatus

pub data ExecutionStatus : Type 0 where
  scheduled running succeeded failed skipped cancelled : ExecutionStatus

pub data PromiseStatus : Type 0 where
  open_promise fulfilled broken cancelled : PromiseStatus

pub data PaymentMethod : Type 0 where
  upi card netbanking wallet emi mandate : PaymentMethod

pub data DiagnosisCategory : Type 0 where
  insufficient_funds bank_timeout upi_timeout card_expired : DiagnosisCategory
  authentication_failed mandate_revoked customer_cancelled : DiagnosisCategory
  duplicate_payment chargeback_active already_paid unknown : DiagnosisCategory

-- `diagnosis in {BANK_TIMEOUT, UPI_TIMEOUT}`
abbrev pub is_timeout : DiagnosisCategory → Bool
is_timeout DiagnosisCategory.bank_timeout = true
is_timeout DiagnosisCategory.upi_timeout = true
is_timeout _ = false
