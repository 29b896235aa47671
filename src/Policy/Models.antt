-- ===== src/Policy/Models.antt =====
-- services/src/services/policy/models.py and constants.py: snapshots, rule results, decisions.
-- An id is a number. A moment is a number of microseconds since `datetime.min` in UTC, a date is a
-- number of days, a wall clock reading is a number of microseconds without a zone.
-- A message is kept as its template with the values that the f-string puts in.
use Prim.Native.String.{String}
use recovery_pilot_ai.Base.{ℕ, ◌*◌, Bool, Option, none, some, List, [], ◌∷◌, or_else}
use recovery_pilot_ai.Enums.{
  CustomerSegment, ConsentStatus, PaymentStatus, MandateStatus, SubscriptionStatus,
  RecoveryActionType, ExecutionStatus, PromiseStatus, DiagnosisCategory,
}

abbrev pub minute : ℕ
minute = 60_000_000

abbrev pub hour : ℕ
hour = 3_600_000_000

abbrev pub day : ℕ
day = 86_400_000_000

-- A named time zone: the wall clock at a moment, and the moment of a wall clock reading.
pub record Zone : Type 0 where
  pub local : ℕ → ℕ
  pub instant : ℕ → ℕ

abbrev pub contact_window_start_hour : ℕ
contact_window_start_hour = 8

abbrev pub contact_window_end_hour : ℕ
contact_window_end_hour = 19

abbrev pub max_retries_in_window : ℕ
max_retries_in_window = 3

abbrev pub retry_window : ℕ
retry_window = 7 * day

abbrev pub min_retry_gap : ℕ
min_retry_gap = 24 * hour

abbrev pub high_value_threshold_paise : ℕ
high_value_threshold_paise = 149_900

-- Scores are held in hundredths: the code rounds them to two places.
abbrev pub high_value_priority_boost : ℕ
high_value_priority_boost = 1500

abbrev pub broken_promise_priority_boost : ℕ
broken_promise_priority_boost = 1000

-- The channel names of the policy and of the planner.
pub data Channel : Type 0 where
  whatsapp sms voice email upi_payment_link card_update_link dashboard_notification : Channel

-- `CHANNELS`
abbrev pub channels : List Channel
channels = Channel.whatsapp ∷ Channel.sms ∷ Channel.voice ∷ Channel.email ∷ []

-- The names in `POLICY_PRECEDENCE`, in its order, and the name of a decision that no rule leads.
pub data PolicyName : Type 0 where
  already_paid chargeback consent mandate promise_to_pay retry_cooldown : PolicyName
  outage dnd_contact churn_protection high_value default_allow : PolicyName

pub data PolicyDecision : Type 0 where
  allow wait deny stop escalate : PolicyDecision

pub data RuleVerdict : Type 0 where
  pass fail wait stop escalate : RuleVerdict

pub data Reason : Type 0 where
  no_blocking_condition paid_after_failure dispute_active : Reason
  consent_revoked consent_pending consent_granted_for_all : Reason
  outreach_restricted : List Channel → Reason
  mandate_revoked mandate_expired : Reason
  promise_fulfilled promise_active promise_broken : ℕ → Reason
  retry_cap_reached cooldown_active : ℕ → Reason
  rail_timeout : DiagnosisCategory → Reason
  outside_contact_window : Zone → ℕ → Reason
  customer_cancelled hardship high_value_customer all_checks_passed : Reason

pub record CustomerPolicySnapshot : Type 0 where
  pub id : ℕ
  pub segment : CustomerSegment
  pub consent_status : ConsentStatus
  pub consent_whatsapp : Bool
  pub consent_sms : Bool
  pub consent_voice : Bool
  pub consent_email : Bool
  pub hardship : Bool
  pub timezone : Zone

pub record PaymentPolicySnapshot : Type 0 where
  pub id : ℕ
  pub amount : ℕ
  pub status : PaymentStatus
  pub created_at : ℕ
  pub attempt_number : ℕ

pub record SubscriptionPolicySnapshot : Type 0 where
  pub id : ℕ
  pub mandate_status : MandateStatus
  pub subscription_status : SubscriptionStatus

pub record RecoveryActionSnapshot : Type 0 where
  pub action_type : RecoveryActionType
  pub execution_status : ExecutionStatus
  pub scheduled_time : Option ℕ
  pub executed_time : Option ℕ
  pub created_at : ℕ
  pub retry_number : ℕ

-- `self.executed_time or self.scheduled_time or self.created_at`
abbrev pub event_time : RecoveryActionSnapshot → ℕ
event_time a = elim (or_else a.executed_time a.scheduled_time) [ none ↦ a.created_at | some t ↦ t ]

pub record PromisePolicySnapshot : Type 0 where
  pub status : PromiseStatus
  pub promised_date : ℕ
  pub promised_amount : ℕ

-- The fields of `DiagnosisResult` that the policy and the planner read. `evidence_codes` are the
-- codes of `evidence_items`, `already_paid_after_failure` the entry of `features`.
pub record DiagnosisResult : Type 0 where
  pub diagnosis : DiagnosisCategory
  pub priority_score : ℕ
  pub evidence_codes : List String
  pub triggered_rules : List String
  pub recovery_case_id : Option ℕ
  pub payment_id : Option ℕ
  pub already_paid_after_failure : Bool

pub record PolicyContext : Type 0 where
  pub as_of : ℕ
  pub diagnosis : DiagnosisResult
  pub customer : CustomerPolicySnapshot
  pub payment : PaymentPolicySnapshot
  pub subscription : Option SubscriptionPolicySnapshot
  pub recovery_actions : List RecoveryActionSnapshot
  pub promises : List PromisePolicySnapshot
  pub recovery_case_id : Option ℕ

pub record PolicyRuleResult : Type 0 where
  pub policy_name : PolicyName
  pub verdict : RuleVerdict
  pub reason : Reason
  pub evidence_codes : List String
  pub cooldown_until : Option ℕ
  pub allowed_channels : Option (List Channel)
  pub blocked_channels : Option (List Channel)
  pub manual_review_required : Bool
  pub priority_boost : ℕ
  pub silent_retry_allowed : Bool

pub record EvaluatedRule : Type 0 where
  pub policy_name : PolicyName
  pub result : RuleVerdict
  pub reason : Reason

-- `reason` lists the messages that the code joins by spaces.
pub record PolicyDecisionResult : Type 0 where
  pub policy_name : PolicyName
  pub decision : PolicyDecision
  pub reason : List Reason
  pub evidence_codes : List String
  pub priority_score : ℕ
  pub decision_priority : ℕ
  pub evaluated_at : ℕ
  pub cooldown_until : Option ℕ
  pub allowed_channels : List Channel
  pub blocked_channels : List Channel
  pub manual_review_required : Bool
  pub triggered_policies : List PolicyName
  pub failed_policies : List PolicyName
  pub evaluated_rules : List EvaluatedRule
  pub silent_retry_allowed : Bool
  pub recovery_case_id : Option ℕ
  pub payment_id : ℕ
  pub diagnosis : DiagnosisCategory
