-- ===== src/Diagnosis/Scorer.antt =====
-- services/src/services/diagnosis/scorer.py: confidence and priority. The sum of the confidence is held in
-- millionths, that of the priority in ten-thousandths, so that nothing is rounded before the end.
use Prim.Native.String.{String}
use recovery_pilot_ai.Enums.{
  CustomerSegment, DiagnosisCategory, FailureReason, MandateStatus, is_timeout,
}
use recovery_pilot_ai.Base.{
  Bool, Option, ℕ, List, ◌+◌, ◌*◌, true, max, false, if◌then◌else◌, ◌∷◌, some, min, ◌&&◌, sum_of,
  ◌++◌, leb, map, ltb, ◌||◌, [], none,
}
use recovery_pilot_ai.Diagnosis.Models.{
  DiagnosisFeatures, SubscriptionTier, round_div, RuleHit, EvidenceItem, PriorityBucket,
  ConfidenceContributor, same_category, is_reason,
}

-- `_REASON_TO_DIAGNOSIS`
abbrev pub diagnosis_for : FailureReason → DiagnosisCategory
diagnosis_for FailureReason.insufficient_funds = DiagnosisCategory.insufficient_funds
diagnosis_for FailureReason.bank_timeout = DiagnosisCategory.bank_timeout
diagnosis_for FailureReason.upi_failure = DiagnosisCategory.upi_timeout
diagnosis_for FailureReason.card_expired = DiagnosisCategory.card_expired
diagnosis_for FailureReason.mandate_revoked = DiagnosisCategory.mandate_revoked
diagnosis_for FailureReason.customer_cancelled = DiagnosisCategory.customer_cancelled
diagnosis_for FailureReason.dispute = DiagnosisCategory.chargeback_active
diagnosis_for FailureReason.already_paid = DiagnosisCategory.already_paid
diagnosis_for FailureReason.unknown = DiagnosisCategory.unknown

abbrev pub is_authentication : DiagnosisCategory → Bool
is_authentication DiagnosisCategory.authentication_failed = true
is_authentication _ = false

abbrev pub reason_matches : Option FailureReason → DiagnosisCategory → Bool
reason_matches none diagnosis = false
reason_matches (some reason) diagnosis =
    same_category (diagnosis_for reason) diagnosis
    || (is_reason FailureReason.upi_failure (some reason) && is_authentication diagnosis)

unfoldable pub recorded_reason_matches : DiagnosisFeatures → DiagnosisCategory → Bool
recorded_reason_matches f diagnosis = reason_matches f.recorded_failure_reason diagnosis

unfoldable pub evidence_items_for_hit : RuleHit → List EvidenceItem
evidence_items_for_hit h = elim (h.evidence_items) [
  | [] ↦ record { code = h.rule_id; weight = h.weight } ∷ []
  | i ∷ is ↦ i ∷ is
]

-- `RULE_EVIDENCE_SCALE`, in hundredths.
abbrev pub rule_evidence_scale : ℕ
rule_evidence_scale = 35

abbrev pub contributor : String → ℕ → ConfidenceContributor
contributor code weight = record { code = code; weight = weight; applied_weight = weight }

-- A term of the sum, in millionths, and its entry in the list.
abbrev pub Term : Type 0
Term = ℕ × ConfidenceContributor

unfoldable pub item_term : EvidenceItem → Term
unfolding round_div
item_term i = (
  i.weight * rule_evidence_scale,
  record {
    code = i.code;
    weight = i.weight;
    applied_weight = round_div (i.weight * rule_evidence_scale) 100;
  },
)

abbrev pub term : String → ℕ → Term
term code weight = (weight * 100, contributor code weight)

abbrev pub term_if : Bool → Term → List Term → List Term
term_if b t rest = if b then t ∷ rest else rest

-- The items of the hits that have the diagnosis.
unfoldable pub hit_terms : DiagnosisCategory → List RuleHit → List Term
unfolding item_term evidence_items_for_hit
hit_terms diagnosis [] = []
hit_terms diagnosis (h ∷ hs) =
    let rest = hit_terms diagnosis hs in
    if same_category h.diagnosis diagnosis
    then map item_term (evidence_items_for_hit h) ++ rest
    else rest

abbrev pub is_nsf : DiagnosisCategory → Bool
is_nsf DiagnosisCategory.insufficient_funds = true
is_nsf _ = false

abbrev pub is_dead : Option MandateStatus → Bool
is_dead (some MandateStatus.revoked) = true
is_dead (some MandateStatus.expired) = true
is_dead _ = false

abbrev pub is_mandate_diagnosis : DiagnosisCategory → Bool
is_mandate_diagnosis DiagnosisCategory.mandate_revoked = true
is_mandate_diagnosis DiagnosisCategory.card_expired = true
is_mandate_diagnosis _ = false

-- The corroborating signals, in the order of the code.
unfoldable pub signal_terms : DiagnosisFeatures → DiagnosisCategory → List Term
unfolding recorded_reason_matches
signal_terms f diagnosis =
    term_if (recorded_reason_matches f diagnosis) (term "RECORDED_FAILURE_REASON" 2800) (
      term_if (f.outage_detected && is_timeout diagnosis) (term "OUTAGE_MATCH" 2200) (
        term_if (leb 5000 f.previous_success_rate && is_nsf diagnosis)
          (term "CUSTOMER_HISTORY" 1200)
          (term_if (ltb 0 f.retry_count && (is_authentication diagnosis || is_timeout diagnosis))
            (term "PAYMENT_RETRIES" 800)
            (term_if (is_dead f.mandate_status && is_mandate_diagnosis diagnosis)
              (term "MANDATE_STATE" 1000)
              (term_if (f.salary_dependent && is_nsf diagnosis) (term "SALARY_CYCLE" 1000) [])))))

unfoldable pub confidence_terms : DiagnosisFeatures → DiagnosisCategory → List RuleHit → List Term
unfolding hit_terms signal_terms
confidence_terms f diagnosis hits =
    term "BASE" 2000 ∷ (hit_terms diagnosis hits ++ signal_terms f diagnosis)

abbrev pub clamp : ℕ → ℕ → ℕ → ℕ
clamp value lo hi = max lo (min hi value)

unfoldable pub score_confidence :
    DiagnosisFeatures → DiagnosisCategory → List RuleHit → ℕ × List ConfidenceContributor
unfolding confidence_terms round_div
score_confidence f diagnosis hits =
    let terms = confidence_terms f diagnosis hits in
    (round_div (clamp (sum_of (λ t. t.0) terms) 50000 990000) 100, map (λ t. t.1) terms)

unfoldable pub priority_bucket : ℕ → PriorityBucket
priority_bucket score =
    if leb 7000 score
    then PriorityBucket.high
    else if leb 4000 score
    then PriorityBucket.medium
    else PriorityBucket.low

-- `SEGMENT_PRIORITY_POINTS`, in hundredths.
unfoldable pub segment_points : CustomerSegment → ℕ
segment_points CustomerSegment.high_value = 2500
segment_points CustomerSegment.loyal = 1800
segment_points CustomerSegment.at_risk = 1600
segment_points CustomerSegment.active = 1200
segment_points CustomerSegment.churn_risk = 1000
segment_points CustomerSegment.new = 800

-- `TIER_PRIORITY_POINTS`, in hundredths.
unfoldable pub tier_points : SubscriptionTier → ℕ
tier_points SubscriptionTier.premium = 1000
tier_points SubscriptionTier.elite = 800
tier_points SubscriptionTier.pro = 500
tier_points SubscriptionTier.starter = 200

-- The points besides those of the amount, in hundredths.
unfoldable pub case_points : DiagnosisFeatures → ℕ
unfolding segment_points tier_points
case_points f =
    segment_points f.customer_segment
    + min 2000 (f.days_overdue * 200)
    + min 1000 (f.retry_count * 300)
    + tier_points f.subscription_tier
    + (if f.promise_pending then 800 else 0)
    + (if leb 4000 f.previous_success_rate then 500 else 0)

-- Five points for each 50,000 paise are a ten-thousandth for each.
unfoldable pub score_priority : DiagnosisFeatures → ℕ × PriorityBucket
unfolding case_points round_div priority_bucket
score_priority f =
    let raw = min 300000 f.payment_amount + case_points f * 100 in
    let score = round_div (clamp raw 0 1000000) 100 in (score, priority_bucket score)
