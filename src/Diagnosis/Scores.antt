-- ===== src/Diagnosis/Scores.antt =====
-- services/src/services/diagnosis/scorer.py: the ranges of confidence and priority, and how the priority
-- grows.
use recovery_pilot_ai.Enums.{DiagnosisCategory}
use recovery_pilot_ai.Base.{ℕ, ◌+◌, ◌≤◌, ◌≡◌, List, arith, refl}
use recovery_pilot_ai.Diagnosis.Scorer.{
  score_confidence, score_priority, case_points, priority_bucket,
}
use recovery_pilot_ai.Diagnosis.Models.{round_div, DiagnosisFeatures, RuleHit}

-- Whatever the evidence is, the confidence lies between 0.05 and 0.99.
pub score_confidence-range :
    (f : DiagnosisFeatures) (diagnosis : DiagnosisCategory) (hits : List RuleHit)
    → (500 ≤ (score_confidence f diagnosis hits).0) × ((score_confidence f diagnosis hits).0 ≤ 9900)
unfolding score_confidence round_div
score_confidence-range f diagnosis hits = (omega arith, omega arith)

-- The priority lies between 0 and 100, its bucket is the one of the score, and a case with a higher
-- amount, more days overdue and more retries that is alike otherwise has no lower priority.
pub score_priority-grows :
    (f : DiagnosisFeatures) (amount days retries : ℕ)
    → (let more = record f {
      payment_amount = f.payment_amount + amount;
      days_overdue = f.days_overdue + days;
      retry_count = f.retry_count + retries;
    } in
        ((score_priority f).0 ≤ (score_priority more).0)
        × ((score_priority more).0 ≤ 10000)
        × ((score_priority f).1 ≡ priority_bucket (score_priority f).0))
unfolding score_priority case_points round_div
score_priority-grows f amount days retries = (omega arith, omega arith, refl)
