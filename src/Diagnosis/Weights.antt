-- ===== src/Diagnosis/Weights.antt =====
-- services/src/services/diagnosis/rules.py: the items of the rule on insufficient funds share out its weight.
use recovery_pilot_ai.Base.{Bool, if◌then◌else◌, ◌&&◌, sum_of, ◌≡◌, [], arith, ltb, ℕ}
use recovery_pilot_ai.Diagnosis.Models.{round_div, DiagnosisFeatures, EvidenceItem}
use recovery_pilot_ai.Diagnosis.Rules.{
  nsf_hit, allot, nsf_evidence, salary_nsf, shares_or_recorded, share_if, recorded_nsf,
}

-- For any of the five pieces of evidence, with the weight that they give.
shares_add_up :
    (recorded salary payday days prior : Bool)
    → (let weight : ℕ = if salary && payday then 7800 else 6000 in
        let raw = shares_or_recorded (
          share_if recorded "RECORDED_INSUFFICIENT_FUNDS" 10 (
            share_if salary "SALARY_DEPENDENT" 12 (
              share_if payday "PRE_PAYDAY_WINDOW" 13
                (share_if days "DAYS_UNTIL_PAYDAY" 11 (share_if prior "PRIOR_SUCCESS" 10 []))))) in
        sum_of (λ (i : EvidenceItem). i.weight) (allot weight (sum_of (λ s. s.1) raw) 0 raw)
        ≡ weight)
unfolding allot round_div
shares_add_up recorded salary payday days prior = ground arith

-- The weights of its items add up to the weight of the rule, whatever evidence there is.
pub nsf_hit-weights :
    (f : DiagnosisFeatures)
    → sum_of (λ (i : EvidenceItem). i.weight) (nsf_hit f).evidence_items ≡ (nsf_hit f).weight
unfolding nsf_hit nsf_evidence salary_nsf
nsf_hit-weights f =
    shares_add_up (recorded_nsf f) f.salary_dependent f.pre_payday_window
      (ltb 0 f.days_until_payday) (ltb 0 f.previous_success_count)
