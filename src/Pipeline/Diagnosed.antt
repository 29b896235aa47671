-- ===== src/Pipeline/Diagnosed.antt =====
-- services/src/services/diagnosis and policy in a row: what the features of a payment decide.
use recovery_pilot_ai.Enums.{DiagnosisCategory}
use recovery_pilot_ai.Policy.Conditions.{must_stop}
use recovery_pilot_ai.Policy.Decisions.{evaluate-decision}
use recovery_pilot_ai.Policy.Evaluator.{evaluate}
use recovery_pilot_ai.Diagnosis.Features.{extract_features}
use recovery_pilot_ai.Diagnosis.Rules.{cancels, revokes}
use recovery_pilot_ai.Policy.Models.{PolicyContext, PolicyDecision}
use recovery_pilot_ai.Policy.Facts.{is_already_paid, is_customer_cancelled, is_mandate_revoked}
use recovery_pilot_ai.Base.{
  ◌≡◌, Bool, ◌||◌, true, not, ◌&&◌, Option, ℕ, arith, ◌∙◌, subst, sym, refl,
}
use recovery_pilot_ai.Diagnosis.Engine.{diagnose, report_for, for_policy}
use recovery_pilot_ai.Diagnosis.Primary.{diagnosis_table, pick_primary-table}
use recovery_pilot_ai.Diagnosis.Models.{DiagnosisFeatures, DiagnosisContext}

-- The payment is paid already; or the customer cancelled or the mandate is gone, where no duplicate and no
-- dispute has precedence.
abbrev pub closes : DiagnosisFeatures → Bool
closes f =
    f.already_paid_after_failure
    || (not f.duplicate_captured && (not f.dispute_signal && (cancels f || revokes f)))

closes-stops :
    (f : DiagnosisFeatures)
    → closes f ≡ true
    → is_already_paid (diagnosis_table f)
        || (is_customer_cancelled (diagnosis_table f) || is_mandate_revoked (diagnosis_table f))
      ≡ true
unfolding diagnosis_table
closes-stops f h = ground arith

-- The three categories that stop a recovery.
abbrev stops : DiagnosisCategory → Bool
stops x = is_already_paid x || (is_customer_cancelled x || is_mandate_revoked x)

must_stop-of_stops : (c : PolicyContext) → stops c.diagnosis.diagnosis ≡ true → must_stop c ≡ true
must_stop-of_stops c h = ground arith

-- A payment that the features show as paid after its failure, or else as cancelled or without mandate while they
-- show neither a duplicate capture nor a dispute, is diagnosed so that the policy stops its recovery, whatever the
-- policy knows of the case besides.
pub diagnose-stops :
    (d : DiagnosisContext) (c : PolicyContext) (case_id : Option ℕ)
    → closes (extract_features d) ≡ true
    → c.diagnosis ≡ for_policy (diagnose d) case_id
    → (evaluate c).decision ≡ PolicyDecision.stop
unfolding diagnose report_for for_policy
diagnose-stops d c case_id h e =
    let f = extract_features d in
    let same : c.diagnosis.diagnosis ≡ diagnosis_table f = rw e (pick_primary-table f) in
    let k = subst (λ x. stops x ≡ true) (sym same) (closes-stops f h) in
    evaluate-decision c ∙ rw (must_stop-of_stops c k) refl
