-- ===== src/Diagnosis/Engine.antt =====
-- services/src/services/diagnosis/diagnosis_engine.py: one diagnosis of a failed payment.
use recovery_pilot_ai.Policy.Models.{DiagnosisResult}
use recovery_pilot_ai.Diagnosis.Rules.{evaluate_rules}
use recovery_pilot_ai.Diagnosis.Models.{
  DiagnosisReport, EvidenceItem, RuleHit, recommended_action_for, diagnosis_precedence,
  DiagnosisContext, DiagnosisFeatures, same_category,
}
use recovery_pilot_ai.Diagnosis.Features.{extract_features}
use recovery_pilot_ai.Base.{
  List, Option, ℕ, Bool, ◌∷◌, ◌++◌, any, [], if◌then◌else◌, map, some, false,
}
use recovery_pilot_ai.Enums.{DiagnosisCategory}
use recovery_pilot_ai.Diagnosis.Scorer.{evidence_items_for_hit, score_confidence, score_priority}

-- `name in fired`
abbrev pub fired : DiagnosisCategory → List RuleHit → Bool
fired diagnosis hits = any (λ (h : RuleHit). same_category h.diagnosis diagnosis) hits

-- The loop of `_pick_primary` over the precedence.
unfoldable pub first_fired : List DiagnosisCategory → List RuleHit → DiagnosisCategory
first_fired [] hits = DiagnosisCategory.unknown
first_fired (c ∷ cs) hits = let rest = first_fired cs hits in if fired c hits then c else rest

unfoldable pub pick_primary : List RuleHit → DiagnosisCategory
unfolding first_fired
pick_primary hits = first_fired diagnosis_precedence hits

unfoldable pub all_items : List RuleHit → List EvidenceItem
unfolding evidence_items_for_hit
all_items [] = []
all_items (h ∷ hs) = evidence_items_for_hit h ++ all_items hs

abbrev pub items_or_none : List EvidenceItem → List EvidenceItem
items_or_none [] = record { code = "NO_RULE_FIRED"; weight = 0 } ∷ []
items_or_none (i ∷ is) = i ∷ is

-- `diagnose` once the features are there.
unfoldable pub report_for : DiagnosisFeatures → List RuleHit → ℕ → DiagnosisReport
unfolding pick_primary score_confidence score_priority all_items recommended_action_for
report_for f hits payment_id =
    let diagnosis = pick_primary hits in
    let (confidence, contributors) = score_confidence f diagnosis hits in
    let (priority, bucket) = score_priority f in
    record {
      diagnosis = diagnosis;
      confidence = confidence;
      priority_score = priority;
      priority_bucket = bucket;
      evidence_items = items_or_none (all_items hits);
      triggered_rules = map (λ (h : RuleHit). h.rule_id) hits;
      confidence_contributors = contributors;
      recommended_action = recommended_action_for diagnosis;
      payment_id = payment_id;
    }

unfoldable pub diagnose : DiagnosisContext → DiagnosisReport
unfolding extract_features evaluate_rules report_for
diagnose context =
    let f = extract_features context in report_for f (evaluate_rules f) context.payment.id

-- The result as the policy reads it. The features that `diagnose` returns have no entry
-- `already_paid_after_failure`.
unfoldable pub for_policy : DiagnosisReport → Option ℕ → DiagnosisResult
for_policy report recovery_case_id = record {
  diagnosis = report.diagnosis;
  priority_score = report.priority_score;
  evidence_codes = map (λ (i : EvidenceItem). i.code) report.evidence_items;
  triggered_rules = report.triggered_rules;
  recovery_case_id = recovery_case_id;
  payment_id = some report.payment_id;
  already_paid_after_failure = false;
}
