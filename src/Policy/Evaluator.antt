-- ===== src/Policy/Evaluator.antt =====
-- services/src/services/policy/evaluator.py and policy_engine.py: the fold of the rules' results
-- into one decision.
use text.Mathlib.Text.{◌==◌ as str_eq}
use Prim.Native.String.{String}
use recovery_pilot_ai.Policy.Registry.{evaluate_rules}
use recovery_pilot_ai.Policy.Severity.{
  pick_winner, verdict_to_decision, is_waiting, decision_rank, is_blocking, is_failing,
}
use recovery_pilot_ai.Base.{
  Option, List, ℕ, none, some, max_of?, or_else, Bool, ◌∷◌, sum_of, map, [], ltb, any, false, not,
  filter, ◌==◌, ◌++◌, min, ◌||◌, ◌+◌, if◌then◌else◌,
}
use recovery_pilot_ai.Policy.Merge.{merge_channels, is_nil}
use recovery_pilot_ai.Policy.Models.{
  PolicyDecision, PolicyContext, DiagnosisResult, PolicyRuleResult, PolicyDecisionResult, Reason,
  PolicyName,
}

abbrev pub elem : String → List String → Bool
elem s names = any (λ t. str_eq s t) names

-- `if code not in evidence: evidence.append(code)`, for each code; also `dict.fromkeys`.
unfoldable pub add_codes : List String → List String → List String
add_codes evidence [] = evidence
add_codes evidence (code ∷ codes) =
    add_codes (if elem code evidence then evidence else evidence ++ (code ∷ [])) codes

-- `_diagnosis_evidence`
abbrev pub diagnosis_evidence : DiagnosisResult → List String
diagnosis_evidence d =
    let codes = filter (λ c. not (str_eq c "")) d.evidence_codes in
    if is_nil codes then d.triggered_rules else codes

abbrev blocking_codes : List PolicyRuleResult → List String
blocking_codes [] = []
blocking_codes (row ∷ rows) =
    let rest = blocking_codes rows in if is_blocking row then row.evidence_codes ++ rest else rest

abbrev head? {ℓ} : {A : Type ℓ} → List A → Option A
head? [] = none
head? (x ∷ _) = some x

abbrev is_notable : PolicyRuleResult → Bool
is_notable row =
    not (is_nil row.evidence_codes) || not (row.priority_boost == 0) || row.manual_review_required

abbrev is_boosted_high_value : PolicyRuleResult → Bool
is_boosted_high_value row = elim row.policy_name [
  | PolicyName.high_value ↦ not (row.priority_boost == 0)
  | _ ↦ false
]

-- `high or (notable[0] if notable else None)`
abbrev pub lead_of : List PolicyRuleResult → Option PolicyRuleResult
lead_of results =
    or_else (head? (filter is_boosted_high_value results)) (head? (filter is_notable results))

abbrev stamps_of : List PolicyRuleResult → List ℕ
stamps_of [] = []
stamps_of (row ∷ rows) =
    let rest = stamps_of rows in elim row.cooldown_until [ none ↦ rest | some t ↦ t ∷ rest ]

-- `max(stamps) if stamps else …`
abbrev pub latest_stamp : List PolicyRuleResult → Option ℕ
latest_stamp waits = max_of? ltb (stamps_of waits)

-- What the branches on the winner bind.
pub record Verdict : Type 0 where
  pub decision : PolicyDecision
  pub policy_name : PolicyName
  pub reason : List Reason
  pub cooldown : Option ℕ
  pub winner_codes : List String
  pub silent : Bool

abbrev allowed_verdict : Option PolicyRuleResult → Verdict
allowed_verdict none = record {
  decision = PolicyDecision.allow;
  policy_name = PolicyName.default_allow;
  reason = Reason.all_checks_passed ∷ [];
  cooldown = none;
  winner_codes = [];
  silent = false;
}
allowed_verdict (some lead) = record {
  decision = PolicyDecision.allow;
  policy_name = lead.policy_name;
  reason = lead.reason ∷ [];
  cooldown = none;
  winner_codes = lead.evidence_codes;
  silent = false;
}

abbrev reasons_or : List PolicyRuleResult → PolicyRuleResult → List Reason
reasons_or [] winner = winner.reason ∷ []
reasons_or (row ∷ rows) winner = map (λ r. r.reason) (row ∷ rows)

abbrev blocked_verdict : PolicyDecision → PolicyRuleResult → List PolicyRuleResult → Verdict
blocked_verdict PolicyDecision.wait winner waits = record {
  decision = PolicyDecision.wait;
  policy_name = winner.policy_name;
  reason = reasons_or waits winner;
  cooldown = or_else (latest_stamp waits) winner.cooldown_until;
  winner_codes = winner.evidence_codes;
  silent = any (λ row. row.silent_retry_allowed) waits;
}
blocked_verdict decision winner waits = record {
  decision = decision;
  policy_name = winner.policy_name;
  reason = winner.reason ∷ [];
  cooldown = winner.cooldown_until;
  winner_codes = winner.evidence_codes;
  silent = winner.silent_retry_allowed;
}

abbrev verdict_for : Option PolicyRuleResult → List PolicyRuleResult → Verdict
verdict_for none results = allowed_verdict (lead_of results)
verdict_for (some winner) results =
    blocked_verdict (verdict_to_decision winner.verdict) winner (filter is_waiting results)

unfoldable pub verdict_of : List PolicyRuleResult → Verdict
unfolding pick_winner max_of?
verdict_of results = verdict_for (pick_winner results) results

-- `if decision in {STOP, ESCALATE}: silent = False`
abbrev pub keeps_silent : PolicyDecision → Bool → Bool
keeps_silent PolicyDecision.stop silent = false
keeps_silent PolicyDecision.escalate silent = false
keeps_silent _ silent = silent

abbrev pub full_score : ℕ
full_score = 10_000

unfoldable pub fold_decision : PolicyContext → List PolicyRuleResult → PolicyDecisionResult
unfolding verdict_of merge_channels add_codes
fold_decision context results =
    let v = verdict_of results in
    let (allowed, blocked) = merge_channels context results v.decision in
    let boost = sum_of (λ row. row.priority_boost) results in
    record {
      policy_name = v.policy_name;
      decision = v.decision;
      reason = v.reason;
      evidence_codes =
          add_codes (add_codes [] (diagnosis_evidence context.diagnosis ++ v.winner_codes))
            (blocking_codes results);
      priority_score = min full_score (context.diagnosis.priority_score + boost);
      decision_priority = decision_rank v.decision;
      evaluated_at = context.as_of;
      cooldown_until = v.cooldown;
      allowed_channels = allowed;
      blocked_channels = blocked;
      manual_review_required = any (λ row. row.manual_review_required) results;
      triggered_policies = map (λ row. row.policy_name) (filter is_blocking results);
      failed_policies = map (λ row. row.policy_name) (filter is_failing results);
      evaluated_rules =
          map
            (λ row. record {
              policy_name = row.policy_name;
              result = row.verdict;
              reason = row.reason;
            })
            results;
      silent_retry_allowed = keeps_silent v.decision v.silent;
      recovery_case_id = or_else context.recovery_case_id context.diagnosis.recovery_case_id;
      payment_id = context.payment.id;
      diagnosis = context.diagnosis.diagnosis;
    }

-- `policy_engine.evaluate`, less its log lines.
unfoldable pub evaluate : PolicyContext → PolicyDecisionResult
evaluate context = fold_decision context (evaluate_rules context)
