-- ===== src/Policy/Totals.antt =====
-- services/src/services/policy/policy_engine.py: what the summary of a batch counts.
use recovery_pilot_ai.Policy.Evaluator.{evaluate}
use recovery_pilot_ai.Policy.Conditions.{must_stop}
use recovery_pilot_ai.Base.Counters.{
  count_of, tally_all, total, total-tally_all, count_of-tally_all, length-map,
}
use recovery_pilot_ai.Policy.Decisions.{decision_table, evaluate-decision}
use recovery_pilot_ai.Policy.Models.{PolicyContext, PolicyDecision}
use recovery_pilot_ai.Policy.Engine.{
  evaluate_batch_contexts, evaluate_many, decision_code, summarize_decisions,
}
use recovery_pilot_ai.Base.{
  ◌∷◌, [], List, ◌≡◌, ◌+◌, ℕ, Bool, if◌then◌else◌, count_if, length, ◌==◌, arith, map, refl, ap,
  ◌∙◌,
}

-- How many contexts get the decision.
abbrev pub decided : PolicyDecision → List PolicyContext → ℕ
decided decision contexts =
    count_if (λ c. decision_code decision == decision_code (evaluate c).decision) contexts

decided-count :
    (decision : PolicyDecision) (contexts : List PolicyContext)
    → count_of
        (decision_code decision)
        (tally_all (map (λ item. decision_code item.decision) (map evaluate contexts)) [])
      ≡ decided decision contexts
decided-count decision contexts =
    count_of-tally_all (decision_code decision)
      (map (λ item. decision_code item.decision) (map evaluate contexts)) []
    ∙ counted contexts
  where
    counted :
        (cs : List PolicyContext)
        → count_if
              (λ j. decision_code decision == j)
              (map (λ item. decision_code item.decision) (map evaluate cs))
            + 0
          ≡ decided decision cs
    counted [] = omega arith
    counted (c ∷ cs) = omega (arith, counted cs)

one_of_five :
    (d : PolicyDecision)
    → (if decision_code PolicyDecision.stop == decision_code d then 1 else 0)
        + (if decision_code PolicyDecision.escalate == decision_code d then 1 else 0)
        + (if decision_code PolicyDecision.wait == decision_code d then 1 else 0)
        + (if decision_code PolicyDecision.allow == decision_code d then 1 else 0)
        + (if decision_code PolicyDecision.deny == decision_code d then 1 else 0)
      ≡ 1
one_of_five PolicyDecision.stop = refl
one_of_five PolicyDecision.escalate = refl
one_of_five PolicyDecision.wait = refl
one_of_five PolicyDecision.allow = refl
one_of_five PolicyDecision.deny = refl

decided-all :
    (contexts : List PolicyContext)
    → decided PolicyDecision.stop contexts
        + decided PolicyDecision.escalate contexts
        + decided PolicyDecision.wait contexts
        + decided PolicyDecision.allow contexts
        + decided PolicyDecision.deny contexts
      ≡ length contexts
decided-all [] = omega arith
decided-all (c ∷ cs) = omega (arith, decided-all cs, one_of_five (evaluate c).decision)

abbrev is_stop_code : PolicyDecision → Bool
is_stop_code d = decision_code PolicyDecision.stop == decision_code d

table-stops : (c : PolicyContext) → is_stop_code (decision_table c) ≡ must_stop c
table-stops c = ground arith

abbrev one_if : Bool → ℕ
one_if b = if b then 1 else 0

decided-stop :
    (contexts : List PolicyContext)
    → decided PolicyDecision.stop contexts ≡ count_if must_stop contexts
decided-stop [] = refl
decided-stop (c ∷ cs) =
    let stops : is_stop_code (evaluate c).decision ≡ must_stop c =
      ap is_stop_code (evaluate-decision c) ∙ table-stops c in
    let rest = decided-stop cs in
    let step : one_if (is_stop_code (evaluate c).decision) ≡ one_if (must_stop c) =
      ap one_if stops in
    omega (arith, step, rest)

-- In the summary of a batch every case is counted under one decision, missing cases aside, and as stopped are
-- counted exactly the cases that the policy's conditions stop.
pub evaluate_batch_contexts-totals :
    (contexts : List PolicyContext) (missing : List ℕ)
    → let s = (evaluate_batch_contexts contexts missing).summary in
      (s.stopped_cases
          + s.escalated_cases
          + s.waiting_cases
          + s.allowed_cases
          + s.denied_cases
          + length missing
        ≡ s.total_cases)
      × (total s.decision_distribution + length missing ≡ s.total_cases)
      × (s.stopped_cases ≡ count_if must_stop contexts)
unfolding evaluate_batch_contexts evaluate_many summarize_decisions
evaluate_batch_contexts-totals contexts missing = (
  omega (
    arith,
    decided-all contexts,
    decided-count PolicyDecision.stop contexts,
    decided-count PolicyDecision.escalate contexts,
    decided-count PolicyDecision.wait contexts,
    decided-count PolicyDecision.allow contexts,
    decided-count PolicyDecision.deny contexts,
  ),
  omega (
    arith,
    total-tally_all (map (λ item. decision_code item.decision) (map evaluate contexts)) [],
    length-map (λ item. decision_code item.decision) (map evaluate contexts),
    length-map evaluate contexts,
  ),
  decided-count PolicyDecision.stop contexts ∙ decided-stop contexts,
)
