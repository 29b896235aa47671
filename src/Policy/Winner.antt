-- ===== src/Policy/Winner.antt =====
-- The folding order of services/src/services/policy/evaluator.py: which rule wins, and which
-- decision follows.
use recovery_pilot_ai.Policy.Evaluator.{fold_decision, verdict_of}
use recovery_pilot_ai.Policy.Severity.{pick_winner, is_blocking, severity, outranked}
use recovery_pilot_ai.Base.{
  ℕ, max, ◌≤◌, ◌≡◌, true, false, none, some, List, [], ◌∷◌, All, arith, filter, ComparesKeys,
  max_of?-greatest, max_of?-All, max_of?-none, Option-cases, inl, inr, All-of_filter, All-filter,
  All-map, Bool-cases, All-true, subst, sym,
}
use recovery_pilot_ai.Policy.Models.{PolicyContext, PolicyDecision, PolicyRuleResult}

outranked-ComparesKeys : ComparesKeys outranked
outranked-ComparesKeys = record {
  irreflexive = λ a. ground arith;
  asymmetric = λ a b h. ground arith;
  between = λ a b c h k. ground arith;
}

-- The winner blocks, and no blocking rule outranks it: none is more severe, and none of the same
-- severity stands earlier in the precedence.
pick_winner-greatest :
    (results : List PolicyRuleResult) (w : PolicyRuleResult)
    → pick_winner results ≡ some w
    → (is_blocking w ≡ true) × All (λ row. is_blocking row ≡ true → outranked w row ≡ false) results
unfolding pick_winner
pick_winner-greatest results w e = (
  max_of?-All outranked (λ r. is_blocking r ≡ true) (filter is_blocking results) e
      (All-filter (λ r. is_blocking r ≡ true) is_blocking results
        (All-true (λ r. is_blocking r ≡ true → is_blocking r ≡ true) (λ r h. h) results)),
  All-of_filter (λ row. outranked w row ≡ false) is_blocking results
      (max_of?-greatest outranked outranked-ComparesKeys (filter is_blocking results) e),
)

abbrev pub worst_severity : List PolicyRuleResult → ℕ
worst_severity [] = 0
worst_severity (row ∷ rows) = max (severity row.verdict) (worst_severity rows)

le-worst_severity :
    (rows : List PolicyRuleResult) → All (λ r. severity r.verdict ≤ worst_severity rows) rows
le-worst_severity [] = tt
le-worst_severity (row ∷ rows) = (
  omega arith,
  All-map (λ r. severity r.verdict ≤ worst_severity rows) (λ r h. omega (arith, h)) rows
      (le-worst_severity rows),
)

worst_severity-le :
    (rows : List PolicyRuleResult) (n : ℕ)
    → All (λ r. severity r.verdict ≤ n) rows
    → worst_severity rows ≤ n
worst_severity-le [] n h = omega arith
worst_severity-le (row ∷ rows) n h = omega (arith, worst_severity-le rows n h.1)

not-outranked-le :
    (w row : PolicyRuleResult)
    → (is_blocking row ≡ true → outranked w row ≡ false)
    → severity row.verdict ≤ severity w.verdict
not-outranked-le w row h = elim (Bool-cases (is_blocking row)) [
  | inl b ↦ ground (arith, h b)
  | inr p ↦ ground arith
]

winner-le :
    (results : List PolicyRuleResult) (w : PolicyRuleResult)
    → pick_winner results ≡ some w
    → severity w.verdict ≤ worst_severity results
unfolding pick_winner
winner-le results w e =
    max_of?-All outranked (λ r. severity r.verdict ≤ worst_severity results)
      (filter is_blocking results) e
      (All-filter (λ r. severity r.verdict ≤ worst_severity results) is_blocking results
        (All-map (λ r. severity r.verdict ≤ worst_severity results) (λ r h _. h) results
          (le-worst_severity results)))

-- The winner is as severe as the worst rule.
pick_winner-severity :
    (results : List PolicyRuleResult) (w : PolicyRuleResult)
    → pick_winner results ≡ some w
    → severity w.verdict ≡ worst_severity results
pick_winner-severity results w e = omega (
  arith,
  worst_severity-le results (severity w.verdict) (
      All-map (λ row. is_blocking row ≡ true → outranked w row ≡ false)
        (λ row h. not-outranked-le w row h) results (pick_winner-greatest results w e).1),
  winner-le results w e,
)

passing : (r : PolicyRuleResult) → (is_blocking r ≡ true → ⊥) → severity r.verdict ≤ 0
passing r h = elim (Bool-cases (is_blocking r)) [ inl b ↦ absurd (h b) | inr p ↦ ground arith ]

pick_winner-none :
    (results : List PolicyRuleResult) → pick_winner results ≡ none → worst_severity results ≡ 0
unfolding pick_winner
pick_winner-none results e =
    let none_blocks : All (λ r. is_blocking r ≡ true → ⊥) results =
      All-of_filter (λ _. ⊥) is_blocking results
        (subst (All (λ _. ⊥)) (sym (max_of?-none outranked (filter is_blocking results) e)) tt) in
    omega (
      arith,
      worst_severity-le results 0
          (All-map (λ r. is_blocking r ≡ true → ⊥) passing results none_blocks),
    )

-- How severe a decision is, on the scale of the verdicts.
abbrev pub decision_severity : PolicyDecision → ℕ
decision_severity PolicyDecision.allow = 0
decision_severity PolicyDecision.wait = 1
decision_severity PolicyDecision.deny = 2
decision_severity PolicyDecision.escalate = 3
decision_severity PolicyDecision.stop = 4

-- The decision is that of the most severe rule, whatever the order of the results: STOP before
-- ESCALATE before DENY before WAIT before ALLOW.
pub fold_decision-worst :
    (context : PolicyContext) (results : List PolicyRuleResult)
    → decision_severity (fold_decision context results).decision ≡ worst_severity results
unfolding fold_decision verdict_of
fold_decision-worst context results = elim (Option-cases (pick_winner results)) [
  | inl e ↦ ground (arith, pick_winner-none results e)
  | inr (w, e) ↦ ground (arith, pick_winner-severity results w e)
]
