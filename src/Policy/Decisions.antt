-- ===== src/Policy/Decisions.antt =====
-- When services/src/services/policy/policy_engine.py decides what: the folded decision of
-- `evaluate` against a table of conditions on the context.
use recovery_pilot_ai.Policy.Severities.{
  already_paid-severity, chargeback-severity, consent-severity, mandate-severity, promise-severity,
  cooldown-severity, outage-severity, dnd-severity, churn-severity, high_value-severity,
}
use recovery_pilot_ai.Policy.Conditions.{must_stop, must_escalate, promise_runs, must_wait}
use recovery_pilot_ai.Policy.Registry.{evaluate_rules}
use recovery_pilot_ai.Policy.Evaluator.{evaluate}
use recovery_pilot_ai.Policy.Severity.{severity}
use recovery_pilot_ai.Base.{
  [], ◌∷◌, List, max, ◌≡◌, Bool, false, ◌||◌, if◌then◌else◌, arith, ℕ, ◌≤◌, true, Bool-cases, ◌∙◌,
  inl, inr, sym, List, ◌∷◌,
}
use recovery_pilot_ai.Policy.Consent.{is_pending}
use recovery_pilot_ai.Policy.Facts.{is_chargeback}
use recovery_pilot_ai.Policy.Models.{PolicyContext, PolicyDecision, RuleVerdict, PolicyRuleResult}
use recovery_pilot_ai.Policy.Winner.{decision_severity, worst_severity, fold_decision-worst}

abbrev pub decision_table : PolicyContext → PolicyDecision
decision_table c =
    if must_stop c
    then PolicyDecision.stop
    else if must_escalate c
    then PolicyDecision.escalate
    else if is_pending c.customer.consent_status
    then PolicyDecision.deny
    else if must_wait c
    then PolicyDecision.wait
    else PolicyDecision.allow

-- The fold of ten severities, by the conditions alone: first where nothing stops the recovery.
table_below_stop :
    (o h pending runs r t n : Bool)
    → decision_severity (
        if o || h
        then PolicyDecision.escalate
        else if pending
        then PolicyDecision.deny
        else if runs || r || t || n
        then PolicyDecision.wait
        else PolicyDecision.allow)
      ≡ max (if o then 3 else 0) (
          max (if pending then 2 else 0) (
            max (if runs then 1 else 0) (
              max
                (if r then 1 else 0)
                (max (if t then 1 else 0) (max (if n then 1 else 0) (if h then 3 else 0))))))
table_below_stop o h pending runs r t n = ground arith

severity-le : (v : RuleVerdict) → severity v ≤ 4
severity-le v = ground arith

-- What the ten severities are, with the conditions of five STOPs set apart.
module _ (s₀ s₁ s₂ s₃ s₄ s₅ s₆ s₇ s₈ s₉ : ℕ) (p w m f k : Bool) (y₂ y₄ y₈ : ℕ)
    (e₀ : s₀ ≡ (if p then 4 else 0)) (e₂ : s₂ ≡ (if w then 4 else y₂))
    (e₃ : s₃ ≡ (if m then 4 else 0)) (e₄ : s₄ ≡ (if f then 4 else y₄))
    (e₈ : s₈ ≡ (if k then 4 else y₈)) (e₉ : s₉ ≡ 0) where
  -- One rule at 4 decides.
  table_at_stop :
      (p || w || m || f || k) ≡ true
      → 4
        ≤ max s₀ (max s₁ (max s₂ (max s₃ (max s₄ (max s₅ (max s₆ (max s₇ (max s₈ (max s₉ 0)))))))))
  table_at_stop h = ground arith

  table_past_stop :
      (p || w || m || f || k) ≡ false
      → max s₀ (max s₁ (max s₂ (max s₃ (max s₄ (max s₅ (max s₆ (max s₇ (max s₈ (max s₉ 0)))))))))
        ≡ max s₁ (max y₂ (max y₄ (max s₅ (max s₆ (max s₇ y₈)))))
  table_past_stop h = ground arith

stop-worst : (c : PolicyContext) → must_stop c ≡ true → 4 ≤ worst_severity (evaluate_rules c)
unfolding evaluate_rules
stop-worst c h =
    table_at_stop _ _ _ _ _ _ _ _ _ _ _ _ _ _ _ _ _ _ (already_paid-severity c) (consent-severity c)
      (mandate-severity c) (promise-severity c) (churn-severity c) (high_value-severity c) h

past_stop-worst :
    (c : PolicyContext)
    → must_stop c ≡ false
    → worst_severity (evaluate_rules c) ≡ decision_severity (decision_table c)
unfolding evaluate_rules
past_stop-worst c h = rw h (
    table_past_stop _ _ _ _ _ _ _ _ _ _ _ _ _ _ _ _ _ _ (already_paid-severity c)
      (consent-severity c) (mandate-severity c) (promise-severity c) (churn-severity c)
      (high_value-severity c) h
    ∙ rw (chargeback-severity c, cooldown-severity c, outage-severity c, dnd-severity c)
        (sym (
          table_below_stop (is_chargeback c.diagnosis.diagnosis) c.customer.hardship
            (is_pending c.customer.consent_status) (promise_runs c) _ _ _)))

worst-le : (rows : List PolicyRuleResult) → worst_severity rows ≤ 4
worst-le [] = omega arith
worst-le (row ∷ rows) = omega (arith, worst-le rows, severity-le row.verdict)

worst-evaluate_rules :
    (c : PolicyContext) → worst_severity (evaluate_rules c) ≡ decision_severity (decision_table c)
worst-evaluate_rules c = elim (Bool-cases (must_stop c)) [
  | inl h ↦ rw h (omega (arith, stop-worst c h, worst-le (evaluate_rules c)))
  | inr h ↦ past_stop-worst c h
]

decision-of_severity : (d e : PolicyDecision) → decision_severity d ≡ decision_severity e → d ≡ e
decision-of_severity d e h = ground arith

-- The decision of the engine is that of the table: STOP if the recovery must stop, else ESCALATE
-- on a chargeback or hardship, else DENY while consent is pending, else WAIT on a running promise,
-- a retry cooldown, a rail timeout or outside the contact window, and else ALLOW.
pub evaluate-decision : (c : PolicyContext) → (evaluate c).decision ≡ decision_table c
unfolding evaluate
evaluate-decision c =
    decision-of_severity _ _ (fold_decision-worst c (evaluate_rules c) ∙ worst-evaluate_rules c)
