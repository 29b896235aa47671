-- ===== src/Policy/Outreach.antt =====
-- When services/src/services/policy/evaluator.py lets the whole consent through: under ALLOW no
-- rule narrows the channels below what the customer granted.
use recovery_pilot_ai.Policy.Registry.{evaluate_rules}
use recovery_pilot_ai.Policy.Merge.{
  finish_channels, merge_rows, narrow, next_allowed, skips, merge_channels, next_blocked,
}
use recovery_pilot_ai.Policy.Severity.{severity}
use recovery_pilot_ai.Policy.Evaluator.{evaluate, fold_decision}
use recovery_pilot_ai.Policy.Winner.{worst_severity, fold_decision-worst, decision_severity}
use recovery_pilot_ai.Policy.Channels.{mem-append, mem-filter-channels}
use recovery_pilot_ai.Policy.Rules.{
  rule_chargeback, rule_already_paid, rule_promise_to_pay, rule_retry_cooldown, rule_mandate,
  rule_churn_protection, rule_high_value, rule_outage, rule_dnd_contact, rule_consent,
  consent_passes,
}
use recovery_pilot_ai.Base.{
  some, All, ◌≡◌, refl, Bool, true, not, ◌&&◌, List, [], ◌∷◌, filter, Bool-cases, inl, inr, arith,
  ap, ◌∙◌, sym,
}
use recovery_pilot_ai.Policy.Models.{
  PolicyRuleResult, PolicyContext, Channel, channels, PolicyDecision,
}
use recovery_pilot_ai.Policy.Consent.{mem, ◌=ᶜ◌, split_channels, channel_granted}
use recovery_pilot_ai.Base.{◌++◌}

pub =ᶜ-eq : (c d : Channel) → (c =ᶜ d) ≡ true → c ≡ d
=ᶜ-eq c d h = ground arith

pub mem-filter :
    (p : Channel → Bool) (c : Channel) (xs : List Channel) → mem c (filter p xs) ≡ (mem c xs && p c)
mem-filter p c [] = refl
mem-filter p c (x ∷ xs) = elim (Bool-cases (c =ᶜ x)) [
  | inl e ↦ ground (arith, mem-filter p c xs, ap p (=ᶜ-eq c x e))
  | inr e ↦ ground (arith, mem-filter p c xs)
]

mem-narrow :
    (a bb : List Channel) (c : Channel) → mem c (narrow a bb (some a)) ≡ (mem c a && not (mem c bb))
mem-narrow [] bb c = refl
mem-narrow (x ∷ a) bb c = ground (
  arith,
  mem-filter (λ d. not (mem d bb)) c (filter (λ d. mem d (x ∷ a)) (x ∷ a)),
  mem-filter (λ d. mem d (x ∷ a)) c (x ∷ a),
)

-- What remains of the sets of consent, intersected with themselves.
consent_sets :
    (g : Channel → Bool) (a b : List Channel) (c : Channel)
    → mem c a ≡ (mem c channels && g c)
    → mem c b ≡ (mem c channels && not (g c))
    → (mem c channels && (mem c (narrow a (b ++ b) (some a)) && not (mem c (b ++ b))))
      ≡ (mem c channels && g c)
consent_sets g a b c ha hb = ground (arith, mem-narrow a (b ++ b) c, mem-append c b b)

-- A rule other than `rule_consent` that passes leaves both sets alone.
abbrev Quiet : PolicyRuleResult → Type 0
Quiet row = severity row.verdict ≡ 0 → skips row ≡ true

already_paid-Quiet : (c : PolicyContext) → Quiet (rule_already_paid c)
unfolding rule_already_paid
already_paid-Quiet c h = ground arith

chargeback-Quiet : (c : PolicyContext) → Quiet (rule_chargeback c)
unfolding rule_chargeback
chargeback-Quiet c h = ground arith

mandate-Quiet : (c : PolicyContext) → Quiet (rule_mandate c)
unfolding rule_mandate
mandate-Quiet c h = ground arith

promise-Quiet : (c : PolicyContext) → Quiet (rule_promise_to_pay c)
unfolding rule_promise_to_pay
promise-Quiet c h = ground arith

cooldown-Quiet : (c : PolicyContext) → Quiet (rule_retry_cooldown c)
unfolding rule_retry_cooldown
cooldown-Quiet c h = ground arith

outage-Quiet : (c : PolicyContext) → Quiet (rule_outage c)
unfolding rule_outage
outage-Quiet c h = ground arith

dnd-Quiet : (c : PolicyContext) → Quiet (rule_dnd_contact c)
unfolding rule_dnd_contact
dnd-Quiet c h = ground arith

churn-Quiet : (c : PolicyContext) → Quiet (rule_churn_protection c)
unfolding rule_churn_protection
churn-Quiet c h = ground arith

high_value-Quiet : (c : PolicyContext) → Quiet (rule_high_value c)
unfolding rule_high_value
high_value-Quiet c h = ground arith

merge_rows-skip :
    (rows : List PolicyRuleResult) (a b : List Channel)
    → All (λ row. skips row ≡ true) rows
    → merge_rows rows a b ≡ (a, b)
unfolding merge_rows
merge_rows-skip [] a b h = refl
merge_rows-skip (row ∷ rows) a b h = rw (h.0) (merge_rows-skip rows a b h.1)

-- Two rows that are passed over, one that counts, and more that are passed over.
merge_rows-third :
    (r₀ r₁ r₂ : PolicyRuleResult) (rows : List PolicyRuleResult) (a b : List Channel)
    → skips r₀ ≡ true
    → skips r₁ ≡ true
    → All (λ row. skips row ≡ true) rows
    → merge_rows (r₀ ∷ r₁ ∷ r₂ ∷ rows) a b ≡ (next_allowed r₂ a b, next_blocked r₂ b)
unfolding merge_rows
merge_rows-third r₀ r₁ r₂ rows a b h₀ h₁ h =
    rw (h₀, h₁) (merge_rows-skip rows (next_allowed r₂ a b) (next_blocked r₂ b) h)

severities_zero :
    (rows : List PolicyRuleResult)
    → worst_severity rows ≡ 0
    → All (λ r. severity r.verdict ≡ 0) rows
severities_zero [] h = tt
severities_zero (row ∷ rows) h = (omega arith, severities_zero rows (omega arith))

-- If every rule passes, only `rule_consent` can change the sets.
merge_rows-passing :
    (c : PolicyContext) (a b : List Channel)
    → worst_severity (evaluate_rules c) ≡ 0
    → merge_rows (evaluate_rules c) a b
      ≡ (next_allowed (rule_consent c) a b, next_blocked (rule_consent c) b)
unfolding evaluate_rules
merge_rows-passing c a b h =
    let (z₀, (z₁, (z₂, (z₃, (z₄, (z₅, (z₆, (z₇, (z₈, (z₉, _)))))))))) =
      severities_zero (evaluate_rules c) h in
    merge_rows-third (rule_already_paid c) (rule_chargeback c) (rule_consent c) _ a b
      (already_paid-Quiet c z₀) (chargeback-Quiet c z₁)
      (
        mandate-Quiet c z₃,
        (
          promise-Quiet c z₄,
          (
            cooldown-Quiet c z₅,
            (outage-Quiet c z₆, (dnd-Quiet c z₇, (churn-Quiet c z₈, (high_value-Quiet c z₉, tt)))),
          ),
        ),
      )

consent_step :
    (g : Channel → Bool) (a b : List Channel) (c : Channel)
    → mem c a ≡ (mem c channels && g c)
    → mem c b ≡ (mem c channels && not (g c))
    → mem c
        (finish_channels PolicyDecision.allow
          (next_allowed (consent_passes a b) a b, next_blocked (consent_passes a b) b)).0
      ≡ (mem c channels && g c)
consent_step g a [] c ha hb = mem-filter-channels (λ d. mem d a && true) c ∙ ground (arith, ha)
consent_step g a (x ∷ b) c ha hb =
    mem-filter-channels
      (λ d. mem d (narrow a ((x ∷ b) ++ (x ∷ b)) (some a)) && not (mem d ((x ∷ b) ++ (x ∷ b)))) c
    ∙ consent_sets g a (x ∷ b) c ha hb

rule_consent-passes :
    (c : PolicyContext)
    → severity (rule_consent c).verdict ≡ 0
    → let (a, b) = split_channels c.customer in rule_consent c ≡ consent_passes a b
unfolding rule_consent
rule_consent-passes c h = ground arith

-- The final lists after the consent rule, which passes.
consent_final :
    (c : PolicyContext) (ch : Channel)
    → severity (rule_consent c).verdict ≡ 0
    → let (a, b) = split_channels c.customer in
      mem ch
        (finish_channels PolicyDecision.allow
          (next_allowed (rule_consent c) a b, next_blocked (rule_consent c) b)).0
      ≡ (mem ch channels && channel_granted c.customer ch)
unfolding split_channels
consent_final c ch h = rw (rule_consent-passes c h) (
    consent_step (channel_granted c.customer) _ _ ch
      (mem-filter-channels (channel_granted c.customer) ch)
      (mem-filter-channels (λ d. not (channel_granted c.customer d)) ch))

-- Under ALLOW the allow-list is exactly what the customer consented to.
pub evaluate-allows :
    (c : PolicyContext) (ch : Channel)
    → (evaluate c).decision ≡ PolicyDecision.allow
    → mem ch (evaluate c).allowed_channels ≡ (mem ch channels && channel_granted c.customer ch)
unfolding evaluate evaluate_rules fold_decision merge_channels
evaluate-allows c ch h =
    let z : worst_severity (evaluate_rules c) ≡ 0 =
      sym (fold_decision-worst c (evaluate_rules c)) ∙ ap decision_severity h in
    let (a, b) = split_channels c.customer in
    rw (h, merge_rows-passing c a b z)
      (consent_final c ch (severities_zero (evaluate_rules c) z).1.1.0)
