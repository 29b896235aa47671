-- ===== src/Diagnosis/Primary.antt =====
-- services/src/services/diagnosis/diagnosis_engine.py: the primary diagnosis, by the conditions of the rules
-- alone.
use recovery_pilot_ai.Diagnosis.Engine.{first_fired, fired, pick_primary}
use recovery_pilot_ai.Enums.{DiagnosisCategory, FailureReason}
use recovery_pilot_ai.Diagnosis.Models.{
  DiagnosisFeatures, RuleHit, same_category, category_code, is_reason,
}
use recovery_pilot_ai.Diagnosis.Rules.{
  rule_already_paid, run_rules, rule_duplicate_payment, rule_chargeback_active, when,
  rule_customer_cancelled, rule_mandate_revoked, rule_card_expired, rule_bank_timeout,
  rule_upi_timeout, rule_authentication_failed, rule_insufficient_funds, nsf_hit, upi_is_out,
  bank_is_out, cancels, revokes, evaluate_rules, rules, expires, fails_authentication, recorded_nsf,
  salary_nsf,
}
use recovery_pilot_ai.Base.{
  Bool, List, [], All, Option, ◌∷◌, map, if◌then◌else◌, ◌≡◌, some, is_some, ◌++◌, false,
  Option-cases, true, inl, inr, refl, ◌==◌, arith, none, Bool-cases, ◌||◌, ◌&&◌, ◌∙◌, not,
}

-- A rule and the category of its hits.
abbrev Ranked : Type 0
Ranked = DiagnosisCategory × (DiagnosisFeatures → Option RuleHit)

-- The hit has the category.
abbrev Gives : DiagnosisCategory → Option RuleHit → Type 0
Gives c none = Unit
Gives c (some h) = h.diagnosis ≡ c

abbrev Own : DiagnosisFeatures → Ranked → Type 0
Own f (c, rule) = Gives c (rule f)

Gives-some :
    (c : DiagnosisCategory) (o : Option RuleHit) (h : RuleHit)
    → o ≡ some h
    → Gives c o
    → h.diagnosis ≡ c
Gives-some c o h e g = let k : Gives c (some h) = rw e at g in k

abbrev Apart : DiagnosisCategory → List Ranked → Type 0
Apart c ranked = All (λ r. same_category r.0 c ≡ false) ranked

abbrev Distinct : List Ranked → Type 0
Distinct [] = Unit
Distinct (r ∷ rest) = Apart r.0 rest × Distinct rest

-- The category of the first rule that fires.
abbrev first_rule : DiagnosisFeatures → List Ranked → DiagnosisCategory
first_rule f [] = DiagnosisCategory.unknown
first_rule f ((c, rule) ∷ rest) =
    let later = first_rule f rest in if is_some (rule f) then c else later

fired-Apart :
    (f : DiagnosisFeatures) (c : DiagnosisCategory) (ranked : List Ranked)
    → All (Own f) ranked
    → Apart c ranked
    → fired c (run_rules (map (λ r. r.1) ranked) f) ≡ false
unfolding run_rules
fired-Apart f c [] own apart = refl
fired-Apart f c ((d, rule) ∷ rest) (o, own) (a, apart) =
    let later = fired-Apart f c rest own apart in
    elim (Option-cases (rule f)) [
      | inl e ↦ rw e later
      | inr (h, e) ↦ rw (e, Gives-some d (rule f) h e o, a) later
    ]

first_fired-first_rule :
    (f : DiagnosisFeatures) (ranked : List Ranked)
    → All (Own f) ranked
    → Distinct ranked
    → first_fired
        (map (λ r. r.0) ranked ++ (DiagnosisCategory.unknown ∷ []))
        (run_rules (map (λ r. r.1) ranked) f)
      ≡ first_rule f ranked
unfolding first_fired run_rules
first_fired-first_rule f [] own apart = refl
first_fired-first_rule f ((c, rule) ∷ rest) (o, own) (a, apart) = elim (Option-cases (rule f)) [
  | inl e ↦ rw (e, fired-Apart f c rest own a) (first_fired-first_rule f rest own apart)
  | inr (h, e) ↦
      let same : (category_code c == category_code c) ≡ true = ground arith in
      rw (e, Gives-some c (rule f) h e o, same) refl
]

ranking : List Ranked
ranking =
    (DiagnosisCategory.already_paid, rule_already_paid)
    ∷ (DiagnosisCategory.duplicate_payment, rule_duplicate_payment)
    ∷ (DiagnosisCategory.chargeback_active, rule_chargeback_active)
    ∷ (DiagnosisCategory.customer_cancelled, rule_customer_cancelled)
    ∷ (DiagnosisCategory.mandate_revoked, rule_mandate_revoked)
    ∷ (DiagnosisCategory.card_expired, rule_card_expired)
    ∷ (DiagnosisCategory.bank_timeout, rule_bank_timeout)
    ∷ (DiagnosisCategory.upi_timeout, rule_upi_timeout)
    ∷ (DiagnosisCategory.authentication_failed, rule_authentication_failed)
    ∷ (DiagnosisCategory.insufficient_funds, rule_insufficient_funds)
    ∷ []

Gives-when :
    (c : DiagnosisCategory) (b : Bool) (h : RuleHit) → h.diagnosis ≡ c → Gives c (when b (some h))
Gives-when c true h e = e
Gives-when c false h e = tt

bank_timeout-Own :
    (f : DiagnosisFeatures) → Gives DiagnosisCategory.bank_timeout (rule_bank_timeout f)
unfolding rule_bank_timeout
bank_timeout-Own f = elim (Bool-cases (bank_is_out f)) [
  | inl e ↦ rw (rule_bank_timeout, e) refl
  | inr e ↦ rw (rule_bank_timeout, e) (Gives-when DiagnosisCategory.bank_timeout _ _ refl)
]

upi_timeout-Own : (f : DiagnosisFeatures) → Gives DiagnosisCategory.upi_timeout (rule_upi_timeout f)
unfolding rule_upi_timeout
upi_timeout-Own f = elim (Bool-cases (upi_is_out f)) [
  | inl e ↦ rw (rule_upi_timeout, e) refl
  | inr e ↦ rw (rule_upi_timeout, e) (Gives-when DiagnosisCategory.upi_timeout _ _ refl)
]

ranking-Own : (f : DiagnosisFeatures) → All (Own f) ranking
unfolding ranking rule_already_paid rule_duplicate_payment rule_chargeback_active
    rule_customer_cancelled rule_mandate_revoked rule_card_expired rule_authentication_failed
    rule_insufficient_funds nsf_hit
ranking-Own f = (
  Gives-when DiagnosisCategory.already_paid _ _ refl,
  (
    Gives-when DiagnosisCategory.duplicate_payment _ _ refl,
    (
      Gives-when DiagnosisCategory.chargeback_active _ _ refl,
      (
        Gives-when DiagnosisCategory.customer_cancelled _ _ refl,
        (
          Gives-when DiagnosisCategory.mandate_revoked _ _ refl,
          (
            Gives-when DiagnosisCategory.card_expired _ _ refl,
            (
              bank_timeout-Own f,
              (
                upi_timeout-Own f,
                (
                  Gives-when DiagnosisCategory.authentication_failed _ _ refl,
                  (Gives-when DiagnosisCategory.insufficient_funds _ _ refl, tt),
                ),
              ),
            ),
          ),
        ),
      ),
    ),
  ),
)

-- The table of conditions, from the first in the precedence to the last.
unfoldable pub diagnosis_table : DiagnosisFeatures → DiagnosisCategory
diagnosis_table f =
    if f.already_paid_after_failure
    then DiagnosisCategory.already_paid
    else if f.duplicate_captured
    then DiagnosisCategory.duplicate_payment
    else if f.dispute_signal
    then DiagnosisCategory.chargeback_active
    else if cancels f
    then DiagnosisCategory.customer_cancelled
    else if revokes f
    then DiagnosisCategory.mandate_revoked
    else if expires f
    then DiagnosisCategory.card_expired
    else if bank_is_out f
        || (is_reason FailureReason.bank_timeout f.recorded_failure_reason && not f.upi_method)
    then DiagnosisCategory.bank_timeout
    else if upi_is_out f
        || (is_reason FailureReason.upi_failure f.recorded_failure_reason
            && (f.weekend_payment && f.upi_method))
    then DiagnosisCategory.upi_timeout
    else if fails_authentication f
    then DiagnosisCategory.authentication_failed
    else if recorded_nsf f || salary_nsf f
    then DiagnosisCategory.insufficient_funds
    else DiagnosisCategory.unknown

is_some-when : (b : Bool) (h : RuleHit) → is_some (when b (some h)) ≡ b
is_some-when true h = refl
is_some-when false h = refl

is_some-bank :
    (f : DiagnosisFeatures)
    → is_some (rule_bank_timeout f)
      ≡ bank_is_out f
        || (is_reason FailureReason.bank_timeout f.recorded_failure_reason && not f.upi_method)
unfolding rule_bank_timeout
is_some-bank f = ground arith

is_some-upi :
    (f : DiagnosisFeatures)
    → is_some (rule_upi_timeout f)
      ≡ upi_is_out f
        || (is_reason FailureReason.upi_failure f.recorded_failure_reason
            && (f.weekend_payment && f.upi_method))
unfolding rule_upi_timeout
is_some-upi f = ground arith

table-first_rule : (f : DiagnosisFeatures) → first_rule f ranking ≡ diagnosis_table f
unfolding ranking diagnosis_table rule_already_paid rule_duplicate_payment rule_chargeback_active
    rule_customer_cancelled rule_mandate_revoked rule_card_expired rule_authentication_failed
    rule_insufficient_funds
table-first_rule f =
    rw
      (
        is_some-bank f,
        is_some-upi f,
        rule_already_paid,
        is_some-when,
        rule_duplicate_payment,
        is_some-when,
        rule_chargeback_active,
        is_some-when,
        rule_customer_cancelled,
        is_some-when,
        rule_mandate_revoked,
        is_some-when,
        rule_card_expired,
        is_some-when,
        rule_authentication_failed,
        is_some-when,
        rule_insufficient_funds,
        is_some-when,
      )
      refl

-- The primary diagnosis of a payment is that of a table over the conditions of the rules, read from the
-- first to the last in the order of precedence.
pub pick_primary-table :
    (f : DiagnosisFeatures) → pick_primary (evaluate_rules f) ≡ diagnosis_table f
unfolding pick_primary evaluate_rules ranking rules
pick_primary-table f =
    first_fired-first_rule f ranking (ranking-Own f) (ground arith) ∙ table-first_rule f
