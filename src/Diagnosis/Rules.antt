-- ===== src/Diagnosis/Rules.antt =====
-- services/src/services/diagnosis/rules.py: the ten rules.
use recovery_pilot_ai.Enums.{MandateStatus, DiagnosisCategory, FailureReason}
use recovery_pilot_ai.Communications.Models.{same_text, Text}
use Prim.Native.String.{String}
use recovery_pilot_ai.Diagnosis.Models.{
  round_div, DiagnosisFeatures, RuleHit, is_reason, EvidenceItem,
}
use recovery_pilot_ai.Diagnosis.Features.{upper, rail_upi, rail_card, rail_netbanking}
use recovery_pilot_ai.Base.{
  Option, Bool, List, ltb, not, ◌∷◌, ◌&&◌, ◌||◌, ℕ, some, if◌then◌else◌, [], none, sum_of, min, ◌-◌,
  leb, true, false, ◌*◌, ◌+◌,
}

-- `_hit` without items of its own: the code is the rule's id in capitals.
abbrev pub hit : String → String → DiagnosisCategory → ℕ → Option RuleHit
hit rule_id code diagnosis weight = some (record {
  rule_id = rule_id;
  diagnosis = diagnosis;
  weight = weight;
  evidence_items = record { code = code; weight = weight } ∷ [];
})

abbrev pub when : Bool → Option RuleHit → Option RuleHit
when b found = if b then found else none

unfoldable pub rule_already_paid : DiagnosisFeatures → Option RuleHit
rule_already_paid f = when f.already_paid_after_failure (
    hit "already_paid_after_failure" "ALREADY_PAID_AFTER_FAILURE" DiagnosisCategory.already_paid
      9000)

unfoldable pub rule_duplicate_payment : DiagnosisFeatures → Option RuleHit
rule_duplicate_payment f = when f.duplicate_captured (
    hit "duplicate_captured_invoice" "DUPLICATE_CAPTURED_INVOICE"
      DiagnosisCategory.duplicate_payment 8500)

unfoldable pub rule_chargeback_active : DiagnosisFeatures → Option RuleHit
rule_chargeback_active f =
    when f.dispute_signal
      (hit "dispute_or_chargeback" "DISPUTE_OR_CHARGEBACK" DiagnosisCategory.chargeback_active 8800)

unfoldable pub cancels : DiagnosisFeatures → Bool
cancels f =
    f.subscription_cancelled || is_reason FailureReason.customer_cancelled f.recorded_failure_reason

unfoldable pub rule_customer_cancelled : DiagnosisFeatures → Option RuleHit
unfolding cancels
rule_customer_cancelled f =
    when (cancels f)
      (hit "customer_cancelled" "CUSTOMER_CANCELLED" DiagnosisCategory.customer_cancelled 8600)

abbrev pub is_expired : Option MandateStatus → Bool
is_expired (some MandateStatus.expired) = true
is_expired _ = false

unfoldable pub revokes : DiagnosisFeatures → Bool
revokes f =
    f.mandate_revoked
    || is_reason FailureReason.mandate_revoked f.recorded_failure_reason
    || (is_expired f.mandate_status && not f.card_method)

unfoldable pub rule_mandate_revoked : DiagnosisFeatures → Option RuleHit
unfolding revokes
rule_mandate_revoked f =
    when (revokes f)
      (hit "mandate_revoked" "MANDATE_REVOKED" DiagnosisCategory.mandate_revoked 8700)

unfoldable pub expires : DiagnosisFeatures → Bool
expires f =
    is_reason FailureReason.card_expired f.recorded_failure_reason
    || (f.card_method && is_expired f.mandate_status)

unfoldable pub rule_card_expired : DiagnosisFeatures → Option RuleHit
unfolding expires
rule_card_expired f =
    when (expires f) (hit "card_expired" "CARD_EXPIRED" DiagnosisCategory.card_expired 8400)

-- `(features.outage_rail or "").upper()`
unfoldable pub rail_name : DiagnosisFeatures → Text
unfolding upper
rail_name f = elim (f.outage_rail) [ none ↦ [] | some rail ↦ upper rail ]

-- `not` of the first condition of `rule_bank_timeout`.
unfoldable pub bank_is_out : DiagnosisFeatures → Bool
unfolding rail_name same_text
bank_is_out f =
    let recorded = is_reason FailureReason.bank_timeout f.recorded_failure_reason in
    (f.outage_detected
      && (same_text (rail_name f) rail_card || same_text (rail_name f) rail_netbanking))
    || (recorded && f.outage_detected)

unfoldable pub rule_bank_timeout : DiagnosisFeatures → Option RuleHit
unfolding bank_is_out
rule_bank_timeout f =
    if bank_is_out f
    then hit "outage_bank_timeout" "OUTAGE_BANK_TIMEOUT" DiagnosisCategory.bank_timeout 8200
    else when (is_reason FailureReason.bank_timeout f.recorded_failure_reason && not f.upi_method)
        (hit "recorded_bank_timeout" "RECORDED_BANK_TIMEOUT" DiagnosisCategory.bank_timeout 5500)

unfoldable pub upi_is_out : DiagnosisFeatures → Bool
unfolding rail_name same_text
upi_is_out f = f.outage_detected && same_text (rail_name f) rail_upi

unfoldable pub rule_upi_timeout : DiagnosisFeatures → Option RuleHit
unfolding upi_is_out
rule_upi_timeout f =
    if upi_is_out f
    then hit "outage_upi_timeout" "OUTAGE_UPI_TIMEOUT" DiagnosisCategory.upi_timeout 8300
    else when
        (is_reason FailureReason.upi_failure f.recorded_failure_reason
          && (f.weekend_payment && f.upi_method))
        (hit "weekend_upi_timeout" "WEEKEND_UPI_TIMEOUT" DiagnosisCategory.upi_timeout 4800)

unfoldable pub fails_authentication : DiagnosisFeatures → Bool
fails_authentication f =
    not f.outage_detected
    && (is_reason FailureReason.upi_failure f.recorded_failure_reason
        || (f.upi_method && leb 2 f.retry_count))

unfoldable pub rule_authentication_failed : DiagnosisFeatures → Option RuleHit
unfolding fails_authentication
rule_authentication_failed f = when (fails_authentication f) (
    hit "authentication_failed" "AUTHENTICATION_FAILED" DiagnosisCategory.authentication_failed
      6200)

-- A code and its share, in tenths.
abbrev pub Share : Type 0
Share = String × ℕ

abbrev pub share_if : Bool → String → ℕ → List Share → List Share
share_if b code share rest = if b then (code, share) ∷ rest else rest

abbrev pub recorded_nsf : DiagnosisFeatures → Bool
recorded_nsf f = is_reason FailureReason.insufficient_funds f.recorded_failure_reason

-- `_nsf_evidence`
unfoldable pub nsf_evidence : DiagnosisFeatures → List Share
nsf_evidence f = share_if (recorded_nsf f) "RECORDED_INSUFFICIENT_FUNDS" 10 (
    share_if f.salary_dependent "SALARY_DEPENDENT" 12 (
      share_if f.pre_payday_window "PRE_PAYDAY_WINDOW" 13 (
        share_if (ltb 0 f.days_until_payday) "DAYS_UNTIL_PAYDAY" 11
          (share_if (ltb 0 f.previous_success_count) "PRIOR_SUCCESS" 10 []))))

abbrev pub item : String → ℕ → EvidenceItem
item code weight = record { code = code; weight = min 10000 weight }

-- The loop that allots the rule's weight: each item its share, and the last what is left.
unfoldable pub allot : ℕ → ℕ → ℕ → List Share → List EvidenceItem
unfolding round_div
allot weight total allocated [] = []
allot weight total allocated ((code, share) ∷ []) = item code (weight - allocated) ∷ []
allot weight total allocated ((code, share) ∷ (next ∷ rest)) =
    let part = round_div (weight * share) total in
    item code part ∷ allot weight total (allocated + part) (next ∷ rest)

abbrev pub shares_or_recorded : List Share → List Share
shares_or_recorded [] = ("RECORDED_INSUFFICIENT_FUNDS", 10) ∷ []
shares_or_recorded (s ∷ ss) = s ∷ ss

unfoldable pub salary_nsf : DiagnosisFeatures → Bool
salary_nsf f = f.salary_dependent && f.pre_payday_window

unfoldable pub nsf_hit : DiagnosisFeatures → RuleHit
unfolding nsf_evidence allot salary_nsf
nsf_hit f =
    let weight = if salary_nsf f then 7800 else 6000 in
    let raw = shares_or_recorded (nsf_evidence f) in
    record {
      rule_id = "insufficient_funds";
      diagnosis = DiagnosisCategory.insufficient_funds;
      weight = weight;
      evidence_items = allot weight (sum_of (λ s. s.1) raw) 0 raw;
    }

unfoldable pub rule_insufficient_funds : DiagnosisFeatures → Option RuleHit
unfolding nsf_hit salary_nsf
rule_insufficient_funds f = when (recorded_nsf f || salary_nsf f) (some (nsf_hit f))

-- `RULES`
unfoldable pub rules : List (DiagnosisFeatures → Option RuleHit)
unfolding rule_already_paid rule_duplicate_payment rule_chargeback_active rule_customer_cancelled
    rule_mandate_revoked rule_card_expired rule_bank_timeout rule_upi_timeout
    rule_authentication_failed rule_insufficient_funds
rules =
    rule_already_paid ∷ rule_duplicate_payment ∷ rule_chargeback_active ∷ rule_customer_cancelled
    ∷ rule_mandate_revoked ∷ rule_card_expired ∷ rule_bank_timeout ∷ rule_upi_timeout
    ∷ rule_authentication_failed ∷ rule_insufficient_funds ∷ []

abbrev pub cons_some : Option RuleHit → List RuleHit → List RuleHit
cons_some none hits = hits
cons_some (some found) hits = found ∷ hits

-- The loop of `evaluate_rules`.
unfoldable pub run_rules :
    List (DiagnosisFeatures → Option RuleHit) → DiagnosisFeatures → List RuleHit
run_rules [] f = []
run_rules (rule ∷ rest) f = cons_some (rule f) (run_rules rest f)

unfoldable pub evaluate_rules : DiagnosisFeatures → List RuleHit
unfolding run_rules rules
evaluate_rules f = run_rules rules f
