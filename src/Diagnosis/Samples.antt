-- ===== src/Diagnosis/Samples.antt =====
-- One failed payment of a salaried customer, and the properties of the engine at it.
use recovery_pilot_ai.Diagnosis.Scores.{score_priority-grows}
use recovery_pilot_ai.Diagnosis.Weights.{nsf_hit-weights}
use recovery_pilot_ai.Diagnosis.Rules.{
  evaluate_rules, nsf_hit, cancels, revokes, expires, bank_is_out, upi_is_out, fails_authentication,
  salary_nsf,
}
use recovery_pilot_ai.Enums.{
  PaymentStatus, DiagnosisCategory, PaymentMethod, CustomerSegment, FailureReason,
}
use recovery_pilot_ai.Policy.Models.{Zone}
use recovery_pilot_ai.Base.{sum_of, ◌≡◌, ◌*◌, some, refl, [], ◌∷◌, false, none}
use recovery_pilot_ai.Diagnosis.Models.{DiagnosisContext, PaymentSnapshot, EvidenceItem}
use recovery_pilot_ai.Diagnosis.Engine.{pick_primary}
use recovery_pilot_ai.Diagnosis.Calendar.{days_of, civil, day_length, local_day}
use recovery_pilot_ai.Diagnosis.Features.{
  days_until_payday, extract_features, matching_outage, first_outage, rail_of,
  already_paid_after_failure, duplicate_captured,
}
use recovery_pilot_ai.Diagnosis.Primary.{diagnosis_table, pick_primary-table}
use recovery_pilot_ai.Diagnosis.Scorer.{score_priority, priority_bucket}

-- A zone without an offset.
abbrev pub utc : Zone
utc = record { local = λ m. m; instant = λ m. m }

abbrev pub failed_payment : PaymentSnapshot
failed_payment = record {
  id = 1;
  amount = 99900;
  status = PaymentStatus.failed;
  method = some PaymentMethod.upi;
  failure_reason = some FailureReason.insufficient_funds;
  attempt_number = 2;
  created_at = 739853 * day_length;
  paid_at = none;
  due_date = none;
  idempotency_key = none;
  subscription_id = some 5;
}

-- 2026-08-26, and two days later.
abbrev pub salaried : DiagnosisContext
salaried = record {
  as_of = 739855 * day_length;
  timezone = utc;
  payment = failed_payment;
  customer = record { segment = CustomerSegment.at_risk; salary_dependent = false };
  subscription = none;
  customer_payments = failed_payment ∷ [];
  outages = [];
  promises = [];
  recovery_action_count = 0;
}

-- The same, with the payment of the next day.
abbrev pub paid : DiagnosisContext
paid = record salaried {
  customer_payments =
      record failed_payment {
        id = 2;
        status = PaymentStatus.captured;
        created_at = 739854 * day_length;
      }
      ∷ [];
}

-- The civil calendar at its first day, at a leap day and at the sample's day.
first_day : civil 0 ≡ record { year = 1; month = 1; day = 1 }
unfolding civil
first_day = refl

leap_day : civil 738944 ≡ record { year = 2024; month = 2; day = 29 }
unfolding civil
leap_day = refl

sample_day : civil 739853 ≡ record { year = 2026; month = 8; day = 26 }
unfolding civil
sample_day = refl

back_again : days_of (record { year = 2026; month = 8; day = 26 }) ≡ 739853
unfolding days_of
back_again = refl

until_payday : days_until_payday 739853 ≡ 6
unfolding days_until_payday civil days_of
until_payday = refl

pick_primary-table_example :
    pick_primary (evaluate_rules (extract_features salaried))
    ≡ diagnosis_table (extract_features salaried)
pick_primary-table_example = pick_primary-table (extract_features salaried)

is_nsf_sample : diagnosis_table (extract_features salaried) ≡ DiagnosisCategory.insufficient_funds
unfolding diagnosis_table extract_features local_day civil matching_outage first_outage rail_of
    already_paid_after_failure duplicate_captured cancels revokes expires bank_is_out upi_is_out
    fails_authentication salary_nsf
is_nsf_sample = refl

nsf_hit-weights_example :
    sum_of (λ (i : EvidenceItem). i.weight) (nsf_hit (extract_features salaried)).evidence_items
    ≡ (nsf_hit (extract_features salaried)).weight
nsf_hit-weights_example = nsf_hit-weights (extract_features salaried)

score_priority-grows_example :
    (score_priority (extract_features salaried)).1
    ≡ priority_bucket (score_priority (extract_features salaried)).0
score_priority-grows_example = (score_priority-grows (extract_features salaried) 100 1 1).2
