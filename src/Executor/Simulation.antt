-- ===== src/Executor/Simulation.antt =====
-- services/src/services/executor/retry_executor.py and payment_link_executor.py: the simulated
-- charge and the expiry of links.
use recovery_pilot_ai.Base.{
  ℕ, ◌+◌, ◌%◌, Bool, true, false, ◌&&◌, Option, none, some, ltb, leb, if◌then◌else◌, or_else,
}
use recovery_pilot_ai.Enums.{DiagnosisCategory, is_timeout}
use recovery_pilot_ai.Executor.Models.{
  RetryOutcome, ExecutorContext, Hashes, high_probability_success, low_probability_fail,
  payment_link_ttl, card_update_ttl,
}

-- `outcome_for`, on the number 0–99 of `_bucket`: the first ceiling above it.
unfoldable pub outcome_for : ℕ → RetryOutcome
outcome_for digest =
    let n = digest % 100 in
    if ltb n 55
    then RetryOutcome.success
    else if ltb n 70
    then RetryOutcome.failed
    else if ltb n 82
    then RetryOutcome.bank_timeout
    else if ltb n 94
    then RetryOutcome.nsf
    else RetryOutcome.auth_failure

abbrev pub is_success : RetryOutcome → Bool
is_success RetryOutcome.success = true
is_success _ = false

abbrev pub is_failed : RetryOutcome → Bool
is_failed RetryOutcome.failed = true
is_failed _ = false

abbrev has_no_funds : Option DiagnosisCategory → Bool
has_no_funds (some DiagnosisCategory.insufficient_funds) = true
has_no_funds _ = false

abbrev has_timeout : Option DiagnosisCategory → Bool
has_timeout none = false
has_timeout (some d) = is_timeout d

unfoldable pub simulate_retry : Hashes → ExecutorContext → RetryOutcome
unfolding outcome_for
simulate_retry hashes context =
    let p = context.plan.expected_recovery_probability in
    let hashed = outcome_for (
      hashes.digest context.recovery_case_id context.strategy context.plan.scheduled_at
        context.payment_id) in
    let diagnosis = or_else context.diagnosis context.plan.diagnosis_feature in
    if leb high_probability_success p
    then RetryOutcome.success
    else if leb p low_probability_fail
    then (if is_success hashed then RetryOutcome.failed else hashed)
    else if has_no_funds diagnosis && (is_success hashed && ltb p 5000)
    then RetryOutcome.nsf
    else if has_timeout diagnosis && is_failed hashed
    then RetryOutcome.bank_timeout
    else hashed

-- The expiry of `generate_payment_link` and of `generate_card_update_session`.
abbrev pub link_expires_at : ℕ → ℕ
link_expires_at as_of = as_of + payment_link_ttl

abbrev pub session_expires_at : ℕ → ℕ
session_expires_at as_of = as_of + card_update_ttl

-- `as_of >= expires_at`
unfoldable pub link_is_expired : ℕ → ℕ → Bool
link_is_expired expires_at as_of = leb expires_at as_of
