-- ===== src/Policy/Engine.antt =====
-- services/src/services/policy/policy_engine.py: the decisions of a batch and their summary. `evaluate` is the one of
-- Evaluator. A counter is keyed by the position of a decision or channel in its enum.
use recovery_pilot_ai.Policy.Evaluator.{evaluate}
use recovery_pilot_ai.Policy.Models.{PolicyDecision, Channel, PolicyDecisionResult, PolicyContext}
use recovery_pilot_ai.Base.Counters.{tally_all, count_of}
use recovery_pilot_ai.Base.{◌∷◌, [], List, ℕ, length, map, ◌+◌}

pub record BatchPolicySummary : Type 0 where
  pub total_cases : ℕ
  pub decision_distribution : List (ℕ × ℕ)
  pub stopped_cases : ℕ
  pub escalated_cases : ℕ
  pub waiting_cases : ℕ
  pub allowed_cases : ℕ
  pub denied_cases : ℕ
  pub blocked_channel_counts : List (ℕ × ℕ)

pub record BatchPolicyResult : Type 0 where
  pub results : List PolicyDecisionResult
  pub missing_case_ids : List ℕ
  pub summary : BatchPolicySummary

abbrev pub decision_code : PolicyDecision → ℕ
decision_code PolicyDecision.allow = 0
decision_code PolicyDecision.wait = 1
decision_code PolicyDecision.deny = 2
decision_code PolicyDecision.stop = 3
decision_code PolicyDecision.escalate = 4

abbrev pub channel_code : Channel → ℕ
channel_code Channel.whatsapp = 0
channel_code Channel.sms = 1
channel_code Channel.voice = 2
channel_code Channel.email = 3
channel_code Channel.upi_payment_link = 4
channel_code Channel.card_update_link = 5
channel_code Channel.dashboard_notification = 6

-- The loop over the results that fills `blocked_counts`.
unfoldable pub count_blocked : List PolicyDecisionResult → List (ℕ × ℕ) → List (ℕ × ℕ)
unfolding tally_all
count_blocked [] counts = counts
count_blocked (item ∷ items) counts =
    count_blocked items (tally_all (map channel_code item.blocked_channels) counts)

unfoldable pub summarize_decisions : List PolicyDecisionResult → BatchPolicySummary
unfolding tally_all count_blocked
summarize_decisions results =
    let dist = tally_all (map (λ item. decision_code item.decision) results) [] in
    record {
      total_cases = length results;
      decision_distribution = dist;
      stopped_cases = count_of (decision_code PolicyDecision.stop) dist;
      escalated_cases = count_of (decision_code PolicyDecision.escalate) dist;
      waiting_cases = count_of (decision_code PolicyDecision.wait) dist;
      allowed_cases = count_of (decision_code PolicyDecision.allow) dist;
      denied_cases = count_of (decision_code PolicyDecision.deny) dist;
      blocked_channel_counts = count_blocked results [];
    }

unfoldable pub evaluate_many : List PolicyContext → BatchPolicyResult
unfolding evaluate summarize_decisions
evaluate_many contexts =
    let results = map evaluate contexts in
    record { results = results; missing_case_ids = []; summary = summarize_decisions results }

unfoldable pub evaluate_batch_contexts : List PolicyContext → List ℕ → BatchPolicyResult
unfolding evaluate_many
evaluate_batch_contexts contexts missing =
    let batch = evaluate_many contexts in
    record {
      results = batch.results;
      missing_case_ids = missing;
      summary = record batch.summary { total_cases = length contexts + length missing };
    }
