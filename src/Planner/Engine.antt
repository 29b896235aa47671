-- ===== src/Planner/Engine.antt =====
-- services/src/services/planner/planner_engine.py: one plan of a case, and a batch with its summary. Logging, texts,
-- versions and `generated_at` are left out.
use recovery_pilot_ai.Base.Counters.{tally_all}
use recovery_pilot_ai.Policy.Engine.{channel_code}
use recovery_pilot_ai.Base.Keys.{nat_key}
use text.Mathlib.Text.{◌==◌ as str_eq}
use recovery_pilot_ai.Policy.Merge.{is_nil}
use recovery_pilot_ai.Planner.Values.{
  estimate_probability, estimate_strategy_confidence, round_half_even,
}
use recovery_pilot_ai.Executor.Models.{strategy_code}
use recovery_pilot_ai.Planner.Channels.{plan_channels}
use Prim.Native.String.{String}
use recovery_pilot_ai.Planner.Schedule.{schedule, PlannerContext, RetryWindow}
use recovery_pilot_ai.Policy.Evaluator.{add_codes}
use recovery_pilot_ai.Base.{
  ℕ, List, Bool, sum_of, ◌∷◌, Option, length, true, map, [], if◌then◌else◌, filter, ◌++◌, ◌+◌,
  false, not, count_if, ◌*◌, or_else, some,
}
use recovery_pilot_ai.Planner.Strategies.{select_strategy}
use recovery_pilot_ai.Planner.Models.{PlannerStrategy, RecoveryPlan}
use recovery_pilot_ai.Policy.Models.{PolicyDecisionResult, RuleVerdict, PolicyName}

-- A plan with the fields that nothing after the planner reads.
pub record PlannedCase : Type 0 where
  pub plan : RecoveryPlan
  pub strategy_confidence : ℕ
  pub estimated_cost : ℕ
  pub retry_window : Option RetryWindow
  pub expires_at : Option ℕ
  pub evidence_codes_used : List String
  pub policy_rules_used : List PolicyName

-- `evidence`
unfoldable pub evidence_codes_for : PlannerContext → List String
unfolding add_codes
evidence_codes_for context = add_codes [] (
    filter (λ c. not (str_eq c "")) context.diagnosis.evidence_codes
    ++ (context.policy.evidence_codes ++ context.diagnosis.triggered_rules))

abbrev pub is_pass : RuleVerdict → Bool
is_pass RuleVerdict.pass = true
is_pass _ = false

-- `policy_rules`
unfoldable pub policy_rules_for : PolicyDecisionResult → List PolicyName
policy_rules_for policy =
    if is_nil policy.triggered_policies
    then map (λ row. row.policy_name)
        (filter (λ row. not (is_pass row.result)) policy.evaluated_rules)
    else policy.triggered_policies

unfoldable pub plan : PlannerContext → PlannedCase
unfolding select_strategy schedule plan_channels estimate_probability estimate_strategy_confidence
    round_half_even evidence_codes_for policy_rules_for
plan context =
    let choice = select_strategy context.diagnosis context.policy in
    let timed = schedule choice.strategy context in
    let chosen = plan_channels choice.strategy context.policy in
    let probability = estimate_probability context choice.strategy in
    record {
      plan = record {
        strategy = choice.strategy;
        scheduled_at = timed.scheduled_at;
        recommended_channels = chosen.recommended;
        fallback_strategy = choice.fallback_strategy;
        expected_recovery_probability = probability;
        estimated_recovery_value = round_half_even (context.payment_amount * probability) 10000;
        recovery_case_id = or_else context.recovery_case_id context.diagnosis.recovery_case_id;
        payment_id = context.diagnosis.payment_id;
        diagnosis_feature = some context.diagnosis.diagnosis;
        payment_amount_feature = some context.payment_amount;
      };
      strategy_confidence = estimate_strategy_confidence context choice.strategy timed;
      estimated_cost = chosen.cost_paise;
      retry_window = timed.retry_window;
      expires_at = timed.expires_at;
      evidence_codes_used = evidence_codes_for context;
      policy_rules_used = policy_rules_for context.policy;
    }

pub record BatchPlannerSummary : Type 0 where
  pub total_cases : ℕ
  pub strategy_distribution : List (ℕ × ℕ)
  pub scheduled_retries : ℕ
  pub channel_usage : List (ℕ × ℕ)
  pub estimated_recovery_value : ℕ
  pub estimated_communication_cost : ℕ
  pub expected_recovered_revenue : ℕ

-- `_RETRY_STRATEGIES`
abbrev pub is_retry_strategy : PlannerStrategy → Bool
is_retry_strategy PlannerStrategy.retry_payment = true
is_retry_strategy PlannerStrategy.retry_silently = true
is_retry_strategy PlannerStrategy.wait_for_payday = true
is_retry_strategy _ = false

-- The channels of every plan, one after the other.
abbrev pub channels_used : List PlannedCase → List ℕ
channels_used [] = []
channels_used (item ∷ items) =
    map channel_code item.plan.recommended_channels ++ channels_used items

unfoldable pub summarize_plans : List PlannedCase → BatchPlannerSummary
unfolding tally_all
summarize_plans results =
    let recovery = sum_of (λ item. item.plan.estimated_recovery_value) results in
    record {
      total_cases = length results;
      strategy_distribution = tally_all (map (λ item. strategy_code item.plan.strategy) results) [];
      scheduled_retries = count_if (λ item. is_retry_strategy item.plan.strategy) results;
      channel_usage = tally_all (channels_used results) [];
      estimated_recovery_value = recovery;
      estimated_communication_cost = sum_of (λ item. item.estimated_cost) results;
      expected_recovered_revenue = recovery;
    }

pub record BatchPlannerResult : Type 0 where
  pub results : List PlannedCase
  pub missing_case_ids : List ℕ
  pub summary : BatchPlannerSummary

unfoldable pub plan_many : List PlannerContext → BatchPlannerResult
unfolding plan summarize_plans
plan_many contexts =
    let results = map plan contexts in
    record { results = results; missing_case_ids = []; summary = summarize_plans results }

unfoldable pub plan_batch_contexts : List PlannerContext → List ℕ → BatchPlannerResult
unfolding plan_many
plan_batch_contexts contexts missing =
    let batch = plan_many contexts in
    record {
      results = batch.results;
      missing_case_ids = missing;
      summary = record batch.summary { total_cases = length contexts + length missing };
    }
