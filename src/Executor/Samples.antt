-- ===== src/Executor/Samples.antt =====
-- One ledger and two plans, and the executor's properties at them.
use recovery_pilot_ai.Executor.Totals.{unavailable_case_result-settles, execute_plans-totals}
use recovery_pilot_ai.Executor.Summary.{
  unavailable_case_result, summarize_executions, execute_plans, amount_of,
}
use recovery_pilot_ai.Executor.Deliveries.{process_webhooks-replay}
use recovery_pilot_ai.Executor.Batch.{runs_key, recovers_key, execute_many-once}
use recovery_pilot_ai.Executor.Idempotency.{execute-twice, execute-recorded}
use recovery_pilot_ai.Executor.Shape.{Pays}
use recovery_pilot_ai.Executor.Money.{execute-recovered}
use recovery_pilot_ai.Base.{
  ◌+◌, ◌≡◌, ◌∷◌, some, [], false, refl, count_if, none, ◌++◌, ◌||◌, ◌≤◌, any, ◌==◌, List, sum_of,
  or_else,
}
use recovery_pilot_ai.Planner.Models.{RecoveryPlan, PlannerStrategy}
use recovery_pilot_ai.Executor.Webhooks.{process_webhooks}
use recovery_pilot_ai.Executor.Models.{
  ExecutorContext, SimulatedWebhookEvent, Hashes, ExecutionResult, StrategyName, EventType,
  ExecutionStatus, make_idempotency_key,
}
use recovery_pilot_ai.Executor.Log.{get, lookup, ExecutionLogStore, empty_store, seen_webhook}
use recovery_pilot_ai.Executor.Engine.{execute_many, execute, key_of}

abbrev hashes : Hashes
hashes = record {
  execution_id_for = λ key. key.scheduled_at;
  event_id = λ case at type index. at + index;
  link_id = λ case at. at;
  digest = λ case strategy at payment. at;
}

-- A retry whose probability makes it succeed.
abbrev retry_plan : RecoveryPlan
retry_plan = record {
  strategy = PlannerStrategy.retry_payment;
  scheduled_at = 100;
  recommended_channels = [];
  fallback_strategy = PlannerStrategy.send_payment_link;
  expected_recovery_probability = 9000;
  estimated_recovery_value = 0;
  recovery_case_id = some 7;
  payment_id = some 9;
  diagnosis_feature = none;
  payment_amount_feature = none;
}

abbrev first : ExecutorContext
first = record {
  as_of = 120;
  plan = retry_plan;
  strategy = StrategyName.known PlannerStrategy.retry_payment;
  recovery_case_id = some 7;
  payment_id = some 9;
  payment_amount = 5000;
  payment_method = none;
  diagnosis = none;
}

-- The same plan an hour later.
abbrev later : ExecutorContext
later = record first { as_of = 3720 }

-- A plan that hands the case to a human.
abbrev handed_over : ExecutorContext
handed_over = record first { strategy = StrategyName.known PlannerStrategy.escalate_to_human }

abbrev after_first : ExecutionLogStore
after_first = (execute hashes first empty_store).1

abbrev first_result : ExecutionResult
first_result = (execute hashes first empty_store).0

first-known : get (key_of later) after_first ≡ some first_result
unfolding lookup key_of make_idempotency_key
first-known = (execute-recorded hashes first empty_store refl).0

execute-twice_example :
    (let after = (execute hashes first empty_store).1 in
      let (second, final) = execute hashes later after in
      (second.status ≡ ExecutionStatus.duplicate_skipped)
      × (second.success ≡ false)
      × (second.recovered_value ≡ 0)
      × (second.webhooks ≡ [])
      × (final.executions ≡ after.executions)
      × (final.webhooks ≡ after.webhooks))
unfolding key_of make_idempotency_key
execute-twice_example = execute-twice hashes first later empty_store refl

execute-recovered_example :
    (let result = (execute hashes first empty_store).0 in
      Pays first result.execution_type result.success result.recovered_value)
execute-recovered_example = execute-recovered hashes first empty_store

abbrev batch : List ExecutorContext
batch = first ∷ later ∷ handed_over ∷ []

execute_many-once_example :
    (let results = (execute_many hashes batch empty_store).0 in
      (count_if (runs_key (key_of first)) results ≤ 1)
      × (count_if (recovers_key (key_of first)) results ≤ 1))
execute_many-once_example = execute_many-once hashes batch empty_store (key_of first)

execute_plans-totals_example :
    (let summary =
        summarize_executions (execute_plans hashes (retry_plan ∷ []) 120 empty_store).0 in
      (summary.total_plans ≡ 1)
      × (summary.executed + summary.duplicates ≡ 1)
      × (summary.estimated_recovered_value ≤ sum_of amount_of (retry_plan ∷ [])))
execute_plans-totals_example = execute_plans-totals hashes (retry_plan ∷ []) 120 empty_store

-- A plan for another moment.
abbrev other_plan : RecoveryPlan
other_plan = record retry_plan { scheduled_at = 900 }

unavailable_case_result-settles_example :
    (let after = (unavailable_case_result hashes other_plan 3720 after_first).1 in
      (or_else (get (key_of later) after_first) (get (key_of later) after)
        ≡ get (key_of later) after)
      × (after.webhooks ≡ after_first.webhooks)
      × ((execute hashes (record later { plan = other_plan }) after).0.status
          ≡ ExecutionStatus.duplicate_skipped)
      × ((execute hashes (record later { plan = other_plan }) after).0.recovered_value ≡ 0))
unfolding make_idempotency_key key_of
unavailable_case_result-settles_example =
    unavailable_case_result-settles hashes other_plan 3720 after_first (key_of later)
      (record later { plan = other_plan }) refl

abbrev captured : SimulatedWebhookEvent
captured = record {
  event_id = 5;
  event_type = EventType.payment_captured;
  replay = false;
  created_at = 120;
}

abbrev charged : SimulatedWebhookEvent
charged = record captured { event_id = 6; event_type = EventType.subscription_charged }

process_webhooks-replay_example :
    (process_webhooks ((captured ∷ []) ++ (captured ∷ [])) empty_store).0
    ≡ (process_webhooks (captured ∷ []) empty_store).0
      ++ (record captured {
        replay =
            seen_webhook captured.event_id empty_store
            || any (λ x. captured.event_id == x.event_id) (captured ∷ []);
      }
          ∷ [])
process_webhooks-replay_example = process_webhooks-replay (captured ∷ []) captured empty_store
