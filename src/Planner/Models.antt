-- ===== src/Planner/Models.antt =====
-- services/src/services/planner/models.py: the strategies and the plan.
-- A probability is held in ten-thousandths: the code rounds it to four places.
use recovery_pilot_ai.Base.{ℕ, Option, List}
use recovery_pilot_ai.Enums.{DiagnosisCategory}
use recovery_pilot_ai.Policy.Models.{Channel}

pub data PlannerStrategy : Type 0 where
  wait_for_payday retry_payment retry_silently send_payment_link : PlannerStrategy
  switch_payment_method request_new_mandate honour_promise_to_pay : PlannerStrategy
  escalate_to_human stop_recovery : PlannerStrategy

-- The fields of `RecoveryPlan` that the executor and the orchestrator read. The last three are
-- entries of `features`.
pub record RecoveryPlan : Type 0 where
  pub strategy : PlannerStrategy
  pub scheduled_at : ℕ
  pub recommended_channels : List Channel
  pub fallback_strategy : PlannerStrategy
  pub expected_recovery_probability : ℕ
  pub estimated_recovery_value : ℕ
  pub recovery_case_id : Option ℕ
  pub payment_id : Option ℕ
  pub diagnosis_feature : Option DiagnosisCategory
  pub payment_amount_feature : Option ℕ
