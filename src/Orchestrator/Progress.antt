-- ===== src/Orchestrator/Progress.antt =====
-- services/src/services/action_orchestrator/orchestrator.py: a run ends.
use recovery_pilot_ai.Orchestrator.Gates.{evaluate_gates}
use recovery_pilot_ai.Planner.Models.{PlannerStrategy}
use recovery_pilot_ai.Executor.Models.{IdempotencyKey}
use recovery_pilot_ai.Base.{
  Bool, ℕ, ◌≡◌, some, false, none, is_some, if◌then◌else◌, suc, ◌&&◌, refl, sym, ◌∙◌, arith, subst,
  Option,
}
use recovery_pilot_ai.Orchestrator.Models.{
  OrchestratorContext, ActionRecord, is_wait_strategy, GateDecision, Display,
}
use recovery_pilot_ai.Orchestrator.Start.{
  run, start, run_row, run_case, is_hit, start_for, run_existing, action_key, fresh_row,
}
use recovery_pilot_ai.Orchestrator.Run.{
  dispatch_as, World, Services, dispatch, Outcome, with_fallback, new_result, persist_status,
}
use mathlib.Core.Bool.{false≢true, true, not}

-- The outcome is an answer, and its world satisfies `P`.
abbrev pub Reaches : (World → Type 0) → Outcome → Type 0
Reaches P none = ⊥
Reaches P (some (row, replayed, w)) = P w

Reaches-if :
    (P : World → Type 0) (b : Bool) (x y : Outcome)
    → (b ≡ true → Reaches P x)
    → (b ≡ false → Reaches P y)
    → Reaches P (if b then x else y)
Reaches-if P true x y h k = h refl
Reaches-if P false x y h k = k refl

abbrev pub Any : World → Type 0
Any w = Unit

-- What a waiting strategy needs of the run with its fallback.
abbrev GoesOn : (OrchestratorContext → World → Outcome) → OrchestratorContext → Type 0
GoesOn again context =
    is_wait_strategy context.plan.strategy ≡ true
    → is_wait_strategy context.plan.fallback_strategy ≡ false
    → (v : World) → Reaches Any (again (with_fallback context) v)

waits-on :
    (again : OrchestratorContext → World → Outcome) (context : OrchestratorContext) (b : Bool)
    (v : World) (other : ActionRecord × World)
    → (is_wait_strategy context.plan.fallback_strategy ≡ false
        → (v : World) → Reaches Any (again (with_fallback context) v))
    → Reaches Any (
        if not (is_wait_strategy context.plan.fallback_strategy) && b
        then again (with_fallback context) v
        else new_result other)
waits-on again context b v other f =
    Reaches-if Any (not (is_wait_strategy context.plan.fallback_strategy) && b) _ _
      (λ t. f (ground arith) v) (λ _. tt)

dispatch_as-ends :
    (again : OrchestratorContext → World → Outcome) (services : Services) (row : ActionRecord)
    (context : OrchestratorContext) (key : IdempotencyKey) (w : World) (strategy : PlannerStrategy)
    → (is_wait_strategy strategy ≡ true
        → is_wait_strategy context.plan.fallback_strategy ≡ false
        → (v : World) → Reaches Any (again (with_fallback context) v))
    → Reaches Any (dispatch_as again services row context key w strategy)
unfolding dispatch_as
dispatch_as-ends again services row context key w PlannerStrategy.stop_recovery f = tt
dispatch_as-ends again services row context key w PlannerStrategy.escalate_to_human f = tt
dispatch_as-ends again services row context key w PlannerStrategy.wait_for_payday f =
    waits-on again context _ _ _ (f refl)
dispatch_as-ends again services row context key w PlannerStrategy.honour_promise_to_pay f =
    waits-on again context _ _ _ (f refl)
dispatch_as-ends again services row context key w PlannerStrategy.retry_payment f = tt
dispatch_as-ends again services row context key w PlannerStrategy.retry_silently f = tt
dispatch_as-ends again services row context key w PlannerStrategy.send_payment_link f = tt
dispatch_as-ends again services row context key w PlannerStrategy.switch_payment_method f = tt
dispatch_as-ends again services row context key w PlannerStrategy.request_new_mandate f = tt

run_row-ends :
    (again : OrchestratorContext → World → Outcome) (services : Services)
    (context : OrchestratorContext) (replay : Bool) (row : ActionRecord) (gate : GateDecision)
    (key : IdempotencyKey) (w : World)
    → GoesOn again context
    → Reaches Any (run_row again services context replay row gate key w)
unfolding run_row dispatch
run_row-ends again services context replay row gate key w f =
    Reaches-if Any gate.block _ _ (λ _. tt)
      (λ _.
        Reaches-if Any (gate.defer && not replay) _ _ (λ _. tt)
          (λ _.
            let sent =
              persist_status (record row { executed_time = some context.as_of }) Display.sent w in
            dispatch_as-ends again services sent.0 context key sent.1 context.plan.strategy f))

run_case-ends :
    (again : OrchestratorContext → World → Outcome) (services : Services)
    (context : OrchestratorContext) (force_schedule replay : Bool) (case_id : ℕ) (w : World)
    (existing : Option ActionRecord)
    → GoesOn again context
    → Reaches Any (run_case again services context force_schedule replay case_id w existing)
unfolding run_case
run_case-ends again services context force_schedule replay case_id w existing f =
    let key = action_key context case_id in
    let row = fresh_row existing context case_id (services.hashes.execution_id_for key) key in
    run_row-ends again services context replay row
      (evaluate_gates context.plan context.policy context.as_of force_schedule) key w f

run_existing-ends :
    (again : OrchestratorContext → World → Outcome) (services : Services)
    (context : OrchestratorContext) (force_schedule replay : Bool) (case_id : ℕ) (w : World)
    (existing : Option ActionRecord)
    → GoesOn again context
    → Reaches Any (run_existing again services context force_schedule replay case_id w existing)
unfolding run_existing
run_existing-ends again services context force_schedule replay case_id w none f =
    run_case-ends again services context force_schedule replay case_id w none f
run_existing-ends again services context force_schedule replay case_id w (some row) f =
    Reaches-if Any (is_hit replay row) _ _ (λ _. tt)
      (λ _. run_case-ends again services context force_schedule replay case_id w (some row) f)

start-ends :
    (again : OrchestratorContext → World → Outcome) (services : Services)
    (context : OrchestratorContext) (force_schedule replay : Bool) (w : World) (case_id : ℕ)
    → context.plan.recovery_case_id ≡ some case_id
    → GoesOn again context
    → Reaches Any (start again services context force_schedule replay w)
unfolding start start_for
start-ends again services context force_schedule replay w case_id h f =
    subst (λ o. Reaches Any (start_for again services context force_schedule replay w o)) (sym h)
      (run_existing-ends again services context force_schedule replay case_id w _ f)

-- Two units of fuel are enough: a run of a plan whose case is known ends with a result, whatever
-- the services answer.
pub run-ends :
    (services : Services) (context : OrchestratorContext) (force_schedule replay : Bool) (n : ℕ)
    (w : World) (case_id : ℕ)
    → context.plan.recovery_case_id ≡ some case_id
    → is_some (run (suc (suc n)) services context force_schedule replay w) ≡ true
unfolding run
run-ends services context force_schedule replay n w case_id h = reached _ (
    start-ends (λ c v. run (suc n) services c false false v) services context force_schedule replay
      w case_id h
      λ wait plain v.
        start-ends (λ c u. run n services c false false u) services (with_fallback context) false
          false v case_id h λ wait' plain' u. absurd (false≢true (sym plain ∙ wait')))
  where
    reached : (o : Outcome) → Reaches Any o → is_some o ≡ true
    reached none r = absurd r
    reached (some x) r = refl
