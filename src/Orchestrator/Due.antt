-- ===== src/Orchestrator/Due.antt =====
-- services/src/services/action_orchestrator/orchestrator.py: `run_due` and `replay`.
use recovery_pilot_ai.Orchestrator.Blocked.{Quiet, Quiet-if, run-Quiet}
use mathlib.Core.Option.{none}
use recovery_pilot_ai.Orchestrator.Progress.{run-ends}
use recovery_pilot_ai.Executor.Models.{strategy_code}
use recovery_pilot_ai.Orchestrator.Gates.{is_blocked_decision, moment_or}
use recovery_pilot_ai.Scheduler.Store.{complete, JobStatus}
use recovery_pilot_ai.Base.{
  Bool, ℕ, not, is_some, some, ◌&&◌, ◌≡◌, false, suc, true, leb, ◌==◌, if◌then◌else◌, refl, subst,
}
use recovery_pilot_ai.Orchestrator.Run.{Services, persist_status, Outcome, World, with_fallback}
use recovery_pilot_ai.Orchestrator.Models.{
  ActionRecord, OrchestratorContext, find_row, is_wait_strategy, Display,
}
use recovery_pilot_ai.Orchestrator.Start.{run}

-- The row as it stands once the window of its waiting strategy is reached, and the world.
unfoldable pub close_wait : ActionRecord → OrchestratorContext → World → ActionRecord × World
unfolding persist_status complete
close_wait row context w =
    let (stored, w₁) =
      persist_status (record row { executed_time = some context.as_of }) Display.success w in
    (stored, record w₁ { jobs = complete stored.id JobStatus.done w₁.jobs })

-- `strategy in WAIT_STRATEGIES and as_of >= (scheduled_time or as_of)`
abbrev pub wait_is_over : ActionRecord → ℕ → Bool
wait_is_over row as_of =
    is_wait_strategy row.planner_strategy && leb (moment_or row.scheduled_time as_of) as_of

-- Whether a fallback goes on: it does not wait and is another strategy.
abbrev pub goes_on : ActionRecord → OrchestratorContext → Bool
goes_on row context =
    not (is_wait_strategy context.plan.fallback_strategy)
    && not (strategy_code context.plan.fallback_strategy == strategy_code row.planner_strategy)

unfoldable pub run_due : ℕ → Services → ActionRecord → OrchestratorContext → World → Outcome
unfolding run close_wait
run_due n services row context w =
    let closed = close_wait row context w in
    let plain = run n services context false true w in
    let next = run n services (with_fallback context) false false closed.1 in
    if wait_is_over row context.as_of
    then (if goes_on row context then next else some (closed.0, false, closed.1))
    else plain

-- `none` also stands for ActionNotFoundError.
unfoldable pub replay : ℕ → Services → ℕ → OrchestratorContext → World → Outcome
unfolding run find_row
replay n services id context w =
    let again = run n services context false true w in
    elim (find_row id w.actions) [ none ↦ none | some row ↦ again ]

some-if :
    (b : Bool) (x y : Outcome)
    → is_some x ≡ true
    → is_some y ≡ true
    → is_some (if b then x else y) ≡ true
some-if true x y h k = h
some-if false x y h k = k

-- A due row of a plan whose case is known always gets a result.
pub run_due-ends :
    (services : Services) (row : ActionRecord) (context : OrchestratorContext) (n : ℕ) (w : World)
    (case_id : ℕ)
    → context.plan.recovery_case_id ≡ some case_id
    → is_some (run_due (suc (suc n)) services row context w) ≡ true
unfolding run_due
run_due-ends services row context n w case_id h =
    let closed = close_wait row context w in
    some-if (wait_is_over row context.as_of) _ _
      (some-if (goes_on row context) _ _
        (run-ends services (with_fallback context) false false n closed.1 case_id h) refl)
      (run-ends services context false true n w case_id h)

-- Under STOP or DENY a due row makes no call to Razorpay either, and no more does its fallback.
pub run_due-blocked :
    (services : Services) (row : ActionRecord) (context : OrchestratorContext) (n : ℕ)
    (w after : World) (last : ActionRecord) (replayed : Bool)
    → is_blocked_decision context.policy.decision ≡ true
    → run_due n services row context w ≡ some (last, replayed, after)
    → after.calls ≡ w.calls
unfolding run_due close_wait persist_status
run_due-blocked services row context n w after last replayed h e =
    let closed = close_wait row context w in
    subst (Quiet w) e (
      Quiet-if w (wait_is_over row context.as_of) _ _
        (Quiet-if w (goes_on row context) _ _
          (run-Quiet services (with_fallback context) false false n closed.1 h) refl)
        (run-Quiet services context false true n w h))
