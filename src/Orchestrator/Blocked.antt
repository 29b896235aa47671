-- ===== src/Orchestrator/Blocked.antt =====
-- services/src/services/action_orchestrator/orchestrator.py: what a policy that blocks keeps a run
-- from.
use recovery_pilot_ai.Orchestrator.Gates.{
  is_blocked_decision, evaluate_gates, evaluate_gates-OneOf, is_escalated, is_escalation,
}
use recovery_pilot_ai.Orchestrator.Models.{ActionRecord, OrchestratorContext, Display}
use recovery_pilot_ai.Base.{
  Bool, some, if◌then◌else◌, Option, true, ◌≡◌, ℕ, false, none, Bool-cases, refl, inl, inr, ◌∙◌, ap,
  ◌||◌, ◌&&◌, not, subst, suc, zero,
}
use recovery_pilot_ai.Orchestrator.Run.{
  finalize, World, Outcome, persist_status, Services, AuditEventType, ends,
}
use recovery_pilot_ai.Orchestrator.Start.{
  run_case, run, start_for, run_existing, run_row, start, is_hit, action_key, existing_row,
  fresh_row,
}

-- The outcome made no call, if there is one.
abbrev pub Quiet : World → Outcome → Type 0
Quiet w none = Unit
Quiet w (some (row, replayed, v)) = v.calls ≡ w.calls

pub Quiet-if :
    (w : World) (b : Bool) (x y : Outcome) → Quiet w x → Quiet w y → Quiet w (if b then x else y)
Quiet-if w true x y h k = h
Quiet-if w false x y h k = k

finalize-calls :
    (row : ActionRecord) (context : OrchestratorContext) (display : Display)
    (event : AuditEventType) (w : World)
    → (finalize row context display event w).1.calls ≡ w.calls
unfolding finalize persist_status
finalize-calls row context display event w = elim (Bool-cases (ends display)) [
  | inl t ↦ rw t refl
  | inr f ↦ rw f refl
]

run_case-Quiet :
    (again : OrchestratorContext → World → Outcome) (services : Services)
    (context : OrchestratorContext) (force_schedule replay : Bool) (case_id : ℕ) (w : World)
    (existing : Option ActionRecord)
    → is_blocked_decision context.policy.decision ≡ true
    → Quiet w (run_case again services context force_schedule replay case_id w existing)
unfolding run_case run_row
run_case-Quiet again services context force_schedule replay case_id w existing h =
    let key = action_key context case_id in
    let row = fresh_row existing context case_id (services.hashes.execution_id_for key) key in
    let block : (evaluate_gates context.plan context.policy context.as_of force_schedule).block
        ≡ true =
      (evaluate_gates-OneOf context.plan context.policy context.as_of force_schedule).1
      ∙ ap
          (λ b.
            b
            || (is_escalated context.policy.decision && not (is_escalation context.plan.strategy)))
          h in
    rw block (finalize-calls row context Display.cancelled AuditEventType.action_skipped w)

start_for-Quiet :
    (again : OrchestratorContext → World → Outcome) (services : Services)
    (context : OrchestratorContext) (force_schedule replay : Bool) (w : World) (case_id : Option ℕ)
    → is_blocked_decision context.policy.decision ≡ true
    → Quiet w (start_for again services context force_schedule replay w case_id)
unfolding start_for run_existing
start_for-Quiet again services context force_schedule replay w none h = tt
start_for-Quiet again services context force_schedule replay w (some case_id) h =
    let key = action_key context case_id in
    existing (existing_row (services.hashes.execution_id_for key) key w.actions)
  where
    existing :
        (o : Option ActionRecord)
        → Quiet w (run_existing again services context force_schedule replay case_id w o)
    existing none = run_case-Quiet again services context force_schedule replay case_id w none h
    existing (some row) =
        Quiet-if w (is_hit replay row) _ _ refl
          (run_case-Quiet again services context force_schedule replay case_id w (some row) h)

pub run-Quiet :
    (services : Services) (context : OrchestratorContext) (force_schedule replay : Bool) (n : ℕ)
    (w : World)
    → is_blocked_decision context.policy.decision ≡ true
    → Quiet w (run n services context force_schedule replay w)
unfolding run start
run-Quiet services context force_schedule replay zero w h = tt
run-Quiet services context force_schedule replay (suc n) w h =
    start_for-Quiet (λ c v. run n services c false false v) services context force_schedule replay w
      context.plan.recovery_case_id h

-- STOP or DENY: a run, whether forced to schedule or a replay, and whatever actions the store
-- holds, makes no call to Razorpay.
pub run-blocked :
    (services : Services) (context : OrchestratorContext) (force_schedule replay : Bool) (n : ℕ)
    (w after : World) (row : ActionRecord) (replayed : Bool)
    → is_blocked_decision context.policy.decision ≡ true
    → run n services context force_schedule replay w ≡ some (row, replayed, after)
    → after.calls ≡ w.calls
run-blocked services context force_schedule replay n w after row replayed h e =
    subst (Quiet w) e (run-Quiet services context force_schedule replay n w h)
