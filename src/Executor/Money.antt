-- ===== src/Executor/Money.antt =====
-- services/src/services/executor/executor_engine.py: the trace and the recovered amount of a result.
use mathlib.Core.Bool.{false≢true}
use recovery_pilot_ai.Executor.Outcomes.{execute-new, execute-known, type_or_stop}
use recovery_pilot_ai.Base.{Option-cases, ◌≡◌, ◌∷◌, inl, [], inr, refl, ◌∙◌, ap, ◌++◌, false, sym}
use recovery_pilot_ai.Executor.Shape.{Pays, step_names, names-snoc, moves_money}
use recovery_pilot_ai.Executor.Engine.{execute, key_of}
use recovery_pilot_ai.Executor.Log.{ExecutionLogStore, get}
use recovery_pilot_ai.Executor.Models.{Hashes, ExecutorContext, TraceName, execution_type_for}
use recovery_pilot_ai.Executor.Results.{finish, duplicate_result, action_step_name}

-- The trace of every call, a duplicate and an unknown strategy included, is the same five steps,
-- with the step of the result's kind of execution in the middle.
pub execute-trace :
    (hashes : Hashes) (context : ExecutorContext) (store : ExecutionLogStore)
    → (let result = (execute hashes context store).0 in
        step_names result.execution_trace
        ≡ TraceName.idempotency_check
          ∷ TraceName.execution_start
          ∷ action_step_name result.execution_type
          ∷ TraceName.webhook_processing
          ∷ TraceName.audit_event_creation
          ∷ [])
unfolding finish duplicate_result
execute-trace hashes context store = elim (Option-cases (get (key_of context) store)) [
  | inl e ↦
      let fresh = execute-new hashes context store e in
      let r = fresh.run in
      let names =
        r.names
        ∙ ap (λ xs. xs ++ (action_step_name fresh.type ∷ TraceName.webhook_processing ∷ []))
            fresh.begins in
      rw (r.finished, r.kind)
        (names-snoc r.steps TraceName.audit_event_creation _ _
          ∙ ap (λ xs. xs ++ (TraceName.audit_event_creation ∷ [])) names)
  | inr (prior, e) ↦ rw (execute-known hashes context store prior e) refl
]

-- A call recovers nothing, or it is a success, executes a retry or a payment link (a switch to UPI
-- included), and has recovered the amount of the payment.
pub execute-recovered :
    (hashes : Hashes) (context : ExecutorContext) (store : ExecutionLogStore)
    → (let result = (execute hashes context store).0 in
        Pays context result.execution_type result.success result.recovered_value)
unfolding finish duplicate_result
execute-recovered hashes context store = elim (Option-cases (get (key_of context) store)) [
  | inl e ↦ let r = (execute-new hashes context store e).run in rw (r.finished, r.kind) (r.pays)
  | inr (prior, e) ↦ rw (execute-known hashes context store prior e) (inl refl)
]

-- A plan whose strategy neither retries nor sends a link, one that the executor does not know
-- included, recovers nothing.
pub execute-recovered_none :
    (hashes : Hashes) (context : ExecutorContext) (store : ExecutionLogStore)
    → moves_money (type_or_stop (execution_type_for context.strategy)) ≡ false
    → (execute hashes context store).0.recovered_value ≡ 0
unfolding finish duplicate_result
execute-recovered_none hashes context store h = elim (Option-cases (get (key_of context) store)) [
  | inl e ↦
      let fresh = execute-new hashes context store e in
      let r = fresh.run in
      rw (r.finished) (elim r.pays [
        | inl z ↦ z
        | inr (done, value, moves) ↦
            absurd (false≢true (sym (ap moves_money fresh.chosen ∙ h) ∙ moves))
      ])
  | inr (prior, e) ↦ rw (execute-known hashes context store prior e) refl
]
