-- ===== src/Executor/Idempotency.antt =====
-- services/src/services/executor/executor_engine.py and execution_log.py: what `_execute` promises
-- on the ledger: a key runs once, and each call leaves one audit.
use recovery_pilot_ai.Executor.Ledger.{get-put_new, get-put_other, audits-put}
use recovery_pilot_ai.Executor.Outcomes.{execute-new, execute-known}
use recovery_pilot_ai.Base.{
  ◌≡◌, some, none, false, [], length, suc, length-append, ◌∙◌, arith, ap, refl, Option-cases, ◌++◌,
  inl, ◌∷◌, inr,
}
use recovery_pilot_ai.Executor.Engine.{key_of, execute}
use recovery_pilot_ai.Executor.Log.{ExecutionLogStore, record_audit, get, lookup, add_audit}
use recovery_pilot_ai.Executor.Results.{duplicate_result, finish}
use recovery_pilot_ai.Executor.Models.{
  ExecutionResult, Hashes, ExecutorContext, ExecutionStatus, IdempotencyKey, key_eq,
  ExecutionAuditEvent,
}

-- A plan whose key the ledger knows is skipped: the result repeats the identity of the prior one,
-- is not a success and recovers nothing, no webhook is sent, and the ledger gains one audit only.
pub execute-duplicate :
    (hashes : Hashes) (context : ExecutorContext) (store : ExecutionLogStore)
    (prior : ExecutionResult)
    → get (key_of context) store ≡ some prior
    → (let (result, after) = execute hashes context store in
        (result.execution_id ≡ prior.execution_id)
        × (result.status ≡ ExecutionStatus.duplicate_skipped)
        × (result.success ≡ false)
        × (result.recovered_value ≡ 0)
        × (result.webhooks ≡ [])
        × (after.executions ≡ store.executions)
        × (after.webhooks ≡ store.webhooks)
        × (length after.audits ≡ suc (length store.audits)))
unfolding duplicate_result record_audit
execute-duplicate hashes context store prior h =
    rw (execute-known hashes context store prior h)
      (refl, refl, refl, refl, refl, refl, refl, length-append store.audits _ ∙ omega arith)

-- A plan with a new key: its result is recorded under that key and is marked as no repetition.
pub execute-recorded :
    (hashes : Hashes) (context : ExecutorContext) (store : ExecutionLogStore)
    → get (key_of context) store ≡ none
    → (let (result, after) = execute hashes context store in
        (get (key_of context) after ≡ some result)
        × (result.idempotency_key ≡ key_of context)
        × (result.idempotent ≡ false))
unfolding finish
execute-recorded hashes context store h =
    let r = (execute-new hashes context store h).run in
    let unseen : get (key_of context) r.delivered ≡ none = rw (r.executions) h in
    rw (r.finished) (get-put_new _ r.delivered unseen, refl, refl)

-- No call changes what the ledger has under a key that is not its own.
pub execute-others :
    (hashes : Hashes) (context : ExecutorContext) (store : ExecutionLogStore) (key : IdempotencyKey)
    → key_eq key (key_of context) ≡ false
    → get key (execute hashes context store).1 ≡ get key store
unfolding finish
execute-others hashes context store key d = elim (Option-cases (get (key_of context) store)) [
  | inl e ↦
      let r = (execute-new hashes context store e).run in
      rw (r.finished) (get-put_other key _ r.delivered d ∙ ap (lookup key) r.executions)
  | inr (prior, e) ↦ ap (lookup key) (execute-duplicate hashes context store prior e).5
]

-- After any call its key is known.
execute-found :
    (hashes : Hashes) (context : ExecutorContext) (store : ExecutionLogStore)
    → (r : ExecutionResult) × (get (key_of context) (execute hashes context store).1 ≡ some r)
execute-found hashes context store = elim (Option-cases (get (key_of context) store)) [
  | inl e ↦ (_, (execute-recorded hashes context store e).0)
  | inr (prior, e) ↦
      (prior, ap (lookup (key_of context)) (execute-duplicate hashes context store prior e).5 ∙ e)
]

-- A second call with the same key, at whatever later time and whatever else its plan says, is a
-- duplicate: no success, nothing recovered, no webhook, and the executions stay.
pub execute-twice :
    (hashes : Hashes) (context later : ExecutorContext) (store : ExecutionLogStore)
    → key_of later ≡ key_of context
    → (let after = (execute hashes context store).1 in
        let (second, final) = execute hashes later after in
        (second.status ≡ ExecutionStatus.duplicate_skipped)
        × (second.success ≡ false)
        × (second.recovered_value ≡ 0)
        × (second.webhooks ≡ [])
        × (final.executions ≡ after.executions)
        × (final.webhooks ≡ after.webhooks))
execute-twice hashes context later store k =
    let after = (execute hashes context store).1 in
    let (r, e) = execute-found hashes context store in
    let d = execute-duplicate hashes later after r (ap (λ key. get key after) k ∙ e) in
    (d.1, d.2, d.3, d.4, d.5, d.6)

-- Every call appends exactly one audit event to the ledger, the one that its result carries.
pub execute-audits :
    (hashes : Hashes) (context : ExecutorContext) (store : ExecutionLogStore)
    → (audit : ExecutionAuditEvent) × ((execute hashes context store).0.audit ≡ some audit)
      × ((execute hashes context store).1.audits ≡ store.audits ++ (audit ∷ []))
      × (audit.idempotency_key ≡ (execute hashes context store).0.idempotency_key)
unfolding finish duplicate_result record_audit
execute-audits hashes context store = elim (Option-cases (get (key_of context) store)) [
  | inl e ↦
      let r = (execute-new hashes context store e).run in
      let unseen : get (key_of context) r.delivered ≡ none = rw (r.executions) e in
      let result =
        (finish context (hashes.execution_id_for (key_of context)) (key_of context) r.call
          r.delivered r.steps).0 in
      rw (r.finished)
        (_, refl, audits-put result r.delivered unseen ∙ ap (add_audit result.audit) r.audits, refl)
  | inr (prior, e) ↦ rw (execute-known hashes context store prior e) (_, refl, refl, refl)
]
