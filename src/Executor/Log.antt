-- ===== src/Executor/Log.antt =====
-- services/src/services/executor/execution_log.py: the ledger of executions, webhook ids, audits.
use recovery_pilot_ai.Base.{
  ℕ, Bool, Option, none, some, List, [], ◌∷◌, ◌++◌, any, ◌==◌, if◌then◌else◌, is_some,
}
use recovery_pilot_ai.Executor.Models.{IdempotencyKey, key_eq, ExecutionResult, ExecutionAuditEvent}

-- The dict and the set as lists; the newest stands last.
pub record ExecutionLogStore : Type 0 where
  pub executions : List (IdempotencyKey × ExecutionResult)
  pub webhooks : List ℕ
  pub audits : List ExecutionAuditEvent

abbrev pub empty_store : ExecutionLogStore
empty_store = record { executions = []; webhooks = []; audits = [] }

unfoldable pub lookup :
    IdempotencyKey → List (IdempotencyKey × ExecutionResult) → Option ExecutionResult
lookup key [] = none
lookup key ((k, r) ∷ rows) = let rest = lookup key rows in if key_eq key k then some r else rest

abbrev pub get : IdempotencyKey → ExecutionLogStore → Option ExecutionResult
get key store = lookup key store.executions

abbrev pub add_audit :
    Option ExecutionAuditEvent → List ExecutionAuditEvent → List ExecutionAuditEvent
add_audit none audits = audits
add_audit (some audit) audits = audits ++ (audit ∷ [])

unfoldable pub put : ExecutionResult → ExecutionLogStore → ExecutionLogStore
put result store = if is_some (get result.idempotency_key store) then store else record store {
  executions = store.executions ++ ((result.idempotency_key, result) ∷ []);
  audits = add_audit result.audit store.audits;
}

unfoldable pub seen_webhook : ℕ → ExecutionLogStore → Bool
seen_webhook event_id store = any (λ e. event_id == e) store.webhooks

unfoldable pub remember_webhook : ℕ → ExecutionLogStore → ExecutionLogStore
unfolding seen_webhook
remember_webhook event_id store =
    if seen_webhook event_id store
    then store
    else record store { webhooks = event_id ∷ store.webhooks }

unfoldable pub record_audit : ExecutionAuditEvent → ExecutionLogStore → ExecutionLogStore
record_audit event store = record store { audits = store.audits ++ (event ∷ []) }
