-- ===== src/Executor/Ledger.antt =====
-- services/src/services/executor/execution_log.py: lookups after `put`.
use recovery_pilot_ai.Base.{
  List, ◌++◌, ◌≡◌, none, false, or_else, some, refl, ◌∙◌, ap, Option, [], ◌∷◌, Option-cases,
  Bool-cases, inl, inr,
}
use recovery_pilot_ai.Executor.Models.{ExecutionResult, IdempotencyKey, key_eq, key_eq_refl}
use recovery_pilot_ai.Executor.Log.{put, lookup, ExecutionLogStore, get, add_audit}

lookup-append :
    (key : IdempotencyKey) (rows more : List (IdempotencyKey × ExecutionResult))
    → lookup key (rows ++ more) ≡ or_else (lookup key rows) (lookup key more)
unfolding lookup
lookup-append key [] more = refl
lookup-append key ((k, r) ∷ rows) more = elim (Bool-cases (key_eq key k)) [
  | inl e ↦ rw e refl
  | inr e ↦ rw e (lookup-append key rows more)
]

-- A result under a new key: it is found there, and no other key changes.
pub get-put_new :
    (result : ExecutionResult) (store : ExecutionLogStore)
    → get result.idempotency_key store ≡ none
    → get result.idempotency_key (put result store) ≡ some result
unfolding put lookup
get-put_new result store h = rw h (
    lookup-append result.idempotency_key store.executions ((result.idempotency_key, result) ∷ [])
    ∙ ap (λ o. or_else o (lookup result.idempotency_key ((result.idempotency_key, result) ∷ []))) h
    ∙ rw (key_eq_refl result.idempotency_key) refl)

pub get-put_other :
    (key : IdempotencyKey) (result : ExecutionResult) (store : ExecutionLogStore)
    → key_eq key result.idempotency_key ≡ false
    → get key (put result store) ≡ get key store
unfolding put lookup
get-put_other key result store h = elim (Option-cases (get result.idempotency_key store)) [
  | inr (r, e) ↦ rw e refl
  | inl e ↦ rw e (
      lookup-append key store.executions ((result.idempotency_key, result) ∷ [])
      ∙ last (lookup key store.executions))
]
  where
    last :
        (o : Option ExecutionResult)
        → or_else o (lookup key ((result.idempotency_key, result) ∷ [])) ≡ o
    last none = rw h refl
    last (some r) = refl

pub audits-put :
    (result : ExecutionResult) (store : ExecutionLogStore)
    → get result.idempotency_key store ≡ none
    → (put result store).audits ≡ add_audit result.audit store.audits
unfolding put
audits-put result store h = rw h refl

-- What stands under a key stays, and the webhook ids too.
pub get-put_known :
    (key : IdempotencyKey) (prior result : ExecutionResult) (store : ExecutionLogStore)
    → get key store ≡ some prior
    → (get key (put result store) ≡ some prior) × ((put result store).webhooks ≡ store.webhooks)
unfolding put
get-put_known key prior result store h = elim (Option-cases (get result.idempotency_key store)) [
  | inr (r, e) ↦ rw e (h, refl)
  | inl e ↦
      let more = (result.idempotency_key, result) ∷ [] in
      rw e (lookup-append key store.executions more ∙ ap (λ o. or_else o (lookup key more)) h, refl)
]
