-- ===== src/Executor/Totals.antt =====
-- services/src/services/executor/executor_engine.py: what the counts of a batch mean.
use recovery_pilot_ai.Executor.Idempotency.{execute-duplicate}
use recovery_pilot_ai.Executor.Ledger.{get-put_known, get-put_new}
use recovery_pilot_ai.Executor.Money.{execute-recovered}
use recovery_pilot_ai.Planner.Models.{RecoveryPlan}
use recovery_pilot_ai.Executor.Log.{ExecutionLogStore, get, put}
use recovery_pilot_ai.Executor.Results.{finish}
use recovery_pilot_ai.Executor.Models.{
  Hashes, ExecutorContext, IdempotencyKey, ExecutionResult, make_idempotency_key, StrategyName,
  ExecutionStatus,
}
use recovery_pilot_ai.Executor.Summary.{
  unavailable_case_result, execute_plans, summarize_executions, amount_of, context_of, is_duplicate,
}
use recovery_pilot_ai.Base.{
  Bool, List, count_if, ℕ, sum_of, not, length, ◌≤◌, ◌≡◌, ◌+◌, ◌∷◌, arith, inl, [], ap, inr, suc,
  some, refl, map, ◌∙◌, is_some, true, or_else, Option, Option-cases, sym, Bool-cases, none,
}
use recovery_pilot_ai.Executor.Engine.{execute_many, execute, key_of}

split-count :
    {A : Type 0} (p : A → Bool) (xs : List A)
    → count_if (λ x. not (p x)) xs + count_if p xs ≡ length xs
split-count p [] = omega arith
split-count p (x ∷ xs) = ground (arith, split-count p xs)

execute-value :
    (hashes : Hashes) (context : ExecutorContext) (store : ExecutionLogStore)
    → (execute hashes context store).0.recovered_value ≤ context.payment_amount
execute-value hashes context store = elim (execute-recovered hashes context store) [
  | inl z ↦ omega (arith, z)
  | inr (done, value, moves) ↦ omega (arith, value)
]

execute_many-value :
    (hashes : Hashes) (contexts : List ExecutorContext) (store : ExecutionLogStore)
    → sum_of (λ item. item.recovered_value) (execute_many hashes contexts store).0
      ≤ sum_of (λ c. c.payment_amount) contexts
unfolding execute_many
execute_many-value hashes [] store = omega arith
execute_many-value hashes (c ∷ cs) store =
    omega
      (arith, execute-value hashes c store, execute_many-value hashes cs (execute hashes c store).1)

execute_many-length :
    (hashes : Hashes) (contexts : List ExecutorContext) (store : ExecutionLogStore)
    → length (execute_many hashes contexts store).0 ≡ length contexts
unfolding execute_many
execute_many-length hashes [] store = refl
execute_many-length hashes (c ∷ cs) store =
    ap suc (execute_many-length hashes cs (execute hashes c store).1)

length-contexts :
    (as_of : ℕ) (plans : List RecoveryPlan) → length (map (context_of as_of) plans) ≡ length plans
length-contexts as_of [] = refl
length-contexts as_of (p ∷ ps) = ap suc (length-contexts as_of ps)

amounts-contexts :
    (as_of : ℕ) (plans : List RecoveryPlan)
    → sum_of (λ c. c.payment_amount) (map (context_of as_of) plans) ≡ sum_of amount_of plans
amounts-contexts as_of [] = refl
amounts-contexts as_of (p ∷ ps) = ap (λ n. amount_of p + n) (amounts-contexts as_of ps)

-- The summary of a batch: each plan has a result, executed and duplicates add up to the plans, and
-- the recovered value is at most the amounts of the plans' payments.
pub execute_plans-totals :
    (hashes : Hashes) (plans : List RecoveryPlan) (as_of : ℕ) (store : ExecutionLogStore)
    → (let summary = summarize_executions (execute_plans hashes plans as_of store).0 in
        (summary.total_plans ≡ length plans)
        × (summary.executed + summary.duplicates ≡ length plans)
        × (summary.estimated_recovered_value ≤ sum_of amount_of plans))
unfolding execute_plans summarize_executions
execute_plans-totals hashes plans as_of store =
    let contexts = map (context_of as_of) plans in
    let results = (execute_many hashes contexts store).0 in
    let same = execute_many-length hashes contexts store ∙ length-contexts as_of plans in
    (
      same,
      split-count (λ item. is_duplicate item.status) results ∙ same,
      omega (arith, execute_many-value hashes contexts store, amounts-contexts as_of plans),
    )

-- What stands under a key after `put` of a result with that key: something, whatever was there.
get-put :
    (result : ExecutionResult) (store : ExecutionLogStore)
    → is_some (get result.idempotency_key (put result store)) ≡ true
get-put result store = elim (Option-cases (get result.idempotency_key store)) [
  | inl e ↦ rw (get-put_new result store e) refl
  | inr (r, e) ↦ rw ((get-put_known result.idempotency_key r result store e).0) refl
]

-- `put` takes nothing out.
put-keeps :
    (key : IdempotencyKey) (result : ExecutionResult) (store : ExecutionLogStore)
    → (or_else (get key store) (get key (put result store)) ≡ get key (put result store))
      × ((put result store).webhooks ≡ store.webhooks)
unfolding put
put-keeps key result store = (kept (get key store) refl, webhooks)
  where
    kept :
        (o : Option ExecutionResult)
        → get key store ≡ o
        → or_else o (get key (put result store)) ≡ get key (put result store)
    kept none e = refl
    kept (some prior) e = sym (get-put_known key prior result store e).0

    webhooks : (put result store).webhooks ≡ store.webhooks
    webhooks = elim (Bool-cases (is_some (get result.idempotency_key store))) [
      | inl t ↦ rw t refl
      | inr f ↦ rw f refl
    ]

-- A plan whose key the ledger has is skipped.
known-skipped :
    (hashes : Hashes) (context : ExecutorContext) (store : ExecutionLogStore)
    → is_some (get (key_of context) store) ≡ true
    → ((execute hashes context store).0.status ≡ ExecutionStatus.duplicate_skipped)
      × ((execute hashes context store).0.recovered_value ≡ 0)
known-skipped hashes context store h = elim (Option-cases (get (key_of context) store)) [
  | inl e ↦ let k = (rw e at h) in cc
  | inr (prior, e) ↦
      let facts = execute-duplicate hashes context store prior e in (facts.1, facts.3)
]

-- A case that cannot be loaded settles its key: what the ledger had under any key stays, with the webhook ids, and a
-- later execution under the key of the plan, when the case is there, is skipped as a duplicate and recovers nothing.
pub unavailable_case_result-settles :
    (hashes : Hashes) (plan : RecoveryPlan) (as_of : ℕ) (store : ExecutionLogStore)
    (key : IdempotencyKey) (later : ExecutorContext)
    → key_of later
      ≡ make_idempotency_key plan.recovery_case_id
          (StrategyName.known plan.strategy)
          plan.scheduled_at
    → (let after = (unavailable_case_result hashes plan as_of store).1 in
        (or_else (get key store) (get key after) ≡ get key after)
        × (after.webhooks ≡ store.webhooks)
        × ((execute hashes later after).0.status ≡ ExecutionStatus.duplicate_skipped)
        × ((execute hashes later after).0.recovered_value ≡ 0))
unfolding unavailable_case_result finish
unavailable_case_result-settles hashes plan as_of store key later k =
    let (kept, webhooks) = put-keeps key _ store in
    let (status, value) = known-skipped hashes later _ (rw k (get-put _ store)) in
    (kept, webhooks, status, value)
