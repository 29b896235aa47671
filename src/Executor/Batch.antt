-- ===== src/Executor/Batch.antt =====
-- services/src/services/executor/executor_engine.py: `execute_many` on one shared ledger.
use mathlib.Core.Bool.{false≢true}
use recovery_pilot_ai.Executor.Outcomes.{execute-known}
use recovery_pilot_ai.Executor.Idempotency.{execute-recorded, execute-others}
use recovery_pilot_ai.Base.{
  Bool, List, ◌&&◌, is_some, count_if, ◌≡◌, false, arith, ◌≤◌, true, ◌∷◌, ltb, not, Option-cases,
  none, [], Bool-cases, refl, inr, inl, ap, ◌∙◌, sym, and_left,
}
use recovery_pilot_ai.Executor.Engine.{execute_many, execute, key_of}
use recovery_pilot_ai.Executor.Log.{ExecutionLogStore, get, record_audit}
use recovery_pilot_ai.Executor.Results.{duplicate_result}
use recovery_pilot_ai.Executor.Models.{
  Hashes, IdempotencyKey, ExecutionResult, ExecutorContext, key_eq, eq-of_key_eq,
}

-- The result belongs to the key and is no duplicate.
abbrev pub runs_key : IdempotencyKey → ExecutionResult → Bool
runs_key key result = key_eq key result.idempotency_key && not result.idempotent

-- The result belongs to the key and has recovered something.
abbrev pub recovers_key : IdempotencyKey → ExecutionResult → Bool
recovers_key key result = key_eq key result.idempotency_key && ltb 0 result.recovered_value

abbrev Knows : ExecutionLogStore → IdempotencyKey → Type 0
Knows store key = is_some (get key store) ≡ true

and_false : (a : Bool) → a && false ≡ false
and_false a = ground arith

none-Knows {ℓ} :
    {X : Type ℓ} (key : IdempotencyKey) (store : ExecutionLogStore)
    → get key store ≡ none
    → Knows store key
    → X
none-Knows key store e h = absurd (false≢true (sym (ap is_some e) ∙ h))

other_key :
    (key new : IdempotencyKey) (store : ExecutionLogStore)
    → get new store ≡ none
    → Knows store key
    → key_eq key new ≡ false
other_key key new store e h = elim (Bool-cases (key_eq key new)) [
  | inr f ↦ f
  | inl t ↦ none-Knows key store (ap (λ k. get k store) (eq-of_key_eq key new t) ∙ e) h
]

execute-known_key :
    (hashes : Hashes) (context : ExecutorContext) (store : ExecutionLogStore) (key : IdempotencyKey)
    → Knows store key
    → (runs_key key (execute hashes context store).0 ≡ false)
      × Knows (execute hashes context store).1 key
unfolding duplicate_result record_audit
execute-known_key hashes context store key h = elim (Option-cases (get (key_of context) store)) [
  | inl e ↦
      let (found, k, i) = execute-recorded hashes context store e in
      let differs = other_key key (key_of context) store e h in
      (rw (k, differs) refl, ap is_some (execute-others hashes context store key differs) ∙ h)
  | inr (prior, e) ↦ rw (execute-known hashes context store prior e) (and_false _, h)
]

execute-first :
    (hashes : Hashes) (context : ExecutorContext) (store : ExecutionLogStore) (key : IdempotencyKey)
    → runs_key key (execute hashes context store).0 ≡ true
    → Knows (execute hashes context store).1 key
unfolding duplicate_result
execute-first hashes context store key h = elim (Option-cases (get (key_of context) store)) [
  | inl e ↦
      let (found, k, i) = execute-recorded hashes context store e in
      let p : key ≡ key_of context = eq-of_key_eq key _ (and_left _ _ h) ∙ k in
      ap is_some (ap (λ j. get j (execute hashes context store).1) p ∙ found)
  | inr (prior, e) ↦
      let t : key_eq key prior.idempotency_key && false ≡ true =
        rw (execute-known hashes context store prior e) at h in
      absurd (false≢true (sym (and_false _) ∙ t))
]

execute-recovers :
    (hashes : Hashes) (context : ExecutorContext) (store : ExecutionLogStore) (key : IdempotencyKey)
    → recovers_key key (execute hashes context store).0 ≡ true
    → runs_key key (execute hashes context store).0 ≡ true
unfolding duplicate_result
execute-recovers hashes context store key h = elim (Option-cases (get (key_of context) store)) [
  | inl e ↦
      let (found, k, i) = execute-recorded hashes context store e in
      let mine : key_eq key (execute hashes context store).0.idempotency_key ≡ true =
        and_left _ _ h in
      rw (mine, i) refl
  | inr (prior, e) ↦
      let t : key_eq key prior.idempotency_key && false ≡ true =
        rw (execute-known hashes context store prior e) at h in
      absurd (false≢true (sym (and_false _) ∙ t))
]

-- A key that the ledger knows does not run in the batch.
execute_many-known :
    (hashes : Hashes) (contexts : List ExecutorContext) (store : ExecutionLogStore)
    (key : IdempotencyKey)
    → Knows store key
    → count_if (runs_key key) (execute_many hashes contexts store).0 ≡ 0
unfolding execute_many
execute_many-known hashes [] store key h = refl
execute_many-known hashes (c ∷ cs) store key h =
    let (skipped, known) = execute-known_key hashes c store key h in
    rw skipped (omega (arith, execute_many-known hashes cs (execute hashes c store).1 key known))

execute_many-runs :
    (hashes : Hashes) (contexts : List ExecutorContext) (store : ExecutionLogStore)
    (key : IdempotencyKey)
    → count_if (runs_key key) (execute_many hashes contexts store).0 ≤ 1
unfolding execute_many
execute_many-runs hashes [] store key = omega arith
execute_many-runs hashes (c ∷ cs) store key =
    elim (Bool-cases (runs_key key (execute hashes c store).0)) [
      | inl t ↦
          let rest =
            execute_many-known hashes cs (execute hashes c store).1 key
              (execute-first hashes c store key t) in
          rw (t, rest) (omega arith)
      | inr f ↦ rw f (omega (arith, execute_many-runs hashes cs (execute hashes c store).1 key))
    ]

execute_many-recovers :
    (hashes : Hashes) (contexts : List ExecutorContext) (store : ExecutionLogStore)
    (key : IdempotencyKey)
    → count_if (recovers_key key) (execute_many hashes contexts store).0
      ≤ count_if (runs_key key) (execute_many hashes contexts store).0
unfolding execute_many
execute_many-recovers hashes [] store key = omega arith
execute_many-recovers hashes (c ∷ cs) store key =
    let rest = execute_many-recovers hashes cs (execute hashes c store).1 key in
    elim (Bool-cases (recovers_key key (execute hashes c store).0)) [
      | inl t ↦ let u = execute-recovers hashes c store key t in rw (t, u) (omega (arith, rest))
      | inr f ↦ rw f (omega (arith, rest))
    ]

-- In a batch, whatever plans it holds and in whatever order, a key runs at most once and recovers
-- money at most once.
pub execute_many-once :
    (hashes : Hashes) (contexts : List ExecutorContext) (store : ExecutionLogStore)
    (key : IdempotencyKey)
    → (let results = (execute_many hashes contexts store).0 in
        (count_if (runs_key key) results ≤ 1) × (count_if (recovers_key key) results ≤ 1))
execute_many-once hashes contexts store key =
    let once = execute_many-runs hashes contexts store key in
    let le = execute_many-recovers hashes contexts store key in (once, omega (arith, once, le))

-- A key that the ledger knows before a batch neither runs in it nor recovers money.
pub execute_many-skips :
    (hashes : Hashes) (contexts : List ExecutorContext) (store : ExecutionLogStore)
    (key : IdempotencyKey)
    → is_some (get key store) ≡ true
    → (let results = (execute_many hashes contexts store).0 in
        (count_if (runs_key key) results ≡ 0) × (count_if (recovers_key key) results ≡ 0))
execute_many-skips hashes contexts store key h =
    let le = execute_many-recovers hashes contexts store key in
    let no_run = execute_many-known hashes contexts store key h in
    (no_run, omega (arith, no_run, le))
