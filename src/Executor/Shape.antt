-- ===== src/Executor/Shape.antt =====
-- services/src/services/executor/executor_engine.py: what the seven kinds of run have in common.
use recovery_pilot_ai.Executor.Engine.{dispatch}
use recovery_pilot_ai.Executor.Deliveries.{process_webhooks-keeps}
use recovery_pilot_ai.Executor.Webhooks.{webhooks_for_retry, process_webhooks, build_webhooks}
use recovery_pilot_ai.Executor.Simulation.{
  simulate_retry, is_success, link_is_expired, link_expires_at, session_expires_at,
}
use recovery_pilot_ai.Executor.Log.{ExecutionLogStore}
use recovery_pilot_ai.Base.{
  ℕ, Bool, List, map, true, ◌≡◌, ◌⊎◌, false, ◌++◌, ◌∷◌, [], ap, not, refl, if◌then◌else◌, inl, ◌&&◌,
  inr, Bool-cases,
}
use recovery_pilot_ai.Executor.Runs.{
  run_retry, run_payment_link, run_wait, all_replayed, run_card_update, run_terminal, link_events,
  first_is_new,
}
use recovery_pilot_ai.Executor.Results.{Trace, append_trace, Finish, finish, action_step_name}
use recovery_pilot_ai.Executor.Models.{
  ExecutionType, ExecutorContext, TraceName, Hashes, IdempotencyKey, TraceStatus, ExecutionResult,
  EventType,
}

abbrev pub step_names : Trace → List TraceName
step_names trace = map (λ s. s.step) trace

-- The kinds of execution that can move money.
abbrev pub moves_money : ExecutionType → Bool
moves_money ExecutionType.execute_retry = true
moves_money ExecutionType.generate_payment_link = true
moves_money ExecutionType.switch_to_upi = true
moves_money _ = false

-- Nothing was recovered, or the run succeeded, is of a kind that moves money, and has recovered
-- the amount of the payment.
abbrev pub Pays : ExecutorContext → ExecutionType → Bool → ℕ → Type 0
Pays context type done value =
    (value ≡ 0) ⊎ ((done ≡ true) × (value ≡ context.payment_amount) × (moves_money type ≡ true))

-- `out` comes from `_finish`, on a ledger that differs from `store` in its webhooks only.
pub record IsRun (context : ExecutorContext) (id : ℕ) (key : IdempotencyKey) (type : ExecutionType)
    (store : ExecutionLogStore) (trace : Trace) (out : ExecutionResult × ExecutionLogStore)
    : Type 0 where
  pub call : Finish
  pub delivered : ExecutionLogStore
  pub steps : Trace
  pub finished : out ≡ finish context id key call delivered steps
  pub executions : delivered.executions ≡ store.executions
  pub audits : delivered.audits ≡ store.audits
  pub names :
      step_names steps
      ≡ step_names trace ++ (action_step_name type ∷ TraceName.webhook_processing ∷ [])
  pub kind : call.execution_type ≡ type
  pub pays : Pays context type call.success call.recovered_value

pub names-snoc :
    (trace : Trace) (a : TraceName) (s : TraceStatus) (m : ℕ)
    → step_names (append_trace trace a s m) ≡ step_names trace ++ (a ∷ [])
names-snoc [] a s m = refl
names-snoc (x ∷ xs) a s m = ap (λ ys. x.step ∷ ys) (names-snoc xs a s m)

names-append :
    (trace : Trace) (a b : TraceName) (s t : TraceStatus) (m n : ℕ)
    → step_names (append_trace (append_trace trace a s m) b t n) ≡ step_names trace ++ (a ∷ b ∷ [])
names-append [] a b s t m n = refl
names-append (x ∷ xs) a b s t m n = ap (λ ys. x.step ∷ ys) (names-append xs a b s t m n)

retry-Pays :
    (context : ExecutorContext) (replayed done : Bool)
    → Pays context ExecutionType.execute_retry
        (not replayed && done)
        (if replayed then 0 else if done then context.payment_amount else 0)
retry-Pays context true done = inl refl
retry-Pays context false true = inr (refl, refl, refl)
retry-Pays context false false = inl refl

link-Pays :
    (context : ExecutorContext) (type : ExecutionType) (replayed new : Bool)
    → moves_money type ≡ true
    → Pays context type
        (not replayed)
        (if replayed then 0 else if new then context.payment_amount else 0)
link-Pays context type true new m = inl refl
link-Pays context type false true m = inr (refl, refl, m)
link-Pays context type false false m = inl refl

module _ (context : ExecutorContext) (id : ℕ) (key : IdempotencyKey) (store : ExecutionLogStore)
    (trace : Trace) where
  -- A run that traces its action and its webhooks, and finishes on a ledger with the same
  -- executions and audits.
  pub finish-IsRun :
      (call : Finish) (s t : TraceStatus) (type : ExecutionType) (after : ExecutionLogStore)
      → (after.executions ≡ store.executions) × (after.audits ≡ store.audits)
      → call.execution_type ≡ type
      → Pays context type call.success call.recovered_value
      → IsRun context id key type store trace (
          finish context id key call after (
            append_trace
              (append_trace trace (action_step_name type) s context.as_of)
              TraceName.webhook_processing
              t
              context.as_of))
  finish-IsRun call s t type after (executions, audits) kind pays = record {
    call = call;
    delivered = after;
    steps =
        append_trace (append_trace trace (action_step_name type) s context.as_of)
          TraceName.webhook_processing t context.as_of;
    finished = refl;
    executions = executions;
    audits = audits;
    names =
        names-append trace (action_step_name type) TraceName.webhook_processing s t context.as_of
          context.as_of;
    kind = kind;
    pays = pays;
  }

  run_retry-IsRun :
      (hashes : Hashes)
      → IsRun context id key ExecutionType.execute_retry store trace
          (run_retry hashes context id key ExecutionType.execute_retry store trace)
  unfolding run_retry
  run_retry-IsRun hashes =
      let outcome = simulate_retry hashes context in
      let sent = webhooks_for_retry hashes context outcome context.as_of in
      finish-IsRun _ _ _ _ (process_webhooks sent store).1 (process_webhooks-keeps sent store) refl
        (retry-Pays context (all_replayed (process_webhooks sent store).0) (is_success outcome))

  run_payment_link-IsRun :
      (hashes : Hashes) (type : ExecutionType)
      → moves_money type ≡ true
      → action_step_name type ≡ TraceName.payment_link_creation
      → IsRun context id key type store trace
          (run_payment_link hashes context id key type store trace)
  unfolding run_payment_link
  run_payment_link-IsRun hashes type m n =
      let sent = build_webhooks hashes context (link_events context) context.as_of in
      let events = (process_webhooks sent store).0 in
      elim (Bool-cases
        (link_is_expired (link_expires_at context.plan.scheduled_at) context.as_of)) [
          | inl e ↦ rw e (rw (← n) (finish-IsRun _ _ _ type store (refl, refl) refl (inl refl)))
          | inr e ↦ rw e (
              rw (← n) (
                finish-IsRun _ _ _ type (process_webhooks sent store).1
                  (process_webhooks-keeps sent store) refl
                  (link-Pays context type (all_replayed events) (first_is_new events) m)))
        ]

  run_card_update-IsRun :
      (hashes : Hashes)
      → IsRun context id key ExecutionType.request_card_update store trace
          (run_card_update hashes context id key ExecutionType.request_card_update store trace)
  unfolding run_card_update
  run_card_update-IsRun hashes =
      let sent =
        build_webhooks hashes context (EventType.subscription_pending ∷ []) context.as_of in
      elim (Bool-cases
        (link_is_expired (session_expires_at context.plan.scheduled_at) context.as_of)) [
          | inl e ↦ rw e (
              finish-IsRun _ _ _ ExecutionType.request_card_update store (refl, refl) refl
                (inl refl))
          | inr e ↦ rw e (
              finish-IsRun _ _ _ ExecutionType.request_card_update (process_webhooks sent store).1
                (process_webhooks-keeps sent store) refl (inl refl))
        ]

  run_wait-IsRun :
      IsRun context id key ExecutionType.wait_until_time store trace
        (run_wait context id key ExecutionType.wait_until_time store trace)
  unfolding run_wait
  run_wait-IsRun = finish-IsRun _ _ _ _ store (refl, refl) refl (inl refl)

  run_terminal-IsRun :
      (hashes : Hashes) (type : ExecutionType) (escalate : Bool)
      → action_step_name type ≡ TraceName.terminal_action
      → IsRun context id key type store trace
          (run_terminal hashes context id key type store trace escalate)
  unfolding run_terminal
  run_terminal-IsRun hashes type escalate n =
      let sent =
        build_webhooks hashes context (if escalate then [] else EventType.subscription_halted ∷ [])
          context.as_of in
      rw (← n) (
        finish-IsRun _ _ _ type (process_webhooks sent store).1 (process_webhooks-keeps sent store)
          refl (inl refl))

  pub dispatch-IsRun :
      (hashes : Hashes) (type : ExecutionType)
      → IsRun context id key type store trace (dispatch hashes context id key store trace type)
  unfolding dispatch
  dispatch-IsRun hashes ExecutionType.execute_retry = run_retry-IsRun hashes
  dispatch-IsRun hashes ExecutionType.generate_payment_link =
      run_payment_link-IsRun hashes ExecutionType.generate_payment_link refl refl
  dispatch-IsRun hashes ExecutionType.switch_to_upi =
      run_payment_link-IsRun hashes ExecutionType.switch_to_upi refl refl
  dispatch-IsRun hashes ExecutionType.request_card_update = run_card_update-IsRun hashes
  dispatch-IsRun hashes ExecutionType.wait_until_time = run_wait-IsRun
  dispatch-IsRun hashes ExecutionType.escalate_case =
      run_terminal-IsRun hashes ExecutionType.escalate_case true refl
  dispatch-IsRun hashes ExecutionType.stop_execution =
      run_terminal-IsRun hashes ExecutionType.stop_execution false refl
