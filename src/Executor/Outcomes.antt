-- ===== src/Executor/Outcomes.antt =====
-- services/src/services/executor/executor_engine.py: `_execute` either repeats what the ledger
-- knows or makes one run.
use recovery_pilot_ai.Executor.Shape.{step_names, finish-IsRun, IsRun, dispatch-IsRun}
use recovery_pilot_ai.Executor.Results.{duplicate_result, append_trace, Trace}
use recovery_pilot_ai.Base.{Option, ◌≡◌, [], none, some, refl, ◌∷◌, inl, sym, ap}
use recovery_pilot_ai.Executor.Log.{ExecutionLogStore, get}
use recovery_pilot_ai.Executor.Engine.{run_unknown, execute, key_of, start_or_fail}
use recovery_pilot_ai.Executor.Models.{
  Hashes, ExecutionResult, ExecutorContext, ExecutionType, TraceName, TraceStatus,
  execution_type_for,
}

-- The call of `_duplicate_result` in `_execute`.
abbrev pub repeat :
    ExecutionResult → ExecutorContext → ExecutionLogStore → ExecutionResult × ExecutionLogStore
repeat prior context store =
    duplicate_result prior context.as_of store
      (append_trace [] TraceName.idempotency_check TraceStatus.duplicate_skipped context.as_of)

pub execute-known :
    (hashes : Hashes) (context : ExecutorContext) (store : ExecutionLogStore)
    (prior : ExecutionResult)
    → get (key_of context) store ≡ some prior
    → execute hashes context store ≡ repeat prior context store
unfolding execute
execute-known hashes context store prior h = rw h refl

-- The kind of execution of a first call.
abbrev pub type_or_stop : Option ExecutionType → ExecutionType
type_or_stop none = ExecutionType.stop_execution
type_or_stop (some type) = type

-- One run, that starts by the two first steps of a trace.
pub record IsFresh (hashes : Hashes) (context : ExecutorContext) (store : ExecutionLogStore)
    (out : ExecutionResult × ExecutionLogStore) : Type 0 where
  pub type : ExecutionType
  pub chosen : type ≡ type_or_stop (execution_type_for context.strategy)
  pub start : Trace
  pub begins : step_names start ≡ TraceName.idempotency_check ∷ TraceName.execution_start ∷ []
  pub run :
      IsRun context (hashes.execution_id_for (key_of context)) (key_of context) type store start out

start-IsFresh :
    (hashes : Hashes) (context : ExecutorContext) (store : ExecutionLogStore)
    (type : Option ExecutionType)
    → execution_type_for context.strategy ≡ type
    → IsFresh hashes context store (start_or_fail hashes context store type)
unfolding run_unknown
start-IsFresh hashes context store none eq =
    let key = key_of context in
    let start =
      append_trace (append_trace [] TraceName.idempotency_check TraceStatus.succeeded context.as_of)
        TraceName.execution_start TraceStatus.failed context.as_of in
    record {
      type = ExecutionType.stop_execution;
      chosen = sym (ap type_or_stop eq);
      start = start;
      begins = refl;
      run =
          finish-IsRun context (hashes.execution_id_for key) key store start _ _ _
            ExecutionType.stop_execution store (refl, refl) refl (inl refl);
    }
start-IsFresh hashes context store (some type) eq =
    let key = key_of context in
    let start =
      append_trace (append_trace [] TraceName.idempotency_check TraceStatus.succeeded context.as_of)
        TraceName.execution_start TraceStatus.succeeded context.as_of in
    record {
      type = type;
      chosen = sym (ap type_or_stop eq);
      start = start;
      begins = refl;
      run = dispatch-IsRun context (hashes.execution_id_for key) key store start hashes type;
    }

pub execute-new :
    (hashes : Hashes) (context : ExecutorContext) (store : ExecutionLogStore)
    → get (key_of context) store ≡ none
    → IsFresh hashes context store (execute hashes context store)
unfolding execute
execute-new hashes context store h =
    rw h (start-IsFresh hashes context store (execution_type_for context.strategy) refl)
