-- ===== src/Scheduler/Queue.antt =====
-- services/src/services/scheduler/store.py: the queue is a dict keyed by execution id, through any
-- history of calls.
use recovery_pilot_ai.Scheduler.Service.{schedule, claim_each, claim_due}
use recovery_pilot_ai.Base.{
  List, ℕ, [], All, ◌∷◌, Bool, Option-cases, ◌==◌, ◌≡◌, some, inl, false, inr, Bool-cases, refl,
  arith, ◌∙◌, ==_iff, ==_false,
}
use recovery_pilot_ai.Scheduler.Store.{
  complete, mark_running, Jobs, JobStatus, ScheduledJob, JobReason, upsert, assign, get, move,
  cancel, is_pending, release, is_running, due,
}

-- No row has the key.
abbrev pub Fresh : ℕ → Jobs → Type 0
Fresh id jobs = All (λ r. (id == r.0) ≡ false) jobs

abbrev pub Distinct : Jobs → Type 0
Distinct [] = Unit
Distinct ((k, job) ∷ rows) = Fresh k rows × Distinct rows

abbrev pub Keyed : Jobs → Type 0
Keyed jobs = All (λ r. r.1.execution_id ≡ r.0) jobs

-- Each job stands under its own id, and no id twice.
pub record IsQueue (jobs : Jobs) : Type 0 where
  pub keyed : Keyed jobs
  pub distinct : Distinct jobs

get-Keyed :
    (id : ℕ) (jobs : Jobs) (job : ScheduledJob)
    → Keyed jobs
    → get id jobs ≡ some job
    → job.execution_id ≡ id
get-Keyed id [] job h e = ground arith
get-Keyed id ((k, j) ∷ rows) job (h, hs) e = let rest = get-Keyed id rows job hs in ground arith

assign-Keyed :
    (id : ℕ) (job : ScheduledJob) (jobs : Jobs)
    → job.execution_id ≡ id
    → Keyed jobs
    → Keyed (assign id job jobs)
assign-Keyed id job [] e h = (e, tt)
assign-Keyed id job ((k, j) ∷ rows) e (h, hs) = elim (Bool-cases (id == k)) [
  | inl t ↦ rw t (e ∙ (==_iff id k).0 t, hs)
  | inr t ↦ rw t (h, assign-Keyed id job rows e hs)
]

assign-Fresh :
    (key id : ℕ) (job : ScheduledJob) (jobs : Jobs)
    → (key == id) ≡ false
    → Fresh key jobs
    → Fresh key (assign id job jobs)
assign-Fresh key id job [] e h = (e, tt)
assign-Fresh key id job ((k, j) ∷ rows) e (h, hs) = elim (Bool-cases (id == k)) [
  | inl t ↦ rw t (h, hs)
  | inr t ↦ rw t (h, assign-Fresh key id job rows e hs)
]

assign-Distinct :
    (id : ℕ) (job : ScheduledJob) (jobs : Jobs) → Distinct jobs → Distinct (assign id job jobs)
assign-Distinct id job [] h = (tt, tt)
assign-Distinct id job ((k, j) ∷ rows) (f, h) = elim (Bool-cases (id == k)) [
  | inl t ↦ rw t (f, h)
  | inr t ↦ rw t (assign-Fresh k id job rows (==_false id k t) f, assign-Distinct id job rows h)
]

assign-IsQueue :
    (id : ℕ) (job : ScheduledJob) (jobs : Jobs)
    → job.execution_id ≡ id
    → IsQueue jobs
    → IsQueue (assign id job jobs)
assign-IsQueue id job jobs e q = record {
  keyed = assign-Keyed id job jobs e q.keyed;
  distinct = assign-Distinct id job jobs q.distinct;
}

complete-IsQueue :
    (id : ℕ) (status : JobStatus) (jobs : Jobs) → IsQueue jobs → IsQueue (complete id status jobs)
unfolding complete
complete-IsQueue id status jobs q = elim (Option-cases (get id jobs)) [
  | inl e ↦ rw (e, complete) q
  | inr (job, e) ↦ rw (e, complete) (assign-IsQueue id _ jobs (get-Keyed id jobs job q.keyed e) q)
]

move-IsQueue :
    (from : JobStatus → Bool) (to : JobStatus) (id : ℕ) (jobs : Jobs)
    → IsQueue jobs
    → IsQueue (move from to id jobs)
move-IsQueue from to id jobs q = elim (Option-cases (get id jobs)) [
  | inl e ↦ rw (e, move) q
  | inr (job, e) ↦ elim (Bool-cases (from job.status)) [
    | inl f ↦ rw (e, f, move) (assign-IsQueue id _ jobs (get-Keyed id jobs job q.keyed e) q)
    | inr f ↦ rw (e, f, move) q
  ]
]

claim_each-IsQueue :
    (list : List ScheduledJob) (jobs : Jobs) → IsQueue jobs → IsQueue (claim_each list jobs).1
unfolding claim_each mark_running
claim_each-IsQueue [] jobs q = q
claim_each-IsQueue (job ∷ rest) jobs q =
    claim_each-IsQueue rest (mark_running job.execution_id jobs)
      (move-IsQueue is_pending JobStatus.running job.execution_id jobs q)

-- A call that changes the queue.
pub data Call : Type 0 where
  schedules : ℕ → ℕ → ℕ → JobReason → ℕ → Call
  upserts : ScheduledJob → Call
  completes : ℕ → JobStatus → Call
  cancels marks releases claims : ℕ → Call

unfoldable pub step : Call → Jobs → Jobs
step (Call.schedules id case run_at reason attempt) jobs =
    (schedule id case run_at reason attempt jobs).1
step (Call.upserts job) jobs = upsert job jobs
step (Call.completes id status) jobs = complete id status jobs
step (Call.cancels id) jobs = cancel id jobs
step (Call.marks id) jobs = mark_running id jobs
step (Call.releases id) jobs = release id jobs
step (Call.claims as_of) jobs = (claim_due as_of jobs).1

unfoldable pub run : List Call → Jobs → Jobs
unfolding step
run [] jobs = jobs
run (call ∷ calls) jobs = run calls (step call jobs)

step-IsQueue : (call : Call) (jobs : Jobs) → IsQueue jobs → IsQueue (step call jobs)
unfolding step schedule upsert cancel mark_running release claim_due
step-IsQueue (Call.schedules id case run_at reason attempt) jobs q = assign-IsQueue _ _ jobs refl q
step-IsQueue (Call.upserts job) jobs q = assign-IsQueue _ job jobs refl q
step-IsQueue (Call.completes id status) jobs q = complete-IsQueue id status jobs q
step-IsQueue (Call.cancels id) jobs q = complete-IsQueue id JobStatus.cancelled jobs q
step-IsQueue (Call.marks id) jobs q = move-IsQueue is_pending JobStatus.running id jobs q
step-IsQueue (Call.releases id) jobs q = move-IsQueue is_running JobStatus.pending id jobs q
step-IsQueue (Call.claims as_of) jobs q = claim_each-IsQueue (due as_of jobs) jobs q

run-keeps : (calls : List Call) (jobs : Jobs) → IsQueue jobs → IsQueue (run calls jobs)
unfolding run
run-keeps [] jobs q = q
run-keeps (call ∷ calls) jobs q = run-keeps calls (step call jobs) (step-IsQueue call jobs q)

-- After any sequence of calls on an empty queue, each job stands under its own execution id, and
-- no id has two jobs.
pub run-IsQueue : (calls : List Call) → IsQueue (run calls [])
run-IsQueue calls = run-keeps calls [] (record { keyed = tt; distinct = tt })
