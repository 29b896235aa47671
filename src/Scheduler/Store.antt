-- ===== src/Scheduler/Store.antt =====
-- services/src/services/scheduler/store.py, models.py and constants.py: the in-memory queue.
-- The lock has no counterpart, since every operation takes it for its whole body. Moments are UTC.
use recovery_pilot_ai.Planner.Models.{PlannerStrategy}
use recovery_pilot_ai.Base.{
  Bool, List, ℕ, true, suc, Option, ◌&&◌, ◌∷◌, map, count_if, filter, leb, ◌||◌, false, none, [],
  if◌then◌else◌, ltb, ◌==◌, some, not,
}

pub data JobStatus : Type 0 where
  pending running done cancelled dead_letter : JobStatus

-- The values that callers give as `reason`: texts of the policy's gate, or a strategy.
pub data JobReason : Type 0 where
  policy_cooldown policy_wait backoff allow policy_reason : JobReason
  of_strategy : PlannerStrategy → JobReason

pub record ScheduledJob : Type 0 where
  pub execution_id : ℕ
  pub recovery_case_id : ℕ
  pub run_at : ℕ
  pub reason : JobReason
  pub attempt : ℕ
  pub status : JobStatus

pub record SchedulerQueueMetrics : Type 0 where
  pub scheduled : ℕ
  pub running : ℕ
  pub delayed : ℕ
  pub dead_letter : ℕ

-- `_jobs`, in the order in which the keys were inserted.
abbrev pub Jobs : Type 0
Jobs = List (ℕ × ScheduledJob)

abbrev pub is_pending : JobStatus → Bool
is_pending JobStatus.pending = true
is_pending _ = false

abbrev pub is_running : JobStatus → Bool
is_running JobStatus.running = true
is_running _ = false

-- `_jobs.get`
abbrev pub get : ℕ → Jobs → Option ScheduledJob
get id [] = none
get id ((k, job) ∷ rows) = let rest = get id rows in if id == k then some job else rest

-- `_jobs[id] = job`
abbrev pub assign : ℕ → ScheduledJob → Jobs → Jobs
assign id job [] = (id, job) ∷ []
assign id job ((k, old) ∷ rows) =
    let rest = assign id job rows in if id == k then (k, job) ∷ rows else (k, old) ∷ rest

unfoldable pub upsert : ScheduledJob → Jobs → Jobs
upsert job jobs = assign job.execution_id job jobs

abbrev pub is_due : ℕ → ScheduledJob → Bool
is_due as_of job = is_pending job.status && leb job.run_at as_of

unfoldable pub due : ℕ → Jobs → List ScheduledJob
due as_of jobs = filter (is_due as_of) (map (λ r. r.1) jobs)

unfoldable pub complete : ℕ → JobStatus → Jobs → Jobs
complete id status jobs = elim (get id jobs) [
  | none ↦ jobs
  | some job ↦ assign id (record job { status = status }) jobs
]

unfoldable pub cancel : ℕ → Jobs → Jobs
unfolding complete
cancel id jobs = complete id JobStatus.cancelled jobs

-- The body of `mark_running` and of `release`: a job in one status goes to another.
abbrev pub move : (JobStatus → Bool) → JobStatus → ℕ → Jobs → Jobs
move from to id jobs = elim (get id jobs) [
  | none ↦ jobs
  | some job ↦ if not (from job.status) then jobs else assign id (record job { status = to }) jobs
]

unfoldable pub mark_running : ℕ → Jobs → Jobs
mark_running id jobs = move is_pending JobStatus.running id jobs

unfoldable pub release : ℕ → Jobs → Jobs
release id jobs = move is_running JobStatus.pending id jobs

unfoldable pub active_count : Jobs → ℕ
active_count jobs = count_if (λ r. is_pending r.1.status || is_running r.1.status) jobs

abbrev pub bump : ℕ → ScheduledJob → SchedulerQueueMetrics → SchedulerQueueMetrics
bump as_of job m = elim (job.status) [
  | JobStatus.running ↦ record m { running = suc m.running }
  | JobStatus.dead_letter ↦ record m { dead_letter = suc m.dead_letter }
  | JobStatus.pending ↦
      if ltb as_of job.run_at
      then record m { scheduled = suc m.scheduled }
      else record m { delayed = suc m.delayed }
  | _ ↦ m
]

-- The loop of `metrics_from_jobs`, with the counts so far.
abbrev pub count_jobs : ℕ → List ScheduledJob → SchedulerQueueMetrics → SchedulerQueueMetrics
count_jobs as_of [] m = m
count_jobs as_of (job ∷ jobs) m = count_jobs as_of jobs (bump as_of job m)

unfoldable pub metrics_from_jobs : List ScheduledJob → ℕ → SchedulerQueueMetrics
metrics_from_jobs jobs as_of =
    count_jobs as_of jobs (record { scheduled = 0; running = 0; delayed = 0; dead_letter = 0 })

unfoldable pub queue_metrics : ℕ → Jobs → SchedulerQueueMetrics
unfolding metrics_from_jobs
queue_metrics as_of jobs = metrics_from_jobs (map (λ r. r.1) jobs) as_of
