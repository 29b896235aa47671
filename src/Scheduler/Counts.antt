-- ===== src/Scheduler/Counts.antt =====
-- services/src/services/scheduler/store.py: the counts for the dashboard.
use recovery_pilot_ai.Scheduler.Store.{
  queue_metrics, due, active_count, ScheduledJob, metrics_from_jobs, Jobs, SchedulerQueueMetrics,
  count_jobs, bump, is_due, is_pending, is_running,
}
use recovery_pilot_ai.Base.{
  ℕ, Bool, List, ◌≡◌, length, map, if◌then◌else◌, ◌+◌, arith, ◌∷◌, [], ◌||◌,
}

length-if :
    (b : Bool) (job : ScheduledJob) (xs : List ScheduledJob)
    → length (if b then job ∷ xs else xs) ≡ (if b then 1 else 0) + length xs
length-if b job xs = ground arith

bump-counts :
    (as_of : ℕ) (job : ScheduledJob) (m : SchedulerQueueMetrics)
    → ((bump as_of job m).delayed ≡ m.delayed + (if is_due as_of job then 1 else 0))
      × ((bump as_of job m).scheduled + (bump as_of job m).running + (bump as_of job m).delayed
          ≡ m.scheduled
            + m.running
            + m.delayed
            + (if is_pending job.status || is_running job.status then 1 else 0))
bump-counts as_of job m = ground arith

count_jobs-counts :
    (as_of : ℕ) (rows : Jobs) (m : SchedulerQueueMetrics)
    → (let c = count_jobs as_of (map (λ r. r.1) rows) m in
        (c.delayed ≡ m.delayed + length (due as_of rows))
        × (c.scheduled + c.running + c.delayed
            ≡ m.scheduled + m.running + m.delayed + active_count rows))
unfolding due active_count
count_jobs-counts as_of [] m = (omega arith, omega arith)
count_jobs-counts as_of ((k, job) ∷ rows) m =
    let (d, t) = count_jobs-counts as_of rows (bump as_of job m) in
    let (e, u) = bump-counts as_of job m in
    let l = length-if (is_due as_of job) job (due as_of rows) in
    (omega (arith, d, e, l), omega (arith, t, u))

-- The chips of the dashboard partition the active jobs: scheduled, running and delayed add up to
-- `active_count`, and the delayed are the due ones.
pub queue_metrics-counts :
    (as_of : ℕ) (jobs : Jobs)
    → (let c = queue_metrics as_of jobs in
        (c.delayed ≡ length (due as_of jobs))
        × (c.scheduled + c.running + c.delayed ≡ active_count jobs))
unfolding queue_metrics metrics_from_jobs
queue_metrics-counts as_of jobs =
    let (d, t) =
      count_jobs-counts as_of jobs
        (record { scheduled = 0; running = 0; delayed = 0; dead_letter = 0 }) in
    (omega (arith, d), omega (arith, t))
