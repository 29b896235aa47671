-- ===== src/Scheduler/Service.antt =====
-- services/src/services/scheduler/service.py: `ActionScheduler` on the in-memory queue.
-- Log calls are left out.
use recovery_pilot_ai.Base.{Option, List, ℕ, some, ◌∷◌, none, []}
use recovery_pilot_ai.Scheduler.Store.{
  due, upsert, mark_running, ScheduledJob, Jobs, JobReason, JobStatus, get,
}

unfoldable pub schedule : ℕ → ℕ → ℕ → JobReason → ℕ → Jobs → ScheduledJob × Jobs
unfolding upsert
schedule execution_id recovery_case_id run_at reason attempt jobs =
    let job : ScheduledJob = record {
      execution_id = execution_id;
      recovery_case_id = recovery_case_id;
      run_at = run_at;
      reason = reason;
      attempt = attempt;
      status = JobStatus.pending;
    } in
    (job, upsert job jobs)

-- `updated or job`
abbrev pub updated_or : Option ScheduledJob → ScheduledJob → ScheduledJob
updated_or none job = job
updated_or (some updated) job = updated

-- The loop of `claim_due`.
unfoldable pub claim_each : List ScheduledJob → Jobs → List ScheduledJob × Jobs
unfolding mark_running
claim_each [] jobs = ([], jobs)
claim_each (job ∷ rest) jobs =
    let after = mark_running job.execution_id jobs in
    let (claimed, final) = claim_each rest after in
    (updated_or (get job.execution_id after) job ∷ claimed, final)

unfoldable pub claim_due : ℕ → Jobs → List ScheduledJob × Jobs
unfolding due claim_each
claim_due as_of jobs = claim_each (due as_of jobs) jobs
