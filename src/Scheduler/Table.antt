-- ===== src/Scheduler/Table.antt =====
-- services/src/services/scheduler/sqlalchemy_store.py: the queue in the table `scheduler_jobs`, whose column
-- `execution_id` is unique. `updated_at`, which nothing reads, the creation of the table and log calls are left out.
use recovery_pilot_ai.Base.{
  ℕ, List, Option, Bool, ◌∷◌, filter, length, if◌then◌else◌, false, [], none, ◌||◌, ◌==◌, leb, ◌++◌,
  true, some, not,
}
use recovery_pilot_ai.Scheduler.Store.{
  metrics_from_jobs, JobStatus, ScheduledJob, is_running, SchedulerQueueMetrics, is_pending, is_due,
}

-- The rows, in the order of insertion.
abbrev pub Rows : Type 0
Rows = List ScheduledJob

-- `select(SchedulerJob).where(SchedulerJob.execution_id == execution_id)`
abbrev pub find_job : ℕ → Rows → Option ScheduledJob
find_job id [] = none
find_job id (row ∷ rows) =
    let rest = find_job id rows in if id == row.execution_id then some row else rest

-- What the session flushes of a row that was assigned to.
abbrev pub write_row : ℕ → ScheduledJob → Rows → Rows
write_row id new [] = []
write_row id new (row ∷ rows) =
    let rest = write_row id new rows in if id == row.execution_id then new ∷ rows else row ∷ rest

unfoldable pub table_upsert : ScheduledJob → Rows → ScheduledJob × Rows
table_upsert job rows = elim (find_job job.execution_id rows) [
  | none ↦ (job, rows ++ (job ∷ []))
  | some row ↦
      let written : ScheduledJob = record row {
        recovery_case_id = job.recovery_case_id;
        run_at = job.run_at;
        reason = job.reason;
        attempt = job.attempt;
        status = job.status;
      } in
      (written, write_row job.execution_id written rows)
]

abbrev pub place_job : ScheduledJob → List ScheduledJob → List ScheduledJob
place_job job [] = job ∷ []
place_job job (row ∷ rows) =
    let rest = place_job job rows in
    if leb job.run_at row.run_at then job ∷ row ∷ rows else row ∷ rest

-- `order_by(SchedulerJob.run_at.asc())`
unfoldable pub order_by_run_at : List ScheduledJob → List ScheduledJob
order_by_run_at [] = []
order_by_run_at (row ∷ rows) = place_job row (order_by_run_at rows)

unfoldable pub table_due : ℕ → Rows → List ScheduledJob
unfolding order_by_run_at
table_due as_of rows = order_by_run_at (filter (is_due as_of) rows)

unfoldable pub table_complete : ℕ → JobStatus → Rows → Rows
table_complete id status rows = elim (find_job id rows) [
  | none ↦ rows
  | some row ↦ write_row id (record row { status = status }) rows
]

unfoldable pub table_cancel : ℕ → Rows → Rows
unfolding table_complete
table_cancel id rows = table_complete id JobStatus.cancelled rows

-- The body of `mark_running` and of `release`.
abbrev pub table_move : (JobStatus → Bool) → JobStatus → ℕ → Rows → Rows
table_move from to id rows = elim (find_job id rows) [
  | none ↦ rows
  | some row ↦
      if not (from row.status) then rows else write_row id (record row { status = to }) rows
]

unfoldable pub table_mark_running : ℕ → Rows → Rows
table_mark_running id rows = table_move is_pending JobStatus.running id rows

unfoldable pub table_release : ℕ → Rows → Rows
table_release id rows = table_move is_running JobStatus.pending id rows

unfoldable pub table_active_count : Rows → ℕ
table_active_count rows =
    length (filter (λ row. is_pending row.status || is_running row.status) rows)

abbrev pub is_counted : JobStatus → Bool
is_counted JobStatus.cancelled = false
is_counted _ = true

unfoldable pub table_queue_metrics : ℕ → Rows → SchedulerQueueMetrics
unfolding metrics_from_jobs
table_queue_metrics as_of rows =
    metrics_from_jobs (filter (λ row. is_counted row.status) rows) as_of
