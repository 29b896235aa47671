-- ===== src/Scheduler/Samples.antt =====
-- One queue, and the scheduler's properties at it.
use recovery_pilot_ai.Scheduler.Table.{
  table_due, order_by_run_at, table_upsert, find_job, table_cancel, table_complete,
  table_active_count, table_queue_metrics,
}
use recovery_pilot_ai.Scheduler.Tables.{
  table_run, Write, queue_run, table_step, keyed, table_run-refines,
}
use recovery_pilot_ai.Planner.Models.{PlannerStrategy}
use recovery_pilot_ai.Scheduler.Claims.{start, claim_row, claim_due-claims}
use recovery_pilot_ai.Scheduler.Service.{claim_due}
use recovery_pilot_ai.Scheduler.Store.{
  queue_metrics, JobReason, due, active_count, ScheduledJob, JobStatus, get,
}
use recovery_pilot_ai.Policy.Models.{minute, hour}
use recovery_pilot_ai.Scheduler.Backoff.{Draws, next_backoff, next_backoff-grows, one_second}
use recovery_pilot_ai.Scheduler.Queue.{run, IsQueue, Call, run-IsQueue}
use recovery_pilot_ai.Base.{List, ℕ, arith, [], ◌≡◌, map, ◌*◌, ◌∷◌, ◌+◌, refl, ◌≤◌, ◌<◌}

-- An offset of zero: the middle of the window.
abbrev centred : ℕ → ℕ
centred jitter = jitter

centred-Draws : Draws centred
centred-Draws = record { within = λ j. omega arith }

next_backoff-grows_example :
    (◌<◌ minute (5 * minute)) × (45 * one_second ≤ minute) × (5 * minute ≤ 2 * hour + 5 * minute)
unfolding next_backoff
next_backoff-grows_example =
    next_backoff-grows centred centred 0 1 minute (5 * minute) centred-Draws centred-Draws
      (omega arith) refl refl

abbrev history : List Call
history =
    Call.schedules 1 7 100 (JobReason.of_strategy PlannerStrategy.wait_for_payday) 0
    ∷ Call.schedules 2 8 500 JobReason.backoff 1
    ∷ Call.schedules 1 7 200 JobReason.policy_cooldown 0
    ∷ Call.claims 300
    ∷ Call.releases 1
    ∷ []

run-IsQueue_example : IsQueue (run history [])
run-IsQueue_example = run-IsQueue history

claim_due-claims_example :
    (let jobs = run history [] in
      let (claimed, after) = claim_due 300 jobs in
      (claimed ≡ map start (due 300 jobs))
      × (after ≡ map (claim_row 300) jobs)
      × (due 300 after ≡ [])
      × (claim_due 300 after ≡ ([], after))
      × (active_count after ≡ active_count jobs))
claim_due-claims_example = claim_due-claims 300 (run history []) (run-IsQueue history)

abbrev job : ℕ → ℕ → ScheduledJob
job id run_at = record {
  execution_id = id;
  recovery_case_id = 7;
  run_at = run_at;
  reason = JobReason.backoff;
  attempt = 0;
  status = JobStatus.pending;
}

-- Two jobs, one of which is replaced, and a third that is cancelled.
abbrev writes : List Write
writes =
    Write.upserts (job 1 200)
    ∷ Write.upserts (job 2 100)
    ∷ Write.upserts (job 1 150)
    ∷ Write.upserts (job 3 120)
    ∷ Write.cancels 3
    ∷ []

due_rows : table_due 300 (table_run writes []) ≡ job 2 100 ∷ job 1 150 ∷ []
unfolding table_due order_by_run_at table_run table_step table_upsert table_cancel table_complete
due_rows = refl

table_run-refines_example :
    (let rows = table_run writes [] in
      let jobs = queue_run writes [] in
      (keyed rows ≡ jobs)
      × (find_job 1 rows ≡ get 1 jobs)
      × (table_due 300 rows ≡ order_by_run_at (due 300 jobs))
      × (table_active_count rows ≡ active_count jobs)
      × (table_queue_metrics 300 rows ≡ queue_metrics 300 jobs))
table_run-refines_example = table_run-refines writes 1 300
