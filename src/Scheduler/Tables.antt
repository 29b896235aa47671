-- ===== src/Scheduler/Tables.antt =====
-- services/src/services/scheduler/sqlalchemy_store.py and store.py: the table and the dict hold the same jobs.
use recovery_pilot_ai.Scheduler.Store.{
  Jobs, ScheduledJob, upsert, JobStatus, get, complete, cancel, mark_running, assign, release,
  SchedulerQueueMetrics, is_pending, is_running, active_count, count_jobs, move, due, queue_metrics,
  metrics_from_jobs, is_due,
}
use recovery_pilot_ai.Scheduler.Table.{
  Rows, table_upsert, find_job, table_complete, table_cancel, write_row, table_mark_running,
  table_release, table_active_count, table_move, is_counted, table_due, table_queue_metrics,
  order_by_run_at,
}
use recovery_pilot_ai.Base.{
  List, ℕ, ◌≡◌, map, ◌∷◌, some, none, Bool-cases, [], ◌==◌, arith, ◌++◌, inl, inr, ap, refl, ◌∙◌,
  ==_iff, Bool, Option-cases, filter, sym, true, false,
}

-- The dict that the rows make.
abbrev pub keyed : Rows → Jobs
keyed rows = map (λ row. (row.execution_id, row)) rows

-- A call that writes. `claim_due` is `due` with `mark_running` for each job.
pub data Write : Type 0 where
  upserts : ScheduledJob → Write
  completes : ℕ → JobStatus → Write
  cancels marks releases : ℕ → Write

unfoldable pub queue_step : Write → Jobs → Jobs
queue_step (Write.upserts job) jobs = upsert job jobs
queue_step (Write.completes id status) jobs = complete id status jobs
queue_step (Write.cancels id) jobs = cancel id jobs
queue_step (Write.marks id) jobs = mark_running id jobs
queue_step (Write.releases id) jobs = release id jobs

unfoldable pub table_step : Write → Rows → Rows
table_step (Write.upserts job) rows = (table_upsert job rows).1
table_step (Write.completes id status) rows = table_complete id status rows
table_step (Write.cancels id) rows = table_cancel id rows
table_step (Write.marks id) rows = table_mark_running id rows
table_step (Write.releases id) rows = table_release id rows

unfoldable pub queue_run : List Write → Jobs → Jobs
unfolding queue_step
queue_run [] jobs = jobs
queue_run (write ∷ writes) jobs = queue_run writes (queue_step write jobs)

unfoldable pub table_run : List Write → Rows → Rows
unfolding table_step
table_run [] rows = rows
table_run (write ∷ writes) rows = table_run writes (table_step write rows)

get-keyed : (id : ℕ) (rows : Rows) → get id (keyed rows) ≡ find_job id rows
get-keyed id [] = refl
get-keyed id (row ∷ rows) = elim (Bool-cases (id == row.execution_id)) [
  | inl t ↦ rw t refl
  | inr f ↦ rw f (get-keyed id rows)
]

find_job-id :
    (id : ℕ) (rows : Rows) (row : ScheduledJob)
    → find_job id rows ≡ some row
    → row.execution_id ≡ id
find_job-id id [] row e = ground arith
find_job-id id (row' ∷ rows) row e = let rest = find_job-id id rows row in ground arith

keyed-write_row :
    (id : ℕ) (new : ScheduledJob) (rows : Rows) (row : ScheduledJob)
    → new.execution_id ≡ id
    → find_job id rows ≡ some row
    → keyed (write_row id new rows) ≡ assign id new (keyed rows)
keyed-write_row id new [] row n e = ground arith
keyed-write_row id new (row' ∷ rows) row n e = elim (Bool-cases (id == row'.execution_id)) [
  | inl t ↦ rw t (ap (λ k. (k, new) ∷ keyed rows) (n ∙ (==_iff id row'.execution_id).0 t))
  | inr f ↦
      let later : find_job id rows ≡ some row = rw f at e in
      rw f (ap (λ xs. (row'.execution_id, row') ∷ xs) (keyed-write_row id new rows row n later))
]

keyed-append :
    (job : ScheduledJob) (rows : Rows)
    → find_job job.execution_id rows ≡ none
    → keyed (rows ++ (job ∷ [])) ≡ assign job.execution_id job (keyed rows)
keyed-append job [] e = refl
keyed-append job (row ∷ rows) e = elim (Bool-cases (job.execution_id == row.execution_id)) [
  | inl t ↦ let none_some : some row ≡ none = rw t at e in ground arith
  | inr f ↦
      let later : find_job job.execution_id rows ≡ none = rw f at e in
      rw f (ap (λ xs. (row.execution_id, row) ∷ xs) (keyed-append job rows later))
]

upsert-keyed :
    (job : ScheduledJob) (rows : Rows) → keyed (table_upsert job rows).1 ≡ upsert job (keyed rows)
unfolding table_upsert upsert
upsert-keyed job rows = elim (Option-cases (find_job job.execution_id rows)) [
  | inl e ↦ rw (table_upsert, e) (keyed-append job rows e)
  | inr (row, e) ↦
      let same : row.execution_id ≡ job.execution_id = find_job-id job.execution_id rows row e in
      rw (table_upsert, e)
        (keyed-write_row job.execution_id _ rows row same e
          ∙ ap (λ k. assign job.execution_id (record job { execution_id = k }) (keyed rows)) same)
]

-- One job of the dict goes to another status, under a test on the one that it has.
assigned :
    (from : JobStatus → Bool) (to : JobStatus) (id : ℕ) (jobs : Jobs) (job : ScheduledJob)
    → get id jobs ≡ some job
    → from job.status ≡ true
    → move from to id jobs ≡ assign id (record job { status = to }) jobs
assigned from to id jobs job e t = rw (move, e, t) refl

unmoved :
    (from : JobStatus → Bool) (to : JobStatus) (id : ℕ) (jobs : Jobs) (job : ScheduledJob)
    → get id jobs ≡ some job
    → from job.status ≡ false
    → move from to id jobs ≡ jobs
unmoved from to id jobs job e f = rw (move, e, f) refl

missing :
    (from : JobStatus → Bool) (to : JobStatus) (id : ℕ) (jobs : Jobs)
    → get id jobs ≡ none
    → move from to id jobs ≡ jobs
missing from to id jobs e = rw (move, e) refl

move-keyed :
    (from : JobStatus → Bool) (to : JobStatus) (id : ℕ) (rows : Rows)
    → keyed (table_move from to id rows) ≡ move from to id (keyed rows)
move-keyed from to id rows = elim (Option-cases (find_job id rows)) [
  | inl e ↦ rw (table_move, e) (sym (missing from to id (keyed rows) (get-keyed id rows ∙ e)))
  | inr (row, e) ↦ elim (Bool-cases (from row.status)) [
    | inl t ↦
        rw (table_move, e, t)
          (keyed-write_row id (record row { status = to }) rows row (find_job-id id rows row e) e
            ∙ sym (assigned from to id (keyed rows) row (get-keyed id rows ∙ e) t))
    | inr f ↦
        rw (table_move, e, f) (sym (unmoved from to id (keyed rows) row (get-keyed id rows ∙ e) f))
  ]
]

complete-keyed :
    (id : ℕ) (status : JobStatus) (rows : Rows)
    → keyed (table_complete id status rows) ≡ complete id status (keyed rows)
unfolding table_complete complete
complete-keyed id status rows = move-keyed (λ s. true) status id rows

step-keyed :
    (write : Write) (rows : Rows) → keyed (table_step write rows) ≡ queue_step write (keyed rows)
unfolding table_step queue_step table_cancel cancel table_mark_running mark_running table_release
    release
step-keyed (Write.upserts job) rows = upsert-keyed job rows
step-keyed (Write.completes id status) rows = complete-keyed id status rows
step-keyed (Write.cancels id) rows = complete-keyed id JobStatus.cancelled rows
step-keyed (Write.marks id) rows = move-keyed is_pending JobStatus.running id rows
step-keyed (Write.releases id) rows = move-keyed is_running JobStatus.pending id rows

run-keyed :
    (writes : List Write) (rows : Rows)
    → keyed (table_run writes rows) ≡ queue_run writes (keyed rows)
unfolding table_run queue_run
run-keyed [] rows = refl
run-keyed (write ∷ writes) rows =
    run-keyed writes (table_step write rows) ∙ ap (queue_run writes) (step-keyed write rows)

values-keyed : (rows : Rows) → map (λ r. r.1) (keyed rows) ≡ rows
values-keyed [] = refl
values-keyed (row ∷ rows) = ap (λ xs. row ∷ xs) (values-keyed rows)

active_count-keyed : (rows : Rows) → table_active_count rows ≡ active_count (keyed rows)
unfolding table_active_count active_count
active_count-keyed [] = refl
active_count-keyed (row ∷ rows) = let rest = active_count-keyed rows in ground arith

-- A cancelled job counts for nothing.
count_jobs-counted :
    (as_of : ℕ) (rows : Rows) (m : SchedulerQueueMetrics)
    → count_jobs as_of (filter (λ row. is_counted row.status) rows) m ≡ count_jobs as_of rows m
count_jobs-counted as_of [] m = refl
count_jobs-counted as_of (row ∷ rows) m =
    elim row.status
      as (λ s.
        count_jobs as_of (filter (λ r. is_counted r.status) (record row { status = s } ∷ rows)) m
        ≡ count_jobs as_of (record row { status = s } ∷ rows) m) [
          | JobStatus.pending ↦ count_jobs-counted as_of rows _
          | JobStatus.running ↦ count_jobs-counted as_of rows _
          | _ ↦ count_jobs-counted as_of rows _
        ]

-- After any writes, the dict of the in-memory store is that of the table's rows: both find the same job under an
-- id, the table lists the due jobs of the dict in the order of `run_at`, and both count the same.
pub table_run-refines :
    (writes : List Write) (id as_of : ℕ)
    → let rows = table_run writes [] in
      let jobs = queue_run writes [] in
      (keyed rows ≡ jobs)
      × (find_job id rows ≡ get id jobs)
      × (table_due as_of rows ≡ order_by_run_at (due as_of jobs))
      × (table_active_count rows ≡ active_count jobs)
      × (table_queue_metrics as_of rows ≡ queue_metrics as_of jobs)
unfolding table_due due table_queue_metrics queue_metrics metrics_from_jobs
table_run-refines writes id as_of =
    let same : keyed (table_run writes []) ≡ queue_run writes [] = run-keyed writes [] in
    (
      same,
      sym (get-keyed id (table_run writes [])) ∙ ap (get id) same,
      ap (λ rows. order_by_run_at (filter (is_due as_of) rows))
          (sym (values-keyed (table_run writes [])) ∙ ap (map (λ r. r.1)) same),
      active_count-keyed (table_run writes []) ∙ ap active_count same,
      count_jobs-counted as_of (table_run writes []) _
          ∙ ap (λ rows. metrics_from_jobs rows as_of)
              (sym (values-keyed (table_run writes [])) ∙ ap (map (λ r. r.1)) same),
    )
