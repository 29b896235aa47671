-- ===== src/Orchestrator/Finished.antt =====
-- services/src/services/action_orchestrator/orchestrator.py: a finished action stays finished, and a
-- failing one is tried a bounded number of times.
use recovery_pilot_ai.Scheduler.Backoff.{ℤ, next_backoff, next_backoff-none, next_backoff-some}
use recovery_pilot_ai.Scheduler.Service.{schedule}
use recovery_pilot_ai.Scheduler.Store.{ScheduledJob, Jobs, upsert, get, assign, JobStatus}
use recovery_pilot_ai.Orchestrator.Start.{
  run, start, start_for, run_existing, existing_row, is_hit, action_key,
}
use recovery_pilot_ai.Orchestrator.Models.{
  find_row, OrchestratorContext, save, ActionRecord, Display, is_terminal, display_status_for,
}
use recovery_pilot_ai.Base.{
  ℕ, Bool, List, ◌≡◌, ◌≤◌, true, some, ◌⊎◌, Bool-cases, false, ◌==◌, arith, suc, ◌<◌, inl, ap, ◌∷◌,
  subst, [], inr, ◌∙◌, sym, refl, Option, none,
}
use recovery_pilot_ai.Orchestrator.Run.{
  backoff_or_dead_letter, Services, finalize, persist_status, World, AuditEventType, ends,
  after_delay,
}

save-find :
    (row : ActionRecord) (rows : List ActionRecord) → find_row row.id (save row rows) ≡ some row
unfolding find_row save
save-find row [] = let e : (row.id == row.id) ≡ true = ground arith in rw e refl
save-find row (old ∷ rows) = elim (Bool-cases (row.id == old.id)) [
  | inl t ↦ let e : (row.id == row.id) ≡ true = ground arith in rw (t, e) refl
  | inr f ↦ rw (f, f) (save-find row rows)
]

finalize-find :
    (row : ActionRecord) (context : OrchestratorContext) (display : Display)
    (event : AuditEventType) (w : World)
    → (let (stored, after) = finalize row context display event w in
        find_row row.id after.actions ≡ some stored)
unfolding finalize persist_status
finalize-find row context display event w = elim (Bool-cases (ends display)) [
  | inl t ↦ rw t (save-find _ w.actions)
  | inr f ↦ rw f (save-find _ w.actions)
]

run-hit :
    (services : Services) (context : OrchestratorContext) (force_schedule replay : Bool) (n : ℕ)
    (w : World) (row : ActionRecord) (case_id : ℕ)
    → context.plan.recovery_case_id ≡ some case_id
    → find_row (services.hashes.execution_id_for (action_key context case_id)) w.actions ≡ some row
    → is_terminal (display_status_for row) ≡ true
    → run (suc n) services context force_schedule replay w ≡ some (row, true, w)
unfolding run start start_for run_existing existing_row is_hit
run-hit services context force_schedule replay n w row case_id h f t =
    subst
      (λ o.
        start_for (λ c v. run n services c false false v) services context force_schedule replay w o
        ≡ some (row, true, w))
      (sym h) (rw (f, t) refl)

finalize-display :
    (row : ActionRecord) (context : OrchestratorContext) (display : Display)
    (event : AuditEventType) (w : World)
    → is_terminal display ≡ true
    → row.dead_lettered ≡ false
    → row.is_expired ≡ false
    → is_terminal (display_status_for (finalize row context display event w).0) ≡ true
unfolding finalize persist_status display_status_for
finalize-display row context display event w t d x = rw (d, x) t

-- Once `_finalize` has stored a success, a cancellation or an expiry of a row that is marked neither as dead-lettered
-- nor as expired, a run of any plan with that execution id, forced or replayed or later, returns the stored row as a
-- replay and changes nothing.
pub finalize-once :
    (services : Services) (context later : OrchestratorContext) (force_schedule replay : Bool)
    (n case_id : ℕ) (w : World) (row : ActionRecord) (display : Display) (event : AuditEventType)
    → is_terminal display ≡ true
    → row.dead_lettered ≡ false
    → row.is_expired ≡ false
    → later.plan.recovery_case_id ≡ some case_id
    → services.hashes.execution_id_for (action_key later case_id) ≡ row.id
    → (let (stored, after) = finalize row context display event w in
        run (suc n) services later force_schedule replay after ≡ some (stored, true, after))
finalize-once services context later force_schedule replay n case_id w row display event t d x c k =
    let (stored, after) = finalize row context display event w in
    run-hit services later force_schedule replay n after stored case_id c
      (ap (λ i. find_row i after.actions) k ∙ finalize-find row context display event w)
      (finalize-display row context display event w t d x)

get-assign : (id : ℕ) (job : ScheduledJob) (jobs : Jobs) → get id (assign id job jobs) ≡ some job
get-assign id job [] = let e : (id == id) ≡ true = ground arith in rw e refl
get-assign id job ((k, old) ∷ rows) = elim (Bool-cases (id == k)) [
  | inl t ↦ rw (t, t) refl
  | inr f ↦ rw (f, f) (get-assign id job rows)
]

-- The action is given up after at least four retries, or a pending job stands in the queue for a
-- later moment, with one attempt more.
abbrev pub Bounded : ActionRecord → ℕ → ActionRecord × World → Type 0
Bounded row as_of (stored, after) =
    ((4 ≤ row.retry_number)
      × (stored.dead_lettered ≡ true)
      × (stored.display_status ≡ some Display.failed))
    ⊎ ((row.retry_number < 4)
        × ((job : ScheduledJob) × (get row.id after.jobs ≡ some job)
            × (job.status ≡ JobStatus.pending)
            × (as_of < job.run_at)
            × (job.attempt ≡ suc row.retry_number)))

after_delay-Bounded :
    (uniform : ℕ → ℕ) (row : ActionRecord) (context : OrchestratorContext) (w : World)
    (delay : Option ℕ)
    → next_backoff uniform (ℤ.pos row.retry_number) ≡ delay
    → Bounded row context.as_of (after_delay row context w delay)
unfolding after_delay persist_status schedule upsert
after_delay-Bounded uniform row context w none e =
    inl ((next_backoff-none uniform (ℤ.pos row.retry_number)).0 e, refl, refl)
after_delay-Bounded uniform row context w (some delay) e =
    let (few, long) = next_backoff-some uniform row.retry_number delay e in
    inr (few, (_, get-assign row.id _ w.jobs, refl, omega (arith, long), refl))

-- A failed attempt: once four retries are counted the action is dead-lettered and shown as failed;
-- before that a pending job stands in the queue for a later moment, with one attempt more.
pub backoff_or_dead_letter-Bounded :
    (services : Services) (row : ActionRecord) (context : OrchestratorContext) (w : World)
    → Bounded row context.as_of (backoff_or_dead_letter services row context w)
unfolding backoff_or_dead_letter
backoff_or_dead_letter-Bounded services row context w =
    after_delay-Bounded services.uniform row context w _ refl
