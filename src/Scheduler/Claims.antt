-- ===== src/Scheduler/Claims.antt =====
-- services/src/services/scheduler/service.py and store.py: what a tick claims.
use recovery_pilot_ai.Scheduler.Service.{claim_each, claim_due, updated_or}
use recovery_pilot_ai.Scheduler.Queue.{Fresh, Keyed, Distinct, IsQueue}
use recovery_pilot_ai.Base.{
  ℕ, All, ◌++◌, if◌then◌else◌, ◌==◌, ◌∷◌, ◌≡◌, [], true, false, some, arith, map, ap, All-append,
  refl, Bool-cases, inl, inr, filter, List, sym, All-true, ◌∙◌, subst, ==_false,
}
use recovery_pilot_ai.Scheduler.Store.{
  ScheduledJob, mark_running, due, Jobs, JobStatus, is_pending, get, assign, is_due, move,
  active_count,
}

abbrev pub start : ScheduledJob → ScheduledJob
start job = record job { status = JobStatus.running }

-- What a claim does to one row.
abbrev pub claim_row : ℕ → ℕ × ScheduledJob → ℕ × ScheduledJob
claim_row as_of (k, job) = if is_due as_of job then (k, start job) else (k, job)

get-append :
    (id : ℕ) (job : ScheduledJob) (rows more : Jobs)
    → Fresh id rows
    → get id (rows ++ ((id, job) ∷ more)) ≡ some job
get-append id job [] more f = let e : (id == id) ≡ true = ground arith in rw e refl
get-append id job ((k, j) ∷ rows) more (f, fs) = rw f (get-append id job rows more fs)

assign-append :
    (id : ℕ) (old job : ScheduledJob) (rows more : Jobs)
    → Fresh id rows
    → assign id job (rows ++ ((id, old) ∷ more)) ≡ rows ++ ((id, job) ∷ more)
assign-append id old job [] more f = let e : (id == id) ≡ true = ground arith in rw e refl
assign-append id old job ((k, j) ∷ rows) more (f, fs) =
    rw f (ap (λ xs. (k, j) ∷ xs) (assign-append id old job rows more fs))

mark_running-append :
    (id : ℕ) (job : ScheduledJob) (rows more : Jobs)
    → Fresh id rows
    → is_pending job.status ≡ true
    → mark_running id (rows ++ ((id, job) ∷ more)) ≡ rows ++ ((id, start job) ∷ more)
unfolding mark_running
mark_running-append id job rows more f p =
    rw (get-append id job rows more f, p, move) (assign-append id job (start job) rows more f)

pending-due :
    (as_of : ℕ) (job : ScheduledJob) → is_due as_of job ≡ true → is_pending job.status ≡ true
pending-due as_of job h = ground arith

snoc :
    (row : ℕ × ScheduledJob) (rows more : Jobs)
    → (rows ++ (row ∷ [])) ++ more ≡ rows ++ (row ∷ more)
snoc row [] more = refl
snoc row (x ∷ rows) more = ap (λ xs. x ∷ xs) (snoc row rows more)

-- Rows `rows` behind rows `done`, with no id in common.
abbrev Apart : Jobs → Jobs → Type 0
Apart done rows = All (λ r. Fresh r.0 done) rows

Apart-next :
    (done : Jobs) (k : ℕ) (job : ScheduledJob) (rows : Jobs)
    → Fresh k rows
    → Apart done rows
    → Apart (done ++ ((k, job) ∷ [])) rows
Apart-next done k job [] f a = tt
Apart-next done k job ((i, j) ∷ rows) (f, fs) (a, as') = (
  All-append (λ r. (i == r.0) ≡ false) done ((k, job) ∷ []) a (==_false k i f, tt),
  Apart-next done k job rows fs as',
)

-- One round of the loop, at a row that stands behind `done`.
claim_each-row :
    (k : ℕ) (job : ScheduledJob) (rest : List ScheduledJob) (done rows : Jobs)
    → job.execution_id ≡ k
    → Fresh k done
    → is_pending job.status ≡ true
    → claim_each (job ∷ rest) (done ++ ((k, job) ∷ rows)) ≡ (
      start job ∷ (claim_each rest (done ++ ((k, start job) ∷ rows))).0,
      (claim_each rest (done ++ ((k, start job) ∷ rows))).1,
    )
unfolding claim_each mark_running
claim_each-row k job rest done rows h f p =
    let after = done ++ ((k, start job) ∷ rows) in
    let moved : mark_running job.execution_id (done ++ ((k, job) ∷ rows)) ≡ after =
      subst (λ i. mark_running i (done ++ ((k, job) ∷ rows)) ≡ after) (sym h)
        (mark_running-append k job done rows f p) in
    let found : get job.execution_id after ≡ some (start job) =
      subst (λ i. get i after ≡ some (start job)) (sym h) (get-append k (start job) done rows f) in
    ap
      (λ x.
        (updated_or (get job.execution_id x) job ∷ (claim_each rest x).0, (claim_each rest x).1))
      moved
    ∙ ap (λ o. (updated_or o job ∷ (claim_each rest after).0, (claim_each rest after).1)) found

claim_each-rows :
    (as_of : ℕ) (done rows : Jobs)
    → Keyed rows
    → Distinct rows
    → Apart done rows
    → claim_each (due as_of rows) (done ++ rows)
      ≡ (map start (due as_of rows), done ++ map (claim_row as_of) rows)
unfolding due claim_each
claim_each-rows as_of done [] h d a = refl
claim_each-rows as_of done ((k, job) ∷ rows) (h, hs) (d, ds) (a, as') =
    elim (Bool-cases (is_due as_of job)) [
      | inl t ↦
          let moved = done ++ ((k, start job) ∷ []) in
          let rest = filter (is_due as_of) (map (λ r. r.1) rows) in
          let later =
            claim_each-rows as_of moved rows hs ds (Apart-next done k (start job) rows d as') in
          rw t (
            claim_each-row k job rest done rows h a (pending-due as_of job t)
            ∙ ap (λ q. (start job ∷ q.0, q.1))
                (ap (claim_each rest) (sym (snoc (k, start job) done rows))
                  ∙ later
                  ∙ ap (λ xs. (map start rest, xs))
                      (snoc (k, start job) done (map (claim_row as_of) rows))))
      | inr f ↦
          let kept = done ++ ((k, job) ∷ []) in
          let rest = filter (is_due as_of) (map (λ r. r.1) rows) in
          let later = claim_each-rows as_of kept rows hs ds (Apart-next done k job rows d as') in
          rw f (
            ap (claim_each rest) (sym (snoc (k, job) done rows))
            ∙ later
            ∙ ap (λ xs. (map start rest, xs)) (snoc (k, job) done (map (claim_row as_of) rows)))
    ]

due-after : (as_of : ℕ) (rows : Jobs) → due as_of (map (claim_row as_of) rows) ≡ []
unfolding due
due-after as_of [] = refl
due-after as_of ((k, job) ∷ rows) = elim (Bool-cases (is_due as_of job)) [
  | inl t ↦ rw t (due-after as_of rows)
  | inr f ↦ rw (f, f) (due-after as_of rows)
]

active-after :
    (as_of : ℕ) (rows : Jobs) → active_count (map (claim_row as_of) rows) ≡ active_count rows
unfolding active_count
active-after as_of [] = refl
active-after as_of ((k, job) ∷ rows) =
    let rest = active-after as_of rows in
    elim (Bool-cases (is_due as_of job)) [
      | inl t ↦ let p = pending-due as_of job t in rw (t, p) (omega (arith, rest))
      | inr f ↦ rw f (omega (arith, rest))
    ]

again : (as_of : ℕ) (jobs : Jobs) → due as_of jobs ≡ [] → claim_due as_of jobs ≡ ([], jobs)
unfolding claim_due claim_each
again as_of jobs h = rw h refl

-- A tick on a queue: the jobs that it returns are the due ones, each now running; exactly their
-- rows change, in place; nothing is due any more at that time, so a second tick claims nothing; and
-- the number of active jobs stays.
pub claim_due-claims :
    (as_of : ℕ) (jobs : Jobs)
    → IsQueue jobs
    → (let (claimed, after) = claim_due as_of jobs in
        (claimed ≡ map start (due as_of jobs))
        × (after ≡ map (claim_row as_of) jobs)
        × (due as_of after ≡ [])
        × (claim_due as_of after ≡ ([], after))
        × (active_count after ≡ active_count jobs))
unfolding claim_due
claim_due-claims as_of jobs q =
    let all : claim_due as_of jobs ≡ (map start (due as_of jobs), map (claim_row as_of) jobs) =
      claim_each-rows as_of [] jobs q.keyed q.distinct
        (All-true (λ r. Fresh r.0 []) (λ _. tt) jobs) in
    rw all (
      refl,
      refl,
      due-after as_of jobs,
      again as_of (map (claim_row as_of) jobs) (due-after as_of jobs),
      active-after as_of jobs,
    )
