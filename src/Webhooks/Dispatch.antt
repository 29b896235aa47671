-- ===== src/Webhooks/Dispatch.antt =====
-- services/src/services/action_orchestrator/orchestrator.py: `apply_provider_webhook`, on the rows, the
-- queue and the audit log of the orchestrator and the tables of cases and payments.
use recovery_pilot_ai.Communications.Models.{Text}
use recovery_pilot_ai.Scheduler.Store.{complete, JobStatus}
use recovery_pilot_ai.Webhooks.Events.{is_capture, is_stop, is_event, event_payment_failed}
use recovery_pilot_ai.Orchestrator.Run.{persist_status, AuditEventType, World}
use recovery_pilot_ai.Webhooks.Database.{apply_recovery_status, Tables}
use recovery_pilot_ai.Base.{
  Option, ℕ, max_of?, List, Bool, true, if◌then◌else◌, some, ◌++◌, ltb, false, filter, or_else, ◌∷◌,
  [], ◌==◌, none,
}
use recovery_pilot_ai.Orchestrator.Models.{Display, ActionRecord}

pub record Recovery : Type 0 where
  pub db : Option Tables
  pub world : World

-- `list_for_case(id)[0]` with `created_at` by row: the first of the newest rows of a case.
unfoldable pub newest : (ℕ → ℕ) → ℕ → List ActionRecord → Option ActionRecord
unfolding max_of?
newest created_at case_id rows =
    max_of? (λ a b. ltb (created_at a.id) (created_at b.id))
      (filter (λ row. row.recovery_case_id == case_id) rows)

unfoldable pub display_for : Text → Display
unfolding is_capture is_stop is_event
display_for event =
    if is_capture event
    then Display.success
    else if is_stop event
    then Display.cancelled
    else if is_event event_payment_failed event
    then Display.failed
    else Display.sent

unfoldable pub audit_for : Text → AuditEventType
unfolding is_capture is_stop
audit_for event =
    if is_capture event
    then AuditEventType.payment_captured
    else if is_stop event
    then AuditEventType.recovery_stopped
    else AuditEventType.action_executed

abbrev pub is_success : Display → Bool
is_success Display.success = true
is_success _ = false

abbrev pub audit_case : ℕ → AuditEventType → World → World
audit_case case_id event w = record w { audits = w.audits ++ ((case_id, event) ∷ []) }

-- The update of the newest row; a success ends its job.
unfoldable pub update_newest :
    Option ActionRecord → Display → ℕ → World → Option ActionRecord × World
unfolding persist_status complete
update_newest none display as_of w = (none, w)
update_newest (some row) display as_of w =
    let timed =
      if is_success display
      then record row { executed_time = or_else row.executed_time (some as_of) }
      else row in
    let jobs = if is_success display then complete row.id JobStatus.done w.jobs else w.jobs in
    let (stored, after) = persist_status timed display (record w { jobs = jobs }) in
    (some stored, after)

unfoldable pub apply_provider_webhook :
    (ℕ → ℕ) → ℕ → Text → ℕ → Bool → Recovery → Option ActionRecord × Recovery
unfolding newest display_for audit_for update_newest apply_recovery_status
apply_provider_webhook created_at case_id event as_of replay r =
    let found = newest created_at case_id r.world.actions in
    let (status, db) = apply_recovery_status r.db case_id event as_of in
    let (stored, world) = update_newest found (display_for event) as_of r.world in
    if replay
    then (found, record r { world = audit_case case_id AuditEventType.action_executed r.world })
    else (stored, record { db = db; world = audit_case case_id (audit_for event) world })
