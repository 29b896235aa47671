-- ===== src/Webhooks/Refinement/Deliveries.antt =====
-- services/src/services/razorpay_webhooks/service.py on an inbox that keeps the promise: the service answers as it does
-- on the inbox that is nothing but the promise.
use recovery_pilot_ai.Webhooks.Events.{is_supported}
use recovery_pilot_ai.Webhooks.Dispatch.{Recovery}
use recovery_pilot_ai.Webhooks.Promise.{Refines, forget, plain_inbox}
use recovery_pilot_ai.Webhooks.Service.{
  committed, State, Ingested, record_or, result_of, Env, ingest_all, Delivery, replay, ingest, Read,
  dispatch, after_insert, Applied, replay_end, dispatch_end, read,
}
use recovery_pilot_ai.Webhooks.Inbox.Memory.{MemoryRows}
use recovery_pilot_ai.Webhooks.Inbox.{WebhookInbox, WebhookInboxRecord}
use recovery_pilot_ai.Base.{
  ◌∷◌, [], Option, ◌≡◌, refl, map_option, List, some, ℕ, none, Option-cases, Bool-cases, inl, inr,
}

module _ {R : Type 0} (view_rows : R → MemoryRows) where
  abbrev pub view_state : State R → State MemoryRows
  view_state s = record { inbox = view_rows s.inbox; recovery = s.recovery }

  abbrev pub view_ingested : Ingested R → Ingested MemoryRows
  view_ingested (Ingested.returned result s) = Ingested.returned result (view_state s)
  view_ingested Ingested.raised = Ingested.raised

record_or-forget :
    (o : Option WebhookInboxRecord) (existing : WebhookInboxRecord)
    → record_or (map_option forget o) (forget existing) ≡ forget (record_or o existing)
record_or-forget none existing = refl
record_or-forget (some row) existing = refl

module _ {R : Type 0} (a : WebhookInbox R) (v : R → MemoryRows) (refines : Refines a v) (env : Env)
    (delivery : Delivery) where
  replay-same_end :
      (seen : Read) (case_id : Option ℕ) (row : WebhookInboxRecord) (inbox : R) (x : Applied)
      → replay_end delivery seen case_id (forget row) (v inbox) x
        ≡ view_ingested v (replay_end delivery seen case_id row inbox x)
  replay-same_end seen case_id row inbox (Applied.done after) = refl
  replay-same_end seen case_id row inbox (Applied.broke error left) = refl
  replay-same_end seen case_id row inbox Applied.session_failed = refl

  dispatch-same_end :
      (seen : Read) (case_id : Option ℕ) (row : WebhookInboxRecord) (inbox : R) (x : Applied)
      → dispatch_end plain_inbox delivery seen case_id (forget row) (v inbox) x
        ≡ view_ingested v (dispatch_end a delivery seen case_id row inbox x)
  dispatch-same_end seen case_id row inbox (Applied.done after) =
      rw (refines.processed_same seen.id delivery.as_of inbox) refl
  dispatch-same_end seen case_id row inbox (Applied.broke error left) =
      rw (refines.failed_same seen.id error inbox) refl
  dispatch-same_end seen case_id row inbox Applied.session_failed = refl

  replay_same :
      (seen : Read) (existing : WebhookInboxRecord) (inbox : R) (r : Recovery)
      → replay plain_inbox env delivery seen (forget existing) (v inbox) r
        ≡ view_ingested v (replay a env delivery seen existing inbox r)
  unfolding replay
  replay_same seen existing inbox r =
      rw
        (
          refines.replay_same seen.id delivery.as_of inbox,
          record_or-forget (a.mark_replay seen.id delivery.as_of inbox).0 existing,
        )
        (replay-same_end seen _ (record_or (a.mark_replay seen.id delivery.as_of inbox).0 existing)
          _ _)

  dispatch_same :
      (seen : Read) (stored : WebhookInboxRecord) (inbox : R) (r : Recovery)
      → dispatch plain_inbox env delivery seen (forget stored) (v inbox) r
        ≡ view_ingested v (dispatch a env delivery seen stored inbox r)
  unfolding dispatch
  dispatch_same seen stored inbox r = elim (Bool-cases (is_supported seen.event)) [
    | inl t ↦ rw t (dispatch-same_end seen _ stored inbox _)
    | inr f ↦ rw (f, refines.processed_same seen.id delivery.as_of inbox) refl
  ]

  insert_same :
      (seen : Read) (inbox : R) (r : Recovery)
      → (o : Option (WebhookInboxRecord × R))
      → after_insert plain_inbox env delivery seen
          (map_option (λ p. (forget p.0, v p.1)) o)
          (v inbox)
          r
        ≡ view_ingested v (after_insert a env delivery seen o inbox r)
  insert_same seen inbox r (some (stored, after)) = dispatch_same seen stored after r
  insert_same seen inbox r none = elim (Option-cases (a.get seen.id inbox)) [
    | inl e ↦ rw (refines.get_same seen.id inbox, e) refl
    | inr (existing, e) ↦ rw (refines.get_same seen.id inbox, e) (replay_same seen existing inbox r)
  ]

  ingest_same :
      (s : State R)
      → ingest plain_inbox env (λ r. r) delivery (view_state v s)
        ≡ view_ingested v (ingest a env (λ r. r) delivery s)
  unfolding ingest
  ingest_same s = elim (Option-cases (a.get (read env.outside delivery).id s.inbox)) [
    | inl e ↦
        rw
          (
            ingest,
            refines.get_same _ s.inbox,
            e,
            refines.insert_same _ _ _ delivery.as_of s.inbox e,
          )
          (insert_same (read env.outside delivery) s.inbox s.recovery _)
    | inr (existing, e) ↦
        rw (ingest, refines.get_same _ s.inbox, e)
          (replay_same (read env.outside delivery) existing s.inbox s.recovery)
  ]

module _ {R : Type 0} (v : R → MemoryRows) where
  result_of-view : (x : Ingested R) → result_of (view_ingested v x) ≡ result_of x
  result_of-view (Ingested.returned answer s) = refl
  result_of-view Ingested.raised = refl

  committed-view :
      (s : State R) (x : Ingested R)
      → committed (λ rows. rows) (view_state v s) (view_ingested v x)
        ≡ view_state v (committed (λ rows. rows) s x)
  unfolding committed
  committed-view s (Ingested.returned answer after) = refl
  committed-view s Ingested.raised = refl

module _ {R : Type 0} (a : WebhookInbox R) (v : R → MemoryRows) (refines : Refines a v)
    (env : Env) where
  -- A series of deliveries has the same results on the promise, and the same state but for the view.
  pub ingest_all-same :
      (deliveries : List Delivery) (s : State R)
      → ingest_all plain_inbox env deliveries (view_state v s)
        ≡ ((ingest_all a env deliveries s).0, view_state v (ingest_all a env deliveries s).1)
  unfolding ingest_all
  ingest_all-same [] s = refl
  ingest_all-same (delivery ∷ deliveries) s =
      let first = ingest a env (λ r. r) delivery s in
      rw
        (
          ingest_same a v refines env delivery s,
          result_of-view v first,
          committed-view v s first,
          ingest_all-same deliveries (committed (λ rows. rows) s first),
        )
        refl
