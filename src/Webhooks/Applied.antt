-- ===== src/Webhooks/Applied.antt =====
-- services/src/services/razorpay_webhooks/service.py on the SQL inbox: an event whose delivery was answered is not applied
-- again, whatever other sessions insert meanwhile.
use recovery_pilot_ai.Webhooks.Events.{is_supported}
use recovery_pilot_ai.Webhooks.Dispatch.{Recovery, apply_provider_webhook}
use recovery_pilot_ai.Webhooks.Service.{
  Env, Ingested, Delivery, committed, Read, replay, dispatch, apply_case, Applied, dispatch_end,
  replay_end, after_insert, ingest, record_or, apply_after, read, State, event_id_of, result_of,
}
use recovery_pilot_ai.Base.Dict.{insert, lookup, lookup-insert_self, lookup-insert_ne}
use recovery_pilot_ai.Base.{
  ◌∷◌, ℕ, ◌≡◌, Bool, true, is_some, Option-cases, Bool-cases, inl, inr, refl, Option, ◌⊎◌, false,
  none, List, [], All, some,
}
use recovery_pilot_ai.Webhooks.Inbox.{WebhookEvent, WebhookInboxRecord, mark, record_from_payload}
use recovery_pilot_ai.Webhooks.Inbox.Sql.{
  sql_inbox, insert_event, sql_replay, SqlRows, replay_event, process_event, fail_event, new_event,
}
use recovery_pilot_ai.Communications.Models.{Text, text_key}

-- The inbox has the event.
abbrev pub has : Text → SqlRows → Bool
has id rows = is_some (lookup id rows)

has-insert :
    (id other : Text) (row : WebhookEvent) (rows : SqlRows)
    → has id rows ≡ true
    → has id (insert other row rows) ≡ true
has-insert id other row rows h = elim (Bool-cases (text_key.same id other)) [
  | inl t ↦ rw (text_key.of_same id other t, lookup-insert_self other row rows) refl
  | inr f ↦ rw (lookup-insert_ne id other row rows f) h
]

has-mark :
    (f : WebhookEvent → WebhookEvent) (id other : Text) (rows : SqlRows)
    → has id rows ≡ true
    → has id (mark f other rows) ≡ true
has-mark f id other rows h = elim (Option-cases (lookup other rows)) [
  | inl e ↦ rw (mark, e) h
  | inr (row, e) ↦ rw (mark, e) (has-insert id other (f row) rows h)
]

has-replay :
    (id other : Text) (at : ℕ) (rows : SqlRows)
    → has id rows ≡ true
    → has id (sql_replay other at rows).1 ≡ true
unfolding sql_replay
has-replay id other at rows h = elim (Option-cases (lookup other rows)) [
  | inl e ↦ rw (sql_replay, e) h
  | inr (row, e) ↦ rw (sql_replay, e) (has-insert id other (replay_event at row) rows h)
]

-- The event is in the inbox after a call that returned.
abbrev keeps_event : Text → Ingested SqlRows → Bool
keeps_event id (Ingested.returned answer after) = has id after.inbox
keeps_event id Ingested.raised = true

-- What other sessions do takes no event out.
abbrev pub Keeps : (SqlRows → SqlRows) → Type 0
Keeps meanwhile = (id : Text) (rows : SqlRows) → has id rows ≡ true → has id (meanwhile rows) ≡ true

module _ (env : Env) (delivery : Delivery) (seen : Read) where
  has-replay_end :
      (id : Text) (case_id : Option ℕ) (row : WebhookInboxRecord) (inbox : SqlRows) (x : Applied)
      → has id inbox ≡ true
      → keeps_event id (replay_end delivery seen case_id row inbox x) ≡ true
  has-replay_end id case_id row inbox (Applied.done after) h = h
  has-replay_end id case_id row inbox (Applied.broke error left) h = refl
  has-replay_end id case_id row inbox Applied.session_failed h = refl

  has-dispatch_end :
      (id : Text) (case_id : Option ℕ) (row : WebhookInboxRecord) (inbox : SqlRows) (x : Applied)
      → has id inbox ≡ true
      → keeps_event id (dispatch_end sql_inbox delivery seen case_id row inbox x) ≡ true
  unfolding sql_inbox
  has-dispatch_end id case_id row inbox (Applied.done after) h =
      has-mark (process_event delivery.as_of) id seen.id inbox h
  has-dispatch_end id case_id row inbox (Applied.broke error left) h =
      has-mark (fail_event error) id seen.id inbox h
  has-dispatch_end id case_id row inbox Applied.session_failed h = refl

  has-replayed :
      (id : Text) (existing : WebhookInboxRecord) (inbox : SqlRows) (r : Recovery)
      → has id inbox ≡ true
      → keeps_event id (replay sql_inbox env delivery seen existing inbox r) ≡ true
  unfolding replay sql_inbox
  has-replayed id existing inbox r h =
      has-replay_end id _ (record_or (sql_replay seen.id delivery.as_of inbox).0 existing) _
        (apply_case env _ seen.event delivery.as_of true r)
        (has-replay id seen.id delivery.as_of inbox h)

  has-dispatched :
      (id : Text) (stored : WebhookInboxRecord) (inbox : SqlRows) (r : Recovery)
      → has id inbox ≡ true
      → keeps_event id (dispatch sql_inbox env delivery seen stored inbox r) ≡ true
  unfolding dispatch sql_inbox
  has-dispatched id stored inbox r h = elim (Bool-cases (is_supported seen.event)) [
    | inl t ↦
        rw t (
          has-dispatch_end id _ stored inbox (apply_case env _ seen.event delivery.as_of false r) h)
    | inr f ↦ rw f (has-mark (process_event delivery.as_of) id seen.id inbox h)
  ]

  -- After the attempt to insert, what was there is there, and the event is.
  has-after_insert :
      (id event : Text) (inbox : SqlRows) (r : Recovery)
      → (has id inbox ≡ true) ⊎ (id ≡ seen.id)
      → keeps_event id (
          after_insert sql_inbox env delivery seen
            (insert_event seen.id event seen.body delivery.as_of inbox)
            inbox
            r)
        ≡ true
  unfolding insert_event sql_inbox
  has-after_insert id event inbox r h = elim (Option-cases (lookup seen.id inbox)) [
    | inr (row, e) ↦
        let there : has id inbox ≡ true = elim h [ inl k ↦ k | inr q ↦ rw (q, e) refl ] in
        rw (insert_event, e, e) (has-replayed id (record_from_payload row) inbox r there)
    | inl e ↦
        let row = new_event seen.id event seen.body delivery.as_of in
        let there : has id (insert seen.id row inbox) ≡ true = elim h [
          | inl k ↦ has-insert id seen.id row inbox k
          | inr q ↦ rw (q, lookup-insert_self seen.id row inbox) refl
        ] in
        rw (insert_event, e) (has-dispatched id _ _ r there)
  ]

module _ (env : Env) (delivery : Delivery) (meanwhile : SqlRows → SqlRows) where
  -- A delivery leaves the event in the inbox, and takes no other out.
  pub has-ingest :
      (id : Text) (s : State SqlRows)
      → Keeps meanwhile
      → (has id s.inbox ≡ true) ⊎ (id ≡ event_id_of env.outside delivery)
      → keeps_event id (ingest sql_inbox env meanwhile delivery s) ≡ true
  unfolding ingest sql_inbox read
  has-ingest id s keeps h =
      let seen = read env.outside delivery in
      elim (Option-cases (lookup seen.id s.inbox)) [
        | inr (row, e) ↦
            let there : has id s.inbox ≡ true = elim h [ inl k ↦ k | inr q ↦ rw (q, e) refl ] in
            rw (ingest, e)
              (has-replayed env delivery seen id (record_from_payload row) s.inbox s.recovery there)
        | inl e ↦
            let there : (has id (meanwhile s.inbox) ≡ true) ⊎ (id ≡ seen.id) = elim h [
              | inl k ↦ inl (keeps id s.inbox k)
              | inr q ↦ inr q
            ] in
            rw (ingest, e)
              (has-after_insert env delivery seen id _ (meanwhile s.inbox) s.recovery there)
      ]

-- After the commit or the rollback of a delivery no event is missing.
has-committed :
    (id : Text) (meanwhile : SqlRows → SqlRows) (s : State SqlRows) (x : Ingested SqlRows)
    → Keeps meanwhile
    → has id s.inbox ≡ true
    → keeps_event id x ≡ true
    → has id (committed meanwhile s x).inbox ≡ true
unfolding committed
has-committed id meanwhile s (Ingested.returned answer after) keeps h k = k
has-committed id meanwhile s Ingested.raised keeps h k = keeps id s.inbox h

has-answered :
    (id : Text) (meanwhile : SqlRows → SqlRows) (s : State SqlRows) (x : Ingested SqlRows)
    → is_some (result_of x) ≡ true
    → keeps_event id x ≡ true
    → has id (committed meanwhile s x).inbox ≡ true
unfolding committed
has-answered id meanwhile s (Ingested.returned answer after) a k = k
has-answered id meanwhile s Ingested.raised a k = cc

-- Neither cases and payments nor actions, jobs and calls are touched.
abbrev pub Unmoved : Recovery → Recovery → Type 0
Unmoved r after =
    (after.db ≡ r.db)
    × (after.world.actions ≡ r.world.actions)
    × (after.world.jobs ≡ r.world.jobs)
    × (after.world.calls ≡ r.world.calls)

-- The delivery is answered as a replay, and moves nothing.
abbrev pub IsReplay : Recovery → Ingested SqlRows → Type 0
IsReplay r (Ingested.returned answer after) = (answer.replayed ≡ true) × Unmoved r after.recovery
IsReplay r Ingested.raised = ⊥

module _ (env : Env) (delivery : Delivery) (seen : Read) where
  replay_end-IsReplay :
      (case_id : Option ℕ) (row : WebhookInboxRecord) (inbox : SqlRows) (r : Recovery)
      → IsReplay r (
          replay_end delivery seen case_id row inbox
            (apply_after none env case_id seen.event delivery.as_of true r))
  unfolding apply_after apply_provider_webhook
  replay_end-IsReplay none row inbox r = (refl, (refl, refl, refl, refl))
  replay_end-IsReplay (some case_id) row inbox r = (refl, (refl, refl, refl, refl))

  replay-IsReplay :
      (existing : WebhookInboxRecord) (inbox : SqlRows) (r : Recovery)
      → env.fault r ≡ none
      → IsReplay r (replay sql_inbox env delivery seen existing inbox r)
  unfolding replay apply_case
  replay-IsReplay existing inbox r f = rw f (
      replay_end-IsReplay _
        (record_or (sql_inbox.mark_replay seen.id delivery.as_of inbox).0 existing) _ r)

-- One delivery among others, with what other sessions do meanwhile.
abbrev pub Step : Type 0
Step = Delivery × (SqlRows → SqlRows)

unfoldable pub run : Env → List Step → State SqlRows → State SqlRows
unfolding ingest committed
run env [] s = s
run env ((delivery, meanwhile) ∷ steps) s =
    run env steps (committed meanwhile s (ingest sql_inbox env meanwhile delivery s))

has-run :
    (env : Env) (id : Text) (steps : List Step) (s : State SqlRows)
    → All (λ step. Keeps step.1) steps
    → has id s.inbox ≡ true
    → has id (run env steps s).inbox ≡ true
unfolding run
has-run env id [] s keeps h = h
has-run env id ((delivery, meanwhile) ∷ steps) s (keep, keeps) h =
    has-run env id steps _ keeps
      (has-committed id meanwhile s _ keep h (has-ingest env delivery meanwhile id s keep (inl h)))

ingest-IsReplay :
    (env : Env) (delivery : Delivery) (meanwhile : SqlRows → SqlRows) (s : State SqlRows)
    → env.fault s.recovery ≡ none
    → has (event_id_of env.outside delivery) s.inbox ≡ true
    → IsReplay s.recovery (ingest sql_inbox env meanwhile delivery s)
unfolding ingest sql_inbox read
ingest-IsReplay env delivery meanwhile s f h =
    let seen = read env.outside delivery in
    elim (Option-cases (lookup seen.id s.inbox)) [
      | inr (row, e) ↦
          rw (ingest, e)
            (replay-IsReplay env delivery seen (record_from_payload row) s.inbox s.recovery f)
      | inl e ↦ let k = (rw e at h) in cc
    ]

-- Once a delivery of an event was answered, if only by `dispatch_failed`, then whatever was delivered since,
-- answered or rolled back, a further delivery with its id is answered as a replay and moves no case, payment, action
-- or job, provided that other sessions delete no event and that no error is raised then.
pub ingest-once :
    (env : Env) (first again : Delivery) (meanwhile after : SqlRows → SqlRows) (steps : List Step)
    (s between : State SqlRows)
    → Keeps meanwhile
    → All (λ step. Keeps step.1) steps
    → is_some (result_of (ingest sql_inbox env meanwhile first s)) ≡ true
    → between ≡ run env steps (committed meanwhile s (ingest sql_inbox env meanwhile first s))
    → event_id_of env.outside again ≡ event_id_of env.outside first
    → env.fault between.recovery ≡ none
    → IsReplay between.recovery (ingest sql_inbox env after again between)
ingest-once env first again meanwhile after steps s between keep keeps answered reached same quiet =
    let x = ingest sql_inbox env meanwhile first s in
    let id = event_id_of env.outside first in
    let stored : has id (committed meanwhile s x).inbox ≡ true =
      has-answered id meanwhile s x answered
        (has-ingest env first meanwhile id s keep (inr refl)) in
    ingest-IsReplay env again after between quiet
      (rw (same, reached) (has-run env id steps (committed meanwhile s x) keeps stored))
