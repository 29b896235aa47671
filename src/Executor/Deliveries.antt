-- ===== src/Executor/Deliveries.antt =====
-- services/src/services/executor/webhook_processor.py: what processing does to the ledger.
use recovery_pilot_ai.Executor.Models.{SimulatedWebhookEvent}
use recovery_pilot_ai.Base.{
  ℕ, List, ◌≡◌, refl, ◌∷◌, ◌==◌, All, true, [], ◌||◌, if◌then◌else◌, arith, Bool, any, ◌++◌, all,
  Bool-cases, ◌∙◌, not, inl, inr, sym, false, ap,
}
use recovery_pilot_ai.Executor.Webhooks.{process_webhooks}
use recovery_pilot_ai.Executor.Log.{ExecutionLogStore, seen_webhook, remember_webhook}

-- A ledger that has seen what `store` has.
abbrev pub Seen : ExecutionLogStore → List SimulatedWebhookEvent → Type 0
Seen store events = All (λ e. seen_webhook e.event_id store ≡ true) events

any-equal : (i j : ℕ) (xs : List ℕ) → (i == j) ≡ true → any (λ e. j == e) xs ≡ any (λ e. i == e) xs
any-equal i j xs h = let p : i ≡ j = ground arith in rw p refl

-- An id counts as seen after `remember_webhook` when it is the new one or was seen before.
remember_webhook-seen :
    (i j : ℕ) (store : ExecutionLogStore)
    → seen_webhook i (remember_webhook j store) ≡ (i == j) || seen_webhook i store
unfolding seen_webhook remember_webhook
remember_webhook-seen i j store = grind (arith, any-equal i j store.webhooks)

seen-remembered :
    (i : ℕ) (store : ExecutionLogStore) → seen_webhook i (remember_webhook i store) ≡ true
seen-remembered i store = grind (arith, remember_webhook-seen i i store)

remembered-seen :
    (i j : ℕ) (store : ExecutionLogStore)
    → seen_webhook i store ≡ true
    → seen_webhook i (remember_webhook j store) ≡ true
remembered-seen i j store h = grind (arith, remember_webhook-seen i j store)

remember_webhook-keeps :
    (i : ℕ) (store : ExecutionLogStore)
    → ((remember_webhook i store).executions ≡ store.executions)
      × ((remember_webhook i store).audits ≡ store.audits)
unfolding remember_webhook
remember_webhook-keeps i store = ground arith

-- The ledger with which the loop goes on after one event.
abbrev after_event : SimulatedWebhookEvent → ExecutionLogStore → ExecutionLogStore
after_event e store =
    if not (seen_webhook e.event_id store) then remember_webhook e.event_id store else store

after_event-keeps :
    (e : SimulatedWebhookEvent) (store : ExecutionLogStore)
    → ((after_event e store).executions ≡ store.executions)
      × ((after_event e store).audits ≡ store.audits)
after_event-keeps e store = elim (Bool-cases (seen_webhook e.event_id store)) [
  | inl h ↦ rw h (refl, refl)
  | inr h ↦ rw h (remember_webhook-keeps e.event_id store)
]

after_event-seen :
    (e : SimulatedWebhookEvent) (store : ExecutionLogStore)
    → seen_webhook e.event_id (after_event e store) ≡ true
after_event-seen e store = elim (Bool-cases (seen_webhook e.event_id store)) [
  | inl h ↦ rw h h
  | inr h ↦ rw h (seen-remembered e.event_id store)
]

after_event-grows :
    (i : ℕ) (e : SimulatedWebhookEvent) (store : ExecutionLogStore)
    → seen_webhook i store ≡ true
    → seen_webhook i (after_event e store) ≡ true
after_event-grows i e store k = elim (Bool-cases (seen_webhook e.event_id store)) [
  | inl h ↦ rw h k
  | inr h ↦ rw h (remembered-seen i e.event_id store k)
]

pub process_webhooks-keeps :
    (events : List SimulatedWebhookEvent) (store : ExecutionLogStore)
    → ((process_webhooks events store).1.executions ≡ store.executions)
      × ((process_webhooks events store).1.audits ≡ store.audits)
unfolding process_webhooks
process_webhooks-keeps [] store = (refl, refl)
process_webhooks-keeps (e ∷ es) store =
    let (x, a) = after_event-keeps e store in
    let (xs, bs) = process_webhooks-keeps es (after_event e store) in (xs ∙ x, bs ∙ a)

process_webhooks-grows :
    (i : ℕ) (events : List SimulatedWebhookEvent) (store : ExecutionLogStore)
    → seen_webhook i store ≡ true
    → seen_webhook i (process_webhooks events store).1 ≡ true
unfolding process_webhooks
process_webhooks-grows i [] store h = h
process_webhooks-grows i (e ∷ es) store h =
    process_webhooks-grows i es (after_event e store) (after_event-grows i e store h)

process_webhooks-Seen :
    (events : List SimulatedWebhookEvent) (store : ExecutionLogStore)
    → Seen (process_webhooks events store).1 events
unfolding process_webhooks
process_webhooks-Seen [] store = tt
process_webhooks-Seen (e ∷ es) store = (
  process_webhooks-grows e.event_id es (after_event e store) (after_event-seen e store),
  process_webhooks-Seen es (after_event e store),
)

-- A delivery whose every id is known: all are replays, and the ledger stays.
process_webhooks-known :
    (events : List SimulatedWebhookEvent) (store : ExecutionLogStore)
    → Seen store events
    → (all (λ e. e.replay) (process_webhooks events store).0 ≡ true)
      × ((process_webhooks events store).1 ≡ store)
unfolding process_webhooks
process_webhooks-known [] store h = (refl, refl)
process_webhooks-known (e ∷ es) store h = rw h.0 (process_webhooks-known es store h.1)

-- Delivered a second time, the same events are all replays and leave the ledger as it is; and at
-- no time does a delivery change the executions or the audits.
pub process_webhooks-again :
    (events : List SimulatedWebhookEvent) (store : ExecutionLogStore)
    → (let after = (process_webhooks events store).1 in
        (all (λ e. e.replay) (process_webhooks events after).0 ≡ true)
        × ((process_webhooks events after).1 ≡ after)
        × (after.executions ≡ store.executions)
        × (after.audits ≡ store.audits))
process_webhooks-again events store =
    let after = (process_webhooks events store).1 in
    let (replayed, same) =
      process_webhooks-known events after (process_webhooks-Seen events store) in
    let (executions, audits) = process_webhooks-keeps events store in
    (replayed, same, executions, audits)

or_false : (a : Bool) → a ≡ a || false
or_false a = ground arith

or_step : (a b c : Bool) → (b || a) || c ≡ a || (b || c)
or_step a b c = ground arith

remember_webhook-known :
    (i : ℕ) (store : ExecutionLogStore)
    → seen_webhook i store ≡ true
    → remember_webhook i store ≡ store
unfolding remember_webhook
remember_webhook-known i store h = rw h refl

after_event-adds :
    (i : ℕ) (e : SimulatedWebhookEvent) (store : ExecutionLogStore)
    → seen_webhook i (after_event e store) ≡ (i == e.event_id) || seen_webhook i store
after_event-adds i e store = elim (Bool-cases (seen_webhook e.event_id store)) [
  | inl h ↦ rw h (
      sym (ap (seen_webhook i) (remember_webhook-known e.event_id store h))
      ∙ remember_webhook-seen i e.event_id store)
  | inr h ↦ rw h (remember_webhook-seen i e.event_id store)
]

process_webhooks-adds :
    (i : ℕ) (events : List SimulatedWebhookEvent) (store : ExecutionLogStore)
    → seen_webhook i (process_webhooks events store).1
      ≡ seen_webhook i store || any (λ e. i == e.event_id) events
unfolding process_webhooks
process_webhooks-adds i [] store = ground arith
process_webhooks-adds i (e ∷ es) store =
    process_webhooks-adds i es (after_event e store)
    ∙ ap (λ b. b || any (λ x. i == x.event_id) es) (after_event-adds i e store)
    ∙ or_step (seen_webhook i store) (i == e.event_id) (any (λ x. i == x.event_id) es)

-- An event is marked as a replay exactly if the ledger had its id before, or an earlier event of
-- the same delivery has it; the events before it are processed as without it.
pub process_webhooks-replay :
    (es : List SimulatedWebhookEvent) (e : SimulatedWebhookEvent) (store : ExecutionLogStore)
    → (process_webhooks (es ++ (e ∷ [])) store).0
      ≡ (process_webhooks es store).0
        ++ (record e {
          replay = seen_webhook e.event_id store || any (λ x. e.event_id == x.event_id) es;
        }
            ∷ [])
unfolding process_webhooks
process_webhooks-replay [] e store =
    ap (λ b. record e { replay = b } ∷ []) (or_false (seen_webhook e.event_id store))
process_webhooks-replay (d ∷ es) e store =
    let first = record d { replay = seen_webhook d.event_id store } in
    let before = (process_webhooks es (after_event d store)).0 in
    ap (λ xs. first ∷ xs) (process_webhooks-replay es e (after_event d store))
    ∙ ap (λ b. first ∷ (before ++ (record e { replay = b } ∷ [])))
        (ap (λ b. b || any (λ x. e.event_id == x.event_id) es) (after_event-adds e.event_id d store)
          ∙ or_step (seen_webhook e.event_id store) (e.event_id == d.event_id)
              (any (λ x. e.event_id == x.event_id) es))
