-- ===== src/Planner/Contact.antt =====
-- services/src/services/planner/channels.py: no plan contacts a customer against the policy.
use mathlib.Core.Bool.{false≢true}
use recovery_pilot_ai.Planner.Models.{PlannerStrategy}
use recovery_pilot_ai.Policy.Merge.{is_nil}
use recovery_pilot_ai.Policy.Outreach.{mem-filter, =ᶜ-eq}
use recovery_pilot_ai.Policy.Consent.{mem, ◌=ᶜ◌}
use recovery_pilot_ai.Base.{
  List, ◌++◌, All, ◌≡◌, true, ◌∷◌, ◌||◌, arith, Bool-cases, [], false, refl, inl, not, inr, ◌&&◌,
  Bool, All-append, if◌then◌else◌, ltb, leb, length, filter, All-filter, All-map, subst, sym,
  and_left,
}
use recovery_pilot_ai.Planner.Channels.{
  allowed_set, pick, sort_names, dashboard_last, blocked_set, notify_channels, place, ranks_below,
  or_dashboard, plan_channels, ranked, preferred, is_dashboard,
}
use recovery_pilot_ai.Policy.Models.{Channel, PolicyDecisionResult}

-- The name may stand in a plan under the policy: it is no contact channel, or it is one that the
-- policy does not block, and that it allows where it allows any, and no silent retry is asked for.
abbrev pub Permitted : PolicyDecisionResult → Channel → Type 0
Permitted policy name =
    mem name notify_channels ≡ true
    → (mem name policy.blocked_channels ≡ false)
      × (policy.silent_retry_allowed ≡ false)
      × (is_nil policy.allowed_channels || mem name policy.allowed_channels ≡ true)

mem-append : (c : Channel) (xs ys : List Channel) → mem c (xs ++ ys) ≡ mem c xs || mem c ys
mem-append c [] ys = refl
mem-append c (x ∷ xs) ys = ground (arith, mem-append c xs ys)

allowed-Permitted :
    (policy : PolicyDecisionResult) (name : Channel)
    → mem name (allowed_set policy (blocked_set policy)) ≡ true
    → Permitted policy name
unfolding allowed_set blocked_set
allowed-Permitted policy name h n = ground (
  arith,
  mem-filter (λ c. not (mem c (blocked_set policy))) name notify_channels,
  mem-filter (λ c. not (mem c (blocked_set policy))) name policy.allowed_channels,
  mem-append name policy.blocked_channels notify_channels,
)

module _ (P : Channel → Type 0) where
  All-either :
      (b : Bool) (xs ys : List Channel)
      → (b ≡ true → All P xs)
      → All P ys
      → All P (if b then xs else ys)
  All-either true xs ys h k = h refl
  All-either false xs ys h k = k

pick-All :
    (P : Channel → Type 0) (blocked allowed : List Channel)
    → ((name : Channel) → mem name allowed ≡ true → P name)
    → (names picked : List Channel) → All P picked
    → All P (pick blocked allowed names picked)
unfolding pick
pick-All P blocked allowed f [] picked h = h
pick-All P blocked allowed f (name ∷ names) picked h =
    let skipped = pick-All P blocked allowed f names picked h in
    All-either P (mem name allowed && not (mem name picked)) _ _
      (λ t.
        let next = All-append P picked (name ∷ []) h (f name (and_left _ _ t), tt) in
        All-either P (mem name notify_channels && mem name blocked) _ _ (λ _. skipped)
          (All-either P (leb 3 (length (picked ++ (name ∷ [])))) _ _ (λ _. next)
            (pick-All P blocked allowed f names (picked ++ (name ∷ [])) next)))
      (All-either P (leb 3 (length picked)) _ _ (λ _. h) skipped)

place-All :
    (P : Channel → Type 0) (c : Channel) (cs : List Channel) → P c → All P cs → All P (place c cs)
place-All P c [] h hs = (h, tt)
place-All P c (d ∷ ds) h (k, ks) = elim (Bool-cases (ranks_below c d)) [
  | inl t ↦ rw t (k, place-All P c ds h ks)
  | inr f ↦ rw f (h, (k, ks))
]

sort_names-All : (P : Channel → Type 0) (cs : List Channel) → All P cs → All P (sort_names cs)
unfolding sort_names
sort_names-All P [] h = tt
sort_names-All P (c ∷ cs) (h, hs) = place-All P c (sort_names cs) h (sort_names-All P cs hs)

dashboard_last-All :
    (P : Channel → Type 0) (cs : List Channel)
    → P Channel.dashboard_notification
    → All P cs
    → All P (dashboard_last cs)
unfolding dashboard_last
dashboard_last-All P cs d h =
    All-either P (mem Channel.dashboard_notification cs && ltb 1 (length cs)) _ _
      (λ _.
        All-append P (filter (λ n. not (is_dashboard n)) cs) (Channel.dashboard_notification ∷ [])
          (All-filter P (λ n. not (is_dashboard n)) cs (All-map P (λ n p _. p) cs h)) (d, tt))
      h

dashboard-Permitted :
    (policy : PolicyDecisionResult) → Permitted policy Channel.dashboard_notification
dashboard-Permitted policy h = ground arith

or_dashboard-All :
    (P : Channel → Type 0) (cs : List Channel)
    → P Channel.dashboard_notification
    → All P cs
    → All P (or_dashboard cs)
or_dashboard-All P [] d h = (d, tt)
or_dashboard-All P (c ∷ cs) d h = h

ranked-Permitted :
    (strategy : PlannerStrategy) (policy : PolicyDecisionResult)
    → All (Permitted policy) (ranked strategy policy)
unfolding ranked
ranked-Permitted strategy policy =
    let P = Permitted policy in
    let board = dashboard-Permitted policy in
    let blocked = blocked_set policy in
    dashboard_last-All P _ board (
      sort_names-All P _ (
        or_dashboard-All P _ board (
          pick-All P blocked (allowed_set policy blocked) (allowed-Permitted policy)
            (preferred strategy) [] tt)))

channels-Permitted :
    (strategy : PlannerStrategy) (policy : PolicyDecisionResult)
    → All (Permitted policy) (plan_channels strategy policy).recommended
unfolding plan_channels
channels-Permitted PlannerStrategy.retry_silently policy = (dashboard-Permitted policy, tt)
channels-Permitted PlannerStrategy.stop_recovery policy = (dashboard-Permitted policy, tt)
channels-Permitted PlannerStrategy.wait_for_payday policy =
    ranked-Permitted PlannerStrategy.wait_for_payday policy
channels-Permitted PlannerStrategy.retry_payment policy =
    ranked-Permitted PlannerStrategy.retry_payment policy
channels-Permitted PlannerStrategy.send_payment_link policy =
    ranked-Permitted PlannerStrategy.send_payment_link policy
channels-Permitted PlannerStrategy.switch_payment_method policy =
    ranked-Permitted PlannerStrategy.switch_payment_method policy
channels-Permitted PlannerStrategy.request_new_mandate policy =
    ranked-Permitted PlannerStrategy.request_new_mandate policy
channels-Permitted PlannerStrategy.honour_promise_to_pay policy =
    ranked-Permitted PlannerStrategy.honour_promise_to_pay policy
channels-Permitted PlannerStrategy.escalate_to_human policy =
    ranked-Permitted PlannerStrategy.escalate_to_human policy

All-mem {ℓ} :
    (P : Channel → Type ℓ) (name : Channel) (names : List Channel)
    → All P names
    → mem name names ≡ true
    → P name
All-mem P name [] h m = absurd (false≢true m)
All-mem P name (c ∷ cs) (h, hs) m = elim (Bool-cases (name =ᶜ c)) [
  | inl e ↦ subst P (sym (=ᶜ-eq name c e)) h
  | inr e ↦ All-mem P name cs hs (let k : mem name cs ≡ true = rw e at m in k)
]

-- A contact channel in a plan is never one that the policy blocks, is one that the policy allows
-- where it allows any, and does not stand in a plan at all where the policy asks for a silent retry.
pub plan_channels-safe :
    (strategy : PlannerStrategy) (policy : PolicyDecisionResult) (name : Channel)
    → mem name (plan_channels strategy policy).recommended ≡ true
    → mem name notify_channels ≡ true
    → (mem name policy.blocked_channels ≡ false)
      × (policy.silent_retry_allowed ≡ false)
      × (is_nil policy.allowed_channels || mem name policy.allowed_channels ≡ true)
plan_channels-safe strategy policy name m n =
    All-mem (Permitted policy) name _ (channels-Permitted strategy policy) m n
