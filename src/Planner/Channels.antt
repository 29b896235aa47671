-- ===== src/Planner/Channels.antt =====
-- services/src/services/planner/channels.py and constants.py: ranked channels for a plan.
-- A set of names is a list, of which only membership is read. A rank is held in tenths.
use recovery_pilot_ai.Policy.Consent.{mem}
use recovery_pilot_ai.Policy.Merge.{is_nil}
use recovery_pilot_ai.Planner.Models.{PlannerStrategy}
use recovery_pilot_ai.Policy.Models.{Channel, PolicyDecisionResult}
use recovery_pilot_ai.Base.{
  List, sum_of, if◌then◌else◌, [], Bool, ℕ, ◌∷◌, true, ◌*◌, ◌++◌, ltb, false, ◌+◌, ◌&&◌, ◌||◌,
  filter, ◌-◌, length, ◌==◌, not, leb,
}

-- `NOTIFY_CHANNELS` and `POLICY_CHANNEL_NAMES`
abbrev pub notify_channels : List Channel
notify_channels = Channel.sms ∷ Channel.whatsapp ∷ Channel.voice ∷ Channel.email ∷ []

-- `CHANNEL_COSTS_PAISE`
abbrev pub channel_cost : Channel → ℕ
channel_cost Channel.sms = 15
channel_cost Channel.whatsapp = 80
channel_cost Channel.voice = 250
channel_cost _ = 0

-- `CHANNEL_EFFECTIVENESS`
abbrev pub effectiveness : Channel → ℕ
effectiveness Channel.whatsapp = 92
effectiveness Channel.upi_payment_link = 88
effectiveness Channel.card_update_link = 84
effectiveness Channel.sms = 74
effectiveness Channel.voice = 80
effectiveness Channel.email = 55
effectiveness Channel.dashboard_notification = 40

-- `_STRATEGY_PREFERRED`
abbrev pub preferred : PlannerStrategy → List Channel
preferred PlannerStrategy.wait_for_payday =
    Channel.sms ∷ Channel.whatsapp ∷ Channel.upi_payment_link ∷ Channel.email
    ∷ Channel.dashboard_notification ∷ []
preferred PlannerStrategy.retry_payment =
    Channel.sms ∷ Channel.upi_payment_link ∷ Channel.whatsapp ∷ Channel.email
    ∷ Channel.dashboard_notification ∷ []
preferred PlannerStrategy.retry_silently = Channel.dashboard_notification ∷ []
preferred PlannerStrategy.send_payment_link =
    Channel.whatsapp ∷ Channel.upi_payment_link ∷ Channel.sms ∷ Channel.email
    ∷ Channel.dashboard_notification ∷ []
preferred PlannerStrategy.switch_payment_method =
    Channel.whatsapp ∷ Channel.card_update_link ∷ Channel.sms ∷ Channel.email
    ∷ Channel.dashboard_notification ∷ []
preferred PlannerStrategy.request_new_mandate =
    Channel.whatsapp ∷ Channel.card_update_link ∷ Channel.email ∷ Channel.sms
    ∷ Channel.dashboard_notification ∷ []
preferred PlannerStrategy.honour_promise_to_pay =
    Channel.whatsapp ∷ Channel.sms ∷ Channel.email ∷ Channel.dashboard_notification ∷ []
preferred PlannerStrategy.escalate_to_human =
    Channel.voice ∷ Channel.dashboard_notification ∷ Channel.email ∷ []
preferred PlannerStrategy.stop_recovery = Channel.dashboard_notification ∷ []

-- `_blocked`
unfoldable pub blocked_set : PolicyDecisionResult → List Channel
blocked_set policy =
    if policy.silent_retry_allowed
    then policy.blocked_channels ++ notify_channels
    else policy.blocked_channels

-- `_allowed`
unfoldable pub allowed_set : PolicyDecisionResult → List Channel → List Channel
allowed_set policy blocked =
    let base =
      if is_nil policy.allowed_channels then notify_channels else policy.allowed_channels in
    let granted = Channel.dashboard_notification ∷ filter (λ c. not (mem c blocked)) base in
    if mem Channel.whatsapp granted || mem Channel.sms granted || mem Channel.email granted
    then Channel.upi_payment_link ∷ Channel.card_update_link ∷ granted
    else granted

-- The loop over the preferred names, with the names picked so far: it stops at three.
unfoldable pub pick : List Channel → List Channel → List Channel → List Channel → List Channel
pick blocked allowed [] picked = picked
pick blocked allowed (name ∷ names) picked =
    let next = picked ++ (name ∷ []) in
    let skipped = pick blocked allowed names picked in
    let added = pick blocked allowed names next in
    if mem name allowed && not (mem name picked)
    then (if mem name notify_channels && mem name blocked
        then skipped
        else if leb 3 (length next)
        then next
        else added)
    else (if leb 3 (length picked) then picked else skipped)

-- `_rank_key`: ten times the rank, plus a constant that keeps it from going below zero.
abbrev pub rank : Channel → ℕ
rank name = 10 * effectiveness name + 250 - channel_cost name

-- Whether the first ranks below the second: equal ranks fall to the cheaper.
abbrev pub ranks_below : Channel → Channel → Bool
ranks_below c d =
    ltb (rank c) (rank d) || (rank c == rank d && ltb (channel_cost d) (channel_cost c))

abbrev pub place : Channel → List Channel → List Channel
place c [] = c ∷ []
place c (d ∷ ds) = let rest = place c ds in if ranks_below c d then d ∷ rest else c ∷ d ∷ ds

-- `picked.sort(key=_rank_key, reverse=True)`, which keeps equal names in their order.
unfoldable pub sort_names : List Channel → List Channel
sort_names [] = []
sort_names (c ∷ cs) = place c (sort_names cs)

abbrev pub is_dashboard : Channel → Bool
is_dashboard Channel.dashboard_notification = true
is_dashboard _ = false

unfoldable pub dashboard_last : List Channel → List Channel
dashboard_last names =
    if mem Channel.dashboard_notification names && ltb 1 (length names)
    then filter (λ n. not (is_dashboard n)) names ++ (Channel.dashboard_notification ∷ [])
    else names

-- `channel_reason` is left out.
pub record ChannelPlan : Type 0 where
  pub recommended : List Channel
  pub cost_paise : ℕ

abbrev pub or_dashboard : List Channel → List Channel
or_dashboard [] = Channel.dashboard_notification ∷ []
or_dashboard (c ∷ cs) = c ∷ cs

abbrev pub dashboard_only : ChannelPlan
dashboard_only = record { recommended = Channel.dashboard_notification ∷ []; cost_paise = 0 }

-- `picked` before the strategies that notify no one are set aside.
unfoldable pub ranked : PlannerStrategy → PolicyDecisionResult → List Channel
unfolding blocked_set allowed_set pick sort_names dashboard_last
ranked strategy policy =
    let blocked = blocked_set policy in
    dashboard_last (
      sort_names (or_dashboard (pick blocked (allowed_set policy blocked) (preferred strategy) [])))

unfoldable pub plan_channels : PlannerStrategy → PolicyDecisionResult → ChannelPlan
unfolding ranked
plan_channels PlannerStrategy.retry_silently policy = dashboard_only
plan_channels PlannerStrategy.stop_recovery policy = dashboard_only
plan_channels strategy policy =
    let names = ranked strategy policy in
    record { recommended = names; cost_paise = sum_of channel_cost names }
