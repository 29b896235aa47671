-- ===== src/Policy/Cooldown.antt =====
-- services/src/services/policy/cooldown.py: retry gap, rolling retry cap, contact window.
-- `to_local` is the zone's `local`: every moment is aware. `as_of - window` stops at
-- `datetime.min`, where Python raises OverflowError.
use recovery_pilot_ai.Base.{
  ℕ, ◌+◌, ◌-◌, ◌*◌, ◌/◌, ◌%◌, Bool, true, false, not, ◌&&◌, Option, none, some, List, [], ◌∷◌, ◌++◌,
  map, filter, length, ltb, leb, if◌then◌else◌, max_of?,
}
use recovery_pilot_ai.Base.Sorting.{sorted, get_last?, minimum}
use recovery_pilot_ai.Enums.{RecoveryActionType, ExecutionStatus}
use recovery_pilot_ai.Policy.Models.{
  minute, hour, day, Zone, contact_window_start_hour, contact_window_end_hour,
  RecoveryActionSnapshot, event_time,
}

-- `local.hour * 60 + local.minute`
abbrev pub minutes_of_day : ℕ → ℕ
minutes_of_day wall = wall % day / minute

unfoldable pub in_contact_window : ℕ → Zone → Bool
in_contact_window moment timezone =
    let minutes = minutes_of_day (timezone.local moment) in
    leb (contact_window_start_hour * 60) minutes && ltb minutes (contact_window_end_hour * 60)

-- The wall clock reading of the next opening, given the reading now.
abbrev pub window_open_after : ℕ → ℕ
window_open_after local =
    let today_start = local / day * day + contact_window_start_hour * hour in
    if ltb local today_start
    then today_start
    else (local / day + 1) * day + contact_window_start_hour * hour

unfoldable pub next_contact_window_start : ℕ → Zone → Option ℕ
unfolding in_contact_window
next_contact_window_start moment timezone =
    if in_contact_window moment timezone
    then none
    else some (timezone.instant (window_open_after (timezone.local moment)))

abbrev pub is_retry_type : RecoveryActionType → Bool
is_retry_type RecoveryActionType.retry_payment = true
is_retry_type _ = false

abbrev pub is_ignored_status : ExecutionStatus → Bool
is_ignored_status ExecutionStatus.skipped = true
is_ignored_status ExecutionStatus.cancelled = true
is_ignored_status _ = false

-- The two `continue`s of the loop.
unfoldable pub retry_actions : List RecoveryActionSnapshot → List RecoveryActionSnapshot
retry_actions [] = []
retry_actions (action ∷ actions) =
    let rest = retry_actions actions in
    if not (is_retry_type action.action_type)
    then rest
    else if is_ignored_status action.execution_status
    then rest
    else action ∷ rest

pub data CooldownCode : Type 0 where
  retry_cooldown retry_cap : CooldownCode

abbrev pub gap_candidate : Option ℕ → ℕ → ℕ → List (ℕ × CooldownCode)
gap_candidate none as_of min_gap = []
gap_candidate (some last) as_of min_gap =
    if ltb as_of (last + min_gap) then (last + min_gap, CooldownCode.retry_cooldown) ∷ [] else []

abbrev pub cap_candidate : List ℕ → ℕ → ℕ → ℕ → List (ℕ × CooldownCode)
cap_candidate recent as_of max_retries window =
    if leb max_retries (length recent)
    then (let cap_until = minimum recent + window in
        if ltb as_of cap_until then (cap_until, CooldownCode.retry_cap) ∷ [] else [])
    else []

abbrev pub sooner : ℕ × CooldownCode → ℕ × CooldownCode → Bool
sooner (a, _) (b, _) = ltb a b

-- The body of `retry_cooldown_until` after the retry moments are collected.
unfoldable pub cooldown_from : List ℕ → ℕ → ℕ → ℕ → ℕ → Option (ℕ × CooldownCode)
unfolding max_of?
cooldown_from times as_of max_retries window min_gap = max_of? sooner (
    gap_candidate (get_last? times) as_of min_gap
    ++ cap_candidate (filter (λ stamp. ltb (as_of - window) stamp) times) as_of max_retries window)

-- `(None, None)` is `none`.
unfoldable pub retry_cooldown_until :
    List RecoveryActionSnapshot → ℕ → ℕ → ℕ → ℕ → Option (ℕ × CooldownCode)
retry_cooldown_until actions as_of max_retries window min_gap =
    cooldown_from (sorted (map event_time (retry_actions actions))) as_of max_retries window min_gap
