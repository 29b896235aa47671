-- ===== src/Policy/Merge.antt =====
-- services/src/services/policy/evaluator.py: the channel lists, `_merge_channels`.
use recovery_pilot_ai.Policy.Severity.{is_blocking}
use recovery_pilot_ai.Policy.Consent.{split_channels, mem}
use recovery_pilot_ai.Policy.Models.{
  PolicyRuleResult, PolicyDecision, PolicyContext, Channel, channels,
}
use recovery_pilot_ai.Base.{
  Option, List, Bool, [], if◌then◌else◌, not, ◌∷◌, some, true, none, filter, false, ◌++◌, ◌&&◌,
}

abbrev pub or_nil {ℓ} : {A : Type ℓ} → Option (List A) → List A
or_nil none = []
or_nil (some xs) = xs

abbrev pub is_nil {ℓ} : {A : Type ℓ} → List A → Bool
is_nil [] = true
is_nil (_ ∷ _) = false

abbrev pub narrow : List Channel → List Channel → Option (List Channel) → List Channel
narrow allowed blocked none = allowed
narrow allowed blocked (some extra) =
    filter (λ c. not (mem c blocked))
      (if is_nil allowed then extra else filter (λ c. mem c extra) allowed)

-- The loop's `continue`.
abbrev pub skips : PolicyRuleResult → Bool
skips row = not (is_blocking row) && is_nil (or_nil row.blocked_channels)

abbrev pub next_blocked : PolicyRuleResult → List Channel → List Channel
next_blocked row blocked = if skips row then blocked else or_nil row.blocked_channels ++ blocked

abbrev pub next_allowed : PolicyRuleResult → List Channel → List Channel → List Channel
next_allowed row allowed blocked =
    if skips row
    then allowed
    else narrow allowed (or_nil row.blocked_channels ++ blocked) row.allowed_channels

-- The loop of `_merge_channels` over `(allowed_set, blocked_set)`.
unfoldable pub merge_rows :
    List PolicyRuleResult → List Channel → List Channel → List Channel × List Channel
merge_rows [] allowed blocked = (allowed, blocked)
merge_rows (row ∷ rows) allowed blocked =
    merge_rows rows (next_allowed row allowed blocked) (next_blocked row blocked)

abbrev pub finish_channels :
    PolicyDecision → List Channel × List Channel → List Channel × List Channel
finish_channels PolicyDecision.stop sets = ([], channels)
finish_channels PolicyDecision.deny sets = ([], channels)
finish_channels PolicyDecision.escalate sets = ([], channels)
finish_channels _ (allowed, blocked) =
    let final = filter (λ c. mem c allowed && not (mem c blocked)) channels in
    (final, filter (λ c. not (mem c final)) channels)

unfoldable pub merge_channels :
    PolicyContext → List PolicyRuleResult → PolicyDecision → List Channel × List Channel
merge_channels context results decision =
    let (allowed, blocked) = split_channels context.customer in
    finish_channels decision (merge_rows results allowed blocked)
