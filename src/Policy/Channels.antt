-- ===== src/Policy/Channels.antt =====
-- The channel lists of a decision (services/src/services/policy/evaluator.py, `_merge_channels`):
-- against consent, against the blocks of the rules, and against one another.
use recovery_pilot_ai.Policy.Merge.{
  or_nil, finish_channels, merge_rows, next_blocked, next_allowed, merge_channels,
}
use recovery_pilot_ai.Policy.Evaluator.{fold_decision}
use recovery_pilot_ai.Base.{
  not, false, All-map, ◌≡◌, refl, Bool, true, ◌&&◌, ◌||◌, List, [], ◌∷◌, ◌++◌, filter, All, arith,
}
use recovery_pilot_ai.Policy.Models.{
  PolicyContext, PolicyDecision, Channel, channels, PolicyRuleResult,
}
use recovery_pilot_ai.Policy.Consent.{channel_granted, split_channels, mem}

pub mem-append : (c : Channel) (xs ys : List Channel) → mem c (xs ++ ys) ≡ (mem c xs || mem c ys)
mem-append c [] ys = refl
mem-append c (x ∷ xs) ys = ground (arith, mem-append c xs ys)

-- Filtering the four channels.
pub mem-filter-channels :
    (p : Channel → Bool) (c : Channel) → mem c (filter p channels) ≡ (mem c channels && p c)
mem-filter-channels p Channel.whatsapp = ground arith
mem-filter-channels p Channel.sms = ground arith
mem-filter-channels p Channel.voice = ground arith
mem-filter-channels p Channel.email = ground arith
mem-filter-channels p Channel.upi_payment_link = ground arith
mem-filter-channels p Channel.card_update_link = ground arith
mem-filter-channels p Channel.dashboard_notification = ground arith

next_blocked-keeps :
    (row : PolicyRuleResult) (b : List Channel) (c : Channel)
    → mem c b ≡ true
    → mem c (next_blocked row b) ≡ true
next_blocked-keeps row b c h = ground (arith, mem-append c (or_nil row.blocked_channels) b)

next_blocked-adds :
    (row : PolicyRuleResult) (b : List Channel) (c : Channel)
    → mem c (or_nil row.blocked_channels) ≡ true
    → mem c (next_blocked row b) ≡ true
next_blocked-adds row b c h = ground (arith, mem-append c (or_nil row.blocked_channels) b)

-- The loop only adds to the blocked set.
merge_rows-keeps_blocked :
    (rows : List PolicyRuleResult) (a b : List Channel) (c : Channel)
    → mem c b ≡ true
    → mem c (merge_rows rows a b).1 ≡ true
unfolding merge_rows
merge_rows-keeps_blocked [] a b c h = h
merge_rows-keeps_blocked (row ∷ rows) a b c h =
    merge_rows-keeps_blocked rows (next_allowed row a b) (next_blocked row b) c
      (next_blocked-keeps row b c h)

-- What a rule blocks ends in the blocked set.
merge_rows-blocks :
    (rows : List PolicyRuleResult) (a b : List Channel) (c : Channel)
    → All
        (λ row. mem c (or_nil row.blocked_channels) ≡ true → mem c (merge_rows rows a b).1 ≡ true)
        rows
unfolding merge_rows
merge_rows-blocks [] a b c = tt
merge_rows-blocks (row ∷ rows) a b c = (
  (λ h.
      merge_rows-keeps_blocked rows (next_allowed row a b) (next_blocked row b) c
        (next_blocked-adds row b c h)),
  merge_rows-blocks rows (next_allowed row a b) (next_blocked row b) c,
)

-- Outreach is open under two decisions.
abbrev pub is_open_decision : PolicyDecision → Bool
is_open_decision PolicyDecision.allow = true
is_open_decision PolicyDecision.wait = true
is_open_decision _ = false

finish_channels-allowed :
    (d : PolicyDecision) (a b : List Channel) (c : Channel)
    → mem c (finish_channels d (a, b)).0 ≡ true
    → (is_open_decision d ≡ true) × (mem c channels ≡ true) × (mem c b ≡ false)
finish_channels-allowed d a b c h =
    ground (arith, mem-filter-channels (λ e. mem e a && not (mem e b)) c)

finish_channels-blocked :
    (d : PolicyDecision) (a b : List Channel) (c : Channel)
    → mem c (finish_channels d (a, b)).1
      ≡ (mem c channels && not (mem c (finish_channels d (a, b)).0))
finish_channels-blocked PolicyDecision.stop a b c = ground arith
finish_channels-blocked PolicyDecision.deny a b c = ground arith
finish_channels-blocked PolicyDecision.escalate a b c = ground arith
finish_channels-blocked PolicyDecision.allow a b c =
    mem-filter-channels (λ x. not (mem x (finish_channels PolicyDecision.allow (a, b)).0)) c
finish_channels-blocked PolicyDecision.wait a b c =
    mem-filter-channels (λ x. not (mem x (finish_channels PolicyDecision.wait (a, b)).0)) c

not-mem : (x y : Bool) → (x ≡ true → y ≡ true) → y ≡ false → x ≡ false
not-mem x y h e = ground arith

module _ (context : PolicyContext) (results : List PolicyRuleResult) (c : Channel) where
  -- A channel on the allow-list is a contact channel that the customer has consented to and that
  -- no rule blocks, and the decision is ALLOW or WAIT.
  pub fold_decision-allowed :
      mem c (fold_decision context results).allowed_channels ≡ true
      → (channel_granted context.customer c ≡ true)
        × (mem c channels ≡ true)
        × All (λ row. mem c (or_nil row.blocked_channels) ≡ false) results
        × (is_open_decision (fold_decision context results).decision ≡ true)
  unfolding fold_decision merge_channels split_channels
  fold_decision-allowed h =
      let (a, b) = split_channels context.customer in
      let (sa, sb) = merge_rows results a b in
      let (is_open, contact, free) = finish_channels-allowed _ sa sb c h in
      (
        ground (
          arith,
          mem-filter-channels (λ e. not (channel_granted context.customer e)) c,
          merge_rows-keeps_blocked results a b c,
        ),
        contact,
        All-map
            (λ row.
              mem c (or_nil row.blocked_channels) ≡ true → mem c (merge_rows results a b).1 ≡ true)
            (λ row k. not-mem _ _ k free) results (merge_rows-blocks results a b c),
        is_open,
      )

  -- The two lists of a decision split the contact channels.
  pub fold_decision-split :
      mem c (fold_decision context results).blocked_channels
      ≡ (mem c channels && not (mem c (fold_decision context results).allowed_channels))
  unfolding fold_decision merge_channels split_channels
  fold_decision-split =
      let (a, b) = split_channels context.customer in
      let (sa, sb) = merge_rows results a b in finish_channels-blocked _ sa sb c
