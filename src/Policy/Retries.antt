-- ===== src/Policy/Retries.antt =====
-- The retry limits of services/src/services/policy/cooldown.py.
use recovery_pilot_ai.Policy.Candidates.{
  is_recent, cooldown_from-later, last_clear, cooldown_from-clear, cooldown_from-none, gap_bound,
  fewer_recent, All-append_parts,
}
use recovery_pilot_ai.Base.{
  map, by_key, max_of?-greatest, ◌↔◌, ℕ, ◌+◌, ◌≤◌, ◌<◌, ◌≡◌, none, some, List, filter, count_if,
  All, All-map, arith, false,
}
use recovery_pilot_ai.Base.Sorting.{
  sorted, All-sorted, All-of_sorted, sorted-Ascending, count_if-sorted, get_last?, Ascending,
}
use recovery_pilot_ai.Policy.Models.{RecoveryActionSnapshot, event_time}
use recovery_pilot_ai.Policy.Cooldown.{
  retry_actions, retry_cooldown_until, CooldownCode, gap_candidate, cap_candidate, sooner,
  cooldown_from,
}

cooldown_from-greatest :
    (times : List ℕ) (as_of k w g : ℕ) (r : ℕ × CooldownCode)
    → cooldown_from times as_of k w g ≡ some r
    → All (λ c. c.0 ≤ r.0) (gap_candidate (get_last? times) as_of g)
      × All (λ c. c.0 ≤ r.0) (cap_candidate (filter (is_recent as_of w) times) as_of k w)
unfolding cooldown_from
cooldown_from-greatest times as_of k w g r e =
    All-append_parts (λ c. c.0 ≤ r.0) _ _
      (All-map (λ c. sooner r c ≡ false) (λ c h. ground arith) _
        (max_of?-greatest sooner (by_key (λ (c : ℕ × CooldownCode). c.0)) _ e))

cooldown_from-ends :
    (times : List ℕ) (as_of k w g : ℕ) (r : ℕ × CooldownCode)
    → 0 < k
    → Ascending times
    → count_if (is_recent as_of w) times ≤ k
    → cooldown_from times as_of k w g ≡ some r
    → cooldown_from times r.0 k w g ≡ none
cooldown_from-ends times as_of k w g r p h c e =
    let later = cooldown_from-later times as_of k w g r e in
    let (gap, cap) = cooldown_from-greatest times as_of k w g r e in
    cooldown_from-none times r.0 k w g
      (last_clear times r.0 g h (gap_bound (get_last? times) as_of g r.0 later gap))
      (fewer_recent times as_of k w r.0 p later c cap)

module _ (actions : List RecoveryActionSnapshot) (as_of k w g : ℕ) (p : 0 < k) where
  -- There is no cooldown exactly if every counted retry is at least the gap old and fewer than
  -- the cap lie in the window; at least one retry must be allowed in the window.
  pub retry_cooldown_until-clear : (retry_cooldown_until actions as_of k w g ≡ none) ↔ (
      All (λ t. t + g ≤ as_of) (map event_time (retry_actions actions))
      × (count_if (is_recent as_of w) (map event_time (retry_actions actions)) < k))
  unfolding retry_cooldown_until
  retry_cooldown_until-clear =
      let times = map event_time (retry_actions actions) in
      (
        (λ e.
            let (old, few) =
              cooldown_from-clear (sorted times) as_of k w g p (sorted-Ascending times) e in
            (
              All-of_sorted (λ t. t + g ≤ as_of) times old,
              omega (arith, few, count_if-sorted (is_recent as_of w) times),
            )),
        λ h.
            cooldown_from-none (sorted times) as_of k w g
              (All-sorted (λ t. t + g ≤ as_of) times h.0)
              (omega (arith, h.1, count_if-sorted (is_recent as_of w) times)),
      )

  -- If the window holds at most as many retries as the cap, the moment that is returned lies
  -- ahead, and at that moment the cooldown is over.
  pub retry_cooldown_until-ends :
      (r : ℕ × CooldownCode)
      → count_if (is_recent as_of w) (map event_time (retry_actions actions)) ≤ k
      → retry_cooldown_until actions as_of k w g ≡ some r
      → (as_of < r.0) × (retry_cooldown_until actions r.0 k w g ≡ none)
  unfolding retry_cooldown_until
  retry_cooldown_until-ends r c e =
      let times = map event_time (retry_actions actions) in
      (
        cooldown_from-later (sorted times) as_of k w g r e,
        cooldown_from-ends (sorted times) as_of k w g r p (sorted-Ascending times)
            (omega (arith, c, count_if-sorted (is_recent as_of w) times)) e,
      )
