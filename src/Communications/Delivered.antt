-- ===== src/Communications/Delivered.antt =====
-- services/src/services/communications/router.py: who is sent a message, and how many are.
use mathlib.Core.Option.{some-injective}
use recovery_pilot_ai.Base.Dict.{lookup}
use recovery_pilot_ai.Communications.RateLimit.{Buckets}
use recovery_pilot_ai.Communications.Models.{
  Text, CommunicationProvider, contains, DeliveryResult, lower, SkippedReason, text_key,
  DeliveryStatus, same_text,
}
use recovery_pilot_ai.Base.{
  List, Bool, Option, ◌≡◌, not, none, ◌∷◌, if◌then◌else◌, Bool-cases, ◌&&◌, inl, inr, some,
  Option-cases, refl, [], true, subst, false, arith, ℕ, if-holds, sym,
}
use recovery_pilot_ai.Communications.Router.{
  deliver, Providers, DeliveryRequest, try_channels, Clock, answer, blocked_set, skip_result,
  ranked_channels, allowed_set, send_on,
}

-- The first eligible channel of a ranking, with its provider.
abbrev pub first_eligible :
    Providers → DeliveryRequest → List Text → Option (Text × CommunicationProvider)
first_eligible providers request [] = none
first_eligible providers request (channel ∷ channels) =
    let rest = first_eligible providers request channels in
    if not (contains (lower channel) (blocked_set request))
      && contains (lower channel) (allowed_set request)
    then elim (lookup channel providers) [ none ↦ rest | some p ↦ some (channel, p) ]
    else rest

-- What is done with it.
abbrev pub outcome_for :
    DeliveryRequest
    → Clock
    → Option (Text × CommunicationProvider)
    → Buckets
    → List DeliveryResult × Buckets
outcome_for request clock none buckets =
    answer (skip_result SkippedReason.no_allowed_channel (some clock.sent_at)) buckets
outcome_for request clock (some (channel, p)) buckets = send_on request clock channel p buckets

try_channels-first :
    (providers : Providers) (request : DeliveryRequest) (clock : Clock) (channels : List Text)
    (buckets : Buckets)
    → try_channels providers request clock channels buckets
      ≡ outcome_for request clock (first_eligible providers request channels) buckets
unfolding try_channels
try_channels-first providers request clock [] buckets = refl
try_channels-first providers request clock (channel ∷ channels) buckets =
    let rest = try_channels-first providers request clock channels buckets in
    elim (Bool-cases (contains (lower channel) (blocked_set request))) [
      | inl b ↦ rw (b, rest) refl
      | inr b ↦ elim (Bool-cases (contains (lower channel) (allowed_set request))) [
        | inr a ↦ rw (b, a, rest) refl
        | inl a ↦ elim (Option-cases (lookup channel providers)) [
          | inl e ↦ rw (b, a, e, rest) refl
          | inr (p, e) ↦ rw (b, a, e) refl
        ]
      ]
    ]

-- Unless the case is silent or without consent, delivery is the attempt on the first channel of
-- the ranking that is allowed, not blocked and has a provider, or a skip if there is none.
pub deliver-first :
    (providers : Providers) (request : DeliveryRequest) (clock : Clock) (buckets : Buckets)
    → deliver providers request clock buckets ≡ (
        if request.silent
        then answer (skip_result SkippedReason.retry_silently none) buckets
        else if not request.consent_granted
        then answer (skip_result SkippedReason.consent_withdrawn none) buckets
        else outcome_for request clock
            (first_eligible providers request (ranked_channels request))
            buckets)
unfolding deliver
deliver-first providers request clock buckets =
    rw (try_channels-first providers request clock (ranked_channels request) buckets) refl

-- What the router may do on a channel.
unfoldable pub is_permitted : DeliveryRequest → Text → Bool
is_permitted request channel =
    not request.silent
    && (request.consent_granted
        && (contains channel (ranked_channels request)
            && (not (contains (lower channel) (blocked_set request))
                && contains (lower channel) (allowed_set request))))

abbrev pub is_skipped : DeliveryStatus → Bool
is_skipped DeliveryStatus.skipped = true
is_skipped _ = false

abbrev pub is_delivered : DeliveryStatus → Bool
is_delivered DeliveryStatus.delivered = true
is_delivered _ = false

-- The channel found is in the ranking, is not blocked, is allowed, and the provider is its own.
abbrev pub Found : Providers → DeliveryRequest → List Text → Text × CommunicationProvider → Type 0
Found providers request channels (channel, p) =
    (contains channel channels ≡ true)
    × (contains (lower channel) (blocked_set request) ≡ false)
    × (contains (lower channel) (allowed_set request) ≡ true)
    × (lookup channel providers ≡ some p)

contains-tail :
    (text head : Text) (rest : List Text)
    → contains text rest ≡ true
    → contains text (head ∷ rest) ≡ true
contains-tail text head rest h = ground arith

Found-tail :
    (providers : Providers) (request : DeliveryRequest) (head : Text) (channels : List Text)
    (f : Text × CommunicationProvider)
    → Found providers request channels f
    → Found providers request (head ∷ channels) f
Found-tail providers request head channels (channel, p) (h, b, a, e) =
    (contains-tail channel head channels h, b, a, e)

first_eligible-Found :
    (providers : Providers) (request : DeliveryRequest) (channels : List Text)
    (f : Text × CommunicationProvider)
    → first_eligible providers request channels ≡ some f
    → Found providers request channels f
unfolding same_text
first_eligible-Found providers request [] f h = cc
first_eligible-Found providers request (channel ∷ channels) f h =
    let tail = λ (k : first_eligible providers request channels ≡ some f).
      Found-tail providers request channel channels f
        (first_eligible-Found providers request channels f k) in
    elim (Bool-cases (contains (lower channel) (blocked_set request))) [
      | inl b ↦ tail (rw b at h)
      | inr b ↦ elim (Bool-cases (contains (lower channel) (allowed_set request))) [
        | inr a ↦ tail (rw (b, a) at h)
        | inl a ↦ elim (Option-cases (lookup channel providers)) [
          | inl e ↦ tail (rw (b, a, e) at h)
          | inr (p, e) ↦
              let q : (some (channel, p) ≡ some f) = rw (b, a, e) at h in
              subst (Found providers request (channel ∷ channels)) (some-injective _ _ q)
                (rw (text_key.same_refl channel) refl, b, a, e)
        ]
      ]
    ]

-- What holds of every skip, and of an attempt on a channel that is found, holds of a delivery.
pub deliver-holds {ℓ} :
    (P : List DeliveryResult × Buckets → Type ℓ) (providers : Providers) (request : DeliveryRequest)
    (clock : Clock) (buckets : Buckets)
    → ((reason : SkippedReason) (at : Option ℕ) → P (answer (skip_result reason at) buckets))
    → ((channel : Text) (p : CommunicationProvider)
        → lookup channel providers ≡ some p
        → is_permitted request channel ≡ true
        → P (send_on request clock channel p buckets))
    → P (deliver providers request clock buckets)
unfolding deliver is_permitted
deliver-holds P providers request clock buckets f g =
    if-holds P request.silent _ _ (λ _. f SkippedReason.retry_silently none)
      (λ s.
        if-holds P (not request.consent_granted) _ _ (λ _. f SkippedReason.consent_withdrawn none)
          (λ c.
            subst P
              (sym (try_channels-first providers request clock (ranked_channels request) buckets))
              (elim (Option-cases (first_eligible providers request (ranked_channels request))) [
                | inl e ↦ rw e (f SkippedReason.no_allowed_channel (some clock.sent_at))
                | inr ((channel, p), e) ↦
                    let (m, b, a, l) =
                      first_eligible-Found providers request (ranked_channels request) (channel, p)
                        e in
                    rw e (g channel p l (ground arith))
              ])))
