-- ===== src/Communications/Sent.antt =====
-- services/src/services/communications/router.py on the mock providers: the channel of a delivery,
-- and the number of deliveries in a stretch of time.
use recovery_pilot_ai.Communications.Credit.{
  allow-available, available, available-grows, available-le-cap,
}
use recovery_pilot_ai.Base.Dict.{lookup}
use recovery_pilot_ai.Base.{
  ℕ, List, count_if, ◌≤◌, ◌||◌, [], ◌≡◌, ◌*◌, All, some, true, ◌&&◌, Bool-cases, ◌+◌, ◌∷◌, inl, inr,
  arith, refl, subst, sym, map, Option,
}
use recovery_pilot_ai.Communications.RateLimit.{BucketKey, Buckets, bucket_key, allow}
use recovery_pilot_ai.Communications.Delivered.{
  is_permitted, is_skipped, is_delivered, deliver-holds,
}
use recovery_pilot_ai.Communications.Router.{
  send_on, DeliveryRequest, Clock, Providers, deliver, answer, skip_result,
}
use recovery_pilot_ai.Communications.Models.{
  default_providers, Text, mock_send, DeliveryResult, CommunicationProvider, OutboundMessage,
  rate_window, channel_sms, mock_provider, channel_whatsapp, channel_email, text_key, rate_limit,
  SkippedReason,
}
use native.Mathlib.Nat.{mul-le-mul_right}
use mathlib.Core.Option.{some-injective}

-- The provider sends on that channel, whatever the message.
abbrev SendsOn : Text → CommunicationProvider → Type 0
SendsOn channel p = (message : OutboundMessage) (now : ℕ) → (p.send message now).channel ≡ channel

-- Mock providers under their names.
abbrev mocks : (Text → ℕ) → List (Text × Text) → Providers
mocks digest names = map (λ n. (n.0, mock_provider digest n.0 n.1)) names

lookup-mocks :
    (digest : Text → ℕ) (channel : Text) (names : List (Text × Text)) (p : CommunicationProvider)
    → lookup channel (mocks digest names) ≡ some p
    → SendsOn channel p
unfolding mock_send
lookup-mocks digest channel [] p h = cc
lookup-mocks digest channel ((name, tag) ∷ names) p h =
    elim (Bool-cases (text_key.same channel name)) [
      | inr f ↦ lookup-mocks digest channel names p (rw f at h)
      | inl t ↦
          let q : some (mock_provider digest name tag) ≡ some p = rw t at h in
          subst (SendsOn channel) (some-injective _ _ q)
            (λ m now. sym (text_key.of_same channel name t))
    ]

-- A mock provider sends on the channel under which it is found.
mock-SendsOn :
    (digest : Text → ℕ) (channel : Text) (p : CommunicationProvider)
    → lookup channel (default_providers digest) ≡ some p
    → SendsOn channel p
unfolding default_providers
mock-SendsOn digest channel p =
    lookup-mocks digest channel
      ((channel_sms, 115 ∷ 109 ∷ 115 ∷ [])
        ∷ (channel_whatsapp, 119 ∷ 97 ∷ [])
        ∷ (channel_email, 101 ∷ 109 ∷ [])
        ∷ [])
      p

-- Whatever is not skipped is permitted.
abbrev pub Respects : DeliveryRequest → DeliveryResult → Type 0
Respects request result = is_skipped result.status || is_permitted request result.channel ≡ true

send_on-Respects :
    (digest : Text → ℕ) (request : DeliveryRequest) (clock : Clock) (channel : Text)
    (p : CommunicationProvider) (buckets : Buckets)
    → lookup channel (default_providers digest) ≡ some p
    → is_permitted request channel ≡ true
    → All (Respects request) (send_on request clock channel p buckets).0
unfolding send_on
send_on-Respects digest request clock channel p buckets e h =
    elim (Bool-cases (allow (request.merchant_id, channel) clock.limited_at buckets).0) [
      | inl t ↦ rw (t, mock-SendsOn digest channel p e, h) (ground arith, tt)
      | inr f ↦ rw (f, h) (refl, tt)
    ]

-- Whatever the mock providers send or fail to send is on a channel of the ranking that is allowed
-- and not blocked, for a request that is not silent and has consent.
pub deliver-Respects :
    (digest : Text → ℕ) (request : DeliveryRequest) (clock : Clock) (buckets : Buckets)
    → All (Respects request) (deliver (default_providers digest) request clock buckets).0
deliver-Respects digest request clock buckets =
    deliver-holds (λ a. All (Respects request) a.0) (default_providers digest) request clock buckets
      (λ reason at. (refl, tt))
      (λ channel p e h. send_on-Respects digest request clock channel p buckets e h)

-- The messages of an answer that went out on a merchant's channel.
unfoldable pub sent_to : BucketKey → DeliveryRequest → List DeliveryResult → ℕ
sent_to key request results =
    count_if (λ r. is_delivered r.status && bucket_key.same key (request.merchant_id, r.channel))
      results

-- The messages of a series of deliveries that went out on a merchant's channel.
unfoldable pub sent_in_all : BucketKey → Providers → List (DeliveryRequest × Clock) → Buckets → ℕ
unfolding sent_to
sent_in_all key providers [] buckets = 0
sent_in_all key providers ((request, clock) ∷ calls) buckets =
    let (results, after) = deliver providers request clock buckets in
    sent_to key request results + sent_in_all key providers calls after

-- The limiter's clock does not go back, from one moment to another.
abbrev pub Ordered : ℕ → List (DeliveryRequest × Clock) → ℕ → Type 0
Ordered lo [] hi = lo ≤ hi
Ordered lo ((request, clock) ∷ calls) hi =
    (lo ≤ clock.limited_at) × Ordered clock.limited_at calls hi

-- An attempt takes what it sends from the bucket.
abbrev Spends :
    BucketKey → DeliveryRequest → Clock → Buckets → List DeliveryResult × Buckets → Type 0
Spends key request clock buckets (results, after) =
    sent_to key request results * rate_window + available key clock.limited_at after
    ≤ available key clock.limited_at buckets

send_on-Spends :
    (digest : Text → ℕ) (key : BucketKey) (request : DeliveryRequest) (clock : Clock)
    (channel : Text) (p : CommunicationProvider) (buckets : Buckets)
    → lookup channel (default_providers digest) ≡ some p
    → Spends key request clock buckets (send_on request clock channel p buckets)
unfolding send_on sent_to
send_on-Spends digest key request clock channel p buckets e =
    let a = allow-available key (request.merchant_id, channel) clock.limited_at buckets in
    elim (Bool-cases (allow (request.merchant_id, channel) clock.limited_at buckets).0) [
      | inl t ↦ rw (t, mock-SendsOn digest channel p e) (let b = (rw t at a) in ground arith)
      | inr f ↦ rw f (let b = (rw f at a) in ground arith)
    ]

skip-Spends :
    (key : BucketKey) (request : DeliveryRequest) (clock : Clock) (buckets : Buckets)
    (reason : SkippedReason) (at : Option ℕ)
    → Spends key request clock buckets (answer (skip_result reason at) buckets)
unfolding sent_to
skip-Spends key request clock buckets reason at = omega arith

deliver-Spends :
    (digest : Text → ℕ) (key : BucketKey) (request : DeliveryRequest) (clock : Clock)
    (buckets : Buckets)
    → Spends key request clock buckets (deliver (default_providers digest) request clock buckets)
deliver-Spends digest key request clock buckets =
    deliver-holds (Spends key request clock buckets) (default_providers digest) request clock
      buckets (λ reason at. skip-Spends key request clock buckets reason at)
      (λ channel p e h. send_on-Spends digest key request clock channel p buckets e)

series-spends :
    (digest : Text → ℕ) (key : BucketKey) (calls : List (DeliveryRequest × Clock))
    (buckets : Buckets) (lo hi : ℕ)
    → Ordered lo calls hi
    → sent_in_all key (default_providers digest) calls buckets * rate_window + lo * rate_limit key.1
      ≤ available key lo buckets + hi * rate_limit key.1
unfolding sent_in_all
series-spends digest key [] buckets lo hi h =
    let m = mul-le-mul_right (rate_limit key.1) h in omega arith
series-spends digest key ((request, clock) ∷ calls) buckets lo hi (h, hs) =
    let after = (deliver (default_providers digest) request clock buckets).1 in
    let s = series-spends digest key calls after clock.limited_at hi hs in
    let d = deliver-Spends digest key request clock buckets in
    let g = available-grows key lo clock.limited_at buckets h in omega arith

-- Whatever is delivered while the clock goes from one moment to another, a merchant's channel has
-- at most its limit of messages, and what the limit refills in that time.
pub sent_in_all-bounded :
    (digest : Text → ℕ) (key : BucketKey) (calls : List (DeliveryRequest × Clock))
    (buckets : Buckets) (lo hi : ℕ)
    → Ordered lo calls hi
    → sent_in_all key (default_providers digest) calls buckets * rate_window + lo * rate_limit key.1
      ≤ rate_limit key.1 * rate_window + hi * rate_limit key.1
sent_in_all-bounded digest key calls buckets lo hi h =
    let s = series-spends digest key calls buckets lo hi h in
    let c = available-le-cap key lo buckets in omega arith
