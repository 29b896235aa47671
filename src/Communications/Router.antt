-- ===== src/Communications/Router.antt =====
-- services/src/services/communications/router.py: `CommunicationRouter.deliver`.
use recovery_pilot_ai.Base.Dict.{lookup}
use recovery_pilot_ai.Communications.RateLimit.{allow, Buckets}
use recovery_pilot_ai.Base.{
  List, Option, ℕ, ◌∷◌, map, some, Bool, if◌then◌else◌, none, not, [], ◌++◌, false, true,
}
use recovery_pilot_ai.Communications.Models.{
  lower, DeliveryResult, SkippedReason, Text, channel_none, CommunicationProvider, ProviderName,
  OutboundMessage, sandbox, DeliveryStatus, contains, supported_channels, text_key,
}

pub record DeliveryRequest : Type 0 where
  pub recovery_case_id : ℕ
  pub merchant_id : Option ℕ
  pub recommended : List Text
  pub allowed : List Text
  pub blocked : List Text
  pub silent : Bool
  pub consent_granted : Bool
  pub contact_by_channel : List (Text × Text)
  pub template : Text
  pub body : Text
  pub idempotency_key : Text
  pub request_id : ℕ
  pub correlation_id : ℕ

-- The two readings of the clock that matter: in the limiter, and for `sent_at`.
pub record Clock : Type 0 where
  pub limited_at : ℕ
  pub sent_at : ℕ

abbrev pub Providers : Type 0
Providers = List (Text × CommunicationProvider)

abbrev pub skip_result : SkippedReason → Option ℕ → DeliveryResult
skip_result reason sent_at = record {
  channel = channel_none;
  status = DeliveryStatus.skipped;
  provider = ProviderName.sandbox_mock;
  provider_message_id = none;
  rate_limited = false;
  skipped_reason = some reason;
  sent_at = sent_at;
}

abbrev pub limited_result : Text → ProviderName → DeliveryResult
limited_result channel provider_name = record {
  channel = channel;
  status = DeliveryStatus.failed;
  provider = provider_name;
  provider_message_id = none;
  rate_limited = true;
  skipped_reason = some SkippedReason.rate_limited;
  sent_at = none;
}

abbrev pub text_or : Option Text → Text → Text
text_or (some (c ∷ cs)) other = c ∷ cs
text_or _ other = other

-- `contact_by_channel.get(channel) or contact_by_channel.get(channel.lower()) or "sandbox"`
abbrev pub destination : List (Text × Text) → Text → Text
destination contacts channel =
    text_or (lookup channel contacts) (text_or (lookup (lower channel) contacts) sandbox)

abbrev pub message_for : DeliveryRequest → Text → OutboundMessage
message_for request channel = record {
  channel = channel;
  recovery_case_id = request.recovery_case_id;
  merchant_id = request.merchant_id;
  to = destination request.contact_by_channel channel;
  template = request.template;
  body = request.body;
  idempotency_key = request.idempotency_key ++ (58 ∷ channel);
  request_id = request.request_id;
  correlation_id = request.correlation_id;
}

-- `blocked_set` and `allowed_set`
abbrev pub blocked_set : DeliveryRequest → List Text
blocked_set request = map lower request.blocked

unfoldable pub allowed_set : DeliveryRequest → List Text
allowed_set request = elim (request.allowed) [
  | [] ↦ map lower supported_channels
  | c ∷ cs ↦ map lower (c ∷ cs)
]

-- `recommended or list(SUPPORTED_CHANNELS)`
unfoldable pub ranked_channels : DeliveryRequest → List Text
ranked_channels request = elim (request.recommended) [ [] ↦ supported_channels | c ∷ cs ↦ c ∷ cs ]

abbrev pub answer : DeliveryResult → Buckets → List DeliveryResult × Buckets
answer result buckets = (result ∷ [], buckets)

-- The body of the loop from the provider on.
unfoldable pub send_on :
    DeliveryRequest → Clock → Text → CommunicationProvider → Buckets → List DeliveryResult × Buckets
unfolding allow
send_on request clock channel provider buckets =
    let (granted, after) = allow (request.merchant_id, channel) clock.limited_at buckets in
    if not granted
    then answer (limited_result channel provider.provider_name) after
    else answer (provider.send (message_for request channel) clock.sent_at) after

-- The loop over the ranked channels, and the answer after it.
unfoldable pub try_channels :
    Providers → DeliveryRequest → Clock → List Text → Buckets → List DeliveryResult × Buckets
unfolding send_on allowed_set lower
try_channels providers request clock [] buckets =
    answer (skip_result SkippedReason.no_allowed_channel (some clock.sent_at)) buckets
try_channels providers request clock (channel ∷ channels) buckets =
    let rest = try_channels providers request clock channels buckets in
    if contains (lower channel) (blocked_set request)
    then rest
    else if not (contains (lower channel) (allowed_set request))
    then rest
    else elim (lookup channel providers) [
      | none ↦ rest
      | some provider ↦ send_on request clock channel provider buckets
    ]

unfoldable pub deliver :
    Providers → DeliveryRequest → Clock → Buckets → List DeliveryResult × Buckets
unfolding try_channels ranked_channels
deliver providers request clock buckets =
    if request.silent
    then answer (skip_result SkippedReason.retry_silently none) buckets
    else if not request.consent_granted
    then answer (skip_result SkippedReason.consent_withdrawn none) buckets
    else try_channels providers request clock (ranked_channels request) buckets
