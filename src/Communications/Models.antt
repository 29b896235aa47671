-- ===== src/Communications/Models.antt =====
-- services/src/services/communications/models.py, constants.py and mock_providers.py.
-- A text is the list of its code points.
use recovery_pilot_ai.Base.Keys.{Key, list_key, nat_key}
use recovery_pilot_ai.Base.{
  Bool, Option, List, ◌∷◌, ℕ, map, any, some, [], if◌then◌else◌, false, leb, ◌&&◌, none, ◌+◌,
}

abbrev pub Text : Type 0
Text = List ℕ

instance unfoldable pub text_key : Key Text
text_key = list_key ⦃a = nat_key⦄

-- "SMS"
abbrev pub channel_sms : Text
channel_sms = 83 ∷ 77 ∷ 83 ∷ []

-- "WhatsApp"
abbrev pub channel_whatsapp : Text
channel_whatsapp = 87 ∷ 104 ∷ 97 ∷ 116 ∷ 115 ∷ 65 ∷ 112 ∷ 112 ∷ []

-- "Email"
abbrev pub channel_email : Text
channel_email = 69 ∷ 109 ∷ 97 ∷ 105 ∷ 108 ∷ []

-- "NONE"
abbrev pub channel_none : Text
channel_none = 78 ∷ 79 ∷ 78 ∷ 69 ∷ []

-- "sandbox"
abbrev pub sandbox : Text
sandbox = 115 ∷ 97 ∷ 110 ∷ 100 ∷ 98 ∷ 111 ∷ 120 ∷ []

abbrev pub supported_channels : List Text
supported_channels = channel_whatsapp ∷ channel_sms ∷ channel_email ∷ []

abbrev pub lower_code : ℕ → ℕ
lower_code c = if leb 65 c && leb c 90 then c + 32 else c

-- `str.lower` on ASCII letters.
unfoldable pub lower : Text → Text
lower text = map lower_code text

unfoldable pub same_text : Text → Text → Bool
unfolding text_key
same_text s t = text_key.same s t

-- `text in {…}`
abbrev pub contains : Text → List Text → Bool
contains text set = any (same_text text) set

-- `RATE_LIMITS.get(channel, 10)`
unfoldable pub rate_limit : Text → ℕ
unfolding same_text
rate_limit channel =
    if same_text channel channel_sms
    then 10
    else if same_text channel channel_whatsapp
    then 20
    else if same_text channel channel_email
    then 30
    else 10

-- `RATE_WINDOW`, in microseconds.
abbrev pub rate_window : ℕ
rate_window = 60000000

pub data DeliveryStatus : Type 0 where
  delivered failed skipped : DeliveryStatus

pub data SkippedReason : Type 0 where
  retry_silently consent_withdrawn rate_limited no_allowed_channel : SkippedReason

pub data ProviderName : Type 0 where
  sandbox_mock : ProviderName

-- A notice. Template, body and the ids of the request go through unread.
pub record OutboundMessage : Type 0 where
  pub channel : Text
  pub recovery_case_id : ℕ
  pub merchant_id : Option ℕ
  pub to : Text
  pub template : Text
  pub body : Text
  pub idempotency_key : Text
  pub request_id : ℕ
  pub correlation_id : ℕ

pub record DeliveryResult : Type 0 where
  pub channel : Text
  pub status : DeliveryStatus
  pub provider : ProviderName
  pub provider_message_id : Option (Text × ℕ)
  pub rate_limited : Bool
  pub skipped_reason : Option SkippedReason
  pub sent_at : Option ℕ

-- A provider: its name for the audit, and what `send` returns at a moment.
pub record CommunicationProvider : Type 0 where
  pub channel : Text
  pub provider_name : ProviderName
  pub send : OutboundMessage → ℕ → DeliveryResult

-- The `send` of a mock provider. `tag` is the short channel name in its message ids, and `digest`
-- the twelve digits of `uuid5` that end them.
unfoldable pub mock_send : (Text → ℕ) → Text → Text → OutboundMessage → ℕ → DeliveryResult
mock_send digest channel tag message now = record {
  channel = channel;
  status = DeliveryStatus.delivered;
  provider = ProviderName.sandbox_mock;
  provider_message_id = some (lower tag, digest message.idempotency_key);
  rate_limited = false;
  skipped_reason = none;
  sent_at = some now;
}

abbrev pub mock_provider : (Text → ℕ) → Text → Text → CommunicationProvider
mock_provider digest channel tag = record {
  channel = channel;
  provider_name = ProviderName.sandbox_mock;
  send = mock_send digest channel tag;
}

-- "sms", "wa" and "em" are the tags.
unfoldable pub default_providers : (Text → ℕ) → List (Text × CommunicationProvider)
default_providers digest =
    let sms = mock_provider digest channel_sms (115 ∷ 109 ∷ 115 ∷ []) in
    let whatsapp = mock_provider digest channel_whatsapp (119 ∷ 97 ∷ []) in
    let email = mock_provider digest channel_email (101 ∷ 109 ∷ []) in
    (sms.channel, sms) ∷ (whatsapp.channel, whatsapp) ∷ (email.channel, email) ∷ []
