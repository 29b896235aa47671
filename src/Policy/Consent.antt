-- ===== src/Policy/Consent.antt =====
-- services/src/services/policy/consent.py: channel allow-lists from consent alone.
use recovery_pilot_ai.Base.{Bool, true, false, not, List, filter, any}
use recovery_pilot_ai.Enums.{ConsentStatus}
use recovery_pilot_ai.Policy.Models.{Channel, channels, CustomerPolicySnapshot}

infix 50 ◌=ᶜ◌
-- Equality of channel names.
abbrev pub ◌=ᶜ◌ : Channel → Channel → Bool
Channel.whatsapp =ᶜ Channel.whatsapp = true
Channel.sms =ᶜ Channel.sms = true
Channel.voice =ᶜ Channel.voice = true
Channel.email =ᶜ Channel.email = true
Channel.upi_payment_link =ᶜ Channel.upi_payment_link = true
Channel.card_update_link =ᶜ Channel.card_update_link = true
Channel.dashboard_notification =ᶜ Channel.dashboard_notification = true
_ =ᶜ _ = false

-- `name in names`
abbrev pub mem : Channel → List Channel → Bool
mem c names = any (λ d. c =ᶜ d) names

abbrev flag : CustomerPolicySnapshot → Channel → Bool
flag customer Channel.whatsapp = customer.consent_whatsapp
flag customer Channel.sms = customer.consent_sms
flag customer Channel.voice = customer.consent_voice
flag customer Channel.email = customer.consent_email
flag customer _ = false

abbrev granted_under : ConsentStatus → CustomerPolicySnapshot → Channel → Bool
granted_under ConsentStatus.withdrawn customer name = false
granted_under ConsentStatus.pending customer name = false
granted_under ConsentStatus.granted customer name = flag customer name

-- The map as a function; a name that it lacks is not granted.
unfoldable pub channel_granted : CustomerPolicySnapshot → Channel → Bool
channel_granted customer name = granted_under customer.consent_status customer name

unfoldable pub split_channels : CustomerPolicySnapshot → List Channel × List Channel
split_channels customer = (
  filter (channel_granted customer) channels,
  filter (λ c. not (channel_granted customer c)) channels,
)

abbrev pub is_withdrawn : ConsentStatus → Bool
is_withdrawn ConsentStatus.withdrawn = true
is_withdrawn _ = false

abbrev pub is_pending : ConsentStatus → Bool
is_pending ConsentStatus.pending = true
is_pending _ = false

unfoldable pub consent_revoked : CustomerPolicySnapshot → Bool
consent_revoked customer = is_withdrawn customer.consent_status

unfoldable pub consent_pending : CustomerPolicySnapshot → Bool
consent_pending customer = is_pending customer.consent_status
