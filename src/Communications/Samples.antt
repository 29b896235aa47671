-- ===== src/Communications/Samples.antt =====
-- One request to a merchant's customer, and the router's properties at it.
use recovery_pilot_ai.Communications.RateLimit.{allow, bucket_key, refilled, take}
use recovery_pilot_ai.Communications.Sent.{
  sent_in_all, Respects, deliver-Respects, sent_in_all-bounded,
}
use recovery_pilot_ai.Communications.Router.{
  DeliveryRequest, deliver, Clock, send_on, ranked_channels, allowed_set,
}
use recovery_pilot_ai.Communications.Models.{
  Text, default_providers, channel_email, channel_sms, text_key, rate_window, rate_limit, same_text,
  mock_send, lower,
}
use recovery_pilot_ai.Base.{
  All, ℕ, some, length, [], ◌∷◌, ◌≡◌, false, ◌*◌, true, ◌+◌, ◌≤◌, map, refl,
}
use native.Mathlib.Nat.{le_refl}

abbrev digest : Text → ℕ
digest text = length text

abbrev request : DeliveryRequest
request = record {
  recovery_case_id = 1;
  merchant_id = some 7;
  recommended = channel_email ∷ channel_sms ∷ [];
  allowed = channel_sms ∷ channel_email ∷ [];
  blocked = channel_email ∷ [];
  silent = false;
  consent_granted = true;
  contact_by_channel = [];
  template = [];
  body = [];
  idempotency_key = [];
  request_id = 1;
  correlation_id = 1;
}

abbrev clock : Clock
clock = record { limited_at = 5; sent_at = 6 }

-- The blocked channel is passed over.
sends_sms :
    map (λ r. r.channel) (deliver (default_providers digest) request clock []).0 ≡ channel_sms ∷ []
unfolding deliver send_on allow default_providers text_key bucket_key refilled take rate_limit
    same_text mock_send allowed_set ranked_channels lower
sends_sms = refl

deliver-Respects_example :
    All (Respects request) (deliver (default_providers digest) request clock []).0
deliver-Respects_example = deliver-Respects digest request clock []

sent_in_all-bounded_example :
    sent_in_all
          (some 7, channel_sms)
          (default_providers digest)
          ((request, clock) ∷ (request, clock) ∷ [])
          []
        * rate_window
      + 5 * rate_limit channel_sms
    ≤ rate_limit channel_sms * rate_window + 5 * rate_limit channel_sms
sent_in_all-bounded_example =
    sent_in_all-bounded digest (some 7, channel_sms) ((request, clock) ∷ (request, clock) ∷ []) [] 5
      5 (le_refl 5, (le_refl 5, le_refl 5))
