-- ===== src/Webhooks/Events.antt =====
-- services/src/services/razorpay_webhooks/constants.py: the events that Razorpay sends.
use recovery_pilot_ai.Base.{List, Bool, ◌∷◌, []}
use recovery_pilot_ai.Communications.Models.{same_text, Text, contains}

-- "payment.failed"
abbrev pub event_payment_failed : Text
event_payment_failed =
    112 ∷ 97 ∷ 121 ∷ 109 ∷ 101 ∷ 110 ∷ 116 ∷ 46 ∷ 102 ∷ 97 ∷ 105 ∷ 108 ∷ 101 ∷ 100 ∷ []

-- "payment.captured"
abbrev pub event_payment_captured : Text
event_payment_captured =
    112 ∷ 97 ∷ 121 ∷ 109 ∷ 101 ∷ 110 ∷ 116 ∷ 46 ∷ 99 ∷ 97 ∷ 112 ∷ 116 ∷ 117 ∷ 114 ∷ 101 ∷ 100 ∷ []

-- "payment.authorized"
abbrev pub event_payment_authorized : Text
event_payment_authorized =
    112 ∷ 97 ∷ 121 ∷ 109 ∷ 101 ∷ 110 ∷ 116 ∷ 46 ∷ 97 ∷ 117 ∷ 116 ∷ 104 ∷ 111 ∷ 114 ∷ 105 ∷ 122 ∷ 101
    ∷ 100 ∷ []

-- "payment_link.paid"
abbrev pub event_payment_link_paid : Text
event_payment_link_paid =
    112 ∷ 97 ∷ 121 ∷ 109 ∷ 101 ∷ 110 ∷ 116 ∷ 95 ∷ 108 ∷ 105 ∷ 110 ∷ 107 ∷ 46 ∷ 112 ∷ 97 ∷ 105 ∷ 100
    ∷ []

-- "subscription.charged"
abbrev pub event_subscription_charged : Text
event_subscription_charged =
    115 ∷ 117 ∷ 98 ∷ 115 ∷ 99 ∷ 114 ∷ 105 ∷ 112 ∷ 116 ∷ 105 ∷ 111 ∷ 110 ∷ 46 ∷ 99 ∷ 104 ∷ 97 ∷ 114
    ∷ 103 ∷ 101 ∷ 100 ∷ []

-- "subscription.cancelled"
abbrev pub event_subscription_cancelled : Text
event_subscription_cancelled =
    115 ∷ 117 ∷ 98 ∷ 115 ∷ 99 ∷ 114 ∷ 105 ∷ 112 ∷ 116 ∷ 105 ∷ 111 ∷ 110 ∷ 46 ∷ 99 ∷ 97 ∷ 110 ∷ 99
    ∷ 101 ∷ 108 ∷ 108 ∷ 101 ∷ 100 ∷ []

-- "subscription.paused"
abbrev pub event_subscription_paused : Text
event_subscription_paused =
    115 ∷ 117 ∷ 98 ∷ 115 ∷ 99 ∷ 114 ∷ 105 ∷ 112 ∷ 116 ∷ 105 ∷ 111 ∷ 110 ∷ 46 ∷ 112 ∷ 97 ∷ 117 ∷ 115
    ∷ 101 ∷ 100 ∷ []

abbrev pub capture_events : List Text
capture_events = event_payment_captured ∷ event_payment_link_paid ∷ event_subscription_charged ∷ []

abbrev pub stop_events : List Text
stop_events = event_subscription_cancelled ∷ event_subscription_paused ∷ []

abbrev pub supported_events : List Text
supported_events =
    event_payment_failed ∷ event_payment_captured ∷ event_payment_authorized
    ∷ event_payment_link_paid ∷ event_subscription_charged ∷ event_subscription_cancelled
    ∷ event_subscription_paused ∷ []

-- `event in CAPTURE_EVENTS`, and the like.
unfoldable pub is_capture : Text → Bool
unfolding same_text
is_capture event = contains event capture_events

unfoldable pub is_stop : Text → Bool
unfolding same_text
is_stop event = contains event stop_events

unfoldable pub is_supported : Text → Bool
unfolding same_text
is_supported event = contains event supported_events

unfoldable pub is_event : Text → Text → Bool
unfolding same_text
is_event name event = same_text event name

-- "unknown"
abbrev pub unknown_name : Text
unknown_name = 117 ∷ 110 ∷ 107 ∷ 110 ∷ 111 ∷ 119 ∷ 110 ∷ []

-- "evt-missing-"
abbrev pub missing_prefix : Text
missing_prefix = 101 ∷ 118 ∷ 116 ∷ 45 ∷ 109 ∷ 105 ∷ 115 ∷ 115 ∷ 105 ∷ 110 ∷ 103 ∷ 45 ∷ []
