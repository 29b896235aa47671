-- ===== src/Webhooks/Mapping.antt =====
-- services/src/services/razorpay_webhooks/mapping.py: the ids and notes of an event's body.
use recovery_pilot_ai.Communications.Models.{Text}
use recovery_pilot_ai.Base.{Option, List, [], or_else, ℕ, none, ◌∷◌, some, map_option, and_then}
use recovery_pilot_ai.Webhooks.Json.{
  Outside, Members, dict_of, Json, Field, get, prefix, strip, str, truthy,
}

-- `str(x or "")`
abbrev pub str_or_empty : Outside → Option Json → Text
str_or_empty o none = []
str_or_empty o (some v) = str o v

unfoldable pub event_type_of : Outside → Members → Text
event_type_of o body =
    strip (
      str_or_empty o (or_else (truthy (get Field.event body)) (truthy (get Field.event_type body))))

-- `str(token).strip()[:128]`
abbrev pub token_text : Outside → Json → Text
token_text o v = prefix 128 (strip (str o v))

abbrev pub or_empty : Outside → Option Json → Text
or_empty o none = []
or_empty o (some v) = token_text o v

-- The token of the body, else the id of its payload.
unfoldable pub event_token : Members → Option Json
event_token body =
    let token =
      or_else (truthy (get Field.id body))
        (or_else (truthy (get Field.event_id body)) (truthy (get Field.razorpay_event_id body))) in
    or_else token (and_then (dict_of (get Field.payload body)) (λ p. truthy (get Field.id p)))

unfoldable pub razorpay_event_id_of : Outside → Members → Text
unfolding event_token
razorpay_event_id_of o body = or_empty o (event_token body)

abbrev pub or_body : Members → Option Members → Members
or_body body none = body
or_body body (some found) = found

-- `payload.<key>.entity`, else `payload.<key>`, else an empty object.
unfoldable pub entity_of : Members → Field → Members
entity_of body key =
    let block = or_body body (dict_of (get Field.payload body)) in
    elim (dict_of (get key block)) [
      | none ↦ Members.no_members
      | some item ↦ or_body item (dict_of (get Field.entity item))
    ]

unfoldable pub notes_of : Members → Members
notes_of entity = elim (dict_of (get Field.notes entity)) [
  | none ↦ Members.no_members
  | some notes ↦ notes
]

-- The loop over the entities, which passes over what is no UUID.
unfoldable pub first_case : Outside → Members → List Field → Option ℕ
unfolding entity_of notes_of
first_case o body [] = none
first_case o body (key ∷ keys) =
    or_else
      (and_then (truthy (get Field.recovery_case_id (notes_of (entity_of body key))))
        (λ v. o.uuid_of (str o v)))
      (first_case o body keys)

unfoldable pub case_id_from_notes : Outside → Members → Option ℕ
unfolding first_case
case_id_from_notes o body =
    first_case o body (Field.payment ∷ Field.payment_link ∷ Field.subscription ∷ Field.order ∷ [])

-- The text under a key of an entity, if it is there and true.
unfoldable pub id_in : Outside → Members → Field → Field → Option Text
unfolding entity_of
id_in o body holder key = map_option (str o) (truthy (get key (entity_of body holder)))

unfoldable pub payment_provider_id : Outside → Members → Option Text
unfolding id_in
payment_provider_id o body = id_in o body Field.payment Field.id

unfoldable pub order_provider_id : Outside → Members → Option Text
unfolding id_in
order_provider_id o body =
    or_else (id_in o body Field.payment Field.order_id) (id_in o body Field.order Field.id)

unfoldable pub payment_link_id : Outside → Members → Option Text
unfolding id_in
payment_link_id o body = id_in o body Field.payment_link Field.id

unfoldable pub subscription_provider_id : Outside → Members → Option Text
unfolding id_in
subscription_provider_id o body =
    or_else (id_in o body Field.subscription Field.id)
      (id_in o body Field.payment Field.subscription_id)
