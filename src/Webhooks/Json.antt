-- ===== src/Webhooks/Json.antt =====
-- The JSON body of a webhook, and the operations of Python on it and on texts that
-- services/src/services/razorpay_webhooks/mapping.py uses.
use recovery_pilot_ai.Communications.Models.{Text}
use recovery_pilot_ai.Base.{
  ℕ, Bool, Option, ◌==◌, none, some, false, ◌+◌, [], ◌∷◌, if◌then◌else◌, ◌||◌, true, suc, zero, leb,
  ◌&&◌,
}

-- The keys that the code reads; any other is a number.
pub data Field : Type 0 where
  event event_type id event_id razorpay_event_id payload payment payment_link : Field
  subscription order entity notes recovery_case_id order_id subscription_id : Field
  other_field : ℕ → Field

mutual
  -- A value that is neither a text nor an object is given by its truth and a name.
  pub data Json : Type 0 where
    text : Text → Json
    object : Members → Json
    scalar : Bool → ℕ → Json

  pub data Members : Type 0 where
    no_members : Members
    member : Field → Json → Members → Members

-- What the code takes from Python and the database as it is: `repr`, the parser of UUIDs, and the
-- `LIKE` of the database.
pub record Outside : Type 0 where
  pub repr : Json → Text
  pub uuid_of : Text → Option ℕ
  pub like : Text → Text → Bool

abbrev pub field_code : Field → ℕ
field_code Field.event = 0
field_code Field.event_type = 1
field_code Field.id = 2
field_code Field.event_id = 3
field_code Field.razorpay_event_id = 4
field_code Field.payload = 5
field_code Field.payment = 6
field_code Field.payment_link = 7
field_code Field.subscription = 8
field_code Field.order = 9
field_code Field.entity = 10
field_code Field.notes = 11
field_code Field.recovery_case_id = 12
field_code Field.order_id = 13
field_code Field.subscription_id = 14
field_code (Field.other_field n) = 15 + n

-- `d.get(key)`
abbrev pub get : Field → Members → Option Json
get key Members.no_members = none
get key (Members.member k v rest) =
    let found = get key rest in if field_code key == field_code k then some v else found

-- `bool(x)`
abbrev pub is_truthy : Json → Bool
is_truthy (Json.text []) = false
is_truthy (Json.text (c ∷ cs)) = true
is_truthy (Json.object Members.no_members) = false
is_truthy (Json.object (Members.member k v rest)) = true
is_truthy (Json.scalar truth n) = truth

-- The value if it is there and true.
abbrev pub truthy : Option Json → Option Json
truthy none = none
truthy (some v) = if is_truthy v then some v else none

-- `str(x)`
abbrev pub str : Outside → Json → Text
str o (Json.text t) = t
str o v = o.repr v

-- `x if isinstance(x, dict) else None`
abbrev pub dict_of : Option Json → Option Members
dict_of (some (Json.object m)) = some m
dict_of _ = none

-- White space of ASCII.
abbrev pub is_space : ℕ → Bool
is_space c = c == 32 || ((leb 9 c && leb c 13) || (leb 28 c && leb c 31))

abbrev pub lstrip : Text → Text
lstrip [] = []
lstrip (c ∷ cs) = let rest = lstrip cs in if is_space c then rest else c ∷ cs

abbrev pub rstrip : Text → Text
rstrip [] = []
rstrip (c ∷ cs) = elim (rstrip cs) [
  | [] ↦ if is_space c then [] else c ∷ []
  | d ∷ ds ↦ c ∷ (d ∷ ds)
]

-- `str.strip`
abbrev pub strip : Text → Text
strip t = rstrip (lstrip t)

-- `t[:n]`
abbrev pub prefix : ℕ → Text → Text
prefix zero t = []
prefix (suc n) [] = []
prefix (suc n) (c ∷ cs) = c ∷ prefix n cs
