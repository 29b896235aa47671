-- ===== src/Communications/RateLimit.antt =====
-- services/src/services/communications/rate_limit.py: a token bucket per merchant and channel.
-- The code counts tokens in floats; here a token is `rate_window` parts, so that a microsecond
-- refills `cap` parts and no division is left. The rounding of floats is not modelled.
use recovery_pilot_ai.Base.Keys.{Key, pair_key, option_key, nat_key}
use recovery_pilot_ai.Base.Dict.{lookup, insert}
use recovery_pilot_ai.Communications.Models.{rate_limit, Text, rate_window, text_key}
use recovery_pilot_ai.Base.{
  Option, ℕ, List, ◌+◌, Bool, ◌*◌, min, some, ◌-◌, if◌then◌else◌, none, ltb, false, true,
}

-- `{merchant_key}:{channel}`, by its parts; the merchant "global" is `none`.
abbrev pub BucketKey : Type 0
BucketKey = Option ℕ × Text

instance unfoldable pub bucket_key : Key BucketKey
bucket_key = pair_key ⦃a = option_key ⦃a = nat_key⦄⦄ ⦃b = text_key⦄

-- Tokens less debt: a clock that is set back takes tokens away, and more than there are.
pub record Bucket : Type 0 where
  pub tokens : ℕ
  pub debt : ℕ
  pub refreshed : ℕ

abbrev pub Buckets : Type 0
Buckets = List (BucketKey × Bucket)

-- `self._buckets.get(key, (float(cap), now))`
abbrev pub bucket_or : Option Bucket → ℕ → ℕ → Bucket
bucket_or none cap now = record { tokens = cap * rate_window; debt = 0; refreshed = now }
bucket_or (some bucket) cap now = bucket

-- `min(float(cap), tokens + refill)`, as tokens and debt.
unfoldable pub refilled : ℕ → ℕ → Bucket → Bucket
refilled cap now bucket =
    let credit = bucket.tokens + now * cap in
    let owed = bucket.debt + bucket.refreshed * cap in
    record {
      tokens = min (cap * rate_window) (credit - owed);
      debt = owed - credit;
      refreshed = now;
    }

-- The branches on `tokens < 1`: whether a token is there, and the bucket to store.
unfoldable pub take : Bucket → Bool × Bucket
take bucket =
    if ltb bucket.tokens rate_window
    then (false, bucket)
    else (true, record bucket { tokens = bucket.tokens - rate_window })

unfoldable pub allow : BucketKey → ℕ → Buckets → Bool × Buckets
unfolding refilled rate_limit take
allow key now buckets =
    let cap = rate_limit key.1 in
    let (granted, kept) = take (refilled cap now (bucket_or (lookup key buckets) cap now)) in
    (granted, insert key kept buckets)
