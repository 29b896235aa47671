-- ===== src/Communications/Credit.antt =====
-- services/src/services/communications/rate_limit.py: what a bucket can give is bounded by its cap
-- and the time that passes.
use native.Mathlib.Nat.{mul-le-mul_right}
use recovery_pilot_ai.Base.Dict.{lookup, lookup-insert_self, lookup-insert_ne}
use recovery_pilot_ai.Base.{
  ℕ, Option, ◌≤◌, if◌then◌else◌, ◌*◌, ◌+◌, ◌&&◌, some, none, arith, Bool-cases, inl, inr,
}
use recovery_pilot_ai.Communications.Models.{rate_limit, rate_window}
use recovery_pilot_ai.Communications.RateLimit.{
  allow, refilled, BucketKey, Buckets, Bucket, bucket_or, bucket_key, take,
}

-- What a bucket has at a moment.
unfoldable pub level : ℕ → ℕ → Option Bucket → ℕ
unfolding refilled
level cap now found = (refilled cap now (bucket_or found cap now)).tokens

unfoldable pub available : BucketKey → ℕ → Buckets → ℕ
unfolding level rate_limit
available key now buckets = level (rate_limit key.1) now (lookup key buckets)

level-le-cap : (cap now : ℕ) (found : Option Bucket) → level cap now found ≤ cap * rate_window
unfolding level refilled
level-le-cap cap now found = omega arith

pub available-le-cap :
    (key : BucketKey) (now : ℕ) (buckets : Buckets)
    → available key now buckets ≤ rate_limit key.1 * rate_window
unfolding available
available-le-cap key now buckets = level-le-cap (rate_limit key.1) now (lookup key buckets)

-- While time passes a bucket fills by `cap` parts a microsecond at most.
level-grows :
    (cap lo hi : ℕ) (found : Option Bucket)
    → lo ≤ hi
    → level cap hi found + lo * cap ≤ level cap lo found + hi * cap
unfolding level refilled
level-grows cap lo hi none h = let m = mul-le-mul_right cap h in omega arith
level-grows cap lo hi (some b) h = let m = mul-le-mul_right cap h in omega arith

pub available-grows :
    (key : BucketKey) (lo hi : ℕ) (buckets : Buckets)
    → lo ≤ hi
    → available key hi buckets + lo * rate_limit key.1
      ≤ available key lo buckets + hi * rate_limit key.1
unfolding available
available-grows key lo hi buckets h = level-grows (rate_limit key.1) lo hi (lookup key buckets) h

-- A granted token is gone from what is stored.
level-take :
    (cap now : ℕ) (found : Option Bucket)
    → (let (granted, kept) = take (refilled cap now (bucket_or found cap now)) in
        (if granted then rate_window else 0) + level cap now (some kept) ≤ level cap now found)
unfolding level refilled take
level-take cap now found = ground arith

-- A call takes a token if it grants one, and else nothing is gained.
pub allow-available :
    (key other : BucketKey) (now : ℕ) (buckets : Buckets)
    → (if bucket_key.same key other && (allow other now buckets).0 then rate_window else 0)
        + available key now (allow other now buckets).1
      ≤ available key now buckets
unfolding available allow
allow-available key other now buckets = elim (Bool-cases (bucket_key.same key other)) [
  | inl t ↦
      rw (t, bucket_key.of_same key other t, lookup-insert_self)
        (level-take (rate_limit other.1) now (lookup other buckets))
  | inr f ↦ rw (f, lookup-insert_ne key other _ buckets f) (omega arith)
]
