-- ===== src/RateLimit.antt =====
-- ratelimit/limiter.go and ratelimit/token_bucket.go: the Limiter interface, the configurations, and
-- the in-memory token buckets, one golang.org/x/time/rate limiter for each key.
pub mod Buckets
pub mod RedisWindow
pub mod WindowAnswers
pub mod WindowKeys
pub mod WindowLimit
pub mod WindowLog
pub mod WindowScript
pub mod WindowTracks
use floodguard_rate_limiter.Prelude.{String, Bool, Option, none, some, [], text_eq, if◌then◌else◌}
use floodguard_rate_limiter.Prelude.Int.{ℤ, pos, leb_ℤ}
use floodguard_rate_limiter.Prelude.Dict.{Dict, lookup, insert}
use floodguard_rate_limiter.Errors.{
  Action, Context, Error, ok, err, sentinel, detail, ratelimit_key_required,
  ratelimit_invalid_config,
}

-- Whether a keyed request may proceed.
pub record Limiter (W : Type 0) : Type 0 where
  pub allow : Context → String → Action W Bool

-- golang.org/x/time/rate, which is not in the repository: a limiter and its `Allow` at a time.
pub record XRate : Type 1 where
  pub Limit : Type 0
  pub is_positive : Limit → Bool
  pub ten : Limit
  pub Bucket : Type 0
  pub new_limiter : Limit → ℤ → Bucket
  pub allow_at : ℤ → Bucket → Bool × Bucket

pub record SlidingWindowConfig : Type 0 where
  pub limit : ℤ
  pub window : ℤ

unfoldable pub validate : SlidingWindowConfig → Option Error
validate c =
    if leb_ℤ c.limit (pos 0)
    then some (detail (sentinel ratelimit_invalid_config) "limit must be positive")
    else if leb_ℤ c.window (pos 0)
    then some (detail (sentinel ratelimit_invalid_config) "window must be positive")
    else none

module _ (X : XRate) where
  open X use {Limit, is_positive, ten, Bucket, new_limiter, allow_at}

  pub record TokenBucketConfig : Type 0 where
    pub rate : Limit
    pub burst : ℤ

  unfoldable pub with_defaults : TokenBucketConfig → TokenBucketConfig
  with_defaults c = record {
    rate = if is_positive c.rate then c.rate else ten;
    burst = if leb_ℤ c.burst (pos 0) then pos 20 else c.burst;
  }

  pub record TokenBucket : Type 0 where
    pub rate : Limit
    pub burst : ℤ
    pub buckets : Dict Bucket

  unfoldable pub new_token_bucket : TokenBucketConfig → TokenBucket
  unfolding with_defaults
  new_token_bucket cfg =
      let c = with_defaults cfg in record { rate = c.rate; burst = c.burst; buckets = [] }

  -- `limiter(key)`: the bucket of the key, made and stored at its first use.
  unfoldable pub limiter : TokenBucket → String → Bucket × TokenBucket
  limiter t key = elim (lookup key t.buckets) [
    | some lim ↦ (lim, t)
    | none ↦
        let lim = new_limiter t.rate t.burst in
        (lim, record t { buckets = insert key lim t.buckets })
  ]

  -- `Allow` at time `now`; the bucket is shared with the map, so its change is written back.
  unfoldable pub token_bucket_allow : ℤ → Context → String → Action TokenBucket Bool
  unfolding limiter
  token_bucket_allow now ctx key t =
      if text_eq key "" then (err (sentinel ratelimit_key_required), t) else elim ctx.done [
        | some e ↦ (err e, t)
        | none ↦
            let (lim, t') = limiter t key in
            let (allowed, lim') = allow_at now lim in
            (ok allowed, record t' { buckets = insert key lim' t'.buckets })
      ]
