-- ===== src/App.antt =====
-- example/app/app.go: the wiring of the example server.
pub mod Keys
pub mod Service
pub mod Wiring
pub mod Handlers
pub mod Settled
pub mod Paid
pub mod Retries
pub mod Flagged
pub mod Withdrawals
use floodguard_rate_limiter.Prelude.{String, str_append, Bool}
use floodguard_rate_limiter.Errors.{Result, ok, err}
use floodguard_rate_limiter.RateLimit.{SlidingWindowConfig}
use floodguard_rate_limiter.RateLimit.RedisWindow.{RedisSlidingWindow, new_redis_sliding_window}
use floodguard_rate_limiter.Idempotency.Redis as IdempotencyRedis
use floodguard_rate_limiter.Lock.Redis as LockRedis
use floodguard_rate_limiter.Velocity.Redis as VelocityRedis
use floodguard_rate_limiter.Config.{Parsers, Config}

-- What `New` builds over Redis: the two limiters, and the prefixes of the stores.
pub record Stores : Type 0 where
  pub ip_rate_limiter : RedisSlidingWindow
  pub account_rate_limiter : RedisSlidingWindow
  pub idempotency_prefix : String
  pub velocity_prefix : String
  pub lock_prefix : String

-- `New`, for what it builds over Redis.
unfoldable pub new_stores : (P : Parsers) → Bool → Config P → Result Stores
unfolding IdempotencyRedis.prefix_or_default VelocityRedis.prefix_or_default
    LockRedis.prefix_or_default
new_stores P has_client cfg =
    let prefix = cfg.redis.key_prefix in
    let ip : SlidingWindowConfig = record {
      limit = cfg.rate_limit.ip_limit;
      window = cfg.rate_limit.ip_window;
    } in
    let account : SlidingWindowConfig = record {
      limit = cfg.rate_limit.account_limit;
      window = cfg.rate_limit.account_window;
    } in
    elim (new_redis_sliding_window has_client (str_append prefix ":ip") ip) [
      | err e ↦ err e
      | ok ip_rate_limiter ↦
          elim (new_redis_sliding_window has_client (str_append prefix ":acct") account) [
            | err e ↦ err e
            | ok account_rate_limiter ↦ ok (record {
              ip_rate_limiter = ip_rate_limiter;
              account_rate_limiter = account_rate_limiter;
              idempotency_prefix = IdempotencyRedis.prefix_or_default prefix;
              velocity_prefix = VelocityRedis.prefix_or_default prefix;
              lock_prefix = LockRedis.prefix_or_default prefix;
            })
          ]
    ]
