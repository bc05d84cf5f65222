-- ===== src/Velocity/Redis.antt =====
-- velocity/redis.go: the velocity store over a Redis sorted set for each key.
use floodguard_rate_limiter.Prelude.{
  ◌+◌, String, str_append, Option, none, some, text_eq, if◌then◌else◌,
}
use floodguard_rate_limiter.Prelude.Int.{ℤ, pos, negsuc, ◌-ℤ◌}
use floodguard_rate_limiter.Prelude.Int.{unix_milli}
use floodguard_rate_limiter.Prelude.{◌*◌}
use floodguard_rate_limiter.Redis.{Delivery, exchange}
use floodguard_rate_limiter.Redis.Sorted.{Sorted}
use floodguard_rate_limiter.Errors.{Action}

-- `NewRedisStore`, for its prefix.
unfoldable pub prefix_or_default : String → String
prefix_or_default key_prefix = if text_eq key_prefix "" then "floodguard:velocity" else key_prefix

-- `time.UnixMilli`
abbrev pub of_milli : ℤ → ℤ
of_milli (pos n) = pos (n * 1000000)
of_milli (negsuc n) = negsuc (n * 1000000 + 999999)

-- Beside the commands of sorted sets, `first_score` is ZREVRANGE key 0 0 WITHSCORES, and `int_text`
-- is what fmt.Sprintf makes of `%d`.
module _ (R : Sorted) (first_score : ℤ → String → R.Server → Option ℤ) (int_text : ℤ → String)
    (prefix : String) where
  unfoldable pub rkey : String → String
  rkey key = str_append prefix (str_append ":" key)

  -- `redisStore.Record` at the server's time `now`; 24 hours in milliseconds.
  unfoldable pub redis_record : ℤ → Delivery → String → ℤ → Action R.Server (Unit {0})
  unfolding rkey
  redis_record now net key at = exchange net (λ s. (
    tt,
    R.pexpire now (rkey key) (pos 86400000) (R.zadd now (rkey key) (unix_milli at) (int_text at) s),
  ))

  -- `redisStore.Count` with the client's clock at `clock`
  unfoldable pub redis_count : ℤ → Delivery → ℤ → String → ℤ → Action R.Server ℤ
  unfolding rkey
  redis_count now net clock key window = exchange net (λ s.
      let s' = R.zremrangebyscore now (rkey key) (pos 0) (unix_milli (clock -ℤ window)) s in
      (pos (R.zcard now (rkey key) s'), s'))

  -- `redisStore.Last`
  unfoldable pub redis_last : ℤ → Delivery → String → Action R.Server (Option ℤ)
  unfolding rkey
  redis_last now net key = exchange net (λ s.
      (elim (first_score now (rkey key) s) [ none ↦ none | some score ↦ some (of_milli score) ], s))
