-- ===== src/Lock/Redis.antt =====
-- lock/redis.go: the lock client over one Redis server.
use floodguard_rate_limiter.Prelude.{ℕ, String, str_append, none, some, text_eq, if◌then◌else◌}
use floodguard_rate_limiter.Prelude.Int.{ℤ, pos, leb_ℤ}
use floodguard_rate_limiter.Redis.{Delivery, exchange, Strings}
use floodguard_rate_limiter.Errors.{
  Action, Result, ok, err, sentinel, wrap, lock_key_required, invalid_ttl, not_acquired,
}

pub record RedisLock : Type 0 where
  pub key : String
  pub token : String

-- `NewRedis`, for its prefix.
unfoldable pub prefix_or_default : String → String
prefix_or_default key_prefix = if text_eq key_prefix "" then "floodguard:lock" else key_prefix

module _ (R : Strings) (prefix : String) where
  unfoldable pub redis_key : String → String
  redis_key resource_key = str_append prefix (str_append ":" resource_key)

  -- `Redis.Acquire` at time `now`, with the answer of `randomToken`; times are in milliseconds.
  unfoldable pub redis_acquire :
      ℤ → Delivery → Result String → String → ℤ → Action R.Server RedisLock
  unfolding redis_key
  redis_acquire now net random resource_key ttl s =
      if text_eq resource_key ""
      then (err (sentinel lock_key_required), s)
      else if leb_ℤ ttl (pos 0)
      then (err (sentinel invalid_ttl), s)
      else elim random [
        | err e ↦ (err e, s)
        | ok token ↦
            let rkey = redis_key resource_key in
            let (answer, s') = exchange net (R.set_nx now rkey token ttl) s in
            (
              elim answer [
                | err e ↦ err (wrap "lock: redis setnx" e)
                | ok set ↦
                    if set
                    then ok (record { key = rkey; token = token })
                    else err (sentinel not_acquired)
              ],
              s',
            )
      ]

  -- `releaseScript`, which the server runs as one step.
  unfoldable pub release_script : ℤ → String → String → R.Server → ℕ × R.Server
  release_script now key token s =
      let gone : ℕ × R.Server = (1, R.del now key s) in
      elim (R.get now key s) [
        | none ↦ (0, s)
        | some held ↦ if text_eq held token then gone else (0, s)
      ]

  -- `redisLock.Release`
  unfoldable pub redis_release : ℤ → Delivery → RedisLock → Action R.Server (Unit {0})
  unfolding release_script
  redis_release now net l s =
      let (answer, s') = exchange net (release_script now l.key l.token) s in
      (elim answer [ err e ↦ err (wrap "lock: redis release" e) | ok n ↦ ok tt ], s')
