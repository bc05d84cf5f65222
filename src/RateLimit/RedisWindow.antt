-- ===== src/RateLimit/RedisWindow.antt =====
-- ratelimit/redis_sliding_window.go: the distributed limiter over a Redis sorted set for each key.
use floodguard_rate_limiter.Prelude.{
  ℕ, ◌+◌, String, str_append, Bool, not, none, some, text_eq, if◌then◌else◌,
}
use floodguard_rate_limiter.Prelude.Int.{ℤ, pos, ◌+ℤ◌, ◌-ℤ◌, ltb_ℤ, ◌==ℤ◌}
use floodguard_rate_limiter.Prelude.Int.{milliseconds, unix_milli, wrap64}
use Prim.Native.Nat.{◌%◌}
use floodguard_rate_limiter.Redis.{Delivery, exchange}
use floodguard_rate_limiter.Redis.Sorted.{Sorted}
use floodguard_rate_limiter.Errors.{
  Action, Context, Result, ok, err, sentinel, wrap, ratelimit_key_required, ratelimit_nil_client,
}
use floodguard_rate_limiter.RateLimit.{SlidingWindowConfig, validate}

pub record RedisSlidingWindow : Type 0 where
  pub prefix : String
  pub cfg : SlidingWindowConfig

-- `NewRedisSlidingWindow`; whether there is a client is handed in.
unfoldable pub new_redis_sliding_window :
    Bool → String → SlidingWindowConfig → Result RedisSlidingWindow
new_redis_sliding_window has_client key_prefix cfg =
    let prefix = if text_eq key_prefix "" then "floodguard:ratelimit" else key_prefix in
    if not has_client
    then err (sentinel ratelimit_nil_client)
    else elim (validate cfg) [ some e ↦ err e | none ↦ ok (record { prefix = prefix; cfg = cfg }) ]

-- The `Uint64` counter of the limiter after `Add(1)`.
abbrev pub next_seq : ℕ → ℕ
next_seq seq = (seq + 1) % 18446744073709551616

unfoldable pub window_key : RedisSlidingWindow → String → String
window_key l key = str_append l.prefix (str_append ":sw:" key)

module _ (R : Sorted) where
  -- The script, at the server's time `at`.
  unfoldable pub window_script : ℤ → String → ℤ → ℤ → ℤ → String → ℤ → R.Server → ℤ × R.Server
  window_script at key now window_start limit member ttl_ms s =
      let trimmed = R.zremrangebyscore at key (pos 0) window_start s in
      let added = R.zadd at key now member trimmed in
      let count = R.zcard at key added in
      if ltb_ℤ limit (pos count)
      then (pos 0, R.zrem at key member added)
      else (pos 1, R.pexpire at key ttl_ms added)

  module _ (member_text : ℤ → ℕ → String) where
    -- `Allow` at the client's time `now` and the server's time `at`, with the counter in the state;
    -- `member_text` is what fmt.Sprintf makes of the time and the counter.
    unfoldable pub redis_allow :
        RedisSlidingWindow → ℤ → ℤ → Delivery → Context → String → Action (ℕ × R.Server) Bool
    unfolding window_script window_key
    redis_allow l now at net ctx key (seq, s) =
        let seq' = next_seq seq in
        let ttl = wrap64 (l.cfg.window +ℤ pos 1000000000) in
        let (answer, s') =
          exchange net
            (window_script at (window_key l key) (unix_milli now) (unix_milli (now -ℤ l.cfg.window))
              l.cfg.limit (member_text now seq') (milliseconds ttl))
            s in
        if text_eq key ""
        then (err (sentinel ratelimit_key_required), (seq, s))
        else elim ctx.done [
          | some e ↦ (err e, (seq, s))
          | none ↦ (
            elim answer [
              | err e ↦ err (wrap "ratelimit: redis allow" e)
              | ok res ↦ ok (res ==ℤ pos 1)
            ],
            (seq', s'),
          )
        ]
