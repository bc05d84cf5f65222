-- ===== src/Idempotency/Redis.antt =====
-- idempotency/redis.go: the idempotency store over Redis, with its two Lua scripts.
use floodguard_rate_limiter.Prelude.{String, str_append, none, some, text_eq, if◌then◌else◌}
use floodguard_rate_limiter.Prelude.Int.{ℤ, pos, ◌==ℤ◌, milliseconds}
use floodguard_rate_limiter.Redis.{Delivery, exchange, Strings}
use floodguard_rate_limiter.Errors.{
  Action, Bytes, Result, ok, err, sentinel, wrap, foreign, idempotency_key_required,
}
use floodguard_rate_limiter.Idempotency.{ClaimResult, to_process, replay, busy}

-- `NewRedisStore`, for its prefix.
unfoldable pub prefix_or_default : String → String
prefix_or_default key_prefix =
    if text_eq key_prefix "" then "floodguard:idempotency" else key_prefix

-- A body of bytes as a Redis string, and back.
pub record Encoding : Type 0 where
  pub encode : Bytes → String
  pub decode : String → Bytes

module _ (R : Strings) (prefix : String) where
  unfoldable pub inflight_key : String → String
  inflight_key key = str_append prefix (str_append ":inflight:" key)

  unfoldable pub result_key : String → String
  result_key key = str_append prefix (str_append ":result:" key)

  -- The script `claim`: a status, and the cached body with status 1.
  unfoldable pub claim_script : ℤ → String → String → ℤ → R.Server → (ℤ × String) × R.Server
  claim_script now inflight result ttl s = elim (R.get now result s) [
    | some cached ↦ ((pos 1, cached), s)
    | none ↦
        let (claimed, s') = R.set_nx now inflight "1" ttl s in
        ((if claimed then pos 0 else pos 2, ""), s')
  ]

  -- The script `done`.
  unfoldable pub done_script : ℤ → String → String → ℤ → String → R.Server → ℤ × R.Server
  done_script now inflight result ttl body s =
      (pos 1, R.del now inflight (R.set now result body ttl s))

  module _ (enc : Encoding) where
    -- What `Claim` makes of the script's reply; the script's replies have a status that is an integer
    -- and a body that is a string.
    unfoldable pub claim_result : ℤ × String → Result ClaimResult
    claim_result (status, body) =
        if status ==ℤ pos 0
        then ok to_process
        else if status ==ℤ pos 1
        then ok (replay (enc.decode body))
        else if status ==ℤ pos 2
        then ok busy
        else err (foreign "idempotency: unexpected claim status")

    -- `redisStore.Claim` at time `now` of the server.
    unfoldable pub redis_claim : ℤ → Delivery → String → ℤ → Action R.Server ClaimResult
    unfolding claim_script claim_result inflight_key result_key
    redis_claim now net key ttl s =
        let (answer, s') =
          exchange net (claim_script now (inflight_key key) (result_key key) (milliseconds ttl))
            s in
        if text_eq key "" then (err (sentinel idempotency_key_required), s) else (
          elim answer [
            | err e ↦ err (wrap "idempotency: redis claim" e)
            | ok reply ↦ claim_result reply
          ],
          s',
        )

    -- `redisStore.Complete`
    unfoldable pub redis_complete : ℤ → Delivery → String → Bytes → ℤ → Action R.Server (Unit {0})
    unfolding done_script inflight_key result_key
    redis_complete now net key response ttl s =
        let (answer, s') =
          exchange net
            (done_script now (inflight_key key) (result_key key) (milliseconds ttl)
              (enc.encode response))
            s in
        (elim answer [ err e ↦ err (wrap "idempotency: redis complete" e) | ok n ↦ ok tt ], s')
