-- ===== src/Idempotency/RedisClaims.antt =====
-- Claims and completions through the Redis idempotency store of idempotency/redis.go.
use floodguard_rate_limiter.Prelude.{ap, ◌∙◌, String, none, some, List, ◌≡◌, ◌≢◌, arith, eq_iff}
use floodguard_rate_limiter.Prelude.Int.{ℤ, pos, ◌+ℤ◌, ◌≤ℤ◌, ◌<ℤ◌}
use floodguard_rate_limiter.Prelude.Int.{milliseconds}
use floodguard_rate_limiter.Redis.{delivered, Strings, StringLaws}
use floodguard_rate_limiter.Errors.{Bytes, ok}
use floodguard_rate_limiter.Idempotency.{to_process, replay, busy}
use floodguard_rate_limiter.Idempotency.Redis.{
  Encoding, inflight_key, result_key, claim_script, claim_result, redis_claim, redis_complete,
}
use floodguard_rate_limiter.Idempotency.RedisKeys.{inflight-ne-result}
use floodguard_rate_limiter.Idempotency.RedisHistory.{
  Sent, Sequence, last_time, sent_all, get-claim, get-done,
}
use floodguard_rate_limiter.Idempotency.RedisHeld.{IsOpen, IsDone, sent_all-IsOpen, sent_all-IsDone}

module _ (R : Strings) (prefix : String) where
  module _ (enc : Encoding) (L : StringLaws R) where
    -- A claim that is told to process found neither key.
    redis_claim_process :
        (k : String) (now ttl : ℤ) (s : R.Server)
        → pos 0 <ℤ milliseconds ttl
        → (redis_claim R prefix enc now delivered k ttl s).0 ≡ ok to_process
        → (k ≢ "")
          × (R.get now (result_key R prefix k) s ≡ none)
          × (R.get now (inflight_key R prefix k) s ≡ none)
    unfolding redis_claim claim_result claim_script
    redis_claim_process k now ttl s p h =
        ground (
          arith,
          eq_iff k "",
          L.set_nx_lem now (milliseconds ttl) (inflight_key R prefix k) "1" s p,
        )

    redis_claim-busy :
        (k : String) (now ttl : ℤ) (s : R.Server)
        → pos 0 <ℤ milliseconds ttl
        → k ≢ ""
        → R.get now (result_key R prefix k) s ≡ none
        → R.get now (inflight_key R prefix k) s ≡ some "1"
        → (redis_claim R prefix enc now delivered k ttl s).0 ≡ ok busy
    unfolding redis_claim claim_result claim_script
    redis_claim-busy k now ttl s p n r i =
        ground (
          arith,
          eq_iff k "",
          L.set_nx_lem now (milliseconds ttl) (inflight_key R prefix k) "1" s p,
        )

    redis_claim_done :
        (k body : String) (now ttl : ℤ) (s : R.Server)
        → k ≢ ""
        → R.get now (result_key R prefix k) s ≡ some body
        → (redis_claim R prefix enc now delivered k ttl s).0 ≡ ok (replay (enc.decode body))
    unfolding redis_claim claim_result claim_script
    redis_claim_done k body now ttl s n r = ground (arith, eq_iff k "")

    redis_claim-IsOpen :
        (k : String) (now ttl : ℤ) (s : R.Server)
        → pos 0 <ℤ milliseconds ttl
        → k ≢ ""
        → R.get now (result_key R prefix k) s ≡ none
        → R.get now (inflight_key R prefix k) s ≡ none
        → IsOpen R prefix enc k
            (now +ℤ milliseconds ttl)
            now
            (redis_claim R prefix enc now delivered k ttl s).1
    unfolding redis_claim
    redis_claim-IsOpen k now ttl s p n r i t l b = ground (
      arith,
      eq_iff k "",
      inflight-ne-result R prefix k k,
      eq_iff (inflight_key R prefix k) (inflight_key R prefix k),
      L.get_gone now t (result_key R prefix k) s l r,
      get-claim R prefix enc L now t (milliseconds ttl) k (inflight_key R prefix k) s l p,
      get-claim R prefix enc L now t (milliseconds ttl) k (result_key R prefix k) s l p,
    )

    redis_complete-IsDone :
        (k : String) (body : Bytes) (now ttl : ℤ) (s : R.Server)
        → pos 0 <ℤ milliseconds ttl
        → IsDone R prefix enc k
            (enc.encode body)
            (now +ℤ milliseconds ttl)
            now
            (redis_complete R prefix enc now delivered k body ttl s).1
    unfolding redis_complete
    redis_complete-IsDone k body now ttl s p t l b = ground (
      arith,
      inflight-ne-result R prefix k k,
      eq_iff (result_key R prefix k) (result_key R prefix k),
      get-done R prefix enc L now t (milliseconds ttl) k (result_key R prefix k) (enc.encode body) s
          l p,
    )

    -- Through the Redis idempotency store, over a server that keeps to the documented laws of
    -- strings: after a delivered claim that was told to process, a later delivered claim of the
    -- same key before the first one's ttl, in milliseconds, is over is told that the request is in
    -- flight, whatever claims of any keys and completions of other keys were sent in between, in
    -- the order of time and all ttls being a millisecond or more, and whichever of those in
    -- between lost their request or their reply.
    pub redis_claim_exclusive :
        (k : String) (now later ttl ttl' : ℤ) (cs : List Sent) (s : R.Server)
        → pos 0 <ℤ milliseconds ttl
        → pos 0 <ℤ milliseconds ttl'
        → (redis_claim R prefix enc now delivered k ttl s).0 ≡ ok to_process
        → Sequence k now cs
        → last_time now cs ≤ℤ later
        → later <ℤ now +ℤ milliseconds ttl
        → let s' = sent_all R prefix enc cs (redis_claim R prefix enc now delivered k ttl s).1 in
          (redis_claim R prefix enc later delivered k ttl' s').0 ≡ ok busy
    redis_claim_exclusive k now later ttl ttl' cs s p p' h q l b =
        let (n, r, i) = redis_claim_process k now ttl s p h in
        let first = (redis_claim R prefix enc now delivered k ttl s).1 in
        let (i', r') =
          sent_all-IsOpen R prefix enc L k (now +ℤ milliseconds ttl) now cs first q
            (redis_claim-IsOpen k now ttl s p n r i) later l b in
        redis_claim-busy k later ttl' (sent_all R prefix enc cs first) p' n r' i'

    -- Through the Redis idempotency store, over a server that keeps to the documented laws of
    -- strings: after a delivered completion of a key with a response that its encoding gives back,
    -- a delivered claim of the key, which is not empty, before the ttl, in milliseconds, is over
    -- gets that response, whatever claims of any keys and completions of other keys were sent in
    -- between, in the order of time and with ttls of a millisecond or more, and whichever of them
    -- lost their request or their reply.
    pub redis_complete_replays :
        (k : String) (body : Bytes) (now later ttl ttl' : ℤ) (cs : List Sent) (s : R.Server)
        → k ≢ ""
        → enc.decode (enc.encode body) ≡ body
        → pos 0 <ℤ milliseconds ttl
        → Sequence k now cs
        → last_time now cs ≤ℤ later
        → later <ℤ now +ℤ milliseconds ttl
        → let s' =
            sent_all R prefix enc cs (redis_complete R prefix enc now delivered k body ttl s).1 in
          (redis_claim R prefix enc later delivered k ttl' s').0 ≡ ok (replay body)
    redis_complete_replays k body now later ttl ttl' cs s n e p q l b =
        let first = (redis_complete R prefix enc now delivered k body ttl s).1 in
        let r =
          sent_all-IsDone R prefix enc L k (enc.encode body) (now +ℤ milliseconds ttl) now cs first
            q (redis_complete-IsDone k body now ttl s p) later l b in
        redis_claim_done k (enc.encode body) later ttl' (sent_all R prefix enc cs first) n r
        ∙ ap (λ x. ok (replay x)) e
