-- ===== src/Idempotency/RedisHeld.antt =====
-- Open claims and stored results through the histories of idempotency/redis.go.
use floodguard_rate_limiter.Prelude.{String, none, some, List, [], ◌∷◌, ◌≡◌, arith, eq_iff}
use floodguard_rate_limiter.Prelude.Int.{ℤ, pos, ◌≤ℤ◌, ◌<ℤ◌}
use floodguard_rate_limiter.Prelude.Int.{milliseconds}
use floodguard_rate_limiter.Redis.{Delivery, Strings, StringLaws}
use floodguard_rate_limiter.Idempotency.Redis.{Encoding, inflight_key, result_key}
use floodguard_rate_limiter.Idempotency.RedisKeys.{
  same_inflight, same_result, inflight-ne-result, result-ne-inflight,
}
use floodguard_rate_limiter.Idempotency.RedisHistory.{
  Call, claims, completes, Sent, ttl_of, IsOther, Sequence, last_time, sent, sent_all,
  claim_server-get, complete_server-get,
}

module _ (R : Strings) (prefix : String) where
  module _ (enc : Encoding) where
    -- From now on until before the deadline, the claim of `k` is open.
    abbrev pub IsOpen : String → ℤ → ℤ → R.Server → Type 0
    IsOpen k deadline now s =
        (t : ℤ)
        → now ≤ℤ t
        → t <ℤ deadline
        → (R.get t (inflight_key R prefix k) s ≡ some "1")
          × (R.get t (result_key R prefix k) s ≡ none)

    -- From now on until before the deadline, the result of `k` is there.
    abbrev pub IsDone : String → String → ℤ → ℤ → R.Server → Type 0
    IsDone k body deadline now s =
        (t : ℤ) → now ≤ℤ t → t <ℤ deadline → R.get t (result_key R prefix k) s ≡ some body

    module _ (L : StringLaws R) where
      sent-IsOpen :
          (k : String) (deadline now at : ℤ) (net : Delivery) (c : Call) (s : R.Server)
          → now ≤ℤ at
          → pos 0 <ℤ milliseconds (ttl_of c)
          → IsOther k c
          → IsOpen k deadline now s
          → IsOpen k deadline at (sent R prefix enc (at, net, c) s)
      unfolding sent
      sent-IsOpen k deadline now at net (claims j ttl) s l p o held t m b =
          let (i, r) = held at l (ground arith) in
          let (i', r') = held t (ground arith) b in
          ground (
            arith,
            i,
            r,
            i',
            r',
            claim_server-get R prefix enc L net at t ttl j (inflight_key R prefix k) s m p,
            claim_server-get R prefix enc L net at t ttl j (result_key R prefix k) s m p,
            same_inflight R prefix j k,
            eq_iff j k,
            inflight-ne-result R prefix j k,
          )
      sent-IsOpen k deadline now at net (completes j body ttl) s l p o held t m b =
          let (i, r) = held t (ground arith) b in
          ground (
            arith,
            i,
            r,
            complete_server-get R prefix enc L net at t ttl j (inflight_key R prefix k) body s m p,
            complete_server-get R prefix enc L net at t ttl j (result_key R prefix k) body s m p,
            same_inflight R prefix j k,
            same_result R prefix j k,
            eq_iff j k,
            inflight-ne-result R prefix j k,
            result-ne-inflight R prefix j k,
          )

      sent-IsDone :
          (k body : String) (deadline now at : ℤ) (net : Delivery) (c : Call) (s : R.Server)
          → now ≤ℤ at
          → pos 0 <ℤ milliseconds (ttl_of c)
          → IsOther k c
          → IsDone k body deadline now s
          → IsDone k body deadline at (sent R prefix enc (at, net, c) s)
      unfolding sent
      sent-IsDone k body deadline now at net (claims j ttl) s l p o held t m b = ground (
        arith,
        held t (ground arith) b,
        claim_server-get R prefix enc L net at t ttl j (result_key R prefix k) s m p,
        inflight-ne-result R prefix j k,
      )
      sent-IsDone k body deadline now at net (completes j b' ttl) s l p o held t m b = ground (
        arith,
        held t (ground arith) b,
        complete_server-get R prefix enc L net at t ttl j (result_key R prefix k) b' s m p,
        same_result R prefix j k,
        eq_iff j k,
        inflight-ne-result R prefix j k,
      )

      pub sent_all-IsOpen :
          (k : String) (deadline now : ℤ) (cs : List Sent) (s : R.Server)
          → Sequence k now cs
          → IsOpen k deadline now s
          → IsOpen k deadline (last_time now cs) (sent_all R prefix enc cs s)
      unfolding sent_all
      sent_all-IsOpen k deadline now [] s q held = held
      sent_all-IsOpen k deadline now ((at, net, c) ∷ cs) s q held =
          sent_all-IsOpen k deadline at cs (sent R prefix enc (at, net, c) s) q.3
            (sent-IsOpen k deadline now at net c s q.0 q.1 q.2 held)

      pub sent_all-IsDone :
          (k body : String) (deadline now : ℤ) (cs : List Sent) (s : R.Server)
          → Sequence k now cs
          → IsDone k body deadline now s
          → IsDone k body deadline (last_time now cs) (sent_all R prefix enc cs s)
      unfolding sent_all
      sent_all-IsDone k body deadline now [] s q held = held
      sent_all-IsDone k body deadline now ((at, net, c) ∷ cs) s q held =
          sent_all-IsDone k body deadline at cs (sent R prefix enc (at, net, c) s) q.3
            (sent-IsDone k body deadline now at net c s q.0 q.1 q.2 held)
