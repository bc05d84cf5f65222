-- ===== src/Idempotency/RedisHistory.antt =====
-- Histories of calls of the Redis idempotency store of idempotency/redis.go.
use floodguard_rate_limiter.Prelude.{
  String, none, some, List, [], ◌∷◌, ◌≡◌, refl, ◌≢◌, arith, text_eq, if◌then◌else◌, inl, inr, ◌⊎◌,
}
use floodguard_rate_limiter.Prelude.Int.{ℤ, pos, ◌+ℤ◌, ◌≤ℤ◌, ◌<ℤ◌, ltb_ℤ}
use floodguard_rate_limiter.Prelude.Int.{milliseconds}
use floodguard_rate_limiter.Redis.{
  Delivery, delivered, lost_request, lost_reply, Strings, StringLaws,
}
use floodguard_rate_limiter.Errors.{Bytes}
use floodguard_rate_limiter.Idempotency.Redis.{
  Encoding, inflight_key, result_key, claim_script, done_script, redis_claim, redis_complete,
}

-- One call of the store: a claim or a completion.
pub data Call : Type 0 where
  claims : String → ℤ → Call
  completes : String → Bytes → ℤ → Call

-- A call made at a time, and what becomes of it on the network.
abbrev pub Sent : Type 0
Sent = ℤ × Delivery × Call

abbrev pub ttl_of : Call → ℤ
ttl_of (claims key ttl) = ttl
ttl_of (completes key response ttl) = ttl

abbrev pub IsOther : String → Call → Type 0
IsOther k (claims key ttl) = Unit {0}
IsOther k (completes key response ttl) = key ≢ k

-- The calls are in the order of time, with ttls of a millisecond or more, and none completes `k`.
abbrev pub Sequence : String → ℤ → List Sent → Type 0
Sequence k now [] = Unit {0}
Sequence k now ((at, net, c) ∷ cs) =
    (now ≤ℤ at) × (pos 0 <ℤ milliseconds (ttl_of c)) × IsOther k c × Sequence k at cs

-- The time of the last call, or the time before them all.
abbrev pub last_time : ℤ → List Sent → ℤ
last_time now [] = now
last_time now ((at, net, c) ∷ cs) = last_time at cs

module _ (R : Strings) (prefix : String) where
  module _ (enc : Encoding) where
    unfoldable pub sent : Sent → R.Server → R.Server
    sent (at, net, claims key ttl) s = (redis_claim R prefix enc at net key ttl s).1
    sent (at, net, completes key response ttl) s =
        (redis_complete R prefix enc at net key response ttl s).1

    unfoldable pub sent_all : List Sent → R.Server → R.Server
    unfolding sent
    sent_all [] s = s
    sent_all (c ∷ cs) s = sent_all cs (sent c s)

    module _ (L : StringLaws R) where
      -- Each key after the scripts.
      pub get-claim :
          (now t ttl : ℤ) (j other : String) (s : R.Server)
          → now ≤ℤ t
          → pos 0 <ℤ ttl
          → let s' =
              (claim_script R prefix now
                (inflight_key R prefix j)
                (result_key R prefix j)
                ttl
                s).1 in
            R.get t other s' ≡ elim (R.get now (result_key R prefix j) s) [
              | some cached ↦ R.get t other s
              | none ↦ elim (R.get now (inflight_key R prefix j) s) [
                | some u ↦ R.get t other s
                | none ↦
                    if text_eq (inflight_key R prefix j) other
                    then (if ltb_ℤ t (now +ℤ ttl) then some "1" else none)
                    else R.get t other s
              ]
            ]
      unfolding claim_script
      get-claim now t ttl j other s l p = ground (
        arith,
        L.set_nx_lem now ttl (inflight_key R prefix j) "1" s p,
        L.get-set now t ttl (inflight_key R prefix j) other "1" s l p,
      )

      pub get-done :
          (now t ttl : ℤ) (j other body : String) (s : R.Server)
          → now ≤ℤ t
          → pos 0 <ℤ ttl
          → let s' =
              (done_script R prefix now
                (inflight_key R prefix j)
                (result_key R prefix j)
                ttl
                body
                s).1 in
            R.get t other s' ≡ (
              if text_eq (inflight_key R prefix j) other
              then none
              else if text_eq (result_key R prefix j) other
              then (if ltb_ℤ t (now +ℤ ttl) then some body else none)
              else R.get t other s)
      unfolding done_script
      get-done now t ttl j other body s l p = ground (
        arith,
        L.get-set now t ttl (result_key R prefix j) other body s l p,
        L.get-del now t (inflight_key R prefix j) other
            (R.set now (result_key R prefix j) body ttl s) l,
      )

      pub claim_server-get :
          (net : Delivery) (at t ttl : ℤ) (j other : String) (s : R.Server)
          → at ≤ℤ t
          → pos 0 <ℤ milliseconds ttl
          → let s' = (redis_claim R prefix enc at net j ttl s).1 in
            (R.get t other s' ≡ R.get t other s)
            ⊎ ((R.get at (result_key R prefix j) s ≡ none)
                × (R.get at (inflight_key R prefix j) s ≡ none)
                × (R.get t other s' ≡ (
                    if text_eq (inflight_key R prefix j) other
                    then (if ltb_ℤ t (at +ℤ milliseconds ttl) then some "1" else none)
                    else R.get t other s)))
      unfolding redis_claim
      claim_server-get delivered at t ttl j other s l p =
          ground (arith, get-claim at t (milliseconds ttl) j other s l p)
      claim_server-get (lost_request e) at t ttl j other s l p = ground arith
      claim_server-get (lost_reply e) at t ttl j other s l p =
          ground (arith, get-claim at t (milliseconds ttl) j other s l p)

      pub complete_server-get :
          (net : Delivery) (at t ttl : ℤ) (j other : String) (body : Bytes) (s : R.Server)
          → at ≤ℤ t
          → pos 0 <ℤ milliseconds ttl
          → let s' = (redis_complete R prefix enc at net j body ttl s).1 in
            (R.get t other s' ≡ R.get t other s)
            ⊎ (R.get t other s' ≡ (
                if text_eq (inflight_key R prefix j) other
                then none
                else if text_eq (result_key R prefix j) other
                then (if ltb_ℤ t (at +ℤ milliseconds ttl) then some (enc.encode body) else none)
                else R.get t other s))
      unfolding redis_complete
      complete_server-get delivered at t ttl j other body s l p =
          inr (get-done at t (milliseconds ttl) j other (enc.encode body) s l p)
      complete_server-get (lost_request e) at t ttl j other body s l p = inl refl
      complete_server-get (lost_reply e) at t ttl j other body s l p =
          inr (get-done at t (milliseconds ttl) j other (enc.encode body) s l p)
