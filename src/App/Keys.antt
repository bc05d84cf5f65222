-- ===== src/App/Keys.antt =====
-- The keys that the stores of example/app/app.go share in Redis.
use floodguard_rate_limiter.Prelude.{
  ap, sym, subst, ◌∙◌, String, str_append, Bool, some, ◌≡◌, ◌≢◌, arith, eq_iff, Bool-cases, inl,
  inr,
}
use floodguard_rate_limiter.Prelude.Int.{ℤ, pos, ◌+ℤ◌, ◌≤ℤ◌, ◌<ℤ◌, leb_ℤ}
use text.Mathlib.TextLemmas.{append_assoc}
use floodguard_rate_limiter.Redis.{delivered, Strings, StringLaws}
use floodguard_rate_limiter.Errors.{ok}
use floodguard_rate_limiter.Config.{Parsers, Config}
use floodguard_rate_limiter.App.{Stores, new_stores}
use floodguard_rate_limiter.Idempotency.{replay}
use floodguard_rate_limiter.Idempotency.Redis.{
  Encoding, result_key, redis_claim, claim_script, claim_result,
}
use floodguard_rate_limiter.Lock.Redis.{RedisLock, redis_key, redis_acquire}

new_stores_prefix :
    (P : Parsers) (has_client : Bool) (cfg : Config P) (st : Stores)
    → cfg.redis.key_prefix ≢ ""
    → new_stores P has_client cfg ≡ ok st
    → (st.idempotency_prefix ≡ cfg.redis.key_prefix) × (st.lock_prefix ≡ cfg.redis.key_prefix)
unfolding new_stores
new_stores_prefix P has_client cfg st n h = ground (arith, eq_iff cfg.redis.key_prefix "")

module _ (R : Strings) (L : StringLaws R) where
  lock_on_result :
      (prefix key : String)
      → redis_key R prefix (str_append "result:" key) ≡ result_key R prefix key
  unfolding redis_key result_key
  lock_on_result prefix key = ap (λ x. str_append prefix x) (sym (append_assoc ":" "result:" key))

  -- A granted lock has its token at the lock's key.
  get-acquired :
      (prefix resource token : String) (now t ttl : ℤ) (l : RedisLock) (s : R.Server)
      → (redis_acquire R prefix now delivered (ok token) resource ttl s).0 ≡ ok l
      → now ≤ℤ t
      → t <ℤ now +ℤ ttl
      → R.get t
          (redis_key R prefix resource)
          (redis_acquire R prefix now delivered (ok token) resource ttl s).1
        ≡ some token
  unfolding redis_acquire
  get-acquired prefix resource token now t ttl l s h le lt =
      let key = redis_key R prefix resource in
      elim (Bool-cases (leb_ℤ ttl (pos 0))) [
        | inl b ↦ ground arith
        | inr b ↦
            let p : pos 0 <ℤ ttl = ground arith in
            ground (
              arith,
              eq_iff key key,
              L.set_nx_lem now ttl key token s p,
              L.get-set now t ttl key key token s le p,
            )
      ]

  claim_done :
      (enc : Encoding) (prefix key body : String) (now ttl : ℤ) (s : R.Server)
      → key ≢ ""
      → R.get now (result_key R prefix key) s ≡ some body
      → (redis_claim R prefix enc now delivered key ttl s).0 ≡ ok (replay (enc.decode body))
  unfolding redis_claim claim_result claim_script
  claim_done enc prefix key body now ttl s n r = ground (arith, eq_iff key "")

  -- With the stores that the example's New builds with a key prefix that is not empty, over a
  -- server that keeps to the documented laws of strings: when a lock on the resource result:k is
  -- granted, a delivered claim of the idempotency key k, which is not empty, before the lock's ttl
  -- is over gets the lock's token as the stored response.
  pub lock_read_as_result :
      (P : Parsers) (has_client : Bool) (cfg : Config P) (st : Stores) (enc : Encoding)
      (key token : String) (now later ttl ttl' : ℤ) (l : RedisLock) (s : R.Server)
      → cfg.redis.key_prefix ≢ ""
      → new_stores P has_client cfg ≡ ok st
      → key ≢ ""
      → (redis_acquire R st.lock_prefix now delivered (ok token) (str_append "result:" key) ttl s).0
        ≡ ok l
      → now ≤ℤ later
      → later <ℤ now +ℤ ttl
      → (redis_claim R st.idempotency_prefix enc later delivered key ttl'
          (redis_acquire R st.lock_prefix now delivered
            (ok token)
            (str_append "result:" key)
            ttl
            s).1).0
        ≡ ok (replay (enc.decode token))
  lock_read_as_result P has_client cfg st enc key token now later ttl ttl' l s f made n h le lt =
      let (i, k) = new_stores_prefix P has_client cfg st f made in
      let resource = str_append "result:" key in
      let s' = (redis_acquire R st.lock_prefix now delivered (ok token) resource ttl s).1 in
      let held = get-acquired st.lock_prefix resource token now later ttl l s h le lt in
      let same : redis_key R st.lock_prefix resource ≡ result_key R st.idempotency_prefix key =
        lock_on_result st.lock_prefix key ∙ ap (λ p. result_key R p key) (k ∙ sym i) in
      claim_done enc st.idempotency_prefix key token later ttl' s' n
        (subst (λ (x : String). R.get later x s' ≡ some token) same held)
