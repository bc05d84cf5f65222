-- ===== src/Middleware/ProtectFunc.antt =====
-- `ProtectFunc` of middleware/http.go: Protect without HTTP, and a callback for the response.
use floodguard_rate_limiter.Prelude.{
  String, Bool, true, not, Option, none, some, [], ◌≡◌, refl, ◌≢◌, arith, text_eq, if◌then◌else◌,
  inl,
}
use floodguard_rate_limiter.Prelude.Int.{ℤ}
use floodguard_rate_limiter.Errors.{
  Action, Bytes, background, Result, ok, err, rejected, reject_cached,
}
use floodguard_rate_limiter.RateLimit.{Limiter}
use floodguard_rate_limiter.Idempotency
use floodguard_rate_limiter.Idempotency.{is_present}
use floodguard_rate_limiter.Guard.{Guard, Request, Outcome, protect, complete_idempotency}
use floodguard_rate_limiter.Guard.Duplicates.{protect_cached}
use floodguard_rate_limiter.Guard.Layers.{PassesIp, after_ip}

abbrev request_of : String → String → Request
request_of key idem = record { key = key; ip_key = ""; idempotency_key = idem; action = "" }

module _ {W : Type 0} (g : Guard W) (now : Action W ℤ) (key idem : String) where
  -- The callback that is returned.
  pub complete_func : Bytes → Action W (Unit {0})
  complete_func body w =
      if text_eq idem "" then (ok tt, w) else complete_idempotency g background idem body w

  -- What ProtectFunc makes of Protect's result.
  pub judge : Outcome → Result (Bytes → Action W (Unit {0}))
  judge o =
      if not o.allowed
      then err (rejected (record { reason = o.reason; cached = [] }))
      else if is_present o.cached_response
      then err (rejected (record { reason = reject_cached; cached = o.cached_response }))
      else ok complete_func

  pub protect_func : Action W (Bytes → Action W (Unit {0}))
  unfolding judge
  protect_func w =
      let protected = protect g now background (request_of key idem) w in
      elim protected.0 [ err e ↦ (err e, protected.1) | ok o ↦ (judge o, protected.1) ]

  skips_ip : (l : Option (Limiter W)) (w : W) → PassesIp l background "" w
  skips_ip none w = tt
  skips_ip (some l) w = inl refl

  after_skipped : (l : Option (Limiter W)) (w : W) → after_ip l background "" w ≡ w
  after_skipped none w = refl
  after_skipped (some l) w = refl

  -- For a key and an idempotency key that are not empty, when the account limiter admits the key
  -- and the idempotency manager answers with a response that is not empty, ProtectFunc returns a
  -- RejectedError with the reason "cached" and no cached response in it.
  pub protect_func_loses_cached :
      (w : W) (process : Bool) (body : Bytes)
      → key ≢ ""
      → idem ≢ ""
      → (g.rate.allow background key w).0 ≡ ok true
      → (Idempotency.begin g.idempotency background idem (g.rate.allow background key w).1).0
        ≡ ok (process, body)
      → is_present body ≡ true
      → (protect_func w).0 ≡ err (rejected (record { reason = reject_cached; cached = [] }))
  unfolding protect_func judge
  protect_func_loses_cached w process body n i a b p =
      let e = after_skipped g.ip_rate w in
      let stored =
        protect_cached g now background (request_of key idem) w n i (skips_ip g.ip_rate w) (rw e a)
          process body (rw e b) p in
      ground (arith, stored)
