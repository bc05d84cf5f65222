-- ===== src/Guard/Duplicates.antt =====
-- Guard.Protect of floodguard.go on a request whose idempotency key is in use, and the tests of
-- errors.go on the errors that it returns.
use floodguard_rate_limiter.Prelude.{Bool, true, false, some, ◌≡◌, refl, ◌≢◌, arith, eq_iff}
use floodguard_rate_limiter.Prelude.Int.{ℤ}
use floodguard_rate_limiter.Errors.{
  Action, Bytes, Context, Error, Result, ok, err, Sentinel, is_error, duplicate_in_flight_error,
  reject_cached,
}
use floodguard_rate_limiter.Idempotency
use floodguard_rate_limiter.Idempotency.{is_present}
use floodguard_rate_limiter.Guard.{Guard, Request, Outcome, protect, check_idempotency}
use floodguard_rate_limiter.Guard.Layers.{
  PassesIp, after_ip, check_ip-none, check_ip-after, check_account-none, check_account-after,
  check_idempotency-after,
}

module _ {W : Type 0} (g : Guard W) (now : Action W ℤ) (ctx : Context) (req : Request) (w : W)
    (named : req.key ≢ "") (keyed : req.idempotency_key ≢ "")
    (ip : PassesIp g.ip_rate ctx req.ip_key w)
    (account : (g.rate.allow ctx req.key (after_ip g.ip_rate ctx req.ip_key w)).0 ≡ ok true) where
  -- What the idempotency manager is asked.
  abbrev begun : Result (Bool × Bytes) × W
  begun =
      Idempotency.begin g.idempotency ctx req.idempotency_key
        (g.rate.allow ctx req.key (after_ip g.ip_rate ctx req.ip_key w)).1

  -- Past the limiters, a request goes on to its claim.
  protect-stops :
      (s : Outcome)
      → (check_idempotency g.idempotency ctx req.idempotency_key
          (g.rate.allow ctx req.key (after_ip g.ip_rate ctx req.ip_key w)).1).0
        ≡ ok (some s)
      → protect g now ctx req w ≡ (ok s, begun.1)
  unfolding protect
  protect-stops s h =
      let w₁ = after_ip g.ip_rate ctx req.ip_key w in
      let w₂ = (g.rate.allow ctx req.key w₁).1 in
      ground (
        arith,
        eq_iff req.key "",
        eq_iff req.idempotency_key "",
        (check_ip-none g.ip_rate ctx req.ip_key w).1 ip,
        check_ip-after g.ip_rate ctx req.ip_key w,
        (check_account-none g.rate ctx req.key w₁).1 account,
        check_account-after g.rate ctx req.key w₁,
        check_idempotency-after g.idempotency ctx req.idempotency_key w₂,
      )

  protect-fails :
      (e : Error)
      → (check_idempotency g.idempotency ctx req.idempotency_key
          (g.rate.allow ctx req.key (after_ip g.ip_rate ctx req.ip_key w)).1).0
        ≡ err e
      → protect g now ctx req w ≡ (err e, begun.1)
  unfolding protect
  protect-fails e h =
      let w₁ = after_ip g.ip_rate ctx req.ip_key w in
      let w₂ = (g.rate.allow ctx req.key w₁).1 in
      ground (
        arith,
        eq_iff req.key "",
        eq_iff req.idempotency_key "",
        (check_ip-none g.ip_rate ctx req.ip_key w).1 ip,
        check_ip-after g.ip_rate ctx req.ip_key w,
        (check_account-none g.rate ctx req.key w₁).1 account,
        check_account-after g.rate ctx req.key w₁,
        check_idempotency-after g.idempotency ctx req.idempotency_key w₂,
      )

  -- For a request whose key and idempotency key are not empty and which passes the limiters, when
  -- the idempotency manager answers with an error that errors.Is finds to be
  -- idempotency.ErrInFlight, Protect returns an error that errors.Is finds to be
  -- ErrDuplicateInFlight and also idempotency.ErrInFlight, and leaves the world as the claim left
  -- it.
  protect_in_flight :
      (e : Error)
      → begun.0 ≡ err e
      → is_error e Sentinel.in_flight ≡ true
      → (x : Error) × (protect g now ctx req w ≡ (err x, begun.1))
        × (is_error x Sentinel.duplicate_in_flight ≡ true)
        × (is_error x Sentinel.in_flight ≡ true)
  unfolding check_idempotency duplicate_in_flight_error is_error
  protect_in_flight e h i = (
    duplicate_in_flight_error (some e),
    protect-fails (duplicate_in_flight_error (some e))
        (ground (arith, eq_iff req.idempotency_key "")),
    refl,
    i,
  )

  -- For a request whose key and idempotency key are not empty and which passes the limiters, when
  -- the idempotency manager answers with a response that is not empty, Protect denies the request
  -- with the reason "cached" and that response, and leaves the world as the claim left it.
  pub protect_cached :
      (process : Bool) (body : Bytes)
      → begun.0 ≡ ok (process, body)
      → is_present body ≡ true
      → protect g now ctx req w
        ≡ (ok (record { allowed = false; reason = reject_cached; cached_response = body }), begun.1)
  unfolding check_idempotency
  protect_cached process body h p =
      protect-stops (record { allowed = false; reason = reject_cached; cached_response = body })
        (ground (arith, eq_iff req.idempotency_key ""))
