-- ===== src/Guard.antt =====
-- floodguard.go and velocity_key.go: the Guard, over any world `W` that its limiters, stores and lock
-- client act on, and the pipeline of `Protect`.
pub mod Layers
pub mod Duplicates
use floodguard_rate_limiter.Prelude.{
  String, str_append, Bool, true, false, Option, none, some, [], text_eq, if◌then◌else◌,
}
use floodguard_rate_limiter.Prelude.Int.{ℤ}
use floodguard_rate_limiter.Errors.{
  Action, Bytes, Context, Error, Result, ok, err, sentinel, wrap, Sentinel, RejectReason,
  reject_ip_rate_limit, reject_rate_limit, reject_velocity, reject_cached, key_required,
  duplicate_in_flight_error, is_error, ◌>>=◌, ◌>>◌, pure, wrapping, fail_if,
}
use floodguard_rate_limiter.RateLimit.{Limiter}
use floodguard_rate_limiter.Idempotency
use floodguard_rate_limiter.Idempotency.{is_present}
use floodguard_rate_limiter.Lock
use floodguard_rate_limiter.Velocity

pub record Request : Type 0 where
  pub key : String
  pub ip_key : String
  pub idempotency_key : String
  pub action : String

-- `floodguard.Result`
pub record Outcome : Type 0 where
  pub allowed : Bool
  pub reason : RejectReason
  pub cached_response : Bytes

abbrev pub allow : Outcome
allow = record { allowed = true; reason = ""; cached_response = [] }

abbrev pub deny : RejectReason → Outcome
deny why = record { allowed = false; reason = why; cached_response = [] }

-- `VelocityKey`
unfoldable pub velocity_key : String → String → String
velocity_key key action = if text_eq action "" then key else str_append key (str_append ":" action)

pub record Guard (W : Type 0) : Type 0 where
  pub ip_rate : Option (Limiter W)
  pub rate : Limiter W
  pub idempotency : Idempotency.Manager W
  pub lock : Lock.Manager W
  pub velocity : Velocity.Engine W

abbrev pub unless_allowed : RejectReason → Bool → Option Outcome
unless_allowed why allowed = if allowed then none else some (deny why)

-- The error of a claim that failed.
abbrev pub claim_error : Error → Error
claim_error e =
    if is_error e Sentinel.in_flight
    then duplicate_in_flight_error (some e)
    else wrap "floodguard: idempotency" e

-- What Protect makes of (process, cached).
unfoldable pub judge_claim : Bool × Bytes → Result (Option Outcome)
judge_claim (process, cached) =
    if is_present cached
    then ok (some (record { allowed = false; reason = reject_cached; cached_response = cached }))
    else if process
    then ok none
    else err (duplicate_in_flight_error (some (sentinel Sentinel.in_flight)))

-- The configuration, with its optional limiters.
pub record Config (W : Type 0) : Type 0 where
  pub ip_rate_limiter : Option (Limiter W)
  pub rate_limiter : Option (Limiter W)
  pub idempotency : Idempotency.Config W
  pub lock : Lock.Config W
  pub velocity : Velocity.Config W

-- The in-memory parts that the constructors make where the configuration names none.
pub record InMemory (W : Type 0) : Type 0 where
  pub token_bucket : Limiter W
  pub idempotency_store : Idempotency.Store W
  pub lock_client : Lock.Client W
  pub velocity_store : Velocity.Store W

module _ {W : Type 0} where
  -- `New`
  unfoldable pub new : Velocity.Format → InMemory W → Config W → Guard W
  new f memory cfg = record {
    ip_rate = cfg.ip_rate_limiter;
    rate = elim cfg.rate_limiter [ none ↦ memory.token_bucket | some l ↦ l ];
    idempotency = Idempotency.new_manager memory.idempotency_store cfg.idempotency;
    lock = Lock.new_manager memory.lock_client cfg.lock;
    velocity = Velocity.new_engine f memory.velocity_store cfg.velocity;
  }

  -- An early return, or what follows.
  abbrev pub or_continue : Option Outcome → Action W Outcome → Action W Outcome
  or_continue none k w = k w
  or_continue (some o) k w = (ok o, w)

  -- Layer 1, which a nil limiter or an empty IP key skips.
  unfoldable pub check_ip : Option (Limiter W) → Context → String → Action W (Option Outcome)
  check_ip none ctx ip_key w = (ok none, w)
  check_ip (some l) ctx ip_key w =
      let checked = wrapping "floodguard: ip rate limit" (l.allow ctx ip_key) w in
      if text_eq ip_key "" then (ok none, w) else elim checked.0 [
        | err e ↦ (err e, checked.1)
        | ok allowed ↦ (ok (unless_allowed reject_ip_rate_limit allowed), checked.1)
      ]

  -- Layer 2.
  unfoldable pub check_account : Limiter W → Context → String → Action W (Option Outcome)
  check_account l ctx key = do
    allowed ← wrapping "floodguard: rate limit" (l.allow ctx key)
    pure (unless_allowed reject_rate_limit allowed)

  -- Layer 3, which an empty idempotency key skips.
  unfoldable pub check_idempotency :
      Idempotency.Manager W → Context → String → Action W (Option Outcome)
  unfolding judge_claim
  check_idempotency m ctx key w =
      let claimed = Idempotency.begin m ctx key w in
      if text_eq key "" then (ok none, w) else elim claimed.0 [
        | err e ↦ (err (claim_error e), claimed.1)
        | ok r ↦ (judge_claim r, claimed.1)
      ]

  -- Layer 4.
  unfoldable pub check_velocity :
      Velocity.Engine W → Action W ℤ → Context → String → Action W (Option Outcome)
  check_velocity e now ctx key = do
    (allowed, why) ← wrapping "floodguard: velocity" (Velocity.check e now ctx key)
    pure (unless_allowed reject_velocity allowed)

  -- `Guard.Protect`; `now` reads the clock.
  unfoldable pub protect : Guard W → Action W ℤ → Context → Request → Action W Outcome
  protect g now ctx req = do
    fail_if (text_eq req.key "") (sentinel key_required)
    ip ← check_ip g.ip_rate ctx req.ip_key
    or_continue ip do
      account ← check_account g.rate ctx req.key
      or_continue account do
        claimed ← check_idempotency g.idempotency ctx req.idempotency_key
        or_continue claimed do
          flagged ← check_velocity g.velocity now ctx (velocity_key req.key req.action)
          or_continue flagged (pure allow)

  -- `Guard.CompleteIdempotency`
  unfoldable pub complete_idempotency : Guard W → Context → String → Bytes → Action W (Unit {0})
  complete_idempotency g ctx key response =
      wrapping "floodguard: complete idempotency"
        (Idempotency.complete g.idempotency ctx key response)

  -- `Guard.WithLock`
  unfoldable pub with_lock :
      Guard W → Context → String → Option (Context → Action W (Unit {0})) → Action W (Unit {0})
  with_lock g ctx key fn = wrapping "floodguard: with lock" (Lock.with_lock g.lock ctx key fn)

  -- `Guard.TryLock`
  unfoldable pub try_lock : Guard W → Context → String → Action W (Action W (Unit {0}))
  try_lock g ctx key = wrapping "floodguard: try lock" (Lock.try_acquire g.lock ctx key)
