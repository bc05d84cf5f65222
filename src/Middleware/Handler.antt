-- ===== src/Middleware/Handler.antt =====
-- The handler that `Handler` of middleware/http.go returns, layer by layer.
use floodguard_rate_limiter.Prelude.{
  String, Bool, true, false, not, Option, none, some, List, [], ◌∷◌, ◌++◌, text_eq, if◌then◌else◌,
  ◌||◌, ◌&&◌,
}
use floodguard_rate_limiter.Prelude.Int.{ℤ}
use floodguard_rate_limiter.Errors.{
  Action, Bytes, Error, Result, ok, err, Sentinel, RejectReason, reject_ip_rate_limit,
  reject_rate_limit, reject_velocity, is_error, is_duplicate_in_flight,
}
use floodguard_rate_limiter.RateLimit.{Limiter}
use floodguard_rate_limiter.Idempotency
use floodguard_rate_limiter.Idempotency.{is_present}
use floodguard_rate_limiter.Velocity
use floodguard_rate_limiter.Guard.{Guard, velocity_key}
use floodguard_rate_limiter.Middleware.{
  HttpRequest, set_header, write_header, write, AuditReason, literal, error_text, Trace, Event,
  traced, audited, blocked, flagged, called, Options, NextHandler, Run, ◌>>=◌, ◌>>◌, emit, continue,
  return_after, perform, is_false, write_error, write_store_error, write_reject, called_all,
}

-- The keys of a request, read at the start.
pub record Keys : Type 0 where
  pub ip : String
  pub account : String
  pub lock : String
  pub idem : String

module _ {W : Type 0} (g : Guard W) (now : Action W ℤ) (opts : Options W)
    (next : NextHandler W) where
  -- `lockKey`
  abbrev pub lock_key : HttpRequest → String
  lock_key r = elim opts.lock_key_func [ none ↦ opts.key_func r | some f ↦ f r ]

  abbrev pub keys_of : HttpRequest → Keys
  keys_of r = record {
    ip = opts.ip_key_func r;
    account = opts.key_func r;
    lock = lock_key r;
    idem = opts.idempotency_key_func r;
  }

  -- `failClosed` and `blockOnVelocity`: true unless set to false.
  abbrev pub fail_closed : Bool
  fail_closed = not (is_false opts.fail_closed)

  abbrev pub block_on_velocity : Bool
  block_on_velocity = not (is_false opts.block_on_velocity)

  module _ (k : Keys) where
    -- `audit`
    unfoldable pub audit : String → String → AuditReason → List Event
    audit layer decision reason =
        if opts.has_audit
        then audited (record {
          layer = layer;
          decision = decision;
          reason = reason;
          account_id = k.account;
          ip = k.ip;
          idem_key = k.idem;
          action = opts.action;
        })
          ∷ []
        else []

    -- `block` and then `writeReject`.
    unfoldable pub reject :
        {A : Type 0} → HttpRequest → List Event → RejectReason → String → Run W A
    reject r before reason detail w = elim opts.on_blocked [
      | none ↦ (none, before ++ write_reject reason detail, w)
      | some callback ↦
          let (calls, w') = callback r reason w in
          (none, before ++ blocked reason ∷ called_all calls ++ write_reject reason detail, w')
    ]

    -- An error of a shared store: trace, audit, `writeStoreError`.
    unfoldable pub store_error : {A : Type 0} → (Error → Trace) → String → Error → Run W A
    unfolding audit
    store_error line layer e =
        return_after
          (traced (line e) ∷ audit layer "reject" (error_text e) ++ write_store_error fail_closed)

    -- The test before the layers.
    unfoldable pub require_key : Run W (Unit {0})
    unfolding audit
    require_key =
        if opts.require_idempotency_key && text_eq k.idem ""
        then return_after (
            audit "idempotency" "reject" (literal "missing idempotency key")
            ++ write_error 400 "Idempotency-Key required" "")
        else emit []

    -- What a limiter's answer leads to, in layers 1 and 2.
    unfoldable pub judge_limit :
        HttpRequest
        → (Error → Trace)
        → (String → Trace)
        → (String → Trace)
        → String
        → String
        → Result Bool
        → Run W (Unit {0})
    unfolding store_error reject audit
    judge_limit r failed denied passed reason key (err e) = store_error failed reason e
    judge_limit r failed denied passed reason key (ok false) =
        reject r (traced (denied key) ∷ audit reason "reject" (literal "limit exceeded")) reason ""
    judge_limit r failed denied passed reason key (ok true) = emit (traced (passed key) ∷ [])

    -- Layer 1.
    unfoldable pub limit_ip : HttpRequest → Option (Limiter W) → Run W (Unit {0})
    unfolding judge_limit
    limit_ip r none = emit []
    limit_ip r (some l) =
        let limited = do
          allowed ← perform (l.allow r.context k.ip)
          judge_limit r Trace.ip_error Trace.ip_rejected Trace.ip_passed reject_ip_rate_limit k.ip
              allowed
        in if text_eq k.ip "" then emit [] else limited

    -- Layer 2.
    unfoldable pub limit_account : HttpRequest → Run W (Unit {0})
    unfolding judge_limit
    limit_account r = do
      allowed ← perform (g.rate.allow r.context k.account)
      judge_limit r Trace.account_error Trace.account_rejected Trace.account_passed
          reject_rate_limit k.account allowed

    abbrev conflict : (String → Trace) → List Event
    conflict line = traced (line k.idem) ∷ write_error 409 "request already in progress" ""

    -- What the idempotency manager's answer leads to.
    unfoldable pub judge_claim : Result (Bool × Bytes) → Run W (Unit {0})
    unfolding store_error audit
    judge_claim (err e) =
        if is_error e Sentinel.in_flight || is_duplicate_in_flight e
        then return_after (conflict Trace.in_flight)
        else store_error Trace.idempotency_error "idempotency" e
    judge_claim (ok (process, cached)) =
        if is_present cached
        then return_after (
            traced (Trace.replayed k.idem)
              ∷ audit "idempotency" "replay" (literal "cached response")
            ++ called (set_header "Content-Type" "application/json")
              ∷ called (set_header "X-Floodguard-Layer" "idempotency-replay")
              ∷ called (set_header "X-Idempotent-Replay" "true")
              ∷ called (write_header 200)
              ∷ called (write cached)
              ∷ [])
        else if process
        then emit (traced (Trace.claimed k.idem) ∷ [])
        else return_after (conflict Trace.duplicate)

    -- Layer 3.
    unfoldable pub claim : HttpRequest → Run W (Unit {0})
    unfolding judge_claim
    claim r =
        let claimed = do
          res ← perform (Idempotency.begin g.idempotency r.context k.idem)
          judge_claim res
        in if text_eq k.idem "" then emit [] else claimed

    -- The callback of a flagged request that is not blocked; it may change the request.
    unfoldable pub flag : HttpRequest → String → Run W HttpRequest
    flag r why w = elim opts.on_velocity_flag [
      | none ↦ (some r, [], w)
      | some callback ↦
          let (r', calls, w') = callback r why w in (some r', flagged why ∷ called_all calls, w')
    ]

    abbrev velocity_name : String
    velocity_name = velocity_key k.account opts.action

    -- What the velocity engine's answer leads to: the request for the handler.
    unfoldable pub judge_velocity : HttpRequest → Result (Bool × String) → Run W HttpRequest
    unfolding store_error reject audit flag
    judge_velocity r (err e) = store_error Trace.velocity_error "velocity" e
    judge_velocity r (ok (true, why)) = do
      emit (traced (Trace.velocity_passed velocity_name) ∷ [])
      continue r
    judge_velocity r (ok (false, why)) =
        let noted =
          traced (Trace.velocity_rejected velocity_name why)
          ∷ audit "velocity" "flag" (literal why) in
        let go_on = do
          emit noted
          r' ← flag r why
          emit (traced (Trace.velocity_passed velocity_name) ∷ [])
          continue r'
        in if block_on_velocity then reject r noted reject_velocity why else go_on

    -- Layer 4.
    unfoldable pub check_velocity : HttpRequest → Run W HttpRequest
    unfolding judge_velocity
    check_velocity r = do
      res ← perform (Velocity.check g.velocity now r.context velocity_name)
      judge_velocity r res
