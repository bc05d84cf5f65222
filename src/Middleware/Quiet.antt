-- ===== src/Middleware/Quiet.antt =====
-- The layers of the handler of middleware/http.go do not call the wrapped handler.
use floodguard_rate_limiter.Prelude.{
  ℕ, ◌+◌, String, Bool, true, false, Option, none, some, List, [], ◌∷◌, ◌++◌, ◌≡◌, refl, arith,
  text_eq, Bool-cases, inl, inr,
}
use floodguard_rate_limiter.Prelude.Int.{ℤ}
use floodguard_rate_limiter.Errors.{
  Action, Bytes, Error, Result, ok, err, RejectReason, reject_ip_rate_limit, reject_rate_limit,
}
use floodguard_rate_limiter.RateLimit.{Limiter}
use floodguard_rate_limiter.Guard.{Guard, velocity_key}
use floodguard_rate_limiter.Idempotency.{begin}
use floodguard_rate_limiter.Velocity.{check}
use floodguard_rate_limiter.Middleware.{
  HttpRequest, Call, Trace, Event, served, Options, NextHandler, write_error, write_store_error,
  write_reject, called_all,
}
use floodguard_rate_limiter.Middleware.Handler.{
  Keys, require_key, judge_limit, limit_ip, limit_account, judge_claim, claim, judge_velocity,
  check_velocity, reject, store_error,
}

abbrev calls_next : Event → ℕ
calls_next (served r) = 1
calls_next _ = 0

-- How often the events call the wrapped handler.
abbrev pub served_in : List Event → ℕ
served_in [] = 0
served_in (e ∷ es) = calls_next e + served_in es

pub served_in-append : (es fs : List Event) → served_in (es ++ fs) ≡ served_in es + served_in fs
served_in-append [] fs = omega arith
served_in-append (e ∷ es) fs = omega (arith, served_in-append es fs)

pub served_in-called_all : (cs : List Call) → served_in (called_all cs) ≡ 0
served_in-called_all [] = refl
served_in-called_all (c ∷ cs) = omega (arith, served_in-called_all cs)

served_in-write_error : (n : ℕ) (m d : String) → served_in (write_error n m d) ≡ 0
unfolding write_error
served_in-write_error n m d = refl

served_in-write_store_error : (b : Bool) → served_in (write_store_error b) ≡ 0
unfolding write_store_error
served_in-write_store_error true = refl
served_in-write_store_error false = refl

served_in-write_reject : (r : RejectReason) (d : String) → served_in (write_reject r d) ≡ 0
unfolding write_reject
served_in-write_reject r d = refl

ruleset quiet = (
  arith, served_in-append, served_in-called_all, served_in-write_error, served_in-write_store_error,
  served_in-write_reject,
)

module _ {W : Type 0} (g : Guard W) (now : Action W ℤ) (opts : Options W) (next : NextHandler W)
    (k : Keys) where
  pub served_in-reject :
      (A : Type 0) (r : HttpRequest) (es : List Event) (why : RejectReason) (d : String) (w : W)
      → served_in es ≡ 0
      → served_in (reject g now opts next k {A = A} r es why d w).1 ≡ 0
  unfolding reject
  served_in-reject A r es why d w h = grind quiet

  pub served_in-store_error :
      (A : Type 0) (line : Error → Trace) (layer : String) (e : Error) (w : W)
      → served_in (store_error g now opts next k {A = A} line layer e w).1 ≡ 0
  unfolding store_error
  served_in-store_error A line layer e w = grind quiet

  pub served_in-require_key : (w : W) → served_in (require_key g now opts next k w).1 ≡ 0
  unfolding require_key
  served_in-require_key w = grind quiet

  served_in-judge_limit :
      (r : HttpRequest) (failed : Error → Trace) (denied passed : String → Trace)
      (reason key : String) (res : Result Bool) (w : W)
      → served_in (judge_limit g now opts next k r failed denied passed reason key res w).1 ≡ 0
  unfolding judge_limit
  served_in-judge_limit r failed denied passed reason key (err e) w = grind quiet
  served_in-judge_limit r failed denied passed reason key (ok true) w = refl
  served_in-judge_limit r failed denied passed reason key (ok false) w = grind quiet

  pub served_in-limit_ip :
      (r : HttpRequest) (l : Option (Limiter W)) (w : W)
      → served_in (limit_ip g now opts next k r l w).1 ≡ 0
  unfolding limit_ip
  served_in-limit_ip r none w = refl
  served_in-limit_ip r (some l) w = elim (Bool-cases (text_eq k.ip "")) [
    | inl e ↦ rw (e, limit_ip) refl
    | inr e ↦
        rw (e, limit_ip)
          (served_in-judge_limit r Trace.ip_error Trace.ip_rejected Trace.ip_passed
            reject_ip_rate_limit k.ip (l.allow r.context k.ip w).0 (l.allow r.context k.ip w).1)
  ]

  pub served_in-limit_account :
      (r : HttpRequest) (w : W) → served_in (limit_account g now opts next k r w).1 ≡ 0
  unfolding limit_account
  served_in-limit_account r w =
      served_in-judge_limit r Trace.account_error Trace.account_rejected Trace.account_passed
        reject_rate_limit k.account (g.rate.allow r.context k.account w).0
        (g.rate.allow r.context k.account w).1

  served_in-judge_claim :
      (res : Result (Bool × Bytes)) (w : W) → served_in (judge_claim g now opts next k res w).1 ≡ 0
  unfolding judge_claim
  served_in-judge_claim (err e) w = grind quiet
  served_in-judge_claim (ok (process, cached)) w = grind quiet

  pub served_in-claim : (r : HttpRequest) (w : W) → served_in (claim g now opts next k r w).1 ≡ 0
  unfolding claim
  served_in-claim r w = elim (Bool-cases (text_eq k.idem "")) [
    | inl e ↦ rw (e, claim) refl
    | inr e ↦
        let (res, w') = begin g.idempotency r.context k.idem w in
        rw (e, claim) (served_in-judge_claim res w')
  ]

  served_in-judge_velocity :
      (r : HttpRequest) (res : Result (Bool × String)) (w : W)
      → served_in (judge_velocity g now opts next k r res w).1 ≡ 0
  unfolding judge_velocity
  served_in-judge_velocity r (err e) w = grind quiet
  served_in-judge_velocity r (ok (true, why)) w = refl
  served_in-judge_velocity r (ok (false, why)) w = grind quiet

  pub served_in-check_velocity :
      (r : HttpRequest) (w : W) → served_in (check_velocity g now opts next k r w).1 ≡ 0
  unfolding check_velocity
  served_in-check_velocity r w =
      let (res, w') = check g.velocity now r.context (velocity_key k.account opts.action) w in
      served_in-judge_velocity r res w'
