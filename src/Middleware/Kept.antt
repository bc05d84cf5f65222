-- ===== src/Middleware/Kept.antt =====
-- The layers of the handler of middleware/http.go keep what the parts of the guard keep.
use floodguard_rate_limiter.Prelude.{
  String, Bool, true, false, Option, none, some, ◌∷◌, ◌≡◌, arith, sym, subst, text_eq, Option-cases,
  Bool-cases, inl, inr, List,
}
use floodguard_rate_limiter.Prelude.Int.{ℤ}
use floodguard_rate_limiter.Errors.{
  reject_ip_rate_limit, reject_rate_limit, reject_velocity, Action, Bytes, Error, Result, ok, err,
  RejectReason,
}
use floodguard_rate_limiter.RateLimit.{Limiter}
use floodguard_rate_limiter.Idempotency
use floodguard_rate_limiter.Velocity
use floodguard_rate_limiter.Guard.{Guard, velocity_key}
use floodguard_rate_limiter.Middleware.{
  HttpRequest, literal, traced, Trace, Event, Options, NextHandler,
}
use floodguard_rate_limiter.Middleware.Handler.{
  Keys, audit, require_key, judge_limit, limit_ip, limit_account, judge_claim, claim,
  judge_velocity, check_velocity, flag, reject, store_error,
}
use floodguard_rate_limiter.Middleware.Keeps.{Keeps, GuardKeeps}

module _ {W : Type 0} (g : Guard W) (now : Action W ℤ) (opts : Options W) (next : NextHandler W)
    (P : W → Type 0) (keeps : GuardKeeps P g now opts) where
  module _ (k : Keys) where
    pub reject-Keeps :
        (A : Type 0) (r : HttpRequest) (es : List Event) (why : RejectReason) (d : String)
        → Keeps P (reject g now opts next k {A = A} r es why d)
    unfolding reject
    reject-Keeps A r es why d = record {
      at = λ w h. elim (Option-cases opts.on_blocked) [
        | inl e ↦ rw (e, reject) h
        | inr (f, e) ↦ rw (e, reject) (keeps.blocks f e r why w h)
      ];
    }

    pub store_error-Keeps :
        (A : Type 0) (line : Error → Trace) (layer : String) (e : Error)
        → Keeps P (store_error g now opts next k {A = A} line layer e)
    unfolding store_error
    store_error-Keeps A line layer e = record { at = λ w h. h }

    pub require_key-Keeps : Keeps P (require_key g now opts next k)
    unfolding require_key
    require_key-Keeps = record { at = λ w h. ground (arith, h) }

    judge_limit-Keeps :
        (r : HttpRequest) (failed : Error → Trace) (denied passed : String → Trace)
        (reason key : String) (res : Result Bool)
        → Keeps P (judge_limit g now opts next k r failed denied passed reason key res)
    unfolding judge_limit
    judge_limit-Keeps r failed denied passed reason key (err e) =
        store_error-Keeps (Unit {0}) failed reason e
    judge_limit-Keeps r failed denied passed reason key (ok true) = record { at = λ w h. h }
    judge_limit-Keeps r failed denied passed reason key (ok false) = record {
      at = λ w h.
          (reject-Keeps (Unit {0}) r
              (traced (denied key)
                ∷ audit g now opts next k reason "reject" (literal "limit exceeded"))
              reason "").at
            w h;
    }

    pub limit_ip-Keeps :
        (r : HttpRequest) (l : Option (Limiter W))
        → g.ip_rate ≡ l
        → Keeps P (limit_ip g now opts next k r l)
    unfolding limit_ip
    limit_ip-Keeps r none e = record { at = λ w h. h }
    limit_ip-Keeps r (some l) e = record {
      at = λ w h. elim (Bool-cases (text_eq k.ip "")) [
        | inl b ↦ rw (b, limit_ip) h
        | inr b ↦
            let (res, w') = l.allow r.context k.ip w in
            rw (b, limit_ip)
              ((judge_limit-Keeps r Trace.ip_error Trace.ip_rejected Trace.ip_passed
                  reject_ip_rate_limit k.ip res).at
                w' (keeps.ip l e r.context k.ip w h))
      ];
    }

    pub limit_account-Keeps : (r : HttpRequest) → Keeps P (limit_account g now opts next k r)
    unfolding limit_account
    limit_account-Keeps r = record {
      at = λ w h.
          let (res, w') = g.rate.allow r.context k.account w in
          (judge_limit-Keeps r Trace.account_error Trace.account_rejected Trace.account_passed
              reject_rate_limit k.account res).at
            w' (keeps.account r.context k.account w h);
    }

    judge_claim-world :
        (res : Result (Bool × Bytes)) (w : W) → (judge_claim g now opts next k res w).2 ≡ w
    unfolding judge_claim store_error
    judge_claim-world (err e) w = ground arith
    judge_claim-world (ok (process, cached)) w = ground arith

    pub claim-Keeps : (r : HttpRequest) → Keeps P (claim g now opts next k r)
    unfolding claim
    claim-Keeps r = record {
      at = λ w h. elim (Bool-cases (text_eq k.idem "")) [
        | inl e ↦ rw (e, claim) h
        | inr e ↦
            let (res, w') = Idempotency.begin g.idempotency r.context k.idem w in
            rw (e, claim)
              (subst P (sym (judge_claim-world res w')) (keeps.begins r.context k.idem w h))
      ];
    }

    flag-Keeps : (r : HttpRequest) (why : String) → Keeps P (flag g now opts next k r why)
    unfolding flag
    flag-Keeps r why = record {
      at = λ w h. elim (Option-cases opts.on_velocity_flag) [
        | inl e ↦ rw (e, flag) h
        | inr (f, e) ↦ rw (e, flag) (keeps.flags f e r why w h)
      ];
    }

    judge_velocity-Keeps :
        (r : HttpRequest) (res : Result (Bool × String))
        → Keeps P (judge_velocity g now opts next k r res)
    unfolding judge_velocity
    judge_velocity-Keeps r (err e) = store_error-Keeps HttpRequest Trace.velocity_error "velocity" e
    judge_velocity-Keeps r (ok (true, why)) = record { at = λ w h. h }
    judge_velocity-Keeps r (ok (false, why)) = record {
      at = λ w h.
          let noted =
            traced (Trace.velocity_rejected (velocity_key k.account opts.action) why)
            ∷ audit g now opts next k "velocity" "flag" (literal why) in
          ground (
            arith,
            (reject-Keeps HttpRequest r noted reject_velocity why).at w h,
            (flag-Keeps r why).at w h,
          );
    }

    pub check_velocity-Keeps : (r : HttpRequest) → Keeps P (check_velocity g now opts next k r)
    unfolding check_velocity
    check_velocity-Keeps r = record {
      at = λ w h.
          let (res, w') =
            Velocity.check g.velocity now r.context (velocity_key k.account opts.action) w in
          (judge_velocity-Keeps r res).at w'
            (keeps.velocity r.context (velocity_key k.account opts.action) w h);
    }
