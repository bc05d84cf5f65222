-- ===== src/Middleware/Statuses.antt =====
-- The statuses that the layers of middleware/http.go set, without callbacks.
use floodguard_rate_limiter.Prelude.{
  ℕ, ◌+◌, String, Bool, true, false, Option, none, some, List, [], ◌∷◌, ◌++◌, ◌≡◌, ◌⊎◌, refl, arith,
  inl, inr,
}
use floodguard_rate_limiter.Prelude.Int.{ℤ}
use floodguard_rate_limiter.Errors.{
  Action, Bytes, Error, Result, ok, err, RejectReason, reject_ip_rate_limit, reject_rate_limit,
  reject_velocity,
}
use floodguard_rate_limiter.RateLimit.{Limiter}
use floodguard_rate_limiter.Guard.{Guard, velocity_key}
use floodguard_rate_limiter.Idempotency.{begin}
use floodguard_rate_limiter.Velocity.{check}
use floodguard_rate_limiter.Middleware.{
  HttpRequest, write_header, Trace, Event, AuditReason, literal, traced, called, Options,
  NextHandler, Run, write_error, write_store_error, write_reject,
}
use floodguard_rate_limiter.Middleware.Handler.{
  Keys, require_key, judge_limit, limit_ip, limit_account, judge_claim, claim, flag, judge_velocity,
  check_velocity, audit, reject, store_error,
}

abbrev sets_status : Event → ℕ
sets_status (called (write_header n)) = 1
sets_status _ = 0

-- How often the events set a status on the ResponseWriter.
abbrev pub replied_in : List Event → ℕ
replied_in [] = 0
replied_in (e ∷ es) = sets_status e + replied_in es

pub replied_in-append : (es fs : List Event) → replied_in (es ++ fs) ≡ replied_in es + replied_in fs
replied_in-append [] fs = omega arith
replied_in-append (e ∷ es) fs = omega (arith, replied_in-append es fs)

replied_in-write_error : (n : ℕ) (m d : String) → replied_in (write_error n m d) ≡ 1
unfolding write_error
replied_in-write_error n m d = refl

replied_in-write_store_error : (b : Bool) → replied_in (write_store_error b) ≡ 1
unfolding write_store_error write_error
replied_in-write_store_error true = refl
replied_in-write_store_error false = refl

replied_in-write_reject : (r : RejectReason) (d : String) → replied_in (write_reject r d) ≡ 1
unfolding write_reject write_error
replied_in-write_reject r d = refl

module _ {W : Type 0} (g : Guard W) (now : Action W ℤ) (opts : Options W) (next : NextHandler W)
    (unblocked : opts.on_blocked ≡ none) (unflagged : opts.on_velocity_flag ≡ none) where
  module _ (k : Keys) where
    pub replied_in-reject :
        (A : Type 0) (r : HttpRequest) (es : List Event) (why : RejectReason) (d : String) (w : W)
        → replied_in es ≡ 0
        → ((reject g now opts next k {A = A} r es why d w).0 ≡ none)
          × (replied_in (reject g now opts next k {A = A} r es why d w).1 ≡ 1)
    unfolding reject
    replied_in-reject A r es why d w h =
        ground (
          arith,
          unblocked,
          replied_in-append es (write_reject why d),
          replied_in-write_reject why d,
        )

    replied_in-audit :
        (layer decision : String) (reason : AuditReason)
        → replied_in (audit g now opts next k layer decision reason) ≡ 0
    unfolding audit
    replied_in-audit layer decision reason = ground arith

    pub replied_in-store_error :
        (A : Type 0) (line : Error → Trace) (layer : String) (e : Error) (w : W)
        → replied_in (store_error g now opts next k {A = A} line layer e w).1 ≡ 1
    unfolding store_error
    replied_in-store_error A line layer e w =
        grind (arith, replied_in-append, replied_in-audit, replied_in-write_store_error)

    -- A part that ends the request with one status, or goes on and has set none.
    abbrev pub Replies : {A : Type 0} → Run W A → W → Type 0
    Replies {A} m w =
        (((m w).0 ≡ none) × (replied_in (m w).1 ≡ 1))
        ⊎ ((a : A) × ((m w).0 ≡ some a) × (replied_in (m w).1 ≡ 0))

    pub require_key-Replies : (w : W) → Replies (require_key g now opts next k) w
    unfolding require_key audit write_error
    require_key-Replies w = ground arith

    judge_limit-Replies :
        (r : HttpRequest) (failed : Error → Trace) (denied passed : String → Trace)
        (reason key : String) (res : Result Bool) (w : W)
        → Replies (judge_limit g now opts next k r failed denied passed reason key res) w
    unfolding judge_limit store_error
    judge_limit-Replies r failed denied passed reason key (err e) w =
        inl (refl, replied_in-store_error (Unit {0}) failed reason e w)
    judge_limit-Replies r failed denied passed reason key (ok true) w = inr (tt, refl, refl)
    judge_limit-Replies r failed denied passed reason key (ok false) w = inl (
        replied_in-reject (Unit {0}) r
          (traced (denied key) ∷ audit g now opts next k reason "reject" (literal "limit exceeded"))
          reason "" w (omega (arith, replied_in-audit reason "reject" (literal "limit exceeded"))))

    pub limit_ip-Replies :
        (r : HttpRequest) (l : Option (Limiter W)) (w : W)
        → Replies (limit_ip g now opts next k r l) w
    unfolding limit_ip
    limit_ip-Replies r none w = inr (tt, refl, refl)
    limit_ip-Replies r (some l) w =
        let (res, w') = l.allow r.context k.ip w in
        ground (
          arith,
          judge_limit-Replies r Trace.ip_error Trace.ip_rejected Trace.ip_passed
              reject_ip_rate_limit k.ip res w',
        )

    pub limit_account-Replies :
        (r : HttpRequest) (w : W) → Replies (limit_account g now opts next k r) w
    unfolding limit_account
    limit_account-Replies r w =
        let (res, w') = g.rate.allow r.context k.account w in
        ground (
          arith,
          judge_limit-Replies r Trace.account_error Trace.account_rejected Trace.account_passed
              reject_rate_limit k.account res w',
        )

    judge_claim-Replies :
        (res : Result (Bool × Bytes)) (w : W) → Replies (judge_claim g now opts next k res) w
    unfolding judge_claim audit write_error write_store_error store_error
    judge_claim-Replies (err e) w =
        ground (arith, replied_in-store_error (Unit {0}) Trace.idempotency_error "idempotency" e w)
    judge_claim-Replies (ok (process, cached)) w = ground arith

    pub claim-Replies : (r : HttpRequest) (w : W) → Replies (claim g now opts next k r) w
    unfolding claim
    claim-Replies r w =
        let (res, w') = begin g.idempotency r.context k.idem w in
        ground (arith, judge_claim-Replies res w')

    judge_velocity-Replies :
        (r : HttpRequest) (res : Result (Bool × String)) (w : W)
        → Replies (judge_velocity g now opts next k r res) w
    unfolding judge_velocity store_error flag
    judge_velocity-Replies r (err e) w =
        inl (refl, replied_in-store_error HttpRequest Trace.velocity_error "velocity" e w)
    judge_velocity-Replies r (ok (true, why)) w = inr (r, refl, refl)
    judge_velocity-Replies r (ok (false, why)) w =
        let noted =
          traced (Trace.velocity_rejected (velocity_key k.account opts.action) why)
          ∷ audit g now opts next k "velocity" "flag" (literal why) in
        let silent : replied_in noted ≡ 0 =
          omega (arith, replied_in-audit "velocity" "flag" (literal why)) in
        let passed = traced (Trace.velocity_passed (velocity_key k.account opts.action)) ∷ [] in
        ground (
          arith,
          unflagged,
          silent,
          replied_in-reject HttpRequest r noted reject_velocity why w silent,
          replied_in-append noted passed,
        )

    pub check_velocity-Replies :
        (r : HttpRequest) (w : W) → Replies (check_velocity g now opts next k r) w
    unfolding check_velocity
    check_velocity-Replies r w =
        let (res, w') = check g.velocity now r.context (velocity_key k.account opts.action) w in
        judge_velocity-Replies r res w'
