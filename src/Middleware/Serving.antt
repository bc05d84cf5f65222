-- ===== src/Middleware/Serving.antt =====
-- Which requests reach the handler that middleware/http.go wraps.
use floodguard_rate_limiter.Prelude.{
  ap, String, Bool, true, false, not, Option, none, some, [], ◌∷◌, ◌≡◌, refl, arith, text_eq,
  if◌then◌else◌, Bool-cases, inl, inr, ◌||◌, ◌&&◌,
}
use floodguard_rate_limiter.Prelude.Int.{ℤ}
use floodguard_rate_limiter.Errors.{
  Action, Bytes, Context, Result, ok, err, Sentinel, is_error, reject_locked,
}
use floodguard_rate_limiter.RateLimit.{Limiter}
use floodguard_rate_limiter.Idempotency
use floodguard_rate_limiter.Idempotency.{is_present}
use floodguard_rate_limiter.Velocity
use floodguard_rate_limiter.Guard.{Guard, velocity_key, try_lock}
use floodguard_rate_limiter.Guard.Layers.{after_ip, after_claim}
use floodguard_rate_limiter.Middleware.{
  HttpRequest, traced, Trace, Options, NextHandler, Run, ◌>>=◌, ◌>>◌,
}
use floodguard_rate_limiter.Middleware.Handler.{
  Keys, keys_of, require_key, limit_ip, limit_account, claim, check_velocity, block_on_velocity,
}
use floodguard_rate_limiter.Middleware.Serve.{serve, handle, run_handler, run_locked}
use floodguard_rate_limiter.Middleware.Quiet.{
  served_in, served_in-append, served_in-called_all, served_in-require_key, served_in-limit_ip,
  served_in-limit_account, served_in-claim, served_in-check_velocity, served_in-reject,
  served_in-store_error,
}

abbrev pub is_ok {ℓ} : {A : Type ℓ} → Result A → Bool
is_ok (ok a) = true
is_ok (err e) = false

abbrev pub admits : Result Bool → Bool
admits (ok b) = b
admits (err e) = false

abbrev pub is_new : Result (Bool × Bytes) → Bool
is_new (ok (process, cached)) = not (is_present cached) && process
is_new (err e) = false

abbrev pub is_tolerated : Bool → Result (Bool × String) → Bool
is_tolerated block (ok (allowed, why)) = allowed || not block
is_tolerated block (err e) = false

-- A part that serves nothing, and what follows it where it goes on.
step :
    {W A B : Type 0} (m : Run W A) (f : A → Run W B) (w w' : W) (a : A) (b c : Bool)
    → served_in (m w).1 ≡ 0
    → (b ≡ false → (m w).0 ≡ none)
    → (b ≡ true → ((m w).0 ≡ some a) × ((m w).2 ≡ w'))
    → served_in (f a w').1 ≡ (if c then 1 else 0)
    → served_in ((m >>= f) w).1 ≡ (if b && c then 1 else 0)
step m f w w' a true c quiet stop go h =
    let (e, e') = go refl in
    ground (arith, served_in-append (m w).1 (f a (m w).2).1, ap (λ v. served_in (f a v).1) e')
step m f w w' a false c quiet stop go h = let e = stop refl in ground arith

module _ {W : Type 0} (g : Guard W) (now : Action W ℤ) (opts : Options W)
    (next : NextHandler W) where
  -- The tests of the layers, each in a world of its own.
  abbrev pub ip_ok : Option (Limiter W) → Context → String → W → Bool
  ip_ok none ctx ip w = true
  ip_ok (some l) ctx ip w = text_eq ip "" || admits (l.allow ctx ip w).0

  abbrev pub claim_ok : Context → String → W → Bool
  claim_ok ctx idem w = text_eq idem "" || is_new (Idempotency.begin g.idempotency ctx idem w).0

  -- The request and the world after the velocity layer lets a request through.
  abbrev flag_result : HttpRequest → Result (Bool × String) × W → HttpRequest × W
  flag_result r (ok (true, why), w) = (r, w)
  flag_result r (ok (false, why), w) = elim opts.on_velocity_flag [
    | none ↦ (r, w)
    | some callback ↦ let (r', calls, w') = callback r why w in (r', w')
  ]
  flag_result r (err e, w) = (r, w)

  -- Whether the handler is reached, read off the answers of the parts in the order in which they are
  -- asked, each in the world that the ones before have left.
  pub reaches_handler : HttpRequest → W → Bool
  reaches_handler r w =
      let k = keys_of g now opts next r in
      let w₁ = after_ip g.ip_rate r.context k.ip w in
      let w₂ = (g.rate.allow r.context k.account w₁).1 in
      let w₃ = after_claim g.idempotency r.context k.idem w₂ in
      let checked =
        Velocity.check g.velocity now r.context (velocity_key k.account opts.action) w₃ in
      let w₄ = (flag_result r checked).1 in
      not (opts.require_idempotency_key && text_eq k.idem "")
      && (ip_ok g.ip_rate r.context k.ip w
          && (admits (g.rate.allow r.context k.account w₁).0
              && (claim_ok r.context k.idem w₂
                  && (is_tolerated (block_on_velocity g now opts next) checked.0
                      && (not opts.require_lock || is_ok (try_lock g r.context k.lock w₄).0)))))

  module _ (k : Keys) where
    pub served_in-run_handler :
        (ctx : Context) (r : HttpRequest) (w : W)
        → served_in (run_handler g now opts next k ctx r w).0 ≡ 1
    unfolding run_handler
    served_in-run_handler ctx r w = grind (arith, served_in-append, served_in-called_all)

    served_in-run_locked :
        (ctx : Context) (r r' : HttpRequest) (res : Result (Action W (Unit {0}))) (w : W)
        → served_in (run_locked g now opts next k ctx r r' res w).1 ≡ (if is_ok res then 1 else 0)
    unfolding run_locked
    served_in-run_locked ctx r r' (ok release) w =
        let (es, w₁) = run_handler g now opts next k ctx r' w in
        omega (
          arith,
          served_in-append es (traced (Trace.lock_release k.lock) ∷ []),
          served_in-run_handler ctx r' w,
        )
    served_in-run_locked ctx r r' (err e) w = elim (Bool-cases (is_error e Sentinel.not_acquired)) [
      | inl held ↦ rw held (
          served_in-reject g now opts next k (Unit {0}) r'
            (traced (Trace.lock_rejected k.lock) ∷ []) reject_locked "" w refl)
      | inr other ↦
          rw other (served_in-store_error g now opts next k (Unit {0}) Trace.lock_error "lock" e w)
    ]

    served_in-serve :
        (ctx : Context) (r r' : HttpRequest) (w : W)
        → served_in (serve g now opts next k ctx r r' w).1
          ≡ (if not opts.require_lock || is_ok (try_lock g ctx k.lock w).0 then 1 else 0)
    unfolding serve
    served_in-serve ctx r r' w =
        let (res, w') = try_lock g ctx k.lock w in
        ground (arith, served_in-run_locked ctx r r' res w', served_in-run_handler ctx r' w)

    pub require_key-outcome :
        (w : W)
        → let b = not (opts.require_idempotency_key && text_eq k.idem "") in
          let m = require_key g now opts next k w in
          (b ≡ false → m.0 ≡ none) × (b ≡ true → (m.0 ≡ some tt) × (m.2 ≡ w))
    unfolding require_key
    require_key-outcome w = (λ e. ground arith, λ e. ground arith)

    pub limit_ip-outcome :
        (r : HttpRequest) (l : Option (Limiter W)) (w : W)
        → let b = ip_ok l r.context k.ip w in
          let m = limit_ip g now opts next k r l w in
          (b ≡ false → m.0 ≡ none)
          × (b ≡ true → (m.0 ≡ some tt) × (m.2 ≡ after_ip l r.context k.ip w))
    unfolding limit_ip
    limit_ip-outcome r none w = (λ e. cc, λ e. (refl, refl))
    limit_ip-outcome r (some l) w = (λ e. ground arith, λ e. ground arith)

    pub limit_account-outcome :
        (r : HttpRequest) (w : W)
        → let b = admits (g.rate.allow r.context k.account w).0 in
          let m = limit_account g now opts next k r w in
          (b ≡ false → m.0 ≡ none)
          × (b ≡ true → (m.0 ≡ some tt) × (m.2 ≡ (g.rate.allow r.context k.account w).1))
    unfolding limit_account
    limit_account-outcome r w = (λ e. ground arith, λ e. ground arith)

    pub claim-outcome :
        (r : HttpRequest) (w : W)
        → let b = claim_ok r.context k.idem w in
          let m = claim g now opts next k r w in
          (b ≡ false → m.0 ≡ none)
          × (b ≡ true → (m.0 ≡ some tt) × (m.2 ≡ after_claim g.idempotency r.context k.idem w))
    unfolding claim
    claim-outcome r w = (λ e. ground arith, λ e. ground arith)

    check_velocity-outcome :
        (r : HttpRequest) (w : W)
        → let checked =
            Velocity.check g.velocity now r.context (velocity_key k.account opts.action) w in
          let b = is_tolerated (block_on_velocity g now opts next) checked.0 in
          let m = check_velocity g now opts next k r w in
          let (r', w') = flag_result r checked in
          (b ≡ false → m.0 ≡ none) × (b ≡ true → (m.0 ≡ some r') × (m.2 ≡ w'))
    unfolding check_velocity
    check_velocity-outcome r w = (λ e. ground arith, λ e. ground arith)

  -- In every world, for every guard, options, wrapped handler and request, the middleware's
  -- handler calls the wrapped handler exactly once if the request passes the test of every layer,
  -- each asked in the world that the layers before have left, and never otherwise. The tests: a
  -- required idempotency key is there, the IP limiter admits it (if there is one and an IP key),
  -- the account limiter admits it, its idempotency key (if it has one) is newly claimed, the
  -- velocity engine allows it or is set not to block, and the lock (if required) is acquired.
  pub handle-serves :
      (r : HttpRequest) (w : W)
      → served_in (handle g now opts next r w).1 ≡ (if reaches_handler r w then 1 else 0)
  unfolding handle reaches_handler
  handle-serves r w =
      let k = keys_of g now opts next r in
      let w₁ = after_ip g.ip_rate r.context k.ip w in
      let w₂ = (g.rate.allow r.context k.account w₁).1 in
      let w₃ = after_claim g.idempotency r.context k.idem w₂ in
      let checked =
        Velocity.check g.velocity now r.context (velocity_key k.account opts.action) w₃ in
      let (r', w₄) = flag_result r checked in
      let on_velocity : Run W (Unit {0}) =
        check_velocity g now opts next k r >>= serve g now opts next k r.context r in
      let on_claim : Run W (Unit {0}) = claim g now opts next k r >> on_velocity in
      let on_account : Run W (Unit {0}) = limit_account g now opts next k r >> on_claim in
      let on_ip : Run W (Unit {0}) = limit_ip g now opts next k r g.ip_rate >> on_account in
      let velocity_step =
        step (check_velocity g now opts next k r) (serve g now opts next k r.context r) w₃ w₄ r' _ _
          (served_in-check_velocity g now opts next k r w₃) (check_velocity-outcome k r w₃).0
          (check_velocity-outcome k r w₃).1 (served_in-serve k r.context r r' w₄) in
      let claim_step =
        step (claim g now opts next k r) (λ _. on_velocity) w₂ w₃ tt _ _
          (served_in-claim g now opts next k r w₂) (claim-outcome k r w₂).0 (claim-outcome k r w₂).1
          velocity_step in
      let account_step =
        step (limit_account g now opts next k r) (λ _. on_claim) w₁ w₂ tt _ _
          (served_in-limit_account g now opts next k r w₁) (limit_account-outcome k r w₁).0
          (limit_account-outcome k r w₁).1 claim_step in
      let ip_step =
        step (limit_ip g now opts next k r g.ip_rate) (λ _. on_account) w w₁ tt _ _
          (served_in-limit_ip g now opts next k r g.ip_rate w) (limit_ip-outcome k r g.ip_rate w).0
          (limit_ip-outcome k r g.ip_rate w).1 account_step in
      step (require_key g now opts next k) (λ _. on_ip) w w tt _ _
        (served_in-require_key g now opts next k w) (require_key-outcome k w).0
        (require_key-outcome k w).1 ip_step
