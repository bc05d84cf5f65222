-- ===== src/Middleware/Replies.antt =====
-- What middleware/http.go answers to a request that does not reach the wrapped handler.
use floodguard_rate_limiter.Prelude.{none, some, List, [], ◌∷◌, ◌≡◌, ◌⊎◌, refl, arith, inl, inr}
use floodguard_rate_limiter.Prelude.Int.{ℤ}
use floodguard_rate_limiter.Errors.{Action, Context, Result, ok, err, reject_locked}
use floodguard_rate_limiter.Guard.{Guard, try_lock}
use floodguard_rate_limiter.Middleware.{
  HttpRequest, Trace, Event, traced, Options, NextHandler, Run, ◌>>=◌, ◌>>◌,
}
use floodguard_rate_limiter.Middleware.Handler.{
  Keys, keys_of, require_key, limit_ip, limit_account, claim, check_velocity,
}
use floodguard_rate_limiter.Middleware.Serve.{serve, handle, run_handler, run_locked}
use floodguard_rate_limiter.Middleware.Quiet.{
  served_in, served_in-append, served_in-require_key, served_in-limit_ip, served_in-limit_account,
  served_in-claim, served_in-check_velocity, served_in-reject, served_in-store_error,
}
use floodguard_rate_limiter.Middleware.Serving.{served_in-run_handler}
use floodguard_rate_limiter.Middleware.Statuses.{
  replied_in, replied_in-append, replied_in-reject, replied_in-store_error, require_key-Replies,
  limit_ip-Replies, limit_account-Replies, claim-Replies, check_velocity-Replies,
}

-- The wrapped handler is called once, or it is never called and one status is set.
abbrev pub Answered : List Event → Type 0
Answered es = (served_in es ≡ 1) ⊎ ((served_in es ≡ 0) × (replied_in es ≡ 1))

-- A part that ends the request with an answer, or goes on and has answered nothing.
abbrev Ends : {W A : Type 0} → Run W A → W → Type 0
Ends {W} {A} m w =
    (((m w).0 ≡ none) × Answered (m w).1)
    ⊎ ((a : A) × ((m w).0 ≡ some a) × (served_in (m w).1 ≡ 0) × (replied_in (m w).1 ≡ 0))

then-Answered :
    {W A B : Type 0} (m : Run W A) (f : A → Run W B) (w : W)
    → Ends m w
    → ((a : A) → Answered (f a (m w).2).1)
    → Answered ((m >>= f) w).1
then-Answered m f w (inl h) k = ground arith
then-Answered m f w (inr (a, e, s, r)) k =
    let fs = (f a (m w).2).1 in
    let h = k a in ground (arith, e, h, served_in-append (m w).1 fs, replied_in-append (m w).1 fs)

module _ {W : Type 0} (g : Guard W) (now : Action W ℤ) (opts : Options W) (next : NextHandler W)
    (unblocked : opts.on_blocked ≡ none) (unflagged : opts.on_velocity_flag ≡ none) where
  module _ (k : Keys) where
    run_locked-Answered :
        (ctx : Context) (r r' : HttpRequest) (res : Result (Action W (Unit {0}))) (w : W)
        → Answered (run_locked g now opts next k ctx r r' res w).1
    unfolding run_locked
    run_locked-Answered ctx r r' (ok release) w =
        let (es, w₁) = run_handler g now opts next k ctx r' w in
        inl (
          omega (
            arith,
            served_in-append es (traced (Trace.lock_release k.lock) ∷ []),
            served_in-run_handler g now opts next k ctx r' w,
          ))
    run_locked-Answered ctx r r' (err e) w = ground (
      arith,
      replied_in-reject g now opts next unblocked unflagged k (Unit {0}) r'
          (traced (Trace.lock_rejected k.lock) ∷ []) reject_locked "" w refl,
      replied_in-store_error g now opts next unblocked unflagged k (Unit {0}) Trace.lock_error
          "lock" e w,
      served_in-reject g now opts next k (Unit {0}) r' (traced (Trace.lock_rejected k.lock) ∷ [])
          reject_locked "" w refl,
      served_in-store_error g now opts next k (Unit {0}) Trace.lock_error "lock" e w,
    )

    serve-Answered :
        (ctx : Context) (r r' : HttpRequest) (w : W)
        → Answered (serve g now opts next k ctx r r' w).1
    unfolding serve
    serve-Answered ctx r r' w =
        let (res, w') = try_lock g ctx k.lock w in
        ground (
          arith,
          run_locked-Answered ctx r r' res w',
          served_in-run_handler g now opts next k ctx r' w,
        )

  -- A part that does not call the wrapped handler ends the request with an answer or goes on.
  ends :
      {A : Type 0} (k : Keys) (m : Run W A) (w : W)
      → served_in (m w).1 ≡ 0
      → ((((m w).0 ≡ none) × (replied_in (m w).1 ≡ 1))
          ⊎ ((a : A) × ((m w).0 ≡ some a) × (replied_in (m w).1 ≡ 0)))
      → Ends m w
  ends k m w s (inl h) = inl (h.0, inr (s, h.1))
  ends k m w s (inr (a, e, z)) = inr (a, e, s, z)

  -- Without OnBlocked and OnVelocityFlag callbacks, in every world and for every guard, wrapped
  -- handler and request, the middleware's handler either calls the wrapped handler exactly once,
  -- or never calls it and sets exactly one status on the ResponseWriter.
  pub handle-Answered : (r : HttpRequest) (w : W) → Answered (handle g now opts next r w).1
  unfolding handle
  handle-Answered r w =
      let k = keys_of g now opts next r in
      let on_velocity : Run W (Unit {0}) =
        check_velocity g now opts next k r >>= serve g now opts next k r.context r in
      let on_claim : Run W (Unit {0}) = claim g now opts next k r >> on_velocity in
      let on_account : Run W (Unit {0}) = limit_account g now opts next k r >> on_claim in
      let on_ip : Run W (Unit {0}) = limit_ip g now opts next k r g.ip_rate >> on_account in
      let velocity_step : (v : W) → Answered (on_velocity v).1 = λ v.
        then-Answered (check_velocity g now opts next k r) (serve g now opts next k r.context r) v
          (ends k (check_velocity g now opts next k r) v
            (served_in-check_velocity g now opts next k r v)
            (check_velocity-Replies g now opts next unblocked unflagged k r v))
          (λ r'. serve-Answered k r.context r r' (check_velocity g now opts next k r v).2) in
      let claim_step : (v : W) → Answered (on_claim v).1 = λ v.
        then-Answered (claim g now opts next k r) (λ _. on_velocity) v
          (ends k (claim g now opts next k r) v (served_in-claim g now opts next k r v)
            (claim-Replies g now opts next unblocked unflagged k r v))
          (λ _. velocity_step (claim g now opts next k r v).2) in
      let account_step : (v : W) → Answered (on_account v).1 = λ v.
        then-Answered (limit_account g now opts next k r) (λ _. on_claim) v
          (ends k (limit_account g now opts next k r) v
            (served_in-limit_account g now opts next k r v)
            (limit_account-Replies g now opts next unblocked unflagged k r v))
          (λ _. claim_step (limit_account g now opts next k r v).2) in
      let ip_step : (v : W) → Answered (on_ip v).1 = λ v.
        then-Answered (limit_ip g now opts next k r g.ip_rate) (λ _. on_account) v
          (ends k (limit_ip g now opts next k r g.ip_rate) v
            (served_in-limit_ip g now opts next k r g.ip_rate v)
            (limit_ip-Replies g now opts next unblocked unflagged k r g.ip_rate v))
          (λ _. account_step (limit_ip g now opts next k r g.ip_rate v).2) in
      then-Answered (require_key g now opts next k) (λ _. on_ip) w
        (ends k (require_key g now opts next k) w (served_in-require_key g now opts next k w)
          (require_key-Replies g now opts next unblocked unflagged k w))
        (λ _. ip_step (require_key g now opts next k w).2)
