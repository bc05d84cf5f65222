-- ===== src/Middleware/Handled.antt =====
-- The handler of middleware/http.go takes the world from `P` to `Q` where it calls the wrapped
-- handler, and keeps `P` where it does not.
use floodguard_rate_limiter.Prelude.{
  Bool, true, false, some, [], ◌∷◌, ◌≡◌, refl, arith, Option-cases, inl, inr, ◌⊎◌,
}
use floodguard_rate_limiter.Prelude.Int.{ℤ}
use floodguard_rate_limiter.Errors.{reject_locked, Action, Context}
use floodguard_rate_limiter.Errors.{Result-cases}
use floodguard_rate_limiter.Guard.{Guard, try_lock}
use floodguard_rate_limiter.Middleware.{
  HttpRequest, traced, Trace, Options, NextHandler, Recorder, is_cacheable, record_calls,
}
use floodguard_rate_limiter.Middleware.Handler.{
  Keys, keys_of, require_key, limit_ip, limit_account, claim, check_velocity,
}
use floodguard_rate_limiter.Middleware.Serve.{
  serve, handle, run_handler, run_locked, store_response, new_recorder,
}
use floodguard_rate_limiter.Middleware.Keeps.{Keeps, GuardKeeps}
use floodguard_rate_limiter.Middleware.Kept.{
  reject-Keeps, store_error-Keeps, require_key-Keeps, limit_ip-Keeps, limit_account-Keeps,
  claim-Keeps, check_velocity-Keeps,
}
use floodguard_rate_limiter.Middleware.Quiet.{
  served_in, served_in-append, served_in-require_key, served_in-limit_ip, served_in-limit_account,
  served_in-claim, served_in-check_velocity, served_in-reject, served_in-store_error,
}
use floodguard_rate_limiter.Middleware.Serving.{served_in-run_handler}
use floodguard_rate_limiter.Prelude.{if◌then◌else◌}
use floodguard_rate_limiter.Middleware.{Run, ◌>>=◌, ◌>>◌}

module _ {W : Type 0} (g : Guard W) (now : Action W ℤ) (opts : Options W) (next : NextHandler W)
    (P Q : W → Type 0) (keeps_p : GuardKeeps P g now opts) (keeps_q : GuardKeeps Q g now opts)
    (S : HttpRequest → Type 0)
    (handler : (r : HttpRequest) (w : W) → S r → P w → Q (next r w).1) where
  abbrev pub Handles : {A : Type 0} → Run W A → Type 0
  Handles m =
      (w : W) → P w → ((served_in (m w).1 ≡ 0) × P (m w).2) ⊎ ((served_in (m w).1 ≡ 1) × Q (m w).2)

  Handles-bind :
      {A B : Type 0} (m : Run W A) (f : A → Run W B)
      → ((w : W) → served_in (m w).1 ≡ 0)
      → Keeps P m
      → ((w : W) (a : A) → P w → (m w).0 ≡ some a → Handles (f a))
      → Handles (m >>= f)
  Handles-bind m f quiet keeps goes w p = elim (Option-cases (m w).0) [
    | inl e ↦ rw (e, ◌>>=◌) (inl (quiet w, keeps.at w p))
    | inr (a, e) ↦
        let q = quiet w in
        let total = served_in-append (m w).1 (f a (m w).2).1 in
        rw (e, ◌>>=◌)
          (elim (goes w a p e (m w).2 (keeps.at w p)) [
            | inl (n, kept) ↦ inl (omega (arith, n, q, total), kept)
            | inr (n, done) ↦ inr (omega (arith, n, q, total), done)
          ])
  ]

  Handles-if :
      {A : Type 0} (b : Bool) (m n : Run W A) → Handles m → Handles n → Handles (if b then m else n)
  Handles-if true m n hm hn = hm
  Handles-if false m n hm hn = hn

  module _ (k : Keys) where
    store_response-Keeps :
        (ctx : Context) (rec : Recorder) (w : W)
        → Q w
        → Q (store_response g now opts next k ctx rec w).1
    unfolding store_response is_cacheable
    store_response-Keeps ctx rec w h = ground (arith, keeps_q.completes ctx k.idem rec.body w, h)

    run_handler-Handles :
        (ctx : Context) (r : HttpRequest) (w : W)
        → S r
        → P w
        → Q (run_handler g now opts next k ctx r w).1
    unfolding run_handler
    run_handler-Handles ctx r w s h =
        let (calls, w₁) = next r w in
        let h₁ = handler r w s h in
        let h₂ = store_response-Keeps ctx (record_calls new_recorder calls) w₁ h₁ in
        ground (arith, h₁, h₂)

    run_locked-Handles :
        (ctx : Context) (r r' : HttpRequest) (w : W)
        → S r'
        → P w
        → let (res, w') = try_lock g ctx k.lock w in
          let m = run_locked g now opts next k ctx r r' res w' in
          ((served_in m.1 ≡ 0) × P m.2) ⊎ ((served_in m.1 ≡ 1) × Q m.2)
    unfolding run_locked
    run_locked-Handles ctx r r' w s h =
        let (res, w') = try_lock g ctx k.lock w in
        let h' = keeps_p.lock ctx k.lock w h in
        elim (Result-cases res) [
          | inl (e, failed) ↦
              let line = traced (Trace.lock_rejected k.lock) ∷ [] in
              let refused =
                (reject-Keeps g now opts next P keeps_p k (Unit {0}) r' line reject_locked "").at w'
                  h' in
              let broken =
                (store_error-Keeps g now opts next P keeps_p k (Unit {0}) Trace.lock_error "lock"
                    e).at
                  w' h' in
              let quiet =
                served_in-reject g now opts next k (Unit {0}) r' line reject_locked "" w' refl in
              let silent =
                served_in-store_error g now opts next k (Unit {0}) Trace.lock_error "lock" e w' in
              ground (arith, failed, refused, broken, quiet, silent)
          | inr (f, held) ↦
              let (es, w₁) = run_handler g now opts next k ctx r' w' in
              let once = served_in-run_handler g now opts next k ctx r' w' in
              let total = served_in-append es (traced (Trace.lock_release k.lock) ∷ []) in
              rw held (
                inr (
                  omega (arith, once, total),
                  keeps_q.release ctx k.lock w w₁ f held (run_handler-Handles ctx r' w' s h'),
                ))
        ]

    pub serve-Handles :
        (ctx : Context) (r r' : HttpRequest) → S r' → Handles (serve g now opts next k ctx r r')
    unfolding serve
    serve-Handles ctx r r' s =
        Handles-if opts.require_lock _ _
          (λ w h. elim (run_locked-Handles ctx r r' w s h) [
            | inl (n, kept) ↦ inl (omega (arith, n), kept)
            | inr (n, done) ↦ inr (omega (arith, n), done)
          ])
          (λ w h.
            inr
              (served_in-run_handler g now opts next k ctx r' w, run_handler-Handles ctx r' w s h))

  -- The whole handler, when the requests that reach the wrapped handler are in `S`.
  pub handle-Handles :
      (r : HttpRequest)
      → ((w : W) (r' : HttpRequest)
          → P w
          → (check_velocity g now opts next (keys_of g now opts next r) r w).0 ≡ some r'
          → S r')
      → Handles (handle g now opts next r)
  unfolding handle
  handle-Handles r reaches =
      let k = keys_of g now opts next r in
      let velocity : Run W HttpRequest = check_velocity g now opts next k r in
      let on_velocity : Run W (Unit {0}) = velocity >>= serve g now opts next k r.context r in
      let on_claim : Run W (Unit {0}) = claim g now opts next k r >> on_velocity in
      let on_account : Run W (Unit {0}) = limit_account g now opts next k r >> on_claim in
      let on_ip : Run W (Unit {0}) = limit_ip g now opts next k r g.ip_rate >> on_account in
      let flagged =
        Handles-bind velocity (serve g now opts next k r.context r)
          (served_in-check_velocity g now opts next k r)
          (check_velocity-Keeps g now opts next P keeps_p k r)
          (λ w r' p e. serve-Handles k r.context r r' (reaches w r' p e)) in
      let claimed =
        Handles-bind (claim g now opts next k r) (λ _. on_velocity)
          (served_in-claim g now opts next k r) (claim-Keeps g now opts next P keeps_p k r)
          (λ w a p e. flagged) in
      let limited =
        Handles-bind (limit_account g now opts next k r) (λ _. on_claim)
          (served_in-limit_account g now opts next k r)
          (limit_account-Keeps g now opts next P keeps_p k r) (λ w a p e. claimed) in
      let ip_limited =
        Handles-bind (limit_ip g now opts next k r g.ip_rate) (λ _. on_account)
          (served_in-limit_ip g now opts next k r g.ip_rate)
          (limit_ip-Keeps g now opts next P keeps_p k r g.ip_rate refl) (λ w a p e. limited) in
      Handles-bind (require_key g now opts next k) (λ _. on_ip)
        (served_in-require_key g now opts next k) (require_key-Keeps g now opts next P keeps_p k)
        (λ w a p e. ip_limited)

-- What the wrapped handler keeps too.
module _ {W : Type 0} (g : Guard W) (now : Action W ℤ) (opts : Options W) (next : NextHandler W)
    (P : W → Type 0) (keeps : GuardKeeps P g now opts)
    (handler : (r : HttpRequest) (w : W) → P w → P (next r w).1) where
  pub serve-Keeps :
      (k : Keys) (ctx : Context) (r r' : HttpRequest) → Keeps P (serve g now opts next k ctx r r')
  serve-Keeps k ctx r r' = record {
    at = λ w h.
        elim (serve-Handles g now opts next P P keeps keeps (λ x. Unit {0}) (λ x v s. handler x v) k
          ctx r r' tt w h) [ inl (n, kept) ↦ kept | inr (n, kept) ↦ kept ];
  }

  pub handle-Keeps : (r : HttpRequest) → Keeps P (handle g now opts next r)
  handle-Keeps r = record {
    at = λ w h.
        elim (handle-Handles g now opts next P P keeps keeps (λ x. Unit {0}) (λ x v s. handler x v)
          r (λ v r' p e. tt) w h) [ inl (n, kept) ↦ kept | inr (n, kept) ↦ kept ];
  }
