-- ===== src/Middleware/HandledAt.antt =====
-- What the handler of middleware/http.go makes of the world it is called in, when what the velocity layer
-- lets through is known only in the world that the layers before it have left.
use floodguard_rate_limiter.Prelude.{
  sym, subst, refl, Bool, true, false, Option, none, some, ◌≡◌, arith, Option-cases, inl, inr, ◌⊎◌,
}
use floodguard_rate_limiter.Prelude.Int.{ℤ}
use floodguard_rate_limiter.Errors.{Action}
use floodguard_rate_limiter.Guard.{Guard}
use floodguard_rate_limiter.Guard.Layers.{after_ip, after_claim}
use floodguard_rate_limiter.Middleware.{HttpRequest, Options, NextHandler, Run, ◌>>=◌, ◌>>◌}
use floodguard_rate_limiter.Middleware.Handler.{
  keys_of, require_key, limit_ip, limit_account, claim, check_velocity,
}
use floodguard_rate_limiter.Middleware.Serve.{serve, handle}
use floodguard_rate_limiter.Middleware.Keeps.{GuardKeeps}
use floodguard_rate_limiter.Middleware.Kept.{
  require_key-Keeps, limit_ip-Keeps, limit_account-Keeps, claim-Keeps, check_velocity-Keeps,
}
use floodguard_rate_limiter.Middleware.Quiet.{
  served_in, served_in-append, served_in-require_key, served_in-limit_ip, served_in-limit_account,
  served_in-claim, served_in-check_velocity,
}
use floodguard_rate_limiter.Middleware.Serving.{
  require_key-outcome, limit_ip-outcome, limit_account-outcome, claim-outcome,
}
use floodguard_rate_limiter.Middleware.Handled.{serve-Handles}

-- A part that goes on goes on in the world of its outcome.
goes_on-world :
    {W A : Type 0} (b : Bool) (o : Option A) (a : A) (w w' : W)
    → (b ≡ false → o ≡ none)
    → (b ≡ true → (o ≡ some a) × (w ≡ w'))
    → (x : A) → o ≡ some x
    → w ≡ w'
goes_on-world true o a w w' stop go x e = (go refl).1
goes_on-world false o a w w' stop go x e = cc (stop refl, e)

module _ {W : Type 0} (g : Guard W) (now : Action W ℤ) (opts : Options W)
    (next : NextHandler W) where
  -- The world in which the velocity engine is asked.
  abbrev pub before_velocity : HttpRequest → W → W
  before_velocity r w =
      let k = keys_of g now opts next r in
      let w₁ = after_ip g.ip_rate r.context k.ip w in
      let w₂ = (g.rate.allow r.context k.account w₁).1 in
      after_claim g.idempotency r.context k.idem w₂

  module _ (P Q : W → Type 0) where
    abbrev pub EndsAt : {A : Type 0} → Run W A → W → Type 0
    EndsAt m w = ((served_in (m w).1 ≡ 0) × P (m w).2) ⊎ ((served_in (m w).1 ≡ 1) × Q (m w).2)

    -- A part that serves nothing and goes on, if it does, in a given world, and what follows it there.
    EndsAt-bind :
        {A B : Type 0} (m : Run W A) (f : A → Run W B) (w w' : W)
        → served_in (m w).1 ≡ 0
        → P (m w).2
        → ((a : A) → (m w).0 ≡ some a → (m w).2 ≡ w')
        → ((a : A) → (m w).0 ≡ some a → P w' → EndsAt (f a) w')
        → EndsAt (m >>= f) w
    EndsAt-bind m f w w' quiet kept goes rest = elim (Option-cases (m w).0) [
      | inl e ↦ rw (e, ◌>>=◌) (inl (quiet, kept))
      | inr (a, e) ↦
          let at = goes a e in
          let total = served_in-append (m w).1 (f a (m w).2).1 in
          rw (e, ◌>>=◌)
            (elim (subst (λ v. EndsAt (f a) v) (sym at) (rest a e (subst P at kept))) [
              | inl (n, kept') ↦ inl (omega (arith, n, quiet, total), kept')
              | inr (n, done) ↦ inr (omega (arith, n, quiet, total), done)
            ])
    ]

    module _ (keeps_p : GuardKeeps P g now opts) (keeps_q : GuardKeeps Q g now opts)
        (S : HttpRequest → Type 0)
        (handler : (r : HttpRequest) (w : W) → S r → P w → Q (next r w).1) where
      -- The whole handler, when the request that the velocity layer lets through is in `S`.
      pub handle-EndsAt :
          (r : HttpRequest) (w : W)
          → ((r' : HttpRequest)
              → (check_velocity g now opts next
                  (keys_of g now opts next r)
                  r
                  (before_velocity r w)).0
                ≡ some r'
              → S r')
          → P w
          → EndsAt (handle g now opts next r) w
      unfolding handle
      handle-EndsAt r w reaches p =
          let k = keys_of g now opts next r in
          let w₁ = after_ip g.ip_rate r.context k.ip w in
          let w₂ = (g.rate.allow r.context k.account w₁).1 in
          let w₃ = after_claim g.idempotency r.context k.idem w₂ in
          let velocity : Run W HttpRequest = check_velocity g now opts next k r in
          let on_velocity : Run W (Unit {0}) = velocity >>= serve g now opts next k r.context r in
          let on_claim : Run W (Unit {0}) = claim g now opts next k r >> on_velocity in
          let on_account : Run W (Unit {0}) = limit_account g now opts next k r >> on_claim in
          let on_ip : Run W (Unit {0}) = limit_ip g now opts next k r g.ip_rate >> on_account in
          let flagged : P w₃ → EndsAt on_velocity w₃ = λ q.
            EndsAt-bind velocity (serve g now opts next k r.context r) w₃ (velocity w₃).2
              (served_in-check_velocity g now opts next k r w₃)
              ((check_velocity-Keeps g now opts next P keeps_p k r).at w₃ q) (λ a e. refl)
              (λ r' e h.
                serve-Handles g now opts next P Q keeps_p keeps_q S handler k r.context r r'
                  (reaches r' e) (velocity w₃).2 h) in
          let claimed : P w₂ → EndsAt on_claim w₂ = λ q.
            EndsAt-bind (claim g now opts next k r) (λ _. on_velocity) w₂ w₃
              (served_in-claim g now opts next k r w₂)
              ((claim-Keeps g now opts next P keeps_p k r).at w₂ q)
              (goes_on-world _ _ tt _ _ (claim-outcome g now opts next k r w₂).0
                (claim-outcome g now opts next k r w₂).1)
              (λ a e h. flagged h) in
          let limited : P w₁ → EndsAt on_account w₁ = λ q.
            EndsAt-bind (limit_account g now opts next k r) (λ _. on_claim) w₁ w₂
              (served_in-limit_account g now opts next k r w₁)
              ((limit_account-Keeps g now opts next P keeps_p k r).at w₁ q)
              (goes_on-world _ _ tt _ _ (limit_account-outcome g now opts next k r w₁).0
                (limit_account-outcome g now opts next k r w₁).1)
              (λ a e h. claimed h) in
          let ip_limited : P w → EndsAt on_ip w = λ q.
            EndsAt-bind (limit_ip g now opts next k r g.ip_rate) (λ _. on_account) w w₁
              (served_in-limit_ip g now opts next k r g.ip_rate w)
              ((limit_ip-Keeps g now opts next P keeps_p k r g.ip_rate refl).at w q)
              (goes_on-world _ _ tt _ _ (limit_ip-outcome g now opts next k r g.ip_rate w).0
                (limit_ip-outcome g now opts next k r g.ip_rate w).1)
              (λ a e h. limited h) in
          EndsAt-bind (require_key g now opts next k) (λ _. on_ip) w w
            (served_in-require_key g now opts next k w)
            ((require_key-Keeps g now opts next P keeps_p k).at w p)
            (goes_on-world _ _ tt _ _ (require_key-outcome g now opts next k w).0
              (require_key-outcome g now opts next k w).1)
            (λ a e h. ip_limited h)
