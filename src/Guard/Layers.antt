-- ===== src/Guard/Layers.antt =====
-- Which requests Guard.Protect of floodguard.go lets through.
use floodguard_rate_limiter.Prelude.{
  ap, subst, ◌∙◌, String, true, false, Option, none, some, [], ◌≡◌, refl, ◌≢◌, ◌↔◌, arith, text_eq,
  eq_iff, if◌then◌else◌, ◌⊎◌,
}
use floodguard_rate_limiter.Prelude.Int.{ℤ}
use floodguard_rate_limiter.Errors.{pure, Result, err, ◌>>=◌, Action, Context, ok}
use floodguard_rate_limiter.RateLimit.{Limiter}
use floodguard_rate_limiter.Idempotency
use floodguard_rate_limiter.Velocity
use floodguard_rate_limiter.Velocity.Overlaps.{is_allowed}
use floodguard_rate_limiter.Guard.{
  Guard, protect, Outcome, allow, or_continue, Request, velocity_key, check_ip, check_account,
  check_idempotency, check_velocity,
}

module _ {W : Type 0} where
  -- The world after each layer.
  abbrev pub after_ip : Option (Limiter W) → Context → String → W → W
  after_ip none ctx ip w = w
  after_ip (some l) ctx ip w = if text_eq ip "" then w else (l.allow ctx ip w).1

  abbrev pub after_claim : Idempotency.Manager W → Context → String → W → W
  after_claim m ctx key w = if text_eq key "" then w else (Idempotency.begin m ctx key w).1

  -- What it means for a request to pass each layer in a world.
  abbrev pub PassesIp : Option (Limiter W) → Context → String → W → Type 0
  PassesIp none ctx ip w = Unit {0}
  PassesIp (some l) ctx ip w = (ip ≡ "") ⊎ ((l.allow ctx ip w).0 ≡ ok true)

  abbrev pub PassesClaim : Idempotency.Manager W → Context → String → W → Type 0
  PassesClaim m ctx key w = (key ≡ "") ⊎ ((Idempotency.begin m ctx key w).0 ≡ ok (true, []))

  abbrev pub PassesVelocity : Velocity.Engine W → Action W ℤ → Context → String → W → Type 0
  PassesVelocity e now ctx key w = is_allowed (Velocity.check e now ctx key w).0 ≡ true

  pub check_ip-none :
      (l : Option (Limiter W)) (ctx : Context) (ip : String) (w : W)
      → ((check_ip l ctx ip w).0 ≡ ok none) ↔ PassesIp l ctx ip w
  unfolding check_ip
  check_ip-none none ctx ip w = (λ h. tt, λ p. refl)
  check_ip-none (some l) ctx ip w =
      (λ h. ground (arith, eq_iff ip ""), λ p. ground (arith, eq_iff ip ""))

  pub check_ip-after :
      (l : Option (Limiter W)) (ctx : Context) (ip : String) (w : W)
      → (check_ip l ctx ip w).1 ≡ after_ip l ctx ip w
  unfolding check_ip
  check_ip-after none ctx ip w = refl
  check_ip-after (some l) ctx ip w = ground arith

  pub check_account-none :
      (l : Limiter W) (ctx : Context) (key : String) (w : W)
      → ((check_account l ctx key w).0 ≡ ok none) ↔ ((l.allow ctx key w).0 ≡ ok true)
  unfolding check_account
  check_account-none l ctx key w = (λ h. ground arith, λ p. ground arith)

  pub check_account-after :
      (l : Limiter W) (ctx : Context) (key : String) (w : W)
      → (check_account l ctx key w).1 ≡ (l.allow ctx key w).1
  unfolding check_account
  check_account-after l ctx key w = ground arith

  check_idempotency-none :
      (m : Idempotency.Manager W) (ctx : Context) (key : String) (w : W)
      → ((check_idempotency m ctx key w).0 ≡ ok none) ↔ PassesClaim m ctx key w
  unfolding check_idempotency
  check_idempotency-none m ctx key w =
      (λ h. ground (arith, eq_iff key ""), λ p. ground (arith, eq_iff key ""))

  pub check_idempotency-after :
      (m : Idempotency.Manager W) (ctx : Context) (key : String) (w : W)
      → (check_idempotency m ctx key w).1 ≡ after_claim m ctx key w
  unfolding check_idempotency
  check_idempotency-after m ctx key w = ground arith

  check_velocity-none :
      (e : Velocity.Engine W) (now : Action W ℤ) (ctx : Context) (key : String) (w : W)
      → ((check_velocity e now ctx key w).0 ≡ ok none) ↔ PassesVelocity e now ctx key w
  unfolding check_velocity
  check_velocity-none e now ctx key w = (λ h. ground arith, λ p. ground arith)

  -- A layer that stops the request denies it.
  check_ip-some :
      (l : Option (Limiter W)) (ctx : Context) (ip : String) (w : W) {o : Outcome}
      → (check_ip l ctx ip w).0 ≡ ok (some o)
      → o.allowed ≡ false
  unfolding check_ip
  check_ip-some none ctx ip w h = cc
  check_ip-some (some l) ctx ip w h = ground arith

  check_account-some :
      (l : Limiter W) (ctx : Context) (key : String) (w : W) {o : Outcome}
      → (check_account l ctx key w).0 ≡ ok (some o)
      → o.allowed ≡ false
  unfolding check_account
  check_account-some l ctx key w h = ground arith

  check_idempotency-some :
      (m : Idempotency.Manager W) (ctx : Context) (key : String) (w : W) {o : Outcome}
      → (check_idempotency m ctx key w).0 ≡ ok (some o)
      → o.allowed ≡ false
  unfolding check_idempotency
  check_idempotency-some m ctx key w h = ground arith

  check_velocity-some :
      (e : Velocity.Engine W) (now : Action W ℤ) (ctx : Context) (key : String) (w : W)
      {o : Outcome}
      → (check_velocity e now ctx key w).0 ≡ ok (some o)
      → o.allowed ≡ false
  unfolding check_velocity
  check_velocity-some e now ctx key w h = ground arith

  -- A pipeline that allows the request went past its first layer.
  stage :
      (m : Action W (Option Outcome)) (k : Action W Outcome) (w : W)
      → ((o : Outcome) → (m w).0 ≡ ok (some o) → o.allowed ≡ false)
      → ((m >>= λ s. or_continue s k) w).0 ≡ ok allow
      → ((m w).0 ≡ ok none) × ((k (m w).1).0 ≡ ok allow)
  stage m k w denies h = go (m w).0 refl
    where
      go :
          (r : Result (Option Outcome))
          → (m w).0 ≡ r
          → ((m w).0 ≡ ok none) × ((k (m w).1).0 ≡ ok allow)
      go (ok none) e = (e, ground arith)
      go (ok (some o)) e = let d = denies o e in absurd (ground arith)
      go (err x) e = absurd (ground arith)

  -- All layers, in the order of the code, each in the world that the one before has left.
  pub record PassesAll (g : Guard W) (now : Action W ℤ) (ctx : Context) (req : Request) (w : W)
      : Type 0 where
    pub named : req.key ≢ ""
    pub ip : PassesIp g.ip_rate ctx req.ip_key w
    pub account : (g.rate.allow ctx req.key (after_ip g.ip_rate ctx req.ip_key w)).0 ≡ ok true
    pub claim :
        PassesClaim g.idempotency ctx req.idempotency_key
          (g.rate.allow ctx req.key (after_ip g.ip_rate ctx req.ip_key w)).1
    pub velocity : PassesVelocity g.velocity now ctx (velocity_key req.key req.action) (
        after_claim g.idempotency ctx req.idempotency_key
          (g.rate.allow ctx req.key (after_ip g.ip_rate ctx req.ip_key w)).1)

  -- Protect returns Allowed exactly when the request's key is not empty and the request passes
  -- every layer in turn, each in the world that the ones before have left: the IP limiter, which a
  -- missing limiter or IP key skips, the account limiter, the idempotency claim, which an empty
  -- idempotency key skips, and the velocity check of its velocity key.
  pub protect_allows_iff :
      (g : Guard W) (now : Action W ℤ) (ctx : Context) (req : Request) (w : W)
      → ((protect g now ctx req w).0 ≡ ok allow) ↔ PassesAll g now ctx req w
  unfolding protect
  protect_allows_iff g now ctx req w =
      let w₁ = after_ip g.ip_rate ctx req.ip_key w in
      let w₂ = (g.rate.allow ctx req.key w₁).1 in
      let w₃ = after_claim g.idempotency ctx req.idempotency_key w₂ in
      let vel = velocity_key req.key req.action in
      let k₃ : Action W Outcome =
        check_velocity g.velocity now ctx vel >>= λ s. or_continue s (pure allow) in
      let k₂ : Action W Outcome =
        check_idempotency g.idempotency ctx req.idempotency_key >>= λ s. or_continue s k₃ in
      let k₁ : Action W Outcome = check_account g.rate ctx req.key >>= λ s. or_continue s k₂ in
      (
        λ h.
            let named : text_eq req.key "" ≡ false = ground arith in
            let (ip, h₁) =
              stage (check_ip g.ip_rate ctx req.ip_key) k₁ w
                (λ o. check_ip-some g.ip_rate ctx req.ip_key w) (ground arith) in
            let (account, h₂) =
              stage (check_account g.rate ctx req.key) k₂ (check_ip g.ip_rate ctx req.ip_key w).1
                (λ o. check_account-some g.rate ctx req.key _) h₁ in
            let at₂ =
              (check_account g.rate ctx req.key (check_ip g.ip_rate ctx req.ip_key w).1).1 in
            let (claim, h₃) =
              stage (check_idempotency g.idempotency ctx req.idempotency_key) k₃ at₂
                (λ o. check_idempotency-some g.idempotency ctx req.idempotency_key _) h₂ in
            let at₃ = (check_idempotency g.idempotency ctx req.idempotency_key at₂).1 in
            let (velocity, h₄) =
              stage (check_velocity g.velocity now ctx vel) (pure allow) at₃
                (λ o. check_velocity-some g.velocity now ctx vel _) h₃ in
            let e₁ = check_ip-after g.ip_rate ctx req.ip_key w in
            let e₂ : at₂ ≡ w₂ =
              check_account-after g.rate ctx req.key (check_ip g.ip_rate ctx req.ip_key w).1
              ∙ ap (λ v. (g.rate.allow ctx req.key v).1) e₁ in
            let e₃ : at₃ ≡ w₃ =
              check_idempotency-after g.idempotency ctx req.idempotency_key at₂
              ∙ ap (after_claim g.idempotency ctx req.idempotency_key) e₂ in
            record {
              named = λ e. cc ((eq_iff req.key "").1 e);
              ip = (check_ip-none g.ip_rate ctx req.ip_key w).0 ip;
              account =
                  subst (λ v. (g.rate.allow ctx req.key v).0 ≡ ok true) e₁
                    ((check_account-none g.rate ctx req.key _).0 account);
              claim =
                  subst (PassesClaim g.idempotency ctx req.idempotency_key) e₂
                    ((check_idempotency-none g.idempotency ctx req.idempotency_key at₂).0 claim);
              velocity =
                  subst (PassesVelocity g.velocity now ctx vel) e₃
                    ((check_velocity-none g.velocity now ctx vel at₃).0 velocity);
            },
        λ p. ground (
          arith,
          eq_iff req.key "",
          (check_ip-none g.ip_rate ctx req.ip_key w).1 p.ip,
          check_ip-after g.ip_rate ctx req.ip_key w,
          (check_account-none g.rate ctx req.key w₁).1 p.account,
          check_account-after g.rate ctx req.key w₁,
          (check_idempotency-none g.idempotency ctx req.idempotency_key w₂).1 p.claim,
          check_idempotency-after g.idempotency ctx req.idempotency_key w₂,
          (check_velocity-none g.velocity now ctx vel w₃).1 p.velocity,
        ),
      )
