-- ===== src/App/Flagged.antt =====
-- Requests to /withdraw of the example server that the velocity rules flag.
use floodguard_rate_limiter.Prelude.{
  ap, sym, subst, String, Bool, true, false, some, ◌≡◌, refl, ◌≢◌, arith, inl, inr, ◌⊎◌,
}
use floodguard_rate_limiter.Prelude.Int.{ℤ}
use floodguard_rate_limiter.Prelude.Dict.{Dict}
use floodguard_rate_limiter.Errors.{Result, ok, err, Context}
use floodguard_rate_limiter.Velocity
use floodguard_rate_limiter.Guard.{Guard, velocity_key}
use floodguard_rate_limiter.Ledger
use floodguard_rate_limiter.Ledger.{Printing}
use floodguard_rate_limiter.Wallet.{Account}
use floodguard_rate_limiter.DeviceTrust
use floodguard_rate_limiter.Anomaly.{Floats, Detector}
use floodguard_rate_limiter.StepUp
use floodguard_rate_limiter.StepUp.Gate as StepUpGate
use floodguard_rate_limiter.Challenge
use floodguard_rate_limiter.Challenge.Gate as ChallengeGate
use floodguard_rate_limiter.Lock.Token.{Random}
use floodguard_rate_limiter.Config.{Parsers, Config}
use floodguard_rate_limiter.Middleware.{HttpRequest, NextHandler}
use floodguard_rate_limiter.Middleware.Handler.{Keys, keys_of, check_velocity, judge_velocity, flag}
use floodguard_rate_limiter.Middleware.Keeps.{GuardKeeps}
use floodguard_rate_limiter.Middleware.HandledAt.{before_velocity, handle-EndsAt}
use floodguard_rate_limiter.App.Service.{Service}
use floodguard_rate_limiter.App.Withdrawals.{AllSound}
use floodguard_rate_limiter.App.Wiring.{Libraries, World, with_flag, velocity_flagged}
use floodguard_rate_limiter.App.Handlers.{
  now, step_up_manager, challenge_manager, challenge_signals, challenge_options, step_up_options,
  withdraw_handler, captcha_handler, step_up_handler, middleware_options, withdraw_chain,
}
use floodguard_rate_limiter.App.Settled.{IsSame, step_up-service, captcha_asked-accounts}
use floodguard_rate_limiter.App.Paid.{of_service}

-- Without a step-up token, or without a challenge token.
abbrev pub LacksToken : HttpRequest → Type 0
LacksToken r = (r.header "X-Step-Up-Token" ≡ "") ⊎ (r.header "X-Challenge-Token" ≡ "")

module _ (lib : Libraries) (P : Printing) (F : Floats) {G L D C N : Type 0} (clock : G → ℤ × G)
    (random : Random G) (ledger_store : Ledger.Store L) (device_store : DeviceTrust.Store D)
    (detector : Detector F C) (Q : Parsers) (cfg : Config Q) where
  step_up-refuses :
      (ctx : Context) (s : StepUp.Signals) (w : World G L D C N)
      → s.velocity_flagged ≡ true
      → StepUpGate.is_clear
          (StepUp.check
            (step_up_manager lib P F clock random ledger_store device_store detector Q cfg)
            ctx
            s
            ""
            w).0.error
        ≡ false
  unfolding StepUp.check StepUp.step_up StepUp.challenge StepUp.default_assess
      StepUp.requires_step_up step_up_manager
  step_up-refuses ctx s w h = ground arith

  captcha-refuses :
      (ctx : Context) (account action : String) (s : Challenge.RiskSignals) (response : String)
      (w : World G L D C N)
      → s.velocity_flagged ≡ true
      → ChallengeGate.is_clear
          (Challenge.check
            (challenge_manager lib P F clock random ledger_store device_store detector Q cfg)
            ctx
            account
            action
            s
            ""
            response
            w).0.1
        ≡ false
  unfolding Challenge.check Challenge.by_token Challenge.by_captcha Challenge.issue_anew
      Challenge.challenge_required challenge_manager
  captcha-refuses ctx account action s response w h = ground arith

  -- A flagged request without a challenge token leaves the accounts at the CAPTCHA middleware.
  captcha_handler-flagged :
      (r : HttpRequest) (w : World G L D C N) (m₀ : Dict Account)
      → velocity_flagged r ≡ true
      → r.header "X-Challenge-Token" ≡ ""
      → IsSame m₀ w.service.accounts
      → IsSame m₀
          (captcha_handler lib P F clock random ledger_store device_store detector Q cfg r
            w).1.service.accounts
  unfolding captcha_handler ChallengeGate.with_defaults challenge_signals
  captcha_handler-flagged r w m₀ flagged e same =
      let account = r.header "X-Account-ID" in
      let mgr = challenge_manager lib P F clock random ledger_store device_store detector Q cfg in
      let opts = challenge_options lib P F clock random ledger_store device_store detector Q cfg in
      let next = withdraw_handler lib P F clock random ledger_store device_store detector in
      let (signals, w₁) =
        challenge_signals lib P F clock random ledger_store device_store detector Q cfg r account
          w in
      let response = ChallengeGate.captcha_response r in
      let refused =
        subst
          (λ (header : String).
            ChallengeGate.is_clear
              (Challenge.check mgr r.context account "withdraw" signals header response w₁).0.1
            ≡ false)
          (sym e) (captcha-refuses r.context account "withdraw" signals response w₁ flagged) in
      subst (λ (v : World G L D C N). IsSame m₀ v.service.accounts)
        (sym (ChallengeGate.gate-refused lib.error_text mgr opts next r w refused))
        (subst (IsSame m₀)
          (sym (
            captcha_asked-accounts lib P F clock random ledger_store device_store detector Q cfg r
              w))
          same)

  step_up_handler-flagged :
      (r : HttpRequest) (w : World G L D C N) (m₀ : Dict Account)
      → velocity_flagged r ≡ true
      → LacksToken r
      → IsSame m₀ w.service.accounts
      → IsSame m₀
          (step_up_handler lib P F clock random ledger_store device_store detector Q cfg r
            w).1.service.accounts
  unfolding step_up_handler StepUpGate.with_defaults
  step_up_handler-flagged r w m₀ flagged lacks same =
      let mgr = step_up_manager lib P F clock random ledger_store device_store detector Q cfg in
      let opts = step_up_options lib P F clock random ledger_store device_store detector Q cfg in
      let next = captcha_handler lib P F clock random ledger_store device_store detector Q cfg in
      let w₁ = (opts.known_device r (opts.account_key r) w).1 in
      let signals = λ (k : Bool). StepUpGate.signals_of lib.error_text mgr opts next r k in
      let checked =
        λ (k : Bool). StepUp.check mgr r.context (signals k) (StepUpGate.header_token r) w₁ in
      let goal = λ (v : World G L D C N). IsSame m₀ v.service.accounts in
      let same₁ = λ (k : Bool).
        subst (IsSame m₀)
          (sym (
            ap (λ (s : Service L D C N). s.accounts)
              (step_up-service lib P F clock random ledger_store device_store detector Q cfg
                r.context (signals k) (StepUpGate.header_token r) w₁)))
          same in
      elim lacks [
        | inl e ↦
            let refused = λ (k : Bool).
              subst
                (λ (header : String).
                  StepUpGate.is_clear (StepUp.check mgr r.context (signals k) header w₁).0.error
                  ≡ false)
                (sym e) (step_up-refuses r.context (signals k) w₁ flagged) in
            elim (StepUpGate.gate-refused lib.error_text mgr opts next r w refused) [
              | inl stays ↦ subst goal (sym stays) same
              | inr (k, stays) ↦ subst goal (sym stays) (same₁ k)
            ]
        | inr e ↦ elim (StepUpGate.gate-world lib.error_text mgr opts next r w) [
          | inl stays ↦ subst goal (sym stays) same
          | inr (k, inl stays) ↦ subst goal (sym stays) (same₁ k)
          | inr (k, inr serves) ↦
              subst goal (sym serves)
                (captcha_handler-flagged r (checked k).1 m₀ flagged e (same₁ k))
        ]
      ]

  -- The request that goes on when the velocity engine does not allow it is the one with the flag.
  judge_velocity-flags :
      (g : Guard (World G L D C N)) (next : NextHandler (World G L D C N)) (k : Keys)
      (r r' : HttpRequest) (res : Result (Bool × String)) (w : World G L D C N)
      → ((why : String) → res ≢ ok (true, why))
      → (judge_velocity g
          (now lib P F clock random ledger_store device_store detector)
          (middleware_options lib P F clock random ledger_store device_store detector Q cfg)
          next
          k
          r
          res
          w).0
        ≡ some r'
      → r' ≡ with_flag r
  unfolding judge_velocity flag middleware_options
  judge_velocity-flags g next k r r' (err e) w n h = ground arith
  judge_velocity-flags g next k r r' (ok (true, why)) w n h = absurd (n why refl)
  judge_velocity-flags g next k r r' (ok (false, why)) w n h = ground arith

  -- For the handler of /withdraw that New builds, over any guard whose parts leave the service
  -- alone and whose velocity engine does not allow the request in the world that the limiters and
  -- the idempotency claim have left, in a service whose accounts all have nothing on hold and a
  -- total between 0 and MaxInt64: a request without a step-up token or without a challenge token
  -- changes no account, but for empty ones that are made, also where velocity flags are set not to
  -- block.
  pub flagged-keeps_accounts :
      (g : Guard (World G L D C N)) (r : HttpRequest) (w : World G L D C N)
      → ((s : Service L D C N)
          → GuardKeeps
              (λ (v : World G L D C N). v.service ≡ s)
              g
              (now lib P F clock random ledger_store device_store detector)
              (middleware_options lib P F clock random ledger_store device_store detector Q cfg))
      → (let t = now lib P F clock random ledger_store device_store detector in
          let opts =
            middleware_options lib P F clock random ledger_store device_store detector Q cfg in
          let next =
            step_up_handler lib P F clock random ledger_store device_store detector Q cfg in
          (why : String)
          → (Velocity.check g.velocity t r.context
              (velocity_key (keys_of g t opts next r).account opts.action)
              (before_velocity g t opts next r w)).0
            ≢ ok (true, why))
      → LacksToken r
      → AllSound w.service.accounts
      → let w' =
          (withdraw_chain lib P F clock random ledger_store device_store detector Q cfg g r w).2 in
        IsSame w.service.accounts w'.service.accounts
  unfolding withdraw_chain check_velocity velocity_flagged
  flagged-keeps_accounts g r w apart refuses lacks sound =
      let t = now lib P F clock random ledger_store device_store detector in
      let opts = middleware_options lib P F clock random ledger_store device_store detector Q cfg in
      let next = step_up_handler lib P F clock random ledger_store device_store detector Q cfg in
      let m₀ = w.service.accounts in
      let same = λ (s : Service L D C N). IsSame m₀ s.accounts in
      let keeps = of_service same g t opts apart in
      let flagged = λ (x : HttpRequest). (velocity_flagged x ≡ true) × LacksToken x in
      let key = velocity_key (keys_of g t opts next r).account opts.action in
      let (res, v) =
        Velocity.check g.velocity t r.context key (before_velocity g t opts next r w) in
      let handled =
        handle-EndsAt g t opts next (λ v. same v.service) (λ v. same v.service) keeps keeps flagged
          (λ x v (f, l) p. step_up_handler-flagged x v m₀ f l p) r w
          (λ x found.
            subst flagged
              (sym (judge_velocity-flags g next (keys_of g t opts next r) r x res v refuses found))
              (refl, lacks))
          (sound, λ other. refl) in
      elim handled [ inl (n, kept) ↦ kept | inr (n, kept) ↦ kept ]
