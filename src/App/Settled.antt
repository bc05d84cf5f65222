-- ===== src/App/Settled.antt =====
-- What a request to /withdraw does to the accounts of the example server.
use floodguard_rate_limiter.Prelude.{
  ℕ, ap, sym, subst, ◌∙◌, String, Bool, some, ◌≡◌, arith, inl, inr, ◌⊎◌,
}
use floodguard_rate_limiter.Prelude.Int.{ℤ, pos, ◌+ℤ◌, ◌-ℤ◌}
use floodguard_rate_limiter.Prelude.Dict.{Dict, lookup}
use floodguard_rate_limiter.Prelude.Int.{IsInt64}
use floodguard_rate_limiter.Errors.{Context}
use floodguard_rate_limiter.Ledger
use floodguard_rate_limiter.Ledger.{Printing}
use floodguard_rate_limiter.Wallet.{Account}
use floodguard_rate_limiter.DeviceTrust
use floodguard_rate_limiter.Anomaly.{Floats, Detector}
use floodguard_rate_limiter.StepUp
use floodguard_rate_limiter.StepUp.Gate as StepUpGate
use floodguard_rate_limiter.Challenge
use floodguard_rate_limiter.Challenge.Gate as ChallengeGate
use floodguard_rate_limiter.Lock.Token.{Random}
use floodguard_rate_limiter.Config.{Parsers, Config}
use floodguard_rate_limiter.Middleware.{HttpRequest}
use floodguard_rate_limiter.App.Service.{Service, withdraw}
use floodguard_rate_limiter.App.Withdrawals.{AllSound, account_of, Settles, withdraw-Settles}
use floodguard_rate_limiter.App.Wiring.{Libraries, World, request_of}
use floodguard_rate_limiter.App.Handlers.{
  read_clock, withdraw_handler, step_up_manager, challenge_manager, challenge_signals,
  challenge_options, step_up_options, captcha_handler, step_up_handler,
}

-- No account has changed, but for accounts with nothing in them that have been made.
abbrev pub IsSame : Dict Account → Dict Account → Type 0
IsSame before after =
    AllSound after × ((other : String) → account_of other after ≡ account_of other before)

-- The amount has left the account, and no other account has changed.
abbrev pub IsPaid : String → ℤ → Dict Account → Dict Account → Type 0
IsPaid id amount before after =
    AllSound after
    × ((account_of id after).total_cents ≡ (account_of id before).total_cents +ℤ (pos 0 -ℤ amount))
    × ((other : String) → (id ≡ other) ⊎ (account_of other after ≡ account_of other before))

-- The account of another name, from its entry.
same_account :
    (other : String) (m m' : Dict Account)
    → lookup other m' ≡ lookup other m
    → account_of other m' ≡ account_of other m
same_account other m m' e = ground (arith, e)

-- A withdrawal after changes of nothing.
settled_from :
    (id : String) (amount : ℤ) (status : ℕ) (m₀ m m' : Dict Account)
    → IsSame m₀ m
    → Settles amount (account_of id m) status (account_of id m')
    → ((other : String) → (id ≡ other) ⊎ (lookup other m' ≡ lookup other m))
    → AllSound m'
    → IsSame m₀ m' ⊎ IsPaid id amount m₀ m'
settled_from id amount status m₀ m m' (sound, same) settles rest sound' =
    let others : (other : String) → (id ≡ other) ⊎ (account_of other m' ≡ account_of other m₀) =
      λ other. elim (rest other) [
        | inl e ↦ inl e
        | inr e ↦ inr (same_account other m m' e ∙ same other)
      ] in
    elim settles [
      | inl (status_ok, moved, b) ↦
          inr (sound', moved ∙ ap (λ a. a.total_cents +ℤ (pos 0 -ℤ amount)) (same id), others)
      | inr (status_bad, unmoved) ↦ inl (
        sound',
        λ other. elim (others other) [
          | inl e ↦ subst (λ x. account_of x m' ≡ account_of x m₀) e (unmoved ∙ same id)
          | inr e ↦ e
        ],
      )
    ]

module _ (lib : Libraries) (P : Printing) (F : Floats) {G L D C N : Type 0} (clock : G → ℤ × G)
    (random : Random G) (ledger_store : Ledger.Store L) (device_store : DeviceTrust.Store D)
    (detector : Detector F C) (Q : Parsers) (cfg : Config Q) where
  withdraw_handler-settles :
      (r : HttpRequest) (w : World G L D C N) (amount : ℤ) (m₀ : Dict Account)
      → lib.decode_amount r.body ≡ some amount
      → IsInt64 amount
      → IsSame m₀ w.service.accounts
      → let w' = (withdraw_handler lib P F clock random ledger_store device_store detector r w).1 in
        IsSame m₀ w'.service.accounts
        ⊎ IsPaid (r.header "X-Account-ID") amount m₀ w'.service.accounts
  unfolding withdraw_handler
  withdraw_handler-settles r w amount m₀ e i same =
      let (t, w₁) = read_clock lib P F clock random ledger_store device_store detector w in
      let (reply, s) =
        withdraw P F ledger_store device_store detector t (request_of lib P r) w₁.service in
      let facts = λ (other : String).
        withdraw-Settles P F ledger_store device_store detector t amount (request_of lib P r) other
          w₁.service e i same.0 in
      rw (e, withdraw_handler)
        (settled_from (r.header "X-Account-ID") amount reply.status m₀ w.service.accounts s.accounts
          same (facts "").0 (λ other. (facts other).1) (facts "").2)

  pub step_up-service :
      (ctx : Context) (s : StepUp.Signals) (header : String) (w : World G L D C N)
      → (StepUp.check
          (step_up_manager lib P F clock random ledger_store device_store detector Q cfg)
          ctx
          s
          header
          w).1.service
        ≡ w.service
  unfolding StepUp.check StepUp.step_up StepUp.challenge step_up_manager StepUp.memory_verify
      StepUp.memory_consume StepUp.memory_issue StepUp.default_assess
  step_up-service ctx s header w = ground arith

  captcha-service :
      (ctx : Context) (account action : String) (s : Challenge.RiskSignals)
      (header response : String) (w : World G L D C N)
      → (Challenge.check
          (challenge_manager lib P F clock random ledger_store device_store detector Q cfg)
          ctx
          account
          action
          s
          header
          response
          w).1.service
        ≡ w.service
  unfolding Challenge.check Challenge.by_token Challenge.by_captcha Challenge.issue_anew
      challenge_manager Challenge.memory_issue Challenge.memory_mark_solved
      Challenge.memory_is_solved Challenge.stub_verify
  captcha-service ctx account action s header response w = ground arith

  pub captcha_asked-accounts :
      (r : HttpRequest) (w : World G L D C N)
      → (ChallengeGate.asked lib.error_text
          (challenge_manager lib P F clock random ledger_store device_store detector Q cfg)
          (challenge_options lib P F clock random ledger_store device_store detector Q cfg)
          (withdraw_handler lib P F clock random ledger_store device_store detector)
          r
          w).1.service.accounts
        ≡ w.service.accounts
  unfolding ChallengeGate.with_defaults challenge_signals
  captcha_asked-accounts r w =
      let account = r.header "X-Account-ID" in
      let (signals, w₁) =
        challenge_signals lib P F clock random ledger_store device_store detector Q cfg r account
          w in
      ap (λ (s : Service L D C N). s.accounts)
        (captcha-service r.context account "withdraw" signals (ChallengeGate.header_token r)
          (ChallengeGate.captcha_response r) w₁)

  captcha_handler-settles :
      (r : HttpRequest) (w : World G L D C N) (amount : ℤ) (m₀ : Dict Account)
      → lib.decode_amount r.body ≡ some amount
      → IsInt64 amount
      → IsSame m₀ w.service.accounts
      → let w' =
          (captcha_handler lib P F clock random ledger_store device_store detector Q cfg r w).1 in
        IsSame m₀ w'.service.accounts
        ⊎ IsPaid (r.header "X-Account-ID") amount m₀ w'.service.accounts
  unfolding captcha_handler
  captcha_handler-settles r w amount m₀ e i same =
      let id = r.header "X-Account-ID" in
      let mgr = challenge_manager lib P F clock random ledger_store device_store detector Q cfg in
      let opts = challenge_options lib P F clock random ledger_store device_store detector Q cfg in
      let next = withdraw_handler lib P F clock random ledger_store device_store detector in
      let w₁ = (ChallengeGate.asked lib.error_text mgr opts next r w).1 in
      let same₁ = subst (IsSame m₀) (sym (captcha_asked-accounts r w)) same in
      let goal = λ (v : World G L D C N).
        IsSame m₀ v.service.accounts ⊎ IsPaid id amount m₀ v.service.accounts in
      elim (ChallengeGate.gate-world lib.error_text mgr opts next r w) [
        | inl stays ↦ subst goal (sym stays) (inl same₁)
        | inr serves ↦ subst goal (sym serves) (withdraw_handler-settles r w₁ amount m₀ e i same₁)
      ]

  pub step_up_handler-settles :
      (r : HttpRequest) (w : World G L D C N) (amount : ℤ) (m₀ : Dict Account)
      → lib.decode_amount r.body ≡ some amount
      → IsInt64 amount
      → IsSame m₀ w.service.accounts
      → let w' =
          (step_up_handler lib P F clock random ledger_store device_store detector Q cfg r w).1 in
        IsSame m₀ w'.service.accounts
        ⊎ IsPaid (r.header "X-Account-ID") amount m₀ w'.service.accounts
  unfolding step_up_handler StepUpGate.with_defaults
  step_up_handler-settles r w amount m₀ e i same =
      let id = r.header "X-Account-ID" in
      let mgr = step_up_manager lib P F clock random ledger_store device_store detector Q cfg in
      let opts = step_up_options lib P F clock random ledger_store device_store detector Q cfg in
      let next = captcha_handler lib P F clock random ledger_store device_store detector Q cfg in
      let w₁ = (opts.known_device r (opts.account_key r) w).1 in
      let goal = λ (v : World G L D C N).
        IsSame m₀ v.service.accounts ⊎ IsPaid id amount m₀ v.service.accounts in
      let after = λ (k : Bool).
        StepUp.check mgr r.context (StepUpGate.signals_of lib.error_text mgr opts next r k)
          (StepUpGate.header_token r) w₁ in
      let same₁ = λ (k : Bool).
        subst (IsSame m₀)
          (sym (
            ap (λ (s : Service L D C N). s.accounts)
              (step_up-service r.context (StepUpGate.signals_of lib.error_text mgr opts next r k)
                (StepUpGate.header_token r) w₁)))
          same in
      elim (StepUpGate.gate-world lib.error_text mgr opts next r w) [
        | inl stays ↦ subst goal (sym stays) (inl same)
        | inr (k, inl stays) ↦ subst goal (sym stays) (inl (same₁ k))
        | inr (k, inr serves) ↦
            subst goal (sym serves) (captcha_handler-settles r (after k).1 amount m₀ e i (same₁ k))
      ]
