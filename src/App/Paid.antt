-- ===== src/App/Paid.antt =====
-- What a request to /withdraw of the example server, through all of its layers, does to the accounts.
use floodguard_rate_limiter.Prelude.{
  sym, subst, String, Bool, true, false, some, ◌≡◌, refl, arith, inl, inr, ◌⊎◌,
}
use floodguard_rate_limiter.Prelude.Int.{ℤ}
use floodguard_rate_limiter.Prelude.Int.{IsInt64}
use floodguard_rate_limiter.Prelude.Dict.{Dict}
use floodguard_rate_limiter.Errors.{Action, Result, ok, err}
use floodguard_rate_limiter.Velocity
use floodguard_rate_limiter.Guard.{Guard, velocity_key}
use floodguard_rate_limiter.Wallet.{Account}
use floodguard_rate_limiter.Ledger
use floodguard_rate_limiter.Ledger.{Printing}
use floodguard_rate_limiter.DeviceTrust
use floodguard_rate_limiter.Anomaly.{Floats, Detector}
use floodguard_rate_limiter.Lock.Token.{Random}
use floodguard_rate_limiter.Config.{Parsers, Config}
use floodguard_rate_limiter.Middleware.{HttpRequest, Options, NextHandler}
use floodguard_rate_limiter.Middleware.Handler.{Keys, keys_of, check_velocity, judge_velocity, flag}
use floodguard_rate_limiter.Middleware.Serving.{reaches_handler, handle-serves}
use floodguard_rate_limiter.Middleware.Serve.{handle}
use floodguard_rate_limiter.Middleware.Quiet.{served_in}
use floodguard_rate_limiter.Middleware.Keeps.{GuardKeeps}
use floodguard_rate_limiter.Middleware.Handled.{handle-Handles}
use floodguard_rate_limiter.App.Service.{Service}
use floodguard_rate_limiter.App.Withdrawals.{AllSound}
use floodguard_rate_limiter.App.Wiring.{Libraries, World, with_flag}
use floodguard_rate_limiter.App.Handlers.{now, step_up_handler, middleware_options, withdraw_chain}
use floodguard_rate_limiter.App.Settled.{IsSame, IsPaid, step_up_handler-settles}

-- A guard that leaves the service alone keeps what is so of the service.
pub of_service :
    {G L D C N : Type 0} (P : Service L D C N → Type 0) (g : Guard (World G L D C N))
    (t : Action (World G L D C N) ℤ) (opts : Options (World G L D C N))
    → ((s : Service L D C N) → GuardKeeps (λ (w : World G L D C N). w.service ≡ s) g t opts)
    → GuardKeeps (λ (w : World G L D C N). P w.service) g t opts
of_service P g t opts h = record {
  ip = λ l e ctx key w p. subst P (sym ((h w.service).ip l e ctx key w refl)) p;
  account = λ ctx key w p. subst P (sym ((h w.service).account ctx key w refl)) p;
  velocity = λ ctx key w p. subst P (sym ((h w.service).velocity ctx key w refl)) p;
  lock = λ ctx key w p. subst P (sym ((h w.service).lock ctx key w refl)) p;
  release = λ ctx key w w' f e p. subst P (sym ((h w'.service).release ctx key w w' f e refl)) p;
  blocks = λ f e r why w p. subst P (sym ((h w.service).blocks f e r why w refl)) p;
  flags = λ f e r why w p. subst P (sym ((h w.service).flags f e r why w refl)) p;
  begins = λ ctx key w p. subst P (sym ((h w.service).begins ctx key w refl)) p;
  completes = λ ctx key body w b p. subst P (sym ((h w.service).completes ctx key body w b refl)) p;
}

module _ (lib : Libraries) (P : Printing) (F : Floats) {G L D C N : Type 0} (clock : G → ℤ × G)
    (random : Random G) (ledger_store : Ledger.Store L) (device_store : DeviceTrust.Store D)
    (detector : Detector F C) (Q : Parsers) (cfg : Config Q) (g : Guard (World G L D C N)) where
  -- The request that goes on after the velocity rules: the request, or the request with the flag.
  judge_velocity-request :
      (next : NextHandler (World G L D C N)) (k : Keys) (r r' : HttpRequest)
      (res : Result (Bool × String)) (w : World G L D C N)
      → (judge_velocity g
          (now lib P F clock random ledger_store device_store detector)
          (middleware_options lib P F clock random ledger_store device_store detector Q cfg)
          next
          k
          r
          res
          w).0
        ≡ some r'
      → (r' ≡ r) ⊎ (r' ≡ with_flag r)
  unfolding judge_velocity flag middleware_options
  judge_velocity-request next k r r' (err e) w h = ground arith
  judge_velocity-request next k r r' (ok (true, why)) w h = ground arith
  judge_velocity-request next k r r' (ok (false, why)) w h = ground arith

  abbrev pub time : Action (World G L D C N) ℤ
  time = now lib P F clock random ledger_store device_store detector

  abbrev pub options : Options (World G L D C N)
  options = middleware_options lib P F clock random ledger_store device_store detector Q cfg

  abbrev pub inner : NextHandler (World G L D C N)
  inner = step_up_handler lib P F clock random ledger_store device_store detector Q cfg

  -- One request, from a world where nothing has left the accounts.
  pub handle-settles :
      (r : HttpRequest) (amount : ℤ) (m₀ : Dict Account)
      → ((s : Service L D C N) → GuardKeeps (λ (v : World G L D C N). v.service ≡ s) g time options)
      → lib.decode_amount r.body ≡ some amount
      → IsInt64 amount
      → (w : World G L D C N) → IsSame m₀ w.service.accounts
      → let (o, es, w') = handle g time options inner r w in
        ((served_in es ≡ 0) × IsSame m₀ w'.service.accounts)
        ⊎ ((served_in es ≡ 1)
            × (IsSame m₀ w'.service.accounts
                ⊎ IsPaid (r.header "X-Account-ID") amount m₀ w'.service.accounts))
  unfolding check_velocity
  handle-settles r amount m₀ apart e i =
      let id = r.header "X-Account-ID" in
      let k = keys_of g time options inner r in
      let same = λ (s : Service L D C N). IsSame m₀ s.accounts in
      let settled =
        λ (s : Service L D C N). IsSame m₀ s.accounts ⊎ IsPaid id amount m₀ s.accounts in
      let alike = λ (x : HttpRequest).
        (x.header "X-Account-ID" ≡ id) × (lib.decode_amount x.body ≡ some amount) in
      handle-Handles g time options inner (λ v. same v.service) (λ v. settled v.service)
        (of_service same g time options apart) (of_service settled g time options apart) alike
        (λ x v (named, decoded) p.
          let after = (inner x v).1.service.accounts in
          subst (λ (name : String). IsSame m₀ after ⊎ IsPaid name amount m₀ after) named
            (step_up_handler-settles lib P F clock random ledger_store device_store detector Q cfg x
              v amount m₀ decoded i p))
        r
        (λ v x p found.
          let (res, v') =
            Velocity.check g.velocity time r.context (velocity_key k.account options.action) v in
          elim (judge_velocity-request inner k r x res v' found) [
            | inl a ↦ subst alike (sym a) (refl, e)
            | inr a ↦ subst alike (sym a) (refl, e)
          ])

  -- For the handler of /withdraw that New builds, over any guard whose parts leave the service
  -- alone, in a service whose accounts all have nothing on hold and a total between 0 and
  -- MaxInt64, and a request whose body gives an int64 amount: either no account changes, but for
  -- empty ones that are made, or the request has passed the test of every layer of the middleware,
  -- exactly the amount has left the account of the X-Account-ID header, and no other account has
  -- changed; the accounts stay as they should either way.
  pub withdraw_chain-pays :
      (r : HttpRequest) (w : World G L D C N) (amount : ℤ)
      → ((s : Service L D C N) → GuardKeeps (λ (v : World G L D C N). v.service ≡ s) g time options)
      → lib.decode_amount r.body ≡ some amount
      → IsInt64 amount
      → AllSound w.service.accounts
      → let w' =
          (withdraw_chain lib P F clock random ledger_store device_store detector Q cfg g r w).2 in
        IsSame w.service.accounts w'.service.accounts
        ⊎ ((reaches_handler g time options inner r w ≡ true)
            × IsPaid (r.header "X-Account-ID") amount w.service.accounts w'.service.accounts)
  unfolding withdraw_chain
  withdraw_chain-pays r w amount apart e i sound =
      elim (handle-settles r amount w.service.accounts apart e i w (sound, λ other. refl)) [
        | inl (n, kept) ↦ inl kept
        | inr (n, inl kept) ↦ inl kept
        | inr (n, inr paid) ↦ inr (ground (arith, n, handle-serves g time options inner r w), paid)
      ]
