-- ===== src/App/Handlers.antt =====
-- example/app/app.go: the managers of the server, the handlers around `Withdraw`, and the routes.
use floodguard_rate_limiter.Prelude.{
  String, false, none, some, List, [], ◌∷◌, text_eq, if◌then◌else◌, ◌==◌,
}
use floodguard_rate_limiter.Prelude.Int.{ℤ}
use floodguard_rate_limiter.Errors.{Action, Result, ok}
use floodguard_rate_limiter.Lock.Token.{Random, random_token}
use floodguard_rate_limiter.Guard.{Guard}
use floodguard_rate_limiter.Middleware
use floodguard_rate_limiter.Middleware.{
  HttpRequest, write_header, write, Event, NextHandler, Run, called_all,
}
use floodguard_rate_limiter.Middleware.Keys as KeyFunctions
use floodguard_rate_limiter.Middleware.Serve.{handle}
use floodguard_rate_limiter.Ledger
use floodguard_rate_limiter.Ledger.{Printing}
use floodguard_rate_limiter.DeviceTrust
use floodguard_rate_limiter.DeviceTrust.{is_known_device}
use floodguard_rate_limiter.DeviceTrust.Fingerprint.{fingerprint_from_request}
use floodguard_rate_limiter.StepUp
use floodguard_rate_limiter.StepUp.{Challenges}
use floodguard_rate_limiter.StepUp.Gate as StepUpGate
use floodguard_rate_limiter.Challenge
use floodguard_rate_limiter.Challenge.{Tokens, RiskSignals}
use floodguard_rate_limiter.Challenge.Gate as ChallengeGate
use floodguard_rate_limiter.Anomaly.{Floats, Detector, detect_spike}
use floodguard_rate_limiter.Config.{Parsers, Config}
use floodguard_rate_limiter.App.Service.{new_service, withdraw, trust_device, balance, account_age}
use floodguard_rate_limiter.App.Wiring.{
  Libraries, World, velocity_flagged, with_flag, calls_of, request_of, write_reply, spike_of,
}

module _ (lib : Libraries) (P : Printing) (F : Floats) {G L D C N : Type 0} (clock : G → ℤ × G)
    (random : Random G) (ledger_store : Ledger.Store L) (device_store : DeviceTrust.Store D)
    (detector : Detector F C) where
  -- `time.Now`
  abbrev pub read_clock : World G L D C N → ℤ × World G L D C N
  read_clock w = let (t, g) = clock w.outside in (t, record w { outside = g })

  abbrev pub now : Action (World G L D C N) ℤ
  now w = let (t, w') = read_clock w in (ok t, w')

  -- The package's `randomToken`, and then the time that an entry is issued at.
  abbrev pub token_at :
      {A : Type 0} → (ℤ → Result String → Action (World G L D C N) A) → Action (World G L D C N) A
  token_at issue w =
      let (token, g) = random_token random w.outside in
      let (t, w') = read_clock (record w { outside = g }) in issue t token w'

  abbrev pub on_step_ups : {A : Type 0} → Action Challenges A → Action (World G L D C N) A
  on_step_ups act w = let (r, m) = act w.step_ups in (r, record w { step_ups = m })

  abbrev pub on_tokens : {A : Type 0} → Action Tokens A → Action (World G L D C N) A
  on_tokens act w = let (r, m) = act w.tokens in (r, record w { tokens = m })

  abbrev pub on_devices : {A : Type 0} → Action D A → Action (World G L D C N) A
  on_devices act w =
      let (r, m) = act w.service.devices in
      (r, record w { service = record w.service { devices = m } })

  -- The in-memory stores of the two managers.
  abbrev pub step_up_store : StepUp.ChallengeStore (World G L D C N)
  step_up_store = record {
    issue = λ ctx account action level ttl.
        token_at (λ t token. on_step_ups (StepUp.memory_issue t token account action level ttl));
    verify = λ ctx account action token w.
        let (t, w') = read_clock w in on_step_ups (StepUp.memory_verify t account action token) w';
    consume = λ ctx account action token. on_step_ups (StepUp.memory_consume account action token);
  }

  abbrev pub token_store : Challenge.TokenStore (World G L D C N)
  token_store = record {
    issue = λ ctx account action ttl.
        token_at (λ t token. on_tokens (Challenge.memory_issue t token account action ttl));
    mark_solved =
        λ ctx account action token. on_tokens (Challenge.memory_mark_solved account action token);
    is_solved = λ ctx account action token w.
        let (t, w') = read_clock w in
        on_tokens (Challenge.memory_is_solved t account action token) w';
  }

  -- `Withdraw`, `TrustDevice` and `Balance` as handlers
  unfoldable pub withdraw_handler : NextHandler (World G L D C N)
  withdraw_handler r w =
      let (t, w₁) = read_clock w in
      let (reply, s) =
        withdraw P F ledger_store device_store detector t (request_of lib P r) w₁.service in
      elim (lib.decode_amount r.body) [
        | none ↦ (lib.http_error "{\"error\":\"invalid json\"}" 400, w)
        | some amount ↦ (write_reply lib reply, record w₁ { service = s })
      ]

  unfoldable pub trust_handler : NextHandler (World G L D C N)
  trust_handler r w =
      let (t, w₁) = read_clock w in
      let (reply, s) =
        trust_device P F ledger_store device_store detector t (request_of lib P r) w₁.service in
      (
        if reply.status == 400
            then lib.http_error "{\"error\":\"X-Account-ID and X-Device-ID required\"}" 400
            else if reply.status == 500
            then lib.http_error "{\"error\":\"trust failed\"}" 500
            else write_reply lib reply,
        record w₁ { service = s },
      )

  unfoldable pub balance_handler : NextHandler (World G L D C N)
  balance_handler r w =
      let reply = balance P F ledger_store device_store detector (request_of lib P r) w.service in
      (
        if reply.status == 400
            then lib.http_error "{\"error\":\"X-Account-ID required\"}" 400
            else write_reply lib reply,
        w,
      )

  module _ (Q : Parsers) (cfg : Config Q) where
    -- The process's state after `New` at a time, the ledger, the devices and the counter being handed in.
    unfoldable pub new_world : ℤ → G → L → D → C → N → World G L D C N
    unfolding new_service
    new_world at outside ledger devices counts sender = record {
      outside = outside;
      service =
          new_service P F ledger_store device_store detector at cfg.demo.account_balances ledger
            devices counts
            (if cfg.notify.enabled
              then some (record { ch = []; log = []; world = sender })
              else none);
      step_ups = [];
      tokens = [];
    }

    -- The managers of `New`.
    unfoldable pub step_up_manager : StepUp.Manager (World G L D C N)
    unfolding StepUp.new_manager StepUp.with_token_ttl
    step_up_manager =
        StepUp.new_manager step_up_store (some StepUp.default_assessor) (some step_up_store)
          (StepUp.with_token_ttl cfg.step_up.token_ttl ∷ [])

    unfoldable pub challenge_manager : Challenge.Manager (World G L D C N)
    unfolding Challenge.new_manager
    challenge_manager =
        Challenge.new_manager token_store (some Challenge.stub_verifier) (some token_store) []

    -- The `Signals` of the CAPTCHA middleware: an error of the detector counts as no spike.
    unfoldable pub challenge_signals :
        HttpRequest → String → World G L D C N → RiskSignals × World G L D C N
    unfolding velocity_flagged
    challenge_signals r account w =
        let (t, w₁) = read_clock w in
        let (found, counts) =
          detect_spike F detector t r.context "withdrawal_attempts" cfg.anomaly.lookback_minutes
            w₁.service.counts in
        let (t', w₂) = read_clock (record w₁ { service = record w₁.service { counts = counts } }) in
        (
          record {
            account_age = account_age P F ledger_store device_store detector t' account w₂.service;
            platform_spike = spike_of F found;
            velocity_flagged = velocity_flagged r;
            new_account_max_age = cfg.challenge.new_account_max_age;
          },
          w₂,
        )

    abbrev pub challenge_options : ChallengeGate.Options (World G L D C N)
    challenge_options =
        ChallengeGate.with_defaults
          (record { account_key = none; action = "withdraw"; signals = some challenge_signals })

    abbrev pub step_up_options : StepUpGate.Options (World G L D C N)
    step_up_options = StepUpGate.with_defaults (record {
      account_key = none;
      device_fp = some (λ r. fingerprint_from_request P.digest r "");
      action = "withdraw";
      known_device = some (λ r account. on_devices (
          is_known_device device_store r.context account (fingerprint_from_request P.digest r "")));
      velocity_flagged = some (λ r account. velocity_flagged r);
    })

    -- `Withdraw` behind the CAPTCHA middleware, and behind the step-up middleware too.
    unfoldable pub captcha_handler : NextHandler (World G L D C N)
    captcha_handler r w =
        let (es, w') =
          ChallengeGate.gate lib.error_text challenge_manager challenge_options withdraw_handler r
            w in
        (calls_of lib.encode es, w')

    unfoldable pub step_up_handler : NextHandler (World G L D C N)
    step_up_handler r w =
        let (es, w') =
          StepUpGate.gate lib.error_text step_up_manager step_up_options captcha_handler r w in
        (calls_of lib.encode es, w')

    -- The options of the outer middleware; the callback flags the request, and its log line is left out.
    unfoldable pub middleware_options : Middleware.Options (World G L D C N)
    unfolding KeyFunctions.with_defaults
    middleware_options =
        let keys =
          KeyFunctions.with_defaults lib.split_host
            (record { ip_key_func = none; key_func = none; idempotency_key_func = none }) in
        record {
          ip_key_func = keys.ip_key_func;
          key_func = keys.key_func;
          lock_key_func = none;
          idempotency_key_func = keys.idempotency_key_func;
          action = "withdraw";
          require_lock = cfg.middleware.require_lock;
          require_idempotency_key = cfg.middleware.require_idempotency_key;
          fail_closed = none;
          block_on_velocity = some cfg.middleware.block_on_velocity;
          has_audit = false;
          on_velocity_flag = some (λ r why w. (with_flag r, [], w));
          on_blocked = none;
        }

    -- The handler of /withdraw.
    unfoldable pub withdraw_chain :
        Guard (World G L D C N) → HttpRequest → Run (World G L D C N) (Unit {0})
    withdraw_chain g = handle g now middleware_options step_up_handler

    -- The routes of the mux.
    unfoldable pub serve_route :
        Guard (World G L D C N)
        → String
        → HttpRequest
        → World G L D C N
        → List Event × World G L D C N
    unfolding withdraw_chain trust_handler balance_handler
    serve_route g path r w =
        let (o, es, w₁) = withdraw_chain g r w in
        let (trusted, w₂) = trust_handler r w in
        let (shown, w₃) = balance_handler r w in
        if text_eq path "/withdraw"
        then (es, w₁)
        else if text_eq path "/health"
        then (called_all (write_header 200 ∷ write (111 ∷ 107 ∷ []) ∷ []), w)
        else if text_eq path "/demo/trust-device"
        then (called_all trusted, w₂)
        else if text_eq path "/demo/balance"
        then (called_all shown, w₃)
        else (called_all lib.not_found, w)
