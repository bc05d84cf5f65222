-- ===== src/Examples/Retries.antt =====
-- The theorem on requests to /withdraw that are sent again, at concrete requests over the in-memory
-- idempotency store.
use floodguard_rate_limiter.Prelude.{
  ℕ, String, true, none, some, [], ◌∷◌, ◌≡◌, refl, ◌≢◌, arith, text_eq, if◌then◌else◌, ◌⊎◌,
}
use floodguard_rate_limiter.Prelude.Int.{ℤ, pos, negsuc, ◌+ℤ◌, ◌-ℤ◌}
use floodguard_rate_limiter.Prelude.Dict.{lookup, insert}
use floodguard_rate_limiter.Errors.{background, is_error}
use floodguard_rate_limiter.Idempotency
use floodguard_rate_limiter.Idempotency.{memory_claim, memory_complete}
use floodguard_rate_limiter.Lock
use floodguard_rate_limiter.Lock.Token.{random_token}
use floodguard_rate_limiter.Velocity
use floodguard_rate_limiter.Guard.{try_lock, complete_idempotency}
use floodguard_rate_limiter.Ledger
use floodguard_rate_limiter.Ledger.{Records}
use floodguard_rate_limiter.DeviceTrust
use floodguard_rate_limiter.DeviceTrust.{Devices, is_known_device}
use floodguard_rate_limiter.DeviceTrust.Fingerprint.{fingerprint_from_request}
use floodguard_rate_limiter.StepUp
use floodguard_rate_limiter.StepUp.Gate as StepUpGate
use floodguard_rate_limiter.Challenge
use floodguard_rate_limiter.Challenge.Gate as ChallengeGate
use floodguard_rate_limiter.Config.{defaults}
use floodguard_rate_limiter.Middleware.{HttpRequest}
use floodguard_rate_limiter.Config.Texts.{trim_space, trim_left, trim_right, is_space}
use floodguard_rate_limiter.Middleware.Keys as KeyFunctions
use floodguard_rate_limiter.Middleware.{record_calls, is_cacheable}
use floodguard_rate_limiter.Guard.{velocity_key}
use floodguard_rate_limiter.Middleware.Handler.{
  require_key, limit_ip, limit_account, judge_limit, claim, judge_claim, check_velocity,
  judge_velocity,
}
use floodguard_rate_limiter.Middleware.Serve.{
  handle, serve, run_locked, run_handler, store_response,
}
use floodguard_rate_limiter.Middleware.Once.{handle_all}
use floodguard_rate_limiter.App.Service.{Service, account_age}
use floodguard_rate_limiter.App.Service as Bank
use floodguard_rate_limiter.Anomaly.{detect_spike}
use floodguard_rate_limiter.Wallet
use floodguard_rate_limiter.Prelude.Int.{wrap64}
use floodguard_rate_limiter.App.Wiring.{velocity_flagged}
use floodguard_rate_limiter.App.Handlers.{
  step_up_manager, challenge_signals, withdraw_handler, captcha_handler, step_up_handler,
  middleware_options,
}
use floodguard_rate_limiter.App.Settled.{IsSame, IsPaid}
use floodguard_rate_limiter.App.Retries.{withdraws_once}
use floodguard_rate_limiter.Examples.Server.{parsers, printing, floats, detector, service}
use floodguard_rate_limiter.Examples.Withdraw.{libraries}
use floodguard_rate_limiter.Examples.Standing.{
  Server, standing, dice, guard, at, opts, next, apart, entries_of, clock_of, over,
}

abbrev order : HttpRequest
order = record {
  context = background;
  header = λ name.
      if text_eq name "X-Account-ID"
      then "acct-1"
      else if text_eq name "Idempotency-Key"
      then "k-1"
      else "";
  remote_addr = "10.0.0.1";
  body = some (3 ∷ []);
}

-- An old account that is asked for from a device that it trusts.
abbrev known_service : Service Records Devices ℤ ℕ
known_service = record service {
  created = ("acct-1", negsuc 1000000000000000) ∷ [];
  devices =
      (
        "acct-1",
        (
          "#||",
          record { fingerprint = "#||"; trusted = true; first_seen = pos 0; last_seen = pos 0 },
        )
            ∷ [],
      )
      ∷ [];
}

abbrev started : Server
started = record { outside = ([], pos 1000); service = known_service; step_ups = []; tokens = [] }

k_1≢empty : ◌≢◌ {A = String} "k-1" ""
k_1≢empty e = cc

abbrev ended : Server
ended = (handle_all guard at opts next "k-1" (order ∷ order ∷ []) started).1

-- The clock stands, and both requests together take the amount once.
ended_lem :
    (clock_of ended ≡ pos 1000)
    × (elim (lookup "acct-1" ended.service.accounts) [ none ↦ pos 0 | some a ↦ a.total_cents ]
        ≡ pos 70)
unfolding handle_all handle require_key limit_ip limit_account judge_limit claim judge_claim
    check_velocity judge_velocity serve run_locked run_handler store_response middleware_options
    KeyFunctions.with_defaults trim_space trim_left trim_right is_space Idempotency.begin
    Idempotency.begin_result Idempotency.complete memory_claim Idempotency.live_entry
    Idempotency.decide_claim memory_complete Velocity.check try_lock Lock.try_acquire
    complete_idempotency record_calls is_cacheable velocity_key lookup insert ◌+ℤ◌ defaults
    step_up_handler StepUpGate.gate StepUpGate.answer StepUpGate.with_defaults StepUp.check
    is_known_device fingerprint_from_request DeviceTrust.memory_get step_up_manager
    StepUp.default_assess StepUp.requires_step_up DeviceTrust.account_key velocity_flagged
    StepUp.memory_issue random_token is_error captcha_handler ChallengeGate.gate Challenge.check
    Challenge.challenge_required ChallengeGate.with_defaults challenge_signals detect_spike
    account_age ◌-ℤ◌ withdraw_handler Bank.withdraw Wallet.withdraw wrap64 Ledger.record_transaction
    Ledger.memory_list Ledger.memory_append
ended_lem = (refl, refl)

withdraws_once_example :
    IsSame known_service.accounts ended.service.accounts
    ⊎ IsPaid "acct-1" (pos 30) known_service.accounts ended.service.accounts
unfolding middleware_options KeyFunctions.with_defaults trim_space trim_left trim_right is_space
    ◌+ℤ◌
withdraws_once_example =
    withdraws_once libraries printing floats standing dice Ledger.memory_store
      DeviceTrust.memory_store detector parsers (defaults parsers) guard apart "k-1" "acct-1"
      (pos 30) entries_of clock_of (order ∷ order ∷ []) started over k_1≢empty
      (refl, refl, refl, (refl, refl, refl, tt)) (omega arith, omega arith)
      ((refl, omega arith, omega arith), ((refl, omega arith, omega arith), tt))
      (rw ended_lem.0 (omega arith))
