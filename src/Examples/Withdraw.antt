-- ===== src/Examples/Withdraw.antt =====
-- The theorems on the handlers of the example server at concrete requests.
use floodguard_rate_limiter.Prelude.{
  ℕ, ap, sym, ◌∙◌, String, Bool, true, false, Option, none, some, List, [], ◌∷◌, ◌≡◌, refl, arith,
  text_eq, if◌then◌else◌, inl, ◌⊎◌,
}
use floodguard_rate_limiter.Prelude.Int.{ℤ, pos, ◌+ℤ◌, ◌-ℤ◌}
use floodguard_rate_limiter.Prelude.Dict.{Dict, lookup}
use floodguard_rate_limiter.Errors.{Action, Context, background, Result, ok, err}
use floodguard_rate_limiter.Idempotency
use floodguard_rate_limiter.Idempotency.{to_process}
use floodguard_rate_limiter.Lock
use floodguard_rate_limiter.Lock.Token.{Random}
use floodguard_rate_limiter.Velocity
use floodguard_rate_limiter.Config.Texts.{trim_space, is_space}
use floodguard_rate_limiter.Middleware.Keys.{client_ip}
use floodguard_rate_limiter.Middleware.Handler.{keys_of}
use floodguard_rate_limiter.Middleware.HandledAt.{before_velocity}
use floodguard_rate_limiter.Guard.{velocity_key, Guard, try_lock, complete_idempotency}
use floodguard_rate_limiter.Wallet.{Account}
use floodguard_rate_limiter.Ledger
use floodguard_rate_limiter.Ledger.{Records}
use floodguard_rate_limiter.DeviceTrust
use floodguard_rate_limiter.DeviceTrust.{Devices}
use floodguard_rate_limiter.Config.{defaults}
use floodguard_rate_limiter.Middleware.{HttpRequest, Call, Options}
use floodguard_rate_limiter.RateLimit.{Limiter}
use floodguard_rate_limiter.Middleware.Keeps.{GuardKeeps}
use floodguard_rate_limiter.Middleware.Serving.{reaches_handler}
use floodguard_rate_limiter.App.Service.{Service}
use floodguard_rate_limiter.App.Wiring.{Libraries, World}
use floodguard_rate_limiter.App.Handlers.{now, step_up_handler, middleware_options, withdraw_chain}
use floodguard_rate_limiter.App.Settled.{IsSame, IsPaid}
use floodguard_rate_limiter.App.Paid.{withdraw_chain-pays}
use floodguard_rate_limiter.App.Flagged.{flagged-keeps_accounts}
use floodguard_rate_limiter.Examples.Server.{parsers, printing, floats, detector, service}

-- Outside the process there are a clock and the recorded actions.
abbrev Outside : Type 0
Outside = ℤ × Velocity.Actions

abbrev Server : Type 0
Server = World Outside Records Devices ℤ ℕ

abbrev pub libraries : Libraries
libraries = record {
  split_host = λ s. none;
  error_text = λ e. "error";
  encode = λ fields. 1 ∷ [];
  encode_reply = λ fields. 2 ∷ [];
  decode_amount = λ body. some (pos 30);
  http_error = λ message status. [];
  not_found = [];
}

-- Each reading of the clock takes one.
abbrev ticking : Outside → ℤ × Outside
ticking g = (g.0, (g.0 +ℤ pos 1, g.1))

abbrev dice : Random Outside
dice = record { read = λ n g. (ok [], g); hex = λ b. "t1" }

abbrev time : Action Server ℤ
time =
    now libraries printing floats ticking dice Ledger.memory_store DeviceTrust.memory_store detector

abbrev options : Options Server
options =
    middleware_options libraries printing floats ticking dice Ledger.memory_store
      DeviceTrust.memory_store detector parsers (defaults parsers)

abbrev on_actions : {A : Type 0} → (ℤ → Action Velocity.Actions A) → Action Server A
on_actions act w =
    let (r, m) = act w.outside.0 w.outside.1 in (r, record w { outside = (w.outside.0, m) })

abbrev plain_format : Velocity.Format
plain_format = record {
  over_window = λ n label window. label;
  too_fast = λ label min elapsed. label;
}

-- A guard that admits everything but a second action within a minute.
abbrev guard : Guard Server
guard = record {
  ip_rate = some (record { allow = λ ctx ip w. (ok true, w) });
  rate = record { allow = λ ctx key w. (ok true, w) };
  idempotency = record {
    store = record {
      claim = λ ctx key ttl w. (ok to_process, w);
      complete = λ ctx key response ttl w. (ok tt, w);
    };
    ttl = pos 100;
  };
  lock = record {
    client = record {
      acquire = λ ctx key ttl w. (ok (record { release = λ ctx v. (ok tt, v) }), w);
    };
    ttl = pos 30;
  };
  velocity = record {
    store = record {
      record_action = λ ctx key at. on_actions (λ now. Velocity.memory_record key at);
      count = λ ctx key window. on_actions (λ now. Velocity.memory_count now key window);
      last = λ ctx key. on_actions (λ now. Velocity.memory_last key);
    };
    rules =
        Velocity.rate_rule plain_format (record { n = pos 1; window = pos 60000000000; label = "" })
        ∷ [];
  };
}

checked :
    (ctx : Context) (key : String) (w : Server)
    → (Velocity.check guard.velocity time ctx key w).1.service ≡ w.service
unfolding Velocity.check Velocity.check_rate
checked ctx key w = ground arith

locked : (ctx : Context) (key : String) (w : Server) → (try_lock guard ctx key w).1 ≡ w
unfolding try_lock Lock.try_acquire
locked ctx key w = ground arith

abbrev release_in : Result (Action Server (Unit {0})) → Action Server (Unit {0})
release_in (ok f) = f
release_in (err e) = λ v. (ok tt, v)

released :
    (ctx : Context) (key : String) (w w' : Server)
    → (release_in (try_lock guard ctx key w).0 w').1 ≡ w'
unfolding try_lock Lock.try_acquire
released ctx key w w' = ground arith

begun :
    (ctx : Context) (key : String) (w : Server)
    → (Idempotency.begin guard.idempotency ctx key w).1 ≡ w
unfolding Idempotency.begin
begun ctx key w = ground arith

completed :
    (ctx : Context) (key : String) (body : List ℕ) (w : Server)
    → (complete_idempotency guard ctx key body w).1 ≡ w
unfolding complete_idempotency Idempotency.complete
completed ctx key body w = ground arith

abbrev allowed_in : Option (Limiter Server) → Context → String → Server → Server
allowed_in none ctx key w = w
allowed_in (some l) ctx key w = (l.allow ctx key w).1

abbrev flagged_in :
    Option (HttpRequest → String → Server → HttpRequest × List Call × Server)
    → HttpRequest
    → String
    → Server
    → Server
flagged_in none r why w = w
flagged_in (some f) r why w = (f r why w).2

abbrev service_of : Server → Service Records Devices ℤ ℕ
service_of w = w.service

apart :
    (s : Service Records Devices ℤ ℕ)
    → GuardKeeps (λ (w : Server). w.service ≡ s) guard time options
unfolding middleware_options
apart s = record {
  ip = λ l e ctx key w h. ap (λ o. (allowed_in o ctx key w).service) (sym e) ∙ h;
  account = λ ctx key w h. h;
  velocity = λ ctx key w h. checked ctx key w ∙ h;
  lock = λ ctx key w h. ap service_of (locked ctx key w) ∙ h;
  release = λ ctx key w w' f e h.
      ap (λ r. (release_in r w').1.service) (sym e) ∙ ap service_of (released ctx key w w') ∙ h;
  blocks = λ f e. cc;
  flags = λ f e r why w h. ap (λ o. (flagged_in o r why w).service) (sym e) ∙ h;
  begins = λ ctx key w h. ap service_of (begun ctx key w) ∙ h;
  completes = λ ctx key body w b h. ap service_of (completed ctx key body w) ∙ h;
}

-- Alice's request, with neither a step-up token nor a challenge token.
abbrev order : HttpRequest
order = record {
  context = background;
  header = λ name.
      if text_eq name "X-Account-ID"
      then "acct-1"
      else if text_eq name "Idempotency-Key"
      then "k-1"
      else "";
  remote_addr = "10.0.0.1";
  body = some (3 ∷ []);
}

-- The world before the request, with an action of the account just before it or without.
abbrev started : Bool → Server
started flags = record {
  outside =
      (pos 1000, if flags then (velocity_key "acct-1" options.action, pos 990 ∷ []) ∷ [] else []);
  service = service;
  step_ups = [];
  tokens = [];
}

-- The accounts after the request.
abbrev accounts_after : Bool → Dict Account
accounts_after flags =
    (withdraw_chain libraries printing floats ticking dice Ledger.memory_store
      DeviceTrust.memory_store detector parsers (defaults parsers) guard order
      (started flags)).2.service.accounts

withdraw_chain-pays_example :
    IsSame service.accounts (accounts_after false)
    ⊎ ((reaches_handler guard time options
            (step_up_handler libraries printing floats ticking dice Ledger.memory_store
              DeviceTrust.memory_store detector parsers
              (defaults parsers))
            order
            (started false)
          ≡ true)
        × IsPaid "acct-1" (pos 30) service.accounts (accounts_after false))
withdraw_chain-pays_example =
    withdraw_chain-pays libraries printing floats ticking dice Ledger.memory_store
      DeviceTrust.memory_store detector parsers (defaults parsers) guard order (started false)
      (pos 30) apart refl (omega arith, omega arith)
      ((refl, omega arith, omega arith), ((refl, omega arith, omega arith), tt))

-- The engine finds the action that was just before.
flagged_lem :
    let next =
      step_up_handler libraries printing floats ticking dice Ledger.memory_store
        DeviceTrust.memory_store detector parsers
        (defaults parsers) in
    (Velocity.check guard.velocity time order.context
      (velocity_key (keys_of guard time options next order).account options.action)
      (before_velocity guard time options next order (started true))).0
    ≡ ok (false, "actions")
unfolding Velocity.check Velocity.check_rate velocity_key middleware_options Velocity.memory_count
    Velocity.times_of lookup trim_space is_space Idempotency.begin client_ip ◌-ℤ◌
flagged_lem = refl

flagged-keeps_accounts_example : IsSame service.accounts (accounts_after true)
flagged-keeps_accounts_example =
    flagged-keeps_accounts libraries printing floats ticking dice Ledger.memory_store
      DeviceTrust.memory_store detector parsers (defaults parsers) guard order (started true) apart
      (λ why h. cc (flagged_lem, h)) (inl refl)
      ((refl, omega arith, omega arith), ((refl, omega arith, omega arith), tt))
