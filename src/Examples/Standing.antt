-- ===== src/Examples/Standing.antt =====
-- An example server over the in-memory idempotency store, with a clock that stands.
use floodguard_rate_limiter.Prelude.{
  ℕ, ap, sym, subst, ◌∙◌, String, Bool, true, Option, none, some, List, [], ◌≡◌, refl, arith, inl,
  inr,
}
use floodguard_rate_limiter.Prelude.Int.{ℤ, pos, ◌≤ℤ◌, int_laws}
use floodguard_rate_limiter.Errors.{Action, Context, Result, ok, err}
use floodguard_rate_limiter.Idempotency
use floodguard_rate_limiter.Idempotency.{Entries, memory_claim, memory_complete}
use floodguard_rate_limiter.Lock
use floodguard_rate_limiter.Lock.Token.{Random, random_token}
use floodguard_rate_limiter.Velocity
use floodguard_rate_limiter.Guard.{Guard, try_lock, complete_idempotency}
use floodguard_rate_limiter.Ledger
use floodguard_rate_limiter.Ledger.{Records}
use floodguard_rate_limiter.DeviceTrust
use floodguard_rate_limiter.DeviceTrust.{Devices}
use floodguard_rate_limiter.StepUp
use floodguard_rate_limiter.StepUp.Gate as StepUpGate
use floodguard_rate_limiter.Challenge
use floodguard_rate_limiter.Challenge.Gate as ChallengeGate
use floodguard_rate_limiter.Config.{defaults}
use floodguard_rate_limiter.Middleware.{HttpRequest, Call, Options, NextHandler}
use floodguard_rate_limiter.Middleware.Keeps.{GuardKeeps}
use floodguard_rate_limiter.Middleware.Memory.{Rests, OverMemory}
use floodguard_rate_limiter.App.Service.{Service}
use floodguard_rate_limiter.App.Wiring.{World}
use floodguard_rate_limiter.App.Handlers.{
  step_up_manager, challenge_manager, challenge_signals, challenge_options, step_up_options,
  withdraw_handler, captcha_handler, step_up_handler, middleware_options,
}
use floodguard_rate_limiter.App.Paid.{time, options, inner}
use floodguard_rate_limiter.Examples.Server.{parsers, printing, floats, detector}
use floodguard_rate_limiter.Examples.Withdraw.{libraries}

-- Outside the process there are the entries and a clock that stands.
abbrev pub Outside : Type 0
Outside = Entries × ℤ

abbrev pub Server : Type 0
Server = World Outside Records Devices ℤ ℕ

abbrev pub standing : Outside → ℤ × Outside
standing g = (g.1, g)

abbrev pub dice : Random Outside
dice = record { read = λ n g. (ok [], g); hex = λ b. "t1" }

abbrev pub on_entries : {A : Type 0} → (ℤ → Action Entries A) → Action Server A
on_entries act w =
    let (r, m) = act w.outside.1 w.outside.0 in (r, record w { outside = (m, w.outside.1) })

abbrev pub guard : Guard Server
guard = record {
  ip_rate = none;
  rate = record { allow = λ ctx key w. (ok true, w) };
  idempotency = record {
    store = record {
      claim = λ ctx key ttl. on_entries (λ now. memory_claim now key ttl);
      complete = λ ctx key response ttl. on_entries (λ now. memory_complete now key response ttl);
    };
    ttl = pos 100;
  };
  lock = record {
    client = record {
      acquire = λ ctx key ttl w. (ok (record { release = λ ctx v. (ok tt, v) }), w);
    };
    ttl = pos 30;
  };
  velocity = record {
    store = record {
      record_action = λ ctx key at w. (ok tt, w);
      count = λ ctx key window w. (ok (pos 0), w);
      last = λ ctx key w. (ok none, w);
    };
    rules = [];
  };
}

abbrev pub at : Action Server ℤ
at =
    time libraries printing floats standing dice Ledger.memory_store DeviceTrust.memory_store
      detector parsers (defaults parsers) guard

abbrev pub opts : Options Server
opts =
    options libraries printing floats standing dice Ledger.memory_store DeviceTrust.memory_store
      detector parsers (defaults parsers) guard

abbrev pub next : NextHandler Server
next =
    inner libraries printing floats standing dice Ledger.memory_store DeviceTrust.memory_store
      detector parsers (defaults parsers) guard

checked :
    (ctx : Context) (key : String) (w : Server) → (Velocity.check guard.velocity at ctx key w).1 ≡ w
unfolding Velocity.check
checked ctx key w = ground arith

locked : (ctx : Context) (key : String) (w : Server) → (try_lock guard ctx key w).1 ≡ w
unfolding try_lock Lock.try_acquire
locked ctx key w = ground arith

abbrev pub release_in : Result (Action Server (Unit {0})) → Action Server (Unit {0})
release_in (ok f) = f
release_in (err e) = λ v. (ok tt, v)

released :
    (ctx : Context) (key : String) (w w' : Server)
    → (release_in (try_lock guard ctx key w).0 w').1 ≡ w'
unfolding try_lock Lock.try_acquire
released ctx key w w' = ground arith

begun :
    (ctx : Context) (key : String) (w : Server)
    → (Idempotency.begin guard.idempotency ctx key w).1.service ≡ w.service
unfolding Idempotency.begin
begun ctx key w = ground arith

completed :
    (ctx : Context) (key : String) (body : List ℕ) (w : Server)
    → (complete_idempotency guard ctx key body w).1.service ≡ w.service
unfolding complete_idempotency Idempotency.complete
completed ctx key body w = ground arith

abbrev pub flagged_in :
    Option (HttpRequest → String → Server → HttpRequest × List Call × Server)
    → HttpRequest
    → String
    → Server
    → Server
flagged_in none r why w = w
flagged_in (some f) r why w = (f r why w).2

abbrev pub service_of : Server → Service Records Devices ℤ ℕ
service_of w = w.service

pub apart :
    (s : Service Records Devices ℤ ℕ) → GuardKeeps (λ (w : Server). w.service ≡ s) guard at opts
unfolding middleware_options
apart s = record {
  ip = λ l e. cc;
  account = λ ctx key w h. h;
  velocity = λ ctx key w h. ap service_of (checked ctx key w) ∙ h;
  lock = λ ctx key w h. ap service_of (locked ctx key w) ∙ h;
  release = λ ctx key w w' f e h.
      ap (λ r. (release_in r w').1.service) (sym e) ∙ ap service_of (released ctx key w w') ∙ h;
  blocks = λ f e. cc;
  flags = λ f e r why w h. ap (λ o. (flagged_in o r why w).service) (sym e) ∙ h;
  begins = λ ctx key w h. begun ctx key w ∙ h;
  completes = λ ctx key body w b h. completed ctx key body w ∙ h;
}

-- The inner handlers leave the outside as it is.
withdrawn-outside :
    (r : HttpRequest) (w : Server)
    → (withdraw_handler libraries printing floats standing dice Ledger.memory_store
        DeviceTrust.memory_store detector r w).1.outside
      ≡ w.outside
unfolding withdraw_handler
withdrawn-outside r w = refl

captcha-outside :
    (ctx : Context) (account action : String) (s : Challenge.RiskSignals) (header response : String)
    (w : Server)
    → (Challenge.check
        (challenge_manager libraries printing floats standing dice Ledger.memory_store
          DeviceTrust.memory_store detector parsers
          (defaults parsers))
        ctx
        account
        action
        s
        header
        response
        w).1.outside
      ≡ w.outside
unfolding Challenge.check Challenge.by_token Challenge.by_captcha Challenge.issue_anew
    challenge_manager Challenge.memory_issue Challenge.memory_mark_solved Challenge.memory_is_solved
    Challenge.stub_verify random_token
captcha-outside ctx account action s header response w = ground arith

step_up-outside :
    (ctx : Context) (s : StepUp.Signals) (header : String) (w : Server)
    → (StepUp.check
        (step_up_manager libraries printing floats standing dice Ledger.memory_store
          DeviceTrust.memory_store detector parsers
          (defaults parsers))
        ctx
        s
        header
        w).1.outside
      ≡ w.outside
unfolding StepUp.check StepUp.step_up StepUp.challenge step_up_manager StepUp.memory_verify
    StepUp.memory_consume StepUp.memory_issue StepUp.default_assess random_token
step_up-outside ctx s header w = ground arith

captcha_handler-outside :
    (r : HttpRequest) (w : Server)
    → (captcha_handler libraries printing floats standing dice Ledger.memory_store
        DeviceTrust.memory_store detector parsers
        (defaults parsers)
        r
        w).1.outside
      ≡ w.outside
unfolding captcha_handler ChallengeGate.with_defaults challenge_signals
captcha_handler-outside r w =
    let mgr =
      challenge_manager libraries printing floats standing dice Ledger.memory_store
        DeviceTrust.memory_store detector parsers (defaults parsers) in
    let given =
      challenge_options libraries printing floats standing dice Ledger.memory_store
        DeviceTrust.memory_store detector parsers (defaults parsers) in
    let behind =
      withdraw_handler libraries printing floats standing dice Ledger.memory_store
        DeviceTrust.memory_store detector in
    let account = r.header "X-Account-ID" in
    let (signals, w₁) =
      challenge_signals libraries printing floats standing dice Ledger.memory_store
        DeviceTrust.memory_store detector parsers (defaults parsers) r account w in
    let w₂ = (ChallengeGate.asked libraries.error_text mgr given behind r w).1 in
    let same : w₂.outside ≡ w.outside =
      captcha-outside r.context account "withdraw" signals (ChallengeGate.header_token r)
        (ChallengeGate.captcha_response r) w₁ in
    elim (ChallengeGate.gate-world libraries.error_text mgr given behind r w) [
      | inl stays ↦ ap (λ (v : Server). v.outside) stays ∙ same
      | inr serves ↦ ap (λ (v : Server). v.outside) serves ∙ withdrawn-outside r w₂ ∙ same
    ]

next-outside : (r : HttpRequest) (w : Server) → (next r w).1.outside ≡ w.outside
unfolding step_up_handler StepUpGate.with_defaults
next-outside r w =
    let mgr =
      step_up_manager libraries printing floats standing dice Ledger.memory_store
        DeviceTrust.memory_store detector parsers (defaults parsers) in
    let given =
      step_up_options libraries printing floats standing dice Ledger.memory_store
        DeviceTrust.memory_store detector parsers (defaults parsers) in
    let behind =
      captcha_handler libraries printing floats standing dice Ledger.memory_store
        DeviceTrust.memory_store detector parsers (defaults parsers) in
    let w₁ = (given.known_device r (given.account_key r) w).1 in
    let signals = λ (k : Bool). StepUpGate.signals_of libraries.error_text mgr given behind r k in
    let after =
      λ (k : Bool). (StepUp.check mgr r.context (signals k) (StepUpGate.header_token r) w₁).1 in
    let same = λ (k : Bool). step_up-outside r.context (signals k) (StepUpGate.header_token r) w₁ in
    let outside_of = λ (v : Server). v.outside in
    elim (StepUpGate.gate-world libraries.error_text mgr given behind r w) [
      | inl stays ↦ ap outside_of stays
      | inr (k, inl stays) ↦ ap outside_of stays ∙ same k
      | inr (k, inr serves) ↦ ap outside_of serves ∙ captcha_handler-outside r (after k) ∙ same k
    ]

abbrev pub entries_of : Server → Entries
entries_of w = w.outside.0

abbrev pub clock_of : Server → ℤ
clock_of w = w.outside.1

-- A call that leaves the outside as it is.
undisturbed : (w w' : Server) → w'.outside ≡ w.outside → Rests entries_of clock_of w w'
undisturbed w w' e = record {
  same = ap (λ g. g.0) e;
  later = subst (λ (t : ℤ). clock_of w ≤ℤ t) (sym (ap (λ g. g.1) e)) (omega int_laws);
}

pub over : OverMemory entries_of clock_of guard at opts next
unfolding middleware_options
over = record {
  ip = λ l e. cc;
  account = λ ctx key w. undisturbed w w refl;
  velocity = λ ctx key w. undisturbed w _ (ap (λ (v : Server). v.outside) (checked ctx key w));
  lock = λ ctx key w. undisturbed w _ (ap (λ (v : Server). v.outside) (locked ctx key w));
  release = λ ctx key w w' f e. undisturbed w' (f w').1 (
      ap (λ r. (release_in r w').1.outside) (sym e)
      ∙ ap (λ (v : Server). v.outside) (released ctx key w w'));
  handler = λ r w. undisturbed w (next r w).1 (next-outside r w);
  blocks = λ f e. cc;
  flags =
      λ f e r why w. undisturbed w (f r why w).2 (ap (λ o. (flagged_in o r why w).outside) (sym e));
  claims = λ ctx key w. (refl, refl, omega int_laws);
  completes = λ ctx key body w. (refl, omega int_laws);
}
