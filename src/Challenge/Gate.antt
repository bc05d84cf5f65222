-- ===== src/Challenge/Gate.antt =====
-- challenge/middleware.go: the handler that asks for a CAPTCHA, as the events that it causes in order.
use floodguard_rate_limiter.Prelude.{
  ℕ, String, Bool, true, false, Option, none, some, List, [], ◌∷◌, ◌≡◌, arith, ◌⊎◌, if◌then◌else◌,
}
use floodguard_rate_limiter.Prelude.Int.{pos}
use floodguard_rate_limiter.Errors.{Error, sentinel, captcha_required}
use floodguard_rate_limiter.Middleware.{
  HttpRequest, set_header, write_header, Event, called, encoded, served, NextHandler, called_all,
}
use floodguard_rate_limiter.Middleware.Quiet.{served_in, served_in-called_all}
use floodguard_rate_limiter.Challenge.{RiskSignals, Manager, Checked, check}

-- The options as they are given; the signals are asked for in a world.
pub record Given (W : Type 0) : Type 0 where
  pub account_key : Option (HttpRequest → String)
  pub action : String
  pub signals : Option (HttpRequest → String → W → RiskSignals × W)

-- The options with their functions in force.
pub record Options (W : Type 0) : Type 0 where
  pub account_key : HttpRequest → String
  pub action : String
  pub signals : HttpRequest → String → W → RiskSignals × W

abbrev no_signals : RiskSignals
no_signals = record {
  account_age = pos 0;
  platform_spike = false;
  velocity_flagged = false;
  new_account_max_age = pos 0;
}

-- The defaults of `Middleware`.
unfoldable pub with_defaults : {W : Type 0} → Given W → Options W
with_defaults o = record {
  account_key = elim o.account_key [ none ↦ λ r. r.header "X-Account-ID" | some f ↦ f ];
  action = o.action;
  signals = elim o.signals [ none ↦ λ r account w. (no_signals, w) | some f ↦ f ];
}

-- `HeaderToken` and `CaptchaResponse`
abbrev pub header_token : HttpRequest → String
header_token r = r.header "X-Challenge-Token"

abbrev pub captcha_response : HttpRequest → String
captcha_response r = r.header "X-Captcha-Response"

abbrev pub is_challenge_required : Error → Bool
is_challenge_required (sentinel captcha_required) = true
is_challenge_required _ = false

-- `writeJSON` of an error's text
unfoldable pub write_json : ℕ → String → List Event
write_json status msg =
    called (set_header "Content-Type" "application/json")
    ∷ called (write_header status)
    ∷ encoded (("error", msg) ∷ [])
    ∷ []

unfoldable pub write_required : String → List Event
write_required token =
    called (set_header "Content-Type" "application/json")
    ∷ called (set_header "X-Challenge-Required" "true")
    ∷ called (write_header 403)
    ∷ encoded (("error", "captcha required") ∷ ("challenge_token", token) ∷ [])
    ∷ []

abbrev pub is_clear : Option Error → Bool
is_clear none = true
is_clear (some e) = false

-- Over the text of errors, `err.Error()`.
module _ {W : Type 0} (error_text : Error → String) (mgr : Manager W) (opts : Options W)
    (next : NextHandler W) where
  -- The manager's answer to a request.
  abbrev pub asked : HttpRequest → W → Checked × W
  asked r w =
      let account = opts.account_key r in
      let (signals, w₁) = opts.signals r account w in
      check mgr r.context account opts.action signals (header_token r) (captcha_response r) w₁

  -- What the manager's answer leads to.
  unfoldable pub answer : HttpRequest → Checked → W → List Event × W
  unfolding write_json write_required
  answer r (token, refused) w =
      let (calls, w') = next r w in
      elim refused [
        | none ↦ (served r ∷ called_all calls, w')
        | some e ↦
            if is_challenge_required e
            then (write_required token, w)
            else (write_json 500 (error_text e), w)
      ]

  -- The handler of `Middleware`.
  unfoldable pub gate : HttpRequest → W → List Event × W
  unfolding answer
  gate r w = let (c, w₁) = asked r w in answer r c w₁

  -- Where the world ends: in the wrapped handler's, or in that of the manager's answer.
  pub gate-world :
      (r : HttpRequest) (w : W)
      → let w' = (asked r w).1 in ((gate r w).1 ≡ w') ⊎ ((gate r w).1 ≡ (next r w').1)
  unfolding gate answer
  gate-world r w = ground arith

  -- The world where the manager does not let the request through.
  pub gate-refused :
      (r : HttpRequest) (w : W) → is_clear (asked r w).0.1 ≡ false → (gate r w).1 ≡ (asked r w).1
  unfolding gate answer
  gate-refused r w h = ground arith

  -- The CAPTCHA middleware calls the wrapped handler exactly once if the manager's Check returns no
  -- error, and never otherwise.
  captcha_gate-serves :
      (r : HttpRequest) (w : W)
      → served_in (gate r w).0 ≡ (if is_clear (asked r w).0.1 then 1 else 0)
  unfolding gate answer write_json write_required
  captcha_gate-serves r w =
      let (c, w₁) = asked r w in ground (arith, served_in-called_all (next r w₁).0)
