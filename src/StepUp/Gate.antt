-- ===== src/StepUp/Gate.antt =====
-- stepup/middleware.go: the handler that asks for a step-up, as the events that it causes in order.
use floodguard_rate_limiter.Prelude.{
  ℕ, String, Bool, true, false, Option, none, some, List, [], ◌∷◌, ◌≡◌, refl, arith, inl, inr, ◌⊎◌,
  if◌then◌else◌,
}
use floodguard_rate_limiter.Errors.{
  Action, Error, Result-cases, ok, err, sentinel, step_up_required,
}
use floodguard_rate_limiter.Middleware.{
  HttpRequest, set_header, write_header, Event, called, encoded, served, NextHandler, called_all,
}
use floodguard_rate_limiter.Middleware.Quiet.{served_in, served_in-called_all}
use floodguard_rate_limiter.StepUp.{Signals, Manager, Checked, level_text, check}

-- The options with their functions in force.
pub record Options (W : Type 0) : Type 0 where
  pub account_key : HttpRequest → String
  pub device_fp : HttpRequest → String
  pub action : String
  pub known_device : HttpRequest → String → Action W Bool
  pub velocity_flagged : HttpRequest → String → Bool

-- The options as they are given, and the defaults of `Middleware`.
pub record Given (W : Type 0) : Type 0 where
  pub account_key : Option (HttpRequest → String)
  pub device_fp : Option (HttpRequest → String)
  pub action : String
  pub known_device : Option (HttpRequest → String → Action W Bool)
  pub velocity_flagged : Option (HttpRequest → String → Bool)

abbrev or_else {ℓ} : {A : Type ℓ} → Option A → A → A
or_else none d = d
or_else (some a) d = a

unfoldable pub with_defaults : {W : Type 0} → Given W → Options W
with_defaults o = record {
  account_key = or_else o.account_key (λ r. r.header "X-Account-ID");
  device_fp = or_else o.device_fp (λ r. r.header "X-Device-FP");
  action = o.action;
  known_device = or_else o.known_device (λ r account w. (ok false, w));
  velocity_flagged = or_else o.velocity_flagged (λ r account. false);
}

-- `HeaderToken`
abbrev pub header_token : HttpRequest → String
header_token r = r.header "X-Step-Up-Token"

-- `err != ErrStepUpRequired` compares the values, so a wrapped one is different.
abbrev pub is_step_up_required : Error → Bool
is_step_up_required (sentinel step_up_required) = true
is_step_up_required _ = false

-- The package's `writeError`.
unfoldable pub write_error : ℕ → String → List Event
write_error status msg =
    called (set_header "Content-Type" "application/json")
    ∷ called (write_header status)
    ∷ encoded (("error", msg) ∷ [])
    ∷ []

-- The reply that asks for a step-up.
unfoldable pub write_required : Checked → List Event
unfolding level_text
write_required c =
    called (set_header "Content-Type" "application/json")
    ∷ called (set_header "X-Step-Up-Required" "true")
    ∷ called (write_header 403)
    ∷ encoded (
        ("error", "step-up verification required")
        ∷ ("risk_level", level_text c.level)
        ∷ ("challenge_token", c.challenge_token)
        ∷ [])
    ∷ []

abbrev pub is_clear : Option Error → Bool
is_clear none = true
is_clear (some e) = false

-- Over the text of errors, `err.Error()`.
module _ {W : Type 0} (error_text : Error → String) (mgr : Manager W) (opts : Options W)
    (next : NextHandler W) where
  abbrev pub signals_of : HttpRequest → Bool → Signals
  signals_of r known = record {
    account_id = opts.account_key r;
    device_fp = opts.device_fp r;
    action = opts.action;
    known_device = known;
    velocity_flagged = opts.velocity_flagged r (opts.account_key r);
  }

  -- What the manager's answer leads to.
  unfoldable pub answer : HttpRequest → Checked → W → List Event × W
  unfolding write_error write_required
  answer r c w =
      let (calls, w') = next r w in
      elim c.error [
        | none ↦ (served r ∷ called_all calls, w')
        | some e ↦
            if is_step_up_required e
            then (write_required c, w)
            else (write_error 500 (error_text e), w)
      ]

  -- The handler of `Middleware`.
  unfoldable pub gate : HttpRequest → W → List Event × W
  unfolding answer write_error
  gate r w =
      let (known, w₁) = opts.known_device r (opts.account_key r) w in
      elim known [
        | err e ↦ (write_error 500 "device trust check failed", w₁)
        | ok k ↦
            let (c, w₂) = check mgr r.context (signals_of r k) (header_token r) w₁ in answer r c w₂
      ]

  answer-world :
      (r : HttpRequest) (c : Checked) (w : W)
      → ((answer r c w).1 ≡ w) ⊎ ((answer r c w).1 ≡ (next r w).1)
  unfolding answer
  answer-world r c w = ground arith

  -- Where the world ends: in that of the device check, in that of the manager's answer, or in the
  -- wrapped handler's.
  pub gate-world :
      (r : HttpRequest) (w : W)
      → let w₁ = (opts.known_device r (opts.account_key r) w).1 in
        let after = λ (k : Bool). (check mgr r.context (signals_of r k) (header_token r) w₁).1 in
        ((gate r w).1 ≡ w₁)
        ⊎ ((k : Bool) × (((gate r w).1 ≡ after k) ⊎ ((gate r w).1 ≡ (next r (after k)).1)))
  unfolding gate
  gate-world r w =
      let (known, w₁) = opts.known_device r (opts.account_key r) w in
      let checked = λ (k : Bool). check mgr r.context (signals_of r k) (header_token r) w₁ in
      elim (Result-cases known) [
        | inl (e, failed) ↦ inl (rw (failed, gate) refl)
        | inr (k, found) ↦ inr (k, rw (found, gate) (answer-world r (checked k).0 (checked k).1))
      ]

  answer-refused :
      (r : HttpRequest) (c : Checked) (w : W) → is_clear c.error ≡ false → (answer r c w).1 ≡ w
  unfolding answer
  answer-refused r c w h = ground arith

  -- The world where the manager does not let the request through.
  pub gate-refused :
      (r : HttpRequest) (w : W)
      → let w₁ = (opts.known_device r (opts.account_key r) w).1 in
        let checked = λ (k : Bool). check mgr r.context (signals_of r k) (header_token r) w₁ in
        ((k : Bool) → is_clear (checked k).0.error ≡ false)
        → ((gate r w).1 ≡ w₁) ⊎ ((k : Bool) × ((gate r w).1 ≡ (checked k).1))
  unfolding gate
  gate-refused r w h =
      let (known, w₁) = opts.known_device r (opts.account_key r) w in
      let checked = λ (k : Bool). check mgr r.context (signals_of r k) (header_token r) w₁ in
      elim (Result-cases known) [
        | inl (e, failed) ↦ inl (rw (failed, gate) refl)
        | inr (k, found) ↦
            inr (k, rw (found, gate) (answer-refused r (checked k).0 (checked k).1 (h k)))
      ]

  -- Whether the device check and then the manager, asked with its answer, let a request through.
  pub is_let_through : HttpRequest → W → Bool
  is_let_through r w =
      let (known, w₁) = opts.known_device r (opts.account_key r) w in
      elim known [
        | err e ↦ false
        | ok k ↦ is_clear (check mgr r.context (signals_of r k) (header_token r) w₁).0.error
      ]

  served_in-answer :
      (r : HttpRequest) (c : Checked) (w : W)
      → served_in (answer r c w).0 ≡ (if is_clear c.error then 1 else 0)
  unfolding answer write_error write_required
  served_in-answer r c w = ground (arith, served_in-called_all (next r w).0)

  -- The step-up middleware calls the wrapped handler exactly once if the device check gives an
  -- answer and then the manager's Check, on the request's signals and token, returns no error, and
  -- never otherwise.
  gate-serves :
      (r : HttpRequest) (w : W) → served_in (gate r w).0 ≡ (if is_let_through r w then 1 else 0)
  unfolding gate write_error is_let_through
  gate-serves r w =
      let (known, w₁) = opts.known_device r (opts.account_key r) w in
      let checked = λ (k : Bool). check mgr r.context (signals_of r k) (header_token r) w₁ in
      ground (
        arith,
        served_in-answer r (checked true).0 (checked true).1,
        served_in-answer r (checked false).0 (checked false).1,
      )
