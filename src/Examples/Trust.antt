-- ===== src/Examples/Trust.antt =====
-- The theorems on device trust and step-up verification at concrete histories.
use floodguard_rate_limiter.Prelude.{
  String, false, none, some, List, [], ◌∷◌, ◌≡◌, refl, ◌≢◌, arith,
}
use floodguard_rate_limiter.Prelude.Int.{ℤ, pos, ◌+ℤ◌, ◌≤ℤ◌}
use floodguard_rate_limiter.Errors.{ok, sentinel, step_up_required, background}
use floodguard_rate_limiter.DeviceTrust.{memory_store, is_known_device}
use floodguard_rate_limiter.DeviceTrust.Trusted.{
  Call, sees, marks, run, is_marked, is_known-iff_marked,
}
use floodguard_rate_limiter.Middleware.{HttpRequest, write, NextHandler}
use floodguard_rate_limiter.StepUp.{
  Signals, Challenges, default_assess, requires_step_up, challenge, step_up, memory_issue, check,
}
use floodguard_rate_limiter.StepUp.Tokens.{memory_manager, token-passes_once}
use floodguard_rate_limiter.StepUp.Gate.{Options}

-- A device is seen, another one marked, and the device of another account marked.
abbrev logins : List (ℤ × Call)
logins =
    (pos 1, sees "alice" "f1")
    ∷ (pos 2, marks "alice" "f2")
    ∷ (pos 3, marks "bob" "f1")
    ∷ (pos 4, sees "alice" "f2")
    ∷ []

alice≢empty : ◌≢◌ {A = String} "alice" ""
alice≢empty e = cc

f2≢empty : ◌≢◌ {A = String} "f2" ""
f2≢empty e = cc

is_known-iff_marked_example :
    (is_known_device memory_store background "alice" "f2" (run logins [])).0
    ≡ ok (is_marked "alice" "f2" logins)
is_known-iff_marked_example = is_known-iff_marked "alice" "f2" logins alice≢empty f2≢empty

abbrev unknown_device : Signals
unknown_device = record {
  account_id = "alice";
  device_fp = "f1";
  action = "withdraw";
  known_device = false;
  velocity_flagged = false;
}

t1≢empty : ◌≢◌ {A = String} "t1" ""
t1≢empty e = cc

t1-asked :
    (check (memory_manager (pos 0) (ok "t1") (pos 60)) background unknown_device "" []).0.error
    ≡ some (sentinel step_up_required)
unfolding check step_up challenge memory_issue default_assess requires_step_up
t1-asked = refl

fifty_in_time : pos 50 ≤ℤ pos 0 +ℤ pos 60
unfolding ◌+ℤ◌
fifty_in_time = omega arith

token-passes_once_example :
    let m₁ =
      (check (memory_manager (pos 0) (ok "t1") (pos 60)) background unknown_device "" []).1 in
    let (second, m₂) =
      check (memory_manager (pos 50) (ok "t2") (pos 60)) background unknown_device "t1" m₁ in
    let third =
      (check (memory_manager (pos 55) (ok "t3") (pos 60)) background unknown_device "t1" m₂).0 in
    (second.error ≡ none) × (third.error ≡ some (sentinel step_up_required))
token-passes_once_example =
    token-passes_once background unknown_device (pos 0) (pos 50) (pos 55) (pos 60) "" "t1" "t3"
      (ok "t2") [] t1≢empty t1-asked fifty_in_time

abbrev guarded : Options Challenges
guarded = record {
  account_key = λ r. r.header "X-Account-ID";
  device_fp = λ r. r.header "X-Device-FP";
  action = "withdraw";
  known_device = λ r account w. (ok false, w);
  velocity_flagged = λ r account. false;
}

abbrev pay : NextHandler Challenges
pay r w = (write (7 ∷ []) ∷ [], w)

abbrev withdrawal : HttpRequest
withdrawal = record {
  context = background;
  header = λ name. "t1";
  remote_addr = "10.0.0.1";
  body = none;
}
