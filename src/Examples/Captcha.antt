-- ===== src/Examples/Captcha.antt =====
-- The theorems on CAPTCHA challenges at concrete requests.
use floodguard_rate_limiter.Prelude.{
  String, true, false, none, some, [], ◌≡◌, refl, ◌≢◌, ◌↔◌, ◌⊎◌, arith, text_eq,
}
use floodguard_rate_limiter.Prelude.Int.{pos, ◌+ℤ◌, ◌≤ℤ◌}
use floodguard_rate_limiter.Errors.{ok, sentinel, captcha_required, background}
use floodguard_rate_limiter.Challenge.{
  RiskSignals, challenge_required, stub_verify, stub_verifier, Tokens, check,
}
use floodguard_rate_limiter.Challenge.Solved.{memory_manager, token-passes_solved, check_passes_iff}

abbrev spike : RiskSignals
spike = record {
  account_age = pos 900;
  platform_spike = true;
  velocity_flagged = false;
  new_account_max_age = pos 60;
}

spike-due : challenge_required spike ≡ true
unfolding challenge_required
spike-due = refl

t1≢empty : ◌≢◌ {A = String} "t1" ""
t1≢empty e = cc

valid≢empty : ◌≢◌ {A = String} "valid-captcha" ""
valid≢empty e = cc

stub-accepts : (w : Tokens) → stub_verifier.verify background "valid-captcha" "" w ≡ (ok true, w)
unfolding stub_verify
stub-accepts w = refl

ten_in_time : pos 10 ≤ℤ pos 0 +ℤ pos 60
unfolding ◌+ℤ◌
ten_in_time = omega arith

fifty_in_time : pos 50 ≤ℤ pos 0 +ℤ pos 60
unfolding ◌+ℤ◌
fifty_in_time = omega arith

token-passes_solved_example :
    let m₁ =
      (check
        (memory_manager (pos 0) (ok "t1") (pos 60) stub_verifier)
        background
        "alice"
        "bet"
        spike
        ""
        ""
        []).1 in
    let unsolved =
      check
        (memory_manager (pos 10) (ok "t2") (pos 60) stub_verifier)
        background
        "alice"
        "bet"
        spike
        "t1"
        ""
        m₁ in
    let (solving, m₂) =
      check
        (memory_manager (pos 10) (ok "t3") (pos 60) stub_verifier)
        background
        "alice"
        "bet"
        spike
        "t1"
        "valid-captcha"
        m₁ in
    let again =
      check
        (memory_manager (pos 50) (ok "t4") (pos 60) stub_verifier)
        background
        "alice"
        "bet"
        spike
        "t1"
        ""
        m₂ in
    (unsolved.0.1 ≡ some (sentinel captcha_required)) × (solving.1 ≡ none) × (again.0.1 ≡ none)
token-passes_solved_example =
    token-passes_solved background stub_verifier "alice" "bet" "t1" spike (pos 0) (pos 10) (pos 50)
      (pos 60) "t2" (ok "t3") (ok "t4") "valid-captcha" [] spike-due t1≢empty valid≢empty
      stub-accepts ten_in_time fifty_in_time

-- A token that the store does not know, with a CAPTCHA response.
check_passes_iff_example :
    let m = memory_manager (pos 0) (ok "t2") (pos 60) stub_verifier in
    let (solved, w₁) = m.store.is_solved background "alice" "bet" "t9" [] in
    ((check m background "alice" "bet" spike "t9" "valid-captcha" []).0.1 ≡ none) ↔ (
      (challenge_required spike ≡ false)
      ⊎ ((text_eq "t9" "" ≡ false)
          × ((solved ≡ ok true)
              ⊎ ((solved ≡ ok false)
                  × (text_eq "valid-captcha" "" ≡ false)
                  × ((m.verifier.verify background "valid-captcha" "" w₁).0 ≡ ok true)))))
check_passes_iff_example =
    check_passes_iff (memory_manager (pos 0) (ok "t2") (pos 60) stub_verifier) background "alice"
      "bet" spike "t9" "valid-captcha" []
