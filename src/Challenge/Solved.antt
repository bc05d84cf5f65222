-- ===== src/Challenge/Solved.antt =====
-- What passes Manager.Check of challenge/challenge.go.
use floodguard_rate_limiter.Prelude.{
  ap, String, true, false, none, some, ◌≡◌, ◌≢◌, ◌↔◌, ◌⊎◌, arith, text_eq, eq_iff,
}
use floodguard_rate_limiter.Prelude.Int.{ℤ, ◌+ℤ◌, ◌≤ℤ◌}
use floodguard_rate_limiter.Prelude.Dict.{insert, lookup-insert_self}
use floodguard_rate_limiter.Errors.{Context, Result, ok, sentinel, captcha_required}
use floodguard_rate_limiter.Challenge.{
  RiskSignals, challenge_required, Verifier, Tokens, token_key, memory_issue, memory_mark_solved,
  memory_is_solved, memory_store, Manager, issue_anew, by_captcha, by_token, check,
}

abbrev pub memory_manager : ℤ → Result String → ℤ → Verifier Tokens → Manager Tokens
memory_manager now random ttl verifier = record {
  verifier = verifier;
  store = memory_store now random;
  ttl = ttl;
}

-- A token that is handed out.
issued : ℤ → String → String → String → Tokens → Tokens
issued expiry account action token m =
    insert (token_key account action token) (record { solved = false; expires_at = expiry }) m

module _ (ctx : Context) (verifier : Verifier Tokens) (account action token : String)
    (signals : RiskSignals) where
  -- Where a challenge is required, no token and no CAPTCHA response is answered by a new token.
  asked-issues :
      (now ttl : ℤ) (m : Tokens)
      → challenge_required signals ≡ true
      → check (memory_manager now (ok token) ttl verifier) ctx account action signals "" "" m
        ≡ ((token, some (sentinel captcha_required)), issued (now +ℤ ttl) account action token m)
  unfolding check by_token by_captcha issue_anew memory_issue issued
  asked-issues now ttl m due = ground arith

  -- Over the in-memory token store, with a verifier that accepts a CAPTCHA response that is not
  -- empty: where a challenge is required and a check without token and response has handed out a
  -- token that is not empty, a check with that token alone is refused with ErrChallengeRequired, a
  -- check with the token and the response passes, and a check with the token alone passes then,
  -- all by the time the token expires.
  pub token-passes_solved :
      (now early later ttl : ℤ) (other : String) (random random' : Result String) (captcha : String)
      (m : Tokens)
      → challenge_required signals ≡ true
      → token ≢ ""
      → captcha ≢ ""
      → ((w : Tokens) → verifier.verify ctx captcha "" w ≡ (ok true, w))
      → early ≤ℤ now +ℤ ttl
      → later ≤ℤ now +ℤ ttl
      → let m₁ =
          (check
            (memory_manager now (ok token) ttl verifier)
            ctx
            account
            action
            signals
            ""
            ""
            m).1 in
        let unsolved =
          check
            (memory_manager early (ok other) ttl verifier)
            ctx
            account
            action
            signals
            token
            ""
            m₁ in
        let (solving, m₂) =
          check
            (memory_manager early random ttl verifier)
            ctx
            account
            action
            signals
            token
            captcha
            m₁ in
        let again =
          check
            (memory_manager later random' ttl verifier)
            ctx
            account
            action
            signals
            token
            ""
            m₂ in
        (unsolved.0.1 ≡ some (sentinel captcha_required)) × (solving.1 ≡ none) × (again.0.1 ≡ none)
  unfolding check by_token by_captcha issue_anew memory_issue memory_is_solved memory_mark_solved
      issued
  token-passes_solved now early later ttl other random random' captcha m due n c v l l' =
      let key = token_key account action token in
      let m₁ = issued (now +ℤ ttl) account action token m in
      rw (ap (λ r. r.1) (asked-issues now ttl m due)) (
        ground (
          arith,
          eq_iff token "",
          eq_iff captcha "",
          v m₁,
          lookup-insert_self key (record { solved = false; expires_at = now +ℤ ttl }) m,
          lookup-insert_self key (record { solved = true; expires_at = now +ℤ ttl }) m₁,
        ))

-- For every manager, the CAPTCHA check returns no error exactly when no challenge is required, or
-- the header's token is not empty and either the store says it is solved, or it says it is not and
-- the verifier accepts a CAPTCHA response that is not empty: whether the store knows the token
-- makes no difference then.
pub check_passes_iff :
    {W : Type 0} (m : Manager W) (ctx : Context) (account action : String) (signals : RiskSignals)
    (header captcha : String) (w : W)
    → let (solved, w₁) = m.store.is_solved ctx account action header w in
      ((check m ctx account action signals header captcha w).0.1 ≡ none) ↔ (
        (challenge_required signals ≡ false)
        ⊎ ((text_eq header "" ≡ false)
            × ((solved ≡ ok true)
                ⊎ ((solved ≡ ok false)
                    × (text_eq captcha "" ≡ false)
                    × ((m.verifier.verify ctx captcha "" w₁).0 ≡ ok true)))))
unfolding check by_token by_captcha issue_anew
check_passes_iff m ctx account action signals header captcha w =
    (λ h. ground arith, λ c. ground arith)
