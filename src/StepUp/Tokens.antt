-- ===== src/StepUp/Tokens.antt =====
-- What the challenge tokens of stepup/stepup.go are good for.
use floodguard_rate_limiter.Prelude.{
  String, true, false, none, some, ◌≡◌, ◌≢◌, ◌↔◌, ◌⊎◌, refl, arith, eq_iff, Bool-cases, inl, inr,
}
use floodguard_rate_limiter.Prelude.Int.{ℤ, ◌+ℤ◌, ◌≤ℤ◌}
use floodguard_rate_limiter.Prelude.Dict.{
  lookup, insert, erase, lookup-insert_self, lookup-erase_self,
}
use floodguard_rate_limiter.Errors.{Context, Result, ok, sentinel, step_up_required}
use floodguard_rate_limiter.StepUp.{
  RiskLevel, Signals, Challenges, Manager, default_assess, default_assessor, challenge_key,
  memory_store, memory_issue, memory_verify, memory_consume, requires_step_up, challenge, step_up,
  check,
}

-- The manager over the in-memory store, with the clock and the next random token.
abbrev pub memory_manager : ℤ → Result String → ℤ → Manager Challenges
memory_manager now random ttl = record {
  assessor = default_assessor;
  store = memory_store now random;
  ttl = ttl;
}

-- For every manager, Check returns no error exactly when the assessor returns none and either its
-- level requires no step-up, or the header's token is not empty and the store verifies it.
check_clears_iff :
    {W : Type 0} (m : Manager W) (ctx : Context) (s : Signals) (header : String) (w : W)
    → let ((level, failed), w₁) = m.assessor.assess ctx s w in
      ((check m ctx s header w).0.error ≡ none) ↔ (
        (failed ≡ none)
        × ((requires_step_up level ≡ false)
            ⊎ ((header ≢ "") × ((m.store.verify ctx s.account_id s.action header w₁).0 ≡ ok true))))
unfolding check step_up challenge
check_clears_iff m ctx s header w =
    let ((level, failed), w₁) = m.assessor.assess ctx s w in
    (
      λ h. (
        ground arith,
        elim (Bool-cases (requires_step_up level)) [
          | inl due ↦
              inr ((λ e. ground (arith, eq_iff header ""), ground (arith, eq_iff header "")))
          | inr low ↦ inl low
        ],
      ),
      λ c. ground (arith, eq_iff header ""),
    )

-- The record of a handed-out token.
abbrev issued : Signals → ℤ → String → RiskLevel → Challenges → Challenges
issued s expiry token level m =
    insert (challenge_key s.account_id s.action token)
      (record { level = level; expires_at = expiry }) m

module _ (ctx : Context) (s : Signals) (header token : String) where
  -- What asking for a step-up does to the store.
  asked-issues :
      (now ttl : ℤ) (m : Challenges)
      → (check (memory_manager now (ok token) ttl) ctx s header m).0.error
        ≡ some (sentinel step_up_required)
      → (level : RiskLevel) × ((default_assess {W = Challenges} ctx s m).0 ≡ (level, none))
        × (requires_step_up level ≡ true)
        × ((check (memory_manager now (ok token) ttl) ctx s header m).1
            ≡ issued s (now +ℤ ttl) token level m)
  unfolding check step_up challenge memory_issue memory_verify memory_consume default_assess
  asked-issues now ttl m asked =
      ((default_assess {W = Challenges} ctx s m).0.0, refl, ground arith, ground arith)

  passes :
      (now ttl expiry : ℤ) (random : Result String) (level : RiskLevel) (m : Challenges)
      → token ≢ ""
      → requires_step_up level ≡ true
      → (default_assess {W = Challenges} ctx s m).0 ≡ (level, none)
      → now ≤ℤ expiry
      → let m₁ = issued s expiry token level m in
        (check (memory_manager now random ttl) ctx s token m₁).0.error ≡ none
        × (check (memory_manager now random ttl) ctx s token m₁).1
          ≡ erase (challenge_key s.account_id s.action token) m₁
  unfolding check step_up memory_verify memory_consume default_assess
  passes now ttl expiry random level m n req a l =
      let key = challenge_key s.account_id s.action token in
      ground (
        arith,
        eq_iff token "",
        lookup-insert_self key (record { level = level; expires_at = expiry }) m,
      )

  refused :
      (now ttl : ℤ) (other : String) (level : RiskLevel) (m : Challenges)
      → requires_step_up level ≡ true
      → (default_assess {W = Challenges} ctx s m).0 ≡ (level, none)
      → lookup (challenge_key s.account_id s.action token) m ≡ none
      → (check (memory_manager now (ok other) ttl) ctx s token m).0.error
        ≡ some (sentinel step_up_required)
  unfolding check step_up challenge memory_issue memory_verify default_assess
  refused now ttl other level m req a free = ground arith

-- When Check with the default assessor over the in-memory store has asked for a step-up and handed
-- out a token that is not empty, the same check with that token in the header passes, by the time
-- the token expires, and with the token a second time, at any time, a step-up is asked for again.
pub token-passes_once :
    (ctx : Context) (s : Signals) (now later last ttl : ℤ) (header token other : String)
    (random : Result String) (m : Challenges)
    → token ≢ ""
    → (check (memory_manager now (ok token) ttl) ctx s header m).0.error
      ≡ some (sentinel step_up_required)
    → later ≤ℤ now +ℤ ttl
    → let m₁ = (check (memory_manager now (ok token) ttl) ctx s header m).1 in
      let (second, m₂) = check (memory_manager later random ttl) ctx s token m₁ in
      let third = (check (memory_manager last (ok other) ttl) ctx s token m₂).0 in
      (second.error ≡ none) × (third.error ≡ some (sentinel step_up_required))
unfolding default_assess
token-passes_once ctx s now later last ttl header token other random m n asked l =
    let (level, a, req, e) = asked-issues ctx s header token now ttl m asked in
    let key = challenge_key s.account_id s.action token in
    let m₁ = issued s (now +ℤ ttl) token level m in
    let (clear, used) = passes ctx s header token later ttl (now +ℤ ttl) random level m n req a l in
    rw e (
      clear,
      rw used (
          refused ctx s header token last ttl other level (erase key m₁) req a
            (lookup-erase_self key m₁)),
    )
