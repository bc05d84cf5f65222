-- ===== src/StepUp.antt =====
-- stepup/stepup.go: risk levels, the assessor, the in-memory challenge store, and the manager.
pub mod Tokens
pub mod Gate
use floodguard_rate_limiter.Prelude.{
  String, str_append, Bool, false, not, Option, none, some, List, [], ◌∷◌, ◌==◌, ◌&&◌, text_eq,
  if◌then◌else◌,
}
use floodguard_rate_limiter.Prelude.Int.{ℤ, pos, ◌+ℤ◌, leb_ℤ, ltb_ℤ}
use floodguard_rate_limiter.Prelude.Dict.{Dict, lookup, insert, erase}
use floodguard_rate_limiter.Errors.{
  Action, Context, Error, Result, ok, err, sentinel, step_up_required,
}

-- `type RiskLevel int` and its constants.
abbrev pub RiskLevel : Type 0
RiskLevel = ℤ

abbrev pub risk_low : RiskLevel
risk_low = pos 0

abbrev pub risk_medium : RiskLevel
risk_medium = pos 1

abbrev pub risk_high : RiskLevel
risk_high = pos 2

-- `RiskLevel.String`
unfoldable pub level_text : RiskLevel → String
level_text (pos n) =
    if n == 0 then "low" else if n == 1 then "medium" else if n == 2 then "high" else "unknown"
level_text negative = "unknown"

unfoldable pub requires_step_up : RiskLevel → Bool
requires_step_up l = leb_ℤ risk_medium l

pub record Signals : Type 0 where
  pub account_id : String
  pub device_fp : String
  pub action : String
  pub known_device : Bool
  pub velocity_flagged : Bool

-- An assessor returns its level also with an error.
pub record RiskAssessor (W : Type 0) : Type 0 where
  pub assess : Context → Signals → W → (RiskLevel × Option Error) × W

unfoldable pub default_assess :
    {W : Type 0} → Context → Signals → W → (RiskLevel × Option Error) × W
default_assess ctx s w =
    let level =
      if not s.known_device && s.velocity_flagged
      then risk_high
      else if not s.known_device
      then risk_medium
      else if s.velocity_flagged
      then risk_medium
      else risk_low in
    ((level, none), w)

abbrev pub default_assessor : {W : Type 0} → RiskAssessor W
default_assessor = record { assess = default_assess }

pub record ChallengeStore (W : Type 0) : Type 0 where
  pub issue : Context → String → String → RiskLevel → ℤ → Action W String
  pub verify : Context → String → String → String → Action W Bool
  pub consume : Context → String → String → String → Action W (Unit {0})

pub record MemoryChallenge : Type 0 where
  pub level : RiskLevel
  pub expires_at : ℤ

abbrev pub Challenges : Type 0
Challenges = Dict MemoryChallenge

unfoldable pub challenge_key : String → String → String → String
challenge_key account action token =
    str_append account (str_append "|" (str_append action (str_append "|" token)))

-- The in-memory store, with the clock at `now` and the answer of `randomToken`.
unfoldable pub memory_issue :
    ℤ → Result String → String → String → RiskLevel → ℤ → Action Challenges String
memory_issue now (err e) account action level ttl m = (err e, m)
memory_issue now (ok token) account action level ttl m =
    let challenge : MemoryChallenge = record { level = level; expires_at = now +ℤ ttl } in
    (ok token, insert (challenge_key account action token) challenge m)

unfoldable pub memory_verify : ℤ → String → String → String → Action Challenges Bool
memory_verify now account action token m = (
  ok (elim (lookup (challenge_key account action token) m) [
    | none ↦ false
    | some ch ↦ not (ltb_ℤ ch.expires_at now)
  ]),
  m,
)

unfoldable pub memory_consume : String → String → String → Action Challenges (Unit {0})
memory_consume account action token m = (ok tt, erase (challenge_key account action token) m)

abbrev pub memory_store : ℤ → Result String → ChallengeStore Challenges
memory_store now random = record {
  issue = λ ctx account action level ttl. memory_issue now random account action level ttl;
  verify = λ ctx account action token. memory_verify now account action token;
  consume = λ ctx account action token. memory_consume account action token;
}

pub record Manager (W : Type 0) : Type 0 where
  pub assessor : RiskAssessor W
  pub store : ChallengeStore W
  pub ttl : ℤ

-- 10 minutes
abbrev pub default_ttl : ℤ
default_ttl = pos 600000000000

-- `WithTokenTTL`
unfoldable pub with_token_ttl : {W : Type 0} → ℤ → Manager W → Manager W
with_token_ttl ttl m = if ltb_ℤ (pos 0) ttl then record m { ttl = ttl } else m

abbrev apply_options : {W : Type 0} → List (Manager W → Manager W) → Manager W → Manager W
apply_options [] m = m
apply_options (o ∷ os) m = apply_options os (o m)

-- `NewManager`; the in-memory store that it makes when none is given is handed in.
unfoldable pub new_manager :
    {W : Type 0}
    → ChallengeStore W
    → Option (RiskAssessor W)
    → Option (ChallengeStore W)
    → List (Manager W → Manager W)
    → Manager W
new_manager memory assessor store opts = apply_options opts (record {
  assessor = elim assessor [ none ↦ default_assessor | some a ↦ a ];
  store = elim store [ none ↦ memory | some s ↦ s ];
  ttl = default_ttl;
})

-- The three results of `Check`.
pub record Checked : Type 0 where
  pub challenge_token : String
  pub level : RiskLevel
  pub error : Option Error

module _ {W : Type 0} (m : Manager W) (ctx : Context) (s : Signals) where
  abbrev without_token : RiskLevel → Option Error → Checked
  without_token level e = record { challenge_token = ""; level = level; error = e }

  -- The end of `Check`: a new challenge.
  unfoldable pub challenge : RiskLevel → W → Checked × W
  challenge level w =
      let (issued, w') = m.store.issue ctx s.account_id s.action level m.ttl w in
      elim issued [
        | err e ↦ (without_token level (some e), w')
        | ok token ↦ (
          record {
            challenge_token = token;
            level = level;
            error = some (sentinel step_up_required);
          },
          w',
        )
      ]

  -- What is done where a step-up is required.
  unfoldable pub step_up : RiskLevel → String → W → Checked × W
  unfolding challenge
  step_up level header w =
      let (verified, w₁) = m.store.verify ctx s.account_id s.action header w in
      let (consumed, w₂) = m.store.consume ctx s.account_id s.action header w₁ in
      let anew = challenge level w in
      let refused = challenge level w₁ in
      if text_eq header "" then anew else elim verified [
        | err e ↦ (without_token level (some e), w₁)
        | ok valid ↦ if valid then (without_token level none, w₂) else refused
      ]

  -- `Manager.Check`
  unfoldable pub check : String → W → Checked × W
  unfolding step_up
  check header w =
      let (assessed, w₁) = m.assessor.assess ctx s w in
      let (level, failed) = assessed in
      let stepped = step_up level header w₁ in
      elim failed [
        | some e ↦ (without_token level (some e), w₁)
        | none ↦ if requires_step_up level then stepped else (without_token level none, w₁)
      ]
