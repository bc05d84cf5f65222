-- ===== src/Challenge.antt =====
-- challenge/challenge.go: the risk signals, CAPTCHA verifiers, the in-memory token store, and the
-- manager.
pub mod Gate
pub mod Solved
use floodguard_rate_limiter.Prelude.{
  String, str_append, Bool, true, false, not, Option, none, some, List, [], ◌∷◌, ◌&&◌, text_eq,
  if◌then◌else◌,
}
use floodguard_rate_limiter.Prelude.Int.{ℤ, pos, ◌+ℤ◌, leb_ℤ, ltb_ℤ}
use floodguard_rate_limiter.Prelude.Dict.{Dict, lookup, insert}
use floodguard_rate_limiter.Errors.{
  Action, Context, Error, Result, ok, err, sentinel, captcha_required, unknown_token,
}

pub record RiskSignals : Type 0 where
  pub account_age : ℤ
  pub platform_spike : Bool
  pub velocity_flagged : Bool
  pub new_account_max_age : ℤ

-- 24 hours
abbrev default_max_age : ℤ
default_max_age = pos 86400000000000

unfoldable pub challenge_required : RiskSignals → Bool
challenge_required s =
    let max_age =
      if leb_ℤ s.new_account_max_age (pos 0) then default_max_age else s.new_account_max_age in
    if s.platform_spike
    then true
    else if s.velocity_flagged
    then true
    else if ltb_ℤ s.account_age max_age
    then true
    else false

-- A verifier is asked for a CAPTCHA response and a remote IP.
pub record Verifier (W : Type 0) : Type 0 where
  pub verify : Context → String → String → Action W Bool

unfoldable pub stub_verify : {W : Type 0} → Context → String → String → Action W Bool
stub_verify ctx token ip w = (ok (text_eq token "valid-captcha"), w)

abbrev pub stub_verifier : {W : Type 0} → Verifier W
stub_verifier = record { verify = stub_verify }

pub record TokenStore (W : Type 0) : Type 0 where
  pub issue : Context → String → String → ℤ → Action W String
  pub mark_solved : Context → String → String → String → Action W (Unit {0})
  pub is_solved : Context → String → String → String → Action W Bool

pub record MemoryToken : Type 0 where
  pub solved : Bool
  pub expires_at : ℤ

abbrev pub Tokens : Type 0
Tokens = Dict MemoryToken

unfoldable pub token_key : String → String → String → String
token_key account action token =
    str_append account (str_append "|" (str_append action (str_append "|" token)))

-- The in-memory store, with the clock at `now` and the answer of the random source.
unfoldable pub memory_issue : ℤ → Result String → String → String → ℤ → Action Tokens String
memory_issue now random account action ttl m = elim random [
  | err e ↦ (err e, m)
  | ok token ↦ (
    ok token,
    insert (token_key account action token) (record { solved = false; expires_at = now +ℤ ttl }) m,
  )
]

unfoldable pub memory_mark_solved : String → String → String → Action Tokens (Unit {0})
memory_mark_solved account action token m =
    let key = token_key account action token in
    elim (lookup key m) [
      | none ↦ (err (sentinel unknown_token), m)
      | some t ↦ (ok tt, insert key (record t { solved = true }) m)
    ]

unfoldable pub memory_is_solved : ℤ → String → String → String → Action Tokens Bool
memory_is_solved now account action token m = (
  ok (elim (lookup (token_key account action token) m) [
    | none ↦ false
    | some t ↦ if ltb_ℤ t.expires_at now then false else t.solved
  ]),
  m,
)

abbrev pub memory_store : ℤ → Result String → TokenStore Tokens
memory_store now random = record {
  issue = λ ctx account action ttl. memory_issue now random account action ttl;
  mark_solved = λ ctx account action token. memory_mark_solved account action token;
  is_solved = λ ctx account action token. memory_is_solved now account action token;
}

pub record Manager (W : Type 0) : Type 0 where
  pub verifier : Verifier W
  pub store : TokenStore W
  pub ttl : ℤ

-- `WithTokenTTL`
unfoldable pub with_token_ttl : {W : Type 0} → ℤ → Manager W → Manager W
with_token_ttl ttl m = if ltb_ℤ (pos 0) ttl then record m { ttl = ttl } else m

abbrev apply_options : {W : Type 0} → List (Manager W → Manager W) → Manager W → Manager W
apply_options [] m = m
apply_options (o ∷ os) m = apply_options os (o m)

-- `NewManager`, with a ttl of 15 minutes; the in-memory store that it makes is handed in.
unfoldable pub new_manager :
    {W : Type 0}
    → TokenStore W
    → Option (Verifier W)
    → Option (TokenStore W)
    → List (Manager W → Manager W)
    → Manager W
new_manager memory verifier store opts = apply_options opts (record {
  verifier = elim verifier [ none ↦ stub_verifier | some v ↦ v ];
  store = elim store [ none ↦ memory | some s ↦ s ];
  ttl = pos 900000000000;
})

-- The two results of `Check`: a challenge token and an error.
abbrev pub Checked : Type 0
Checked = String × Option Error

module _ {W : Type 0} (m : Manager W) (ctx : Context) (account action : String) where
  -- The end of `Check`: a new token.
  unfoldable pub issue_anew : W → Checked × W
  issue_anew w =
      let (issued, w') = m.store.issue ctx account action m.ttl w in
      elim issued [
        | err e ↦ (("", some e), w')
        | ok token ↦ ((token, some (sentinel captcha_required)), w')
      ]

  -- The test of a CAPTCHA response; the error of marking the token is dropped.
  unfoldable pub by_captcha : String → String → W → Checked × W
  unfolding issue_anew
  by_captcha header captcha w =
      let (verified, w₁) = m.verifier.verify ctx captcha "" w in
      let (marked, w₂) = m.store.mark_solved ctx account action header w₁ in
      let unasked = issue_anew w in
      let refused = issue_anew w₁ in
      if text_eq captcha "" then unasked else elim verified [
        | err e ↦ (("", some e), w₁)
        | ok valid ↦ if valid && not (text_eq header "") then (("", none), w₂) else refused
      ]

  -- The test of the header's token, and what follows.
  unfoldable pub by_token : String → String → W → Checked × W
  unfolding by_captcha
  by_token header captcha w =
      let (solved, w₁) = m.store.is_solved ctx account action header w in
      let without = by_captcha header captcha w in
      let unsolved = by_captcha header captcha w₁ in
      if text_eq header "" then without else elim solved [
        | err e ↦ (("", some e), w₁)
        | ok valid ↦ if valid then (("", none), w₁) else unsolved
      ]

  -- `Manager.Check`
  unfoldable pub check : RiskSignals → String → String → W → Checked × W
  unfolding by_token
  check signals header captcha w =
      let asked = by_token header captcha w in
      if challenge_required signals then asked else (("", none), w)
