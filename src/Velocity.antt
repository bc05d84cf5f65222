-- ===== src/Velocity.antt =====
-- velocity/velocity.go, velocity/rules.go and velocity/memory.go: the Store and Rule interfaces, the
-- in-memory store, the two built-in rules and the engine.
pub mod Redis
pub mod RedisKeys
pub mod RedisOverlaps
pub mod RedisTracks
pub mod Window
pub mod Overlaps
use floodguard_rate_limiter.Prelude.{
  ◌+◌, ◌-◌, String, Bool, true, false, Option, none, some, List, [], ◌∷◌, ◌++◌, text_eq,
  if◌then◌else◌, length,
}
use floodguard_rate_limiter.Prelude.Int.{ℤ, pos, ◌-ℤ◌, ltb_ℤ, leb_ℤ}
use floodguard_rate_limiter.Prelude.Dict.{Dict, lookup, insert}
use floodguard_rate_limiter.Errors.{
  Action, Context, ok, err, sentinel, detail, velocity_key_required, invalid_rule, ◌>>=◌, ◌>>◌,
  pure, wrapping, fail_if,
}

pub record Store (W : Type 0) : Type 0 where
  pub record_action : Context → String → ℤ → Action W (Unit {0})
  pub count : Context → String → ℤ → Action W ℤ
  pub last : Context → String → Action W (Option ℤ)

-- `Rule.Check`: whether the key is flagged, and the reason.
pub record Rule (W : Type 0) : Type 0 where
  pub check : Context → String → Store W → Action W (Bool × String)

abbrev pub Actions : Type 0
Actions = Dict (List ℤ)

-- A map's read of a slice: nil on a missing key.
unfoldable pub times_of : String → Actions → List ℤ
times_of key m = elim (lookup key m) [ none ↦ [] | some ts ↦ ts ]

-- `memoryStore.Record`
unfoldable pub memory_record : String → ℤ → Action Actions (Unit {0})
memory_record key at m = (ok tt, insert key (times_of key m ++ at ∷ []) m)

-- The loop of `trim`: the times after the cutoff are kept.
unfoldable pub keep_after : ℤ → List ℤ → List ℤ
keep_after cutoff [] = []
keep_after cutoff (t ∷ ts) =
    let rest = keep_after cutoff ts in if ltb_ℤ cutoff t then t ∷ rest else rest

-- `trim` with the clock at `now`: the times that are dropped are gone from the map.
unfoldable pub trim : ℤ → String → ℤ → Actions → List ℤ × Actions
unfolding keep_after
trim now key window m =
    let kept = keep_after (now -ℤ window) (times_of key m) in (kept, insert key kept m)

-- `memoryStore.Count`
unfoldable pub memory_count : ℤ → String → ℤ → Action Actions ℤ
unfolding trim
memory_count now key window m =
    let (kept, m') = trim now key window m in (ok (pos (length kept)), m')

abbrev pub last_of : List ℤ → Option ℤ
last_of [] = none
last_of (t ∷ []) = some t
last_of (t ∷ u ∷ ts) = last_of (u ∷ ts)

-- `memoryStore.Last`
unfoldable pub memory_last : String → Action Actions (Option ℤ)
unfolding times_of
memory_last key m = (ok (last_of (times_of key m)), m)

-- The store that `NewMemoryStore` returns, while the clock that a count reads is at `now`.
abbrev pub memory_store : ℤ → Store Actions
memory_store now = record {
  record_action = λ ctx key at. memory_record key at;
  count = λ ctx key window. memory_count now key window;
  last = λ ctx key. memory_last key;
}

-- The label of a reason, with its default.
abbrev pub or_default : String → String → String
or_default label default = if text_eq label "" then default else label

-- A reason's text depends on its numbers and durations only for display, by these two printers.
pub record Format : Type 0 where
  pub over_window : ℤ → String → ℤ → String
  pub too_fast : String → ℤ → ℤ → String

pub record RateOverWindow : Type 0 where
  pub n : ℤ
  pub window : ℤ
  pub label : String

pub record MinInterval : Type 0 where
  pub min : ℤ
  pub label : String

module _ {W : Type 0} where
  -- `RateOverWindow.Check`
  unfoldable pub check_rate :
      Format → RateOverWindow → Context → String → Store W → Action W (Bool × String)
  check_rate f r ctx key store = do
    fail_if (leb_ℤ r.n (pos 0)) (detail (sentinel invalid_rule) "RateOverWindow.N must be positive")
    fail_if (leb_ℤ r.window (pos 0))
        (detail (sentinel invalid_rule) "RateOverWindow.Window must be positive")
    count ← store.count ctx key r.window
    pure (
        if leb_ℤ r.n count
        then (true, f.over_window r.n (or_default r.label "actions") r.window)
        else (false, ""))

  -- What MinInterval makes of the last action; `now` reads the clock.
  unfoldable pub judge_interval :
      Format → MinInterval → Action W ℤ → Option ℤ → Action W (Bool × String)
  judge_interval f r now none = pure (false, "")
  judge_interval f r now (some last) = do
    t ← now
    let elapsed = t -ℤ last
    pure (
        if ltb_ℤ elapsed r.min
        then (true, f.too_fast (or_default r.label "action") r.min elapsed)
        else (false, ""))

  -- `MinInterval.Check`
  unfoldable pub check_interval :
      Format → MinInterval → Action W ℤ → Context → String → Store W → Action W (Bool × String)
  unfolding judge_interval
  check_interval f r now ctx key store = do
    fail_if (leb_ℤ r.min (pos 0))
        (detail (sentinel invalid_rule) "MinInterval.Min must be positive")
    last ← store.last ctx key
    judge_interval f r now last

pub record Engine (W : Type 0) : Type 0 where
  pub store : Store W
  pub rules : List (Rule W)

pub record Config (W : Type 0) : Type 0 where
  pub store : Option (Store W)
  pub rules : List (Rule W)

-- 20 actions in one minute.
abbrev pub default_rule : RateOverWindow
default_rule = record { n = pos 20; window = pos 60000000000; label = "" }

abbrev pub rate_rule : {W : Type 0} → Format → RateOverWindow → Rule W
rate_rule f r = record { check = check_rate f r }

abbrev pub interval_rule : {W : Type 0} → Format → Action W ℤ → MinInterval → Rule W
interval_rule f now r = record { check = check_interval f r now }

abbrev rules_or_default : {W : Type 0} → Format → List (Rule W) → List (Rule W)
rules_or_default f [] = rate_rule f default_rule ∷ []
rules_or_default f (r ∷ rs) = r ∷ rs

-- `New`; the in-memory store that it makes when none is configured is handed in.
unfoldable pub new_engine : {W : Type 0} → Format → Store W → Config W → Engine W
new_engine f memory c = record {
  store = elim c.store [ none ↦ memory | some s ↦ s ];
  rules = rules_or_default f c.rules;
}

module _ {W : Type 0} where
  -- `AddRule`
  unfoldable pub add_rule : Engine W → Rule W → Engine W
  add_rule e r = record e { rules = e.rules ++ r ∷ [] }

  -- The loop over the rules: the reason of the first one that flags the key.
  unfoldable pub run_rules : Store W → Context → String → List (Rule W) → Action W (Option String)
  run_rules store ctx key [] w = (ok none, w)
  run_rules store ctx key (r ∷ rs) w =
      let (res, w') = wrapping "velocity: rule check" (r.check ctx key store) w in
      let rest = run_rules store ctx key rs w' in
      elim res [
        | err e ↦ (err e, w')
        | ok (flagged, why) ↦ if flagged then (ok (some why), w') else rest
      ]

  -- The end of `Check`: the action is recorded unless a rule has flagged the key.
  unfoldable pub settle :
      Engine W → Action W ℤ → Context → String → Option String → Action W (Bool × String)
  settle e now ctx key (some why) = pure (false, why)
  settle e now ctx key none = do
    at ← now
    wrapping "velocity: record" (e.store.record_action ctx key at)
    pure (true, "")

  -- `Engine.Check`; `now` reads the clock.
  unfoldable pub check : Engine W → Action W ℤ → Context → String → Action W (Bool × String)
  unfolding run_rules settle
  check e now ctx key = do
    fail_if (text_eq key "") (sentinel velocity_key_required)
    flagged ← run_rules e.store ctx key e.rules
    settle e now ctx key flagged
