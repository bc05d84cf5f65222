-- ===== src/Anomaly.antt =====
-- anomaly/anomaly.go and anomaly/memory.go: the Counter interface, the detector of spikes over any
-- world `W`, and the in-memory counter, whose calls run under its mutex.
pub mod Counts
pub mod Loop
pub mod Redis
use Prim.Native.Nat.{◌*◌, ◌/◌, ◌%◌}
use floodguard_rate_limiter.Prelude.{
  ℕ, zero, suc, ◌+◌, ◌-◌, String, str_append, Bool, Option, none, some, text_eq, if◌then◌else◌,
}
use floodguard_rate_limiter.Prelude.Int.{ℤ, pos, negsuc, ◌+ℤ◌, ◌-ℤ◌, ltb_ℤ}
use floodguard_rate_limiter.Prelude.Dict.{Dict, lookup, insert}
use floodguard_rate_limiter.Prelude.Int.{wrap64}
use floodguard_rate_limiter.Errors.{
  Action, Context, ok, sentinel, metric_required, ◌>>=◌, ◌>>◌, fail_if,
}

pub record Counter (W : Type 0) : Type 0 where
  pub increment : Context → String → ℤ → ℤ → Action W (Unit {0})
  pub count_in_window : Context → String → ℤ → ℤ → Action W ℤ

-- Go's floats: a parameter.
pub record Floats : Type 1 where
  pub Float : Type 0
  pub zero_float : Float
  pub five : Float
  pub of_int : ℤ → Float
  pub over : Float → Float → Float
  pub times : Float → Float → Float
  -- `a <= 0` and `a >= b`
  pub is_nonpositive : Float → Bool
  pub is_at_least : Float → Float → Bool

abbrev pub minute : ℤ
minute = pos 60000000000

-- `Truncate(time.Minute)`: rounded down.
abbrev pub truncate_minute : ℤ → ℤ
truncate_minute (pos n) = pos (n - n % 60000000000)
truncate_minute (negsuc n) = negsuc (n - n % 60000000000 + 59999999999)

-- `t.Unix()/60` of a whole minute.
abbrev pub minute_number : ℤ → ℤ
minute_number (pos n) = pos (n / 60000000000)
minute_number (negsuc n) = negsuc (n / 60000000000)

module _ (F : Floats) where
  pub record Detector (W : Type 0) : Type 0 where
    pub counter : Counter W
    pub multiplier : F.Float

  pub record Config (W : Type 0) : Type 0 where
    pub counter : Option (Counter W)
    pub multiplier : F.Float

  -- `New`; the in-memory counter that it makes when none is configured is handed in.
  unfoldable pub new_detector : {W : Type 0} → Counter W → Config W → Detector W
  new_detector memory cfg = record {
    counter = elim cfg.counter [ none ↦ memory | some c ↦ c ];
    multiplier = if F.is_nonpositive cfg.multiplier then F.five else cfg.multiplier;
  }

  pub record Spike : Type 0 where
    pub spike : Bool
    pub current_rate : F.Float
    pub baseline_rate : F.Float

  -- The minutes looked back over.
  abbrev pub lookback_or_default : ℤ → ℤ
  lookback_or_default n = if ltb_ℤ n (pos 1) then pos 60 else n

  -- `-time.Duration(lookbackMinutes) * time.Minute`, whose product is an int64, for a lookback that is
  -- positive.
  abbrev pub minutes_back : ℤ → ℤ → ℤ
  minutes_back now (pos n) = now +ℤ wrap64 (pos 0 -ℤ pos (n * 60000000000))
  minutes_back now (negsuc n) = now +ℤ wrap64 (pos (suc n * 60000000000))

  -- The decision on the two counts.
  unfoldable pub judge : F.Float → ℤ → ℤ → ℤ → Spike
  judge multiplier current_count baseline_count lookback =
      let current = F.of_int current_count in
      let baseline = F.over (F.of_int baseline_count) (F.of_int lookback) in
      if F.is_nonpositive baseline
      then record {
        spike = F.is_at_least current multiplier;
        current_rate = current;
        baseline_rate = baseline;
      }
      else record {
        spike = F.is_at_least current (F.times baseline multiplier);
        current_rate = current;
        baseline_rate = baseline;
      }

  module _ {W : Type 0} where
    -- `Detector.Record` with the clock at `now`
    unfoldable pub record_event : Detector W → ℤ → Context → String → ℤ → Action W (Unit {0})
    record_event d now ctx metric delta = do
      fail_if (text_eq metric "") (sentinel metric_required)
      d.counter.increment ctx metric now delta

    -- `Detector.DetectSpike` with the clock at `clock`
    unfoldable pub detect_spike : Detector W → ℤ → Context → String → ℤ → Action W Spike
    unfolding judge
    detect_spike d clock ctx metric lookback_minutes = do
      let lookback = lookback_or_default lookback_minutes
      let now = truncate_minute clock
      fail_if (text_eq metric "") (sentinel metric_required)
      current ← d.counter.count_in_window ctx metric now (now +ℤ minute)
      baseline ← d.counter.count_in_window ctx metric (minutes_back now lookback) now
      λ w. (ok (judge d.multiplier current baseline lookback), w)

    -- `Detector.CheckAndAlert`; a hook may change the world.
    unfoldable pub check_and_alert :
        Detector W
        → ℤ
        → Context
        → String
        → ℤ
        → Option (String → F.Float → F.Float → W → W)
        → Action W (Unit {0})
    unfolding detect_spike
    check_and_alert d clock ctx metric lookback hook = do
      found ← detect_spike d clock ctx metric lookback
      λ w. (
        ok tt,
        if found.spike
            then elim hook [ none ↦ w | some h ↦ h metric found.current_rate found.baseline_rate w ]
            else w,
      )

abbrev pub Buckets : Type 0
Buckets = Dict ℤ

-- `minute_text` is what fmt.Sprintf makes of `%d`.
module _ (minute_text : ℤ → String) where
  -- `minuteKey`
  unfoldable pub minute_key : String → ℤ → String
  minute_key metric t = str_append metric (str_append ":" (minute_text (minute_number t)))

  -- A map's read: 0 on a missing key.
  unfoldable pub count_at : String → ℤ → Buckets → ℤ
  unfolding minute_key
  count_at metric t m = elim (lookup (minute_key metric t) m) [ none ↦ pos 0 | some n ↦ n ]

  -- `memoryCounter.Increment`
  unfoldable pub memory_increment : String → ℤ → ℤ → Action Buckets (Unit {0})
  unfolding count_at minute_key
  memory_increment metric at delta m =
      let t = truncate_minute at in
      (ok tt, insert (minute_key metric t) (wrap64 (count_at metric t m +ℤ delta)) m)

  -- The loop of `memoryCounter.CountInWindow` from `t` on, with the total so far; no result when the
  -- fuel is out.
  unfoldable pub count_loop : ℕ → String → ℤ → ℤ → Buckets → ℤ → Option ℤ
  count_loop zero metric t to m total = none
  count_loop (suc fuel) metric t to m total =
      let rest =
        count_loop fuel metric (t +ℤ minute) to m (wrap64 (total +ℤ count_at metric t m)) in
      if ltb_ℤ t to then rest else some total

  -- `memoryCounter.CountInWindow` on fuel
  unfoldable pub memory_count_in_window : ℕ → String → ℤ → ℤ → Buckets → Option ℤ
  unfolding count_loop
  memory_count_in_window fuel metric from to m =
      count_loop fuel metric (truncate_minute from) to m (pos 0)
