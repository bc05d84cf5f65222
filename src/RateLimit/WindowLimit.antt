-- ===== src/RateLimit/WindowLimit.antt =====
-- How many calls the limiter of ratelimit/redis_sliding_window.go allows.
use floodguard_rate_limiter.Prelude.{
  ℕ, suc, ◌+◌, ◌<◌, String, Bool, false, List, [], ◌∷◌, ◌≡◌, arith, text_eq, eq_iff, if◌then◌else◌,
  ◌&&◌, length,
}
use floodguard_rate_limiter.Prelude.Int.{ℤ, pos, ◌-ℤ◌, ◌≤ℤ◌, ltb_ℤ}
use floodguard_rate_limiter.Prelude.Int.{unix_milli}
use floodguard_rate_limiter.Redis.Sorted.{Sorted, SortedLaws}
use floodguard_rate_limiter.Errors.{Result, ok, err}
use floodguard_rate_limiter.RateLimit.{SlidingWindowConfig}
use floodguard_rate_limiter.RateLimit.RedisWindow.{RedisSlidingWindow, new_redis_sliding_window}
use floodguard_rate_limiter.RateLimit.WindowLog.{Log, used, used_mono, log_allow, start_mono}
use floodguard_rate_limiter.RateLimit.WindowAnswers.{
  InOrder, IsFresh, IsShort, log_answers, constructed-lem, redis_answers, sliding_window-eq_log,
}

abbrev is_allowed : Result Bool → Bool
is_allowed (ok b) = b
is_allowed (err e) = false

-- How many of the calls of the key after a time, in milliseconds, were allowed.
pub allowed_after : String → ℤ → List (ℤ × String) → List (Result Bool) → ℕ
allowed_after k c [] rs = 0
allowed_after k c (call ∷ cs) [] = 0
allowed_after k c ((now, key) ∷ cs) (r ∷ rs) =
    let rest = allowed_after k c cs rs in
    if text_eq key k && ltb_ℤ c (unix_milli now) && is_allowed r then suc rest else rest

-- The time of the last call, or the time before them all.
abbrev pub last_time : ℤ → List (ℤ × String) → ℤ
last_time now [] = now
last_time now ((at, key) ∷ cs) = last_time at cs

module _ (cfg : SlidingWindowConfig) where
  log_step : ℤ → String → Log → Log
  log_step now key log = if text_eq key "" then log else (log_allow cfg now key log).1

  log_after : List (ℤ × String) → Log → Log
  unfolding log_step
  log_after [] log = log
  log_after ((now, key) ∷ cs) log = log_after cs (log_step now key log)

  allowed-used :
      (k : String) (c : ℤ) (cs : List (ℤ × String)) (log : Log)
      → allowed_after k c cs (log_answers cfg cs log) + used k c log ≡ used k c (log_after cs log)
  unfolding allowed_after log_answers log_after log_allow used
  allowed-used k c [] log = ground arith
  allowed-used k c ((now, key) ∷ cs) log =
      ground (arith, allowed-used k c cs (log_step now key log))

  -- No window that ends at `now` or later holds more than the limit.
  abbrev Bounded : ℤ → Log → Type 0
  Bounded now log =
      (k : String) (c : ℤ) → unix_milli (now -ℤ cfg.window) ≤ℤ c → pos (used k c log) ≤ℤ cfg.limit

  log_step-Bounded :
      (now at : ℤ) (key : String) (log : Log)
      → now ≤ℤ at
      → Bounded now log
      → Bounded at (log_step at key log)
  unfolding log_step log_allow used
  log_step-Bounded now at key log l h k c b =
      let start = unix_milli (at -ℤ cfg.window) in
      let held = h k c (ground (arith, start_mono now at cfg.window l)) in
      ground (arith, held, used_mono k start c log b, eq_iff key k)

  log_after-Bounded :
      (now : ℤ) (cs : List (ℤ × String)) (log : Log)
      → InOrder now cs
      → Bounded now log
      → Bounded (last_time now cs) (log_after cs log)
  unfolding log_after
  log_after-Bounded now [] log o h = h
  log_after-Bounded now ((at, key) ∷ cs) log o h =
      log_after-Bounded at cs (log_step at key log) o.1 (log_step-Bounded now at key log o.0 h)

module _ (R : Sorted) (L : SortedLaws R) (member_text : ℤ → ℕ → String)
    (l : RedisSlidingWindow) where
  -- For a limiter that NewRedisSlidingWindow has made with a Window that is at least a second
  -- under the greatest int64 of nanoseconds, with members that tell the counter's values apart,
  -- over a Redis server that keeps to the documented laws of sorted sets, shares the client's
  -- clock and holds no sets at first: after any fewer than 2^64 delivered calls for any keys, with
  -- a context that is not done and at times in order from 1970 on, no more than Limit calls of a
  -- key were allowed in the window that ends at the last call, its start rounded down to a
  -- millisecond.
  pub sliding_window_bound :
      (has_client : Bool) (prefix : String) (cfg : SlidingWindowConfig) (cs : List (ℤ × String))
      (s : R.Server) (k : String)
      → new_redis_sliding_window has_client prefix cfg ≡ ok l
      → IsShort R L member_text l
      → ((a b : ℤ) (i j : ℕ) → member_text a i ≡ member_text b j → i ≡ j)
      → InOrder (pos 0) cs
      → length cs < 18446744073709551616
      → IsFresh R L s
      → let start = unix_milli (last_time (pos 0) cs -ℤ l.cfg.window) in
        pos (allowed_after k start cs (redis_answers R L member_text l cs (0, s))) ≤ℤ l.cfg.limit
  unfolding used
  sliding_window_bound has_client prefix cfg cs s k made short u o b f =
      let start = unix_milli (last_time (pos 0) cs -ℤ l.cfg.window) in
      let (w, positive) = constructed-lem has_client prefix cfg l made in
      let bound =
        log_after-Bounded l.cfg (pos 0) cs [] o (λ k' c q. ground (arith, positive)) k start
          (omega arith) in
      rw (sliding_window-eq_log R L member_text l has_client prefix cfg cs s made short u o b f)
        (ground (arith, bound, allowed-used l.cfg k start cs []))
