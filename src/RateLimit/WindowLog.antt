-- ===== src/RateLimit/WindowLog.antt =====
-- The sliding window of ratelimit/redis_sliding_window.go against a log of the allowed calls.
use floodguard_rate_limiter.Prelude.{
  ℕ, suc, ◌≤◌, ◌<◌, String, Bool, true, false, none, some, List, [], ◌∷◌, ◌≡◌, arith, text_eq,
  if◌then◌else◌, ◌&&◌,
}
use floodguard_rate_limiter.Prelude.Int.{ℤ, pos, negsuc, ◌+ℤ◌, ◌-ℤ◌, ◌≤ℤ◌, ◌<ℤ◌, ltb_ℤ}
use floodguard_rate_limiter.Prelude.Dict.{lookup}
use floodguard_rate_limiter.Prelude.Int.{milliseconds, unix_milli}
use floodguard_rate_limiter.Redis.Sorted.{SortedSet, scores, above}
use floodguard_rate_limiter.RateLimit.{SlidingWindowConfig}
use floodguard_rate_limiter.RateLimit.WindowScript.{IsNonneg}

-- The allowed calls, the newest first: the key of each, and its time in milliseconds.
abbrev pub Log : Type 0
Log = List (String × ℤ)

-- How many calls of the key the log has after a time.
unfoldable pub used : String → ℤ → Log → ℕ
used k c [] = 0
used k c (entry ∷ log) =
    let rest = used k c log in if text_eq entry.0 k && ltb_ℤ c entry.1 then suc rest else rest

-- The limiter that the window means: a call is allowed when the log has fewer than `limit` calls of
-- its key after the window's start, which is rounded down to a millisecond.
unfoldable pub log_allow : SlidingWindowConfig → ℤ → String → Log → Bool × Log
log_allow cfg now key log =
    if ltb_ℤ (pos (used key (unix_milli (now -ℤ cfg.window)) log)) cfg.limit
    then (true, (key, unix_milli now) ∷ log)
    else (false, log)

pub used_mono : (k : String) (c c' : ℤ) (log : Log) → c ≤ℤ c' → used k c' log ≤ used k c log
unfolding used
used_mono k c c' [] l = ground arith
used_mono k c c' ((key, t) ∷ log) l = ground (arith, used_mono k c c' log l)

-- The time to live that the limiter gives a set, in milliseconds.
abbrev pub keep : ℤ → ℤ
keep window = milliseconds (window +ℤ pos 1000000000)

pub keep_positive : (window : ℤ) → pos 0 <ℤ window → pos 0 <ℤ keep window
unfolding ◌+ℤ◌
keep_positive (pos n) l = ground arith
keep_positive (negsuc n) l = ground arith

-- The time to live outlasts the window.
pub keep_window :
    (now window : ℤ) → pos 0 <ℤ window → unix_milli now ≤ℤ unix_milli (now -ℤ window) +ℤ keep window
unfolding ◌+ℤ◌ ◌-ℤ◌
keep_window now window l = ground arith

pub start_mono :
    (now later window : ℤ)
    → now ≤ℤ later
    → unix_milli (now -ℤ window) ≤ℤ unix_milli (later -ℤ window)
unfolding ◌-ℤ◌
start_mono now later window l = ground arith

pub milli_mono : (now later : ℤ) → now ≤ℤ later → unix_milli now ≤ℤ unix_milli later
milli_mono now later l = ground arith

module _ (member_text : ℤ → ℕ → String) (window : ℤ) where
  -- A set at a time has what the log has of the key in the window, and no member of a later call.
  pub record Tracks (now : ℤ) (seq : ℕ) (z : SortedSet) (k : String) (log : Log) : Type 0 where
    pub nonneg : IsNonneg z.members
    pub counts :
        (c : ℤ) → unix_milli (now -ℤ window) ≤ℤ c → above c (scores z.members) ≡ used k c log
    pub unused : (a : ℤ) (i : ℕ) → seq < i → lookup (member_text a i) z.members ≡ none
    pub outlasts : (d c : ℤ) → z.deadline ≡ some d → d ≤ℤ c +ℤ keep window → used k c log ≡ 0
    pub past : used k (unix_milli now) log ≡ 0
