-- ===== src/Examples/Windows.antt =====
-- The theorems on the Redis sliding window at a concrete history.
use floodguard_rate_limiter.Prelude.{
  ℕ, zero, suc, ap, sym, ◌∙◌, String, true, List, [], ◌∷◌, ◌≡◌, refl, arith,
}
use floodguard_rate_limiter.Prelude.Int.{ℤ, pos, ◌-ℤ◌, ◌≤ℤ◌}
use floodguard_rate_limiter.Prelude.Dict.{lookup}
use floodguard_rate_limiter.Errors.{ok}
use floodguard_rate_limiter.RateLimit.{SlidingWindowConfig, validate}
use floodguard_rate_limiter.RateLimit.RedisWindow.{RedisSlidingWindow, new_redis_sliding_window}
use floodguard_rate_limiter.RateLimit.WindowAnswers as Window
use floodguard_rate_limiter.RateLimit.WindowAnswers.{log_answers, sliding_window-eq_log}
use floodguard_rate_limiter.RateLimit.WindowLimit.{allowed_after, sliding_window_bound}
use floodguard_rate_limiter.Redis.Sorted.{SortedSet}
use floodguard_rate_limiter.Prelude.{Option, none, if◌then◌else◌, ◌==◌}
use floodguard_rate_limiter.Prelude.Int.{negsuc, unix_milli, ◌+ℤ◌}
use floodguard_rate_limiter.Prelude.Dict.{Dict}
use Prim.Native.Char.{code}
use floodguard_rate_limiter.RateLimit.WindowLog.{used}
use floodguard_rate_limiter.Velocity.{Format, RateOverWindow}
use floodguard_rate_limiter.Prelude.Dict.{insert}
use floodguard_rate_limiter.Velocity.{run_rules, settle, check_rate}
use floodguard_rate_limiter.Redis.Sorted.{remove_range}
use floodguard_rate_limiter.Velocity.Redis.{redis_count, redis_record}
use floodguard_rate_limiter.Velocity.Overlaps.{pending_of, without}
use floodguard_rate_limiter.Velocity.RedisOverlaps.{
  Event, asks, records, State, step, Overlap, allowed_log, redis_allowed-le,
}
use floodguard_rate_limiter.Examples.Servers.{sorted_server, sorted_laws, sorted_server-fresh}

-- A number in marks.
abbrev marks : ℕ → String → String
marks zero s = s
marks (suc n) s = String.◌∷◌ "." (marks n s)

abbrev second : ℤ
second = pos 1000000000

-- A limit of one call in a second.
abbrev cfg : SlidingWindowConfig
cfg = record { limit = pos 1; window = second }

abbrev window : RedisSlidingWindow
window = record { prefix = "sw"; cfg = cfg }

constructed : new_redis_sliding_window true "sw" cfg ≡ ok window
unfolding new_redis_sliding_window validate
constructed = refl

-- The counter written in marks.
abbrev member : ℤ → ℕ → String
member a i = marks i ""

abbrev length_of : String → ℕ
length_of String.[] = 0
length_of (String.◌∷◌ c s) = suc (length_of s)

length-marks : (n : ℕ) → length_of (marks n "") ≡ n
length-marks zero = refl
length-marks (suc n) = ap suc (length-marks n)

member-inj : (a b : ℤ) (i j : ℕ) → member a i ≡ member b j → i ≡ j
member-inj a b i j e = sym (length-marks i) ∙ ap length_of e ∙ length-marks j

abbrev window_calls : List (ℤ × String)
window_calls =
    (pos 0, "acct")
    ∷ (pos 500000000, "acct")
    ∷ (pos 500000000, "other")
    ∷ (pos 1500000000, "acct")
    ∷ []

sliding_window-eq_log_example :
    Window.redis_answers sorted_server sorted_laws member window window_calls (0, [])
    ≡ log_answers cfg window_calls []
unfolding lookup ◌+ℤ◌
sliding_window-eq_log_example =
    sliding_window-eq_log sorted_server sorted_laws member window true "sw" cfg window_calls []
      constructed (omega arith) member-inj
      (omega arith, (omega arith, (omega arith, (omega arith, tt)))) (omega arith)
      sorted_server-fresh

sliding_window_bound_example :
    pos (
      allowed_after "acct"
        (pos 500)
        window_calls
        (Window.redis_answers sorted_server sorted_laws member window window_calls (0, [])))
    ≤ℤ pos 1
unfolding lookup ◌-ℤ◌ ◌+ℤ◌
sliding_window_bound_example =
    sliding_window_bound sorted_server sorted_laws member window true "sw" cfg window_calls []
      "acct" constructed (omega arith) member-inj
      (omega arith, (omega arith, (omega arith, (omega arith, tt)))) (omega arith)
      sorted_server-fresh

-- A number in marks, with a sign where it is negative.
abbrev signed_marks : ℤ → String
signed_marks (pos n) = marks n ""
signed_marks (negsuc n) = String.◌∷◌ "-" (marks n "")

abbrev number_of : String → ℤ
number_of String.[] = pos 0
number_of (String.◌∷◌ c s) =
    if code c == b'-' then negsuc (length_of s) else pos (suc (length_of s))

number_of-signed_marks : (z : ℤ) → number_of (signed_marks z) ≡ z
number_of-signed_marks (pos zero) = refl
number_of-signed_marks (pos (suc n)) = ap (λ i. pos (suc i)) (length-marks n)
number_of-signed_marks (negsuc n) = ap negsuc (length-marks n)

signed_marks-inj : (a b : ℤ) → signed_marks a ≡ signed_marks b → a ≡ b
signed_marks-inj a b e = sym (number_of-signed_marks a) ∙ ap number_of e ∙ number_of-signed_marks b

-- One action in ten milliseconds.
abbrev rule : RateOverWindow
rule = record { n = pos 1; window = pos 10000000; label = "" }

abbrev plain_format : Format
plain_format = record {
  over_window = λ n label window. label;
  too_fast = λ label min elapsed. label;
}

abbrev no_score : ℤ → String → Dict SortedSet → Option ℤ
no_score now key s = none

-- Two checks of one account overlap, and another account is checked in between.
abbrev actions : List Event
actions =
    asks "acct" 1
    ∷ asks "acct" 2
    ∷ asks "other" 2
    ∷ records "acct" 3
    ∷ records "acct" 4
    ∷ records "other" 5
    ∷ asks "acct" 6
    ∷ []

abbrev no_actions : State sorted_server sorted_laws no_score signed_marks "v" plain_format rule
no_actions = record { server = []; pending = [] }

actions-Overlap :
    Overlap sorted_server sorted_laws no_score signed_marks "v" plain_format rule "acct" 2 actions
      no_actions
unfolding lookup insert ◌+ℤ◌ ◌-ℤ◌ step run_rules settle pending_of without check_rate redis_count
    redis_record remove_range
actions-Overlap = (
  omega arith,
  (omega arith, (omega arith, (omega arith, (omega arith, (omega arith, (omega arith, tt)))))),
)

redis_allowed-le_example :
    pos (
      suc (
        used "acct" (unix_milli (pos 6 -ℤ pos 10000000)) (
          allowed_log sorted_server sorted_laws no_score signed_marks "v" plain_format rule actions
            no_actions [])))
    ≤ℤ pos 1 +ℤ pos 2
unfolding lookup ◌+ℤ◌
redis_allowed-le_example =
    redis_allowed-le sorted_server sorted_laws no_score signed_marks "v" plain_format rule "acct" 2
      actions 6 [] (omega arith, omega arith, omega arith) signed_marks-inj
      (
        omega arith,
        (
          omega arith,
          (
            omega arith,
            (
              omega arith,
              omega arith,
              (omega arith, omega arith, (omega arith, omega arith, (omega arith, omega arith))),
            ),
          ),
        ),
      )
      actions-Overlap sorted_server-fresh

-- Both of the checks that overlap are allowed, one action more than the rule has.
actions-log :
    allowed_log sorted_server sorted_laws no_score signed_marks "v" plain_format rule actions
      no_actions []
    ≡ ("other", pos 0) ∷ ("acct", pos 0) ∷ ("acct", pos 0) ∷ []
unfolding lookup insert ◌+ℤ◌ ◌-ℤ◌ allowed_log step run_rules settle pending_of without check_rate
    redis_count redis_record remove_range
actions-log = refl
