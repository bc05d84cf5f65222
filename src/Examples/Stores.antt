-- ===== src/Examples/Stores.antt =====
-- The theorems on the in-memory stores, locks and buckets at concrete histories.
use floodguard_rate_limiter.Prelude.{
  ℕ, suc, String, true, false, some, List, [], ◌∷◌, ◌≡◌, refl, ◌≢◌, arith, eq_iff, if◌then◌else◌,
}
use floodguard_rate_limiter.Prelude.Int.{ℤ, pos, ◌+ℤ◌, ◌-ℤ◌, ◌≤ℤ◌, ltb_ℤ}
use floodguard_rate_limiter.Prelude.Dict.{lookup, insert, erase}
use floodguard_rate_limiter.Errors.{ok}
use floodguard_rate_limiter.RateLimit.{XRate, TokenBucket}
use floodguard_rate_limiter.RateLimit.Buckets.{
  decisions_for, alone, bucket_of, decisions_for-eq_alone,
}
use floodguard_rate_limiter.Idempotency.{
  Entries, memory_claim, memory_complete, to_process, busy, replay,
}
use floodguard_rate_limiter.Idempotency.Claims.{
  Call, claims, completes, run, Within, claim_exclusive, complete_replays,
}
use floodguard_rate_limiter.Velocity.{
  Actions, Format, RateOverWindow, memory_count, memory_record, times_of, keep_after, trim,
  run_rules, settle, check_rate,
}
use floodguard_rate_limiter.Velocity.Window.{count_after, count_forgets}
use floodguard_rate_limiter.Velocity.Overlaps.{
  Event, asks, records, State, step, pending_of, without, Overlap, allowed_times, allowed-le,
}

-- A key claimed again, and another key claimed and completed, in between.
abbrev history : List (ℤ × Call)
history =
    (pos 10, claims "pay-2" (pos 100))
    ∷ (pos 20, completes "pay-2" (1 ∷ []) (pos 100))
    ∷ (pos 30, claims "pay-1" (pos 100))
    ∷ []

pay_2≢pay_1 : ◌≢◌ {A = String} "pay-2" "pay-1"
pay_2≢pay_1 e = cc ((eq_iff "pay-2" "pay-1").1 e)

pay_1≢empty : ◌≢◌ {A = String} "pay-1" ""
pay_1≢empty e = cc

first_claim : (memory_claim (pos 0) "pay-1" (pos 100) []).0 ≡ ok to_process
unfolding memory_claim lookup
first_claim = refl

history-Within : Within "pay-1" (pos 0 +ℤ pos 100) history
unfolding ◌+ℤ◌
history-Within = (omega arith, tt, (omega arith, pay_2≢pay_1, (omega arith, tt, tt)))

fifty_in_time : pos 50 ≤ℤ pos 0 +ℤ pos 100
unfolding ◌+ℤ◌
fifty_in_time = omega arith

claim_exclusive_example :
    (memory_claim
      (pos 50)
      "pay-1"
      (pos 100)
      (run history (memory_claim (pos 0) "pay-1" (pos 100) []).1)).0
    ≡ ok busy
claim_exclusive_example =
    claim_exclusive "pay-1" (pos 0) (pos 50) (pos 100) (pos 100) [] history first_claim
      history-Within fifty_in_time

complete_replays_example :
    (memory_claim
      (pos 50)
      "pay-1"
      (pos 100)
      (run history (memory_complete (pos 0) "pay-1" (7 ∷ []) (pos 100) []).1)).0
    ≡ ok (replay (7 ∷ []))
complete_replays_example =
    complete_replays "pay-1" (pos 0) (pos 50) (pos 100) (pos 100) (7 ∷ []) [] history pay_1≢empty
      refl history-Within fifty_in_time

abbrev stored : Entries
stored = ("pay-1", record { in_flight = false; value = 7 ∷ []; expires_at = pos 100 }) ∷ []

stored-lookup :
    lookup "pay-1" stored
    ≡ some (record { in_flight = false; value = 7 ∷ []; expires_at = pos 100 })
unfolding lookup
stored-lookup = refl

-- Buckets that hold a whole number of tokens and are never refilled.
abbrev unfilled : XRate
unfilled = record {
  Limit = ℕ;
  is_positive = λ r. true;
  ten = 10;
  Bucket = ℤ;
  new_limiter = λ r burst. burst;
  allow_at = λ now b. (ltb_ℤ (pos 0) b, if ltb_ℤ (pos 0) b then b -ℤ pos 1 else b);
}

abbrev buckets : TokenBucket unfilled
buckets = record { rate = 1; burst = pos 1; buckets = [] }

abbrev calls : List (ℤ × String)
calls = (pos 0, "a") ∷ (pos 1, "b") ∷ (pos 2, "a") ∷ []

a≢empty : ◌≢◌ {A = String} "a" ""
a≢empty e = cc

decisions_for-eq_alone_example :
    decisions_for unfilled "a" calls buckets
    ≡ alone unfilled "a" calls (bucket_of unfilled "a" buckets)
decisions_for-eq_alone_example = decisions_for-eq_alone unfilled "a" calls buckets a≢empty

-- At most two actions in sixty.
abbrev plain : Format
plain = record { over_window = λ n label window. label; too_fast = λ label min elapsed. label }

abbrev two_in_sixty : RateOverWindow
two_in_sixty = record { n = pos 2; window = pos 60; label = "bets" }

-- Two checks of one key overlap, another key is checked in between, and a third check of the first key
-- comes after them.
abbrev bets : List Event
bets =
    asks "a" (pos 0)
    ∷ asks "b" (pos 5)
    ∷ asks "a" (pos 6)
    ∷ records "a" (pos 7)
    ∷ records "a" (pos 8)
    ∷ records "b" (pos 9)
    ∷ asks "a" (pos 20)
    ∷ []

abbrev no_bets : State
no_bets = record { actions = []; pending = [] }

bets-Overlap : Overlap plain two_in_sixty "a" 2 bets no_bets
unfolding step pending_of without run_rules settle check_rate memory_count memory_record times_of
    keep_after trim lookup insert erase ◌-ℤ◌
bets-Overlap = (
  omega arith,
  (omega arith, (omega arith, (omega arith, (omega arith, (omega arith, (omega arith, tt)))))),
)

allowed-le_example :
    pos (suc (count_after (pos 30 -ℤ pos 60) (allowed_times plain two_in_sixty "a" bets no_bets)))
    ≤ℤ pos 2 +ℤ pos 2
allowed-le_example =
    allowed-le plain two_in_sixty "a" 2 bets (pos 0) (pos 30) (omega arith, omega arith) a≢empty
      (
        omega arith,
        (
          omega arith,
          (omega arith, (omega arith, (omega arith, (omega arith, (omega arith, omega arith))))),
        ),
      )
      bets-Overlap

abbrev two_actions : Actions
two_actions = ("a", pos 10 ∷ pos 95 ∷ []) ∷ []

count_forgets_example :
    (memory_count (pos 100) "a" (pos 1000) (memory_count (pos 100) "a" (pos 10) two_actions).1).0
    ≡ (memory_count (pos 100) "a" (pos 10) two_actions).0
count_forgets_example = count_forgets "a" (pos 100) (pos 10) (pos 1000) two_actions (omega arith)
