-- ===== src/Anomaly/Loop.antt =====
-- The loop of anomaly/memory.go.
use Prim.Native.Nat.{◌/◌}
use floodguard_rate_limiter.Prelude.{
  ℕ, zero, suc, ◌+◌, ◌<◌, String, true, false, some, ◌≡◌, refl, arith, Bool-cases, inl, inr,
}
use floodguard_rate_limiter.Prelude.Int.{ℤ, pos, ◌+ℤ◌, ◌-ℤ◌, ltb_ℤ}
use floodguard_rate_limiter.Prelude.Int.{wrap64, pos_part}
use floodguard_rate_limiter.Anomaly.{
  Buckets, minute, truncate_minute, count_at, count_loop, memory_count_in_window,
}

-- The number of minutes that start from `t` on and before `to`.
abbrev pub minutes_until : ℤ → ℤ → ℕ
minutes_until t to = (pos_part (to -ℤ t) + 59999999999) / 60000000000

-- The counts of that many minutes, added up one by one.
module _ (minute_text : ℤ → String) where
  unfoldable pub total_of : ℕ → String → ℤ → Buckets → ℤ → ℤ
  total_of zero metric t m total = total
  total_of (suc n) metric t m total =
      total_of n metric (t +ℤ minute) m (wrap64 (total +ℤ count_at minute_text metric t m))

  -- One turn of the loop leaves one minute fewer.
  minutes_until_step :
      (t to : ℤ) → ltb_ℤ t to ≡ true → minutes_until t to ≡ suc (minutes_until (t +ℤ minute) to)
  unfolding ◌+ℤ◌ ◌-ℤ◌
  minutes_until_step t to h = ground arith

  minutes_until_end : (t to : ℤ) → ltb_ℤ t to ≡ false → minutes_until t to ≡ 0
  unfolding ◌-ℤ◌
  minutes_until_end t to h = ground arith

  count_loop-terminates :
      (n fuel : ℕ) (metric : String) (t to : ℤ) (m : Buckets) (total : ℤ)
      → minutes_until t to ≡ n
      → n < fuel
      → count_loop minute_text fuel metric t to m total ≡ some (total_of n metric t m total)
  unfolding count_loop total_of
  count_loop-terminates n zero metric t to m total e l = ground arith
  count_loop-terminates zero (suc fuel) metric t to m total e l = elim (Bool-cases (ltb_ℤ t to)) [
    | inl b ↦ ground (arith, minutes_until_step t to b)
    | inr b ↦ rw b refl
  ]
  count_loop-terminates (suc n) (suc fuel) metric t to m total e l =
      elim (Bool-cases (ltb_ℤ t to)) [
        | inr b ↦ ground (arith, minutes_until_end t to b)
        | inl b ↦
            let fewer : minutes_until (t +ℤ minute) to ≡ n =
              ground (arith, minutes_until_step t to b) in
            rw b (
              count_loop-terminates n fuel metric (t +ℤ minute) to m
                (wrap64 (total +ℤ count_at minute_text metric t m)) fewer (omega arith))
      ]

  -- CountInWindow of the in-memory counter returns on any fuel above the number of minutes that
  -- start from the truncated start on and before the end, and its result is the sum, in int64, of
  -- the counts of those minutes in turn.
  pub count_in_window-terminates :
      (fuel : ℕ) (metric : String) (from to : ℤ) (m : Buckets)
      → minutes_until (truncate_minute from) to < fuel
      → memory_count_in_window minute_text fuel metric from to m
        ≡ some (
            total_of
              (minutes_until (truncate_minute from) to)
              metric
              (truncate_minute from)
              m
              (pos 0))
  unfolding memory_count_in_window
  count_in_window-terminates fuel metric from to m l =
      count_loop-terminates (minutes_until (truncate_minute from) to) fuel metric
        (truncate_minute from) to m (pos 0) refl l
