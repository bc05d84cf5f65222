-- ===== src/Anomaly/Redis.antt =====
-- anomaly/redis.go: the counter over a Redis sorted set for each metric.
use floodguard_rate_limiter.Prelude.{
  ◌∙◌, sym, subst, ◌⊎◌, ◌↔◌, text_eq, String, str_append, Option, none, some, List, [], ◌∷◌, ◌≡◌,
  refl, arith, if◌then◌else◌, Bool-cases, inl, inr,
}
use floodguard_rate_limiter.Prelude.Int.{ℤ, pos, ◌+ℤ◌, ◌-ℤ◌, ◌<ℤ◌, ◌≤ℤ◌, ltb_ℤ, int_laws}
use floodguard_rate_limiter.Prelude.Int.{wrap64}
use floodguard_rate_limiter.Redis.{Delivery, delivered, exchange}
use floodguard_rate_limiter.Errors.{Action, Result, ok, err, foreign}
use floodguard_rate_limiter.Anomaly.{truncate_minute, minute_number}

-- The commands that the counter sends, at the server's time in seconds; scores are floats, of which whole
-- numbers are used.
pub record Scores : Type 1 where
  pub Server : Type 0
  -- ZINCRBY key delta member
  pub zincrby : ℤ → String → ℤ → String → Server → Server
  -- EXPIRE key seconds
  pub expire : ℤ → String → ℤ → Server → Server
  -- ZRANGEBYSCORE key min max
  pub zrangebyscore : ℤ → String → ℤ → ℤ → Server → List String
  pub zscore : ℤ → String → String → Server → Option ℤ

abbrev pub IsIn : String → List String → Type 0
IsIn m [] = ⊥
IsIn m (x ∷ xs) = (m ≡ x) ⊎ IsIn m xs

abbrev pub score_of : Option ℤ → ℤ
score_of none = pos 0
score_of (some n) = n

-- What Redis documents, the score of a member of a key at a time being `view`. A set stays as it is or is
-- removed as time passes, EXPIRE with a positive time to live removes nothing yet, and a range has the
-- members with scores in it, here without their order.
pub record ScoreLaws (R : Scores) : Type 0 where
  pub view : ℤ → String → R.Server → String → Option ℤ
  pub view_later :
      (now t : ℤ) (key : String) (s : R.Server)
      → now ≤ℤ t
      → ((m : String) → view t key s m ≡ view now key s m) ⊎ ((m : String) → view t key s m ≡ none)
  pub view-zincrby :
      (now : ℤ) (key member other : String) (delta : ℤ) (s : R.Server)
      → view now key (R.zincrby now key delta member s) other ≡ (
          if text_eq member other
          then some (score_of (view now key s member) +ℤ delta)
          else view now key s other)
  pub view-expire :
      (now : ℤ) (key member : String) (ttl : ℤ) (s : R.Server)
      → pos 0 <ℤ ttl
      → view now key (R.expire now key ttl s) member ≡ view now key s member
  pub zrangebyscore_lem :
      (now : ℤ) (key member : String) (least greatest : ℤ) (s : R.Server)
      → IsIn member (R.zrangebyscore now key least greatest s) ↔ (
          (score : ℤ) × (view now key s member ≡ some score)
          × (least ≤ℤ score)
          × (score ≤ℤ greatest))
  pub zscore_lem :
      (now : ℤ) (key member : String) (s : R.Server)
      → R.zscore now key member s ≡ view now key s member

module _ (R : Scores) (minute_text : ℤ → String) (prefix : String) where
  -- `redisKey`
  unfoldable pub redis_key : String → String
  redis_key metric = str_append prefix (str_append ":" metric)

  -- `RedisCounter.Increment` at the server's time `now`; eight days in seconds.
  unfoldable pub redis_increment : ℤ → Delivery → String → ℤ → ℤ → Action R.Server (Unit {0})
  unfolding redis_key
  redis_increment now net metric at delta s =
      let key = redis_key metric in
      let member = minute_text (minute_number (truncate_minute at)) in
      exchange net (λ s. (tt, R.expire now key (pos 691200) (R.zincrby now key delta member s))) s

  -- The loop over the members; each is looked up by a call of its own.
  unfoldable pub add_scores : ℤ → List String → String → R.Server → ℤ → Result ℤ
  add_scores now [] key s total = ok total
  add_scores now (m ∷ ms) key s total = elim (R.zscore now key m s) [
    | none ↦ err (foreign "redis: nil")
    | some score ↦ add_scores now ms key s (wrap64 (total +ℤ score))
  ]

  -- `RedisCounter.CountInWindow`, at the server's time `now`, when every call is
  -- answered.
  unfoldable pub redis_count_in_window : ℤ → String → ℤ → ℤ → Action R.Server ℤ
  unfolding redis_key add_scores
  redis_count_in_window now metric from to s =
      let key = redis_key metric in
      let min_from = minute_number (truncate_minute from) in
      let min_to = minute_number (truncate_minute to) -ℤ pos 1 in
      if ltb_ℤ min_to min_from
      then (ok (pos 0), s)
      else (add_scores now (R.zrangebyscore now key min_from min_to s) key s (pos 0), s)

  module _ (L : ScoreLaws R) where
    -- A range of a set whose scores are all lower is empty.
    none_in_range :
        (now : ℤ) (key : String) (least greatest : ℤ) (s : R.Server)
        → ((m : String) (score : ℤ) → L.view now key s m ≡ some score → score <ℤ least)
        → (found : List String) → R.zrangebyscore now key least greatest s ≡ found
        → found ≡ []
    none_in_range now key least greatest s low [] e = refl
    none_in_range now key least greatest s low (x ∷ xs) e =
        let inside = subst (IsIn x) (sym e) (inl refl) in
        let (n, seen, over, under) = (L.zrangebyscore_lem now key x least greatest s).0 inside in
        absurd (omega (arith, low x n seen, over))

    -- Over a server that keeps to the documented laws of sorted sets and has no counts of the
    -- metric, after a delivered Increment by less than the number of the window's first minute,
    -- CountInWindow of the Redis counter returns 0 at any time from then on, for every window,
    -- also one that has the minute of the increment.
    pub redis_count_misses :
        (now later : ℤ) (metric : String) (at from to delta : ℤ) (s : R.Server)
        → now ≤ℤ later
        → ((m : String) → L.view now (redis_key metric) s m ≡ none)
        → delta <ℤ minute_number (truncate_minute from)
        → (redis_count_in_window later metric from to
            (redis_increment now delivered metric at delta s).1).0
          ≡ ok (pos 0)
    unfolding redis_count_in_window redis_increment redis_key add_scores
    redis_count_misses now later metric at from to delta s passed fresh low =
        let key = str_append prefix (str_append ":" metric) in
        let member = minute_text (minute_number (truncate_minute at)) in
        let s1 = R.zincrby now key delta member s in
        let s2 = R.expire now key (pos 691200) s1 in
        let least = minute_number (truncate_minute from) in
        let greatest = minute_number (truncate_minute to) -ℤ pos 1 in
        let sum : pos 0 +ℤ delta <ℤ least = omega int_laws in
        let at_first : (m : String) (score : ℤ)
            → L.view now key s2 m ≡ some score
            → score <ℤ least =
          λ m score h. ground (
            arith,
            h,
            L.view-expire now key m (pos 691200) s1 (omega arith),
            L.view-zincrby now key member m delta s,
            fresh member,
            fresh m,
            sum,
          ) in
        let at_last : (m : String) (score : ℤ)
            → L.view later key s2 m ≡ some score
            → score <ℤ least =
          λ m score h. elim (L.view_later now later key s2 passed) [
            | inl same ↦ at_first m score (sym (same m) ∙ h)
            | inr gone ↦ cc (gone m, h)
          ] in
        let none_found : R.zrangebyscore later key least greatest s2 ≡ [] =
          none_in_range later key least greatest s2 at_last
            (R.zrangebyscore later key least greatest s2) refl in
        elim (Bool-cases (ltb_ℤ greatest least)) [
          | inl b ↦ rw b refl
          | inr b ↦ rw b (rw none_found refl)
        ]
