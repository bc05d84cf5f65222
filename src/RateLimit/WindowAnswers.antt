-- ===== src/RateLimit/WindowAnswers.antt =====
-- The answers of the limiter of ratelimit/redis_sliding_window.go, against those of a log.
use floodguard_rate_limiter.Prelude.{
  ℕ, suc, ◌+◌, ◌<◌, ap, sym, subst, String, Bool, true, false, none, List, [], ◌∷◌, ◌≡◌, refl,
  arith, text_eq, if◌then◌else◌, Bool-cases, inl, inr, length,
}
use floodguard_rate_limiter.Prelude.Int.{ℤ, pos, ◌≤ℤ◌, ◌<ℤ◌, ◌==ℤ◌}
use floodguard_rate_limiter.Prelude.Dict.{lookup}
use floodguard_rate_limiter.Prelude.Int.{
  unix_milli, ◌+ℤ◌, max_int64, min_int64, wrap64, wrap64-eq_self, int_laws,
}
use floodguard_rate_limiter.Redis.{delivered}
use floodguard_rate_limiter.Redis.Sorted.{SortedSet, above, Sorted, SortedLaws}
use floodguard_rate_limiter.Errors.{Result, ok, err, sentinel, background, ratelimit_key_required}
use floodguard_rate_limiter.RateLimit.{SlidingWindowConfig, validate}
use floodguard_rate_limiter.RateLimit.RedisWindow.{
  RedisSlidingWindow, new_redis_sliding_window, next_seq, window_key, redis_allow,
}
use floodguard_rate_limiter.RateLimit.WindowLog.{Log, used, log_allow, Tracks}
use floodguard_rate_limiter.RateLimit.WindowKeys.{AllTrack, script, script-AllTrack, later-AllTrack}

-- The calls with their times are in the order of time, from `now` on.
abbrev pub InOrder : ℤ → List (ℤ × String) → Type 0
InOrder now [] = Unit {0}
InOrder now ((at, key) ∷ cs) = (now ≤ℤ at) × InOrder at cs

unfoldable pub log_answers : SlidingWindowConfig → List (ℤ × String) → Log → List (Result Bool)
unfolding log_allow
log_answers cfg [] log = []
log_answers cfg ((now, key) ∷ cs) log =
    let (allowed, log') = log_allow cfg now key log in
    let named = text_eq key "" in
    let rest = log_answers cfg cs (if named then log else log') in
    (if named then err (sentinel ratelimit_key_required) else ok allowed) ∷ rest

-- No key has a set.
abbrev pub IsFresh : (R : Sorted) → SortedLaws R → R.Server → Type 0
IsFresh R L s = (t : ℤ) (key : String) → L.view t key s ≡ record { members = []; deadline = none }

pub constructed-lem :
    (has_client : Bool) (prefix : String) (cfg : SlidingWindowConfig) (l : RedisSlidingWindow)
    → new_redis_sliding_window has_client prefix cfg ≡ ok l
    → (pos 0 <ℤ l.cfg.window) × (pos 0 <ℤ l.cfg.limit)
unfolding new_redis_sliding_window validate
constructed-lem has_client prefix cfg l h = ground arith

module _ (R : Sorted) (L : SortedLaws R) (member_text : ℤ → ℕ → String)
    (l : RedisSlidingWindow) where
  pub redis_answers : List (ℤ × String) → ℕ × R.Server → List (Result Bool)
  redis_answers [] st = []
  redis_answers ((now, key) ∷ cs) st =
      let (r, st') = redis_allow R member_text l now (unix_milli now) delivered background key st in
      r ∷ redis_answers cs st'

  -- The time to live fits an int64.
  abbrev pub IsShort : Type 0
  IsShort = l.cfg.window +ℤ pos 1000000000 ≤ℤ max_int64

  ttl-eq :
      pos 0 <ℤ l.cfg.window
      → IsShort
      → wrap64 (l.cfg.window +ℤ pos 1000000000) ≡ l.cfg.window +ℤ pos 1000000000
  ttl-eq p short =
      let least : min_int64 ≤ℤ l.cfg.window +ℤ pos 1000000000 = omega int_laws in
      wrap64-eq_self (l.cfg.window +ℤ pos 1000000000) (least, short)

  redis_allow_named :
      (now : ℤ) (seq : ℕ) (key : String) (s : R.Server)
      → pos 0 <ℤ l.cfg.window
      → IsShort
      → text_eq key "" ≡ false
      → suc seq < 18446744073709551616
      → let (answer, s') = script R L member_text l now (suc seq) key s in
        redis_allow R member_text l now (unix_milli now) delivered background key (seq, s)
        ≡ (ok (answer ==ℤ pos 1), (suc seq, s'))
  unfolding redis_allow
  redis_allow_named now seq key s p short n b =
      let f : next_seq seq ≡ suc seq = ground arith in rw n (rw f (rw (ttl-eq p short) refl))

  redis_allow_empty :
      (now : ℤ) (seq : ℕ) (key : String) (s : R.Server)
      → text_eq key "" ≡ true
      → redis_allow R member_text l now (unix_milli now) delivered background key (seq, s)
        ≡ (err (sentinel ratelimit_key_required), (seq, s))
  unfolding redis_allow
  redis_allow_empty now seq key s n = rw n refl

  answers-eq :
      (now : ℤ) (cs : List (ℤ × String)) (seq : ℕ) (s : R.Server) (log : Log)
      → pos 0 <ℤ l.cfg.window
      → IsShort
      → ((a b : ℤ) (i j : ℕ) → member_text a i ≡ member_text b j → i ≡ j)
      → pos 0 ≤ℤ now
      → InOrder now cs
      → seq + length cs < 18446744073709551616
      → AllTrack R L member_text l now seq s log
      → redis_answers cs (seq, s) ≡ log_answers l.cfg cs log
  unfolding redis_answers log_answers
  answers-eq now [] seq s log p short u z o b h = refl
  answers-eq now ((at, key) ∷ cs) seq s log p short u z o b h =
      let le : pos 0 ≤ℤ at = ground arith in
      let h' = later-AllTrack R L member_text l now at seq s log p o.0 h in
      elim (Bool-cases (text_eq key "")) [
        | inl e ↦ rw (redis_allow_empty at seq key s e) (
            rw e (
              ap (λ x. err (sentinel ratelimit_key_required) ∷ x)
                (answers-eq at cs seq s log p short u le o.1 (omega arith) h')))
        | inr e ↦
            let (same, next) =
              script-AllTrack R L member_text l at seq (suc seq) key s log p le (omega arith) u
                h' in
            let s' = (script R L member_text l at (suc seq) key s).1 in
            let log' = (log_allow l.cfg at key log).1 in
            let rest = answers-eq at cs (suc seq) s' log' p short u le o.1 (omega arith) next in
            rw (redis_allow_named at seq key s p short e (omega arith))
              (rw e (rw same (rw rest refl)))
      ]

  -- For a limiter that NewRedisSlidingWindow has made with a Window that is at least a second
  -- under the greatest int64 of nanoseconds, with members that tell the counter's values apart,
  -- over a Redis server that keeps to the documented laws of sorted sets, shares the client's
  -- clock and holds no sets at first: any fewer than 2^64 delivered calls for any keys, with a
  -- context that is not done and at times in order from 1970 on, get the answers of a limiter that
  -- keeps the log of all allowed calls and allows a call of a key that is not empty when fewer
  -- than Limit of the key's logged calls are in the window.
  pub sliding_window-eq_log :
      (has_client : Bool) (prefix : String) (cfg : SlidingWindowConfig) (cs : List (ℤ × String))
      (s : R.Server)
      → new_redis_sliding_window has_client prefix cfg ≡ ok l
      → IsShort
      → ((a b : ℤ) (i j : ℕ) → member_text a i ≡ member_text b j → i ≡ j)
      → InOrder (pos 0) cs
      → length cs < 18446744073709551616
      → IsFresh R L s
      → redis_answers cs (0, s) ≡ log_answers l.cfg cs []
  unfolding used above lookup
  sliding_window-eq_log has_client prefix cfg cs s made short u o b f =
      answers-eq (pos 0) cs 0 s [] (constructed-lem has_client prefix cfg l made).0 short u
        (omega arith) o (omega arith)
        (λ k.
          subst (λ (x : SortedSet). Tracks member_text l.cfg.window (pos 0) 0 x k [])
            (sym (f (unix_milli (pos 0)) (window_key l k)))
            (record {
              nonneg = tt;
              counts = λ c q. refl;
              unused = λ a i q. refl;
              outlasts = λ d c e q. refl;
              past = refl;
            }))
