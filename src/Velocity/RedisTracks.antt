-- ===== src/Velocity/RedisTracks.antt =====
-- The sorted sets of velocity/redis.go against a log of the recorded actions, as time passes, as a count
-- trims them and as an action is recorded.
use floodguard_rate_limiter.Prelude.{
  ℕ, ◌<◌, sym, subst, ◌∙◌, String, some, ◌∷◌, ◌≡◌, ◌≢◌, arith, eq_iff,
}
use floodguard_rate_limiter.Prelude.Int.{ℤ, pos, ◌+ℤ◌, ◌-ℤ◌, ◌≤ℤ◌, int_laws, unix_milli}
use floodguard_rate_limiter.Prelude.Dict.{insert, lookup-insert}
use floodguard_rate_limiter.Redis.Sorted.{SortedSet, above, remove_range, kept_deadline}
use floodguard_rate_limiter.RateLimit.WindowScript.{
  IsNonneg, above-remove_range, lookup-remove_range, remove_range-IsNonneg, erase_fresh,
}
use floodguard_rate_limiter.RateLimit.WindowLog.{Log, used, used_mono, keep, Tracks}

-- 24 hours in milliseconds, the time to live of a set.
abbrev pub day : ℤ
day = pos 86400000

sum_cancel : (x c k d : ℤ) → some (x +ℤ day) ≡ some d → d ≤ℤ c +ℤ k → k ≤ℤ day → x ≤ℤ c
sum_cancel x c k d e b l = let f : x +ℤ day ≤ℤ c +ℤ k = ground (arith, e, b) in omega int_laws

module _ (int_text : ℤ → String) (window : ℤ) where
  -- The member of an action, by its time.
  abbrev pub member : ℤ → ℕ → String
  member a i = int_text (pos i)

  -- What the set of a key has of the log.
  abbrev pub IsTracked : ℕ → ℕ → SortedSet → String → Log → Type 0
  IsTracked now seq z k log = Tracks member window (pos now) seq z k log

  pub counted-Tracks :
      (now seq : ℕ) (z : SortedSet) (k : String) (log : Log)
      → IsTracked now seq z k log
      → let left = remove_range (pos 0) (unix_milli (pos now -ℤ window)) z.members in
        IsTracked now seq
          (record { members = left; deadline = kept_deadline left z.deadline })
          k
          log
  counted-Tracks now seq z k log t =
      let start = unix_milli (pos now -ℤ window) in
      let left = remove_range (pos 0) start z.members in
      let same : (d : ℤ) → kept_deadline left z.deadline ≡ some d → z.deadline ≡ some d =
        λ d e. ground arith in
      record {
        nonneg = remove_range-IsNonneg start z.members t.nonneg;
        counts = λ c b. above-remove_range c start z.members b ∙ t.counts c b;
        unused = λ a i q. lookup-remove_range (member a i) start z.members (t.unused a i q);
        outlasts = λ d c e b. t.outlasts d c (same d e) b;
        past = t.past;
      }

  pub recorded-Tracks :
      (now seq : ℕ) (z : SortedSet) (k : String) (log : Log)
      → seq < now
      → keep window ≤ℤ day
      → ((a b : ℤ) → int_text a ≡ int_text b → a ≡ b)
      → IsTracked now seq z k log
      → IsTracked now now
          (record {
            members = insert (int_text (pos now)) (unix_milli (pos now)) z.members;
            deadline = some (unix_milli (pos now) +ℤ day);
          })
          k
          ((k, unix_milli (pos now)) ∷ log)
  unfolding insert above used
  recorded-Tracks now seq z k log s long u t =
      let m = int_text (pos now) in
      let at = unix_milli (pos now) in
      let fresh = t.unused (pos now) now s in
      let kept = erase_fresh m z.members fresh in
      record {
        nonneg = (ground arith, subst IsNonneg (sym kept) t.nonneg);
        counts = λ c b. ground (arith, kept, t.counts c b, eq_iff k k);
        unused = λ a i q. ground (
          arith,
          lookup-insert m (member a i) at z.members,
          t.unused a i (omega arith),
          eq_iff m (member a i),
          u (pos now) (pos i),
        );
        outlasts = λ d c e b.
            let le : at ≤ℤ c = sum_cancel at c (keep window) d e b long in
            ground (arith, t.past, used_mono k at c log le);
        past = ground (arith, t.past);
      }

  pub other-Tracks :
      (now seq seq' : ℕ) (t : ℤ) (z : SortedSet) (k key : String) (log : Log)
      → key ≢ k
      → seq < seq'
      → IsTracked now seq z k log
      → IsTracked now seq' z k ((key, t) ∷ log)
  unfolding used
  other-Tracks now seq seq' t z k key log n s h =
      let same : (c : ℤ) → used k c ((key, t) ∷ log) ≡ used k c log =
        λ c. ground (arith, eq_iff key k) in
      record {
        nonneg = h.nonneg;
        counts = λ c b. h.counts c b ∙ sym (same c);
        unused = λ a i q. h.unused a i (omega arith);
        outlasts = λ d c e b. same c ∙ h.outlasts d c e b;
        past = same (unix_milli (pos now)) ∙ h.past;
      }
