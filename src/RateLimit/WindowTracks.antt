-- ===== src/RateLimit/WindowTracks.antt =====
-- The set of a key of ratelimit/redis_sliding_window.go as time passes and as the script runs.
use floodguard_rate_limiter.Prelude.{
  ℕ, ◌<◌, sym, subst, ◌∙◌, String, none, some, [], ◌∷◌, ◌≡◌, refl, arith, eq_iff, if◌then◌else◌,
  Option-cases, Bool-cases, inl, inr,
}
use floodguard_rate_limiter.Prelude.Int.{ℤ, pos, ◌+ℤ◌, ◌-ℤ◌, ◌≤ℤ◌, ◌<ℤ◌, leb_ℤ, int_laws}
use floodguard_rate_limiter.Prelude.Dict.{lookup, insert, lookup-insert}
use floodguard_rate_limiter.Prelude.Int.{unix_milli}
use floodguard_rate_limiter.Redis.Sorted.{SortedSet, above, remove_range, kept_deadline}
use floodguard_rate_limiter.RateLimit.WindowScript.{
  IsNonneg, above-remove_range, lookup-remove_range, remove_range-IsNonneg, erase_fresh,
}
use floodguard_rate_limiter.RateLimit.WindowLog.{
  Log, used, used_mono, keep, keep_window, start_mono, milli_mono, Tracks,
}

sum_le : (x c k d : ℤ) → some (x +ℤ k) ≡ some d → d ≤ℤ c +ℤ k → x ≤ℤ c
sum_le x c k d e b = let f : x +ℤ k ≤ℤ c +ℤ k = ground (arith, e, b) in omega int_laws

module _ (member_text : ℤ → ℕ → String) (window : ℤ) where
  -- The set that a later time shows.
  abbrev pub at_later : ℤ → SortedSet → SortedSet
  at_later t z = elim z.deadline [
    | none ↦ z
    | some d ↦ if leb_ℤ d t then record { members = []; deadline = none } else z
  ]

  same-Tracks :
      (now later : ℤ) (seq : ℕ) (z : SortedSet) (k : String) (log : Log)
      → now ≤ℤ later
      → Tracks member_text window now seq z k log
      → Tracks member_text window later seq z k log
  same-Tracks now later seq z k log l t = record {
    nonneg = t.nonneg;
    counts = λ c b. t.counts c (ground (arith, start_mono now later window l));
    unused = t.unused;
    outlasts = t.outlasts;
    past = ground (
      arith,
      t.past,
      used_mono k (unix_milli now) (unix_milli later) log (milli_mono now later l),
    );
  }

  empty-Tracks :
      (now later d : ℤ) (seq : ℕ) (z : SortedSet) (k : String) (log : Log)
      → pos 0 <ℤ window
      → now ≤ℤ later
      → Tracks member_text window now seq z k log
      → z.deadline ≡ some d
      → d ≤ℤ unix_milli later
      → Tracks member_text window later seq (record { members = []; deadline = none }) k log
  unfolding above lookup
  empty-Tracks now later d seq z k log p l t h b = record {
    nonneg = tt;
    counts = λ c s. sym (t.outlasts d c h (let w = keep_window later window p in omega int_laws));
    unused = λ a i s. refl;
    outlasts = λ d' c e s. ground arith;
    past = (same-Tracks now later seq z k log l t).past;
  }

  pub at_later-Tracks :
      (now later : ℤ) (seq : ℕ) (z : SortedSet) (k : String) (log : Log)
      → pos 0 <ℤ window
      → now ≤ℤ later
      → Tracks member_text window now seq z k log
      → Tracks member_text window later seq (at_later (unix_milli later) z) k log
  at_later-Tracks now later seq z k log p l t =
      let shown = λ (x : SortedSet). Tracks member_text window later seq x k log in
      let same : (at_later (unix_milli later) z ≡ z) → shown (at_later (unix_milli later) z) =
        λ e. subst shown (sym e) (same-Tracks now later seq z k log l t) in
      elim (Option-cases z.deadline) [
        | inl e ↦ same (ground (arith, e))
        | inr (d, e) ↦ elim (Bool-cases (leb_ℤ d (unix_milli later))) [
          | inl b ↦
              let gone : record { members = []; deadline = none } ≡ at_later (unix_milli later) z =
                ground (arith, e, b) in
              subst shown gone (empty-Tracks now later d seq z k log p l t e (ground arith))
          | inr b ↦ same (ground (arith, e, b))
        ]
      ]

  pub denied-Tracks :
      (now : ℤ) (seq seq' : ℕ) (z : SortedSet) (k : String) (log : Log)
      → seq < seq'
      → Tracks member_text window now seq z k log
      → let left = remove_range (pos 0) (unix_milli (now -ℤ window)) z.members in
        Tracks member_text window now seq'
          (record { members = left; deadline = kept_deadline left (kept_deadline left z.deadline) })
          k
          log
  denied-Tracks now seq seq' z k log s t =
      let start = unix_milli (now -ℤ window) in
      let left = remove_range (pos 0) start z.members in
      let same : (d : ℤ)
          → kept_deadline left (kept_deadline left z.deadline) ≡ some d
          → z.deadline ≡ some d =
        λ d e. ground arith in
      record {
        nonneg = remove_range-IsNonneg start z.members t.nonneg;
        counts = λ c b. above-remove_range c start z.members b ∙ t.counts c b;
        unused = λ a i q.
            lookup-remove_range (member_text a i) start z.members (t.unused a i (omega arith));
        outlasts = λ d c e b. t.outlasts d c (same d e) b;
        past = t.past;
      }

  pub allowed-Tracks :
      (now : ℤ) (seq seq' : ℕ) (z : SortedSet) (k : String) (log : Log)
      → pos 0 ≤ℤ now
      → seq < seq'
      → ((a b : ℤ) (i j : ℕ) → member_text a i ≡ member_text b j → i ≡ j)
      → Tracks member_text window now seq z k log
      → let left = remove_range (pos 0) (unix_milli (now -ℤ window)) z.members in
        Tracks member_text window now seq'
          (record {
            members = insert (member_text now seq') (unix_milli now) left;
            deadline = some (unix_milli now +ℤ keep window);
          })
          k
          ((k, unix_milli now) ∷ log)
  unfolding insert above used
  allowed-Tracks now seq seq' z k log n s u t =
      let start = unix_milli (now -ℤ window) in
      let m = member_text now seq' in
      let left = remove_range (pos 0) start z.members in
      let fresh = lookup-remove_range m start z.members (t.unused now seq' s) in
      let kept = erase_fresh m left fresh in
      record {
        nonneg = (
          ground arith,
          subst IsNonneg (sym kept) (remove_range-IsNonneg start z.members t.nonneg),
        );
        counts = λ c b.
            ground (arith, kept, above-remove_range c start z.members b, t.counts c b, eq_iff k k);
        unused = λ a i q. ground (
          arith,
          lookup-insert m (member_text a i) (unix_milli now) left,
          lookup-remove_range (member_text a i) start z.members (t.unused a i (omega arith)),
          eq_iff m (member_text a i),
          u now a seq' i,
        );
        outlasts = λ d c e b.
            let le : unix_milli now ≤ℤ c = sum_le (unix_milli now) c (keep window) d e b in
            ground (arith, t.past, used_mono k (unix_milli now) c log le);
        past = ground (arith, t.past);
      }
