-- ===== src/Velocity/RedisKeys.antt =====
-- The sorted sets of all keys of velocity/redis.go, as a count or a record runs on one of them.
use floodguard_rate_limiter.Prelude.{
  ℕ, ◌<◌, ◌≤◌, ap, sym, subst, ◌∙◌, String, str_append, Option, some, ◌∷◌, ◌≡◌, ◌≢◌, arith, text_eq,
  eq_iff, Bool-cases, inl, inr, length,
}
use floodguard_rate_limiter.Prelude.Int.{ℤ, pos, ◌+ℤ◌, ◌-ℤ◌, ◌≤ℤ◌, ◌<ℤ◌, unix_milli}
use floodguard_rate_limiter.Prelude.Dict.{insert}
use text.Mathlib.TextLemmas.{append_cancel_left}
use floodguard_rate_limiter.Redis.Sorted.{SortedSet, Sorted, SortedLaws}
use floodguard_rate_limiter.RateLimit.WindowScript.{length-remove_range}
use floodguard_rate_limiter.RateLimit.WindowLog.{Log, used, keep, milli_mono}
use floodguard_rate_limiter.RateLimit.WindowTracks.{at_later-Tracks}
use floodguard_rate_limiter.Velocity.Redis.{rkey}
use floodguard_rate_limiter.Velocity.RedisTracks.{
  day, member, IsTracked, counted-Tracks, recorded-Tracks, other-Tracks,
}

module _ (R : Sorted) (L : SortedLaws R) (first_score : ℤ → String → R.Server → Option ℤ)
    (int_text : ℤ → String) (prefix : String) (window : ℤ) where
  abbrev pub name : String → String
  name key = rkey R first_score int_text prefix key

  -- The set of a key at a time of the clock, in nanoseconds.
  abbrev set_of : ℕ → String → R.Server → SortedSet
  set_of now key s = L.view (unix_milli (pos now)) (name key) s

  abbrev pub AllTrack : ℕ → ℕ → R.Server → Log → Type 0
  AllTrack now seq s log = (k : String) → IsTracked int_text window now seq (set_of now k s) k log

  rkey-inj : (j k : String) → name j ≡ name k → j ≡ k
  unfolding rkey
  rkey-inj j k e =
      append_cancel_left ":" j k (append_cancel_left prefix (str_append ":" j) (str_append ":" k) e)

  pub later-AllTrack :
      (now later seq : ℕ) (s : R.Server) (log : Log)
      → pos 0 <ℤ window
      → now ≤ later
      → AllTrack now seq s log
      → AllTrack later seq s log
  later-AllTrack now later seq s log p l h k =
      let le : pos now ≤ℤ pos later = omega arith in
      subst (λ (x : SortedSet). IsTracked int_text window later seq x k log)
        (sym (
          L.view_later (unix_milli (pos now)) (unix_milli (pos later)) (name k) s
            (milli_mono (pos now) (pos later) le)))
        (at_later-Tracks (member int_text window) window (pos now) (pos later) seq (set_of now k s)
          k log p le (h k))

  -- What holds of the key of a call and of every other key holds of all.
  for_all :
      (P : String → Type 0) (key : String)
      → P key
      → ((k : String) → key ≢ k → P k)
      → (k : String) → P k
  for_all P key own others k = elim (Bool-cases (text_eq key k)) [
    | inl e ↦ subst P ((eq_iff key k).0 e) own
    | inr b ↦ others k (λ e. ground (arith, b, (eq_iff key k).1 e))
  ]

  -- The pipeline of Count.
  abbrev pub trimmed : ℕ → String → R.Server → R.Server
  trimmed now key s =
      R.zremrangebyscore (unix_milli (pos now)) (name key) (pos 0) (unix_milli (pos now -ℤ window))
        s

  pub trimmed-AllTrack :
      (now seq : ℕ) (key : String) (s : R.Server) (log : Log)
      → AllTrack now seq s log
      → AllTrack now seq (trimmed now key s) log
  trimmed-AllTrack now seq key s log h =
      let at = unix_milli (pos now) in
      let start = unix_milli (pos now -ℤ window) in
      let s' = trimmed now key s in
      for_all (λ k. IsTracked int_text window now seq (set_of now k s') k log) key
        (subst (λ (x : SortedSet). IsTracked int_text window now seq x key log)
          (sym (L.view-zremrangebyscore at (name key) (pos 0) start s))
          (counted-Tracks int_text window now seq (set_of now key s) key log (h key)))
        (λ k n.
          subst (λ (x : SortedSet). IsTracked int_text window now seq x k log)
            (sym (
              L.other_zremrangebyscore at (name key) (name k) (pos 0) start s
                (λ e. n (rkey-inj key k e))))
            (h k))

  pub zcard-trimmed :
      (now seq : ℕ) (key : String) (s : R.Server) (log : Log)
      → AllTrack now seq s log
      → R.zcard (unix_milli (pos now)) (name key) (trimmed now key s)
        ≡ used key (unix_milli (pos now -ℤ window)) log
  zcard-trimmed now seq key s log h =
      let at = unix_milli (pos now) in
      let start = unix_milli (pos now -ℤ window) in
      let z = set_of now key s in
      L.zcard_lem at (name key) (trimmed now key s)
      ∙ ap (λ (x : SortedSet). length x.members)
          (L.view-zremrangebyscore at (name key) (pos 0) start s)
      ∙ length-remove_range start z.members (h key).nonneg
      ∙ (h key).counts start (omega arith)

  -- The pipeline of Record.
  abbrev pub stored : ℕ → String → R.Server → R.Server
  stored now key s =
      let at = unix_milli (pos now) in
      R.pexpire at (name key) day (R.zadd at (name key) at (int_text (pos now)) s)

  own-stored :
      (now : ℕ) (key : String) (s : R.Server)
      → set_of now key (stored now key s) ≡ record {
        members = insert (int_text (pos now)) (unix_milli (pos now)) (set_of now key s).members;
        deadline = some (unix_milli (pos now) +ℤ day);
      }
  unfolding insert
  own-stored now key s =
      let at = unix_milli (pos now) in
      let s1 = R.zadd at (name key) at (int_text (pos now)) s in
      ground (
        arith,
        L.view-pexpire at (name key) day s1 (omega arith),
        L.view-zadd at (name key) at (int_text (pos now)) s,
      )

  other-stored :
      (now : ℕ) (k key : String) (s : R.Server)
      → key ≢ k
      → set_of now k (stored now key s) ≡ set_of now k s
  other-stored now k key s n =
      let at = unix_milli (pos now) in
      let s1 = R.zadd at (name key) at (int_text (pos now)) s in
      let apart : name key ≢ name k = λ e. n (rkey-inj key k e) in
      L.other_pexpire at (name key) (name k) day s1 apart
      ∙ L.other_zadd at (name key) (name k) at (int_text (pos now)) s apart

  pub stored-AllTrack :
      (now seq : ℕ) (key : String) (s : R.Server) (log : Log)
      → seq < now
      → keep window ≤ℤ day
      → ((a b : ℤ) → int_text a ≡ int_text b → a ≡ b)
      → AllTrack now seq s log
      → AllTrack now now (stored now key s) ((key, unix_milli (pos now)) ∷ log)
  stored-AllTrack now seq key s log q long u h =
      let at = unix_milli (pos now) in
      let s' = stored now key s in
      let log' = (key, at) ∷ log in
      for_all (λ k. IsTracked int_text window now now (set_of now k s') k log') key
        (subst (λ (x : SortedSet). IsTracked int_text window now now x key log')
          (sym (own-stored now key s))
          (recorded-Tracks int_text window now seq (set_of now key s) key log q long u (h key)))
        (λ k n.
          subst (λ (x : SortedSet). IsTracked int_text window now now x k log')
            (sym (other-stored now k key s n))
            (other-Tracks int_text window now seq now at (set_of now k s) k key log n q (h k)))
