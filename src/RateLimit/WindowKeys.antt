-- ===== src/RateLimit/WindowKeys.antt =====
-- The sets of all keys of ratelimit/redis_sliding_window.go as the script runs on one of them.
use floodguard_rate_limiter.Prelude.{
  ℕ, ◌<◌, ap, sym, subst, ◌∙◌, String, str_append, Bool, not, ◌∷◌, ◌≡◌, ◌≢◌, arith, text_eq, eq_iff,
  if◌then◌else◌, Bool-cases, inl, inr, length,
}
use floodguard_rate_limiter.Prelude.Int.{ℤ, pos, ◌-ℤ◌, ◌≤ℤ◌, ◌<ℤ◌, ◌==ℤ◌}
use floodguard_rate_limiter.Prelude.Dict.{Dict}
use floodguard_rate_limiter.Prelude.Int.{unix_milli}
use floodguard_rate_limiter.Redis.Sorted.{SortedSet, remove_range, Sorted, SortedLaws}
use floodguard_rate_limiter.RateLimit.RedisWindow.{RedisSlidingWindow, window_key, window_script}
use floodguard_rate_limiter.RateLimit.WindowScript.{
  is_over, script_set, script-view, script_other, length-remove_range,
}
use floodguard_rate_limiter.RateLimit.WindowLog.{
  Log, used, log_allow, keep, keep_positive, milli_mono, Tracks,
}
use floodguard_rate_limiter.RateLimit.WindowTracks.{at_later-Tracks, denied-Tracks, allowed-Tracks}
use text.Mathlib.TextLemmas.{append_cancel_left}

-- What a call of another key leaves, in the log.
used_other :
    (k key : String) (c t : ℤ) (log : Log) → key ≢ k → used k c ((key, t) ∷ log) ≡ used k c log
unfolding used
used_other k key c t log n = ground (arith, eq_iff key k)

other-Tracks :
    (member_text : ℤ → ℕ → String) (window now t : ℤ) (seq seq' : ℕ) (z : SortedSet)
    (k key : String) (log : Log)
    → key ≢ k
    → seq < seq'
    → Tracks member_text window now seq z k log
    → Tracks member_text window now seq' z k ((key, t) ∷ log)
other-Tracks member_text window now t seq seq' z k key log n s h = record {
  nonneg = h.nonneg;
  counts = λ c b. h.counts c b ∙ sym (used_other k key c t log n);
  unused = λ a i q. h.unused a i (omega arith);
  outlasts = λ d c e b. used_other k key c t log n ∙ h.outlasts d c e b;
  past = used_other k key (unix_milli now) t log n ∙ h.past;
}

later_seq-Tracks :
    (member_text : ℤ → ℕ → String) (window now : ℤ) (seq seq' : ℕ) (z : SortedSet) (k : String)
    (log : Log)
    → seq < seq'
    → Tracks member_text window now seq z k log
    → Tracks member_text window now seq' z k log
later_seq-Tracks member_text window now seq seq' z k log s h = record {
  nonneg = h.nonneg;
  counts = h.counts;
  unused = λ a i q. h.unused a i (omega arith);
  outlasts = h.outlasts;
  past = h.past;
}

module _ (R : Sorted) (L : SortedLaws R) (member_text : ℤ → ℕ → String)
    (l : RedisSlidingWindow) where
  abbrev pub AllTrack : ℤ → ℕ → R.Server → Log → Type 0
  AllTrack now seq s log =
      (k : String)
      → Tracks member_text l.cfg.window now seq (L.view (unix_milli now) (window_key l k) s) k log

  pub later-AllTrack :
      (now later : ℤ) (seq : ℕ) (s : R.Server) (log : Log)
      → pos 0 <ℤ l.cfg.window
      → now ≤ℤ later
      → AllTrack now seq s log
      → AllTrack later seq s log
  later-AllTrack now later seq s log p le h k =
      let z = L.view (unix_milli now) (window_key l k) s in
      let shown = λ (x : SortedSet). Tracks member_text l.cfg.window later seq x k log in
      subst shown
        (sym (
          L.view_later (unix_milli now) (unix_milli later) (window_key l k) s
            (milli_mono now later le)))
        (at_later-Tracks member_text l.cfg.window now later seq z k log p le (h k))

  window_key-inj : (j k : String) → window_key l j ≡ window_key l k → j ≡ k
  unfolding window_key
  window_key-inj j k e =
      append_cancel_left ":sw:" j k
        (append_cancel_left l.prefix (str_append ":sw:" j) (str_append ":sw:" k) e)

  -- The script at `now` on the key of `key`.
  abbrev pub script : ℤ → ℕ → String → R.Server → ℤ × R.Server
  script now seq' key s =
      window_script R (unix_milli now) (window_key l key) (unix_milli now)
        (unix_milli (now -ℤ l.cfg.window)) l.cfg.limit (member_text now seq') (keep l.cfg.window) s

  abbrev left_of : ℤ → String → R.Server → Dict ℤ
  left_of now key s =
      remove_range (pos 0) (unix_milli (now -ℤ l.cfg.window))
        (L.view (unix_milli now) (window_key l key) s).members

  -- The key of the call, as the script leaves it.
  own-Tracks :
      (now : ℤ) (seq seq' : ℕ) (key : String) (s : R.Server) (log : Log)
      → pos 0 <ℤ l.cfg.window
      → pos 0 ≤ℤ now
      → seq < seq'
      → ((a b : ℤ) (i j : ℕ) → member_text a i ≡ member_text b j → i ≡ j)
      → AllTrack now seq s log
      → let over = is_over l.cfg.limit (left_of now key s) in
        Tracks member_text l.cfg.window now seq'
          (L.view (unix_milli now) (window_key l key) (script now seq' key s).1)
          key
          (if over then log else (key, unix_milli now) ∷ log)
  own-Tracks now seq seq' key s log p n q u h =
      let z = L.view (unix_milli now) (window_key l key) s in
      let start = unix_milli (now -ℤ l.cfg.window) in
      let m = member_text now seq' in
      let seen =
        (script-view R L (unix_milli now) (unix_milli now) start l.cfg.limit (keep l.cfg.window)
          (window_key l key) m s (keep_positive l.cfg.window p) ((h key).unused now seq' q)).1 in
      let after =
        script_set (unix_milli now) (unix_milli now) start l.cfg.limit m (keep l.cfg.window) z in
      let goal = λ (over : Bool) (x : SortedSet).
        Tracks member_text l.cfg.window now seq' x key
          (if over then log else (key, unix_milli now) ∷ log) in
      subst (goal (is_over l.cfg.limit (left_of now key s))) (sym seen)
        (elim (Bool-cases (is_over l.cfg.limit (left_of now key s))) [
          | inl b ↦ rw b (denied-Tracks member_text l.cfg.window now seq seq' z key log q (h key))
          | inr b ↦
              rw b (allowed-Tracks member_text l.cfg.window now seq seq' z key log n q u (h key))
        ])

  other_key-Tracks :
      (now : ℤ) (seq seq' : ℕ) (k key : String) (s : R.Server) (log : Log) (over : Bool)
      → key ≢ k
      → seq < seq'
      → AllTrack now seq s log
      → Tracks member_text l.cfg.window now seq'
          (L.view (unix_milli now) (window_key l k) (script now seq' key s).1)
          k
          (if over then log else (key, unix_milli now) ∷ log)
  other_key-Tracks now seq seq' k key s log over d q h =
      let z = L.view (unix_milli now) (window_key l k) s in
      let same =
        script_other R L (unix_milli now) (unix_milli now) (unix_milli (now -ℤ l.cfg.window))
          l.cfg.limit (keep l.cfg.window) (window_key l key) (window_key l k) (member_text now seq')
          s (λ e. d (window_key-inj key k e)) in
      let goal = λ (x : SortedSet).
        Tracks member_text l.cfg.window now seq' x k
          (if over then log else (key, unix_milli now) ∷ log) in
      subst goal (sym same) (elim (Bool-cases over) [
        | inl b ↦ rw b (later_seq-Tracks member_text l.cfg.window now seq seq' z k log q (h k))
        | inr b ↦ rw b (
            other-Tracks member_text l.cfg.window now (unix_milli now) seq seq' z k key log d q
              (h k))
      ])

  -- The log decides as the script does.
  log-script :
      (now : ℤ) (seq seq' : ℕ) (key : String) (s : R.Server) (log : Log)
      → pos 0 <ℤ l.cfg.window
      → seq < seq'
      → AllTrack now seq s log
      → let over = is_over l.cfg.limit (left_of now key s) in
        (((script now seq' key s).0 ==ℤ pos 1) ≡ not over)
        × (log_allow l.cfg now key log
            ≡ (not over, if over then log else (key, unix_milli now) ∷ log))
  unfolding log_allow
  log-script now seq seq' key s log p q h =
      let z = L.view (unix_milli now) (window_key l key) s in
      let start = unix_milli (now -ℤ l.cfg.window) in
      let answered =
        (script-view R L (unix_milli now) (unix_milli now) start l.cfg.limit (keep l.cfg.window)
          (window_key l key) (member_text now seq') s (keep_positive l.cfg.window p)
          ((h key).unused now seq' q)).0 in
      let counted : length (left_of now key s) ≡ used key start log =
        length-remove_range start z.members (h key).nonneg ∙ (h key).counts start (omega arith) in
      (ground (arith, answered), ground (arith, counted))

  pub script-AllTrack :
      (now : ℤ) (seq seq' : ℕ) (key : String) (s : R.Server) (log : Log)
      → pos 0 <ℤ l.cfg.window
      → pos 0 ≤ℤ now
      → seq < seq'
      → ((a b : ℤ) (i j : ℕ) → member_text a i ≡ member_text b j → i ≡ j)
      → AllTrack now seq s log
      → let (answer, s') = script now seq' key s in
        let (allowed, log') = log_allow l.cfg now key log in
        ((answer ==ℤ pos 1) ≡ allowed) × AllTrack now seq' s' log'
  script-AllTrack now seq seq' key s log p n q u h =
      let over = is_over l.cfg.limit (left_of now key s) in
      let s' = (script now seq' key s).1 in
      let (answered, same) = log-script now seq seq' key s log p q h in
      (
        answered ∙ ap (λ x. x.0) (sym same),
        subst (λ (x : Log). AllTrack now seq' s' x) (ap (λ x. x.1) (sym same))
            (λ k. elim (Bool-cases (text_eq key k)) [
              | inl e ↦
                  let e' = (eq_iff key k).0 e in
                  subst
                    (λ (j : String).
                      Tracks member_text l.cfg.window now seq'
                        (L.view (unix_milli now) (window_key l j) s') j
                        (if over then log else (key, unix_milli now) ∷ log))
                    e' (own-Tracks now seq seq' key s log p n q u h)
              | inr b ↦
                  let d : key ≢ k = λ e. ground (arith, b, (eq_iff key k).1 e) in
                  other_key-Tracks now seq seq' k key s log over d q h
            ]),
      )
