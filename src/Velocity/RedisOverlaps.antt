-- ===== src/Velocity/RedisOverlaps.antt =====
-- What the engine of velocity/velocity.go, with one RateOverWindow rule over the store of
-- velocity/redis.go, promises when the checks of several callers overlap.
use floodguard_rate_limiter.Prelude.{
  ℕ, suc, ◌+◌, ◌<◌, ◌≤◌, ap, sym, subst, ◌∙◌, String, Bool, true, false, Option, none, List, [],
  ◌∷◌, ◌≡◌, refl, arith, text_eq, eq_iff, if◌then◌else◌, Bool-cases, inl, inr,
}
use floodguard_rate_limiter.Prelude.Int.{
  ℤ, pos, ◌+ℤ◌, ◌-ℤ◌, ◌≤ℤ◌, ◌<ℤ◌, ltb_ℤ, leb_ℤ, unix_milli, int_laws,
}
use floodguard_rate_limiter.Prelude.Dict.{lookup}
use floodguard_rate_limiter.Errors.{ok, background}
use floodguard_rate_limiter.Redis.{delivered}
use floodguard_rate_limiter.Redis.Sorted.{SortedSet, above, Sorted, SortedLaws}
use floodguard_rate_limiter.RateLimit.WindowLog.{Log, used, used_mono, keep, start_mono, Tracks}
use floodguard_rate_limiter.RateLimit.WindowAnswers.{IsFresh}
use floodguard_rate_limiter.Velocity.{
  Engine, Store, Format, RateOverWindow, rate_rule, check_rate, run_rules, settle,
}
use floodguard_rate_limiter.Velocity.Overlaps.{pending_of, without, passes, pending_of-without}
use floodguard_rate_limiter.Velocity.Redis.{redis_record, redis_count, redis_last}
use floodguard_rate_limiter.Velocity.RedisTracks.{day}
use floodguard_rate_limiter.Velocity.RedisKeys.{
  name, AllTrack, trimmed, stored, later-AllTrack, trimmed-AllTrack, zcard-trimmed, stored-AllTrack,
}

-- The two parts of a check, each with its key and its reading of the clock, in nanoseconds since 1970.
pub data Event : Type 0 where
  asks records : String → ℕ → Event

-- The clock does not go back, every record is later than the one before, and the end is not before the
-- last event.
abbrev pub InOrder : ℕ → ℕ → List Event → ℕ → Type 0
InOrder now last [] end = now ≤ end
InOrder now last (asks key at ∷ es) end = (now ≤ at) × InOrder at last es end
InOrder now last (records key at ∷ es) end = (now ≤ at) × (last < at) × InOrder at at es end

module _ (R : Sorted) (L : SortedLaws R) (first_score : ℤ → String → R.Server → Option ℤ)
    (int_text : ℤ → String) (prefix : String) (f : Format) (rule : RateOverWindow) where
  -- The server, and the keys of the checks that have passed the rules and not yet recorded.
  pub record State : Type 0 where
    pub server : R.Server
    pub pending : List String

  -- The store at a reading of the clock, whose network delivers, on a server that shares the clock.
  abbrev store_at : ℕ → Store R.Server
  store_at now = record {
    record_action =
        λ ctx key at. redis_record R first_score int_text prefix (unix_milli at) delivered key at;
    count = λ ctx key window.
        redis_count R first_score int_text prefix (unix_milli (pos now)) delivered (pos now) key
          window;
    last = λ ctx key. redis_last R first_score int_text prefix (unix_milli (pos now)) delivered key;
  }

  abbrev engine : ℕ → Engine R.Server
  engine at = record { store = store_at at; rules = rate_rule f rule ∷ [] }

  abbrev is_pending : String → State → Bool
  is_pending key s = leb_ℤ (pos 1) (pos (pending_of key s.pending))

  -- The rules of `Engine.Check`, for a key that is not empty, and its end.
  unfoldable pub step : Event → State → State
  step (asks key at) s =
      let (res, t) = run_rules (store_at at) background key (rate_rule f rule ∷ []) s.server in
      if text_eq key ""
      then s
      else record { server = t; pending = if passes res then key ∷ s.pending else s.pending }
  step (records key at) s =
      let t = (settle (engine at) (λ t. (ok (pos at), t)) background key none s.server).1 in
      if is_pending key s then record { server = t; pending = without key s.pending } else s

  -- The actions that were allowed, those that a pending check has recorded, in milliseconds, added to a
  -- log.
  abbrev pub entered : Event → State → Log → Log
  entered (asks key at) s log = log
  entered (records key at) s log =
      if is_pending key s then (key, unix_milli (pos at)) ∷ log else log

  unfoldable pub allowed_log : List Event → State → Log → Log
  allowed_log [] s log = log
  allowed_log (e ∷ es) s log = allowed_log es (step e s) (entered e s log)

  -- No more than `most` checks of the key are ever pending at once.
  abbrev pub Overlap : String → ℕ → List Event → State → Type 0
  Overlap k most [] s = Unit {0}
  Overlap k most (e ∷ es) s =
      (pending_of k (step e s).pending ≤ most) × Overlap k most es (step e s)

  -- A rule that `RateOverWindow.Check` accepts, its window by a second shorter than the time to live of
  -- a set.
  abbrev pub IsProper : Type 0
  IsProper = (pos 0 <ℤ rule.n) × (pos 0 <ℤ rule.window) × (keep rule.window ≤ℤ day)

  abbrev seen : String → ℕ → R.Server → ℕ
  seen key at s =
      R.zcard (unix_milli (pos at)) (name R L first_score int_text prefix rule.window key)
        (trimmed R L first_score int_text prefix rule.window at key s)

  asked-eq :
      (key : String) (at : ℕ) (s : R.Server)
      → IsProper
      → let (res, t) = run_rules (store_at at) background key (rate_rule f rule ∷ []) s in
        (passes res ≡ ltb_ℤ (pos (seen key at s)) rule.n)
        × (t ≡ trimmed R L first_score int_text prefix rule.window at key s)
  unfolding run_rules check_rate redis_count
  asked-eq key at s p = ground arith

  settled-eq :
      (key : String) (at : ℕ) (s : R.Server)
      → (settle (engine at) (λ t. (ok (pos at), t)) background key none s).1
        ≡ stored R L first_score int_text prefix rule.window at key s
  unfolding settle redis_record
  settled-eq key at s = ground arith

  module _ (k : String) (most : ℕ) where
    -- There is room for the pending checks of the key.
    abbrev Room : ℕ → List String → Log → Type 0
    Room now js log =
        (c : ℤ)
        → unix_milli (pos now -ℤ rule.window) ≤ℤ c
        → pos (suc (used k c log + pending_of k js)) ≤ℤ rule.n +ℤ pos most

    -- The sets have the log, and there is room.
    abbrev Keeps : ℕ → ℕ → State → Log → Type 0
    Keeps now last s log =
        (seq : ℕ) × (seq ≤ last)
        × AllTrack R L first_score int_text prefix rule.window now seq s.server log
        × Room now s.pending log

    later-Keeps :
        (now later last : ℕ) (s : State) (log : Log)
        → pos 0 <ℤ rule.window
        → now ≤ later
        → Keeps now last s log
        → Keeps later last s log
    later-Keeps now later last s log p l (seq, q, tracks, room) = (
      seq,
      q,
      later-AllTrack R L first_score int_text prefix rule.window now later seq s.server log p l
          tracks,
      λ c b. room c (ground (arith, start_mono (pos now) (pos later) rule.window (omega arith))),
    )

    -- Whether a check passes or not, there is room for what is pending then.
    asked-room :
        (b : Bool) (key : String) (counted u : ℕ) (js : List String)
        → b ≡ ltb_ℤ (pos counted) rule.n
        → (key ≡ k → u ≤ counted)
        → pos (suc (u + pending_of k js)) ≤ℤ rule.n +ℤ pos most
        → pending_of k (if b then key ∷ js else js) ≤ most
        → pos (suc (u + pending_of k (if b then key ∷ js else js))) ≤ℤ rule.n +ℤ pos most
    unfolding pending_of
    asked-room false key counted u js e own old few = old
    asked-room true key counted u js e own old few = elim (Bool-cases (text_eq key k)) [
      | inl same ↦
          let below : pos counted <ℤ rule.n = ground (arith, e) in
          let within = own ((eq_iff key k).0 same) in omega (int_laws, below, within, few)
      | inr other ↦ rw other (omega (arith, old))
    ]

    asked-Keeps :
        (key : String) (at last : ℕ) (s : State) (log : Log)
        → IsProper
        → pending_of k (step (asks key at) s).pending ≤ most
        → Keeps at last s log
        → Keeps at last (step (asks key at) s) log
    unfolding step
    asked-Keeps key at last s log p few (seq, q, tracks, room) =
        let (answer, t) = run_rules (store_at at) background key (rate_rule f rule ∷ []) s.server in
        let (judged, cut) = asked-eq key at s.server p in
        let start = unix_milli (pos at -ℤ rule.window) in
        let counted =
          zcard-trimmed R L first_score int_text prefix rule.window at seq key s.server log
            tracks in
        let next : State = record {
          server = t;
          pending = if passes answer then key ∷ s.pending else s.pending;
        } in
        elim (Bool-cases (text_eq key "")) [
          | inl empty ↦ rw empty (seq, q, tracks, room)
          | inr named ↦
              let few' =
                subst (λ b. pending_of k (if b then s else next).pending ≤ most) named few in
              rw named (
                seq,
                q,
                subst (λ v. AllTrack R L first_score int_text prefix rule.window at seq v log)
                    (sym cut)
                    (trimmed-AllTrack R L first_score int_text prefix rule.window at seq key
                      s.server log tracks),
                λ c b.
                    asked-room (passes answer) key (used key start log) (used k c log) s.pending
                      (judged ∙ ap (λ n. ltb_ℤ (pos n) rule.n) counted)
                      (λ same.
                        subst (λ j. used k c log ≤ used j start log) (sym same)
                          (used_mono k start c log b))
                      (room c b) few',
              )
        ]

    -- A record takes the place of a pending check.
    recorded-room :
        (key : String) (at c : ℤ) (js : List String) (log : Log)
        → leb_ℤ (pos 1) (pos (pending_of key js)) ≡ true
        → pos (suc (used k c log + pending_of k js)) ≤ℤ rule.n +ℤ pos most
        → pos (suc (used k c ((key, at) ∷ log) + pending_of k (without key js)))
          ≤ℤ rule.n +ℤ pos most
    unfolding used
    recorded-room key at c js log waits old =
        let left = pending_of-without f rule k key js waits in
        elim (Bool-cases (text_eq key k)) [
          | inl same ↦
              let left' : pending_of k js ≡ 1 + pending_of k (without key js) =
                left ∙ ap (λ b. (if b then 1 else 0) + pending_of k (without key js)) same in
              ground (arith, same, left', old)
          | inr other ↦
              let left' : pending_of k js ≡ 0 + pending_of k (without key js) =
                left ∙ ap (λ b. (if b then 1 else 0) + pending_of k (without key js)) other in
              ground (arith, other, left', old)
        ]

    recorded-Keeps :
        (key : String) (at last : ℕ) (s : State) (log : Log)
        → IsProper
        → ((a b : ℤ) → int_text a ≡ int_text b → a ≡ b)
        → last < at
        → Keeps at last s log
        → Keeps at at (step (records key at) s) (entered (records key at) s log)
    unfolding step
    recorded-Keeps key at last s log p u l (seq, q, tracks, room) =
        elim (Bool-cases (is_pending key s)) [
          | inl waits ↦ rw waits (
            at,
            omega arith,
            subst
                (λ v.
                  AllTrack R L first_score int_text prefix rule.window at at v
                    ((key, unix_milli (pos at)) ∷ log))
                (sym (settled-eq key at s.server))
                (stored-AllTrack R L first_score int_text prefix rule.window at seq key s.server log
                  (omega arith) p.2 u tracks),
            λ c b. recorded-room key (unix_milli (pos at)) c s.pending log waits (room c b),
          )
          | inr idle ↦ rw idle (seq, omega arith, tracks, room)
        ]

    allowed_log-Room :
        (es : List Event) (now last end : ℕ) (s : State) (log : Log)
        → IsProper
        → ((a b : ℤ) → int_text a ≡ int_text b → a ≡ b)
        → InOrder now last es end
        → Overlap k most es s
        → Keeps now last s log
        → pos (suc (used k (unix_milli (pos end -ℤ rule.window)) (allowed_log es s log)))
          ≤ℤ rule.n +ℤ pos most
    unfolding allowed_log
    allowed_log-Room [] now last end s log p u o few h =
        let room = (later-Keeps now end last s log p.1 o h).3 in
        omega (arith, room (unix_milli (pos end -ℤ rule.window)) (omega arith))
    allowed_log-Room (asks key at ∷ es) now last end s log p u o few h =
        allowed_log-Room es at last end (step (asks key at) s) log p u o.1 few.1
          (asked-Keeps key at last s log p few.0 (later-Keeps now at last s log p.1 o.0 h))
    allowed_log-Room (records key at ∷ es) now last end s log p u o few h =
        allowed_log-Room es at at end (step (records key at) s) (entered (records key at) s log) p u
          o.2 few.1
          (recorded-Keeps key at last s log p u o.1 (later-Keeps now at last s log p.1 o.0 h))

    -- With one RateOverWindow rule whose N is positive and whose Window is positive and by a
    -- second under 24 hours, over the Redis velocity store with texts of times that tell them
    -- apart, on a server that keeps to the documented laws of sorted sets, shares the client's
    -- clock and holds no sets at first, every call being delivered: when the checks of any callers
    -- overlap in any way (each asks its rules and, if it passes, records later), at times that do
    -- not go back, the time of each record after that of the record before and the first after the
    -- start of 1970, and no more than a given number of checks of a key are ever between the two
    -- at once, fewer actions than N and this number together have been allowed to the key in the
    -- window that ends at any time from the last step on, its start rounded down to a millisecond.
    pub redis_allowed-le :
        (es : List Event) (end : ℕ) (s : R.Server)
        → IsProper
        → ((a b : ℤ) → int_text a ≡ int_text b → a ≡ b)
        → InOrder 0 0 es end
        → Overlap k most es (record { server = s; pending = [] })
        → IsFresh R L s
        → pos (
            suc (
              used k
                (unix_milli (pos end -ℤ rule.window))
                (allowed_log es (record { server = s; pending = [] }) [])))
          ≤ℤ rule.n +ℤ pos most
    unfolding used above lookup pending_of
    redis_allowed-le es end s p u o few fresh =
        allowed_log-Room es 0 0 end (record { server = s; pending = [] }) [] p u o few
          (
            0,
            omega arith,
            (λ j.
                subst
                  (λ (x : SortedSet). Tracks (λ a i. int_text (pos i)) rule.window (pos 0) 0 x j [])
                  (sym (
                    fresh (unix_milli (pos 0))
                      (name R L first_score int_text prefix rule.window j)))
                  (record {
                    nonneg = tt;
                    counts = λ c q. refl;
                    unused = λ a i q. refl;
                    outlasts = λ d c e q. refl;
                    past = refl;
                  })),
            λ c b. omega (int_laws, p.0),
          )
