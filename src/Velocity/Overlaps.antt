-- ===== src/Velocity/Overlaps.antt =====
-- What the engine of velocity/velocity.go, with one RateOverWindow rule of velocity/rules.go over the
-- in-memory store, promises when the checks of several callers overlap.
use floodguard_rate_limiter.Prelude.{
  ℕ, suc, ◌+◌, ◌≤◌, ap, sym, subst, ◌∙◌, String, Bool, true, false, Option, none, some, List, [],
  ◌∷◌, ◌++◌, ◌≡◌, refl, ◌≢◌, arith, text_eq, eq_iff, if◌then◌else◌, Bool-cases, inl, inr, ◌&&◌,
}
use floodguard_rate_limiter.Prelude.Int.{ℤ, pos, ◌+ℤ◌, ◌-ℤ◌, int_laws, ◌≤ℤ◌, ◌<ℤ◌, ltb_ℤ, leb_ℤ}
use mathlib.Core.List.{append-nil, append_assoc}
use floodguard_rate_limiter.Prelude.Dict.{lookup}
use floodguard_rate_limiter.Errors.{Result, ok, err, background}
use floodguard_rate_limiter.Velocity.{
  Actions, Engine, times_of, memory_count, memory_record, memory_store, Format, RateOverWindow,
  rate_rule, check_rate, run_rules, settle, check,
}
use floodguard_rate_limiter.Velocity.Window.{
  count_after, count_after-append, count_after-antitone, count_after-keep_after_le, count_after-new,
  memory_count-counts, times_of-insert_self, times_of-insert_ne,
}

-- The two parts of a check, which hold no lock together: the rules are asked, and the action is recorded
-- by a caller that no rule has flagged; each with its key and its reading of the clock.
pub data Event : Type 0 where
  asks records : String → ℤ → Event

-- The store, and the keys of the checks that have passed the rules and not yet recorded.
pub record State : Type 0 where
  pub actions : Actions
  pub pending : List String

-- How many of the pending checks are of a key.
unfoldable pub pending_of : String → List String → ℕ
pending_of k [] = 0
pending_of k (j ∷ js) = (if text_eq j k then 1 else 0) + pending_of k js

-- The pending checks without the first one of a key.
unfoldable pub without : String → List String → List String
without k [] = []
without k (j ∷ js) = let rest = without k js in if text_eq j k then js else j ∷ rest

-- Whether a check allows the key.
abbrev pub is_allowed : Result (Bool × String) → Bool
is_allowed (ok (allowed, why)) = allowed
is_allowed (err e) = false

abbrev pub passes : Result (Option String) → Bool
passes (ok none) = true
passes (ok (some why)) = false
passes (err e) = false

module _ (f : Format) (rule : RateOverWindow) where
  abbrev engine : ℤ → Engine Actions
  engine at = record { store = memory_store at; rules = rate_rule f rule ∷ [] }

  -- The rules of `Engine.Check`, for a key that is not empty, and its end.
  unfoldable pub step : Event → State → State
  step (asks key at) s =
      let (res, m) = run_rules (memory_store at) background key (rate_rule f rule ∷ []) s.actions in
      if text_eq key ""
      then s
      else record { actions = m; pending = if passes res then key ∷ s.pending else s.pending }
  step (records key at) s =
      let m = (settle (engine at) (λ m. (ok at, m)) background key none s.actions).1 in
      if leb_ℤ (pos 1) (pos (pending_of key s.pending))
      then record { actions = m; pending = without key s.pending }
      else s

  -- The times of the actions of a key that were allowed: those that a pending check has recorded.
  abbrev pub new_times : String → Event → State → List ℤ
  new_times k (asks key at) s = []
  new_times k (records key at) s =
      if text_eq key k && leb_ℤ (pos 1) (pos (pending_of key s.pending)) then at ∷ [] else []

  pub allowed_times : String → List Event → State → List ℤ
  allowed_times k [] s = []
  allowed_times k (e ∷ es) s = new_times k e s ++ allowed_times k es (step e s)

  abbrev pub time_of : Event → ℤ
  time_of (asks key at) = at
  time_of (records key at) = at

  abbrev key_of : Event → String
  key_of (asks key at) = key
  key_of (records key at) = key

  -- The clock does not go back, and ends by the last argument.
  abbrev pub InOrder : ℤ → List Event → ℤ → Type 0
  InOrder now [] end = now ≤ℤ end
  InOrder now (e ∷ es) end = (now ≤ℤ time_of e) × InOrder (time_of e) es end

  -- No more than `most` checks of the key are ever pending at once.
  abbrev pub Overlap : String → ℕ → List Event → State → Type 0
  Overlap k most [] s = Unit {0}
  Overlap k most (e ∷ es) s =
      (pending_of k (step e s).pending ≤ most) × Overlap k most es (step e s)

  abbrev pub IsProper : Type 0
  IsProper = (pos 0 <ℤ rule.n) × (pos 0 <ℤ rule.window)

  asked-eq :
      (key : String) (at : ℤ) (m : Actions)
      → IsProper
      → let (res, m') = run_rules (memory_store at) background key (rate_rule f rule ∷ []) m in
        (passes res ≡ ltb_ℤ (pos (count_after (at -ℤ rule.window) (times_of key m))) rule.n)
        × (m' ≡ (memory_count at key rule.window m).1)
  unfolding run_rules check_rate
  asked-eq key at m p = ground (arith, (memory_count-counts key key at rule.window m).0)

  settled-eq :
      (key : String) (at : ℤ) (m : Actions)
      → (settle (engine at) (λ m. (ok at, m)) background key none m).1 ≡ (memory_record key at m).1
  unfolding settle memory_record
  settled-eq key at m = ground arith

  -- A check of a key that is not empty, with no other check in between, is the two steps.
  check-steps :
      (key : String) (at at' : ℤ) (m : Actions)
      → key ≢ ""
      → (check (engine at) (λ m. (ok at', m)) background key m).1
        ≡ (step
            (records key at')
            (step (asks key at) (record { actions = m; pending = [] }))).actions
  unfolding check run_rules settle check_rate step pending_of memory_count
  check-steps key at at' m named = ground (arith, eq_iff key "", eq_iff key key)

  pub pending_of-without :
      (k j : String) (js : List String)
      → leb_ℤ (pos 1) (pos (pending_of j js)) ≡ true
      → pending_of k js ≡ (if text_eq j k then 1 else 0) + pending_of k (without j js)
  unfolding pending_of without
  pending_of-without k j [] h = ground arith
  pending_of-without k j (i ∷ js) h = elim (Bool-cases (text_eq i j)) [
    | inl same ↦ cc ((eq_iff i j).0 same, same)
    | inr other ↦ ground (arith, other, h, pending_of-without k j js)
  ]

  -- The stored times of a key stand for its allowed actions as far as the window at `now` reaches, and
  -- there is room for the pending checks of the key.
  record Tracks (k : String) (most : ℕ) (now : ℤ) (s : State) (hist : List ℤ) : Type 0 where
    agree :
        (c : ℤ)
        → now -ℤ rule.window ≤ℤ c
        → count_after c (times_of k s.actions) ≡ count_after c hist
    bound :
        pos (suc (count_after (now -ℤ rule.window) hist + pending_of k s.pending))
        ≤ℤ rule.n +ℤ pos most

  later-Tracks :
      (k : String) (most : ℕ) (now later : ℤ) (s : State) (hist : List ℤ)
      → now ≤ℤ later
      → Tracks k most now s hist
      → Tracks k most later s hist
  later-Tracks k most now later s hist l t =
      let mono : now -ℤ rule.window ≤ℤ later -ℤ rule.window = omega int_laws in
      record {
        agree = λ c h. t.agree c (omega arith);
        bound = omega (
          arith,
          t.bound,
          count_after-antitone (now -ℤ rule.window) (later -ℤ rule.window) hist mono,
        );
      }

  -- A store with other actions and other pending checks.
  same-Tracks :
      (k : String) (most : ℕ) (now : ℤ) (s s' : State) (hist : List ℤ)
      → times_of k s'.actions ≡ times_of k s.actions
      → pending_of k s'.pending ≡ pending_of k s.pending
      → Tracks k most now s hist
      → Tracks k most now s' hist
  same-Tracks k most now s s' hist same same' t = record {
    agree = λ c h. ap (count_after c) same ∙ t.agree c h;
    bound = omega (arith, t.bound, same');
  }

  -- Whether a check passes or not, there is room for what is pending then.
  asked-room :
      (b : Bool) (used most : ℕ) (js : List String) (k : String)
      → b ≡ ltb_ℤ (pos used) rule.n
      → pos (suc (used + pending_of k js)) ≤ℤ rule.n +ℤ pos most
      → pending_of k (if b then k ∷ js else js) ≤ most
      → pos (suc (used + pending_of k (if b then k ∷ js else js))) ≤ℤ rule.n +ℤ pos most
  asked-room true used most js k e old few =
      let below : pos used <ℤ rule.n = ground (arith, e) in omega (int_laws, below, few)
  asked-room false used most js k e old few = old

  asked-Tracks :
      (k : String) (most : ℕ) (at : ℤ) (s : State) (hist : List ℤ)
      → IsProper
      → text_eq k "" ≡ false
      → pending_of k (step (asks k at) s).pending ≤ most
      → Tracks k most at s hist
      → Tracks k most at (step (asks k at) s) hist
  unfolding step pending_of
  asked-Tracks k most at s hist p named few t =
      let cutoff = at -ℤ rule.window in
      let (judged, trimmed) = asked-eq k at s.actions p in
      let kept = (memory_count-counts k k at rule.window s.actions).1 in
      let seen = t.agree cutoff (omega arith) in
      let (answer, m') =
        run_rules (memory_store at) background k (rate_rule f rule ∷ []) s.actions in
      rw named (record {
        agree = λ c h.
            ap (λ m. count_after c (times_of k m)) trimmed
            ∙ ap (count_after c) kept
            ∙ count_after-keep_after_le cutoff c (times_of k s.actions) h
            ∙ t.agree c h;
        bound =
            asked-room (passes answer) (count_after cutoff hist) most s.pending k
              (judged ∙ ap (λ n. ltb_ℤ (pos n) rule.n) seen) t.bound
              (subst
                (λ b.
                  pending_of k
                    (if b then s else record {
                      actions = m';
                      pending = if passes answer then k ∷ s.pending else s.pending;
                    }).pending
                  ≤ most)
                named few);
      })

  settled-times :
      (key : String) (at : ℤ) (m : Actions)
      → let m' = (settle (engine at) (λ m. (ok at, m)) background key none m).1 in
        (times_of key m' ≡ times_of key m ++ at ∷ [])
        × ((k : String) → text_eq key k ≡ false → times_of k m' ≡ times_of k m)
  unfolding memory_record
  settled-times key at m =
      let new = times_of key m ++ at ∷ [] in
      (
        ap (times_of key) (settled-eq key at m) ∙ times_of-insert_self key new m,
        λ k other. ap (times_of k) (settled-eq key at m) ∙ times_of-insert_ne k key new m other,
      )

  recorded-Tracks :
      (k : String) (most : ℕ) (at : ℤ) (s : State) (hist : List ℤ)
      → Tracks k most at s hist
      → Tracks k most at (step (records k at) s) (hist ++ new_times k (records k at) s)
  unfolding step
  recorded-Tracks k most at s hist t =
      elim (Bool-cases (leb_ℤ (pos 1) (pos (pending_of k s.pending)))) [
        | inl waits ↦
            let cutoff = at -ℤ rule.window in
            let same = (eq_iff k k).1 refl in
            let stored = (settled-times k at s.actions).0 in
            let left : pending_of k s.pending ≡ 1 + pending_of k (without k s.pending) =
              pending_of-without k k s.pending waits
              ∙ ap (λ b. (if b then 1 else 0) + pending_of k (without k s.pending)) same in
            let one = count_after-new cutoff at in
            let grown = count_after-append cutoff hist (at ∷ []) in
            rw waits (
              rw same (record {
                agree = λ c h. rw (
                  stored,
                  count_after-append c (times_of k s.actions) (at ∷ []),
                  count_after-append c hist (at ∷ []),
                  t.agree c h,
                );
                bound = omega (arith, t.bound, left, one.0, grown);
              }))
        | inr idle ↦ rw idle (rw ((eq_iff k k).1 refl) (rw (append-nil hist) t))
      ]

  other-Tracks :
      (k : String) (most : ℕ) (e : Event) (s : State) (hist : List ℤ)
      → IsProper
      → text_eq (key_of e) k ≡ false
      → Tracks k most (time_of e) s hist
      → Tracks k most (time_of e) (step e s) (hist ++ new_times k e s)
  unfolding step pending_of
  other-Tracks k most (asks key at) s hist p other t =
      let (answer, m') =
        run_rules (memory_store at) background key (rate_rule f rule ∷ []) s.actions in
      let (judged, trimmed) = asked-eq key at s.actions p in
      let kept = (memory_count-counts key k at rule.window s.actions).2 other in
      let pending : pending_of k (if passes answer then key ∷ s.pending else s.pending)
          ≡ pending_of k s.pending =
        ground (arith, other) in
      rw (append-nil hist) (elim (Bool-cases (text_eq key "")) [
        | inl empty ↦ rw empty t
        | inr named ↦ rw named (
            same-Tracks k most at s
              (record {
                actions = m';
                pending = if passes answer then key ∷ s.pending else s.pending;
              })
              hist (ap (times_of k) trimmed ∙ kept) pending t)
      ])
  other-Tracks k most (records key at) s hist p other t =
      let m' = (settle (engine at) (λ m. (ok at, m)) background key none s.actions).1 in
      rw other (
        rw (append-nil hist) (elim (Bool-cases (leb_ℤ (pos 1) (pos (pending_of key s.pending)))) [
          | inl waits ↦
              let raw : pending_of k s.pending ≡ 0 + pending_of k (without key s.pending) =
                pending_of-without k key s.pending waits
                ∙ ap (λ b. (if b then 1 else 0) + pending_of k (without key s.pending)) other in
              let left : pending_of k (without key s.pending) ≡ pending_of k s.pending =
                omega (arith, raw) in
              rw waits (
                same-Tracks k most at s (record { actions = m'; pending = without key s.pending })
                  hist ((settled-times key at s.actions).1 k other) left t)
          | inr idle ↦ rw idle t
        ]))

  step-Tracks :
      (k : String) (most : ℕ) (e : Event) (s : State) (hist : List ℤ)
      → IsProper
      → k ≢ ""
      → pending_of k (step e s).pending ≤ most
      → Tracks k most (time_of e) s hist
      → Tracks k most (time_of e) (step e s) (hist ++ new_times k e s)
  step-Tracks k most (asks key at) s hist p named few t = elim (Bool-cases (text_eq key k)) [
    | inl same ↦
        let here : k ≡ key = sym ((eq_iff key k).0 same) in
        rw (append-nil hist) (
          subst (λ j. Tracks k most at (step (asks j at) s) hist) here
            (asked-Tracks k most at s hist p (ground (arith, eq_iff k "", named))
              (subst (λ j. pending_of k (step (asks j at) s).pending ≤ most) (sym here) few) t))
    | inr other ↦ other-Tracks k most (asks key at) s hist p other t
  ]
  step-Tracks k most (records key at) s hist p named few t = elim (Bool-cases (text_eq key k)) [
    | inl same ↦
        subst (λ j. Tracks k most at (step (records j at) s) (hist ++ new_times k (records j at) s))
          (sym ((eq_iff key k).0 same)) (recorded-Tracks k most at s hist t)
    | inr other ↦ other-Tracks k most (records key at) s hist p other t
  ]

  allowed_times-Tracks :
      (k : String) (most : ℕ) (es : List Event) (now end : ℤ) (s : State) (hist : List ℤ)
      → IsProper
      → k ≢ ""
      → InOrder now es end
      → Overlap k most es s
      → Tracks k most now s hist
      → pos (suc (count_after (end -ℤ rule.window) (hist ++ allowed_times k es s)))
        ≤ℤ rule.n +ℤ pos most
  unfolding allowed_times
  allowed_times-Tracks k most [] now end s hist p n o few t =
      rw (append-nil hist) (omega (arith, (later-Tracks k most now end s hist o t).bound))
  allowed_times-Tracks k most (e ∷ es) now end s hist p n o few t =
      let t' =
        step-Tracks k most e s hist p n few.0 (later-Tracks k most now (time_of e) s hist o.0 t) in
      rw (← append_assoc hist (new_times k e s) (allowed_times k es (step e s))) (
        allowed_times-Tracks k most es (time_of e) end (step e s) (hist ++ new_times k e s) p n o.1
          few.1 t')

  -- With one RateOverWindow rule whose N and Window are positive over the in-memory store, empty
  -- at first, when the checks of any callers overlap in any way (each asks its rules and, if it
  -- passes, records later, and every other check may come in between) on a clock that does not go
  -- back: if no more than a given number of checks of a key are ever between the two at once,
  -- fewer actions than N and this number together have been allowed to the key, which is not
  -- empty, in the window that ends at any time from the last step on. For checks of the key that
  -- do not overlap the number is 1 and the bound is N.
  pub allowed-le :
      (k : String) (most : ℕ) (es : List Event) (now end : ℤ)
      → IsProper
      → k ≢ ""
      → InOrder now es end
      → Overlap k most es (record { actions = []; pending = [] })
      → pos (
          suc (
            count_after
              (end -ℤ rule.window)
              (allowed_times k es (record { actions = []; pending = [] }))))
        ≤ℤ rule.n +ℤ pos most
  unfolding times_of count_after lookup pending_of
  allowed-le k most es now end p n o few =
      allowed_times-Tracks k most es now end (record { actions = []; pending = [] }) [] p n o few
        (record { agree = λ c h. refl; bound = omega (int_laws, p.0) })
