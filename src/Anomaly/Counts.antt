-- ===== src/Anomaly/Counts.antt =====
-- What an increment of the in-memory counter of anomaly/memory.go does to the counts of windows.
use Prim.Native.Nat.{◌*◌, ◌/◌}
use floodguard_rate_limiter.Prelude.{
  ℕ, zero, suc, ◌+◌, ◌<◌, ap, sym, subst, ◌∙◌, String, str_append, Bool, true, false, Option, some,
  ◌≡◌, refl, arith, text_eq, eq_iff, if◌then◌else◌, Bool-cases, inl, inr, ◌&&◌, ltb, leb, ◌==◌,
}
use floodguard_rate_limiter.Prelude.Int.{ℤ, pos, ◌+ℤ◌, ◌-ℤ◌, ltb_ℤ, leb_ℤ, int_laws, eq_of_parts}
use floodguard_rate_limiter.Prelude.Dict.{lookup-insert, lookup-insert_self}
use floodguard_rate_limiter.Prelude.Int.{wrap64}
use text.Mathlib.TextLemmas.{append_cancel_left}
use floodguard_rate_limiter.Anomaly.{
  Buckets, minute, truncate_minute, minute_number, minute_key, count_at, memory_increment,
  memory_count_in_window,
}
use floodguard_rate_limiter.Anomaly.Loop.{total_of, minutes_until, count_in_window-terminates}

wrap64-wrap64 : (a b : ℤ) → wrap64 (wrap64 a +ℤ b) ≡ wrap64 (a +ℤ b)
unfolding wrap64 ◌+ℤ◌
wrap64-wrap64 a b = ground arith

-- The sum in `int64` in another order.
wrap64_comm : (a b c : ℤ) → wrap64 (wrap64 (a +ℤ b) +ℤ c) ≡ wrap64 (wrap64 (a +ℤ c) +ℤ b)
wrap64_comm a b c =
    let swap : (a +ℤ b) +ℤ c ≡ (a +ℤ c) +ℤ b =
      eq_of_parts ((a +ℤ b) +ℤ c) ((a +ℤ c) +ℤ b) (omega int_laws) in
    wrap64-wrap64 (a +ℤ b) c ∙ ap wrap64 swap ∙ sym (wrap64-wrap64 (a +ℤ c) b)

wrap64_inner : (a b c : ℤ) → wrap64 (a +ℤ wrap64 (b +ℤ c)) ≡ wrap64 (wrap64 (a +ℤ b) +ℤ c)
wrap64_inner a b c =
    let turned : a +ℤ wrap64 (b +ℤ c) ≡ wrap64 (b +ℤ c) +ℤ a =
      eq_of_parts (a +ℤ wrap64 (b +ℤ c)) (wrap64 (b +ℤ c) +ℤ a) (omega int_laws) in
    let swap : (b +ℤ c) +ℤ a ≡ (a +ℤ b) +ℤ c =
      eq_of_parts ((b +ℤ c) +ℤ a) ((a +ℤ b) +ℤ c) (omega int_laws) in
    ap wrap64 turned ∙ wrap64-wrap64 (b +ℤ c) a ∙ ap wrap64 swap ∙ sym (wrap64-wrap64 (a +ℤ b) c)

-- The start of a minute from 1970 on, by its number.
abbrev pub start_of : ℕ → ℤ
start_of i = pos (i * 60000000000)

start_of-suc : (i : ℕ) → start_of i +ℤ minute ≡ start_of (suc i)
unfolding ◌+ℤ◌
start_of-suc i = ground arith

number-start_of : (i : ℕ) → minute_number (start_of i) ≡ pos i
number-start_of i = ground arith

truncate-start_of : (a : ℕ) → truncate_minute (pos a) ≡ start_of (a / 60000000000)
truncate-start_of a = ground arith

-- The minutes that a window counts.
in_window :
    (i j : ℕ) (to : ℤ)
    → (leb i j && ltb j (i + minutes_until (start_of i) to))
      ≡ (leb_ℤ (start_of i) (start_of j) && ltb_ℤ (start_of j) to)
unfolding ◌-ℤ◌
in_window i j to = ground arith

module _ (minute_text : ℤ → String) where
  -- A total that is begun higher ends higher.
  total_of_more :
      (n : ℕ) (metric : String) (t : ℤ) (m : Buckets) (total delta : ℤ)
      → total_of minute_text n metric t m (wrap64 (total +ℤ delta))
        ≡ wrap64 (total_of minute_text n metric t m total +ℤ delta)
  unfolding total_of
  total_of_more zero metric t m total delta = refl
  total_of_more (suc n) metric t m total delta =
      let c = count_at minute_text metric t m in
      ap (λ x. total_of minute_text n metric (t +ℤ minute) m x) (wrap64_comm total delta c)
      ∙ total_of_more n metric (t +ℤ minute) m (wrap64 (total +ℤ c)) delta

  minute_key-inj :
      (i j : ℕ) (metric : String)
      → ((a b : ℤ) → minute_text a ≡ minute_text b → a ≡ b)
      → minute_key minute_text metric (start_of i) ≡ minute_key minute_text metric (start_of j)
      → i ≡ j
  unfolding minute_key
  minute_key-inj i j metric inj e =
      let a = minute_number (start_of i) in
      let b = minute_number (start_of j) in
      let texts : minute_text a ≡ minute_text b =
        append_cancel_left ":" (minute_text a) (minute_text b) (
          append_cancel_left metric (str_append ":" (minute_text a))
            (str_append ":" (minute_text b)) e) in
      let numbers : pos i ≡ pos j = sym (number-start_of i) ∙ inj a b texts ∙ number-start_of j in
      ground (arith, numbers)

  count_at-increment :
      (i j : ℕ) (metric : String) (at delta : ℤ) (m : Buckets)
      → ((a b : ℤ) → minute_text a ≡ minute_text b → a ≡ b)
      → truncate_minute at ≡ start_of j
      → count_at minute_text metric (start_of i) (memory_increment minute_text metric at delta m).1
        ≡ (if i == j
            then wrap64 (count_at minute_text metric (start_of i) m +ℤ delta)
            else count_at minute_text metric (start_of i) m)
  unfolding count_at memory_increment minute_key
  count_at-increment i j metric at delta m inj h =
      let here = minute_key minute_text metric (start_of i) in
      let there = minute_key minute_text metric (start_of j) in
      let added = wrap64 (count_at minute_text metric (start_of j) m +ℤ delta) in
      let same : text_eq there here ≡ true → j ≡ i =
        λ e. minute_key-inj j i metric inj ((eq_iff there here).0 e) in
      rw h (elim (Bool-cases (text_eq there here)) [
        | inl e ↦ let k = same e in rw k (ground (arith, lookup-insert_self here added m))
        | inr b ↦
            let apart : (i == j) ≡ false = elim (Bool-cases (i == j)) [
              | inr d ↦ d
              | inl e ↦
                  let k : i ≡ j = ground (arith, e) in
                  let equal =
                    (eq_iff there here).1
                      (ap (λ x. minute_key minute_text metric (start_of x)) (sym k)) in
                  ground (arith, equal, b)
            ] in
            rw apart (ground (arith, lookup-insert there here added m, b))
      ])

  total_of-increment :
      (n i j : ℕ) (metric : String) (at delta total : ℤ) (m : Buckets)
      → ((a b : ℤ) → minute_text a ≡ minute_text b → a ≡ b)
      → truncate_minute at ≡ start_of j
      → let m' = (memory_increment minute_text metric at delta m).1 in
        total_of minute_text n metric (start_of i) m' total ≡ (
          if leb i j && ltb j (i + n)
          then wrap64 (total_of minute_text n metric (start_of i) m total +ℤ delta)
          else total_of minute_text n metric (start_of i) m total)
  unfolding total_of
  total_of-increment zero i j metric at delta total m inj h = ground arith
  total_of-increment (suc n) i j metric at delta total m inj h =
      let m' = (memory_increment minute_text metric at delta m).1 in
      let c = count_at minute_text metric (start_of i) m in
      let here = count_at-increment i j metric at delta m inj h in
      let next = total_of-increment n (suc i) j metric at delta (wrap64 (total +ℤ c)) m inj h in
      elim (Bool-cases (i == j)) [
        | inl e ↦
            let k : i ≡ j = ground (arith, e) in
            let inside : (leb i j && ltb j (i + suc n)) ≡ true = ground (arith, k) in
            let passed : (leb (suc i) j && ltb j (suc i + n)) ≡ false = ground (arith, k) in
            let acc = wrap64 (total +ℤ wrap64 (c +ℤ delta)) in
            let rest = total_of-increment n (suc i) j metric at delta acc m inj h in
            rw (here, e, start_of-suc i, inside, rest, passed)
              (ap (λ x. total_of minute_text n metric (start_of (suc i)) m x)
                  (wrap64_inner total c delta)
                ∙ total_of_more n metric (start_of (suc i)) m (wrap64 (total +ℤ c)) delta)
        | inr b ↦
            let alike : (leb (suc i) j && ltb j (suc i + n)) ≡ (leb i j && ltb j (i + suc n)) =
              ground (arith, b) in
            rw (here, b, start_of-suc i, next, alike) refl
      ]

  -- When the texts of minute numbers tell them apart, CountInWindow of the in-memory counter, for
  -- a start from 1970 on and on fuel above the number of the window's minutes, returns a count,
  -- and after an Increment of the same metric at a time from 1970 on it returns that count plus
  -- the delta, in int64, when the minute of the increment starts before the window's end and not
  -- before the minute of its start, and the same count otherwise.
  pub count_in_window-increment :
      (fuel a b : ℕ) (metric : String) (to delta : ℤ) (m : Buckets)
      → ((a b : ℤ) → minute_text a ≡ minute_text b → a ≡ b)
      → minutes_until (truncate_minute (pos a)) to < fuel
      → let from = truncate_minute (pos a) in
        let at = truncate_minute (pos b) in
        let m' = (memory_increment minute_text metric (pos b) delta m).1 in
        (v : ℤ) × (memory_count_in_window minute_text fuel metric (pos a) to m ≡ some v)
        × (memory_count_in_window minute_text fuel metric (pos a) to m'
            ≡ some (if leb_ℤ from at && ltb_ℤ at to then wrap64 (v +ℤ delta) else v))
  count_in_window-increment fuel a b metric to delta m inj l =
      let from = truncate_minute (pos a) in
      let n = minutes_until from to in
      let m' = (memory_increment minute_text metric (pos b) delta m).1 in
      let i = a / 60000000000 in
      let j = b / 60000000000 in
      let counted =
        total_of-increment (minutes_until (start_of i) to) i j metric (pos b) delta (pos 0) m inj
          (truncate-start_of b) in
      let goal = λ (x y : ℤ).
        ◌≡◌ {A = Option ℤ} (some (total_of minute_text (minutes_until x to) metric x m' (pos 0))) (
          some (
            if leb_ℤ x y && ltb_ℤ y to
            then wrap64 (total_of minute_text (minutes_until x to) metric x m (pos 0) +ℤ delta)
            else total_of minute_text (minutes_until x to) metric x m (pos 0))) in
      let whole : goal (start_of i) (start_of j) =
        ap (λ x. some x)
          (subst
            (λ (within : Bool).
              total_of minute_text (minutes_until (start_of i) to) metric (start_of i) m' (pos 0)
              ≡ (if within
                  then wrap64 (
                      total_of minute_text (minutes_until (start_of i) to) metric (start_of i) m
                        (pos 0)
                      +ℤ delta)
                  else total_of minute_text (minutes_until (start_of i) to) metric (start_of i) m
                      (pos 0)))
            (in_window i j to) counted) in
      let shown : goal from (truncate_minute (pos b)) =
        subst (λ (x : ℤ). goal x (truncate_minute (pos b))) (sym (truncate-start_of a))
          (subst (λ (y : ℤ). goal (start_of i) y) (sym (truncate-start_of b)) whole) in
      (
        total_of minute_text n metric from m (pos 0),
        count_in_window-terminates minute_text fuel metric (pos a) to m l,
        count_in_window-terminates minute_text fuel metric (pos a) to m' l ∙ shown,
      )
