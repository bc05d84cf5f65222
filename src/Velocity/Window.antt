-- ===== src/Velocity/Window.antt =====
-- The in-memory action store of velocity/memory.go: what a count sees, and what trimming forgets.
use floodguard_rate_limiter.Prelude.{
  ℕ, ◌+◌, ◌≤◌, sym, ◌∙◌, String, false, List, [], ◌∷◌, ◌++◌, ◌≡◌, refl, arith, text_eq,
  if◌then◌else◌, length,
}
use floodguard_rate_limiter.Prelude.Int.{ℤ, pos, ◌-ℤ◌, ◌≤ℤ◌, ltb_ℤ, -ℤ_parts}
use floodguard_rate_limiter.Prelude.Dict.{insert, lookup-insert, lookup-insert_self}
use floodguard_rate_limiter.Errors.{ok}
use floodguard_rate_limiter.Velocity.{Actions, times_of, keep_after, memory_count}

-- The number of times after a cutoff, on its own.
unfoldable pub count_after : ℤ → List ℤ → ℕ
count_after cutoff [] = 0
count_after cutoff (t ∷ ts) = (if ltb_ℤ cutoff t then 1 else 0) + count_after cutoff ts

pub length-keep_after : (c : ℤ) (ts : List ℤ) → length (keep_after c ts) ≡ count_after c ts
unfolding keep_after count_after
length-keep_after c [] = refl
length-keep_after c (t ∷ ts) = ground (arith, length-keep_after c ts)

-- Trimming by an earlier cutoff first changes nothing.
pub count_after-keep_after_le :
    (c d : ℤ) (ts : List ℤ) → c ≤ℤ d → count_after d (keep_after c ts) ≡ count_after d ts
unfolding keep_after count_after
count_after-keep_after_le c d [] h = refl
count_after-keep_after_le c d (t ∷ ts) h = ground (arith, count_after-keep_after_le c d ts h)

-- Trimming by a later cutoff first leaves only what lies after that one.
pub count_after-keep_after_ge :
    (c d : ℤ) (ts : List ℤ) → d ≤ℤ c → count_after d (keep_after c ts) ≡ count_after c ts
unfolding keep_after count_after
count_after-keep_after_ge c d [] h = refl
count_after-keep_after_ge c d (t ∷ ts) h = ground (arith, count_after-keep_after_ge c d ts h)

pub count_after-append :
    (c : ℤ) (ts us : List ℤ) → count_after c (ts ++ us) ≡ count_after c ts + count_after c us
unfolding count_after
count_after-append c [] us = omega arith
count_after-append c (t ∷ ts) us = omega (arith, count_after-append c ts us)

pub count_after-antitone : (c d : ℤ) (ts : List ℤ) → c ≤ℤ d → count_after d ts ≤ count_after c ts
unfolding count_after
count_after-antitone c d [] h = omega arith
count_after-antitone c d (t ∷ ts) h = ground (arith, count_after-antitone c d ts h)

pub times_of-insert_self :
    (k : String) (ts : List ℤ) (m : Actions) → times_of k (insert k ts m) ≡ ts
unfolding times_of
times_of-insert_self k ts m = ground (arith, lookup-insert_self k ts m)

pub times_of-insert_ne :
    (k key : String) (ts : List ℤ) (m : Actions)
    → text_eq key k ≡ false
    → times_of k (insert key ts m) ≡ times_of k m
unfolding times_of
times_of-insert_ne k key ts m h = ground (arith, lookup-insert key k ts m)

-- A count answers with the number of recorded actions of the key in the window, and trims that key's
-- times to those; the times of other keys stay.
pub memory_count-counts :
    (k j : String) (now window : ℤ) (m : Actions)
    → let (r, m') = memory_count now k window m in
      (r ≡ ok (pos (count_after (now -ℤ window) (times_of k m))))
      × (times_of k m' ≡ keep_after (now -ℤ window) (times_of k m))
      × (text_eq k j ≡ false → times_of j m' ≡ times_of j m)
unfolding memory_count
memory_count-counts k j now window m =
    let kept = keep_after (now -ℤ window) (times_of k m) in
    (
      rw (length-keep_after (now -ℤ window) (times_of k m)),
      times_of-insert_self k kept m,
      λ h. times_of-insert_ne j k kept m h,
    )

-- In the in-memory velocity store, a count of a key over one window, followed at the same time by
-- a count over a window at least as long, answers the same number both times, whatever the store
-- held.
pub count_forgets :
    (k : String) (now short long : ℤ) (m : Actions)
    → short ≤ℤ long
    → (memory_count now k long (memory_count now k short m).1).0 ≡ (memory_count now k short m).0
count_forgets k now short long m h =
    let c = now -ℤ short in
    let d = now -ℤ long in
    let m' = (memory_count now k short m).1 in
    (memory_count-counts k k now long m').0
    ∙ rw ((memory_count-counts k k now short m).1) (
        rw
          (count_after-keep_after_ge c d (times_of k m)
            (omega (arith, -ℤ_parts now short, -ℤ_parts now long)))
          (sym (memory_count-counts k k now short m).0))

pub count_after-new : (c t : ℤ) → (count_after c (t ∷ []) ≤ 1) × (count_after c [] ≡ 0)
unfolding count_after
count_after-new c t = ground arith
