-- ===== src/Examples/Scores.antt =====
-- The theorem on the Redis counter at a concrete increment, over a server that holds, for each key, the
-- scores of its members and the time at which it is removed.
use floodguard_rate_limiter.Prelude.{
  zero, suc, ap, sym, subst, ◌∙◌, String, Bool, true, false, Option, none, some, List, [], ◌∷◌, ◌≡◌,
  refl, arith, text_eq, eq_iff, if◌then◌else◌, ◌⊎◌, ◌↔◌, ◌&&◌, inl, inr, Bool-cases,
}
use floodguard_rate_limiter.Prelude.Int.{ℤ, pos, negsuc, ◌+ℤ◌, ◌≤ℤ◌, ◌<ℤ◌, ltb_ℤ, leb_ℤ, +ℤ_parts}
use floodguard_rate_limiter.Prelude.Dict.{Dict, lookup, insert, lookup-insert}
use floodguard_rate_limiter.Errors.{ok}
use floodguard_rate_limiter.Redis.{delivered}
use floodguard_rate_limiter.Anomaly.Redis.{
  Scores, ScoreLaws, IsIn, score_of, redis_increment, redis_count_in_window, redis_count_misses,
}

-- The scores that a time shows.
abbrev live : ℤ → Dict ℤ × Option ℤ → Dict ℤ
live t (members, none) = members
live t (members, some d) = if leb_ℤ d t then [] else members

abbrev live_deadline : ℤ → Dict ℤ × Option ℤ → Option ℤ
live_deadline t (members, none) = none
live_deadline t (members, some d) = if leb_ℤ d t then none else some d

-- Whether a score is in a range.
abbrev is_within : ℤ → ℤ → Option ℤ → Bool
is_within least greatest none = false
is_within least greatest (some n) = leb_ℤ least n && leb_ℤ n greatest

-- The members of a part of a set whose scores in the set are in a range.
abbrev within : ℤ → ℤ → Dict ℤ → Dict ℤ → List String
within least greatest all [] = []
within least greatest all (entry ∷ rest) =
    let found = within least greatest all rest in
    if is_within least greatest (lookup entry.0 all) then entry.0 ∷ found else found

abbrev Sets : Type 0
Sets = String → Dict ℤ × Option ℤ

abbrev score_server : Scores
score_server = record {
  Server = Sets;
  zincrby = λ now key delta member s other.
      if text_eq key other
      then (
        insert member (score_of (lookup member (live now (s key))) +ℤ delta) (live now (s key)),
        live_deadline now (s key),
      )
      else s other;
  expire = λ now key ttl s other.
      if text_eq key other
      then (if ltb_ℤ (pos 0) ttl then (live now (s key), some (now +ℤ ttl)) else ([], none))
      else s other;
  zrangebyscore =
      λ now key least greatest s. within least greatest (live now (s key)) (live now (s key));
  zscore = λ now key member s. lookup member (live now (s key));
}

IsIn-if :
    (b : Bool) (m x : String) (l : List String)
    → IsIn m (if b then x ∷ l else l) ↔ (((b ≡ true) × (m ≡ x)) ⊎ IsIn m l)
IsIn-if true m x l = (
  λ h. elim h [ inl e ↦ inl (refl, e) | inr k ↦ inr k ],
  λ h. elim h [ inl e ↦ inl (e.1) | inr k ↦ inr k ],
)
IsIn-if false m x l = (λ h. inr h, λ h. elim h [ inl e ↦ cc (e.0) | inr k ↦ k ])

within-found :
    (m : String) (least greatest : ℤ) (all part : Dict ℤ)
    → IsIn m (within least greatest all part)
    → is_within least greatest (lookup m all) ≡ true
within-found m least greatest all [] h = absurd h
within-found m least greatest all ((x, n) ∷ rest) h =
    let b = is_within least greatest (lookup x all) in
    elim ((IsIn-if b m x (within least greatest all rest)).0 h) [
      | inl (held, same) ↦
          subst (λ (y : String). is_within least greatest (lookup y all) ≡ true) (sym same) held
      | inr later ↦ within-found m least greatest all rest later
    ]

found-within :
    (m : String) (least greatest : ℤ) (all part : Dict ℤ) (n : ℤ)
    → is_within least greatest (lookup m all) ≡ true
    → lookup m part ≡ some n
    → IsIn m (within least greatest all part)
unfolding lookup
found-within m least greatest all [] n h e = cc
found-within m least greatest all ((x, k) ∷ rest) n h e =
    let b = is_within least greatest (lookup x all) in
    let back = (IsIn-if b m x (within least greatest all rest)).1 in
    elim (Bool-cases (text_eq x m)) [
      | inl same ↦
          let at : x ≡ m = (eq_iff x m).0 same in
          back (inl (ap (λ y. is_within least greatest (lookup y all)) at ∙ h, sym at))
      | inr other ↦
          back (inr (found-within m least greatest all rest n h (ground (arith, e, other))))
    ]

is_within_iff :
    (least greatest : ℤ) (o : Option ℤ)
    → (is_within least greatest o ≡ true)
      ↔ ((n : ℤ) × (o ≡ some n) × (least ≤ℤ n) × (n ≤ℤ greatest))
is_within_iff least greatest none = (λ h. cc, λ h. cc (h.1))
is_within_iff least greatest (some n) =
    (λ h. (n, refl, ground arith, ground arith), λ (k, e, low, high). ground (arith, e, low, high))

lookup_nil : (m : String) → lookup {V = ℤ} m [] ≡ none
unfolding lookup
lookup_nil m = refl

live_later :
    (now t : ℤ) (z : Dict ℤ × Option ℤ) → now ≤ℤ t → (live t z ≡ live now z) ⊎ (live t z ≡ [])
live_later now t (members, none) l = inl refl
live_later now t (members, some d) l = elim (Bool-cases (leb_ℤ d t)) [
  | inl b ↦ inr (rw b refl)
  | inr b ↦ let still : leb_ℤ d now ≡ false = ground (arith, b) in inl (rw b (rw still refl))
]

live-kept :
    (now : ℤ) (members : Dict ℤ) (z : Dict ℤ × Option ℤ)
    → live now (members, live_deadline now z) ≡ members
live-kept now members (old, none) = refl
live-kept now members (old, some d) = elim (Bool-cases (leb_ℤ d now)) [
  | inl b ↦ rw b refl
  | inr b ↦ rw b (rw b refl)
]

live-expiring :
    (now ttl : ℤ) (members : Dict ℤ)
    → pos 0 <ℤ ttl
    → live now (members, some (now +ℤ ttl)) ≡ members
live-expiring now ttl members p =
    let still : leb_ℤ (now +ℤ ttl) now ≡ false = ground (arith, +ℤ_parts now ttl) in rw still refl

score_laws : ScoreLaws score_server
score_laws = record {
  view = λ now key s m. lookup m (live now (s key));
  view_later = λ now t key s l. elim (live_later now t (s key) l) [
    | inl e ↦ inl (λ m. ap (lookup m) e)
    | inr e ↦ inr (λ m. rw e (lookup_nil m))
  ];
  view-zincrby = λ now key member other delta s.
      let all = live now (s key) in
      let new = insert member (score_of (lookup member all) +ℤ delta) all in
      rw ((eq_iff key key).1 refl) (
        rw (live-kept now new (s key))
          (lookup-insert member other (score_of (lookup member all) +ℤ delta) all));
  view-expire = λ now key member ttl s p.
      let positive : ltb_ℤ (pos 0) ttl ≡ true = ground arith in
      rw ((eq_iff key key).1 refl)
        (rw positive (ap (lookup member) (live-expiring now ttl (live now (s key)) p)));
  zrangebyscore_lem = λ now key m least greatest s.
      let all = live now (s key) in
      (
        λ h.
            (is_within_iff least greatest (lookup m all)).0
              (within-found m least greatest all all h),
        λ h.
            found-within m least greatest all all h.0
              ((is_within_iff least greatest (lookup m all)).1 h) h.1,
      );
  zscore_lem = λ now key member s. refl;
}

-- A number's text, for few numbers.
abbrev minute_name : ℤ → String
minute_name (pos zero) = "0"
minute_name (pos (suc n)) = "1"
minute_name (negsuc n) = "-1"

abbrev no_sets : Sets
no_sets key = ([], none)

redis_count_misses_example :
    (redis_count_in_window score_server minute_name "anomaly"
      (pos 620)
      "m"
      (pos 600000000000)
      (pos 660000000000)
      (redis_increment score_server minute_name "anomaly"
        (pos 600)
        delivered
        "m"
        (pos 600000000000)
        (pos 1)
        no_sets).1).0
    ≡ ok (pos 0)
unfolding score_laws lookup
redis_count_misses_example =
    redis_count_misses score_server minute_name "anomaly" score_laws (pos 600) (pos 620) "m"
      (pos 600000000000) (pos 600000000000) (pos 660000000000) (pos 1) no_sets (omega arith)
      (λ m. refl) (omega arith)
