-- ===== src/RateLimit/WindowScript.antt =====
-- The script of ratelimit/redis_sliding_window.go on the sorted set of its key.
use floodguard_rate_limiter.Prelude.{
  suc, String, Bool, none, some, [], ◌∷◌, ◌≡◌, refl, ◌≢◌, arith, eq_iff, if◌then◌else◌, length,
}
use floodguard_rate_limiter.Prelude.Int.{ℤ, pos, ◌+ℤ◌, ◌≤ℤ◌, ◌<ℤ◌, ltb_ℤ}
use floodguard_rate_limiter.Prelude.Dict.{Dict, lookup, insert, erase}
use floodguard_rate_limiter.Redis.Sorted.{
  SortedSet, scores, above, Sorted, remove_range, SortedLaws, kept_deadline,
}
use floodguard_rate_limiter.RateLimit.RedisWindow.{window_script}

abbrev pub IsNonneg : Dict ℤ → Type 0
IsNonneg [] = Unit {0}
IsNonneg (entry ∷ rest) = (pos 0 ≤ℤ entry.1) × IsNonneg rest

pub above-remove_range :
    (c start : ℤ) (m : Dict ℤ)
    → start ≤ℤ c
    → above c (scores (remove_range (pos 0) start m)) ≡ above c (scores m)
unfolding above remove_range
above-remove_range c start [] l = refl
above-remove_range c start (entry ∷ rest) l = ground (arith, above-remove_range c start rest l)

pub length-remove_range :
    (start : ℤ) (m : Dict ℤ)
    → IsNonneg m
    → length (remove_range (pos 0) start m) ≡ above start (scores m)
unfolding above remove_range
length-remove_range start [] n = refl
length-remove_range start (entry ∷ rest) n = ground (arith, length-remove_range start rest n.1)

pub lookup-remove_range :
    (key : String) (start : ℤ) (m : Dict ℤ)
    → lookup key m ≡ none
    → lookup key (remove_range (pos 0) start m) ≡ none
unfolding lookup remove_range
lookup-remove_range key start [] h = refl
lookup-remove_range key start (entry ∷ rest) h = ground (arith, lookup-remove_range key start rest)

pub remove_range-IsNonneg :
    (start : ℤ) (m : Dict ℤ) → IsNonneg m → IsNonneg (remove_range (pos 0) start m)
unfolding remove_range
remove_range-IsNonneg start [] n = tt
remove_range-IsNonneg start (entry ∷ rest) n = ground (arith, remove_range-IsNonneg start rest n.1)

pub erase_fresh : (key : String) (m : Dict ℤ) → lookup key m ≡ none → erase key m ≡ m
unfolding lookup erase
erase_fresh key [] h = refl
erase_fresh key (entry ∷ rest) h = ground (arith, erase_fresh key rest)

pub erase-insert_fresh :
    (key : String) (v : ℤ) (m : Dict ℤ) → lookup key m ≡ none → erase key (insert key v m) ≡ m
unfolding insert erase
erase-insert_fresh key v m h = ground (arith, erase_fresh key m h, eq_iff key key)

-- What the script makes of a set.
abbrev pub is_over : ℤ → Dict ℤ → Bool
is_over limit left = ltb_ℤ limit (pos (suc (length left)))

abbrev pub script_set : ℤ → ℤ → ℤ → ℤ → String → ℤ → SortedSet → SortedSet
script_set at now start limit member ttl z =
    let left = remove_range (pos 0) start z.members in
    if is_over limit left
    then record { members = left; deadline = kept_deadline left (kept_deadline left z.deadline) }
    else record { members = insert member now left; deadline = some (at +ℤ ttl) }

module _ (R : Sorted) (L : SortedLaws R) where
  pub script-view :
      (at now start limit ttl : ℤ) (key member : String) (s : R.Server)
      → pos 0 <ℤ ttl
      → lookup member (L.view at key s).members ≡ none
      → let (answer, s') = window_script R at key now start limit member ttl s in
        let over = is_over limit (remove_range (pos 0) start (L.view at key s).members) in
        (answer ≡ (if over then pos 0 else pos 1))
        × (L.view at key s' ≡ script_set at now start limit member ttl (L.view at key s))
  unfolding window_script insert
  script-view at now start limit ttl key member s p h =
      let z = L.view at key s in
      let left = remove_range (pos 0) start z.members in
      let s1 = R.zremrangebyscore at key (pos 0) start s in
      let s2 = R.zadd at key now member s1 in
      let h' = lookup-remove_range member start z.members h in
      ground (
        arith,
        L.view-zremrangebyscore at key (pos 0) start s,
        L.view-zadd at key now member s1,
        L.zcard_lem at key s2,
        L.view-zrem at key member s2,
        L.view-pexpire at key ttl s2 p,
        erase-insert_fresh member now left h',
        erase_fresh member left h',
      )

  pub script_other :
      (at now start limit ttl : ℤ) (key other member : String) (s : R.Server)
      → key ≢ other
      → L.view at other (window_script R at key now start limit member ttl s).1 ≡ L.view at other s
  unfolding window_script
  script_other at now start limit ttl key other member s n =
      let s1 = R.zremrangebyscore at key (pos 0) start s in
      let s2 = R.zadd at key now member s1 in
      ground (
        arith,
        L.other_zremrangebyscore at key other (pos 0) start s n,
        L.other_zadd at key other now member s1 n,
        L.other_zrem at key other member s2 n,
        L.other_pexpire at key other ttl s2 n,
      )
