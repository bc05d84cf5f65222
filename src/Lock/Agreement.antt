-- ===== src/Lock/Agreement.antt =====
-- The Redis lock client of lock/redis.go against the in-process one of lock/memory.go.
use floodguard_rate_limiter.Prelude.{
  ap, String, str_append, Option, none, some, List, [], ◌∷◌, ◌≡◌, refl, arith, text_eq, eq_iff,
  if◌then◌else◌,
}
use floodguard_rate_limiter.Prelude.Int.{ℤ, pos, ◌+ℤ◌, ◌≤ℤ◌, ◌<ℤ◌, ltb_ℤ}
use floodguard_rate_limiter.Prelude.Dict.{lookup, erase, lookup-insert, lookup-erase}
use text.Mathlib.TextLemmas.{append_cancel_left}
use floodguard_rate_limiter.Redis.{delivered, Strings, StringLaws, IsFresh}
use floodguard_rate_limiter.Errors.{Result, ok, err}
use floodguard_rate_limiter.Lock.{Locks, LockEntry, MemoryLock, memory_acquire, memory_release}
use floodguard_rate_limiter.Lock.Redis.{
  RedisLock, redis_key, redis_acquire, release_script, redis_release,
}

-- A call of a client: an attempt with the token that it would get, or a release.
pub data Call : Type 0 where
  acquires : String → String → ℤ → Call
  releases : String → String → Call

-- The calls are made in the order of time, and each ttl is positive.
abbrev pub InOrder : ℤ → List (ℤ × Call) → Type 0
InOrder now [] = Unit {0}
InOrder now ((at, acquires key token ttl) ∷ cs) = (now ≤ℤ at) × (pos 0 <ℤ ttl) × InOrder at cs
InOrder now ((at, releases key token) ∷ cs) = (now ≤ℤ at) × InOrder at cs

-- The answer of a call: the token of the lock that was granted, or an error.
abbrev granted : Result MemoryLock → Result String
granted (ok l) = ok l.token
granted (err e) = err e

abbrev granted_redis : Result RedisLock → Result String
granted_redis (ok l) = ok l.token
granted_redis (err e) = err e

abbrev done : Result (Unit {0}) → Result String
done (ok u) = ok ""
done (err e) = err e

pub memory_step : ℤ → Call → Locks → Result String × Locks
memory_step at (acquires key token ttl) m =
    let (r, m') = memory_acquire at (ok token) key ttl m in (granted r, m')
memory_step at (releases key token) m =
    let (r, m') = memory_release (record { key = key; token = token }) m in (done r, m')

pub memory_answers : List (ℤ × Call) → Locks → List (Result String)
memory_answers [] m = []
memory_answers ((at, c) ∷ cs) m = let (r, m') = memory_step at c m in r ∷ memory_answers cs m'

module _ (R : Strings) (prefix : String) where
  pub redis_step : ℤ → Call → R.Server → Result String × R.Server
  redis_step at (acquires key token ttl) s =
      let (r, s') = redis_acquire R prefix at delivered (ok token) key ttl s in
      (granted_redis r, s')
  redis_step at (releases key token) s =
      let l : RedisLock = record { key = redis_key R prefix key; token = token } in
      let (r, s') = redis_release R prefix at delivered l s in (done r, s')

  pub redis_answers : List (ℤ × Call) → R.Server → List (Result String)
  redis_answers [] s = []
  redis_answers ((at, c) ∷ cs) s = let (r, s') = redis_step at c s in r ∷ redis_answers cs s'

  redis_key-inj :
      (j k : String) → text_eq (redis_key R prefix j) (redis_key R prefix k) ≡ text_eq j k
  unfolding redis_key
  redis_key-inj j k =
      let same : str_append prefix (str_append ":" j) ≡ str_append prefix (str_append ":" k)
          → j ≡ k =
        λ e.
          append_cancel_left ":" j k
            (append_cancel_left prefix (str_append ":" j) (str_append ":" k) e) in
      ground (
        arith,
        eq_iff j k,
        eq_iff (str_append prefix (str_append ":" j)) (str_append prefix (str_append ":" k)),
        same,
        (λ (e : j ≡ k). ap (λ x. str_append prefix (str_append ":" x)) e),
      )

  -- What the server shows of an entry at a time.
  abbrev shown : ℤ → Option LockEntry → Option String
  shown t none = none
  shown t (some e) = if ltb_ℤ t e.expires_at then some e.token else none

  -- From now on the server shows each key as the map does.
  abbrev Agrees : ℤ → R.Server → Locks → Type 0
  Agrees now s m =
      (t : ℤ) (key : String)
      → now ≤ℤ t
      → R.get t (redis_key R prefix key) s ≡ shown t (lookup key m)

  module _ (L : StringLaws R) where
    step-Agrees :
        (now at : ℤ) (c : Call) (s : R.Server) (m : Locks)
        → InOrder now ((at, c) ∷ [])
        → Agrees now s m
        → ((redis_step at c s).0 ≡ (memory_step at c m).0)
          × Agrees at (redis_step at c s).1 (memory_step at c m).1
    unfolding redis_step memory_step redis_acquire redis_release release_script memory_acquire
        memory_release
    step-Agrees now at (acquires key token ttl) s m o a = (
      ground (arith, a at key, L.set_nx_lem at ttl (redis_key R prefix key) token s o.1),
      λ t j l. ground (
        arith,
        a at key,
        a t j,
        redis_key-inj key j,
        eq_iff key j,
        L.set_nx_lem at ttl (redis_key R prefix key) token s o.1,
        L.get-set at t ttl (redis_key R prefix key) (redis_key R prefix j) token s l o.1,
        lookup-insert key j (record { token = token; expires_at = at +ℤ ttl }) (erase key m),
        lookup-erase key j m,
      ),
    )
    step-Agrees now at (releases key token) s m o a = (
      ground (arith, a at key),
      λ t j l. ground (
        arith,
        a at key,
        a t key,
        a t j,
        redis_key-inj key j,
        eq_iff key j,
        L.get-del at t (redis_key R prefix key) (redis_key R prefix j) s l,
        lookup-erase key j m,
      ),
    )

    head_InOrder :
        (now at : ℤ) (c : Call) (cs : List (ℤ × Call))
        → InOrder now ((at, c) ∷ cs)
        → InOrder now ((at, c) ∷ []) × InOrder at cs
    head_InOrder now at (acquires key token ttl) cs o = ((o.0, o.1, tt), o.2)
    head_InOrder now at (releases key token) cs o = ((o.0, tt), o.1)

    answers-Agrees :
        (now : ℤ) (cs : List (ℤ × Call)) (s : R.Server) (m : Locks)
        → InOrder now cs
        → Agrees now s m
        → redis_answers cs s ≡ memory_answers cs m
    unfolding redis_answers memory_answers
    answers-Agrees now [] s m o a = refl
    answers-Agrees now ((at, c) ∷ cs) s m o a =
        let (first, rest) = head_InOrder now at c cs o in
        let (same, a') = step-Agrees now at c s m first a in
        cc (same, answers-Agrees at cs (redis_step at c s).1 (memory_step at c m).1 rest a')

    -- Over a server that keeps to the documented laws of strings and holds none at first, any
    -- delivered calls of the Redis lock client, attempts with a positive ttl and releases, in the
    -- order of time and with times and ttls in whole milliseconds, get the same answers as from
    -- the in-process client, starting empty.
    pub redis_answers-eq_memory :
        (now : ℤ) (cs : List (ℤ × Call)) (s : R.Server)
        → IsFresh R s
        → InOrder now cs
        → redis_answers cs s ≡ memory_answers cs []
    unfolding lookup
    redis_answers-eq_memory now cs s f o =
        answers-Agrees now cs s [] o (λ t key l. f t (redis_key R prefix key))
