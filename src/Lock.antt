-- ===== src/Lock.antt =====
-- lock/lock.go and lock/memory.go: the Lock and Client interfaces, the in-process client and the
-- Manager. Each call of the in-process client runs under its mutex, so it is one step.
pub mod Token
pub mod Exclusion
pub mod Granted
pub mod Holding
pub mod Redis
pub mod Agreement
use floodguard_rate_limiter.Prelude.{
  ◌+◌, String, Bool, false, Option, none, some, text_eq, if◌then◌else◌,
}
use floodguard_rate_limiter.Prelude.Int.{ℤ, pos, ◌+ℤ◌, ltb_ℤ, leb_ℤ}
use floodguard_rate_limiter.Prelude.Dict.{Dict, lookup, insert, erase}
use floodguard_rate_limiter.Errors.{
  Action, Context, background, Result, ok, err, sentinel, lock_key_required, not_acquired,
  nil_callback, ◌>>=◌, ◌>>◌, pure, fail, wrapping, fail_if,
}

pub record Lock (W : Type 0) : Type 0 where
  pub release : Context → Action W (Unit {0})

pub record Client (W : Type 0) : Type 0 where
  pub acquire : Context → String → ℤ → Action W (Lock W)

pub record LockEntry : Type 0 where
  pub token : String
  pub expires_at : ℤ

abbrev pub Locks : Type 0
Locks = Dict LockEntry

pub record MemoryLock : Type 0 where
  pub key : String
  pub token : String

-- Whether an entry of the map still bars others at `now`.
abbrev pub is_held : ℤ → Option LockEntry → Bool
is_held now none = false
is_held now (some e) = ltb_ℤ now e.expires_at

-- `Memory.Acquire` with the clock at `now` and the answer of `randomToken`. An expired entry is
-- deleted and then written anew.
unfoldable pub memory_acquire : ℤ → Result String → String → ℤ → Action Locks MemoryLock
memory_acquire now random key ttl m =
    if text_eq key "" then (err (sentinel lock_key_required), m) else elim random [
      | err e ↦ (err e, m)
      | ok token ↦ if is_held now (lookup key m) then (err (sentinel not_acquired), m) else (
        ok (record { key = key; token = token }),
        insert key (record { token = token; expires_at = now +ℤ ttl }) (erase key m),
      )
    ]

-- `memoryLock.Release`: only the entry with this lock's token is deleted.
unfoldable pub memory_release : MemoryLock → Action Locks (Unit {0})
memory_release l m = elim (lookup l.key m) [
  | none ↦ (ok tt, m)
  | some e ↦ if text_eq e.token l.token then (ok tt, erase l.key m) else (ok tt, m)
]

pub record Manager (W : Type 0) : Type 0 where
  pub client : Client W
  pub ttl : ℤ

pub record Config (W : Type 0) : Type 0 where
  pub client : Option (Client W)
  pub ttl : ℤ

-- 30 seconds
abbrev pub default_ttl : ℤ
default_ttl = pos 30000000000

-- `New`; the in-memory client that it makes when none is configured is handed in.
unfoldable pub new_manager : {W : Type 0} → Client W → Config W → Manager W
new_manager memory c = record {
  client = elim c.client [ none ↦ memory | some s ↦ s ];
  ttl = if leb_ℤ c.ttl (pos 0) then default_ttl else c.ttl;
}

module _ {W : Type 0} where
  -- `Manager.Acquire`
  unfoldable pub acquire : Manager W → Context → String → Action W (Lock W)
  acquire m ctx key = wrapping "lock: acquire" (m.client.acquire ctx key m.ttl)

  -- A deferred call whose error is dropped.
  abbrev pub deferred : {A : Type 0} → Action W (Unit {0}) → Action W A → Action W A
  deferred cleanup body w = let (r, w') = body w in (r, (cleanup w').1)

  -- `Manager.With`
  unfoldable pub with_lock :
      Manager W → Context → String → Option (Context → Action W (Unit {0})) → Action W (Unit {0})
  with_lock m ctx key none = do
    fail_if (text_eq key "") (sentinel lock_key_required)
    fail (sentinel nil_callback)
  with_lock m ctx key (some fn) = do
    fail_if (text_eq key "") (sentinel lock_key_required)
    l ← wrapping "lock: acquire" (m.client.acquire ctx key m.ttl)
    deferred (l.release background) (fn ctx)

  -- `Manager.TryAcquire`, with the release function that it returns.
  unfoldable pub try_acquire : Manager W → Context → String → Action W (Action W (Unit {0}))
  try_acquire m ctx key = do
    fail_if (text_eq key "") (sentinel lock_key_required)
    l ← wrapping "lock: acquire" (m.client.acquire ctx key m.ttl)
    pure (l.release background)
