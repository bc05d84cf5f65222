-- ===== src/Lock/Holding.antt =====
-- What one holder of an in-process lock (lock/memory.go) may rely on.
use floodguard_rate_limiter.Prelude.{String, ◌≡◌, arith, eq_iff}
use floodguard_rate_limiter.Prelude.Int.{ℤ, ◌+ℤ◌, ◌≤ℤ◌, ◌<ℤ◌}
use floodguard_rate_limiter.Prelude.Dict.{insert, erase, lookup-insert_self, lookup-erase_self}
use floodguard_rate_limiter.Errors.{ok, err, sentinel, not_acquired}
use floodguard_rate_limiter.Lock.{LockEntry, Locks, MemoryLock, memory_acquire, memory_release}

-- After an attempt at an in-process lock was granted, an attempt at the same key before the lease
-- ends is refused with ErrNotAcquired, whatever its token and ttl, and changes nothing.
acquire_refused :
    (now later ttl ttl' : ℤ) (key token other : String) (h : MemoryLock) (m m' : Locks)
    → memory_acquire now (ok token) key ttl m ≡ (ok h, m')
    → later <ℤ now +ℤ ttl
    → memory_acquire later (ok other) key ttl' m' ≡ (err (sentinel not_acquired), m')
unfolding memory_acquire
acquire_refused now later ttl ttl' key token other h m m' e l =
    let entry : LockEntry = record { token = token; expires_at = now +ℤ ttl } in
    ground (arith, lookup-insert_self key entry (erase key m))

-- When an in-process lock was granted and its holder has released it, with no other call in between,
-- the next attempt at the key is granted.
acquire-release :
    (now later ttl ttl' : ℤ) (key token other : String) (h : MemoryLock) (m m' : Locks)
    → memory_acquire now (ok token) key ttl m ≡ (ok h, m')
    → (memory_acquire later (ok other) key ttl' (memory_release h m').1).0
      ≡ ok (record { key = key; token = other })
unfolding memory_acquire memory_release
acquire-release now later ttl ttl' key token other h m m' e =
    let entry : LockEntry = record { token = token; expires_at = now +ℤ ttl } in
    ground (
      arith,
      eq_iff token token,
      lookup-insert_self key entry (erase key m),
      lookup-erase_self key (insert key entry (erase key m)),
    )

-- When an in-process lock was granted and its lease has ended without a release, an attempt at the
-- key is granted.
acquire_expired :
    (now later ttl ttl' : ℤ) (key token other : String) (h : MemoryLock) (m m' : Locks)
    → memory_acquire now (ok token) key ttl m ≡ (ok h, m')
    → now +ℤ ttl ≤ℤ later
    → (memory_acquire later (ok other) key ttl' m').0 ≡ ok (record { key = key; token = other })
unfolding memory_acquire
acquire_expired now later ttl ttl' key token other h m m' e over =
    let entry : LockEntry = record { token = token; expires_at = now +ℤ ttl } in
    ground (arith, lookup-insert_self key entry (erase key m))
