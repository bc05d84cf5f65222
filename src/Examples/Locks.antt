-- ===== src/Examples/Locks.antt =====
-- The theorems on in-process locks at concrete histories.
use floodguard_rate_limiter.Prelude.{String, true, false, [], ◌∷◌, ◌≡◌, refl, ◌≢◌, arith, eq_iff}
use floodguard_rate_limiter.Prelude.Int.{pos, ◌+ℤ◌, ◌≤ℤ◌, ◌<ℤ◌}
use floodguard_rate_limiter.Prelude.Dict.{lookup, insert, erase}
use floodguard_rate_limiter.Errors.{ok}
use floodguard_rate_limiter.Lock.{Locks, MemoryLock, memory_acquire, memory_release}
use floodguard_rate_limiter.Lock.Exclusion.{
  System, Reach, Exclusive, Reach-Exclusive, start, wait, granted, release, here, next,
}
use floodguard_rate_limiter.Lock.Granted.{IsFree, acquire-granted_iff}
use floodguard_rate_limiter.Prelude.{◌↔◌}

-- Two callers of one lock.
abbrev first_lock : MemoryLock
first_lock = record { key = "wallet"; token = "a1" }

abbrev second_lock : MemoryLock
second_lock = record { key = "wallet"; token = "b2" }

abbrev first_locks : Locks
first_locks = (memory_acquire (pos 0) (ok "a1") "wallet" (pos 30) []).1

abbrev second_locks : Locks
second_locks = (memory_acquire (pos 40) (ok "b2") "wallet" (pos 30) first_locks).1

first_acquired :
    memory_acquire (pos 0) (ok "a1") "wallet" (pos 30) [] ≡ (ok first_lock, first_locks)
unfolding memory_acquire lookup
first_acquired = refl

second_acquired :
    memory_acquire (pos 40) (ok "b2") "wallet" (pos 30) first_locks ≡ (ok second_lock, second_locks)
unfolding memory_acquire lookup insert erase ◌+ℤ◌
second_acquired = refl

ten_in_lease : pos 10 <ℤ pos 0 +ℤ pos 30
unfolding ◌+ℤ◌
ten_in_lease = omega arith

forty_after_lease : pos 0 +ℤ pos 30 ≤ℤ pos 40
unfolding ◌+ℤ◌
forty_after_lease = omega arith

a1≢b2 : ◌≢◌ {A = String} "a1" "b2"
a1≢b2 e = cc ((eq_iff "a1" "b2").1 e)

-- The second caller takes the key after the first one's lease, which the first releases too late.
abbrev second_system : System
second_system = record {
  now = pos 40;
  locks = (memory_release first_lock second_locks).1;
  leases =
      record { key = "wallet"; token = "b2"; expires_at = pos 40 +ℤ pos 30; released = false }
      ∷ record { key = "wallet"; token = "a1"; expires_at = pos 0 +ℤ pos 30; released = true }
      ∷ [];
}

second_system-Reach : Reach (start (pos 0)) second_system
second_system-Reach =
    next
      (next
        (next (next here (granted "wallet" "a1" (pos 30) first_locks tt first_acquired))
          (wait (pos 40) (omega arith)))
        (granted "wallet" "b2" (pos 30) second_locks (a1≢b2, tt) second_acquired))
      (release first_lock)

Reach-Exclusive_example : Exclusive (pos 40) second_system.leases
Reach-Exclusive_example = Reach-Exclusive (pos 0) second_system-Reach

wallet≢empty : ◌≢◌ {A = String} "wallet" ""
wallet≢empty e = cc ((eq_iff "wallet" "").1 e)

acquire-granted_iff_example :
    ((memory_acquire (pos 40) (ok "c3") "wallet" (pos 30) second_system.locks).0
      ≡ ok (record { key = "wallet"; token = "c3" }))
    ↔ IsFree (pos 40) "wallet" second_system.leases
acquire-granted_iff_example =
    acquire-granted_iff (pos 0) "wallet" "c3" (pos 30) second_system-Reach wallet≢empty
