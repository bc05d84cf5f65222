-- ===== src/Lock/Granted.antt =====
-- When an attempt at an in-process lock of lock/memory.go is granted, for any interleaving of callers.
use floodguard_rate_limiter.Prelude.{
  sym, subst, String, true, false, Option, none, some, List, [], ◌∷◌, ◌≡◌, refl, ◌≢◌, ◌↔◌, ◌⊎◌,
  arith, text_eq, eq_iff, Bool-cases, inl, inr, ◌&&◌,
}
use floodguard_rate_limiter.Prelude.Int.{ℤ, ◌+ℤ◌, ◌<ℤ◌}
use floodguard_rate_limiter.Prelude.Dict.{lookup, erase, lookup-insert, lookup-erase}
use floodguard_rate_limiter.Errors.{ok}
use floodguard_rate_limiter.Lock.{
  LockEntry, Locks, MemoryLock, is_held, memory_acquire, memory_release,
}
use floodguard_rate_limiter.Lock.Exclusion.{
  Lease, System, All, mark_lease, mark, Step, wait, granted, refused, release, Reach, here, next,
  IsLive, Backed, Reach-Inv, memory_acquire-err, start,
}

-- A lease that an entry of the map stands for.
abbrev IsOf : String → LockEntry → Lease → Type 0
IsOf key e l =
    (l.key ≡ key) × (l.token ≡ e.token) × (l.expires_at ≡ e.expires_at) × (l.released ≡ false)

abbrev HasLease : String → LockEntry → List Lease → Type 0
HasLease key e [] = ⊥
HasLease key e (l ∷ ls) = IsOf key e l ⊎ HasLease key e ls

-- Every entry of the map stands for a lease that is not released.
abbrev Owned : Locks → List Lease → Type 0
Owned m ls = (key : String) (e : LockEntry) → lookup key m ≡ some e → HasLease key e ls

mark_lease-IsOf :
    (key : String) (e : LockEntry) (h : MemoryLock) (l : Lease)
    → (text_eq key h.key && text_eq e.token h.token) ≡ false
    → IsOf key e l
    → IsOf key e (mark_lease h l)
mark_lease-IsOf key e h l other (named, token, end, unreleased) =
    let same : (text_eq l.key h.key && text_eq l.token h.token) ≡ false = rw (named, token) other in
    rw same (named, token, end, unreleased)

mark-HasLease :
    (key : String) (e : LockEntry) (h : MemoryLock) (ls : List Lease)
    → (text_eq key h.key && text_eq e.token h.token) ≡ false
    → HasLease key e ls
    → HasLease key e (mark h ls)
mark-HasLease key e h [] other has = has
mark-HasLease key e h (l ∷ ls) other has = elim has [
  | inl here_is ↦ inl (mark_lease-IsOf key e h l other here_is)
  | inr later ↦ inr (mark-HasLease key e h ls other later)
]

-- A release leaves no entry that it matches.
release-lookup :
    (h : MemoryLock) (m : Locks) (key : String) (e : LockEntry)
    → lookup key (memory_release h m).1 ≡ some e
    → (lookup key m ≡ some e) × ((text_eq key h.key && text_eq e.token h.token) ≡ false)
unfolding memory_release
release-lookup h m key e found =
    ground (arith, eq_iff key h.key, eq_iff h.key key, lookup-erase h.key key m)

acquire-lookup :
    (now ttl : ℤ) (key token other : String) (h : MemoryLock) (m m' : Locks) (e : LockEntry)
    → memory_acquire now (ok token) key ttl m ≡ (ok h, m')
    → lookup other m' ≡ some e
    → ((key ≡ other) × (e ≡ record { token = token; expires_at = now +ℤ ttl }))
      ⊎ (lookup other m ≡ some e)
unfolding memory_acquire
acquire-lookup now ttl key token other h m m' e granted_it found =
    let entry : LockEntry = record { token = token; expires_at = now +ℤ ttl } in
    ground (
      arith,
      eq_iff key other,
      lookup-insert key other entry (erase key m),
      lookup-erase key other m,
    )

Step-Owned : {s t : System} → Step s t → Owned s.locks s.leases → Owned t.locks t.leases
Step-Owned {s} (wait later w) o = o
Step-Owned {s} (granted key token ttl m fresh g) o = λ other e found.
    elim (acquire-lookup s.now ttl key token other _ s.locks m e g found) [
      | inl (same, new) ↦ inl (same, rw new refl, rw new refl, refl)
      | inr old ↦ inr (o other e old)
    ]
Step-Owned {s} (refused key random ttl e m h) o =
    rw (memory_acquire-err s.now ttl random key e s.locks m h) o
Step-Owned {s} (release h) o = λ key e found.
    let (old, other) = release-lookup h s.locks key e found in
    mark-HasLease key e h s.leases other (o key e old)

Reach-Owned : (now : ℤ) {s : System} → Reach (start now) s → Owned s.locks s.leases
unfolding lookup
Reach-Owned now here = λ key e found. cc
Reach-Owned now (next r st) = Step-Owned st (Reach-Owned now r)

-- No lease of the key is live.
abbrev pub IsFree : ℤ → String → List Lease → Type 0
IsFree now key ls = All (λ l. ¬ (IsLive now l × (l.key ≡ key))) ls

free-HasLease :
    (now : ℤ) (key : String) (e : LockEntry) (ls : List Lease)
    → IsFree now key ls
    → HasLease key e ls
    → ¬ (now <ℤ e.expires_at)
free-HasLease now key e [] free has in_time = has
free-HasLease now key e (l ∷ ls) free has in_time = elim has [
  | inl (named, token, end, unreleased) ↦
      free.0 ((unreleased, subst (λ t. now <ℤ t) (sym end) in_time), named)
  | inr later ↦ free-HasLease now key e ls free.1 later in_time
]

-- What the answer of an attempt says of the map.
acquire_ok :
    (now ttl : ℤ) (key token : String) (m : Locks)
    → key ≢ ""
    → ((memory_acquire now (ok token) key ttl m).0 ≡ ok (record { key = key; token = token }))
      ↔ (is_held now (lookup key m) ≡ false)
unfolding memory_acquire
acquire_ok now ttl key token m named =
    (λ h. ground (arith, eq_iff key ""), λ h. ground (arith, eq_iff key ""))

held-entry :
    (now : ℤ) (o : Option LockEntry)
    → is_held now o ≡ true
    → (e : LockEntry) × (o ≡ some e) × (now <ℤ e.expires_at)
held-entry now none h = cc
held-entry now (some e) h = (e, refl, ground arith)

Backed-IsFree :
    (now : ℤ) (key : String) (m : Locks) (ls : List Lease)
    → All (Backed now m) ls
    → is_held now (lookup key m) ≡ false
    → IsFree now key ls
Backed-IsFree now key m [] b h = tt
Backed-IsFree now key m (l ∷ ls) (b, bs) h = (
  λ (live, named).
      let found =
        subst
          (λ (k : String).
            lookup k m ≡ some (record { token = l.token; expires_at = l.expires_at }))
          named (b live) in
      ground (arith, found, h, live.1),
  Backed-IsFree now key m ls bs h,
)

-- In every state that is reached from empty in-process locks by steps in any order (time passes, a
-- lock is granted with a token that no earlier lease has, an attempt is refused, a lock is
-- released, once or again, in time or late), an attempt at a key that is not empty is granted
-- exactly when no lease of the key is unexpired and unreleased.
pub acquire-granted_iff :
    (now : ℤ) {s : System} (key token : String) (ttl : ℤ)
    → Reach (start now) s
    → key ≢ ""
    → ((memory_acquire s.now (ok token) key ttl s.locks).0
        ≡ ok (record { key = key; token = token }))
      ↔ IsFree s.now key s.leases
acquire-granted_iff now {s} key token ttl r named =
    let (answered, back) = acquire_ok s.now ttl key token s.locks named in
    (
      λ h. Backed-IsFree s.now key s.locks s.leases (Reach-Inv now r).0 (answered h),
      λ free. elim (Bool-cases (is_held s.now (lookup key s.locks))) [
        | inl held ↦
            let (e, found, in_time) = held-entry s.now (lookup key s.locks) held in
            absurd (free-HasLease s.now key e s.leases free (Reach-Owned now r key e found) in_time)
        | inr free_now ↦ back free_now
      ],
    )
