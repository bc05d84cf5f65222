-- ===== src/Lock/Exclusion.antt =====
-- Mutual exclusion under the in-process locks of lock/memory.go, for any interleaving of callers.
use floodguard_rate_limiter.Prelude.{
  sym, String, Bool, true, false, some, List, [], ◌∷◌, ◌≡◌, ◌≢◌, arith, text_eq, eq_iff,
  if◌then◌else◌, Bool-cases, inl, inr, ◌&&◌,
}
use floodguard_rate_limiter.Prelude.Int.{ℤ, ◌+ℤ◌, ◌≤ℤ◌, ◌<ℤ◌}
use floodguard_rate_limiter.Prelude.Dict.{
  lookup, erase, lookup-insert, lookup-insert_self, lookup-erase,
}
use floodguard_rate_limiter.Errors.{Result, ok, err, Error}
use floodguard_rate_limiter.Lock.{LockEntry, Locks, MemoryLock, memory_acquire, memory_release}

-- A lock that was granted: its key, its token, the end of its lease, and whether it was released.
pub record Lease : Type 0 where
  pub key : String
  pub token : String
  pub expires_at : ℤ
  pub released : Bool

pub record System : Type 0 where
  pub now : ℤ
  pub locks : Locks
  pub leases : List Lease

abbrev pub All : (Lease → Type 0) → List Lease → Type 0
All P [] = Unit {0}
All P (l ∷ ls) = P l × All P ls

-- A lease with this key and token is released.
abbrev pub mark_lease : MemoryLock → Lease → Lease
mark_lease h l =
    if text_eq l.key h.key && text_eq l.token h.token then record l { released = true } else l

abbrev pub mark : MemoryLock → List Lease → List Lease
mark h [] = []
mark h (l ∷ ls) = mark_lease h l ∷ mark h ls

-- What callers and the clock may do: time passes, a lock is asked for with a token that no lease
-- has, and a lock is released, once or again, in time or late.
pub data Step (s : System) : System → Type 0 where
  wait : (later : ℤ) → s.now ≤ℤ later → Step s (record s { now = later })
  granted :
      (key token : String) (ttl : ℤ) (m : Locks)
      → All (λ l. l.token ≢ token) s.leases
      → memory_acquire s.now (ok token) key ttl s.locks
        ≡ (ok (record { key = key; token = token }), m)
      → Step s (record s {
        locks = m;
        leases =
            record { key = key; token = token; expires_at = s.now +ℤ ttl; released = false }
            ∷ s.leases;
      })
  refused :
      (key : String) (random : Result String) (ttl : ℤ) (e : Error) (m : Locks)
      → memory_acquire s.now random key ttl s.locks ≡ (err e, m)
      → Step s (record s { locks = m })
  release :
      (h : MemoryLock)
      → Step s (record s { locks = (memory_release h s.locks).1; leases = mark h s.leases })

pub data Reach (s : System) : System → Type 0 where
  here : Reach s s
  next : {t u : System} → Reach s t → Step t u → Reach s u

-- A lease that its holder may rely on.
abbrev pub IsLive : ℤ → Lease → Type 0
IsLive now l = (l.released ≡ false) × (now <ℤ l.expires_at)

-- No two live leases are on one key.
abbrev pub Apart : ℤ → List Lease → Type 0
Apart now [] = Unit {0}
Apart now (l ∷ ls) = All (λ l'. IsLive now l → IsLive now l' → l.key ≢ l'.key) ls × Apart now ls

-- A live lease is the entry of its key.
abbrev pub Backed : ℤ → Locks → Lease → Type 0
Backed now m l =
    IsLive now l → lookup l.key m ≡ some (record { token = l.token; expires_at = l.expires_at })

All-map : {P Q : Lease → Type 0} (ls : List Lease) → ((l : Lease) → P l → Q l) → All P ls → All Q ls
All-map [] f h = tt
All-map (l ∷ ls) f h = (f l h.0, All-map ls f h.1)

Apart-wait : (now later : ℤ) (ls : List Lease) → now ≤ℤ later → Apart now ls → Apart later ls
Apart-wait now later [] w h = tt
Apart-wait now later (l ∷ ls) w h = (
  All-map ls (λ l' f live live'. f (live.0, omega arith) (live'.0, omega arith)) h.0,
  Apart-wait now later ls w h.1,
)

Backed-acquire :
    (now : ℤ) (m m' : Locks) (key token : String) (ttl : ℤ) (h : MemoryLock) (l : Lease)
    → memory_acquire now (ok token) key ttl m ≡ (ok h, m')
    → Backed now m l
    → (IsLive now l → l.key ≢ key) × Backed now m' l
unfolding memory_acquire
Backed-acquire now m m' key token ttl h l e b =
    let entry : LockEntry = record { token = token; expires_at = now +ℤ ttl } in
    let free : IsLive now l → l.key ≢ key = λ live same. ground (arith, b live) in
    (
      free,
      λ live. ground (
        arith,
        b live,
        free live,
        eq_iff key l.key,
        lookup-insert key l.key entry (erase key m),
        lookup-erase key l.key m,
      ),
    )

Backed-release :
    (now : ℤ) (m : Locks) (h : MemoryLock) (l : Lease)
    → Backed now m l
    → Backed now (memory_release h m).1 (mark_lease h l)
unfolding memory_release
Backed-release now m h l b = elim (Bool-cases (text_eq l.key h.key && text_eq l.token h.token)) [
  | inl own ↦ rw own (λ live. cc (live.0))
  | inr other ↦ rw other (λ live.
      ground (arith, b live, eq_iff l.key h.key, eq_iff h.key l.key, lookup-erase h.key l.key m))
]

-- Marking a lease as released only removes a live lease.
mark-ne :
    (now : ℤ) (h : MemoryLock) (l l' : Lease)
    → (IsLive now l → IsLive now l' → l.key ≢ l'.key)
    → IsLive now (mark_lease h l)
    → IsLive now (mark_lease h l')
    → (mark_lease h l).key ≢ (mark_lease h l').key
mark-ne now h l l' f = elim (Bool-cases (text_eq l.key h.key && text_eq l.token h.token)) [
  | inl own ↦ rw own (λ live. cc (live.0))
  | inr other ↦ rw other (elim (Bool-cases (text_eq l'.key h.key && text_eq l'.token h.token)) [
    | inl own' ↦ rw own' (λ _ live'. cc (live'.0))
    | inr other' ↦ rw other' f
  ])
]

All-mark :
    (now : ℤ) (h : MemoryLock) (l : Lease) (ls : List Lease)
    → All (λ l'. IsLive now l → IsLive now l' → l.key ≢ l'.key) ls
    → All
        (λ l'. IsLive now (mark_lease h l) → IsLive now l' → (mark_lease h l).key ≢ l'.key)
        (mark h ls)
All-mark now h l [] x = tt
All-mark now h l (l' ∷ ls) x = (mark-ne now h l l' x.0, All-mark now h l ls x.1)

granted-lookup :
    (now ttl : ℤ) (key token : String) (m m' : Locks)
    → memory_acquire now (ok token) key ttl m ≡ (ok (record { key = key; token = token }), m')
    → lookup key m' ≡ some (record { token = token; expires_at = now +ℤ ttl })
unfolding memory_acquire
granted-lookup now ttl key token m m' e =
    let entry : LockEntry = record { token = token; expires_at = now +ℤ ttl } in
    ground (arith, lookup-insert_self key entry (erase key m))

-- Exclusion, and every live lease backed by the entry of its key.
abbrev pub Inv : System → Type 0
Inv s = All (Backed s.now s.locks) s.leases × Apart s.now s.leases

Inv-release :
    (now : ℤ) (m : Locks) (h : MemoryLock) (ls : List Lease)
    → All (Backed now m) ls
    → Apart now ls
    → All (Backed now (memory_release h m).1) (mark h ls) × Apart now (mark h ls)
Inv-release now m h [] b x = (tt, tt)
Inv-release now m h (l ∷ ls) b x =
    let (b', x') = Inv-release now m h ls b.1 x.1 in
    ((Backed-release now m h l b.0, b'), (All-mark now h l ls x.0, x'))

pub memory_acquire-err :
    (now ttl : ℤ) (random : Result String) (key : String) (e : Error) (m m' : Locks)
    → memory_acquire now random key ttl m ≡ (err e, m')
    → m' ≡ m
unfolding memory_acquire
memory_acquire-err now ttl random key e m m' h = ground arith

Step-Inv : {s t : System} → Step s t → Inv s → Inv t
Step-Inv {s} (wait later w) (b, x) =
    (All-map s.leases (λ l f live. f (live.0, omega arith)) b, Apart-wait s.now later s.leases w x)
Step-Inv {s} (granted key token ttl m fresh e) (b, x) =
    let new : Lease = record {
      key = key;
      token = token;
      expires_at = s.now +ℤ ttl;
      released = false;
    } in
    let both = All-map s.leases (λ l. Backed-acquire s.now s.locks m key token ttl _ l e) b in
    (
      (λ live. granted-lookup s.now ttl key token s.locks m e, All-map s.leases (λ l f. f.1) both),
      (All-map s.leases (λ l f live live' same. f.0 live' (sym same)) both, x),
    )
Step-Inv {s} (refused key random ttl e m h) (b, x) =
    rw (memory_acquire-err s.now ttl random key e s.locks m h) (b, x)
Step-Inv {s} (release h) (b, x) = Inv-release s.now s.locks h s.leases b x

-- The state before the first call.
abbrev pub start : ℤ → System
start now = record { now = now; locks = []; leases = [] }

pub Reach-Inv : (now : ℤ) {s : System} → Reach (start now) s → Inv s
Reach-Inv now here = (tt, tt)
Reach-Inv now (next r st) = Step-Inv st (Reach-Inv now r)

-- No two of the leases are live and on one key.
abbrev pub Exclusive : ℤ → List Lease → Type 0
Exclusive now [] = Unit {0}
Exclusive now (l ∷ ls) =
    All (λ l'. ¬ (IsLive now l × IsLive now l' × (l.key ≡ l'.key))) ls × Exclusive now ls

Apart-Exclusive : (now : ℤ) (ls : List Lease) → Apart now ls → Exclusive now ls
Apart-Exclusive now [] h = tt
Apart-Exclusive now (l ∷ ls) h =
    (All-map ls (λ l' f (live, live', same). f live live' same) h.0, Apart-Exclusive now ls h.1)

-- In every state that is reached from empty in-process locks by steps in any order (time passes, a
-- lock is granted with a token that no earlier lease has, an attempt is refused, a lock is
-- released, once or again, in time or late), no two unexpired, unreleased leases are on one key.
pub Reach-Exclusive : (now : ℤ) {s : System} → Reach (start now) s → Exclusive s.now s.leases
Reach-Exclusive now {s} r = Apart-Exclusive s.now s.leases (Reach-Inv now r).1
