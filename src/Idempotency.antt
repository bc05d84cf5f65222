-- ===== src/Idempotency.antt =====
-- idempotency/idempotency.go and idempotency/memory.go: the Store interface, the in-memory store and
-- the Manager. Each call of the memory store runs under its mutex, so it is one step.
pub mod Claims
pub mod Redis
pub mod RedisClaims
pub mod RedisHeld
pub mod RedisHistory
pub mod RedisKeys
use floodguard_rate_limiter.Prelude.{
  String, Bool, true, false, Option, none, some, [], ◌∷◌, text_eq, if◌then◌else◌,
}
use floodguard_rate_limiter.Prelude.Int.{ℤ, pos, ◌+ℤ◌, leb_ℤ, ltb_ℤ}
use floodguard_rate_limiter.Prelude.Dict.{Dict, lookup, insert, erase}
use floodguard_rate_limiter.Errors.{
  Action, Bytes, Context, Result, ok, err, sentinel, Sentinel, idempotency_key_required, ◌>>=◌,
  ◌>>◌, wrapping, fail_if,
}

pub record ClaimResult : Type 0 where
  pub process : Bool
  pub cached : Bytes
  pub in_flight : Bool

-- The results that the stores return.
abbrev pub to_process : ClaimResult
to_process = record { process = true; cached = []; in_flight = false }

abbrev pub replay : Bytes → ClaimResult
replay body = record { process = false; cached = body; in_flight = false }

abbrev pub busy : ClaimResult
busy = record { process = false; cached = []; in_flight = true }

pub record Store (W : Type 0) : Type 0 where
  pub claim : Context → String → ℤ → Action W ClaimResult
  pub complete : Context → String → Bytes → ℤ → Action W (Unit {0})

-- `len(b) > 0`
abbrev pub is_present : Bytes → Bool
is_present [] = false
is_present (x ∷ xs) = true

pub record MemoryEntry : Type 0 where
  pub in_flight : Bool
  pub value : Bytes
  pub expires_at : ℤ

abbrev pub Entries : Type 0
Entries = Dict MemoryEntry

-- The entry that a claim finds at time `now`: an expired one is deleted first.
unfoldable pub live_entry : ℤ → String → Entries → Option MemoryEntry × Entries
live_entry now key m = elim (lookup key m) [
  | none ↦ (none, m)
  | some e ↦ if ltb_ℤ e.expires_at now then (none, erase key m) else (some e, m)
]

abbrev pub claim_entry : ℤ → MemoryEntry
claim_entry expiry = record { in_flight = true; value = []; expires_at = expiry }

-- What a claim does with the entry found.
unfoldable pub decide_claim : String → ℤ → Option MemoryEntry → Entries → ClaimResult × Entries
decide_claim key expiry none m = (to_process, insert key (claim_entry expiry) m)
decide_claim key expiry (some e) m =
    if is_present e.value
    then (replay e.value, m)
    else if e.in_flight
    then (busy, m)
    else (to_process, insert key (claim_entry expiry) m)

-- `memoryStore.Claim` with the clock at `now`.
unfoldable pub memory_claim : ℤ → String → ℤ → Action Entries ClaimResult
unfolding live_entry decide_claim
memory_claim now key ttl m =
    if text_eq key ""
    then (err (sentinel idempotency_key_required), m)
    else (let (found, m') = live_entry now key m in
        let (r, m'') = decide_claim key (now +ℤ ttl) found m' in (ok r, m''))

-- `memoryStore.Complete` with the clock at `now`.
unfoldable pub memory_complete : ℤ → String → Bytes → ℤ → Action Entries (Unit {0})
memory_complete now key response ttl m =
    (ok tt, insert key (record { in_flight = false; value = response; expires_at = now +ℤ ttl }) m)

pub record Manager (W : Type 0) : Type 0 where
  pub store : Store W
  pub ttl : ℤ

pub record Config (W : Type 0) : Type 0 where
  pub store : Option (Store W)
  pub ttl : ℤ

-- 24 hours
abbrev pub default_ttl : ℤ
default_ttl = pos 86400000000000

-- `New`; the in-memory store that it makes when none is configured is handed in.
unfoldable pub new_manager : {W : Type 0} → Store W → Config W → Manager W
new_manager memory c = record {
  store = elim c.store [ none ↦ memory | some s ↦ s ];
  ttl = if leb_ℤ c.ttl (pos 0) then default_ttl else c.ttl;
}

-- (process, cached) of a claim's result, or ErrInFlight.
unfoldable pub begin_result : ClaimResult → Result (Bool × Bytes)
begin_result r =
    if is_present r.cached
    then ok (false, r.cached)
    else if r.in_flight
    then err (sentinel Sentinel.in_flight)
    else ok (r.process, [])

module _ {W : Type 0} where
  unfoldable pub begin : Manager W → Context → String → Action W (Bool × Bytes)
  unfolding begin_result
  begin m ctx key = do
    fail_if (text_eq key "") (sentinel idempotency_key_required)
    r ← wrapping "idempotency: claim" (m.store.claim ctx key m.ttl)
    λ w. (begin_result r, w)

  unfoldable pub complete : Manager W → Context → String → Bytes → Action W (Unit {0})
  complete m ctx key response = do
    fail_if (text_eq key "") (sentinel idempotency_key_required)
    wrapping "idempotency: complete" (m.store.complete ctx key response m.ttl)
