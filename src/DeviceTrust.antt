-- ===== src/DeviceTrust.antt =====
-- devicetrust/devicetrust.go and devicetrust/memory.go: the device records of accounts, the in-memory
-- store with its map of maps, and the client.
pub mod Agreement
pub mod Fingerprint
pub mod Redis
pub mod RedisHeld
pub mod RedisKeys
pub mod Trusted
use floodguard_rate_limiter.Prelude.{
  String, Bool, true, false, Option, none, some, [], ◌||◌, text_eq,
}
use floodguard_rate_limiter.Prelude.Int.{ℤ}
use floodguard_rate_limiter.Prelude.Dict.{Dict, lookup, insert}
use floodguard_rate_limiter.Errors.{
  Action, Context, ok, sentinel, device_key_required, ◌>>=◌, ◌>>◌, pure, fail_if,
}

pub record DeviceRecord : Type 0 where
  pub fingerprint : String
  pub trusted : Bool
  pub first_seen : ℤ
  pub last_seen : ℤ

pub record Store (W : Type 0) : Type 0 where
  pub get : Context → String → String → Action W (Option DeviceRecord)
  pub upsert_seen : Context → String → String → ℤ → Action W (Unit {0})
  pub mark_trusted : Context → String → String → ℤ → Action W (Unit {0})

-- Account, then fingerprint; a missing account has no devices.
abbrev pub Devices : Type 0
Devices = Dict (Dict DeviceRecord)

abbrev pub devices_of : String → Devices → Dict DeviceRecord
devices_of account m = elim (lookup account m) [ none ↦ [] | some acct ↦ acct ]

-- `memoryStore.accountKey`, for its record.
unfoldable pub account_key : String → String → Devices → Option DeviceRecord
account_key account fingerprint m = lookup fingerprint (devices_of account m)

-- The record of a device that is seen at a time: a new one, or the stored one with its last time.
unfoldable pub seen_record : String → ℤ → Option DeviceRecord → DeviceRecord
seen_record fingerprint at none = record {
  fingerprint = fingerprint;
  trusted = false;
  first_seen = at;
  last_seen = at;
}
seen_record fingerprint at (some rec) = record rec { last_seen = at }

unfoldable pub memory_get : String → String → Action Devices (Option DeviceRecord)
memory_get account fingerprint m = (ok (account_key account fingerprint m), m)

abbrev put : String → String → DeviceRecord → Devices → Devices
put account fingerprint rec m = insert account (insert fingerprint rec (devices_of account m)) m

unfoldable pub memory_upsert_seen : String → String → ℤ → Action Devices (Unit {0})
unfolding seen_record account_key
memory_upsert_seen account fingerprint at m =
    let rec = seen_record fingerprint at (account_key account fingerprint m) in
    (ok tt, put account fingerprint rec m)

unfoldable pub memory_mark_trusted : String → String → ℤ → Action Devices (Unit {0})
unfolding seen_record account_key
memory_mark_trusted account fingerprint at m =
    let rec = seen_record fingerprint at (account_key account fingerprint m) in
    (ok tt, put account fingerprint (record rec { trusted = true }) m)

abbrev pub memory_store : Store Devices
memory_store = record {
  get = λ ctx. memory_get;
  upsert_seen = λ ctx. memory_upsert_seen;
  mark_trusted = λ ctx. memory_mark_trusted;
}

-- The test that each method of the client begins with.
abbrev require_keys : {W : Type 0} → String → String → Action W (Unit {0})
require_keys account fingerprint =
    fail_if (text_eq account "" || text_eq fingerprint "") (sentinel device_key_required)

-- The methods of the client over a store; `now` is the clock's reading.
module _ {W : Type 0} (store : Store W) where
  unfoldable pub is_known_device : Context → String → String → Action W Bool
  is_known_device ctx account fingerprint = do
    require_keys account fingerprint
    found ← store.get ctx account fingerprint
    pure (elim found [ none ↦ false | some rec ↦ rec.trusted ])

  unfoldable pub record_seen : ℤ → Context → String → String → Action W (Unit {0})
  record_seen now ctx account fingerprint = do
    require_keys account fingerprint
    store.upsert_seen ctx account fingerprint now

  unfoldable pub mark_device_trusted : ℤ → Context → String → String → Action W (Unit {0})
  mark_device_trusted now ctx account fingerprint = do
    require_keys account fingerprint
    store.mark_trusted ctx account fingerprint now

  -- `Lookup`
  unfoldable pub lookup_device : Context → String → String → Action W (Option DeviceRecord)
  lookup_device ctx account fingerprint = do
    require_keys account fingerprint
    store.get ctx account fingerprint
