-- ===== src/DeviceTrust/Redis.antt =====
-- devicetrust/redis.go: the device store over Redis strings without a time to live.
use floodguard_rate_limiter.Prelude.{
  String, str_append, true, Option, none, some, text_eq, if◌then◌else◌,
}
use floodguard_rate_limiter.Prelude.Int.{ℤ}
use floodguard_rate_limiter.Redis.{Delivery, exchange}
use floodguard_rate_limiter.Errors.{Action, Result, ok, err, ◌>>=◌}
use floodguard_rate_limiter.DeviceTrust.{DeviceRecord, seen_record}

-- GET and SET of keys that stay, and encoding/json on device records.
pub record Records : Type 1 where
  pub Server : Type 0
  pub get : String → Server → Option String
  pub set : String → String → Server → Server
  pub marshal : DeviceRecord → Result String
  pub unmarshal : String → Result DeviceRecord

-- `NewRedisStore`, for its prefix.
unfoldable pub prefix_or_default : String → String
prefix_or_default key_prefix =
    if text_eq key_prefix "" then "floodguard:devicetrust" else key_prefix

-- Each call on the network has its own outcome: the read's and the write's.
module _ (R : Records) (prefix : String) where
  unfoldable pub device_key : String → String → String
  device_key account fingerprint =
      str_append prefix (str_append ":" (str_append account (str_append ":" fingerprint)))

  -- `redisStore.Get`
  unfoldable pub redis_get : Delivery → String → String → Action R.Server (Option DeviceRecord)
  unfolding device_key
  redis_get net account fingerprint = do
    val ← exchange net (λ s. (R.get (device_key account fingerprint) s, s))
    λ s. (
      elim val [
        | none ↦ ok none
        | some text ↦ elim (R.unmarshal text) [ err e ↦ err e | ok rec ↦ ok (some rec) ]
      ],
      s,
    )

  -- `save`
  unfoldable pub save : Delivery → String → String → DeviceRecord → Action R.Server (Unit {0})
  unfolding device_key
  save net account fingerprint rec = elim (R.marshal rec) [
    | err e ↦ λ s. (err e, s)
    | ok text ↦ exchange net (λ s. (tt, R.set (device_key account fingerprint) text s))
  ]

  -- `redisStore.UpsertSeen`
  unfoldable pub redis_upsert_seen :
      Delivery → Delivery → String → String → ℤ → Action R.Server (Unit {0})
  unfolding redis_get save seen_record
  redis_upsert_seen read write account fingerprint at = do
    found ← redis_get read account fingerprint
    save write account fingerprint (seen_record fingerprint at found)

  -- `redisStore.MarkTrusted`
  unfoldable pub redis_mark_trusted :
      Delivery → Delivery → String → String → ℤ → Action R.Server (Unit {0})
  unfolding redis_get save seen_record
  redis_mark_trusted read write account fingerprint at = do
    found ← redis_get read account fingerprint
    save write account fingerprint (record (seen_record fingerprint at found) { trusted = true })
