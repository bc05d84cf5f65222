-- ===== src/DeviceTrust/RedisHeld.antt =====
-- What a server holds of the device records that devicetrust/redis.go has written, against the map of
-- devicetrust/memory.go.
use floodguard_rate_limiter.Prelude.{
  ap, sym, subst, ◌∙◌, String, Bool, true, false, Option, none, some, ◌&&◌, ◌≡◌, refl, text_eq,
  if◌then◌else◌,
}
use floodguard_rate_limiter.Prelude.Int.{ℤ, pos, negsuc, ◌≤ℤ◌, ◌<ℤ◌}
use floodguard_rate_limiter.Prelude.Dict.{insert}
use floodguard_rate_limiter.Config.Texts.{Lacks}
use floodguard_rate_limiter.Redis.{delivered}
use floodguard_rate_limiter.Errors.{Result, ok, err}
use floodguard_rate_limiter.DeviceTrust.{
  DeviceRecord, Devices, account_key, devices_of, seen_record,
}
use floodguard_rate_limiter.DeviceTrust.Redis.{Records, device_key, redis_get, save}
use floodguard_rate_limiter.DeviceTrust.RedisKeys.{same_device}
use floodguard_rate_limiter.DeviceTrust.Trusted.{account_key-insert}

-- A time, in nanoseconds, that encoding/json can write: in the years 0 to 9999.
abbrev pub IsYear : ℤ → Type 0
IsYear t = (negsuc 62167219199999999999 ≤ℤ t) × (t <ℤ pos 253402300800000000000)

-- What Redis and encoding/json document: SET changes its own key alone, and a device record is read as
-- it was written.
pub record RecordLaws (R : Records) : Type 0 where
  pub get-set :
      (key other v : String) (s : R.Server)
      → R.get other (R.set key v s) ≡ (if text_eq key other then some v else R.get other s)
  pub marshal_back :
      (rec : DeviceRecord)
      → IsYear rec.first_seen
      → IsYear rec.last_seen
      → (text : String) × (R.marshal rec ≡ ok text) × (R.unmarshal text ≡ ok rec)

module _ (R : Records) (prefix : String) where
  -- What a text on the server says of a record.
  abbrev pub Shows : Option String → Option DeviceRecord → Type 0
  Shows none none = Unit {0}
  Shows none (some rec) = ⊥
  Shows (some text) none = ⊥
  Shows (some text) (some rec) =
      (R.unmarshal text ≡ ok rec) × IsYear rec.first_seen × IsYear rec.last_seen

  -- The server holds the records of the map.
  abbrev pub Holds : Devices → R.Server → Type 0
  Holds m s =
      (a f : String) → Lacks b':' f → Shows (R.get (device_key R prefix a f) s) (account_key a f m)

  -- The answer of a read that is delivered.
  abbrev read_answer : Option String → Result (Option DeviceRecord)
  read_answer v = elim v [
    | none ↦ ok none
    | some text ↦ elim (R.unmarshal text) [ err e ↦ err e | ok rec ↦ ok (some rec) ]
  ]

  read_answer-Shows :
      (v : Option String) (o : Option DeviceRecord) → Shows v o → read_answer v ≡ ok o
  read_answer-Shows none none h = refl
  read_answer-Shows none (some rec) h = absurd h
  read_answer-Shows (some text) none h = absurd h
  read_answer-Shows (some text) (some rec) h = rw (h.0, read_answer) refl

  pub redis_get-Holds :
      (a f : String) (m : Devices) (s : R.Server)
      → Holds m s
      → Lacks b':' f
      → redis_get R prefix delivered a f s ≡ (ok (account_key a f m), s)
  unfolding redis_get
  redis_get-Holds a f m s h plain =
      ap (λ r. (r, s))
        (read_answer-Shows (R.get (device_key R prefix a f) s) (account_key a f m) (h a f plain))

  -- The record that a write to a device finds there has times that can be written.
  pub seen_record-years :
      (v : Option String) (f : String) (now : ℤ) (o : Option DeviceRecord)
      → Shows v o
      → IsYear now
      → IsYear (seen_record f now o).first_seen × IsYear (seen_record f now o).last_seen
  unfolding seen_record
  seen_record-years v f now none h y = (y, y)
  seen_record-years none f now (some rec) h y = absurd h
  seen_record-years (some text) f now (some rec) h y = (h.1, y)

  module _ (laws : RecordLaws R) where
    Shows-put :
        (same : Bool) (text : String) (rec : DeviceRecord) (v : Option String)
        (o : Option DeviceRecord)
        → Shows (some text) (some rec)
        → Shows v o
        → Shows (if same then some text else v) (if same then some rec else o)
    Shows-put true text rec v o new old = new
    Shows-put false text rec v o new old = old

    -- A record that is written on both sides.
    pub save-Holds :
        (a f : String) (rec : DeviceRecord) (m : Devices) (s : R.Server)
        → Holds m s
        → Lacks b':' f
        → IsYear rec.first_seen
        → IsYear rec.last_seen
        → (s' : R.Server) × (save R prefix delivered a f rec s ≡ (ok tt, s'))
          × Holds (insert a (insert f rec (devices_of a m)) m) s'
    unfolding save
    save-Holds a f rec m s h plain first last =
        let (text, written, back) = laws.marshal_back rec first last in
        let key = device_key R prefix a f in
        let s' = R.set key text s in
        let same : save R prefix delivered a f rec s ≡ (ok tt, s') = rw (written, save) refl in
        (
          s',
          same,
          λ b g lacks.
              subst (λ v. Shows v (account_key b g (insert a (insert f rec (devices_of a m)) m)))
                (sym (
                  laws.get-set key (device_key R prefix b g) text s
                  ∙ ap (λ t. if t then some text else R.get (device_key R prefix b g) s)
                      (same_device R prefix a b f g plain lacks)))
                (subst
                  (Shows (
                    if text_eq a b && text_eq f g
                    then some text
                    else R.get (device_key R prefix b g) s))
                  (sym (account_key-insert b g a f rec m))
                  (Shows-put (text_eq a b && text_eq f g) text rec
                    (R.get (device_key R prefix b g) s) (account_key b g m) (back, first, last)
                    (h b g lacks))),
        )
