-- ===== src/Examples/Devices.antt =====
-- The theorem on the two device stores at concrete calls, over a server that holds its keys in a
-- dictionary and a format in which a number is that many ones.
use Prim.Native.Char.{code}
use floodguard_rate_limiter.Prelude.{
  ℕ, zero, suc, String, Bool, true, false, Option, none, some, List, [], ◌∷◌, ◌≡◌, refl, arith,
  if◌then◌else◌, ◌==◌,
}
use floodguard_rate_limiter.Prelude.Int.{ℤ, pos, negsuc}
use floodguard_rate_limiter.Prelude.Dict.{Dict, lookup, insert, lookup-insert}
use floodguard_rate_limiter.Errors.{Result, ok, err, foreign, background}
use floodguard_rate_limiter.DeviceTrust.{DeviceRecord, memory_store}
use floodguard_rate_limiter.DeviceTrust.Redis.{Records}
use floodguard_rate_limiter.DeviceTrust.RedisHeld.{RecordLaws}
use floodguard_rate_limiter.DeviceTrust.Agreement.{
  Call, knows, sees, marks, looks, answers, redis_store, redis_devices-eq_memory,
}

ones : ℕ → String → String
ones zero t = String.◌∷◌ "|" t
ones (suc n) t = String.◌∷◌ "1" (ones n t)

read_ones : String → Option (ℕ × String)
read_ones String.[] = none
read_ones (String.◌∷◌ c s) =
    let rest = read_ones s in
    if code c == b'1'
    then elim rest [ none ↦ none | some (n, t) ↦ some (suc n, t) ]
    else some (0, s)

read_ones-ones : (n : ℕ) (t : String) → read_ones (ones n t) ≡ some (n, t)
unfolding read_ones ones
read_ones-ones zero t = refl
read_ones-ones (suc n) t = rw (read_ones-ones n t) refl

signed : ℤ → String → String
unfolding ones
signed (pos n) t = String.◌∷◌ "+" (ones n t)
signed (negsuc n) t = String.◌∷◌ "-" (ones n t)

read_signed : String → Option (ℤ × String)
unfolding read_ones
read_signed String.[] = none
read_signed (String.◌∷◌ c s) = elim (read_ones s) [
  | none ↦ none
  | some (n, t) ↦ some (if code c == b'+' then pos n else negsuc n, t)
]

read_signed-signed : (z : ℤ) (t : String) → read_signed (signed z t) ≡ some (z, t)
unfolding read_signed signed
read_signed-signed (pos n) t = rw (read_ones-ones n t, read_signed) refl
read_signed-signed (negsuc n) t = rw (read_ones-ones n t, read_signed) refl

flag : Bool → String → String
flag b t = String.◌∷◌ (if b then "+" else "-") t

written : DeviceRecord → String
unfolding signed flag
written rec = signed rec.first_seen (signed rec.last_seen (flag rec.trusted rec.fingerprint))

made : ℤ → ℤ → String → Result DeviceRecord
made first last String.[] = err (foreign "no record")
made first last (String.◌∷◌ c s) =
    ok (record { fingerprint = s; trusted = code c == b'+'; first_seen = first; last_seen = last })

read_back : String → Result DeviceRecord
unfolding read_signed made
read_back s = elim (read_signed s) [
  | none ↦ err (foreign "no record")
  | some (first, t) ↦ elim (read_signed t) [
    | none ↦ err (foreign "no record")
    | some (last, u) ↦ made first last u
  ]
]

made-flag :
    (first last : ℤ) (b : Bool) (f : String)
    → made first last (flag b f)
      ≡ ok (record { fingerprint = f; trusted = b; first_seen = first; last_seen = last })
unfolding made flag
made-flag first last true f = refl
made-flag first last false f = refl

read_back-written : (rec : DeviceRecord) → read_back (written rec) ≡ ok rec
unfolding read_back written
read_back-written rec =
    let tail = flag rec.trusted rec.fingerprint in
    rw (read_signed-signed rec.first_seen (signed rec.last_seen tail), read_back)
      (rw (read_signed-signed rec.last_seen tail)
        (made-flag rec.first_seen rec.last_seen rec.trusted rec.fingerprint))

abbrev record_server : Records
record_server = record {
  Server = Dict String;
  get = λ key s. lookup key s;
  set = λ key v s. insert key v s;
  marshal = λ rec. ok (written rec);
  unmarshal = λ text. read_back text;
}

record_laws : RecordLaws record_server
record_laws = record {
  get-set = λ key other v s. lookup-insert key other v s;
  marshal_back = λ rec first last. (written rec, refl, read_back-written rec);
}

-- Two devices of accounts whose names have a colon, and a call without an account.
abbrev device_calls : List (ℤ × Call)
device_calls =
    (pos 2, sees "alice" "f1")
    ∷ (pos 3, marks "alice:b" "f1")
    ∷ (pos 4, knows "alice:b" "f1")
    ∷ (pos 5, sees "" "f1")
    ∷ (pos 6, looks "alice" "f1")
    ∷ []

redis_devices-eq_memory_example :
    answers (redis_store record_server "devices") background device_calls []
    ≡ answers memory_store background device_calls []
unfolding lookup
redis_devices-eq_memory_example =
    redis_devices-eq_memory record_server "devices" record_laws background device_calls []
      (λ key. refl)
      (
        (omega arith, omega arith),
        (refl, (refl, tt)),
        (
          (omega arith, omega arith),
          (refl, (refl, tt)),
          (
            (omega arith, omega arith),
            (refl, (refl, tt)),
            (
              (omega arith, omega arith),
              (refl, (refl, tt)),
              ((omega arith, omega arith), (refl, (refl, tt)), tt),
            ),
          ),
        ),
      )
