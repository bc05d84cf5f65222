-- ===== src/DeviceTrust/Agreement.antt =====
-- The device store of devicetrust/redis.go against the in-memory one of devicetrust/memory.go, by the
-- methods of the client.
use floodguard_rate_limiter.Prelude.{
  ap, sym, subst, String, Bool, true, false, Option, none, some, List, [], ◌∷◌, ◌≡◌, refl, text_eq,
  ◌||◌,
}
use floodguard_rate_limiter.Prelude.Int.{ℤ}
use floodguard_rate_limiter.Prelude.Dict.{lookup, insert}
use floodguard_rate_limiter.Config.Texts.{Lacks}
use floodguard_rate_limiter.Redis.{delivered}
use floodguard_rate_limiter.Errors.{
  Error, sentinel, device_key_required, Action, Context, Result, ok, err, ◌>>=◌, ◌>>◌, pure,
  fail_if,
}
use floodguard_rate_limiter.DeviceTrust.{
  DeviceRecord, Store, Devices, account_key, devices_of, seen_record, memory_get,
  memory_upsert_seen, memory_mark_trusted, memory_store, is_known_device, record_seen,
  mark_device_trusted, lookup_device,
}
use floodguard_rate_limiter.DeviceTrust.Redis.{
  Records, device_key, redis_get, save, redis_upsert_seen, redis_mark_trusted,
}
use floodguard_rate_limiter.DeviceTrust.RedisHeld.{
  IsYear, RecordLaws, Holds, redis_get-Holds, seen_record-years, save-Holds,
}

-- The store over a network that delivers every call.
abbrev pub redis_store : (R : Records) → String → Store R.Server
redis_store R prefix = record {
  get = λ ctx. redis_get R prefix delivered;
  upsert_seen = λ ctx. redis_upsert_seen R prefix delivered delivered;
  mark_trusted = λ ctx. redis_mark_trusted R prefix delivered delivered;
}

-- A call of the client, with the account and the fingerprint.
pub data Call : Type 0 where
  knows sees marks looks : String → String → Call

pub data Answer : Type 0 where
  known : Result Bool → Answer
  done : Result (Unit {0}) → Answer
  found : Result (Option DeviceRecord) → Answer

module _ {W : Type 0} (store : Store W) where
  unfoldable pub ask : Context → ℤ → Call → W → Answer × W
  ask ctx now (knows account fingerprint) w =
      let (r, w') = is_known_device store ctx account fingerprint w in (known r, w')
  ask ctx now (sees account fingerprint) w =
      let (r, w') = record_seen store now ctx account fingerprint w in (done r, w')
  ask ctx now (marks account fingerprint) w =
      let (r, w') = mark_device_trusted store now ctx account fingerprint w in (done r, w')
  ask ctx now (looks account fingerprint) w =
      let (r, w') = lookup_device store ctx account fingerprint w in (found r, w')

  unfoldable pub answers : Context → List (ℤ × Call) → W → List Answer
  answers ctx [] w = []
  answers ctx ((now, c) ∷ cs) w = let (a, w') = ask ctx now c w in a ∷ answers ctx cs w'

abbrev pub fingerprint_in : Call → String
fingerprint_in (knows account fingerprint) = fingerprint
fingerprint_in (sees account fingerprint) = fingerprint
fingerprint_in (marks account fingerprint) = fingerprint
fingerprint_in (looks account fingerprint) = fingerprint

-- No fingerprint has a colon, and encoding/json can write the times.
abbrev pub AllPlain : List (ℤ × Call) → Type 0
AllPlain [] = Unit {0}
AllPlain ((now, c) ∷ cs) = IsYear now × Lacks b':' (fingerprint_in c) × AllPlain cs

module _ (R : Records) (prefix : String) where
  -- The same answer, and stores that hold the same after it.
  abbrev Agrees : {A : Type 0} → A × R.Server → A × Devices → Type 0
  Agrees x y = (x.0 ≡ y.0) × Holds R prefix y.1 x.1

  Agrees-fail_if :
      {A : Type 0} (refused : Bool) (e : Error) (act : Action R.Server A) (act' : Action Devices A)
      (m : Devices) (s : R.Server)
      → Holds R prefix m s
      → Agrees (act s) (act' m)
      → Agrees ((fail_if refused e >> act) s) ((fail_if refused e >> act') m)
  Agrees-fail_if true e act act' m s h agrees = (refl, h)
  Agrees-fail_if false e act act' m s h agrees = agrees

  Agrees-then :
      {A B : Type 0} (f : Result A → B) (x : Result A × R.Server) (y : Result A × Devices)
      → Agrees x y
      → Agrees (f x.0, x.1) (f y.0, y.1)
  Agrees-then f x y h = (ap f h.0, h.1)

  -- What follows a call that answers and leaves the server as it was.
  Agrees-bind :
      {A B : Type 0} (act : Action R.Server A) (k : A → Action R.Server B) (x : A) (s : R.Server)
      (y : Result B × Devices)
      → act s ≡ (ok x, s)
      → Agrees (k x s) y
      → Agrees ((act >>= k) s) y
  Agrees-bind {A = A} {B = B} act k x s y e h =
      let after = λ (r : Result A × R.Server).
        let (a, s') = r in
        elim a as (λ q. Result B × R.Server) [ ok v ↦ k v s' | err w ↦ (err w, s') ] in
      subst (λ r. Agrees (after r) y) (sym e) h

  get-Agrees :
      (a f : String) (m : Devices) (s : R.Server)
      → Holds R prefix m s
      → Lacks b':' f
      → Agrees (redis_get R prefix delivered a f s) (memory_get a f m)
  unfolding memory_get
  get-Agrees a f m s h plain =
      let same = redis_get-Holds R prefix a f m s h plain in
      (ap (λ r. r.0) same, subst (Holds R prefix m) (sym (ap (λ r. r.1) same)) h)

  module _ (laws : RecordLaws R) where
    save-Agrees :
        (a f : String) (rec : DeviceRecord) (m : Devices) (s : R.Server)
        → Holds R prefix m s
        → Lacks b':' f
        → IsYear rec.first_seen
        → IsYear rec.last_seen
        → Agrees
            (save R prefix delivered a f rec s)
            (ok tt, insert a (insert f rec (devices_of a m)) m)
    save-Agrees a f rec m s h plain first last =
        let (s', same, holds) = save-Holds R prefix laws a f rec m s h plain first last in
        (
          ap (λ r. r.0) same,
          subst (Holds R prefix (insert a (insert f rec (devices_of a m)) m))
              (sym (ap (λ r. r.1) same)) holds,
        )

    upsert-Agrees :
        (a f : String) (now : ℤ) (m : Devices) (s : R.Server)
        → Holds R prefix m s
        → Lacks b':' f
        → IsYear now
        → Agrees
            (redis_upsert_seen R prefix delivered delivered a f now s)
            (memory_upsert_seen a f now m)
    unfolding redis_upsert_seen memory_upsert_seen
    upsert-Agrees a f now m s h plain year =
        let (first, last) =
          seen_record-years R prefix (R.get (device_key R prefix a f) s) f now (account_key a f m)
            (h a f plain) year in
        Agrees-bind (redis_get R prefix delivered a f)
          (λ o. save R prefix delivered a f (seen_record f now o)) (account_key a f m) s
          (memory_upsert_seen a f now m) (redis_get-Holds R prefix a f m s h plain)
          (save-Agrees a f (seen_record f now (account_key a f m)) m s h plain first last)

    mark-Agrees :
        (a f : String) (now : ℤ) (m : Devices) (s : R.Server)
        → Holds R prefix m s
        → Lacks b':' f
        → IsYear now
        → Agrees
            (redis_mark_trusted R prefix delivered delivered a f now s)
            (memory_mark_trusted a f now m)
    unfolding redis_mark_trusted memory_mark_trusted
    mark-Agrees a f now m s h plain year =
        let (first, last) =
          seen_record-years R prefix (R.get (device_key R prefix a f) s) f now (account_key a f m)
            (h a f plain) year in
        Agrees-bind (redis_get R prefix delivered a f)
          (λ o. save R prefix delivered a f (record (seen_record f now o) { trusted = true }))
          (account_key a f m) s (memory_mark_trusted a f now m)
          (redis_get-Holds R prefix a f m s h plain)
          (save-Agrees a f (record (seen_record f now (account_key a f m)) { trusted = true }) m s h
            plain first last)

    ask-Agrees :
        (ctx : Context) (now : ℤ) (c : Call) (m : Devices) (s : R.Server)
        → Holds R prefix m s
        → Lacks b':' (fingerprint_in c)
        → IsYear now
        → Agrees (ask (redis_store R prefix) ctx now c s) (ask memory_store ctx now c m)
    unfolding ask is_known_device record_seen mark_device_trusted lookup_device memory_get
    ask-Agrees ctx now (knows a f) m s h plain year =
        let trusted : Option DeviceRecord → Bool =
          λ o. elim o [ none ↦ false | some rec ↦ rec.trusted ] in
        Agrees-then known (is_known_device (redis_store R prefix) ctx a f s)
          (is_known_device memory_store ctx a f m)
          (Agrees-fail_if (text_eq a "" || text_eq f "") (sentinel device_key_required)
            (redis_get R prefix delivered a f >>= (λ o. pure (trusted o)))
            (memory_get a f >>= (λ o. pure (trusted o))) m s h
            (Agrees-bind (redis_get R prefix delivered a f) (λ o. pure (trusted o))
              (account_key a f m) s ((memory_get a f >>= (λ o. pure (trusted o))) m)
              (redis_get-Holds R prefix a f m s h plain) (refl, h)))
    ask-Agrees ctx now (sees a f) m s h plain year =
        Agrees-then done (record_seen (redis_store R prefix) now ctx a f s)
          (record_seen memory_store now ctx a f m)
          (Agrees-fail_if (text_eq a "" || text_eq f "") (sentinel device_key_required)
            (redis_upsert_seen R prefix delivered delivered a f now) (memory_upsert_seen a f now) m
            s h (upsert-Agrees a f now m s h plain year))
    ask-Agrees ctx now (marks a f) m s h plain year =
        Agrees-then done (mark_device_trusted (redis_store R prefix) now ctx a f s)
          (mark_device_trusted memory_store now ctx a f m)
          (Agrees-fail_if (text_eq a "" || text_eq f "") (sentinel device_key_required)
            (redis_mark_trusted R prefix delivered delivered a f now) (memory_mark_trusted a f now)
            m s h (mark-Agrees a f now m s h plain year))
    ask-Agrees ctx now (looks a f) m s h plain year =
        Agrees-then found (lookup_device (redis_store R prefix) ctx a f s)
          (lookup_device memory_store ctx a f m)
          (Agrees-fail_if (text_eq a "" || text_eq f "") (sentinel device_key_required)
            (redis_get R prefix delivered a f) (memory_get a f) m s h (get-Agrees a f m s h plain))

    answers-Agree :
        (ctx : Context) (cs : List (ℤ × Call)) (m : Devices) (s : R.Server)
        → Holds R prefix m s
        → AllPlain cs
        → answers (redis_store R prefix) ctx cs s ≡ answers memory_store ctx cs m
    unfolding answers
    answers-Agree ctx [] m s h plain = refl
    answers-Agree ctx ((now, c) ∷ cs) m s h (year, lacks, plain) =
        let (same, holds) = ask-Agrees ctx now c m s h lacks year in
        let rest =
          answers-Agree ctx cs (ask memory_store ctx now c m).1
            (ask (redis_store R prefix) ctx now c s).1 holds plain in
        cc (same, rest)

    -- Over a server that keeps to the documented law of SET and holds nothing at first, and an
    -- encoding/json that reads a device record as it was written, if its times are in the years 0
    -- to 9999: any delivered calls of the client over the Redis device store, for any accounts and
    -- fingerprints without a colon, at any times in these years, get the same answers and errors
    -- as over the in-memory store, empty at first.
    pub redis_devices-eq_memory :
        (ctx : Context) (cs : List (ℤ × Call)) (s : R.Server)
        → ((key : String) → R.get key s ≡ none)
        → AllPlain cs
        → answers (redis_store R prefix) ctx cs s ≡ answers memory_store ctx cs []
    unfolding account_key lookup
    redis_devices-eq_memory ctx cs s fresh plain =
        answers-Agree ctx cs [] s (λ a f lacks. rw (fresh (device_key R prefix a f)) tt) plain
