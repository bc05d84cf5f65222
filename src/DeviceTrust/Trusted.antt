-- ===== src/DeviceTrust/Trusted.antt =====
-- Which devices of devicetrust/devicetrust.go are known, after any history of calls.
use floodguard_rate_limiter.Prelude.{
  String, Bool, true, false, none, some, List, [], ◌∷◌, ◌≡◌, refl, ◌≢◌, arith, text_eq, eq_iff,
  if◌then◌else◌, ◌||◌, ◌&&◌,
}
use floodguard_rate_limiter.Prelude.Int.{ℤ}
use floodguard_rate_limiter.Prelude.Dict.{lookup, insert, lookup-insert}
use floodguard_rate_limiter.Errors.{ok, background}
use floodguard_rate_limiter.DeviceTrust.{
  DeviceRecord, Devices, devices_of, account_key, seen_record, memory_get, memory_upsert_seen,
  memory_mark_trusted, memory_store, is_known_device, record_seen, mark_device_trusted,
}

-- A call of the client that changes the store: its account and fingerprint.
pub data Call : Type 0 where
  sees : String → String → Call
  marks : String → String → Call

-- The store after a call at a time, whether or not it returns an error.
unfoldable pub after : ℤ → Call → Devices → Devices
after now (sees account fingerprint) m =
    (record_seen memory_store now background account fingerprint m).1
after now (marks account fingerprint) m =
    (mark_device_trusted memory_store now background account fingerprint m).1

unfoldable pub run : List (ℤ × Call) → Devices → Devices
run [] m = m
run (c ∷ cs) m = run cs (after c.0 c.1 m)

-- Whether a call marks this device of this account.
abbrev pub is_mark : String → String → Call → Bool
is_mark account fingerprint (sees a f) = false
is_mark account fingerprint (marks a f) = text_eq a account && text_eq f fingerprint

abbrev pub is_marked : String → String → List (ℤ × Call) → Bool
is_marked account fingerprint [] = false
is_marked account fingerprint (c ∷ cs) =
    let rest = is_marked account fingerprint cs in is_mark account fingerprint c.1 || rest

abbrev is_trusted : String → String → Devices → Bool
is_trusted account fingerprint m = elim (account_key account fingerprint m) [
  | none ↦ false
  | some rec ↦ rec.trusted
]

-- A device of the store after a write to a device.
pub account_key-insert :
    (a f account fingerprint : String) (rec : DeviceRecord) (m : Devices)
    → account_key a f (insert account (insert fingerprint rec (devices_of account m)) m)
      ≡ (if text_eq account a && text_eq fingerprint f then some rec else account_key a f m)
unfolding account_key
account_key-insert a f account fingerprint rec m =
    let acct = devices_of account m in
    ground (
      arith,
      eq_iff account a,
      lookup-insert account a (insert fingerprint rec acct) m,
      lookup-insert fingerprint f rec acct,
    )

is_trusted-after :
    (a f : String) (now : ℤ) (c : Call) (m : Devices)
    → a ≢ ""
    → f ≢ ""
    → is_trusted a f (after now c m) ≡ (is_mark a f c || is_trusted a f m)
unfolding after record_seen mark_device_trusted memory_upsert_seen memory_mark_trusted seen_record
is_trusted-after a f now (sees account fingerprint) m n n' =
    let rec = seen_record fingerprint now (account_key account fingerprint m) in
    ground (
      arith,
      eq_iff account a,
      eq_iff fingerprint f,
      account_key-insert a f account fingerprint rec m,
    )
is_trusted-after a f now (marks account fingerprint) m n n' =
    let rec = seen_record fingerprint now (account_key account fingerprint m) in
    ground (
      arith,
      eq_iff account a,
      eq_iff fingerprint f,
      eq_iff account "",
      eq_iff fingerprint "",
      account_key-insert a f account fingerprint (record rec { trusted = true }) m,
    )

is_trusted-run :
    (a f : String) (cs : List (ℤ × Call)) (m : Devices)
    → a ≢ ""
    → f ≢ ""
    → is_trusted a f (run cs m) ≡ (is_marked a f cs || is_trusted a f m)
unfolding run
is_trusted-run a f [] m n n' = refl
is_trusted-run a f (c ∷ cs) m n n' =
    ground
      (arith, is_trusted-run a f cs (after c.0 c.1 m) n n', is_trusted-after a f c.0 c.1 m n n')

-- After any history of RecordSeen and MarkDeviceTrusted calls over an empty in-memory store,
-- IsKnownDevice answers, for an account and a fingerprint that are not empty, whether the history
-- marks this device of this account: being seen, and what is done with other devices and accounts,
-- makes no difference.
pub is_known-iff_marked :
    (a f : String) (cs : List (ℤ × Call))
    → a ≢ ""
    → f ≢ ""
    → (is_known_device memory_store background a f (run cs [])).0 ≡ ok (is_marked a f cs)
unfolding is_known_device memory_get account_key lookup
is_known-iff_marked a f cs n n' =
    ground (arith, eq_iff a "", eq_iff f "", is_trusted-run a f cs [] n n')
