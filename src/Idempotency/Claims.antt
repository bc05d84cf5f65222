-- ===== src/Idempotency/Claims.antt =====
-- Histories of claims and completions against the in-memory store of idempotency/memory.go.
use floodguard_rate_limiter.Prelude.{
  ap, ◌∙◌, ap, ◌∙◌, String, true, false, some, List, [], ◌∷◌, ◌≡◌, refl, ◌≢◌, arith, text_eq,
  eq_iff, if◌then◌else◌, Bool-cases, inl, inr, ◌||◌,
}
use floodguard_rate_limiter.Prelude.Int.{ℤ, ◌+ℤ◌, ◌≤ℤ◌, ◌<ℤ◌}
use floodguard_rate_limiter.Prelude.Dict.{
  lookup, insert, erase, lookup-insert, lookup-insert_self, lookup-erase,
}
use floodguard_rate_limiter.Errors.{Bytes, ok}
use floodguard_rate_limiter.Idempotency.{
  ClaimResult, MemoryEntry, Entries, memory_claim, memory_complete, to_process, replay, busy,
  is_present, claim_entry,
}

-- One call of the store: a claim with its ttl, or a completion with its response and ttl.
pub data Call : Type 0 where
  claims : String → ℤ → Call
  completes : String → Bytes → ℤ → Call

-- The entries after a call made at a time.
unfoldable pub after : ℤ → Call → Entries → Entries
after now (claims key ttl) m = (memory_claim now key ttl m).1
after now (completes key response ttl) m = (memory_complete now key response ttl m).1

pub run : List (ℤ × Call) → Entries → Entries
run [] m = m
run ((now, c) ∷ cs) m = run cs (after now c m)

-- A call that is no completion of the key.
abbrev pub IsOther : String → Call → Type 0
IsOther k (claims key ttl) = Unit {0}
IsOther k (completes key response ttl) = key ≢ k

-- Every call of the history is made by `expiry`, and none completes `k`.
abbrev pub Within : String → ℤ → List (ℤ × Call) → Type 0
Within k expiry [] = Unit {0}
Within k expiry ((now, c) ∷ cs) = (now ≤ℤ expiry) × IsOther k c × Within k expiry cs

-- An entry that a claim does not replace while it lives.
abbrev pub IsSettled : MemoryEntry → Type 0
IsSettled e = (is_present e.value || e.in_flight) ≡ true

-- A claim of another key.
memory_claim_ne :
    (k key : String) (now ttl : ℤ) (m : Entries)
    → text_eq key k ≡ false
    → lookup k (memory_claim now key ttl m).1 ≡ lookup k m
unfolding memory_claim
memory_claim_ne k key now ttl m h =
    let entry = claim_entry (now +ℤ ttl) in
    ground (
      arith,
      lookup-insert key k entry m,
      lookup-insert key k entry (erase key m),
      lookup-erase key k m,
    )

-- The answer to a claim of a key with a live settled entry.
abbrev pub answer : MemoryEntry → ClaimResult
answer e = if is_present e.value then replay e.value else busy

pub memory_claim_settled :
    (k : String) (now ttl : ℤ) (m : Entries) (e : MemoryEntry)
    → IsSettled e
    → lookup k m ≡ some e
    → now ≤ℤ e.expires_at
    → k ≢ ""
    → memory_claim now k ttl m ≡ (ok (answer e), m)
unfolding memory_claim
memory_claim_settled k now ttl m e s h l n = ground (arith, eq_iff k "")

memory_claim_empty : (now ttl : ℤ) (m : Entries) → (memory_claim now "" ttl m).1 ≡ m
unfolding memory_claim
memory_claim_empty now ttl m = refl

pub after-keeps :
    (k : String) (now : ℤ) (c : Call) (m : Entries) (e : MemoryEntry)
    → IsSettled e
    → lookup k m ≡ some e
    → now ≤ℤ e.expires_at
    → IsOther k c
    → lookup k (after now c m) ≡ some e
unfolding after memory_complete
after-keeps k now (completes key response ttl) m e s h l o =
    rw (lookup-insert key k) (ground (arith, eq_iff key k))
after-keeps k now (claims key ttl) m e s h l o = elim (Bool-cases (text_eq key k)) [
  | inr other ↦ memory_claim_ne k key now ttl m other ∙ h
  | inl same ↦ rw ((eq_iff key k).0 same) (elim (Bool-cases (text_eq k "")) [
    | inl empty ↦ let z = (eq_iff k "").0 empty in cc (memory_claim_empty now ttl m)
    | inr named ↦ cc (memory_claim_settled k now ttl m e s h l (λ z. cc ((eq_iff k "").1 z)))
  ])
]

run-keeps :
    (k : String) (cs : List (ℤ × Call)) (m : Entries) (e : MemoryEntry)
    → IsSettled e
    → lookup k m ≡ some e
    → Within k e.expires_at cs
    → lookup k (run cs m) ≡ some e
unfolding run
run-keeps k [] m e s h w = h
run-keeps k ((now, c) ∷ cs) m e s h w =
    run-keeps k cs (after now c m) e s (after-keeps k now c m e s h w.0 w.1) w.2

pub claim_process :
    (k : String) (now ttl : ℤ) (m : Entries)
    → (memory_claim now k ttl m).0 ≡ ok to_process
    → (k ≢ "") × (lookup k (memory_claim now k ttl m).1 ≡ some (claim_entry (now +ℤ ttl)))
unfolding memory_claim
claim_process k now ttl m h =
    let entry = claim_entry (now +ℤ ttl) in
    ground
      (arith, eq_iff k "", lookup-insert_self k entry m, lookup-insert_self k entry (erase k m))

-- Against the in-memory idempotency store: after a claim that was told to process, a claim of the
-- same key by the time the first one expires is told that the request is in flight, whatever
-- claims of any keys and completions of other keys were made in between, by that time.
pub claim_exclusive :
    (k : String) (now later ttl ttl' : ℤ) (m : Entries) (cs : List (ℤ × Call))
    → (memory_claim now k ttl m).0 ≡ ok to_process
    → Within k (now +ℤ ttl) cs
    → later ≤ℤ now +ℤ ttl
    → (memory_claim later k ttl' (run cs (memory_claim now k ttl m).1)).0 ≡ ok busy
claim_exclusive k now later ttl ttl' m cs h w l =
    let (n, e) = claim_process k now ttl m h in
    let m' = run cs (memory_claim now k ttl m).1 in
    ap (λ r. r.0)
      (memory_claim_settled k later ttl' m' (claim_entry (now +ℤ ttl)) refl
        (run-keeps k cs (memory_claim now k ttl m).1 (claim_entry (now +ℤ ttl)) refl e w) l n)

-- Against the in-memory idempotency store: after a completion of a key that is not empty with a
-- response that is not empty, a claim of the key by the time the response expires gets that
-- response, whatever claims of any keys and completions of other keys were made in between, by
-- that time.
pub complete_replays :
    (k : String) (now later ttl ttl' : ℤ) (body : Bytes) (m : Entries) (cs : List (ℤ × Call))
    → k ≢ ""
    → is_present body ≡ true
    → Within k (now +ℤ ttl) cs
    → later ≤ℤ now +ℤ ttl
    → (memory_claim later k ttl' (run cs (memory_complete now k body ttl m).1)).0 ≡ ok (replay body)
unfolding memory_complete
complete_replays k now later ttl ttl' body m cs n b w l =
    let e : MemoryEntry = record { in_flight = false; value = body; expires_at = now +ℤ ttl } in
    let s : IsSettled e = ground arith in
    let m' = insert k e m in
    ap (λ r. r.0)
      (memory_claim_settled k later ttl' (run cs m') e s
        (run-keeps k cs m' e s (lookup-insert_self k e m) w) l n)
    ∙ rw b

-- In the in-memory idempotency store, a claim of a key that is not empty and whose entry, of any
-- kind, has expired is told to process, and the key's entry is then an open claim that lasts the
-- new ttl.
claim_expired :
    (k : String) (now ttl : ℤ) (m : Entries) (e : MemoryEntry)
    → k ≢ ""
    → lookup k m ≡ some e
    → e.expires_at <ℤ now
    → let (r, m') = memory_claim now k ttl m in
      (r ≡ ok to_process) × (lookup k m' ≡ some (claim_entry (now +ℤ ttl)))
unfolding memory_claim
claim_expired k now ttl m e n h l =
    ground (arith, eq_iff k "", lookup-insert_self k (claim_entry (now +ℤ ttl)) (erase k m))

-- In the in-memory idempotency store, after a completion of a key that is not empty with an empty
-- response, the next claim of the key is told to process, at any time.
complete_empty_reopens :
    (k : String) (now later ttl ttl' : ℤ) (m : Entries)
    → k ≢ ""
    → (memory_claim later k ttl' (memory_complete now k [] ttl m).1).0 ≡ ok to_process
unfolding memory_claim memory_complete
complete_empty_reopens k now later ttl ttl' m n = ground (
  arith,
  eq_iff k "",
  lookup-insert_self k (record { in_flight = false; value = []; expires_at = now +ℤ ttl }) m,
)
