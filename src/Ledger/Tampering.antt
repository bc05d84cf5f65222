-- ===== src/Ledger/Tampering.antt =====
-- Which changes to stored records VerifyChainIntegrity of ledger/ledger.go notices.
use floodguard_rate_limiter.Prelude.{
  ℕ, zero, suc, ◌+◌, ap, String, str_append, some, List, [], ◌∷◌, ◌≡◌, refl, ◌≢◌, arith, eq_iff,
  Option-cases, inl, inr, get_elem?,
}
use text.Mathlib.TextLemmas.{append_assoc}
use floodguard_rate_limiter.Errors.{ok}
use floodguard_rate_limiter.Ledger.{
  Record, Printing, Records, set_hash, genesis_hash, hash_record, walk, join, records_of,
  memory_list, memory_store, memory_set_record_hash, verify_chain_integrity,
}
use floodguard_rate_limiter.Ledger.Chain.{IsChain, records_of-insert}

-- At an index in range the hash can be set.
set_hash-found :
    (i : ℕ) (hash : String) (rs : List Record) (r : Record)
    → get_elem? rs i ≡ some r
    → (rs' : List Record) × (set_hash i hash rs ≡ some rs')
unfolding set_hash
set_hash-found i hash [] r g = cc
set_hash-found zero hash (s ∷ rs) r g = (record s { record_hash = hash } ∷ rs, refl)
set_hash-found (suc i) hash (s ∷ rs) r g =
    let (rs', e) = set_hash-found i hash rs r g in (s ∷ rs', rw e refl)

module _ (P : Printing) where
  -- In a chain, another hash in any record is found at that record, by its number.
  pub walk-set_hash :
      (n i : ℕ) (prev hash : String) (rs rs' : List Record)
      → IsChain P prev rs
      → set_hash i hash rs ≡ some rs'
      → (r : Record) → get_elem? rs i ≡ some r
      → hash ≢ r.record_hash
      → walk P n prev rs' ≡ some (suc (n + i), "record_hash mismatch")
  unfolding walk set_hash hash_record
  walk-set_hash n i prev hash [] rs' c e r g ne = cc
  walk-set_hash n zero prev hash (s ∷ rs) rs' c e r g ne =
      let found : rs' ≡ record s { record_hash = hash } ∷ rs = cc in
      rw found (ground (arith, eq_iff s.prev_hash prev, eq_iff hash (hash_record P s)))
  walk-set_hash n (suc i) prev hash (s ∷ rs) rs' c e r g ne =
      elim (Option-cases (set_hash i hash rs)) [
        | inl missing ↦ cc
        | inr (ts, found) ↦
            (let later = walk-set_hash (suc n) i s.record_hash hash rs ts c.2 found r g ne in
              let split : rs' ≡ s ∷ ts = ground (arith, found) in
              rw split (
                ground
                  (arith, later, eq_iff s.prev_hash prev, eq_iff s.record_hash (hash_record P s))))
      ]

  -- When the account's records in the in-memory store form a chain, SetRecordHashForTest can give
  -- the record at an index in range another hash, and VerifyChainIntegrity then reports a
  -- record_hash mismatch at that record, by its number from 1.
  tampered_hash-found :
      (account hash : String) (i : ℕ) (r : Record) (m : Records)
      → IsChain P (genesis_hash P) (records_of account m)
      → get_elem? (records_of account m) i ≡ some r
      → hash ≢ r.record_hash
      → let (set, m') = memory_set_record_hash account i hash m in
        (set ≡ ok tt)
        × ((verify_chain_integrity P memory_store account m').0
            ≡ ok (some (suc i, "record_hash mismatch")))
  unfolding memory_set_record_hash verify_chain_integrity memory_list
  tampered_hash-found account hash i r m c g ne =
      let (rs, found) = set_hash-found i hash (records_of account m) r g in
      let broken =
        walk-set_hash 0 i (genesis_hash P) hash (records_of account m) rs c found r g ne in
      rw (found, memory_set_record_hash)
        (
          refl,
          ground (arith, records_of-insert account account rs m, eq_iff account account, broken),
        )

  -- The text of an actor and a source, joined by a bar, when a part between bars moves across.
  moved :
      (a b c t : String)
      → str_append (str_append a (str_append "|" b)) (str_append "|" (str_append c t))
        ≡ str_append a (str_append "|" (str_append (str_append b (str_append "|" c)) t))
  moved a b c t = cc (
    append_assoc a (str_append "|" b) (str_append "|" (str_append c t)),
    append_assoc "|" b (str_append "|" (str_append c t)),
    append_assoc b (str_append "|" c) t,
    append_assoc "|" c t,
  )

  -- For every record and every digest, moving a part of the source that ends in a bar into the
  -- actor leaves the record's hash the same.
  pub hash_record-moved :
      (r : Record) (a b c : String)
      → hash_record P (record r { actor_id = str_append a (str_append "|" b); source = c })
        ≡ hash_record P (record r { actor_id = a; source = str_append b (str_append "|" c) })
  unfolding hash_record join
  hash_record-moved r a b c =
      let bar : String → String → String = λ s t. str_append s (str_append "|" t) in
      ap
        (λ t.
          P.digest
            (bar r.prev_hash (bar r.account_id (bar (P.format_int r.amount) (bar r.tx_type t)))))
        (moved a b c (str_append "|" (P.format_time r.created_at)))
