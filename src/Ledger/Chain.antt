-- ===== src/Ledger/Chain.antt =====
-- What the hash chain of ledger/ledger.go guarantees over the in-memory store.
use floodguard_rate_limiter.Prelude.{
  ℕ, suc, String, none, List, [], ◌∷◌, ◌++◌, ◌≡◌, refl, ◌↔◌, arith, text_eq, eq_iff, if◌then◌else◌,
  Bool-cases, inl, inr,
}
use floodguard_rate_limiter.Prelude.Int.{ℤ}
use floodguard_rate_limiter.Prelude.Dict.{lookup, insert, lookup-insert}
use floodguard_rate_limiter.Errors.{Result, ok}
use floodguard_rate_limiter.Ledger.{
  Record, Printing, Records, records_of, memory_append, memory_list, memory_store, genesis_hash,
  hash_record, last_hash, next_record, walk, record_transaction, verify_chain_integrity,
}

pub records_of-insert :
    (k j : String) (rs : List Record) (m : Records)
    → records_of k (insert j rs m) ≡ (if text_eq j k then rs else records_of k m)
unfolding records_of
records_of-insert k j rs m = ground (arith, lookup-insert j k rs m)

-- One call of RecordTransaction.
pub record Entry : Type 0 where
  pub at : ℤ
  pub account : String
  pub amount : ℤ
  pub tx_type : String
  pub actor : String
  pub source : String

module _ (P : Printing) where
  -- Each record links to the one before it and carries its own hash.
  abbrev pub IsChain : String → List Record → Type 0
  IsChain prev [] = Unit {0}
  IsChain prev (r ∷ rs) =
      (r.prev_hash ≡ prev) × (r.record_hash ≡ hash_record P r) × IsChain r.record_hash rs

  -- The loop finds nothing exactly in a chain.
  walk-none_iff :
      (i : ℕ) (prev : String) (rs : List Record) → (walk P i prev rs ≡ none) ↔ IsChain prev rs
  unfolding walk
  walk-none_iff i prev [] = (λ h. tt, λ c. refl)
  walk-none_iff i prev (r ∷ rs) = (
    λ h. ground (
      arith,
      eq_iff r.prev_hash prev,
      eq_iff r.record_hash (hash_record P r),
      (walk-none_iff (suc i) r.record_hash rs).0,
    ),
    λ c. ground (
      arith,
      eq_iff r.prev_hash prev,
      eq_iff r.record_hash (hash_record P r),
      (walk-none_iff (suc i) r.record_hash rs).1 c.2,
    ),
  )

  -- Over the in-memory store, VerifyChainIntegrity reports no break, and leaves the store as it
  -- was, exactly when each of the account's records links to the hash before it, the first to the
  -- genesis hash, and carries its own hash.
  pub verify_iff :
      (account : String) (m : Records)
      → ((verify_chain_integrity P memory_store account m ≡ (ok none, m))
          ↔ IsChain (genesis_hash P) (records_of account m))
  unfolding verify_chain_integrity memory_list
  verify_iff account m = (
    λ h. (walk-none_iff 0 (genesis_hash P) (records_of account m)).0 (ground arith),
    λ c. ground (arith, (walk-none_iff 0 (genesis_hash P) (records_of account m)).1 c),
  )

  last : String → List Record → String
  last prev [] = prev
  last prev (r ∷ rs) = last r.record_hash rs

  last_hash-last : (rs : List Record) → last_hash P rs ≡ last (genesis_hash P) rs
  unfolding last_hash last
  last_hash-last [] = refl
  last_hash-last (r ∷ []) = refl
  last_hash-last (r ∷ s ∷ rs) = last_hash-last (s ∷ rs)

  IsChain-append :
      (prev : String) (rs : List Record) (r : Record)
      → IsChain prev rs
      → r.prev_hash ≡ last prev rs
      → r.record_hash ≡ hash_record P r
      → IsChain prev (rs ++ r ∷ [])
  unfolding last
  IsChain-append prev [] r c l h = (l, h, tt)
  IsChain-append prev (s ∷ rs) r c l h = (c.0, c.1, IsChain-append s.record_hash rs r c.2 l h)

  abbrev pub enter : Entry → Records → Result Record × Records
  enter e = record_transaction P memory_store e.at e.account e.amount e.tx_type e.actor e.source

  next_record-account :
      (rs : List Record) (at : ℤ) (account : String) (amount : ℤ) (tx actor source : String)
      → (next_record P rs at account amount tx actor source).account_id ≡ account
  unfolding next_record
  next_record-account rs at account amount tx actor source = refl

  -- The records of an account after a call: one more, if it is the call's account and it is named.
  pub records_of-enter :
      (k : String) (e : Entry) (m : Records)
      → records_of k (enter e m).1 ≡ (
          if text_eq e.account ""
          then records_of k m
          else if text_eq e.account k
          then records_of k m
            ++ next_record P (records_of k m) e.at k e.amount e.tx_type e.actor e.source ∷ []
          else records_of k m)
  unfolding record_transaction memory_list memory_append
  records_of-enter k e m =
      let rec =
        next_record P (records_of e.account m) e.at e.account e.amount e.tx_type e.actor e.source in
      let account : rec.account_id ≡ e.account =
        next_record-account (records_of e.account m) e.at e.account e.amount e.tx_type e.actor
          e.source in
      ground (
        arith,
        account,
        eq_iff e.account k,
        records_of-insert k rec.account_id (records_of rec.account_id m ++ rec ∷ []) m,
      )

  next_record-links :
      (k : String) (rs : List Record) (e : Entry)
      → IsChain (genesis_hash P) rs
      → IsChain
          (genesis_hash P)
          (rs ++ next_record P rs e.at k e.amount e.tx_type e.actor e.source ∷ [])
  unfolding next_record hash_record
  next_record-links k rs e c = IsChain-append (genesis_hash P) rs _ c (last_hash-last rs) refl

  enter-IsChain :
      (k : String) (e : Entry) (m : Records)
      → IsChain (genesis_hash P) (records_of k m)
      → IsChain (genesis_hash P) (records_of k (enter e m).1)
  enter-IsChain k e m c = rw (records_of-enter k e m) (elim (Bool-cases (text_eq e.account "")) [
    | inl empty ↦ rw empty c
    | inr named ↦ rw named (elim (Bool-cases (text_eq e.account k)) [
      | inl same ↦ rw same (next_record-links k (records_of k m) e c)
      | inr other ↦ rw other c
    ])
  ])

  unfoldable pub enter_all : List Entry → Records → Records
  enter_all [] m = m
  enter_all (e ∷ es) m = enter_all es (enter e m).1

  enter_all-IsChain :
      (k : String) (es : List Entry) (m : Records)
      → IsChain (genesis_hash P) (records_of k m)
      → IsChain (genesis_hash P) (records_of k (enter_all es m))
  unfolding enter_all
  enter_all-IsChain k [] m c = c
  enter_all-IsChain k (e ∷ es) m c = enter_all-IsChain k es (enter e m).1 (enter-IsChain k e m c)

  -- Over the in-memory store, empty at first: whatever transactions are recorded by
  -- RecordTransaction, one call after another, for any accounts and in any order,
  -- VerifyChainIntegrity finds no break in any account.
  pub verify-enter_all :
      (k : String) (es : List Entry)
      → verify_chain_integrity P memory_store k (enter_all es []) ≡ (ok none, enter_all es [])
  unfolding records_of lookup
  verify-enter_all k es = (verify_iff k (enter_all es [])).1 (enter_all-IsChain k es [] tt)
