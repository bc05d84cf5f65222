-- ===== src/Ledger.antt =====
-- ledger/ledger.go and ledger/memory.go: hash-chained records, the in-memory store, and the ledger's
-- operations over any store.
pub mod Chain
pub mod Tampering
use floodguard_rate_limiter.Prelude.{
  ℕ, zero, suc, ◌+◌, ◌-◌, String, str_append, not, Option, none, some, List, [], ◌∷◌, ◌++◌, text_eq,
  if◌then◌else◌, length,
}
use floodguard_rate_limiter.Prelude.Int.{ℤ, pos, wrap64, ◌+ℤ◌}
use floodguard_rate_limiter.Prelude.Dict.{Dict, lookup, insert}
use floodguard_rate_limiter.Errors.{
  Action, ok, err, sentinel, foreign, ledger_key_required, ◌>>=◌, ◌>>◌, pure, fail_if,
}

pub record Record : Type 0 where
  pub id : ℤ
  pub account_id : String
  pub amount : ℤ
  pub tx_type : String
  pub actor_id : String
  pub source : String
  pub prev_hash : String
  pub record_hash : String
  pub created_at : ℤ

-- SHA-256 in hexadecimal, and the printing of numbers and of times (RFC3339Nano): any functions.
pub record Printing : Type 0 where
  pub digest : String → String
  pub format_int : ℤ → String
  pub format_time : ℤ → String

abbrev pub tx_deposit : String
tx_deposit = "deposit"

abbrev pub tx_withdrawal : String
tx_withdrawal = "withdrawal"

abbrev pub tx_bet_settle : String
tx_bet_settle = "bet_settlement"

pub record Store (W : Type 0) : Type 0 where
  pub append : Record → Action W Record
  pub list_by_account : String → Action W (List Record)

abbrev pub Records : Type 0
Records = Dict (List Record)

unfoldable pub records_of : String → Records → List Record
records_of account m = elim (lookup account m) [ none ↦ [] | some rs ↦ rs ]

-- `memoryStore.Append` and `memoryStore.ListByAccount`
unfoldable pub memory_append : Record → Action Records Record
memory_append rec m = (ok rec, insert rec.account_id (records_of rec.account_id m ++ rec ∷ []) m)

unfoldable pub memory_list : String → Action Records (List Record)
memory_list account m = (ok (records_of account m), m)

abbrev pub memory_store : Store Records
memory_store = record { append = memory_append; list_by_account = memory_list }

-- The record at an index with another hash; out of range there is none.
unfoldable pub set_hash : ℕ → String → List Record → Option (List Record)
set_hash i hash [] = none
set_hash zero hash (r ∷ rs) = some (record r { record_hash = hash } ∷ rs)
set_hash (suc i) hash (r ∷ rs) = elim (set_hash i hash rs) [
  | none ↦ none
  | some rs' ↦ some (r ∷ rs')
]

-- `memoryStore.SetRecordHashForTest`, at an index that is not negative.
unfoldable pub memory_set_record_hash : String → ℕ → String → Action Records (Unit {0})
unfolding set_hash
memory_set_record_hash account i hash m = elim (set_hash i hash (records_of account m)) [
  | none ↦ (err (foreign "ledger: index out of range"), m)
  | some rs ↦ (ok tt, insert account rs m)
]

-- `strings.Join`
unfoldable pub join : String → List String → String
join sep [] = ""
join sep (s ∷ []) = s
join sep (s ∷ t ∷ ss) = str_append s (str_append sep (join sep (t ∷ ss)))

module _ (P : Printing) where
  open P use {digest, format_int, format_time}

  unfoldable pub genesis_hash : String
  genesis_hash = digest "floodguard-ledger-genesis"

  unfoldable pub hash_record : Record → String
  unfolding join
  hash_record r = digest (
      join "|" (
        r.prev_hash
        ∷ r.account_id
        ∷ format_int r.amount
        ∷ r.tx_type
        ∷ r.actor_id
        ∷ r.source
        ∷ format_time r.created_at
        ∷ []))

  -- The hash that the next record links to.
  unfoldable pub last_hash : List Record → String
  last_hash [] = genesis_hash
  last_hash (r ∷ []) = r.record_hash
  last_hash (r ∷ s ∷ rs) = last_hash (s ∷ rs)

  -- The record that `RecordTransaction` makes at time `now`, after the existing ones.
  unfoldable pub next_record : List Record → ℤ → String → ℤ → String → String → String → Record
  next_record existing now account amount tx actor source =
      let draft : Record = record {
        id = pos (length existing + 1);
        account_id = account;
        amount = amount;
        tx_type = tx;
        actor_id = actor;
        source = source;
        prev_hash = last_hash existing;
        record_hash = "";
        created_at = now;
      } in
      record draft { record_hash = hash_record draft }

  -- `VerifyChainIntegrity`'s loop, from record number `i` on: none, or where and why it broke.
  unfoldable pub walk : ℕ → String → List Record → Option (ℕ × String)
  walk i expected [] = none
  walk i expected (r ∷ rs) =
      let rest = walk (suc i) r.record_hash rs in
      if not (text_eq r.prev_hash expected)
      then some (suc i, "prev_hash mismatch")
      else if not (text_eq r.record_hash (hash_record r))
      then some (suc i, "record_hash mismatch")
      else rest

  module _ {W : Type 0} (store : Store W) where
    -- `Ledger.RecordTransaction`
    unfoldable pub record_transaction : ℤ → String → ℤ → String → String → String → Action W Record
    record_transaction now account amount tx actor source = do
      fail_if (text_eq account "") (sentinel ledger_key_required)
      existing ← store.list_by_account account
      store.append (next_record existing now account amount tx actor source)

    -- `Ledger.VerifyChainIntegrity`: where the chain breaks, if it does.
    unfoldable pub verify_chain_integrity : String → Action W (Option (ℕ × String))
    verify_chain_integrity account = do
      recs ← store.list_by_account account
      pure (walk 0 genesis_hash recs)

-- The loop of `Balance`, in `int64`.
unfoldable pub sum_amounts : ℤ → List Record → ℤ
sum_amounts acc [] = acc
sum_amounts acc (r ∷ rs) = sum_amounts (wrap64 (acc +ℤ r.amount)) rs

-- `Ledger.Balance`
unfoldable pub balance : {W : Type 0} → Store W → String → Action W ℤ
unfolding sum_amounts
balance store account = do recs ← store.list_by_account account; pure (sum_amounts (pos 0) recs)
