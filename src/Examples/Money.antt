-- ===== src/Examples/Money.antt =====
-- The theorems on the ledger and the wallet at concrete transactions.
use floodguard_rate_limiter.Prelude.{
  str_append, none, some, List, [], ◌∷◌, ◌≡◌, refl, ◌≢◌, ◌↔◌, arith, get_elem?,
}
use floodguard_rate_limiter.Prelude.Int.{ℤ, pos, negsuc, ◌+ℤ◌, ◌-ℤ◌, ◌<ℤ◌, min_int64}
use floodguard_rate_limiter.Prelude.Dict.{lookup, insert}
use floodguard_rate_limiter.Errors.{ok}
use floodguard_rate_limiter.Ledger.{
  Record, Printing, Records, records_of, memory_list, memory_append, memory_store, genesis_hash,
  hash_record, next_record, record_transaction, verify_chain_integrity, balance, tx_bet_settle,
}
use floodguard_rate_limiter.Ledger.Chain.{Entry, IsChain, enter_all, verify_iff, verify-enter_all}
use floodguard_rate_limiter.Ledger.Tampering.{hash_record-moved}
use floodguard_rate_limiter.Wallet.{Account, Op, new_account, apply, settle_bet}
use floodguard_rate_limiter.Wallet.Exact.{
  IsSound, Moves, signed_amount, apply-Moves, settle_bet-overflows,
}
use floodguard_rate_limiter.Wallet.Reconciled.{AreAmounts, apply_all, apply_all-balance}

-- A digest and printers that can be computed.
abbrev marked : Printing
marked = record { digest = λ s. str_append "#" s; format_int = λ n. "n"; format_time = λ t. "t" }

abbrev entries : List Entry
entries =
    record {
      at = pos 1;
      account = "alice";
      amount = pos 500;
      tx_type = "deposit";
      actor = "ops";
      source = "api";
    }
    ∷ record {
      at = pos 2;
      account = "bob";
      amount = pos 70;
      tx_type = "deposit";
      actor = "ops";
      source = "api";
    }
    ∷ record {
      at = pos 3;
      account = "alice";
      amount = negsuc 99;
      tx_type = "withdrawal";
      actor = "ops";
      source = "api";
    }
    ∷ []

abbrev recorded_entries : Records
recorded_entries = enter_all marked entries []

verify-enter_all_example :
    verify_chain_integrity marked memory_store "alice" recorded_entries
    ≡ (ok none, recorded_entries)
verify-enter_all_example = verify-enter_all marked "alice" entries

verify_iff_example :
    (verify_chain_integrity marked memory_store "alice" recorded_entries
      ≡ (ok none, recorded_entries))
    ↔ IsChain marked (genesis_hash marked) (records_of "alice" recorded_entries)
verify_iff_example = verify_iff marked "alice" recorded_entries

alice-IsChain : IsChain marked (genesis_hash marked) (records_of "alice" recorded_entries)
alice-IsChain =
    (verify_iff marked "alice" recorded_entries).0 (verify-enter_all marked "alice" entries)

-- The first record of the account.
abbrev first_record : Record
first_record = next_record marked [] (pos 1) "alice" (pos 500) "deposit" "ops" "api"

first_record-found : get_elem? (records_of "alice" recorded_entries) 0 ≡ some first_record
unfolding records_of enter_all record_transaction memory_list memory_append next_record hash_record
    lookup insert
first_record-found = refl

hash_record-moved_example :
    hash_record marked
      (record first_record { actor_id = str_append "ops" (str_append "|" "api"); source = "web" })
    ≡ hash_record marked
        (record first_record { actor_id = "ops"; source = str_append "api" (str_append "|" "web") })
hash_record-moved_example = hash_record-moved marked first_record "ops" "api" "web"

-- A deposit, a withdrawal that is too large, a win, a loss and an unknown kind.
abbrev ops : List (ℤ × Op)
ops =
    (pos 1, record { kind = "deposit"; amount = pos 500 })
    ∷ (pos 2, record { kind = "withdraw"; amount = pos 9000 })
    ∷ (pos 3, record { kind = "settle"; amount = pos 40 })
    ∷ (pos 4, record { kind = "settle"; amount = negsuc 99 })
    ∷ (pos 5, record { kind = "transfer"; amount = pos 1 })
    ∷ []

pos≢min : (n : _) → pos n ≢ min_int64
pos≢min n e = cc

loss≢min : negsuc 99 ≢ min_int64
loss≢min e = ground arith

ops-AreAmounts : AreAmounts ops
ops-AreAmounts = (
  (omega arith, omega arith),
  pos≢min 500,
  (
    (omega arith, omega arith),
    pos≢min 9000,
    (
      (omega arith, omega arith),
      pos≢min 40,
      ((omega arith, omega arith), loss≢min, ((omega arith, omega arith), pos≢min 1, tt)),
    ),
  ),
)

apply_all-balance_example :
    let (a, m) = apply_all marked ops (new_account (pos 1000), []) in
    IsSound a × (balance memory_store "acct" m ≡ (ok (a.total_cents -ℤ pos 1000), m))
apply_all-balance_example =
    apply_all-balance marked (pos 1000) ops (omega arith) (omega arith) ops-AreAmounts

abbrev thousand : Account
thousand = record { total_cents = pos 1000; pending_withdraw = pos 0 }

thousand-IsSound : IsSound thousand
thousand-IsSound = (refl, omega arith, omega arith)

apply-Moves_example :
    Moves (signed_amount (record { kind = "withdraw"; amount = pos 300 })) thousand (
      apply marked memory_store
        (pos 1)
        (record { kind = "withdraw"; amount = pos 300 })
        (thousand, []))
apply-Moves_example =
    apply-Moves marked memory_store (pos 1) (record { kind = "withdraw"; amount = pos 300 })
      thousand [] thousand-IsSound (omega arith, omega arith) (pos≢min 300)

abbrev min_recorded : Records
min_recorded =
    (record_transaction marked memory_store (pos 1) "acct" min_int64 tx_bet_settle "u" "api" []).1

min_recorded-ok :
    record_transaction marked memory_store (pos 1) "acct" min_int64 tx_bet_settle "u" "api" []
    ≡ (ok (next_record marked [] (pos 1) "acct" min_int64 tx_bet_settle "u" "api"), min_recorded)
unfolding record_transaction memory_list memory_append records_of lookup
min_recorded-ok = refl

settle_bet-overflows_example :
    let (res, (b, v)) = settle_bet marked memory_store (pos 1) min_int64 "u" "api" (thousand, []) in
    (res ≡ ok tt) × (b.total_cents ≡ pos 1000 +ℤ min_int64) × (b.total_cents <ℤ pos 0)
settle_bet-overflows_example =
    settle_bet-overflows marked memory_store (pos 1) "u" "api" thousand [] min_recorded
      (next_record marked [] (pos 1) "acct" min_int64 tx_bet_settle "u" "api") thousand-IsSound
      min_recorded-ok
