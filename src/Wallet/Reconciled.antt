-- ===== src/Wallet/Reconciled.antt =====
-- The wallet of example/wallet/wallet.go over the in-memory ledger: its total against Ledger.Balance.
use floodguard_rate_limiter.Prelude.{
  ap, ◌∙◌, String, List, [], ◌∷◌, ◌++◌, ◌≡◌, refl, ◌≢◌, arith, ◌⊎◌,
}
use floodguard_rate_limiter.Prelude.Int.{
  ℤ, pos, wrap64, max_int64, min_int64, IsInt64, wrap64-eq_self, +ℤ_parts, -ℤ_parts, eq_of_parts,
  ◌+ℤ◌, ◌-ℤ◌, ◌≤ℤ◌, int_laws,
}
use floodguard_rate_limiter.Prelude.Dict.{lookup}
use floodguard_rate_limiter.Errors.{Error, Result, ok, err}
use floodguard_rate_limiter.Ledger.{
  Printing, Record, Records, record_transaction, records_of, memory_append, memory_list,
  memory_store, next_record, sum_amounts, balance, tx_deposit, tx_withdrawal, tx_bet_settle,
}
use floodguard_rate_limiter.Ledger.Chain.{Entry, records_of-enter}
use floodguard_rate_limiter.Wallet.{
  Account, Op, new_account, neg64, hold, release, validate_amount, available_cents, with_hold,
  refusal, settled, deposit, withdraw, settle_bet, apply,
}
use floodguard_rate_limiter.Wallet.Exact.{IsSound, signed_amount, apply-Moves, sub64-exact}

sum_amounts-append :
    (acc : ℤ) (rs : List Record) (r : Record)
    → sum_amounts acc (rs ++ r ∷ []) ≡ wrap64 (sum_amounts acc rs +ℤ r.amount)
unfolding sum_amounts
sum_amounts-append acc [] r = refl
sum_amounts-append acc (s ∷ rs) r = sum_amounts-append (wrap64 (acc +ℤ s.amount)) rs r

-- What Balance answers for the wallet's account.
abbrev recorded : Records → ℤ
recorded m = sum_amounts (pos 0) (records_of "acct" m)

-- Amounts that the operations accept: `int64` values other than MinInt64.
abbrev pub AreAmounts : List (ℤ × Op) → Type 0
AreAmounts [] = Unit {0}
AreAmounts (x ∷ ops) = IsInt64 x.1.amount × (x.1.amount ≢ min_int64) × AreAmounts ops

module _ (P : Printing) where
  next_record-amount :
      (rs : List Record) (at : ℤ) (account : String) (amount : ℤ) (tx actor source : String)
      → (next_record P rs at account amount tx actor source).amount ≡ amount
  unfolding next_record
  next_record-amount rs at account amount tx actor source = refl

  record-succeeds :
      (now amount : ℤ) (tx actor source : String) (m : Records)
      → (r : Record) × ((record_transaction P memory_store now "acct" amount tx actor source m).0
          ≡ ok r)
  unfolding record_transaction memory_list memory_append
  record-succeeds now amount tx actor source m = (_, refl)

  -- A record of the wallet is added to the ledger's sum.
  record-adds :
      (now amount : ℤ) (tx actor source : String) (m : Records)
      → recorded (record_transaction P memory_store now "acct" amount tx actor source m).1
        ≡ wrap64 (recorded m +ℤ amount)
  record-adds now amount tx actor source m =
      let e : Entry = record {
        at = now;
        account = "acct";
        amount = amount;
        tx_type = tx;
        actor = actor;
        source = source;
      } in
      let rs = records_of "acct" m in
      let rec = next_record P rs now "acct" amount tx actor source in
      let added : records_of "acct"
            (record_transaction P memory_store now "acct" amount tx actor source m).1
          ≡ rs ++ rec ∷ [] =
        records_of-enter P "acct" e m in
      rw added (
        sum_amounts-append (pos 0) rs rec
        ∙ ap (λ n. wrap64 (recorded m +ℤ n))
            (next_record-amount rs now "acct" amount tx actor source))

  -- What an operation does to the ledger's sum.
  abbrev Adds : ℤ → Records → Result (Unit {0}) × (Account × Records) → Type 0
  Adds n m (r, (b, m')) =
      ((r ≡ ok tt) × (recorded m' ≡ wrap64 (recorded m +ℤ n)))
      ⊎ ((e : Error) × (r ≡ err e) × (m' ≡ m))

  deposit-Adds :
      (now amount : ℤ) (actor source : String) (a : Account) (m : Records)
      → Adds amount m (deposit P memory_store now amount actor source (a, m))
  unfolding deposit validate_amount
  deposit-Adds now amount actor source a m = ground (
    arith,
    record-succeeds now amount tx_deposit actor source m,
    record-adds now amount tx_deposit actor source m,
  )

  withdraw-Adds :
      (now amount : ℤ) (actor source : String) (a : Account) (m : Records)
      → IsInt64 amount
      → Adds (pos 0 -ℤ amount) m (withdraw P memory_store now amount actor source (a, m))
  unfolding withdraw validate_amount available_cents with_hold hold release
  withdraw-Adds now amount actor source a m i = ground (
    arith,
    sub64-exact (pos 0) amount,
    -ℤ_parts (pos 0) amount,
    record-succeeds now (neg64 amount) tx_withdrawal actor source m,
    record-adds now (neg64 amount) tx_withdrawal actor source m,
  )

  settle_bet-Adds :
      (now delta : ℤ) (actor source : String) (a : Account) (m : Records)
      → Adds delta m (settle_bet P memory_store now delta actor source (a, m))
  unfolding settle_bet refusal settled
  settle_bet-Adds now delta actor source a m = ground (
    arith,
    record-succeeds now delta tx_bet_settle actor source m,
    record-adds now delta tx_bet_settle actor source m,
  )

  apply-Adds :
      (now : ℤ) (op : Op) (a : Account) (m : Records)
      → IsInt64 op.amount
      → IsInt64 (recorded m)
      → Adds (signed_amount op) m (apply P memory_store now op (a, m))
  unfolding apply signed_amount
  apply-Adds now op a m i j = ground (
    arith,
    wrap64-eq_self (recorded m) j,
    +ℤ_parts (recorded m) (pos 0),
    eq_of_parts (recorded m +ℤ pos 0) (recorded m),
    deposit-Adds now op.amount "test" "property" a m,
    withdraw-Adds now op.amount "test" "property" a m i,
    settle_bet-Adds now op.amount "test" "property" a m,
  )

  -- The wallet between operations, with the ledger's sum what the total gained.
  abbrev Reconciles : ℤ → Account × Records → Type 0
  Reconciles c (a, m) = IsSound a × (recorded m ≡ a.total_cents -ℤ c)

  gained :
      (c n : ℤ) (a b : Account)
      → pos 0 ≤ℤ c
      → c ≤ℤ max_int64
      → IsSound a
      → IsSound b
      → b.total_cents ≡ a.total_cents +ℤ n
      → wrap64 ((a.total_cents -ℤ c) +ℤ n) ≡ b.total_cents -ℤ c
  gained c n a b l h s t e =
      let same : (a.total_cents -ℤ c) +ℤ n ≡ b.total_cents -ℤ c = rw e (grind int_laws) in
      rw same (wrap64-eq_self (b.total_cents -ℤ c) (ground (arith, -ℤ_parts b.total_cents c)))

  apply-Reconciles :
      (c now : ℤ) (op : Op) (a : Account) (m : Records)
      → pos 0 ≤ℤ c
      → c ≤ℤ max_int64
      → IsInt64 op.amount
      → op.amount ≢ min_int64
      → Reconciles c (a, m)
      → Reconciles c (apply P memory_store now op (a, m)).1
  apply-Reconciles c now op a m l h i n k =
      let s = apply P memory_store now op (a, m) in
      let total = a.total_cents in
      ground (
        arith,
        k,
        apply-Moves P memory_store now op a m k.0 i n,
        apply-Adds now op a m i (rw (k.1) (ground (arith, k, -ℤ_parts a.total_cents c))),
        gained c (signed_amount op) a s.1.0 l h,
      )

  start : (c : ℤ) → pos 0 ≤ℤ c → c ≤ℤ max_int64 → Reconciles c (new_account c, [])
  unfolding new_account records_of lookup sum_amounts
  start c l h = ((refl, l, h), grind int_laws)

  -- A sequence of operations by Apply, each at a time; an operation that fails is skipped.
  unfoldable pub apply_all : List (ℤ × Op) → Account × Records → Account × Records
  apply_all [] s = s
  apply_all (x ∷ ops) s = apply_all ops (apply P memory_store x.0 x.1 s).1

  apply_all-Reconciles :
      (c : ℤ) (ops : List (ℤ × Op)) (s : Account × Records)
      → pos 0 ≤ℤ c
      → c ≤ℤ max_int64
      → AreAmounts ops
      → Reconciles c s
      → Reconciles c (apply_all ops s)
  unfolding apply_all
  apply_all-Reconciles c [] s l h a k = k
  apply_all-Reconciles c (x ∷ ops) s l h a k =
      apply_all-Reconciles c ops (apply P memory_store x.0 x.1 s).1 l h a.2
        (apply-Reconciles c x.0 x.1 s.0 s.1 l h a.0 a.1 k)

  -- From a new account with an initial amount between 0 and MaxInt64 and an empty in-memory
  -- ledger, after any sequence of operations by Apply, with any int64 amounts but MinInt64,
  -- nothing is on hold, the total lies between 0 and MaxInt64, and the ledger's Balance answers
  -- exactly the total less the initial amount.
  pub apply_all-balance :
      (c : ℤ) (ops : List (ℤ × Op))
      → pos 0 ≤ℤ c
      → c ≤ℤ max_int64
      → AreAmounts ops
      → let (a, m) = apply_all ops (new_account c, []) in
        IsSound a × (balance memory_store "acct" m ≡ (ok (a.total_cents -ℤ c), m))
  unfolding balance memory_list
  apply_all-balance c ops l h a =
      let k = apply_all-Reconciles c ops (new_account c, []) l h a (start c l h) in
      (k.0, rw (k.1) refl)
