-- ===== src/Wallet.antt =====
-- example/wallet/wallet.go: an account's balance in minor units, whose changes go through the ledger.
pub mod Exact
pub mod Reconciled
use floodguard_rate_limiter.Prelude.{◌+◌, ◌-◌, String, Option, none, some, text_eq, if◌then◌else◌}
use floodguard_rate_limiter.Prelude.Int.{ℤ, pos, wrap64, max_int64, ◌+ℤ◌, ◌-ℤ◌, ltb_ℤ, leb_ℤ}
use floodguard_rate_limiter.Errors.{
  Action, Error, ok, err, sentinel, insufficient_funds, invalid_amount, overflow, ◌>>=◌, ◌>>◌, pure,
  fail_if,
}
use floodguard_rate_limiter.Ledger.{
  Printing, Store, record_transaction, tx_deposit, tx_withdrawal, tx_bet_settle,
}

pub record Account : Type 0 where
  pub total_cents : ℤ
  pub pending_withdraw : ℤ

unfoldable pub new_account : ℤ → Account
new_account initial_cents = record { total_cents = initial_cents; pending_withdraw = pos 0 }

-- Arithmetic on `int64`.
abbrev pub add64 : ℤ → ℤ → ℤ
add64 a b = wrap64 (a +ℤ b)

abbrev pub sub64 : ℤ → ℤ → ℤ
sub64 a b = wrap64 (a -ℤ b)

abbrev pub neg64 : ℤ → ℤ
neg64 a = sub64 (pos 0) a

unfoldable pub available_cents : Account → ℤ
available_cents a = sub64 a.total_cents a.pending_withdraw

-- `validateAmount`; `math.MaxInt64/2` rounds down.
unfoldable pub validate_amount : {W : Type 0} → ℤ → Action W (Unit {0})
validate_amount amount = do
  fail_if (leb_ℤ amount (pos 0)) (sentinel invalid_amount)
  fail_if (ltb_ℤ (pos 4611686018427387903) amount) (sentinel overflow)

-- A kind of operation and its amount; for a settlement the amount is the signed change.
pub record Op : Type 0 where
  pub kind : String
  pub amount : ℤ

unfoldable pub hold : ℤ → Account → Account
hold amount a = record a { pending_withdraw = add64 a.pending_withdraw amount }

unfoldable pub release : ℤ → Account → Account
release amount a = record a { pending_withdraw = sub64 a.pending_withdraw amount }

-- The guard and the change of `SettleBet`.
unfoldable pub refusal : ℤ → Account → Option Error
refusal delta a =
    if ltb_ℤ (pos 0) delta
    then (if ltb_ℤ (sub64 max_int64 delta) a.total_cents then some (sentinel overflow) else none)
    else if ltb_ℤ delta (pos 0)
    then (if ltb_ℤ a.total_cents (neg64 delta) then some (sentinel insufficient_funds) else none)
    else none

unfoldable pub settled : ℤ → Account → Account
settled delta a =
    if ltb_ℤ (pos 0) delta
    then record a { total_cents = add64 a.total_cents delta }
    else if ltb_ℤ delta (pos 0)
    then record a { total_cents = sub64 a.total_cents (neg64 delta) }
    else a

-- The account and the ledger's state, each with its part of the actions.
module _ {W : Type 0} where
  abbrev pub load : Action (Account × W) Account
  load s = (ok s.0, s)

  abbrev pub save : Account → Action (Account × W) (Unit {0})
  save a s = (ok tt, (a, s.1))

  abbrev pub on_ledger {ℓ} : {A : Type ℓ} → Action W A → Action (Account × W) A
  on_ledger act s = let (r, w) = act s.1 in (r, (s.0, w))

  -- A body between a hold and its deferred release.
  unfoldable pub with_hold : ℤ → Action (Account × W) (Unit {0}) → Action (Account × W) (Unit {0})
  unfolding hold release
  with_hold amount body (a, w) =
      let (r, s) = body (hold amount a, w) in (r, (release amount s.0, s.1))

module _ (P : Printing) {W : Type 0} (store : Store W) where
  -- `RecordTransaction` for the one account of the wallet, at time `now`.
  abbrev pub record_amount : ℤ → ℤ → String → String → String → Action (Account × W) (Unit {0})
  record_amount now amount tx actor source = do
    _ ← on_ledger (record_transaction P store now "acct" amount tx actor source)
    pure tt

  unfoldable pub deposit : ℤ → ℤ → String → String → Action (Account × W) (Unit {0})
  unfolding validate_amount
  deposit now amount actor source = do
    validate_amount amount
    a ← load
    fail_if (ltb_ℤ (sub64 max_int64 amount) a.total_cents) (sentinel overflow)
    record_amount now amount tx_deposit actor source
    save (record a { total_cents = add64 a.total_cents amount })

  unfoldable pub withdraw : ℤ → ℤ → String → String → Action (Account × W) (Unit {0})
  unfolding validate_amount available_cents with_hold
  withdraw now amount actor source = do
    validate_amount amount
    a ← load
    fail_if (ltb_ℤ (available_cents a) amount) (sentinel insufficient_funds)
    fail_if (ltb_ℤ a.total_cents amount) (sentinel insufficient_funds)
    with_hold amount (do
      record_amount now (neg64 amount) tx_withdrawal actor source
      b ← load
      save (record b { total_cents = sub64 b.total_cents amount }))

  unfoldable pub settle_bet : ℤ → ℤ → String → String → Action (Account × W) (Unit {0})
  unfolding refusal settled
  settle_bet now delta actor source (a, w) = elim (refusal delta a) [
    | some e ↦ (err e, (a, w))
    | none ↦ (do record_amount now delta tx_bet_settle actor source; save (settled delta a)) (a, w)
  ]

  -- `Apply` at time `now`.
  unfoldable pub apply : ℤ → Op → Action (Account × W) (Unit {0})
  unfolding deposit withdraw settle_bet
  apply now op =
      if text_eq op.kind "deposit"
      then deposit now op.amount "test" "property"
      else if text_eq op.kind "withdraw"
      then withdraw now op.amount "test" "property"
      else if text_eq op.kind "settle"
      then settle_bet now op.amount "test" "property"
      else pure tt
