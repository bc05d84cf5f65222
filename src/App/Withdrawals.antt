-- ===== src/App/Withdrawals.antt =====
-- The withdrawals of example/app/service.go, on the balances of its accounts.
use floodguard_rate_limiter.Prelude.{
  ℕ, sym, subst, ◌∙◌, String, none, some, [], ◌∷◌, ◌≡◌, refl, ◌≢◌, arith, eq_iff, Option-cases, inl,
  inr, ◌⊎◌,
}
use floodguard_rate_limiter.Prelude.Int.{ℤ, pos, ◌+ℤ◌, ◌-ℤ◌}
use floodguard_rate_limiter.Prelude.Dict.{
  Dict, lookup, insert, erase, lookup-insert, lookup-insert_self,
}
use floodguard_rate_limiter.Prelude.Int.{IsInt64}
use floodguard_rate_limiter.Errors.{Error}
use floodguard_rate_limiter.Ledger
use floodguard_rate_limiter.Ledger.{Printing}
use floodguard_rate_limiter.Wallet
use floodguard_rate_limiter.Wallet.{Account, new_account}
use floodguard_rate_limiter.Wallet.Exact.{IsSound, withdraw-Moves}
use floodguard_rate_limiter.DeviceTrust
use floodguard_rate_limiter.Anomaly.{Floats, Detector, record_event}
use floodguard_rate_limiter.App.Service.{
  Request, Service, status_of, ensure_account, alert, withdraw_from, withdraw,
}

-- Every account is one between operations, with a balance that an `int64` holds.
abbrev pub AllSound : Dict Account → Type 0
AllSound [] = Unit {0}
AllSound (entry ∷ rest) = IsSound entry.1 × AllSound rest

-- The account of a name, or the one that a first withdrawal makes.
abbrev pub account_of : String → Dict Account → Account
account_of id m = elim (lookup id m) [ none ↦ new_account (pos 0) | some a ↦ a ]

-- A reply 200 moves exactly the amount, and any other leaves the account.
abbrev pub Settles : ℤ → Account → ℕ → Account → Type 0
Settles amount a status b =
    ((status ≡ 200) × (b.total_cents ≡ a.total_cents +ℤ (pos 0 -ℤ amount)) × IsSound b)
    ⊎ ((status ≢ 200) × (b ≡ a))

status_of-ne : (e : Error) → status_of e ≢ 200
status_of-ne e h = ground (arith, h)

erase-AllSound : (id : String) (m : Dict Account) → AllSound m → AllSound (erase id m)
unfolding erase
erase-AllSound id [] h = tt
erase-AllSound id (entry ∷ rest) h = ground (arith, erase-AllSound id rest h.1)

insert-AllSound :
    (id : String) (b : Account) (m : Dict Account)
    → IsSound b
    → AllSound m
    → AllSound (insert id b m)
unfolding insert
insert-AllSound id b m s h = (s, erase-AllSound id m h)

account_of-IsSound : (id : String) (m : Dict Account) → AllSound m → IsSound (account_of id m)
unfolding lookup new_account
account_of-IsSound id [] h = (refl, omega arith, omega arith)
account_of-IsSound id (entry ∷ rest) h = ground (arith, account_of-IsSound id rest h.1)

new_account-IsSound : IsSound (new_account (pos 0))
unfolding new_account
new_account-IsSound = (refl, omega arith, omega arith)

insert_other :
    (id other : String) (b : Account) (m : Dict Account)
    → (id ≡ other) ⊎ (lookup other (insert id b m) ≡ lookup other m)
insert_other id other b m = ground (arith, lookup-insert id other b m, eq_iff id other)

account_of-insert :
    (id : String) (b : Account) (m : Dict Account) → account_of id (insert id b m) ≡ b
account_of-insert id b m = ground (arith, lookup-insert_self id b m)

Settles-IsSound :
    (amount : ℤ) (a b : Account) (status : ℕ) → IsSound a → Settles amount a status b → IsSound b
Settles-IsSound amount a b status s (inl h) = h.2
Settles-IsSound amount a b status s (inr h) = subst IsSound (sym h.1) s

Settles-eq :
    (amount : ℤ) {a a' : Account} {status : ℕ} {b : Account}
    → a ≡ a'
    → Settles amount a status b
    → Settles amount a' status b
Settles-eq amount {a} {a'} {status} {b} e h = subst (λ (x : Account). Settles amount x status b) e h

module _ (P : Printing) (F : Floats) {L D C N : Type 0} (ledger_store : Ledger.Store L)
    (device_store : DeviceTrust.Store D) (detector : Detector F C) where
  alert-accounts :
      (now : ℤ) (r : Request) (s : Service L D C N)
      → (alert P F ledger_store device_store detector now r s).accounts ≡ s.accounts
  unfolding alert
  alert-accounts now r s = ground arith

  withdraw_from-Settles :
      (now amount : ℤ) (r : Request) (a : Account) (s : Service L D C N)
      → IsSound a
      → IsInt64 amount
      → let (reply, s') = withdraw_from P F ledger_store device_store detector now r amount a s in
        Settles amount a reply.status
          (Wallet.withdraw P ledger_store now amount r.account_id "api" (a, s.ledger)).1.0
  unfolding withdraw_from
  withdraw_from-Settles now amount r a s sound i =
      let moves = withdraw-Moves P ledger_store now amount r.account_id "api" a s.ledger sound i in
      elim moves [
        | inl m ↦ inl (ground (arith, m.0), m.1, m.2)
        | inr (e, failed, same) ↦
            let (reply, s') =
              withdraw_from P F ledger_store device_store detector now r amount a s in
            let status : reply.status ≡ status_of e = ground (arith, failed) in
            inr (λ h. status_of-ne e (sym status ∙ h), same)
      ]

  withdraw_from-accounts :
      (now amount : ℤ) (r : Request) (a : Account) (s : Service L D C N)
      → (withdraw_from P F ledger_store device_store detector now r amount a s).1.accounts
        ≡ insert r.account_id
            (Wallet.withdraw P ledger_store now amount r.account_id "api" (a, s.ledger)).1.0
            s.accounts
  unfolding withdraw_from
  withdraw_from-accounts now amount r a s =
      let (res, (b, ledger)) =
        Wallet.withdraw P ledger_store now amount r.account_id "api" (a, s.ledger) in
      ground (
        arith,
        alert-accounts now r
            (record s { accounts = insert r.account_id b s.accounts; ledger = ledger }),
      )

  ensure_account-lem :
      (now : ℤ) (id other : String) (s : Service L D C N)
      → AllSound s.accounts
      → let (a, s') = ensure_account P F ledger_store device_store detector now id s in
        (a ≡ account_of id s.accounts)
        × ((id ≡ other) ⊎ (lookup other s'.accounts ≡ lookup other s.accounts))
        × AllSound s'.accounts
  unfolding ensure_account
  ensure_account-lem now id other s h = elim (Option-cases (lookup id s.accounts)) [
    | inl e ↦
        rw (e, ensure_account, account_of)
          (
            refl,
            insert_other id other (new_account (pos 0)) s.accounts,
            insert-AllSound id (new_account (pos 0)) s.accounts new_account-IsSound h,
          )
    | inr (a, e) ↦ rw (e, ensure_account, account_of) (refl, inr refl, h)
  ]

  withdraw_from-keeps :
      (now amount : ℤ) (r : Request) (other : String) (a : Account) (s : Service L D C N)
      → IsInt64 amount
      → IsSound a
      → AllSound s.accounts
      → let (reply, s') = withdraw_from P F ledger_store device_store detector now r amount a s in
        Settles amount a reply.status (account_of r.account_id s'.accounts)
        × ((r.account_id ≡ other) ⊎ (lookup other s'.accounts ≡ lookup other s.accounts))
        × AllSound s'.accounts
  withdraw_from-keeps now amount r other a s i sound h =
      let id = r.account_id in
      let b = (Wallet.withdraw P ledger_store now amount id "api" (a, s.ledger)).1.0 in
      let settles = withdraw_from-Settles now amount r a s sound i in
      let reply = (withdraw_from P F ledger_store device_store detector now r amount a s).0 in
      let goal = λ (m : Dict Account).
        Settles amount a reply.status (account_of id m)
        × ((id ≡ other) ⊎ (lookup other m ≡ lookup other s.accounts))
        × AllSound m in
      subst goal (sym (withdraw_from-accounts now amount r a s)) (
        subst (Settles amount a reply.status) (sym (account_of-insert id b s.accounts)) settles,
        insert_other id other b s.accounts,
        insert-AllSound id b s.accounts (Settles-IsSound amount a b reply.status sound settles) h,
      )

  -- In a service whose accounts all have nothing on hold and a total between 0 and MaxInt64, a
  -- withdrawal of any int64 amount, for any account name and over any stores, either replies 200
  -- and takes exactly the amount from the account's total, or replies with another status and
  -- leaves the account as it was, one with nothing in it being made where there was none; no other
  -- account changes, and all accounts still have nothing on hold and a total between 0 and
  -- MaxInt64.
  pub withdraw-Settles :
      (now amount : ℤ) (r : Request) (other : String) (s : Service L D C N)
      → r.amount_cents ≡ some amount
      → IsInt64 amount
      → AllSound s.accounts
      → let (reply, s') = withdraw P F ledger_store device_store detector now r s in
        Settles amount
          (account_of r.account_id s.accounts)
          reply.status
          (account_of r.account_id s'.accounts)
        × ((r.account_id ≡ other) ⊎ (lookup other s'.accounts ≡ lookup other s.accounts))
        × AllSound s'.accounts
  unfolding withdraw
  withdraw-Settles now amount r other s e i h =
      let counts =
        (record_event F detector now r.context "withdrawal_attempts" (pos 1) s.counts).1 in
      let (same, rest, all) =
        ensure_account-lem now r.account_id other (record s { counts = counts }) h in
      let (a, s') =
        ensure_account P F ledger_store device_store detector now r.account_id
          (record s { counts = counts }) in
      let sound = subst IsSound (sym same) (account_of-IsSound r.account_id s.accounts h) in
      let (settles, rest', all') = withdraw_from-keeps now amount r other a s' i sound all in
      rw e (Settles-eq amount same settles, ground (arith, rest, rest'), all')
