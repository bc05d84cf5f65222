-- ===== src/App/Service.antt =====
-- example/app/service.go: the accounts of the example server and its handlers, over any worlds of the
-- ledger, the devices, the counter and the sender of alerts. Each handler is one step; accounts are
-- pointers, so a change of one is written back to the map.
use floodguard_rate_limiter.Prelude.{
  ℕ, String, Bool, false, Option, none, some, List, [], ◌∷◌, text_eq, if◌then◌else◌, ◌||◌,
}
use floodguard_rate_limiter.Prelude.Int.{ℤ, pos, ◌-ℤ◌}
use floodguard_rate_limiter.Prelude.Dict.{Dict, lookup, insert}
use floodguard_rate_limiter.Errors.{
  Context, Error, Result, ok, err, sentinel, invalid_amount, overflow,
}
use floodguard_rate_limiter.Ledger
use floodguard_rate_limiter.Ledger.{Printing}
use floodguard_rate_limiter.Wallet
use floodguard_rate_limiter.Wallet.{Account, new_account, available_cents}
use floodguard_rate_limiter.DeviceTrust
use floodguard_rate_limiter.DeviceTrust.{is_known_device, mark_device_trusted}
use floodguard_rate_limiter.Anomaly.{Floats, Detector, record_event}
use floodguard_rate_limiter.Notify.{Notifier, after_sensitive_action}

-- What the handlers read of a request: the account header, the fingerprint of its headers (a hash,
-- of golang's library), the amount that its body decodes to, if it does, and its address.
pub record Request : Type 0 where
  pub context : Context
  pub account_id : String
  pub fingerprint : String
  pub amount_cents : Option ℤ
  pub remote_addr : String

pub data Value : Type 0 where
  text : String → Value
  number : ℤ → Value
  error_text : Error → Value

-- A status and the fields of the JSON body.
pub record Reply : Type 0 where
  pub status : ℕ
  pub fields : List (String × Value)

abbrev error_reply : ℕ → Value → Reply
error_reply status message = record { status = status; fields = ("error", message) ∷ [] }

pub record Service (L D C N : Type 0) : Type 0 where
  pub accounts : Dict Account
  pub created : Dict ℤ
  pub ledger : L
  pub devices : D
  pub counts : C
  pub notifier : Option (Notifier N)

-- The accounts and the times of `NewService` at time `now`; 30 days in nanoseconds.
unfoldable pub seeded : ℤ → List (String × ℤ) → Dict Account × Dict ℤ
seeded now [] = ([], [])
seeded now (entry ∷ seed) =
    let (accounts, created) = seeded now seed in
    (
      insert entry.0 (new_account entry.1) accounts,
      insert entry.0 (now -ℤ pos 2592000000000000) created,
    )

-- `if err == wallet.ErrInvalidAmount || err == wallet.ErrOverflow`
abbrev pub status_of : Error → ℕ
status_of (sentinel invalid_amount) = 400
status_of (sentinel overflow) = 400
status_of e = 402

abbrev balance_fields : String → Account → List (String × Value)
balance_fields account_id a =
    ("account_id", text account_id)
    ∷ ("balance_cents", number a.total_cents)
    ∷ ("available_cents", number (available_cents a))
    ∷ []

abbrev is_known : Result Bool → Bool
is_known (ok b) = b
is_known (err e) = false

module _ (P : Printing) (F : Floats) {L D C N : Type 0} (ledger_store : Ledger.Store L)
    (device_store : DeviceTrust.Store D) (detector : Detector F C) where
  -- `NewService`
  unfoldable pub new_service :
      ℤ → List (String × ℤ) → L → D → C → Option (Notifier N) → Service L D C N
  unfolding seeded
  new_service now seed ledger devices counts notifier =
      let (accounts, created) = seeded now seed in
      record {
        accounts = accounts;
        created = created;
        ledger = ledger;
        devices = devices;
        counts = counts;
        notifier = notifier;
      }

  -- `AccountAge` at time `now`
  unfoldable pub account_age : ℤ → String → Service L D C N → ℤ
  account_age now account_id s = elim (lookup account_id s.created) [
    | none ↦ pos 0
    | some t ↦ now -ℤ t
  ]

  -- The account of the request, made with nothing in it when there is none.
  unfoldable pub ensure_account : ℤ → String → Service L D C N → Account × Service L D C N
  ensure_account now account_id s = elim (lookup account_id s.accounts) [
    | some a ↦ (a, s)
    | none ↦ (
      new_account (pos 0),
      record s {
        accounts = insert account_id (new_account (pos 0)) s.accounts;
        created = insert account_id now s.created;
      },
    )
  ]

  -- The alert on a device that is not known.
  unfoldable pub alert : ℤ → Request → Service L D C N → Service L D C N
  alert now r s =
      let (answer, devices) =
        is_known_device device_store r.context r.account_id r.fingerprint s.devices in
      let s' = record s { devices = devices } in
      if is_known answer then s' else elim s.notifier [
        | none ↦ s'
        | some n ↦ record s' {
          notifier =
              some
                (after_sensitive_action now r.account_id "withdraw" r.fingerprint r.remote_addr n);
        }
      ]

  -- `Withdraw` after the decoding, on the account
  unfoldable pub withdraw_from :
      ℤ → Request → ℤ → Account → Service L D C N → Reply × Service L D C N
  unfolding alert
  withdraw_from now r amount a s =
      let (res, (b, ledger)) =
        Wallet.withdraw P ledger_store now amount r.account_id "api" (a, s.ledger) in
      let s' = record s { accounts = insert r.account_id b s.accounts; ledger = ledger } in
      elim res [
        | err e ↦ (error_reply (status_of e) (error_text e), s')
        | ok u ↦ (
          record {
            status = 200;
            fields =
                ("status", text "completed")
                ∷ ("amount_cents", number amount)
                ∷ balance_fields r.account_id b;
          },
          alert now r s',
        )
      ]

  -- `Withdraw` at time `now`; what the counter answers is dropped.
  unfoldable pub withdraw : ℤ → Request → Service L D C N → Reply × Service L D C N
  unfolding ensure_account withdraw_from
  withdraw now r s = elim r.amount_cents [
    | none ↦ (error_reply 400 (text "invalid json"), s)
    | some amount ↦
        let (ignored, counts) =
          record_event F detector now r.context "withdrawal_attempts" (pos 1) s.counts in
        let (a, s') = ensure_account now r.account_id (record s { counts = counts }) in
        withdraw_from now r amount a s'
  ]

  -- `TrustDevice`
  unfoldable pub trust_device : ℤ → Request → Service L D C N → Reply × Service L D C N
  unfolding ensure_account
  trust_device now r s =
      let (a, s') = ensure_account now r.account_id s in
      let (answer, devices) =
        mark_device_trusted device_store now r.context r.account_id r.fingerprint s'.devices in
      let done = record s' { devices = devices } in
      if text_eq r.account_id "" || text_eq r.fingerprint ""
      then (error_reply 400 (text "X-Account-ID and X-Device-ID required"), s)
      else elim answer [
        | err e ↦ (error_reply 500 (text "trust failed"), done)
        | ok u ↦ (
          record {
            status = 200;
            fields =
                ("status", text "trusted")
                ∷ ("account_id", text r.account_id)
                ∷ ("fingerprint", text r.fingerprint)
                ∷ [];
          },
          done,
        )
      ]

  -- `Balance`
  unfoldable pub balance : Request → Service L D C N → Reply
  balance r s =
      if text_eq r.account_id ""
      then error_reply 400 (text "X-Account-ID required")
      else elim (lookup r.account_id s.accounts) [
        | none ↦ record {
          status = 200;
          fields =
              ("account_id", text r.account_id)
              ∷ ("balance_cents", number (pos 0))
              ∷ ("available_cents", number (pos 0))
              ∷ [];
        }
        | some a ↦ record { status = 200; fields = balance_fields r.account_id a }
      ]
