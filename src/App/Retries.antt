-- ===== src/App/Retries.antt =====
-- Requests to /withdraw of the example server that are sent again with their idempotency key.
use floodguard_rate_limiter.Prelude.{
  ◌+◌, ◌≤◌, subst, String, some, List, [], ◌∷◌, ◌≡◌, refl, ◌≢◌, arith, eq_iff, inl, inr, ◌⊎◌,
}
use floodguard_rate_limiter.Prelude.Int.{ℤ, ◌+ℤ◌, ◌≤ℤ◌}
use floodguard_rate_limiter.Prelude.Dict.{Dict}
use floodguard_rate_limiter.Prelude.Int.{IsInt64}
use floodguard_rate_limiter.Errors.{Action}
use floodguard_rate_limiter.Idempotency.{Entries}
use floodguard_rate_limiter.Guard.{Guard}
use floodguard_rate_limiter.Ledger
use floodguard_rate_limiter.Ledger.{Printing}
use floodguard_rate_limiter.Wallet.{Account}
use floodguard_rate_limiter.DeviceTrust
use floodguard_rate_limiter.Anomaly.{Floats, Detector}
use floodguard_rate_limiter.Lock.Token.{Random}
use floodguard_rate_limiter.Config.{Parsers, Config}
use floodguard_rate_limiter.Middleware.{HttpRequest, Options, NextHandler}
use floodguard_rate_limiter.Middleware.Serve.{handle}
use floodguard_rate_limiter.Middleware.Quiet.{served_in}
use floodguard_rate_limiter.Middleware.Keeps.{GuardKeeps}
use floodguard_rate_limiter.Middleware.Handled.{handle-Handles}
use floodguard_rate_limiter.Middleware.Memory.{OverMemory}
use floodguard_rate_limiter.Middleware.Once.{handle_all, handle_all-serves_once}
use floodguard_rate_limiter.App.Service.{Service}
use floodguard_rate_limiter.App.Withdrawals.{AllSound}
use floodguard_rate_limiter.App.Wiring.{Libraries, World}
use floodguard_rate_limiter.App.Settled.{IsSame, IsPaid}
use floodguard_rate_limiter.App.Paid.{of_service, time, options, inner, handle-settles}

module _ (lib : Libraries) (P : Printing) (F : Floats) {G L D C N : Type 0} (clock : G → ℤ × G)
    (random : Random G) (ledger_store : Ledger.Store L) (device_store : DeviceTrust.Store D)
    (detector : Detector F C) (Q : Parsers) (cfg : Config Q) (g : Guard (World G L D C N)) where
  abbrev at : Action (World G L D C N) ℤ
  at = time lib P F clock random ledger_store device_store detector Q cfg g

  abbrev opts : Options (World G L D C N)
  opts = options lib P F clock random ledger_store device_store detector Q cfg g

  abbrev next : NextHandler (World G L D C N)
  next = inner lib P F clock random ledger_store device_store detector Q cfg g

  -- Requests for one account with one amount and one idempotency key.
  abbrev pub AllAlike : String → String → ℤ → List HttpRequest → Type 0
  AllAlike k id amount [] = Unit {0}
  AllAlike k id amount (r ∷ rs) =
      (opts.idempotency_key_func r ≡ k)
      × (r.header "X-Account-ID" ≡ id)
      × (lib.decode_amount r.body ≡ some amount)
      × AllAlike k id amount rs

  module _
      (apart : (s : Service L D C N)
        → GuardKeeps (λ (v : World G L D C N). v.service ≡ s) g at opts) where
    -- A request that does not reach the wrapped handler keeps what is so of the service.
    unserved-keeps :
        (R : Service L D C N → Type 0) (r : HttpRequest) (w : World G L D C N)
        → served_in (handle g at opts next r w).1 ≡ 0
        → R w.service
        → R (handle g at opts next r w).2.service
    unserved-keeps R r w none_served h =
        elim (handle-Handles g at opts next (λ v. R v.service) (λ v. Unit {0})
          (of_service R g at opts apart) (of_service (λ s. Unit {0}) g at opts apart)
          (λ x. Unit {0}) (λ x v s p. tt) r (λ v x p found. tt) w h) [
            | inl (n, kept) ↦ kept
            | inr (n, done) ↦ absurd (omega (arith, n, none_served))
          ]

    module _ (k id : String) (amount : ℤ) where
      served_first :
          (r : HttpRequest) (rs : List HttpRequest) (w : World G L D C N)
          → opts.idempotency_key_func r ≡ k
          → let (o, es, w') = handle g at opts next r w in
            (handle_all g at opts next k (r ∷ rs) w).0
            ≡ served_in es + (handle_all g at opts next k rs w').0
      unfolding handle_all
      served_first r rs w e = ground (arith, eq_iff (opts.idempotency_key_func r) k, e)

      none_served-keeps :
          (R : Service L D C N → Type 0) (rs : List HttpRequest) (w : World G L D C N)
          → AllAlike k id amount rs
          → (handle_all g at opts next k rs w).0 ≡ 0
          → R w.service
          → R (handle_all g at opts next k rs w).1.service
      unfolding handle_all
      none_served-keeps R [] w a n h = h
      none_served-keeps R (r ∷ rs) w (e, named, decoded, rest) n h =
          let w' = (handle g at opts next r w).2 in
          let total = served_first r rs w e in
          none_served-keeps R rs w' rest (omega (arith, n, total))
            (unserved-keeps R r w (omega (arith, n, total)) h)

      one_served-settles :
          (rs : List HttpRequest) (w : World G L D C N) (m₀ : Dict Account)
          → AllAlike k id amount rs
          → IsInt64 amount
          → (handle_all g at opts next k rs w).0 ≤ 1
          → IsSame m₀ w.service.accounts
          → let w' = (handle_all g at opts next k rs w).1 in
            IsSame m₀ w'.service.accounts ⊎ IsPaid id amount m₀ w'.service.accounts
      unfolding handle_all
      one_served-settles [] w m₀ a i n h = inl h
      one_served-settles (r ∷ rs) w m₀ (e, named, decoded, rest) i n h =
          let w' = (handle g at opts next r w).2 in
          let total = served_first r rs w e in
          let settled =
            λ (s : Service L D C N). IsSame m₀ s.accounts ⊎ IsPaid id amount m₀ s.accounts in
          elim (handle-settles lib P F clock random ledger_store device_store detector Q cfg g r
            amount m₀ apart decoded i w h) [
              | inl (none_yet, same) ↦
                  one_served-settles rs w' m₀ rest i (omega (arith, n, total)) same
              | inr (once, done) ↦
                  none_served-keeps settled rs w' rest (omega (arith, n, total, once)) (
                    subst
                      (λ (name : String).
                        IsSame m₀ w'.service.accounts ⊎ IsPaid name amount m₀ w'.service.accounts)
                      named done)
            ]

      -- For the handler of /withdraw that New builds, over a guard whose idempotency store is the
      -- in-memory one, whose other parts leave its entries alone and whose parts all leave the
      -- service alone, with a clock that never goes back and a service whose accounts all have
      -- nothing on hold and a total between 0 and MaxInt64: any requests with one idempotency key
      -- that is not empty, one account and one int64 amount, handled one after another within the
      -- ttl of the idempotency manager in all, either change no account, but for empty ones that
      -- are made, or exactly one time the amount has left the account, and no other account has
      -- changed.
      pub withdraws_once :
          (entries : World G L D C N → Entries) (reads : World G L D C N → ℤ)
          (rs : List HttpRequest) (w : World G L D C N)
          → OverMemory entries reads g at opts next
          → k ≢ ""
          → AllAlike k id amount rs
          → IsInt64 amount
          → AllSound w.service.accounts
          → reads (handle_all g at opts next k rs w).1 ≤ℤ reads w +ℤ g.idempotency.ttl
          → let w' = (handle_all g at opts next k rs w).1 in
            IsSame w.service.accounts w'.service.accounts
            ⊎ IsPaid id amount w.service.accounts w'.service.accounts
      withdraws_once entries reads rs w over named a i sound l =
          one_served-settles rs w w.service.accounts a i
            (handle_all-serves_once entries reads g at opts next over k rs w named l)
            (sound, λ other. refl)
