-- ===== src/Wallet/Exact.antt =====
-- The balance operations of example/wallet/wallet.go in `int64`, against exact integers.
use floodguard_rate_limiter.Prelude.{
  ◌+◌, ◌∙◌, String, ◌≡◌, refl, ◌≢◌, arith, text_eq, if◌then◌else◌, ◌⊎◌,
}
use floodguard_rate_limiter.Prelude.Int.{
  ℤ, pos, negsuc, wrap64, max_int64, min_int64, IsInt64, wrap64-eq_self, ◌+ℤ◌, ◌-ℤ◌, ◌≤ℤ◌, ◌<ℤ◌,
  int_laws, +ℤ_parts, -ℤ_parts, pos_part, neg_part, eq_of_parts,
}
use floodguard_rate_limiter.Errors.{Error, Result, ok, err}
use floodguard_rate_limiter.Ledger.{Printing, Record, Store, record_transaction, tx_bet_settle}
use floodguard_rate_limiter.Wallet.{
  Account, Op, add64, sub64, neg64, hold, release, validate_amount, available_cents, with_hold,
  refusal, settled, deposit, withdraw, settle_bet, apply,
}

-- An account between operations: nothing is on hold, and the total is a balance that `int64` holds.
abbrev pub IsSound : Account → Type 0
IsSound a = (a.pending_withdraw ≡ pos 0) × (pos 0 ≤ℤ a.total_cents) × (a.total_cents ≤ℤ max_int64)

-- The change of the total that an operation asks for, as an exact integer.
unfoldable pub signed_amount : Op → ℤ
signed_amount op =
    if text_eq op.kind "deposit"
    then op.amount
    else if text_eq op.kind "withdraw"
    then pos 0 -ℤ op.amount
    else if text_eq op.kind "settle"
    then op.amount
    else pos 0

-- An operation that changed the total by exactly `n`, or failed and left the account as it was.
abbrev pub Moves : {W : Type 0} → ℤ → Account → Result (Unit {0}) × (Account × W) → Type 0
Moves n a (r, (b, w)) =
    ((r ≡ ok tt) × (b.total_cents ≡ a.total_cents +ℤ n) × IsSound b)
    ⊎ ((e : Error) × (r ≡ err e) × (b ≡ a))

add64-exact : (a b : ℤ) → IsInt64 (a +ℤ b) → add64 a b ≡ a +ℤ b
add64-exact a b h = wrap64-eq_self (a +ℤ b) h

pub sub64-exact : (a b : ℤ) → IsInt64 (a -ℤ b) → sub64 a b ≡ a -ℤ b
sub64-exact a b h = wrap64-eq_self (a -ℤ b) h

-- A hold that is released leaves the pending amount, whatever the total became.
released :
    (a : Account) (amount : ℤ)
    → a.pending_withdraw ≡ pos 0
    → IsInt64 amount
    → sub64 (add64 a.pending_withdraw amount) amount ≡ a.pending_withdraw
released a amount none_held i =
    let held : add64 a.pending_withdraw amount ≡ amount =
      rw none_held (add64-exact (pos 0) amount (grind int_laws) ∙ grind int_laws) in
    rw (held, none_held) (sub64-exact amount amount (grind int_laws) ∙ grind int_laws)

available_sound : (a : Account) → IsSound a → sub64 a.total_cents a.pending_withdraw ≡ a.total_cents
available_sound a s = rw s.0 (
    sub64-exact a.total_cents (pos 0) (omega (arith, -ℤ_parts a.total_cents (pos 0), s.1))
    ∙ grind int_laws)

taken :
    (total amount : ℤ)
    → pos 0 <ℤ amount
    → amount ≤ℤ total
    → total ≤ℤ max_int64
    → (sub64 total amount ≡ total +ℤ (pos 0 -ℤ amount))
      × (pos 0 ≤ℤ sub64 total amount)
      × (sub64 total amount ≤ℤ max_int64)
taken total amount p le m =
    let exact = sub64-exact total amount (ground (arith, -ℤ_parts total amount)) in
    rw exact
      (grind int_laws, ground (arith, -ℤ_parts total amount), ground (arith, -ℤ_parts total amount))

-- The negation of any value but MinInt64 is exact.
negated :
    (n : ℤ)
    → IsInt64 n
    → n ≢ min_int64
    → (pos_part (neg64 n) + pos_part n ≡ neg_part (neg64 n) + neg_part n) × (pos 0 -ℤ neg64 n ≡ n)
negated n i ne =
    let exact =
      sub64-exact (pos 0) n (ground (arith, -ℤ_parts (pos 0) n, eq_of_parts n min_int64)) in
    rw exact (ground (arith, -ℤ_parts (pos 0) n), grind int_laws)

added :
    (total n : ℤ)
    → pos 0 ≤ℤ total
    → pos 0 ≤ℤ n
    → total +ℤ n ≤ℤ max_int64
    → add64 total n ≡ total +ℤ n
added total n t p m = add64-exact total n (ground (arith, +ℤ_parts total n))

added_none : (total n : ℤ) → n ≡ pos 0 → total +ℤ n ≡ total
added_none total n z = rw z (grind int_laws)

neg64-min : neg64 min_int64 ≡ min_int64
unfolding wrap64 ◌-ℤ◌
neg64-min = refl

below_zero :
    (total : ℤ)
    → pos 0 ≤ℤ total
    → total ≤ℤ max_int64
    → (sub64 total min_int64 ≡ total +ℤ min_int64) × (sub64 total min_int64 <ℤ pos 0)
unfolding wrap64 ◌-ℤ◌ ◌+ℤ◌
below_zero (pos t) l m = ground arith
below_zero (negsuc t) l m = ground arith

module _ (P : Printing) {W : Type 0} (store : Store W) where
  -- A positive amount that `max_int64` still holds on top of the total is not refused, and added exactly.
  pub deposit-Moves :
      (now amount : ℤ) (actor source : String) (a : Account) (w : W)
      → IsSound a
      → IsInt64 amount
      → Moves amount a (deposit P store now amount actor source (a, w))
  unfolding deposit validate_amount
  deposit-Moves now amount actor source a w s i = ground (
    arith,
    -ℤ_parts max_int64 amount,
    +ℤ_parts a.total_cents amount,
    sub64-exact max_int64 amount,
    add64-exact a.total_cents amount,
  )

  pub withdraw-Moves :
      (now amount : ℤ) (actor source : String) (a : Account) (w : W)
      → IsSound a
      → IsInt64 amount
      → Moves (pos 0 -ℤ amount) a (withdraw P store now amount actor source (a, w))
  unfolding withdraw validate_amount available_cents with_hold hold release
  withdraw-Moves now amount actor source a w s i =
      ground (arith, released a amount s.0 i, available_sound a s, taken a.total_cents amount)

  pub settle_bet-Moves :
      (now delta : ℤ) (actor source : String) (a : Account) (w : W)
      → IsSound a
      → IsInt64 delta
      → delta ≢ min_int64
      → Moves delta a (settle_bet P store now delta actor source (a, w))
  unfolding settle_bet refusal settled
  settle_bet-Moves now delta actor source a w s i n = ground (
    arith,
    -ℤ_parts max_int64 delta,
    sub64-exact max_int64 delta,
    +ℤ_parts a.total_cents delta,
    added a.total_cents delta,
    added_none a.total_cents delta,
    negated delta i n,
    taken a.total_cents (neg64 delta),
  )

  -- From an account with nothing on hold and a total between 0 and MaxInt64, an operation by Apply
  -- of any kind, with any int64 amount but MinInt64, over any ledger store, either succeeds,
  -- changes the total by exactly the signed amount and leaves such an account, or returns an error
  -- and leaves the account as it was.
  pub apply-Moves :
      (now : ℤ) (op : Op) (a : Account) (w : W)
      → IsSound a
      → IsInt64 op.amount
      → op.amount ≢ min_int64
      → Moves (signed_amount op) a (apply P store now op (a, w))
  unfolding apply signed_amount
  apply-Moves now op a w s i n = ground (
    arith,
    +ℤ_parts a.total_cents (pos 0),
    eq_of_parts (a.total_cents +ℤ pos 0) a.total_cents,
    deposit-Moves now op.amount "test" "property" a w s i,
    withdraw-Moves now op.amount "test" "property" a w s i,
    settle_bet-Moves now op.amount "test" "property" a w s i n,
  )

  -- On an account with nothing on hold and a total between 0 and MaxInt64, SettleBet with the
  -- change MinInt64, when the ledger records it, succeeds, changes the total by MinInt64 and
  -- leaves it negative.
  pub settle_bet-overflows :
      (now : ℤ) (actor source : String) (a : Account) (w w' : W) (r : Record)
      → IsSound a
      → record_transaction P store now "acct" min_int64 tx_bet_settle actor source w ≡ (ok r, w')
      → let (res, (b, v)) = settle_bet P store now min_int64 actor source (a, w) in
        (res ≡ ok tt) × (b.total_cents ≡ a.total_cents +ℤ min_int64) × (b.total_cents <ℤ pos 0)
  unfolding settle_bet refusal settled
  settle_bet-overflows now actor source a w w' r s e =
      ground (arith, e, neg64-min, below_zero a.total_cents)
