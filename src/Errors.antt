-- ===== src/Errors.antt =====
-- errors.go and the sentinel errors of every package. An error value is a sentinel, a RejectedError,
-- an error from outside the repository, or what fmt.Errorf makes of `"m: %w"` (wrap), `"%w: m"`
-- (detail) and `"%w: %w"` (both).
use floodguard_rate_limiter.Prelude.{
  ℕ, String, Bool, true, false, Option, none, some, List, [], ◌≡◌, refl, ◌⊎◌, inl, inr, ◌||◌, ◌==◌,
  text_eq, if◌then◌else◌,
}

abbrev pub Bytes : Type 0
Bytes = List ℕ

-- The values that `errors.New` makes, one for each variable of the packages.
pub data Sentinel : Type 0 where
  key_required duplicate_in_flight : Sentinel
  ratelimit_key_required ratelimit_nil_client ratelimit_invalid_config : Sentinel
  idempotency_key_required in_flight : Sentinel
  not_acquired lock_key_required invalid_ttl nil_callback : Sentinel
  velocity_key_required invalid_rule : Sentinel
  ledger_key_required : Sentinel
  insufficient_funds invalid_amount overflow : Sentinel
  step_up_required captcha_required unknown_token : Sentinel
  device_key_required metric_required : Sentinel

abbrev index : Sentinel → ℕ
index key_required = 0
index duplicate_in_flight = 1
index ratelimit_key_required = 2
index ratelimit_nil_client = 3
index ratelimit_invalid_config = 4
index idempotency_key_required = 5
index in_flight = 6
index not_acquired = 7
index lock_key_required = 8
index invalid_ttl = 9
index nil_callback = 10
index velocity_key_required = 11
index invalid_rule = 12
index ledger_key_required = 13
index insufficient_funds = 14
index invalid_amount = 15
index overflow = 16
index step_up_required = 17
index captcha_required = 18
index unknown_token = 19
index device_key_required = 20
index metric_required = 21

-- `type RejectReason string` and its constants.
abbrev pub RejectReason : Type 0
RejectReason = String

abbrev pub reject_ip_rate_limit : RejectReason
reject_ip_rate_limit = "ip_rate_limit"

abbrev pub reject_rate_limit : RejectReason
reject_rate_limit = "rate_limit"

abbrev pub reject_velocity : RejectReason
reject_velocity = "velocity"

abbrev pub reject_locked : RejectReason
reject_locked = "locked"

abbrev pub reject_cached : RejectReason
reject_cached = "cached"

pub record RejectedError : Type 0 where
  pub reason : RejectReason
  pub cached : Bytes

pub data Error : Type 0 where
  sentinel : Sentinel → Error
  rejected : RejectedError → Error
  foreign : String → Error
  wrap : String → Error → Error
  detail : Error → String → Error
  both : Error → Error → Error

-- `errors.Is(err, target)` for a sentinel target.
unfoldable pub is_error : Error → Sentinel → Bool
is_error (sentinel s) t = index s == index t
is_error (rejected r) t = false
is_error (foreign m) t = false
is_error (wrap m e) t = is_error e t
is_error (detail e m) t = is_error e t
is_error (both a b) t = is_error a t || is_error b t

abbrev or_else : Option RejectedError → Option RejectedError → Option RejectedError
or_else (some r) o = some r
or_else none o = o

-- `errors.As(err, &rejected)`: the first RejectedError of the chain.
unfoldable pub as_rejected : Error → Option RejectedError
as_rejected (sentinel s) = none
as_rejected (rejected r) = some r
as_rejected (foreign m) = none
as_rejected (wrap m e) = as_rejected e
as_rejected (detail e m) = as_rejected e
as_rejected (both a b) = or_else (as_rejected a) (as_rejected b)

unfoldable pub duplicate_in_flight_error : Option Error → Error
duplicate_in_flight_error none = sentinel duplicate_in_flight
duplicate_in_flight_error (some cause) = both (sentinel duplicate_in_flight) cause

unfoldable pub is_duplicate_in_flight : Error → Bool
unfolding is_error
is_duplicate_in_flight e = is_error e duplicate_in_flight || is_error e in_flight

unfoldable pub is_rejected : Error → RejectReason → Bool
unfolding as_rejected
is_rejected e reason = elim (as_rejected e) [
  | none ↦ false
  | some r ↦ if text_eq reason "" then true else text_eq r.reason reason
]

pub data Result {ℓ} (A : Type ℓ) : Type ℓ where
  ok : A → Result A
  err : Error → Result A

pub Result-cases :
    {A : Type 0} (res : Result A) → ((e : Error) × (res ≡ err e)) ⊎ ((a : A) × (res ≡ ok a))
Result-cases (err e) = inl (e, refl)
Result-cases (ok a) = inr (a, refl)

-- A call that may change the world `W` and may fail; what it has written stays written.
abbrev pub Action {ℓ} : Type 0 → Type ℓ → Type ℓ
Action W A = W → Result A × W

infixl 5 ◌>>=◌ ◌>>◌
abbrev pub ◌>>=◌ {ℓ κ} :
    {W : Type 0} {A : Type ℓ} {B : Type κ} → Action W A → (A → Action W B) → Action W B
◌>>=◌ m f w = let (r, w') = m w in elim r [ ok a ↦ f a w' | err e ↦ (err e, w') ]

abbrev pub ◌>>◌ {ℓ} : {W : Type 0} {B : Type ℓ} → Action W (Unit {0}) → Action W B → Action W B
m >> k = m >>= λ _. k

module _ {ℓ} {W : Type 0} {A : Type ℓ} where
  abbrev pub pure : A → Action W A
  pure a w = (ok a, w)

  abbrev pub fail : Error → Action W A
  fail e w = (err e, w)

  -- `if err != nil { return fmt.Errorf("m: %w", err) }`
  abbrev pub wrapping : String → Action W A → Action W A
  wrapping m act w =
      let (r, w') = act w in elim r [ ok a ↦ (ok a, w') | err e ↦ (err (wrap m e), w') ]

module _ {W : Type 0} where
  abbrev pub fail_if : Bool → Error → Action W (Unit {0})
  fail_if c e w = (if c then err e else ok tt, w)

-- `context.Context`: what `Err` answers, and the keys that it has values for, by their types' names.
pub record Context : Type 0 where
  pub done : Option Error
  pub values : List String

abbrev pub background : Context
background = record { done = none; values = [] }
