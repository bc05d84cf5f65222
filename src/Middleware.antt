-- ===== src/Middleware.antt =====
-- middleware/http.go: the HTTP handler that chains the layers, over any world `W`, as the events that
-- it causes in their order: calls on the ResponseWriter, audit events, callbacks and trace lines.
-- The key functions are the ones in force, after `withDefaults`.
pub mod Handler
pub mod Ends
pub mod Keeps
pub mod Keys
pub mod Kept
pub mod Handled
pub mod HandledAt
pub mod Memory
pub mod Once
pub mod Taken
pub mod Serve
pub mod Quiet
pub mod Serving
pub mod Statuses
pub mod Replies
pub mod ProtectFunc
use floodguard_rate_limiter.Prelude.{
  ℕ, ◌+◌, ◌-◌, String, Bool, true, false, not, Option, none, some, List, [], ◌∷◌, ◌++◌, text_eq,
  if◌then◌else◌, ◌&&◌, ltb, leb,
}
use floodguard_rate_limiter.Errors.{
  Action, Bytes, Context, Error, Result, RejectReason, reject_ip_rate_limit, reject_rate_limit,
  reject_velocity, reject_locked,
}
use floodguard_rate_limiter.Idempotency
use floodguard_rate_limiter.Idempotency.{is_present}
use floodguard_rate_limiter.Velocity

pub record HttpRequest : Type 0 where
  pub context : Context
  pub header : String → String
  pub remote_addr : String
  -- what reading the body to its end gives, where it can be read
  pub body : Option Bytes

-- A call on an http.ResponseWriter.
pub data Call : Type 0 where
  set_header : String → String → Call
  write_header : ℕ → Call
  write : Bytes → Call

-- `AuditEvent`; a reason is a text of the code, a velocity reason, or an error's text.
pub data AuditReason : Type 0 where
  literal : String → AuditReason
  error_text : Error → AuditReason

pub record AuditEvent : Type 0 where
  pub layer : String
  pub decision : String
  pub reason : AuditReason
  pub account_id : String
  pub ip : String
  pub idem_key : String
  pub action : String

-- The lines that `trace` logs, with what they name.
pub data Trace : Type 0 where
  ip_error account_error idempotency_error velocity_error lock_error : Error → Trace
  ip_rejected ip_passed account_rejected account_passed : String → Trace
  in_flight replayed duplicate claimed : String → Trace
  velocity_rejected : String → String → Trace
  velocity_passed : String → Trace
  handler_start handler_done : String → Trace
  complete_error : String → Error → Trace
  stored : String → Trace
  lock_acquire lock_rejected lock_release : String → Trace

pub data Event : Type 0 where
  traced : Trace → Event
  audited : AuditEvent → Event
  blocked : RejectReason → Event
  flagged : String → Event
  called : Call → Event
  -- the ResponseWriter is handed to a JSON encoder for these fields
  encoded : List (String × String) → Event
  -- `next.ServeHTTP` is called with this request
  served : HttpRequest → Event

pub record Options (W : Type 0) : Type 0 where
  pub ip_key_func : HttpRequest → String
  pub key_func : HttpRequest → String
  pub lock_key_func : Option (HttpRequest → String)
  pub idempotency_key_func : HttpRequest → String
  pub action : String
  pub require_lock : Bool
  pub require_idempotency_key : Bool
  pub fail_closed : Option Bool
  pub block_on_velocity : Option Bool
  pub has_audit : Bool
  -- what the callback writes, and the request as it leaves it
  pub on_velocity_flag : Option (HttpRequest → String → W → HttpRequest × List Call × W)
  pub on_blocked : Option (HttpRequest → RejectReason → W → List Call × W)

-- The handler that is wrapped: the calls that it makes on its ResponseWriter.
abbrev pub NextHandler : Type 0 → Type 0
NextHandler W = HttpRequest → W → List Call × W

-- A part of the handler: the value it goes on with, or none where it returns; its events; the world.
abbrev pub Run : Type 0 → Type 0 → Type 0
Run W A = W → Option A × List Event × W

infixl 5 ◌>>=◌ ◌>>◌
abbrev pub ◌>>=◌ : {W A B : Type 0} → Run W A → (A → Run W B) → Run W B
◌>>=◌ m f w =
    let (o, es, w₁) = m w in
    elim o [ none ↦ (none, es, w₁) | some a ↦ let (o', es', w₂) = f a w₁ in (o', es ++ es', w₂) ]

abbrev pub ◌>>◌ : {W B : Type 0} → Run W (Unit {0}) → Run W B → Run W B
m >> k = m >>= λ _. k

module _ {W : Type 0} where
  abbrev pub emit : List Event → Run W (Unit {0})
  emit es w = (some tt, es, w)

  abbrev pub continue : {A : Type 0} → A → Run W A
  continue a w = (some a, [], w)

  -- `return` after these events.
  abbrev pub return_after : {A : Type 0} → List Event → Run W A
  return_after es w = (none, es, w)

  -- A call of another part, with its result.
  abbrev pub perform : {A : Type 0} → Action W A → Run W (Result A)
  perform act w = let (r, w') = act w in (some r, [], w')

abbrev pub is_false : Option Bool → Bool
is_false none = false
is_false (some b) = not b

-- `writeError`
unfoldable pub write_error : ℕ → String → String → List Event
write_error status message detail =
    called (set_header "Content-Type" "application/json")
    ∷ called (write_header status)
    ∷ encoded (
        if text_eq detail ""
        then ("error", message) ∷ []
        else ("error", message) ∷ ("detail", detail) ∷ [])
    ∷ []

-- `writeStoreError`
unfoldable pub write_store_error : Bool → List Event
unfolding write_error
write_store_error true =
    write_error 503 "protection layer unavailable" "shared store unreachable; request denied"
write_store_error false = write_error 500 "protection check failed" ""

-- The status and message of a rejection.
unfoldable pub reject_reply : RejectReason → ℕ × String
reject_reply reason =
    if text_eq reason reject_ip_rate_limit
    then (429, "ip rate limit exceeded")
    else if text_eq reason reject_rate_limit
    then (429, "rate limit exceeded")
    else if text_eq reason reject_velocity
    then (429, "velocity threshold exceeded")
    else if text_eq reason reject_locked
    then (409, "resource is locked")
    else (403, "request blocked")

-- `writeReject`
unfoldable pub write_reject : RejectReason → String → List Event
unfolding reject_reply write_error
write_reject reason detail =
    let (status, message) = reject_reply reason in
    called (set_header "X-Floodguard-Layer" reason) ∷ write_error status message detail

-- `responseRecorder`: the status and the body of the calls that pass through it.
pub record Recorder : Type 0 where
  pub status : ℕ
  pub body : Bytes

unfoldable pub record_call : Recorder → Call → Recorder
record_call rec (set_header k v) = rec
record_call rec (write_header n) = record rec { status = n }
record_call rec (write b) = record rec { body = rec.body ++ b }

unfoldable pub record_calls : Recorder → List Call → Recorder
unfolding record_call
record_calls rec [] = rec
record_calls rec (c ∷ cs) = record_calls (record_call rec c) cs

abbrev pub called_all : List Call → List Event
called_all [] = []
called_all (c ∷ cs) = called c ∷ called_all cs

-- A response that is cached: a status of 2xx and a body that is not empty.
unfoldable pub is_cacheable : Recorder → Bool
is_cacheable rec = leb 200 rec.status && ltb rec.status 300 && is_present rec.body
