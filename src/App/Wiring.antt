-- ===== src/App/Wiring.antt =====
-- example/app/app.go: what `New` puts together: the guard, the two managers, the handlers around
-- `Withdraw`, and the routes. The world is everything outside the process (Redis, the clock, the random
-- source, the network) and the process's own state.
use floodguard_rate_limiter.Prelude.{
  ℕ, String, str_append, Bool, false, Option, some, List, [], ◌∷◌, text_eq, if◌then◌else◌, ◌||◌,
  ◌==◌,
}
use floodguard_rate_limiter.Prelude.Int.{ℤ}
use floodguard_rate_limiter.Errors.{Action, Bytes, Error, Result, ok, err}
use floodguard_rate_limiter.RateLimit.{Limiter}
use floodguard_rate_limiter.RateLimit.RedisWindow.{RedisSlidingWindow}
use floodguard_rate_limiter.Idempotency
use floodguard_rate_limiter.Lock
use floodguard_rate_limiter.Velocity
use floodguard_rate_limiter.Velocity.{Format}
use floodguard_rate_limiter.Guard
use floodguard_rate_limiter.Guard.{Guard, InMemory}
use floodguard_rate_limiter.Middleware.{
  HttpRequest, Call, set_header, write_header, write, Event, called, encoded,
}
use floodguard_rate_limiter.Ledger.{Printing}
use floodguard_rate_limiter.DeviceTrust
use floodguard_rate_limiter.DeviceTrust.Fingerprint.{fingerprint_from_request}
use floodguard_rate_limiter.StepUp.{Challenges}
use floodguard_rate_limiter.Challenge.{Tokens}
use floodguard_rate_limiter.Anomaly
use floodguard_rate_limiter.Anomaly.{Floats, Detector}
use floodguard_rate_limiter.Config.{Parsers, Config}
use floodguard_rate_limiter.App.{Stores, new_stores}
use floodguard_rate_limiter.App.Service.{Request, Service, Reply, Value}

-- The Go libraries that the handlers use, and the texts that they make.
pub record Libraries : Type 0 where
  pub split_host : String → Option String
  pub error_text : Error → String
  -- an encoder of encoding/json on what the handlers write
  pub encode : List (String × String) → Bytes
  pub encode_reply : List (String × Value) → Bytes
  -- `Decode` into a withdrawRequest, for its amount
  pub decode_amount : Option Bytes → Option ℤ
  -- http.Error, and what a mux answers on a path without a handler
  pub http_error : String → ℕ → List Call
  pub not_found : List Call

pub record World (G L D C N : Type 0) : Type 0 where
  pub outside : G
  pub service : Service L D C N
  pub step_ups : Challenges
  pub tokens : Tokens

-- The key of `velocityFlagKey{}`.
abbrev pub flag_key : String
flag_key = "velocityFlagKey"

abbrev pub has_value : String → List String → Bool
has_value key [] = false
has_value key (k ∷ ks) = text_eq key k || has_value key ks

-- `velocityFlagged`
unfoldable pub velocity_flagged : HttpRequest → Bool
velocity_flagged r = has_value flag_key r.context.values

-- `r.WithContext(context.WithValue(r.Context(), velocityFlagKey{}, true))`
abbrev pub with_flag : HttpRequest → HttpRequest
with_flag r = record r { context = record r.context { values = flag_key ∷ r.context.values } }

-- What reaches the ResponseWriter, of a handler's events.
abbrev pub calls_of : (List (String × String) → Bytes) → List Event → List Call
calls_of encode [] = []
calls_of encode (called c ∷ es) = c ∷ calls_of encode es
calls_of encode (encoded fields ∷ es) = write (encode fields) ∷ calls_of encode es
calls_of encode (e ∷ es) = calls_of encode es

-- What the constructors of the packages make over Redis, each with its prefix, and in memory.
pub record Parts (W C D : Type 0) : Type 0 where
  pub limiter : RedisSlidingWindow → Limiter W
  pub idempotency_store : String → Idempotency.Store W
  pub velocity_store : String → Velocity.Store W
  pub lock_client : String → Lock.Client W
  pub in_memory : InMemory W
  pub redis_counter : String → Anomaly.Counter C
  pub memory_counter : Anomaly.Counter C
  pub redis_devices : String → DeviceTrust.Store D
  pub memory_devices : DeviceTrust.Store D

module _ (Q : Parsers) {W C D : Type 0} (parts : Parts W C D) (cfg : Config Q) where
  -- The guard of `New`.
  unfoldable pub new_guard : Format → Action W ℤ → Stores → Guard W
  unfolding Guard.new
  new_guard f now stores = Guard.new f parts.in_memory (record {
    ip_rate_limiter = some (parts.limiter stores.ip_rate_limiter);
    rate_limiter = some (parts.limiter stores.account_rate_limiter);
    idempotency = record {
      store = some (parts.idempotency_store stores.idempotency_prefix);
      ttl = cfg.idempotency.ttl;
    };
    lock = record { client = some (parts.lock_client stores.lock_prefix); ttl = cfg.lock.ttl };
    velocity = record {
      store = some (parts.velocity_store stores.velocity_prefix);
      rules =
          Velocity.rate_rule f (record {
            n = cfg.velocity.withdraw_max_per_window;
            window = cfg.velocity.window;
            label = "withdrawal attempts";
          })
          ∷ Velocity.interval_rule f now
              (record { min = cfg.velocity.min_interval; label = "withdrawal" })
          ∷ [];
    };
  })

  -- `New`, for its guard and its error.
  unfoldable pub new_server : Format → Action W ℤ → Bool → Result (Guard W)
  unfolding new_guard new_stores
  new_server f now has_client = elim (new_stores Q has_client cfg) [
    | err e ↦ err e
    | ok stores ↦ ok (new_guard f now stores)
  ]

  -- `newDeviceTrust`, for the store of its client.
  unfoldable pub new_device_trust : DeviceTrust.Store D
  new_device_trust =
      if text_eq cfg.device_trust.store "redis"
      then parts.redis_devices (str_append cfg.redis.key_prefix ":devicetrust")
      else parts.memory_devices

  -- The detector of `New`; a setting's float is read as a float.
  unfoldable pub anomaly_detector : (F : Floats) → (Q.Float → F.Float) → Detector F C
  anomaly_detector F float = Anomaly.new_detector F parts.memory_counter (record {
    counter = some (parts.redis_counter (str_append cfg.redis.key_prefix ":anomaly"));
    multiplier = float cfg.anomaly.spike_multiplier;
  })

-- What the service's handlers read of a request.
abbrev pub request_of : Libraries → Printing → HttpRequest → Request
request_of lib P r = record {
  context = r.context;
  account_id = r.header "X-Account-ID";
  fingerprint = fingerprint_from_request P.digest r "";
  amount_cents = lib.decode_amount r.body;
  remote_addr = r.remote_addr;
}

-- The status is written where it is not 200, and then the body.
abbrev pub write_reply : Libraries → Reply → List Call
write_reply lib reply =
    if reply.status == 200
    then set_header "Content-Type" "application/json" ∷ write (lib.encode_reply reply.fields) ∷ []
    else set_header "Content-Type" "application/json"
      ∷ write_header reply.status
      ∷ write (lib.encode_reply reply.fields)
      ∷ []

abbrev pub spike_of : (F : Floats) → Result (Anomaly.Spike F) → Bool
spike_of F (ok s) = s.spike
spike_of F (err e) = false
