-- ===== src/Config.antt =====
-- config/config.go: the settings and their defaults.
pub mod Texts
pub mod Reading
pub mod Balances
pub mod Loaded
use floodguard_rate_limiter.Prelude.{◌-◌, String, Bool, true, false, [], ◌∷◌}
use floodguard_rate_limiter.Prelude.Int.{ℤ, pos}
use floodguard_rate_limiter.Prelude.Dict.{Dict}
use floodguard_rate_limiter.Errors.{Result}

pub record Server : Type 0 where
  pub listen_addr : String

pub record Redis : Type 0 where
  pub addr : String
  pub key_prefix : String
  pub ping_timeout : ℤ

pub record RateLimit : Type 0 where
  pub ip_limit : ℤ
  pub ip_window : ℤ
  pub account_limit : ℤ
  pub account_window : ℤ

pub record Idempotency : Type 0 where
  pub ttl : ℤ

pub record Velocity : Type 0 where
  pub withdraw_max_per_window : ℤ
  pub window : ℤ
  pub min_interval : ℤ

pub record Lock : Type 0 where
  pub ttl : ℤ

pub record Middleware : Type 0 where
  pub block_on_velocity : Bool
  pub require_idempotency_key : Bool
  pub require_lock : Bool

pub record Challenge : Type 0 where
  pub new_account_max_age : ℤ

pub record StepUp : Type 0 where
  pub token_ttl : ℤ

pub record DeviceTrust : Type 0 where
  pub store : String

pub record Notify : Type 0 where
  pub enabled : Bool

pub record Demo : Type 0 where
  pub account_balances : Dict ℤ

-- Go's floats and durations as texts: a parameter of the reading of the environment.
pub record Parsers : Type 1 where
  pub Float : Type 0
  pub five : Float
  -- `strconv.ParseFloat(s, 64)`
  pub parse_float : String → Result Float
  -- `time.ParseDuration`
  pub parse_duration : String → Result ℤ

module _ (P : Parsers) where
  pub record Anomaly : Type 0 where
    pub spike_multiplier : P.Float
    pub lookback_minutes : ℤ

  pub record Config : Type 0 where
    pub server : Server
    pub redis : Redis
    pub rate_limit : RateLimit
    pub idempotency : Idempotency
    pub velocity : Velocity
    pub lock : Lock
    pub middleware : Middleware
    pub anomaly : Anomaly
    pub challenge : Challenge
    pub step_up : StepUp
    pub device_trust : DeviceTrust
    pub notify : Notify
    pub demo : Demo

  -- `Defaults`; durations are in nanoseconds.
  unfoldable pub defaults : Config
  defaults = record {
    server = record { listen_addr = ":8080" };
    redis = record {
      addr = "localhost:6379";
      key_prefix = "floodguard";
      ping_timeout = pos 3000000000;
    };
    rate_limit = record {
      ip_limit = pos 30;
      ip_window = pos 60000000000;
      account_limit = pos 10;
      account_window = pos 60000000000;
    };
    idempotency = record { ttl = pos 86400000000000 };
    velocity = record {
      withdraw_max_per_window = pos 3;
      window = pos 60000000000;
      min_interval = pos 200000000;
    };
    lock = record { ttl = pos 30000000000 };
    middleware = record {
      block_on_velocity = false;
      require_idempotency_key = true;
      require_lock = true;
    };
    anomaly = record { spike_multiplier = P.five; lookback_minutes = pos 60 };
    challenge = record { new_account_max_age = pos 86400000000000 };
    step_up = record { token_ttl = pos 600000000000 };
    device_trust = record { store = "memory" };
    notify = record { enabled = true };
    demo = record { account_balances = ("acct-1001", pos 50000) ∷ ("acct-1002", pos 10000) ∷ [] };
  }
