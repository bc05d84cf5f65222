-- ===== src/Config/Reading.antt =====
-- config/config.go: the reading of the settings from the environment.
use floodguard_rate_limiter.Prelude.{
  String, none, some, List, [], ◌∷◌, text_eq, if◌then◌else◌, ◌||◌, ◌==◌, length,
}
use floodguard_rate_limiter.Prelude.Int.{ℤ}
use floodguard_rate_limiter.Prelude.Dict.{Dict, insert}
use floodguard_rate_limiter.Errors.{Result, ok, err, wrap, foreign}
use floodguard_rate_limiter.Config.Texts.{trim_space, split, split_two, parse_int, parse_bool}
use floodguard_rate_limiter.Config.{
  Parsers, Config, RateLimit, Velocity, Middleware, Anomaly, defaults,
}

-- `v, err := …; if err != nil { return Config{}, err }`
infixl 5 ◌>>=◌
abbrev ◌>>=◌ {ℓ κ} : {A : Type ℓ} {B : Type κ} → Result A → (A → Result B) → Result B
ok a >>= f = f a
err e >>= f = err e

-- The error of a variable has its name before it.
abbrev named {ℓ} : {A : Type ℓ} → String → Result A → Result A
named key (ok a) = ok a
named key (err e) = err (wrap key e)

-- The loop of `parseAccountBalances`, with the map so far.
unfoldable pub parse_parts : List String → Dict ℤ → Result (Dict ℤ)
parse_parts [] out = ok out
parse_parts (raw_part ∷ parts) out =
    let part = trim_space raw_part in
    let skipped = parse_parts parts out in
    if text_eq part "" then skipped else elim (split_two b'=' part) [
      | none ↦ err (foreign "expected account=cents pairs")
      | some (account, text) ↦ elim (parse_int (trim_space text)) [
        | err e ↦ err (wrap "invalid cents" e)
        | ok cents ↦ parse_parts parts (insert (trim_space account) cents out)
      ]
    ]

-- `parseAccountBalances`
unfoldable pub parse_account_balances : String → Result (Dict ℤ)
unfolding parse_parts
parse_account_balances raw = do
  out ← parse_parts (split b',' raw) []
  if length out == 0 then err (foreign "no balances parsed") else ok out

-- `envString`; `getenv` is `os.Getenv`.
unfoldable pub env_string : (String → String) → String → String → String
env_string getenv key fallback = if text_eq (getenv key) "" then fallback else getenv key

-- `envInt`, `envFloat`, `envBool` and `envDuration`, for their parser.
unfoldable pub env_parsed {ℓ} :
    {A : Type ℓ} → (String → Result A) → (String → String) → String → A → Result A
env_parsed parse getenv key fallback =
    if text_eq (getenv key) "" then ok fallback else parse (getenv key)

module _ (P : Parsers) where
  -- A setting as `Load` reads it: with the variable's name before an error.
  abbrev setting {ℓ} :
      {A : Type ℓ} → (String → Result A) → (String → String) → String → A → Result A
  setting parse getenv key fallback = named key (env_parsed parse getenv key fallback)

  -- The parts of `Load`, in its order.
  unfoldable pub load_rate_limit : (String → String) → RateLimit → Result RateLimit
  load_rate_limit getenv d = do
    ip_limit ← setting parse_int getenv "IP_RATE_LIMIT" d.ip_limit
    ip_window ← setting P.parse_duration getenv "IP_RATE_WINDOW" d.ip_window
    account_limit ← setting parse_int getenv "ACCOUNT_RATE_LIMIT" d.account_limit
    account_window ← setting P.parse_duration getenv "ACCOUNT_RATE_WINDOW" d.account_window
    ok (record {
      ip_limit = ip_limit;
      ip_window = ip_window;
      account_limit = account_limit;
      account_window = account_window;
    })

  unfoldable pub load_velocity : (String → String) → Velocity → Result Velocity
  load_velocity getenv d = do
    max ← setting parse_int getenv "VELOCITY_WITHDRAW_MAX" d.withdraw_max_per_window
    window ← setting P.parse_duration getenv "VELOCITY_WINDOW" d.window
    min_interval ← setting P.parse_duration getenv "VELOCITY_MIN_INTERVAL" d.min_interval
    ok (record { withdraw_max_per_window = max; window = window; min_interval = min_interval })

  unfoldable pub load_middleware : (String → String) → Middleware → Result Middleware
  load_middleware getenv d = do
    block ← setting parse_bool getenv "BLOCK_ON_VELOCITY" d.block_on_velocity
    require_key ← setting parse_bool getenv "REQUIRE_IDEMPOTENCY_KEY" d.require_idempotency_key
    require_lock ← setting parse_bool getenv "REQUIRE_LOCK" d.require_lock
    ok (record {
      block_on_velocity = block;
      require_idempotency_key = require_key;
      require_lock = require_lock;
    })

  unfoldable pub load_anomaly : (String → String) → Anomaly P → Result (Anomaly P)
  load_anomaly getenv d = do
    multiplier ← setting P.parse_float getenv "ANOMALY_SPIKE_MULTIPLIER" d.spike_multiplier
    lookback ← setting parse_int getenv "ANOMALY_LOOKBACK_MINUTES" d.lookback_minutes
    ok (record { spike_multiplier = multiplier; lookback_minutes = lookback })

  unfoldable pub load_store : (String → String) → String → Result String
  unfolding env_string
  load_store getenv d =
      let store = env_string getenv "DEVICE_TRUST_STORE" d in
      if text_eq store "memory" || text_eq store "redis"
      then ok store
      else err (foreign "DEVICE_TRUST_STORE: must be memory or redis")

  unfoldable pub load_balances : (String → String) → Dict ℤ → Result (Dict ℤ)
  load_balances getenv d =
      let raw = getenv "DEMO_ACCOUNT_BALANCES" in
      if text_eq raw "" then ok d else named "DEMO_ACCOUNT_BALANCES" (parse_account_balances raw)

  -- `Load`
  unfoldable pub load : (String → String) → Result (Config P)
  unfolding env_string load_rate_limit load_velocity load_middleware load_anomaly load_store
      load_balances
  load getenv = do
    let d = defaults P
    ping_timeout ← setting P.parse_duration getenv "REDIS_PING_TIMEOUT" d.redis.ping_timeout
    rate_limit ← load_rate_limit getenv d.rate_limit
    ttl ← setting P.parse_duration getenv "IDEMPOTENCY_TTL" d.idempotency.ttl
    velocity ← load_velocity getenv d.velocity
    lock_ttl ← setting P.parse_duration getenv "LOCK_TTL" d.lock.ttl
    middleware ← load_middleware getenv d.middleware
    anomaly ← load_anomaly getenv d.anomaly
    max_age ←
        setting P.parse_duration getenv "CHALLENGE_NEW_ACCOUNT_MAX_AGE"
          d.challenge.new_account_max_age
    token_ttl ← setting P.parse_duration getenv "STEPUP_TOKEN_TTL" d.step_up.token_ttl
    store ← load_store getenv d.device_trust.store
    enabled ← setting parse_bool getenv "NOTIFY_ENABLED" d.notify.enabled
    balances ← load_balances getenv d.demo.account_balances
    ok (record {
      server = record { listen_addr = env_string getenv "LISTEN_ADDR" d.server.listen_addr };
      redis = record {
        addr = env_string getenv "REDIS_ADDR" d.redis.addr;
        key_prefix = env_string getenv "REDIS_KEY_PREFIX" d.redis.key_prefix;
        ping_timeout = ping_timeout;
      };
      rate_limit = rate_limit;
      idempotency = record { ttl = ttl };
      velocity = velocity;
      lock = record { ttl = lock_ttl };
      middleware = middleware;
      anomaly = anomaly;
      challenge = record { new_account_max_age = max_age };
      step_up = record { token_ttl = token_ttl };
      device_trust = record { store = store };
      notify = record { enabled = enabled };
      demo = record { account_balances = balances };
    })
