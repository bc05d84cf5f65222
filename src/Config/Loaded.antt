-- ===== src/Config/Loaded.antt =====
-- What config/config.go loads from an environment.
use floodguard_rate_limiter.Prelude.{String, true, false, [], ◌∷◌, ◌≡◌, arith, eq_iff, ◌⊎◌}
use floodguard_rate_limiter.Prelude.Int.{ℤ, pos}
use floodguard_rate_limiter.Prelude.Dict.{Dict}
use floodguard_rate_limiter.Errors.{ok}
use floodguard_rate_limiter.Config.{
  Parsers, Config, RateLimit, Velocity, Middleware, Anomaly, defaults,
}
use floodguard_rate_limiter.Config.Reading.{
  env_string, env_parsed, parse_account_balances, load_rate_limit, load_velocity, load_middleware,
  load_anomaly, load_store, load_balances, load,
}
use floodguard_rate_limiter.Config.Texts.{parse_int, parse_bool}

module _ (P : Parsers) where
  -- With no variable set, Load returns the defaults.
  load_unset :
      (getenv : String → String)
      → ((key : String) → getenv key ≡ "")
      → load P getenv ≡ ok (defaults P)
  unfolding load load_rate_limit load_velocity load_middleware load_anomaly load_store load_balances
      env_parsed defaults
  load_unset getenv h = simp (h)

  load_rate_limit-lem :
      (getenv : String → String) (d c : RateLimit)
      → load_rate_limit P getenv d ≡ ok c
      → (env_parsed parse_int getenv "IP_RATE_LIMIT" d.ip_limit ≡ ok c.ip_limit)
        × (env_parsed P.parse_duration getenv "IP_RATE_WINDOW" d.ip_window ≡ ok c.ip_window)
        × (env_parsed parse_int getenv "ACCOUNT_RATE_LIMIT" d.account_limit ≡ ok c.account_limit)
        × (env_parsed P.parse_duration getenv "ACCOUNT_RATE_WINDOW" d.account_window
            ≡ ok c.account_window)
  unfolding load_rate_limit
  load_rate_limit-lem getenv d c h = ground arith

  load_velocity-lem :
      (getenv : String → String) (d c : Velocity)
      → load_velocity P getenv d ≡ ok c
      → (env_parsed parse_int getenv "VELOCITY_WITHDRAW_MAX" d.withdraw_max_per_window
          ≡ ok c.withdraw_max_per_window)
        × (env_parsed P.parse_duration getenv "VELOCITY_WINDOW" d.window ≡ ok c.window)
        × (env_parsed P.parse_duration getenv "VELOCITY_MIN_INTERVAL" d.min_interval
            ≡ ok c.min_interval)
  unfolding load_velocity
  load_velocity-lem getenv d c h = ground arith

  load_middleware-lem :
      (getenv : String → String) (d c : Middleware)
      → load_middleware P getenv d ≡ ok c
      → (env_parsed parse_bool getenv "BLOCK_ON_VELOCITY" d.block_on_velocity
          ≡ ok c.block_on_velocity)
        × (env_parsed parse_bool getenv "REQUIRE_IDEMPOTENCY_KEY" d.require_idempotency_key
            ≡ ok c.require_idempotency_key)
        × (env_parsed parse_bool getenv "REQUIRE_LOCK" d.require_lock ≡ ok c.require_lock)
  unfolding load_middleware
  load_middleware-lem getenv d c h = ground arith

  load_anomaly-lem :
      (getenv : String → String) (d c : Anomaly P)
      → load_anomaly P getenv d ≡ ok c
      → (env_parsed P.parse_float getenv "ANOMALY_SPIKE_MULTIPLIER" d.spike_multiplier
          ≡ ok c.spike_multiplier)
        × (env_parsed parse_int getenv "ANOMALY_LOOKBACK_MINUTES" d.lookback_minutes
            ≡ ok c.lookback_minutes)
  unfolding load_anomaly
  load_anomaly-lem getenv d c h = ground arith

  load_store-lem :
      (getenv : String → String) (d c : String)
      → load_store P getenv d ≡ ok c
      → (c ≡ env_string getenv "DEVICE_TRUST_STORE" d) × ((c ≡ "memory") ⊎ (c ≡ "redis"))
  unfolding load_store env_string
  load_store-lem getenv d c h = ground (arith, eq_iff c "memory", eq_iff c "redis")

  load_balances-lem :
      (getenv : String → String) (d c : Dict ℤ)
      → load_balances P getenv d ≡ ok c
      → env_parsed parse_account_balances getenv "DEMO_ACCOUNT_BALANCES" d ≡ ok c
  unfolding load_balances env_parsed
  load_balances-lem getenv d c h = ground arith

  -- The steps of Load that are all answered.
  load-steps :
      (getenv : String → String) (cfg : Config P)
      → load P getenv ≡ ok cfg
      → (cfg.server.listen_addr ≡ env_string getenv "LISTEN_ADDR" ":8080")
        × (cfg.redis.addr ≡ env_string getenv "REDIS_ADDR" "localhost:6379")
        × (cfg.redis.key_prefix ≡ env_string getenv "REDIS_KEY_PREFIX" "floodguard")
        × (env_parsed P.parse_duration getenv "REDIS_PING_TIMEOUT" (pos 3000000000)
            ≡ ok cfg.redis.ping_timeout)
        × (load_rate_limit P getenv (defaults P).rate_limit ≡ ok cfg.rate_limit)
        × (env_parsed P.parse_duration getenv "IDEMPOTENCY_TTL" (pos 86400000000000)
            ≡ ok cfg.idempotency.ttl)
        × (load_velocity P getenv (defaults P).velocity ≡ ok cfg.velocity)
        × (env_parsed P.parse_duration getenv "LOCK_TTL" (pos 30000000000) ≡ ok cfg.lock.ttl)
        × (load_middleware P getenv (defaults P).middleware ≡ ok cfg.middleware)
        × (load_anomaly P getenv (defaults P).anomaly ≡ ok cfg.anomaly)
        × (env_parsed P.parse_duration getenv "CHALLENGE_NEW_ACCOUNT_MAX_AGE" (pos 86400000000000)
            ≡ ok cfg.challenge.new_account_max_age)
        × (env_parsed P.parse_duration getenv "STEPUP_TOKEN_TTL" (pos 600000000000)
            ≡ ok cfg.step_up.token_ttl)
        × (load_store P getenv "memory" ≡ ok cfg.device_trust.store)
        × (env_parsed parse_bool getenv "NOTIFY_ENABLED" true ≡ ok cfg.notify.enabled)
        × (load_balances P getenv (defaults P).demo.account_balances ≡ ok cfg.demo.account_balances)
  unfolding load defaults
  load-steps getenv cfg h = ground arith

  -- Each setting is what its variable says, or the default; the store is one of two.
  abbrev pub Settings : (String → String) → Config P → Type 0
  Settings getenv cfg =
      (cfg.server.listen_addr ≡ env_string getenv "LISTEN_ADDR" ":8080")
      × (cfg.redis.addr ≡ env_string getenv "REDIS_ADDR" "localhost:6379")
      × (cfg.redis.key_prefix ≡ env_string getenv "REDIS_KEY_PREFIX" "floodguard")
      × (env_parsed P.parse_duration getenv "REDIS_PING_TIMEOUT" (pos 3000000000)
          ≡ ok cfg.redis.ping_timeout)
      × ((env_parsed parse_int getenv "IP_RATE_LIMIT" (pos 30) ≡ ok cfg.rate_limit.ip_limit)
          × (env_parsed P.parse_duration getenv "IP_RATE_WINDOW" (pos 60000000000)
              ≡ ok cfg.rate_limit.ip_window)
          × (env_parsed parse_int getenv "ACCOUNT_RATE_LIMIT" (pos 10)
              ≡ ok cfg.rate_limit.account_limit)
          × (env_parsed P.parse_duration getenv "ACCOUNT_RATE_WINDOW" (pos 60000000000)
              ≡ ok cfg.rate_limit.account_window))
      × (env_parsed P.parse_duration getenv "IDEMPOTENCY_TTL" (pos 86400000000000)
          ≡ ok cfg.idempotency.ttl)
      × ((env_parsed parse_int getenv "VELOCITY_WITHDRAW_MAX" (pos 3)
            ≡ ok cfg.velocity.withdraw_max_per_window)
          × (env_parsed P.parse_duration getenv "VELOCITY_WINDOW" (pos 60000000000)
              ≡ ok cfg.velocity.window)
          × (env_parsed P.parse_duration getenv "VELOCITY_MIN_INTERVAL" (pos 200000000)
              ≡ ok cfg.velocity.min_interval))
      × (env_parsed P.parse_duration getenv "LOCK_TTL" (pos 30000000000) ≡ ok cfg.lock.ttl)
      × ((env_parsed parse_bool getenv "BLOCK_ON_VELOCITY" false
            ≡ ok cfg.middleware.block_on_velocity)
          × (env_parsed parse_bool getenv "REQUIRE_IDEMPOTENCY_KEY" true
              ≡ ok cfg.middleware.require_idempotency_key)
          × (env_parsed parse_bool getenv "REQUIRE_LOCK" true ≡ ok cfg.middleware.require_lock))
      × ((env_parsed P.parse_float getenv "ANOMALY_SPIKE_MULTIPLIER" P.five
            ≡ ok cfg.anomaly.spike_multiplier)
          × (env_parsed parse_int getenv "ANOMALY_LOOKBACK_MINUTES" (pos 60)
              ≡ ok cfg.anomaly.lookback_minutes))
      × (env_parsed P.parse_duration getenv "CHALLENGE_NEW_ACCOUNT_MAX_AGE" (pos 86400000000000)
          ≡ ok cfg.challenge.new_account_max_age)
      × (env_parsed P.parse_duration getenv "STEPUP_TOKEN_TTL" (pos 600000000000)
          ≡ ok cfg.step_up.token_ttl)
      × ((cfg.device_trust.store ≡ env_string getenv "DEVICE_TRUST_STORE" "memory")
          × ((cfg.device_trust.store ≡ "memory") ⊎ (cfg.device_trust.store ≡ "redis")))
      × (env_parsed parse_bool getenv "NOTIFY_ENABLED" true ≡ ok cfg.notify.enabled)
      × (env_parsed parse_account_balances getenv "DEMO_ACCOUNT_BALANCES"
            (("acct-1001", pos 50000) ∷ ("acct-1002", pos 10000) ∷ [])
          ≡ ok cfg.demo.account_balances)

  -- When Load returns settings, each of them is what its environment variable is read as, and its
  -- default where the variable is empty or not set: numbers and switches as strconv reads them,
  -- the demo balances as parseAccountBalances does, and the device trust store is memory or redis.
  pub load-Settings :
      (getenv : String → String) (cfg : Config P) → load P getenv ≡ ok cfg → Settings getenv cfg
  unfolding defaults
  load-Settings getenv cfg h =
      let d = defaults P in
      let (
        listen, addr, prefix, ping, rates, ttl, vel, lock, mid, anom, age, token, store, on, seed,
      ) =
        load-steps getenv cfg h in
      (
        listen,
        addr,
        prefix,
        ping,
        load_rate_limit-lem getenv d.rate_limit cfg.rate_limit rates,
        ttl,
        load_velocity-lem getenv d.velocity cfg.velocity vel,
        lock,
        load_middleware-lem getenv d.middleware cfg.middleware mid,
        load_anomaly-lem getenv d.anomaly cfg.anomaly anom,
        age,
        token,
        load_store-lem getenv "memory" cfg.device_trust.store store,
        on,
        load_balances-lem getenv d.demo.account_balances cfg.demo.account_balances seed,
      )
