-- ===== src/Lib.antt =====
-- A model of floodguard, a Go library that protects balance-changing HTTP endpoints, and what is
-- proved of it.
--
-- The program. A request passes a pipeline of layers: an IP rate limit, an account rate limit, an
-- idempotency claim, velocity rules and a lock; the wrapped handler then moves money through a
-- wallet, whose changes are entries of a hash-chained ledger. floodguard.go composes the layers as
-- Guard.Protect for programs, middleware/http.go composes the same parts as an HTTP handler, and the
-- packages ratelimit, idempotency, lock and velocity hold the parts, each an interface with an
-- in-memory and a Redis implementation.
--
-- State and effects. A call that may fail is an `Action W A`: a function from a world to a result
-- and the world after it, so what was written before an error stays written. The guard, the managers
-- and the middleware are over any world and any limiters, stores and lock clients; the in-memory
-- implementations are actions on their own maps. Their mutexes make each call of them one step, and
-- interleavings of callers are sequences of steps. A function that calls its store twice holds no lock
-- over both calls: the two parts of Engine.Check are steps of their own in Velocity.Overlaps, while
-- RecordTransaction, and a request as a whole, are taken as one step, so histories of them are of
-- calls that do not overlap. Times are integers of nanoseconds and are arguments. Maps are association
-- lists (Prelude.Dict). An int64 is an integer whose arithmetic is wrapped by `wrap64`.
--
-- The files.
-- - Prelude (Tests, Lists, Int, Dict): Boolean tests, integers and int64, dictionaries.
-- - Errors: errors.go, the sentinel errors of every package, errors.Is and errors.As, and `Action`.
-- - Redis: go-redis and the Redis server as parameters: strings with a time to live and, in Sorted,
--   sorted sets, with their documented laws. A call on the network is delivered, or loses its request
--   or its reply.
-- - RateLimit: ratelimit/limiter.go and ratelimit/token_bucket.go. golang.org/x/time/rate is a
--   parameter. Buckets: each key's decisions. RedisWindow: ratelimit/redis_sliding_window.go.
--   WindowScript, WindowTracks, WindowKeys, WindowAnswers and WindowLimit: its script on one set, a set
--   as time passes, the sets of all keys, the answers, and how many are allowed; WindowLog is the
--   limiter that keeps a log.
-- - Idempotency: idempotency/idempotency.go and idempotency/memory.go. Claims: histories of claims and
--   completions. Redis: idempotency/redis.go. RedisKeys, RedisHistory, RedisHeld and RedisClaims: its
--   keys, its histories, what they leave, and what a claim gets after them.
-- - Lock: lock/lock.go and lock/memory.go. Exclusion: the step relation of callers, leases and time.
--   Granted: when an attempt is granted. Holding: what one holder relies on. Redis: lock/redis.go. Agreement: the two clients together.
--   Token: lock/token.go.
-- - Velocity: velocity/velocity.go, velocity/rules.go and velocity/memory.go. Window: what a count
--   sees and forgets. Overlaps: histories of checks under one rule, whose two parts may have those of
--   other checks in between. Redis: velocity/redis.go. RedisTracks, RedisKeys and RedisOverlaps: its
--   sets as they are trimmed and added to, those of all keys, and such histories over them.
-- - Guard: floodguard.go and velocity_key.go. Layers: which requests Protect lets through.
--   Duplicates: requests whose idempotency key is in use.
-- - Middleware: middleware/http.go, the replies and the recorder. Handler: the layers, function by
--   function of the branches of Handler. Serve: the lock, the wrapped handler and the stored response,
--   and the handler as a whole, `handle`. Quiet and Serving: when the wrapped handler is called.
--   Statuses and Replies: what is answered where it is not. Keys: the default key functions.
--   ProtectFunc: the function of that name. Keeps, Kept, Handled and HandledAt: what the handler
--   makes of the world, from what its parts make of it. Memory, Taken, Ends and Once: guards over the in-memory
--   idempotency store, a key that is taken, what one request does to it, and many requests.
-- - Ledger: ledger/ledger.go and ledger/memory.go. SHA-256 and the printing of numbers and times are
--   parameters. Chain: chains and their verification. Tampering: which changes are noticed.
-- - Wallet: example/wallet/wallet.go. Exact: its int64 arithmetic against exact integers. Reconciled:
--   the wallet over the in-memory ledger.
-- - DeviceTrust: devicetrust/devicetrust.go and devicetrust/memory.go. Trusted: which devices are known
--   after a history of calls. Fingerprint: the fingerprint of a request. Redis: devicetrust/redis.go.
--   RedisKeys, RedisHeld and Agreement: its keys, what it has written, and its answers against those of
--   the in-memory store.
-- - StepUp: stepup/stepup.go. Tokens: what a challenge token is good for. Gate: stepup/middleware.go.
-- - Challenge: challenge/challenge.go. Solved: what passes its check. Gate: challenge/middleware.go.
-- - Anomaly: anomaly/anomaly.go and anomaly/memory.go, floats being a parameter. Loop: the loop over
--   the minutes. Counts: what an increment adds to a count. Redis: anomaly/redis.go.
-- - Notify: notify/notify.go. Queue: interleavings of requests and deliveries,
--   against a bounded queue.
-- - Config: config/config.go, the settings and their defaults. Texts: what it uses of Go's strings and
--   strconv. Reading: Load and parseAccountBalances. Loaded and Balances: what they return.
-- - App: what example/app/app.go builds over Redis. Keys: the keys that its stores share. Service:
--   example/app/service.go. Withdrawals: what a withdrawal does to the accounts. Wiring and Handlers:
--   the rest of example/app/app.go, New's guard, managers, handlers and routes. Settled and Paid: what a
--   request to /withdraw does to the accounts, through the inner handlers and through all of them.
--   Flagged: the same for a request that the velocity rules flag. Retries: requests sent again with
--   their key.
-- - Examples (Stores, Locks, Requests, Repeats, Money, Trust, Captcha, Remote, Windows, Counters,
--   Scores, Devices, Server, Withdraw, Retries): the theorems at concrete inputs, over the Redis
--   servers of Servers, whose keys are a dictionary, and over the example servers of Server and Standing.
--
-- The example server's world is one record: the outside (clock, random source, Redis), the service,
-- and the tokens of the two managers. The handlers that it nests hand each other the calls that they
-- make on their ResponseWriter, and the flag of a flagged request travels in the request's context.
--
-- Redis. A script runs as one step of the server, whose clock and the client's are arguments. Times to
-- live and the server's clock are in milliseconds, the precision of Redis, and in seconds for the
-- anomaly counter; the laws are for times to live that are positive. Theorems over Redis take any server that keeps to the laws.
--
-- Termination. Every loop of the modelled code runs over a list, and its model is by structural
-- recursion, but for the loop over minutes of the in-memory counter, which is on fuel: more fuel than
-- there are minutes is enough.
--
-- Not modelled: example/main.go; hashes, random bytes and net/http, which are parameters; of
-- middleware/http.go DrainBody and the logger (trace lines are events), and other log lines; panics of
-- callbacks; ParseFloat, ParseDuration, floats and encoding/json, which are parameters; bytes of a
-- setting that are no Unicode text; the texts of errors, which keep their structure, and of velocity
-- reasons, which a parameter prints.
pub mod Prelude
pub mod Errors
pub mod RateLimit
pub mod Idempotency
pub mod Lock
pub mod Velocity
pub mod Guard
pub mod Middleware
pub mod Ledger
pub mod Wallet
pub mod DeviceTrust
pub mod StepUp
pub mod Challenge
pub mod Redis
pub mod Anomaly
pub mod Notify
pub mod Config
pub mod App
pub mod Examples
