-- ===== src/Examples/Requests.antt =====
-- The theorems on the Guard and the middleware at concrete requests, over the in-memory stores.
use floodguard_rate_limiter.Prelude.{
  String, true, false, none, some, [], ◌∷◌, ◌≡◌, refl, ◌≢◌, ◌↔◌, text_eq, if◌then◌else◌,
}
use floodguard_rate_limiter.Prelude.Int.{ℤ, pos}
use floodguard_rate_limiter.Prelude.Dict.{lookup}
use floodguard_rate_limiter.Errors.{Action, background, ok, err, rejected, reject_cached}
use floodguard_rate_limiter.Idempotency
use floodguard_rate_limiter.Idempotency.{Entries, memory_claim, memory_complete}
use floodguard_rate_limiter.Lock
use floodguard_rate_limiter.Lock.{Locks, MemoryLock, memory_acquire, memory_release}
use floodguard_rate_limiter.Velocity
use floodguard_rate_limiter.Velocity.{Actions, Format, memory_record, memory_count, memory_last}
use floodguard_rate_limiter.Guard.{Guard, Request, protect, allow}
use floodguard_rate_limiter.Guard.Layers.{PassesAll, protect_allows_iff}
use floodguard_rate_limiter.Middleware.{HttpRequest, write_header, write, Options, NextHandler}
use floodguard_rate_limiter.Middleware.Serve.{handle}
use floodguard_rate_limiter.Middleware.Quiet.{served_in}
use floodguard_rate_limiter.Middleware.Serving.{reaches_handler, handle-serves}
use floodguard_rate_limiter.Middleware.Replies.{Answered, handle-Answered}
use floodguard_rate_limiter.Middleware.ProtectFunc.{protect_func, protect_func_loses_cached}

-- The in-memory stores of one process, at one reading of the clock.
record Shop : Type 0 where
  entries : Entries
  actions : Actions
  locks : Locks

abbrev on_entries : {A : Type 0} → Action Entries A → Action Shop A
on_entries act w = let (r, m) = act w.entries in (r, record w { entries = m })

abbrev on_actions : {A : Type 0} → Action Actions A → Action Shop A
on_actions act w = let (r, m) = act w.actions in (r, record w { actions = m })

abbrev on_locks : {A : Type 0} → Action Locks A → Action Shop A
on_locks act w = let (r, m) = act w.locks in (r, record w { locks = m })

abbrev clock : Action Shop ℤ
clock w = (ok (pos 1000), w)

abbrev plain : Format
plain = record { over_window = λ n label window. label; too_fast = λ label min elapsed. label }

abbrev handed_out : MemoryLock → Lock.Lock Shop
handed_out l = record { release = λ ctx. on_locks (memory_release l) }

abbrev lock_client : Lock.Client Shop
lock_client = record {
  acquire = λ ctx key ttl w.
      let (r, w') = on_locks (memory_acquire (pos 1000) (ok "t1") key ttl) w in
      (elim r [ ok l ↦ ok (handed_out l) | err e ↦ err e ], w');
}

-- An IP limiter that refuses one address, an account limiter that admits all, two actions in sixty.
abbrev shop : Guard Shop
shop = record {
  ip_rate =
      some (record { allow = λ ctx ip w. (ok (if text_eq ip "10.0.0.9" then false else true), w) });
  rate = record { allow = λ ctx key w. (ok true, w) };
  idempotency = record {
    store = record {
      claim = λ ctx key ttl. on_entries (memory_claim (pos 1000) key ttl);
      complete = λ ctx key response ttl. on_entries (memory_complete (pos 1000) key response ttl);
    };
    ttl = pos 500;
  };
  lock = record { client = lock_client; ttl = pos 30 };
  velocity = record {
    store = record {
      record_action = λ ctx key at. on_actions (memory_record key at);
      count = λ ctx key window. on_actions (memory_count (pos 1000) key window);
      last = λ ctx key. on_actions (memory_last key);
    };
    rules = Velocity.rate_rule plain (record { n = pos 2; window = pos 60; label = "bets" }) ∷ [];
  };
}

abbrev opened : Shop
opened = record { entries = []; actions = []; locks = [] }

-- One request in flight, and one that has its response.
abbrev served_shop : Shop
served_shop = record opened {
  entries = ("pay-1", record { in_flight = false; value = 7 ∷ []; expires_at = pos 1400 }) ∷ [];
}

abbrev payment : Request
payment = record { key = "alice"; ip_key = "10.0.0.1"; idempotency_key = "pay-1"; action = "bet" }

alice≢empty : ◌≢◌ {A = String} "alice" ""
alice≢empty e = cc

pay_1≢empty : ◌≢◌ {A = String} "pay-1" ""
pay_1≢empty e = cc

protect_allows_iff_example :
    ((protect shop clock background payment opened).0 ≡ ok allow)
    ↔ PassesAll shop clock background payment opened
protect_allows_iff_example = protect_allows_iff shop clock background payment opened

begun_served :
    (Idempotency.begin shop.idempotency background "pay-1" served_shop).0 ≡ ok (false, 7 ∷ [])
unfolding Idempotency.begin Idempotency.begin_result memory_claim Idempotency.live_entry
    Idempotency.decide_claim lookup
begun_served = refl

protect_func_loses_cached_example :
    (protect_func shop clock "alice" "pay-1" served_shop).0
    ≡ err (rejected (record { reason = reject_cached; cached = [] }))
protect_func_loses_cached_example =
    protect_func_loses_cached shop clock "alice" "pay-1" served_shop false (7 ∷ []) alice≢empty
      pay_1≢empty refl begun_served refl

-- A route that needs a key and a lock, and the handler behind it.
abbrev route : Options Shop
route = record {
  ip_key_func = λ r. r.remote_addr;
  key_func = λ r. r.header "X-Account-ID";
  lock_key_func = none;
  idempotency_key_func = λ r. r.header "Idempotency-Key";
  action = "bet";
  require_lock = true;
  require_idempotency_key = true;
  fail_closed = none;
  block_on_velocity = none;
  has_audit = true;
  on_velocity_flag = none;
  on_blocked = none;
}

abbrev pay : NextHandler Shop
pay r w = (write_header 201 ∷ write (7 ∷ []) ∷ [], w)

abbrev order : HttpRequest
order = record {
  context = background;
  header = λ name. if text_eq name "X-Account-ID" then "alice" else "pay-1";
  remote_addr = "10.0.0.1";
  body = none;
}

handle-serves_example :
    served_in (handle shop clock route pay order opened).1
    ≡ (if reaches_handler shop clock route pay order opened then 1 else 0)
handle-serves_example = handle-serves shop clock route pay order opened

-- The address that the IP limiter refuses, at a route without callbacks.
abbrev refused_order : HttpRequest
refused_order = record order { remote_addr = "10.0.0.9" }

handle-Answered_example : Answered (handle shop clock route pay refused_order opened).1
handle-Answered_example = handle-Answered shop clock route pay refl refl refused_order opened
