-- ===== src/Examples/Repeats.antt =====
-- The theorem on repeated requests at concrete requests, in a world with a clock that moves.
use floodguard_rate_limiter.Prelude.{
  ◌≤◌, ap, sym, ◌∙◌, String, true, false, none, [], ◌∷◌, ◌≡◌, refl, ◌≢◌, arith,
}
use floodguard_rate_limiter.Prelude.Int.{ℤ, pos, ◌+ℤ◌, int_laws}
use floodguard_rate_limiter.Prelude.Dict.{lookup, insert}
use floodguard_rate_limiter.Errors.{Action, Context, background, Result, ok, err}
use floodguard_rate_limiter.Idempotency
use floodguard_rate_limiter.Idempotency.{Entries, memory_claim, memory_complete}
use floodguard_rate_limiter.Lock
use floodguard_rate_limiter.Velocity
use floodguard_rate_limiter.Guard.{Guard, velocity_key, try_lock, complete_idempotency}
use floodguard_rate_limiter.Middleware.{
  HttpRequest, write_header, write, Options, NextHandler, record_calls, is_cacheable,
}
use floodguard_rate_limiter.Middleware.Handler.{
  require_key, limit_ip, limit_account, judge_limit, claim, judge_claim, check_velocity,
  judge_velocity,
}
use floodguard_rate_limiter.Middleware.Serve.{
  handle, serve, run_locked, run_handler, store_response,
}
use floodguard_rate_limiter.Middleware.Memory.{Rests, OverMemory}
use floodguard_rate_limiter.Middleware.Once.{handle_all, handle_all-serves_once}

abbrev World : Type 0
World = Entries × ℤ

abbrev read_clock : Action World ℤ
read_clock w = (ok w.1, w)

abbrev lock_client : Lock.Client World
lock_client = record {
  acquire = λ ctx key ttl w. (ok (record { release = λ ctx v. (ok tt, v) }), w);
}

-- Everything is admitted, and a claim lasts a hundred.
abbrev open_guard : Guard World
open_guard = record {
  ip_rate = none;
  rate = record { allow = λ ctx key w. (ok true, w) };
  idempotency = record {
    store = record {
      claim = λ ctx key ttl w. let (r, m) = memory_claim w.1 key ttl w.0 in (r, (m, w.1));
      complete = λ ctx key response ttl w.
          let (r, m) = memory_complete w.1 key response ttl w.0 in (r, (m, w.1));
    };
    ttl = pos 100;
  };
  lock = record { client = lock_client; ttl = pos 30 };
  velocity = record {
    store = record {
      record_action = λ ctx key at w. (ok tt, w);
      count = λ ctx key window w. (ok (pos 0), w);
      last = λ ctx key w. (ok none, w);
    };
    rules = [];
  };
}

abbrev orders : Options World
orders = record {
  ip_key_func = λ r. r.remote_addr;
  key_func = λ r. r.header "X-Account-ID";
  lock_key_func = none;
  idempotency_key_func = λ r. r.header "Idempotency-Key";
  action = "order";
  require_lock = true;
  require_idempotency_key = true;
  fail_closed = none;
  block_on_velocity = none;
  has_audit = false;
  on_velocity_flag = none;
  on_blocked = none;
}

-- A handler that takes forty.
abbrev slow : NextHandler World
slow r w = (write_header 201 ∷ write (7 ∷ []) ∷ [], (w.0, w.1 +ℤ pos 40))

abbrev order : HttpRequest
order = record {
  context = background;
  header = λ name. "o-1";
  remote_addr = "10.0.0.1";
  body = none;
}

-- A call that changes nothing.
unchanged : (w w' : World) → w' ≡ w → Rests {W = World} (λ v. v.0) (λ v. v.1) w w'
unchanged w w' e = record { same = ap (λ (v : World). v.0) e; later = rw e (omega int_laws) }

checked :
    (ctx : Context) (key : String) (w : World)
    → (Velocity.check open_guard.velocity read_clock ctx key w).1 ≡ w
unfolding Velocity.check
checked ctx key w = ground arith

locked : (ctx : Context) (key : String) (w : World) → (try_lock open_guard ctx key w).1 ≡ w
unfolding try_lock Lock.try_acquire
locked ctx key w = ground arith

abbrev release_in : Result (Action World (Unit {0})) → Action World (Unit {0})
release_in (ok f) = f
release_in (err e) = λ v. (ok tt, v)

released :
    (ctx : Context) (key : String) (w w' : World)
    → (release_in (try_lock open_guard ctx key w).0 w').1 ≡ w'
unfolding try_lock Lock.try_acquire
released ctx key w w' = ground arith

over : OverMemory {W = World} (λ w. w.0) (λ w. w.1) open_guard read_clock orders slow
over = record {
  ip = λ l e. cc;
  account = λ ctx key w. unchanged w w refl;
  velocity = λ ctx key w. unchanged w _ (checked ctx key w);
  lock = λ ctx key w. unchanged w _ (locked ctx key w);
  release = λ ctx key w w' f e.
      unchanged w' (f w').1 (ap (λ r. (release_in r w').1) (sym e) ∙ released ctx key w w');
  handler = λ r w. record { same = refl; later = omega int_laws };
  blocks = λ f e. cc;
  flags = λ f e. cc;
  claims = λ ctx key w. (refl, refl, omega int_laws);
  completes = λ ctx key body w. (refl, omega int_laws);
}

-- The first request takes forty, and the others are replayed.
at_end :
    (handle_all open_guard read_clock orders slow "o-1"
      (order ∷ order ∷ order ∷ [])
      ([], pos 1000)).1.1
    ≡ pos 1040
unfolding handle_all handle require_key limit_ip limit_account judge_limit claim judge_claim
    check_velocity judge_velocity serve run_locked run_handler store_response Idempotency.begin
    Idempotency.begin_result Idempotency.complete memory_claim Idempotency.live_entry
    Idempotency.decide_claim memory_complete Velocity.check try_lock Lock.try_acquire
    complete_idempotency record_calls is_cacheable velocity_key lookup insert ◌+ℤ◌
at_end = refl

o_1≢empty : ◌≢◌ {A = String} "o-1" ""
o_1≢empty e = cc

handle_all-serves_once_example :
    (handle_all open_guard read_clock orders slow "o-1"
      (order ∷ order ∷ order ∷ [])
      ([], pos 1000)).0
    ≤ 1
unfolding ◌+ℤ◌
handle_all-serves_once_example =
    handle_all-serves_once (λ w. w.0) (λ w. w.1) open_guard read_clock orders slow over "o-1"
      (order ∷ order ∷ order ∷ []) ([], pos 1000) o_1≢empty (rw at_end (omega arith))
