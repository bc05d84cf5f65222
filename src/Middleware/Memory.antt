-- ===== src/Middleware/Memory.antt =====
-- Guards whose idempotency store is the in-memory one, and the predicates on the world that their
-- handlers keep.
use floodguard_rate_limiter.Prelude.{String, true, some, ◌≡◌, List}
use floodguard_rate_limiter.Prelude.Int.{ℤ, ◌≤ℤ◌}
use floodguard_rate_limiter.Errors.{Action, Bytes, Context, ok, RejectReason}
use floodguard_rate_limiter.RateLimit.{Limiter}
use floodguard_rate_limiter.Idempotency
use floodguard_rate_limiter.Idempotency.{Entries, memory_claim, memory_complete, is_present}
use floodguard_rate_limiter.Velocity
use floodguard_rate_limiter.Guard.{Guard, try_lock}
use floodguard_rate_limiter.Middleware.{HttpRequest, Call, Options, NextHandler}
use floodguard_rate_limiter.Guard.{complete_idempotency}
use floodguard_rate_limiter.Prelude.{arith}
use floodguard_rate_limiter.Middleware.Keeps.{GuardKeeps}

-- What is left of a world's entries and clock by a call that has nothing to do with idempotency.
pub record Rests {W : Type 0} (entries : W → Entries) (clock : W → ℤ) (w w' : W) : Type 0 where
  pub same : entries w' ≡ entries w
  pub later : clock w ≤ℤ clock w'

-- A guard, options and a wrapped handler in a world that holds the entries of the in-memory
-- idempotency store and its clock, both out of reach of everything but the idempotency store.
pub record OverMemory {W : Type 0} (entries : W → Entries) (clock : W → ℤ) (g : Guard W)
    (now : Action W ℤ) (opts : Options W) (next : NextHandler W) : Type 0 where
  pub ip :
      (l : Limiter W)
      → g.ip_rate ≡ some l
      → (ctx : Context) (key : String) (w : W) → Rests entries clock w (l.allow ctx key w).1
  pub account :
      (ctx : Context) (key : String) (w : W) → Rests entries clock w (g.rate.allow ctx key w).1
  pub velocity :
      (ctx : Context) (key : String) (w : W)
      → Rests entries clock w (Velocity.check g.velocity now ctx key w).1
  pub lock : (ctx : Context) (key : String) (w : W) → Rests entries clock w (try_lock g ctx key w).1
  pub release :
      (ctx : Context) (key : String) (w w' : W) (f : Action W (Unit {0}))
      → (try_lock g ctx key w).0 ≡ ok f
      → Rests entries clock w' (f w').1
  pub handler : (r : HttpRequest) (w : W) → Rests entries clock w (next r w).1
  pub blocks :
      (f : HttpRequest → RejectReason → W → List Call × W)
      → opts.on_blocked ≡ some f
      → (r : HttpRequest) (why : RejectReason) (w : W) → Rests entries clock w (f r why w).1
  pub flags :
      (f : HttpRequest → String → W → HttpRequest × List Call × W)
      → opts.on_velocity_flag ≡ some f
      → (r : HttpRequest) (why : String) (w : W) → Rests entries clock w (f r why w).2
  pub claims :
      (ctx : Context) (key : String) (w : W)
      → let (res, w') = g.idempotency.store.claim ctx key g.idempotency.ttl w in
        let (res', m) = memory_claim (clock w) key g.idempotency.ttl (entries w) in
        (res ≡ res') × (entries w' ≡ m) × (clock w ≤ℤ clock w')
  pub completes :
      (ctx : Context) (key : String) (body : Bytes) (w : W)
      → let w' = (g.idempotency.store.complete ctx key body g.idempotency.ttl w).1 in
        (entries w' ≡ (memory_complete (clock w) key body g.idempotency.ttl (entries w)).1)
        × (clock w ≤ℤ clock w')

-- A predicate that lasts: through time, claims of any key, and completions with a response.
pub record IsLasting {W : Type 0} (entries : W → Entries) (clock : W → ℤ) (ttl : ℤ) (P : W → Type 0)
    : Type 0 where
  pub rests : (w w' : W) → Rests entries clock w w' → P w → P w'
  pub claimed :
      (key : String) (w w' : W)
      → entries w' ≡ (memory_claim (clock w) key ttl (entries w)).1
      → clock w ≤ℤ clock w'
      → P w
      → P w'
  pub completed :
      (key : String) (body : Bytes) (w w' : W)
      → is_present body ≡ true
      → entries w' ≡ (memory_complete (clock w) key body ttl (entries w)).1
      → clock w ≤ℤ clock w'
      → P w
      → P w'

module _ {W : Type 0} (entries : W → Entries) (clock : W → ℤ) (g : Guard W) (now : Action W ℤ)
    (opts : Options W) (next : NextHandler W) (over : OverMemory entries clock g now opts next)
    (P : W → Type 0) (lasting : IsLasting entries clock g.idempotency.ttl P) where
  begin-lasts :
      (ctx : Context) (key : String) (w : W) → P w → P (Idempotency.begin g.idempotency ctx key w).1
  unfolding Idempotency.begin
  begin-lasts ctx key w h =
      let w' = (g.idempotency.store.claim ctx key g.idempotency.ttl w).1 in
      let (same, entry, later) = over.claims ctx key w in
      let kept = lasting.claimed key w w' entry later h in ground (arith, kept, h)

  complete-lasts :
      (ctx : Context) (key : String) (body : Bytes) (w : W)
      → is_present body ≡ true
      → P w
      → P (complete_idempotency g ctx key body w).1
  unfolding complete_idempotency Idempotency.complete
  complete-lasts ctx key body w b h =
      let w' = (g.idempotency.store.complete ctx key body g.idempotency.ttl w).1 in
      let (entry, later) = over.completes ctx key body w in
      let kept = lasting.completed key body w w' b entry later h in ground (arith, kept, h)

  pub lasting-GuardKeeps : GuardKeeps P g now opts
  lasting-GuardKeeps = record {
    ip = λ l e ctx key w. lasting.rests w (l.allow ctx key w).1 (over.ip l e ctx key w);
    account = λ ctx key w. lasting.rests w (g.rate.allow ctx key w).1 (over.account ctx key w);
    velocity = λ ctx key w.
        lasting.rests w (Velocity.check g.velocity now ctx key w).1 (over.velocity ctx key w);
    lock = λ ctx key w. lasting.rests w (try_lock g ctx key w).1 (over.lock ctx key w);
    release = λ ctx key w w' f e. lasting.rests w' (f w').1 (over.release ctx key w w' f e);
    blocks = λ f e r why w. lasting.rests w (f r why w).1 (over.blocks f e r why w);
    flags = λ f e r why w. lasting.rests w (f r why w).2 (over.flags f e r why w);
    begins = begin-lasts;
    completes = complete-lasts;
  }

  pub handler-lasts : (r : HttpRequest) (w : W) → P w → P (next r w).1
  handler-lasts r w = lasting.rests w (next r w).1 (over.handler r w)
