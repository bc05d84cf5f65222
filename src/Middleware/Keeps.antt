-- ===== src/Middleware/Keeps.antt =====
-- Predicates on the world that the parts of the handler of middleware/http.go keep.
use floodguard_rate_limiter.Prelude.{String, true, some, ◌≡◌, Option-cases, inl, inr, List}
use floodguard_rate_limiter.Prelude.Int.{ℤ}
use floodguard_rate_limiter.Errors.{Action, Bytes, Context, ok, RejectReason}
use floodguard_rate_limiter.RateLimit.{Limiter}
use floodguard_rate_limiter.Idempotency
use floodguard_rate_limiter.Idempotency.{is_present}
use floodguard_rate_limiter.Velocity
use floodguard_rate_limiter.Guard.{Guard, try_lock, complete_idempotency}
use floodguard_rate_limiter.Middleware.{HttpRequest, Call, Options, Run, ◌>>=◌}

-- `m` keeps `P`, whether the handler goes on or returns.
pub record Keeps {W A : Type 0} (P : W → Type 0) (m : Run W A) : Type 0 where
  pub at : (w : W) → P w → P (m w).2

pub Keeps-bind :
    {W A B : Type 0} (P : W → Type 0) (m : Run W A) (f : A → Run W B)
    → Keeps P m
    → ((a : A) → Keeps P (f a))
    → Keeps P (m >>= f)
Keeps-bind P m f km kf = record {
  at = λ w h. elim (Option-cases (m w).0) [
    | inl e ↦ rw (e, ◌>>=◌) (km.at w h)
    | inr (a, e) ↦ rw (e, ◌>>=◌) ((kf a).at (m w).2 (km.at w h))
  ];
}

-- Every part of the guard, and every callback, keeps `P`.
pub record GuardKeeps {W : Type 0} (P : W → Type 0) (g : Guard W) (now : Action W ℤ)
    (opts : Options W) : Type 0 where
  pub ip :
      (l : Limiter W)
      → g.ip_rate ≡ some l
      → (ctx : Context) (key : String) (w : W) → P w
      → P (l.allow ctx key w).1
  pub account : (ctx : Context) (key : String) (w : W) → P w → P (g.rate.allow ctx key w).1
  pub velocity :
      (ctx : Context) (key : String) (w : W) → P w → P (Velocity.check g.velocity now ctx key w).1
  pub lock : (ctx : Context) (key : String) (w : W) → P w → P (try_lock g ctx key w).1
  pub release :
      (ctx : Context) (key : String) (w w' : W) (f : Action W (Unit {0}))
      → (try_lock g ctx key w).0 ≡ ok f
      → P w'
      → P (f w').1
  pub blocks :
      (f : HttpRequest → RejectReason → W → List Call × W)
      → opts.on_blocked ≡ some f
      → (r : HttpRequest) (why : RejectReason) (w : W) → P w
      → P (f r why w).1
  pub flags :
      (f : HttpRequest → String → W → HttpRequest × List Call × W)
      → opts.on_velocity_flag ≡ some f
      → (r : HttpRequest) (why : String) (w : W) → P w
      → P (f r why w).2
  pub begins :
      (ctx : Context) (key : String) (w : W) → P w → P (Idempotency.begin g.idempotency ctx key w).1
  pub completes :
      (ctx : Context) (key : String) (body : Bytes) (w : W)
      → is_present body ≡ true
      → P w
      → P (complete_idempotency g ctx key body w).1
