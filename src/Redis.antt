-- ===== src/Redis.antt =====
-- go-redis and the Redis server, which are not in the repository, as parameters: the commands that the
-- code and its Lua scripts send, at the server's time, and what Redis documents of them.
pub mod Sorted
use floodguard_rate_limiter.Prelude.{
  ◌+◌, ◌-◌, ◌≤◌, ◌<◌, String, Bool, true, false, Option, none, some, ◌≡◌, text_eq, if◌then◌else◌,
}
use floodguard_rate_limiter.Prelude.Int.{ℤ, pos, ◌+ℤ◌, ◌≤ℤ◌, ◌<ℤ◌, ltb_ℤ}
use floodguard_rate_limiter.Errors.{Action, Error, ok, err}

-- What becomes of a call on the network: a command, a script or a pipeline runs as a whole or not at
-- all, and its reply may be lost.
pub data Delivery : Type 0 where
  delivered : Delivery
  lost_request lost_reply : Error → Delivery

abbrev pub exchange {ℓ} : {S : Type 0} {A : Type ℓ} → Delivery → (S → A × S) → Action S A
exchange delivered act s = let (a, s') = act s in (ok a, s')
exchange (lost_request e) act s = (err e, s)
exchange (lost_reply e) act s = (err e, (act s).1)

-- Strings with a time to live; the server's clock and the times to live are in milliseconds.
pub record Strings : Type 1 where
  pub Server : Type 0
  pub get : ℤ → String → Server → Option String
  -- SET key value PX ttl, and with NX
  pub set : ℤ → String → String → ℤ → Server → Server
  pub set_nx : ℤ → String → String → ℤ → Server → Bool × Server
  pub del : ℤ → String → Server → Server

-- What Redis documents: a value is there until its time to live, which is positive, is over, and does not
-- come back by itself; a command changes its own key alone, and NX writes only where there is no value.
pub record StringLaws (R : Strings) : Type 0 where
  pub get-set :
      (now t ttl : ℤ) (key other v : String) (s : R.Server)
      → now ≤ℤ t
      → pos 0 <ℤ ttl
      → R.get t other (R.set now key v ttl s) ≡ (
          if text_eq key other
          then (if ltb_ℤ t (now +ℤ ttl) then some v else none)
          else R.get t other s)
  pub get-del :
      (now t : ℤ) (key other : String) (s : R.Server)
      → now ≤ℤ t
      → R.get t other (R.del now key s) ≡ (if text_eq key other then none else R.get t other s)
  pub get_gone :
      (now t : ℤ) (key : String) (s : R.Server)
      → now ≤ℤ t
      → R.get now key s ≡ none
      → R.get t key s ≡ none
  pub set_nx_lem :
      (now ttl : ℤ) (key v : String) (s : R.Server)
      → pos 0 <ℤ ttl
      → R.set_nx now key v ttl s
        ≡ elim (R.get now key s) [ none ↦ (true, R.set now key v ttl s) | some u ↦ (false, s) ]

-- A server that holds no strings.
abbrev pub IsFresh : (R : Strings) → R.Server → Type 0
IsFresh R s = (t : ℤ) (key : String) → R.get t key s ≡ none
