-- ===== src/Middleware/Ends.antt =====
-- Where a call of the handler of middleware/http.go, over the in-memory idempotency store, leaves the
-- key that it claims.
use floodguard_rate_limiter.Prelude.{
  some, ◌≡◌, refl, ◌≢◌, arith, ap, sym, subst, ◌∙◌, eq_iff, Option-cases, inl, inr, ◌⊎◌,
}
use floodguard_rate_limiter.Prelude.Int.{ℤ, ◌+ℤ◌, int_laws}
use floodguard_rate_limiter.Prelude.Dict.{lookup}
use floodguard_rate_limiter.Errors.{Action, ok}
use floodguard_rate_limiter.Idempotency
use floodguard_rate_limiter.Idempotency.{Entries, memory_claim, to_process, claim_entry}
use floodguard_rate_limiter.Idempotency.Claims.{memory_claim_settled, claim_process}
use floodguard_rate_limiter.Guard.{Guard}
use floodguard_rate_limiter.Middleware.{HttpRequest, Options, NextHandler, Run, ◌>>=◌, ◌>>◌}
use floodguard_rate_limiter.Middleware.Handler.{
  Keys, keys_of, require_key, limit_ip, limit_account, claim, judge_claim, check_velocity,
}
use floodguard_rate_limiter.Middleware.Serve.{serve, handle}
use floodguard_rate_limiter.Middleware.Quiet.{
  served_in, served_in-append, served_in-require_key, served_in-limit_ip, served_in-limit_account,
  served_in-claim,
}
use floodguard_rate_limiter.Middleware.Keeps.{Keeps, Keeps-bind}
use floodguard_rate_limiter.Middleware.Memory.{
  OverMemory, IsLasting, lasting-GuardKeeps, handler-lasts,
}
use floodguard_rate_limiter.Middleware.Handled.{serve-Keeps}
use floodguard_rate_limiter.Middleware.Kept.{
  require_key-Keeps, limit_ip-Keeps, limit_account-Keeps, claim-Keeps, check_velocity-Keeps,
}
use floodguard_rate_limiter.Middleware.Taken.{
  past_or, IsEarly, IsPast, IsTaken, IsOver, IsPast-IsLasting, IsEarly-IsLasting,
}

-- Where a part that starts in `P` has called the wrapped handler, it ends in `Q`.
abbrev pub Ends : {W A : Type 0} → (W → Type 0) → (W → Type 0) → Run W A → Type 0
Ends {W} P Q m = (w : W) → P w → (served_in (m w).1 ≡ 0) ⊎ Q (m w).2

-- A part that calls nothing, before one that does.
Ends-bind :
    {W A B : Type 0} (P Q : W → Type 0) (m : Run W A) (f : A → Run W B)
    → ((w : W) → served_in (m w).1 ≡ 0)
    → Keeps P m
    → ((a : A) → Ends P Q (f a))
    → Ends P Q (m >>= f)
Ends-bind P Q m f quiet keeps ends w p = elim (Option-cases (m w).0) [
  | inl e ↦ rw (e, ◌>>=◌) (inl (quiet w))
  | inr (a, e) ↦
      let q = quiet w in
      rw (e, ◌>>=◌)
        (elim (ends a (m w).2 (keeps.at w p)) [
          | inl none_served ↦ inl (omega (arith, served_in-append (m w).1 (f a (m w).2).1))
          | inr over ↦ inr over
        ])
]

-- A part that calls nothing and ends in `Q` where it goes on, before one that keeps `Q`.
Ends-bind_then :
    {W A B : Type 0} (P Q : W → Type 0) (m : Run W A) (f : A → Run W B)
    → ((w : W) → served_in (m w).1 ≡ 0)
    → ((w : W) (a : A) → P w → (m w).0 ≡ some a → Q (m w).2)
    → ((a : A) → Keeps Q (f a))
    → Ends P Q (m >>= f)
Ends-bind_then P Q m f quiet ends keeps w p = elim (Option-cases (m w).0) [
  | inl e ↦ rw (e, ◌>>=◌) (inl (quiet w))
  | inr (a, e) ↦ rw (e, ◌>>=◌) (inr ((keeps a).at (m w).2 (ends w a p e)))
]

module _ {W : Type 0} (entries : W → Entries) (clock : W → ℤ) (g : Guard W) (now : Action W ℤ)
    (opts : Options W) (next : NextHandler W)
    (over : OverMemory entries clock g now opts next) where
  -- A claim that lets the handler go on was told to process.
  claim-processes :
      (k : Keys) (r : HttpRequest) (w : W) (a : Unit {0})
      → k.idem ≢ ""
      → (claim g now opts next k r w).0 ≡ some a
      → (memory_claim (clock w) k.idem g.idempotency.ttl (entries w)).0 ≡ ok to_process
  unfolding claim judge_claim Idempotency.begin Idempotency.begin_result memory_claim
      Idempotency.live_entry Idempotency.decide_claim
  claim-processes k r w a named e =
      let (same, entry, later) = over.claims r.context k.idem w in
      ground (arith, eq_iff k.idem "", same, e)

  claim-world :
      (k : Keys) (r : HttpRequest) (w : W)
      → k.idem ≢ ""
      → (claim g now opts next k r w).2
        ≡ (g.idempotency.store.claim r.context k.idem g.idempotency.ttl w).1
  unfolding claim judge_claim Idempotency.begin
  claim-world k r w named = ground (arith, eq_iff k.idem "")

  pub claim-IsOver :
      (k : Keys) (t : ℤ) (r : HttpRequest) (w : W) (a : Unit {0})
      → k.idem ≢ ""
      → IsEarly entries clock g.idempotency.ttl k.idem t w
      → (claim g now opts next k r w).0 ≡ some a
      → IsOver entries clock g.idempotency.ttl k.idem t (claim g now opts next k r w).2
  claim-IsOver k t r w a named early e =
      let ttl = g.idempotency.ttl in
      let (same, entry, later) = over.claims r.context k.idem w in
      let w' = (g.idempotency.store.claim r.context k.idem ttl w).1 in
      let (n, found) =
        claim_process k.idem (clock w) ttl (entries w) (claim-processes k r w a named e) in
      let taken : IsTaken entries clock ttl k.idem t w' =
        (claim_entry (clock w +ℤ ttl), ap (λ m. lookup k.idem m) entry ∙ found, refl, early) in
      subst (IsOver entries clock ttl k.idem t) (sym (claim-world k r w named)) (
        (IsEarly-IsLasting entries clock ttl k.idem t).claimed k.idem w w' entry later early,
        inr taken,
      )

  pub claim-IsPast :
      (k : Keys) (t : ℤ) (r : HttpRequest) (w : W) (a : Unit {0})
      → k.idem ≢ ""
      → IsOver entries clock g.idempotency.ttl k.idem t w
      → (claim g now opts next k r w).0 ≡ some a
      → IsPast entries clock g.idempotency.ttl k.idem t (claim g now opts next k r w).2
  claim-IsPast k t r w a named (early, state) e =
      let ttl = g.idempotency.ttl in
      let past_keeps =
        claim-Keeps g now opts next (IsPast entries clock ttl k.idem t)
          (lasting-GuardKeeps entries clock g now opts next over (IsPast entries clock ttl k.idem t)
            (IsPast-IsLasting entries clock ttl k.idem t))
          k r in
      elim state [
        | inl past ↦ past_keeps.at w past
        | inr (x, found, settled, lasts) ↦ elim (past_or t (clock w)) [
          | inl past ↦ past_keeps.at w past
          | inr on_time ↦
              let answered =
                memory_claim_settled k.idem (clock w) ttl (entries w) x settled found
                  (omega int_laws) named in
              let processed = claim-processes k r w a named e in
              absurd (ground (arith, answered, processed))
        ]
      ]

  -- What follows the account limiter, from worlds in `P` to worlds in `Q`.
  pub handle-Ends :
      (P Q : W → Type 0) (r : HttpRequest)
      → IsLasting entries clock g.idempotency.ttl P
      → IsLasting entries clock g.idempotency.ttl Q
      → ((w : W) (a : Unit {0})
          → P w
          → (claim g now opts next (keys_of g now opts next r) r w).0 ≡ some a
          → Q (claim g now opts next (keys_of g now opts next r) r w).2)
      → Ends P Q (handle g now opts next r)
  unfolding handle
  handle-Ends P Q r p q h =
      let k = keys_of g now opts next r in
      let keeps_p = lasting-GuardKeeps entries clock g now opts next over P p in
      let keeps_q = lasting-GuardKeeps entries clock g now opts next over Q q in
      let serves = λ (r' : HttpRequest).
        serve-Keeps g now opts next Q keeps_q (handler-lasts entries clock g now opts next over Q q)
          k r.context r r' in
      let velocity : Run W HttpRequest = check_velocity g now opts next k r in
      let on_velocity : Run W (Unit {0}) = velocity >>= serve g now opts next k r.context r in
      let on_claim : Run W (Unit {0}) = claim g now opts next k r >> on_velocity in
      let on_account : Run W (Unit {0}) = limit_account g now opts next k r >> on_claim in
      let on_ip : Run W (Unit {0}) = limit_ip g now opts next k r g.ip_rate >> on_account in
      let keeps =
        Keeps-bind Q velocity (serve g now opts next k r.context r)
          (check_velocity-Keeps g now opts next Q keeps_q k r) serves in
      let claimed =
        Ends-bind_then P Q (claim g now opts next k r) (λ _. on_velocity)
          (served_in-claim g now opts next k r) h (λ _. keeps) in
      let limited =
        Ends-bind P Q (limit_account g now opts next k r) (λ _. on_claim)
          (served_in-limit_account g now opts next k r)
          (limit_account-Keeps g now opts next P keeps_p k r) (λ _. claimed) in
      let ip_limited =
        Ends-bind P Q (limit_ip g now opts next k r g.ip_rate) (λ _. on_account)
          (served_in-limit_ip g now opts next k r g.ip_rate)
          (limit_ip-Keeps g now opts next P keeps_p k r g.ip_rate refl) (λ _. limited) in
      Ends-bind P Q (require_key g now opts next k) (λ _. on_ip)
        (served_in-require_key g now opts next k) (require_key-Keeps g now opts next P keeps_p k)
        (λ _. ip_limited)
