-- ===== src/Middleware/Once.antt =====
-- Requests with one idempotency key, handled one after another by the handler of middleware/http.go
-- over the in-memory idempotency store.
use floodguard_rate_limiter.Prelude.{
  ℕ, ◌+◌, ◌≤◌, String, List, [], ◌∷◌, ◌≡◌, refl, ◌≢◌, arith, subst, text_eq, eq_iff, Bool-cases,
  inl, inr, ◌⊎◌, if◌then◌else◌,
}
use floodguard_rate_limiter.Prelude.Int.{ℤ, ◌+ℤ◌, ◌≤ℤ◌, int_laws}
use floodguard_rate_limiter.Errors.{Action}
use floodguard_rate_limiter.Idempotency.{Entries}
use floodguard_rate_limiter.Guard.{Guard}
use floodguard_rate_limiter.Middleware.{HttpRequest, Options, NextHandler}
use floodguard_rate_limiter.Middleware.Handler.{keys_of}
use floodguard_rate_limiter.Middleware.Serve.{handle}
use floodguard_rate_limiter.Middleware.Quiet.{served_in}
use floodguard_rate_limiter.Middleware.Serving.{handle-serves}
use floodguard_rate_limiter.Middleware.Keeps.{Keeps}
use floodguard_rate_limiter.Middleware.Memory.{
  OverMemory, IsLasting, lasting-GuardKeeps, handler-lasts,
}
use floodguard_rate_limiter.Middleware.Handled.{handle-Keeps}
use floodguard_rate_limiter.Middleware.Taken.{
  IsEarly, IsPast, IsOver, IsPast-IsLasting, IsEarly-IsLasting, IsOver-IsLasting,
}
use floodguard_rate_limiter.Middleware.Ends.{Ends, claim-IsOver, claim-IsPast, handle-Ends}

module _ {W : Type 0} (g : Guard W) (now : Action W ℤ) (opts : Options W)
    (next : NextHandler W) where
  -- Requests one after another: how often the wrapped handler is called for one idempotency key, and
  -- the world at the end.
  unfoldable pub handle_all : String → List HttpRequest → W → ℕ × W
  handle_all k [] w = (0, w)
  handle_all k (r ∷ rs) w =
      let (o, es, w') = handle g now opts next r w in
      let (n, w'') = handle_all k rs w' in
      (if text_eq (opts.idempotency_key_func r) k then served_in es + n else n, w'')

module _ {W : Type 0} (entries : W → Entries) (clock : W → ℤ) (g : Guard W) (now : Action W ℤ)
    (opts : Options W) (next : NextHandler W)
    (over : OverMemory entries clock g now opts next) where
  handle-lasts :
      (P : W → Type 0) (r : HttpRequest)
      → IsLasting entries clock g.idempotency.ttl P
      → Keeps P (handle g now opts next r)
  handle-lasts P r p =
      handle-Keeps g now opts next P (lasting-GuardKeeps entries clock g now opts next over P p)
        (handler-lasts entries clock g now opts next over P p) r

  handle_all-lasts :
      (P : W → Type 0) (k : String) (rs : List HttpRequest) (w : W)
      → IsLasting entries clock g.idempotency.ttl P
      → P w
      → P (handle_all g now opts next k rs w).1
  unfolding handle_all
  handle_all-lasts P k [] w p h = h
  handle_all-lasts P k (r ∷ rs) w p h =
      handle_all-lasts P k rs (handle g now opts next r w).2 p ((handle-lasts P r p).at w h)

  handle-le : (r : HttpRequest) (w : W) → served_in (handle g now opts next r w).1 ≤ 1
  handle-le r w = rw (handle-serves g now opts next r w) (ground arith)

  module _ (t : ℤ) where
    handle-IsOver :
        (r : HttpRequest) (k : String)
        → opts.idempotency_key_func r ≡ k
        → k ≢ ""
        → Ends
            (IsOver entries clock g.idempotency.ttl k t)
            (IsPast entries clock g.idempotency.ttl k t)
            (handle g now opts next r)
    handle-IsOver r k e named =
        let ttl = g.idempotency.ttl in
        let key = opts.idempotency_key_func r in
        let alone = λ (n : key ≢ "").
          handle-Ends entries clock g now opts next over (IsOver entries clock ttl key t)
            (IsPast entries clock ttl key t) r (IsOver-IsLasting entries clock ttl key t)
            (IsPast-IsLasting entries clock ttl key t)
            (λ w a.
              claim-IsPast entries clock g now opts next over (keys_of g now opts next r) t r w a
                n) in
        subst
          (λ (x : String).
            x ≢ ""
            → Ends (IsOver entries clock ttl x t) (IsPast entries clock ttl x t)
                (handle g now opts next r))
          e alone named

    handle-IsEarly :
        (r : HttpRequest) (k : String)
        → opts.idempotency_key_func r ≡ k
        → k ≢ ""
        → Ends
            (IsEarly entries clock g.idempotency.ttl k t)
            (IsOver entries clock g.idempotency.ttl k t)
            (handle g now opts next r)
    handle-IsEarly r k e named =
        let ttl = g.idempotency.ttl in
        let key = opts.idempotency_key_func r in
        let alone = λ (n : key ≢ "").
          handle-Ends entries clock g now opts next over (IsEarly entries clock ttl key t)
            (IsOver entries clock ttl key t) r (IsEarly-IsLasting entries clock ttl key t)
            (IsOver-IsLasting entries clock ttl key t)
            (λ w a.
              claim-IsOver entries clock g now opts next over (keys_of g now opts next r) t r w a
                n) in
        subst
          (λ (x : String).
            x ≢ ""
            → Ends (IsEarly entries clock ttl x t) (IsOver entries clock ttl x t)
                (handle g now opts next r))
          e alone named

  module _ (k : String) (t : ℤ) (named : k ≢ "") where
    handle_all-IsOver :
        (rs : List HttpRequest) (w : W)
        → IsOver entries clock g.idempotency.ttl k t w
        → ((handle_all g now opts next k rs w).0 ≡ 0)
          ⊎ IsPast entries clock g.idempotency.ttl k t (handle_all g now opts next k rs w).1
    unfolding handle_all
    handle_all-IsOver [] w h = inl refl
    handle_all-IsOver (r ∷ rs) w h =
        let ttl = g.idempotency.ttl in
        let past = IsPast-IsLasting entries clock ttl k t in
        let (o, es, w') = handle g now opts next r w in
        let h' =
          (handle-lasts (IsOver entries clock ttl k t) r
              (IsOver-IsLasting entries clock ttl k t)).at
            w h in
        let rest = handle_all-IsOver rs w' h' in
        elim (Bool-cases (text_eq (opts.idempotency_key_func r) k)) [
          | inr other ↦ rw (other, handle_all) rest
          | inl same ↦
              elim (handle-IsOver t r k ((eq_iff (opts.idempotency_key_func r) k).0 same) named w
                h) [
                  | inr late ↦
                      inr (handle_all-lasts (IsPast entries clock ttl k t) k rs w' past late)
                  | inl none_served ↦ elim rest [
                    | inl none_later ↦
                        rw (same, handle_all) (inl (omega (arith, none_served, none_later)))
                    | inr late ↦ inr late
                  ]
                ]
        ]

    handle_all-IsEarly :
        (rs : List HttpRequest) (w : W)
        → IsEarly entries clock g.idempotency.ttl k t w
        → ((handle_all g now opts next k rs w).0 ≤ 1)
          ⊎ IsPast entries clock g.idempotency.ttl k t (handle_all g now opts next k rs w).1
    unfolding handle_all
    handle_all-IsEarly [] w h = inl (omega arith)
    handle_all-IsEarly (r ∷ rs) w h =
        let ttl = g.idempotency.ttl in
        let (o, es, w') = handle g now opts next r w in
        let h' =
          (handle-lasts (IsEarly entries clock ttl k t) r
              (IsEarly-IsLasting entries clock ttl k t)).at
            w h in
        let rest = handle_all-IsEarly rs w' h' in
        let once = handle-le r w in
        elim (Bool-cases (text_eq (opts.idempotency_key_func r) k)) [
          | inr other ↦ rw (other, handle_all) rest
          | inl same ↦
              elim (handle-IsEarly t r k ((eq_iff (opts.idempotency_key_func r) k).0 same) named w
                h) [
                  | inr taken ↦ elim (handle_all-IsOver rs w' taken) [
                    | inl none_later ↦ rw (same, handle_all) (inl (omega (arith, once, none_later)))
                    | inr late ↦ inr late
                  ]
                  | inl none_served ↦ elim rest [
                    | inl one_later ↦
                        rw (same, handle_all) (inl (omega (arith, none_served, one_later)))
                    | inr late ↦ inr late
                  ]
                ]
        ]

  -- Over the in-memory idempotency store, with every other part of the guard, the callbacks and
  -- the wrapped handler leaving its entries alone and the clock never going back: of any requests,
  -- handled one after another, the wrapped handler is called at most once for those with a given
  -- idempotency key that is not empty, when no more time passes in all than the ttl of the
  -- idempotency manager, whatever the wrapped handler replies.
  pub handle_all-serves_once :
      (k : String) (rs : List HttpRequest) (w : W)
      → k ≢ ""
      → clock (handle_all g now opts next k rs w).1 ≤ℤ clock w +ℤ g.idempotency.ttl
      → (handle_all g now opts next k rs w).0 ≤ 1
  handle_all-serves_once k rs w named l =
      let t = clock w +ℤ g.idempotency.ttl in
      elim (handle_all-IsEarly k t named rs w (omega int_laws)) [
        | inl h ↦ h
        | inr late ↦ absurd (omega (int_laws, late, l))
      ]
