-- ===== src/Middleware/Serve.antt =====
-- The end of the handler of middleware/http.go: the lock, the wrapped handler, the cached response,
-- and the release; and the handler as a whole.
use floodguard_rate_limiter.Prelude.{some, List, [], ◌∷◌, ◌++◌, text_eq, if◌then◌else◌}
use floodguard_rate_limiter.Prelude.Int.{ℤ}
use floodguard_rate_limiter.Errors.{
  Action, Context, Result, ok, err, Sentinel, reject_locked, is_error,
}
use floodguard_rate_limiter.Guard.{Guard, complete_idempotency, try_lock}
use floodguard_rate_limiter.Middleware.{
  HttpRequest, Trace, Event, traced, served, Options, NextHandler, Run, ◌>>=◌, ◌>>◌, emit, perform,
  Recorder, record_calls, called_all, is_cacheable,
}
use floodguard_rate_limiter.Middleware.Handler.{
  Keys, keys_of, require_key, limit_ip, limit_account, claim, check_velocity, store_error, reject,
}

-- The recorder before the handler runs: the status is 200 until it is set.
abbrev pub new_recorder : Recorder
new_recorder = record { status = 200; body = [] }

module _ {W : Type 0} (g : Guard W) (now : Action W ℤ) (opts : Options W)
    (next : NextHandler W) where
  module _ (k : Keys) where
    -- What is done with a recorded response.
    unfoldable pub store_response : Context → Recorder → W → List Event × W
    store_response ctx rec w =
        let completed = complete_idempotency g ctx k.idem rec.body w in
        if is_cacheable rec
        then (
          elim completed.0 [
            | ok _ ↦ traced (Trace.stored k.idem) ∷ []
            | err e ↦ traced (Trace.complete_error k.idem e) ∷ []
          ],
          completed.1,
        )
        else ([], w)

    -- `runHandler`, with the request that reaches the wrapped handler.
    unfoldable pub run_handler : Context → HttpRequest → W → List Event × W
    unfolding store_response
    run_handler ctx r w =
        let (calls, w₁) = next r w in
        let (stored, w₂) = store_response ctx (record_calls new_recorder calls) w₁ in
        let start = traced (Trace.handler_start k.account) in
        let done = traced (Trace.handler_done k.account) in
        if text_eq k.idem ""
        then (start ∷ served r ∷ called_all calls ++ done ∷ [], w₁)
        else (start ∷ served r ∷ called_all calls ++ stored ++ done ∷ [], w₂)

    -- What an attempt at the lock leads to. The release is deferred, and its error is dropped.
    unfoldable pub run_locked :
        Context → HttpRequest → HttpRequest → Result (Action W (Unit {0})) → Run W (Unit {0})
    run_locked ctx r r' (err e) w =
        if is_error e Sentinel.not_acquired
        then reject g now opts next k r' (traced (Trace.lock_rejected k.lock) ∷ []) reject_locked ""
            w
        else store_error g now opts next k Trace.lock_error "lock" e w
    run_locked ctx r r' (ok release) w =
        let (es, w₁) = run_handler ctx r' w in
        (some tt, es ++ traced (Trace.lock_release k.lock) ∷ [], (release w₁).1)

    -- Layers 5 and 6.
    unfoldable pub serve : Context → HttpRequest → HttpRequest → Run W (Unit {0})
    serve ctx r r' =
        let unlocked : Run W (Unit {0}) =
          λ w. let (es, w₁) = run_handler ctx r' w in (some tt, es, w₁) in
        let locked : Run W (Unit {0}) = do
          emit (traced (Trace.lock_acquire k.lock) ∷ [])
          res ← perform (try_lock g ctx k.lock)
          run_locked ctx r r' res
        in if opts.require_lock then locked else unlocked

  -- The handler: its events and the world after it.
  unfoldable pub handle : HttpRequest → Run W (Unit {0})
  handle r = do
    let k = keys_of g now opts next r
    require_key g now opts next k
    limit_ip g now opts next k r g.ip_rate
    limit_account g now opts next k r
    claim g now opts next k r
    r' ← check_velocity g now opts next k r
    serve k r.context r r'
