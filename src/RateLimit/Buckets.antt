-- ===== src/RateLimit/Buckets.antt =====
-- The token buckets of ratelimit/token_bucket.go, key by key.
use floodguard_rate_limiter.Prelude.{
  String, Bool, false, none, some, List, [], ◌∷◌, ◌≡◌, refl, ◌≢◌, arith, text_eq, eq_iff,
  if◌then◌else◌, Option-cases, Bool-cases, inl, inr,
}
use floodguard_rate_limiter.Prelude.Int.{ℤ}
use floodguard_rate_limiter.Prelude.Dict.{lookup, insert, lookup-insert, lookup-insert_self}
use floodguard_rate_limiter.Errors.{Result, ok, background}
use floodguard_rate_limiter.RateLimit.{XRate, TokenBucket, token_bucket_allow}

module _ (X : XRate) where
  open X use {Bucket, new_limiter, allow_at}

  -- The decisions that a history of calls gets for one key, oldest first.
  pub decisions_for : String → List (ℤ × String) → TokenBucket X → List (Result Bool)
  decisions_for k [] t = []
  decisions_for k ((now, key) ∷ calls) t =
      let (r, t') = token_bucket_allow X now background key t in
      let rest = decisions_for k calls t' in if text_eq key k then r ∷ rest else rest

  -- One x/time/rate limiter that sees only the calls of one key.
  pub alone : String → List (ℤ × String) → Bucket → List (Result Bool)
  alone k [] b = []
  alone k ((now, key) ∷ calls) b =
      let (allowed, b') = allow_at now b in
      let own = alone k calls b' in
      let rest = alone k calls b in if text_eq key k then ok allowed ∷ own else rest

  -- The limiter that stands for a key, made or not.
  pub bucket_of : String → TokenBucket X → Bucket
  bucket_of k t = elim (lookup k t.buckets) [ some b ↦ b | none ↦ new_limiter t.rate t.burst ]

  -- A call consumes from its key's limiter, and answers what that limiter does.
  bucket_of-allow_self :
      (k : String) (now : ℤ) (t : TokenBucket X)
      → k ≢ ""
      → let (r, t') = token_bucket_allow X now background k t in
        let (allowed, b) = allow_at now (bucket_of k t) in (r ≡ ok allowed) × (bucket_of k t' ≡ b)
  unfolding token_bucket_allow bucket_of
  bucket_of-allow_self k now t h =
      let lim = new_limiter t.rate t.burst in
      elim (Option-cases (lookup k t.buckets)) [
        | inl e ↦
            ground (
              arith,
              eq_iff k "",
              lookup-insert_self k (allow_at now lim).1 (insert k lim t.buckets),
            )
        | inr (b, e) ↦
            ground (arith, eq_iff k "", lookup-insert_self k (allow_at now b).1 t.buckets)
      ]

  -- It leaves the limiters of the other keys alone.
  bucket_of-allow_ne :
      (k key : String) (now : ℤ) (t : TokenBucket X)
      → text_eq key k ≡ false
      → bucket_of k (token_bucket_allow X now background key t).1 ≡ bucket_of k t
  unfolding token_bucket_allow bucket_of
  bucket_of-allow_ne k key now t h =
      let lim = new_limiter t.rate t.burst in
      elim (Option-cases (lookup key t.buckets)) [
        | inl e ↦ ground (
          arith,
          lookup-insert key k (allow_at now lim).1 (insert key lim t.buckets),
          lookup-insert key k lim t.buckets,
        )
        | inr (b, e) ↦ ground (arith, lookup-insert key k (allow_at now b).1 t.buckets)
      ]

  -- Whatever calls of the token-bucket limiter, with a context that is not done, are made for
  -- other keys in between, its decisions for a key that is not empty are those of one rate limiter
  -- that sees only the calls of this key.
  pub decisions_for-eq_alone :
      (k : String) (calls : List (ℤ × String)) (t : TokenBucket X)
      → k ≢ ""
      → decisions_for k calls t ≡ alone k calls (bucket_of k t)
  unfolding decisions_for alone
  decisions_for-eq_alone k [] t h = refl
  decisions_for-eq_alone k ((now, key) ∷ calls) t h =
      let t' = (token_bucket_allow X now background key t).1 in
      elim (Bool-cases (text_eq key k)) [
        | inl same ↦
            let e : key ≡ k = (eq_iff key k).0 same in
            rw same (
              rw e (
                cc (
                  decisions_for-eq_alone k calls (token_bucket_allow X now background k t).1 h,
                  (bucket_of-allow_self k now t h).0,
                  (bucket_of-allow_self k now t h).1,
                )))
        | inr other ↦
            rw other
              (cc (decisions_for-eq_alone k calls t' h, bucket_of-allow_ne k key now t other))
      ]
