-- ===== src/Middleware/Taken.antt =====
-- A key of the in-memory idempotency store that is in use or answered until a given time.
use floodguard_rate_limiter.Prelude.{
  String, true, false, some, ◌≡◌, arith, ap, ◌∙◌, text_eq, Bool-cases, inl, inr, ◌⊎◌,
}
use floodguard_rate_limiter.Prelude.Int.{ℤ, ◌+ℤ◌, ◌≤ℤ◌, ◌<ℤ◌, int_laws}
use floodguard_rate_limiter.Prelude.Dict.{lookup, lookup-insert}
use floodguard_rate_limiter.Errors.{Bytes}
use floodguard_rate_limiter.Idempotency.{
  Entries, MemoryEntry, memory_claim, memory_complete, is_present,
}
use floodguard_rate_limiter.Idempotency.Claims.{claims, after, after-keeps, IsSettled}
use floodguard_rate_limiter.Middleware.Memory.{IsLasting}

pub past_or : (t now : ℤ) → (t <ℤ now) ⊎ (now ≤ℤ t)
past_or t now = ground arith

module _ {W : Type 0} (entries : W → Entries) (clock : W → ℤ) (ttl : ℤ) (k : String) (t : ℤ) where
  -- A claim that is made from here on lasts until `t` or longer.
  abbrev pub IsEarly : W → Type 0
  IsEarly w = t ≤ℤ clock w +ℤ ttl

  abbrev pub IsPast : W → Type 0
  IsPast w = t <ℤ clock w

  -- The key is in use or answered, until `t` or longer.
  abbrev pub IsTaken : W → Type 0
  IsTaken w =
      (e : MemoryEntry) × (lookup k (entries w) ≡ some e) × IsSettled e × (t ≤ℤ e.expires_at)

  abbrev pub IsOver : W → Type 0
  IsOver w = IsEarly w × (IsPast w ⊎ IsTaken w)

  pub IsPast-IsLasting : IsLasting entries clock ttl IsPast
  IsPast-IsLasting = record {
    rests = λ w w' r p. let l = r.later in omega int_laws;
    claimed = λ key w w' e l p. omega int_laws;
    completed = λ key body w w' b e l p. omega int_laws;
  }

  pub IsEarly-IsLasting : IsLasting entries clock ttl IsEarly
  IsEarly-IsLasting = record {
    rests = λ w w' r p. let l = r.later in omega int_laws;
    claimed = λ key w w' e l p. omega int_laws;
    completed = λ key body w w' b e l p. omega int_laws;
  }

  IsTaken-claimed :
      (key : String) (w w' : W)
      → entries w' ≡ (memory_claim (clock w) key ttl (entries w)).1
      → clock w ≤ℤ t
      → IsTaken w
      → IsTaken w'
  unfolding after
  IsTaken-claimed key w w' same l (e, found, settled, lasts) = (
    e,
    ap (λ m. lookup k m) same
        ∙ after-keeps k (clock w) (claims key ttl) (entries w) e settled found (omega int_laws) tt,
    settled,
    lasts,
  )

  IsTaken-completed :
      (key : String) (body : Bytes) (w w' : W)
      → is_present body ≡ true
      → entries w' ≡ (memory_complete (clock w) key body ttl (entries w)).1
      → IsEarly w
      → IsTaken w
      → IsTaken w'
  unfolding memory_complete
  IsTaken-completed key body w w' b same early (e, found, settled, lasts) =
      let done : MemoryEntry = record {
        in_flight = false;
        value = body;
        expires_at = clock w +ℤ ttl;
      } in
      elim (Bool-cases (text_eq key k)) [
        | inl this ↦ (
          done,
          ap (λ m. lookup k m) same ∙ ground (arith, lookup-insert key k done (entries w)),
          ground arith,
          early,
        )
        | inr other ↦ (
          e,
          ap (λ m. lookup k m) same ∙ ground (arith, lookup-insert key k done (entries w)),
          settled,
          lasts,
        )
      ]

  pub IsOver-IsLasting : IsLasting entries clock ttl IsOver
  IsOver-IsLasting = record {
    rests = λ w w' r p. (
      IsEarly-IsLasting.rests w w' r p.0,
      elim p.1 [
        | inl past ↦ inl (IsPast-IsLasting.rests w w' r past)
        | inr (e, found, settled, lasts) ↦
            inr (e, ap (λ m. lookup k m) r.same ∙ found, settled, lasts)
      ],
    );
    claimed = λ key w w' same l p. (
      omega int_laws,
      elim p.1 [
        | inl past ↦ inl (omega int_laws)
        | inr taken ↦ elim (past_or t (clock w)) [
          | inl past ↦ inl (omega int_laws)
          | inr on_time ↦ inr (IsTaken-claimed key w w' same on_time taken)
        ]
      ],
    );
    completed = λ key body w w' b same l p. (
      omega int_laws,
      elim p.1 [
        | inl past ↦ inl (omega int_laws)
        | inr taken ↦ inr (IsTaken-completed key body w w' b same p.0 taken)
      ],
    );
  }
