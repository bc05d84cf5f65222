-- ===== src/Prelude/Dict.antt =====
-- Go's `map[string]V` as an association list: a missing key is `none`, and a write replaces the entry.
use Prim.Native.String.{String}
use mathlib.Core.Path.{◌≡◌}
use mathlib.Core.Option.{Option, none, some}
use mathlib.Core.List.{List, [], ◌∷◌}
use native.Mathlib.Omega.{arith}
use floodguard_rate_limiter.Prelude.Tests.{if◌then◌else◌}
use text.Mathlib.TextPositions.{eq_refl}
use text.Mathlib.TextEquality.{eq_iff}
use text.Mathlib.Text.{◌==◌}

abbrev pub Dict {ℓ} : Type ℓ → Type ℓ
Dict V = List (String × V)

module _ {ℓ} {V : Type ℓ} where
  unfoldable pub lookup : String → Dict V → Option V
  lookup key [] = none
  lookup key (entry ∷ rest) = if entry.0 == key then some entry.1 else lookup key rest

  -- `delete(m, key)`
  unfoldable pub erase : String → Dict V → Dict V
  erase key [] = []
  erase key (entry ∷ rest) =
      let kept = erase key rest in if entry.0 == key then kept else entry ∷ kept

  -- `m[key] = v`
  unfoldable pub insert : String → V → Dict V → Dict V
  unfolding erase
  insert key v m = (key, v) ∷ erase key m

  pub lookup-erase :
      (key other : String) (m : Dict V)
      → lookup other (erase key m) ≡ (if key == other then none else lookup other m)
  unfolding lookup erase
  lookup-erase key other [] = ground arith
  lookup-erase key other (entry ∷ rest) =
      let (own, v) = entry in
      ground
        (arith, lookup-erase key other rest, eq_iff own other, eq_iff own key, eq_iff key other)

  pub lookup-insert :
      (key other : String) (v : V) (m : Dict V)
      → lookup other (insert key v m) ≡ (if key == other then some v else lookup other m)
  unfolding lookup insert
  lookup-insert key other v m = ground (arith, lookup-erase key other m)

  pub lookup-insert_self :
      (key : String) (v : V) (m : Dict V) → lookup key (insert key v m) ≡ some v
  lookup-insert_self key v m = rw (lookup-insert key key v m) (rw (eq_refl key))

  pub lookup-erase_self : (key : String) (m : Dict V) → lookup key (erase key m) ≡ none
  lookup-erase_self key m = rw (lookup-erase key key m) (rw (eq_refl key))
