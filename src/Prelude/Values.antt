-- ===== src/Prelude/Values.antt =====
-- What holds of every value of a Go map.
use Prim.Native.String.{String}
use mathlib.Core.Path.{◌≡◌, subst}
use mathlib.Core.Logic.{inl, inr}
use mathlib.Core.Option.{some, some-injective}
use mathlib.Core.List.{[], ◌∷◌}
use native.Mathlib.Omega.{arith}
use text.Mathlib.Text.{◌==◌}
use payment_risk_engine.Prelude.Tests.{Bool-cases}
use payment_risk_engine.Prelude.Maps.{Map, lookup, insert, adjust}

module _ {V : Type 0} (P : V → Type 0) where
  abbrev pub Each : Map V → Type 0
  Each [] = Unit
  Each (entry ∷ m) = P entry.1 × Each m

  pub Each-insert :
      (key : String) (value : V) (m : Map V) → P value → Each m → Each (insert key value m)
  unfolding insert
  Each-insert key value [] p h = (p, tt)
  Each-insert key value (entry ∷ m) p h = elim (Bool-cases (entry.0 == key)) [
    | inl e ↦ rw e (p, h.1)
    | inr e ↦ rw e (h.0, Each-insert key value m p h.1)
  ]

  pub Each-adjust :
      (key : String) (write : V → V) (m : Map V)
      → ((v : V) → P v → P (write v))
      → Each m
      → Each (adjust key write m)
  unfolding adjust
  Each-adjust key write [] f h = tt
  Each-adjust key write (entry ∷ m) f h = elim (Bool-cases (entry.0 == key)) [
    | inl e ↦ rw e (f entry.1 h.0, h.1)
    | inr e ↦ rw e (h.0, Each-adjust key write m f h.1)
  ]

  pub Each-lookup : (key : String) (m : Map V) {v : V} → Each m → lookup key m ≡ some v → P v
  unfolding lookup
  Each-lookup key [] h e = absurd (ground (arith, e))
  Each-lookup key (entry ∷ m) h e = elim (Bool-cases (entry.0 == key)) [
    | inl k ↦ subst P (some-injective _ _ (ground (arith, k, e))) h.0
    | inr k ↦ Each-lookup key m h.1 (ground (arith, k, e))
  ]
