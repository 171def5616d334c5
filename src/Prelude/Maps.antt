-- ===== src/Prelude/Maps.antt =====
-- A Go map with string keys as an association list. The iteration order of a Go map is random:
-- what the program computes by ranging over a map does not depend on it.
use Prim.Native.Nat.{ℕ, ◌+◌, ◌≤◌}
use Prim.Native.String.{String}
use mathlib.Core.Path.{◌≡◌}
use mathlib.Core.Option
use mathlib.Core.Option.{Option, none, some}
use mathlib.Core.List.{List, [], ◌∷◌}
use native.Mathlib.Omega.{arith}
use text.Mathlib.Text.{◌==◌}
use text.Mathlib.TextEquality.{eq_iff}
use payment_risk_engine.Prelude.Tests.{if◌then◌else◌}

abbrev pub Map {ℓ} : Type ℓ → Type ℓ
Map V = List (String × V)

module _ {ℓ} {V : Type ℓ} (key : String) where
  -- `v, ok := m[key]`
  unfoldable pub lookup : Map V → Option V
  lookup [] = none
  lookup (entry ∷ m) = if entry.0 == key then some entry.1 else lookup m

  -- `m[key] = value`
  unfoldable pub insert : V → Map V → Map V
  insert value [] = (key, value) ∷ []
  insert value (entry ∷ m) = if entry.0 == key then (entry.0, value) ∷ m else entry ∷ insert value m

  -- A write through the pointer `m[key]`.
  unfoldable pub adjust : (V → V) → Map V → Map V
  adjust write [] = []
  adjust write (entry ∷ m) =
      if entry.0 == key then (entry.0, write entry.1) ∷ m else entry ∷ adjust write m

  -- `delete(m, key)`
  unfoldable pub erase : Map V → Map V
  erase [] = []
  erase (entry ∷ m) = let others = erase m in if entry.0 == key then others else entry ∷ others

module _ {ℓ} {V : Type ℓ} (key asked : String) where
  pub lookup-insert :
      (value : V) (m : Map V)
      → lookup asked (insert key value m) ≡ (if key == asked then some value else lookup asked m)
  unfolding lookup insert
  lookup-insert value [] = ground arith
  lookup-insert value (entry ∷ m) =
      ground
        (arith, lookup-insert value m, eq_iff entry.0 asked, eq_iff entry.0 key, eq_iff key asked)

  pub lookup-adjust :
      (write : V → V) (m : Map V)
      → lookup asked (adjust key write m)
        ≡ (if key == asked then Option.map write (lookup asked m) else lookup asked m)
  unfolding lookup adjust
  lookup-adjust write [] = ground arith
  lookup-adjust write (entry ∷ m) =
      ground
        (arith, lookup-adjust write m, eq_iff entry.0 asked, eq_iff entry.0 key, eq_iff key asked)

  pub lookup-erase :
      (m : Map V) → lookup asked (erase key m) ≡ (if key == asked then none else lookup asked m)
  unfolding lookup erase
  lookup-erase [] = ground arith
  lookup-erase (entry ∷ m) =
      ground (arith, lookup-erase m, eq_iff entry.0 asked, eq_iff entry.0 key, eq_iff key asked)

module _ {ℓ} {V : Type ℓ} where
  -- The sum of a weight over the entries.
  abbrev pub sum_by : (String → V → ℕ) → Map V → ℕ
  sum_by f [] = 0
  sum_by f ((k, v) ∷ m) = f k v + sum_by f m

  pub sum_by-insert_new :
      (f : String → V → ℕ) (k : String) (v : V) (m : Map V)
      → lookup k m ≡ none
      → sum_by f (insert k v m) ≡ sum_by f m + f k v
  unfolding lookup insert
  sum_by-insert_new f k v [] h = omega arith
  sum_by-insert_new f k v ((i, w) ∷ m) h = ground (arith, eq_iff i k, sum_by-insert_new f k v m)

  pub sum_by-adjust :
      (f : String → V → ℕ) (k : String) (g : V → V) (v : V) (m : Map V)
      → lookup k m ≡ some v
      → sum_by f (adjust k g m) + f k v ≡ sum_by f m + f k (g v)
  unfolding lookup adjust
  sum_by-adjust f k g v [] h = cc
  sum_by-adjust f k g v ((i, w) ∷ m) h = ground (arith, eq_iff i k, sum_by-adjust f k g v m)

  -- What one entry weighs is within the sum.
  pub le-sum_by :
      (f : String → V → ℕ) (k : String) (v : V) (m : Map V)
      → lookup k m ≡ some v
      → f k v ≤ sum_by f m
  unfolding lookup
  le-sum_by f k v [] h = cc
  le-sum_by f k v ((i, w) ∷ m) h = ground (arith, eq_iff i k, le-sum_by f k v m)
