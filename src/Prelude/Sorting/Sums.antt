-- ===== src/Prelude/Sorting/Sums.antt =====
-- Sums over the elements of a sorted list.
use Prim.Native.Nat.{ℕ, ◌+◌}
use mathlib.Core.Path.{◌≡◌}
use mathlib.Core.Bool.{Bool}
use mathlib.Core.List.{List, [], ◌∷◌}
use native.Mathlib.Omega.{arith}
use payment_risk_engine.Prelude.Sorting.{sink, sort_onto, reversed_onto, insertion_sort}

-- A sum over the elements does not depend on the order.
module _ {A : Type 0} (w : A → ℕ) where
  abbrev pub sum_of : List A → ℕ
  sum_of [] = 0
  sum_of (x ∷ xs) = w x + sum_of xs

  sum-reversed_onto :
      (front xs : List A) → sum_of (reversed_onto front xs) ≡ sum_of front + sum_of xs
  unfolding reversed_onto
  sum-reversed_onto front [] = omega arith
  sum-reversed_onto front (x ∷ xs) = omega (arith, sum-reversed_onto (x ∷ front) xs)

  module _ (before : A → A → Bool) where
    sum-sink : (x : A) (sorted : List A) → sum_of (sink before x sorted) ≡ w x + sum_of sorted
    unfolding sink
    sum-sink x [] = omega arith
    sum-sink x (last ∷ others) = ground (arith, sum-sink x others)

    sum-sort_onto :
        (sorted xs : List A) → sum_of (sort_onto before sorted xs) ≡ sum_of sorted + sum_of xs
    unfolding sort_onto
    sum-sort_onto sorted [] = omega arith
    sum-sort_onto sorted (x ∷ xs) =
        omega (arith, sum-sort_onto (sink before x sorted) xs, sum-sink x sorted)

    pub sum-insertion_sort : (xs : List A) → sum_of (insertion_sort before xs) ≡ sum_of xs
    unfolding insertion_sort
    sum-insertion_sort xs =
        omega (arith, sum-reversed_onto [] (sort_onto before [] xs), sum-sort_onto [] xs)
