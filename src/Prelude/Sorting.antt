-- ===== src/Prelude/Sorting.antt =====
-- The insertion sort of Go's package sort, which sort.Slice is on up to 12 elements and
-- sort.SliceStable on up to 20. Its children say what it promises.
pub mod Elements
pub mod Ordered
pub mod Sums
use Prim.Native.Nat.{ℕ, ◌+◌}
use mathlib.Core.Path.{◌≡◌, refl, sym, subst, ap₂}
use mathlib.Core.Logic.{inl, inr}
use mathlib.Core.Logic.Or
use mathlib.Core.Bool.{Bool, true, false, Bool-set}
use mathlib.Core.List.{
  List, [], ◌∷◌, ◌++◌, Mem, Perm, perm_middle, append-nil, mem-cons_self, mem-cons_of_mem, mem-cons,
  not-mem-nil,
}
use mathlib.Core.List.Perm
use native.Mathlib.Omega.{arith}
use payment_risk_engine.Prelude.Tests.{if◌then◌else◌, Bool-cases}
use payment_risk_engine.Prelude.Lists.{All}

module _ {A : Type 0} (before : A → A → Bool) where
  -- An element moves left past those that it goes before; the sorted ones are last first.
  unfoldable pub sink : A → List A → List A
  sink x [] = x ∷ []
  sink x (last ∷ others) =
      let further = sink x others in if before x last then last ∷ further else x ∷ last ∷ others

  unfoldable pub sort_onto : List A → List A → List A
  sort_onto sorted [] = sorted
  sort_onto sorted (x ∷ xs) = sort_onto (sink x sorted) xs

unfoldable pub reversed_onto : {A : Type 0} → List A → List A → List A
reversed_onto front [] = front
reversed_onto front (x ∷ xs) = reversed_onto (x ∷ front) xs

unfoldable pub insertion_sort : {A : Type 0} → (A → A → Bool) → List A → List A
insertion_sort before xs = reversed_onto [] (sort_onto before [] xs)

module _ {A : Type 0} where
  reversed_onto-perm : (front xs : List A) → Perm (reversed_onto front xs) (xs ++ front)
  unfolding reversed_onto
  reversed_onto-perm front [] = Perm.rfl
  reversed_onto-perm front (x ∷ xs) =
      Perm.trans (reversed_onto-perm (x ∷ front) xs) (perm_middle xs front)

  module _ (before : A → A → Bool) where
    sink-perm : (x : A) (sorted : List A) → Perm (sink before x sorted) (x ∷ sorted)
    unfolding sink
    sink-perm x [] = Perm.rfl
    sink-perm x (last ∷ others) = elim (Bool-cases (before x last)) [
      | inl e ↦ rw e (Perm.trans (Perm.cons last (sink-perm x others)) (Perm.swap x last others))
      | inr e ↦ rw e Perm.rfl
    ]

    sort_onto-perm : (sorted xs : List A) → Perm (sort_onto before sorted xs) (xs ++ sorted)
    unfolding sort_onto
    sort_onto-perm sorted [] = Perm.rfl
    sort_onto-perm sorted (x ∷ xs) =
        Perm.trans (sort_onto-perm (sink before x sorted) xs)
          (Perm.trans (Perm.append_left xs (sink-perm x sorted)) (perm_middle xs sorted))

    -- The sort loses no element and repeats none, whatever the comparison says.
    pub insertion_sort-perm : (xs : List A) → Perm (insertion_sort before xs) xs
    unfolding insertion_sort
    insertion_sort-perm xs =
        let sorted = sort_onto before [] xs in
        Perm.trans
          (subst (Perm (reversed_onto [] sorted)) (append-nil sorted)
            (reversed_onto-perm [] sorted))
          (subst (Perm sorted) (append-nil xs) (sort_onto-perm [] xs))
