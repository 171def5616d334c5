-- ===== src/Prelude/Sorting/Elements.antt =====
-- What holds of every element of a list, and of every element of it sorted.

use mathlib.Core.Path.{◌≡◌, refl, subst}
use mathlib.Core.Logic.{inl, inr}
use mathlib.Core.Bool.{Bool, true, false}
use mathlib.Core.List.{List, [], ◌∷◌}
use payment_risk_engine.Prelude.Tests.{Bool-cases}
use payment_risk_engine.Prelude.Lists.{All}
use payment_risk_engine.Prelude.Sorting.{sink, sort_onto, reversed_onto, insertion_sort}

-- What holds of every element.
module _ {A : Type 0} (P : A → Type 0) where
  All-reversed_onto : (front xs : List A) → All P front → All P xs → All P (reversed_onto front xs)
  unfolding reversed_onto
  All-reversed_onto front [] h q = h
  All-reversed_onto front (x ∷ xs) h q = All-reversed_onto (x ∷ front) xs (q.0, h) q.1

  module _ (before : A → A → Bool) where
    pub All-sink : (x : A) (sorted : List A) → P x → All P sorted → All P (sink before x sorted)
    unfolding sink
    All-sink x [] p h = (p, tt)
    All-sink x (last ∷ others) p h = elim (Bool-cases (before x last)) [
      | inl e ↦ rw e (h.0, All-sink x others p h.1)
      | inr e ↦ rw e (p, h)
    ]

    All-sort_onto :
        (sorted xs : List A) → All P sorted → All P xs → All P (sort_onto before sorted xs)
    unfolding sort_onto
    All-sort_onto sorted [] h q = h
    All-sort_onto sorted (x ∷ xs) h q =
        All-sort_onto (sink before x sorted) xs (All-sink x sorted q.0 h) q.1

    pub All-insertion_sort : (xs : List A) → All P xs → All P (insertion_sort before xs)
    unfolding insertion_sort
    All-insertion_sort xs q =
        All-reversed_onto [] (sort_onto before [] xs) tt (All-sort_onto [] xs tt q)

-- The other way round: what holds of every element of the sorted list.
module _ {A : Type 0} (P : A → Type 0) where
  All-of_reversed_onto :
      (front xs : List A) → All P (reversed_onto front xs) → All P front × All P xs
  unfolding reversed_onto
  All-of_reversed_onto front [] h = (h, tt)
  All-of_reversed_onto front (x ∷ xs) h =
      let (p, q) = All-of_reversed_onto (x ∷ front) xs h in (p.1, (p.0, q))

  module _ (before : A → A → Bool) where
    All-of_sink : (x : A) (sorted : List A) → All P (sink before x sorted) → P x × All P sorted
    unfolding sink
    All-of_sink x [] h = h
    All-of_sink x (last ∷ others) h = elim (Bool-cases (before x last)) [
      | inl e ↦
          let (p, q) = split last (sink before x others) (subst (All P) (sunk_past e) h) in
          let (r, t) = All-of_sink x others q in (r, (p, t))
      | inr e ↦ split x (last ∷ others) (subst (All P) (sunk_here e) h)
    ]
      where
        split : (y : A) (ys : List A) → All P (y ∷ ys) → P y × All P ys
        split y ys h = h

        sunk_past :
            before x last ≡ true → sink before x (last ∷ others) ≡ last ∷ sink before x others
        sunk_past e = rw (e, sink) refl

        sunk_here : before x last ≡ false → sink before x (last ∷ others) ≡ x ∷ last ∷ others
        sunk_here e = rw (e, sink) refl

    All-of_sort_onto :
        (sorted xs : List A) → All P (sort_onto before sorted xs) → All P sorted × All P xs
    unfolding sort_onto
    All-of_sort_onto sorted [] h = (h, tt)
    All-of_sort_onto sorted (x ∷ xs) h =
        let (p, q) = All-of_sort_onto (sink before x sorted) xs h in
        let (r, t) = All-of_sink x sorted p in (t, (r, q))

    pub All-of_insertion_sort : (xs : List A) → All P (insertion_sort before xs) → All P xs
    unfolding insertion_sort
    All-of_insertion_sort xs h =
        (All-of_sort_onto [] xs (All-of_reversed_onto [] (sort_onto before [] xs) h).1).1
