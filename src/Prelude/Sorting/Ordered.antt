-- ===== src/Prelude/Sorting/Ordered.antt =====
-- The insertion sort by a strict weak order.

use mathlib.Core.Path.{◌≡◌, sym, subst, ap₂}
use mathlib.Core.Logic.{inl, inr}
use mathlib.Core.Logic.Or
use mathlib.Core.Bool.{Bool, true, false, Bool-set}
use mathlib.Core.List.{
  List, [], ◌∷◌, Mem, Perm, mem-cons_self, mem-cons_of_mem, mem-cons, not-mem-nil,
}
use mathlib.Core.List.Perm
use payment_risk_engine.Prelude.Tests.{Bool-cases}
use payment_risk_engine.Prelude.Lists.{All}
use payment_risk_engine.Prelude.Sorting.{sink, sort_onto, reversed_onto, insertion_sort}
use payment_risk_engine.Prelude.Sorting.Elements.{All-sink}

pub All-map :
    {A : Type 0} (P Q : A → Type 0) (xs : List A) → ((x : A) → P x → Q x) → All P xs → All Q xs
All-map P Q [] f h = tt
All-map P Q (x ∷ xs) f h = (f x h.0, All-map P Q xs f h.1)

pub All-Mem :
    {A : Type 0} (P : A → Type 0) (x : A) (xs : List A) → IsProp (P x) → All P xs → Mem x xs → P x
All-Mem P x [] prop h m = absurd (not-mem-nil m)
All-Mem P x (y ∷ ys) prop h m =
    Or.elim prop (mem-cons.0 m) (λ e. subst P (sym e) h.0) (All-Mem P x ys prop h.1)

module _ {A : Type 0} (before : A → A → Bool) where
  abbrev NotBefore : A → A → Type 0
  NotBefore a b = before a b ≡ false

  -- No element goes before an earlier one.
  abbrev pub IsSorted : List A → Type 0
  IsSorted [] = Unit
  IsSorted (x ∷ xs) = All (λ y. NotBefore y x) xs × IsSorted xs

  abbrev IsDescending : List A → Type 0
  IsDescending [] = Unit
  IsDescending (x ∷ xs) = All (NotBefore x) xs × IsDescending xs

  All-zip : (P Q : A → Type 0) (xs : List A) → All P xs → All Q xs → All (λ x. P x × Q x) xs
  All-zip P Q [] p q = tt
  All-zip P Q (x ∷ xs) p q = ((p.0, q.0), All-zip P Q xs p.1 q.1)

  All-trivial : (xs : List A) → All (λ x. Unit {0}) xs
  All-trivial [] = tt
  All-trivial (x ∷ xs) = (tt, All-trivial xs)

  -- On elements of P the comparison is a strict weak order.
  module _ (P : A → Type 0) (asym : (a b : A) → P a → P b → before a b ≡ true → NotBefore b a)
      (trans : (a b c : A) → P a → P b → P c → NotBefore a b → NotBefore b c → NotBefore a c) where
    sink-IsDescending :
        (x : A) (sorted : List A)
        → P x
        → All P sorted
        → IsDescending sorted
        → IsDescending (sink before x sorted)
    unfolding sink
    sink-IsDescending x [] p q s = (tt, tt)
    sink-IsDescending x (last ∷ others) p q s = elim (Bool-cases (before x last)) [
      | inl e ↦ rw e (
        All-sink (NotBefore last) before x others (asym x last p q.0 e) s.0,
        sink-IsDescending x others p q.1 s.1,
      )
      | inr e ↦ rw e (
        (
          e,
          All-map _ _ others (λ y h. trans x last y p q.0 h.0 e h.1) (All-zip _ _ others q.1 s.0),
        ),
        s,
      )
    ]

    sort_onto-IsDescending :
        (sorted xs : List A)
        → All P sorted
        → All P xs
        → IsDescending sorted
        → IsDescending (sort_onto before sorted xs)
    unfolding sort_onto
    sort_onto-IsDescending sorted [] p q s = s
    sort_onto-IsDescending sorted (x ∷ xs) p q s =
        sort_onto-IsDescending (sink before x sorted) xs (All-sink P before x sorted q.0 p) q.1
          (sink-IsDescending x sorted q.0 p s)

    reversed_onto-IsSorted :
        (front xs : List A)
        → IsSorted front
        → IsDescending xs
        → All (λ x. All (λ y. NotBefore y x) front) xs
        → IsSorted (reversed_onto front xs)
    unfolding reversed_onto
    reversed_onto-IsSorted front [] s d h = s
    reversed_onto-IsSorted front (x ∷ xs) s d h =
        reversed_onto-IsSorted (x ∷ front) xs (h.0, s) d.1 (All-zip _ _ xs d.0 h.1)

    pub insertion_sort-IsSorted : (xs : List A) → All P xs → IsSorted (insertion_sort before xs)
    unfolding insertion_sort
    insertion_sort-IsSorted xs p =
        let sorted = sort_onto before [] xs in
        reversed_onto-IsSorted [] sorted tt (sort_onto-IsDescending [] xs tt p tt)
          (All-trivial sorted)

  -- Two sorted lists of the same elements are the same, if elements neither of which goes before the
  -- other are the same.
  module _ (irrefl : (a : A) → NotBefore a a) where
    head_le : (x y : A) (xs : List A) → IsSorted (y ∷ xs) → Mem x (y ∷ xs) → NotBefore x y
    head_le x y xs s m =
        Or.elim (Bool-set (before x y) false) (mem-cons.0 m)
          (λ e. subst (λ z. NotBefore z y) (sym e) (irrefl y))
          (All-Mem _ x xs (Bool-set (before x y) false) s.0)

    pub IsSorted-unique :
        (xs ys : List A)
        → ((a b : A) → Mem a xs → Mem b xs → NotBefore a b → NotBefore b a → a ≡ b)
        → IsSorted xs
        → IsSorted ys
        → Perm xs ys
        → xs ≡ ys
    IsSorted-unique [] ys anti s t p = Perm.nil-eq p
    IsSorted-unique (x ∷ xs) [] anti s t p = Perm.eq-nil p
    IsSorted-unique (x ∷ xs) (y ∷ ys) anti s t p =
        let heads : x ≡ y =
          anti x y mem-cons_self ((Perm.mem_iff p).1 mem-cons_self)
            (head_le x y ys t ((Perm.mem_iff p).0 mem-cons_self))
            (head_le y x xs s ((Perm.mem_iff p).1 mem-cons_self)) in
        let tails = Perm.cons_inv (Perm.trans p (Perm.symm (Perm.cons' heads Perm.rfl))) in
        ap₂ ◌∷◌ heads (
          IsSorted-unique xs ys (λ a b m n. anti a b (mem-cons_of_mem x m) (mem-cons_of_mem x n))
            s.1 t.1 tails)
