-- ===== src/Standalone/Ordering.antt =====
-- What the comparison of `Replay` in fs2601_all_in_one.go fixes of the order of replay.
use mathlib.Core.Path.{subst}
use mathlib.Core.Bool.{Bool-set}
use mathlib.Core.Logic.Or
use mathlib.Core.List.{Mem, Perm, mem-cons, not-mem-nil}
use mathlib.Core.List.Perm
use text.Mathlib.TextEquality.{IsScalar-prop}
use payment_risk_engine.Prelude.{
  ◌+◌, ◌%◌, ◌<◌, ◌≡◌, sym, ◌∙◌, ◌⊎◌, inl, inr, arith, String, true, false, [], ◌∷◌, List, word,
  half_word, lt64, All, str_lt, str_lt_irrefl, str_lt_trans, str_lt_connected,
}
use payment_risk_engine.Prelude.Sorting.{insertion_sort-perm}
use payment_risk_engine.Prelude.Sorting.Ordered.{
  IsSorted, insertion_sort-IsSorted, IsSorted-unique, All-map, All-Mem,
}
use payment_risk_engine.Standalone.{QueuedTx, goes_before, sort_queue}

-- The time is an int64.
abbrev pub IsTimed : QueuedTx → Type 0
IsTimed t = t.client_timestamp < word

str_lt_asym : (s t : String) → str_lt s t ≡ true → str_lt t s ≡ false
str_lt_asym s t h = ground (arith, str_lt_trans s t s, str_lt_irrefl s)

str_not_lt_trans : (s t u : String) → str_lt s t ≡ false → str_lt t u ≡ false → str_lt s u ≡ false
str_not_lt_trans s t u p q = ground (arith, str_lt_connected s t, str_lt_trans t s u)

goes_before_irrefl : (a : QueuedTx) → goes_before a a ≡ false
unfolding goes_before
goes_before_irrefl a = ground (arith, str_lt_irrefl a.tx_id)

goes_before_asym :
    (a b : QueuedTx) → IsTimed a → IsTimed b → goes_before a b ≡ true → goes_before b a ≡ false
unfolding goes_before lt64
goes_before_asym a b p q h = ground (arith, str_lt_asym a.tx_id b.tx_id)

goes_before_trans :
    (a b c : QueuedTx)
    → IsTimed a
    → IsTimed b
    → IsTimed c
    → goes_before a b ≡ false
    → goes_before b c ≡ false
    → goes_before a c ≡ false
unfolding goes_before lt64
goes_before_trans a b c p q r h k = ground (arith, str_not_lt_trans a.tx_id b.tx_id c.tx_id)

-- The order of replay, written out: by the number, then by the time, then by the id.
abbrev Precedes : QueuedTx → QueuedTx → Type 0
Precedes a b =
    (a.seq_no < b.seq_no)
    ⊎ ((a.seq_no ≡ b.seq_no)
        × (((a.client_timestamp + half_word) % word < (b.client_timestamp + half_word) % word)
            ⊎ ((a.client_timestamp ≡ b.client_timestamp) × (str_lt a.tx_id b.tx_id ≡ true))))

-- Each transaction precedes all that come later.
abbrev pub IsAscending : List QueuedTx → Type 0
IsAscending [] = Unit
IsAscending (t ∷ ts) = All (Precedes t) ts × IsAscending ts

-- The comparison of the code is that order.
Precedes-goes_before : (a b : QueuedTx) → Precedes a b → goes_before a b ≡ true
unfolding goes_before lt64
Precedes-goes_before a b (inl h) = ground (arith, h)
Precedes-goes_before a b (inr (e, inl h)) = ground (arith, e, h)
Precedes-goes_before a b (inr (e, inr h)) = ground (arith, e, h)

Precedes-not_before : (a b : QueuedTx) → Precedes a b → goes_before b a ≡ false
unfolding goes_before lt64
Precedes-not_before a b (inl h) = ground (arith, h)
Precedes-not_before a b (inr (e, inl h)) = ground (arith, e, h)
Precedes-not_before a b (inr (e, inr h)) = ground (arith, e, h, str_lt_asym a.tx_id b.tx_id)

IsAscending-IsSorted : (ts : List QueuedTx) → IsAscending ts → IsSorted goes_before ts
IsAscending-IsSorted [] h = tt
IsAscending-IsSorted (t ∷ ts) h =
    (All-map _ _ ts (λ u p. Precedes-not_before t u p) h.0, IsAscending-IsSorted ts h.1)

QueuedTx-set : IsSet QueuedTx
QueuedTx-set = hlevel IsScalar-prop

-- A later transaction does not tie with the head.
no_tie :
    (t u : QueuedTx) (ts : List QueuedTx)
    → All (Precedes t) ts
    → Mem u ts
    → goes_before t u ≡ false
    → ⊥
no_tie t u ts h m tie =
    let e =
      All-Mem (λ v. goes_before t v ≡ true) u ts (Bool-set (goes_before t u) true)
        (All-map _ _ ts (λ v p. Precedes-goes_before t v p) h) m in
    ground (arith, e, tie)

IsAscending-distinct :
    (ts : List QueuedTx)
    → IsAscending ts
    → (a b : QueuedTx) → Mem a ts
    → Mem b ts
    → goes_before a b ≡ false
    → goes_before b a ≡ false
    → a ≡ b
IsAscending-distinct [] h a b m n p q = absurd (not-mem-nil m)
IsAscending-distinct (t ∷ ts) h a b m n p q =
    Or.elim (QueuedTx-set a b) (mem-cons.0 m)
      (λ e.
        Or.elim (QueuedTx-set a b) (mem-cons.0 n) (λ f. e ∙ sym f)
          (λ later. absurd (no_tie t b ts h.0 later (subst (λ c. goes_before c b ≡ false) e p))))
      (λ early.
        Or.elim (QueuedTx-set a b) (mem-cons.0 n)
          (λ f. absurd (no_tie t a ts h.0 early (subst (λ c. goes_before c a ≡ false) f q)))
          (λ later. IsAscending-distinct ts h.1 a b early later p q))

-- If the transactions of a queue, whose times are int64, can be put in an order that ascends strictly
-- by the number, then by the signed time, then by the id, the model puts them in that order, and so
-- does whatever sorts the queue by the comparison of the code.
pub sort_queue_ascends :
    (queue sorted out : List QueuedTx)
    → All IsTimed queue
    → Perm sorted queue
    → IsAscending sorted
    → Perm out queue
    → IsSorted goes_before out
    → (sort_queue queue ≡ sorted) × (out ≡ sorted)
unfolding sort_queue
sort_queue_ascends queue sorted out timed p h q s =
    let only = λ (other : List QueuedTx) (r : Perm other queue) (t : IsSorted goes_before other).
      sym (
        IsSorted-unique goes_before goes_before_irrefl sorted other (IsAscending-distinct sorted h)
          (IsAscending-IsSorted sorted h) t (Perm.trans p (Perm.symm r))) in
    (
      only _ (insertion_sort-perm goes_before queue) (
          insertion_sort-IsSorted goes_before IsTimed goes_before_asym goes_before_trans queue
            timed),
      only out q s,
    )
