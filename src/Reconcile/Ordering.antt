-- ===== src/Reconcile/Ordering.antt =====
-- What `SortTransactionsVectorClock` of m6_engine.go promises of the order of replay, and what it
-- does not.

use mathlib.Core.List.{Perm}
use payment_risk_engine.Prelude.{◌<◌, ◌≡◌, refl, arith, true, false, List, [], ◌∷◌, All}
use payment_risk_engine.Prelude.Sorting.{
  sink, sort_onto, reversed_onto, insertion_sort, insertion_sort-perm,
}
use payment_risk_engine.Prelude.Sorting.Elements.{All-insertion_sort}
use payment_risk_engine.Edge.{QueuedTransaction}
use payment_risk_engine.Reconcile.Clocks.{
  precedes, concurrent, follows, compare_vector_clocks, breaks_tie, goes_before,
  sort_transactions_vector_clock,
}

-- The sort loses no transaction and repeats none, whatever the comparison says.
pub sort_transactions-perm :
    (queued : List QueuedTransaction) → Perm (sort_transactions_vector_clock queued) queued
unfolding sort_transactions_vector_clock
sort_transactions-perm queued = insertion_sort-perm goes_before queued

-- What holds of all transactions holds of all of them sorted.
pub All-sort :
    (P : QueuedTransaction → Type 0) (queued : List QueuedTransaction)
    → All P queued
    → All P (sort_transactions_vector_clock queued)
unfolding sort_transactions_vector_clock
All-sort P queued q = All-insertion_sort P goes_before queued q

module _ (a b c : QueuedTransaction)
    (ac : compare_vector_clocks a.vector_clock c.vector_clock ≡ precedes)
    (ca : compare_vector_clocks c.vector_clock a.vector_clock ≡ follows)
    (cb : compare_vector_clocks c.vector_clock b.vector_clock ≡ concurrent)
    (ba : compare_vector_clocks b.vector_clock a.vector_clock ≡ concurrent)
    (ab : compare_vector_clocks a.vector_clock b.vector_clock ≡ concurrent)
    (low : c.seq_no < b.seq_no) (high : b.seq_no < a.seq_no) where
  -- c goes before b, b before a, and a before c: the comparison has a cycle.
  c_before_b : goes_before c b ≡ true
  unfolding goes_before breaks_tie
  c_before_b = ground (arith, cb)

  b_before_a : goes_before b a ≡ true
  unfolding goes_before breaks_tie
  b_before_a = ground (arith, ba)

  c_before_a : goes_before c a ≡ false
  unfolding goes_before
  c_before_a = ground (arith, ca)

  a_before_b : goes_before a b ≡ false
  unfolding goes_before breaks_tie
  a_before_b = ground (arith, ab)

  -- The result of the sort depends on the order of its input.
  pub sort_depends_on_input :
      (sort_transactions_vector_clock (a ∷ b ∷ c ∷ []) ≡ b ∷ a ∷ c ∷ [])
      × (sort_transactions_vector_clock (b ∷ c ∷ a ∷ []) ≡ c ∷ b ∷ a ∷ [])
  unfolding sort_transactions_vector_clock insertion_sort sort_onto reversed_onto sink
  sort_depends_on_input = (rw (b_before_a) (rw c_before_a refl), rw c_before_b (rw a_before_b refl))
