-- ===== src/Reconcile/Clocks.antt =====
-- The order of replay of m6_engine.go: vector clocks and the sort.
use payment_risk_engine.Prelude.{
  ℕ, String, Bool, true, false, not, ◌&&◌, ◌==◌, none, some, List, [], ◌∷◌, ◌++◌, Map, lookup, ltb,
  leb, eqb, lt64, str_lt, if◌then◌else◌,
}
use payment_risk_engine.Prelude.Sorting.{insertion_sort}
use payment_risk_engine.Edge.{QueuedTransaction}

-- The results of `CompareVectorClocks`: -1, 0 and 1.
pub data Causality : Type 0 where
  precedes concurrent follows : Causality

-- `va[k]`
unfoldable pub clock_at : String → Map ℕ → ℕ
clock_at k va = elim (lookup k va) [ none ↦ 0 | some n ↦ n ]

abbrev pub keys : Map ℕ → List String
keys [] = []
keys ((k, n) ∷ va) = k ∷ keys va

-- No key of the list has more in the first clock than in the second.
unfoldable pub below_at : List String → Map ℕ → Map ℕ → Bool
below_at [] va vb = true
below_at (k ∷ ks) va vb = leb (clock_at k va) (clock_at k vb) && below_at ks va vb

abbrev pub causality : Bool → Bool → Causality
causality true false = precedes
causality false true = follows
causality a b = concurrent

-- `CompareVectorClocks`. Two empty clocks are concurrent, as the loop over no keys says too.
unfoldable pub compare_vector_clocks : Map ℕ → Map ℕ → Causality
unfolding below_at
compare_vector_clocks va vb =
    let all_keys = keys va ++ keys vb in
    causality (below_at all_keys va vb) (below_at all_keys vb va)

-- The tie-breakers, from the first in which the two differ.
unfoldable pub breaks_tie : QueuedTransaction → QueuedTransaction → Bool
breaks_tie a b =
    if not (eqb a.seq_no b.seq_no)
    then ltb a.seq_no b.seq_no
    else if not (eqb a.sequence_num b.sequence_num)
    then lt64 a.sequence_num b.sequence_num
    else if not (a.terminal_id == b.terminal_id)
    then str_lt a.terminal_id b.terminal_id
    else if not (eqb a.client_timestamp b.client_timestamp)
    then lt64 a.client_timestamp b.client_timestamp
    else str_lt a.tx_id b.tx_id

-- The comparison of `SortTransactionsVectorClock`.
unfoldable pub goes_before : QueuedTransaction → QueuedTransaction → Bool
goes_before a b = elim (compare_vector_clocks a.vector_clock b.vector_clock) [
  | precedes ↦ true
  | follows ↦ false
  | concurrent ↦ breaks_tie a b
]

-- `SortTransactionsVectorClock`, as the insertion sort that sort.SliceStable is on up to 20 elements.
unfoldable pub sort_transactions_vector_clock : List QueuedTransaction → List QueuedTransaction
sort_transactions_vector_clock queued = insertion_sort goes_before queued
