-- ===== src/Standalone/Replay.antt =====
-- The reconciler of fs2601_all_in_one.go: the sort of the queue, and `Replay`.
use payment_risk_engine.Prelude.{
  Bool, not, List, [], ◌∷◌, Int64, add64, lt64, ltb, eqb, str_lt, if◌then◌else◌,
}
use payment_risk_engine.Prelude.Sorting.{insertion_sort}
use payment_risk_engine.Ledger.{Time}
use payment_risk_engine.Standalone.Accounts.{ConservingLedger}
use payment_risk_engine.Standalone.Transfers.{
  Ending, panics, blocks, ends, commit_offline_allowance,
}
use payment_risk_engine.Standalone.Wal.{QueuedTx}

-- The comparison of the sort.
unfoldable pub goes_before : QueuedTx → QueuedTx → Bool
goes_before a b =
    if not (eqb a.seq_no b.seq_no)
    then ltb a.seq_no b.seq_no
    else if not (eqb a.client_timestamp b.client_timestamp)
    then lt64 a.client_timestamp b.client_timestamp
    else str_lt a.tx_id b.tx_id

-- `sort.Slice`, as the insertion sort that it is on up to 12 elements.
unfoldable pub sort_queue : List QueuedTx → List QueuedTx
sort_queue queued = insertion_sort goes_before queued

-- The loop: the number of transactions and the sum of their amounts so far.
unfoldable pub replay_each :
    Time
    → List QueuedTx
    → Int64
    → Int64
    → ConservingLedger
    → Ending (Int64 × Int64 × ConservingLedger)
unfolding commit_offline_allowance
replay_each now [] count total l = ends (count, total, l)
replay_each now (t ∷ txs) count total l =
    elim (commit_offline_allowance now t.account_id t.merchant_id t.amount t.tx_id l) [
      | panics ↦ panics
      | blocks ↦ blocks
      | ends (deficit, l') ↦ replay_each now txs (add64 count 1) (add64 total t.amount) l'
    ]

-- `Replay`, which marks nothing as reconciled.
unfoldable pub replay :
    Time → List QueuedTx → ConservingLedger → Ending (Int64 × Int64 × ConservingLedger)
unfolding replay_each
replay now txs l = replay_each now (sort_queue txs) 0 0 l
