-- ===== src/Reconcile/Tests.antt =====
-- Runs of the reconciler of m6_engine.go, and the theorems about it at concrete inputs.

use payment_risk_engine.Reconcile.Solvent.{replay-IsSolvent}
use payment_risk_engine.Ledger.Solvency.{IsSolvent, customer_funds}
use payment_risk_engine.Prelude.Sorting.Sums.{sum_of}
use payment_risk_engine.Prelude.{
  ◌≡◌, refl, true, none, List, [], ◌∷◌, String, ℕ, arith, length, lookup, insert, lt64, adjust,
  str_lt, decimal, decimal_unsigned, ◌≤◌, ◌+◌,
}
use payment_risk_engine.Host.{Host}
use payment_risk_engine.Edge.{
  QueuedTransaction, WalStore, zero_transaction, read_all_pending, compute_hash, hash_input,
  pending_of, update_status,
}
use payment_risk_engine.Ledger.{
  ConservingLedger, new_account, deficit_reserve_name, get_account, audit_conservation, Call,
  blocked, returned, direct_commit, append_entry, create_account, on_account, debit_deficit_reserve,
  settle, commit_offline_allowance, credit_online, debit_offline, debit_online,
}
use payment_risk_engine.Reconcile.{
  compare_vector_clocks, sort_transactions_vector_clock, Reconciler, ReplayState, replay,
  replay_all, goes_before, breaks_tie, replay_one, seen, settle_queued, try_funds, try_offline,
  core_snapshot, try_online, below_at, clock_at, book_deficit, charge_overdraft, charge_reserve,
  customer_covered, hash_of, mark_deficit, mark_duplicate, mark_reconciled,
}
use payment_risk_engine.Reconcile.Settling.{replay_keeps_total}
use payment_risk_engine.Reconcile.Counting.{handled, replay_counts}
use payment_risk_engine.Reconcile.Repeating.{LeavesReconciler, replay_all_again}
use payment_risk_engine.Reconcile.Returning.{replay_returns}
use payment_risk_engine.Prelude.Sorting.{insertion_sort, reversed_onto, sink, sort_onto}
use payment_risk_engine.Reconcile.Ordering.{sort_depends_on_input}

abbrev host : Host
host = record {
  sha256 = λ text. [];
  hex_encode = λ bytes. "hash";
  hex_decode = λ text. none;
  sign = λ key message. [];
  hmac_sha256 = λ key message. [];
  verify = λ key message sig. true;
}

-- Alice has 100 cents, the shop none; the reserve was seeded with 50.
abbrev book : ConservingLedger
book = record {
  accounts =
      ("alice", new_account 1 "alice" 100)
      ∷ ("shop", new_account 1 "shop" 0)
      ∷ (deficit_reserve_name, new_account 1 deficit_reserve_name 50)
      ∷ [];
  reservations = [];
  entries = [];
  entry_counter = 0;
  escrow_account_id = "SYSTEM_ESCROW";
  clearing_account_id = "SYSTEM_CLEARING";
  deficit_reserve_account_id = deficit_reserve_name;
  account_deficit_reserve = deficit_reserve_name;
}

abbrev purchase : String → ℕ → ℕ → QueuedTransaction
purchase id seq cents = record zero_transaction {
  tx_id = id;
  seq_no = seq;
  account_id = "alice";
  merchant_id = "shop";
  amount = cents;
  status = "PENDING";
  payload_hash = id;
}

-- The second is queued first, and the funds do not do for both.
abbrev store : WalStore
store = record {
  file = [];
  tx_map = ("t2", purchase "t2" 2 70) ∷ ("t1", purchase "t1" 1 60) ∷ [];
  order = "t2" ∷ "t1" ∷ [];
  seq_number = 2;
}

abbrev reserve_mode : Reconciler
reserve_mode = record {
  ledger = book;
  seen_hashes = [];
  deficit_logs = [];
  use_deficit_reserve = true;
}

abbrev idle : ReplayState
idle = record {
  reconciler = reserve_mode;
  store = store;
  report = record {
    total_processed = 0;
    successful_count = 0;
    deficit_count = 0;
    duplicate_count = 0;
    total_amount_reconciled = 0;
    total_deficit_amount = 0;
    deficit_records = [];
    started_at = 0;
    completed_at = 0;
  };
}

abbrev result : Call ReplayState → ReplayState
result blocked = idle
result (returned st) = st

abbrev finished : ReplayState
finished = result (replay host 9 store reserve_mode)

abbrev queue : List QueuedTransaction
queue = purchase "t1" 1 60 ∷ purchase "t2" 2 70 ∷ []

finished_lem : replay host 9 store reserve_mode ≡ returned finished
unfolding replay replay_all sort_transactions_vector_clock read_all_pending lookup insert
    compare_vector_clocks get_account goes_before breaks_tie replay_one seen settle_queued try_funds
    try_offline core_snapshot try_online below_at clock_at insertion_sort reversed_onto sink
    sort_onto book_deficit charge_overdraft charge_reserve customer_covered hash_of mark_deficit
    mark_duplicate mark_reconciled direct_commit append_entry create_account on_account
    debit_deficit_reserve settle commit_offline_allowance credit_online debit_offline debit_online
    lt64 adjust str_lt decimal decimal_unsigned compute_hash hash_input pending_of update_status
finished_lem = refl

-- The first is paid in full; of the second, 40 by alice and 30 by the reserve.
finished_balances :
    ((get_account "alice" finished.reconciler.ledger).0.online_available ≡ 0)
    × ((get_account "shop" finished.reconciler.ledger).0.online_available ≡ 130)
    × ((get_account deficit_reserve_name finished.reconciler.ledger).0.online_available ≡ 20)
unfolding replay replay_all sort_transactions_vector_clock read_all_pending lookup insert
    compare_vector_clocks get_account goes_before breaks_tie replay_one seen settle_queued try_funds
    try_offline core_snapshot try_online below_at clock_at insertion_sort reversed_onto sink
    sort_onto book_deficit charge_overdraft charge_reserve customer_covered hash_of mark_deficit
    mark_duplicate mark_reconciled direct_commit append_entry create_account on_account
    debit_deficit_reserve settle commit_offline_allowance credit_online debit_offline debit_online
    lt64 adjust str_lt decimal decimal_unsigned compute_hash hash_input pending_of update_status
finished_balances = (refl, refl, refl)

replay_keeps_total_example :
    (audit_conservation finished.reconciler.ledger).total_balance
    ≡ (audit_conservation book).total_balance
replay_keeps_total_example = replay_keeps_total host 9 store reserve_mode finished_lem

replay_counts_example :
    (handled finished.report ≡ finished.report.total_processed)
    × (finished.report.total_processed
        ≡ length (sort_transactions_vector_clock (read_all_pending store)))
replay_counts_example = replay_counts host 9 store reserve_mode finished_lem

abbrev once : ReplayState
once = result (replay_all host 9 queue idle)

once_lem : replay_all host 9 queue idle ≡ returned once
unfolding replay replay_all sort_transactions_vector_clock read_all_pending lookup insert
    compare_vector_clocks get_account goes_before breaks_tie replay_one seen settle_queued try_funds
    try_offline core_snapshot try_online below_at clock_at insertion_sort reversed_onto sink
    sort_onto book_deficit charge_overdraft charge_reserve customer_covered hash_of mark_deficit
    mark_duplicate mark_reconciled direct_commit append_entry create_account on_account
    debit_deficit_reserve settle commit_offline_allowance credit_online debit_offline debit_online
    lt64 adjust str_lt decimal decimal_unsigned compute_hash hash_input pending_of update_status
once_lem = refl

replay_all_again_example :
    LeavesReconciler
      (replay_all host 10 queue
        (record { reconciler = once.reconciler; store = store; report = idle.report }))
      (record { reconciler = once.reconciler; store = store; report = idle.report })
replay_all_again_example = replay_all_again host 9 10 queue idle store idle.report once_lem

replay_returns_example : (st : ReplayState) × (replay host 9 store reserve_mode ≡ returned st)
unfolding read_all_pending pending_of lookup
replay_returns_example = replay_returns host 9 store reserve_mode (
  record { not_reserve = refl; not_payer = refl },
  (record { not_reserve = refl; not_payer = refl }, tt),
)

-- Two terminals: the first one's clock grows, its sequence numbers do not.
abbrev early : QueuedTransaction
early = record (purchase "a" 5 10) { vector_clock = ("POS-1", 1) ∷ [] }

abbrev other : QueuedTransaction
other = record (purchase "b" 4 10) { vector_clock = ("POS-2", 1) ∷ [] }

abbrev late : QueuedTransaction
late = record (purchase "c" 3 10) { vector_clock = ("POS-1", 2) ∷ [] }

sort_depends_on_input_example :
    (sort_transactions_vector_clock (early ∷ other ∷ late ∷ []) ≡ other ∷ early ∷ late ∷ [])
    × (sort_transactions_vector_clock (other ∷ late ∷ early ∷ []) ≡ late ∷ other ∷ early ∷ [])
unfolding compare_vector_clocks below_at clock_at lookup
sort_depends_on_input_example =
    sort_depends_on_input early other late refl refl refl refl refl (omega arith) (omega arith)

replay-IsSolvent_example :
    IsSolvent finished.reconciler.ledger
    × (customer_funds finished.reconciler.ledger
        ≤ customer_funds book + sum_of (λ tx. tx.amount) (read_all_pending store))
unfolding read_all_pending pending_of lookup
replay-IsSolvent_example =
    replay-IsSolvent host 9 store reserve_mode refl (refl, (refl, tt)) (omega arith) finished_lem
