-- ===== src/Reconcile/Engine.antt =====
-- `Replay` of m6_engine.go.
use payment_risk_engine.Prelude.{
  ℕ, ◌+◌, String, Bool, true, false, ◌==◌, Option, none, some, List, [], ◌∷◌, ◌++◌, lookup, insert,
  length, Int64, add64, sub64, lt64, le64, ◌⧺◌, decimal, if◌then◌else◌,
}
use payment_risk_engine.Host.{Host}
use payment_risk_engine.Edge.{
  QueuedTransaction, compute_hash, WalStore, read_all_pending, update_status,
}
use payment_risk_engine.Ledger.{
  Time, LedgerError, AccountSnapshot, ConservingLedger, Outcome, Call, blocked, returned, and_then,
  get_account, empty_snapshot, commit_offline_allowance, direct_commit, debit_deficit_reserve,
  record_deficit,
}
use payment_risk_engine.Reconcile.Clocks.{sort_transactions_vector_clock}
use payment_risk_engine.Reconcile.Reports.{DeficitRecord, ReconciliationReport, Reconciler}

unfoldable pub hash_of : Host → QueuedTransaction → String
hash_of host tx = if tx.payload_hash == "" then compute_hash host tx else tx.payload_hash

-- `r.seenHashes[hash]`
unfoldable pub seen : String → Reconciler → Bool
seen hash r = elim (lookup hash r.seen_hashes) [ none ↦ false | some b ↦ b ]

-- The account as the ledger has it, or an empty one.
unfoldable pub core_snapshot : QueuedTransaction → ConservingLedger → AccountSnapshot
core_snapshot tx l =
    let (snap, err) = get_account tx.account_id l in
    elim err [ none ↦ snap | some e ↦ record empty_snapshot { id = tx.account_id } ]

abbrev pub succeeded : Option LedgerError → Bool
succeeded none = true
succeeded (some e) = false

-- Whether the offline allowance paid, and the ledger then: a refused call may have created the
-- merchant's account.
unfoldable pub try_offline :
    Time → QueuedTransaction → AccountSnapshot → ConservingLedger → Bool × ConservingLedger
try_offline now tx snap l =
    let (err, l') =
      commit_offline_allowance now tx.account_id tx.merchant_id tx.amount tx.tx_id l in
    if le64 tx.amount snap.offline_allowance then (succeeded err, l') else (false, l)

unfoldable pub try_online :
    Time → QueuedTransaction → AccountSnapshot → ConservingLedger → Bool × ConservingLedger
try_online now tx snap l =
    let (err, l') = direct_commit now tx.account_id tx.merchant_id tx.amount tx.tx_id l in
    if le64 tx.amount snap.online_available then (succeeded err, l') else (false, l)

-- The two in turn, on the one snapshot.
unfoldable pub try_funds :
    Time → QueuedTransaction → AccountSnapshot → ConservingLedger → Bool × ConservingLedger
try_funds now tx snap l =
    let (settled, l') = try_offline now tx snap l in
    if settled then (true, l') else try_online now tx snap l'

-- `customerCovered`: what is online, from 0 to the amount.
unfoldable pub customer_covered : Int64 → Int64 → Int64
customer_covered online amount =
    let floor = if lt64 online 0 then 0 else online in if lt64 amount floor then amount else floor

-- The error of a deficit booking is not looked at.
abbrev pub kept : Call Outcome → Call ConservingLedger
kept blocked = blocked
kept (returned (err, l)) = returned l

-- The ledger's part of the reserve mode.
unfoldable pub charge_reserve :
    Time → QueuedTransaction → AccountSnapshot → ConservingLedger → Call ConservingLedger
charge_reserve now tx snap l =
    let covered = customer_covered snap.online_available tx.amount in
    let uncovered = sub64 tx.amount covered in
    let l1 =
      if lt64 0 covered
      then (direct_commit now tx.account_id tx.merchant_id covered (tx.tx_id ⧺ "-USER") l).1
      else l in
    if lt64 0 uncovered
    then kept (debit_deficit_reserve now tx.merchant_id uncovered (tx.tx_id ⧺ "-RESERVE") l1)
    else returned l1

-- The ledger's part of the legacy mode.
unfoldable pub charge_overdraft :
    Time → QueuedTransaction → ConservingLedger → Call ConservingLedger
charge_overdraft now tx l =
    kept (record_deficit now tx.account_id tx.merchant_id tx.amount tx.tx_id l)

abbrev pub reserve_record : Time → QueuedTransaction → AccountSnapshot → DeficitRecord
reserve_record now tx snap = record {
  tx_id = tx.tx_id;
  account_id = tx.account_id;
  merchant_id = tx.merchant_id;
  amount = tx.amount;
  available_on_core = snap.online_available;
  deficit_amount = sub64 tx.amount (customer_covered snap.online_available tx.amount);
  flagged_for_alert = true;
  created_at = now;
  reason = "RECON_DEFICIT_CHARGED_TO_RESERVE";
}

abbrev pub overdraft_record : Time → QueuedTransaction → AccountSnapshot → DeficitRecord
overdraft_record now tx snap = record {
  tx_id = tx.tx_id;
  account_id = tx.account_id;
  merchant_id = tx.merchant_id;
  amount = tx.amount;
  available_on_core = snap.online_available;
  deficit_amount =
      (let missing = sub64 tx.amount snap.online_available in
        if lt64 missing 0 then tx.amount else missing);
  flagged_for_alert = true;
  created_at = now;
  reason =
      "Insufficient available funds on core (available: "
      ⧺ decimal snap.online_available
      ⧺ " cents, required: "
      ⧺ decimal tx.amount
      ⧺ " cents)";
}

-- What the loop of `Replay` changes.
pub record ReplayState : Type 0 where
  pub reconciler : Reconciler
  pub store : WalStore
  pub report : ReconciliationReport

abbrev pub with_ledger : ConservingLedger → ReplayState → ReplayState
with_ledger l st = record st { reconciler = record (st.reconciler) { ledger = l } }

unfoldable pub mark_duplicate : QueuedTransaction → ReplayState → ReplayState
mark_duplicate tx st = record st {
  store = update_status tx.tx_id "DUPLICATE" st.store;
  report = record (st.report) { duplicate_count = st.report.duplicate_count + 1 };
}

abbrev pub mark_seen : String → ReplayState → ReplayState
mark_seen hash st = record st {
  reconciler = record (st.reconciler) { seen_hashes = insert hash true st.reconciler.seen_hashes };
}

unfoldable pub mark_reconciled : QueuedTransaction → ReplayState → ReplayState
mark_reconciled tx st = record st {
  store = update_status tx.tx_id "RECONCILED" st.store;
  report = record (st.report) {
    successful_count = st.report.successful_count + 1;
    total_amount_reconciled = add64 st.report.total_amount_reconciled tx.amount;
  };
}

unfoldable pub mark_deficit : DeficitRecord → QueuedTransaction → ReplayState → ReplayState
mark_deficit entry tx st = record {
  reconciler = record (st.reconciler) { deficit_logs = st.reconciler.deficit_logs ++ entry ∷ [] };
  store = update_status tx.tx_id "DEFICIT" st.store;
  report = record (st.report) {
    deficit_records = st.report.deficit_records ++ entry ∷ [];
    deficit_count = st.report.deficit_count + 1;
    total_deficit_amount = add64 st.report.total_deficit_amount tx.amount;
  };
}

-- Step 4, where the funds do not do.
unfoldable pub book_deficit :
    Time → QueuedTransaction → AccountSnapshot → ReplayState → Call ReplayState
book_deficit now tx snap st =
    if st.reconciler.use_deficit_reserve
    then and_then (charge_reserve now tx snap st.reconciler.ledger)
        (λ l. returned (mark_deficit (reserve_record now tx snap) tx (with_ledger l st)))
    else and_then (charge_overdraft now tx st.reconciler.ledger)
        (λ l. returned (mark_deficit (overdraft_record now tx snap) tx (with_ledger l st)))

-- Steps 3 and 4 for a transaction that was not seen before.
unfoldable pub settle_queued : Time → QueuedTransaction → ReplayState → Call ReplayState
settle_queued now tx st =
    let snap = core_snapshot tx st.reconciler.ledger in
    let (settled, l) = try_funds now tx snap st.reconciler.ledger in
    if settled
    then returned (mark_reconciled tx (with_ledger l st))
    else book_deficit now tx snap (with_ledger l st)

-- One round of the loop. A call of the ledger that never returns blocks the replay.
unfoldable pub replay_one : Host → Time → QueuedTransaction → ReplayState → Call ReplayState
replay_one host now tx st =
    if seen (hash_of host tx) st.reconciler
    then returned (mark_duplicate tx st)
    else settle_queued now tx (mark_seen (hash_of host tx) st)

unfoldable pub replay_all : Host → Time → List QueuedTransaction → ReplayState → Call ReplayState
replay_all host now [] st = returned st
replay_all host now (tx ∷ queued) st =
    and_then (replay_one host now tx st) (λ st'. replay_all host now queued st')

abbrev pub empty_report : Time → ℕ → ReconciliationReport
empty_report now total = record {
  total_processed = total;
  successful_count = 0;
  deficit_count = 0;
  duplicate_count = 0;
  total_amount_reconciled = 0;
  total_deficit_amount = 0;
  deficit_records = [];
  started_at = now;
  completed_at = now;
}

-- `Replay`
unfoldable pub replay : Host → Time → WalStore → Reconciler → Call ReplayState
unfolding replay_all
replay host now store r =
    let queued = sort_transactions_vector_clock (read_all_pending store) in
    replay_all host now queued
      (record { reconciler = r; store = store; report = empty_report now (length queued) })
