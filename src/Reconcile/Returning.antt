-- ===== src/Reconcile/Returning.antt =====
-- When `Replay` of m6_engine.go returns: no transaction makes a deficit booking lock an account
-- twice.
use payment_risk_engine.Prelude.{
  ◌≡◌, refl, ap, ◌∙◌, String, false, ◌==◌, List, [], ◌∷◌, All, Int64, length, sub64, lt64, le64,
  ◌⧺◌,
}
use payment_risk_engine.Host.{Host}
use payment_risk_engine.Edge.{QueuedTransaction, WalStore, read_all_pending}
use payment_risk_engine.Ledger.{
  Time, AccountSnapshot, ConservingLedger, Outcome, Call, blocked, returned, debit_deficit_reserve,
  record_deficit,
}
use payment_risk_engine.Ledger.Requests.{reserve_id-perform}
use payment_risk_engine.Reconcile.Ends.{
  Returns, Returns-result, Returns-and_then, Returns-if, Returns-map,
}
use payment_risk_engine.Reconcile.Clocks.{sort_transactions_vector_clock}
use payment_risk_engine.Reconcile.Ordering.{All-sort}
use payment_risk_engine.Reconcile.Reports.{Reconciler}
use payment_risk_engine.Reconcile.Engine.{
  ReplayState, empty_report, with_ledger, mark_seen, mark_deficit, reserve_record, overdraft_record,
  hash_of, seen, core_snapshot, try_funds, customer_covered, kept, charge_reserve, charge_overdraft,
  book_deficit, settle_queued, replay_one, replay_all, replay,
}
use payment_risk_engine.Reconcile.Transfers.{
  Transfers, stay, move, covered_part, Transfers-covered_part, Transfers-try_funds,
}
use payment_risk_engine.Reconcile.Settling.{IsSettledFrom, replay_one-IsSettledFrom}

-- The merchant is neither the deficit reserve nor the payer.
pub record IsPayable (reserve : String) (tx : QueuedTransaction) : Type 0 where
  pub not_reserve : (reserve == tx.merchant_id) ≡ false
  pub not_payer : (tx.account_id == tx.merchant_id) ≡ false

reserve_id-Transfers :
    {l l' : ConservingLedger}
    → Transfers l l'
    → l'.deficit_reserve_account_id ≡ l.deficit_reserve_account_id
reserve_id-Transfers stay = refl
reserve_id-Transfers {l} (move now r i p) = reserve_id-Transfers p ∙ reserve_id-perform now r l

kept-Returns : (c : Call Outcome) → Returns c → Returns (kept c)
kept-Returns blocked h = h
kept-Returns (returned o) h = tt

debit-Returns :
    (now : Time) (merchant : String) (x : Int64) (id : String) (l : ConservingLedger)
    → (l.deficit_reserve_account_id == merchant) ≡ false
    → Returns (debit_deficit_reserve now merchant x id l)
unfolding debit_deficit_reserve
debit-Returns now merchant x id l ne = Returns-if (le64 x 0) _ _ tt (rw ne tt)

module _ (now : Time) (tx : QueuedTransaction) (reserve : String)
    (payable : IsPayable reserve tx) where
  charge_overdraft-Returns : (l : ConservingLedger) → Returns (charge_overdraft now tx l)
  unfolding charge_overdraft record_deficit
  charge_overdraft-Returns l = rw payable.not_payer tt

  charge_reserve-Returns :
      (snap : AccountSnapshot) (l : ConservingLedger)
      → l.deficit_reserve_account_id ≡ reserve
      → Returns (charge_reserve now tx snap l)
  unfolding charge_reserve covered_part
  charge_reserve-Returns snap l here =
      let rest = sub64 tx.amount (customer_covered snap.online_available tx.amount) in
      let id = tx.tx_id ⧺ "-RESERVE" in
      let l1 = covered_part now tx snap l in
      Returns-if (lt64 0 rest) _ _
        (kept-Returns (debit_deficit_reserve now tx.merchant_id rest id l1) (
          debit-Returns now tx.merchant_id rest id l1 (
            ap (λ s. s == tx.merchant_id)
              (reserve_id-Transfers (Transfers-covered_part now tx snap l) ∙ here)
            ∙ payable.not_reserve)))
        tt

  book_deficit-Returns :
      (snap : AccountSnapshot) (st : ReplayState)
      → st.reconciler.ledger.deficit_reserve_account_id ≡ reserve
      → Returns (book_deficit now tx snap st)
  unfolding book_deficit
  book_deficit-Returns snap st here =
      let core = st.reconciler.ledger in
      Returns-if st.reconciler.use_deficit_reserve _ _
        (Returns-map (charge_reserve now tx snap core)
          (λ l. mark_deficit (reserve_record now tx snap) tx (with_ledger l st))
          (charge_reserve-Returns snap core here))
        (Returns-map (charge_overdraft now tx core)
          (λ l. mark_deficit (overdraft_record now tx snap) tx (with_ledger l st))
          (charge_overdraft-Returns core))

  settle_queued-Returns :
      (st : ReplayState)
      → st.reconciler.ledger.deficit_reserve_account_id ≡ reserve
      → Returns (settle_queued now tx st)
  unfolding settle_queued
  settle_queued-Returns st here =
      let core = st.reconciler.ledger in
      let snap = core_snapshot tx core in
      Returns-if (try_funds now tx snap core).0 _ _ tt (
        book_deficit-Returns snap (with_ledger (try_funds now tx snap core).1 st)
          (reserve_id-Transfers (Transfers-try_funds now tx snap core) ∙ here))

  replay_one-Returns :
      (host : Host) (st : ReplayState)
      → st.reconciler.ledger.deficit_reserve_account_id ≡ reserve
      → Returns (replay_one host now tx st)
  unfolding replay_one
  replay_one-Returns host st here =
      Returns-if (seen (hash_of host tx) st.reconciler) _ _ tt
        (settle_queued-Returns (mark_seen (hash_of host tx) st) here)

replay_all-Returns :
    (host : Host) (now : Time) (reserve : String) (queued : List QueuedTransaction)
    (st : ReplayState)
    → All (IsPayable reserve) queued
    → st.reconciler.ledger.deficit_reserve_account_id ≡ reserve
    → Returns (replay_all host now queued st)
unfolding replay_all
replay_all-Returns host now reserve [] st p here = tt
replay_all-Returns host now reserve (tx ∷ queued) st p here =
    Returns-and_then (IsSettledFrom st.reconciler.ledger) (replay_one host now tx st)
      (λ mid. replay_all host now queued mid) (replay_one-Returns now tx reserve p.0 host st here)
      (replay_one-IsSettledFrom host now tx st)
      (λ mid moved.
        replay_all-Returns host now reserve queued mid p.1 (reserve_id-Transfers moved ∙ here))

-- A replay of payable transactions returns.
pub replay_returns :
    (host : Host) (now : Time) (store : WalStore) (r : Reconciler)
    → All (IsPayable r.ledger.deficit_reserve_account_id) (read_all_pending store)
    → (st : ReplayState) × (replay host now store r ≡ returned st)
unfolding replay
replay_returns host now store r p =
    let queued = sort_transactions_vector_clock (read_all_pending store) in
    let start : ReplayState = record {
      reconciler = r;
      store = store;
      report = empty_report now (length queued);
    } in
    Returns-result (replay_all host now queued start) (
      replay_all-Returns host now r.ledger.deficit_reserve_account_id queued start
        (All-sort (IsPayable r.ledger.deficit_reserve_account_id) (read_all_pending store) p) refl)
