-- ===== src/Reconcile/Settling.antt =====
-- `Replay` of m6_engine.go moves funds only by calls of the ledger that bring nothing in.
use payment_risk_engine.Prelude.{inl, inr, ◌≡◌, List, [], ◌∷◌, Bool-cases}
use payment_risk_engine.Host.{Host}
use payment_risk_engine.Edge.{QueuedTransaction, WalStore}
use payment_risk_engine.Ledger.{
  Time, AccountSnapshot, ConservingLedger, returned, audit_conservation,
}
use payment_risk_engine.Reconcile.Transfers.{
  Transfers, stay, Transfers-trans, Transfers-keep, charge_overdraft-Transfers,
  charge_reserve-Transfers, Transfers-try_funds,
}
use payment_risk_engine.Reconcile.Ends.{Ends, Ends-result, Ends-and_then}
use payment_risk_engine.Reconcile.Reports.{Reconciler}
use payment_risk_engine.Reconcile.Engine.{
  ReplayState, with_ledger, mark_seen, hash_of, seen, core_snapshot, try_funds, charge_reserve,
  charge_overdraft, mark_duplicate, mark_reconciled, mark_deficit, book_deficit, settle_queued,
  replay_one, replay_all, replay,
}

-- The ledger of the result comes from this one by transfers.
abbrev pub IsSettledFrom : ConservingLedger → ReplayState → Type 0
IsSettledFrom l st = Transfers l st.reconciler.ledger

module _ (now : Time) (tx : QueuedTransaction) where
  book_deficit-IsSettledFrom :
      (snap : AccountSnapshot) (l : ConservingLedger) (st : ReplayState)
      → IsSettledFrom l st
      → Ends (book_deficit now tx snap st) (IsSettledFrom l)
  unfolding book_deficit mark_deficit
  book_deficit-IsSettledFrom snap l st p =
      let core = st.reconciler.ledger in
      elim (Bool-cases st.reconciler.use_deficit_reserve) [
        | inl e ↦ rw e (
            Ends-and_then (Transfers core) (IsSettledFrom l) (charge_reserve now tx snap core) _
              (charge_reserve-Transfers now tx snap core) (λ after_charge q. Transfers-trans p q))
        | inr e ↦ rw e (
            Ends-and_then (Transfers core) (IsSettledFrom l) (charge_overdraft now tx core) _
              (charge_overdraft-Transfers now tx core) (λ after_charge q. Transfers-trans p q))
      ]

  settle_queued-IsSettledFrom :
      (st : ReplayState) → Ends (settle_queued now tx st) (IsSettledFrom st.reconciler.ledger)
  unfolding settle_queued mark_reconciled
  settle_queued-IsSettledFrom st =
      let core = st.reconciler.ledger in
      let snap = core_snapshot tx core in
      let paid = Transfers-try_funds now tx snap core in
      elim (Bool-cases (try_funds now tx snap core).0) [
        | inl e ↦ rw e paid
        | inr e ↦ rw e (
            book_deficit-IsSettledFrom snap core (with_ledger (try_funds now tx snap core).1 st)
              paid)
      ]

pub replay_one-IsSettledFrom :
    (host : Host) (now : Time) (tx : QueuedTransaction) (st : ReplayState)
    → Ends (replay_one host now tx st) (IsSettledFrom st.reconciler.ledger)
unfolding replay_one mark_duplicate
replay_one-IsSettledFrom host now tx st = elim (Bool-cases (seen (hash_of host tx) st.reconciler)) [
  | inl e ↦ rw e stay
  | inr e ↦ rw e (settle_queued-IsSettledFrom now tx (mark_seen (hash_of host tx) st))
]

replay_all-IsSettledFrom :
    (host : Host) (now : Time) (queued : List QueuedTransaction) (l : ConservingLedger)
    (st : ReplayState)
    → IsSettledFrom l st
    → Ends (replay_all host now queued st) (IsSettledFrom l)
unfolding replay_all
replay_all-IsSettledFrom host now [] l st p = p
replay_all-IsSettledFrom host now (tx ∷ queued) l st p =
    Ends-and_then (IsSettledFrom st.reconciler.ledger) (IsSettledFrom l) (replay_one host now tx st)
      (λ next. replay_all host now queued next) (replay_one-IsSettledFrom host now tx st)
      (λ next q. replay_all-IsSettledFrom host now queued l next (Transfers-trans p q))

-- A replay that returns has moved funds only by transfers of the ledger.
pub replay_transfers :
    (host : Host) (now : Time) (store : WalStore) (r : Reconciler)
    → Ends (replay host now store r) (IsSettledFrom r.ledger)
unfolding replay
replay_transfers host now store r = replay_all-IsSettledFrom host now _ r.ledger _ stay

-- The total that AuditConservation reports is the same before and after.
pub replay_keeps_total :
    (host : Host) (now : Time) (store : WalStore) (r : Reconciler) {st : ReplayState}
    → replay host now store r ≡ returned st
    → (audit_conservation st.reconciler.ledger).total_balance
      ≡ (audit_conservation r.ledger).total_balance
replay_keeps_total host now store r e =
    Transfers-keep (Ends-result (IsSettledFrom r.ledger) e (replay_transfers host now store r))
