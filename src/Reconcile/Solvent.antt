-- ===== src/Reconcile/Solvent.antt =====
-- `Replay` of m6_engine.go in the reserve mode takes no customer below zero.
use mathlib.Core.Path.{subst}
use payment_risk_engine.Prelude.{
  ℕ, ◌+◌, ◌≤◌, ◌<◌, ◌≡◌, refl, sym, ◌∙◌, inl, inr, arith, String, true, false, ◌==◌, Bool-cases,
  Option-cases, List, [], ◌∷◌, length, All, word, half_word, lookup,
}
use payment_risk_engine.Prelude.Sorting.{insertion_sort}
use payment_risk_engine.Prelude.Sorting.Sums.{sum_of, sum-insertion_sort}
use payment_risk_engine.Host.{Host}
use payment_risk_engine.Edge.{QueuedTransaction, WalStore, read_all_pending}
use payment_risk_engine.Ledger.{Time, ConservingLedger, returned, get_account}
use payment_risk_engine.Ledger.Solvency.{customer_funds, IsSolvent, IsSolvent-nonneg}
use payment_risk_engine.Reconcile.Ends.{Ends, Ends-result, Ends-and_then, Ends-weaken}
use payment_risk_engine.Reconcile.Reports.{Reconciler}
use payment_risk_engine.Reconcile.Clocks.{goes_before, sort_transactions_vector_clock}
use payment_risk_engine.Prelude.Sorting.Elements.{All-insertion_sort}
use payment_risk_engine.Reconcile.Engine.{
  ReplayState, mark_seen, hash_of, seen, core_snapshot, try_funds, charge_reserve, mark_duplicate,
  mark_reconciled, mark_deficit, book_deficit, settle_queued, replay_one, replay_all, replay,
  empty_report,
}
use payment_risk_engine.Reconcile.Within.{
  IsWithin, IsWithin-refl, IsWithin-trans, try_funds-IsWithin, charge_reserve-IsWithin, apart_after,
}

-- The transaction is not paid by the reserve.
abbrev pub IsCustomers : String → QueuedTransaction → Type 0
IsCustomers reserve tx = (tx.account_id == reserve) ≡ false

-- The reserve mode is on, and the customers have at most n more than in this ledger.
pub record IsCharged (n : ℕ) (l : ConservingLedger) (st : ReplayState) : Type 0 where
  pub within : IsWithin n l st.reconciler.ledger
  pub mode : st.reconciler.use_deficit_reserve ≡ true

core_snapshot-lt :
    (tx : QueuedTransaction) (l : ConservingLedger)
    → (tx.account_id == l.deficit_reserve_account_id) ≡ false
    → IsSolvent l
    → (core_snapshot tx l).online_available < word
unfolding core_snapshot get_account
core_snapshot-lt tx l apart s = elim (Option-cases (lookup tx.account_id l.accounts)) [
  | inl new ↦ ground (arith, new)
  | inr (a, old) ↦ ground (arith, old, IsSolvent-nonneg l tx.account_id a s old apart)
]

module _ (now : Time) (tx : QueuedTransaction) (st : ReplayState)
    (mode : st.reconciler.use_deficit_reserve ≡ true)
    (apart : (tx.account_id == st.reconciler.ledger.deficit_reserve_account_id) ≡ false)
    (bound : customer_funds st.reconciler.ledger + tx.amount < half_word) where
  settle_queued-IsCharged :
      Ends (settle_queued now tx st) (IsCharged tx.amount st.reconciler.ledger)
  unfolding settle_queued book_deficit mark_reconciled mark_deficit
  settle_queued-IsCharged =
      let core = st.reconciler.ledger in
      let snap = core_snapshot tx core in
      let l = (try_funds now tx snap core).1 in
      let p =
        try_funds-IsWithin now tx snap core apart (omega (arith, bound)) (omega (arith, bound)) in
      elim (Bool-cases (try_funds now tx snap core).0) [
        | inl e ↦ rw e (record {
          within = record { funds = omega (arith, p.funds); same = p.same };
          mode = mode;
        })
        | inr e ↦
            rw (e, mode)
              (Ends-and_then (IsWithin tx.amount l) (IsCharged tx.amount core)
                (charge_reserve now tx snap l) _
                (charge_reserve-IsWithin now tx snap l (apart_after tx p apart)
                  (omega (arith, bound, p.funds))
                  (core_snapshot-lt tx core apart (omega (arith, bound))))
                (λ l' q. record {
                  within = record {
                    funds = omega (arith, p.funds, q.funds);
                    same = q.same ∙ p.same;
                  };
                  mode = refl;
                }))
      ]

replay_one-IsCharged :
    (host : Host) (now : Time) (tx : QueuedTransaction) (st : ReplayState)
    → st.reconciler.use_deficit_reserve ≡ true
    → (tx.account_id == st.reconciler.ledger.deficit_reserve_account_id) ≡ false
    → customer_funds st.reconciler.ledger + tx.amount < half_word
    → Ends (replay_one host now tx st) (IsCharged tx.amount st.reconciler.ledger)
unfolding replay_one mark_duplicate
replay_one-IsCharged host now tx st mode apart bound =
    elim (Bool-cases (seen (hash_of host tx) st.reconciler)) [
      | inl e ↦ rw e (record { within = IsWithin-refl tx.amount st.reconciler.ledger; mode = mode })
      | inr e ↦
          rw e (settle_queued-IsCharged now tx (mark_seen (hash_of host tx) st) mode apart bound)
    ]

replay_all-IsCharged :
    (host : Host) (now : Time) (queued : List QueuedTransaction) (st : ReplayState)
    → st.reconciler.use_deficit_reserve ≡ true
    → All (IsCustomers st.reconciler.ledger.deficit_reserve_account_id) queued
    → customer_funds st.reconciler.ledger + sum_of (λ tx. tx.amount) queued < half_word
    → Ends
        (replay_all host now queued st)
        (IsCharged (sum_of (λ tx. tx.amount) queued) st.reconciler.ledger)
unfolding replay_all
replay_all-IsCharged host now [] st mode own bound = record {
  within = IsWithin-refl 0 st.reconciler.ledger;
  mode = mode;
}
replay_all-IsCharged host now (tx ∷ queued) st mode own bound =
    Ends-and_then (IsCharged tx.amount st.reconciler.ledger) _ (replay_one host now tx st)
      (λ mid. replay_all host now queued mid)
      (replay_one-IsCharged host now tx st mode own.0 (omega (arith, bound)))
      (λ mid c.
        Ends-weaken _ _ (replay_all host now queued mid)
          (replay_all-IsCharged host now queued mid c.mode
            (subst (λ id. All (IsCustomers id) queued) (sym c.within.same) own.1)
            (omega (arith, bound, c.within.funds)))
          (λ last d. record { within = IsWithin-trans c.within d.within; mode = d.mode }))

-- In the reserve mode a Replay that returns leaves the customers solvent, and richer by the sum of the
-- pending amounts at most, if that sum fits in an int64 beside their funds and no pending transaction
-- is paid by the reserve.
pub replay-IsSolvent :
    (host : Host) (now : Time) (store : WalStore) (r : Reconciler) {st : ReplayState}
    → r.use_deficit_reserve ≡ true
    → All (IsCustomers r.ledger.deficit_reserve_account_id) (read_all_pending store)
    → customer_funds r.ledger + sum_of (λ tx. tx.amount) (read_all_pending store) < half_word
    → replay host now store r ≡ returned st
    → IsSolvent st.reconciler.ledger
      × (customer_funds st.reconciler.ledger
          ≤ customer_funds r.ledger + sum_of (λ tx. tx.amount) (read_all_pending store))
unfolding replay sort_transactions_vector_clock
replay-IsSolvent host now store r mode own bound h =
    let pending = read_all_pending store in
    let sorted = insertion_sort goes_before pending in
    let kept = sum-insertion_sort (λ tx. tx.amount) goes_before pending in
    let c = Ends-result (IsCharged (sum_of (λ tx. tx.amount) sorted) r.ledger) h (
      replay_all-IsCharged host now sorted
        (record { reconciler = r; store = store; report = empty_report now (length sorted) }) mode
        (All-insertion_sort (IsCustomers r.ledger.deficit_reserve_account_id) goes_before pending
          own)
        (omega (arith, bound, kept))) in
    (omega (arith, c.within.funds, bound, kept), omega (arith, c.within.funds, kept))
