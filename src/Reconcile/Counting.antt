-- ===== src/Reconcile/Counting.antt =====
-- The counts of the report of m6_engine.go, and the transactions that a replay has seen.
use payment_risk_engine.Prelude.{
  ℕ, suc, ◌+◌, ◌≡◌, refl, ap, ◌∙◌, inl, inr, arith, String, true, List, [], ◌∷◌, Bool-cases, length,
  lookup-insert, eq_iff, ◌==◌, if◌then◌else◌,
}
use payment_risk_engine.Host.{Host}
use payment_risk_engine.Edge.{QueuedTransaction, WalStore, read_all_pending}
use payment_risk_engine.Ledger.{Time, AccountSnapshot, ConservingLedger, returned}
use payment_risk_engine.Reconcile.Ends.{
  Ends, Ends-result, Ends-and_then, Ends-returned, Ends-weaken, Ends-if,
}
use payment_risk_engine.Reconcile.Clocks.{sort_transactions_vector_clock}
use payment_risk_engine.Reconcile.Reports.{DeficitRecord, ReconciliationReport, Reconciler}
use payment_risk_engine.Reconcile.Engine.{
  ReplayState, empty_report, with_ledger, mark_seen, hash_of, seen, core_snapshot, try_funds,
  charge_reserve, charge_overdraft, reserve_record, overdraft_record, mark_duplicate,
  mark_reconciled, mark_deficit, book_deficit, settle_queued, replay_one, replay_all, replay,
}

-- The transactions that a report accounts for.
abbrev pub handled : ReconciliationReport → ℕ
handled report = report.successful_count + report.deficit_count + report.duplicate_count

-- What one round does to the report and to the hashes seen.
pub record Advances (hash : String) (st next : ReplayState) : Type 0 where
  pub counted : handled next.report ≡ suc (handled st.report)
  pub total : next.report.total_processed ≡ st.report.total_processed
  pub hashes :
      (h : String) → seen h next.reconciler ≡ (if hash == h then true else seen h st.reconciler)

-- The same for the part of a round after its hash is marked.
pub record Counts (st next : ReplayState) : Type 0 where
  pub counted : handled next.report ≡ suc (handled st.report)
  pub total : next.report.total_processed ≡ st.report.total_processed
  pub hashes : next.reconciler.seen_hashes ≡ st.reconciler.seen_hashes

mark_deficit-Counts :
    (entry : DeficitRecord) (tx : QueuedTransaction) (st : ReplayState) (l : ConservingLedger)
    → Counts st (mark_deficit entry tx (with_ledger l st))
unfolding mark_deficit
mark_deficit-Counts entry tx st l = record { counted = omega arith; total = refl; hashes = refl }

book_deficit-Counts :
    (now : Time) (tx : QueuedTransaction) (snap : AccountSnapshot) (st : ReplayState)
    → Ends (book_deficit now tx snap st) (Counts st)
unfolding book_deficit
book_deficit-Counts now tx snap st =
    let core = st.reconciler.ledger in
    Ends-if (Counts st) st.reconciler.use_deficit_reserve _ _
      (Ends-returned (Counts st) (charge_reserve now tx snap core)
        (λ l. mark_deficit (reserve_record now tx snap) tx (with_ledger l st))
        (mark_deficit-Counts (reserve_record now tx snap) tx st))
      (Ends-returned (Counts st) (charge_overdraft now tx core)
        (λ l. mark_deficit (overdraft_record now tx snap) tx (with_ledger l st))
        (mark_deficit-Counts (overdraft_record now tx snap) tx st))

settle_queued-Counts :
    (now : Time) (tx : QueuedTransaction) (st : ReplayState)
    → Ends (settle_queued now tx st) (Counts st)
unfolding settle_queued mark_reconciled
settle_queued-Counts now tx st =
    let core = st.reconciler.ledger in
    let snap = core_snapshot tx core in
    let l = (try_funds now tx snap core).1 in
    elim (Bool-cases (try_funds now tx snap core).0) [
      | inl e ↦ rw e (record { counted = omega arith; total = refl; hashes = refl })
      | inr e ↦ rw e (
          Ends-weaken (Counts (with_ledger l st)) (Counts st)
            (book_deficit now tx snap (with_ledger l st))
            (book_deficit-Counts now tx snap (with_ledger l st))
            (λ next c. record { counted = c.counted; total = c.total; hashes = c.hashes }))
    ]

seen-mark_seen :
    (hash h : String) (st : ReplayState)
    → seen h (mark_seen hash st).reconciler ≡ (if hash == h then true else seen h st.reconciler)
unfolding seen
seen-mark_seen hash h st =
    ground (arith, lookup-insert hash h true st.reconciler.seen_hashes, eq_iff hash h)

seen-seen_hashes :
    (h : String) (r r' : Reconciler) → r'.seen_hashes ≡ r.seen_hashes → seen h r' ≡ seen h r
unfolding seen
seen-seen_hashes h r r' e = rw e refl

pub replay_one-Advances :
    (host : Host) (now : Time) (tx : QueuedTransaction) (st : ReplayState)
    → Ends (replay_one host now tx st) (Advances (hash_of host tx) st)
unfolding replay_one mark_duplicate
replay_one-Advances host now tx st =
    let hash = hash_of host tx in
    elim (Bool-cases (seen hash st.reconciler)) [
      | inl e ↦ rw e (record {
        counted = omega arith;
        total = refl;
        hashes = λ h.
            ground (arith, e, eq_iff hash h, ap (λ k. seen k st.reconciler) {x = hash} {y = h});
      })
      | inr e ↦ rw e (
          Ends-weaken (Counts (mark_seen hash st)) (Advances hash st)
            (settle_queued now tx (mark_seen hash st))
            (settle_queued-Counts now tx (mark_seen hash st))
            (λ next c. record {
              counted = c.counted;
              total = c.total;
              hashes = λ h.
                  seen-seen_hashes h (mark_seen hash st).reconciler next.reconciler c.hashes
                  ∙ seen-mark_seen hash h st;
            }))
    ]

-- What a whole loop does to the report.
abbrev IsCounted : ℕ → ReplayState → ReplayState → Type 0
IsCounted n st next =
    (handled next.report ≡ handled st.report + n)
    × (next.report.total_processed ≡ st.report.total_processed)

replay_all_counts :
    (host : Host) (now : Time) (queued : List QueuedTransaction) (st : ReplayState)
    → Ends (replay_all host now queued st) (IsCounted (length queued) st)
unfolding replay_all
replay_all_counts host now [] st = (omega arith, refl)
replay_all_counts host now (tx ∷ queued) st =
    Ends-and_then (Advances (hash_of host tx) st) (IsCounted (suc (length queued)) st)
      (replay_one host now tx st) (λ next. replay_all host now queued next)
      (replay_one-Advances host now tx st)
      (λ mid a.
        Ends-weaken (IsCounted (length queued) mid) (IsCounted (suc (length queued)) st)
          (replay_all host now queued mid) (replay_all_counts host now queued mid)
          (λ next c. (omega (arith, a.counted, c.0), c.1 ∙ a.total)))

-- A replay that returns accounts for every pending transaction: each is a success, a deficit or a
-- duplicate, and just one of them.
pub replay_counts :
    (host : Host) (now : Time) (store : WalStore) (r : Reconciler) {st : ReplayState}
    → replay host now store r ≡ returned st
    → (handled st.report ≡ st.report.total_processed)
      × (st.report.total_processed
          ≡ length (sort_transactions_vector_clock (read_all_pending store)))
unfolding replay
replay_counts host now store r {st} e =
    let queued = sort_transactions_vector_clock (read_all_pending store) in
    let start : ReplayState = record {
      reconciler = r;
      store = store;
      report = empty_report now (length queued);
    } in
    let c =
      Ends-result (IsCounted (length queued) start) e (replay_all_counts host now queued start) in
    (omega (arith, c.0, c.1), c.1)
