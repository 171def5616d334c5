-- ===== src/Reconcile/Repeating.antt =====
-- Deduplication by `Replay` of m6_engine.go: what was replayed once moves nothing again.
use payment_risk_engine.Prelude.{
  ◌≡◌, refl, ap, ◌∙◌, arith, String, true, eq_iff, List, [], ◌∷◌, All,
}
use payment_risk_engine.Host.{Host}
use payment_risk_engine.Edge.{QueuedTransaction, WalStore}
use payment_risk_engine.Ledger.{Time, Call, returned, and_then}
use payment_risk_engine.Reconcile.Ends.{Ends, Ends-result, Ends-and_then, Ends-weaken}
use payment_risk_engine.Reconcile.Reports.{ReconciliationReport}
use payment_risk_engine.Reconcile.Engine.{
  ReplayState, hash_of, seen, mark_duplicate, replay_one, replay_all,
}
use payment_risk_engine.Reconcile.Counting.{Advances, replay_one-Advances}

-- Every transaction of the queue has a hash that the reconciler has seen.
abbrev pub AllSeen : Host → List QueuedTransaction → ReplayState → Type 0
AllSeen host queued st = All (λ tx. seen (hash_of host tx) st.reconciler ≡ true) queued

-- No hash is forgotten.
abbrev Remembers : ReplayState → ReplayState → Type 0
Remembers st next = (h : String) → seen h st.reconciler ≡ true → seen h next.reconciler ≡ true

Advances-remember :
    (hash : String) (st next : ReplayState)
    → Advances hash st next
    → Remembers st next × (seen hash next.reconciler ≡ true)
Advances-remember hash st next a =
    (λ h s. ground (arith, s, a.hashes h), ground (arith, a.hashes hash, eq_iff hash hash))

abbrev Replayed : Host → List QueuedTransaction → ReplayState → ReplayState → Type 0
Replayed host queued st next = AllSeen host queued next × Remembers st next

replay_all_remembers :
    (host : Host) (now : Time) (queued : List QueuedTransaction) (st : ReplayState)
    → Ends (replay_all host now queued st) (Replayed host queued st)
unfolding replay_all
replay_all_remembers host now [] st = (tt, λ h s. s)
replay_all_remembers host now (tx ∷ queued) st =
    let hash = hash_of host tx in
    Ends-and_then (Advances hash st) (Replayed host (tx ∷ queued) st) (replay_one host now tx st)
      (λ mid. replay_all host now queued mid) (replay_one-Advances host now tx st)
      (λ mid a.
        Ends-weaken (Replayed host queued mid) (Replayed host (tx ∷ queued) st)
          (replay_all host now queued mid) (replay_all_remembers host now queued mid)
          (λ next r.
            let kept = Advances-remember hash st mid a in
            ((r.1 hash kept.1, r.0), λ h s. r.1 h (kept.0 h s))))

replay_one-seen :
    (host : Host) (now : Time) (tx : QueuedTransaction) (st : ReplayState)
    → seen (hash_of host tx) st.reconciler ≡ true
    → replay_one host now tx st ≡ returned (mark_duplicate tx st)
unfolding replay_one
replay_one-seen host now tx st s = rw (s, replay_one)

mark_duplicate_reconciler :
    (tx : QueuedTransaction) (st : ReplayState) → (mark_duplicate tx st).reconciler ≡ st.reconciler
unfolding mark_duplicate
mark_duplicate_reconciler tx st = refl

-- The reconciler is left as it was.
pub record LeavesReconciler (c : Call ReplayState) (st : ReplayState) : Type 0 where
  pub last : ReplayState
  pub runs : c ≡ returned last
  pub same : last.reconciler ≡ st.reconciler

replay_all_seen :
    (host : Host) (now : Time) (queued : List QueuedTransaction) (st : ReplayState)
    → AllSeen host queued st
    → LeavesReconciler (replay_all host now queued st) st
unfolding replay_all mark_duplicate
replay_all_seen host now [] st s = record { last = st; runs = refl; same = refl }
replay_all_seen host now (tx ∷ queued) st s =
    let rest = replay_all_seen host now queued (mark_duplicate tx st) s.1 in
    record {
      last = rest.last;
      runs =
          ap (λ c. and_then c (λ mid. replay_all host now queued mid))
            (replay_one-seen host now tx st s.0)
          ∙ rest.runs;
      same = rest.same;
    }

-- Once a queue has been replayed, the same reconciler replays it again without touching the
-- ledger, whatever the store says of the transactions by then.
pub replay_all_again :
    (host : Host) (now later : Time) (queued : List QueuedTransaction) (st : ReplayState)
    {next : ReplayState} (store : WalStore) (report : ReconciliationReport)
    → replay_all host now queued st ≡ returned next
    → LeavesReconciler
        (replay_all host later queued
          (record { reconciler = next.reconciler; store = store; report = report }))
        (record { reconciler = next.reconciler; store = store; report = report })
replay_all_again host now later queued st {next} store report e =
    let r = Ends-result (Replayed host queued st) e (replay_all_remembers host now queued st) in
    replay_all_seen host later queued
      (record { reconciler = next.reconciler; store = store; report = report }) r.0
