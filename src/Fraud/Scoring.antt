-- ===== src/Fraud/Scoring.antt =====
-- The decisions of `ScreenTransaction` (m3_graph_fraud.go): scores, thresholds, and what a refusal
-- leaves.
use mathlib.Core.Path.{subst}
use payment_risk_engine.Prelude.{
  ℕ, ◌≤◌, ◌≡◌, sym, ap, ◌∙◌, inl, inr, arith, String, true, false, Option-cases, Option, none, some,
  ltb, Int64, lt64, le64,
}
use payment_risk_engine.Host.{Host}
use payment_risk_engine.Fraud.Graph.{
  TransactionEvent, GraphEngine, recent_transfer_count, distinct_device_count,
}
use payment_risk_engine.Fraud.Screening.{
  QrPayload, FraudDecision, fraud_score_threshold, velocity_score, risk_score, prune_if_due,
  screen_graph, check_qr, screen_transaction,
}
use payment_risk_engine.Fraud.Pruning.{
  LooksLike, LooksLike-refl, transfer_count-LooksLike, prune_if_due-LooksLike,
}

risk_score-le :
    (velocity devices : ℕ) (amount : Int64) (g : GraphEngine)
    → risk_score velocity devices amount g ≤ 100
unfolding risk_score
risk_score-le velocity devices amount g = ground arith

screen_graph_score :
    (e : TransactionEvent) (g : GraphEngine)
    → ((screen_graph e g).0.approved ≡ ltb (screen_graph e g).0.fraud_score fraud_score_threshold)
      × ((screen_graph e g).0.fraud_score ≤ 100)
unfolding screen_graph
screen_graph_score e g = ground (
  arith,
  risk_score-le (recent_transfer_count e.from_acc e.timestamp g)
      (distinct_device_count e.from_acc e.timestamp g) e.amount g,
)

-- A screening approves exactly what it scores below the threshold, and no score is above 1.00.
pub screen_transaction_score :
    (host : Host) (e : TransactionEvent) (qr : Option QrPayload) (g : GraphEngine)
    → ((screen_transaction host e qr g).0.approved
        ≡ ltb (screen_transaction host e qr g).0.fraud_score fraud_score_threshold)
      × ((screen_transaction host e qr g).0.fraud_score ≤ 100)
unfolding screen_transaction
screen_transaction_score host e qr g =
    ground (arith, screen_graph_score e (prune_if_due e.timestamp g))

-- An account at its limit of transfers in the window is refused, whatever the amount.
pub velocity_refused :
    (host : Host) (e : TransactionEvent) (qr : Option QrPayload) (g : GraphEngine)
    → lt64 0 g.velocity_reject_threshold ≡ true
    → le64 g.velocity_reject_threshold (recent_transfer_count e.from_acc e.timestamp g) ≡ true
    → (screen_transaction host e qr g).0.approved ≡ false
unfolding screen_transaction screen_graph risk_score velocity_score
velocity_refused host e qr g on reached =
    let like = prune_if_due-LooksLike e.timestamp g in
    ground (
      arith,
      ap (lt64 0) like.reject ∙ on,
      ap (λ t. le64 t (recent_transfer_count e.from_acc e.timestamp (prune_if_due e.timestamp g)))
            like.reject
          ∙ ap (le64 g.velocity_reject_threshold)
              (transfer_count-LooksLike e.timestamp g (prune_if_due e.timestamp g) like e.from_acc)
          ∙ reached,
    )

screen_graph-refused :
    (e : TransactionEvent) (g : GraphEngine)
    → (screen_graph e g).0.approved ≡ false
    → (screen_graph e g).1 ≡ g
unfolding screen_graph
screen_graph-refused e g refused = ground arith

screened_bad :
    (host : Host) (e : TransactionEvent) (qr : Option QrPayload) (g : GraphEngine) {msg : String}
    → check_qr host qr g ≡ some msg
    → (screen_transaction host e qr g).1 ≡ g
unfolding screen_transaction
screened_bad host e qr g bad = rw (bad, screen_transaction)

screened_good :
    (host : Host) (e : TransactionEvent) (qr : Option QrPayload) (g : GraphEngine)
    → check_qr host qr g ≡ none
    → screen_transaction host e qr g ≡ screen_graph e (prune_if_due e.timestamp g)
unfolding screen_transaction
screened_good host e qr g good = rw (good, screen_transaction)

-- A refusal leaves the engine as it looked: what is refused is not recorded.
pub refusal-LooksLike :
    (host : Host) (e : TransactionEvent) (qr : Option QrPayload) (g : GraphEngine)
    → (screen_transaction host e qr g).0.approved ≡ false
    → LooksLike e.timestamp g (screen_transaction host e qr g).1
refusal-LooksLike host e qr g refused = elim (Option-cases (check_qr host qr g)) [
  | inr (msg, bad) ↦
      subst (LooksLike e.timestamp g) (sym (screened_bad host e qr g bad))
        (LooksLike-refl e.timestamp g)
  | inl good ↦
      let pruned = prune_if_due e.timestamp g in
      let screened = screened_good host e qr g good in
      subst (LooksLike e.timestamp g)
        (sym (
          ap (λ (a : FraudDecision × GraphEngine). a.1) screened
          ∙ screen_graph-refused e pruned
              (sym (ap (λ (a : FraudDecision × GraphEngine). a.0.approved) screened) ∙ refused)))
        (prune_if_due-LooksLike e.timestamp g)
]
