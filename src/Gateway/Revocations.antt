-- ===== src/Gateway/Revocations.antt =====
-- No payment and no reconciliation of m1_api.go changes the authorizer's revocation filter.
use mathlib.Core.Path.{subst}
use payment_risk_engine.Prelude.{
  ◌≡◌, refl, sym, ap, ◌∙◌, inl, inr, arith, String, Bool-cases, Option-cases, Option, none, some,
}
use payment_risk_engine.Telemetry.{PaymentResponse}
use payment_risk_engine.Ledger.{returned}
use payment_risk_engine.Fraud.{CompactFilter, screen_transaction}
use payment_risk_engine.Edge.{
  OfflineAuthorizationToken, OfflineAuthDecision, append, authorize_offline, spend,
}
use payment_risk_engine.Edge.Granting.{authorize_offline-cases}
use payment_risk_engine.Reconcile.{ReconciliationReport, replay}
use payment_risk_engine.Reconcile.Ends.{Call-cases}
use payment_risk_engine.Gateway.{
  Ambient, unix_seconds, PaymentRequest, PaymentGateway, settle_screened, handle_online_payment,
  screened_event, queued_transaction, queue_payment, follow_decision, handle_offline_payment,
  fill_request, count_request, cached_response, remember, check_request_qr, handle_payment,
  process_fresh, process_payment, trigger_reconciliation,
}

abbrev pub filter_of : PaymentGateway → Option CompactFilter
filter_of gw = gw.edge_authorizer.revocation_filter

-- The filter of a result; `o` where there is none.
abbrev filter_after :
    Option CompactFilter → Option (PaymentResponse × PaymentGateway) → Option CompactFilter
filter_after o none = o
filter_after o (some (resp, gw')) = filter_of gw'

filter-remember :
    (key : String) (resp : PaymentResponse) (gw : PaymentGateway)
    → filter_of (remember key resp gw) ≡ filter_of gw
unfolding remember
filter-remember key resp gw = ground arith

module _ (a : Ambient) (req : PaymentRequest) where
  filter-follow_decision :
      (token : OfflineAuthorizationToken) (d : OfflineAuthDecision) (gw : PaymentGateway)
      → filter_of (follow_decision a req token d gw).1 ≡ filter_of gw
  unfolding follow_decision queue_payment
  filter-follow_decision token d gw =
      elim (Option-cases
        (append a.host a.codec a.wal_outcome (queued_transaction a.host req token d.sequence_num)
          gw.edge_wal).0) [ inl ok ↦ ground (arith, ok) | inr (e, bad) ↦ ground (arith, bad) ]

  filter-handle_offline_payment :
      (gw : PaymentGateway)
      → filter_after (filter_of gw) (handle_offline_payment a req gw) ≡ filter_of gw
  unfolding handle_offline_payment spend
  filter-handle_offline_payment gw = elim (Option-cases req.offline_token) [
    | inl missing ↦ ground (arith, missing)
    | inr (token, given) ↦
        elim (Option-cases
          (authorize_offline a.host (unix_seconds a) token req.amount gw.edge_authorizer)) [
            | inl panics ↦ ground (arith, given, panics)
            | inr ((d, ea), decided) ↦
                let followed =
                  filter-follow_decision token d (record gw { edge_authorizer = ea }) in
                elim (authorize_offline-cases a.host (unix_seconds a) token req.amount
                  gw.edge_authorizer decided) [
                    | inl (refused, same) ↦ ground (arith, given, decided, followed, same)
                    | inr (g, approved, charged) ↦ ground (arith, given, decided, followed, charged)
                  ]
          ]
  ]

  filter-handle_online_payment :
      (gw : PaymentGateway) → filter_of (handle_online_payment a req gw).1 ≡ filter_of gw
  unfolding handle_online_payment settle_screened
  filter-handle_online_payment gw = elim (Option-cases gw.fraud_engine) [
    | inl missing ↦ ground (arith, missing)
    | inr (g, there) ↦
        let (d, g') = screen_transaction a.host (screened_event a.now req) req.qr_payload g in
        elim (Bool-cases d.approved) [
          | inl ok ↦ ground (arith, there, ok)
          | inr refused ↦ ground (arith, there, refused)
        ]
  ]

  filter-handle_payment :
      (gw : PaymentGateway) → filter_after (filter_of gw) (handle_payment a req gw) ≡ filter_of gw
  unfolding handle_payment
  filter-handle_payment gw =
      ground (arith, filter-handle_online_payment gw, filter-handle_offline_payment gw)

  filter-process_fresh :
      (gw : PaymentGateway) → filter_after (filter_of gw) (process_fresh a req gw) ≡ filter_of gw
  unfolding process_fresh
  filter-process_fresh gw = elim (Option-cases (check_request_qr a req gw)) [
    | inr (resp, refused) ↦
        rw (refused, process_fresh) (filter-remember req.idempotency_key resp gw)
    | inl passes ↦
        let kept = filter-handle_payment gw in
        elim (Option-cases (handle_payment a req gw)) [
          | inl panics ↦ rw (passes, panics, process_fresh) refl
          | inr ((resp, gw'), ran) ↦
              rw (passes, ran, process_fresh)
                (filter-remember req.idempotency_key resp gw'
                  ∙ subst (λ o. filter_after (filter_of gw) o ≡ filter_of gw) ran kept)
        ]
  ]

-- `ProcessPayment` leaves the filter as it was, whatever it answers.
pub filter-process_payment :
    (a : Ambient) (req : PaymentRequest) (resp : PaymentResponse) (gw gw' : PaymentGateway)
    → process_payment a req gw ≡ some (resp, gw')
    → filter_of gw' ≡ filter_of gw
unfolding process_payment count_request
filter-process_payment a req resp gw gw' ran =
    ap (filter_after (filter_of gw)) (sym ran)
    ∙ elim (Option-cases (cached_response req.idempotency_key gw)) [
      | inr (cached, hit) ↦ rw (hit, process_payment) refl
      | inl miss ↦
          rw (miss, process_payment)
            (filter-process_fresh a (fill_request a req) (count_request gw))
    ]

-- `TriggerReconciliation` leaves the filter as it was.
pub filter-trigger_reconciliation :
    (a : Ambient) (r : ReconciliationReport) (gw gw' : PaymentGateway)
    → trigger_reconciliation a gw ≡ returned (r, gw')
    → filter_of gw' ≡ filter_of gw
unfolding trigger_reconciliation
filter-trigger_reconciliation a r gw gw' ran =
    elim (Call-cases (replay a.host a.now gw.edge_wal gw.reconciler)) [
      | inl waits ↦ absurd (ground (arith, waits, ran))
      | inr (st, over) ↦ ground (arith, over, ran)
    ]
