-- ===== src/Gateway/Steps.antt =====
-- What a payment of m1_api.go can do to the ledger: a property of ledgers that reserving,
-- committing and releasing keep is kept by `ProcessPayment`.
use payment_risk_engine.Prelude.{
  ℕ, ◌≡◌, refl, sym, inl, inr, arith, String, true, ◌==◌, Bool-cases, Option-cases, Option, none,
  some, Int64, lt64,
}
use mathlib.Core.Path.{subst}
use payment_risk_engine.Telemetry.{PaymentResponse, Score}
use payment_risk_engine.Ledger.{ConservingLedger, reserve_funds, commit_hold, release_hold}
use payment_risk_engine.Fraud.{FraudDecision, screen_transaction}
use payment_risk_engine.Edge.{
  OfflineAuthorizationToken, OfflineAuthDecision, append, authorize_offline,
}
use payment_risk_engine.Gateway.Settlement.{reserve_funds-guard}
use payment_risk_engine.Gateway.{
  Ambient, unix_seconds, PaymentRequest, PaymentGateway, ledger_of, network_disconnected,
  settle_hold, settle_online, settle_screened, handle_online_payment, screened_event,
  queued_transaction, queue_payment, follow_decision, handle_offline_payment, fill_request,
  count_request, cached_response, remember, check_request_qr, handle_payment, process_fresh,
  process_payment,
}

ledger-remember :
    (key : String) (resp : PaymentResponse) (gw : PaymentGateway)
    → ledger_of (remember key resp gw) ≡ ledger_of gw
unfolding remember
ledger-remember key resp gw = ground arith

module _ (a : Ambient) (req : PaymentRequest) (token : OfflineAuthorizationToken) where
  ledger-queue_payment :
      (seq : Int64) (gw : PaymentGateway)
      → ledger_of (queue_payment a req token seq gw).1 ≡ ledger_of gw
  unfolding queue_payment
  ledger-queue_payment seq gw =
      elim (Option-cases
        (append a.host a.codec a.wal_outcome (queued_transaction a.host req token seq)
          gw.edge_wal).0) [ inl ok ↦ ground (arith, ok) | inr (e, bad) ↦ ground (arith, bad) ]

  ledger-follow_decision :
      (d : OfflineAuthDecision) (gw : PaymentGateway)
      → ledger_of (follow_decision a req token d gw).1 ≡ ledger_of gw
  unfolding follow_decision
  ledger-follow_decision d gw = ground (arith, ledger-queue_payment d.sequence_num gw)

-- The ledger when the call is over; a panic of the revocation filter comes before any change to it.
abbrev pub ledger_after :
    PaymentGateway → Option (PaymentResponse × PaymentGateway) → ConservingLedger
ledger_after gw none = ledger_of gw
ledger_after gw (some (resp, gw')) = ledger_of gw'

ledger_after-count_request :
    (gw : PaymentGateway) (o : Option (PaymentResponse × PaymentGateway))
    → ledger_after (count_request gw) o ≡ ledger_after gw o
unfolding count_request
ledger_after-count_request gw none = refl
ledger_after-count_request gw (some r) = refl

-- The offline path leaves the ledger alone, whatever it answers.
pub ledger-handle_offline_payment :
    (a : Ambient) (req : PaymentRequest) (gw : PaymentGateway)
    → ledger_after gw (handle_offline_payment a req gw) ≡ ledger_of gw
unfolding handle_offline_payment
ledger-handle_offline_payment a req gw = elim (Option-cases req.offline_token) [
  | inl missing ↦ ground (arith, missing)
  | inr (token, given) ↦
      elim (Option-cases
        (authorize_offline a.host (unix_seconds a) token req.amount gw.edge_authorizer)) [
          | inl panics ↦ ground (arith, given, panics)
          | inr (r, decided) ↦ ground (
            arith,
            given,
            decided,
            ledger-follow_decision a req token r.0 (record gw { edge_authorizer = r.1 }),
          )
        ]
]

module _ {ℓ} (P : ConservingLedger → Type ℓ) (a : Ambient) (req : PaymentRequest)
    (reserves : (tx : String) (l : ConservingLedger)
      → P l
      → P (reserve_funds a.now req.account_id req.amount tx l).2)
    (commits : (tx : String) (l : ConservingLedger)
      → P l
      → P (commit_hold a.now req.account_id req.merchant_id req.amount tx l).1)
    (releases : (tx : String) (l : ConservingLedger)
      → lt64 0 req.amount ≡ true
      → P l
      → P (release_hold a.now req.account_id req.amount tx l).1) where
  settle_hold-keeps :
      (tx : String) (t : ℕ) (score : Score) (l : ConservingLedger)
      → lt64 0 req.amount ≡ true
      → P l
      → P (settle_hold a.now (record req { tx_id = tx; client_timestamp = t }) score l).1
  unfolding settle_hold
  settle_hold-keeps tx t score l positive p =
      elim (Option-cases (commit_hold a.now req.account_id req.merchant_id req.amount tx l).0) [
        | inl ok ↦ rw (ok, settle_hold) (commits tx l p)
        | inr (e, bad) ↦
            rw (bad, settle_hold)
              (releases tx (commit_hold a.now req.account_id req.merchant_id req.amount tx l).1
                positive (commits tx l p))
      ]

  settle_online-keeps :
      (tx : String) (t : ℕ) (score : Score) (l : ConservingLedger)
      → P l
      → P (settle_online a.now (record req { tx_id = tx; client_timestamp = t }) score l).1
  unfolding settle_online
  settle_online-keeps tx t score l p =
      elim (Option-cases (reserve_funds a.now req.account_id req.amount tx l).1) [
        | inl ok ↦
            rw (ok, settle_online)
              (settle_hold-keeps tx t score (reserve_funds a.now req.account_id req.amount tx l).2
                (reserve_funds-guard a.now req.account_id req.amount tx l ok) (reserves tx l p))
        | inr (e, bad) ↦ rw (bad, settle_online) (reserves tx l p)
      ]

  settle_screened-keeps :
      (tx : String) (t : ℕ) (d : FraudDecision) (gw : PaymentGateway)
      → P (ledger_of gw)
      → P (
          ledger_of
            (settle_screened a.now (record req { tx_id = tx; client_timestamp = t }) d gw).1)
  unfolding settle_screened
  settle_screened-keeps tx t d gw p = elim (Bool-cases d.approved) [
    | inl ok ↦ rw (ok, settle_screened) (settle_online-keeps tx t d.fraud_score (ledger_of gw) p)
    | inr refused ↦ rw (refused, settle_screened) p
  ]

  handle_online_payment-keeps :
      (tx : String) (t : ℕ) (gw : PaymentGateway)
      → P (ledger_of gw)
      → P (
          ledger_of
            (handle_online_payment a (record req { tx_id = tx; client_timestamp = t }) gw).1)
  unfolding handle_online_payment
  handle_online_payment-keeps tx t gw p =
      let unscreened = settle_online-keeps tx t 0 (ledger_of gw) p in
      elim (Bool-cases gw.fraud_screening_enabled) [
        | inr off ↦ rw (off, handle_online_payment) unscreened
        | inl on ↦ elim (Option-cases gw.fraud_engine) [
          | inl missing ↦ rw (on, missing, handle_online_payment) unscreened
          | inr (g, there) ↦
              let (d, g') =
                screen_transaction a.host
                  (screened_event a.now (record req { tx_id = tx; client_timestamp = t }))
                  req.qr_payload g in
              rw (on, there, handle_online_payment)
                (settle_screened-keeps tx t d (record gw { fraud_engine = some g' }) p)
        ]
      ]

  handle_payment-keeps :
      (tx : String) (t : ℕ) (gw : PaymentGateway)
      → P (ledger_of gw)
      → P (ledger_after gw (handle_payment a (record req { tx_id = tx; client_timestamp = t }) gw))
  unfolding handle_payment
  handle_payment-keeps tx t gw p = elim (Bool-cases (gw.network_status == network_disconnected)) [
    | inl cut ↦
        rw (cut, handle_payment)
          (subst P
            (sym (
              ledger-handle_offline_payment a (record req { tx_id = tx; client_timestamp = t }) gw))
            p)
    | inr up ↦ rw (up, handle_payment) (handle_online_payment-keeps tx t gw p)
  ]

  process_fresh-keeps :
      (tx : String) (t : ℕ) (gw : PaymentGateway)
      → P (ledger_of gw)
      → P (ledger_after gw (process_fresh a (record req { tx_id = tx; client_timestamp = t }) gw))
  unfolding process_fresh
  process_fresh-keeps tx t gw p =
      let req' = record req { tx_id = tx; client_timestamp = t } in
      elim (Option-cases (check_request_qr a req' gw)) [
        | inr (resp, refused) ↦
            rw (refused, process_fresh)
              (subst P (sym (ledger-remember req.idempotency_key resp gw)) p)
        | inl passes ↦
            let q = handle_payment-keeps tx t gw p in
            elim (Option-cases (handle_payment a req' gw)) [
              | inl panics ↦ rw (passes, panics, process_fresh) p
              | inr ((resp, gw'), ran) ↦
                  rw (passes, ran, process_fresh)
                    (subst P (sym (ledger-remember req.idempotency_key resp gw'))
                      (subst (λ o. P (ledger_after gw o)) ran q))
            ]
      ]

  pub process_payment-keeps :
      (gw : PaymentGateway) → P (ledger_of gw) → P (ledger_after gw (process_payment a req gw))
  unfolding process_payment fill_request count_request
  process_payment-keeps gw p = elim (Option-cases (cached_response req.idempotency_key gw)) [
    | inr (resp, hit) ↦ rw (hit, process_payment) p
    | inl miss ↦
        let counted = count_request gw in
        let filled = fill_request a req in
        rw (miss, process_payment)
          (subst P (ledger_after-count_request gw (process_fresh a filled counted))
            (process_fresh-keeps filled.tx_id filled.client_timestamp counted p))
  ]
