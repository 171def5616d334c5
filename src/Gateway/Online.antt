-- ===== src/Gateway/Online.antt =====
-- `handleOnlinePayment` of m1_api.go: screening, reservation, commit.
use payment_risk_engine.Prelude.{none, some, ◌⧺◌, if◌then◌else◌}
use payment_risk_engine.Telemetry.{
  PaymentResponse, Score, code_insufficient_funds, code_system_error, new_approval_response,
  new_decline_response,
}
use payment_risk_engine.Ledger.{
  Time, ConservingLedger, LedgerError, insufficient_funds, reserve_funds, commit_hold, release_hold,
}
use payment_risk_engine.Fraud.{Instant, TransactionEvent, FraudDecision, screen_transaction}
use payment_risk_engine.Gateway.Types.{
  Ambient, PaymentRequest, PaymentGateway, ledger_of, with_ledger, ledger_error_text,
}

-- The event that a request is screened as: the merchant is its destination too.
abbrev pub screened_event : Instant → PaymentRequest → TransactionEvent
screened_event now req = record {
  tx_id = req.tx_id;
  from_acc = req.account_id;
  to_acc = req.merchant_id;
  device_id = req.device_id;
  merchant_id = req.merchant_id;
  ip_address = req.ip_address;
  amount = req.amount;
  timestamp = now;
}

abbrev pub reservation_refusal : Score → LedgerError → PaymentResponse
reservation_refusal score insufficient_funds =
    new_decline_response code_insufficient_funds "Account has insufficient available funds." score
reservation_refusal score err =
    new_decline_response code_system_error ("Ledger reservation failure: " ⧺ ledger_error_text err)
      score

-- Step C: the commit of a hold, or its release if the commit fails.
unfoldable pub settle_hold :
    Time → PaymentRequest → Score → ConservingLedger → PaymentResponse × ConservingLedger
settle_hold now req score l =
    let (err, l') = commit_hold now req.account_id req.merchant_id req.amount req.tx_id l in
    elim err [
      | none ↦ (new_approval_response req.tx_id req.account_id req.amount score, l')
      | some e ↦ (
        new_decline_response code_system_error ("Ledger commit failure: " ⧺ ledger_error_text e)
            score,
        (release_hold now req.account_id req.amount req.tx_id l').1,
      )
    ]

-- Steps B and C.
unfoldable pub settle_online :
    Time → PaymentRequest → Score → ConservingLedger → PaymentResponse × ConservingLedger
settle_online now req score l =
    let (res, err, l') = reserve_funds now req.account_id req.amount req.tx_id l in
    elim err [ some e ↦ (reservation_refusal score e, l') | none ↦ settle_hold now req score l' ]

abbrev pub settle_gateway :
    Time → PaymentRequest → Score → PaymentGateway → PaymentResponse × PaymentGateway
settle_gateway now req score gw =
    let (resp, l) = settle_online now req score (ledger_of gw) in (resp, with_ledger l gw)

-- Step A in front of them, where screening is on and there is an engine.
unfoldable pub settle_screened :
    Time → PaymentRequest → FraudDecision → PaymentGateway → PaymentResponse × PaymentGateway
settle_screened now req d gw =
    if d.approved
    then settle_gateway now req d.fraud_score gw
    else (new_decline_response d.reason_code d.explanation d.fraud_score, gw)

unfoldable pub handle_online_payment :
    Ambient → PaymentRequest → PaymentGateway → PaymentResponse × PaymentGateway
handle_online_payment a req gw =
    let unscreened = settle_gateway a.now req 0 gw in
    if gw.fraud_screening_enabled
    then (elim gw.fraud_engine [
      | none ↦ unscreened
      | some g ↦
          let (d, g') = screen_transaction a.host (screened_event a.now req) req.qr_payload g in
          settle_screened a.now req d (record gw { fraud_engine = some g' })
    ])
    else unscreened
