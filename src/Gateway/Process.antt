-- ===== src/Gateway/Process.antt =====
-- `ProcessPayment` and `TriggerReconciliation` of m1_api.go.
use payment_risk_engine.Prelude.{
  String, ◌==◌, Option, none, some, lookup, insert, eqb, add64, ◌⧺◌, if◌then◌else◌,
}
use payment_risk_engine.Telemetry.{PaymentResponse, code_qr_tampering, new_decline_response}
use payment_risk_engine.Ledger.{Call, blocked, returned}
use payment_risk_engine.Fraud.{DynamicQrPayload, verify_dynamic_qr}
use payment_risk_engine.Reconcile.{ReconciliationReport, ReplayState, replay}
use payment_risk_engine.Gateway.Types.{
  Ambient, unix_seconds, PaymentRequest, PaymentGateway, network_disconnected,
}
use payment_risk_engine.Gateway.Online.{handle_online_payment}
use payment_risk_engine.Gateway.Offline.{handle_offline_payment}

-- A transaction id and a time for a request that has none.
unfoldable pub fill_request : Ambient → PaymentRequest → PaymentRequest
fill_request a req = record req {
  tx_id = if req.tx_id == "" then "TX-" ⧺ a.host.hex_encode a.random_bytes else req.tx_id;
  client_timestamp = if eqb req.client_timestamp 0 then unix_seconds a else req.client_timestamp;
}

unfoldable pub count_request : PaymentGateway → PaymentGateway
count_request gw = record gw { request_counter = add64 gw.request_counter 1 }

-- The response that is there for the key; the empty key has none.
unfoldable pub cached_response : String → PaymentGateway → Option PaymentResponse
cached_response key gw = if key == "" then none else lookup key gw.idempotency

unfoldable pub remember : String → PaymentResponse → PaymentGateway → PaymentGateway
remember key resp gw =
    if key == "" then gw else record gw { idempotency = insert key resp gw.idempotency }

abbrev pub qr_refusal : String → PaymentResponse
qr_refusal message = new_decline_response code_qr_tampering message 100

-- The check of a dynamic QR code; `none` passes.
unfoldable pub check_dynamic_qr :
    Ambient → PaymentRequest → DynamicQrPayload → PaymentGateway → Option PaymentResponse
check_dynamic_qr a req qr gw =
    if qr.merchant_id == req.merchant_id
    then (elim (lookup qr.terminal_id gw.terminal_keys) [
      | none ↦ some (
          qr_refusal
            ("Terminal " ⧺ qr.terminal_id ⧺ " is not registered with an Ed25519 public key"))
      | some key ↦
          let (valid, reason) = verify_dynamic_qr a.host (unix_seconds a) qr key in
          if valid then none else some (qr_refusal ("Dynamic QR verification failed: " ⧺ reason))
    ])
    else some (
        qr_refusal (
          "Merchant ID mismatch in dynamic QR: expected " ⧺ req.merchant_id ⧺ ", got "
          ⧺ qr.merchant_id))

unfoldable pub check_request_qr : Ambient → PaymentRequest → PaymentGateway → Option PaymentResponse
check_request_qr a req gw = elim req.dynamic_qr [
  | none ↦ none
  | some qr ↦ check_dynamic_qr a req qr gw
]

-- The flow for the network's state.
unfoldable pub handle_payment :
    Ambient → PaymentRequest → PaymentGateway → Option (PaymentResponse × PaymentGateway)
handle_payment a req gw =
    if gw.network_status == network_disconnected
    then handle_offline_payment a req gw
    else some (handle_online_payment a req gw)

-- A request that no response is cached for.
unfoldable pub process_fresh :
    Ambient → PaymentRequest → PaymentGateway → Option (PaymentResponse × PaymentGateway)
process_fresh a req gw = elim (check_request_qr a req gw) [
  | some refused ↦ some (refused, remember req.idempotency_key refused gw)
  | none ↦ elim (handle_payment a req gw) [
    | none ↦ none
    | some (resp, gw') ↦ some (resp, remember req.idempotency_key resp gw')
  ]
]

-- `ProcessPayment`; `none` is a panic.
unfoldable pub process_payment :
    Ambient → PaymentRequest → PaymentGateway → Option (PaymentResponse × PaymentGateway)
process_payment a req gw =
    let counted = count_request gw in
    elim (cached_response req.idempotency_key gw) [
      | some cached ↦ some (cached, counted)
      | none ↦ process_fresh a (fill_request a req) counted
    ]

abbrev pub reconciled : PaymentGateway → ReplayState → ReconciliationReport × PaymentGateway
reconciled gw st = (st.report, record gw { edge_wal = st.store; reconciler = st.reconciler })

-- `TriggerReconciliation`, which a deficit booking can block.
unfoldable pub trigger_reconciliation :
    Ambient → PaymentGateway → Call (ReconciliationReport × PaymentGateway)
trigger_reconciliation a gw = elim (replay a.host a.now gw.edge_wal gw.reconciler) [
  | blocked ↦ blocked
  | returned st ↦ returned (reconciled gw st)
]
