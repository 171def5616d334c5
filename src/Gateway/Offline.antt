-- ===== src/Gateway/Offline.antt =====
-- `handleOfflinePayment` of m1_api.go: authorization by token, and the local log.
use payment_risk_engine.Prelude.{Option, none, some, Int64, ◌⧺◌, if◌then◌else◌}
use payment_risk_engine.Host.{Host}
use payment_risk_engine.Telemetry.{
  PaymentResponse, code_offline_token_invalid, code_system_error, new_offline_approval_response,
  new_decline_response,
}
use payment_risk_engine.Edge.{
  QueuedTransaction, compute_hash, append, OfflineAuthorizationToken, OfflineAuthDecision,
  authorize_offline,
}
use payment_risk_engine.Gateway.Types.{
  Ambient, unix_seconds, PaymentRequest, PaymentGateway, wal_error_text,
}

-- The transaction that is queued. Its account is the request's.
abbrev pub unhashed_transaction :
    PaymentRequest → OfflineAuthorizationToken → Int64 → QueuedTransaction
unhashed_transaction req token seq = record {
  tx_id = req.tx_id;
  client_timestamp = req.client_timestamp;
  sequence_num = seq;
  seq_no = req.seq_no;
  vector_clock = req.vector_clock;
  token_id = token.token_id;
  account_id = req.account_id;
  merchant_id = req.merchant_id;
  terminal_id = req.terminal_id;
  amount = req.amount;
  signature = token.signature;
  status = "PENDING";
  payload_hash = "";
}

unfoldable pub queued_transaction :
    Host → PaymentRequest → OfflineAuthorizationToken → Int64 → QueuedTransaction
queued_transaction host req token seq =
    let tx = unhashed_transaction req token seq in record tx { payload_hash = compute_hash host tx }

-- Step B. The authorizer has been charged by now, whatever the log says.
unfoldable pub queue_payment :
    Ambient
    → PaymentRequest
    → OfflineAuthorizationToken
    → Int64
    → PaymentGateway
    → PaymentResponse × PaymentGateway
queue_payment a req token seq gw =
    let (err, wal) =
      append a.host a.codec a.wal_outcome (queued_transaction a.host req token seq) gw.edge_wal in
    let gw' = record gw { edge_wal = wal } in
    elim err [
      | none ↦
          (new_offline_approval_response req.tx_id req.account_id req.amount token.token_id, gw')
      | some e ↦ (
        new_decline_response code_system_error
            ("Failed to commit to local edge storage: " ⧺ wal_error_text a.os_error e) 0,
        gw',
      )
    ]

-- What follows the authorizer's decision.
unfoldable pub follow_decision :
    Ambient
    → PaymentRequest
    → OfflineAuthorizationToken
    → OfflineAuthDecision
    → PaymentGateway
    → PaymentResponse × PaymentGateway
follow_decision a req token d gw =
    if d.approved
    then queue_payment a req token d.sequence_num gw
    else (new_decline_response d.reason_code d.message 0, gw)

-- `none` is a panic of the revocation filter.
unfoldable pub handle_offline_payment :
    Ambient → PaymentRequest → PaymentGateway → Option (PaymentResponse × PaymentGateway)
handle_offline_payment a req gw = elim req.offline_token [
  | none ↦ some (
    new_decline_response code_offline_token_invalid
        "Network partition active: Offline authorization token is required." 0,
    gw,
  )
  | some token ↦
      elim (authorize_offline a.host (unix_seconds a) token req.amount gw.edge_authorizer) [
        | none ↦ none
        | some (d, ea) ↦ some (follow_decision a req token d (record gw { edge_authorizer = ea }))
      ]
]
