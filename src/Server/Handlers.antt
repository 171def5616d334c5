-- ===== src/Server/Handlers.antt =====
-- The handlers of cmd/server/main.go that pay, reconcile, read and change accounts.
use payment_risk_engine.Prelude.{
  ℕ, ◌+◌, ◌-◌, ◌*◌, ◌/◌, ◌%◌, String, Bool, ◌==◌, Option, none, some, Int64, word, half_word, eqb,
  ltb, leb, lt64, if◌then◌else◌, lookup,
}
use payment_risk_engine.Telemetry.{PaymentResponse}
use payment_risk_engine.Ledger.{
  Time, Call, blocked, returned, get_account, get_account_snapshot, deficit_reserve_name,
  audit_conservation, allocate_offline_allowance, create_account,
}
use payment_risk_engine.Edge.{issue_token}
use payment_risk_engine.Fraud.{GraphEngine, reset, clear_account_history}
use payment_risk_engine.Reconcile.{set_use_deficit_reserve}
use payment_risk_engine.Gateway.{
  Ambient, PaymentRequest, PaymentGateway, NetworkStatus, ledger_of, with_ledger,
  set_network_status, process_payment, trigger_reconciliation, ledger_error_text,
}
use payment_risk_engine.Server.Types.{
  Server, empty, failure, payment, network, report, account, token, audit, reserve_mode,
  raw_account, Reply, ok, bad_request,
}

abbrev with_gateway : PaymentGateway → Server → Server
with_gateway gw s = record s { gw = gw }

abbrev payment_status : PaymentResponse → ℕ
payment_status resp = if resp.status == "DECLINED" then 402 else 200

-- `handlePay`; `none` is a panic.
unfoldable pub handle_pay : Ambient → Option PaymentRequest → Server → Option (Reply × Server)
handle_pay a none s = some (bad_request "invalid JSON request format", s)
handle_pay a (some req) s = elim (process_payment a req s.gw) [
  | none ↦ none
  | some (resp, gw) ↦
      some (record { status = payment_status resp; body = payment resp }, with_gateway gw s)
]

-- `handleNetworkToggle` of the status in upper case: a reconnection replays the log, and blocks where
-- the replay does.
unfoldable pub handle_network_toggle :
    Ambient → Option NetworkStatus → Server → Call (Reply × Server)
handle_network_toggle a none s = returned (bad_request "invalid request", s)
handle_network_toggle a (some status) s =
    let gw = set_network_status status s.gw in
    if status == "RECONNECTED"
    then (elim (trigger_reconciliation a gw) [
      | blocked ↦ blocked
      | returned (r, gw') ↦ returned (ok (network status (some r)), with_gateway gw' s)
    ])
    else returned (ok (network status none), with_gateway gw s)

-- `handleReconcile`; `Replay` returns no error.
unfoldable pub handle_reconcile : Ambient → Server → Call (Reply × Server)
handle_reconcile a s = elim (trigger_reconciliation a s.gw) [
  | blocked ↦ blocked
  | returned (r, gw) ↦ returned (ok (report r), with_gateway gw s)
]

-- `handleGetAccount` of the path behind its prefix.
unfoldable pub handle_get_account : String → Server → Reply
handle_get_account id s =
    if id == ""
    then bad_request "missing account id"
    else (let (acc, err) = get_account id (ledger_of s.gw) in
        elim err [
          | none ↦ ok (account acc)
          | some e ↦ record { status = 404; body = failure "account not found" }
        ])

pub record IssueRequest : Type 0 where
  pub account_id : String
  pub max_floor_amount : Int64
  pub duration_sec : Int64
  pub terminal_id : String

-- `time.Now().Add(d).Unix()` for a duration in nanoseconds, which may be negative.
unfoldable pub unix_after : Time → Int64 → Int64
unix_after now d =
    let back = word - d in
    if ltb d half_word
    then (now + d) / 1000000000 % word
    else if leb back now
    then (now - back) / 1000000000
    else (word - (back - now + 999999999) / 1000000000) % word

-- `handleIssueToken`
unfoldable pub handle_issue_token : Ambient → Option IssueRequest → Server → Reply × Server
handle_issue_token a none s = (bad_request "invalid request", s)
handle_issue_token a (some req) s =
    let seconds = if eqb req.duration_sec 0 then 3600 else req.duration_sec in
    let terminal = if req.terminal_id == "" then "*" else req.terminal_id in
    let expires = unix_after a.now (seconds * 1000000000 % word) in
    let (t, ta) =
      issue_token a.host req.account_id req.max_floor_amount a.now expires terminal s.token_auth in
    (ok (token t), record s { token_auth = ta })

-- `handleAuditConservation`, `handleGetReserve`
unfoldable pub handle_audit_conservation : Server → Reply
handle_audit_conservation s = ok (audit (audit_conservation (ledger_of s.gw)))

unfoldable pub handle_get_reserve : Server → Reply
handle_get_reserve s = ok (account (get_account_snapshot deficit_reserve_name (ledger_of s.gw)))

-- `handleAllocateAllowance`
unfoldable pub handle_allocate_allowance : Time → Option (String × Int64) → Server → Reply × Server
handle_allocate_allowance now none s = (bad_request "invalid request", s)
handle_allocate_allowance now (some (id, amount)) s =
    let (err, l) = allocate_offline_allowance now id amount (ledger_of s.gw) in
    let s' = with_gateway (with_ledger l s.gw) s in
    elim err [
      | some e ↦ (bad_request (ledger_error_text e), s')
      | none ↦ (ok (account (get_account_snapshot id l)), s')
    ]

-- `handleToggleReserve`
unfoldable pub handle_toggle_reserve : Option Bool → Server → Reply × Server
handle_toggle_reserve none s = (bad_request "invalid request", s)
handle_toggle_reserve (some enabled) s =
    let gw = s.gw in
    (
      ok (reserve_mode enabled),
      with_gateway (record gw { reconciler = set_use_deficit_reserve enabled gw.reconciler }) s,
    )

abbrev on_engine : (GraphEngine → GraphEngine) → PaymentGateway → PaymentGateway
on_engine f gw = record gw {
  fraud_engine = elim gw.fraud_engine [ none ↦ none | some g ↦ some (f g) ];
}

-- `handleResetFraud`
unfoldable pub handle_reset_fraud : Time → Server → Reply × Server
handle_reset_fraud now s = (ok empty, with_gateway (on_engine (reset now) s.gw) s)

pub record CreateRequest : Type 0 where
  pub account_id : String
  pub balance : Int64
  pub offline_allowance : Int64

-- `handleCreateAccount`. The reply has the account that `CreateAccount` returned, as it is by then,
-- allocated or not: the struct itself and no snapshot.
unfoldable pub handle_create_account : Time → Option CreateRequest → Server → Reply × Server
handle_create_account now none s = (bad_request "invalid request format", s)
handle_create_account now (some req) s =
    let created = create_account now req.account_id req.balance (ledger_of s.gw) in
    let l =
      if lt64 0 req.offline_allowance
      then (allocate_offline_allowance now req.account_id req.offline_allowance created).1
      else created in
    let gw = on_engine (clear_account_history req.account_id) (with_ledger l s.gw) in
    if req.account_id == ""
    then (bad_request "account_id is required", s)
    else (ok (raw_account (lookup req.account_id l.accounts)), with_gateway gw s)
