-- ===== src/Standalone/Handlers.antt =====
-- The start of `main` of fs2601_all_in_one.go, and its handlers. JSON, the routes and the page are
-- left out: a handler takes the decoded body.
use payment_risk_engine.Prelude.{ℕ, String, ◌==◌, Option, none, some, Int64, ◌/◌, if◌then◌else◌}
use payment_risk_engine.Host.{Host, Bytes}
use payment_risk_engine.Ledger.{Time}
use payment_risk_engine.Standalone.Answers.{PaymentResponse}
use payment_risk_engine.Standalone.Accounts.{
  ConservingLedger, new_conserving_ledger, create_account, allocate_offline_allowance,
  audit_conservation,
}
use payment_risk_engine.Standalone.Transfers.{Ending, panics, blocks, ends}
use payment_risk_engine.Standalone.Filter.{CompactFilter, new_compact_filter, insert_key}
use payment_risk_engine.Standalone.Codes.{DynamicQrPayload, sign_dynamic_qr}
use payment_risk_engine.Standalone.Screening.{new_graph_engine, register_terminal_key}
use payment_risk_engine.Standalone.Wal.{pending, new_local_wal}
use payment_risk_engine.Standalone.Replay.{replay}
use payment_risk_engine.Standalone.Paying.{
  Ambient, PayRequest, Gateway, new_gateway, process_payment,
}

unfoldable pub demo_ledger : Time → ConservingLedger
demo_ledger now =
    let l = create_account now "ACC-BENCH-1" 100000 (new_conserving_ledger now) in
    let l = create_account now "MERCHANT-POS-01" 0 l in
    (allocate_offline_allowance now "ACC-BENCH-1" 20000 l).1

unfoldable pub demo_filter : Option CompactFilter
demo_filter = elim (insert_key "ACC-REVOKED-DEMO" (new_compact_filter 16384)) [
  | none ↦ none
  | some (inserted, cf) ↦ some cf
]

-- The systems that `main` sets up, on a log file that opens; `none` is a panic of the filter.
unfoldable pub setup : Time → Bytes → Bytes → Option Gateway
setup now terminal_public file = elim demo_filter [
  | none ↦ none
  | some cf ↦ some (
      new_gateway (demo_ledger now)
        (register_terminal_key "TERM-001" terminal_public new_graph_engine) (new_local_wal file) cf)
]

-- `POST /api/v1/network/toggle`: what a reconnection reports, the count and the total.
unfoldable pub toggle_network : Time → String → Gateway → Ending (Option (Int64 × Int64) × Gateway)
toggle_network now status gw =
    let set = record gw { network = status } in
    if status == "RECONNECTED"
    then (elim (replay now (pending gw.wal) gw.ledger) [
      | panics ↦ panics
      | blocks ↦ blocks
      | ends (count, total, l) ↦ ends (some (count, total), record set { ledger = l })
    ])
    else ends (none, set)

-- `POST /api/v1/auth/pay`: the status of the reply, and the answer.
unfoldable pub pay : Ambient → PayRequest → Gateway → Option (ℕ × PaymentResponse × Gateway)
pay a req gw = elim (process_payment a req gw) [
  | none ↦ none
  | some (resp, gw') ↦ some ((if resp.status == "DECLINED" then 402 else 200), resp, gw')
]

-- `GET /api/v1/audit/conservation`, and `GET /api/v1/health`
unfoldable pub audit : Gateway → Int64 × ℕ
audit gw = audit_conservation gw.ledger

abbrev pub health : Gateway → String
health gw = gw.network

-- `POST /api/v1/qr/generate`
unfoldable pub generate_qr : Host → Bytes → Time → Bytes → DynamicQrPayload
generate_qr host terminal_private now nonce_bytes =
    sign_dynamic_qr host terminal_private (now / 1000000000) nonce_bytes "MERCHANT-POS-01"
      "TERM-001"
