-- ===== src/Gateway/Types.antt =====
-- `PaymentRequest` and `PaymentGateway` of m1_api.go, and the settings of the gateway.
use payment_risk_engine.Prelude.{
  ℕ, String, Bool, true, Option, none, some, [], Map, insert, Int64, ◌/◌, ◌⧺◌,
}
use payment_risk_engine.Host.{Host, Bytes}
use payment_risk_engine.Telemetry.{PaymentResponse}
use payment_risk_engine.Ledger.{
  ConservingLedger, LedgerError, account_not_found, insufficient_funds, invalid_amount,
  reservation_not_found, hold_mismatch,
}
use payment_risk_engine.Edge.{
  OfflineAuthorizationToken, EdgeAuthorizer, Codec, WalStore, WriteOutcome, WalError,
  tx_already_exists, marshal_failed, header_failed, payload_failed, sync_failed,
}
use payment_risk_engine.Fraud.{
  Instant, GraphEngine, QrPayload, DynamicQrPayload, register_terminal_pub_key,
}
use payment_risk_engine.Reconcile.{Reconciler}

-- What one request takes from outside: the cryptography, JSON, the clock in nanoseconds, 8 random
-- bytes, how the writes of the log go, and the text of an error of the operating system.
pub record Ambient : Type 0 where
  pub host : Host
  pub codec : Codec
  pub now : Instant
  pub random_bytes : Bytes
  pub wal_outcome : WriteOutcome
  pub os_error : String

-- `time.Now().Unix()`
abbrev pub unix_seconds : Ambient → Int64
unix_seconds a = a.now / 1000000000

pub record PaymentRequest : Type 0 where
  pub idempotency_key : String
  pub tx_id : String
  pub account_id : String
  pub merchant_id : String
  pub terminal_id : String
  pub amount : Int64
  pub device_id : String
  pub ip_address : String
  pub client_timestamp : Int64
  pub qr_payload : Option QrPayload
  pub dynamic_qr : Option DynamicQrPayload
  pub offline_token : Option OfflineAuthorizationToken
  pub vector_clock : Map ℕ  -- of uint64
  pub seq_no : ℕ  -- uint64

-- `NetworkStatus` is a string type, and the server sets any string.
abbrev pub NetworkStatus : Type 0
NetworkStatus = String

abbrev pub network_online : NetworkStatus
network_online = "ONLINE"

abbrev pub network_disconnected : NetworkStatus
network_disconnected = "DISCONNECTED"

-- The gateway and the reconciler hold a pointer to one ledger, as the server sets them up: it is
-- the reconciler's field here.
pub record PaymentGateway : Type 0 where
  pub network_status : NetworkStatus
  pub idempotency : Map PaymentResponse
  pub terminal_keys : Map Bytes
  pub fraud_engine : Option GraphEngine  -- `none` is nil
  pub edge_authorizer : EdgeAuthorizer
  pub edge_wal : WalStore
  pub reconciler : Reconciler
  pub fraud_screening_enabled : Bool
  pub request_counter : Int64

abbrev pub ledger_of : PaymentGateway → ConservingLedger
ledger_of gw = gw.reconciler.ledger

abbrev pub with_ledger : ConservingLedger → PaymentGateway → PaymentGateway
with_ledger l gw = record gw { reconciler = record (gw.reconciler) { ledger = l } }

-- `NewPaymentGateway`
unfoldable pub new_payment_gateway :
    Option GraphEngine → EdgeAuthorizer → WalStore → Reconciler → PaymentGateway
new_payment_gateway fra edg wal rec = record {
  network_status = network_online;
  idempotency = [];
  terminal_keys = [];
  fraud_engine = fra;
  edge_authorizer = edg;
  edge_wal = wal;
  reconciler = rec;
  fraud_screening_enabled = true;
  request_counter = 0;
}

-- `SetFraudScreeningEnabled`
unfoldable pub set_fraud_screening_enabled : Bool → PaymentGateway → PaymentGateway
set_fraud_screening_enabled enabled gw = record gw { fraud_screening_enabled = enabled }

-- `SetNetworkStatus` and `GetNetworkStatus`
unfoldable pub set_network_status : NetworkStatus → PaymentGateway → PaymentGateway
set_network_status status gw = record gw { network_status = status }

unfoldable pub get_network_status : PaymentGateway → NetworkStatus
get_network_status gw = gw.network_status

-- `RegisterTerminalKey`
unfoldable pub register_terminal_key : String → Bytes → PaymentGateway → PaymentGateway
register_terminal_key terminal key gw = record gw {
  terminal_keys = insert terminal key gw.terminal_keys;
  fraud_engine = elim gw.fraud_engine [
    | none ↦ none
    | some g ↦ some (register_terminal_pub_key terminal key g)
  ];
}

-- `%v` of the errors.
abbrev pub ledger_error_text : LedgerError → String
ledger_error_text account_not_found = "account not found"
ledger_error_text insufficient_funds = "insufficient available balance"
ledger_error_text invalid_amount = "amount must be strictly positive"
ledger_error_text reservation_not_found = "reservation not found"
ledger_error_text hold_mismatch = "reserved balance less than hold commit amount"

abbrev pub wal_error_text : String → WalError → String
wal_error_text os tx_already_exists = "transaction already exists in WAL"
wal_error_text os marshal_failed = "failed to marshal transaction: " ⧺ os
wal_error_text os header_failed = "failed to write WAL frame header: " ⧺ os
wal_error_text os payload_failed = "failed to write WAL frame payload: " ⧺ os
wal_error_text os sync_failed = "failed to sync WAL to disk: " ⧺ os
