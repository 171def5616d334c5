-- ===== src/Server/Types.antt =====
-- `Server` of cmd/server/main.go, `setupServer`, and the replies. JSON, the routes and the pages are
-- left out: a handler takes the decoded body, or `none` where it cannot be decoded.
use payment_risk_engine.Prelude.{ℕ, String, Bool, true, Option, none, some, List}
use payment_risk_engine.Host.{Bytes}
use payment_risk_engine.Telemetry.{PaymentResponse}
use payment_risk_engine.Ledger.{
  Time, Account, AccountSnapshot, AuditTotals, ConservingLedger, new_conserving_ledger,
  create_account, allocate_offline_allowance, fund_account, deficit_reserve_name,
}
use payment_risk_engine.Edge.{
  OfflineAuthorizationToken, TokenAuthority, new_token_authority, EdgeAuthorizer,
  new_edge_authorizer, set_revocation_filter, WalStore,
}
use payment_risk_engine.Fraud.{
  CompactFilter, new_compact_filter, insert_key, DynamicQrPayload, GraphEngine, new_graph_engine,
  register_terminal,
}
use payment_risk_engine.Reconcile.{ReconciliationReport, new_reconciler, set_use_deficit_reserve}
use payment_risk_engine.Gateway.{
  PaymentGateway, NetworkStatus, new_payment_gateway, register_terminal_key,
}

-- The server's pointers to the ledger, the engine, the authorizer, the log, the reconciler and the
-- filter are the gateway's too: each is held once, in the gateway.
pub record Server : Type 0 where
  pub gw : PaymentGateway
  pub token_auth : TokenAuthority
  pub terminal_priv_key : Bytes
  pub terminal_pub_key : Bytes

-- The body of a reply. `empty` stands for a body that does not depend on the state.
pub data Body : Type 0 where
  empty : Body
  failure : String → Body
  payment : PaymentResponse → Body
  network : NetworkStatus → Option ReconciliationReport → Body
  report : ReconciliationReport → Body
  account : AccountSnapshot → Body
  -- The struct of the account, whose JSON has no total; none is no account.
  raw_account : Option Account → Body
  token : OfflineAuthorizationToken → Body
  audit : AuditTotals → Body
  reserve_mode : Bool → Body
  revocation : String → Bool → ℕ → Body
  revocation_stats : ℕ → ℕ → Body
  qr_code : DynamicQrPayload → Body

pub record Reply : Type 0 where
  pub status : ℕ
  pub body : Body

abbrev pub ok : Body → Reply
ok body = record { status = 200; body = body }

abbrev pub bad_request : String → Reply
bad_request text = record { status = 400; body = failure text }

-- The key pairs that are generated at the start.
pub record ServerKeys : Type 0 where
  pub token_public : Bytes
  pub token_private : Bytes
  pub terminal_public : Bytes
  pub terminal_private : Bytes

-- The ledger with its demo accounts.
unfoldable pub seeded_ledger : Time → ConservingLedger
seeded_ledger now =
    let l = create_account now "ACC-BENCH-1" 100000 (new_conserving_ledger now) in
    let l = create_account now "ACC-BENCH-2" 500000 l in
    let l = create_account now "MERCHANT-POS-01" 0 l in
    let l = (allocate_offline_allowance now "ACC-BENCH-1" 20000 l).1 in
    (fund_account now deficit_reserve_name 100000000 l).1

-- The filter with the demo card; the result of the insertion is ignored.
unfoldable pub seeded_filter : Bool → List ℕ → CompactFilter
seeded_filter coin slots =
    let cf = new_compact_filter 16384 in
    elim (insert_key coin slots "ACC-REVOKED-DEMO" cf) [ none ↦ cf | some (inserted, cf') ↦ cf' ]

abbrev demo_engine : Time → GraphEngine
demo_engine now =
    register_terminal "TERM-001" "MERCHANT-POS-01" (new_graph_engine now "POS-SECRET-KEY-HMAC-2026")

abbrev demo_authorizer : Bool → List ℕ → Bytes → EdgeAuthorizer
demo_authorizer coin slots public_key =
    set_revocation_filter (seeded_filter coin slots) (new_edge_authorizer public_key "TERM-001")

-- `setupServer`, where the keys can be generated and the log can be opened.
unfoldable pub setup_server : Time → Bool → List ℕ → ServerKeys → WalStore → Server
setup_server now coin slots keys wal =
    let rec = set_use_deficit_reserve true (new_reconciler (seeded_ledger now)) in
    let gw =
      new_payment_gateway (some (demo_engine now)) (demo_authorizer coin slots keys.token_public)
        wal rec in
    record {
      gw = register_terminal_key "TERM-001" keys.terminal_public gw;
      token_auth = new_token_authority keys.token_public keys.token_private;
      terminal_priv_key = keys.terminal_private;
      terminal_pub_key = keys.terminal_public;
    }
