-- ===== src/Server/Tests.antt =====
-- A run of the server of cmd/server/main.go, and the theorem about it at a concrete input.
use payment_risk_engine.Server.Totals.{total, opening}
use payment_risk_engine.Server.Conserved.{Reach-total, here, next, open_account, revoke, set_aside}
use payment_risk_engine.Prelude.{
  if◌then◌else◌, ◌≡◌, refl, true, none, some, [], ◌∷◌, arith, Option, ◌==◌, eqb, length, add64,
}
use payment_risk_engine.Telemetry.{code_revoked_account_edge, new_decline_response}
use payment_risk_engine.Ledger.{new_conserving_ledger}
use payment_risk_engine.Edge.{
  OfflineAuthorizationToken, new_edge_authorizer, set_revocation_filter, new_token_authority,
  written,
}
use payment_risk_engine.Reconcile.{new_reconciler}
use payment_risk_engine.Fraud.{
  count_of, first_index, hash64, insert_into_bucket, insert_key, masked, CompactFilter,
  empty_bucket,
}
use payment_risk_engine.Fraud.Placing.{IsFilter}
use payment_risk_engine.Gateway.{
  Ambient, PaymentRequest, new_payment_gateway, handle_offline_payment,
}
use payment_risk_engine.Server.{
  Server, Reply, ok, revocation, handle_revocation_add, CreateRequest, handle_create_account,
  handle_allocate_allowance,
}
use payment_risk_engine.Server.Revoking.{revoked_account_declined}

abbrev ambient : Ambient
ambient = record {
  host = record {
    sha256 = λ text. [];
    hex_encode = λ bytes. "seal";
    hex_decode = λ text. if text == "seal" then some [] else none;
    sign = λ key message. [];
    hmac_sha256 = λ key message. [];
    verify = λ key message sig. eqb (length sig) 64;
  };
  codec = record { marshal = λ tx. some (1 ∷ []); unmarshal = λ bytes. none };
  now = 50000000000;
  random_bytes = [];
  wal_outcome = written;
  os_error = "";
}

abbrev filter : CompactFilter
filter = record { buckets = empty_bucket ∷ empty_bucket ∷ []; num_buckets = 2; count = 0 }

filter-IsFilter : IsFilter filter
filter-IsFilter = record { bits = 1; small = omega arith; sized = refl; whole = refl }

abbrev server : Server
server = record {
  gw =
      new_payment_gateway none (set_revocation_filter filter (new_edge_authorizer [] "TERM-001"))
        (record { file = []; tx_map = []; order = []; seq_number = 0 })
        (new_reconciler (new_conserving_ledger 1));
  token_auth = new_token_authority [] [];
  terminal_priv_key = [];
  terminal_pub_key = [];
}

abbrev token : OfflineAuthorizationToken
token = record {
  token_id = "TOK-bob-1-1";
  account_id = "bob";
  max_floor_amount = 3000;
  expiration_time = 100;
  terminal_id = "*";
  sequence_counter = 1;
  signature = "seal";
}

abbrev request : PaymentRequest
request = record {
  idempotency_key = "key";
  tx_id = "t1";
  account_id = "bob";
  merchant_id = "shop";
  terminal_id = "TERM-001";
  amount = 60;
  device_id = "phone";
  ip_address = "";
  client_timestamp = 50;
  qr_payload = none;
  dynamic_qr = none;
  offline_token = some token;
  vector_clock = [];
  seq_no = 1;
}

abbrev result : Option (Reply × Server) → Server
result none = server
result (some (reply, s)) = s

-- The server after the revocation of Bob.
abbrev revoked_server : Server
revoked_server = result (handle_revocation_add true [] (some "bob") server)

bob_revoked :
    handle_revocation_add true [] (some "bob") server
    ≡ some (ok (revocation "bob" true 1), revoked_server)
unfolding handle_revocation_add new_payment_gateway set_revocation_filter insert_key
    insert_into_bucket first_index masked hash64 count_of
bob_revoked = refl

server_filter : server.gw.edge_authorizer.revocation_filter ≡ some filter
unfolding new_payment_gateway set_revocation_filter
server_filter = refl

abbrev carol : CreateRequest
carol = record { account_id = "carol"; balance = 500; offline_allowance = 200 }

abbrev opened_server : Server
opened_server = (handle_create_account 5 (some carol) server).1

abbrev busy_server : Server
busy_server = (handle_allocate_allowance 6 (some ("carol", 100)) opened_server).1

-- Bob is revoked, Carol's account is opened, and Dave is revoked.
abbrev revoked_both : Server
revoked_both = result (
    handle_revocation_add true [] (some "dave")
      (handle_create_account 7 (some carol) revoked_server).1)

dave_revoked :
    handle_revocation_add true []
      (some "dave")
      (handle_create_account 7 (some carol) revoked_server).1
    ≡ some (ok (revocation "dave" true 2), revoked_both)
unfolding handle_revocation_add handle_create_account new_payment_gateway set_revocation_filter
    insert_key insert_into_bucket first_index masked hash64 count_of
dave_revoked = refl

revoked_account_declined_example :
    handle_offline_payment ambient request revoked_both.gw
    ≡ some (
      new_decline_response code_revoked_account_edge
          "Account or card token revoked at edge (Lost/Stolen Card)." 0,
      revoked_both.gw,
    )
revoked_account_declined_example =
    revoked_account_declined ambient true [] server revoked_server revoked_both filter 1
      (add64 (add64 0 (opening revoked_server (some carol))) 0) request token server_filter
      filter-IsFilter bob_revoked
      (next (next here (open_account 7 (some carol)))
        (revoke true [] (some "dave") (ok (revocation "dave" true 2)) revoked_both dave_revoked))
      ((tt, tt), ("dave", 2, refl, refl)) refl

Reach-total_example :
    total busy_server ≡ add64 (total server) (add64 (add64 0 (opening server (some carol))) 0)
Reach-total_example =
    Reach-total (next (next here (open_account 5 (some carol))) (set_aside 6 (some ("carol", 100))))
