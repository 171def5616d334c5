-- ===== src/Gateway/Tests.antt =====
-- Runs of the gateway of m1_api.go, and the theorems about it at concrete inputs.
use payment_risk_engine.Prelude.{
  adjust, lt64, decimal, if◌then◌else◌, ◌≡◌, refl, true, none, some, [], ◌∷◌, arith, lookup, Option,
  ◌==◌, eqb, length, sub64, add64,
}
use payment_risk_engine.Host.{Bytes}
use payment_risk_engine.Telemetry.{PaymentResponse, new_approval_response}
use payment_risk_engine.Ledger.{
  create_account, on_account, settle, debit_reserved, credit_online, append_entry,
  online_to_reserved, commit_hold, online_to_reserved, reserve_funds, ConservingLedger, new_account,
  deficit_reserve_name,
}
use payment_risk_engine.Ledger.Solvency.{IsSolvent}
use payment_risk_engine.Edge.{
  approval, authorize_offline, check_amount, check_signature, check_token, revoked, spent,
  OfflineAuthorizationToken, new_edge_authorizer, written, header_torn, WalStore, append,
  header_failed,
}
use payment_risk_engine.Edge.Granting.{IsGenuine}
use payment_risk_engine.Fraud.{
  distinct_device_count, last_seen, prune_expired_events, prune_keys, recent_events, recent_seen,
  recent_transfer_count, risk_score, velocity_score, cycle_through, detect_cycle, prune_if_due,
  screen_graph, screen_transaction, transfers_of, new_graph_engine, replicate,
}
use payment_risk_engine.Gateway.{
  follow_decision, queue_payment, queued_transaction, cached_response, check_request_qr,
  fill_request, handle_online_payment, handle_payment, process_fresh, settle_screened, settle_hold,
  Ambient, PaymentRequest, PaymentGateway, new_payment_gateway, settle_online,
  handle_offline_payment, process_payment, count_request,
}
use payment_risk_engine.Gateway.Transfer.{online_of, settle_online_moves}
use payment_risk_engine.Gateway.Steps.{ledger_after}
use payment_risk_engine.Gateway.Money.{process_payment-IsSolvent}
use payment_risk_engine.Gateway.Idempotency.{gateway_after, serve, process_payment_again}
use payment_risk_engine.Gateway.Partition.{IsQueued, handle_offline_payment-IsQueued}

abbrev seal : Bytes
seal = replicate 64 7

abbrev ambient : Ambient
ambient = record {
  host = record {
    sha256 = λ text. [];
    hex_encode = λ bytes. "seal";
    hex_decode = λ text. if text == "seal" then some seal else none;
    sign = λ key message. seal;
    hmac_sha256 = λ key message. [];
    verify = λ key message sig. eqb (length sig) 64;
  };
  codec = record { marshal = λ tx. some (1 ∷ []); unmarshal = λ bytes. none };
  now = 50000000000;
  random_bytes = [];
  wal_outcome = written;
  os_error = "";
}

abbrev book : ConservingLedger
book = record {
  accounts =
      ("alice", new_account 1 "alice" 100)
      ∷ ("shop", new_account 1 "shop" 5)
      ∷ (deficit_reserve_name, new_account 1 deficit_reserve_name 50)
      ∷ [];
  reservations = [];
  entries = [];
  entry_counter = 0;
  escrow_account_id = "SYSTEM_ESCROW";
  clearing_account_id = "SYSTEM_CLEARING";
  deficit_reserve_account_id = deficit_reserve_name;
  account_deficit_reserve = deficit_reserve_name;
}

-- The token is Bob's.
abbrev token : OfflineAuthorizationToken
token = record {
  token_id = "TOK-bob-1-1";
  account_id = "bob";
  max_floor_amount = 3000;
  expiration_time = 100;
  terminal_id = "*";
  sequence_counter = 1;
  signature = "seal";
}

abbrev empty_log : WalStore
empty_log = record { file = []; tx_map = []; order = []; seq_number = 0 }

abbrev gateway : PaymentGateway
gateway =
    new_payment_gateway (some (new_graph_engine 0 "secret")) (new_edge_authorizer (1 ∷ []) "POS-1")
      empty_log
      (record { ledger = book; seen_hashes = []; deficit_logs = []; use_deficit_reserve = true })

-- Alice pays 60 cents, with Bob's token.
abbrev request : PaymentRequest
request = record {
  idempotency_key = "key";
  tx_id = "t1";
  account_id = "alice";
  merchant_id = "shop";
  terminal_id = "POS-1";
  amount = 60;
  device_id = "phone";
  ip_address = "";
  client_timestamp = 50;
  qr_payload = none;
  dynamic_qr = none;
  offline_token = some token;
  vector_clock = [];
  seq_no = 1;
}

book-IsSolvent : IsSolvent book
book-IsSolvent = omega arith

settle_online_moves_example :
    (online_of "alice" (settle_online 9 request 0 book).1 ≡ sub64 100 60)
    × (online_of "shop" (settle_online 9 request 0 book).1 ≡ add64 5 60)
unfolding settle_online reserve_funds lt64 lookup settle_hold commit_hold adjust online_to_reserved
settle_online_moves_example =
    settle_online_moves 9 request 0 book book-IsSolvent refl refl (omega arith) refl

process_payment-IsSolvent_example :
    IsSolvent (ledger_after gateway (process_payment ambient request gateway))
unfolding new_payment_gateway
process_payment-IsSolvent_example =
    process_payment-IsSolvent ambient request gateway refl (omega arith) book-IsSolvent

-- The answer to the request, and the gateway after it.
abbrev paid : PaymentGateway
paid = gateway_after gateway (process_payment ambient request gateway)

first_payment :
    process_payment ambient request gateway ≡ some (new_approval_response "t1" "alice" 60 5, paid)
unfolding process_payment cached_response lookup new_payment_gateway process_fresh check_request_qr
    fill_request handle_payment count_request handle_online_payment settle_screened
    screen_transaction screen_graph detect_cycle cycle_through transfers_of prune_if_due
    new_graph_engine prune_expired_events prune_keys risk_score velocity_score lt64
    recent_transfer_count recent_events distinct_device_count recent_seen last_seen settle_online
    reserve_funds settle_hold commit_hold adjust create_account on_account settle debit_reserved
    credit_online append_entry online_to_reserved decimal
first_payment = refl

-- A second request under the key asks for another amount, after another payment.
process_payment_again_example :
    process_payment ambient
      (record request { amount = 7 })
      (serve ((ambient, record request { idempotency_key = "other" }) ∷ []) paid)
    ≡ some (
      new_approval_response "t1" "alice" 60 5,
      count_request (serve ((ambient, record request { idempotency_key = "other" }) ∷ []) paid),
    )
process_payment_again_example =
    process_payment_again ambient ambient request (record request { amount = 7 })
      ((ambient, record request { idempotency_key = "other" }) ∷ [])
      (new_approval_response "t1" "alice" 60 5) gateway paid refl refl first_payment

genuine : IsGenuine ambient.host 50 token 60 gateway.edge_authorizer
unfolding revoked new_payment_gateway new_edge_authorizer lt64 spent lookup
genuine = record {
  unrevoked = refl;
  unexpired = refl;
  here = refl;
  signed = record { sig = seal; decoded = refl; sized = refl; verified = refl };
  in_floor = refl;
  in_limit = refl;
  in_allowance = refl;
}

-- What the run of a request leaves, with its answer.
abbrev offline_result : Option (PaymentResponse × PaymentGateway) → PaymentResponse × PaymentGateway
offline_result none = (new_approval_response "" "" 0 0, gateway)
offline_result (some r) = r

-- Alice's account and Bob's token: nothing compares them.
abbrev queued : PaymentResponse × PaymentGateway
queued = offline_result (handle_offline_payment ambient request gateway)

queued_runs : handle_offline_payment ambient request gateway ≡ some queued
unfolding handle_offline_payment authorize_offline revoked new_payment_gateway new_edge_authorizer
    check_token lt64 check_signature check_amount spent lookup
queued_runs = refl

queued_authorized : queued.0.status ≡ "OFFLINE_AUTHORIZED"
unfolding handle_offline_payment authorize_offline revoked new_payment_gateway new_edge_authorizer
    check_token lt64 check_signature check_amount spent lookup follow_decision approval
    queue_payment append
queued_authorized = refl

handle_offline_payment-IsQueued_example : IsQueued ambient request gateway queued.1
handle_offline_payment-IsQueued_example =
    handle_offline_payment-IsQueued ambient request queued.0 gateway queued.1 queued_runs
      queued_authorized

abbrev full_disk : Ambient
full_disk = record ambient { wal_outcome = header_torn 3 }

abbrev lost : PaymentResponse × PaymentGateway
lost = offline_result (handle_offline_payment full_disk request gateway)

lost_runs : handle_offline_payment full_disk request gateway ≡ some lost
unfolding handle_offline_payment authorize_offline revoked new_payment_gateway new_edge_authorizer
    check_token lt64 check_signature check_amount spent lookup
lost_runs = refl

lost_error :
    (append full_disk.host full_disk.codec full_disk.wal_outcome
      (queued_transaction full_disk.host request token 1)
      empty_log).0
    ≡ some header_failed
unfolding append lookup
lost_error = refl
