-- ===== src/Fraud/Tests.antt =====
-- Runs of the screening of m3_graph_fraud.go, and the theorems about it at concrete inputs.
use payment_risk_engine.Prelude.{
  eqb, length, some, ◌↔◌, ◌≡◌, ◌*◌, refl, true, false, none, [], ◌∷◌, String, ℕ, arith, lookup,
  lt64,
}
use payment_risk_engine.Host.{Host, Bytes}
use payment_risk_engine.Fraud.{
  replicate, cycle_through, distinct_device_count, last_seen, recent_events, recent_seen,
  risk_score, transfers_of, velocity_score, TransactionEvent, GraphEngine, new_graph_engine,
  prune_expired_events, recent_transfer_count, screen_transaction, screen_graph, detect_cycle,
}
use payment_risk_engine.Fraud.Pruning.{screen_transaction-prune}
use payment_risk_engine.Fraud.Scoring.{velocity_refused}
use payment_risk_engine.Fraud.Cycles.{ClosesCycle, detect_cycle_iff, is_some}

abbrev host : Host
host = record {
  sha256 = λ text. [];
  hex_encode = λ bytes. "hash";
  hex_decode = λ text. none;
  sign = λ key message. [];
  hmac_sha256 = λ key message. [];
  verify = λ key message sig. true;
}

abbrev payment : String → String → ℕ → TransactionEvent
payment payer payee seconds = record {
  tx_id = "t";
  from_acc = payer;
  to_acc = payee;
  device_id = "phone";
  merchant_id = payee;
  ip_address = "";
  amount = 500;
  timestamp = seconds * 1000000000;
}

-- Alice paid Bob at second 10, and Bob paid Carol at second 20; two payments in the window reject.
abbrev graph : GraphEngine
graph = record (new_graph_engine 0 "secret") {
  account_transfers =
      ("alice", payment "alice" "bob" 10 ∷ []) ∷ ("bob", payment "bob" "carol" 20 ∷ []) ∷ [];
  account_devices = ("alice", ("phone", 10000000000) ∷ []) ∷ [];
  velocity_reject_threshold = 1;
}

screen_transaction-prune_example :
    (screen_transaction host
      (payment "alice" "dan" 90)
      none
      (record (prune_expired_events 75000000000 graph) { last_prune_time = 75000000000 })).0
    ≡ (screen_transaction host (payment "alice" "dan" 90) none graph).0
screen_transaction-prune_example =
    screen_transaction-prune host 75000000000 75000000000 (payment "alice" "dan" 90) none graph
      (omega arith)

alice_refused : (screen_transaction host (payment "alice" "dan" 30) none graph).0.approved ≡ false
unfolding lt64 recent_transfer_count recent_events transfers_of lookup
alice_refused = velocity_refused host (payment "alice" "dan" 30) none graph refl refl

-- Carol's payment to Alice closes the cycle Alice, Bob, Carol.
detect_cycle_iff_example :
    (is_some (detect_cycle "carol" "alice" 30000000000 graph) ≡ true)
    ↔ ClosesCycle 30000000000 graph "carol" "alice"
detect_cycle_iff_example = detect_cycle_iff "carol" "alice" 30000000000 graph refl refl

first_approved : (screen_graph (payment "dan" "erin" 30) graph).0.approved ≡ true
unfolding screen_graph detect_cycle cycle_through transfers_of lookup risk_score velocity_score lt64
    recent_transfer_count recent_events new_graph_engine distinct_device_count recent_seen last_seen
first_approved = refl

abbrev seal : Bytes
seal = replicate 64 7

-- Every signature is the seal, and every text decodes to it.
abbrev sealing : Host
sealing = record host {
  hex_decode = λ text. some seal;
  sign = λ key message. seal;
  verify = λ key message sig. eqb (length sig) 64;
}
