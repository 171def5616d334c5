-- ===== src/Fraud/Screening.antt =====
-- `ScreenTransaction` of m3_graph_fraud.go, and the checks of QR payloads.
use payment_risk_engine.Prelude.{
  ℕ, ◌+◌, ◌/◌, String, Bool, true, false, not, ◌&&◌, ◌==◌, List, [], ◌∷◌, ◌++◌, Option, none, some,
  Map, lookup, insert, ltb, leb, Int64, lt64, le64, ◌⧺◌, decimal, if◌then◌else◌,
}
use payment_risk_engine.Host.{Host}
use payment_risk_engine.Telemetry.{
  ReasonCode, code_approved, code_qr_mismatch, code_mule_ring_detected, map_reason_to_iso8583,
  Score,
}
use payment_risk_engine.Fraud.Qr.{DynamicQrPayload, verify_dynamic_qr}
use payment_risk_engine.Fraud.Graph.{
  Instant, prune_interval, TransactionEvent, GraphEngine, transfers_of, last_seen, is_recent,
  prune_expired_events, recent_transfer_count, distinct_device_count,
}

-- `FraudScoreThreshold`, 0.75; scores are hundredths.
abbrev pub fraud_score_threshold : Score
fraud_score_threshold = 75

pub record QrPayload : Type 0 where
  pub terminal_id : String
  pub merchant_id : String
  pub dynamic_nonce : String
  pub amount : Int64
  pub signature : String

pub record FraudDecision : Type 0 where
  pub approved : Bool
  pub reason_code : ReasonCode
  pub iso8583 : String
  pub fraud_score : Score
  pub explanation : String

-- `VerifyDynamicQRPayload`, at a time in seconds.
unfoldable pub verify_dynamic_qr_payload :
    Host → Int64 → Option DynamicQrPayload → String → GraphEngine → Bool × String
verify_dynamic_qr_payload host now none expected g = (true, "")
verify_dynamic_qr_payload host now (some qr) expected g =
    if not (expected == "") && not (qr.merchant_id == expected)
    then (false, "Merchant ID mismatch: expected " ⧺ expected ⧺ ", got " ⧺ qr.merchant_id)
    else elim (lookup qr.terminal_id g.terminal_pub_keys) [
      | none ↦
          (false, "Terminal " ⧺ qr.terminal_id ⧺ " is not registered with an Ed25519 public key")
      | some key ↦ verify_dynamic_qr host now qr key
    ]

-- `GenerateQRSignature`
unfoldable pub generate_qr_signature :
    Host → String → String → String → Int64 → GraphEngine → String
generate_qr_signature host terminal merchant nonce amount g =
    host.hex_encode (
      host.hmac_sha256 g.secret_key
        (terminal ⧺ ":" ⧺ merchant ⧺ ":" ⧺ nonce ⧺ ":" ⧺ decimal amount))

-- `VerifyQR` of a payload that is there; `none` passes, or the reason why not.
unfoldable pub verify_qr : Host → QrPayload → GraphEngine → Option String
verify_qr host qr g =
    let sig =
      generate_qr_signature host qr.terminal_id qr.merchant_id qr.dynamic_nonce qr.amount g in
    let signed =
      if qr.signature == sig
      then none
      else some "QR dynamic hash signature mismatch: tampered sticker or spoofed terminal" in
    elim (lookup qr.terminal_id g.terminal_to_merch) [
      | none ↦ signed
      | some merchant ↦
          if merchant == qr.merchant_id
          then signed
          else some
              ("Terminal " ⧺ qr.terminal_id ⧺ " is not registered to Merchant " ⧺ qr.merchant_id)
    ]

-- The inner loop of `detectCycleBFS`: whether a recent event goes back to the account.
unfoldable pub returns_to : String → Instant → List TransactionEvent → Bool
returns_to account now [] = false
returns_to account now (e ∷ events) =
    let others = returns_to account now events in
    if is_recent now e.timestamp && (e.to_acc == account) then true else others

-- The outer loop: the cycle that it finds first.
unfoldable pub cycle_through :
    String → String → Instant → List TransactionEvent → GraphEngine → Option String
cycle_through from to now [] g = none
cycle_through from to now (e ∷ events) g =
    let others = cycle_through from to now events g in
    if is_recent now e.timestamp
    then (if e.to_acc == from
        then some (from ⧺ " -> " ⧺ to ⧺ " -> " ⧺ from ⧺ " (Direct Cycle)")
        else if returns_to from now (transfers_of e.to_acc g)
        then some (from ⧺ " -> " ⧺ to ⧺ " -> " ⧺ e.to_acc ⧺ " -> " ⧺ from ⧺ " (2-Hop Mule Cycle)")
        else others)
    else others

-- `detectCycleBFS`; `none` is false.
unfoldable pub detect_cycle : String → String → Instant → GraphEngine → Option String
detect_cycle from to now g =
    if to == ""
    then none
    else if from == to
    then none
    else cycle_through from to now (transfers_of to g) g

-- What the velocity adds to the score.
unfoldable pub velocity_score : ℕ → GraphEngine → Score
velocity_score count g =
    if lt64 0 g.velocity_reject_threshold && le64 g.velocity_reject_threshold count
    then 80
    else if lt64 0 g.velocity_warn_threshold && le64 g.velocity_warn_threshold count
    then 50
    else if lt64 1 g.velocity_warn_threshold && le64 (g.velocity_warn_threshold / 2) count
    then 20
    else 0

-- The whole score: noise, velocity, devices, and a high value, capped.
unfoldable pub risk_score : ℕ → ℕ → Int64 → GraphEngine → Score
risk_score velocity devices amount g =
    let score =
      5
      + velocity_score velocity g
      + (if leb 3 devices then 35 else 0)
      + (if lt64 500000 amount then 15 else 0) in
    if ltb 100 score then 100 else score

abbrev pub fraud_refusal : ReasonCode → Score → String → FraudDecision
fraud_refusal code score explanation = record {
  approved = false;
  reason_code = code;
  iso8583 = map_reason_to_iso8583 code;
  fraud_score = score;
  explanation = explanation;
}

abbrev pub fraud_approval : Score → FraudDecision
fraud_approval score = record {
  approved = true;
  reason_code = code_approved;
  iso8583 = map_reason_to_iso8583 code_approved;
  fraud_score = score;
  explanation = "Inline screening passed.";
}

abbrev pub see : String → String → Instant → Map (Map Instant) → Map (Map Instant)
see account item now m =
    if item == "" then m else insert account (insert item now (last_seen account m)) m

-- An approved event in the graph.
unfoldable pub record_event : TransactionEvent → GraphEngine → GraphEngine
record_event e g = record g {
  account_transfers = insert e.from_acc (transfers_of e.from_acc g ++ e ∷ []) g.account_transfers;
  account_devices = see e.from_acc e.device_id e.timestamp g.account_devices;
  account_ips = see e.from_acc e.ip_address e.timestamp g.account_ips;
}

-- The periodic pruning.
unfoldable pub prune_if_due : Instant → GraphEngine → GraphEngine
prune_if_due now g =
    if ltb (g.last_prune_time + prune_interval) now
    then record (prune_expired_events now g) { last_prune_time = now }
    else g

-- Steps 2 to 4: the cycle, the score, and the record of what is approved.
unfoldable pub screen_graph : TransactionEvent → GraphEngine → FraudDecision × GraphEngine
screen_graph e g =
    let velocity = recent_transfer_count e.from_acc e.timestamp g in
    let score = risk_score velocity (distinct_device_count e.from_acc e.timestamp g) e.amount g in
    elim (detect_cycle e.from_acc e.to_acc e.timestamp g) [
      | some path ↦ (
        fraud_refusal code_mule_ring_detected 95 ("Cyclic mule transfer pattern detected: " ⧺ path),
        g,
      )
      | none ↦
          if leb fraud_score_threshold score
          then (
            fraud_refusal code_mule_ring_detected score (
                "High velocity cyclic transfer suspected: "
                ⧺ decimal velocity
                ⧺ " transfers in 60s"),
            g,
          )
          else (fraud_approval score, record_event e g)
    ]

abbrev pub check_qr : Host → Option QrPayload → GraphEngine → Option String
check_qr host none g = none
check_qr host (some qr) g = verify_qr host qr g

-- `ScreenTransaction`; the arguments but the QR payload make the event, its time the clock's.
unfoldable pub screen_transaction :
    Host → TransactionEvent → Option QrPayload → GraphEngine → FraudDecision × GraphEngine
screen_transaction host e qr g = elim (check_qr host qr g) [
  | some msg ↦ (fraud_refusal code_qr_mismatch 100 ("QR Tampering Detected: " ⧺ msg), g)
  | none ↦ screen_graph e (prune_if_due e.timestamp g)
]
