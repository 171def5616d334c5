-- ===== src/Telemetry.antt =====
-- The answers of m7_alerts.go: reason codes, ISO-8583 codes and payment responses.
use payment_risk_engine.Prelude.{ℕ, String, Bool, true, false, Int64, ◌≡◌, refl, eq_iff}
use mathlib.Core.Bool.{false≢true}

-- `ReasonCode`, the constants that the program uses.
pub data ReasonCode : Type 0 where
  code_approved code_insufficient_funds code_qr_mismatch code_mule_ring_detected : ReasonCode
  code_floor_limit_exceeded code_offline_token_invalid code_duplicate_transaction : ReasonCode
  code_settlement_deficit code_revoked_account_edge code_qr_tampering : ReasonCode
  code_recon_deficit_charged_to_reserve code_system_error : ReasonCode

-- `MapReasonToISO8583`
unfoldable pub map_reason_to_iso8583 : ReasonCode → String
map_reason_to_iso8583 code_approved = "00"
map_reason_to_iso8583 code_insufficient_funds = "51"
map_reason_to_iso8583 code_qr_mismatch = "57"
map_reason_to_iso8583 code_qr_tampering = "59"
map_reason_to_iso8583 code_mule_ring_detected = "59"
map_reason_to_iso8583 code_floor_limit_exceeded = "61"
map_reason_to_iso8583 code_offline_token_invalid = "63"
map_reason_to_iso8583 code_revoked_account_edge = "41"
map_reason_to_iso8583 code_duplicate_transaction = "94"
map_reason_to_iso8583 code_settlement_deficit = "96"
map_reason_to_iso8583 code_recon_deficit_charged_to_reserve = "96"
map_reason_to_iso8583 code_system_error = "05"

-- A fraud score, in hundredths.
abbrev pub Score : Type 0
Score = ℕ

pub record PaymentResponse : Type 0 where
  pub status : String
  pub reason_code : ReasonCode
  pub iso8583 : String
  pub message : String
  pub tx_id : String
  pub amount : Int64
  pub account_id : String
  pub fraud_score : Score
  pub is_offline : Bool
  pub offline_token_id : String

-- `NewApprovalResponse`
abbrev pub new_approval_response : String → String → Int64 → Score → PaymentResponse
new_approval_response tx_id account_id amount score = record {
  status = "APPROVED";
  reason_code = code_approved;
  iso8583 = "00";
  message = "Transaction authorized successfully.";
  tx_id = tx_id;
  amount = amount;
  account_id = account_id;
  fraud_score = score;
  is_offline = false;
  offline_token_id = "";
}

-- `NewOfflineApprovalResponse`
abbrev pub new_offline_approval_response : String → String → Int64 → String → PaymentResponse
new_offline_approval_response tx_id account_id amount token_id = record {
  status = "OFFLINE_AUTHORIZED";
  reason_code = code_approved;
  iso8583 = "00";
  message = "Transaction authorized offline against cryptographic floor limit.";
  tx_id = tx_id;
  amount = amount;
  account_id = account_id;
  fraud_score = 0;
  is_offline = true;
  offline_token_id = token_id;
}

-- `NewDeclineResponse`
abbrev pub new_decline_response : ReasonCode → String → Score → PaymentResponse
new_decline_response code message score = record {
  status = "DECLINED";
  reason_code = code;
  iso8583 = map_reason_to_iso8583 code;
  message = message;
  tx_id = "";
  amount = 0;
  account_id = "";
  fraud_score = score;
  is_offline = false;
  offline_token_id = "";
}

-- Only an approval carries the code of one.
pub map_reason_to_iso8583-approved :
    (code : ReasonCode) → map_reason_to_iso8583 code ≡ "00" → code ≡ code_approved
unfolding map_reason_to_iso8583
map_reason_to_iso8583-approved code_approved e = refl
map_reason_to_iso8583-approved code h =
    absurd (false≢true ((eq_iff (map_reason_to_iso8583 code) "00").1 h))
