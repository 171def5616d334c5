-- ===== src/Standalone/Answers.antt =====
-- The reason codes and the payment responses of fs2601_all_in_one.go. The codes are strings.
use payment_risk_engine.Prelude.{String, ◌==◌, ◌||◌, Int64, if◌then◌else◌}
use payment_risk_engine.Telemetry.{Score}

abbrev pub code_approved : String
code_approved = "APPROVED"

abbrev pub code_revoked_account_edge : String
code_revoked_account_edge = "ERR_REVOKED_ACCOUNT_EDGE"

abbrev pub code_insufficient_funds : String
code_insufficient_funds = "INSUFFICIENT_FUNDS"

abbrev pub code_qr_mismatch : String
code_qr_mismatch = "QR_MISMATCH"

abbrev pub code_qr_tampering : String
code_qr_tampering = "ERR_QR_TAMPERING"

abbrev pub code_mule_ring_detected : String
code_mule_ring_detected = "MULE_RING_DETECTED"

abbrev pub code_floor_limit_exceeded : String
code_floor_limit_exceeded = "FLOOR_LIMIT_EXCEEDED"

abbrev pub code_offline_token_invalid : String
code_offline_token_invalid = "OFFLINE_TOKEN_INVALID"

abbrev pub code_duplicate_transaction : String
code_duplicate_transaction = "DUPLICATE_TRANSACTION"

abbrev pub code_recon_deficit_charged : String
code_recon_deficit_charged = "RECON_DEFICIT_CHARGED_TO_RESERVE"

abbrev pub iso_approved : String
iso_approved = "00"

abbrev pub iso_revoked_account_edge : String
iso_revoked_account_edge = "41"

abbrev pub iso_insufficient_funds : String
iso_insufficient_funds = "51"

abbrev pub iso_qr_mismatch : String
iso_qr_mismatch = "57"

abbrev pub iso_qr_tampering : String
iso_qr_tampering = "59"

abbrev pub iso_mule_ring_detected : String
iso_mule_ring_detected = "59"

abbrev pub iso_floor_limit_exceeded : String
iso_floor_limit_exceeded = "61"

abbrev pub iso_offline_token_invalid : String
iso_offline_token_invalid = "63"

abbrev pub iso_duplicate_transaction : String
iso_duplicate_transaction = "94"

abbrev pub iso_recon_deficit_charged : String
iso_recon_deficit_charged = "96"

abbrev pub iso_general_error : String
iso_general_error = "96"

abbrev pub account_deficit_reserve : String
account_deficit_reserve = "ACC_MERCHANT_DEFICIT_RESERVE"

-- `MaxSingleOfflineLimit`
abbrev pub max_single_offline_limit : Int64
max_single_offline_limit = 5000

-- `MapReasonToISO`
unfoldable pub map_reason_to_iso : String → String
map_reason_to_iso reason =
    if reason == code_approved
    then iso_approved
    else if reason == code_revoked_account_edge
    then iso_revoked_account_edge
    else if reason == code_insufficient_funds
    then iso_insufficient_funds
    else if reason == code_qr_mismatch
    then iso_qr_mismatch
    else if reason == code_qr_tampering || reason == code_mule_ring_detected
    then iso_qr_tampering
    else if reason == code_floor_limit_exceeded
    then iso_floor_limit_exceeded
    else if reason == code_offline_token_invalid
    then iso_offline_token_invalid
    else if reason == code_duplicate_transaction
    then iso_duplicate_transaction
    else if reason == code_recon_deficit_charged
    then iso_recon_deficit_charged
    else iso_general_error

pub record PaymentResponse : Type 0 where
  pub tx_id : String
  pub status : String
  pub reason_code : String
  pub iso8583 : String
  pub amount : Int64
  pub account_id : String
  pub fraud_score : Score
  pub message : String
  pub explanation : String
