-- ===== src/Standalone/Paying.antt =====
-- The gateway of fs2601_all_in_one.go: `Gateway` and `ProcessPayment`.
use payment_risk_engine.Prelude.{
  ℕ, zero, suc, ◌/◌, ◌%◌, String, not, ◌==◌, [], Option, none, some, Int64, eqb, ltb, lt64, ◌⧺◌,
  decimal, if◌then◌else◌,
}
use payment_risk_engine.Host.{Host}
use payment_risk_engine.Telemetry.{Score}
use payment_risk_engine.Fraud.{Instant}
use payment_risk_engine.Standalone.Answers.{
  PaymentResponse, max_single_offline_limit, code_approved, code_revoked_account_edge,
  code_floor_limit_exceeded, code_insufficient_funds, iso_approved, iso_revoked_account_edge,
  iso_floor_limit_exceeded, iso_insufficient_funds,
}
use payment_risk_engine.Standalone.Accounts.{ConservingLedger}
use payment_risk_engine.Standalone.Transfers.{direct_commit}
use payment_risk_engine.Standalone.Filter.{CompactFilter, contains}
use payment_risk_engine.Standalone.Codes.{DynamicQrPayload}
use payment_risk_engine.Standalone.Screening.{GraphEngine, screen}
use payment_risk_engine.Standalone.Wal.{QueuedTx, Marshal, LocalWal, append}

-- What one request takes from outside: the cryptography, JSON, the clock in nanoseconds, and how the
-- write of the log goes.
pub record Ambient : Type 0 where
  pub host : Host
  pub marshal : Marshal
  pub now : Instant
  pub torn : Option ℕ

-- The decoded body. A text that is missing, or is no string, is the empty text; `amount_float` is
-- the number `int64(amtFloat)`, 0 where there is none; `amount_int` is an amount that is an int64. The
-- texts of the QR code are what `%v` prints, and its salt is 0 where it is no number.
pub record PayRequest : Type 0 where
  pub tx_id : String
  pub account_id : String
  pub merchant_id : String
  pub amount_float : Int64
  pub amount_int : Option Int64
  pub dynamic_qr : Option DynamicQrPayload

-- The reconciler, which is the ledger, and the unused cache and keys are left out.
pub record Gateway : Type 0 where
  pub ledger : ConservingLedger
  pub fraud : GraphEngine
  pub wal : LocalWal
  pub cuckoo : CompactFilter
  pub network : String

-- `NewGateway`
abbrev pub new_gateway : ConservingLedger → GraphEngine → LocalWal → CompactFilter → Gateway
new_gateway l f w cf = record { ledger = l; fraud = f; wal = w; cuckoo = cf; network = "ONLINE" }

abbrev hex_digit : ℕ → String
hex_digit d =
    if ltb d 10
    then decimal d
    else if eqb d 10
    then "a"
    else if eqb d 11
    then "b"
    else if eqb d 12
    then "c"
    else if eqb d 13
    then "d"
    else if eqb d 14
    then "e"
    else "f"

hex_digits : ℕ → ℕ → String → String
hex_digits zero n rest = rest
hex_digits (suc fuel) n rest =
    let more = hex_digits fuel (n / 16) (hex_digit (n % 16) ⧺ rest) in
    if ltb n 16 then hex_digit n ⧺ rest else more

-- `%x` of a time in nanoseconds after 1970: 16 digits at most.
unfoldable pub hexadecimal : ℕ → String
unfolding hex_digits
hexadecimal n = hex_digits 16 n ""

abbrev pub tx_id_of : Instant → PayRequest → String
tx_id_of now req = if req.tx_id == "" then "TX-" ⧺ hexadecimal now else req.tx_id

abbrev pub amount_of : PayRequest → Int64
amount_of req =
    if eqb req.amount_float 0
    then (elim req.amount_int [ none ↦ req.amount_float | some a ↦ a ])
    else req.amount_float

abbrev pub answer :
    Ambient → PayRequest → String → String → String → Score → String → PaymentResponse
answer a req status reason iso score message = record {
  tx_id = tx_id_of a.now req;
  status = status;
  reason_code = reason;
  iso8583 = iso;
  amount = amount_of req;
  account_id = req.account_id;
  fraud_score = score;
  message = message;
  explanation = "";
}

abbrev pub queued : Ambient → PayRequest → QueuedTx
queued a req = record {
  tx_id = tx_id_of a.now req;
  account_id = req.account_id;
  merchant_id = req.merchant_id;
  terminal_id = "";
  amount = amount_of req;
  seq_no = 0;
  vector_clock = [];
  client_timestamp = a.now;
  status = "PENDING";
}

-- The path without a network; the error of the log is ignored. `none` is a panic of the filter.
unfoldable pub pay_offline : Ambient → PayRequest → Gateway → Option (PaymentResponse × Gateway)
pay_offline a req gw = elim (contains req.account_id gw.cuckoo) [
  | none ↦ none
  | some revoked ↦
      if revoked
      then some (
        answer a req "DECLINED" code_revoked_account_edge iso_revoked_account_edge 0
            "Account card revoked at edge.",
        gw,
      )
      else if lt64 max_single_offline_limit (amount_of req)
      then some (
        answer a req "DECLINED" code_floor_limit_exceeded iso_floor_limit_exceeded 0
            "Amount exceeds offline floor limit.",
        gw,
      )
      else some (
        answer a req "OFFLINE_AUTHORIZED" code_approved iso_approved 0
            "Offline payment authorized at edge.",
        record gw { wal = (append a.marshal a.torn (queued a req) gw.wal).1 },
      )
]

abbrev pub settled : Ambient → PayRequest → Score → Gateway → PaymentResponse × Gateway
settled a req score gw =
    let (err, l) =
      direct_commit a.now req.account_id req.merchant_id (amount_of req) (tx_id_of a.now req)
        gw.ledger in
    elim err [
      | some e ↦ (
        answer a req "DECLINED" code_insufficient_funds iso_insufficient_funds 0
            "Insufficient online funds.",
        gw,
      )
      | none ↦ (
        answer a req "APPROVED" code_approved iso_approved score
            "Transaction authorized successfully.",
        record gw { ledger = l },
      )
    ]

-- The path with a network.
unfoldable pub pay_online : Ambient → PayRequest → Gateway → PaymentResponse × Gateway
pay_online a req gw =
    let (verdict, fe) =
      screen a.host a.now req.account_id req.merchant_id req.dynamic_qr gw.fraud in
    let (approved, reason, iso, score) = verdict in
    let screened = record gw { fraud = fe } in
    if not approved
    then (
      answer a req "DECLINED" reason iso score "Transaction declined by inline risk screening.",
      screened,
    )
    else settled a req score screened

-- `ProcessPayment`
unfoldable pub process_payment : Ambient → PayRequest → Gateway → Option (PaymentResponse × Gateway)
process_payment a req gw =
    if gw.network == "DISCONNECTED" then pay_offline a req gw else some (pay_online a req gw)
