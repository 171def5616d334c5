-- ===== src/Edge/Queue.antt =====
-- `QueuedTransaction` of m5_local_store.go and its hash.
use payment_risk_engine.Prelude.{ℕ, String, Map, Int64, ◌⧺◌, decimal, decimal_unsigned}
use payment_risk_engine.Host.{Host}

pub record QueuedTransaction : Type 0 where
  pub tx_id : String
  pub client_timestamp : Int64
  pub sequence_num : Int64
  pub seq_no : ℕ  -- uint64
  pub vector_clock : Map ℕ  -- of uint64; the nil map is the empty one
  pub token_id : String
  pub account_id : String
  pub merchant_id : String
  pub terminal_id : String
  pub amount : Int64
  pub signature : String
  pub status : String
  pub payload_hash : String

-- The text that `ComputeHash` hashes.
unfoldable pub hash_input : QueuedTransaction → String
hash_input tx =
    tx.tx_id
    ⧺ ":"
    ⧺ decimal tx.client_timestamp
    ⧺ ":"
    ⧺ decimal tx.sequence_num
    ⧺ ":"
    ⧺ decimal_unsigned tx.seq_no
    ⧺ ":"
    ⧺ tx.token_id
    ⧺ ":"
    ⧺ tx.account_id
    ⧺ ":"
    ⧺ tx.merchant_id
    ⧺ ":"
    ⧺ decimal tx.amount

-- `ComputeHash`
unfoldable pub compute_hash : Host → QueuedTransaction → String
compute_hash host tx = host.hex_encode (host.sha256 (hash_input tx))
