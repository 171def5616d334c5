-- ===== src/Edge/Tests.antt =====
-- Runs of the write-ahead log of m5_local_store.go, and the theorems about it at concrete inputs.
use payment_risk_engine.Edge.Unreadable.{open_wal_store_unreadable}
use payment_risk_engine.Prelude.{
  put_be, ◌≡◌, refl, true, insert, ◌%◌, none, some, [], ◌∷◌, ◌++◌, String, arith, lookup, take,
}
use payment_risk_engine.Host.{Host, Bytes}
use payment_risk_engine.Edge.{
  QueuedTransaction, Codec, WalStore, zero_transaction, new_wal_store, frame_header, restore,
  read_frame, written, append, update_status, read_all_pending, open_wal_store, payload_unreadable,
}
use payment_risk_engine.Edge.Frames.{Frame, IsWhole, frame_bytes, read_frame_whole, read_frame_torn}
use payment_risk_engine.Edge.Recovery.{log_bytes, recovered, new_wal_store_recovers}
use payment_risk_engine.Edge.Durability.{IsDurable, CanAppend, append-IsDurable}

-- A codec for coffees, which differ in their price alone.
abbrev coffee : String → Bytes → QueuedTransaction
coffee id (price ∷ []) = record zero_transaction {
  tx_id = id;
  account_id = "alice";
  merchant_id = "shop";
  amount = price;
  status = "PENDING";
  payload_hash = "hashed";
}
coffee id other = zero_transaction

abbrev coffees : String → Codec
coffees id = record {
  marshal = λ tx. some (tx.amount % 256 ∷ []);
  unmarshal = λ bytes. some (coffee id bytes);
}

abbrev host : Host
host = record {
  sha256 = λ text. [];
  hex_encode = λ bytes. "hashed";
  hex_decode = λ text. none;
  sign = λ key message. [];
  hmac_sha256 = λ key message. [];
  verify = λ key message sig. true;
}

abbrev paid : Frame
paid = record { seq = 1; tx = coffee "t1" (7 ∷ []); payload = 7 ∷ [] }

paid-IsWhole : IsWhole (coffees "t1") paid
paid-IsWhole = record { seq_fits = omega arith; size_fits = omega arith; decodes = refl }

abbrev empty_log : WalStore
empty_log = recovered []

empty_log-IsDurable : IsDurable (coffees "t1") empty_log
empty_log-IsDurable = record { frames = []; whole = tt; agrees = refl }

abbrev one_log : WalStore
one_log = recovered (paid ∷ [])

one_log-IsDurable : IsDurable (coffees "t1") one_log
one_log-IsDurable = record { frames = paid ∷ []; whole = (paid-IsWhole, tt); agrees = refl }

abbrev next_coffee : QueuedTransaction
next_coffee = coffee "t1" (9 ∷ [])

can_append : CanAppend host (coffees "t1") next_coffee empty_log
unfolding lookup
can_append = record {
  payload = 9 ∷ [];
  fresh = refl;
  encodes = refl;
  decodes = refl;
  size_fits = omega arith;
  seq_fits = omega arith;
}

read_frame_whole_example :
    read_frame (coffees "t1") (frame_bytes paid ++ (1 ∷ 2 ∷ []))
    ≡ some (1, coffee "t1" (7 ∷ []), 1 ∷ 2 ∷ [])
read_frame_whole_example = read_frame_whole (coffees "t1") paid paid-IsWhole (1 ∷ 2 ∷ [])

new_wal_store_recovers_example :
    new_wal_store (coffees "t1") (log_bytes (paid ∷ []) ++ take 20 (frame_bytes paid)) ≡ one_log
unfolding frame_header put_be
new_wal_store_recovers_example =
    new_wal_store_recovers (coffees "t1") (paid ∷ []) (take 20 (frame_bytes paid))
      (paid-IsWhole, tt) (read_frame_torn (coffees "t1") paid paid-IsWhole 20 (omega arith))

append-IsDurable_example :
    IsDurable (coffees "t1") (append host (coffees "t1") written next_coffee empty_log).1
append-IsDurable_example =
    append-IsDurable host (coffees "t1") next_coffee empty_log empty_log-IsDurable can_append

-- In memory the transaction is no longer pending.
marked : read_all_pending (update_status "t1" "RECONCILED" one_log) ≡ []
unfolding read_all_pending update_status lookup restore insert
marked = refl

-- The second frame is whole, and it is lost.
open_wal_store_unreadable_example :
    open_wal_store (payload_unreadable 1) (coffees "t1") (log_bytes (paid ∷ []) ++ frame_bytes paid)
    ≡ (some (recovered (paid ∷ [])), log_bytes (paid ∷ []))
open_wal_store_unreadable_example =
    open_wal_store_unreadable (coffees "t1") (paid ∷ []) (frame_bytes paid) (paid-IsWhole, tt)
