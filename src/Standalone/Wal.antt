-- ===== src/Standalone/Wal.antt =====
-- The log of fs2601_all_in_one.go, `LocalWAL`. Nothing reads its file.
use payment_risk_engine.Prelude.{
  put_be, ℕ, ◌+◌, ◌%◌, ◌^◌, not, String, ◌==◌, List, [], ◌∷◌, ◌++◌, Option, none, some, Map, lookup,
  insert, Int64, length, take, if◌then◌else◌,
}
use payment_risk_engine.Host.{Bytes}
use payment_risk_engine.Edge.{crc32}

pub record QueuedTx : Type 0 where
  pub tx_id : String
  pub account_id : String
  pub merchant_id : String
  pub terminal_id : String
  pub amount : Int64
  pub seq_no : ℕ  -- uint64
  pub vector_clock : Map ℕ  -- of uint64
  pub client_timestamp : Int64
  pub status : String

pub record LocalWal : Type 0 where
  pub file : Bytes
  pub tx_map : Map QueuedTx
  pub order : List String
  pub seq_gen : ℕ  -- uint64

-- `NewLocalWAL` on a file that opens, whose bytes it leaves where they are.
abbrev pub new_local_wal : Bytes → LocalWal
new_local_wal file = record { file = file; tx_map = []; order = []; seq_gen = 0 }

-- `json.Marshal` at `QueuedTx`; `none` is an error.
abbrev pub Marshal : Type 0
Marshal = QueuedTx → Option Bytes

unfoldable pub frame_of : Bytes → Bytes
frame_of payload = put_be 4 (length payload % 2 ^ 32) ++ (put_be 4 (crc32 payload) ++ payload)

pub data AppendError : Type 0 where
  marshal_failed write_failed : AppendError

-- `Append`. The write leaves the whole frame (`none`), or an error and the first bytes of the frame;
-- the result of the sync is ignored.
unfoldable pub append : Marshal → Option ℕ → QueuedTx → LocalWal → Option AppendError × LocalWal
append marshal torn tx w =
    let seq = (w.seq_gen + 1) % 2 ^ 64 in
    let numbered = record tx { seq_no = seq } in
    let counted = record w { seq_gen = seq } in
    elim (marshal numbered) [
      | none ↦ (some marshal_failed, counted)
      | some payload ↦ elim torn [
        | some n ↦
            (some write_failed, record counted { file = w.file ++ take n (frame_of payload) })
        | none ↦ (
          none,
          record counted {
            file = w.file ++ frame_of payload;
            tx_map = insert tx.tx_id numbered w.tx_map;
            order = w.order ++ tx.tx_id ∷ [];
          },
        )
      ]
    ]

-- The zero value that the map gives for a missing key.
abbrev pub zero_tx : QueuedTx
zero_tx = record {
  tx_id = "";
  account_id = "";
  merchant_id = "";
  terminal_id = "";
  amount = 0;
  seq_no = 0;
  vector_clock = [];
  client_timestamp = 0;
  status = "";
}

abbrev pub tx_at : Map QueuedTx → String → QueuedTx
tx_at m id = elim (lookup id m) [ none ↦ zero_tx | some tx ↦ tx ]

unfoldable pub pending_of : Map QueuedTx → List String → List QueuedTx
pending_of m [] = []
pending_of m (id ∷ ids) =
    let others = pending_of m ids in
    let t = tx_at m id in if not (t.status == "RECONCILED") then t ∷ others else others

-- `Pending`
unfoldable pub pending : LocalWal → List QueuedTx
unfolding pending_of
pending w = pending_of w.tx_map w.order
