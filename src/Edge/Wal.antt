-- ===== src/Edge/Wal.antt =====
-- `WALStore` of m5_local_store.go: an index in memory beside a file of frames. The file is its
-- bytes; the offset stands at their end, where recovery puts it and each write leaves it.
use payment_risk_engine.Prelude.{
  put_be, read_be, ℕ, zero, suc, ◌+◌, ◌%◌, ◌^◌, String, ◌==◌, Bool, false, ◌&&◌, ◌||◌, List, [],
  ◌∷◌, ◌++◌, Option, none, some, Map, lookup, insert, eqb, ltb, length, take, drop, map,
  if◌then◌else◌,
}
use payment_risk_engine.Host.{Host, Bytes}
use payment_risk_engine.Edge.Queue.{QueuedTransaction, compute_hash}
use payment_risk_engine.Edge.Bytes.{crc32}

-- `json.Marshal` and `json.Unmarshal` at `QueuedTransaction`; `none` is an error.
pub record Codec : Type 0 where
  pub marshal : QueuedTransaction → Option Bytes
  pub unmarshal : Bytes → Option QueuedTransaction

-- "WAL1"
abbrev pub wal_magic_bytes : Bytes
wal_magic_bytes = 0x57 ∷ 0x41 ∷ 0x4c ∷ 0x31 ∷ []

pub data WalError : Type 0 where
  tx_already_exists marshal_failed header_failed payload_failed sync_failed : WalError

pub record WalStore : Type 0 where
  pub file : Bytes
  pub tx_map : Map QueuedTransaction
  pub order : List String
  pub seq_number : ℕ  -- uint64

abbrev pub empty_store : Bytes → WalStore
empty_store file = record { file = file; tx_map = []; order = []; seq_number = 0 }

-- The frame that `Append` writes: 4 bytes of magic, 8 of sequence, 4 of length, 4 of checksum, and
-- then the payload.
unfoldable pub frame_header : ℕ → Bytes → Bytes
frame_header seq payload =
    wal_magic_bytes
    ++ (put_be 8 seq ++ (put_be 4 (length payload % 2 ^ 32) ++ put_be 4 (crc32 payload)))

-- The state of the loop in `recover`: the store, the bytes not yet read, the file's offset there
-- (`readOffset` at the head of a round), and `validOffset`.
pub record Scan : Type 0 where
  pub store : WalStore
  pub rest : Bytes
  pub read_offset : ℕ
  pub valid_offset : ℕ

abbrev pub starts_with_magic : Bytes → Bool
starts_with_magic (a ∷ b ∷ c ∷ d ∷ rest) = eqb a 0x57 && eqb b 0x41 && eqb c 0x4c && eqb d 0x31
starts_with_magic other = false

-- `length`, `seq` and `expectedCRC` of a header.
abbrev pub header_size : Bytes → ℕ
header_size header = read_be 0 (take 4 (drop 12 header))

abbrev pub header_seq : Bytes → ℕ
header_seq header = read_be 0 (take 8 (drop 4 header))

abbrev pub header_crc : Bytes → ℕ
header_crc header = read_be 0 (drop 16 header)

-- The payload's checksum and its decoding.
unfoldable pub check_payload :
    Codec → Bytes → Bytes → Bytes → Option (ℕ × QueuedTransaction × Bytes)
check_payload codec header payload after =
    if eqb (crc32 payload) (header_crc header)
    then elim (codec.unmarshal payload) [
      | none ↦ none
      | some tx ↦ some (header_seq header, tx, after)
    ]
    else none

-- What a header of 20 bytes announces, read from the bytes behind it.
unfoldable pub read_body : Codec → Bytes → Bytes → Option (ℕ × QueuedTransaction × Bytes)
read_body codec header behind =
    let size = header_size header in
    if starts_with_magic header
    then (if ltb (length behind) size
        then none
        else check_payload codec header (take size behind) (drop size behind))
    else none

-- What one round of the loop reads: the sequence number, the transaction, and the bytes behind it.
-- `none` is a `break`: the end of the file, a torn frame, a bad magic, checksum or payload.
unfoldable pub read_frame : Codec → Bytes → Option (ℕ × QueuedTransaction × Bytes)
read_frame codec bytes =
    if ltb (length bytes) 20 then none else read_body codec (take 20 bytes) (drop 20 bytes)

-- `s.txMap[tx.TxID] = tx`, the order, and the largest sequence number.
unfoldable pub restore : ℕ → QueuedTransaction → WalStore → WalStore
restore seq tx s = record s {
  tx_map = insert tx.tx_id tx s.tx_map;
  order = s.order ++ tx.tx_id ∷ [];
  seq_number = if ltb s.seq_number seq then seq else s.seq_number;
}

-- The loop of `recover`, on fuel: each round takes at least the 20 bytes of a header. The valid
-- offset is found with `int64(20+length)`, a sum of uint32.
unfoldable pub scan : ℕ → Codec → Scan → Scan
scan zero codec st = st
scan (suc fuel) codec st = elim (read_frame codec st.rest) [
  | none ↦ st
  | some (seq, tx, after) ↦ scan fuel codec (record {
    store = restore seq tx st.store;
    rest = after;
    read_offset = st.read_offset + (20 + header_size (take 20 st.rest));
    valid_offset = st.read_offset + (20 + header_size (take 20 st.rest)) % 2 ^ 32;
  })
]

-- `file.Truncate(n)`: the first n bytes, and zeros where the file is shorter.
unfoldable pub truncate : ℕ → Bytes → Bytes
truncate zero bytes = []
truncate (suc n) [] = 0 ∷ truncate n []
truncate (suc n) (b ∷ bytes) = b ∷ truncate n bytes

-- The end of `recover`: the file is cut at the last valid frame.
unfoldable pub cut_file : Bytes → Scan → WalStore
cut_file file st = record (st.store) { file = truncate st.valid_offset file }

-- `NewWALStore` on a file that can be opened.
unfoldable pub new_wal_store : Codec → Bytes → WalStore
new_wal_store codec file = cut_file file (
    scan (suc (length file)) codec
      (record { store = empty_store file; rest = file; read_offset = 0; valid_offset = 0 }))

-- How the writes of one `Append` go: how many bytes reach the file before an error, if there is one.
pub data WriteOutcome : Type 0 where
  written : WriteOutcome
  header_torn : ℕ → WriteOutcome
  payload_torn : ℕ → WriteOutcome
  unsynced : WriteOutcome

-- The writes of one frame, and the index once the frame is on disk.
unfoldable pub write_frame :
    WriteOutcome → QueuedTransaction → Bytes → WalStore → Option WalError × WalStore
write_frame written tx payload s = (
  none,
  record s {
    file = s.file ++ (frame_header s.seq_number payload ++ payload);
    tx_map = insert tx.tx_id tx s.tx_map;
    order = s.order ++ tx.tx_id ∷ [];
  },
)
write_frame (header_torn n) tx payload s =
    (some header_failed, record s { file = s.file ++ take n (frame_header s.seq_number payload) })
write_frame (payload_torn n) tx payload s = (
  some payload_failed,
  record s { file = s.file ++ (frame_header s.seq_number payload ++ take n payload) },
)
write_frame unsynced tx payload s =
    (some sync_failed, record s { file = s.file ++ (frame_header s.seq_number payload ++ payload) })

abbrev pub with_hash : Host → QueuedTransaction → QueuedTransaction
with_hash host tx =
    if tx.payload_hash == "" then record tx { payload_hash = compute_hash host tx } else tx

-- `Append`; the sequence number is a uint64.
unfoldable pub append :
    Host → Codec → WriteOutcome → QueuedTransaction → WalStore → Option WalError × WalStore
unfolding write_frame
append host codec outcome tx s = elim (lookup tx.tx_id s.tx_map) [
  | some old ↦ (some tx_already_exists, s)
  | none ↦
      let hashed = with_hash host tx in
      elim (codec.marshal hashed) [
        | none ↦ (some marshal_failed, s)
        | some payload ↦
            write_frame outcome hashed payload
              (record s { seq_number = (s.seq_number + 1) % 2 ^ 64 })
      ]
]

abbrev pub is_pending : QueuedTransaction → Bool
is_pending tx = tx.status == "PENDING" || tx.status == ""

-- The zero value that `s.txMap[txID]` gives for a missing key.
abbrev pub zero_transaction : QueuedTransaction
zero_transaction = record {
  tx_id = "";
  client_timestamp = 0;
  sequence_num = 0;
  seq_no = 0;
  vector_clock = [];
  token_id = "";
  account_id = "";
  merchant_id = "";
  terminal_id = "";
  amount = 0;
  signature = "";
  status = "";
  payload_hash = "";
}

abbrev pub tx_at : WalStore → String → QueuedTransaction
tx_at s id = elim (lookup id s.tx_map) [ none ↦ zero_transaction | some tx ↦ tx ]

unfoldable pub pending_of : WalStore → List String → List QueuedTransaction
pending_of s [] = []
pending_of s (id ∷ ids) =
    let others = pending_of s ids in if is_pending (tx_at s id) then tx_at s id ∷ others else others

-- `ReadAllPending`
unfoldable pub read_all_pending : WalStore → List QueuedTransaction
unfolding pending_of
read_all_pending s = pending_of s s.order

-- `ReadAll`
unfoldable pub read_all : WalStore → List QueuedTransaction
read_all s = map (tx_at s) s.order

-- `UpdateStatus`, in memory only.
unfoldable pub update_status : String → String → WalStore → WalStore
update_status id status s = elim (lookup id s.tx_map) [
  | none ↦ s
  | some tx ↦ record s { tx_map = insert id (record tx { status = status }) s.tx_map }
]
