-- ===== src/Edge/Opening.antt =====
-- `NewWALStore` of m5_local_store.go where a call of the operating system fails, and `Close`.
use payment_risk_engine.Prelude.{ℕ, Option, none, some, eqb, length, if◌then◌else◌}
use payment_risk_engine.Host.{Bytes}
use payment_risk_engine.Edge.Wal.{Codec, WalStore, Scan, empty_store, scan, cut_file, new_wal_store}

-- Which call fails: the opening, the first seek, the reading of the header or the payload after so
-- many frames, the truncation, or the last seek.
pub data OpenOutcome : Type 0 where
  opened open_failed seek_failed truncate_failed offset_failed : OpenOutcome
  header_unreadable payload_unreadable : ℕ → OpenOutcome

abbrev pub scan_start : Bytes → Scan
scan_start file = record {
  store = empty_store file;
  rest = file;
  read_offset = 0;
  valid_offset = 0;
}

abbrev opened_store : WalStore → Option WalStore × Bytes
opened_store s = (some s, s.file)

-- `NewWALStore`: the store, or `none` for an error, and the bytes that the file has afterwards. An
-- unreadable header is an error, if the loop comes so far. An unreadable payload is a `break`, as a
-- torn one is.
unfoldable pub open_wal_store : OpenOutcome → Codec → Bytes → Option WalStore × Bytes
open_wal_store opened codec file = opened_store (new_wal_store codec file)
open_wal_store open_failed codec file = (none, file)
open_wal_store seek_failed codec file = (none, file)
open_wal_store truncate_failed codec file = (none, file)
open_wal_store offset_failed codec file = (none, (new_wal_store codec file).file)
open_wal_store (header_unreadable n) codec file =
    if eqb (length (scan n codec (scan_start file)).store.order) n
    then (none, file)
    else opened_store (new_wal_store codec file)
open_wal_store (payload_unreadable n) codec file =
    opened_store (cut_file file (scan n codec (scan_start file)))

-- `Close`: what is left is the file.
abbrev pub close : WalStore → Bytes
close s = s.file
