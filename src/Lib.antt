-- ===== src/Lib.antt =====
-- A verification of the payment risk engine: a payment gateway that authorizes online against a
-- conserving ledger, authorizes offline against signed tokens during a network partition, and
-- reconciles the offline transactions afterwards.
--
-- Parts modelled:
-- - internal/ledger/m2_conserving.go: module Ledger. Ledger.Types has the structs as records and
--   the balance updates; Ledger.Accounts, Holds, Offline, Deficit and Audit have one function for
--   each method (ReserveFunds is reserve_funds, and so on). Each call is one step, since a method
--   holds the locks of the accounts that it changes; FundAccount appends its entry after it has let
--   go of the lock, which no other method can see in the balances. Ledger.Requests makes the calls
--   data, so that a sequence of them is any interleaving of goroutines as far as the accounts and the
--   reservations go. The journal is not in it: appendEntry takes the number of an entry before the
--   lock of the entries, so that calls on different accounts can append out of the order of their
--   numbers, which append_entry, one step, does not show. Ledger.Numbering has the two steps
--   (take_number, push_entry) and their interleavings. Ledger.Locks has the order of locking.
-- - internal/edge/m5_local_store.go: Edge.Queue (QueuedTransaction), Edge.Bytes (CRC-32; the big-
--   endian numbers are in Prelude.Binary) and Edge.Wal (WALStore). The file is its bytes, JSON is
--   the parameter Codec, and how the writes of one Append go is an argument (WriteOutcome), and so
--   is how NewWALStore's calls go (OpenOutcome, Edge.Opening). The loop of recover runs on fuel: one
--   more than the bytes of the file is enough, since each round takes a header of 20 bytes.
-- - internal/edge/m4_offline_auth.go: Edge.Token (the authority) and Edge.Authorizer
--   (AuthorizeOffline, its steps as functions that give the first refusal). SHA-256, Ed25519 and
--   hexadecimal text are the parameter Host.
-- - internal/telemetry/m7_alerts.go: Telemetry. A fraud score is a number of hundredths.
-- - internal/fraud/compact_filter.go: Fraud.Filter and Fraud.Encoding (Serialize, Deserialize);
--   the draws of math/rand are arguments, and a panic is none. The loop of NewCompactFilter runs on
--   33 rounds of fuel, after which a uint32 stands still.
-- - internal/fraud/qr_verifier.go: Fraud.Qr, with the rounding of math.Abs to a float64 written
--   out.
-- - internal/reconcile/m6_engine.go: Reconcile.Clocks (vector clocks and the sort, an insertion
--   sort as sort.SliceStable is on up to 20 elements), Reconcile.Reports and Reconcile.Engine
--   (Replay). A booking of the ledger that waits for ever blocks the replay (Ledger's Call). Replay
--   calls the ledger's methods and reads and updates the log of Edge.Wal.
-- - internal/fraud/m3_graph_fraud.go: Fraud.Graph (the maps of transfers, devices and addresses,
--   and pruning) and Fraud.Screening (VerifyQR, detectCycleBFS, ScreenTransaction). A time is in
--   nanoseconds, and a score in hundredths: no sum of float64 that the code can form falls on the
--   other side of a threshold than the sum of hundredths.
-- - internal/gateway/m1_api.go: Gateway.Types, Gateway.Online (handleOnlinePayment),
--   Gateway.Offline (handleOfflinePayment) and Gateway.Process (ProcessPayment,
--   TriggerReconciliation). It calls the ledger, the screening, the authorizer, the log and the
--   reconciler of the other modules, and its ledger is the reconciler's, as cmd/server sets them up.
--   Ambient is what a request takes from outside. A request is one step.
-- - cmd/server/main.go: Server.Types (setupServer; the server's pointers are all held once, in the
--   gateway), Server.Handlers and Server.Codes (one function for each handler, from its decoded body
--   to its reply).
-- - fs2601_all_in_one.go, which has all parts in one file: module Standalone, with
--   Standalone.Answers (codes and MapReasonToISO), Accounts and Transfers (the ledger;
--   CommitOfflineAllowance can panic or wait for ever, its result is an Ending), Filter, Codes (the
--   QR codes), Screening, Wal, Replay, Paying (ProcessPayment) and Handlers (the start and the
--   handlers of main). What holds of it is in the modules below Standalone that are named for it. A
--   handler that panics or waits for ever has no state after it, although a replay that panics has
--   committed the transactions before. Prelude.Sorting has the insertion sort that Go's package sort
--   is on short lists.
-- Not modelled: cmd/cli, the JSON, the routes and the pages of the servers, and the self tests and
-- benchmarks of fs2601_all_in_one.go, which are input and output.
--
-- Conventions. An int64 is its bit pattern, a number below 2 ^ 64; sums and differences wrap and
-- comparisons are signed (Prelude.Words). A Go map is an association list (Prelude.Maps), a
-- time.Time a number of nanoseconds, an error a value of Option with none for nil. A method returns
-- the new state with its result. Texts are compared by code point, which is Go's bytewise order on
-- UTF-8. A call that reads the clock gets one reading as an argument `now`.
pub mod Edge
pub mod Fraud
pub mod Gateway
pub mod Host
pub mod Ledger
pub mod Prelude
pub mod Reconcile
pub mod Server
pub mod Standalone
pub mod Telemetry
