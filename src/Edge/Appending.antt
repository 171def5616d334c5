-- ===== src/Edge/Appending.antt =====
-- What an `Append` of m5_local_store.go that succeeds leaves in the index.
use payment_risk_engine.Prelude.{
  ◌+◌, ◌%◌, ◌^◌, ◌≡◌, inl, inr, arith, eq_iff, Option-cases, none, some, lookup, lookup-insert,
}
use payment_risk_engine.Host.{Host, Bytes}
use payment_risk_engine.Edge.Queue.{QueuedTransaction}
use payment_risk_engine.Edge.Wal.{
  Codec, WriteOutcome, written, header_torn, payload_torn, unsynced, WalStore, with_hash,
  write_frame, append,
}

write_frame_succeeds :
    (outcome : WriteOutcome) (tx : QueuedTransaction) (payload : Bytes) (s : WalStore)
    → (write_frame outcome tx payload s).0 ≡ none
    → lookup tx.tx_id (write_frame outcome tx payload s).1.tx_map ≡ some tx
unfolding write_frame
write_frame_succeeds written tx payload s ok =
    ground (arith, lookup-insert tx.tx_id tx.tx_id tx s.tx_map, eq_iff tx.tx_id tx.tx_id)
write_frame_succeeds (header_torn n) tx payload s ok = ground arith
write_frame_succeeds (payload_torn n) tx payload s ok = ground arith
write_frame_succeeds unsynced tx payload s ok = ground arith

-- An append that succeeds wrote a transaction that the index did not have.
pub append_succeeds :
    (host : Host) (codec : Codec) (outcome : WriteOutcome) (tx : QueuedTransaction) (s : WalStore)
    → (append host codec outcome tx s).0 ≡ none
    → (lookup tx.tx_id s.tx_map ≡ none)
      × (lookup tx.tx_id (append host codec outcome tx s).1.tx_map ≡ some (with_hash host tx))
unfolding append
append_succeeds host codec outcome tx s ok = elim (Option-cases (lookup tx.tx_id s.tx_map)) [
  | inr (old, there) ↦ ground (arith, there)
  | inl fresh ↦ elim (Option-cases (codec.marshal (with_hash host tx))) [
    | inl fails ↦ ground (arith, fresh, fails)
    | inr (payload, encoded) ↦
        let next = record s { seq_number = (s.seq_number + 1) % 2 ^ 64 } in
        ground
          (arith, fresh, encoded, write_frame_succeeds outcome (with_hash host tx) payload next)
  ]
]
