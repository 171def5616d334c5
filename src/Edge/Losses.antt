-- ===== src/Edge/Losses.antt =====
-- What a restart of m5_local_store.go undoes, and what a failed Sync leaves.

use payment_risk_engine.Prelude.{
  String, ◌≡◌, sym, ap, ◌∙◌, arith, some, Option, lookup, inl, inr, Option-cases,
}
use payment_risk_engine.Host.{Host}
use payment_risk_engine.Edge.Queue.{QueuedTransaction}
use payment_risk_engine.Edge.Wal.{
  Codec, WalStore, WalError, new_wal_store, written, unsynced, sync_failed, write_frame, append,
  update_status,
}
use payment_risk_engine.Edge.Durability.{
  IsDurable, CanAppend, append_runs, append-IsDurable, reopen_durable,
}

update_status_file : (id status : String) (s : WalStore) → (update_status id status s).file ≡ s.file
unfolding update_status
update_status_file id status s = elim (Option-cases (lookup id s.tx_map)) [
  | inl new ↦ ground (arith, new)
  | inr (tx, old) ↦ ground (arith, old)
]

-- The status that UpdateStatus sets is gone once a durable store is reopened.
pub update_status_lost :
    (codec : Codec) (id status : String) (s : WalStore)
    → IsDurable codec s
    → new_wal_store codec (update_status id status s).file ≡ s
update_status_lost codec id status s d =
    ap (new_wal_store codec) (update_status_file id status s) ∙ reopen_durable codec s d

-- An append that reports a failed Sync is on disk all the same: reopened, the store is the one a
-- successful append gives.
pub append_unsynced :
    (host : Host) (codec : Codec) (tx : QueuedTransaction) (s : WalStore)
    → IsDurable codec s
    → CanAppend host codec tx s
    → ((append host codec unsynced tx s).0 ≡ some sync_failed)
      × (new_wal_store codec (append host codec unsynced tx s).1.file
          ≡ (append host codec written tx s).1)
unfolding write_frame
append_unsynced host codec tx s d can =
    let runs = append_runs host codec tx s can in
    (
      ap (λ (r : Option WalError × WalStore). r.0) (runs unsynced),
      ap (λ (r : Option WalError × WalStore). new_wal_store codec r.1.file) (runs unsynced)
          ∙ ap (λ (r : Option WalError × WalStore). new_wal_store codec r.1.file)
              (sym (runs written))
          ∙ reopen_durable codec (append host codec written tx s).1
              (append-IsDurable host codec tx s d can),
    )
