-- ===== src/Standalone/Unrecorded.antt =====
-- What `ProcessPayment` of fs2601_all_in_one.go answers without a network when the log fails.
use payment_risk_engine.Prelude.{
  ℕ, ◌+◌, ◌%◌, ◌^◌, ◌≡◌, refl, inl, inr, arith, true, false, ◌==◌, Option-cases, Option, some, lt64,
}
use payment_risk_engine.Host.{Bytes}
use payment_risk_engine.Standalone.{
  QueuedTx, LocalWal, AppendError, append, pending, PaymentResponse, max_single_offline_limit,
  Ambient, PayRequest, Gateway, amount_of, answer, code_approved, iso_approved, queued, contains,
  pay_offline, process_payment,
}

-- An append that fails leaves the queue as it was.
pending-append_failed :
    (marshal : QueuedTx → Option Bytes) (torn : Option ℕ) (t : QueuedTx) (w : LocalWal)
    {e : AppendError}
    → (append marshal torn t w).0 ≡ some e
    → pending (append marshal torn t w).1 ≡ pending w
unfolding append pending
pending-append_failed marshal torn t w h =
    elim (Option-cases (marshal (record t { seq_no = (w.seq_gen + 1) % 2 ^ 64 }))) [
      | inl failed ↦ rw (failed, append) refl
      | inr (payload, done) ↦ elim (Option-cases torn) [
        | inr (k, cut) ↦ rw (done, cut, append) refl
        | inl whole ↦ absurd (ground (arith, done, whole, h))
      ]
    ]

module _ (a : Ambient) (req : PayRequest) (gw : Gateway) where
  -- Without a network, for an account that is not revoked and an amount within the limit, the customer is
  -- told that the payment is authorized although the log has failed and the queue does not have it.
  pub process_payment_unrecorded :
      {e : AppendError}
      → (gw.network == "DISCONNECTED") ≡ true
      → contains req.account_id gw.cuckoo ≡ some false
      → lt64 max_single_offline_limit (amount_of req) ≡ false
      → (append a.marshal a.torn (queued a req) gw.wal).0 ≡ some e
      → (resp : PaymentResponse) × (gw' : Gateway) × (process_payment a req gw ≡ some (resp, gw'))
        × (resp.status ≡ "OFFLINE_AUTHORIZED")
        × (pending gw'.wal ≡ pending gw.wal)
  unfolding process_payment pay_offline
  process_payment_unrecorded offline good within failed = (
    answer a req "OFFLINE_AUTHORIZED" code_approved iso_approved 0
        "Offline payment authorized at edge.",
    record gw { wal = (append a.marshal a.torn (queued a req) gw.wal).1 },
    rw (offline, good, within, process_payment, pay_offline) refl,
    refl,
    pending-append_failed a.marshal a.torn (queued a req) gw.wal failed,
  )
