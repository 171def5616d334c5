-- ===== src/Standalone/Moves.antt =====
-- What a payment of fs2601_all_in_one.go does to the ledger and the log.

use payment_risk_engine.Prelude.{
  ℕ, ◌+◌, ◌^◌, ◌%◌, String, ◌≡◌, ◌⊎◌, inl, inr, arith, ◌==◌, Bool-cases, Option-cases, Option, List,
  [], ◌∷◌, lookup, IsNonneg, Each, Each-insert, Each-lookup, All,
}
use payment_risk_engine.Host.{Bytes}
use payment_risk_engine.Standalone.{
  ConservingLedger, direct_commit, QueuedTx, LocalWal, append, pending, pending_of, tx_at, Ambient,
  PayRequest, Gateway, tx_id_of, amount_of, screen, pay_online,
}

-- No amount in the log is negative.
abbrev pub Amounts : LocalWal → Type 0
Amounts w = Each (λ t. IsNonneg t.amount) w.tx_map

pub append-Amounts :
    (marshal : QueuedTx → Option Bytes) (torn : Option ℕ) (t : QueuedTx) (w : LocalWal)
    → IsNonneg t.amount
    → Amounts w
    → Amounts (append marshal torn t w).1
unfolding append
append-Amounts marshal torn t w n h =
    let numbered = record t { seq_no = (w.seq_gen + 1) % 2 ^ 64 } in
    elim (Option-cases (marshal numbered)) [
      | inl failed ↦ rw (failed, append) h
      | inr (payload, done) ↦ elim (Option-cases torn) [
        | inr (k, cut) ↦ rw (done, cut, append) h
        | inl whole ↦
            rw (done, whole, append)
              (Each-insert (λ t. IsNonneg t.amount) t.tx_id numbered w.tx_map n h)
      ]
    ]

tx_at-Amounts : (w : LocalWal) → Amounts w → (id : String) → IsNonneg (tx_at w.tx_map id).amount
tx_at-Amounts w h id = elim (Option-cases (lookup id w.tx_map)) [
  | inl new ↦ ground (arith, new)
  | inr (t, old) ↦ ground (arith, old, Each-lookup (λ t. IsNonneg t.amount) id w.tx_map h old)
]

pub pending-Amounts : (w : LocalWal) → Amounts w → All (λ t. IsNonneg t.amount) (pending w)
unfolding pending pending_of
pending-Amounts w h = go w.order
  where
    go : (ids : List String) → All (λ t. IsNonneg t.amount) (pending_of w.tx_map ids)
    go [] = tt
    go (id ∷ ids) = elim (Bool-cases ((tx_at w.tx_map id).status == "RECONCILED")) [
      | inl done ↦ rw (done, pending_of) (go ids)
      | inr due ↦ rw (due, pending_of) (tx_at-Amounts w h id, go ids)
    ]

-- What the payment does to the ledger: nothing, or a transfer.
module _ (a : Ambient) (req : PayRequest) (gw : Gateway) where
  abbrev pub transferred : ConservingLedger
  transferred =
      (direct_commit a.now req.account_id req.merchant_id (amount_of req) (tx_id_of a.now req)
        gw.ledger).1

  pub pay_online-ledger :
      ((pay_online a req gw).1.wal ≡ gw.wal)
      × (((pay_online a req gw).1.ledger ≡ gw.ledger)
          ⊎ ((pay_online a req gw).1.ledger ≡ transferred))
  unfolding pay_online
  pay_online-ledger =
      let verdict =
        (screen a.host a.now req.account_id req.merchant_id req.dynamic_qr gw.fraud).0 in
      elim (Bool-cases verdict.0) [
        | inr refused ↦ (ground (arith, refused), inl (ground (arith, refused)))
        | inl approved ↦
            elim (Option-cases
              (direct_commit a.now req.account_id req.merchant_id (amount_of req)
                (tx_id_of a.now req) gw.ledger).0) [
                  | inl done ↦
                      (ground (arith, approved, done), inr (ground (arith, approved, done)))
                  | inr (e, failed) ↦
                      (ground (arith, approved, failed), inl (ground (arith, approved, failed)))
                ]
      ]
