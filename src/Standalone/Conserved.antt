-- ===== src/Standalone/Conserved.antt =====
-- The money in the program of fs2601_all_in_one.go, over any sequence of requests to its handlers.
use mathlib.Core.Path.{subst}
use payment_risk_engine.Prelude.{
  ◌%◌, String, ◌≡◌, refl, sym, ap, ◌∙◌, inl, inr, arith, true, false, ◌==◌, Bool-cases,
  Option-cases, Option, none, some, lookup, insert, adjust, Int64, word, IsNonneg, lt64,
}
use payment_risk_engine.Host.{Bytes}
use payment_risk_engine.Ledger.{Time}
use payment_risk_engine.Standalone.{
  new_conserving_ledger, create_account, allocate_offline_allowance, allocated, audit_conservation,
  ends, new_local_wal, append, pending, replay, Ambient, PayRequest, PaymentResponse, GraphEngine,
  CompactFilter, Gateway, new_gateway, tx_id_of, amount_of, queued, contains,
  max_single_offline_limit, pay_offline, pay_online, process_payment, toggle_network, demo_ledger,
}
use payment_risk_engine.Standalone.Payable.{Ending-cases, ends-injective}
use payment_risk_engine.Standalone.Total.{totals, totals-direct_commit, audit-totals, IsSound}
use payment_risk_engine.Standalone.Soundness.{direct_commit-IsSound, replay-totals}
use payment_risk_engine.Standalone.Moves.{
  Amounts, append-Amounts, pending-Amounts, pay_online-ledger,
}

-- The reserve has an account, no allowance and no amount in the log is negative, and the audit gives
-- the total.
pub record IsKept (total : Int64) (gw : Gateway) : Type 0 where
  pub sound : IsSound gw.ledger
  pub amounts : Amounts gw.wal
  pub kept : (totals gw.ledger % word) ≡ total

-- One request: a payment of an amount that is not negative, or a switch of the network that ends.
pub data Step (gw gw' : Gateway) : Type 0 where
  paid :
      (a : Ambient) (req : PayRequest) (resp : PaymentResponse)
      → IsNonneg (amount_of req)
      → process_payment a req gw ≡ some (resp, gw')
      → Step gw gw'
  toggled :
      (now : Time) (status : String) (report : Option (Int64 × Int64))
      → toggle_network now status gw ≡ ends (report, gw')
      → Step gw gw'

pub data Reach (gw : Gateway) : Gateway → Type 0 where
  here : Reach gw gw
  next : {u v : Gateway} → Reach gw u → Step u v → Reach gw v

abbrev gateway_after : Gateway → Option (PaymentResponse × Gateway) → Gateway
gateway_after gw none = gw
gateway_after gw (some (resp, gw')) = gw'

module _ (total : Int64) (a : Ambient) (req : PayRequest) (gw : Gateway)
    (n : IsNonneg (amount_of req)) (k : IsKept total gw) where
  pay_online-IsKept : IsKept total (pay_online a req gw).1
  pay_online-IsKept =
      let (w, moved) = pay_online-ledger a req gw in
      elim moved [
        | inl e ↦ record {
          sound = subst IsSound (sym e) k.sound;
          amounts = subst Amounts (sym w) k.amounts;
          kept = ap (λ l. totals l % word) e ∙ k.kept;
        }
        | inr e ↦ record {
          sound = subst IsSound (sym e) (
              direct_commit-IsSound a.now (amount_of req) (tx_id_of a.now req) req.account_id
                req.merchant_id gw.ledger k.sound);
          amounts = subst Amounts (sym w) k.amounts;
          kept =
              ap (λ l. totals l % word) e
              ∙ totals-direct_commit a.now (amount_of req) (tx_id_of a.now req) req.account_id
                  req.merchant_id gw.ledger
              ∙ k.kept;
        }
      ]

  queue-IsKept :
      IsKept total (record gw { wal = (append a.marshal a.torn (queued a req) gw.wal).1 })
  queue-IsKept = record {
    sound = k.sound;
    amounts = append-Amounts a.marshal a.torn (queued a req) gw.wal n k.amounts;
    kept = k.kept;
  }

  pay_offline-IsKept : IsKept total (gateway_after gw (pay_offline a req gw))
  unfolding pay_offline
  pay_offline-IsKept = elim (Option-cases (contains req.account_id gw.cuckoo)) [
    | inl none_read ↦ rw (none_read, pay_offline) k
    | inr (true, revoked) ↦ rw (revoked, pay_offline) k
    | inr (false, good) ↦ elim (Bool-cases (lt64 max_single_offline_limit (amount_of req))) [
      | inl above ↦ rw (good, above, pay_offline) k
      | inr within ↦ rw (good, within, pay_offline) queue-IsKept
    ]
  ]

  process_payment-IsKept : IsKept total (gateway_after gw (process_payment a req gw))
  unfolding process_payment
  process_payment-IsKept = elim (Bool-cases (gw.network == "DISCONNECTED")) [
    | inl offline ↦ rw (offline, process_payment) pay_offline-IsKept
    | inr online ↦ rw (online, process_payment) pay_online-IsKept
  ]

toggle-IsKept :
    (total : Int64) (now : Time) (status : String) (gw : Gateway) (report : Option (Int64 × Int64))
    (gw' : Gateway)
    → IsKept total gw
    → toggle_network now status gw ≡ ends (report, gw')
    → IsKept total gw'
unfolding toggle_network
toggle-IsKept total now status gw report gw' k h = elim (Bool-cases (status == "RECONNECTED")) [
  | inr other ↦
      let e : toggle_network now status gw ≡ ends (none, record gw { network = status }) =
        rw (other, toggle_network) refl in
      subst (λ r. IsKept total r.1) (ends-injective (sym e ∙ h))
        (record { sound = k.sound; amounts = k.amounts; kept = k.kept })
  | inl back ↦ elim (Ending-cases (replay now (pending gw.wal) gw.ledger)) [
    | inl e ↦ absurd (ground (arith, back, e, h))
    | inr (inl e) ↦ absurd (ground (arith, back, e, h))
    | inr (inr (r, e)) ↦
        let (s, m) =
          replay-totals now (pending gw.wal) gw.ledger r k.sound (pending-Amounts gw.wal k.amounts)
            e in
        let done : toggle_network now status gw
            ≡ ends (some (r.0, r.1), record gw { network = status; ledger = r.2 }) =
          rw (back, e, toggle_network) refl in
        subst (λ r. IsKept total r.1) (ends-injective (sym done ∙ h))
          (record { sound = s; amounts = k.amounts; kept = m ∙ k.kept })
  ]
]

Step-IsKept : (total : Int64) {gw gw' : Gateway} → Step gw gw' → IsKept total gw → IsKept total gw'
Step-IsKept total {gw} {gw'} (paid a req resp n h) k =
    subst (λ r. IsKept total (gateway_after gw r)) h (process_payment-IsKept total a req gw n k)
Step-IsKept total {gw} {gw'} (toggled now status report h) k =
    toggle-IsKept total now status gw report gw' k h

Reach-IsKept :
    (total : Int64) {gw gw' : Gateway} → Reach gw gw' → IsKept total gw → IsKept total gw'
Reach-IsKept total here k = k
Reach-IsKept total (next r s) k = Step-IsKept total s (Reach-IsKept total r k)

module _ (now : Time) (fe : GraphEngine) (file : Bytes) (cf : CompactFilter) where
  abbrev pub started : Gateway
  started = new_gateway (demo_ledger now) fe (new_local_wal file) cf

  started-IsKept : IsKept 100100000 started
  unfolding demo_ledger new_conserving_ledger create_account allocate_offline_allowance allocated
      insert adjust lookup lt64
  started-IsKept = record {
    sound = record {
      has_reserve = refl;
      allowances = (omega arith, (omega arith, (omega arith, tt)));
    };
    amounts = tt;
    kept = refl;
  }

  -- After any sequence of payments of amounts that are not negative and switches of the network, the
  -- audit reports the 100,100,000 that the program started with, whatever the engine, the log and the
  -- filter are.
  pub audit_conserved :
      {gw : Gateway} → Reach started gw → (audit_conservation gw.ledger).0 ≡ 100100000
  audit_conserved {gw} r = audit-totals gw.ledger ∙ (Reach-IsKept 100100000 r started-IsKept).kept
