-- ===== src/Standalone/Reconnecting.antt =====
-- What a reconnection of fs2601_all_in_one.go does to the log and the ledger, and a second one.
use mathlib.Core.Path.{subst, ap₂}
use payment_risk_engine.Prelude.{
  ◌+◌, ◌*◌, ◌%◌, ◌≤◌, ◌≡◌, sym, ap, ◌∙◌, inl, inr, arith, Option, some, length, Int64, word, All,
}
use payment_risk_engine.Prelude.Sorting.Sums.{sum_of}
use payment_risk_engine.Ledger.{Time}
use payment_risk_engine.Standalone.{
  ConservingLedger, ends, pending, replay, Gateway, toggle_network,
}
use payment_risk_engine.Standalone.Payable.{Ending-cases, ends-injective}
use payment_risk_engine.Standalone.Existing.{Payable, All-Payable-same}
use payment_risk_engine.Standalone.Replaying.{IsReplayed, replay-IsReplayed, replay-Payable}

-- The number of the pending transactions, and the sum of their amounts.
abbrev pub whole_queue : Gateway → Int64 × Int64
whole_queue gw = (length (pending gw.wal) % word, sum_of (λ t. t.amount) (pending gw.wal) % word)

-- The ledger that a reconnection leaves.
abbrev reconnected : ConservingLedger → Gateway → Gateway
reconnected l gw = record gw { network = "RECONNECTED"; ledger = l }

module _ (now : Time) (gw : Gateway) where
  toggle_replays :
      All (Payable gw.ledger) (pending gw.wal)
      → (l : ConservingLedger) × (toggle_network now "RECONNECTED" gw
          ≡ ends (some (whole_queue gw), reconnected l gw))
        × IsReplayed (pending gw.wal) 0 0 gw.ledger ((whole_queue gw).0, (whole_queue gw).1, l)
  unfolding toggle_network
  toggle_replays p =
      let (r, e, q) = replay-IsReplayed now (pending gw.wal) gw.ledger p in
      let count : r.0 ≡ (whole_queue gw).0 = omega (arith, q.counted) in
      let total : r.1 ≡ (whole_queue gw).1 = omega (arith, q.summed) in
      (
        r.2,
        rw (e, toggle_network) (ap₂ (λ c t. ends (some (c, t), reconnected r.2 gw)) count total),
        record { counted = omega arith; summed = omega arith; same = q.same; entered = q.entered },
      )

  toggle-Payable :
      (report : Option (Int64 × Int64)) (gw' : Gateway)
      → toggle_network now "RECONNECTED" gw ≡ ends (report, gw')
      → All (Payable gw.ledger) (pending gw.wal)
  unfolding toggle_network
  toggle-Payable report gw' h = elim (Ending-cases (replay now (pending gw.wal) gw.ledger)) [
    | inl e ↦ absurd (ground (arith, e, h))
    | inr (inl e) ↦ absurd (ground (arith, e, h))
    | inr (inr (r, e)) ↦ replay-Payable now (pending gw.wal) gw.ledger r e
  ]

module _ (now later : Time) (gw : Gateway) {report : Option (Int64 × Int64)} {gw' : Gateway} where
  -- A reconnection that ends has replayed the whole queue and reports so. It leaves the queue as it
  -- was: another reconnection, at whatever time, ends too, with the same report, and writes at least
  -- two more entries for each of its transactions.
  pub toggle_network_again :
      toggle_network now "RECONNECTED" gw ≡ ends (report, gw')
      → (report ≡ some (whole_queue gw))
        × ((gw'' : Gateway) × (toggle_network later "RECONNECTED" gw' ≡ ends (report, gw''))
            × (length gw'.ledger.entries + 2 * length (pending gw.wal)
                ≤ length gw''.ledger.entries))
  toggle_network_again h =
      let payable = toggle-Payable now gw report gw' h in
      let (l, e, q) = toggle_replays now gw payable in
      let both : (report, gw') ≡ (some (whole_queue gw), reconnected l gw) =
        ends-injective (sym h ∙ e) in
      let (l2, e2, q2) =
        toggle_replays later (reconnected l gw)
          (All-Payable-same gw.ledger l (pending gw.wal) q.same payable) in
      (
        ap (λ r. r.0) both,
        subst
            (λ r.
              (gw'' : Gateway) × (toggle_network later "RECONNECTED" r.1 ≡ ends (r.0, gw''))
              × (length r.1.ledger.entries + 2 * length (pending gw.wal)
                  ≤ length gw''.ledger.entries))
            (sym both) (reconnected l2 (reconnected l gw), e2, q2.entered),
      )
