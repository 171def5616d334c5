-- ===== src/Standalone/Velocity.antt =====
-- The velocity check of fs2601_all_in_one.go.
use payment_risk_engine.Prelude.{
  ◌≤◌, String, inl, inr, arith, Bool-cases, Option-cases, Option, List, [], ◌∷◌, ◌++◌, length,
  length-append, Map, leb, Each, Each-insert,
}
use payment_risk_engine.Host.{Host}
use payment_risk_engine.Fraud.{Instant}
use payment_risk_engine.Standalone.{
  DynamicQrPayload, TransactionEvent, GraphEngine, live_events, prune, transfers_of, cycle_score,
  check_qr, screen_graph, screen,
}

-- No account has more than 15 transfers on record.
abbrev pub IsBounded : GraphEngine → Type 0
IsBounded fe = Each (λ evs. length evs ≤ 15) fe.transfers

length-live_events :
    (now : Instant) (evs : List TransactionEvent) → length (live_events now evs) ≤ length evs
unfolding live_events
length-live_events now [] = omega arith
length-live_events now (e ∷ evs) = ground (arith, length-live_events now evs)

prune-IsBounded :
    (now : Instant) (m : Map (List TransactionEvent))
    → Each (λ evs. length evs ≤ 15) m
    → Each (λ evs. length evs ≤ 15) (prune now m)
unfolding prune
prune-IsBounded now [] h = tt
prune-IsBounded now ((acc, evs) ∷ m) h =
    keep (live_events now evs) (omega (arith, length-live_events now evs, h.0))
      (prune-IsBounded now m h.1)
  where
    keep :
        (valid : List TransactionEvent)
        → length valid ≤ 15
        → Each (λ evs. length evs ≤ 15) (prune now m)
        → Each
            (λ evs. length evs ≤ 15)
            (elim valid [ [] ↦ prune now m | e ∷ valid ↦ (acc, e ∷ valid) ∷ prune now m ])
    keep [] p q = q
    keep (e ∷ valid) p q = (p, q)

module _ (now : Instant) (from to : String) where
  screen_graph-IsBounded :
      (fe : GraphEngine) → IsBounded fe → IsBounded (screen_graph now from to fe).1
  unfolding screen_graph
  screen_graph-IsBounded fe b =
      elim (Bool-cases (leb 15 (length (transfers_of from fe.transfers)))) [
        | inl often ↦ rw (often, screen_graph) b
        | inr seldom ↦
            elim (Option-cases (cycle_score from fe.transfers (transfers_of to fe.transfers))) [
              | inr (score, cycle) ↦ rw (seldom, cycle, screen_graph) b
              | inl good ↦
                  let past = transfers_of from fe.transfers in
                  let e : TransactionEvent = record {
                    tx_id = "";
                    from_acc = from;
                    to_acc = to;
                    timestamp = now;
                  } in
                  rw (seldom, good, screen_graph)
                    (Each-insert (λ evs. length evs ≤ 15) from (past ++ e ∷ []) fe.transfers
                      (ground (arith, seldom, length-append past (e ∷ []))) b)
            ]
      ]

  -- Whatever a screening answers, no account has more than 15 transfers on record after it if none had
  -- before.
  pub screen-IsBounded :
      (host : Host) (qr : Option DynamicQrPayload) (fe : GraphEngine)
      → IsBounded fe
      → IsBounded (screen host now from to qr fe).1
  unfolding screen
  screen-IsBounded host qr fe b = elim (Option-cases (check_qr host now qr to fe)) [
    | inr (refusal, e) ↦ rw (e, screen) b
    | inl e ↦ rw (e, screen) (screen_graph-IsBounded _ (prune-IsBounded now fe.transfers b))
  ]
