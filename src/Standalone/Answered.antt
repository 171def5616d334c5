-- ===== src/Standalone/Answered.antt =====
-- The answers of `ProcessPayment` in fs2601_all_in_one.go.
use mathlib.Core.Path.{subst}
use payment_risk_engine.Prelude.{
  String, ◌≡◌, ◌⊎◌, refl, ◌∙◌, inl, inr, true, false, ◌==◌, Bool-cases, Option-cases, Option, none,
  some, lookup, lt64, leb, length, ◌/◌, not,
}
use payment_risk_engine.Host.{Host}
use payment_risk_engine.Telemetry.{Score}
use payment_risk_engine.Fraud.{Instant}
use payment_risk_engine.Standalone.{
  code_approved, max_single_offline_limit, map_reason_to_iso, PaymentResponse, DynamicQrPayload,
  GraphEngine, transfers_of, cycle_score, check_qr, verify_dynamic_qr, screen_graph, screen,
  direct_commit, Verdict, tampered, Ambient, PayRequest, Gateway, tx_id_of, amount_of, contains,
  pay_offline, pay_online, settled, process_payment,
}

-- The ISO code of a verdict is that of its reason, and the reason is an approval exactly if the
-- verdict is.
abbrev IsCoded : Verdict → Type 0
IsCoded v = (v.2 ≡ map_reason_to_iso v.1) × ((v.1 == code_approved) ≡ v.0)

module _ (host : Host) (now : Instant) (from to : String) (qr : Option DynamicQrPayload)
    (fe : GraphEngine) where
  check_qr-cases :
      (check_qr host now qr to fe ≡ none) ⊎ (check_qr host now qr to fe ≡ some tampered)
  unfolding check_qr
  check_qr-cases = elim (Option-cases qr) [
    | inl absent ↦ inl (rw (absent, check_qr) refl)
    | inr (q, shown) ↦ elim (Option-cases (lookup q.terminal_id fe.terminal_pub_keys)) [
      | inl new ↦ inr (rw (shown, new, check_qr) refl)
      | inr (key, old) ↦
          elim (Bool-cases (verify_dynamic_qr host (now / 1000000000) key (some q) to).0) [
            | inl good ↦ inl (rw (shown, old, good, check_qr) refl)
            | inr bad ↦ inr (rw (shown, old, bad, check_qr) refl)
          ]
    ]
  ]

  screen_graph-IsCoded : (g : GraphEngine) → IsCoded (screen_graph now from to g).0
  unfolding screen_graph map_reason_to_iso
  screen_graph-IsCoded g = elim (Bool-cases (leb 15 (length (transfers_of from g.transfers)))) [
    | inl often ↦ rw (often, screen_graph) (refl, refl)
    | inr seldom ↦
        elim (Option-cases (cycle_score from g.transfers (transfers_of to g.transfers))) [
          | inl good ↦ rw (seldom, good, screen_graph) (refl, refl)
          | inr (score, cycle) ↦ rw (seldom, cycle, screen_graph) (refl, refl)
        ]
  ]

  screen-IsCoded : IsCoded (screen host now from to qr fe).0
  unfolding screen map_reason_to_iso
  screen-IsCoded = elim check_qr-cases [
    | inl e ↦ rw (e, screen) (screen_graph-IsCoded _)
    | inr e ↦ rw (e, screen) (refl, refl)
  ]

-- What the answer is in, for any value in place of a panic.
abbrev CodesAnswer : Option (PaymentResponse × Gateway) → Type 0
CodesAnswer none = Unit
CodesAnswer (some (resp, gw)) =
    (resp.iso8583 ≡ map_reason_to_iso resp.reason_code)
    × ((resp.reason_code == code_approved) ≡ not (resp.status == "DECLINED"))

module _ (a : Ambient) (req : PayRequest) (gw : Gateway) where
  pay_offline-CodesAnswer : CodesAnswer (pay_offline a req gw)
  unfolding pay_offline map_reason_to_iso
  pay_offline-CodesAnswer = elim (Option-cases (contains req.account_id gw.cuckoo)) [
    | inl none_read ↦ rw (none_read, pay_offline) tt
    | inr (true, revoked) ↦ rw (revoked, pay_offline) (refl, refl)
    | inr (false, good) ↦ elim (Bool-cases (lt64 max_single_offline_limit (amount_of req))) [
      | inl above ↦ rw (good, above, pay_offline) (refl, refl)
      | inr within ↦ rw (good, within, pay_offline) (refl, refl)
    ]
  ]

  settled-CodesAnswer : (score : Score) (g : Gateway) → CodesAnswer (some (settled a req score g))
  unfolding map_reason_to_iso
  settled-CodesAnswer score g =
      elim (Option-cases
        (direct_commit a.now req.account_id req.merchant_id (amount_of req) (tx_id_of a.now req)
          g.ledger).0) [
            | inl done ↦ rw (done, settled) (refl, refl)
            | inr (e, failed) ↦ rw (failed, settled) (refl, refl)
          ]

  pay_online-CodesAnswer : CodesAnswer (some (pay_online a req gw))
  unfolding pay_online
  pay_online-CodesAnswer =
      let (verdict, fe) =
        screen a.host a.now req.account_id req.merchant_id req.dynamic_qr gw.fraud in
      let coded =
        screen-IsCoded a.host a.now req.account_id req.merchant_id req.dynamic_qr gw.fraud in
      elim (Bool-cases verdict.0) [
        | inr refused ↦ rw (refused, pay_online) (coded.0, coded.1 ∙ refused)
        | inl approved ↦
            rw (approved, pay_online) (settled-CodesAnswer verdict.3 (record gw { fraud = fe }))
      ]

  -- In each answer the ISO code is the one that MapReasonToISO gives for the reason, and the reason is
  -- APPROVED exactly if the status is not DECLINED.
  pub process_payment-codes :
      {resp : PaymentResponse} {gw' : Gateway}
      → process_payment a req gw ≡ some (resp, gw')
      → (resp.iso8583 ≡ map_reason_to_iso resp.reason_code)
        × ((resp.reason_code == code_approved) ≡ not (resp.status == "DECLINED"))
  unfolding process_payment
  process_payment-codes h = subst CodesAnswer h (elim (Bool-cases (gw.network == "DISCONNECTED")) [
    | inl offline ↦ rw (offline, process_payment) pay_offline-CodesAnswer
    | inr online ↦ rw (online, process_payment) pay_online-CodesAnswer
  ])
