-- ===== src/Standalone/Screening.antt =====
-- The screening of fs2601_all_in_one.go: `InMemGraphFraudEngine` and `Screen`.
use payment_risk_engine.Prelude.{
  ◌+◌, ◌/◌, String, Bool, true, false, ◌==◌, List, [], ◌∷◌, ◌++◌, Option, none, some, Map, lookup,
  insert, ltb, leb, length, if◌then◌else◌,
}
use payment_risk_engine.Host.{Host, Bytes}
use payment_risk_engine.Telemetry.{Score}
use payment_risk_engine.Fraud.{Instant}
use payment_risk_engine.Standalone.Answers.{
  code_approved, code_qr_tampering, code_mule_ring_detected, iso_approved, iso_qr_tampering,
  iso_mule_ring_detected,
}
use payment_risk_engine.Standalone.Codes.{DynamicQrPayload, verify_dynamic_qr}

pub record TransactionEvent : Type 0 where
  pub tx_id : String
  pub from_acc : String
  pub to_acc : String
  pub timestamp : Instant

pub record GraphEngine : Type 0 where
  pub transfers : Map (List TransactionEvent)
  pub terminal_pub_keys : Map Bytes

-- `NewInMemGraphFraudEngine`
abbrev pub new_graph_engine : GraphEngine
new_graph_engine = record { transfers = []; terminal_pub_keys = [] }

-- `RegisterTerminalKey`
unfoldable pub register_terminal_key : String → Bytes → GraphEngine → GraphEngine
register_terminal_key terminal key fe = record fe {
  terminal_pub_keys = insert terminal key fe.terminal_pub_keys;
}

-- `Screen`'s results: approved or not, the reason, its ISO code, and the score in hundredths.
abbrev pub Verdict : Type 0
Verdict = Bool × String × String × Score

abbrev pub window : Instant
window = 60000000000

-- The events after the cutoff.
unfoldable pub live_events : Instant → List TransactionEvent → List TransactionEvent
live_events now [] = []
live_events now (e ∷ evs) =
    let others = live_events now evs in
    if ltb now (e.timestamp + window) then e ∷ others else others

-- The pruning: an account without such events is deleted.
unfoldable pub prune : Instant → Map (List TransactionEvent) → Map (List TransactionEvent)
unfolding live_events
prune now [] = []
prune now ((acc, evs) ∷ m) =
    let others = prune now m in
    elim (live_events now evs) [ [] ↦ others | e ∷ valid ↦ (acc, e ∷ valid) ∷ others ]

abbrev pub transfers_of : String → Map (List TransactionEvent) → List TransactionEvent
transfers_of acc m = elim (lookup acc m) [ none ↦ [] | some evs ↦ evs ]

unfoldable pub goes_to : String → List TransactionEvent → Bool
goes_to acc [] = false
goes_to acc (e ∷ evs) = let others = goes_to acc evs in if e.to_acc == acc then true else others

-- The loop over the first hops: the score of the first cycle that it meets.
unfoldable pub cycle_score :
    String → Map (List TransactionEvent) → List TransactionEvent → Option Score
unfolding goes_to
cycle_score from m [] = none
cycle_score from m (hop1 ∷ evs) =
    let others = cycle_score from m evs in
    if hop1.to_acc == from
    then some 95
    else if goes_to from (transfers_of hop1.to_acc m)
    then some 98
    else others

abbrev pub tampered : Verdict
tampered = (false, code_qr_tampering, iso_qr_tampering, 100)

abbrev pub mule_ring : Score → Verdict
mule_ring score = (false, code_mule_ring_detected, iso_mule_ring_detected, score)

-- Step 1; `some` is a refusal.
unfoldable pub check_qr :
    Host → Instant → Option DynamicQrPayload → String → GraphEngine → Option Verdict
check_qr host now none to fe = none
check_qr host now (some qr) to fe = elim (lookup qr.terminal_id fe.terminal_pub_keys) [
  | none ↦ some tampered
  | some key ↦
      if (verify_dynamic_qr host (now / 1000000000) key (some qr) to).0 then none else some tampered
]

-- Steps 2 and 3, on the events that are left, and the record of what passes.
unfoldable pub screen_graph : Instant → String → String → GraphEngine → Verdict × GraphEngine
screen_graph now from to fe =
    if leb 15 (length (transfers_of from fe.transfers))
    then (mule_ring 90, fe)
    else elim (cycle_score from fe.transfers (transfers_of to fe.transfers)) [
      | some score ↦ (mule_ring score, fe)
      | none ↦
          let e : TransactionEvent = record {
            tx_id = "";
            from_acc = from;
            to_acc = to;
            timestamp = now;
          } in
          (
            (true, code_approved, iso_approved, 5),
            record fe {
              transfers = insert from (transfers_of from fe.transfers ++ e ∷ []) fe.transfers;
            },
          )
    ]

-- `Screen`, which does not look at the amount. One reading of the clock serves the check and the
-- window.
unfoldable pub screen :
    Host → Instant → String → String → Option DynamicQrPayload → GraphEngine → Verdict × GraphEngine
screen host now from to qr fe = elim (check_qr host now qr to fe) [
  | some refusal ↦ (refusal, fe)
  | none ↦ screen_graph now from to (record fe { transfers = prune now fe.transfers })
]
