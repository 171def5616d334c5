-- ===== src/Fraud/Cycles.antt =====
-- What `detectCycleBFS` of m3_graph_fraud.go finds, against a description of the graph.
use mathlib.Core.Path.{subst}
use payment_risk_engine.Prelude.{
  ◌+◌, ◌<◌, ◌≡◌, refl, sym, ◌⊎◌, ◌↔◌, inl, inr, arith, String, Bool, true, false, ◌&&◌, ◌==◌,
  eq_iff, same_text, Bool-cases, List, [], ◌∷◌, ◌++◌, Option, none, some, lookup-insert,
}
use payment_risk_engine.Fraud.Graph.{
  Instant, sliding_window, TransactionEvent, GraphEngine, transfers_of, is_recent,
}
use payment_risk_engine.Fraud.Screening.{
  returns_to, cycle_through, detect_cycle, record_event, screen_graph,
}

abbrev pub Any : (TransactionEvent → Type 0) → List TransactionEvent → Type 0
Any P [] = ⊥
Any P (e ∷ events) = P e ⊎ Any P events

abbrev pub IsRecent : Instant → TransactionEvent → Type 0
IsRecent now e = now < e.timestamp + sliding_window

-- There is a recent transfer from the one account to the other.
abbrev pub Sent : Instant → GraphEngine → String → String → Type 0
Sent now g from to = Any (λ e. IsRecent now e × (e.to_acc ≡ to)) (transfers_of from g)

-- Money of `to` has come back to `from`, at once or through a third account.
abbrev pub ClosesCycle : Instant → GraphEngine → String → String → Type 0
ClosesCycle now g from to =
    Any (λ e. IsRecent now e × ((e.to_acc ≡ from) ⊎ Sent now g e.to_acc from)) (transfers_of to g)

returns_to-Any :
    (account : String) (now : Instant) (events : List TransactionEvent)
    → returns_to account now events ≡ true
    → Any (λ e. IsRecent now e × (e.to_acc ≡ account)) events
unfolding returns_to
returns_to-Any account now [] h = cc
returns_to-Any account now (e ∷ events) h =
    elim (Bool-cases (is_recent now e.timestamp && (e.to_acc == account))) [
      | inl good ↦ inl (ground (arith, good), same_text e.to_acc account (ground (arith, good)))
      | inr bad ↦ inr (returns_to-Any account now events (ground (arith, bad)))
    ]

Any-returns_to :
    (account : String) (now : Instant) (events : List TransactionEvent)
    → Any (λ e. IsRecent now e × (e.to_acc ≡ account)) events
    → returns_to account now events ≡ true
unfolding returns_to
Any-returns_to account now [] h = absurd h
Any-returns_to account now (e ∷ events) (inl p) = ground (arith, p, eq_iff e.to_acc account)
Any-returns_to account now (e ∷ events) (inr p) =
    ground (arith, Any-returns_to account now events p)

abbrev pub is_some {ℓ} : {A : Type ℓ} → Option A → Bool
is_some none = false
is_some (some a) = true

module _ (from to : String) (now : Instant) (g : GraphEngine) where
  cycle_through-Any :
      (events : List TransactionEvent)
      → is_some (cycle_through from to now events g) ≡ true
      → Any (λ e. IsRecent now e × ((e.to_acc ≡ from) ⊎ Sent now g e.to_acc from)) events
  unfolding cycle_through
  cycle_through-Any [] h = cc
  cycle_through-Any (e ∷ events) h = elim (Bool-cases (is_recent now e.timestamp)) [
    | inr old ↦ inr (cycle_through-Any events (ground (arith, old)))
    | inl new ↦ elim (Bool-cases (e.to_acc == from)) [
      | inl back ↦ inl (ground (arith, new), inl (same_text e.to_acc from back))
      | inr on ↦ elim (Bool-cases (returns_to from now (transfers_of e.to_acc g))) [
        | inl hop ↦
            inl (ground (arith, new), inr (returns_to-Any from now (transfers_of e.to_acc g) hop))
        | inr no_hop ↦ inr (cycle_through-Any events (ground (arith, new, on, no_hop)))
      ]
    ]
  ]

  Any-cycle_through :
      (events : List TransactionEvent)
      → Any (λ e. IsRecent now e × ((e.to_acc ≡ from) ⊎ Sent now g e.to_acc from)) events
      → is_some (cycle_through from to now events g) ≡ true
  unfolding cycle_through
  Any-cycle_through [] h = absurd h
  Any-cycle_through (e ∷ events) (inr p) = ground (arith, Any-cycle_through events p)
  Any-cycle_through (e ∷ events) (inl (new, inl back)) = ground (arith, eq_iff e.to_acc from)
  Any-cycle_through (e ∷ events) (inl (new, inr hop)) =
      ground (arith, Any-returns_to from now (transfers_of e.to_acc g) hop)

  -- A cycle is reported exactly if one is there.
  pub detect_cycle_iff :
      (to == "") ≡ false
      → (from == to) ≡ false
      → (is_some (detect_cycle from to now g) ≡ true) ↔ ClosesCycle now g from to
  unfolding detect_cycle
  detect_cycle_iff named other = (
    λ h. cycle_through-Any (transfers_of to g) (ground (arith, named, other)),
    λ c. ground (arith, named, other, Any-cycle_through (transfers_of to g) c),
  )

Any-append :
    (P : TransactionEvent → Type 0) (events : List TransactionEvent) (e : TransactionEvent)
    → P e
    → Any P (events ++ e ∷ [])
Any-append P [] e p = inl p
Any-append P (x ∷ events) e p = inr (Any-append P events e p)

transfers_of-record_event :
    (e : TransactionEvent) (g : GraphEngine)
    → transfers_of e.from_acc (record_event e g) ≡ transfers_of e.from_acc g ++ e ∷ []
unfolding transfers_of record_event
transfers_of-record_event e g = ground (
  arith,
  lookup-insert e.from_acc e.from_acc (transfers_of e.from_acc g ++ e ∷ []) g.account_transfers,
  eq_iff e.from_acc e.from_acc,
)

screen_graph-approved :
    (e : TransactionEvent) (g : GraphEngine)
    → (screen_graph e g).0.approved ≡ true
    → (screen_graph e g).1 ≡ record_event e g
unfolding screen_graph
screen_graph-approved e g ok = ground arith

screen_graph-cycle :
    (e : TransactionEvent) (g : GraphEngine)
    → is_some (detect_cycle e.from_acc e.to_acc e.timestamp g) ≡ true
    → (screen_graph e g).0.approved ≡ false
unfolding screen_graph
screen_graph-cycle e g found = ground arith

Any-weaken :
    (now : Instant) (from : String) (g : GraphEngine) (events : List TransactionEvent)
    → Any (λ x. IsRecent now x × (x.to_acc ≡ from)) events
    → Any (λ x. IsRecent now x × ((x.to_acc ≡ from) ⊎ Sent now g x.to_acc from)) events
Any-weaken now from g [] h = h
Any-weaken now from g (x ∷ events) (inl p) = inl (p.0, inl p.1)
Any-weaken now from g (x ∷ events) (inr p) = inr (Any-weaken now from g events p)

-- A payment back within the window after an approved one is refused.
pub payment_back_refused :
    (e back : TransactionEvent) (g : GraphEngine)
    → (screen_graph e g).0.approved ≡ true
    → back.from_acc ≡ e.to_acc
    → back.to_acc ≡ e.from_acc
    → (e.from_acc == "") ≡ false
    → (e.to_acc == e.from_acc) ≡ false
    → back.timestamp < e.timestamp + sliding_window
    → (screen_graph back (screen_graph e g).1).0.approved ≡ false
payment_back_refused e back g ok from to named other soon =
    let recorded = screen_graph-approved e g ok in
    let sent : Sent back.timestamp (record_event e g) e.from_acc e.to_acc =
      subst (Any (λ x. IsRecent back.timestamp x × (x.to_acc ≡ e.to_acc)))
        (sym (transfers_of-record_event e g))
        (Any-append (λ x. IsRecent back.timestamp x × (x.to_acc ≡ e.to_acc))
          (transfers_of e.from_acc g) e (soon, refl)) in
    rw recorded (
      screen_graph-cycle back (record_event e g) (
        rw from (
          rw to (
            (detect_cycle_iff e.to_acc e.from_acc back.timestamp (record_event e g) named other).1 (
              Any-weaken back.timestamp e.to_acc (record_event e g)
                (transfers_of e.from_acc (record_event e g)) sent)))))
