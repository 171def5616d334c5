-- ===== src/Fraud/Window.antt =====
-- What the searches and counts of m3_graph_fraud.go see of the window, before and after pruning.

use payment_risk_engine.Prelude.{
  ◌≤◌, ◌≡◌, refl, sym, ap, ◌∙◌, inl, inr, arith, String, true, eq_iff, Bool-cases, Option-cases,
  List, [], ◌∷◌, none, some, Map, lookup, lookup-insert, lookup-erase,
}
use payment_risk_engine.Fraud.Graph.{
  Instant, TransactionEvent, GraphEngine, transfers_of, last_seen, recent_events, unstale, is_empty,
  map_keys, prune_key, prune_keys, prune_expired_events, recent_seen,
}
use payment_risk_engine.Fraud.Screening.{returns_to, cycle_through, detect_cycle}

-- What a nil slice or map reads as, where the key is missing.
abbrev items_at {ℓ} : {A : Type ℓ} → String → Map (List A) → List A
items_at key m = elim (lookup key m) [ none ↦ [] | some items ↦ items ]

is_empty-eq {ℓ} : {A : Type ℓ} (xs : List A) → is_empty xs ≡ true → xs ≡ []
is_empty-eq [] h = refl
is_empty-eq (x ∷ xs) h = cc

module _ {ℓ} {A B : Type ℓ} (keep : List A → List A) (observe : List A → B)
    (kept : (items : List A) → observe (keep items) ≡ observe items) where
  observe-prune_key :
      (key asked : String) (m : Map (List A))
      → observe (items_at asked (prune_key keep key m)) ≡ observe (items_at asked m)
  unfolding prune_key
  observe-prune_key key asked m = elim (Option-cases (lookup key m)) [
    | inl new ↦ ground (arith, new)
    | inr (items, old) ↦ elim (Bool-cases (is_empty (keep items))) [
      | inl gone ↦ ground (
        arith,
        old,
        gone,
        is_empty-eq (keep items) gone,
        lookup-erase key asked m,
        eq_iff key asked,
        kept items,
      )
      | inr left ↦
          ground
            (arith, old, left, lookup-insert key asked (keep items) m, eq_iff key asked, kept items)
    ]
  ]

  pub observe-prune_keys :
      (asked : String) (keys : List String) (m : Map (List A))
      → observe (items_at asked (prune_keys keep keys m)) ≡ observe (items_at asked m)
  unfolding prune_keys
  observe-prune_keys asked [] m = refl
  observe-prune_keys asked (key ∷ keys) m =
      observe-prune_keys asked keys (prune_key keep key m) ∙ observe-prune_key key asked m

module _ (now later : Instant) (h : now ≤ later) where
  recent-recent :
      (events : List TransactionEvent)
      → recent_events later (recent_events now events) ≡ recent_events later events
  unfolding recent_events
  recent-recent [] = refl
  recent-recent (e ∷ events) = ground (arith, recent-recent events)

  recent-unstale :
      (seen : Map Instant) → recent_seen later (unstale now seen) ≡ recent_seen later seen
  unfolding recent_seen unstale
  recent-unstale [] = refl
  recent-unstale (entry ∷ seen) = ground (arith, recent-unstale seen)

  -- What is recent later is the same before and after a pruning.
  pub recent-transfers_of :
      (account : String) (g : GraphEngine)
      → recent_events later (transfers_of account (prune_expired_events now g))
        ≡ recent_events later (transfers_of account g)
  unfolding transfers_of prune_expired_events
  recent-transfers_of account g =
      observe-prune_keys (recent_events now) (recent_events later) recent-recent account
        (map_keys g.account_transfers) g.account_transfers

  pub recent-last_seen :
      (account : String) (g : GraphEngine)
      → recent_seen later (last_seen account (prune_expired_events now g).account_devices)
        ≡ recent_seen later (last_seen account g.account_devices)
  unfolding last_seen prune_expired_events
  recent-last_seen account g =
      observe-prune_keys (unstale now) (recent_seen later) recent-unstale account
        (map_keys g.account_devices) g.account_devices

-- Only recent events close a cycle.
returns_to-recent :
    (account : String) (now : Instant) (events : List TransactionEvent)
    → returns_to account now (recent_events now events) ≡ returns_to account now events
unfolding returns_to recent_events
returns_to-recent account now [] = refl
returns_to-recent account now (e ∷ events) = ground (arith, returns_to-recent account now events)

cycle_through-recent :
    (from to : String) (now : Instant) (events : List TransactionEvent) (g : GraphEngine)
    → cycle_through from to now (recent_events now events) g ≡ cycle_through from to now events g
unfolding cycle_through recent_events
cycle_through-recent from to now [] g = refl
cycle_through-recent from to now (e ∷ events) g =
    ground (arith, cycle_through-recent from to now events g)

cycle_through-engine :
    (from to : String) (now : Instant) (events : List TransactionEvent) (g g' : GraphEngine)
    → ((account : String)
        → recent_events now (transfers_of account g') ≡ recent_events now (transfers_of account g))
    → cycle_through from to now events g' ≡ cycle_through from to now events g
unfolding cycle_through
cycle_through-engine from to now [] g g' same = refl
cycle_through-engine from to now (e ∷ events) g g' same =
    let hop : returns_to from now (transfers_of e.to_acc g')
        ≡ returns_to from now (transfers_of e.to_acc g) =
      sym (returns_to-recent from now (transfers_of e.to_acc g'))
      ∙ ap (returns_to from now) (same e.to_acc)
      ∙ returns_to-recent from now (transfers_of e.to_acc g) in
    ground (arith, hop, cycle_through-engine from to now events g g' same)

pub detect_cycle-engine :
    (from to : String) (now : Instant) (g g' : GraphEngine)
    → ((account : String)
        → recent_events now (transfers_of account g') ≡ recent_events now (transfers_of account g))
    → detect_cycle from to now g' ≡ detect_cycle from to now g
unfolding detect_cycle
detect_cycle-engine from to now g g' same =
    let path : cycle_through from to now (transfers_of to g') g'
        ≡ cycle_through from to now (transfers_of to g) g =
      sym (cycle_through-recent from to now (transfers_of to g') g')
      ∙ ap (λ es. cycle_through from to now es g') (same to)
      ∙ cycle_through-engine from to now (recent_events now (transfers_of to g)) g g' same
      ∙ cycle_through-recent from to now (transfers_of to g) g in
    ground (arith, path)
