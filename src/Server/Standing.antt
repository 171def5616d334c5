-- ===== src/Server/Standing.antt =====
-- That an account is in the revocation filter, and stays in it, whatever the handlers of
-- cmd/server/main.go do, as long as no later insertion gives up.
use mathlib.Core.Path.{subst}
use mathlib.Core.Option.{some-injective}
use payment_risk_engine.Prelude.{
  ℕ, ◌≡◌, refl, sym, ap, ◌∙◌, inl, inr, arith, String, Bool, true, false, ◌==◌, Bool-cases,
  Option-cases, Option, none, some, List, Int64,
}
use payment_risk_engine.Reconcile.Ends.{Call-cases}
use payment_risk_engine.Reconcile.{set_use_deficit_reserve}
use payment_risk_engine.Fraud.{CompactFilter, insert_key, contains, count_of}
use payment_risk_engine.Fraud.Placing.{IsFilter}
use payment_risk_engine.Fraud.Membership.{insert_key-contains}
use payment_risk_engine.Gateway.{
  Ambient, PaymentRequest, NetworkStatus, process_payment, trigger_reconciliation,
  set_network_status,
}
use payment_risk_engine.Gateway.Revocations.{
  filter_of, filter-process_payment, filter-trigger_reconciliation,
}
use payment_risk_engine.Ledger.{returned, Time}
use payment_risk_engine.Server.{
  Server, Reply, CreateRequest, ok, revocation, with_filter, handle_revocation_add, handle_pay,
  handle_network_toggle, handle_reconcile, handle_issue_token, handle_allocate_allowance,
  handle_toggle_reserve, handle_reset_fraud, handle_create_account,
}
use payment_risk_engine.Server.Conserved.{
  Step, pay, toggle, reconcile, set_aside, open_account, issue, switch_mode, forget, revoke, Reach,
  here, next,
}

module _ (coin : Bool) (slots : List ℕ) (id : String) (s : Server) (filter : CompactFilter)
    (has_filter : s.gw.edge_authorizer.revocation_filter ≡ some filter) where
  -- A revocation that is answered with true put the account into the authorizer's filter.
  revocation_inserts :
      (n : ℕ) (s' : Server)
      → handle_revocation_add coin slots (some id) s ≡ some (ok (revocation id true n), s')
      → (cf : CompactFilter) × (insert_key coin slots id filter ≡ some (true, cf))
        × (s' ≡ with_filter cf s)
  unfolding handle_revocation_add
  revocation_inserts n s' ran = elim (Option-cases (insert_key coin slots id filter)) [
    | inl panics ↦ absurd (ground (arith, has_filter, panics, ran))
    | inr ((false, cf), full) ↦ absurd (ground (arith, has_filter, full, ran))
    | inr ((true, cf), put) ↦
        let here : handle_revocation_add coin slots (some id) s
            ≡ some (ok (revocation id true (count_of cf)), with_filter cf s) =
          rw (has_filter, put, handle_revocation_add) refl in
        (cf, put, ap (λ (r : Reply × Server). r.1) (some-injective _ _ (sym ran ∙ here)))
  ]

-- The filter is sound and has the account.
pub record IsStanding (id : String) (s : Server) : Type 0 where
  pub filter : CompactFilter
  pub held : filter_of s.gw ≡ some filter
  pub sound : IsFilter filter
  pub listed : contains id filter ≡ some true

IsStanding-same :
    (id : String) (s s' : Server)
    → filter_of s'.gw ≡ filter_of s.gw
    → IsStanding id s
    → IsStanding id s'
IsStanding-same id s s' same h = record {
  filter = h.filter;
  held = same ∙ h.held;
  sound = h.sound;
  listed = h.listed;
}

-- A revocation that is answered with true put its account in, and took no other one out.
pub revocation-IsStanding :
    (coin : Bool) (slots : List ℕ) (id : String) (s s' : Server) (filter : CompactFilter) (n : ℕ)
    → filter_of s.gw ≡ some filter
    → IsFilter filter
    → handle_revocation_add coin slots (some id) s ≡ some (ok (revocation id true n), s')
    → IsStanding id s' × ((other : String) → IsStanding other s → IsStanding other s')
revocation-IsStanding coin slots id s s' filter n has_filter f ran =
    let (cf, put, same) = revocation_inserts coin slots id s filter has_filter n s' ran in
    let (f', found, kept) = insert_key-contains coin slots id filter cf f put in
    let held : filter_of s'.gw ≡ some cf = ap (λ t. filter_of t.gw) same in
    (
      record { filter = cf; held = held; sound = f'; listed = found },
      λ other h.
          let one : h.filter ≡ filter = some-injective _ _ (sym h.held ∙ has_filter) in
          record {
            filter = cf;
            held = held;
            sound = f';
            listed = kept other (ap (contains other) (sym one) ∙ h.listed);
          },
    )

-- No insertion of the request gives up: the server answers each revocation with true.
abbrev pub IsAnswered : {s s' : Server} {n : Int64} → Step s n s' → Type 0
IsAnswered (revoke coin slots id reply s' h) =
    (name : String) × (count : ℕ) × (id ≡ some name) × (reply ≡ ok (revocation name true count))
IsAnswered t = Unit

abbrev pub AllAnswered : {s s' : Server} {n : Int64} → Reach s n s' → Type 0
AllAnswered here = Unit
AllAnswered (next r t) = AllAnswered r × IsAnswered t

module _ (s : Server) where
  filter-handle_pay :
      (a : Ambient) (req : Option PaymentRequest) (reply : Reply) (s' : Server)
      → handle_pay a req s ≡ some (reply, s')
      → filter_of s'.gw ≡ filter_of s.gw
  unfolding handle_pay
  filter-handle_pay a none reply s' ran = ground (arith, ran)
  filter-handle_pay a (some req) reply s' ran = elim (Option-cases (process_payment a req s.gw)) [
    | inl panics ↦ absurd (ground (arith, panics, ran))
    | inr ((resp, gw'), e) ↦ ground (arith, e, ran, filter-process_payment a req resp s.gw gw' e)
  ]

  filter-handle_reconcile :
      (a : Ambient) (reply : Reply) (s' : Server)
      → handle_reconcile a s ≡ returned (reply, s')
      → filter_of s'.gw ≡ filter_of s.gw
  unfolding handle_reconcile
  filter-handle_reconcile a reply s' ran = elim (Call-cases (trigger_reconciliation a s.gw)) [
    | inl waits ↦ absurd (ground (arith, waits, ran))
    | inr ((r, gw'), e) ↦ ground (arith, e, ran, filter-trigger_reconciliation a r s.gw gw' e)
  ]

  filter-handle_network_toggle :
      (a : Ambient) (status : Option NetworkStatus) (reply : Reply) (s' : Server)
      → handle_network_toggle a status s ≡ returned (reply, s')
      → filter_of s'.gw ≡ filter_of s.gw
  unfolding handle_network_toggle set_network_status
  filter-handle_network_toggle a none reply s' ran = ground (arith, ran)
  filter-handle_network_toggle a (some status) reply s' ran =
      let gw = set_network_status status s.gw in
      elim (Bool-cases (status == "RECONNECTED")) [
        | inr other ↦ ground (arith, other, ran)
        | inl back ↦ elim (Call-cases (trigger_reconciliation a gw)) [
          | inl waits ↦ absurd (ground (arith, back, waits, ran))
          | inr ((r, gw'), e) ↦
              ground (arith, back, e, ran, filter-trigger_reconciliation a r gw gw' e)
        ]
      ]

  filter-handle_allocate_allowance :
      (now : Time) (req : Option (String × Int64))
      → filter_of (handle_allocate_allowance now req s).1.gw ≡ filter_of s.gw
  unfolding handle_allocate_allowance
  filter-handle_allocate_allowance now none = refl
  filter-handle_allocate_allowance now (some (id, x)) = ground arith

  filter-handle_create_account :
      (now : Time) (req : Option CreateRequest)
      → filter_of (handle_create_account now req s).1.gw ≡ filter_of s.gw
  unfolding handle_create_account
  filter-handle_create_account now none = refl
  filter-handle_create_account now (some req) = ground arith

Step-IsStanding :
    (id : String) {s s' : Server} {n : Int64} (t : Step s n s')
    → IsAnswered t
    → IsStanding id s
    → IsStanding id s'
unfolding handle_issue_token handle_toggle_reserve handle_reset_fraud set_use_deficit_reserve
Step-IsStanding id {s} (pay a req reply s' ran) k h =
    IsStanding-same id s s' (filter-handle_pay s a req reply s' ran) h
Step-IsStanding id {s} (toggle a status reply s' ran) k h =
    IsStanding-same id s s' (filter-handle_network_toggle s a status reply s' ran) h
Step-IsStanding id {s} (reconcile a reply s' ran) k h =
    IsStanding-same id s s' (filter-handle_reconcile s a reply s' ran) h
Step-IsStanding id {s} (set_aside now req) k h =
    IsStanding-same id s _ (filter-handle_allocate_allowance s now req) h
Step-IsStanding id {s} (open_account now req) k h =
    IsStanding-same id s _ (filter-handle_create_account s now req) h
Step-IsStanding id {s} (issue a none) k h = h
Step-IsStanding id {s} (issue a (some req)) k h =
    IsStanding-same id s (handle_issue_token a (some req) s).1 refl h
Step-IsStanding id {s} (switch_mode none) k h = h
Step-IsStanding id {s} (switch_mode (some enabled)) k h =
    IsStanding-same id s (handle_toggle_reserve (some enabled) s).1 refl h
Step-IsStanding id {s} (forget now) k h = IsStanding-same id s (handle_reset_fraud now s).1 refl h
Step-IsStanding id {s} (revoke coin slots asked reply s' ran) (name, count, one, told) h =
    (revocation-IsStanding coin slots name s s' h.filter count h.held h.sound (
        subst
          (λ o. handle_revocation_add coin slots o s ≡ some (ok (revocation name true count), s'))
          one (ran ∙ ap (λ (r : Reply). some (r, s')) told))).1
      id h

-- An account that is in the filter is still in it after any requests none of whose revocations gives
-- up.
pub Reach-IsStanding :
    (id : String) {s s' : Server} {n : Int64} (r : Reach s n s')
    → AllAnswered r
    → IsStanding id s
    → IsStanding id s'
Reach-IsStanding id here k h = h
Reach-IsStanding id (next r t) k h = Step-IsStanding id t k.1 (Reach-IsStanding id r k.0 h)
