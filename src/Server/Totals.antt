-- ===== src/Server/Totals.antt =====
-- What each handler of cmd/server/main.go does to the total that the audit reports.

use payment_risk_engine.Prelude.{
  ℕ, ◌<◌, ◌≡◌, refl, sym, ap, ◌∙◌, inl, inr, arith, String, Bool, ◌==◌, Bool-cases, Option-cases,
  Option, none, some, List, Int64, word, add64, lt64, if◌then◌else◌,
}
use payment_risk_engine.Ledger.{
  Time, Call, blocked, returned, ConservingLedger, audit_conservation, create_account,
  allocate_offline_allowance,
}
use payment_risk_engine.Ledger.Requests.{create, allocate, perform}
use payment_risk_engine.Ledger.Conservation.{minted, total_balance-perform}
use payment_risk_engine.Ledger.Funds.{total_balance-funds}
use payment_risk_engine.Reconcile.{ReplayState, replay}
use payment_risk_engine.Reconcile.Ends.{Ends, Ends-result, Call-cases}
use payment_risk_engine.Reconcile.Settling.{replay_keeps_total}
use payment_risk_engine.Gateway.{
  Ambient, PaymentRequest, PaymentGateway, NetworkStatus, ledger_of, process_payment,
  trigger_reconciliation, reconciled, set_network_status,
}
use payment_risk_engine.Gateway.Steps.{ledger_after}
use payment_risk_engine.Gateway.Money.{process_payment-total_balance}
use payment_risk_engine.Fraud.{insert_key}
use payment_risk_engine.Server.{
  Server, Reply, CreateRequest, handle_pay, handle_network_toggle, handle_reconcile,
  handle_allocate_allowance, handle_create_account, handle_revocation_add,
}

-- What the audit of the server reports.
abbrev pub total : Server → Int64
total s = (audit_conservation (ledger_of s.gw)).total_balance

abbrev total_in : PaymentGateway → Int64
total_in gw = (audit_conservation (ledger_of gw)).total_balance

abbrev pub server_after : Server → Option (Reply × Server) → Server
server_after s none = s
server_after s (some (reply, s')) = s'

module _ (a : Ambient) (s : Server) where
  pub handle_pay-total :
      (req : Option PaymentRequest) → total (server_after s (handle_pay a req s)) ≡ total s
  unfolding handle_pay
  handle_pay-total none = refl
  handle_pay-total (some req) = elim (Option-cases (process_payment a req s.gw)) [
    | inl panicked ↦ rw (panicked, handle_pay) refl
    | inr (r, e) ↦
        let kept : total_in r.1 ≡ total_in s.gw =
          ap (λ o. (audit_conservation (ledger_after s.gw o)).total_balance) (sym e)
          ∙ process_payment-total_balance a req s.gw in
        rw (e, handle_pay) kept
  ]

  trigger_reconciliation-total :
      (gw : PaymentGateway) → Ends (trigger_reconciliation a gw) (λ r. total_in r.1 ≡ total_in gw)
  unfolding trigger_reconciliation
  trigger_reconciliation-total gw =
      keep (replay a.host a.now gw.edge_wal gw.reconciler)
        (λ st e. replay_keeps_total a.host a.now gw.edge_wal gw.reconciler e)
    where
      keep :
          (c : Call ReplayState)
          → ((st : ReplayState)
              → c ≡ returned st
              → (audit_conservation st.reconciler.ledger).total_balance ≡ total_in gw)
          → Ends
              (elim c [ blocked ↦ blocked | returned st ↦ returned (reconciled gw st) ])
              (λ r. total_in r.1 ≡ total_in gw)
      keep blocked k = tt
      keep (returned st) k = k st refl

  pub handle_reconcile-total : Ends (handle_reconcile a s) (λ r. total r.1 ≡ total s)
  unfolding handle_reconcile
  handle_reconcile-total = elim (Call-cases (trigger_reconciliation a s.gw)) [
    | inl e ↦ rw (e, handle_reconcile) tt
    | inr (r, e) ↦
        rw (e, handle_reconcile)
          (Ends-result (λ r. total_in r.1 ≡ total s) e (trigger_reconciliation-total s.gw))
  ]

  pub handle_network_toggle-total :
      (status : Option NetworkStatus)
      → Ends (handle_network_toggle a status s) (λ r. total r.1 ≡ total s)
  unfolding handle_network_toggle set_network_status
  handle_network_toggle-total none = refl
  handle_network_toggle-total (some status) =
      let gw = set_network_status status s.gw in
      elim (Bool-cases (status == "RECONNECTED")) [
        | inr other ↦ rw (other, handle_network_toggle) refl
        | inl back ↦ elim (Call-cases (trigger_reconciliation a gw)) [
          | inl e ↦ rw (back, e, handle_network_toggle) tt
          | inr (r, e) ↦
              rw (back, e, handle_network_toggle)
                (Ends-result (λ r. total_in r.1 ≡ total s) e (trigger_reconciliation-total gw))
        ]
      ]

pub audit-lt : (l : ConservingLedger) → (audit_conservation l).total_balance < word
audit-lt l = omega (arith, total_balance-funds l)

-- A call of the ledger that brings nothing in.
allocate-total :
    (now : Time) (id : String) (x : Int64) (l : ConservingLedger)
    → (audit_conservation (allocate_offline_allowance now id x l).1).total_balance
      ≡ (audit_conservation l).total_balance
unfolding perform minted
allocate-total now id x l = omega (arith, total_balance-perform now (allocate id x) l, audit-lt l)

-- What a request for an account brings in: its balance, if it is named and new.
unfoldable pub opening : Server → Option CreateRequest → Int64
opening s none = 0
opening s (some req) =
    if req.account_id == "" then 0 else minted (create req.account_id req.balance) (ledger_of s.gw)

module _ (now : Time) (s : Server) where
  pub handle_allocate_allowance-total :
      (req : Option (String × Int64)) → total (handle_allocate_allowance now req s).1 ≡ total s
  unfolding handle_allocate_allowance
  handle_allocate_allowance-total none = refl
  handle_allocate_allowance-total (some (id, x)) =
      elim (Option-cases (allocate_offline_allowance now id x (ledger_of s.gw)).0) [
        | inl e ↦ rw (e, handle_allocate_allowance) (allocate-total now id x (ledger_of s.gw))
        | inr (err, e) ↦
            rw (e, handle_allocate_allowance) (allocate-total now id x (ledger_of s.gw))
      ]

  pub handle_create_account-total :
      (req : Option CreateRequest)
      → total (handle_create_account now req s).1 ≡ add64 (total s) (opening s req)
  unfolding handle_create_account opening perform
  handle_create_account-total none = omega (arith, audit-lt (ledger_of s.gw))
  handle_create_account-total (some req) =
      let l = ledger_of s.gw in
      let made = create_account now req.account_id req.balance l in
      let brought : (audit_conservation made).total_balance
          ≡ add64 (total s) (minted (create req.account_id req.balance) l) =
        total_balance-perform now (create req.account_id req.balance) l in
      elim (Bool-cases (req.account_id == "")) [
        | inl unnamed ↦ rw (unnamed, handle_create_account) (omega (arith, audit-lt l))
        | inr named ↦ elim (Bool-cases (lt64 0 req.offline_allowance)) [
          | inr none_asked ↦ rw (named, none_asked, handle_create_account, opening) brought
          | inl asked ↦
              rw (named, asked, handle_create_account, opening)
                (allocate-total now req.account_id req.offline_allowance made ∙ brought)
        ]
      ]

pub handle_revocation_add-total :
    (coin : Bool) (slots : List ℕ) (id : Option String) (s : Server)
    → total (server_after s (handle_revocation_add coin slots id s)) ≡ total s
unfolding handle_revocation_add
handle_revocation_add-total coin slots none s = refl
handle_revocation_add-total coin slots (some id) s =
    elim (Option-cases s.gw.edge_authorizer.revocation_filter) [
      | inl absent ↦ rw (absent, handle_revocation_add) refl
      | inr (cf, there) ↦ elim (Option-cases (insert_key coin slots id cf)) [
        | inl panicked ↦ rw (there, panicked, handle_revocation_add) refl
        | inr (r, done) ↦ rw (there, done, handle_revocation_add) refl
      ]
    ]
