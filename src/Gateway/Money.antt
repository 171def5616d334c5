-- ===== src/Gateway/Money.antt =====
-- The money of the ledger under `ProcessPayment` of m1_api.go.

use payment_risk_engine.Prelude.{
  ◌<◌, ◌≡◌, refl, ◌∙◌, arith, String, false, ◌==◌, Int64, word, positive_of_guard,
}
use payment_risk_engine.Ledger.{Time, ConservingLedger, audit_conservation}
use payment_risk_engine.Ledger.Requests.{
  Request, reserve, commit, release, perform, after, reserve_id-perform,
}
use payment_risk_engine.Ledger.Conservation.{minted, total_balance-perform}
use payment_risk_engine.Ledger.Funds.{total_balance-funds}
use payment_risk_engine.Ledger.Solvency.{IsSolvent}
use payment_risk_engine.Ledger.NoOverdraft.{customer_funds-perform, inflow_of, IsGuarded}
use payment_risk_engine.Gateway.{
  Ambient, PaymentRequest, PaymentGateway, ledger_of, process_payment,
}
use payment_risk_engine.Gateway.Steps.{ledger_after, process_payment-keeps}

abbrev total : ConservingLedger → Int64
total l = (audit_conservation l).total_balance

-- No payment makes or loses money: whatever the request, the network's state and the verdict of the
-- screening, the total that `AuditConservation` reports is the same after `ProcessPayment` as before.
pub process_payment-total_balance :
    (a : Ambient) (req : PaymentRequest) (gw : PaymentGateway)
    → (audit_conservation (ledger_after gw (process_payment a req gw))).total_balance
      ≡ (audit_conservation (ledger_of gw)).total_balance
unfolding perform minted
process_payment-total_balance a req gw =
    process_payment-keeps (λ l. total l ≡ total (ledger_of gw)) a req
      (λ tx l t. omega (
        arith,
        t,
        total_balance-funds l,
        total_balance-perform a.now (reserve req.account_id req.amount tx) l,
      ))
      (λ tx l t. omega (
        arith,
        t,
        total_balance-funds l,
        total_balance-perform a.now (commit req.account_id req.merchant_id req.amount tx) l,
      ))
      (λ tx l pos t. omega (
        arith,
        t,
        total_balance-funds l,
        total_balance-perform a.now (release req.account_id req.amount tx) l,
      ))
      gw refl

-- The solvent ledgers whose deficit reserve has the name `id`.
abbrev SolventWith : String → ConservingLedger → Type 0
SolventWith id l = (l.deficit_reserve_account_id ≡ id) × IsSolvent l

SolventWith-perform :
    (now : Time) (r : Request) (id : String) (l : ConservingLedger)
    → IsGuarded r
    → inflow_of r l ≡ 0
    → SolventWith id l
    → SolventWith id (after l (perform now r l))
SolventWith-perform now r id l g none_in (named, s) = (
  reserve_id-perform now r l ∙ named,
  omega (arith, s, none_in, customer_funds-perform now r l g (omega (arith, s, none_in))),
)

-- No payment of a customer overdraws: a solvent ledger is solvent after `ProcessPayment`, for any
-- request whose account is not the deficit reserve, in every state of the network.
pub process_payment-IsSolvent :
    (a : Ambient) (req : PaymentRequest) (gw : PaymentGateway)
    → (req.account_id == (ledger_of gw).deficit_reserve_account_id) ≡ false
    → req.amount < word
    → IsSolvent (ledger_of gw)
    → IsSolvent (ledger_after gw (process_payment a req gw))
unfolding perform inflow_of
process_payment-IsSolvent a req gw ne fits s =
    let name = (ledger_of gw).deficit_reserve_account_id in
    (process_payment-keeps (SolventWith name) a req
      (λ tx l t.
        SolventWith-perform a.now (reserve req.account_id req.amount tx) name l fits refl t)
      (λ tx l t.
        SolventWith-perform a.now (commit req.account_id req.merchant_id req.amount tx) name l fits
          (ground (arith, t.0, ne)) t)
      (λ tx l pos t.
        SolventWith-perform a.now (release req.account_id req.amount tx) name l
          (positive_of_guard req.amount fits pos).1 refl t)
      gw (refl, s)).1
