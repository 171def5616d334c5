-- ===== src/Reconcile/Transfers.antt =====
-- The transfers that one transaction of a replay (m6_engine.go) makes on the ledger.
use payment_risk_engine.Prelude.{
  inl, inr, ◌≡◌, refl, ◌∙◌, arith, Bool-cases, sub64, lt64, le64, ◌⧺◌, if◌then◌else◌,
}
use payment_risk_engine.Edge.{QueuedTransaction}
use payment_risk_engine.Ledger.{
  Time, AccountSnapshot, ConservingLedger, Outcome, Call, blocked, returned, direct_commit,
  debit_deficit_reserve, record_deficit, audit_conservation,
}
use payment_risk_engine.Ledger.Requests.{
  Request, commit_offline, direct, debit_reserve, overdraw, perform, after,
}
use payment_risk_engine.Ledger.Conservation.{minted, total_balance-perform}
use payment_risk_engine.Ledger.Funds.{total_balance-funds}
use payment_risk_engine.Reconcile.Ends.{Ends}
use payment_risk_engine.Reconcile.Engine.{
  try_offline, try_online, try_funds, customer_covered, kept, charge_reserve, charge_overdraft,
}

-- The calls that a replay makes.
abbrev pub IsTransfer : Request → Type 0
IsTransfer (commit_offline id dest x tx) = Unit
IsTransfer (direct id dest x tx) = Unit
IsTransfer (debit_reserve merchant x tx) = Unit
IsTransfer (overdraw id dest x tx) = Unit
IsTransfer r = ⊥

-- What any number of them, one after the other, makes of a ledger.
pub data Transfers : ConservingLedger → ConservingLedger → Type 0 where
  stay : {l : ConservingLedger} → Transfers l l
  move :
      {l l' : ConservingLedger} (now : Time) (r : Request)
      → IsTransfer r
      → Transfers (after l (perform now r l)) l'
      → Transfers l l'

pub Transfers-trans : {a b c : ConservingLedger} → Transfers a b → Transfers b c → Transfers a c
Transfers-trans stay q = q
Transfers-trans (move now r i p) q = move now r i (Transfers-trans p q)

transfer_keeps :
    (now : Time) (r : Request) (l : ConservingLedger)
    → IsTransfer r
    → (audit_conservation (after l (perform now r l))).total_balance
      ≡ (audit_conservation l).total_balance
unfolding minted
transfer_keeps now (commit_offline id dest x tx) l i =
    omega (arith, total_balance-perform now (commit_offline id dest x tx) l, total_balance-funds l)
transfer_keeps now (direct id dest x tx) l i =
    omega (arith, total_balance-perform now (direct id dest x tx) l, total_balance-funds l)
transfer_keeps now (debit_reserve m x tx) l i =
    omega (arith, total_balance-perform now (debit_reserve m x tx) l, total_balance-funds l)
transfer_keeps now (overdraw id dest x tx) l i =
    omega (arith, total_balance-perform now (overdraw id dest x tx) l, total_balance-funds l)
transfer_keeps now r l i = absurd i

pub Transfers-keep :
    {l l' : ConservingLedger}
    → Transfers l l'
    → (audit_conservation l').total_balance ≡ (audit_conservation l).total_balance
Transfers-keep stay = refl
Transfers-keep {l} (move now r i p) = Transfers-keep p ∙ transfer_keeps now r l i

one_transfer :
    (now : Time) (r : Request) (l : ConservingLedger)
    → IsTransfer r
    → Transfers l (after l (perform now r l))
one_transfer now r l i = move now r i stay

module _ (now : Time) (tx : QueuedTransaction) (snap : AccountSnapshot) (l : ConservingLedger) where
  Transfers-try_offline : Transfers l (try_offline now tx snap l).1
  unfolding try_offline perform
  Transfers-try_offline = elim (Bool-cases (le64 tx.amount snap.offline_allowance)) [
    | inl e ↦
        rw e
          (one_transfer now (commit_offline tx.account_id tx.merchant_id tx.amount tx.tx_id) l tt)
    | inr e ↦ rw e stay
  ]

  Transfers-try_online : Transfers l (try_online now tx snap l).1
  unfolding try_online perform
  Transfers-try_online = elim (Bool-cases (le64 tx.amount snap.online_available)) [
    | inl e ↦ rw e (one_transfer now (direct tx.account_id tx.merchant_id tx.amount tx.tx_id) l tt)
    | inr e ↦ rw e stay
  ]

pub Transfers-try_funds :
    (now : Time) (tx : QueuedTransaction) (snap : AccountSnapshot) (l : ConservingLedger)
    → Transfers l (try_funds now tx snap l).1
unfolding try_funds
Transfers-try_funds now tx snap l = elim (Bool-cases (try_offline now tx snap l).0) [
  | inl e ↦ rw e (Transfers-try_offline now tx snap l)
  | inr e ↦ rw e (
      Transfers-trans (Transfers-try_offline now tx snap l)
        (Transfers-try_online now tx snap (try_offline now tx snap l).1))
]

kept-Transfers :
    {l0 : ConservingLedger} (l : ConservingLedger) (c : Call Outcome)
    → Transfers l0 l
    → Transfers l (after l c)
    → Ends (kept c) (Transfers l0)
kept-Transfers l blocked p q = tt
kept-Transfers l (returned (err, l')) p q = Transfers-trans p q

module _ (now : Time) (tx : QueuedTransaction) where
  pub charge_overdraft-Transfers :
      (l : ConservingLedger) → Ends (charge_overdraft now tx l) (Transfers l)
  unfolding charge_overdraft perform
  charge_overdraft-Transfers l =
      kept-Transfers l (record_deficit now tx.account_id tx.merchant_id tx.amount tx.tx_id l) stay
        (one_transfer now (overdraw tx.account_id tx.merchant_id tx.amount tx.tx_id) l tt)

  module _ (snap : AccountSnapshot) where
    -- The ledger after the part that the customer covers.
    unfoldable pub covered_part : ConservingLedger → ConservingLedger
    covered_part l =
        if lt64 0 (customer_covered snap.online_available tx.amount)
        then (direct_commit now tx.account_id tx.merchant_id
            (customer_covered snap.online_available tx.amount) (tx.tx_id ⧺ "-USER") l).1
        else l

    pub Transfers-covered_part : (l : ConservingLedger) → Transfers l (covered_part l)
    unfolding covered_part perform
    Transfers-covered_part l =
        elim (Bool-cases (lt64 0 (customer_covered snap.online_available tx.amount))) [
          | inl e ↦ rw e (
              one_transfer now
                (direct tx.account_id tx.merchant_id
                  (customer_covered snap.online_available tx.amount) (tx.tx_id ⧺ "-USER"))
                l tt)
          | inr e ↦ rw e stay
        ]

    pub charge_reserve-Transfers :
        (l : ConservingLedger) → Ends (charge_reserve now tx snap l) (Transfers l)
    unfolding charge_reserve covered_part perform
    charge_reserve-Transfers l =
        let rest = sub64 tx.amount (customer_covered snap.online_available tx.amount) in
        let id = tx.tx_id ⧺ "-RESERVE" in
        elim (Bool-cases
          (lt64 0 (sub64 tx.amount (customer_covered snap.online_available tx.amount)))) [
            | inl e ↦ rw e (
                kept-Transfers (covered_part l)
                  (debit_deficit_reserve now tx.merchant_id rest id (covered_part l))
                  (Transfers-covered_part l)
                  (one_transfer now (debit_reserve tx.merchant_id rest id) (covered_part l) tt))
            | inr e ↦ rw e (Transfers-covered_part l)
          ]
