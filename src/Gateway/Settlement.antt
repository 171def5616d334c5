-- ===== src/Gateway/Settlement.antt =====
-- The online settlement of m1_api.go: reserve, then commit, on the ledger of m2_conserving.go.
use payment_risk_engine.Prelude.{
  ◌<◌, ◌≡◌, refl, ap, ◌∙◌, ◌⊎◌, inl, inr, arith, String, true, false, ◌==◌, eq_iff, Option-cases,
  Option, none, some, lookup, Int64, word, lt64, positive_of_guard,
}
use payment_risk_engine.Telemetry.{Score, new_approval_response}
use payment_risk_engine.Ledger.{
  Time, ConservingLedger, LedgerError, insufficient_funds, reserve_funds, commit_hold,
}
use payment_risk_engine.Ledger.Requests.{reserve, perform, reserve_id-perform}
use payment_risk_engine.Ledger.Solvency.{IsSolvent}
use payment_risk_engine.Ledger.NoOverdraft.{customer_funds-perform, inflow_of}
use payment_risk_engine.Ledger.Reserved.{reserved-reserve_funds, commit_hold_succeeds}
use payment_risk_engine.Gateway.Types.{PaymentRequest}
use payment_risk_engine.Gateway.Online.{reservation_refusal, settle_hold, settle_online}

reserve_funds-error :
    (now : Time) (id : String) (x : Int64) (tx : String) (l : ConservingLedger) {e : LedgerError}
    → (reserve_funds now id x tx l).1 ≡ some e
    → (reserve_funds now id x tx l).2 ≡ l
unfolding reserve_funds
reserve_funds-error now id x tx l bad = elim (Option-cases (lookup id l.accounts)) [
  | inl new ↦ ground (arith, new)
  | inr (a, old) ↦ ground (arith, old)
]

pub reserve_funds-guard :
    (now : Time) (id : String) (x : Int64) (tx : String) (l : ConservingLedger)
    → (reserve_funds now id x tx l).1 ≡ none
    → lt64 0 x ≡ true
unfolding reserve_funds
reserve_funds-guard now id x tx l ok = elim (Option-cases (lookup id l.accounts)) [
  | inl new ↦ ground (arith, new)
  | inr (a, old) ↦ ground (arith, old)
]

reserve_funds-IsSolvent :
    (now : Time) (id : String) (x : Int64) (tx : String) (l : ConservingLedger)
    → x < word
    → IsSolvent l
    → IsSolvent (reserve_funds now id x tx l).2
unfolding perform inflow_of
reserve_funds-IsSolvent now id x tx l fits s =
    omega (arith, customer_funds-perform now (reserve id x tx) l fits (omega (arith, s)))

reserve_funds-reserve_id :
    (now : Time) (id : String) (x : Int64) (tx : String) (l : ConservingLedger)
    → (reserve_funds now id x tx l).2.deficit_reserve_account_id ≡ l.deficit_reserve_account_id
unfolding perform
reserve_funds-reserve_id now id x tx l = reserve_id-perform now (reserve id x tx) l

-- A hold that was just reserved is committed.
pub commit_after_reserve :
    (now : Time) (id dest : String) (x : Int64) (tx : String) (l : ConservingLedger)
    → IsSolvent l
    → (id == l.deficit_reserve_account_id) ≡ false
    → x < word
    → (reserve_funds now id x tx l).1 ≡ none
    → (commit_hold now id dest x tx (reserve_funds now id x tx l).2).0 ≡ none
commit_after_reserve now id dest x tx l s ne fits ok =
    let r = reserve_funds now id x tx l in
    let positive = positive_of_guard x fits (reserve_funds-guard now id x tx l ok) in
    let held =
      reserved-reserve_funds id now id x tx r.0 l r.2 s ne fits
        (ap (λ (e : Option LedgerError). (r.0, e, r.2)) ok) in
    commit_hold_succeeds now id dest x tx r.2 (reserve_funds-IsSolvent now id x tx l fits s)
      (ap (λ name. id == name) (reserve_funds-reserve_id now id x tx l) ∙ ne) positive.0
      (ground (arith, held, eq_iff id id))

pub reservation_refusal_declines :
    (score : Score) (e : LedgerError) → (reservation_refusal score e).status ≡ "DECLINED"
reservation_refusal_declines score insufficient_funds = refl
reservation_refusal_declines score e = refl

-- The ledger after both steps.
abbrev pub after_both : Time → PaymentRequest → ConservingLedger → ConservingLedger
after_both now req l =
    (commit_hold now req.account_id req.merchant_id req.amount req.tx_id
      (reserve_funds now req.account_id req.amount req.tx_id l).2).1

-- An online settlement of a customer on a solvent ledger is refused and leaves the ledger as it was,
-- or it is approved after both steps: the commit does not fail, and nothing is ever rolled back.
pub settle_online-cases :
    (now : Time) (req : PaymentRequest) (score : Score) (l : ConservingLedger)
    → IsSolvent l
    → (req.account_id == l.deficit_reserve_account_id) ≡ false
    → req.amount < word
    → (((settle_online now req score l).0.status ≡ "DECLINED")
        × ((settle_online now req score l).1 ≡ l))
      ⊎ (settle_online now req score l
          ≡ (new_approval_response req.tx_id req.account_id req.amount score, after_both now req l))
unfolding settle_online settle_hold
settle_online-cases now req score l s ne fits =
    elim (Option-cases (reserve_funds now req.account_id req.amount req.tx_id l).1) [
      | inr (e, bad) ↦ inl (
        ground (arith, bad, reservation_refusal_declines score e),
        ground (arith, bad, reserve_funds-error now req.account_id req.amount req.tx_id l bad),
      )
      | inl ok ↦ inr (
          ground (
            arith,
            ok,
            commit_after_reserve now req.account_id req.merchant_id req.amount req.tx_id l s ne fits
                ok,
          ))
    ]
