-- ===== src/Gateway/Transfer.antt =====
-- What an approved online payment of m1_api.go does to the balances.
use payment_risk_engine.Prelude.{
  ◌<◌, ◌≡◌, sym, ap, ◌∙◌, inl, inr, arith, String, false, ◌==◌, eq_iff, Option-cases, Option, none,
  some, lookup, lookup-adjust, Int64, word, add64, sub64, if◌then◌else◌,
}
use payment_risk_engine.Telemetry.{Score}
use payment_risk_engine.Ledger.{
  Time, Account, ConservingLedger, reserve_funds, commit_hold, on_account, create_account, settle,
  online_to_reserved, debit_reserved, credit_online,
}
use payment_risk_engine.Ledger.Creation.{lookup-create_account_old, lookup-create_account_self}
use payment_risk_engine.Gateway.Types.{PaymentRequest}
use payment_risk_engine.Gateway.Online.{settle_hold, settle_online}
use payment_risk_engine.Ledger.Solvency.{IsSolvent}
use payment_risk_engine.Gateway.Settlement.{commit_after_reserve, reservation_refusal_declines}

abbrev pub online_in : Option Account → Int64
online_in none = 0
online_in (some a) = a.online_available

-- The online funds of an account, 0 where there is none.
abbrev pub online_of : String → ConservingLedger → Int64
online_of id l = online_in (lookup id l.accounts)

module _ (now : Time) (id dest : String) (x : Int64) (tx : String) where
  reserve_online :
      (l : ConservingLedger)
      → (reserve_funds now id x tx l).1 ≡ none
      → (online_of id (reserve_funds now id x tx l).2 ≡ sub64 (online_of id l) x)
        × (online_of dest (reserve_funds now id x tx l).2
            ≡ (if id == dest then sub64 (online_of dest l) x else online_of dest l))
  unfolding reserve_funds online_to_reserved
  reserve_online l ok = elim (Option-cases (lookup id l.accounts)) [
    | inl new ↦ ground (arith, new)
    | inr (a, old) ↦ ground (
      arith,
      old,
      lookup-adjust id id (online_to_reserved now x) l.accounts,
      lookup-adjust id dest (online_to_reserved now x) l.accounts,
      eq_iff id id,
      eq_iff id dest,
    )
  ]

  commit_online :
      (l : ConservingLedger)
      → (id == dest) ≡ false
      → (commit_hold now id dest x tx l).0 ≡ none
      → (online_of id (commit_hold now id dest x tx l).1 ≡ online_of id l)
        × (online_of dest (commit_hold now id dest x tx l).1 ≡ add64 (online_of dest l) x)
  unfolding commit_hold settle debit_reserved credit_online
  commit_online l other ok = elim (Option-cases (lookup id l.accounts)) [
    | inl new ↦ ground (arith, new)
    | inr (a, old) ↦
        let m = create_account now dest 0 l in
        ground (
          arith,
          old,
          lookup-create_account_old now dest 0 l id old,
          lookup-create_account_self now dest 0 l,
          lookup-adjust id id (debit_reserved now x) m.accounts,
          lookup-adjust id dest (debit_reserved now x) m.accounts,
          lookup-adjust dest id (credit_online now x)
              (on_account id (debit_reserved now x) m).accounts,
          lookup-adjust dest dest (credit_online now x)
              (on_account id (debit_reserved now x) m).accounts,
          eq_iff id id,
          eq_iff id dest,
          eq_iff dest id,
          eq_iff dest dest,
        )
  ]

-- An approved online payment takes exactly its amount from the payer's online funds and adds it to
-- the merchant's, for a customer who is not the merchant, on a solvent ledger.
pub settle_online_moves :
    (now : Time) (req : PaymentRequest) (score : Score) (l : ConservingLedger)
    → IsSolvent l
    → (req.account_id == l.deficit_reserve_account_id) ≡ false
    → (req.account_id == req.merchant_id) ≡ false
    → req.amount < word
    → (settle_online now req score l).0.status ≡ "APPROVED"
    → (online_of req.account_id (settle_online now req score l).1
        ≡ sub64 (online_of req.account_id l) req.amount)
      × (online_of req.merchant_id (settle_online now req score l).1
          ≡ add64 (online_of req.merchant_id l) req.amount)
unfolding settle_online settle_hold
settle_online_moves now req score l s ne other fits approved =
    elim (Option-cases (reserve_funds now req.account_id req.amount req.tx_id l).1) [
      | inr (e, bad) ↦
          let declined : (settle_online now req score l).0.status ≡ "DECLINED" =
            ground (arith, bad, reservation_refusal_declines score e) in
          ground (arith, ap (λ (t : String). t == "APPROVED") (sym declined ∙ approved))
      | inl ok ↦
          let committed =
            commit_after_reserve now req.account_id req.merchant_id req.amount req.tx_id l s ne fits
              ok in
          let r = reserve_online now req.account_id req.merchant_id req.amount req.tx_id l ok in
          let c =
            commit_online now req.account_id req.merchant_id req.amount req.tx_id
              (reserve_funds now req.account_id req.amount req.tx_id l).2 other committed in
          ground (arith, ok, committed, r, c, other)
    ]
