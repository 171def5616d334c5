-- ===== src/Standalone/Total.antt =====
-- The total that `AuditConservation` of fs2601_all_in_one.go reports, under the transfers of the ledger.
use payment_risk_engine.Prelude.{
  ℕ, ◌+◌, ◌%◌, ◌<◌, String, ◌≡◌, sym, ◌∙◌, inl, inr, arith, true, ◌==◌, Bool-cases, Option-cases,
  [], ◌∷◌, Map, lookup, lookup-adjust, adjust, sum_by, sum_by-adjust, Int64, word, IsNonneg, lt64,
  add64, if◌then◌else◌, Each, Each-lookup,
}
use payment_risk_engine.Ledger.{Time}
use payment_risk_engine.Standalone.{
  Account, ConservingLedger, account_deficit_reserve, with_account, audit_accounts,
  audit_conservation, paid_out, paid_in, direct_commit, debit_deficit_reserve, customer_charge,
  deficit_delta, offline_charged, absorb, offline_transfer,
}
use payment_risk_engine.Standalone.Existing.{is_open, is_open-lookup, with_account-SameAccounts}
use payment_risk_engine.Standalone.Payable.{IsPayable}

abbrev pub total_of : String → Account → ℕ
total_of k a = a.total_balance

abbrev pub totals : ConservingLedger → ℕ
totals l = sum_by total_of l.accounts

audit_accounts_lem :
    (t : Int64) (m : Map Account) → (audit_accounts t m % word) ≡ ((t + sum_by total_of m) % word)
unfolding audit_accounts
audit_accounts_lem t [] = omega arith
audit_accounts_lem t ((k, a) ∷ m) = omega (arith, audit_accounts_lem (add64 t a.total_balance) m)

audit_accounts-lt : (t : Int64) (m : Map Account) → t < word → audit_accounts t m < word
unfolding audit_accounts
audit_accounts-lt t [] h = h
audit_accounts-lt t ((k, a) ∷ m) h = audit_accounts-lt (add64 t a.total_balance) m (omega arith)

pub audit-totals : (l : ConservingLedger) → (audit_conservation l).0 ≡ totals l % word
unfolding audit_conservation
audit-totals l =
    omega (arith, audit_accounts_lem 0 l.accounts, audit_accounts-lt 0 l.accounts (omega arith))

-- A debit of one account and a credit of another.
module _ (now : Time) (x : Int64) (from to : String) (l : ConservingLedger)
    (p : IsPayable from to l) where
  totals-moved :
      (write : Account → Account)
      → totals (with_account to (paid_in now x) (with_account from write l))
          + p.payer.total_balance
          + p.payee.total_balance
        ≡ totals l + (write p.payer).total_balance + (paid_in now x p.payee).total_balance
  totals-moved write = ground (
    arith,
    p.has_payer,
    p.has_payee,
    p.apart,
    lookup-adjust from to write l.accounts,
    sum_by-adjust total_of from write p.payer l.accounts p.has_payer,
    sum_by-adjust total_of to (paid_in now x) p.payee (adjust from write l.accounts),
  )

totals-absorb :
    (now : Time) (x : Int64) (tx : String) (l : ConservingLedger)
    → is_open account_deficit_reserve l ≡ true
    → ((totals (absorb now x tx l) + (if lt64 0 x then x else 0)) % word) ≡ (totals l % word)
unfolding debit_deficit_reserve paid_out
totals-absorb now x tx l h =
    let (a, ha) = is_open-lookup account_deficit_reserve l h in
    ground
      (arith, ha, sum_by-adjust total_of account_deficit_reserve (paid_out now x) a l.accounts ha)

-- The reserve has an account, and no offline allowance is negative.
pub record IsSound (l : ConservingLedger) : Type 0 where
  pub has_reserve : is_open account_deficit_reserve l ≡ true
  pub allowances : Each (λ a. IsNonneg a.offline_allowance) l.accounts

module _ (now : Time) (x : Int64) (tx : String) (from to : String) (l : ConservingLedger) where
  pub totals-offline_transfer :
      IsSound l
      → (p : IsPayable from to l)
      → (totals (offline_transfer now from to x tx p.payer l) % word) ≡ (totals l % word)
  unfolding customer_charge deficit_delta offline_charged paid_in lt64
  totals-offline_transfer s p =
      let l1 = with_account from (offline_charged now x) l in
      let l2 = with_account to (paid_in now x) l1 in
      let open2 : is_open account_deficit_reserve l2 ≡ true =
        sym (
          with_account-SameAccounts from (offline_charged now x) l account_deficit_reserve
          ∙ with_account-SameAccounts to (paid_in now x) l1 account_deficit_reserve)
        ∙ s.has_reserve in
      ground (
        arith,
        Each-lookup (λ a. IsNonneg a.offline_allowance) from l.accounts s.allowances p.has_payer,
        totals-moved now x from to l p (offline_charged now x),
        totals-absorb now (deficit_delta x p.payer) tx l2 open2,
      )

  -- An online transfer leaves the total as it was, whatever its amount and its answer.
  pub totals-direct_commit :
      (totals (direct_commit now from to x tx l).1 % word) ≡ (totals l % word)
  unfolding direct_commit paid_out paid_in
  totals-direct_commit = elim (Option-cases (lookup from l.accounts)) [
    | inl new ↦ ground (arith, new)
    | inr (a, ha) ↦ elim (Option-cases (lookup to l.accounts)) [
      | inl new ↦ ground (arith, ha, new)
      | inr (d, hd) ↦ elim (Bool-cases (from == to)) [
        | inl same ↦ ground (arith, ha, hd, same)
        | inr apart ↦
            let p : IsPayable from to l = record {
              payer = a;
              payee = d;
              has_payer = ha;
              has_payee = hd;
              apart = apart;
            } in
            ground (arith, ha, hd, apart, totals-moved now x from to l p (paid_out now x))
      ]
    ]
  ]
