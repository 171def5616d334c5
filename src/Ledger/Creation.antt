-- ===== src/Ledger/Creation.antt =====
-- What `CreateAccount` of m2_conserving.go leaves in the map.
use payment_risk_engine.Prelude.{
  ℕ, ◌+◌, String, ◌≡◌, none, some, arith, false, inl, inr, ◌==◌, eq_iff, Option-cases, lookup,
  lookup-insert, sum_by, sum_by-insert_new, Int64,
}
use payment_risk_engine.Ledger.Types.{Time, Account, ConservingLedger}
use payment_risk_engine.Ledger.Accounts.{new_account, create_account}

module _ (now : Time) (id : String) (x : Int64) (l : ConservingLedger) where
  create_account_new :
      lookup id l.accounts ≡ none
      → lookup id (create_account now id x l).accounts ≡ some (new_account now id x)
  unfolding create_account
  create_account_new h =
      ground (arith, eq_iff id id, lookup-insert id id (new_account now id x) l.accounts)

  create_account_old : {d : Account} → lookup id l.accounts ≡ some d → create_account now id x l ≡ l
  unfolding create_account
  create_account_old h = ground arith

  -- The pointer that `CreateAccount` returns: the account that was there, or the new one.
  pub lookup-create_account_self :
      lookup id (create_account now id x l).accounts
      ≡ some (elim (lookup id l.accounts) [ none ↦ new_account now id x | some d ↦ d ])
  lookup-create_account_self = elim (Option-cases (lookup id l.accounts)) [
    | inl new ↦ ground (arith, create_account_new new)
    | inr (d, old) ↦ ground (arith, create_account_old old)
  ]

  -- No other account changes.
  pub lookup-create_account :
      (j : String)
      → (id == j) ≡ false
      → lookup j (create_account now id x l).accounts ≡ lookup j l.accounts
  unfolding create_account
  lookup-create_account j h = ground (arith, lookup-insert id j (new_account now id x) l.accounts)

  -- An account that was there stays.
  pub lookup-create_account_old :
      (j : String) {a : Account}
      → lookup j l.accounts ≡ some a
      → lookup j (create_account now id x l).accounts ≡ some a
  lookup-create_account_old j h =
      ground (arith, eq_iff id j, lookup-create_account j, lookup-create_account_self)

  -- A sum over the accounts grows by the weight of the account that was missing.
  pub sum-create_account :
      (w : String → Account → ℕ)
      → sum_by w (create_account now id x l).accounts
        ≡ sum_by w l.accounts
          + (elim (lookup id l.accounts) [ none ↦ w id (new_account now id x) | some d ↦ 0 ])
  unfolding create_account
  sum-create_account w = ground (arith, sum_by-insert_new w id (new_account now id x) l.accounts)
