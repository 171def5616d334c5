-- ===== src/Ledger/Settling.antt =====
-- What a debit and a credit through two pointers, possibly the same one, do to a sum over the
-- accounts. Every commit of m2_conserving.go ends in such a pair.
use payment_risk_engine.Prelude.{
  ℕ, ◌+◌, String, ◌≡◌, some, arith, ◌==◌, eq_iff, if◌then◌else◌, lookup, lookup-adjust, sum_by,
  sum_by-adjust,
}
use payment_risk_engine.Ledger.Types.{Account, ConservingLedger}
use payment_risk_engine.Ledger.Accounts.{on_account}
use payment_risk_engine.Ledger.Holds.{settle}

module _ (w : String → Account → ℕ) where
  pub sum-on_account :
      (id : String) (f : Account → Account) (l : ConservingLedger) {a : Account}
      → lookup id l.accounts ≡ some a
      → sum_by w (on_account id f l).accounts + w id a ≡ sum_by w l.accounts + w id (f a)
  unfolding on_account
  sum-on_account id f l h = sum_by-adjust w id f _ l.accounts h

  module _ (id dest : String) (debit credit : Account → Account) (l : ConservingLedger) where
    -- The destination's balance is read after the debit.
    pub sum-settle :
        (a d : Account)
        → lookup id l.accounts ≡ some a
        → lookup dest l.accounts ≡ some d
        → let d' = if id == dest then debit a else d in
          sum_by w (settle id debit dest credit l).accounts + w id a + w dest d'
          ≡ sum_by w l.accounts + w id (debit a) + w dest (credit d')
    unfolding settle on_account
    sum-settle a d ha hd = ground (
      arith,
      eq_iff id dest,
      lookup-adjust id dest debit l.accounts,
      sum_by-adjust w id debit a l.accounts ha,
      sum_by-adjust w dest credit d (on_account id debit l).accounts,
      sum_by-adjust w dest credit (debit a) (on_account id debit l).accounts,
    )
