-- ===== src/Standalone/Negative.antt =====
-- `DirectCommit` of fs2601_all_in_one.go has no guard on the sign of the amount.
use payment_risk_engine.Prelude.{
  ◌+◌, ◌-◌, ◌<◌, String, ◌≡◌, refl, arith, false, ◌==◌, eq_iff, none, some, lookup, lookup-adjust,
  adjust, Int64, word, IsNonneg, sub64, lt64,
}
use payment_risk_engine.Ledger.{Time}
use payment_risk_engine.Standalone.{
  ConservingLedger, with_account, paid_out, paid_in, direct_transfer, direct_commit,
}
use payment_risk_engine.Standalone.Payable.{IsPayable}

-- The online funds of an account, 0 where there is none.
abbrev pub online_of : String → ConservingLedger → Int64
online_of id l = elim (lookup id l.accounts) [ none ↦ 0 | some a ↦ a.online_available ]

module _ (now : Time) (from to : String) (d : Int64) (tx : String) (l : ConservingLedger)
    (p : IsPayable from to l) where
  -- Between two different accounts that are there, a call of DirectCommit for minus d, where d is
  -- positive and an int64, succeeds if the payer's online funds are not negative, and moves d from the
  -- payee to the payer.
  pub negative_payment_takes :
      0 < d
      → IsNonneg d
      → IsNonneg p.payer.online_available
      → (direct_commit now from to (word - d) tx l
          ≡ (none, direct_transfer now from to (word - d) tx l))
        × (online_of from (direct_commit now from to (word - d) tx l).1
            ≡ p.payer.online_available + d)
        × (online_of to (direct_commit now from to (word - d) tx l).1
            ≡ sub64 p.payee.online_available d)
  unfolding direct_commit lt64 paid_out paid_in
  negative_payment_takes pos small solvent =
      let enough : lt64 p.payer.online_available (word - d) ≡ false =
        ground (arith, pos, small, solvent) in
      let e : direct_commit now from to (word - d) tx l
          ≡ (none, direct_transfer now from to (word - d) tx l) =
        rw (p.has_payer, p.has_payee, p.apart, enough, direct_commit) refl in
      let out = paid_out now (word - d) in
      let paid = (with_account from out l).accounts in
      let back : (to == from) ≡ false = ground (arith, eq_iff from to, eq_iff to from, p.apart) in
      let from_after : lookup from (adjust to (paid_in now (word - d)) paid) ≡ some (out p.payer) =
        rw
          (
            lookup-adjust to from (paid_in now (word - d)) paid,
            back,
            lookup-adjust from from out l.accounts,
            (eq_iff from from).1 refl,
            p.has_payer,
          )
          refl in
      let to_after : lookup to (adjust to (paid_in now (word - d)) paid)
          ≡ some (paid_in now (word - d) p.payee) =
        rw
          (
            lookup-adjust to to (paid_in now (word - d)) paid,
            (eq_iff to to).1 refl,
            lookup-adjust from to out l.accounts,
            p.apart,
            p.has_payee,
          )
          refl in
      (
        e,
        rw (e, from_after, online_of) (omega (arith, pos, small, solvent)),
        rw (e, to_after, online_of) (omega (arith, pos, small)),
      )
