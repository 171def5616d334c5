-- ===== src/Ledger/Conservation.antt =====
-- Double-entry conservation: no call of m2_conserving.go moves the total of `AuditConservation`,
-- except by what an opening balance or a deposit brings in.
use payment_risk_engine.Prelude.{
  ◌+◌, ◌%◌, String, ◌≡◌, none, some, arith, inl, inr, [], ◌∷◌, List, Option-cases, lookup, Int64,
  word, add64,
}
use payment_risk_engine.Ledger.Types.{
  Time, Account, ConservingLedger, credit_online, debit_online, debit_offline, debit_reserved,
  online_to_offline, online_to_reserved, reserved_to_online,
}
use payment_risk_engine.Ledger.Accounts.{create_account, fund_account}
use payment_risk_engine.Ledger.Holds.{
  settle, reserve_funds, commit_hold, direct_commit, release_hold,
}
use payment_risk_engine.Ledger.Offline.{allocate_offline_allowance, commit_offline_allowance}
use payment_risk_engine.Ledger.Deficit.{debit_deficit_reserve, record_deficit}
use payment_risk_engine.Ledger.Audit.{audit_conservation}
use payment_risk_engine.Ledger.Requests.{
  Request, create, fund, allocate, commit_offline, reserve, commit, direct, release, debit_reserve,
  overdraw, perform, after, run,
}
use payment_risk_engine.Ledger.Creation.{
  lookup-create_account_self, lookup-create_account_old, sum-create_account,
}
use payment_risk_engine.Ledger.Settling.{sum-on_account, sum-settle}
use payment_risk_engine.Ledger.Funds.{
  buckets, funds, total_balance-funds, buckets-online_to_offline, buckets-online_to_reserved,
  buckets-reserved_to_online, buckets-credit_online, buckets-debit_online, buckets-debit_offline,
  buckets-debit_reserved,
}

-- What a call brings into the ledger from outside.
unfoldable pub minted : Request → ConservingLedger → Int64
minted (create id x) l = elim (lookup id l.accounts) [ none ↦ x | some a ↦ 0 ]
minted (fund id x) l = elim (lookup id l.accounts) [ none ↦ 0 | some a ↦ x ]
minted r l = 0

funds-create_account :
    (now : Time) (id : String) (l : ConservingLedger) → funds (create_account now id 0 l) ≡ funds l
funds-create_account now id l = ground (arith, sum-create_account now id 0 l buckets)

-- A debit and a credit of the same amount, between accounts that are there.
module _ (now : Time) (id dest : String) (x : Int64) (debit : Account → Account) where
  funds-settle :
      (l : ConservingLedger) (a d : Account)
      → ((b : Account) → ((buckets id (debit b) + x) % word) ≡ (buckets id b % word))
      → lookup id l.accounts ≡ some a
      → lookup dest l.accounts ≡ some d
      → (funds (settle id debit dest (credit_online now x) l) % word) ≡ (funds l % word)
  funds-settle l a d takes ha hd = ground (
    arith,
    sum-settle buckets id dest debit (credit_online now x) l a d ha hd,
    takes a,
    buckets-credit_online now x d dest,
    buckets-credit_online now x (debit a) dest,
  )

  -- The same after the destination has been created.
  funds-settle_created :
      (l : ConservingLedger) (a : Account)
      → ((b : Account) → ((buckets id (debit b) + x) % word) ≡ (buckets id b % word))
      → lookup id l.accounts ≡ some a
      → (funds (settle id debit dest (credit_online now x) (create_account now dest 0 l)) % word)
        ≡ (funds l % word)
  funds-settle_created l a takes ha = rw (← funds-create_account now dest l) (
      funds-settle (create_account now dest 0 l) a _ takes
        (lookup-create_account_old now dest 0 l id ha) (lookup-create_account_self now dest 0 l))

module _ (now : Time) (id : String) (x : Int64) (tx : String) (l : ConservingLedger) where
  funds-fund_account :
      (funds (fund_account now id x l).1 % word) ≡ ((funds l + minted (fund id x) l) % word)
  unfolding fund_account minted
  funds-fund_account = elim (Option-cases (lookup id l.accounts)) [
    | inl new ↦ ground arith
    | inr (a, old) ↦ ground (
      arith,
      sum-on_account buckets id (credit_online now x) l old,
      buckets-credit_online now x a id,
    )
  ]

  funds-allocate : (funds (allocate_offline_allowance now id x l).1 % word) ≡ (funds l % word)
  unfolding allocate_offline_allowance
  funds-allocate = elim (Option-cases (lookup id l.accounts)) [
    | inl new ↦ ground arith
    | inr (a, old) ↦ ground (
      arith,
      sum-on_account buckets id (online_to_offline now x) l old,
      buckets-online_to_offline now x a id,
    )
  ]

  funds-reserve : (funds (reserve_funds now id x tx l).2 % word) ≡ (funds l % word)
  unfolding reserve_funds
  funds-reserve = elim (Option-cases (lookup id l.accounts)) [
    | inl new ↦ ground arith
    | inr (a, old) ↦ ground (
      arith,
      sum-on_account buckets id (online_to_reserved now x) l old,
      buckets-online_to_reserved now x a id,
    )
  ]

  funds-release : (funds (release_hold now id x tx l).1 % word) ≡ (funds l % word)
  unfolding release_hold
  funds-release = elim (Option-cases (lookup id l.accounts)) [
    | inl new ↦ ground arith
    | inr (a, old) ↦ ground (
      arith,
      sum-on_account buckets id (reserved_to_online now x) l old,
      buckets-reserved_to_online now x a id,
    )
  ]

  module _ (dest : String) where
    funds-commit_offline :
        (funds (commit_offline_allowance now id dest x tx l).1 % word) ≡ (funds l % word)
    unfolding commit_offline_allowance
    funds-commit_offline = elim (Option-cases (lookup id l.accounts)) [
      | inl new ↦ ground arith
      | inr (a, old) ↦ ground (
        arith,
        funds-create_account now dest l,
        funds-settle_created now id dest x (debit_offline now x) l a
            (λ b. buckets-debit_offline now x b id) old,
      )
    ]

    funds-commit : (funds (commit_hold now id dest x tx l).1 % word) ≡ (funds l % word)
    unfolding commit_hold
    funds-commit = elim (Option-cases (lookup id l.accounts)) [
      | inl new ↦ ground arith
      | inr (a, old) ↦ ground (
        arith,
        funds-create_account now dest l,
        funds-settle_created now id dest x (debit_reserved now x) l a
            (λ b. buckets-debit_reserved now x b id) old,
      )
    ]

    funds-direct : (funds (direct_commit now id dest x tx l).1 % word) ≡ (funds l % word)
    unfolding direct_commit
    funds-direct = elim (Option-cases (lookup id l.accounts)) [
      | inl new ↦ ground arith
      | inr (a, old) ↦ ground (
        arith,
        funds-create_account now dest l,
        funds-settle_created now id dest x (debit_online now x) l a
            (λ b. buckets-debit_online now x b id) old,
      )
    ]

    -- Both deficit bookings create the two accounts, then debit the first online.
    funds-overdraft :
        (funds (
            settle id
              (debit_online now x)
              dest
              (credit_online now x)
              (create_account now dest 0 (create_account now id 0 l)))
          % word)
        ≡ (funds l % word)
    funds-overdraft = rw (← funds-create_account now id l) (
        funds-settle_created now id dest x (debit_online now x) (create_account now id 0 l) _
          (λ b. buckets-debit_online now x b id) (lookup-create_account_self now id 0 l))

funds-debit_reserve :
    (now : Time) (merchant : String) (x : Int64) (tx : String) (l : ConservingLedger)
    → (funds (after l (debit_deficit_reserve now merchant x tx l)) % word) ≡ (funds l % word)
unfolding debit_deficit_reserve
funds-debit_reserve now merchant x tx l =
    ground (arith, funds-overdraft now l.deficit_reserve_account_id x tx l merchant)

funds-overdraw :
    (now : Time) (id dest : String) (x : Int64) (tx : String) (l : ConservingLedger)
    → (funds (after l (record_deficit now id dest x tx l)) % word) ≡ (funds l % word)
unfolding record_deficit
funds-overdraw now id dest x tx l = ground (arith, funds-overdraft now id x tx l dest)

funds-perform :
    (now : Time) (r : Request) (l : ConservingLedger)
    → (funds (after l (perform now r l)) % word) ≡ ((funds l + minted r l) % word)
unfolding perform minted
funds-perform now (create id x) l = ground (arith, sum-create_account now id x l buckets)
funds-perform now (fund id x) l = unfold minted in funds-fund_account now id x "" l
funds-perform now (allocate id x) l = omega (arith, funds-allocate now id x "" l)
funds-perform now (commit_offline id dest x tx) l =
    omega (arith, funds-commit_offline now id x tx l dest)
funds-perform now (reserve id x tx) l = omega (arith, funds-reserve now id x tx l)
funds-perform now (commit id dest x tx) l = omega (arith, funds-commit now id x tx l dest)
funds-perform now (direct id dest x tx) l = omega (arith, funds-direct now id x tx l dest)
funds-perform now (release id x tx) l = omega (arith, funds-release now id x tx l)
funds-perform now (debit_reserve merchant x tx) l =
    omega (arith, funds-debit_reserve now merchant x tx l)
funds-perform now (overdraw id dest x tx) l = omega (arith, funds-overdraw now id dest x tx l)

-- Whatever the call and however it ends, the total that `AuditConservation` reports changes by
-- exactly what the call brings in from outside, in wrapping int64 arithmetic.
pub total_balance-perform :
    (now : Time) (r : Request) (l : ConservingLedger)
    → (audit_conservation (after l (perform now r l))).total_balance
      ≡ add64 (audit_conservation l).total_balance (minted r l)
total_balance-perform now r l = omega (
  arith,
  total_balance-funds l,
  total_balance-funds (after l (perform now r l)),
  funds-perform now r l,
)

-- What a sequence of calls brings in.
unfoldable pub minted_by : List (Time × Request) → ConservingLedger → Int64
minted_by [] l = 0
minted_by ((now, r) ∷ rest) l = add64 (minted r l) (minted_by rest (after l (perform now r l)))

-- After any sequence of calls, in any order, the reported total is the earlier one and what the
-- calls brought in: no interleaving of the calls makes or loses money.
pub total_balance-run :
    (calls : List (Time × Request)) (l : ConservingLedger)
    → (audit_conservation (run calls l)).total_balance
      ≡ add64 (audit_conservation l).total_balance (minted_by calls l)
unfolding run minted_by
total_balance-run [] l = omega (arith, total_balance-funds l)
total_balance-run ((now, r) ∷ rest) l =
    omega (arith, total_balance-run rest (after l (perform now r l)), total_balance-perform now r l)
