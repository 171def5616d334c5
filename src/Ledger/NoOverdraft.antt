-- ===== src/Ledger/NoOverdraft.antt =====
-- Every guarded operation of m2_conserving.go keeps the customers solvent.
use payment_risk_engine.Prelude.{
  ℕ, ◌+◌, ◌≤◌, ◌<◌, String, none, some, arith, inl, inr, [], ◌∷◌, List, eq_iff, Option-cases,
  lookup, le-sum_by, Int64, word, half_word, lt64-nonneg, IsNonneg,
}
use payment_risk_engine.Ledger.Types.{
  Time, ConservingLedger, credit_online, debit_online, debit_offline, debit_reserved,
  online_to_offline, online_to_reserved, reserved_to_online,
}
use payment_risk_engine.Ledger.Accounts.{new_account, create_account, fund_account}
use payment_risk_engine.Ledger.Holds.{reserve_funds, commit_hold, direct_commit, release_hold}
use payment_risk_engine.Ledger.Offline.{allocate_offline_allowance, commit_offline_allowance}
use payment_risk_engine.Ledger.Deficit.{debit_deficit_reserve}
use payment_risk_engine.Ledger.Requests.{
  Request, create, fund, allocate, commit_offline, reserve, commit, direct, release, debit_reserve,
  overdraw, perform, after, run,
}
use payment_risk_engine.Ledger.Creation.{lookup-create_account_self, sum-create_account}
use payment_risk_engine.Ledger.Settling.{sum-on_account}
use payment_risk_engine.Ledger.Solvency.{
  customer, customer_funds, IsSolvent, IsSolvent-nonneg, inflow, solvent-create_account,
  reserve_id-create_account, covered, solvent-settle_created,
}
use payment_risk_engine.Ledger.Exact.{
  exact_credit_online, exact_debit_online, exact_debit_offline, exact_debit_reserved,
  exact_online_to_offline, exact_online_to_reserved, exact_reserved_to_online,
}

module _ (now : Time) (id : String) (x : Int64) (tx : String) (l : ConservingLedger)
    (s : IsSolvent l) (fits : x < word) where
  solvent-allocate : customer_funds (allocate_offline_allowance now id x l).1 ≤ customer_funds l
  unfolding allocate_offline_allowance
  solvent-allocate = elim (Option-cases (lookup id l.accounts)) [
    | inl new ↦ ground arith
    | inr (a, old) ↦ ground (
      arith,
      IsSolvent-nonneg l id a s old,
      covered a.online_available x,
      sum-on_account (customer l.deficit_reserve_account_id) id (online_to_offline now x) l old,
      exact_online_to_offline now x id a,
    )
  ]

  solvent-reserve : customer_funds (reserve_funds now id x tx l).2 ≤ customer_funds l
  unfolding reserve_funds
  solvent-reserve = elim (Option-cases (lookup id l.accounts)) [
    | inl new ↦ ground arith
    | inr (a, old) ↦ ground (
      arith,
      IsSolvent-nonneg l id a s old,
      covered a.online_available x,
      sum-on_account (customer l.deficit_reserve_account_id) id (online_to_reserved now x) l old,
      exact_online_to_reserved now x id a,
    )
  ]

  -- The release of a hold has no guard on the sign: it is needed as a hypothesis.
  solvent-release : IsNonneg x → customer_funds (release_hold now id x tx l).1 ≤ customer_funds l
  unfolding release_hold
  solvent-release p = elim (Option-cases (lookup id l.accounts)) [
    | inl new ↦ ground arith
    | inr (a, old) ↦ ground (
      arith,
      IsSolvent-nonneg l id a s old,
      lt64-nonneg a.reserved_balance x,
      sum-on_account (customer l.deficit_reserve_account_id) id (reserved_to_online now x) l old,
      exact_reserved_to_online now x id a,
    )
  ]

  module _ (dest : String) (bound : customer_funds l + inflow id x l < half_word) where
    solvent-commit_offline :
        customer_funds (commit_offline_allowance now id dest x tx l).1
        ≤ customer_funds l + inflow id x l
    unfolding commit_offline_allowance
    solvent-commit_offline = elim (Option-cases (lookup id l.accounts)) [
      | inl new ↦ ground arith
      | inr (a, old) ↦ ground (
        arith,
        IsSolvent-nonneg l id a s old,
        covered a.offline_allowance x,
        solvent-create_account now dest l,
        exact_debit_offline now x id a,
        solvent-settle_created now id dest x (debit_offline now x) l a old,
      )
    ]

    solvent-commit :
        customer_funds (commit_hold now id dest x tx l).1 ≤ customer_funds l + inflow id x l
    unfolding commit_hold
    solvent-commit = elim (Option-cases (lookup id l.accounts)) [
      | inl new ↦ ground arith
      | inr (a, old) ↦ ground (
        arith,
        IsSolvent-nonneg l id a s old,
        covered a.reserved_balance x,
        solvent-create_account now dest l,
        exact_debit_reserved now x id a,
        solvent-settle_created now id dest x (debit_reserved now x) l a old,
      )
    ]

    solvent-direct :
        customer_funds (direct_commit now id dest x tx l).1 ≤ customer_funds l + inflow id x l
    unfolding direct_commit
    solvent-direct = elim (Option-cases (lookup id l.accounts)) [
      | inl new ↦ ground arith
      | inr (a, old) ↦ ground (
        arith,
        IsSolvent-nonneg l id a s old,
        covered a.online_available x,
        solvent-create_account now dest l,
        exact_debit_online now x id a,
        solvent-settle_created now id dest x (debit_online now x) l a old,
      )
    ]

solvent-debit_reserve :
    (now : Time) (merchant : String) (x : Int64) (tx : String) (l : ConservingLedger)
    → customer_funds l + x < half_word
    → customer_funds (after l (debit_deficit_reserve now merchant x tx l)) ≤ customer_funds l + x
unfolding debit_deficit_reserve
solvent-debit_reserve now merchant x tx l bound =
    let reserve = l.deficit_reserve_account_id in
    ground (
      arith,
      eq_iff reserve reserve,
      solvent-create_account now reserve l,
      reserve_id-create_account now reserve l,
      solvent-settle_created now reserve merchant x (debit_online now x)
          (create_account now reserve 0 l)
          (elim (lookup reserve l.accounts) [ none ↦ new_account now reserve 0 | some d ↦ d ])
          (lookup-create_account_self now reserve 0 l),
    )

solvent-create :
    (now : Time) (id : String) (x : Int64) (l : ConservingLedger)
    → customer_funds (create_account now id x l) ≤ customer_funds l + x
unfolding create_account
solvent-create now id x l =
    ground (arith, sum-create_account now id x l (customer l.deficit_reserve_account_id))

solvent-fund :
    (now : Time) (id : String) (x : Int64) (l : ConservingLedger)
    → customer_funds l + x < half_word
    → customer_funds (fund_account now id x l).1 ≤ customer_funds l + x
unfolding fund_account
solvent-fund now id x l bound = elim (Option-cases (lookup id l.accounts)) [
  | inl new ↦ ground arith
  | inr (a, old) ↦ ground (
    arith,
    le-sum_by (customer l.deficit_reserve_account_id) id a l.accounts old,
    sum-on_account (customer l.deficit_reserve_account_id) id (credit_online now x) l old,
    exact_credit_online now x id a,
  )
]

-- What a call may add to the customers' funds: deposits, opening balances, and what leaves the
-- deficit reserve.
unfoldable pub inflow_of : Request → ConservingLedger → ℕ
inflow_of (create id x) l = x
inflow_of (fund id x) l = x
inflow_of (allocate id x) l = 0
inflow_of (commit_offline id dest x tx) l = inflow id x l
inflow_of (reserve id x tx) l = 0
inflow_of (commit id dest x tx) l = inflow id x l
inflow_of (direct id dest x tx) l = inflow id x l
inflow_of (release id x tx) l = 0
inflow_of (debit_reserve merchant x tx) l = x
inflow_of (overdraw id dest x tx) l = 0

-- The amounts are int64 patterns; the one of a release is not negative, which the code does not
-- test; and no call is the legacy overdraft, which is there to make a balance negative.
abbrev pub IsGuarded : Request → Type 0
IsGuarded (allocate id x) = x < word
IsGuarded (commit_offline id dest x tx) = x < word
IsGuarded (reserve id x tx) = x < word
IsGuarded (commit id dest x tx) = x < word
IsGuarded (direct id dest x tx) = x < word
IsGuarded (release id x tx) = IsNonneg x
IsGuarded (overdraw id dest x tx) = ⊥
IsGuarded (create id x) = Unit
IsGuarded (fund id x) = Unit
IsGuarded (debit_reserve merchant x tx) = Unit

-- A guarded call adds at most its inflow to the customers' funds, as long as that fits in an int64:
-- so no balance of a customer passes below zero, whether the call succeeds or fails.
pub customer_funds-perform :
    (now : Time) (r : Request) (l : ConservingLedger)
    → IsGuarded r
    → customer_funds l + inflow_of r l < half_word
    → customer_funds (after l (perform now r l)) ≤ customer_funds l + inflow_of r l
unfolding perform inflow_of
customer_funds-perform now (create id x) l g b = solvent-create now id x l
customer_funds-perform now (fund id x) l g b = solvent-fund now id x l b
customer_funds-perform now (allocate id x) l g b =
    omega (arith, solvent-allocate now id x "" l (omega arith) g)
customer_funds-perform now (commit_offline id dest x tx) l g b =
    solvent-commit_offline now id x tx l (omega arith) g dest b
customer_funds-perform now (reserve id x tx) l g b =
    omega (arith, solvent-reserve now id x tx l (omega arith) g)
customer_funds-perform now (commit id dest x tx) l g b =
    solvent-commit now id x tx l (omega arith) g dest b
customer_funds-perform now (direct id dest x tx) l g b =
    solvent-direct now id x tx l (omega arith) g dest b
customer_funds-perform now (release id x tx) l g b =
    omega (arith, solvent-release now id x tx l (omega arith) (omega arith) g)
customer_funds-perform now (debit_reserve merchant x tx) l g b =
    solvent-debit_reserve now merchant x tx l b
customer_funds-perform now (overdraw id dest x tx) l g b = absurd g

unfoldable pub inflow_by : List (Time × Request) → ConservingLedger → ℕ
inflow_by [] l = 0
inflow_by ((now, r) ∷ rest) l = inflow_of r l + inflow_by rest (after l (perform now r l))

abbrev pub IsGuardedBy : List (Time × Request) → Type 0
IsGuardedBy [] = Unit
IsGuardedBy ((now, r) ∷ rest) = IsGuarded r × IsGuardedBy rest

-- After any sequence of guarded calls (with int64 amounts, none a legacy overdraft or the release of
-- a negative amount) whose inflows fit in an int64 beside the customers' funds at the start, which
-- makes that start solvent, no customer has a negative bucket.
pub run-IsSolvent :
    (calls : List (Time × Request)) (l : ConservingLedger)
    → IsGuardedBy calls
    → customer_funds l + inflow_by calls l < half_word
    → IsSolvent (run calls l)
unfolding run inflow_by
run-IsSolvent [] l g b = omega arith
run-IsSolvent ((now, r) ∷ rest) l g b =
    run-IsSolvent rest (after l (perform now r l)) g.1
      (omega (arith, customer_funds-perform now r l g.0 (omega arith)))
