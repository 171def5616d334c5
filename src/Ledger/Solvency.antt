-- ===== src/Ledger/Solvency.antt =====
-- No balance of a customer goes below zero: the invariant that the guards of m2_conserving.go keep.
-- The deficit reserve is left out of it, since it is the one account that may be overdrawn.
use payment_risk_engine.Prelude.{
  ℕ, ◌+◌, ◌≤◌, ◌<◌, String, ◌≡◌, true, false, none, some, arith, ◌==◌, eq_iff, if◌then◌else◌,
  lookup, lookup-adjust, sum_by, le-sum_by, Int64, word, half_word, lt64, lt64-nonneg,
  positive_of_guard,
}
use payment_risk_engine.Ledger.Types.{Time, Account, ConservingLedger, credit_online}
use payment_risk_engine.Ledger.Accounts.{create_account, on_account, new_account}
use payment_risk_engine.Ledger.Holds.{settle}
use payment_risk_engine.Ledger.Creation.{
  lookup-create_account_self, lookup-create_account_old, sum-create_account,
}
use payment_risk_engine.Ledger.Settling.{sum-on_account, sum-settle}
use payment_risk_engine.Ledger.Funds.{buckets}
use payment_risk_engine.Ledger.Exact.{exact_credit_online}

-- The patterns of a customer's buckets; the reserve counts nothing.
abbrev pub customer : String → String → Account → ℕ
customer reserve k a = if k == reserve then 0 else buckets k a

abbrev pub customer_funds : ConservingLedger → ℕ
customer_funds l = sum_by (customer l.deficit_reserve_account_id) l.accounts

-- A negative balance has a pattern of 2 ^ 63 or more, so that the bound excludes it.
abbrev pub IsSolvent : ConservingLedger → Type 0
IsSolvent l = customer_funds l < half_word

-- In a solvent ledger every bucket of every customer is 0 or more, and so is their sum.
pub IsSolvent-nonneg :
    (l : ConservingLedger) (id : String) (a : Account)
    → IsSolvent l
    → lookup id l.accounts ≡ some a
    → (id == l.deficit_reserve_account_id) ≡ false
    → buckets id a < half_word
IsSolvent-nonneg l id a s h ne =
    ground (arith, le-sum_by (customer l.deficit_reserve_account_id) id a l.accounts h)

-- What a transfer out of `id` may add to the customers' funds.
abbrev pub inflow : String → Int64 → ConservingLedger → ℕ
inflow id x l = if id == l.deficit_reserve_account_id then x else 0

module _ (now : Time) (id dest : String) (x : Int64) (debit : Account → Account)
    (l : ConservingLedger) where
  solvent-settle :
      (a d : Account)
      → lookup id l.accounts ≡ some a
      → lookup dest l.accounts ≡ some d
      → ((id == l.deficit_reserve_account_id) ≡ false → buckets id (debit a) + x ≡ buckets id a)
      → customer_funds l + inflow id x l < half_word
      → customer_funds (settle id debit dest (credit_online now x) l)
        ≤ customer_funds l + inflow id x l
  unfolding settle on_account
  solvent-settle a d ha hd takes bound =
      let w = customer l.deficit_reserve_account_id in
      ground (
        arith,
        eq_iff id dest,
        eq_iff id l.deficit_reserve_account_id,
        eq_iff dest l.deficit_reserve_account_id,
        takes,
        sum-settle w id dest debit (credit_online now x) l a d ha hd,
        sum-on_account w id debit l ha,
        lookup-adjust id dest debit l.accounts,
        le-sum_by w id a l.accounts ha,
        le-sum_by w dest d l.accounts hd,
        le-sum_by w dest d (on_account id debit l).accounts,
        exact_credit_online now x dest d,
        exact_credit_online now x dest (debit a),
      )

pub solvent-create_account :
    (now : Time) (id : String) (l : ConservingLedger)
    → customer_funds (create_account now id 0 l) ≡ customer_funds l
unfolding create_account
solvent-create_account now id l =
    ground (arith, sum-create_account now id 0 l (customer l.deficit_reserve_account_id))

pub reserve_id-create_account :
    (now : Time) (id : String) (l : ConservingLedger)
    → (create_account now id 0 l).deficit_reserve_account_id ≡ l.deficit_reserve_account_id
unfolding create_account
reserve_id-create_account now id l = ground arith

-- What the two guards of an operation give: the amount is positive and covered.
pub covered :
    (have x : Int64)
    → have < half_word
    → x < word
    → lt64 0 x ≡ true
    → lt64 have x ≡ false
    → (x ≤ have) × (0 < x)
covered have x h w p c = ground (arith, positive_of_guard x w p, lt64-nonneg have x)

module _ (now : Time) (id dest : String) (x : Int64) (debit : Account → Account)
    (l : ConservingLedger) where
  pub solvent-settle_created :
      (a : Account)
      → lookup id l.accounts ≡ some a
      → ((id == l.deficit_reserve_account_id) ≡ false → buckets id (debit a) + x ≡ buckets id a)
      → customer_funds l + inflow id x l < half_word
      → customer_funds (settle id debit dest (credit_online now x) (create_account now dest 0 l))
        ≤ customer_funds l + inflow id x l
  solvent-settle_created a ha takes bound = ground (
    arith,
    solvent-create_account now dest l,
    reserve_id-create_account now dest l,
    solvent-settle now id dest x debit (create_account now dest 0 l) a
        (elim (lookup dest l.accounts) [ none ↦ new_account now dest 0 | some d ↦ d ])
        (lookup-create_account_old now dest 0 l id ha) (lookup-create_account_self now dest 0 l),
  )
