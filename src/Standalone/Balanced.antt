-- ===== src/Standalone/Balanced.antt =====
-- The buckets of an account of fs2601_all_in_one.go add up to its total.
use payment_risk_engine.Prelude.{
  ◌+◌, ◌%◌, String, ◌≡◌, refl, sym, inl, inr, arith, ◌==◌, Bool-cases, Option-cases, lookup, Int64,
  word, lt64, le64, Each, Each-insert, Each-adjust, ◌<◌, insert,
}
use mathlib.Core.Path.{subst}
use payment_risk_engine.Ledger.{Time}
use payment_risk_engine.Standalone.Payable.{commit_offline_result}
use payment_risk_engine.Standalone.{
  Account, ConservingLedger, new_conserving_ledger, account_deficit_reserve, with_account, opened,
  create_account, funded, fund_account, allocated, allocate_offline_allowance, held, reserve_funds,
  paid_out, paid_in, direct_commit, debit_deficit_reserve, customer_charge, offline_charged, absorb,
  deficit_delta, commit_offline_allowance, ends,
}

-- What is available is what is online, and the total is the sum of the three buckets. All of them are
-- patterns of an int64.
pub record IsBalanced (a : Account) : Type 0 where
  pub is_word : a.online_available < word
  pub available : a.available_balance ≡ a.online_available
  pub total :
      a.total_balance ≡ (a.online_available + a.offline_allowance + a.reserved_balance) % word

abbrev pub AllBalanced : ConservingLedger → Type 0
AllBalanced l = Each IsBalanced l.accounts

module _ (now : Time) (x : Int64) where
  opened-IsBalanced : (id : String) → x < word → IsBalanced (opened now id x)
  opened-IsBalanced id w = record { is_word = w; available = refl; total = omega arith }

  module _ (a : Account) (b : IsBalanced a) where
    funded-IsBalanced : IsBalanced (funded now x a)
    unfolding funded
    funded-IsBalanced = record {
      is_word = omega arith;
      available = ground (arith, b.available);
      total = omega (arith, b.total);
    }

    allocated-IsBalanced : IsBalanced (allocated now x a)
    unfolding allocated
    allocated-IsBalanced = record {
      is_word = omega arith;
      available = refl;
      total = omega (arith, b.total);
    }

    held-IsBalanced : IsBalanced (held now x a)
    unfolding held
    held-IsBalanced = record {
      is_word = omega arith;
      available = refl;
      total = omega (arith, b.total);
    }

    paid_out-IsBalanced : IsBalanced (paid_out now x a)
    unfolding paid_out
    paid_out-IsBalanced = record {
      is_word = omega arith;
      available = refl;
      total = omega (arith, b.total);
    }

    paid_in-IsBalanced : IsBalanced (paid_in now x a)
    unfolding paid_in
    paid_in-IsBalanced = record {
      is_word = omega arith;
      available = refl;
      total = omega (arith, b.total);
    }

    offline_charged-IsBalanced : IsBalanced (offline_charged now x a)
    unfolding offline_charged customer_charge
    offline_charged-IsBalanced = record {
      is_word = b.is_word;
      available = b.available;
      total = ground (arith, b.total);
    }

-- A call of the ledger that ends.
pub data Call (l : ConservingLedger) : ConservingLedger → Type 0 where
  create : (now : Time) (id : String) (x : Int64) → x < word → Call l (create_account now id x l)
  fund : (now : Time) (id : String) (x : Int64) → Call l (fund_account now id x l)
  allocate :
      (now : Time) (id : String) (x : Int64) → Call l (allocate_offline_allowance now id x l).1
  reserve :
      (now : Time) (id : String) (x : Int64) (tx : String) → Call l (reserve_funds now id x tx l).2
  direct :
      (now : Time) (from to : String) (x : Int64) (tx : String)
      → Call l (direct_commit now from to x tx l).1
  offline :
      (now : Time) (from to : String) (x : Int64) (tx : String) (d : Int64) (l' : ConservingLedger)
      → commit_offline_allowance now from to x tx l ≡ ends (d, l')
      → Call l l'
  debit_reserve : (now : Time) (x : Int64) (tx : String) → Call l (debit_deficit_reserve now x tx l)

pub data Run (l : ConservingLedger) : ConservingLedger → Type 0 where
  here : Run l l
  next : {u v : ConservingLedger} → Run l u → Call u v → Run l v

module _ (now : Time) (x : Int64) (tx : String) (l : ConservingLedger) (b : AllBalanced l) where
  create_account-AllBalanced : (id : String) → x < word → AllBalanced (create_account now id x l)
  unfolding create_account
  create_account-AllBalanced id w = elim (Option-cases (lookup id l.accounts)) [
    | inl new ↦
        rw (new, create_account)
          (Each-insert IsBalanced id (opened now id x) l.accounts (opened-IsBalanced now x id w) b)
    | inr (a, old) ↦ rw (old, create_account) b
  ]

  allocate-AllBalanced : (id : String) → AllBalanced (allocate_offline_allowance now id x l).1
  unfolding allocate_offline_allowance
  allocate-AllBalanced id = elim (Option-cases (lookup id l.accounts)) [
    | inl new ↦ rw (new, allocate_offline_allowance) b
    | inr (a, old) ↦ elim (Bool-cases (lt64 a.online_available x)) [
      | inl short ↦ rw (old, short, allocate_offline_allowance) b
      | inr enough ↦
          rw (old, enough, allocate_offline_allowance)
            (Each-adjust IsBalanced id (allocated now x) l.accounts (allocated-IsBalanced now x) b)
    ]
  ]

  debit_deficit_reserve-AllBalanced : AllBalanced (debit_deficit_reserve now x tx l)
  unfolding debit_deficit_reserve
  debit_deficit_reserve-AllBalanced =
      elim (Option-cases (lookup account_deficit_reserve l.accounts)) [
        | inl new ↦ rw (new, debit_deficit_reserve) b
        | inr (a, old) ↦
            rw (old, debit_deficit_reserve)
              (Each-adjust IsBalanced account_deficit_reserve (paid_out now x) l.accounts
                (paid_out-IsBalanced now x) b)
      ]

  absorb-AllBalanced : AllBalanced (absorb now x tx l)
  absorb-AllBalanced = elim (Bool-cases (lt64 0 x)) [
    | inl e ↦ rw e debit_deficit_reserve-AllBalanced
    | inr e ↦ rw e b
  ]

  reserve-AllBalanced : (id : String) → AllBalanced (reserve_funds now id x tx l).2
  unfolding reserve_funds
  reserve-AllBalanced id = elim (Bool-cases (le64 x 0)) [
    | inl none_asked ↦ rw (none_asked, reserve_funds) b
    | inr asked ↦ elim (Option-cases (lookup id l.accounts)) [
      | inl new ↦ rw (asked, new, reserve_funds) b
      | inr (a, old) ↦ elim (Bool-cases (lt64 a.online_available x)) [
        | inl short ↦ rw (asked, old, short, reserve_funds) b
        | inr enough ↦
            rw (asked, old, enough, reserve_funds)
              (Each-adjust IsBalanced id (held now x) l.accounts (held-IsBalanced now x) b)
      ]
    ]
  ]

  module _ (from to : String) where
    -- The payer's update, then the payee's.
    moved-AllBalanced :
        (write : Account → Account)
        → ((a : Account) → IsBalanced a → IsBalanced (write a))
        → AllBalanced (with_account to (paid_in now x) (with_account from write l))
    moved-AllBalanced write keeps =
        Each-adjust IsBalanced to (paid_in now x) _ (paid_in-IsBalanced now x)
          (Each-adjust IsBalanced from write l.accounts keeps b)

    direct-AllBalanced : AllBalanced (direct_commit now from to x tx l).1
    unfolding direct_commit
    direct-AllBalanced = elim (Option-cases (lookup from l.accounts)) [
      | inl new ↦ rw (new, direct_commit) b
      | inr (a, ha) ↦ elim (Option-cases (lookup to l.accounts)) [
        | inl new ↦ rw (ha, new, direct_commit) b
        | inr (d, hd) ↦ elim (Bool-cases (from == to)) [
          | inl same ↦ rw (ha, hd, same, direct_commit) b
          | inr apart ↦ elim (Bool-cases (lt64 a.online_available x)) [
            | inl short ↦ rw (ha, hd, apart, short, direct_commit) b
            | inr enough ↦
                rw (ha, hd, apart, enough, direct_commit)
                  (moved-AllBalanced (paid_out now x) (paid_out-IsBalanced now x))
          ]
        ]
      ]
    ]

Call-AllBalanced : {l l' : ConservingLedger} → Call l l' → AllBalanced l → AllBalanced l'
unfolding fund_account
Call-AllBalanced {l} (create now id x w) b = create_account-AllBalanced now x "" l b id w
Call-AllBalanced {l} (fund now id x) b =
    Each-adjust IsBalanced id (funded now x) _ (funded-IsBalanced now x)
      (create_account-AllBalanced now 0 "" l b id (omega arith))
Call-AllBalanced {l} (allocate now id x) b = allocate-AllBalanced now x "" l b id
Call-AllBalanced {l} (reserve now id x tx) b = reserve-AllBalanced now x tx l b id
Call-AllBalanced {l} (direct now from to x tx) b = direct-AllBalanced now x tx l b from to
Call-AllBalanced {l} (debit_reserve now x tx) b = debit_deficit_reserve-AllBalanced now x tx l b
Call-AllBalanced {l} (offline now from to x tx d l' h) b =
    let (p, e) = commit_offline_result now from to x tx l h in
    subst (λ r. AllBalanced r.1) (sym e)
      (absorb-AllBalanced now (deficit_delta x p.payer) tx _ (
        moved-AllBalanced now x tx l b from to (offline_charged now x)
          (offline_charged-IsBalanced now x)))

-- Whatever is called of a new ledger, each account has its online funds available, and its total is
-- the sum of its three buckets, as long as the opening balances are int64.
pub Run-AllBalanced :
    (now : Time) {l : ConservingLedger} → Run (new_conserving_ledger now) l → AllBalanced l
unfolding new_conserving_ledger create_account insert lookup
Run-AllBalanced now here =
    (opened-IsBalanced now 100000000 account_deficit_reserve (omega arith), tt)
Run-AllBalanced now (next r c) = Call-AllBalanced c (Run-AllBalanced now r)
